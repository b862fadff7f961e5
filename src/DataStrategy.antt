-- ===== src/DataStrategy.antt =====
-- ucm_data_strategy/data_strategy.{h,cc}: class DataStrategy with UCM_RUNTIME_ASCEND_HAL set. One
-- object holds, for each rank, a reserved address, a memory handle and whether they are mapped.
-- Here are the state, `ReserveRankAddress`, `Reset` and the three lookups; `Setup` has the rest.
pub mod Setup
pub mod Reset
pub mod Accounts
pub mod Steps
pub mod Fill
pub mod Stages
pub mod Local
pub mod Peer
pub mod Peers
pub mod Body
pub mod Lifecycle
pub mod Addresses
pub mod Wait
use ascend_hal_sharing_probe.Prelude.{
  ℕ, suc, ◌+◌, ◌-◌, ◌*◌, ◌/◌, ◌%◌, ℤ, Bool, true, false, not, ◌&&◌, ◌||◌, none, some, List, [], ◌∷◌,
  ◌++◌, length, get_elem?, set, take, replicate, ltb, leb, ◌==◌, if◌then◌else◌, size_mod, lcm,
}
use ascend_hal_sharing_probe.Status.{Status, plain, ok_status, error_status, failure}
use ascend_hal_sharing_probe.Effects.{
  Driver, ok, fault, out_of_bounds, lcm_overflow, M, pure, crash, gets, modify, ◌>>=◌, ◌>>◌,
}
use ascend_hal_sharing_probe.HalMemory.{
  mem_address_reserve, mem_address_free, mem_release, mem_unmap,
}

-- A null pointer is 0.
pub record Mapping : Type 0 where
  pub handle : ℕ
  pub addr : ℕ
  pub mapped : Bool

abbrev pub blank : Mapping
blank = record { handle = 0; addr = 0; mapped = false }

pub record DataStrategy : Type 0 where
  pub slot_size : ℕ
  pub n_slots_per_rank : ℕ
  pub mappings : List Mapping
  pub owner : ℕ
  pub device_id : ℤ
  pub rank_stride : ℕ

-- The members' initialisers; `deviceId_{-1}`.
abbrev pub data_strategy : DataStrategy
data_strategy = record {
  slot_size = 0;
  n_slots_per_rank = 0;
  mappings = [];
  owner = 0;
  device_id = ℤ.negsuc 0;
  rank_stride = 0;
}

abbrev pub Action : Type 0 → Type 0
Action A = M DataStrategy A

-- `if (status.Failure()) { return status; }` before the rest.
abbrev pub unless_failed : Status → Action Status → Action Status
unless_failed status rest = if failure status then pure status else rest

-- `mappings_[rank]`
unfoldable pub at : ℕ → Action Mapping
at rank w = elim (get_elem? w.self.mappings rank) [
  | none ↦ (fault out_of_bounds, w)
  | some m ↦ (ok m, w)
]

abbrev pub put : ℕ → Mapping → Action (Unit {0})
put rank m = modify (λ s. record s { mappings = set s.mappings rank m })

-- `std::vector::resize`
abbrev pub resize : ℕ → List Mapping → List Mapping
resize n ms = take n ms ++ replicate (n - length ms) blank

-- `std::lcm(vaAlignment, allocGranularity)`; a result that `size_t` does not hold is undefined.
unfoldable pub checked_lcm : ℕ → ℕ → Action ℕ
unfolding lcm
checked_lcm a b = if ltb (lcm a b) size_mod then pure (lcm a b) else crash lcm_overflow

-- `(dataBytes + allocationAlignment - 1) / allocationAlignment * allocationAlignment`
unfoldable pub round_up : ℕ → ℕ → ℕ
round_up bytes alignment = (bytes + alignment + (size_mod - 1)) % size_mod / alignment * alignment

module _ (d : Driver) where
  unfoldable pub reserve_rank_address : ℕ → Action Status
  reserve_rank_address rank = do
    m ← at rank
    stride ← gets (λ s. s.rank_stride)
    (status, addr) ← mem_address_reserve d stride
    put rank (record m { addr = addr })
    unless_failed status (
        pure
          (if addr == 0 then error_status (plain "HAL did not return a valid ptr") else ok_status))

  -- The three passes of `Reset`; a failure is logged and does not stop a pass.
  abbrev pub unmap_one : Mapping → Action (Unit {0})
  unmap_one m = if m.mapped then (do status ← mem_unmap d m.addr; pure tt) else pure tt

  abbrev pub release_one : Mapping → Action (Unit {0})
  release_one m = if m.handle == 0 then pure tt else (do status ← mem_release d m.handle; pure tt)

  abbrev pub free_one : Mapping → Action (Unit {0})
  free_one m = if m.addr == 0 then pure tt else (do status ← mem_address_free d m.addr; pure tt)

  unfoldable pub for_each : (Mapping → Action (Unit {0})) → List Mapping → Action (Unit {0})
  for_each f [] = pure tt
  for_each f (m ∷ ms) = f m >> for_each f ms

  -- `for (rank...) if (rank != owner_) release(rank)`, from a given rank on.
  unfoldable pub release_peers : ℕ → ℕ → List Mapping → Action (Unit {0})
  release_peers owner rank [] = pure tt
  release_peers owner rank (m ∷ ms) =
      (if rank == owner then pure tt else release_one m) >> release_peers owner (suc rank) ms

  abbrev pub release_owner : ℕ → List Mapping → Action (Unit {0})
  release_owner owner ms = elim (get_elem? ms owner) [ none ↦ pure tt | some m ↦ release_one m ]

  abbrev pub give_back : DataStrategy → Action (Unit {0})
  give_back s = do
    for_each unmap_one s.mappings
    release_peers s.owner 0 s.mappings
    release_owner s.owner s.mappings
    for_each free_one s.mappings

  unfoldable pub reset : Action (Unit {0})
  unfolding for_each release_peers
  reset = do
    s ← gets (λ s. s)
    give_back s
    modify (λ s. record s { mappings = []; rank_stride = 0 })

abbrev pub host_accessible_of : DataStrategy → ℕ → Bool
host_accessible_of s slot = not (s.n_slots_per_rank == 0) && slot / s.n_slots_per_rank == s.owner

-- `static_cast<std::byte*>(addr) + (slotIdx % nSlotsPerRank_) * slotSize_`
abbrev pub slot_address : DataStrategy → Mapping → ℕ → ℕ
slot_address s m slot = (m.addr + slot % s.n_slots_per_rank * s.slot_size % size_mod) % size_mod

abbrev pub mapped_address : DataStrategy → ℕ → ℕ
mapped_address s slot = elim (get_elem? s.mappings (slot / s.n_slots_per_rank)) [
  | none ↦ 0
  | some m ↦ if m.mapped then slot_address s m slot else 0
]

unfoldable pub data_at : DataStrategy → ℕ → ℕ
data_at s slot =
    if s.n_slots_per_rank == 0
    then 0
    else if slot / s.n_slots_per_rank == s.owner
    then mapped_address s slot
    else 0

unfoldable pub device_data_at : DataStrategy → ℕ → ℕ
device_data_at s slot =
    if s.n_slots_per_rank == 0
    then 0
    else if slot / s.n_slots_per_rank == s.owner
    then 0
    else mapped_address s slot

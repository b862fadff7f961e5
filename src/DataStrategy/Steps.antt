-- ===== src/DataStrategy/Steps.antt =====
-- One driver call of `LocalSetup` or `CrossRankSetup` at one mapping: what it leaves behind.
use ascend_hal_sharing_probe.Prelude.{
  ℕ, zero, suc, pos, ◌+◌, ◌≡◌, ◌≢◌, refl, ap, true, false, some, List, [], ◌∷◌, arith, get_elem?,
  set, ◌==◌, if◌then◌else◌, is_zero,
}
use ascend_hal_sharing_probe.Status.{
  Status, plain, ok_status, error_status, success, failure, rewrap,
}
use ascend_hal_sharing_probe.Effects.{
  Call, Reply, Driver, Outcome, ok, threw, fault, World, address_reserve, import_handle, mem_map,
}
use ascend_hal_sharing_probe.HalMemory.{from_hal_error}
use ascend_hal_sharing_probe.Effects.Ledger.{
  Resource, address, memory, mapping, IsReal, gained, lost, gains, losses, history, losses-append,
}
use ascend_hal_sharing_probe.DataStrategy.{DataStrategy, Mapping, at, reserve_rank_address}
use ascend_hal_sharing_probe.DataStrategy.Setup.{map_rank, import_peer}
use ascend_hal_sharing_probe.DataStrategy.Accounts.{held, held_all-set, Accounted}

-- A world after the call `c`, with `m` put at a rank.
abbrev pub stepped : Driver → Call → ℕ → Mapping → World DataStrategy → World DataStrategy
stepped d c rank m w = record w {
  self = record w.self { mappings = set w.self.mappings rank m };
  trace = (c, d w.trace c) ∷ w.trace;
}

-- A mapping whose range is reserved and mapped.
pub record IsComplete (m : Mapping) : Type 0 where
  pub reserved : m.addr ≢ 0
  pub is_mapped : m.mapped ≡ true

-- The books are kept by a step if what the call gains and loses is what the mapping gains.
pub stepped-Accounted :
    (d : Driver) (c : Call) (rank : ℕ) (m m' : Mapping) (w : World DataStrategy)
    → Accounted w
    → get_elem? w.self.mappings rank ≡ some m
    → ((x : Resource) → IsReal x → held x m' ≡ held x m + gained x c (d w.trace c))
    → ((x : Resource) → lost x c ≡ 0)
    → Accounted (stepped d c rank m' w)
unfolding gains losses history
stepped-Accounted d c rank m m' w h e grow keep x real = omega (
  arith,
  h x real,
  grow x real,
  keep x,
  held_all-set x w.self.mappings rank m' e,
  losses-append x (history w.trace) (c ∷ []),
)

pub set-set {ℓ} : {A : Type ℓ} (xs : List A) (i : ℕ) (a b : A) → set (set xs i a) i b ≡ set xs i b
set-set [] i a b = refl
set-set (x ∷ xs) zero a b = refl
set-set (x ∷ xs) (suc i) a b = ap (◌∷◌ x) (set-set xs i a b)

-- What an attempt to fill the mapping at a rank leaves: the books kept, the other ranks as they
-- were, and a complete mapping if it succeeds.
abbrev pub Filled : ℕ → World DataStrategy → Outcome Status × World DataStrategy → Type 0
Filled rank w (ok status, w') =
    (m : Mapping) × Accounted w'
    × (w'.self ≡ record w.self { mappings = set w.self.mappings rank m })
    × (success status ≡ true → IsComplete m)
Filled rank w (threw e, w') = ⊥
Filled rank w (fault f, w') = ⊥

pub at_run :
    (rank : ℕ) (m : Mapping) (w : World DataStrategy)
    → get_elem? w.self.mappings rank ≡ some m
    → at rank w ≡ (ok m, w)
unfolding at
at_run rank m w e = rw (e, at)

abbrev pub reserve_status : Reply → Status
reserve_status r =
    let status = from_hal_error "halMemAddressReserve" r.ret in
    if failure status
    then status
    else if r.out == 0
    then error_status (plain "HAL did not return a valid ptr")
    else ok_status

module _ (d : Driver) (rank : ℕ) (m : Mapping) (w : World DataStrategy)
    (e : get_elem? w.self.mappings rank ≡ some m) where
  abbrev pub reserved : Reply
  reserved = d w.trace (address_reserve w.self.rank_stride)

  pub reserve_run : reserve_rank_address d rank w ≡ (
    ok (reserve_status reserved),
    stepped d (address_reserve w.self.rank_stride) rank (record m { addr = reserved.out }) w,
  )
  unfolding reserve_rank_address
  reserve_run = rw (at_run rank m w e) (ground arith)

  abbrev pub imported : ℕ → Reply
  imported token = d w.trace (import_handle token w.self.device_id)

  -- The handle is taken over on success only.
  abbrev pub taken : Mapping → Reply → Mapping
  taken n r = record n { handle = if is_zero r.ret then r.out else n.handle }

  abbrev pub import_status : Reply → Status
  import_status r =
      let status = from_hal_error "halMemImportFromShareableHandle" r.ret in
      if failure status
      then rewrap "HAL peer import failed: rank={} status={}" (pos rank ∷ []) status
      else ok_status

  pub import_run :
      (token : ℕ)
      → import_peer d rank token w ≡ (
        ok (import_status (imported token)),
        stepped d (import_handle token w.self.device_id) rank (taken m (imported token)) w,
      )
  unfolding import_peer
  import_run token = rw (at_run rank m w e) (ground arith)

  -- `map_rank`: on failure the mappings stay as they were.
  abbrev pub map_of : Call
  map_of = mem_map m.addr w.self.rank_stride m.handle

  abbrev pub only_called : Call → World DataStrategy
  only_called c = record w { trace = (c, d w.trace c) ∷ w.trace }

  pub map_run_ok :
      (wrap : Status → Status)
      → is_zero (d w.trace map_of).ret ≡ true
      → map_rank d wrap rank w
        ≡ (ok ok_status, stepped d map_of rank (record m { mapped = true }) w)
  map_run_ok wrap z = rw (at_run rank m w e) (ground arith)

  pub map_run_failed :
      (wrap : Status → Status)
      → is_zero (d w.trace map_of).ret ≡ false
      → map_rank d wrap rank w
        ≡ (ok (wrap (from_hal_error "halMemMap" (d w.trace map_of).ret)), only_called map_of)
  map_run_failed wrap z = rw (at_run rank m w e) (ground arith)

  pub reserve-Accounted :
      m.addr ≡ 0
      → m.mapped ≡ false
      → Accounted w
      → Accounted
          (stepped d (address_reserve w.self.rank_stride) rank (record m { addr = reserved.out }) w)
  reserve-Accounted z n h = stepped-Accounted d _ rank m _ w h e grow keep
    where
      grow :
          (x : Resource)
          → IsReal x
          → held x (record m { addr = reserved.out })
            ≡ held x m + gained x (address_reserve w.self.rank_stride) reserved
      grow (address a) real = ground arith
      grow (memory a) real = ground arith
      grow (mapping a) real = ground arith

      keep : (x : Resource) → lost x (address_reserve w.self.rank_stride) ≡ 0
      keep (address a) = refl
      keep _ = refl

  pub import-Accounted :
      (token : ℕ)
      → m.handle ≡ 0
      → Accounted w
      → Accounted
          (stepped d (import_handle token w.self.device_id) rank (taken m (imported token)) w)
  import-Accounted token z h = stepped-Accounted d _ rank m _ w h e grow keep
    where
      grow :
          (x : Resource)
          → IsReal x
          → held x (taken m (imported token))
            ≡ held x m + gained x (import_handle token w.self.device_id) (imported token)
      grow (address a) real = ground arith
      grow (memory a) real = ground arith
      grow (mapping a) real = ground arith

      keep : (x : Resource) → lost x (import_handle token w.self.device_id) ≡ 0
      keep (address a) = refl
      keep _ = refl

  pub map-Accounted :
      m.mapped ≡ false
      → is_zero (d w.trace map_of).ret ≡ true
      → Accounted w
      → Accounted (stepped d map_of rank (record m { mapped = true }) w)
  map-Accounted n z h = stepped-Accounted d _ rank m _ w h e grow keep
    where
      grow :
          (x : Resource)
          → IsReal x
          → held x (record m { mapped = true }) ≡ held x m + gained x map_of (d w.trace map_of)
      grow (address a) real = ground arith
      grow (memory a) real = ground arith
      grow (mapping a) real = ground arith

      keep : (x : Resource) → lost x map_of ≡ 0
      keep (address a) = refl
      keep _ = refl

  pub map_failed-Accounted :
      is_zero (d w.trace map_of).ret ≡ false → Accounted w → Accounted (only_called map_of)
  unfolding gains losses history
  map_failed-Accounted z h (address a) real =
      omega (arith, h (address a) real, losses-append (address a) (history w.trace) (map_of ∷ []))
  map_failed-Accounted z h (memory a) real =
      omega (arith, h (memory a) real, losses-append (memory a) (history w.trace) (map_of ∷ []))
  map_failed-Accounted z h (mapping a) real =
      ground (arith, h (mapping a) real, losses-append (mapping a) (history w.trace) (map_of ∷ []))

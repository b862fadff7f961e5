-- ===== src/DataStrategy/Addresses.antt =====
-- The stride of a rank and the addresses that `DataAt` and `DeviceDataAt` give out.
use ascend_hal_sharing_probe.Prelude.{
  lcm, lcm-dvd, ℕ, suc, ◌+◌, ◌-◌, ◌*◌, ◌/◌, ◌%◌, ◌≤◌, ◌<◌, ◌≡◌, ◌≢◌, inr, refl, ap, subst, ◌∙◌,
  true, false, some, arith, get_elem?, ◌==◌, size_mod,
}
use Prim.Native.Nat.{◌∣◌}
use ascend_hal_sharing_probe.HalMemory.{address_alignment}
use native.Mathlib.Nat.{
  dvd-mul_left_of_dvd, mod-lt, mod-eq_of_lt, div-add-mod', div-mul-le_self, lt-div-mul-add,
  div-lt_iff_lt-mul, mul-le-mul_right, suc-mul,
}
use ascend_hal_sharing_probe.DataStrategy.{
  DataStrategy, Mapping, round_up, slot_address, mapped_address, data_at, device_data_at,
}
use ascend_hal_sharing_probe.DataStrategy.Stages.{Staged}

-- For an alignment that is not 0, as long as the sum of the size and the alignment is at most 2^64,
-- the stride is the least multiple of the
-- alignment that covers the data.
pub round_up_covers :
    (bytes alignment : ℕ)
    → 0 < alignment
    → bytes + alignment ≤ size_mod
    → (bytes ≤ round_up bytes alignment)
      × (round_up bytes alignment < bytes + alignment)
      × ((count : ℕ) × (round_up bytes alignment ≡ count * alignment))
unfolding round_up
round_up_covers bytes alignment pos fits =
    let top = bytes + alignment - 1 in
    let e : (bytes + alignment + (size_mod - 1)) % size_mod ≡ top = omega arith in
    rw e (
      omega (arith, lt-div-mul-add {a = top} pos),
      omega (arith, div-mul-le_self top alignment),
      (top / alignment, refl),
    )

-- The stride is a multiple of the address alignment and of the driver's granularity.
stride_aligned :
    (bytes granularity : ℕ)
    → (address_alignment ∣ round_up bytes (lcm address_alignment granularity))
      × (granularity ∣ round_up bytes (lcm address_alignment granularity))
unfolding round_up
stride_aligned bytes granularity =
    let (p, q) = lcm-dvd address_alignment granularity in
    (dvd-mul_left_of_dvd _ p _, dvd-mul_left_of_dvd _ q _)

-- For a size that `size_t` holds and an alignment of at most 2^64: when their sum exceeds 2^64, it wraps and the stride is smaller than the data.
pub round_up_wraps :
    (bytes alignment : ℕ)
    → bytes < size_mod
    → alignment ≤ size_mod
    → size_mod < bytes + alignment
    → round_up bytes alignment < bytes
unfolding round_up
round_up_wraps bytes alignment fits small over =
    let top = bytes + alignment - 1 - size_mod in
    let e : (bytes + alignment + (size_mod - 1)) % size_mod ≡ top = omega arith in
    rw e (omega (arith, div-mul-le_self top alignment))

-- Where a slot lies inside its rank's range.
abbrev pub offset_of : DataStrategy → ℕ → ℕ
offset_of s slot = slot % s.n_slots_per_rank * s.slot_size

-- The slots of the mapping fit the address space.
abbrev pub Fits : DataStrategy → Mapping → Type 0
Fits s m = m.addr + s.n_slots_per_rank * s.slot_size < size_mod

offset-InRange :
    (s : DataStrategy) (slot : ℕ)
    → s.n_slots_per_rank ≢ 0
    → offset_of s slot + s.slot_size ≤ s.n_slots_per_rank * s.slot_size
offset-InRange s slot some_slots =
    let inside : slot % s.n_slots_per_rank < s.n_slots_per_rank =
      mod-lt slot {m = s.n_slots_per_rank} (omega arith) in
    omega (
      arith,
      mul-le-mul_right {m = suc (slot % s.n_slots_per_rank)} {n = s.n_slots_per_rank} s.slot_size
          (omega arith),
      suc-mul (slot % s.n_slots_per_rank) s.slot_size,
    )

slot_address_lem :
    (s : DataStrategy) (m : Mapping) (slot : ℕ)
    → s.n_slots_per_rank ≢ 0
    → Fits s m
    → slot_address s m slot ≡ m.addr + offset_of s slot
slot_address_lem s m slot some_slots fits =
    let small : offset_of s slot < size_mod = omega (arith, offset-InRange s slot some_slots) in
    let sum : m.addr + offset_of s slot < size_mod =
      omega (arith, offset-InRange s slot some_slots) in
    ap (λ (o : ℕ). (m.addr + o) % size_mod) (mod-eq_of_lt small) ∙ mod-eq_of_lt sum

mapped_address_lem :
    (s : DataStrategy) (m : Mapping) (slot : ℕ)
    → get_elem? s.mappings (slot / s.n_slots_per_rank) ≡ some m
    → m.mapped ≡ true
    → mapped_address s slot ≡ slot_address s m slot
mapped_address_lem s m slot found is_mapped = rw (mapped_address, found, is_mapped) refl

-- What the two lookups say of one slot: its own rank's goes to `DataAt`, a peer's to
-- `DeviceDataAt`, and the other one is null.
pub record IsServed (s : DataStrategy) (m : Mapping) (slot : ℕ) : Type 0 where
  pub mine :
      slot / s.n_slots_per_rank ≡ s.owner
      → (data_at s slot ≡ m.addr + offset_of s slot) × (device_data_at s slot ≡ 0)
  pub theirs :
      slot / s.n_slots_per_rank ≢ s.owner
      → (device_data_at s slot ≡ m.addr + offset_of s slot) × (data_at s slot ≡ 0)
  pub inside : offset_of s slot + s.slot_size ≤ s.n_slots_per_rank * s.slot_size

-- In an object that is set up over `n` ranks, each of the `n * nSlotsPerRank` slots has a mapping
-- with a base address that is not null, and if the range fits the address space exactly one of
-- `DataAt` and `DeviceDataAt` returns base plus offset, with the whole slot inside the range.
pub slots-IsServed :
    (s : DataStrategy) (n slot : ℕ)
    → s.n_slots_per_rank ≢ 0
    → Staged n s.owner n s.mappings
    → slot < n * s.n_slots_per_rank
    → ((i : ℕ) (m : Mapping) → get_elem? s.mappings i ≡ some m → Fits s m)
    → (m : Mapping) × (get_elem? s.mappings (slot / s.n_slots_per_rank) ≡ some m)
      × (m.addr ≢ 0)
      × IsServed s m slot
unfolding data_at device_data_at
slots-IsServed s n slot some_slots staged below fits =
    let rank = slot / s.n_slots_per_rank in
    let rank_lt : rank < n =
      (div-lt_iff_lt-mul {k = s.n_slots_per_rank} {x = slot} {y = n} (omega arith)).1 below in
    let (m, found, complete) = staged.done rank rank_lt (inr rank_lt) in
    let address : mapped_address s slot ≡ m.addr + offset_of s slot =
      mapped_address_lem s m slot found complete.is_mapped
      ∙ slot_address_lem s m slot some_slots (fits rank m found) in
    let counted : (s.n_slots_per_rank == 0) ≡ false = ground arith in
    (
      m,
      found,
      complete.reserved,
      record {
        mine = λ own.
            let e : (rank == s.owner) ≡ true = ground arith in rw (counted, e) (address, refl);
        theirs = λ other.
            let e : (rank == s.owner) ≡ false = ground arith in rw (counted, e) (address, refl);
        inside = offset-InRange s slot some_slots;
      },
    )

offset-disjoint :
    (s : DataStrategy) (i j : ℕ)
    → s.n_slots_per_rank ≢ 0
    → i / s.n_slots_per_rank ≡ j / s.n_slots_per_rank
    → i < j
    → offset_of s i + s.slot_size ≤ offset_of s j
offset-disjoint s i j some_slots same lt =
    let k = s.n_slots_per_rank in
    let before : suc (i % k) ≤ j % k =
      omega (arith, div-add-mod' i k, div-add-mod' j k, ap (λ (q : ℕ). q * k) same) in
    omega (
      arith,
      mul-le-mul_right {m = suc (i % k)} {n = j % k} s.slot_size before,
      suc-mul (i % k) s.slot_size,
    )

-- Of two slots, the lookup's answers for the first and for the second lie apart in the mapping's range.
abbrev pub LieApart : DataStrategy → Mapping → (ℕ → ℕ) → ℕ → ℕ → Type 0
LieApart s m lookup i j =
    (m.addr ≤ lookup i)
    × (lookup i + s.slot_size ≤ lookup j)
    × (lookup j + s.slot_size ≤ m.addr + s.n_slots_per_rank * s.slot_size)

-- With at least one slot per rank, for two slots of one rank whose mapping is mapped and whose slots fit
-- the address space: where the rank is the owner, `DataAt` gives the earlier slot an address such that
-- it ends before the address of the later, both inside the mapping's slots; where it is a peer, so does
-- `DeviceDataAt`.
pub data_at-disjoint :
    (s : DataStrategy) (m : Mapping) (i j : ℕ)
    → s.n_slots_per_rank ≢ 0
    → i / s.n_slots_per_rank ≡ j / s.n_slots_per_rank
    → i < j
    → get_elem? s.mappings (i / s.n_slots_per_rank) ≡ some m
    → m.mapped ≡ true
    → Fits s m
    → (i / s.n_slots_per_rank ≡ s.owner → LieApart s m (data_at s) i j)
      × (i / s.n_slots_per_rank ≢ s.owner → LieApart s m (device_data_at s) i j)
unfolding data_at device_data_at
data_at-disjoint s m i j some_slots same lt found is_mapped fits = (
  λ own.
      let e : (i / s.n_slots_per_rank == s.owner) ≡ true = ground arith in
      let e' : (j / s.n_slots_per_rank == s.owner) ≡ true = ground arith in
      rw (counted, e, e') apart,
  λ other.
      let e : (i / s.n_slots_per_rank == s.owner) ≡ false = ground arith in
      let e' : (j / s.n_slots_per_rank == s.owner) ≡ false = ground arith in
      rw (counted, e, e') apart,
)
  where
    counted : (s.n_slots_per_rank == 0) ≡ false
    counted = ground arith

    at_first : mapped_address s i ≡ m.addr + offset_of s i
    at_first = mapped_address_lem s m i found is_mapped ∙ slot_address_lem s m i some_slots fits

    at_second : mapped_address s j ≡ m.addr + offset_of s j
    at_second =
        mapped_address_lem s m j (subst (λ (r : ℕ). get_elem? s.mappings r ≡ some m) same found)
          is_mapped
        ∙ slot_address_lem s m j some_slots fits

    apart : LieApart s m (mapped_address s) i j
    apart = (
      omega (arith, at_first),
      omega (arith, at_first, at_second, offset-disjoint s i j some_slots same lt),
      omega (arith, at_second, offset-InRange s j some_slots),
    )

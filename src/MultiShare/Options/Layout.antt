-- ===== src/MultiShare/Options/Layout.antt =====
-- What the checks of the options leave.
use ascend_hal_sharing_probe.Prelude.{
  ℕ, zero, suc, ◌+◌, ◌-◌, ◌*◌, ◌%◌, ◌≤◌, ◌<◌, ◌≡◌, ◌≢◌, refl, ap, ◌∙◌, Bool, false, some, List, [],
  ◌∷◌, arith, size_mod, length, get_elem?,
}
use native.Mathlib.Nat.{mul-le-mul_right, mod-eq_of_lt, mul_comm, add-mul}
use ascend_hal_sharing_probe.MultiShare.Options.{
  MultiOptions, contains, has_duplicate, is_refused, reserve_bytes, slice, va_alignment,
}

-- Options that the program can work with.
pub record IsLaidOut (o : MultiOptions) : Type 0 where
  pub some_devices : 0 < length o.devices
  pub few_devices : length o.devices ≤ 64
  pub one_node_each : length o.nodes ≡ length o.devices
  pub distinct :
      (i j : ℕ) (n : ℕ) → get_elem? o.devices i ≡ some n → get_elem? o.devices j ≡ some n → i ≡ j
  pub aligned : (k : ℕ) × (reserve_bytes o ≡ k * va_alignment)
  pub covers : o.bytes * length o.devices ≤ reserve_bytes o
  pub close : reserve_bytes o < o.bytes * length o.devices + va_alignment

not-contains :
    (n m : ℕ) (ms : List ℕ) (j : ℕ) → contains n ms ≡ false → get_elem? ms j ≡ some m → n ≢ m
unfolding contains
not-contains n m [] j h e same = ground arith
not-contains n m (x ∷ xs) zero h e same = ground arith
not-contains n m (x ∷ xs) (suc j) h e same = not-contains n m xs j (ground arith) e same

distinct_elements :
    (ns : List ℕ) (i j n : ℕ)
    → has_duplicate ns ≡ false
    → get_elem? ns i ≡ some n
    → get_elem? ns j ≡ some n
    → i ≡ j
unfolding has_duplicate
distinct_elements [] i j n h a b = ground arith
distinct_elements (x ∷ xs) zero zero n h a b = refl
distinct_elements (x ∷ xs) zero (suc j) n h a b =
    absurd (not-contains x n xs j (ground arith) b (ground arith))
distinct_elements (x ∷ xs) (suc i) zero n h a b =
    absurd (not-contains x n xs i (ground arith) a (ground arith))
distinct_elements (x ∷ xs) (suc i) (suc j) n h a b =
    ap suc (distinct_elements xs i j n (ground arith) a b)

-- Options that the checks let pass name 1 to 64 devices, each once, and a NUMA node for each; the
-- reserved length is the least multiple of 1 GiB that holds the slices of all devices, and none of the
-- sums and products of size_t wraps.
pub is_refused-IsLaidOut :
    (visible : Bool) (o : MultiOptions) → is_refused visible o ≡ false → IsLaidOut o
unfolding is_refused reserve_bytes
is_refused-IsLaidOut visible o h =
    let count = length o.devices in
    let fits : o.bytes * count ≤ size_mod - va_alignment = ground arith in
    let whole : o.bytes * count % size_mod ≡ o.bytes * count = mod-eq_of_lt (omega arith) in
    let no_wrap : (o.bytes * count % size_mod + (va_alignment - 1)) % size_mod
        ≡ o.bytes * count + (va_alignment - 1) =
      ap (λ (n : ℕ). (n + (va_alignment - 1)) % size_mod) whole ∙ mod-eq_of_lt (omega arith) in
    record {
      some_devices = ground arith;
      few_devices = ground arith;
      one_node_each = ground arith;
      distinct = λ i j n a b. distinct_elements o.devices i j n (ground arith) a b;
      aligned = (_, refl);
      covers = omega (arith, no_wrap);
      close = omega (arith, no_wrap);
    }

-- A slice within the reserved range is where it would be without wrapping.
slice-exact :
    (o : MultiOptions) (base i : ℕ)
    → IsLaidOut o
    → base + reserve_bytes o ≤ size_mod
    → 0 < o.bytes
    → i < length o.devices
    → (slice o base i ≡ base + i * o.bytes)
      × (base + i * o.bytes + o.bytes ≤ base + reserve_bytes o)
unfolding slice
slice-exact o base i h fits some_bytes lt =
    let inside : i * o.bytes + o.bytes ≤ o.bytes * length o.devices = omega (
      arith,
      mul-le-mul_right {m = suc i} {n = length o.devices} o.bytes lt,
      mul_comm (length o.devices) o.bytes,
      add-mul i 1 o.bytes,
    ) in
    let small : i * o.bytes % size_mod ≡ i * o.bytes = mod-eq_of_lt (omega (arith, h.covers)) in
    (
      ap (λ (n : ℕ). (base + n) % size_mod) small ∙ mod-eq_of_lt (omega (arith, h.covers)),
      omega (arith, h.covers),
    )

-- With options that pass the checks, some bytes for each device and a reserved range that fits the
-- address space, the slice of an earlier owner ends before that of a later one begins, and every slice
-- lies within the reserved range.
pub slice-disjoint :
    (visible : Bool) (o : MultiOptions) (base i j : ℕ)
    → is_refused visible o ≡ false
    → base + reserve_bytes o ≤ size_mod
    → 0 < o.bytes
    → i < j
    → j < length o.devices
    → (slice o base i + o.bytes ≤ slice o base j)
      × (slice o base j + o.bytes ≤ base + reserve_bytes o)
slice-disjoint visible o base i j accepted fits some_bytes lt below =
    let h = is_refused-IsLaidOut visible o accepted in
    let (ei, bi) = slice-exact o base i h fits some_bytes (omega arith) in
    let (ej, bj) = slice-exact o base j h fits some_bytes below in
    let apart : i * o.bytes + o.bytes ≤ j * o.bytes =
      omega (arith, mul-le-mul_right {m = suc i} {n = j} o.bytes lt, add-mul i 1 o.bytes) in
    (omega (arith, ei, ej, apart), omega (arith, ej, bj))

-- ===== src/Aio/Options/Checked.antt =====
-- What the checks of the options leave.
use ascend_hal_sharing_probe.Prelude.{
  ℕ, ◌*◌, ◌/◌, ◌%◌, ◌≤◌, ◌<◌, ◌≡◌, ◌≢◌, ap, ◌∙◌, false, inl, inr, arith, ◌==◌, Bool-cases, size_mod,
}
use native.Mathlib.Nat.{div-mul-le_self, mul-le-mul_right, div-add-mod', mod-eq_of_lt}
use ascend_hal_sharing_probe.Aio.Psync.{chunk}
use ascend_hal_sharing_probe.Aio.Options.{
  AioOptions, sizes, max_bytes, has_bad_tensor, is_refused, total_bytes,
}

-- Sizes that the transfers can work with.
pub record IsChecked (o : AioOptions) : Type 0 where
  pub some_bytes : chunk (sizes o) ≢ 0
  pub whole : (k : ℕ) × (k * chunk (sizes o) ≡ o.slot_bytes)
  pub exact : total_bytes o ≡ o.blocks * o.shards * o.slot_bytes
  pub bounded : o.blocks * o.shards * o.slot_bytes ≤ max_bytes
  pub some_depth : 0 < o.depth

product_le : (a b : ℕ) → a ≤ max_bytes / b → a * b ≤ max_bytes
product_le a b small =
    omega (arith, mul-le-mul_right {m = a} {n = max_bytes / b} b small, div-mul-le_self max_bytes b)

chunk-whole :
    (o : AioOptions)
    → has_bad_tensor o ≡ false
    → o.slot_bytes ≢ 0
    → (chunk (sizes o) ≢ 0) × ((k : ℕ) × (k * chunk (sizes o) ≡ o.slot_bytes))
chunk-whole o good some_bytes = elim (Bool-cases (o.tensor_bytes == 0)) [
  | inl none_given ↦ rw none_given (some_bytes, (1, omega arith))
  | inr tensor ↦
      let exact : o.slot_bytes % o.tensor_bytes ≡ 0 = ground (arith, tensor) in
      rw tensor (
        ground (arith, tensor),
        (
          o.slot_bytes / o.tensor_bytes,
          omega (arith, exact, div-add-mod' o.slot_bytes o.tensor_bytes),
        ),
      )
]

-- Options that pass the checks give a chunk that is not empty and divides the slot, a buffer size that
-- is the true product of the three sizes and at most 2^40, and room for at least one request.
pub is_refused-IsChecked : (o : AioOptions) → is_refused o ≡ false → IsChecked o
unfolding is_refused
is_refused-IsChecked o h =
    let tensor : has_bad_tensor o ≡ false = ground arith in
    let blocks : o.blocks ≤ max_bytes / o.shards = ground arith in
    let first : o.blocks * o.shards ≤ max_bytes = product_le o.blocks o.shards blocks in
    let exact : o.blocks * o.shards % size_mod ≡ o.blocks * o.shards = mod-eq_of_lt (omega arith) in
    let slots : o.blocks * o.shards % size_mod ≤ max_bytes / o.slot_bytes = ground arith in
    let all : o.blocks * o.shards * o.slot_bytes ≤ max_bytes =
      product_le (o.blocks * o.shards) o.slot_bytes (omega (arith, exact, slots)) in
    let (some_bytes, whole) = chunk-whole o tensor (ground arith) in
    record {
      some_bytes = some_bytes;
      whole = whole;
      exact = ap (λ (n : ℕ). n * o.slot_bytes % size_mod) exact ∙ mod-eq_of_lt (omega arith);
      bounded = all;
      some_depth = ground arith;
    }

-- ===== src/HostUva/Checksum.antt =====
-- What the checksum tells and what it does not.
use ascend_hal_sharing_probe.Prelude.{
  ℕ, zero, suc, ◌+◌, ◌-◌, ◌%◌, ◌≤◌, ◌<◌, ◌≡◌, refl, ap, ◌∙◌, pos, ◌==◌, arith, Bool-cases, inl, inr,
}
use ascend_hal_sharing_probe.HostUva.{
  Words, word_mod, k_magic, put_word, bytes_from, sum_from, write_test_data, verify_test_data,
}

-- Words that agree from an index on have the same sum from there.
sum_from-agree :
    (p q : Words) (sum i n : ℕ)
    → ((j : ℕ) → i ≤ j → j < i + n → p j ≡ q j)
    → sum_from p sum i n ≡ sum_from q sum i n
unfolding sum_from
sum_from-agree p q sum i zero h = refl
sum_from-agree p q sum i (suc n) h =
    ap (λ (v : ℕ). sum_from p ((sum + v) % word_mod) (suc i) n) (h i (omega arith) (omega arith))
    ∙ sum_from-agree p q ((sum + q i) % word_mod) (suc i) n
        (λ j le lt. h j (omega arith) (omega arith))

-- The loop leaves the words before it.
bytes_from-before : (i n : ℕ) (p : Words) (j : ℕ) → j < i → bytes_from i n p j ≡ p j
unfolding bytes_from
bytes_from-before i zero p j lt = refl
bytes_from-before i (suc n) p j lt =
    bytes_from-before (suc i) n (put_word i (i % 256) p) j (omega arith) ∙ ground arith

-- What the writer has written, the verification accepts, for two words or more and whatever the memory
-- held before.
pub verify-write :
    (count : ℕ) (p : Words) → 2 ≤ count → verify_test_data count (write_test_data count p) ≡ pos 0
unfolding verify_test_data write_test_data
verify-write count p enough =
    let first = put_word 0 k_magic p in
    let filled = bytes_from 1 (count - 2) first in
    let total = sum_from filled 0 0 (count - 1) in
    let data_words = put_word (count - 1) total filled in
    let magic : data_words 0 ≡ k_magic =
      ground (arith, bytes_from-before 1 (count - 2) first 0 (omega arith)) in
    let last : data_words (count - 1) ≡ total = ground arith in
    let same : sum_from data_words 0 0 (count - 1) ≡ total =
      sum_from-agree data_words filled 0 0 (count - 1) (λ j le lt. ground arith) in
    ground (arith, magic, last, same)

-- The words with two neighbours exchanged.
abbrev pub exchanged : Words → ℕ → Words
exchanged p i = put_word i (p (suc i)) (put_word (suc i) (p i) p)

sum_from-exchanged :
    (p : Words) (i : ℕ) (sum from n : ℕ)
    → from ≤ i
    → suc i < from + n
    → sum_from (exchanged p i) sum from n ≡ sum_from p sum from n
unfolding sum_from
sum_from-exchanged p i sum from zero le lt = absurd (omega arith)
sum_from-exchanged p i sum from (suc zero) le lt = absurd (omega arith)
sum_from-exchanged p i sum from (suc (suc n)) le lt = elim (Bool-cases (from == i)) [
  | inl here ↦
      let at : from ≡ i = ground arith in
      let q = exchanged p i in
      let one : q from ≡ p (suc from) = rw at (ground arith) in
      let two : q (suc from) ≡ p from = rw at (ground arith) in
      let sums : ((sum + q from) % word_mod + q (suc from)) % word_mod
          ≡ ((sum + p from) % word_mod + p (suc from)) % word_mod =
        omega (arith, one, two) in
      ap (λ (v : ℕ). sum_from q v (suc (suc from)) n) sums
      ∙ sum_from-agree q p _ (suc (suc from)) n (λ j le' lt'. ground arith)
  | inr before ↦
      let q = exchanged p i in
      let same : q from ≡ p from = ground arith in
      ap (λ (v : ℕ). sum_from q ((sum + v) % word_mod) (suc from) (suc n)) same
      ∙ sum_from-exchanged p i ((sum + p from) % word_mod) (suc from) (suc n) (ground arith)
          (omega arith)
]

-- The verification of a buffer gives the same answer when any two neighbouring words between the first
-- and the last are exchanged: an accepted buffer may differ from what the writer wrote.
pub verify-exchanged :
    (count i : ℕ) (p : Words)
    → 0 < i
    → suc i < count - 1
    → verify_test_data count (exchanged p i) ≡ verify_test_data count p
unfolding verify_test_data
verify-exchanged count i p inside below =
    let q = exchanged p i in
    let first : q 0 ≡ p 0 = ground arith in
    let last : q (count - 1) ≡ p (count - 1) = ground arith in
    let sums : sum_from q 0 0 (count - 1) ≡ sum_from p 0 0 (count - 1) =
      sum_from-exchanged p i 0 0 (count - 1) (omega arith) (omega arith) in
    rw (first, last, sums) refl

-- ===== src/Text/Decimal.antt =====
-- Decimal text: printing a number and reading it back.
use ascend_hal_sharing_probe.Prelude.{
  ℕ, zero, suc, ◌+◌, ◌/◌, ◌%◌, ◌<◌, ◌≡◌, refl, ap, inl, inr, true, false, [], ◌∷◌, ◌++◌, arith,
  Bool-cases, ltb,
}
use ascend_hal_sharing_probe.Text.{
  Line, is_digit, not_space, all_digits, value_from, span, print_from, print_decimal,
}

value-print_from :
    (fuel n : ℕ) (acc : Line) → n < fuel → value_from 0 (print_from fuel n acc) ≡ value_from n acc
unfolding print_from
value-print_from zero n acc h = elim h [ ]
value-print_from (suc fuel) n acc h = elim (Bool-cases (ltb n 10)) [
  | inl small ↦ rw small (ap (λ (v : ℕ). value_from v acc) (omega arith))
  | inr large ↦
      rw (large, value-print_from fuel (n / 10) ((48 + n % 10) ∷ acc) (ground arith))
        (ap (λ (v : ℕ). value_from v acc) (omega arith))
]

-- Reading back what was printed gives the number.
pub value-print_decimal : (n : ℕ) → value_from 0 (print_decimal n) ≡ n
unfolding print_decimal
value-print_decimal n = value-print_from (suc n) n [] (omega arith)

digits-print_from :
    (fuel n : ℕ) (acc : Line)
    → n < fuel
    → all_digits acc ≡ true
    → all_digits (print_from fuel n acc) ≡ true
unfolding print_from
digits-print_from zero n acc h d = elim h [ ]
digits-print_from (suc fuel) n acc h d =
    ground (arith, digits-print_from fuel (n / 10) ((48 + n % 10) ∷ acc))

pub digits-print_decimal : (n : ℕ) → all_digits (print_decimal n) ≡ true
unfolding print_decimal
digits-print_decimal n = digits-print_from (suc n) n [] (omega arith) refl

-- Printing never gives the empty text.
print_from_head :
    (fuel n : ℕ) (acc : Line)
    → n < fuel
    → (c : ℕ) × (rest : Line) × (print_from fuel n acc ≡ c ∷ rest)
unfolding print_from
print_from_head zero n acc h = elim h [ ]
print_from_head (suc fuel) n acc h = elim (Bool-cases (ltb n 10)) [
  | inl small ↦ rw small (48 + n, acc, refl)
  | inr large ↦ rw large (print_from_head fuel (n / 10) ((48 + n % 10) ∷ acc) (ground arith))
]

pub print_decimal_head : (n : ℕ) → (c : ℕ) × (rest : Line) × (print_decimal n ≡ c ∷ rest)
unfolding print_decimal
print_decimal_head n = print_from_head (suc n) n [] (omega arith)

-- A span over digits stops at the first byte that is none.
pub span-digits :
    (xs : Line) (c : ℕ) (ys : Line)
    → all_digits xs ≡ true
    → is_digit c ≡ false
    → span is_digit (xs ++ (c ∷ ys)) ≡ (xs, c ∷ ys)
unfolding span
span-digits [] c ys d n = ground arith
span-digits (x ∷ xs) c ys d n = ground (arith, span-digits xs c ys)

pub span_words : (xs : Line) → all_digits xs ≡ true → span not_space xs ≡ (xs, [])
unfolding span
span_words [] d = refl
span_words (x ∷ xs) d = ground (arith, span_words xs)

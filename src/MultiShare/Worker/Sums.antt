-- ===== src/MultiShare/Worker/Sums.antt =====
-- Sums over the indices below a bound, and what one write changes of them.
use ascend_hal_sharing_probe.Prelude.{
  ℕ, zero, suc, ◌+◌, ◌<◌, ◌≤◌, ◌≡◌, ◌≢◌, refl, ap, arith, Bool-cases, inl, inr, ◌==◌,
}

unfoldable pub sum_from : (ℕ → ℕ) → ℕ → ℕ → ℕ
sum_from f i zero = 0
sum_from f i (suc n) = f i + sum_from f (suc i) n

-- The same summands have the same sum.
pub sum_from-same :
    (f g : ℕ → ℕ) (i n : ℕ)
    → ((j : ℕ) → i ≤ j → j < i + n → g j ≡ f j)
    → sum_from g i n ≡ sum_from f i n
unfolding sum_from
sum_from-same f g i zero same = refl
sum_from-same f g i (suc n) same = omega (
  arith,
  same i (omega arith) (omega arith),
  sum_from-same f g (suc i) n (λ j le lt. same j (omega arith) (omega arith)),
)

-- One summand changes.
pub sum_from-changed :
    (f g : ℕ → ℕ) (i n k : ℕ)
    → i ≤ k
    → k < i + n
    → ((j : ℕ) → j ≢ k → g j ≡ f j)
    → sum_from g i n + f k ≡ sum_from f i n + g k
unfolding sum_from
sum_from-changed f g i zero k le lt same = absurd (omega arith)
sum_from-changed f g i (suc n) k le lt same = elim (Bool-cases (i == k)) [
  | inl here ↦
      let e : i ≡ k = ground arith in
      let rest : sum_from g (suc i) n ≡ sum_from f (suc i) n =
        sum_from-same f g (suc i) n (λ j le' lt'. same j (λ e'. omega arith)) in
      omega (arith, rest, ap f e, ap g e)
  | inr other ↦
      let ne : i ≢ k = λ e. ground arith in
      omega (arith, same i ne, sum_from-changed f g (suc i) n k (ground arith) (omega arith) same)
]

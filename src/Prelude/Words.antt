-- ===== src/Prelude/Words.antt =====
-- `size_t` arithmetic, and the greatest common divisor behind `std::lcm`.
use Prim.Native.Nat.{ℕ, zero, suc, ◌+◌, ◌*◌, ◌/◌, ◌%◌, ◌^◌, ◌<◌, ◌≤◌, ◌∣◌}
use mathlib.Core.Path.{◌≡◌, sym, ap, ◌∙◌, subst}
use native.Mathlib.Omega.{arith}
use native.Mathlib.Nat.{
  mod-lt, dvd_refl, dvd-zero, dvd-mod_iff, dvd-mul_left, dvd-mul_right, mul-div_cancel',
  div-mul_cancel, mul_assoc, mul-le-mul_right, div-le_self,
}

-- One past SIZE_MAX.
abbrev pub size_mod : ℕ
size_mod = 2 ^ 64

-- Euclid's remainders, at most so many of them.
unfoldable pub gcd_rounds : ℕ → ℕ → ℕ → ℕ
gcd_rounds zero a b = a
gcd_rounds (suc k) a zero = a
gcd_rounds (suc k) a (suc b) = gcd_rounds k (suc b) (a % suc b)

unfoldable pub gcd : ℕ → ℕ → ℕ
unfolding gcd_rounds
gcd a b = gcd_rounds (suc b) a b

gcd_rounds-dvd : (k a b : ℕ) → b < k → (gcd_rounds k a b ∣ a) × (gcd_rounds k a b ∣ b)
unfolding gcd_rounds
gcd_rounds-dvd zero a b h = elim h [ ]
gcd_rounds-dvd (suc k) a zero h = (dvd_refl a, dvd-zero a)
gcd_rounds-dvd (suc k) a (suc b) h =
    let (p, q) =
      gcd_rounds-dvd k (suc b) (a % suc b) (omega (arith, mod-lt a {m = suc b} (omega arith))) in
    ((dvd-mod_iff _ p).0 q, p)

-- The rounds are enough: the greatest common divisor divides both numbers.
pub gcd-dvd : (a b : ℕ) → (gcd a b ∣ a) × (gcd a b ∣ b)
unfolding gcd
gcd-dvd a b = gcd_rounds-dvd (suc b) a b (omega arith)

unfoldable pub lcm : ℕ → ℕ → ℕ
lcm a b = a / gcd a b * b

-- It is a common multiple.
pub lcm-dvd : (a b : ℕ) → (a ∣ lcm a b) × (b ∣ lcm a b)
unfolding lcm
lcm-dvd a b =
    let g = gcd a b in
    let (p, q) = gcd-dvd a b in
    let e : a * (b / g) ≡ a / g * b =
      ap (λ (c : ℕ). c * (b / g)) (sym (div-mul_cancel g p))
      ∙ mul_assoc (a / g) g (b / g)
      ∙ ap (λ (c : ℕ). a / g * c) (mul-div_cancel' g q) in
    (subst (λ c. a ∣ c) e (dvd-mul_right a (b / g)), dvd-mul_left b (a / g))

pub lcm-le : (a b : ℕ) → lcm a b ≤ a * b
unfolding lcm
lcm-le a b = mul-le-mul_right b (div-le_self a (gcd a b))

-- The exclusive or of the lowest digits, so many of them.
unfoldable pub xor_digits : ℕ → ℕ → ℕ → ℕ
xor_digits zero a b = 0
xor_digits (suc k) a b = 2 * xor_digits k (a / 2) (b / 2) + (a % 2 + b % 2) % 2

pub xor_digits-injective :
    (k a b c : ℕ) → b < 2 ^ k → c < 2 ^ k → xor_digits k a b ≡ xor_digits k a c → b ≡ c
unfolding xor_digits
xor_digits-injective zero a b c hb hc e = omega arith
xor_digits-injective (suc k) a b c hb hc e =
    let half : b / 2 ≡ c / 2 =
      xor_digits-injective k (a / 2) (b / 2) (c / 2) (omega arith) (omega arith) (omega arith) in
    omega arith

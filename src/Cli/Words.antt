-- ===== src/Cli/Words.antt =====
-- A word arrives as it was sent, however the stream cuts it.
use ascend_hal_sharing_probe.Prelude.{
  ℕ, zero, suc, ◌+◌, ◌-◌, ◌*◌, ◌/◌, ◌%◌, ◌^◌, ◌≤◌, ◌<◌, ◌≡◌, sym, ap, ◌∙◌, subst, pos, false, ltb,
  ltb→lt, ◌==◌, arith, size_mod,
}
use native.Mathlib.Nat.{
  mod-lt, mod-eq_of_lt, div-add-mod', add-mul-mod_self_right, mul-le-mul_right, mul_assoc, mul_comm,
  add-mul, pow-suc, pow-zero, add-zero, mod-mod, mod-le,
}
use ascend_hal_sharing_probe.Effects.{Driver, Trace, World, receive_bytes, pure, crash, stalled}
use ascend_hal_sharing_probe.Effects.Outcomes.{Ends, Ends-bind, Ends-if}
use ascend_hal_sharing_probe.Common.Retry.{retried, is_interrupted, Tried, retried-Tried, IsPatient}
use ascend_hal_sharing_probe.Cli.{receive_from, receive_word}

pow-add : (n a b : ℕ) → n ^ (a + b) ≡ n ^ a * n ^ b
pow-add n a zero =
    ap (λ (k : ℕ). n ^ k) (add-zero a) ∙ omega (arith, ap (λ (k : ℕ). n ^ a * k) (pow-zero n))
pow-add n a (suc b) =
    let up : a + suc b ≡ suc (a + b) = omega arith in
    ap (λ (k : ℕ). n ^ k) up
    ∙ pow-suc n (a + b)
    ∙ ap (λ (k : ℕ). k * n) (pow-add n a b)
    ∙ mul_assoc (n ^ a) (n ^ b) n
    ∙ ap (λ (k : ℕ). n ^ a * k) (sym (pow-suc n b))

power_pos : (k : ℕ) → 0 < 256 ^ k
power_pos zero = omega arith
power_pos (suc k) = omega (arith, pow-suc 256 k, power_pos k)

-- The low digits of a number in two parts.
low_digits : (v a b : ℕ) → 0 < a → 0 < b → v % a + v / a % b * a ≡ v % (a * b)
low_digits v a b pa pb =
    let q = v / a in
    let r = v % a in
    let high = q / b in
    let low = q % b in
    let e : low * a + r + high * (a * b) ≡ v = omega (
      arith,
      div-add-mod' v a,
      ap (λ (k : ℕ). k * a) (div-add-mod' q b),
      add-mul (high * b) low a,
      mul_assoc high b a,
      ap (λ (k : ℕ). high * k) (mul_comm b a),
    ) in
    let small : low * a + r < a * b = omega (
      arith,
      mod-lt v pa,
      mul-le-mul_right {m = suc low} {n = b} a (mod-lt q pb),
      add-mul 1 low a,
      mul_comm b a,
    ) in
    omega (
      arith,
      sym (mod-eq_of_lt small)
          ∙ sym (add-mul-mod_self_right (low * a + r) high (a * b))
          ∙ ap (λ (k : ℕ). k % (a * b)) e,
    )

-- The peer's word: each answer that is not an interruption holds some of the bytes that are left, the
-- next ones of the word.
pub record Delivers (d : Driver) (fd value : ℕ) : Type 0 where
  pub amount : Trace → ℕ → ℕ
  pub some_bytes : (t : Trace) (n : ℕ) → n < 8 → 0 < amount t n
  pub within : (t : Trace) (n : ℕ) → n < 8 → amount t n ≤ 8 - n
  pub answers :
      (t : Trace) (n : ℕ)
      → n < 8
      → is_interrupted (d t (receive_bytes fd (8 - n))) ≡ false
      → d t (receive_bytes fd (8 - n))
        ≡ record { ret = pos (amount t n); out = value / 256 ^ n % 256 ^ amount t n }

-- The end of a loop that has received the word.
whole_word : (value n : ℕ) → value < size_mod → n ≡ 8 → value % 256 ^ n ≡ value
whole_word value n small e = rw e (mod-eq_of_lt small)

-- One more call's bytes.
next_bytes :
    (value n m : ℕ)
    → value < size_mod
    → (value % 256 ^ n + value / 256 ^ n % 256 ^ m % 256 ^ m * 256 ^ n) % size_mod
      ≡ value % 256 ^ (n + m)
next_bytes value n m small =
    let e : value % 256 ^ n + value / 256 ^ n % 256 ^ m % 256 ^ m * 256 ^ n
        ≡ value % 256 ^ (n + m) =
      ap (λ (k : ℕ). value % 256 ^ n + k * 256 ^ n) (mod-mod (value / 256 ^ n) (256 ^ m))
      ∙ low_digits value (256 ^ n) (256 ^ m) (power_pos n) (power_pos m)
      ∙ ap (λ (k : ℕ). value % k) (sym (pow-add 256 n m)) in
    ap (λ (k : ℕ). k % size_mod) e ∙ mod-eq_of_lt (omega (arith, mod-le value (256 ^ (n + m))))

module _ (S : Type 0) (d : Driver) (rounds fd value : ℕ) (small : value < size_mod)
    (patient : IsPatient d rounds) (peer : Delivers d fd value) where
  abbrev pub Arrived : ℕ → World S → Type 0
  Arrived v w = v ≡ value

  receive_from-Arrived :
      (k n : ℕ) (w : World S)
      → n ≤ 8
      → 8 ≤ n + k
      → Ends Arrived (λ w. ⊥) (receive_from d rounds k fd (value % 256 ^ n) n w)
  unfolding receive_from
  receive_from-Arrived zero n w below enough =
      Ends-if Arrived (λ w. ⊥) (ltb n 8) (crash stalled) (pure (value % 256 ^ n)) w
        (λ more. absurd (ground arith)) (λ over. whole_word value n small (omega arith))
  receive_from-Arrived (suc k) n w below enough =
      let c = receive_bytes fd (8 - n) in
      Ends-if Arrived (λ w. ⊥) (ltb n 8) _ (pure (value % 256 ^ n)) w
        (λ more.
          Ends-bind (Tried d c (λ t. Unit {0}) w.self) Arrived (λ w. ⊥) _ (retried d rounds c w)
            (retried-Tried d c (λ t. Unit {0}) rounds w (λ t stop h. tt) (patient c w.trace) tt)
            (λ r v tried.
              let m = peer.amount tried.before n in
              let here = ltb→lt n 8 more in
              let e = tried.reply ∙ peer.answers tried.before n here tried.answered in
              let some_bytes : (m == 0) ≡ false =
                ground (arith, peer.some_bytes tried.before n here) in
              let inside : n + m ≤ 8 = omega (arith, peer.within tried.before n here) in
              let progress : 8 ≤ n + m + k = omega (arith, peer.some_bytes tried.before n here) in
              rw (e, some_bytes, next_bytes value n m small)
                (receive_from-Arrived k (n + m) v inside progress)))
        (λ over. whole_word value n small (ground arith))

  -- The peer's answers hold the bytes of a 64-bit word in order, at least one and no more than are left
  -- in each, and no call is interrupted more often in a row than the rounds allow: then however the
  -- word is cut, `receive_word` returns it.
  pub receive_word-Arrived : (w : World S) → Ends Arrived (λ w. ⊥) (receive_word d rounds fd w)
  receive_word-Arrived w =
      let none_yet : value % 256 ^ 0 ≡ 0 = omega arith in
      subst (λ (v : ℕ). Ends Arrived (λ w. ⊥) (receive_from d rounds 8 fd v 0 w)) none_yet
        (receive_from-Arrived 8 0 w (omega arith) (omega arith))

-- ===== src/Common/Pattern.antt =====
-- common.hpp: the words that a program writes to memory and looks for. The memory is shared with
-- other processes and with the device, so its words are read from the world, after the calls so far.
use ascend_hal_sharing_probe.Effects.Ledger.{Resource}
use ascend_hal_sharing_probe.Prelude.{
  ℕ, zero, suc, ◌+◌, ◌*◌, ◌/◌, ◌%◌, ◌<◌, ◌≤◌, ◌≡◌, refl, ◌∙◌, sym, ◌↔◌, Bool, true, false, ◌&&◌,
  List, [], ◌∷◌, ◌==◌, if◌then◌else◌, arith, size_mod, xor_digits, xor_digits-injective, inl, inr,
  Bool-cases,
}
use ascend_hal_sharing_probe.Status.{plain}
use ascend_hal_sharing_probe.Effects.{
  Driver, Exception, runtime_error, World, Trace, Outcome, ok, threw, M, pure, raise, call, ◌>>=◌,
  write_words,
}
use ascend_hal_sharing_probe.Common.Books.{Keeps}
use ascend_hal_sharing_probe.Effects.Meets.{
  Meets, IsStable, Meets-bind, Meets-if, Meets-pure, Meets-raise, Meets-call,
}
use ascend_hal_sharing_probe.Common.Rules.{Kept-IsStable, Meets-Keeps}

-- The word at an address and an index, after a history.
abbrev pub Memory : Type 0
Memory = Trace → ℕ → ℕ → ℕ

-- `(i * 0x9e3779b97f4a7c15ULL) ^ seed`
unfoldable pub pattern_word : ℕ → ℕ → ℕ
pattern_word i seed = xor_digits 64 (i * 11400714819323198485 % size_mod) seed

-- The words of a loop over `i`, and the test of them against memory.
unfoldable pub words_from : (ℕ → ℕ) → ℕ → ℕ → List ℕ
words_from f i zero = []
words_from f i (suc n) = f i ∷ words_from f (suc i) n

unfoldable pub agrees : (ℕ → ℕ) → (ℕ → ℕ) → ℕ → ℕ → Bool
agrees actual expected i zero = true
agrees actual expected i (suc n) = actual i == expected i && agrees actual expected (suc i) n

abbrev pub mismatch : Exception
mismatch = runtime_error (plain "phase")

module _ {S : Type 0} where
  abbrev pub store : Driver → (ℕ → ℕ) → ℕ → ℕ → M S (Unit {0})
  store d f ptr bytes = do r ← call d (write_words ptr (words_from f 0 (bytes / 8))); pure tt

  abbrev pub compare_with : Memory → (ℕ → ℕ) → ℕ → ℕ → M S (Unit {0})
  compare_with mem f ptr bytes w =
      (if agrees (mem w.trace ptr) f 0 (bytes / 8) then pure tt else raise mismatch) w

  unfoldable pub fill : Driver → ℕ → ℕ → ℕ → M S (Unit {0})
  fill d ptr bytes seed = store d (λ i. pattern_word i seed) ptr bytes

  unfoldable pub verify : Memory → ℕ → ℕ → ℕ → M S (Unit {0})
  verify mem ptr bytes seed = compare_with mem (λ i. pattern_word i seed) ptr bytes

module _ {S : Type 0} {P E : World S → Type 0} (d : Driver) (stable : IsStable d P) where
  pub store-Meets : (f : ℕ → ℕ) (ptr bytes : ℕ) → Meets P P E (store d f ptr bytes)
  store-Meets f ptr bytes =
      Meets-bind (Meets-call d _ (λ w p. stable _ refl w p)) (λ r. Meets-pure tt)

  pub fill-Meets : (ptr bytes seed : ℕ) → Meets P P E (fill d ptr bytes seed)
  unfolding fill
  fill-Meets ptr bytes seed = store-Meets (λ i. pattern_word i seed) ptr bytes

module _ {S : Type 0} {P E : World S → Type 0} (mem : Memory)
    (thrown : (w : World S) → P w → E w) where
  pub compare_with-Meets : (f : ℕ → ℕ) (ptr bytes : ℕ) → Meets P P E (compare_with mem f ptr bytes)
  compare_with-Meets f ptr bytes = record {
    ends = λ w p.
        let k : Meets P P E
            (if agrees (mem w.trace ptr) f 0 (bytes / 8) then pure tt else raise mismatch) =
          Meets-if (agrees (mem w.trace ptr) f 0 (bytes / 8)) (Meets-pure tt)
            (Meets-raise mismatch thrown) in
        k.ends w p;
  }

  pub verify-Meets : (ptr bytes seed : ℕ) → Meets P P E (verify mem ptr bytes seed)
  unfolding verify
  verify-Meets ptr bytes seed = compare_with-Meets (λ i. pattern_word i seed) ptr bytes

module _ {S : Type 0} {holds : Resource → S → ℕ} {P : S → Type 0} where
  pub store-Keeps : (d : Driver) (f : ℕ → ℕ) (ptr bytes : ℕ) → Keeps holds P P (store d f ptr bytes)
  store-Keeps d f ptr bytes =
      Meets-Keeps holds P (store-Meets d (Kept-IsStable holds P d) f ptr bytes)

  pub compare_with-Keeps :
      (mem : Memory) (f : ℕ → ℕ) (ptr bytes : ℕ) → Keeps holds P P (compare_with mem f ptr bytes)
  compare_with-Keeps mem f ptr bytes =
      Meets-Keeps holds P (compare_with-Meets mem (λ w p. p) f ptr bytes)

  pub fill-Keeps : (d : Driver) (ptr bytes seed : ℕ) → Keeps holds P P (fill d ptr bytes seed)
  fill-Keeps d ptr bytes seed =
      Meets-Keeps holds P (fill-Meets d (Kept-IsStable holds P d) ptr bytes seed)

  pub verify-Keeps :
      (mem : Memory) (ptr bytes seed : ℕ) → Keeps holds P P (verify mem ptr bytes seed)
  verify-Keeps mem ptr bytes seed = Meets-Keeps holds P (verify-Meets mem (λ w p. p) ptr bytes seed)

-- The loop finds exactly the words that agree.
pub agrees-all : (f g : ℕ → ℕ) (i n j : ℕ) → agrees f g i n ≡ true → i ≤ j → j < i + n → f j ≡ g j
unfolding agrees
agrees-all f g i zero j h le lt = absurd (omega arith)
agrees-all f g i (suc n) j h le lt = elim (Bool-cases (i == j)) [
  | inl e ↦ ground arith
  | inr e ↦ agrees-all f g (suc i) n j (ground arith) (ground arith) (omega arith)
]

all-agrees :
    (f g : ℕ → ℕ) (i n : ℕ) → ((j : ℕ) → i ≤ j → j < i + n → f j ≡ g j) → agrees f g i n ≡ true
unfolding agrees
all-agrees f g i zero h = refl
all-agrees f g i (suc n) h = ground (
  arith,
  h i (omega arith) (omega arith),
  all-agrees f g (suc i) n (λ j le lt. h j (omega arith) (omega arith)),
)

-- The part returned.
abbrev pub HasReturned : {S A : Type 0} → Outcome A × World S → Type 0
HasReturned (ok a, w) = Unit {0}
HasReturned (threw e, w) = ⊥
HasReturned (Outcome.fault f, w) = ⊥

returned_iff :
    {S : Type 0} (b : Bool) (w : World S)
    → HasReturned {A = Unit {0}} ((if b then pure tt else raise mismatch) w) ↔ (b ≡ true)
returned_iff true w = (λ h. refl, λ h. tt)
returned_iff false w = (λ h. absurd h, λ h. ground arith)

-- `verify` returns exactly when every word of the buffer is the pattern's word for the seed.
pub verify_iff :
    {S : Type 0} (mem : Memory) (ptr bytes seed : ℕ) (w : World S)
    → HasReturned (verify mem ptr bytes seed w)
      ↔ ((i : ℕ) → i < bytes / 8 → mem w.trace ptr i ≡ pattern_word i seed)
unfolding verify
verify_iff mem ptr bytes seed w =
    let f = mem w.trace ptr in
    let g = λ (i : ℕ). pattern_word i seed in
    let (a, b) = returned_iff (agrees f g 0 (bytes / 8)) w in
    (
      λ h i lt. agrees-all f g 0 (bytes / 8) i (a h) (omega arith) (omega arith),
      λ h. b (all-agrees f g 0 (bytes / 8) (λ i le lt. h i (omega arith))),
    )

-- The words of a buffer of at least eight bytes pass for one seed of 64 bits only.
pub verify-one_seed :
    {S : Type 0} (mem : Memory) (ptr bytes seed other : ℕ) (w : World S)
    → 8 ≤ bytes
    → seed < size_mod
    → other < size_mod
    → HasReturned (verify mem ptr bytes seed w)
    → HasReturned (verify mem ptr bytes other w)
    → seed ≡ other
unfolding pattern_word
verify-one_seed mem ptr bytes seed other w enough s o h h' =
    let a = (verify_iff mem ptr bytes seed w).0 h 0 (omega arith) in
    let b = (verify_iff mem ptr bytes other w).0 h' 0 (omega arith) in
    xor_digits-injective 64 (0 * 11400714819323198485 % size_mod) seed other s o (sym a ∙ b)

-- ===== src/Common/Rules.antt =====
-- The rules that show of a part that it keeps the books.
use ascend_hal_sharing_probe.Prelude.{ℕ, ◌≡◌, Bool, true, false, arith, is_zero, if◌then◌else◌}
use ascend_hal_sharing_probe.Effects.{
  Call, Driver, Reply, Exception, World, Outcome, ok, threw, fault, M, pure, raise, gets, modify,
  call, ◌>>=◌,
}
use ascend_hal_sharing_probe.Effects.Ledger.{Resource, is_neutral}
use ascend_hal_sharing_probe.Effects.Outcomes.{Ends, Ends-bind, Ends-map}
use ascend_hal_sharing_probe.Effects.Tally.{is_quiet}
use ascend_hal_sharing_probe.Effects.Meets.{Meets, IsStable}
use ascend_hal_sharing_probe.Common.{check, check_reply, failed_check}
use ascend_hal_sharing_probe.Common.Books.{IsKept, Keeps, called-IsKept}

module _ {S : Type 0} {holds : Resource → S → ℕ} where
  pub Keeps-bind :
      {A B : Type 0} {P Q R : S → Type 0} {m : M S A} {f : A → M S B}
      → Keeps holds P Q m
      → ((a : A) → Keeps holds Q R (f a))
      → Keeps holds P R (m >>= f)
  Keeps-bind {A} {B} {P} {Q} {R} {m} {f} k h = record {
    ends = λ w kept p.
        Ends-bind (λ a v. IsKept holds v × Q v.self) (λ a v. IsKept holds v × R v.self)
          (IsKept holds) f (m w) (k.ends w kept p) (λ a v (kept', q). (h a).ends v kept' q);
  }

  pub Keeps-if :
      {A : Type 0} {P Q : S → Type 0} {f g : M S A} (b : Bool)
      → Keeps holds P Q f
      → Keeps holds P Q g
      → Keeps holds P Q (if b then f else g)
  Keeps-if true k h = k
  Keeps-if false k h = h

  pub Keeps-pure : {A : Type 0} {P : S → Type 0} (a : A) → Keeps holds P P (pure a)
  Keeps-pure a = record { ends = λ w kept p. (kept, p) }

  pub Keeps-raise :
      {A : Type 0} {P Q : S → Type 0} (e : Exception) → Keeps {A = A} holds P Q (raise e)
  Keeps-raise e = record { ends = λ w kept p. kept }

  pub Keeps-gets : {A : Type 0} {P : S → Type 0} (f : S → A) → Keeps holds P P (gets f)
  Keeps-gets f = record { ends = λ w kept p. (kept, p) }

  pub Keeps-call :
      {P : S → Type 0} (d : Driver) (c : Call) → is_neutral c ≡ true → Keeps holds P P (call d c)
  Keeps-call d c quiet = record { ends = λ w kept p. (called-IsKept holds d c w quiet kept, p) }

  pub Keeps-check_reply :
      {P : S → Type 0} (d : Driver) (r : Reply) → Keeps holds P P (check_reply d r)
  Keeps-check_reply d r = Keeps-if (is_zero r.ret) (Keeps-pure r.out) (Keeps-raise failed_check)

  pub Keeps-check :
      {P : S → Type 0} (d : Driver) (c : Call) → is_neutral c ≡ true → Keeps holds P P (check d c)
  Keeps-check d c quiet = Keeps-bind (Keeps-call d c quiet) (λ r. Keeps-check_reply d r)

  -- A change of the object beside its allocations.
  pub Keeps-modify :
      {P Q : S → Type 0} (f : S → S)
      → ((x : Resource) (s : S) → holds x (f s) ≡ holds x s)
      → ((s : S) → P s → Q (f s))
      → Keeps holds P Q (modify f)
  Keeps-modify f same step = record {
    ends = λ w kept p. ((λ x real. omega (arith, kept x real, same x w.self)), step w.self p);
  }

  pub Keeps-weaken :
      {A : Type 0} {P Q R : S → Type 0} {m : M S A}
      → ((s : S) → Q s → R s)
      → Keeps holds P Q m
      → Keeps holds P R m
  Keeps-weaken {A} {P} {Q} {R} {m} h k = record {
    ends = λ w kept p.
        Ends-map (λ a v. IsKept holds v × Q v.self) (λ a v. IsKept holds v × R v.self)
          (IsKept holds) (m w) (λ a v (kept', q). (kept', h v.self q)) (k.ends w kept p);
  }

  -- The rule of consequence.
  pub Keeps-convert :
      {A : Type 0} {P P' Q Q' : S → Type 0} {m : M S A}
      → ((s : S) → P' s → P s)
      → ((s : S) → Q s → Q' s)
      → Keeps holds P Q m
      → Keeps holds P' Q' m
  Keeps-convert {A} {P} {P'} {Q} {Q'} {m} before after k =
      Keeps-weaken after record { ends = λ w kept p. k.ends w kept (before w.self p) }

-- The books are kept, and the object is as it says.
abbrev pub Kept : {S : Type 0} → (Resource → S → ℕ) → (S → Type 0) → World S → Type 0
Kept holds P w = IsKept holds w × P w.self

quiet-neutral : (c : Call) → is_quiet c ≡ true → is_neutral c ≡ true
quiet-neutral c h = ground arith

pub Kept-IsStable :
    {S : Type 0} (holds : Resource → S → ℕ) (P : S → Type 0) (d : Driver)
    → IsStable d (Kept holds P)
Kept-IsStable holds P d c quiet w (kept, p) =
    (called-IsKept holds d c w (quiet-neutral c quiet) kept, p)

-- A part that leaves this as it is keeps the books.
pub Meets-Keeps :
    {S A : Type 0} (holds : Resource → S → ℕ) (P : S → Type 0) {m : M S A}
    → Meets (Kept holds P) (Kept holds P) (Kept holds P) m
    → Keeps holds P P m
Meets-Keeps {S} {A} holds P {m} k = record {
  ends = λ w kept p. only_kept (m w) (k.ends w (kept, p));
}
  where
    only_kept :
        (r : Outcome A × World S)
        → Ends (λ a v. Kept holds P v) (Kept holds P) r
        → Ends (λ a v. IsKept holds v × P v.self) (IsKept holds) r
    only_kept (ok a, w) q = q
    only_kept (threw e, w) q = q.0
    only_kept (fault f, w) q = q

-- What keeps the books from one stage to another.
pub Keeps-Meets :
    {S A : Type 0} {holds : Resource → S → ℕ} {P Q : S → Type 0} {m : M S A}
    → Keeps holds P Q m
    → Meets (Kept holds P) (Kept holds Q) (IsKept holds) m
Keeps-Meets k = record { ends = λ w (kept, p). k.ends w kept p }

-- ===== src/Common/Retry.antt =====
-- `do { n = call } while (n < 0 && errno == EINTR)`, which the programs put around calls that a
-- signal may interrupt.
use ascend_hal_sharing_probe.Effects.Ledger.{Resource}
use ascend_hal_sharing_probe.Prelude.{
  ℕ, zero, suc, ◌≡◌, refl, Bool, true, false, ◌&&◌, ◌∷◌, is_negative, ◌==◌, if◌then◌else◌,
}
use ascend_hal_sharing_probe.Effects.{
  Call, Reply, Driver, Trace, World, M, stalled, pure, crash, call, ◌>>=◌,
}
use ascend_hal_sharing_probe.Effects.Ledger.{is_neutral}
use ascend_hal_sharing_probe.Effects.Outcomes.{Ends, Ends-if, after}
use ascend_hal_sharing_probe.Common.Books.{Keeps, called-IsKept}
use ascend_hal_sharing_probe.Common.Rules.{Kept, Meets-Keeps}
use ascend_hal_sharing_probe.Effects.Meets.{Meets}

-- EINTR is 4.
abbrev pub is_interrupted : Reply → Bool
is_interrupted r = is_negative r.ret && r.out == 4

module _ {S : Type 0} (d : Driver) where
  -- The call again while a signal interrupts it, at most so often.
  unfoldable pub retried : ℕ → Call → M S Reply
  retried zero c = crash stalled
  retried (suc k) c = do r ← call d c; if is_interrupted r then retried k c else pure r

-- One of so many answers is not an interruption.
abbrev pub IsAnswered : Driver → Call → ℕ → Trace → Type 0
IsAnswered d c zero t = ⊥
IsAnswered d c (suc k) t = is_interrupted (d t c) ≡ true → IsAnswered d c k ((c, d t c) ∷ t)

-- No call is interrupted so often in a row.
abbrev pub IsPatient : Driver → ℕ → Type 0
IsPatient d k = (c : Call) (t : Trace) → IsAnswered d c k t

module _ {S : Type 0} (Q : World S → Type 0) (d : Driver) (c : Call)
    (quiet : (w : World S) → Q w → Q (after d c w)) where
  -- From a history after which the call is answered in time.
  retried-Ends :
      (k : ℕ) (w : World S) → IsAnswered d c k w.trace → Q w → Ends (λ r v. Q v) Q (retried d k c w)
  unfolding retried
  retried-Ends zero w late q = absurd late
  retried-Ends (suc k) w late q =
      Ends-if (λ r v. Q v) Q (is_interrupted (d w.trace c)) (retried d k c) (pure (d w.trace c))
        (after d c w) (λ again. retried-Ends k (after d c w) (late again) (quiet w q))
        (λ done. quiet w q)

  pub retried-Meets : (k : ℕ) → IsPatient d k → Meets Q Q Q (retried d k c)
  retried-Meets k patient = record { ends = λ w q. retried-Ends k w (patient c w.trace) q }

pub retried-Keeps :
    {S : Type 0} (holds : Resource → S → ℕ) (P : S → Type 0) (d : Driver) (c : Call)
    → is_neutral c ≡ true
    → (k : ℕ) → IsPatient d k
    → Keeps holds P P (retried d k c)
retried-Keeps holds P d c quiet k patient = Meets-Keeps holds P (
    retried-Meets (Kept holds P) d c (λ w (kept, p). (called-IsKept holds d c w quiet kept, p)) k
      patient)

-- What a repeated call leaves: the history before its last try, which answered.
pub record Tried {S : Type 0} (d : Driver) (c : Call) (I : Trace → Type 0) (self : S) (r : Reply)
    (v : World S) : Type 0 where
  pub before : Trace
  pub kept : I before
  pub trace : v.trace ≡ (c, d before c) ∷ before
  pub reply : r ≡ d before c
  pub answered : is_interrupted (d before c) ≡ false
  pub same : v.self ≡ self

-- What holds of the history, and is not disturbed by an interrupted call, holds before the last try.
pub retried-Tried :
    {S : Type 0} (d : Driver) (c : Call) (I : Trace → Type 0) (k : ℕ) (w : World S)
    → ((t : Trace) → is_interrupted (d t c) ≡ true → I t → I ((c, d t c) ∷ t))
    → IsAnswered d c k w.trace
    → I w.trace
    → Ends (Tried d c I w.self) (λ v. ⊥) (retried d k c w)
unfolding retried
retried-Tried d c I zero w again late i = absurd late
retried-Tried d c I (suc k) w again late i =
    Ends-if (Tried d c I w.self) (λ v. ⊥) (is_interrupted (d w.trace c)) (retried d k c)
      (pure (d w.trace c)) (after d c w)
      (λ e. retried-Tried d c I k (after d c w) again (late e) (again w.trace e i))
      (λ e. record {
        before = w.trace;
        kept = i;
        trace = refl;
        reply = refl;
        answered = e;
        same = refl;
      })

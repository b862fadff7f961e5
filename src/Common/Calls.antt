-- ===== src/Common/Calls.antt =====
-- Checked calls with what is written or noted of them, for any object that keeps books.
use ascend_hal_sharing_probe.Prelude.{ℕ, ◌+◌, ◌≡◌, refl, true, false, arith, is_zero}
use ascend_hal_sharing_probe.Effects.{
  Call, Driver, Reply, Trace, M, pure, raise, gets, modify, call, ◌>>=◌,
}
use ascend_hal_sharing_probe.Effects.Ledger.{Resource, IsReal, gained, lost, returned}
use ascend_hal_sharing_probe.Effects.Outcomes.{Ends-bind, Ends-if, after}
use ascend_hal_sharing_probe.Common.{check, check_reply, failed_check}
use ascend_hal_sharing_probe.Common.Books.{IsKept, Keeps, changed-IsKept}
use ascend_hal_sharing_probe.Common.Rules.{Keeps-check_reply}

module _ {S : Type 0} {holds : Resource → S → ℕ} where
  -- The rest of the part knows the value that was read.
  pub Keeps-gets_as :
      {A B : Type 0} {P Q : S → Type 0} (f : S → A) {k : A → M S B}
      → ((a : A) → Keeps holds (λ s. P s × (f s ≡ a)) Q (k a))
      → Keeps holds P Q (gets f >>= k)
  Keeps-gets_as f h = record { ends = λ w kept p. (h (f w.self)).ends w kept (p, refl) }

  -- A checked call that writes its output into the object.
  pub writes_out-Keeps :
      {P Q : S → Type 0} (d : Driver) (c : Call) (u : Reply → S → S)
      → ((r : Reply) (s : S) → P s → Q (u r s))
      → ((x : Resource)
          → IsReal x
          → (t : Trace) (s : S) → P s
          → holds x (u (d t c) s) + returned x c (d t c) ≡ holds x s + gained x c (d t c))
      → Keeps holds P Q (call d c >>= λ r. modify (u r) >>= λ z. check_reply d r)
  writes_out-Keeps {P} {Q} d c u step even = record {
    ends = λ w kept p.
        let r = d w.trace c in
        let k : Keeps holds Q Q (check_reply d r) = Keeps-check_reply d r in
        k.ends _
          (changed-IsKept holds d c (u r w.self) w kept (λ x real. even x real w.trace w.self p))
          (step r w.self p);
  }

  -- A checked call, and what is noted when it has succeeded.
  pub notes-Keeps :
      {P Q : S → Type 0} (d : Driver) (c : Call) (u : S → S)
      → ((s : S) → P s → Q (u s))
      → ((x : Resource)
          → IsReal x
          → (s : S) (r : Reply) → P s
          → is_zero r.ret ≡ true
          → holds x (u s) + lost x c ≡ holds x s + gained x c r)
      → ((x : Resource) → IsReal x → (r : Reply) → is_zero r.ret ≡ false → gained x c r ≡ 0)
      → Keeps holds P Q (check d c >>= λ n. modify u)
  notes-Keeps {P} {Q} d c u step good bad = record {
    ends = λ w kept p.
        let r = d w.trace c in
        Ends-bind (λ n v. (v ≡ after d c w) × (is_zero r.ret ≡ true))
          (λ n v. IsKept holds v × Q v.self) (IsKept holds) (λ n. modify u) (check d c w)
          (Ends-if (λ n v. (v ≡ after d c w) × (is_zero r.ret ≡ true)) (IsKept holds)
            (is_zero r.ret) (pure r.out) (raise failed_check) (after d c w) (λ e. (refl, e))
            (λ e.
              changed-IsKept holds d c w.self w kept
                (λ x real. rw e (omega (arith, bad x real r e)))))
          (λ n v (here, e). rw here (
            changed-IsKept holds d c (u w.self) w kept (λ x real. rw e (good x real w.self r p e)),
            step w.self p,
          ));
  }

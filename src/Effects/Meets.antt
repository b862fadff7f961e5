-- ===== src/Effects/Meets.antt =====
-- Conditions on the world before a part, after it, and where it throws.
use ascend_hal_sharing_probe.Prelude.{◌≡◌, Bool, true, false, if◌then◌else◌}
use ascend_hal_sharing_probe.Effects.{
  Call, Reply, Driver, Exception, Outcome, ok, threw, fault, World, M, pure, raise, gets, modify,
  call, ◌>>=◌, ◌>>◌, follow,
}
use ascend_hal_sharing_probe.Effects.Outcomes.{Ends, Ends-bind, after}
use ascend_hal_sharing_probe.Effects.Tally.{is_quiet}

-- `try { m } catch (e) { h }`
abbrev pub handle : {S A : Type 0} → (Exception → M S A) → Outcome A × World S → Outcome A × World S
handle h (ok a, w) = (ok a, w)
handle h (threw e, w) = h e w
handle h (fault f, w) = (fault f, w)

unfoldable pub attempt : {S A : Type 0} → M S A → (Exception → M S A) → M S A
attempt m h w = handle h (m w)

-- A scope: `last` is what its objects' destructors do, whether the scope returns or throws.
abbrev pub close : {S A : Type 0} → M S (Unit {0}) → Outcome A × World S → Outcome A × World S
close last (ok a, w) = (last >> pure a) w
close last (threw e, w) = (last >> raise e) w
close last (fault f, w) = (fault f, w)

unfoldable pub scoped : {S A : Type 0} → M S A → M S (Unit {0}) → M S A
scoped m last w = close last (m w)

-- The part ends: from a world with `P` it returns one with `Q` or throws in one with `E`.
pub record Meets {S A : Type 0} (P Q E : World S → Type 0) (m : M S A) : Type 0 where
  pub ends : (w : World S) → P w → Ends (λ a v. Q v) E (m w)

-- A condition that quiet calls leave as it is.
abbrev pub IsStable : {S : Type 0} → Driver → (World S → Type 0) → Type 0
IsStable {S} d P = (c : Call) → is_quiet c ≡ true → (w : World S) → P w → P (after d c w)

module _ {S : Type 0} {E : World S → Type 0} where
  pub Meets-bind :
      {A B : Type 0} {P Q R : World S → Type 0} {m : M S A} {f : A → M S B}
      → Meets P Q E m
      → ((a : A) → Meets Q R E (f a))
      → Meets P R E (m >>= f)
  Meets-bind {A} {B} {P} {Q} {R} {m} {f} k h = record {
    ends =
        λ w p. Ends-bind (λ a v. Q v) (λ a v. R v) E f (m w) (k.ends w p) (λ a v q. (h a).ends v q);
  }

  pub Meets-if :
      {A : Type 0} {P Q : World S → Type 0} {f g : M S A} (b : Bool)
      → Meets P Q E f
      → Meets P Q E g
      → Meets P Q E (if b then f else g)
  Meets-if true k h = k
  Meets-if false k h = h

  pub Meets-pure : {A : Type 0} {P : World S → Type 0} (a : A) → Meets P P E (pure a)
  Meets-pure a = record { ends = λ w p. p }

  pub Meets-raise :
      {A : Type 0} {P Q : World S → Type 0} (e : Exception)
      → ((w : World S) → P w → E w)
      → Meets {A = A} P Q E (raise e)
  Meets-raise e h = record { ends = λ w p. h w p }

  pub Meets-gets : {A : Type 0} {P : World S → Type 0} (f : S → A) → Meets P P E (gets f)
  Meets-gets f = record { ends = λ w p. p }

  pub Meets-modify :
      {P Q : World S → Type 0} (f : S → S)
      → ((w : World S) → P w → Q (record w { self = f w.self }))
      → Meets P Q E (modify f)
  Meets-modify f h = record { ends = λ w p. h w p }

  pub Meets-call :
      {P Q : World S → Type 0} (d : Driver) (c : Call)
      → ((w : World S) → P w → Q (after d c w))
      → Meets P Q E (call d c)
  Meets-call d c h = record { ends = λ w p. h w p }

  -- The rest of the part may depend on the reply.
  pub Meets-call_into :
      {B : Type 0} {P R : World S → Type 0} (Q : Reply → World S → Type 0) {f : Reply → M S B}
      (d : Driver) (c : Call)
      → ((w : World S) → P w → Q (d w.trace c) (after d c w))
      → ((r : Reply) → Meets (Q r) R E (f r))
      → Meets P R E (call d c >>= f)
  Meets-call_into Q d c h k = record { ends = λ w p. (k (d w.trace c)).ends (after d c w) (h w p) }

  pub Meets-attempt :
      {A : Type 0} {P Q F : World S → Type 0} {m : M S A} {h : Exception → M S A}
      → Meets P Q E m
      → ((e : Exception) → Meets E Q F (h e))
      → Meets P Q F (attempt m h)
  unfolding attempt
  Meets-attempt {A} {P} {Q} {F} {m} {h} k l = record { ends = λ w p. handled (m w) (k.ends w p) }
    where
      handled : (r : Outcome A × World S) → Ends (λ a v. Q v) E r → Ends (λ a v. Q v) F (handle h r)
      handled (ok a, w) q = q
      handled (threw e, w) q = (l e).ends w q
      handled (fault f, w) q = absurd q

-- The rule of consequence.
pub Meets-weaken :
    {S A : Type 0} {P Q E P' Q' E' : World S → Type 0} {m : M S A}
    → ((w : World S) → P' w → P w)
    → ((w : World S) → Q w → Q' w)
    → ((w : World S) → E w → E' w)
    → Meets P Q E m
    → Meets P' Q' E' m
Meets-weaken {S} {A} {P} {Q} {E} {P'} {Q'} {E'} {m} before after thrown k = record {
  ends = λ w p. weaken (m w) (k.ends w (before w p));
}
  where
    weaken : (r : Outcome A × World S) → Ends (λ a v. Q v) E r → Ends (λ a v. Q' v) E' r
    weaken (ok a, w) q = after w q
    weaken (threw e, w) q = thrown w q
    weaken (fault f, w) q = q

-- The scope's end is reached on either way, and does not throw.
pub Meets-scoped :
    {S A : Type 0} {P Q E : World S → Type 0} {Q' E' : World S → Type 0} {m : M S A}
    {last : M S (Unit {0})}
    → Meets P Q E m
    → Meets Q Q' (λ w. ⊥) last
    → Meets E E' (λ w. ⊥) last
    → Meets P Q' E' (scoped m last)
unfolding scoped
Meets-scoped {S} {A} {P} {Q} {E} {Q'} {E'} {m} {last} k l l' = record {
  ends = λ w p. closing (m w) (k.ends w p);
}
  where
    passed :
        (a : A) (r : Outcome (Unit {0}) × World S)
        → Ends (λ u v. Q' v) (λ v. ⊥) r
        → Ends (λ a v. Q' v) E' (follow (λ u. pure a) r)
    passed a (ok u, w) q = q
    passed a (threw e, w) q = absurd q
    passed a (fault f, w) q = q

    passed_on :
        (e : Exception) (r : Outcome (Unit {0}) × World S)
        → Ends (λ u v. E' v) (λ v. ⊥) r
        → Ends {A = A} (λ a v. Q' v) E' (follow (λ u. raise e) r)
    passed_on e (ok u, w) q = q
    passed_on e (threw e', w) q = absurd q
    passed_on e (fault f, w) q = q

    closing :
        (r : Outcome A × World S) → Ends (λ a v. Q v) E r → Ends (λ a v. Q' v) E' (close last r)
    closing (ok a, w) q = passed a (last w) (l.ends w q)
    closing (threw e, w) q = passed_on e (last w) (l'.ends w q)
    closing (fault f, w) q = q

-- ===== src/Effects/Outcomes.antt =====
-- How a part of a program ends, and the rules that put the ends of its parts together.
use ascend_hal_sharing_probe.Prelude.{◌≡◌, refl, Bool, true, false, ◌∷◌, if◌then◌else◌}
use ascend_hal_sharing_probe.Effects.{Call, Driver, Outcome, ok, threw, fault, World, M, follow}

-- The part returned and left what `P` says, or it threw and left what `Q` says.
abbrev pub Ends :
    {S A : Type 0} → (A → World S → Type 0) → (World S → Type 0) → Outcome A × World S → Type 0
Ends P Q (ok a, w) = P a w
Ends P Q (threw e, w) = Q w
Ends P Q (fault f, w) = ⊥

pub Ends-bind :
    {S A B : Type 0} (P : A → World S → Type 0) (P' : B → World S → Type 0) (Q : World S → Type 0)
    (f : A → M S B) (r : Outcome A × World S)
    → Ends P Q r
    → ((a : A) (w : World S) → P a w → Ends P' Q (f a w))
    → Ends P' Q (follow f r)
Ends-bind P P' Q f (ok a, w) p h = h a w p
Ends-bind P P' Q f (threw e, w) q h = q
Ends-bind P P' Q f (fault f', w) x h = absurd x

pub Ends-map :
    {S A : Type 0} (P P' : A → World S → Type 0) (Q : World S → Type 0) (r : Outcome A × World S)
    → ((a : A) (w : World S) → P a w → P' a w)
    → Ends P Q r
    → Ends P' Q r
Ends-map P P' Q (ok a, w) h p = h a w p
Ends-map P P' Q (threw e, w) h q = q
Ends-map P P' Q (fault f, w) h x = x

-- The same for what it leaves where it throws.
pub Ends-weaken :
    {S A : Type 0} {P P' : A → World S → Type 0} {Q Q' : World S → Type 0} (r : Outcome A × World S)
    → ((a : A) (w : World S) → P a w → P' a w)
    → ((w : World S) → Q w → Q' w)
    → Ends P Q r
    → Ends P' Q' r
Ends-weaken (ok a, w) h k p = h a w p
Ends-weaken (threw e, w) h k q = k w q
Ends-weaken (fault f, w) h k x = x

pub Ends-if :
    {S A : Type 0} (P : A → World S → Type 0) (Q : World S → Type 0) (b : Bool) (f g : M S A)
    (w : World S)
    → (b ≡ true → Ends P Q (f w))
    → (b ≡ false → Ends P Q (g w))
    → Ends P Q ((if b then f else g) w)
Ends-if P Q true f g w t e = t refl
Ends-if P Q false f g w t e = e refl

-- A world after a call.
abbrev pub after : {S : Type 0} → Driver → Call → World S → World S
after d c w = record w { trace = (c, d w.trace c) ∷ w.trace }

-- ===== src/Common/Items.antt =====
-- The books of a program that holds allocations and items: both are even, and the object is as it
-- says.
pub mod Parts
use ascend_hal_sharing_probe.Effects.Ledger.{Resource}
use ascend_hal_sharing_probe.Prelude.{
  ◌+◌, ◌≡◌, ℕ, ap, true, List, ◌∷◌, arith, is_zero, if◌then◌else◌,
}
use ascend_hal_sharing_probe.Effects.{Call, Driver, Trace, World, M, modify, pure, call}
use ascend_hal_sharing_probe.Effects.Ledger.{is_neutral, gained-neutral, returned-neutral}
use ascend_hal_sharing_probe.Effects.Outcomes.{after}
use ascend_hal_sharing_probe.Effects.Tally.{
  Item, IsItem, opened, closed, is_still, is_quiet, Tally, changed-Tally, called-Tally,
}
use ascend_hal_sharing_probe.Effects.Meets.{
  Meets, IsStable, Meets-bind, Meets-call, Meets-if, Meets-pure, Meets-raise, Meets-modify,
}
use ascend_hal_sharing_probe.DataStrategy.Accounts.{held_all}
use ascend_hal_sharing_probe.Common.{Allocation, check, check_reply, cleanup, failed_check}
use ascend_hal_sharing_probe.Common.Books.{IsKept, changed-IsKept}

-- `extra` is what the part at work holds in its variables; `t` is the history at its begin.
pub record Holds {S : Type 0} (holds : Resource → S → ℕ) (held : Item → S → ℕ) (t : Trace)
    (F : S → Type 0) (extra : Item → ℕ) (w : World S) : Type 0 where
  pub kept : IsKept holds w
  pub frame : F w.self
  pub tally : Tally held extra t w

quiet-still : (c : Call) → is_quiet c ≡ true → is_still c ≡ true
quiet-still c h = ground arith

quiet-neutral : (c : Call) → is_quiet c ≡ true → is_neutral c ≡ true
quiet-neutral c h = ground arith

module _ {S : Type 0} {holds : Resource → S → ℕ} {held : Item → S → ℕ} {t : Trace} where
  -- A call that leaves the allocations alone, with a change of the object and of what is held.
  pub changed-Holds :
      {F G : S → Type 0} {extra extra' : Item → ℕ} (d : Driver) (c : Call) (s : S) (w : World S)
      → is_neutral c ≡ true
      → ((x : Resource) → holds x s ≡ holds x w.self)
      → G s
      → ((x : Item)
          → IsItem x
          → held x s + extra' x + closed x c ≡ held x w.self + extra x + opened x c (d w.trace c))
      → Holds holds held t F extra w
      → Holds holds held t G extra' (record w { self = s; trace = (c, d w.trace c) ∷ w.trace })
  changed-Holds {F} {G} {extra} {extra'} d c s w quiet same g even h = record {
    kept = changed-IsKept holds d c s w h.kept λ x real. omega (
      arith,
      gained-neutral c x (d w.trace c) quiet,
      returned-neutral c x (d w.trace c) quiet,
      same x,
    );
    frame = g;
    tally = changed-Tally held extra extra' t d c s w h.tally even;
  }

  pub modified-Holds :
      {F G : S → Type 0} {extra extra' : Item → ℕ} (s : S) (w : World S)
      → ((x : Resource) → holds x s ≡ holds x w.self)
      → G s
      → ((x : Item) → IsItem x → held x s + extra' x ≡ held x w.self + extra x)
      → Holds holds held t F extra w
      → Holds holds held t G extra' (record w { self = s })
  modified-Holds s w same g even h = record {
    kept = λ x real. omega (arith, h.kept x real, same x);
    frame = g;
    tally = λ x real. omega (arith, h.tally x real, even x real);
  }

  module _ {F : S → Type 0} {extra : Item → ℕ} where
    pub Holds-IsStable : (d : Driver) → IsStable d (Holds holds held t F extra)
    Holds-IsStable d c quiet w h = record {
      kept = changed-IsKept holds d c w.self w h.kept λ x real. omega (
        arith,
        gained-neutral c x (d w.trace c) (quiet-neutral c quiet),
        returned-neutral c x (d w.trace c) (quiet-neutral c quiet),
      );
      frame = h.frame;
      tally = called-Tally held extra t d c w (quiet-still c quiet) h.tally;
    }

-- Checked calls and cleanups by any condition that the calls leave as it is.
module _ {S : Type 0} {P E : World S → Type 0} (d : Driver) (stable : IsStable d P) where
  pub quiet-Meets : (c : Call) → is_quiet c ≡ true → Meets P P E (call d c)
  quiet-Meets c quiet = Meets-call d c (λ w p. stable c quiet w p)

  module _ (thrown : (w : World S) → P w → E w) where
    pub check-Meets : (c : Call) → is_quiet c ≡ true → Meets P P E (check d c)
    check-Meets c quiet =
        Meets-bind (quiet-Meets c quiet)
          λ r. Meets-if (is_zero r.ret) (Meets-pure r.out) (Meets-raise failed_check thrown)

  pub cleanup-Meets :
      (note : S → S)
      → ((w : World S) → P w → P (record w { self = note w.self }))
      → (c : Call) → is_quiet c ≡ true
      → Meets P P E (cleanup d note c)
  cleanup-Meets note noted c quiet =
      Meets-bind (quiet-Meets c quiet)
        λ r. Meets-if (is_zero r.ret) (Meets-pure tt) (Meets-modify note noted)

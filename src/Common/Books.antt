-- ===== src/Common/Books.antt =====
-- The books of a program with allocations: what it has obtained from the driver is what the driver
-- has taken back and what its allocations hold.
use ascend_hal_sharing_probe.Prelude.{ℕ, ◌+◌, ◌≡◌, true, ◌∷◌, arith}
use ascend_hal_sharing_probe.Effects.{Call, Driver, World, M}
use ascend_hal_sharing_probe.Effects.Ledger.{
  Resource, IsReal, gained, returned, gains, given, is_neutral, gained-neutral, returned-neutral,
}
use ascend_hal_sharing_probe.Effects.Outcomes.{Ends, after}
use ascend_hal_sharing_probe.DataStrategy.Accounts.{held}
use ascend_hal_sharing_probe.Common.{Allocation, Place}

abbrev pub IsKept : {S : Type 0} → (Resource → S → ℕ) → World S → Type 0
IsKept holds w = (x : Resource) → IsReal x → gains x w.trace ≡ given x w.trace + holds x w.self

-- The part keeps the books, whether it returns or throws, and it does end. From an object with `P` it
-- returns an object with `Q`.
pub record Keeps {S A : Type 0} (holds : Resource → S → ℕ) (P Q : S → Type 0) (m : M S A)
    : Type 0 where
  pub ends :
      (w : World S)
      → IsKept holds w
      → P w.self
      → Ends (λ a v. IsKept holds v × Q v.self) (IsKept holds) (m w)

-- A place whose writes change nothing else of what the allocations hold.
pub record IsPlace {S : Type 0} (holds : Resource → S → ℕ) (p : Place S) : Type 0 where
  pub got : (a : Allocation) (s : S) → p.get (p.put a s) ≡ a
  pub moved :
      (x : Resource) (a : Allocation) (s : S)
      → holds x (p.put a s) + held x (p.get s) ≡ holds x s + held x a

-- The books are kept by a call if what it gains and loses is what the object's allocations do.
pub changed-IsKept :
    {S : Type 0} (holds : Resource → S → ℕ) (d : Driver) (c : Call) (s : S) (w : World S)
    → IsKept holds w
    → ((x : Resource)
        → IsReal x
        → holds x s + returned x c (d w.trace c) ≡ holds x w.self + gained x c (d w.trace c))
    → IsKept holds (record w { self = s; trace = (c, d w.trace c) ∷ w.trace })
unfolding gains given
changed-IsKept holds d c s w kept even x real = omega (arith, kept x real, even x real)

pub called-IsKept :
    {S : Type 0} (holds : Resource → S → ℕ) (d : Driver) (c : Call) (w : World S)
    → is_neutral c ≡ true
    → IsKept holds w
    → IsKept holds (after d c w)
called-IsKept holds d c w quiet kept = changed-IsKept holds d c w.self w kept λ x real.
    omega (arith, gained-neutral c x (d w.trace c) quiet, returned-neutral c x (d w.trace c) quiet)

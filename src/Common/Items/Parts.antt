-- ===== src/Common/Items/Parts.antt =====
-- Statements that neither open nor close anything, on their own.
use ascend_hal_sharing_probe.Effects.Ledger.{Resource}
use ascend_hal_sharing_probe.Prelude.{ℕ, ◌≡◌, true}
use ascend_hal_sharing_probe.Effects.{Call, Driver, Trace, call}
use ascend_hal_sharing_probe.Effects.Tally.{Item, is_quiet}
use ascend_hal_sharing_probe.Effects.Meets.{Meets}
use ascend_hal_sharing_probe.Common.{check}
use ascend_hal_sharing_probe.Common.Items.{Holds, Holds-IsStable, check-Meets, quiet-Meets}
use ascend_hal_sharing_probe.Common.Pattern.{Memory, fill, verify, fill-Meets, verify-Meets}

module _ {S : Type 0} {holds : Resource → S → ℕ} {held : Item → S → ℕ} {t : Trace} {F : S → Type 0}
    {extra : Item → ℕ} where
  pub call-Holds :
      (d : Driver) (c : Call)
      → is_quiet c ≡ true
      → Meets
          (Holds holds held t F extra)
          (Holds holds held t F extra)
          (Holds holds held t F extra)
          (call d c)
  call-Holds d c quiet = quiet-Meets d (Holds-IsStable d) c quiet

  pub check-Holds :
      (d : Driver) (c : Call)
      → is_quiet c ≡ true
      → Meets
          (Holds holds held t F extra)
          (Holds holds held t F extra)
          (Holds holds held t F extra)
          (check d c)
  check-Holds d c quiet = check-Meets d (Holds-IsStable d) (λ w h. h) c quiet

  pub fill-Holds :
      (d : Driver) (at bytes n : ℕ)
      → Meets
          (Holds holds held t F extra)
          (Holds holds held t F extra)
          (Holds holds held t F extra)
          (fill d at bytes n)
  fill-Holds d at bytes n = fill-Meets d (Holds-IsStable d) at bytes n

  pub verify-Holds :
      (mem : Memory) (at bytes n : ℕ)
      → Meets
          (Holds holds held t F extra)
          (Holds holds held t F extra)
          (Holds holds held t F extra)
          (verify mem at bytes n)
  verify-Holds mem at bytes n = verify-Meets mem (λ w h. h) at bytes n

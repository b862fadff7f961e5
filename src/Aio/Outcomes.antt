-- ===== src/Aio/Outcomes.antt =====
-- How a wrapped call of cache2_hal_aio ends.
use ascend_hal_sharing_probe.Prelude.{ℕ, ◌≡◌, true, false, is_zero}
use ascend_hal_sharing_probe.Effects.{Call, Driver, World, pure, raise}
use ascend_hal_sharing_probe.Aio.{AioState, sdk, failed_call}
use ascend_hal_sharing_probe.Effects.Outcomes.{Ends, Ends-if, after}

pub sdk-Ends :
    (P : ℕ → World AioState → Type 0) (Q : World AioState → Type 0) (d : Driver) (c : Call)
    (w : World AioState)
    → (is_zero (d w.trace c).ret ≡ true → P (d w.trace c).out (after d c w))
    → (is_zero (d w.trace c).ret ≡ false → Q (after d c w))
    → Ends P Q (sdk d c w)
sdk-Ends P Q d c w p q =
    Ends-if P Q (is_zero (d w.trace c).ret) (pure (d w.trace c).out) (raise failed_call)
      (after d c w) p q

-- ===== src/Device.antt =====
-- ucm_data_strategy/trans/device.{h,cc}: class Device over the ACL runtime.
use ascend_hal_sharing_probe.Prelude.{ℤ, is_zero, is_negative, [], ◌∷◌, Bool, if◌then◌else◌}
use ascend_hal_sharing_probe.Status.{Status, format, ok_status, error_status, duplicate_key}
use ascend_hal_sharing_probe.Effects.{
  acl_init, acl_finalize, set_device, reset_device, Driver, M, pure, call, ◌>>=◌,
}

-- `Status{ret, std::to_string(ret)}` unless the call succeeded
abbrev pub from_acl_error : ℤ → Status
from_acl_error ret =
    if is_zero ret then ok_status else record { code = ret; message = format "{}" (ret ∷ []) }

module _ (d : Driver) {S : Type 0} where
  -- `is_repeat` tells the SDK's ACL_ERROR_REPEAT_INITIALIZE, whose value is not in this repository.
  abbrev pub init : (ℤ → Bool) → M S Status
  init is_repeat = do
    r ← call d acl_init
    pure (
        if is_zero r.ret
        then ok_status
        else if is_repeat r.ret
        then duplicate_key
        else from_acl_error r.ret)

  abbrev pub setup : ℤ → M S Status
  setup device =
      if is_negative device
      then pure (error_status (format "invalid device id({})" (device ∷ [])))
      else (do r ← call d (set_device device); pure (from_acl_error r.ret))

  abbrev pub reset : ℤ → M S Status
  reset device =
      if is_negative device
      then pure (error_status (format "invalid device id({})" (device ∷ [])))
      else (do r ← call d (reset_device device); pure (from_acl_error r.ret))

  abbrev pub finalize : M S Status
  finalize = do r ← call d acl_finalize; pure (from_acl_error r.ret)

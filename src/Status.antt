-- ===== src/Status.antt =====
-- ucm_data_strategy/status/status.h: class Status and class Expected. A message that the source
-- renders with fmt is kept as its template and the values given to it.
use ascend_hal_sharing_probe.Prelude.{
  ℕ, String, Bool, true, false, not, ℤ, pos, negsuc, is_zero, List, ◌+◌,
}

pub data Message : Type 0 where
  empty : Message
  plain : String → Message
  format : String → List ℤ → Message
  -- a template whose last argument is a status, given by its code and its message
  format_status : String → List ℤ → ℤ → Message → Message

pub record Status : Type 0 where
  pub code : ℤ
  pub message : Message

-- `__MakeStatusCode<i>()`, which is -50000 - i
abbrev pub make_status_code : ℕ → ℤ
make_status_code i = negsuc (49999 + i)

abbrev pub ok_code : ℤ
ok_code = pos 0

abbrev pub error_code : ℤ
error_code = negsuc 0

abbrev pub eparam_code : ℤ
eparam_code = make_status_code 0

abbrev pub eoom_code : ℤ
eoom_code = make_status_code 1

abbrev pub eduplicate_code : ℤ
eduplicate_code = make_status_code 3

abbrev pub etimeout_code : ℤ
etimeout_code = make_status_code 10

abbrev pub success : Status → Bool
success s = is_zero s.code

abbrev pub failure : Status → Bool
failure s = not (success s)

abbrev pub ok_status : Status
ok_status = record { code = ok_code; message = empty }

abbrev pub error_status : Message → Status
error_status m = record { code = error_code; message = m }

abbrev pub invalid_param : Message → Status
invalid_param m = record { code = eparam_code; message = m }

abbrev pub out_of_memory : Status
out_of_memory = record { code = eoom_code; message = empty }

abbrev pub duplicate_key : Status
duplicate_key = record { code = eduplicate_code; message = empty }

abbrev pub timeout : Status
timeout = record { code = etimeout_code; message = empty }

-- `{status.Underlying(), fmt::format("...status={}", ..., status)}`
abbrev pub rewrap : String → List ℤ → Status → Status
rewrap template args s = record {
  code = s.code;
  message = format_status template args s.code s.message;
}

pub data Expected (A : Type 0) : Type 0 where
  value : A → Expected A
  error : Status → Expected A

abbrev pub has_value : {A : Type 0} → Expected A → Bool
has_value (value a) = true
has_value (error s) = false

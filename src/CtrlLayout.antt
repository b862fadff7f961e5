-- ===== src/CtrlLayout.antt =====
-- ucm_data_strategy/ctrl_layout.h: the terminal control transport. A rank's share handle is
-- printed as a `DESC` line and read back from the lines of standard input.
pub mod RoundTrip
use ascend_hal_sharing_probe.Prelude.{
  ℕ, ◌-◌, ◌*◌, ◌%◌, Bool, true, false, ◌&&◌, Option, none, some, List, [], ◌∷◌, ◌++◌, leb, ◌==◌,
  if◌then◌else◌, size_mod,
}
use ascend_hal_sharing_probe.Status.{
  Status, plain, ok_status, invalid_param, Expected, value, error,
}
use ascend_hal_sharing_probe.Effects.{
  Exception, Driver, Outcome, World, M, pure, call, ◌>>=◌, write_line, ok, threw, runtime_error,
}
use ascend_hal_sharing_probe.Text.{
  Line, extract_word, extract_size, all_digits, stoull, print_decimal, same_text, bytes_of,
}

-- `kInvalid`, SIZE_MAX
abbrev pub k_invalid : ℕ
k_invalid = size_mod - 1

pub record CtrlLayout : Type 0 where
  pub rank_count : ℕ
  pub slot_count : ℕ

abbrev pub ctrl_layout : ℕ → ℕ → CtrlLayout
ctrl_layout rank_count slots_per_rank = record {
  rank_count = rank_count;
  slot_count = rank_count * slots_per_rank % size_mod;
}

abbrev pub desc_tag : Line
desc_tag = bytes_of "DESC"

abbrev pub desc_line : ℕ → ℕ → Line
desc_line rank handle = desc_tag ++ (32 ∷ (print_decimal rank ++ (32 ∷ print_decimal handle)))

abbrev pub rank_out_of_range : Status
rank_out_of_range = invalid_param (plain "rank out of range")

unfoldable pub set_rank_desc : Driver → {S : Type 0} → CtrlLayout → ℕ → ℕ → M S Status
set_rank_desc d ctrl rank handle =
    if leb ctrl.rank_count rank
    then pure rank_out_of_range
    else (do r ← call d (write_line (desc_line rank handle)); pure ok_status)

-- What is left after a word is taken, or nothing at all.
abbrev pub has_word : Option (Line × Line) → Bool
has_word none = false
has_word (some _) = true

-- The digits-only test, the conversion and the test for the unset value.
abbrev pub accept_handle : Line → Option ℕ
accept_handle text =
    if all_digits text
    then elim (stoull text) [
      | none ↦ none
      | some handle ↦ if handle == k_invalid then none else some handle
    ]
    else none

abbrev pub read_handle : Option (Line × Line) → Option ℕ
read_handle none = none
read_handle (some (text, rest)) = if has_word (extract_word rest) then none else accept_handle text

abbrev pub read_rank : ℕ → Option (ℕ × Line) → Option ℕ
read_rank rank none = none
read_rank rank (some (peer, rest)) = if peer == rank then read_handle (extract_word rest) else none

abbrev pub read_tag : ℕ → Option (Line × Line) → Option ℕ
read_tag rank none = none
read_tag rank (some (tag, rest)) =
    if same_text tag desc_tag then read_rank rank (extract_size rest) else none

-- The handle that one pasted line gives for a rank; none where the loop says `continue`.
unfoldable pub parse_desc : ℕ → Line → Option ℕ
unfolding extract_word extract_size same_text
parse_desc rank line = read_tag rank (extract_word line)

-- The handle of this line, or what the later ones give.
abbrev pub first_of : Option ℕ → List Line → Option (ℕ × List Line) → Option (ℕ × List Line)
first_of none input later = later
first_of (some handle) input later = some (handle, input)

-- `for (;;)` over the lines of standard input; none is the end of input.
unfoldable pub read_desc : ℕ → List Line → Option (ℕ × List Line)
read_desc rank [] = none
read_desc rank (line ∷ input) = first_of (parse_desc rank line) input (read_desc rank input)

abbrev stdin_closed : Exception
stdin_closed = runtime_error (plain "stdin closed while waiting for rank descriptor")

abbrev take_desc : {S : Type 0} → Option (ℕ × List Line) → World S → Outcome (Expected ℕ) × World S
take_desc none w = (threw stdin_closed, record w { input = [] })
take_desc (some (handle, rest)) w = (ok (value handle), record w { input = rest })

unfoldable pub get_rank_desc : {S : Type 0} → CtrlLayout → ℕ → M S (Expected ℕ)
get_rank_desc ctrl rank w =
    if leb ctrl.rank_count rank
    then (ok (error rank_out_of_range), w)
    else take_desc (read_desc rank w.input) w

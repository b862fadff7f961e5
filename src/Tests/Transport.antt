-- ===== src/Tests/Transport.antt =====
-- Runs of the `DESC` lines.
use ascend_hal_sharing_probe.Prelude.{
  ℕ, zero, suc, ◌≡◌, arith, none, some, List, [], ◌∷◌, ◌++◌, get_elem?,
}
use ascend_hal_sharing_probe.Text.{Line}
use ascend_hal_sharing_probe.CtrlLayout.{desc_line, parse_desc, read_desc}
use ascend_hal_sharing_probe.CtrlLayout.RoundTrip.{read_desc-append}

abbrev noise : List Line
noise = (68 ∷ 69 ∷ []) ∷ []

noise_silent : (i : ℕ) (line : Line) → get_elem? noise i ≡ some line → parse_desc 1 line ≡ none
unfolding parse_desc
noise_silent zero line e = ground arith
noise_silent (suc i) line e = ground arith

read_desc-append_example : read_desc 1 (noise ++ (desc_line 1 77 ∷ [])) ≡ some (77, [])
read_desc-append_example = read_desc-append 1 77 noise [] (omega arith) (omega arith) noise_silent

-- ===== src/CtrlLayout/RoundTrip.antt =====
-- The `DESC` line that `SetRankDesc` prints and that `GetRankDesc` reads.
use ascend_hal_sharing_probe.Prelude.{
  ℕ, suc, ◌<◌, ◌≡◌, ◌≢◌, refl, ap, ◌∙◌, true, false, inl, inr, Option, none, some, List, [], ◌∷◌,
  ◌++◌, arith, get_elem?, if◌then◌else◌, subst, sym, ltb, lt→ltb, ◌==◌, Bool-cases, size_mod,
}
use mathlib.Core.Path.{subst₂}
use ascend_hal_sharing_probe.Text.{
  Line, is_digit, is_space, all_digits, value_from, skip_spaces, span, extract_word, extract_size,
  same_text,
}
use ascend_hal_sharing_probe.Text.Decimal.{
  value-print_decimal, digits-print_decimal, print_decimal_head, span-digits, span_words,
}
use ascend_hal_sharing_probe.CtrlLayout.{
  k_invalid, desc_line, desc_tag, parse_desc, read_desc, first_of, accept_handle, read_handle,
  read_rank, read_tag, has_word,
}

skip_spaces-digit : (c : ℕ) (cs : Line) → is_digit c ≡ true → skip_spaces (32 ∷ (c ∷ cs)) ≡ c ∷ cs
unfolding skip_spaces
skip_spaces-digit c cs d = let shown : is_space c ≡ false = ground arith in rw shown refl

first_digit : (c : ℕ) (cs : Line) → all_digits (c ∷ cs) ≡ true → is_digit c ≡ true
first_digit c cs d = ground arith

-- A number's digits after a space, with another space and text behind them.
extract_size-digits :
    (c : ℕ) (cs rest : Line)
    → all_digits (c ∷ cs) ≡ true
    → value_from 0 (c ∷ cs) < size_mod
    → extract_size (32 ∷ ((c ∷ cs) ++ (32 ∷ rest))) ≡ some (value_from 0 (c ∷ cs), 32 ∷ rest)
unfolding extract_size
extract_size-digits c cs rest digits small =
    let first = first_digit c cs digits in
    let no_minus : (c == 45) ≡ false = ground arith in
    let no_plus : (c == 43) ≡ false = ground arith in
    let fits : ltb (value_from 0 (c ∷ cs)) size_mod ≡ true = lt→ltb _ _ small in
    rw
      (
        skip_spaces-digit c (cs ++ (32 ∷ rest)) first,
        no_minus,
        no_plus,
        span-digits (c ∷ cs) 32 rest digits refl,
        fits,
      )
      refl

-- The last number of a line, as a word.
extract_word-digits :
    (c : ℕ) (cs : Line)
    → all_digits (c ∷ cs) ≡ true
    → extract_word (32 ∷ (c ∷ cs)) ≡ some (c ∷ cs, [])
unfolding extract_word
extract_word-digits c cs digits =
    rw (skip_spaces-digit c cs (first_digit c cs digits), span_words (c ∷ cs) digits) refl

-- Numbers behind the tag.
parse_desc-numbers :
    (c c' : ℕ) (cs cs' : Line)
    → all_digits (c ∷ cs) ≡ true
    → all_digits (c' ∷ cs') ≡ true
    → value_from 0 (c ∷ cs) < size_mod
    → value_from 0 (c' ∷ cs') < k_invalid
    → parse_desc (value_from 0 (c ∷ cs)) (desc_tag ++ (32 ∷ ((c ∷ cs) ++ (32 ∷ (c' ∷ cs')))))
      ≡ some (value_from 0 (c' ∷ cs'))
unfolding parse_desc extract_word skip_spaces span same_text
parse_desc-numbers c c' cs cs' digits digits' small small' =
    let here : (value_from 0 (c ∷ cs) == value_from 0 (c ∷ cs)) ≡ true = ground arith in
    let fits : ltb (value_from 0 (c' ∷ cs')) size_mod ≡ true = ground arith in
    let set_value : (value_from 0 (c' ∷ cs') == k_invalid) ≡ false = ground arith in
    rw
      (
        extract_size-digits c cs (c' ∷ cs') digits small,
        here,
        extract_word-digits c' cs' digits',
        digits',
        fits,
        set_value,
      )
      refl

-- For a rank that `size_t` holds and a handle below the reserved value, a reader waiting for that
-- rank reads the printed line as that handle.
parse_desc-desc_line :
    (rank handle : ℕ)
    → rank < size_mod
    → handle < k_invalid
    → parse_desc rank (desc_line rank handle) ≡ some handle
parse_desc-desc_line rank handle small small' =
    let (c, cs, head) = print_decimal_head rank in
    let (c', cs', head') = print_decimal_head handle in
    let digits : all_digits (c ∷ cs) ≡ true =
      ap all_digits (sym head) ∙ digits-print_decimal rank in
    let digits' : all_digits (c' ∷ cs') ≡ true =
      ap all_digits (sym head') ∙ digits-print_decimal handle in
    let v : value_from 0 (c ∷ cs) ≡ rank =
      ap (value_from 0) (sym head) ∙ value-print_decimal rank in
    let v' : value_from 0 (c' ∷ cs') ≡ handle =
      ap (value_from 0) (sym head') ∙ value-print_decimal handle in
    rw (head, head')
      (subst₂
        (λ (r h : ℕ). parse_desc r (desc_tag ++ (32 ∷ ((c ∷ cs) ++ (32 ∷ (c' ∷ cs'))))) ≡ some h) v
        v' (parse_desc-numbers c c' cs cs' digits digits' (omega (arith, v)) (omega (arith, v'))))

accept_handle-set : (text : Line) → accept_handle text ≢ some k_invalid
accept_handle-set text e = ground arith

read_handle-set : (o : Option (Line × Line)) → read_handle o ≢ some k_invalid
read_handle-set none e = ground arith
read_handle-set (some (text, rest)) e = elim (Bool-cases (has_word (extract_word rest))) [
  | inl more ↦ ground (arith, more)
  | inr ended ↦
      accept_handle-set text
        (subst (λ b. (if b then none else accept_handle text) ≡ some k_invalid) ended e)
]

read_rank-set : (rank : ℕ) (o : Option (ℕ × Line)) → read_rank rank o ≢ some k_invalid
read_rank-set rank none e = ground arith
read_rank-set rank (some (peer, rest)) e = elim (Bool-cases (peer == rank)) [
  | inl same ↦
      read_handle-set (extract_word rest)
        (subst (λ b. (if b then read_handle (extract_word rest) else none) ≡ some k_invalid) same e)
  | inr other ↦ ground (arith, other)
]

read_tag-set : (rank : ℕ) (o : Option (Line × Line)) → read_tag rank o ≢ some k_invalid
read_tag-set rank none e = ground arith
read_tag-set rank (some (tag, rest)) e = elim (Bool-cases (same_text tag desc_tag)) [
  | inl same ↦ read_rank-set rank (extract_size rest) (
      subst (λ b. (if b then read_rank rank (extract_size rest) else none) ≡ some k_invalid) same e)
  | inr other ↦ ground (arith, other)
]

-- No line makes a reader accept the reserved value.
parse_desc-set : (rank : ℕ) (line : Line) → parse_desc rank line ≢ some k_invalid
unfolding parse_desc
parse_desc-set rank line e = read_tag-set rank (extract_word line) e

read_desc-found :
    (rank handle : ℕ) (line : Line) (rest : List Line)
    → parse_desc rank line ≡ some handle
    → read_desc rank (line ∷ rest) ≡ some (handle, rest)
unfolding read_desc
read_desc-found rank handle line rest e = ap (λ o. first_of o rest (read_desc rank rest)) e

read_desc-silent :
    (rank : ℕ) (line : Line) (rest : List Line)
    → parse_desc rank line ≡ none
    → read_desc rank (line ∷ rest) ≡ read_desc rank rest
unfolding read_desc
read_desc-silent rank line rest e = ap (λ o. first_of o rest (read_desc rank rest)) e

-- For a rank that `size_t` holds and a handle below the reserved value: after any lines that do not
-- announce the rank, the line that `SetRankDesc` prints gives the handle and is used up.
pub read_desc-append :
    (rank handle : ℕ) (skipped rest : List Line)
    → rank < size_mod
    → handle < k_invalid
    → ((i : ℕ) (line : Line) → get_elem? skipped i ≡ some line → parse_desc rank line ≡ none)
    → read_desc rank (skipped ++ (desc_line rank handle ∷ rest)) ≡ some (handle, rest)
read_desc-append rank handle [] rest small small' h =
    read_desc-found rank handle (desc_line rank handle) rest
      (parse_desc-desc_line rank handle small small')
read_desc-append rank handle (line ∷ skipped) rest small small' h =
    read_desc-silent rank line (skipped ++ (desc_line rank handle ∷ rest)) (h 0 line refl)
    ∙ read_desc-append rank handle skipped rest small small' (λ i l e. h (suc i) l e)

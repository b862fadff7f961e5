-- ===== src/Text.antt =====
-- What the programs use of the C++ text library: istringstream extraction in the C locale,
-- std::stoull after a digits-only test, and decimal printing. Text is a list of bytes.
use ascend_hal_sharing_probe.Prelude.{
  String, ℕ, zero, suc, ◌+◌, ◌-◌, ◌*◌, ◌/◌, ◌%◌, Bool, true, false, ◌&&◌, ◌||◌, Option, none, some,
  List, [], ◌∷◌, ltb, leb, ◌==◌, if◌then◌else◌, size_mod,
}
use Prim.Native.Char.{code}
pub mod Decimal

abbrev pub Line : Type 0
Line = List ℕ

-- The bytes of an ASCII literal.
abbrev pub bytes_of : String → Line
bytes_of String.[] = []
bytes_of (String.◌∷◌ c text) = code c ∷ bytes_of text

-- Two texts are the same.
unfoldable pub same_text : Line → Line → Bool
same_text [] [] = true
same_text (x ∷ xs) (y ∷ ys) = x == y && same_text xs ys
same_text _ _ = false

abbrev pub is_space : ℕ → Bool
is_space c = c == 32 || leb 9 c && leb c 13

abbrev pub is_digit : ℕ → Bool
is_digit c = leb 48 c && leb c 57

-- `find_first_not_of("0123456789") == npos`
abbrev pub all_digits : Line → Bool
all_digits [] = true
all_digits (c ∷ cs) = is_digit c && all_digits cs

abbrev pub value_from : ℕ → Line → ℕ
value_from v [] = v
value_from v (c ∷ cs) = value_from (v * 10 + (c - 48)) cs

unfoldable pub skip_spaces : Line → Line
skip_spaces [] = []
skip_spaces (c ∷ cs) = let rest = skip_spaces cs in if is_space c then rest else c ∷ cs

-- The longest prefix of bytes that pass the test, and what follows it.
unfoldable pub span : (ℕ → Bool) → Line → Line × Line
span test [] = ([], [])
span test (c ∷ cs) =
    let (front, back) = span test cs in if test c then (c ∷ front, back) else ([], c ∷ cs)

abbrev pub not_space : ℕ → Bool
not_space c = if is_space c then false else true

-- `input >> text`: skip white space, then take at least one other byte.
abbrev nonempty : Line × Line → Option (Line × Line)
nonempty ([], back) = none
nonempty (c ∷ front, back) = some (c ∷ front, back)

unfoldable pub extract_word : Line → Option (Line × Line)
unfolding skip_spaces span
extract_word s = nonempty (span not_space (skip_spaces s))

-- `input >> size`: an optional sign and digits; a value that does not fit fails, and a minus sign
-- negates modulo 2^64, as strtoull does.
abbrev negate : Bool → ℕ → ℕ
negate minus v = if minus then (size_mod - v) % size_mod else v

abbrev to_size : Bool → Option (Line × Line) → Option (ℕ × Line)
to_size minus none = none
to_size minus (some (digits, back)) =
    let v = value_from 0 digits in if ltb v size_mod then some (negate minus v, back) else none

abbrev signed_size : Line → Option (ℕ × Line)
signed_size [] = none
signed_size (c ∷ cs) =
    if c == 45
    then to_size true (nonempty (span is_digit cs))
    else if c == 43
    then to_size false (nonempty (span is_digit cs))
    else to_size false (nonempty (span is_digit (c ∷ cs)))

unfoldable pub extract_size : Line → Option (ℕ × Line)
unfolding skip_spaces span
extract_size s = signed_size (skip_spaces s)

-- `std::stoull` of a text that is digits only; none stands for out_of_range.
abbrev pub stoull : Line → Option ℕ
stoull s = let v = value_from 0 s in if ltb v size_mod then some v else none

-- Decimal printing, with rounds to spare.
pub print_from : ℕ → ℕ → Line → Line
print_from zero n acc = acc
print_from (suc fuel) n acc =
    let rest = print_from fuel (n / 10) ((48 + n % 10) ∷ acc) in
    if ltb n 10 then (48 + n) ∷ acc else rest

unfoldable pub print_decimal : ℕ → Line
unfolding print_from
print_decimal n = print_from (suc n) n []

-- ===== src/HalHostIo/Arguments.antt =====
-- The arguments of hal_host_io, and the whole program.
use ascend_hal_sharing_probe.Prelude.{
  ℕ, ◌*◌, ◌/◌, ◌^◌, ◌-◌, ◌<◌, ◌≤◌, ◌≡◌, Bool, true, false, not, ◌&&◌, ◌||◌, Option, none, some,
  List, [], ◌∷◌, ltb, ◌==◌, if◌then◌else◌, arith, refl, Bool-cases, inl, inr,
}
use ascend_hal_sharing_probe.Effects.{Driver, pure}
use ascend_hal_sharing_probe.Text.{Line, same_text, bytes_of}
use ascend_hal_sharing_probe.Demo.{number_of}
use ascend_hal_sharing_probe.Common.Pattern.{Memory}
use ascend_hal_sharing_probe.HalHostIo.{Step, run_test}

pub record Arguments : Type 0 where
  pub buffer_size : ℕ
  pub directory : Line
  pub directory_set : Bool

abbrev pub default_arguments : Arguments
default_arguments = record {
  buffer_size = 2 * 1024 * 1024;
  directory = 46 ∷ [];
  directory_set = false;
}

pub data Parsed : Type 0 where
  help : Parsed
  invalid : Parsed
  accepted : Arguments → Parsed

-- `SIZE_MAX` and the largest `off_t`, whichever is less.
abbrev pub max_bytes : ℕ
max_bytes = 2 ^ 63 - 1

-- A value that `from_chars` reads up to its end, from 1 to the bound.
abbrev pub size_for : Option ℕ → Option ℕ
size_for none = none
size_for (some mib) =
    if mib == 0 || ltb (max_bytes / (1024 * 1024)) mib then none else some (mib * 1024 * 1024)

abbrev pub is_option : Line → Bool
is_option [] = false
is_option (c ∷ cs) = c == 45

-- A directory, or what no program knows.
abbrev pub other : Arguments → Line → Option Arguments
other o word =
    if not (is_option word) && not o.directory_set
    then some (record o { directory = word; directory_set = true })
    else none

abbrev pub sized : Arguments → Option ℕ → Option Arguments
sized o none = none
sized o (some n) = some (record o { buffer_size = n })

abbrev pub go_on : (Arguments → Parsed) → Option Arguments → Parsed
go_on f none = invalid
go_on f (some o) = f o

-- The arguments after the program's name.
unfoldable pub parse : List Line → Arguments → Parsed
unfolding same_text
parse [] o = accepted o
parse (word ∷ []) o =
    if same_text word (bytes_of "--help") then help else go_on accepted (other o word)
parse (word ∷ value ∷ rest) o =
    let after_value = λ (o : Arguments). parse rest o in
    let after_word = λ (o : Arguments). parse (value ∷ rest) o in
    if same_text word (bytes_of "--help")
    then help
    else if same_text word (bytes_of "--size-mib")
    then go_on after_value (sized o (size_for (number_of value)))
    else go_on after_word (other o word)

abbrev pub begin : Driver → Memory → ℕ → Parsed → Step ℕ
begin d mem rounds help = pure 0
begin d mem rounds invalid = pure 2
begin d mem rounds (accepted o) = run_test d mem rounds o.buffer_size

unfoldable pub main : Driver → Memory → ℕ → List Line → Step ℕ
unfolding parse
main d mem rounds words = begin d mem rounds (parse words default_arguments)

-- A size that can be written at offsets that `off_t` holds: so many whole MiB.
pub record IsSized (o : Arguments) : Type 0 where
  pub mib : ℕ
  pub exact : o.buffer_size ≡ mib * 1048576
  pub some_bytes : 0 < mib
  pub in_range : o.buffer_size ≤ max_bytes

-- What is accepted is sized.
abbrev pub Accepts : Parsed → Type 0
Accepts help = Unit {0}
Accepts invalid = Unit {0}
Accepts (accepted o) = IsSized o

abbrev Chosen : Option Arguments → Type 0
Chosen none = Unit {0}
Chosen (some o) = IsSized o

go_on-Accepts :
    (f : Arguments → Parsed) (o : Option Arguments)
    → Chosen o
    → ((b : Arguments) → IsSized b → Accepts (f b))
    → Accepts (go_on f o)
go_on-Accepts f none c h = tt
go_on-Accepts f (some o) c h = h o c

pick_option : (b : Bool) (o : Arguments) → IsSized o → Chosen (if b then some o else none)
pick_option true o h = h
pick_option false o h = tt

other-Chosen : (o : Arguments) (word : Line) → IsSized o → Chosen (other o word)
other-Chosen o word h =
    pick_option (not (is_option word) && not o.directory_set)
      (record o { directory = word; directory_set = true })
      record { mib = h.mib; exact = h.exact; some_bytes = h.some_bytes; in_range = h.in_range }

sized-Chosen : (o : Arguments) (v : Option ℕ) → Chosen (sized o (size_for v))
sized-Chosen o none = tt
sized-Chosen o (some mib) = elim (Bool-cases (mib == 0 || ltb (max_bytes / (1024 * 1024)) mib)) [
  | inl e ↦ rw e tt
  | inr e ↦
      rw e record {
        mib = mib;
        exact = omega arith;
        some_bytes = ground arith;
        in_range = ground arith;
      }
]

pick : (b : Bool) (p q : Parsed) → Accepts p → Accepts q → Accepts (if b then p else q)
pick true p q h k = h
pick false p q h k = k

parse-Accepts : (words : List Line) (o : Arguments) → IsSized o → Accepts (parse words o)
unfolding parse
parse-Accepts [] o h = h
parse-Accepts (word ∷ []) o h =
    pick (same_text word (bytes_of "--help")) help _ tt
      (go_on-Accepts accepted (other o word) (other-Chosen o word h) (λ b k. k))
parse-Accepts (word ∷ value ∷ rest) o h = pick (same_text word (bytes_of "--help")) help _ tt (
    pick (same_text word (bytes_of "--size-mib")) _ _
      (go_on-Accepts (λ o. parse rest o) (sized o (size_for (number_of value)))
        (sized-Chosen o (number_of value)) (λ b k. parse-Accepts rest b k))
      (go_on-Accepts (λ o. parse (value ∷ rest) o) (other o word) (other-Chosen o word h)
        (λ b k. parse-Accepts (value ∷ rest) b k)))

-- Whatever the arguments are, an accepted buffer size is a positive number of whole MiB that both
-- size_t and off_t hold.
pub parse-IsSized : (words : List Line) → Accepts (parse words default_arguments)
parse-IsSized words =
    parse-Accepts words default_arguments
      record { mib = 2; exact = refl; some_bytes = omega arith; in_range = omega arith }

-- ===== src/MultiShare/Options.antt =====
-- The options of multi_share and their checks, and the range of addresses that a worker reserves.
pub mod Layout
use ascend_hal_sharing_probe.Prelude.{
  ℕ, ◌+◌, ◌-◌, ◌*◌, ◌/◌, ◌%◌, ◌^◌, Bool, true, false, not, ◌&&◌, ◌||◌, Option, none, some, List, [],
  ◌∷◌, ltb, leb, ◌==◌, if◌then◌else◌, size_mod, length,
}
use ascend_hal_sharing_probe.Text.{Line, same_text, bytes_of}
use ascend_hal_sharing_probe.Demo.{number_of}

abbrev pub va_alignment : ℕ
va_alignment = 2 ^ 30

abbrev pub int_max : ℕ
int_max = 2 ^ 31 - 1

-- A rank or descriptor of -1 is none.
pub record MultiOptions : Type 0 where
  pub devices : List ℕ
  pub nodes : List ℕ
  pub bytes : ℕ
  pub io_dir : Line
  pub rank : Option ℕ
  pub fd : Option ℕ

abbrev pub multi_options : MultiOptions
multi_options = record {
  devices = [];
  nodes = [];
  bytes = 2 * 1024 * 1024;
  io_dir = 46 ∷ [];
  rank = none;
  fd = none;
}

-- `number`, and the test against INT_MAX.
abbrev pub up_to_int_max : Option ℕ → Option ℕ
up_to_int_max none = none
up_to_int_max (some n) = if ltb int_max n then none else some n

-- The parts that `getline` finds between commas; none after a last comma.
abbrev pub before_part : ℕ → List Line → List Line
before_part c [] = (c ∷ []) ∷ []
before_part c (p ∷ ps) = (c ∷ p) ∷ ps

unfoldable pub split_commas : Line → List Line
split_commas [] = []
split_commas (c ∷ cs) =
    let rest = split_commas cs in if c == 44 then [] ∷ rest else before_part c rest

abbrev pub with_first : Option ℕ → Option (List ℕ) → Option (List ℕ)
with_first (some n) (some ns) = some (n ∷ ns)
with_first _ _ = none

unfoldable pub numbers : List Line → Option (List ℕ)
numbers [] = some []
numbers (p ∷ ps) = with_first (up_to_int_max (number_of p)) (numbers ps)

-- `value.back() == ','`
unfoldable pub ends_in_comma : Line → Bool
ends_in_comma [] = false
ends_in_comma (c ∷ []) = c == 44
ends_in_comma (c ∷ d ∷ cs) = ends_in_comma (d ∷ cs)

abbrev pub not_empty : Option (List ℕ) → Bool → Option (List ℕ)
not_empty (some (n ∷ ns)) false = some (n ∷ ns)
not_empty _ _ = none

unfoldable pub list : Line → Option (List ℕ)
unfolding split_commas numbers ends_in_comma
list value = not_empty (numbers (split_commas value)) (ends_in_comma value)

-- The size in MiB.
abbrev pub size_of : Option ℕ → Option ℕ
size_of none = none
size_of (some mib) =
    if mib == 0 || (not (mib % 2 == 0) || ltb ((size_mod - 1) / (1024 * 1024)) mib)
    then none
    else some (mib * 1024 * 1024)

abbrev pub put : {A : Type 0} → (A → MultiOptions) → Option A → Option MultiOptions
put f none = none
put f (some a) = some (f a)

unfoldable pub assign : MultiOptions → Line → Line → Option MultiOptions
unfolding same_text list
assign o key value =
    if same_text key (bytes_of "--devices")
    then put (λ l. record o { devices = l }) (list value)
    else if same_text key (bytes_of "--numa-nodes")
    then put (λ l. record o { nodes = l }) (list value)
    else if same_text key (bytes_of "--io-dir")
    then some (record o { io_dir = value })
    else if same_text key (bytes_of "--size-mib")
    then put (λ n. record o { bytes = n }) (size_of (number_of value))
    else if same_text key (bytes_of "--rank")
    then put (λ n. record o { rank = some n }) (up_to_int_max (number_of value))
    else if same_text key (bytes_of "--worker-fd")
    then put (λ n. record o { fd = some n }) (up_to_int_max (number_of value))
    else none

pub data Parsed : Type 0 where
  help refused : Parsed
  given : MultiOptions → Parsed

abbrev pub go_on : (MultiOptions → Parsed) → Option MultiOptions → Parsed
go_on f none = refused
go_on f (some o) = f o

-- The arguments after the program's name.
unfoldable pub parse : List Line → MultiOptions → Parsed
unfolding same_text assign
parse [] o = given o
parse (key ∷ []) o = if same_text key (bytes_of "--help") then help else refused
parse (key ∷ value ∷ rest) o =
    let after = λ (o : MultiOptions). parse rest o in
    if same_text key (bytes_of "--help") then help else go_on after (assign o key value)

unfoldable pub contains : ℕ → List ℕ → Bool
contains n [] = false
contains n (m ∷ ms) = n == m || contains n ms

-- `set<int>(...).size() != count`
unfoldable pub has_duplicate : List ℕ → Bool
unfolding contains
has_duplicate [] = false
has_duplicate (n ∷ ns) = contains n ns || has_duplicate ns

-- What main refuses; `visible` says whether ASCEND_RT_VISIBLE_DEVICES is set.
unfoldable pub is_refused : Bool → MultiOptions → Bool
unfolding has_duplicate
is_refused visible o =
    let count = length o.devices in
    (count == 0
      || (not (length o.nodes == count) || (ltb 64 count || ltb ((size_mod - 1) / count) o.bytes)))
    || (ltb (size_mod - 1 - (va_alignment - 1)) (o.bytes * count)
        || (has_duplicate o.devices || visible))

-- The coordinator, or the worker of a rank with its descriptor.
pub data Role : Type 0 where
  no_role coordinator : Role
  worker : ℕ → ℕ → Role

abbrev pub role_of : MultiOptions → Option ℕ → Option ℕ → Role
role_of o none none = coordinator
role_of o (some rank) (some fd) = if ltb rank (length o.devices) then worker rank fd else no_role
role_of o _ _ = no_role

unfoldable pub role : Bool → MultiOptions → Role
unfolding is_refused
role visible o = if is_refused visible o then no_role else role_of o o.rank o.fd

-- `(total + va_alignment - 1) & ~(va_alignment - 1)`, where `total` is `bytes * count` in size_t: the
-- lowest thirty binary digits are cleared.
unfoldable pub reserve_bytes : MultiOptions → ℕ
reserve_bytes o =
    let total = o.bytes * length o.devices % size_mod in
    (total + (va_alignment - 1)) % size_mod / va_alignment * va_alignment

-- The address of an owner's slice.
unfoldable pub slice : MultiOptions → ℕ → ℕ → ℕ
slice o base owner = (base + owner * o.bytes % size_mod) % size_mod

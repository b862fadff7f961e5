-- ===== src/Aio/Options.antt =====
-- The options of cache2_hal_aio.cc: the loop over the arguments and the checks.
use ascend_hal_sharing_probe.Prelude.{
  ℕ, ◌*◌, ◌/◌, ◌%◌, ◌^◌, Bool, true, false, not, ◌&&◌, ◌||◌, Option, none, some, List, [], ◌∷◌, ltb,
  leb, ◌==◌, if◌then◌else◌, size_mod, String,
}
use ascend_hal_sharing_probe.Text.{Line, same_text, bytes_of, all_digits, stoull}
use ascend_hal_sharing_probe.Aio.{Sizes}
pub mod Checked

pub record AioOptions : Type 0 where
  pub dir : Line
  pub device : ℕ
  pub blocks : ℕ
  pub shards : ℕ
  pub slot_bytes : ℕ
  pub depth : ℕ
  pub iterations : ℕ
  pub timeout_ms : ℕ
  pub pages : Line
  pub direct : Bool
  pub engine : Line
  pub memory_type : Line
  pub tensor_bytes : ℕ
  pub sync : Bool
  pub keep_files : Bool

abbrev pub aio_options : AioOptions
aio_options = record {
  dir = [];
  device = 0;
  blocks = 8;
  shards = 32;
  slot_bytes = 8388608;
  depth = 32;
  iterations = 2;
  timeout_ms = 60000;
  pages = bytes_of "auto";
  direct = true;
  engine = bytes_of "aio";
  memory_type = bytes_of "hal";
  tensor_bytes = 0;
  sync = false;
  keep_files = true;
}

abbrev pub sizes : AioOptions → Sizes
sizes o = record {
  blocks = o.blocks;
  shards = o.shards;
  slot_bytes = o.slot_bytes;
  tensor_bytes = o.tensor_bytes;
}

abbrev pub max_bytes : ℕ
max_bytes = 2 ^ 40

abbrev is_key : Line → String → Bool
is_key key name = same_text key (bytes_of name)

abbrev int32_max : ℕ
int32_max = 2147483647

-- The options whose value is a number of at most 2^40.
unfoldable pub assign_number : AioOptions → Line → ℕ → Option AioOptions
unfolding same_text
assign_number o key v =
    if is_key key "--device" && leb v int32_max
    then some (record o { device = v })
    else if is_key key "--blocks"
    then some (record o { blocks = v })
    else if is_key key "--shards"
    then some (record o { shards = v })
    else if is_key key "--slot-bytes"
    then some (record o { slot_bytes = v })
    else if is_key key "--depth"
    then some (record o { depth = v })
    else if is_key key "--tensor-bytes" && ltb 0 v
    then some (record o { tensor_bytes = v })
    else if is_key key "--iterations"
    then some (record o { iterations = v })
    else if is_key key "--timeout-ms"
    then some (record o { timeout_ms = v })
    else if is_key key "--direct" && leb v 1
    then some (record o { direct = v == 1 })
    else if is_key key "--sync" && leb v 1
    then some (record o { sync = v == 1 })
    else if is_key key "--keep-files" && leb v 1
    then some (record o { keep_files = v == 1 })
    else none

abbrev limited : AioOptions → Line → Option ℕ → Option AioOptions
limited o key none = none
limited o key (some v) = if ltb max_bytes v then none else assign_number o key v

abbrev number_text : AioOptions → Line → Line → Option AioOptions
number_text o key [] = none
number_text o key (c ∷ cs) = if all_digits (c ∷ cs) then limited o key (stoull (c ∷ cs)) else none

-- One option; the texts are taken as they are.
unfoldable pub assign_option : AioOptions → Line → Line → Option AioOptions
unfolding same_text assign_number
assign_option o key text =
    if is_key key "--memory"
    then some (record o { memory_type = text })
    else if is_key key "--engine"
    then some (record o { engine = text })
    else if is_key key "--dir"
    then some (record o { dir = text })
    else if is_key key "--pages"
    then some (record o { pages = text })
    else number_text o key text

pub data ParsedOptions : Type 0 where
  usage bad_argument : ParsedOptions
  given : AioOptions → ParsedOptions

unfoldable pub parse_options : AioOptions → List Line → ParsedOptions
unfolding same_text assign_option
parse_options o [] = given o
parse_options o (key ∷ []) = if is_key key "--help" then usage else bad_argument
parse_options o (key ∷ (text ∷ rest)) =
    if is_key key "--help"
    then usage
    else elim (assign_option o key text) [ none ↦ bad_argument | some o' ↦ parse_options o' rest ]

abbrev is_empty : Line → Bool
is_empty [] = true
is_empty (c ∷ cs) = false

-- `opt.tensorBytes && (opt.engine != "psync" || opt.slotBytes % opt.tensorBytes)`
abbrev pub has_bad_tensor : AioOptions → Bool
has_bad_tensor o =
    not (o.tensor_bytes == 0)
    && (not (is_key o.engine "psync") || not (o.slot_bytes % o.tensor_bytes == 0))

unfoldable pub is_refused : AioOptions → Bool
is_refused o =
    is_empty o.dir
    || o.blocks == 0
    || o.shards == 0
    || o.slot_bytes == 0
    || o.depth == 0
    || o.iterations == 0
    || o.timeout_ms == 0
    || ltb int32_max o.depth
    || (not (is_key o.engine "aio") && not (is_key o.engine "psync"))
    || (not (is_key o.memory_type "hal") && not (is_key o.memory_type "malloc"))
    || has_bad_tensor o
    || ltb (max_bytes / o.shards) o.blocks
    || ltb (max_bytes / o.slot_bytes) (o.blocks * o.shards % size_mod)
    || (not (is_key o.pages "auto") && not (is_key o.pages "normal") && not (is_key o.pages "huge"))

-- `opt.blocks * opt.shards * opt.slotBytes`
abbrev pub total_bytes : AioOptions → ℕ
total_bytes o = o.blocks * o.shards % size_mod * o.slot_bytes % size_mod

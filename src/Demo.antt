-- ===== src/Demo.antt =====
-- ucm_data_strategy/main.cpp: one process of the demo. It reads its options, sets a DataStrategy up,
-- holds it until a line is read, destroys it and finalizes the runtime.
pub mod Run
use ascend_hal_sharing_probe.Prelude.{
  ℕ, ◌*◌, ◌/◌, ◌-◌, ℤ, pos, Bool, true, false, ◌||◌, Option, none, some, List, [], ◌∷◌, ltb, leb,
  ◌==◌, if◌then◌else◌, size_mod,
}
use ascend_hal_sharing_probe.Status.{failure}
use ascend_hal_sharing_probe.Effects.{Driver, World, Outcome, ok, pure, modify, ◌>>=◌, ◌>>◌}
use ascend_hal_sharing_probe.Device
use ascend_hal_sharing_probe.Text.{Line, same_text, bytes_of, all_digits, stoull}
use ascend_hal_sharing_probe.CtrlLayout.{ctrl_layout}
use ascend_hal_sharing_probe.DataStrategy.{data_strategy, Action, reset}
use ascend_hal_sharing_probe.DataStrategy.Setup.{setup}

pub record DemoOptions : Type 0 where
  pub rank : ℕ
  pub ranks : ℕ
  pub device_id : ℕ
  pub slot_size : ℕ
  pub slots_per_rank : ℕ
  pub timeout_ms : ℕ

abbrev pub default_options : DemoOptions
default_options = record {
  rank = 0;
  ranks = 2;
  device_id = 0;
  slot_size = 8388608;
  slots_per_rank = 256;
  timeout_ms = 600000;
}

-- A value: digits only, not empty, and within `unsigned long long`.
abbrev pub number_of : Line → Option ℕ
number_of [] = none
number_of (c ∷ cs) = if all_digits (c ∷ cs) then stoull (c ∷ cs) else none

unfoldable pub assign : DemoOptions → Line → ℕ → Option DemoOptions
unfolding same_text
assign o key v =
    if same_text key (bytes_of "--rank")
    then some (record o { rank = v })
    else if same_text key (bytes_of "--ranks")
    then some (record o { ranks = v })
    else if same_text key (bytes_of "--device")
    then some (record o { device_id = v })
    else if same_text key (bytes_of "--slot-size")
    then some (record o { slot_size = v })
    else if same_text key (bytes_of "--slots-per-rank")
    then some (record o { slots_per_rank = v })
    else if same_text key (bytes_of "--timeout-ms")
    then some (record o { timeout_ms = v })
    else none

abbrev assign_text : DemoOptions → Line → Option ℕ → Option DemoOptions
assign_text o key none = none
assign_text o key (some v) = assign o key v

pub data Parsed : Type 0 where
  help argument_error : Parsed
  options : DemoOptions → Parsed

abbrev is_help : Line → Bool
is_help key = same_text key (bytes_of "--help")

-- The loop over the arguments.
unfoldable pub parse : DemoOptions → List Line → Parsed
unfolding same_text assign
parse o [] = options o
parse o (key ∷ []) = if is_help key then help else argument_error
parse o (key ∷ (text ∷ rest)) =
    if is_help key then help else elim (assign_text o key (number_of text)) [
      | none ↦ argument_error
      | some o' ↦ parse o' rest
    ]

abbrev int_max : ℕ
int_max = 2147483647

abbrev pub is_invalid : DemoOptions → Bool
is_invalid o =
    o.ranks == 0
    || ltb 128 o.ranks
    || leb o.ranks o.rank
    || ltb int_max o.device_id
    || o.slot_size == 0
    || o.slots_per_rank == 0
    || ltb ((size_mod - 1) / o.slot_size) o.slots_per_rank
    || ltb ((size_mod - 1) / o.ranks) o.slots_per_rank
    || ltb int_max o.timeout_ms

-- "Press Enter": one line, or the end of input.
abbrev pub hold_for : List Line → Action ℕ
hold_for [] w = (ok 1, w)
hold_for (line ∷ rest) w = (ok 0, record w { input = rest })

abbrev pub hold : Action ℕ
hold w = hold_for w.input w

module _ (d : Driver) (is_repeat : ℤ → Bool) (rounds : ℕ) where
  -- The block that owns the DataStrategy; its destructor runs at the end.
  unfoldable pub with_strategy : DemoOptions → Action ℕ
  with_strategy o = do
    modify (λ _. data_strategy)
    status ←
        setup d rounds (ctrl_layout o.ranks o.slots_per_rank) (pos o.device_id) o.rank o.slot_size
          o.slots_per_rank o.timeout_ms
    result ← (if failure status then pure 1 else hold)
    reset d
    pure result

  unfoldable pub run : DemoOptions → Action ℕ
  run o = do
    opened ← Device.init d is_repeat
    if failure opened then pure 1 else (do
      result ← with_strategy o
      closed ← Device.finalize d
      pure (if failure closed then 1 else result))

  abbrev pub run_parsed : Parsed → Action ℕ
  run_parsed help = pure 0
  run_parsed argument_error = pure 2
  run_parsed (options o) = if is_invalid o then pure 2 else run o

  -- The exit code.
  unfoldable pub main : List Line → Action ℕ
  unfolding parse
  main args = run_parsed (parse default_options args)

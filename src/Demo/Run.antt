-- ===== src/Demo/Run.antt =====
-- A whole run of the demo.
use ascend_hal_sharing_probe.Prelude.{
  ℕ, ◌*◌, ◌/◌, ◌-◌, ◌≤◌, ◌<◌, ◌≡◌, ◌≢◌, refl, ap, ◌∙◌, ℤ, pos, Bool, true, false, inl, inr, List,
  [], ◌∷◌, arith, Bool-cases, size_mod, if◌then◌else◌, is_zero,
}
use native.Mathlib.Nat.{div-mul-le_self, mul-le-mul_left, mul-div_cancel, mod-eq_of_lt, mul_comm}
use ascend_hal_sharing_probe.Status.{Status, success, failure}
use ascend_hal_sharing_probe.Effects.{
  Call, Driver, Trace, World, Outcome, ok, threw, fault, Fault, lcm_overflow, out_of_bounds,
  division_by_zero, stalled, acl_init, acl_finalize, follow, pure, ◌>>◌,
}
use ascend_hal_sharing_probe.Device
use ascend_hal_sharing_probe.Text.{Line}
use ascend_hal_sharing_probe.CtrlLayout.{ctrl_layout}
use ascend_hal_sharing_probe.DataStrategy.{DataStrategy, data_strategy, reset}
use ascend_hal_sharing_probe.DataStrategy.Accounts.{
  held_all, Accounted, IsSettled, Accounted-of_settled,
}
use ascend_hal_sharing_probe.DataStrategy.Stages.{called-Accounted}
use ascend_hal_sharing_probe.Effects.Ledger.{is_neutral}
use ascend_hal_sharing_probe.DataStrategy.Body.{reset-Kept}
use ascend_hal_sharing_probe.DataStrategy.Setup.{setup}
use ascend_hal_sharing_probe.DataStrategy.Local.{GrantsTooMuch}
use ascend_hal_sharing_probe.DataStrategy.Lifecycle.{SetupEnd, setup-SetupEnd}
use ascend_hal_sharing_probe.Demo.{
  DemoOptions, Parsed, help, argument_error, options, is_invalid, hold, hold_for, run_parsed,
  with_strategy, run, main, parse, default_options,
}

-- What the checks of the options leave.
pub record IsValid (o : DemoOptions) : Type 0 where
  pub rank_lt : o.rank < o.ranks
  pub some_slots : o.slots_per_rank ≢ 0
  pub ranks_fit : o.ranks * o.slots_per_rank < size_mod
  pub bytes_fit : o.slot_size * o.slots_per_rank < size_mod

product_lt : (a b : ℕ) → b ≤ (size_mod - 1) / a → a * b < size_mod
product_lt a b small = omega (
  arith,
  mul-le-mul_left {m = b} {n = (size_mod - 1) / a} a small,
  div-mul-le_self (size_mod - 1) a,
  mul_comm a ((size_mod - 1) / a),
)

-- Options that pass the checks have a rank below the rank count and at least one slot per rank, and
-- the products of the slots per rank with the ranks and with the slot size fit `size_t`.
is_invalid-IsValid : (o : DemoOptions) → is_invalid o ≡ false → IsValid o
is_invalid-IsValid o h = record {
  rank_lt = ground arith;
  some_slots = ground arith;
  ranks_fit = product_lt o.ranks o.slots_per_rank (ground arith);
  bytes_fit = product_lt o.slot_size o.slots_per_rank (ground arith);
}

-- The slots of the control layout are shared out exactly.
slots_shared :
    (o : DemoOptions)
    → IsValid o
    → (ctrl_layout o.ranks o.slots_per_rank).slot_count / o.slots_per_rank ≡ o.ranks
slots_shared o valid =
    ap (λ (n : ℕ). n / o.slots_per_rank) (mod-eq_of_lt valid.ranks_fit)
    ∙ mul-div_cancel o.ranks (ground (arith, valid.some_slots))

-- The one fault that a run can end in: the driver has just granted a granularity whose common multiple
-- with the address alignment `size_t` does not hold.
abbrev pub IsOverflow : Fault → Trace → Type 0
IsOverflow lcm_overflow t = GrantsTooMuch t
IsOverflow f t = ⊥

-- A run returned an exit code, and what it obtained has had the calls that give it back.
abbrev pub DemoEnd : Outcome ℕ × World DataStrategy → Type 0
DemoEnd (ok code, w) = IsSettled w.trace × (code ≤ 2)
DemoEnd (threw e, w) = ⊥
DemoEnd (fault f, w) = IsOverflow f w.trace

IsSettled-of_Accounted :
    (w : World DataStrategy) → w.self.mappings ≡ [] → Accounted w → IsSettled w.trace
unfolding held_all
IsSettled-of_Accounted w empty books x real = omega (arith, books x real, ap (held_all x) empty)

-- A neutral call on behalf of an object that holds nothing leaves nothing owed.
IsSettled-neutral :
    (d : Driver) (c : Call) (w : World DataStrategy)
    → is_neutral c ≡ true
    → w.self.mappings ≡ []
    → IsSettled w.trace
    → IsSettled ((c, d w.trace c) ∷ w.trace)
IsSettled-neutral d c w neutral empty settled =
    IsSettled-of_Accounted (record w { trace = (c, d w.trace c) ∷ w.trace }) empty
      (called-Accounted d c w neutral (Accounted-of_settled w empty settled))

module _ (d : Driver) (is_repeat : ℤ → Bool) (rounds : ℕ) where
  -- The end of the block, and `Finalize`.
  abbrev close : ℕ → World DataStrategy → Outcome ℕ × World DataStrategy
  close result w =
      follow (λ status. pure (if failure status then 1 else result)) (Device.finalize d w)

  close-End :
      (result : ℕ) (w : World DataStrategy)
      → result ≤ 2
      → w.self.mappings ≡ []
      → IsSettled w.trace
      → DemoEnd (close result w)
  close-End result w small empty settled =
      let r = d w.trace acl_finalize in
      let settled' = IsSettled-neutral d acl_finalize w refl empty settled in
      elim (Bool-cases (is_zero r.ret)) [
        | inl z ↦ rw z (settled', small)
        | inr z ↦ rw (z, z) (settled', omega arith)
      ]

  abbrev leave : ℕ → World DataStrategy → Outcome ℕ × World DataStrategy
  leave result w = follow close ((reset d >> pure result) w)

  leave-End :
      (result : ℕ) (w : World DataStrategy) → result ≤ 2 → Accounted w → DemoEnd (leave result w)
  leave-End result w small books =
      let (w', e, kept, empty, settled) = reset-Kept d w books in
      rw e (close-End result w' small empty settled)

  -- What follows the setup inside the block.
  abbrev in_block : Status → World DataStrategy → Outcome ℕ × World DataStrategy
  in_block status w =
      follow (λ result. reset d >> pure result) ((if failure status then pure 1 else hold) w)

  after_setup-End :
      (status : Status) (w : World DataStrategy)
      → Accounted w
      → DemoEnd (follow close (in_block status w))
  after_setup-End status w books = elim (Bool-cases (success status)) [
    | inr bad ↦ rw bad (leave-End 1 w (omega arith) books)
    | inl good ↦ rw good (held w.input)
  ]
    where
      held :
          (input : List Line)
          → DemoEnd (follow close (follow (λ result. reset d >> pure result) (hold_for input w)))
      held [] = leave-End 1 w (omega arith) books
      held (line ∷ rest) = leave-End 0 (record w { input = rest }) (omega arith) books

  setup-DemoEnd :
      (o : DemoOptions)
      → IsValid o
      → (r : Outcome Status × World DataStrategy)
      → SetupEnd d
          (ctrl_layout o.ranks o.slots_per_rank)
          o.slot_size
          o.slots_per_rank
          o.rank
          (pos o.device_id)
          r
      → DemoEnd (follow close (follow in_block r))
  setup-DemoEnd o valid (ok status, w) (ready, clear) =
      after_setup-End status w (elim (Bool-cases (success status)) [
        | inl good ↦ (ready good).books
        | inr bad ↦ Accounted-of_settled w (clear bad).empty (clear bad).settled
      ])
  setup-DemoEnd o valid (fault out_of_bounds, w) x = x
  setup-DemoEnd o valid (fault division_by_zero, w) x = x
  setup-DemoEnd o valid (fault lcm_overflow, w) x = x
  setup-DemoEnd o valid (fault stalled, w) (rank, out, below) =
      absurd (omega (arith, slots_shared o valid))
  setup-DemoEnd o valid (threw e, w) x = x

  -- A run with valid options.
  run-DemoEnd :
      (o : DemoOptions)
      → IsValid o
      → (w : World DataStrategy) → w.self.mappings ≡ []
      → IsSettled w.trace
      → DemoEnd (run d is_repeat rounds o w)
  unfolding run with_strategy
  run-DemoEnd o valid w empty settled =
      let r = d w.trace acl_init in
      let w' = record w { self = data_strategy; trace = (acl_init, r) ∷ w.trace } in
      let settled' = IsSettled-neutral d acl_init w refl empty settled in
      let lt : o.rank < (ctrl_layout o.ranks o.slots_per_rank).slot_count / o.slots_per_rank =
        omega (arith, slots_shared o valid, valid.rank_lt) in
      elim (Bool-cases (is_zero r.ret)) [
        | inl z ↦ rw z (
            setup-DemoEnd o valid
              (setup d rounds (ctrl_layout o.ranks o.slots_per_rank) (pos o.device_id) o.rank
                o.slot_size o.slots_per_rank o.timeout_ms w')
              (setup-SetupEnd d (ctrl_layout o.ranks o.slots_per_rank) o.slot_size o.slots_per_rank
                rounds (pos o.device_id) o.rank o.timeout_ms w' valid.some_slots lt
                (record { empty = refl; unset = refl; settled = settled' })))
        | inr z ↦ elim (Bool-cases (is_repeat r.ret)) [
          | inl again ↦ rw (z, again) (settled', omega arith)
          | inr other ↦ rw (z, other, z) (settled', omega arith)
        ]
      ]

  run_parsed-DemoEnd :
      (p : Parsed) (w : World DataStrategy)
      → w.self.mappings ≡ []
      → IsSettled w.trace
      → DemoEnd (run_parsed d is_repeat rounds p w)
  run_parsed-DemoEnd help w empty settled = (settled, omega arith)
  run_parsed-DemoEnd argument_error w empty settled = (settled, omega arith)
  run_parsed-DemoEnd (options o) w empty settled = elim (Bool-cases (is_invalid o)) [
    | inl bad ↦ rw bad (settled, omega arith)
    | inr good ↦ rw good (run-DemoEnd o (is_invalid-IsValid o good) w empty settled)
  ]

  -- From a world that holds and owes nothing, whatever the arguments, the pasted lines and the driver's answers, and however few rounds a
  -- wait is given, the process ends with an exit code of at most 2, and each resource that the driver
  -- has given has had the call that gives it back exactly as often, whether or not the driver took it.
  -- The only fault is the one after the driver has granted a granularity whose common multiple with the
  -- address alignment `size_t` does not hold.
  pub main-DemoEnd :
      (args : List Line) (w : World DataStrategy)
      → w.self.mappings ≡ []
      → IsSettled w.trace
      → DemoEnd (main d is_repeat rounds args w)
  unfolding main
  main-DemoEnd args w = run_parsed-DemoEnd (parse default_options args) w

-- ===== src/Tests/Phase.antt =====
-- Runs of the AIO phase.
use ascend_hal_sharing_probe.Prelude.{
  ℕ, ◌+◌, ◌*◌, ◌≤◌, ◌<◌, ◌≡◌, refl, pos, true, false, some, get_elem?, inl, arith,
}
use ascend_hal_sharing_probe.Aio.{Sizes}
use ascend_hal_sharing_probe.Aio.Phase.{
  Request, requests_from, PhaseState, Completion, start, handle, has_passed, PhaseSteps, still,
  next, check, accept, count, event,
}
use ascend_hal_sharing_probe.Aio.Phase.Counts.{passed_lem, bad_event-has_passed}
use ascend_hal_sharing_probe.Aio.Phase.Bounds.{steps-bounds}

abbrev one_request : Sizes
one_request = record { blocks = 1; shards = 1; slot_bytes = 8; tensor_bytes = 0 }

-- The Kernel completes what it has accepted.
abbrev Kernel : PhaseState → Completion → Type 0
Kernel s ev = ev.id < s.accepted

abbrev full : Completion
full = record { id = 0; is_own = true; res = pos 8; res2 = pos 0 }

abbrev short : Completion
short = record { id = 0; is_own = true; res = pos 3; res2 = pos 0 }

abbrev accepted_state : PhaseState
accepted_state = record (start one_request) { ready = false; accepted = 1 }

abbrev ready_state : PhaseState
ready_state = record (start one_request) { ready = true }

abbrev completed_state : PhaseState
completed_state = handle 8 full accepted_state

abbrev last_state : PhaseState
last_state = record completed_state { submitted = 1 }

-- The completion arrives before the submission is counted.
last_steps : PhaseSteps one_request 2 Kernel (start one_request) last_state
unfolding start requests_from
last_steps =
    next completed_state last_state
      (next accepted_state completed_state
        (next ready_state accepted_state
          (next (start one_request) ready_state still
            (check (start one_request) refl refl (omega arith) (omega arith)))
          (accept ready_state refl))
        (event accepted_state full refl (omega arith)))
      (count completed_state refl)

passed_lem_example :
    (last_state.completed ≡ 1 * 1)
    × ((i : ℕ) (r : Request) → get_elem? last_state.requests i ≡ some r → r.done ≡ true)
unfolding start requests_from
passed_lem_example = passed_lem one_request 2 Kernel last_state last_steps refl

bad_event-has_passed_example : has_passed (handle 8 short accepted_state) ≡ false
bad_event-has_passed_example =
    bad_event-has_passed one_request 2 Kernel accepted_state (handle 8 short accepted_state) short
      (inl refl) still

steps-bounds_example :
    (last_state.accepted ≤ last_state.completed + 2)
    × (last_state.completed ≤ last_state.accepted)
    × (last_state.accepted ≤ 1 * 1)
steps-bounds_example =
    steps-bounds one_request 2 Kernel (λ s ev h. h) (omega arith) last_state last_steps

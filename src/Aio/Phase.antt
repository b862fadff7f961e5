-- ===== src/Aio/Phase.antt =====
-- `AioPhase::Run` of cache2_hal_aio.cc: requests are submitted one by one while a second thread takes
-- completions. The two threads are steps of one relation; the kernel is a predicate that says which
-- completions it delivers in a state.
use ascend_hal_sharing_probe.Prelude.{
  ℕ, zero, suc, ◌+◌, ◌-◌, ◌*◌, ◌/◌, ◌%◌, ◌<◌, ◌≡◌, ℤ, pos, Bool, true, false, not, ◌&&◌, ◌||◌,
  Option, none, some, List, [], ◌∷◌, length, get_elem?, set, ltb, leb, ◌==◌, is_zero, if◌then◌else◌,
  size_mod,
}
use ascend_hal_sharing_probe.Aio.{Sizes}
pub mod Counts
pub mod Bounds

pub record Request : Type 0 where
  pub block : ℕ
  pub buf : ℕ
  pub nbytes : ℕ
  pub offset : ℕ
  pub done : Bool

-- The control block of request `i`; the buffer starts at 0.
abbrev pub request : Sizes → ℕ → Request
request o i = record {
  block = i / o.shards;
  buf = i * o.slot_bytes;
  nbytes = o.slot_bytes;
  offset = i % o.shards * o.slot_bytes;
  done = false;
}

unfoldable pub requests_from : Sizes → ℕ → ℕ → List Request
requests_from o zero i = []
requests_from o (suc left) i = request o i ∷ requests_from o left (suc i)

-- `io_event`: `data`, whether `obj` is the address of that request's control block, and the results.
pub record Completion : Type 0 where
  pub id : ℕ
  pub is_own : Bool
  pub res : ℤ
  pub res2 : ℤ

-- `ready` holds from the checks before a submission to the kernel's answer; `accepted` runs ahead of
-- `submitted` between that answer and the increment; the completion thread has returned when it is
-- not `listening`.
pub record PhaseState : Type 0 where
  pub requests : List Request
  pub ready : Bool
  pub accepted : ℕ
  pub submitted : ℕ
  pub completed : ℕ
  pub failed : Bool
  pub listening : Bool

unfoldable pub start : Sizes → PhaseState
unfolding requests_from
start o = record {
  requests = requests_from o (o.blocks * o.shards) 0;
  ready = false;
  accepted = 0;
  submitted = 0;
  completed = 0;
  failed = false;
  listening = true;
}

-- `ev.res == slotBytes && ev.res2 == 0`
abbrev pub is_full_result : ℕ → ℤ → Bool
is_full_result slot_bytes (pos n) = n == slot_bytes
is_full_result slot_bytes _ = false

abbrev pub is_full : ℕ → Completion → Bool
is_full slot_bytes ev = is_full_result slot_bytes ev.res && is_zero ev.res2

abbrev pub stop : PhaseState → PhaseState
stop s = record s { failed = true; listening = false }

-- A completion of the request `r`.
abbrev pub complete : ℕ → Completion → Request → PhaseState → PhaseState
complete slot_bytes ev r s = record s {
  requests = set s.requests ev.id (record r { done = true });
  completed = suc s.completed;
  failed = s.failed || not (is_full slot_bytes ev);
}

-- One turn of the loop over the events.
abbrev pub take_event : ℕ → Completion → Option Request → PhaseState → PhaseState
take_event slot_bytes ev none s = stop s
take_event slot_bytes ev (some r) s =
    if r.done || not ev.is_own then stop s else complete slot_bytes ev r s

abbrev pub handle : ℕ → Completion → PhaseState → PhaseState
handle slot_bytes ev s = take_event slot_bytes ev (get_elem? s.requests ev.id) s

-- `submitted - completed_.load()` in `size_t`
abbrev pub in_flight : PhaseState → ℕ
in_flight s = (s.submitted + (size_mod - s.completed)) % size_mod

-- What either thread does: the checks before a submission pass, the kernel accepts the request or asks
-- for another try, the request is counted; the completion thread takes an event, or one of its calls
-- fails. Waits change nothing.
pub data PhaseStep (o : Sizes) (depth : ℕ) (delivers : PhaseState → Completion → Type 0)
    : PhaseState → PhaseState → Type 0 where
  check :
      (s : PhaseState)
      → s.failed ≡ false
      → s.accepted ≡ s.submitted
      → s.submitted < length s.requests
      → in_flight s < depth
      → PhaseStep o depth delivers s (record s { ready = true })
  accept :
      (s : PhaseState)
      → s.ready ≡ true
      → PhaseStep o depth delivers s (record s { ready = false; accepted = suc s.submitted })
  again :
      (s : PhaseState) → s.ready ≡ true → PhaseStep o depth delivers s (record s { ready = false })
  count :
      (s : PhaseState)
      → s.accepted ≡ suc s.submitted
      → PhaseStep o depth delivers s (record s { submitted = suc s.submitted })
  event :
      (s : PhaseState) (ev : Completion)
      → s.listening ≡ true
      → delivers s ev
      → PhaseStep o depth delivers s (handle o.slot_bytes ev s)
  broken : (s : PhaseState) → s.listening ≡ true → PhaseStep o depth delivers s (stop s)

-- Any interleaving of such steps.
pub data PhaseSteps (o : Sizes) (depth : ℕ) (delivers : PhaseState → Completion → Type 0)
    (s : PhaseState) : PhaseState → Type 0 where
  still : PhaseSteps o depth delivers s s
  next :
      (t u : PhaseState)
      → PhaseSteps o depth delivers s t
      → PhaseStep o depth delivers t u
      → PhaseSteps o depth delivers s u

-- Both loops and the last check have been passed.
abbrev pub has_passed : PhaseState → Bool
has_passed s =
    leb (length s.requests) s.submitted && leb (length s.requests) s.completed && not s.failed

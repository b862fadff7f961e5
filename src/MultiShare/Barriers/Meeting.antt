-- ===== src/MultiShare/Barriers/Meeting.antt =====
-- What the barriers promise, without the coordinator and its words: a worker goes on once all have
-- arrived. The program's steps refine it.
use ascend_hal_sharing_probe.Prelude.{ℕ, ◌<◌, ◌≤◌, ◌≡◌, Bool, false, arith}
use ascend_hal_sharing_probe.MultiShare.Barriers.{
  Group, GroupStep, arrive, pass, stop, collect, answer_all, answer, next_phase, GroupSteps, begin,
  then_step, barriers, bump, mark,
}
use ascend_hal_sharing_probe.MultiShare.Barriers.Invariant.{
  IsSound, GroupSteps-IsSound, collected_now, answered_now, now,
}

-- How often each worker has arrived at a barrier and gone on from one, and whether it has left.
pub record Meeting : Type 0 where
  pub arrived : ℕ → ℕ
  pub passed : ℕ → ℕ
  pub gone : ℕ → Bool

abbrev pub first_meeting : Meeting
first_meeting = record { arrived = λ i. 0; passed = λ i. 0; gone = λ i. false }

pub data MeetingStep (workers : ℕ) (m : Meeting) : Meeting → Type 0 where
  comes :
      (i : ℕ)
      → i < workers
      → m.gone i ≡ false
      → m.arrived i ≡ m.passed i
      → m.passed i < barriers
      → MeetingStep workers m (record m { arrived = bump i m.arrived })
  goes_on :
      (i : ℕ)
      → i < workers
      → m.gone i ≡ false
      → ((j : ℕ) → j < workers → m.passed i < m.arrived j)
      → MeetingStep workers m (record m { passed = bump i m.passed })
  leaves : (i : ℕ) → i < workers → MeetingStep workers m (record m { gone = mark i m.gone })

pub data MeetingSteps (workers : ℕ) : Meeting → Type 0 where
  opening : MeetingSteps workers first_meeting
  then_meeting :
      {m k : Meeting} → MeetingSteps workers m → MeetingStep workers m k → MeetingSteps workers k

-- What the workers know of a group.
abbrev pub meeting : Group → Meeting
meeting s = record { arrived = s.sent; passed = s.passed; gone = s.stopped }

-- A worker that is let through a barrier finds all workers there.
answered-together :
    (workers : ℕ) {s : Group}
    → IsSound workers s
    → (i j : ℕ) → i < workers
    → j < workers
    → s.passed i < s.answered i
    → s.passed i < s.sent j
answered-together workers {s} h i j at_i at_j let_go =
    let ahead : answered_now s.turn i ≤ collected_now workers s.turn j =
      now workers s.turn i j h.in_reach at_i at_j in
    omega (arith, h.answered i at_i, h.collected j at_j, h.had j at_j, ahead)

-- A step is a step of the meeting, or of the coordinator alone.
step-MeetingSteps :
    (workers : ℕ) {s t : Group}
    → IsSound workers s
    → GroupStep workers s t
    → MeetingSteps workers (meeting s)
    → MeetingSteps workers (meeting t)
step-MeetingSteps workers h (arrive i lt live outside more) run =
    then_meeting run (comes i lt live outside more)
step-MeetingSteps workers h (pass i lt live waits let_go) run =
    then_meeting run (goes_on i lt live (λ j at_j. answered-together workers h i j lt at_j let_go))
step-MeetingSteps workers h (stop i lt) run = then_meeting run (leaves i lt)
step-MeetingSteps workers h (collect k e early lt ready) run = run
step-MeetingSteps workers h (answer_all e early) run = run
step-MeetingSteps workers h (answer k e lt) run = run
step-MeetingSteps workers h (next_phase e) run = run

-- Every run of the coordinator and the workers is, for the workers, a run of a meeting in which a
-- worker goes on from a barrier only once all workers have arrived at it.
pub steps-MeetingSteps :
    (workers : ℕ) {s : Group} → GroupSteps workers s → MeetingSteps workers (meeting s)
steps-MeetingSteps workers begin = opening
steps-MeetingSteps workers (then_step run move) =
    step-MeetingSteps workers (GroupSteps-IsSound workers run) move (steps-MeetingSteps workers run)

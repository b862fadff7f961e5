-- ===== src/MultiShare/Barriers/Invariant.antt =====
-- No worker passes a barrier before every worker has arrived at it.
use ascend_hal_sharing_probe.Prelude.{
  ℕ, suc, ◌+◌, ◌<◌, ◌≤◌, ◌≡◌, refl, subst, ltb, if◌then◌else◌, arith,
}
use ascend_hal_sharing_probe.MultiShare.Barriers.{
  Turn, collecting, answering, Group, start, GroupStep, arrive, pass, stop, collect, answer_all,
  answer, next_phase, GroupSteps, begin, then_step, barriers,
}

-- How many words the coordinator has collected from a worker, and answered, in this phase.
abbrev pub collected_now : ℕ → Turn → ℕ → ℕ
collected_now workers (collecting k) i = if ltb i k then 1 else 0
collected_now workers (answering k) i = 1

abbrev pub answered_now : Turn → ℕ → ℕ
answered_now (collecting k) i = 0
answered_now (answering k) i = if ltb i k then 1 else 0

abbrev pub place : Turn → ℕ
place (collecting k) = k
place (answering k) = k

-- The coordinator answers in each of its phases, and in no more.
abbrev pub InTime : ℕ → Turn → Type 0
InTime phase (collecting k) = phase ≤ barriers
InTime phase (answering k) = phase < barriers

pub record IsSound (workers : ℕ) (s : Group) : Type 0 where
  pub collected : (i : ℕ) → i < workers → s.collected i ≡ s.phase + collected_now workers s.turn i
  pub answered : (i : ℕ) → i < workers → s.answered i ≡ s.phase + answered_now s.turn i
  pub had : (i : ℕ) → i < workers → s.collected i ≤ s.sent i
  pub let_in : (i : ℕ) → i < workers → s.passed i ≤ s.answered i
  pub in_order : (i : ℕ) → i < workers → (s.passed i ≤ s.sent i) × (s.sent i ≤ suc (s.passed i))
  pub in_reach : place s.turn ≤ workers
  pub in_time : InTime s.phase s.turn

start-IsSound : (workers : ℕ) → IsSound workers start
start-IsSound workers = record {
  collected = λ i lt. ground arith;
  answered = λ i lt. refl;
  had = λ i lt. omega arith;
  let_in = λ i lt. omega arith;
  in_order = λ i lt. (omega arith, omega arith);
  in_reach = omega arith;
  in_time = omega arith;
}

-- The coordinator's words, by its turn.
pub at_turn :
    {workers : ℕ} {s : Group} {u : Turn}
    → IsSound workers s
    → s.turn ≡ u
    → (j : ℕ) → j < workers
    → (s.collected j ≡ s.phase + collected_now workers u j)
      × (s.answered j ≡ s.phase + answered_now u j)
at_turn {workers} {s} {u} h e j lt = (
  subst (λ (u : Turn). s.collected j ≡ s.phase + collected_now workers u j) e (h.collected j lt),
  subst (λ (u : Turn). s.answered j ≡ s.phase + answered_now u j) e (h.answered j lt),
)

-- No worker is answered in a phase before all are collected.
pub now :
    (workers : ℕ) (u : Turn) (i j : ℕ)
    → place u ≤ workers
    → i < workers
    → j < workers
    → answered_now u i ≤ collected_now workers u j
now workers (collecting k) i j reach at_i at_j = omega arith
now workers (answering k) i j reach at_i at_j = ground arith

GroupStep-IsSound :
    (workers : ℕ) {s t : Group} → GroupStep workers s t → IsSound workers s → IsSound workers t
GroupStep-IsSound workers {s} (arrive i lt live outside more) h = record {
  collected = h.collected;
  answered = h.answered;
  had = λ j lt'. ground (arith, h.had j lt');
  let_in = h.let_in;
  in_order = λ j lt'. (ground (arith, h.in_order j lt'), ground (arith, h.in_order j lt'));
  in_reach = h.in_reach;
  in_time = h.in_time;
}
GroupStep-IsSound workers {s} (pass i lt live waits let_go) h = record {
  collected = h.collected;
  answered = h.answered;
  had = h.had;
  let_in = λ j lt'. ground (arith, h.let_in j lt');
  in_order = λ j lt'. (ground (arith, h.in_order j lt'), ground (arith, h.in_order j lt'));
  in_reach = h.in_reach;
  in_time = h.in_time;
}
GroupStep-IsSound workers {s} (stop i lt) h = record {
  collected = h.collected;
  answered = h.answered;
  had = h.had;
  let_in = h.let_in;
  in_order = h.in_order;
  in_reach = h.in_reach;
  in_time = h.in_time;
}
GroupStep-IsSound workers {s} (collect k e early lt ready) h = record {
  collected = λ j lt'. ground (arith, at_turn h e j lt');
  answered = λ j lt'. (at_turn h e j lt').1;
  had = λ j lt'. ground (arith, h.had j lt');
  let_in = h.let_in;
  in_order = h.in_order;
  in_reach = omega arith;
  in_time = omega arith;
}
GroupStep-IsSound workers {s} (answer_all e early) h = record {
  collected = λ j lt'. ground (arith, at_turn h e j lt');
  answered = λ j lt'. ground (arith, at_turn h e j lt');
  had = h.had;
  let_in = h.let_in;
  in_order = h.in_order;
  in_reach = omega arith;
  in_time = early;
}
GroupStep-IsSound workers {s} (answer k e lt) h = record {
  collected = λ j lt'. (at_turn h e j lt').0;
  answered = λ j lt'. ground (arith, at_turn h e j lt');
  had = h.had;
  let_in = λ j lt'. ground (arith, h.let_in j lt');
  in_order = h.in_order;
  in_reach = omega arith;
  in_time = subst (InTime s.phase) e h.in_time;
}
GroupStep-IsSound workers {s} (next_phase e) h = record {
  collected = λ j lt'. ground (arith, at_turn h e j lt');
  answered = λ j lt'. ground (arith, at_turn h e j lt');
  had = h.had;
  let_in = h.let_in;
  in_order = h.in_order;
  in_reach = omega arith;
  in_time = subst (InTime s.phase) e h.in_time;
}

pub GroupSteps-IsSound : (workers : ℕ) {s : Group} → GroupSteps workers s → IsSound workers s
GroupSteps-IsSound workers begin = start-IsSound workers
GroupSteps-IsSound workers (then_step run move) =
    GroupStep-IsSound workers move (GroupSteps-IsSound workers run)

-- In every reached state, however the workers and the coordinator interleave and whichever workers
-- fail, a worker that has passed some number of barriers finds that every worker has arrived at as many.
pub steps-together :
    (workers : ℕ) {s : Group}
    → GroupSteps workers s
    → (i j : ℕ) → i < workers
    → j < workers
    → s.passed i ≤ s.sent j
steps-together workers {s} run i j at_i at_j =
    let h = GroupSteps-IsSound workers run in
    let ahead : answered_now s.turn i ≤ collected_now workers s.turn j =
      now workers s.turn i j h.in_reach at_i at_j in
    omega (arith, h.let_in i at_i, h.answered i at_i, h.collected j at_j, h.had j at_j, ahead)

-- A worker that is at work and not in a barrier.
abbrev pub IsAtWork : Group → ℕ → Type 0
IsAtWork s i = s.sent i ≡ s.passed i

-- In every reached state, two workers that are both at work have passed equally many barriers.
pub steps-lockstep :
    (workers : ℕ) {s : Group}
    → GroupSteps workers s
    → (i j : ℕ) → i < workers
    → j < workers
    → IsAtWork s i
    → IsAtWork s j
    → s.passed i ≡ s.passed j
steps-lockstep workers {s} run i j at_i at_j works_i works_j =
    let a = steps-together workers run i j at_i at_j in
    let b = steps-together workers run j i at_j at_i in omega arith

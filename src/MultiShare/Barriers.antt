-- ===== src/MultiShare/Barriers.antt =====
-- The barriers of multi_share: each worker sends a word and waits for one, and the coordinator first
-- collects a word from every worker and then answers every worker, in each of its phases. The words of
-- a socket arrive in order and all are 0, so that their numbers say what is under way.
pub mod Invariant
pub mod Progress
pub mod Meeting
use ascend_hal_sharing_probe.Prelude.{
  ℕ, zero, suc, ◌+◌, ◌*◌, ◌<◌, ◌≡◌, Bool, true, false, List, [], ◌∷◌, ◌++◌, ◌==◌, if◌then◌else◌,
}

-- `read_rounds`
abbrev pub read_rounds : ℕ
read_rounds = 2

-- The coordinator's phases.
abbrev pub barriers : ℕ
barriers = 2 * read_rounds + 4

-- Where the coordinator is in its phase.
pub data Turn : Type 0 where
  collecting answering : ℕ → Turn

-- For each worker: the words that it has sent, that the coordinator has collected and has answered, and
-- the barriers that the worker has passed; and whether it has left after a failure.
pub record Group : Type 0 where
  pub phase : ℕ
  pub turn : Turn
  pub sent : ℕ → ℕ
  pub collected : ℕ → ℕ
  pub answered : ℕ → ℕ
  pub passed : ℕ → ℕ
  pub stopped : ℕ → Bool

abbrev pub start : Group
start = record {
  phase = 0;
  turn = collecting 0;
  sent = λ i. 0;
  collected = λ i. 0;
  answered = λ i. 0;
  passed = λ i. 0;
  stopped = λ i. false;
}

-- One more at one place.
abbrev pub bump : ℕ → (ℕ → ℕ) → ℕ → ℕ
bump i f j = if j == i then suc (f j) else f j

abbrev pub mark : ℕ → (ℕ → Bool) → ℕ → Bool
mark i f j = if j == i then true else f j

-- The steps of a group of so many workers. A worker that fails leaves, and no step is its own any more;
-- the coordinator then waits for its word in vain, until it gives up.
pub data GroupStep (workers : ℕ) (s : Group) : Group → Type 0 where
  arrive :
      (i : ℕ)
      → i < workers
      → s.stopped i ≡ false
      → s.sent i ≡ s.passed i
      → s.passed i < barriers
      → GroupStep workers s (record s { sent = bump i s.sent })
  pass :
      (i : ℕ)
      → i < workers
      → s.stopped i ≡ false
      → s.passed i < s.sent i
      → s.passed i < s.answered i
      → GroupStep workers s (record s { passed = bump i s.passed })
  stop : (i : ℕ) → i < workers → GroupStep workers s (record s { stopped = mark i s.stopped })
  collect :
      (k : ℕ)
      → s.turn ≡ collecting k
      → s.phase < barriers
      → k < workers
      → s.collected k < s.sent k
      → GroupStep workers s (record s { collected = bump k s.collected; turn = collecting (suc k) })
  answer_all :
      s.turn ≡ collecting workers
      → s.phase < barriers
      → GroupStep workers s (record s { turn = answering 0 })
  answer :
      (k : ℕ)
      → s.turn ≡ answering k
      → k < workers
      → GroupStep workers s (record s { answered = bump k s.answered; turn = answering (suc k) })
  next_phase :
      s.turn ≡ answering workers
      → GroupStep workers s (record s { phase = suc s.phase; turn = collecting 0 })

pub data GroupSteps (workers : ℕ) : Group → Type 0 where
  begin : GroupSteps workers start
  then_step : {s t : Group} → GroupSteps workers s → GroupStep workers s t → GroupSteps workers t

-- ===== src/Aio/Phase/Bounds.antt =====
-- How many requests are with the kernel.
use ascend_hal_sharing_probe.Prelude.{
  ℕ, zero, suc, ◌+◌, ◌*◌, ◌≤◌, ◌<◌, ◌≡◌, refl, ap, ◌∙◌, sym, true, false, not, ◌||◌, inl, inr,
  Option, none, some, List, [], ◌∷◌, length, get_elem?, length-set, arith, Bool-cases, size_mod,
}
use ascend_hal_sharing_probe.DataStrategy.Stages.{get_elem?-set_ne}
use ascend_hal_sharing_probe.Aio.{Sizes}
use ascend_hal_sharing_probe.Aio.Phase.{
  Request, requests_from, PhaseState, Completion, start, take_event, PhaseStep, check, accept,
  again, count, event, broken, PhaseSteps, still, next,
}
use ascend_hal_sharing_probe.Aio.Phase.Counts.{
  done_count, IsCounted, steps-IsCounted, length-requests_from,
}

-- No request from `n` on is done.
abbrev pub NoneFrom : ℕ → List Request → Type 0
NoneFrom n rs = (i : ℕ) (r : Request) → n ≤ i → get_elem? rs i ≡ some r → r.done ≡ false

done_count-NoneFrom : (rs : List Request) (n : ℕ) → NoneFrom n rs → done_count rs ≤ n
unfolding done_count
done_count-NoneFrom [] n h = omega arith
done_count-NoneFrom (x ∷ rs) zero h = ground (
  arith,
  h 0 x (omega arith) refl,
  done_count-NoneFrom rs zero (λ i r le e. h (suc i) r (omega arith) e),
)
done_count-NoneFrom (x ∷ rs) (suc n) h =
    ground (arith, done_count-NoneFrom rs n (λ i r le e. h (suc i) r (omega arith) e))

requests_from-NoneFrom : (o : Sizes) (left i : ℕ) → NoneFrom 0 (requests_from o left i)
unfolding requests_from
requests_from-NoneFrom o zero i j r le e = ground arith
requests_from-NoneFrom o (suc left) i zero r le e =
    ap (λ (q : Option Request). elim q [ none ↦ false | some p ↦ p.done ]) (sym e)
requests_from-NoneFrom o (suc left) i (suc j) r le e =
    requests_from-NoneFrom o left (suc i) j r (omega arith) e

pub record IsBounded (depth : ℕ) (s : PhaseState) : Type 0 where
  pub lower : s.submitted ≤ s.accepted
  pub upper : s.accepted ≤ suc s.submitted
  pub inside : s.accepted ≤ length s.requests
  pub late : NoneFrom s.accepted s.requests
  pub room : s.accepted ≤ s.completed + depth
  pub checked :
      s.ready ≡ true
      → (s.accepted ≡ s.submitted)
        × (s.submitted < length s.requests)
        × (s.submitted < s.completed + depth)

module _ (o : Sizes) (depth : ℕ) (delivers : PhaseState → Completion → Type 0)
    (law : (s : PhaseState) (ev : Completion) → delivers s ev → ev.id < s.accepted)
    (fits : o.blocks * o.shards < size_mod) where
  take_event-IsBounded :
      (ev : Completion) (s : PhaseState) (found : Option Request)
      → ev.id < s.accepted
      → IsBounded depth s
      → IsBounded depth (take_event o.slot_bytes ev found s)
  take_event-IsBounded ev s none mine b = record {
    lower = b.lower;
    upper = b.upper;
    inside = b.inside;
    late = b.late;
    room = b.room;
    checked = b.checked;
  }
  take_event-IsBounded ev s (some r) mine b = elim (Bool-cases (r.done || not ev.is_own)) [
    | inl bad ↦ rw bad (record {
      lower = b.lower;
      upper = b.upper;
      inside = b.inside;
      late = b.late;
      room = b.room;
      checked = b.checked;
    })
    | inr good ↦ rw good (record {
      lower = b.lower;
      upper = b.upper;
      inside = omega (arith, b.inside, length-set s.requests ev.id (record r { done = true }));
      late = λ i q le e.
          b.late i q le (
            sym (get_elem?-set_ne s.requests ev.id i (record r { done = true }) (omega arith)) ∙ e);
      room = omega (arith, b.room);
      checked = λ ready.
          let (level, more, room) = b.checked ready in
          (
            level,
            omega (arith, more, length-set s.requests ev.id (record r { done = true })),
            omega arith,
          );
    })
  ]

  step-IsBounded :
      (s t : PhaseState)
      → PhaseStep o depth delivers s t
      → IsCounted o s
      → IsBounded depth s
      → IsBounded depth t
  unfolding start
  step-IsBounded s _ (check _ fine level more room) counted b =
      let below : s.completed ≤ s.accepted =
        omega (arith, counted.completed, done_count-NoneFrom s.requests s.accepted b.late) in
      let small : s.submitted < size_mod =
        omega (arith, counted.size, length-requests_from o (o.blocks * o.shards) 0) in
      record {
        lower = b.lower;
        upper = b.upper;
        inside = b.inside;
        late = b.late;
        room = b.room;
        checked = λ ready. (level, more, omega arith);
      }
  step-IsBounded s _ (accept _ ready) counted b =
      let (level, more, room) = b.checked ready in
      record {
        lower = omega arith;
        upper = omega arith;
        inside = omega arith;
        late = λ i r le e. b.late i r (omega arith) e;
        room = omega arith;
        checked = λ unset. absurd (ground arith);
      }
  step-IsBounded s _ (again _ ready) counted b = record {
    lower = b.lower;
    upper = b.upper;
    inside = b.inside;
    late = b.late;
    room = b.room;
    checked = λ unset. absurd (ground arith);
  }
  step-IsBounded s _ (count _ ahead) counted b = record {
    lower = omega arith;
    upper = omega arith;
    inside = b.inside;
    late = b.late;
    room = b.room;
    checked = λ ready. let (level, more, room) = b.checked ready in absurd (omega arith);
  }
  step-IsBounded s _ (broken _ listening) counted b = record {
    lower = b.lower;
    upper = b.upper;
    inside = b.inside;
    late = b.late;
    room = b.room;
    checked = b.checked;
  }
  step-IsBounded s _ (event _ ev listening delivered) counted b =
      take_event-IsBounded ev s (get_elem? s.requests ev.id) (law s ev delivered) b

  steps-IsBounded : (t : PhaseState) → PhaseSteps o depth delivers (start o) t → IsBounded depth t
  unfolding start
  steps-IsBounded _ still = record {
    lower = omega arith;
    upper = omega arith;
    inside = omega arith;
    late = requests_from-NoneFrom o (o.blocks * o.shards) 0;
    room = omega arith;
    checked = λ unset. absurd (ground arith);
  }
  steps-IsBounded _ (next t u before step) =
      step-IsBounded t u step (steps-IsCounted o depth delivers t before) (steps-IsBounded t before)

  -- If the kernel completes only what it has accepted and the number of requests fits `size_t`, then
  -- in every state, however the threads interleave, at most `depth` requests are with the kernel, no
  -- more are completed than were accepted, and no more accepted than there are.
  pub steps-bounds :
      (t : PhaseState)
      → PhaseSteps o depth delivers (start o) t
      → (t.accepted ≤ t.completed + depth)
        × (t.completed ≤ t.accepted)
        × (t.accepted ≤ o.blocks * o.shards)
  unfolding start
  steps-bounds t steps =
      let b = steps-IsBounded t steps in
      let counted = steps-IsCounted o depth delivers t steps in
      (
        b.room,
        omega (arith, counted.completed, done_count-NoneFrom t.requests t.accepted b.late),
        omega (arith, b.inside, counted.size, length-requests_from o (o.blocks * o.shards) 0),
      )

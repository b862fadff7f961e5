-- ===== src/Aio/Phase/Counts.antt =====
-- The completed count is the number of requests that are done.
use ascend_hal_sharing_probe.Prelude.{
  ℕ, zero, suc, ◌+◌, ◌*◌, ◌≤◌, ◌≡◌, refl, ap, ◌∙◌, true, false, not, ◌||◌, ◌&&◌, ◌⊎◌, inl, inr,
  Option, none, some, List, [], ◌∷◌, length, get_elem?, set, length-set, arith, Bool-cases, sym,
}
use ascend_hal_sharing_probe.Effects.Ledger.{one_if}
use ascend_hal_sharing_probe.Aio.{Sizes}
use ascend_hal_sharing_probe.Aio.Phase.{
  Request, requests_from, PhaseState, Completion, start, take_event, handle, PhaseStep, check,
  accept, again, count, event, broken, PhaseSteps, still, next, has_passed, is_full,
}

unfoldable pub done_count : List Request → ℕ
done_count [] = 0
done_count (r ∷ rs) = one_if r.done + done_count rs

pub done_count-le : (rs : List Request) → done_count rs ≤ length rs
unfolding done_count
done_count-le [] = omega arith
done_count-le (r ∷ rs) = ground (arith, done_count-le rs)

pub done_count-set :
    (rs : List Request) (i : ℕ) (r : Request)
    → get_elem? rs i ≡ some r
    → r.done ≡ false
    → done_count (set rs i (record r { done = true })) ≡ suc (done_count rs)
unfolding done_count
done_count-set [] i r e h = ground arith
done_count-set (x ∷ rs) zero r e h =
    let same : x.done ≡ r.done =
      ap (λ (o : Option Request). elim o [ none ↦ r.done | some q ↦ q.done ]) e in
    ground (arith, same)
done_count-set (x ∷ rs) (suc i) r e h = omega (arith, done_count-set rs i r e h)

done_count-start : (o : Sizes) (left i : ℕ) → done_count (requests_from o left i) ≡ 0
unfolding done_count requests_from
done_count-start o zero i = refl
done_count-start o (suc left) i = omega (arith, done_count-start o left (suc i))

-- As many requests as were counted are done, and no more are there than at the start.
pub record IsCounted (o : Sizes) (s : PhaseState) : Type 0 where
  pub completed : s.completed ≡ done_count s.requests
  pub size : length s.requests ≡ length (start o).requests

pub take_event-IsCounted :
    (o : Sizes) (ev : Completion) (s : PhaseState) (found : Option Request)
    → get_elem? s.requests ev.id ≡ found
    → IsCounted o s
    → IsCounted o (take_event o.slot_bytes ev found s)
take_event-IsCounted o ev s none e counted = record {
  completed = counted.completed;
  size = counted.size;
}
take_event-IsCounted o ev s (some r) e counted = elim (Bool-cases (r.done || not ev.is_own)) [
  | inl bad ↦ rw bad (record { completed = counted.completed; size = counted.size })
  | inr good ↦ rw good (record {
    completed = ap suc counted.completed ∙ sym (done_count-set s.requests ev.id r e (ground arith));
    size = length-set s.requests ev.id (record r { done = true }) ∙ counted.size;
  })
]

module _ (o : Sizes) (depth : ℕ) (delivers : PhaseState → Completion → Type 0) where
  pub step-IsCounted :
      (s t : PhaseState) → PhaseStep o depth delivers s t → IsCounted o s → IsCounted o t
  step-IsCounted s _ (check _ fine level more room) counted = record {
    completed = counted.completed;
    size = counted.size;
  }
  step-IsCounted s _ (accept _ ready) counted = record {
    completed = counted.completed;
    size = counted.size;
  }
  step-IsCounted s _ (again _ ready) counted = record {
    completed = counted.completed;
    size = counted.size;
  }
  step-IsCounted s _ (count _ ahead) counted = record {
    completed = counted.completed;
    size = counted.size;
  }
  step-IsCounted s _ (broken _ listening) counted = record {
    completed = counted.completed;
    size = counted.size;
  }
  step-IsCounted s _ (event _ ev listening delivered) counted =
      take_event-IsCounted o ev s (get_elem? s.requests ev.id) refl counted

  pub steps-IsCounted : (t : PhaseState) → PhaseSteps o depth delivers (start o) t → IsCounted o t
  unfolding start
  steps-IsCounted _ still = record {
    completed = sym (done_count-start o (o.blocks * o.shards) 0);
    size = refl;
  }
  steps-IsCounted _ (next t u before step) = step-IsCounted t u step (steps-IsCounted t before)

all_done :
    (rs : List Request)
    → length rs ≤ done_count rs
    → (i : ℕ) (r : Request) → get_elem? rs i ≡ some r
    → r.done ≡ true
unfolding done_count
all_done [] h i r e = ground arith
all_done (x ∷ rs) h zero r e =
    let here : x.done ≡ true = ground (arith, done_count-le rs) in
    let same : x.done ≡ r.done =
      ap (λ (o : Option Request). elim o [ none ↦ r.done | some q ↦ q.done ]) e in
    sym same ∙ here
all_done (x ∷ rs) h (suc i) r e = all_done rs (ground (arith, done_count-le rs)) i r e

pub length-requests_from : (o : Sizes) (left i : ℕ) → length (requests_from o left i) ≡ left
unfolding requests_from
length-requests_from o zero i = refl
length-requests_from o (suc left) i = ap suc (length-requests_from o left (suc i))

-- A phase that passes, whatever the kernel delivers and however the threads interleave, has counted
-- exactly one completion for each of its `blocks * shards` requests, and every request is done.
pub passed_lem :
    (o : Sizes) (depth : ℕ) (delivers : PhaseState → Completion → Type 0) (t : PhaseState)
    → PhaseSteps o depth delivers (start o) t
    → has_passed t ≡ true
    → (t.completed ≡ o.blocks * o.shards)
      × ((i : ℕ) (r : Request) → get_elem? t.requests i ≡ some r → r.done ≡ true)
unfolding start
passed_lem o depth delivers t steps passed =
    let counted = steps-IsCounted o depth delivers t steps in
    let enough : length t.requests ≤ t.completed = ground arith in
    (
      omega (
        arith,
        counted.completed,
        counted.size,
        done_count-le t.requests,
        length-requests_from o (o.blocks * o.shards) 0,
      ),
      all_done t.requests (omega (arith, counted.completed)),
    )

module _ (o : Sizes) (depth : ℕ) (delivers : PhaseState → Completion → Type 0) where
  step-failed :
      (s t : PhaseState) → PhaseStep o depth delivers s t → s.failed ≡ true → t.failed ≡ true
  step-failed s _ (check _ fine level more room) h = h
  step-failed s _ (accept _ ready) h = h
  step-failed s _ (again _ ready) h = h
  step-failed s _ (count _ ahead) h = h
  step-failed s _ (broken _ listening) h = refl
  step-failed s _ (event _ ev listening delivered) h = taken (get_elem? s.requests ev.id)
    where
      taken : (found : Option Request) → (take_event o.slot_bytes ev found s).failed ≡ true
      taken none = refl
      taken (some r) = elim (Bool-cases (r.done || not ev.is_own)) [
        | inl bad ↦ rw bad refl
        | inr good ↦ rw (good, h) refl
      ]

  steps-failed :
      (s t : PhaseState) → PhaseSteps o depth delivers s t → s.failed ≡ true → t.failed ≡ true
  steps-failed s _ still h = h
  steps-failed s _ (next t u before step) h = step-failed t u step (steps-failed s t before h)

  -- After a completion with a short or failed result, for an unknown or finished request, or with a
  -- foreign control block, the phase cannot pass any more.
  pub bad_event-has_passed :
      (s t : PhaseState) (ev : Completion)
      → (is_full o.slot_bytes ev && ev.is_own ≡ false)
        ⊎ ((r : Request) → get_elem? s.requests ev.id ≡ some r → r.done ≡ true)
      → PhaseSteps o depth delivers (handle o.slot_bytes ev s) t
      → has_passed t ≡ false
  bad_event-has_passed s t ev bad steps =
      let stopped =
        steps-failed (handle o.slot_bytes ev s) t steps (taken (get_elem? s.requests ev.id) refl) in
      ground (arith, stopped)
    where
      taken :
          (found : Option Request)
          → get_elem? s.requests ev.id ≡ found
          → (take_event o.slot_bytes ev found s).failed ≡ true
      taken none e = refl
      taken (some r) e = elim (Bool-cases (r.done || not ev.is_own)) [
        | inl refused ↦ rw refused refl
        | inr taken_on ↦ elim bad [
          | inl short ↦ rw taken_on (ground arith)
          | inr finished ↦ absurd (ground (arith, finished r e))
        ]
      ]

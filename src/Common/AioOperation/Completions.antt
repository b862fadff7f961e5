-- ===== src/Common/AioOperation/Completions.antt =====
-- The events of an operation that is accepted.
use ascend_hal_sharing_probe.Prelude.{
  ℕ, zero, suc, ◌+◌, ◌≤◌, ◌<◌, ◌≡◌, ◌↔◌, refl, true, false, List, [], ◌∷◌, ◌==◌, is_zero,
  if◌then◌else◌, arith, length,
}
use ascend_hal_sharing_probe.Common.AioOperation.{
  IoEvent, is_count, digit, marked, is_bad, has_failed, requests,
}

-- The events of one request.
unfoldable pub events_of : ℕ → List IoEvent → ℕ
events_of i [] = 0
events_of i (e ∷ es) = (if e.index == i then 1 else 0) + events_of i es

-- A full transfer of a request.
abbrev pub IsFull : ℕ → IoEvent → Type 0
IsFull chunk e = (e.index < requests) × (is_count chunk e.res ≡ true) × (is_zero e.res2 ≡ true)

abbrev pub AllFull : ℕ → List IoEvent → Type 0
AllFull chunk [] = Unit {0}
AllFull chunk (e ∷ es) = IsFull chunk e × AllFull chunk es

-- A mark sets its own digit and leaves the others.
digit-marked :
    (seen d i : ℕ)
    → d < requests
    → i < requests
    → digit seen d ≡ 0
    → digit (marked seen d) i ≡ digit seen i + (if d == i then 1 else 0)
digit-marked seen zero zero hd hi clear = ground arith
digit-marked seen zero (suc zero) hd hi clear = ground arith
digit-marked seen zero (suc (suc zero)) hd hi clear = ground arith
digit-marked seen zero (suc (suc (suc zero))) hd hi clear = ground arith
digit-marked seen zero (suc (suc (suc (suc i)))) hd hi clear = absurd (omega arith)
digit-marked seen (suc zero) zero hd hi clear = ground arith
digit-marked seen (suc zero) (suc zero) hd hi clear = ground arith
digit-marked seen (suc zero) (suc (suc zero)) hd hi clear = ground arith
digit-marked seen (suc zero) (suc (suc (suc zero))) hd hi clear = ground arith
digit-marked seen (suc zero) (suc (suc (suc (suc i)))) hd hi clear = absurd (omega arith)
digit-marked seen (suc (suc zero)) zero hd hi clear = ground arith
digit-marked seen (suc (suc zero)) (suc zero) hd hi clear = ground arith
digit-marked seen (suc (suc zero)) (suc (suc zero)) hd hi clear = ground arith
digit-marked seen (suc (suc zero)) (suc (suc (suc zero))) hd hi clear = ground arith
digit-marked seen (suc (suc zero)) (suc (suc (suc (suc i)))) hd hi clear = absurd (omega arith)
digit-marked seen (suc (suc (suc zero))) zero hd hi clear = ground arith
digit-marked seen (suc (suc (suc zero))) (suc zero) hd hi clear = ground arith
digit-marked seen (suc (suc (suc zero))) (suc (suc zero)) hd hi clear = ground arith
digit-marked seen (suc (suc (suc zero))) (suc (suc (suc zero))) hd hi clear = ground arith
digit-marked seen (suc (suc (suc zero))) (suc (suc (suc (suc i)))) hd hi clear =
    absurd (omega arith)
digit-marked seen (suc (suc (suc (suc d)))) i hd hi clear = absurd (omega arith)

digit_two : (seen i : ℕ) → digit seen i < 2
digit_two seen i = omega arith

digit_none : (i : ℕ) → i < requests → digit 0 i ≡ 0
digit_none zero lt = ground arith
digit_none (suc zero) lt = ground arith
digit_none (suc (suc zero)) lt = ground arith
digit_none (suc (suc (suc zero))) lt = ground arith
digit_none (suc (suc (suc (suc i)))) lt = absurd (omega arith)

-- No request has a second event, nor one when it is marked.
abbrev IsSingle : ℕ → List IoEvent → Type 0
IsSingle seen es = (i : ℕ) → i < requests → digit seen i + events_of i es ≤ 1

accepted_sound :
    (chunk seen : ℕ) (es : List IoEvent)
    → has_failed chunk seen es ≡ false
    → AllFull chunk es × IsSingle seen es
unfolding has_failed events_of
accepted_sound chunk seen [] h = (tt, λ i lt. omega (arith, digit_two seen i))
accepted_sound chunk seen (e ∷ es) h =
    let good : is_bad chunk seen e ≡ false = ground arith in
    let in_range : e.index < requests = ground arith in
    let clear : digit seen e.index ≡ 0 = ground (arith, digit_two seen e.index) in
    let (full, single) = accepted_sound chunk (marked seen e.index) es (ground arith) in
    (
      ((in_range, ground arith, ground arith), full),
      λ i lt. omega (arith, single i lt, digit-marked seen e.index i in_range lt clear),
    )

sound_accepted :
    (chunk seen : ℕ) (es : List IoEvent)
    → AllFull chunk es
    → IsSingle seen es
    → has_failed chunk seen es ≡ false
unfolding has_failed events_of
sound_accepted chunk seen [] full single = refl
sound_accepted chunk seen (e ∷ es) ((in_range, res, res2), full) single =
    let clear : digit seen e.index ≡ 0 = ground (arith, single e.index in_range) in
    let good : is_bad chunk seen e ≡ false = ground arith in
    let rest : has_failed chunk (marked seen e.index) es ≡ false =
      sound_accepted chunk (marked seen e.index) es full
        λ i lt. omega (arith, single i lt, digit-marked seen e.index i in_range lt clear) in
    ground (arith, good, rest)

events_total :
    (chunk : ℕ) (es : List IoEvent)
    → AllFull chunk es
    → events_of 0 es + events_of 1 es + events_of 2 es + events_of 3 es ≡ length es
unfolding events_of
events_total chunk [] full = refl
events_total chunk (e ∷ es) ((in_range, res, res2), full) =
    ground (arith, events_total chunk es full)

-- Four events are accepted exactly when each of the four requests has one of them, and each of them is
-- a full transfer of a request without a second error.
pub has_failed_iff :
    (chunk : ℕ) (es : List IoEvent)
    → length es ≡ requests
    → (has_failed chunk 0 es ≡ false)
      ↔ (AllFull chunk es × ((i : ℕ) → i < requests → events_of i es ≡ 1))
has_failed_iff chunk es four = (
  (λ h.
      let (full, single) = accepted_sound chunk 0 es h in
      (
        full,
        λ i lt.
            exactly_one i lt (single 0 (omega arith)) (single 1 (omega arith))
              (single 2 (omega arith)) (single 3 (omega arith)) (events_total chunk es full),
      )),
  (λ (full, each).
      sound_accepted chunk 0 es full λ i lt. omega (arith, each i lt, digit_none i lt)),
)
  where
    exactly_one :
        (i : ℕ)
        → i < requests
        → digit 0 0 + events_of 0 es ≤ 1
        → digit 0 1 + events_of 1 es ≤ 1
        → digit 0 2 + events_of 2 es ≤ 1
        → digit 0 3 + events_of 3 es ≤ 1
        → events_of 0 es + events_of 1 es + events_of 2 es + events_of 3 es ≡ length es
        → events_of i es ≡ 1
    exactly_one zero lt a b c d total = omega (arith, four)
    exactly_one (suc zero) lt a b c d total = omega (arith, four)
    exactly_one (suc (suc zero)) lt a b c d total = omega (arith, four)
    exactly_one (suc (suc (suc zero))) lt a b c d total = omega (arith, four)
    exactly_one (suc (suc (suc (suc i)))) lt a b c d total = absurd (omega arith)

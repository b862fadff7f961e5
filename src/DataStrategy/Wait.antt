-- ===== src/DataStrategy/Wait.antt =====
-- The wait of `CrossRankSetup` for a peer's descriptor, against a clock.
use ascend_hal_sharing_probe.Prelude.{
  ℕ, zero, suc, ◌+◌, ◌*◌, ◌≤◌, ◌<◌, inl, inr, ◌∷◌, arith, leb, Bool-cases, Option-cases,
}
use Prim.Native.Nat.{min}
use ascend_hal_sharing_probe.Status.{Expected, value, error}
use ascend_hal_sharing_probe.Effects.{
  Driver, Reply, Trace, Outcome, ok, threw, fault, World, clock_now, sleep_until,
}
use ascend_hal_sharing_probe.CtrlLayout.{CtrlLayout, get_rank_desc, read_desc, rank_out_of_range}
use ascend_hal_sharing_probe.DataStrategy.{DataStrategy}
use ascend_hal_sharing_probe.DataStrategy.Setup.{poll}

-- What a steady clock promises: a sleep is not short, and time does not run back.
pub record IsSteady (d : Driver) : Type 0 where
  pub slept :
      (t : Trace) (until : ℕ) (r : Reply) → until ≤ (d ((sleep_until until, r) ∷ t) clock_now).out
  pub onward : (t : Trace) (r : Reply) → r.out ≤ (d ((clock_now, r) ∷ t) clock_now).out

-- The part returned or threw.
abbrev pub Ends : {A : Type 0} → Outcome A × World DataStrategy → Type 0
Ends (ok a, w) = Unit {0}
Ends (threw e, w) = Unit {0}
Ends (fault f, w) = ⊥

-- With a steady clock that shows at least `from`, rounds of ten milliseconds that reach beyond the
-- deadline are enough: the wait ends, with or without a descriptor.
pub poll-Ends :
    (d : Driver)
    → IsSteady d
    → (ctrl : CtrlLayout) (rank deadline rounds from : ℕ) (p : Expected ℕ) (w : World DataStrategy)
    → from ≤ (d w.trace clock_now).out
    → deadline < from + 10 * rounds
    → 0 < rounds
    → Ends (poll d ctrl rank deadline rounds p w)
unfolding poll get_rank_desc
poll-Ends d steady ctrl rank deadline rounds from (value handle) w after enough some_rounds = tt
poll-Ends d steady ctrl rank deadline zero from (error e) w after enough some_rounds =
    elim some_rounds [ ]
poll-Ends d steady ctrl rank deadline (suc rounds) from (error e) w after enough some_rounds =
    let now = d w.trace clock_now in
    let w1 = record w { trace = (clock_now, now) ∷ w.trace } in
    let until = min deadline (now.out + 10) in
    let w2 = record w1 { trace = (sleep_until until, d w1.trace (sleep_until until)) ∷ w1.trace } in
    let later = d w2.trace clock_now in
    let w3 = record w2 { trace = (clock_now, later) ∷ w2.trace } in
    let slept : until ≤ later.out = steady.slept w1.trace until (d w1.trace (sleep_until until)) in
    elim (Bool-cases (leb deadline now.out)) [
      | inl over ↦ rw over tt
      | inr early ↦ elim (Bool-cases (leb deadline later.out)) [
        | inl over ↦ rw (early, over) tt
        | inr again ↦
            let reached : from + 10 ≤ later.out = ground arith in
            let left : 0 < rounds = ground arith in
            let next : later.out ≤ (d w3.trace clock_now).out = steady.onward w2.trace later in
            elim (Bool-cases (leb ctrl.rank_count rank)) [
              | inl out ↦
                  rw (early, again, out)
                    (poll-Ends d steady ctrl rank deadline rounds later.out
                      (error rank_out_of_range) w3 next (omega arith) left)
              | inr inside ↦ elim (Option-cases (read_desc rank w.input)) [
                | inl ended ↦ rw (early, again, inside, ended) tt
                | inr (found, g) ↦
                    rw (early, again, inside, g)
                      (poll-Ends d steady ctrl rank deadline rounds later.out (value found.0)
                        (record w3 { input = found.1 }) next (omega arith) left)
              ]
            ]
      ]
    ]

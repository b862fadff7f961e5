-- ===== src/DataStrategy/Lifecycle.antt =====
-- `DataStrategy::Setup` and the destructor, over the whole life of an object.
use ascend_hal_sharing_probe.Prelude.{
  ℕ, ◌/◌, ◌<◌, ◌≡◌, ◌≢◌, refl, ◌∙◌, subst, ℤ, true, false, inl, inr, [], arith, ◌==◌, Bool-cases,
}
use ascend_hal_sharing_probe.Status.{Status, success}
use ascend_hal_sharing_probe.Effects.{
  Driver, Outcome, ok, threw, fault, bad_alloc, runtime_error, World, follow,
}
use ascend_hal_sharing_probe.CtrlLayout.{CtrlLayout}
use ascend_hal_sharing_probe.DataStrategy.{DataStrategy, reset}
use ascend_hal_sharing_probe.DataStrategy.Setup.{
  setup_body, caught, conclude, setup, already_set_up,
}
use ascend_hal_sharing_probe.DataStrategy.Accounts.{Accounted, IsSettled, Accounted-of_settled}
use ascend_hal_sharing_probe.DataStrategy.Stages.{Staged, Post}
use ascend_hal_sharing_probe.DataStrategy.Body.{
  Excuse, reset-Kept, setup_body-Post, rank_total, AllStaged,
}

-- An object that holds nothing and owes nothing.
pub record IsClear (w : World DataStrategy) : Type 0 where
  pub empty : w.self.mappings ≡ []
  pub unset : w.self.n_slots_per_rank ≡ 0
  pub settled : IsSettled w.trace

-- An object that is set up over `n` ranks.
pub record IsReady (rank n size count : ℕ) (npu : ℤ) (w : World DataStrategy) : Type 0 where
  pub owner : w.self.owner ≡ rank
  pub device : w.self.device_id ≡ npu
  pub slot_size : w.self.slot_size ≡ size
  pub n_slots : w.self.n_slots_per_rank ≡ count
  pub staged : Staged n rank n w.self.mappings
  pub books : Accounted w

module _ (d : Driver) (ctrl : CtrlLayout) (slot_size n_slots : ℕ) where
  -- How a setup ends: with an object that is ready, or with one that holds and owes nothing.
  abbrev pub SetupEnd : ℕ → ℤ → Outcome Status × World DataStrategy → Type 0
  SetupEnd rank device (ok status, w) =
      (success status ≡ true → IsReady rank (rank_total ctrl n_slots) slot_size n_slots device w)
      × (success status ≡ false → IsClear w)
  SetupEnd rank device (threw e, w) = ⊥
  SetupEnd rank device (fault f, w) = Excuse ctrl (rank_total ctrl n_slots) f w

  -- From the end of the `try` statement on.
  conclude-End :
      (rank : ℕ) (device : ℤ) (v : World DataStrategy) (r : Outcome Status × World DataStrategy)
      → v.self.owner ≡ rank
      → v.self.device_id ≡ device
      → v.self.n_slots_per_rank ≡ 0
      → Post (Excuse ctrl (rank_total ctrl n_slots)) v (AllStaged (rank_total ctrl n_slots) v) r
      → SetupEnd rank device (follow (conclude d slot_size n_slots) (caught d r))
  unfolding conclude
  conclude-End rank device v (fault f, w) own dev slots x = x
  conclude-End rank device v (ok status, w) own dev slots (kept, done) =
      elim (Bool-cases (success status)) [
        | inl good ↦ rw good (
          λ _. record {
            owner = kept.owner ∙ own;
            device = kept.device ∙ dev;
            slot_size = refl;
            n_slots = refl;
            staged =
                subst
                  (λ k.
                    Staged (rank_total ctrl n_slots) k (rank_total ctrl n_slots) w.self.mappings)
                  own (done good);
            books = kept.books;
          },
          λ bad. absurd (ground arith),
        )
        | inr bad ↦
            let (w', e, kept', empty, settled) = reset-Kept d w kept.books in
            rw (bad, e)
              (
                λ good. absurd (ground arith),
                λ _. record {
                  empty = empty;
                  unset = kept'.slots ∙ kept.slots ∙ slots;
                  settled = settled;
                },
              )
      ]
  conclude-End rank device v (threw bad_alloc, w) own dev slots kept =
      let (w', e, kept', empty, settled) = reset-Kept d w kept.books in
      rw e (
        λ good. absurd (ground arith),
        λ _. record { empty = empty; unset = kept'.slots ∙ kept.slots ∙ slots; settled = settled },
      )
  conclude-End rank device v (threw (runtime_error m), w) own dev slots kept =
      let (w', e, kept', empty, settled) = reset-Kept d w kept.books in
      rw e (
        λ good. absurd (ground arith),
        λ _. record { empty = empty; unset = kept'.slots ∙ kept.slots ∙ slots; settled = settled },
      )

  -- With at least one slot per rank, a setup of a clear object for a rank that the layout's slots count
  -- never throws, whatever the
  -- driver answers. If it succeeds, the object is ready: every rank has a reserved and mapped
  -- range. If it fails, on whatever call, each resource that the driver has given has had the call
  -- that gives it back exactly as often, whether or not the driver took it. The faults are two: the
  -- driver's last answer granted a granularity whose common multiple with the address alignment
  -- `size_t` does not hold, or the slots count a rank that the control layout does not have.
  pub setup-SetupEnd :
      (rounds : ℕ) (device : ℤ) (rank timeout_ms : ℕ) (w : World DataStrategy)
      → n_slots ≢ 0
      → rank < ctrl.slot_count / n_slots
      → IsClear w
      → SetupEnd rank device (setup d rounds ctrl device rank slot_size n_slots timeout_ms w)
  unfolding setup
  setup-SetupEnd rounds device rank timeout_ms w some_slots lt clear =
      let v = record w { self = record w.self { owner = rank; device_id = device } } in
      let first : (w.self.n_slots_per_rank == 0) ≡ true = ground (arith, clear.unset) in
      rw first (
        conclude-End rank device v (setup_body d ctrl device slot_size n_slots timeout_ms rounds v)
          refl refl clear.unset
          (setup_body-Post d ctrl slot_size n_slots device timeout_ms rounds v some_slots
            clear.empty lt (Accounted-of_settled v clear.empty clear.settled)))

-- The destructor leaves an object that was set up holding nothing, and nothing owed.
pub reset-IsReady :
    (d : Driver) (rank n size count : ℕ) (npu : ℤ) (w : World DataStrategy)
    → IsReady rank n size count npu w
    → ((reset d w).0 ≡ ok tt) × ((reset d w).1.self.mappings ≡ []) × IsSettled (reset d w).1.trace
reset-IsReady d rank n size count npu w ready =
    let (w', e, kept, empty, settled) = reset-Kept d w ready.books in rw e (refl, empty, settled)

-- An object that is set up with at least one slot per rank refuses another setup: it issues no call and does not change.
setup_twice :
    (d : Driver) (rounds : ℕ) (ctrl : CtrlLayout) (rank n size count : ℕ) (npu : ℤ) (device : ℤ)
    (rank' slot_size n_slots timeout_ms : ℕ) (w : World DataStrategy)
    → count ≢ 0
    → IsReady rank n size count npu w
    → setup d rounds ctrl device rank' slot_size n_slots timeout_ms w ≡ (ok (already_set_up d), w)
unfolding setup
setup_twice d rounds ctrl rank n size count npu device rank' slot_size n_slots timeout_ms w h
      ready =
    let set_up : (w.self.n_slots_per_rank == 0) ≡ false = ground (arith, ready.n_slots) in
    rw set_up refl

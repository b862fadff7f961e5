-- ===== src/DataStrategy/Body.antt =====
-- What stands in the `try` block of `DataStrategy::Setup`: the local part, with huge pages and then
-- normal ones, and the peers.
use ascend_hal_sharing_probe.Prelude.{
  ℕ, ◌*◌, ◌/◌, ◌%◌, ◌≤◌, ◌<◌, ◌≡◌, ◌≢◌, refl, subst, ℤ, false, inl, inr, [], ◌∷◌, arith, ◌==◌,
  Bool-cases, if◌then◌else◌, is_zero, is_negative, size_mod,
}
use ascend_hal_sharing_probe.Status.{Status, success, failure}
use ascend_hal_sharing_probe.Effects.{
  Driver, Outcome, ok, threw, fault, Fault, out_of_bounds, division_by_zero, lcm_overflow, stalled,
  World, huge, normal, set_device, follow, pure, ◌>>◌,
}
use ascend_hal_sharing_probe.CtrlLayout.{CtrlLayout}
use ascend_hal_sharing_probe.DataStrategy.{DataStrategy, unless_failed, reset}
use ascend_hal_sharing_probe.DataStrategy.Setup.{
  local_setup, local_or_retry, setup_body, cross_rank_setup,
}
use ascend_hal_sharing_probe.DataStrategy.Reset.{reset_lem}
use ascend_hal_sharing_probe.DataStrategy.Accounts.{
  Accounted, IsSettled, Accounted-of_settled, reset-IsSettled,
}
use ascend_hal_sharing_probe.DataStrategy.Stages.{
  Staged, Kept, Post, Post-trans, Post-then, called-Accounted,
}
use ascend_hal_sharing_probe.DataStrategy.Local.{GrantsTooMuch, local_setup-Post}
use ascend_hal_sharing_probe.DataStrategy.Peers.{cross_rank_setup-Post}

-- The faults that a setup can end in: a granularity from the driver whose common multiple with the
-- address alignment `size_t` does not hold, and a rank that the slots count and the control layout does
-- not have.
abbrev pub Excuse : CtrlLayout → ℕ → Fault → World DataStrategy → Type 0
Excuse ctrl n out_of_bounds w = ⊥
Excuse ctrl n division_by_zero w = ⊥
Excuse ctrl n lcm_overflow w = GrantsTooMuch w.trace
Excuse ctrl n stalled w = (rank : ℕ) × (ctrl.rank_count ≤ rank) × (rank < n)

module _ (d : Driver) where
  pub reset-Kept :
      (w : World DataStrategy)
      → Accounted w
      → (w' : World DataStrategy) × (reset d w ≡ (ok tt, w'))
        × Kept w w'
        × (w'.self.mappings ≡ [])
        × IsSettled w'.trace
  reset-Kept w books =
      let (t, e, calls, quiet) = reset_lem d w in
      let w' = record w { self = record w.self { mappings = []; rank_stride = 0 }; trace = t } in
      let settled : IsSettled t =
        subst (λ (r : Outcome (Unit {0}) × World DataStrategy). IsSettled r.1.trace) e
          (reset-IsSettled d w books) in
      (
        w',
        e,
        record {
          owner = refl;
          device = refl;
          slots = refl;
          books = Accounted-of_settled w' refl settled;
        },
        refl,
        settled,
      )

module _ (d : Driver) (ctrl : CtrlLayout) (n : ℕ) where
  abbrev X : Fault → World DataStrategy → Type 0
  X = Excuse ctrl n

  abbrev LocalDone : World DataStrategy → DataStrategy → Type 0
  LocalDone w s = Staged 0 w.self.owner n s.mappings

  overflow : (w : World DataStrategy) → GrantsTooMuch w.trace → X lcm_overflow w
  overflow w asked = asked

  -- A second attempt with normal pages starts from an object that holds nothing.
  retry-Post :
      (data_bytes : ℕ) (w : World DataStrategy)
      → w.self.owner < n
      → Accounted w
      → Post X w (LocalDone w) ((reset d >> local_setup d data_bytes n normal) w)
  retry-Post data_bytes w lt books =
      let (w', e, kept, empty, settled) = reset-Kept d w books in
      rw e (
        Post-trans X w w' (LocalDone w) (local_setup d data_bytes n normal w') kept (
          subst
            (λ k. Post X w' (λ s. Staged 0 k n s.mappings) (local_setup d data_bytes n normal w'))
            kept.owner
            (local_setup-Post X d n normal overflow data_bytes w' empty (rw kept.owner lt)
              kept.books)))

  either-Post :
      (data_bytes : ℕ) (w : World DataStrategy) (r : Outcome Status × World DataStrategy)
      → w.self.owner < n
      → Post X w (LocalDone w) r
      → Post X w (LocalDone w) (
          follow
            (λ status.
              if failure status
              then (reset d >> local_setup d data_bytes n normal)
              else pure status)
            r)
  either-Post data_bytes w (ok status, w') lt (kept, done) = elim (Bool-cases (success status)) [
    | inl good ↦ rw good (kept, λ _. done good)
    | inr bad ↦ rw bad (
        Post-trans X w w' (LocalDone w) ((reset d >> local_setup d data_bytes n normal) w') kept (
          subst
            (λ k.
              Post X w' (λ s. Staged 0 k n s.mappings)
                ((reset d >> local_setup d data_bytes n normal) w'))
            kept.owner (retry-Post data_bytes w' (rw kept.owner lt) kept.books)))
  ]
  either-Post data_bytes w (threw e, w') lt kept = kept
  either-Post data_bytes w (fault f, w') lt x = x

  local_or_retry-Post :
      (data_bytes : ℕ) (w : World DataStrategy)
      → w.self.mappings ≡ []
      → w.self.owner < n
      → Accounted w
      → Post X w (LocalDone w) (local_or_retry d data_bytes n w)
  unfolding local_or_retry
  local_or_retry-Post data_bytes w empty lt books =
      either-Post data_bytes w (local_setup d data_bytes n huge w) lt
        (local_setup-Post X d n huge overflow data_bytes w empty lt books)

  -- The local part and then the peers.
  both-Post :
      (timeout_ms rounds data_bytes : ℕ) (w : World DataStrategy)
      → w.self.mappings ≡ []
      → w.self.owner < n
      → Accounted w
      → Post X w
          (λ s. Staged n w.self.owner n s.mappings)
          (follow
            (λ status. unless_failed status (cross_rank_setup d ctrl timeout_ms rounds))
            (local_or_retry d data_bytes n w))
  both-Post timeout_ms rounds data_bytes w empty lt books =
      Post-then X w (LocalDone w) (λ s. Staged n w.self.owner n s.mappings)
        (local_or_retry d data_bytes n w) (cross_rank_setup d ctrl timeout_ms rounds)
        (local_or_retry-Post data_bytes w empty lt books)
        (λ w' kept done.
          Post-trans X w w' (λ s. Staged n w.self.owner n s.mappings)
            (cross_rank_setup d ctrl timeout_ms rounds w') kept
            (subst
              (λ k.
                Staged 0 k n w'.self.mappings
                → Post X w' (λ s. Staged n k n s.mappings)
                    (cross_rank_setup d ctrl timeout_ms rounds w'))
              kept.owner
              (cross_rank_setup-Post X d ctrl timeout_ms rounds n w'
                (λ rank out lt u. (rank, out, lt)) (rw kept.owner lt) kept.books)
              done))

abbrev pub rank_total : CtrlLayout → ℕ → ℕ
rank_total ctrl n_slots = ctrl.slot_count / n_slots

abbrev pub AllStaged : ℕ → World DataStrategy → DataStrategy → Type 0
AllStaged n w s = Staged n w.self.owner n s.mappings

module _ (d : Driver) (ctrl : CtrlLayout) (slot_size n_slots : ℕ) where
  pub setup_body-Post :
      (device : ℤ) (timeout_ms rounds : ℕ) (w : World DataStrategy)
      → n_slots ≢ 0
      → w.self.mappings ≡ []
      → w.self.owner < (rank_total ctrl n_slots)
      → Accounted w
      → Post
          (Excuse ctrl (rank_total ctrl n_slots))
          w
          (AllStaged (rank_total ctrl n_slots) w)
          (setup_body d ctrl device slot_size n_slots timeout_ms rounds w)
  unfolding setup_body
  setup_body-Post device timeout_ms rounds w some_slots empty lt books =
      let c = set_device device in
      let r = d w.trace c in
      let w' = record w { trace = (c, r) ∷ w.trace } in
      let kept = called-Accounted d c w refl books in
      let same : Kept w w' = record { owner = refl; device = refl; slots = refl; books = kept } in
      let counted : (n_slots == 0) ≡ false = ground arith in
      elim (Bool-cases (is_negative device)) [
        | inl bad ↦ rw bad (
          record { owner = refl; device = refl; slots = refl; books = books },
          λ good. absurd (ground arith),
        )
        | inr good ↦ elim (Bool-cases (is_zero r.ret)) [
          | inl z ↦
              rw (good, z, counted)
                (Post-trans (Excuse ctrl (rank_total ctrl n_slots)) w w'
                  (AllStaged (rank_total ctrl n_slots) w)
                  (follow
                    (λ status. unless_failed status (cross_rank_setup d ctrl timeout_ms rounds))
                    (local_or_retry d (slot_size * n_slots % size_mod) (rank_total ctrl n_slots)
                      w'))
                  same
                  (both-Post d ctrl (rank_total ctrl n_slots) timeout_ms rounds
                    (slot_size * n_slots % size_mod) w' empty lt kept))
          | inr z ↦ rw (good, z, z) (same, λ good. absurd (ground arith))
        ]
      ]

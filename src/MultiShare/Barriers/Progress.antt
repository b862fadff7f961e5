-- ===== src/MultiShare/Barriers/Progress.antt =====
-- The barriers do not lock up.
use ascend_hal_sharing_probe.Prelude.{
  ℕ, zero, suc, ◌<◌, ◌≤◌, ◌≡◌, refl, subst, false, ◌⊎◌, inl, inr, ltb, ◌==◌, Bool-cases, arith,
  ltb→lt, ltb_false→le,
}
use ascend_hal_sharing_probe.MultiShare.Barriers.{
  Turn, collecting, answering, Group, GroupStep, arrive, pass, collect, answer_all, answer,
  next_phase, GroupSteps, barriers,
}
use ascend_hal_sharing_probe.MultiShare.Barriers.Invariant.{
  IsSound, GroupSteps-IsSound, at_turn, place, InTime,
}

-- The coordinator has been through its phases, and every worker through its barriers.
pub record IsOver (workers : ℕ) (s : Group) : Type 0 where
  pub phases : s.phase ≡ barriers
  pub all_passed : (i : ℕ) → i < workers → barriers ≤ s.passed i

-- No worker has left.
abbrev pub AllPresent : ℕ → Group → Type 0
AllPresent workers s = (i : ℕ) → i < workers → s.stopped i ≡ false

-- Some step can be taken by which no worker leaves.
abbrev pub CanStep : ℕ → Group → Type 0
CanStep workers s = (t : Group) × GroupStep workers s t × AllPresent workers t

-- Either all have passed so many barriers, or one has not.
find_behind : (f : ℕ → ℕ) (k n : ℕ) → ((i : ℕ) → i < n → k ≤ f i) ⊎ ((i : ℕ) × (i < n) × (f i < k))
find_behind f k zero = inl (λ i lt. elim lt [ ])
find_behind f k (suc n) = elim (find_behind f k n) [
  | inr (i, lt, behind) ↦ inr (i, omega arith, behind)
  | inl all ↦ elim (Bool-cases (ltb (f n) k)) [
    | inl behind ↦ inr (n, omega arith, ltb→lt (f n) k behind)
    | inr done ↦ inl (λ i lt. with_last i lt all (ltb_false→le (f n) k done))
  ]
]
  where
    with_last : (i : ℕ) → i < suc n → ((i : ℕ) → i < n → k ≤ f i) → k ≤ f n → k ≤ f i
    with_last i lt all last = elim (Bool-cases (i == n)) [
      | inl e ↦ ground arith
      | inr other ↦ all i (ground arith)
    ]

module _ (workers : ℕ) (s : Group) (h : IsSound workers s) (live : AllPresent workers s) where
  -- A worker whose word is waited for can arrive at the barrier, or leave the one before.
  waited-CanStep :
      (k : ℕ)
      → k < workers
      → s.phase < barriers
      → s.answered k ≡ s.phase
      → s.sent k ≡ s.phase
      → CanStep workers s
  waited-CanStep k lt early let_go arrived = elim (Bool-cases (ltb (s.passed k) (s.sent k))) [
    | inl inside ↦
        (_, pass k lt (live k lt) (ltb→lt (s.passed k) (s.sent k) inside) (ground arith), live)
    | inr outside ↦
        let same : s.sent k ≡ s.passed k =
          omega (arith, ltb_false→le (s.passed k) (s.sent k) outside, (h.in_order k lt).0) in
        (_, arrive k lt (live k lt) same (omega arith), live)
  ]

  collecting-CanStep : (k : ℕ) → s.turn ≡ collecting k → s.phase < barriers → CanStep workers s
  collecting-CanStep k e early = elim (Bool-cases (ltb k workers)) [
    | inl more ↦
        let lt = ltb→lt k workers more in
        let (c, a) = at_turn h e k lt in
        elim (Bool-cases (ltb (s.collected k) (s.sent k))) [
          | inl ready ↦ (_, collect k e early lt (ltb→lt (s.collected k) (s.sent k) ready), live)
          | inr late ↦
              waited-CanStep k lt early (omega arith)
                (ground (arith, c, h.had k lt, ltb_false→le (s.collected k) (s.sent k) late))
        ]
    | inr over ↦
        let reach : k ≤ workers = subst (λ (u : Turn). place u ≤ workers) e h.in_reach in
        let full : k ≡ workers = omega (arith, ltb_false→le k workers over) in
        (_, answer_all (subst (λ (n : ℕ). s.turn ≡ collecting n) full e) early, live)
  ]

  finished-CanStep :
      (k : ℕ) → s.turn ≡ collecting k → s.phase ≡ barriers → IsOver workers s ⊎ CanStep workers s
  finished-CanStep k e phases = elim (find_behind s.passed barriers workers) [
    | inl all ↦ inl record { phases = phases; all_passed = all }
    | inr (i, lt, behind) ↦
        let (c, a) = at_turn h e i lt in
        inr (_, pass i lt (live i lt) (omega (arith, c, h.had i lt)) (omega arith), live)
  ]

  answering-CanStep : (k : ℕ) → s.turn ≡ answering k → CanStep workers s
  answering-CanStep k e = elim (Bool-cases (ltb k workers)) [
    | inl more ↦ (_, answer k e (ltb→lt k workers more), live)
    | inr over ↦
        let reach : k ≤ workers = subst (λ (u : Turn). place u ≤ workers) e h.in_reach in
        let full : k ≡ workers = omega (arith, ltb_false→le k workers over) in
        (_, next_phase (subst (λ (n : ℕ). s.turn ≡ answering n) full e), live)
  ]

  sound-CanStep : (u : Turn) → s.turn ≡ u → IsOver workers s ⊎ CanStep workers s
  sound-CanStep (answering k) e = inr (answering-CanStep k e)
  sound-CanStep (collecting k) e =
      let in_time : s.phase ≤ barriers = subst (InTime s.phase) e h.in_time in
      elim (Bool-cases (ltb s.phase barriers)) [
        | inl early ↦ inr (collecting-CanStep k e (ltb→lt s.phase barriers early))
        | inr over ↦ finished-CanStep k e (omega (arith, ltb_false→le s.phase barriers over))
      ]

-- In every reached state in which no worker has left, either the coordinator has been through its
-- phases and every worker through its barriers, or some step can be taken by which no worker leaves.
pub steps-progress :
    (workers : ℕ) {s : Group}
    → GroupSteps workers s
    → AllPresent workers s
    → IsOver workers s ⊎ CanStep workers s
steps-progress workers {s} run live =
    sound-CanStep workers s (GroupSteps-IsSound workers run) live s.turn refl

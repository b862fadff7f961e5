-- ===== src/DataStrategy/Peer.antt =====
-- One peer of `CrossRankSetup`: the wait for its descriptor, and its mapping.
use ascend_hal_sharing_probe.Prelude.{
  ℕ, zero, suc, Bool, ◌+◌, ◌≤◌, ◌≡◌, refl, ap, ◌∙◌, sym, subst, true, false, inl, inr, some, [],
  ◌∷◌, arith, get_elem?, set, leb, Bool-cases, Option-cases,
}
use Prim.Native.Nat.{min}
use ascend_hal_sharing_probe.Status.{Status, Expected, value, error}
use ascend_hal_sharing_probe.Effects.{
  Driver, Outcome, ok, threw, fault, Fault, stalled, World, follow, clock_now, sleep_until,
}
use ascend_hal_sharing_probe.CtrlLayout.{CtrlLayout, get_rank_desc, read_desc, rank_out_of_range}
use ascend_hal_sharing_probe.DataStrategy.{DataStrategy, Mapping, Action, blank}
use ascend_hal_sharing_probe.DataStrategy.Setup.{poll, with_desc, attach_peer, setup_peer}
use ascend_hal_sharing_probe.DataStrategy.Accounts.{Accounted}
use ascend_hal_sharing_probe.DataStrategy.Steps.{IsComplete}
use ascend_hal_sharing_probe.DataStrategy.Fill.{attach_peer-Filled}
use ascend_hal_sharing_probe.DataStrategy.Stages.{
  Kept, Post, Post-trans, Post-Filled, called-Accounted,
}

abbrev is_error : Expected ℕ → Bool
is_error (error e) = true
is_error (value a) = false

-- A part that leaves the object itself alone.
abbrev Same :
    (Fault → World DataStrategy → Type 0)
    → {A : Type 0} → World DataStrategy
    → Outcome A × World DataStrategy
    → Type 0
Same X w (ok a, w') = (w'.self ≡ w.self) × Accounted w'
Same X w (threw e, w') = (w'.self ≡ w.self) × Accounted w'
Same X w (fault f, w') = X f w'

pub Kept-of_same : (w w' : World DataStrategy) → w'.self ≡ w.self → Accounted w' → Kept w w'
Kept-of_same w w' same books = record {
  owner = ap (λ s. s.owner) same;
  device = ap (λ s. s.device_id) same;
  slots = ap (λ s. s.n_slots_per_rank) same;
  books = books;
}

module _ (X : Fault → World DataStrategy → Type 0) where
  Same-trans :
      {A : Type 0} (u v : World DataStrategy) (r : Outcome A × World DataStrategy)
      → v.self ≡ u.self
      → Same X v r
      → Same X u r
  Same-trans u v (ok a, w) e (same, books) = (same ∙ e, books)
  Same-trans u v (threw x, w) e (same, books) = (same ∙ e, books)
  Same-trans u v (fault f, w) e h = h

  Same-bind :
      {A B : Type 0} (w : World DataStrategy) (r : Outcome A × World DataStrategy)
      (f : A → Action B)
      → Same X w r
      → ((a : A) (w' : World DataStrategy) → w'.self ≡ w.self → Accounted w' → Same X w' (f a w'))
      → Same X w (follow f r)
  Same-bind w (ok a, w') f (same, books) h = Same-trans w w' (f a w') same (h a w' same books)
  Same-bind w (threw e, w') f same h = same
  Same-bind w (fault e, w') f same h = same

  Post-bind :
      {A : Type 0} (w : World DataStrategy) (P : DataStrategy → Type 0)
      (r : Outcome A × World DataStrategy) (f : A → Action Status)
      → Same X w r
      → ((a : A) (w' : World DataStrategy) → w'.self ≡ w.self → Accounted w' → Post X w' P (f a w'))
      → Post X w P (follow f r)
  Post-bind w P (ok a, w') f (same, books) h =
      Post-trans X w w' P (f a w') (Kept-of_same w w' same books) (h a w' same books)
  Post-bind w P (threw e, w') f (same, books) h = Kept-of_same w w' same books
  Post-bind w P (fault e, w') f same h = same

  get_rank_desc-Same :
      (ctrl : CtrlLayout) (rank : ℕ) (w : World DataStrategy)
      → Accounted w
      → Same X w (get_rank_desc ctrl rank w)
  unfolding get_rank_desc
  get_rank_desc-Same ctrl rank w books = elim (Bool-cases (leb ctrl.rank_count rank)) [
    | inl out ↦ rw out (refl, books)
    | inr inside ↦ elim (Option-cases (read_desc rank w.input)) [
      | inl ended ↦ rw (inside, ended) (refl, books)
      | inr (found, e) ↦ rw (inside, e) (refl, books)
    ]
  ]

module _ (X : Fault → World DataStrategy → Type 0) (d : Driver) where
  poll-Same :
      (ctrl : CtrlLayout) (rank deadline rounds : ℕ) (p : Expected ℕ) (w : World DataStrategy)
      → ((u : World DataStrategy) → X stalled u)
      → Accounted w
      → Same X w (poll d ctrl rank deadline rounds p w)
  unfolding poll
  poll-Same ctrl rank deadline rounds (value handle) w x books = (refl, books)
  poll-Same ctrl rank deadline zero (error e) w x books = x w
  poll-Same ctrl rank deadline (suc rounds) (error e) w x books =
      let now = d w.trace clock_now in
      let w1 = record w { trace = (clock_now, now) ∷ w.trace } in
      let until = sleep_until (min deadline (now.out + 10)) in
      let w2 = record w1 { trace = (until, d w1.trace until) ∷ w1.trace } in
      let later = d w2.trace clock_now in
      let w3 = record w2 { trace = (clock_now, later) ∷ w2.trace } in
      let b1 = called-Accounted d clock_now w refl books in
      let b2 = called-Accounted d until w1 refl b1 in
      let b3 = called-Accounted d clock_now w2 refl b2 in
      elim (Bool-cases (leb deadline now.out)) [
        | inl over ↦ rw over (refl, b1)
        | inr early ↦ elim (Bool-cases (leb deadline later.out)) [
          | inl over ↦ rw (early, over) (refl, b3)
          | inr again ↦
              rw (early, again)
                (Same-bind X w3 (get_rank_desc ctrl rank w3) (poll d ctrl rank deadline rounds)
                  (get_rank_desc-Same X ctrl rank w3 b3)
                  (λ p' w' same b. poll-Same ctrl rank deadline rounds p' w' x b))
        ]
      ]

  -- What follows the first look at the input, which finds no descriptor only for a rank that the
  -- layout does not have.
  await_peer-Post :
      (ctrl : CtrlLayout) (timeout_ms deadline rounds rank : ℕ) (P : DataStrategy → Type 0)
      (v : World DataStrategy) (first : Expected ℕ)
      → (is_error first ≡ true → (u : World DataStrategy) → X stalled u)
      → get_elem? v.self.mappings rank ≡ some blank
      → Accounted v
      → ((m : Mapping) → IsComplete m → P (record v.self { mappings = set v.self.mappings rank m }))
      → Post X v P (follow (with_desc d timeout_ms rank) (poll d ctrl rank deadline rounds first v))
  unfolding poll
  await_peer-Post ctrl timeout_ms deadline rounds rank P v (value token) stall e books h =
      Post-Filled X rank v P (attach_peer d rank token v)
        (attach_peer-Filled d rank token v e books) h
  await_peer-Post ctrl timeout_ms deadline rounds rank P v (error x) stall e books h =
      Post-bind X v P (poll d ctrl rank deadline rounds (error x) v) (with_desc d timeout_ms rank)
        (poll-Same ctrl rank deadline rounds (error x) v (stall refl) books)
        λ desc w same b. conclude desc w same b
    where
      conclude :
          (desc : Expected ℕ) (w : World DataStrategy)
          → w.self ≡ v.self
          → Accounted w
          → Post X w P (with_desc d timeout_ms rank desc w)
      conclude (error x) w same b =
          (record { owner = refl; device = refl; slots = refl; books = b }, λ bad. cc)
      conclude (value token) w same b =
          Post-Filled X rank w P (attach_peer d rank token w)
            (attach_peer-Filled d rank token w
              (subst (λ s. get_elem? s.mappings rank ≡ some blank) (sym same) e) b)
            (λ m c.
              subst (λ s. P (record s { mappings = set s.mappings rank m })) (sym same) (h m c))

  -- One peer whose mapping is blank.
  pub setup_peer-Post :
      (ctrl : CtrlLayout) (timeout_ms deadline rounds rank : ℕ) (P : DataStrategy → Type 0)
      (w : World DataStrategy)
      → (ctrl.rank_count ≤ rank → (u : World DataStrategy) → X stalled u)
      → get_elem? w.self.mappings rank ≡ some blank
      → Accounted w
      → ((m : Mapping) → IsComplete m → P (record w.self { mappings = set w.self.mappings rank m }))
      → Post X w P (setup_peer d ctrl timeout_ms deadline rounds rank w)
  unfolding setup_peer get_rank_desc
  setup_peer-Post ctrl timeout_ms deadline rounds rank P w stall e books h =
      elim (Bool-cases (leb ctrl.rank_count rank)) [
        | inl out ↦ rw out (
            await_peer-Post ctrl timeout_ms deadline rounds rank P w (error rank_out_of_range)
              (λ _. stall (ground arith)) e books h)
        | inr inside ↦ elim (Option-cases (read_desc rank w.input)) [
          | inl ended ↦ rw (inside, ended) (Kept-of_same w (record w { input = [] }) refl books)
          | inr (found, g) ↦
              rw (inside, g)
                (Post-trans X w (record w { input = found.1 }) P _
                  (Kept-of_same w (record w { input = found.1 }) refl books)
                  (await_peer-Post ctrl timeout_ms deadline rounds rank P
                    (record w { input = found.1 }) (value found.0) (λ bad. absurd (ground arith)) e
                    books h))
        ]
      ]

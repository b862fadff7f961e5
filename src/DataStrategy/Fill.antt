-- ===== src/DataStrategy/Fill.antt =====
-- Filling one mapping: `ReserveRankAddress`, `halMemCreate` and `halMemMap` for the local rank,
-- import, reservation and mapping for a peer.
use ascend_hal_sharing_probe.Prelude.{
  ℕ, zero, suc, pos, ◌+◌, ◌≡◌, ◌≢◌, refl, ap, ◌∙◌, true, false, inl, inr, some, List, [], ◌∷◌,
  arith, get_elem?, set, get_elem?-set_self, get_elem?-lt, Bool-cases, is_zero,
}
use ascend_hal_sharing_probe.Status.{Status, success, rewrap}
use ascend_hal_sharing_probe.Effects.{
  Call, Reply, Driver, Outcome, ok, threw, fault, World, PageType, address_reserve, import_handle,
  ◌>>=◌,
}
use ascend_hal_sharing_probe.HalMemory.{from_hal_error, host_memory_prop}
use ascend_hal_sharing_probe.DataStrategy.{
  DataStrategy, Mapping, Action, blank, reserve_rank_address, unless_failed,
}
use ascend_hal_sharing_probe.DataStrategy.Setup.{
  create_local, map_local, allocate_local, map_rank, map_peer, attach_peer,
}
use ascend_hal_sharing_probe.Effects.Ledger.{
  Resource, address, memory, mapping, IsReal, gained, lost,
}
use ascend_hal_sharing_probe.DataStrategy.Accounts.{Accounted, held}
use ascend_hal_sharing_probe.DataStrategy.Steps.{
  stepped, Filled, set-set, reserve_run, reserve-Accounted, reserve_status, import_run,
  import-Accounted, import_status, taken, map_run_ok, map_run_failed, map-Accounted,
  map_failed-Accounted, map_of, at_run, stepped-Accounted,
}

set-get_elem? {ℓ} :
    {A : Type ℓ} (xs : List A) (i : ℕ) {x : A} → get_elem? xs i ≡ some x → set xs i x ≡ xs
set-get_elem? [] i e = refl
set-get_elem? (y ∷ ys) zero e = ground arith
set-get_elem? (y ∷ ys) (suc i) e = ap (◌∷◌ y) (set-get_elem? ys i e)

-- A reservation that passes has an address.
reserve_status_ok : (r : Reply) → success (reserve_status r) ≡ true → r.out ≢ 0
reserve_status_ok r good = ground arith

module _ (d : Driver) (rank : ℕ) where
  -- A step at the rank before an attempt is part of it.
  Filled-stepped :
      (c : Call) (m : Mapping) (w : World DataStrategy) (r : Outcome Status × World DataStrategy)
      → Filled rank (stepped d c rank m w) r
      → Filled rank w r
  Filled-stepped c m w (ok status, w') (m', books, same, complete) = (
    m',
    books,
    same ∙ ap (λ ms. record w.self { mappings = ms }) (set-set w.self.mappings rank m m'),
    complete,
  )
  Filled-stepped c m w (threw e, w') h = h
  Filled-stepped c m w (fault f, w') h = h

  -- After a step the attempt ends with the step's status if that is a failure, else it goes on.
  Filled-unless :
      (c : Call) (m : Mapping) (w : World DataStrategy) (status : Status) (rest : Action Status)
      → Accounted (stepped d c rank m w)
      → (success status ≡ true → Filled rank (stepped d c rank m w) (rest (stepped d c rank m w)))
      → Filled rank w (unless_failed status rest (stepped d c rank m w))
  Filled-unless c m w status rest books h = elim (Bool-cases (success status)) [
    | inl good ↦ rw good (Filled-stepped c m w (rest (stepped d c rank m w)) (h good))
    | inr bad ↦ rw bad (m, books, refl, λ good. ground arith)
  ]

  stepped-get_elem? :
      (c : Call) (m m' : Mapping) (w : World DataStrategy)
      → get_elem? w.self.mappings rank ≡ some m
      → get_elem? (stepped d c rank m' w).self.mappings rank ≡ some m'
  stepped-get_elem? c m m' w e =
      get_elem?-set_self w.self.mappings rank m' (get_elem?-lt w.self.mappings rank e)

  map_rank-Filled :
      (wrap : Status → Status)
      → ((s : Status) → success (wrap s) ≡ success s)
      → (m : Mapping) (w : World DataStrategy) → get_elem? w.self.mappings rank ≡ some m
      → m.addr ≢ 0
      → m.mapped ≡ false
      → Accounted w
      → Filled rank w (map_rank d wrap rank w)
  map_rank-Filled wrap keeps m w e real n books =
      elim (Bool-cases
        (is_zero (d w.trace (Call.mem_map m.addr w.self.rank_stride m.handle)).ret)) [
          | inl z ↦ rw (map_run_ok d rank m w e wrap z) (
            record m { mapped = true },
            map-Accounted d rank m w e n z books,
            refl,
            λ good. record { reserved = real; is_mapped = refl },
          )
          | inr z ↦ rw (map_run_failed d rank m w e wrap z) (
            m,
            map_failed-Accounted d rank m w e z books,
            rw (set-get_elem? w.self.mappings rank e),
            λ good.
                ground
                  (arith, keeps (from_hal_error "halMemMap" (d w.trace (map_of d rank m w e)).ret)),
          )
        ]

  -- Reserve a range for an unmapped rank without one, and map it there.
  reserve_map-Filled :
      (wrap : Status → Status)
      → ((s : Status) → success (wrap s) ≡ success s)
      → (m : Mapping) (w : World DataStrategy) → get_elem? w.self.mappings rank ≡ some m
      → m.addr ≡ 0
      → m.mapped ≡ false
      → Accounted w
      → Filled rank w (
          (reserve_rank_address d rank >>= λ status. unless_failed status (map_rank d wrap rank)) w)
  reserve_map-Filled wrap keeps m w e z n books =
      let c = address_reserve w.self.rank_stride in
      let r = d w.trace c in
      let m' : Mapping = record m { addr = r.out } in
      let kept = reserve-Accounted d rank m w e z n books in
      rw (reserve_run d rank m w e) (
        Filled-unless c m' w (reserve_status r) (map_rank d wrap rank) kept
          (λ (good : success (reserve_status r) ≡ true).
            map_rank-Filled wrap keeps m' (stepped d c rank m' w) (stepped-get_elem? c m m' w e)
              (reserve_status_ok r good) n kept))

  -- `CrossRankSetup` for one peer whose mapping is blank.
  pub attach_peer-Filled :
      (token : ℕ) (w : World DataStrategy)
      → get_elem? w.self.mappings rank ≡ some blank
      → Accounted w
      → Filled rank w (attach_peer d rank token w)
  unfolding map_peer
  attach_peer-Filled token w e books =
      let c = import_handle token w.self.device_id in
      let m = taken d rank blank w e blank (d w.trace c) in
      let kept = import-Accounted d rank blank w e token refl books in
      let wrap = rewrap "HAL peer map failed: rank={} status={}" (pos rank ∷ []) in
      rw (import_run d rank blank w e token) (
        Filled-unless c m w (import_status d rank blank w e (d w.trace c))
          (reserve_rank_address d rank >>= λ status. unless_failed status (map_rank d wrap rank))
          kept
          (λ good.
            reserve_map-Filled wrap (λ s. refl) m (stepped d c rank m w)
              (stepped-get_elem? c blank m w e) refl refl kept))

module _ (d : Driver) (page : PageType) (m : Mapping) (w : World DataStrategy)
    (e : get_elem? w.self.mappings w.self.owner ≡ some m) where
  abbrev create_of : Call
  create_of = Call.mem_create w.self.rank_stride (host_memory_prop page)

  abbrev created : Reply
  created = d w.trace create_of

  create_run : create_local d page w ≡ (
    ok (from_hal_error "halMemCreate" created.ret),
    stepped d create_of w.self.owner (taken d w.self.owner m w e m created) w,
  )
  unfolding create_local
  create_run = rw (at_run w.self.owner m w e) (ground arith)

  create-Accounted :
      m.handle ≡ 0
      → Accounted w
      → Accounted (stepped d create_of w.self.owner (taken d w.self.owner m w e m created) w)
  create-Accounted z h = stepped-Accounted d _ w.self.owner m _ w h e grow keep
    where
      grow :
          (x : Resource)
          → IsReal x
          → held x (taken d w.self.owner m w e m created) ≡ held x m + gained x create_of created
      grow (address a) real = ground arith
      grow (memory a) real = ground arith
      grow (mapping a) real = ground arith

      keep : (x : Resource) → lost x create_of ≡ 0
      keep (address a) = refl
      keep _ = refl

module _ (d : Driver) (page : PageType) where
  create_map-Filled :
      (m : Mapping) (w : World DataStrategy)
      → get_elem? w.self.mappings w.self.owner ≡ some m
      → m.addr ≢ 0
      → m.handle ≡ 0
      → m.mapped ≡ false
      → Accounted w
      → Filled w.self.owner w
          ((create_local d page >>= λ status. unless_failed status (map_local d)) w)
  unfolding map_local
  create_map-Filled m w e real z n books =
      let rank = w.self.owner in
      let c = create_of d page m w e in
      let r = created d page m w e in
      let m' = taken d rank m w e m r in
      let kept = create-Accounted d page m w e z books in
      rw (create_run d page m w e) (
        Filled-unless d rank c m' w (from_hal_error "halMemCreate" r.ret) (map_local d) kept
          (λ good.
            map_rank-Filled d rank (λ status. status) (λ s. refl) m' (stepped d c rank m' w)
              (stepped-get_elem? d rank c m m' w e) real n kept))

  -- `LocalSetup` from the reservation on, when the local mapping is blank.
  pub allocate_local-Filled :
      (w : World DataStrategy)
      → get_elem? w.self.mappings w.self.owner ≡ some blank
      → Accounted w
      → Filled w.self.owner w (allocate_local d page w)
  allocate_local-Filled w e books =
      let rank = w.self.owner in
      let c = address_reserve w.self.rank_stride in
      let r = d w.trace c in
      let m : Mapping = record blank { addr = r.out } in
      let kept = reserve-Accounted d rank blank w e refl refl books in
      rw (reserve_run d rank blank w e) (
        Filled-unless d rank c m w (reserve_status r)
          (create_local d page >>= λ status. unless_failed status (map_local d)) kept
          (λ (good : success (reserve_status r) ≡ true).
            create_map-Filled m (stepped d c rank m w) (stepped-get_elem? d rank c blank m w e)
              (reserve_status_ok r good) refl refl kept))

-- ===== src/DataStrategy/Peers.antt =====
-- `CrossRankSetup`: each peer's mapping is filled in turn and the books are kept, on every way out.
use ascend_hal_sharing_probe.Prelude.{
  ℕ, zero, suc, ◌+◌, ◌≤◌, ◌<◌, ◌≡◌, ◌≢◌, refl, ap, ◌∙◌, sym, subst, inl, inr, some, ◌∷◌, arith,
  get_elem?, length, leb, ◌==◌, Bool-cases, is_zero,
}
use ascend_hal_sharing_probe.Effects.{
  Driver, Fault, stalled, World, clock_now, export_handle, disable_whitelist, write_line,
}
use ascend_hal_sharing_probe.CtrlLayout.{CtrlLayout, set_rank_desc, desc_line}
use ascend_hal_sharing_probe.DataStrategy.{DataStrategy, Mapping}
use ascend_hal_sharing_probe.DataStrategy.Setup.{
  setup_peer, setup_peers, publish_local, all_peers, cross_rank_setup,
}
use ascend_hal_sharing_probe.DataStrategy.Accounts.{Accounted}
use ascend_hal_sharing_probe.DataStrategy.Steps.{at_run}
use ascend_hal_sharing_probe.DataStrategy.Stages.{
  Staged, Staged-set, Staged-skip, Post, Post-trans, Post-then, called-Accounted,
}
use ascend_hal_sharing_probe.DataStrategy.Peer.{Kept-of_same, setup_peer-Post}

module _ (X : Fault → World DataStrategy → Type 0) (d : Driver) where
  -- The loop over the peers from rank `k` on.
  setup_peers-Post :
      (ctrl : CtrlLayout) (timeout_ms deadline rounds left k owner n : ℕ) (w : World DataStrategy)
      → ((rank : ℕ) → ctrl.rank_count ≤ rank → rank < n → (u : World DataStrategy) → X stalled u)
      → k + left ≡ n
      → w.self.owner ≡ owner
      → Accounted w
      → Staged k owner n w.self.mappings
      → Post X w
          (λ s. Staged n owner n s.mappings)
          (setup_peers d ctrl timeout_ms deadline rounds left k w)
  unfolding setup_peers
  setup_peers-Post ctrl timeout_ms deadline rounds zero k owner n w stall e own books st =
      let same : k ≡ n = omega arith in
      (
        record { owner = refl; device = refl; slots = refl; books = books },
        λ good. subst (λ j. Staged j owner n w.self.mappings) same st,
      )
  setup_peers-Post ctrl timeout_ms deadline rounds (suc left) k owner n w stall e own books st =
      elim (Bool-cases (k == w.self.owner)) [
        | inl mine ↦ rw mine (
            setup_peers-Post ctrl timeout_ms deadline rounds left (suc k) owner n w stall
              (omega arith) own books (Staged-skip k owner n w.self.mappings (ground arith) st))
        | inr peer ↦
            let other : k ≢ owner = ground arith in
            rw peer (
              Post-then X w (λ s. Staged (suc k) owner n s.mappings)
                (λ s. Staged n owner n s.mappings)
                (setup_peer d ctrl timeout_ms deadline rounds k w)
                (setup_peers d ctrl timeout_ms deadline rounds left (suc k))
                (setup_peer-Post X d ctrl timeout_ms deadline rounds k
                  (λ s. Staged (suc k) owner n s.mappings) w (λ out. stall k out (omega arith))
                  (st.left k other (omega arith) (omega arith)) books
                  (λ m c. Staged-set k owner n w.self.mappings m other (omega arith) c st))
                (λ w' kept st'.
                  Post-trans X w w' (λ s. Staged n owner n s.mappings)
                    (setup_peers d ctrl timeout_ms deadline rounds left (suc k) w') kept
                    (setup_peers-Post ctrl timeout_ms deadline rounds left (suc k) owner n w' stall
                      (omega arith) (kept.owner ∙ own) kept.books st')))
      ]

  publish_local-Post :
      (ctrl : CtrlLayout) (m : Mapping) (w : World DataStrategy)
      → get_elem? w.self.mappings w.self.owner ≡ some m
      → Accounted w
      → Post X w (λ s. s ≡ w.self) (publish_local d ctrl w)
  unfolding publish_local set_rank_desc
  publish_local-Post ctrl m w e books =
      let export = export_handle m.handle in
      let r1 = d w.trace export in
      let w1 = record w { trace = (export, r1) ∷ w.trace } in
      let b1 = called-Accounted d export w refl books in
      let open_up = disable_whitelist r1.out in
      let r2 = d w1.trace open_up in
      let w2 = record w1 { trace = (open_up, r2) ∷ w1.trace } in
      let b2 = called-Accounted d open_up w1 refl b1 in
      let b3 = called-Accounted d (write_line (desc_line w.self.owner r1.out)) w2 refl b2 in
      rw (at_run w.self.owner m w e) (elim (Bool-cases (is_zero r1.ret)) [
        | inl z1 ↦ elim (Bool-cases (is_zero r2.ret)) [
          | inl z2 ↦ elim (Bool-cases (leb ctrl.rank_count w.self.owner)) [
            | inl out ↦ rw (z1, z2, out) (Kept-of_same w w2 refl b2, λ h. refl)
            | inr inside ↦ rw (z1, z2, inside) (Kept-of_same w _ refl b3, λ h. refl)
          ]
          | inr z2 ↦ rw (z1, z2, z2) (Kept-of_same w w2 refl b2, λ h. refl)
        ]
        | inr z1 ↦ rw (z1, z1) (Kept-of_same w w1 refl b1, λ h. refl)
      ])

  -- All of `CrossRankSetup`, once the owner's mapping is complete.
  pub cross_rank_setup-Post :
      (ctrl : CtrlLayout) (timeout_ms rounds n : ℕ) (w : World DataStrategy)
      → ((rank : ℕ) → ctrl.rank_count ≤ rank → rank < n → (u : World DataStrategy) → X stalled u)
      → w.self.owner < n
      → Accounted w
      → Staged 0 w.self.owner n w.self.mappings
      → Post X w
          (λ s. Staged n w.self.owner n s.mappings)
          (cross_rank_setup d ctrl timeout_ms rounds w)
  unfolding cross_rank_setup
  cross_rank_setup-Post ctrl timeout_ms rounds n w stall lt books st =
      let now = d w.trace clock_now in
      let w1 = record w { trace = (clock_now, now) ∷ w.trace } in
      let b1 = called-Accounted d clock_now w refl books in
      let (m, e, c) = st.done w.self.owner lt (inl refl) in
      let deadline = now.out + timeout_ms in
      let P = λ (s : DataStrategy). Staged n w.self.owner n s.mappings in
      Post-trans X w w1 P _ (Kept-of_same w w1 refl b1) (
        Post-then X w1 (λ s. s ≡ w.self) P (publish_local d ctrl w1)
          (all_peers d ctrl timeout_ms deadline rounds) (publish_local-Post ctrl m w1 e b1)
          (λ w' kept same.
            Post-trans X w1 w' P (all_peers d ctrl timeout_ms deadline rounds w') kept (
              setup_peers-Post ctrl timeout_ms deadline rounds (length w'.self.mappings) 0
                w.self.owner n w' stall
                (omega (arith, ap (λ (s : DataStrategy). length s.mappings) same, st.size))
                (ap (λ s. s.owner) same) kept.books
                (subst (λ s. Staged 0 w.self.owner n s.mappings) (sym same) st))))

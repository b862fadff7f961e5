-- ===== src/DataStrategy/Local.antt =====
-- `LocalSetup`: the owner's mapping is filled and the books are kept, on every way out.
use ascend_hal_sharing_probe.Prelude.{
  lcm, ℕ, ◌-◌, ◌≤◌, ◌<◌, ◌≡◌, refl, true, ap, inl, inr, [], ◌∷◌, arith, replicate, take-nil,
  get_elem?-replicate, ◌==◌, ltb, Bool-cases, is_zero, size_mod,
}
use ascend_hal_sharing_probe.Status.{Status}
use ascend_hal_sharing_probe.Effects.{
  Driver, Outcome, Fault, Trace, lcm_overflow, World, PageType, ◌>>◌, get_granularity,
  resize_vector,
}
use ascend_hal_sharing_probe.HalMemory.{address_alignment, host_memory_prop}
use ascend_hal_sharing_probe.DataStrategy.{DataStrategy, blank, resize, checked_lcm, round_up}
use ascend_hal_sharing_probe.DataStrategy.Setup.{
  size_mappings, resize_mappings, allocate_local, local_setup,
}
use ascend_hal_sharing_probe.DataStrategy.Accounts.{Accounted, held_all, held_all-blank}
use ascend_hal_sharing_probe.DataStrategy.Fill.{allocate_local-Filled}
use ascend_hal_sharing_probe.DataStrategy.Stages.{
  Staged, Staged-owner, Kept, Post, Post-trans, Post-Filled, called-Accounted,
}

resize-nil : (n : ℕ) → resize n [] ≡ replicate n blank
resize-nil n = let e : n - 0 ≡ n = omega arith in rw (take-nil n, e)

-- Blank mappings hold nothing.
resized-Accounted :
    (n : ℕ) (w : World DataStrategy)
    → w.self.mappings ≡ []
    → Accounted w
    → Accounted (record w { self = record w.self { mappings = resize n w.self.mappings } })
unfolding held_all
resized-Accounted n w none_left books x real = omega (
  arith,
  books x real,
  ap (held_all x) none_left,
  ap (λ ms. held_all x (resize n ms)) none_left,
  ap (held_all x) (resize-nil n),
  held_all-blank x n real,
)

-- The last call asked for the granularity, and the driver granted one whose common multiple with the
-- address alignment `size_t` does not hold.
abbrev pub GrantsTooMuch : Trace → Type 0
GrantsTooMuch ((get_granularity prop, r) ∷ t) =
    (is_zero r.ret ≡ true) × (size_mod ≤ lcm address_alignment r.out)
GrantsTooMuch _ = ⊥

module _ (X : Fault → World DataStrategy → Type 0) (d : Driver) (n : ℕ) (page : PageType)
    (overflow : (w : World DataStrategy) → GrantsTooMuch w.trace → X lcm_overflow w) where
  abbrev LocalPost : World DataStrategy → Outcome Status × World DataStrategy → Type 0
  LocalPost w = Post X w (λ s. Staged 0 w.self.owner n s.mappings)

  -- From fresh mappings on.
  allocate-Post :
      (w : World DataStrategy)
      → w.self.mappings ≡ replicate n blank
      → w.self.owner < n
      → Accounted w
      → LocalPost w (allocate_local d page w)
  allocate-Post w fresh lt books =
      Post-Filled X w.self.owner w (λ s. Staged 0 w.self.owner n s.mappings)
        (allocate_local d page w)
        (allocate_local-Filled d page w (rw fresh (get_elem?-replicate n w.self.owner blank lt))
          books)
        (λ m c. rw fresh (Staged-owner w.self.owner n m lt c))

  -- From the vector's `resize` on.
  resize-Post :
      (w : World DataStrategy)
      → w.self.mappings ≡ []
      → w.self.owner < n
      → Accounted w
      → LocalPost w ((resize_mappings d n >> allocate_local d page) w)
  resize-Post w none_left lt books =
      let c = resize_vector n in
      let called = record w { trace = (c, d w.trace c) ∷ w.trace } in
      let w' = record called { self = record w.self { mappings = resize n w.self.mappings } } in
      let fresh : resize n w.self.mappings ≡ replicate n blank = rw none_left (resize-nil n) in
      let kept = called-Accounted d c w refl books in
      let resized = resized-Accounted n called none_left kept in
      elim (Bool-cases (is_zero (d w.trace c).ret)) [
        | inl z ↦ rw z (
            Post-trans X w w' (λ s. Staged 0 w.self.owner n s.mappings) (allocate_local d page w')
              (record { owner = refl; device = refl; slots = refl; books = resized })
              (allocate-Post w' fresh lt resized))
        | inr z ↦ rw z (record { owner = refl; device = refl; slots = refl; books = kept })
      ]

  -- From the alignment on; a common multiple that `size_t` does not hold needs its excuse.
  sized-Post :
      (data_bytes granularity : ℕ) (w : World DataStrategy)
      → w.self.mappings ≡ []
      → w.self.owner < n
      → Accounted w
      → (size_mod ≤ lcm address_alignment granularity → X lcm_overflow w)
      → LocalPost w ((size_mappings d data_bytes n granularity >> allocate_local d page) w)
  unfolding checked_lcm
  sized-Post data_bytes granularity w none_left lt books excuse =
      let w' = record w {
        self = record w.self {
          rank_stride = round_up data_bytes (lcm address_alignment granularity);
        };
      } in
      elim (Bool-cases (ltb (lcm address_alignment granularity) size_mod)) [
        | inl fits ↦ rw fits (
            Post-trans X w w' (λ s. Staged 0 w.self.owner n s.mappings)
              ((resize_mappings d n >> allocate_local d page) w')
              (record { owner = refl; device = refl; slots = refl; books = books })
              (resize-Post w' none_left lt books))
        | inr large ↦ rw large (excuse (ground arith))
      ]

  pub local_setup-Post :
      (data_bytes : ℕ) (w : World DataStrategy)
      → w.self.mappings ≡ []
      → w.self.owner < n
      → Accounted w
      → LocalPost w (local_setup d data_bytes n page w)
  unfolding local_setup
  local_setup-Post data_bytes w none_left lt books =
      let c = get_granularity (host_memory_prop page) in
      let r = d w.trace c in
      let w' = record w { trace = (c, r) ∷ w.trace } in
      let kept = called-Accounted d c w refl books in
      let same : Kept w w' = record { owner = refl; device = refl; slots = refl; books = kept } in
      elim (Bool-cases (is_zero r.ret)) [
        | inl z ↦ elim (Bool-cases (r.out == 0)) [
          | inl zero_size ↦ rw (z, zero_size) (same, λ bad. cc)
          | inr sized ↦
              rw (z, sized)
                (Post-trans X w w' (λ s. Staged 0 w.self.owner n s.mappings)
                  ((size_mappings d data_bytes n r.out >> allocate_local d page) w') same
                  (sized-Post data_bytes r.out w' none_left lt kept
                    λ large. overflow w' (z, large)))
        ]
        | inr z ↦ rw (z, z) (same, λ good. absurd (ground arith))
      ]

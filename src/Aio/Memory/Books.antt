-- ===== src/Aio/Memory/Books.antt =====
-- What the host memory holds is what it has obtained and not given back.
use ascend_hal_sharing_probe.Prelude.{
  ◌+◌, ◌≡◌, refl, Bool, true, false, ◌⊎◌, inl, inr, [], ◌∷◌, arith, ◌==◌, is_zero, if◌then◌else◌,
}
use ascend_hal_sharing_probe.Effects.{Call, Driver, Reply, World, address_free, pure, raise, ◌>>=◌}
use ascend_hal_sharing_probe.Effects.Ledger.{
  Resource, address, memory, mapping, IsReal, gained, lost, gains, losses, history, losses-append,
}
use ascend_hal_sharing_probe.DataStrategy.{Mapping}
use ascend_hal_sharing_probe.DataStrategy.Accounts.{held, IsSettled}
use ascend_hal_sharing_probe.Aio.{HostMemory, AioState, sdk, cleanup, cleaned, failed_call}
use ascend_hal_sharing_probe.Effects.Outcomes.{Ends, Ends-bind, Ends-if, after}
use ascend_hal_sharing_probe.Aio.Outcomes.{sdk-Ends}
use ascend_hal_sharing_probe.Aio.Memory.{
  unmap_part, release_part, free_part, release_hal, release, update,
}

abbrev pub mapping_of : HostMemory → Mapping
mapping_of m = record { handle = m.handle; addr = m.addr; mapped = m.mapped }

-- HAL memory, with its books kept.
pub record IsKept (w : World AioState) : Type 0 where
  pub from_hal : w.self.memory.malloc_base ≡ 0
  pub books :
      (x : Resource)
      → IsReal x
      → gains x w.trace ≡ losses x (history w.trace) + held x (mapping_of w.self.memory)

-- A world after a call, with other memory.
abbrev pub changed : Driver → Call → (HostMemory → HostMemory) → World AioState → World AioState
changed d c f w = record w {
  self = record w.self { memory = f w.self.memory };
  trace = (c, d w.trace c) ∷ w.trace;
}

-- The books are kept by a call if what it gains and loses is what the memory gains and loses.
pub changed-IsKept :
    (d : Driver) (c : Call) (f : HostMemory → HostMemory) (w : World AioState)
    → IsKept w
    → (f w.self.memory).malloc_base ≡ 0
    → ((x : Resource)
        → IsReal x
        → held x (mapping_of (f w.self.memory)) + lost x c
          ≡ held x (mapping_of w.self.memory) + gained x c (d w.trace c))
    → IsKept (changed d c f w)
unfolding gains losses history
changed-IsKept d c f w kept hal even = record {
  from_hal = hal;
  books = λ x real.
      omega (arith, kept.books x real, even x real, losses-append x (history w.trace) (c ∷ []));
}

-- What a part of `Release` leaves when it returns.
abbrev pub Left : (HostMemory → Type 0) → Unit {0} → World AioState → Type 0
Left P u w = IsKept w × P w.self.memory

-- When it throws, nothing is claimed.
abbrev pub Any : World AioState → Type 0
Any w = Unit {0}

abbrev IsUnmapped : HostMemory → Type 0
IsUnmapped m = m.mapped ≡ false

abbrev IsReleased : HostMemory → Type 0
IsReleased m = (m.mapped ≡ false) × (m.handle ≡ 0)

abbrev pub IsEmpty : HostMemory → Type 0
IsEmpty m = (m.mapped ≡ false) × (m.handle ≡ 0) × (m.addr ≡ 0)

unmap-even :
    (m : HostMemory) (r : Reply) (x : Resource)
    → IsReal x
    → m.mapped ≡ true
    → held x (mapping_of (record m { mapped = false })) + lost x (Call.mem_unmap m.addr)
      ≡ held x (mapping_of m) + gained x (Call.mem_unmap m.addr) r
unmap-even m r (address a) real h = ground arith
unmap-even m r (memory a) real h = ground arith
unmap-even m r (mapping a) real h = ground arith

release-even :
    (m : HostMemory) (r : Reply) (x : Resource)
    → IsReal x
    → held x (mapping_of (record m { handle = 0 })) + lost x (Call.mem_release m.handle)
      ≡ held x (mapping_of m) + gained x (Call.mem_release m.handle) r
release-even m r (address a) real = ground arith
release-even m r (memory a) real = ground arith
release-even m r (mapping a) real = ground arith

free-even :
    (m : HostMemory) (r : Reply) (x : Resource)
    → IsReal x
    → m.mapped ≡ false
    → held x (mapping_of (record m { addr = 0 })) + lost x (address_free m.addr)
      ≡ held x (mapping_of m) + gained x (address_free m.addr) r
free-even m r (address a) real h = ground arith
free-even m r (memory a) real h = ground arith
free-even m r (mapping a) real h = ground arith

module _ (d : Driver) where
  -- A part that issues one call and notes it, if a test of the memory says so.
  noted-Ends :
      (P : HostMemory → Type 0) (c : Call) (f : HostMemory → HostMemory) (w : World AioState)
      → IsKept (changed d c f w)
      → P (f w.self.memory)
      → Ends (Left P) Any ((sdk d c >>= λ n. update f) w)
  noted-Ends P c f w kept p =
      Ends-bind (λ n v. v ≡ after d c w) (Left P) Any (λ n. update f) (sdk d c w)
        (sdk-Ends (λ n v. v ≡ after d c w) Any d c w (λ z. refl) (λ z. tt))
        (λ n v here. rw here (kept, p))

  unmap_part-Ends : (w : World AioState) → IsKept w → Ends (Left IsUnmapped) Any (unmap_part d w)
  unmap_part-Ends w kept =
      let m = w.self.memory in
      let c = Call.mem_unmap m.addr in
      let f = λ (m : HostMemory). record m { mapped = false } in
      Ends-if (Left IsUnmapped) Any m.mapped (sdk d c >>= λ n. update f) (pure tt) w
        (λ is_mapped.
          noted-Ends IsUnmapped c f w
            (changed-IsKept d c f w kept kept.from_hal
              (λ x real. unmap-even m (d w.trace c) x real is_mapped))
            refl)
        (λ unmapped. (kept, unmapped))

  release_part-Ends :
      (w : World AioState)
      → IsKept w
      → IsUnmapped w.self.memory
      → Ends (Left IsReleased) Any (release_part d w)
  release_part-Ends w kept unmapped =
      let m = w.self.memory in
      let c = Call.mem_release m.handle in
      let f = λ (m : HostMemory). record m { handle = 0 } in
      Ends-if (Left IsReleased) Any (m.handle == 0) (pure tt) (sdk d c >>= λ n. update f) w
        (λ null. (kept, (unmapped, ground arith)))
        (λ held.
          noted-Ends IsReleased c f w
            (changed-IsKept d c f w kept kept.from_hal (release-even m (d w.trace c)))
            (unmapped, refl))

  free_part-Ends :
      (w : World AioState)
      → IsKept w
      → IsReleased w.self.memory
      → Ends (Left IsEmpty) Any (free_part d w)
  free_part-Ends w kept (unmapped, released) =
      let m = w.self.memory in
      let c = address_free m.addr in
      let f = λ (m : HostMemory). record m { addr = 0 } in
      Ends-if (Left IsEmpty) Any (m.addr == 0) (pure tt) (sdk d c >>= λ n. update f) w
        (λ null. (kept, (unmapped, released, ground arith)))
        (λ held.
          noted-Ends IsEmpty c f w
            (changed-IsKept d c f w kept kept.from_hal
              (λ x real. free-even m (d w.trace c) x real unmapped))
            (unmapped, released, refl))

  -- `Release` of HAL memory that returns has given everything back.
  pub release-Ends : (w : World AioState) → IsKept w → Ends (Left IsEmpty) Any (release d w)
  unfolding release
  release-Ends w kept =
      Ends-if (Left IsEmpty) Any (w.self.memory.malloc_base == 0) (release_hal d) _ w
        (λ hal.
          Ends-bind (Left IsUnmapped) (Left IsEmpty) Any _ (unmap_part d w) (unmap_part-Ends w kept)
            λ u v (kept1, unmapped).
              Ends-bind (Left IsReleased) (Left IsEmpty) Any _ (release_part d v)
                (release_part-Ends v kept1 unmapped)
                λ u' y (kept2, released). free_part-Ends y kept2 released)
        (λ other. absurd (ground (arith, kept.from_hal)))

-- Either the process will report a failed cleanup, or nothing is owed.
abbrev pub IsClosed : World AioState → Type 0
IsClosed w = (w.self.cleanup_failed ≡ true) ⊎ IsSettled w.trace

-- A cleanup does not throw.
abbrev pub Never : World AioState → Type 0
Never w = ⊥

-- A call that obtains and gives back nothing leaves that as it is.
pub neutral-IsClosed :
    (d : Driver) (c : Call) (w : World AioState)
    → ((x : Resource) → (gained x c (d w.trace c) ≡ 0) × (lost x c ≡ 0))
    → IsClosed w
    → Ends (λ u v. IsClosed v) Never (cleanup (sdk d c) w)
unfolding gains losses history
neutral-IsClosed d c w quiet closed = go (is_zero (d w.trace c).ret)
  where
    settled : IsSettled w.trace → IsSettled ((c, d w.trace c) ∷ w.trace)
    settled s x real =
        omega
          (arith, s x real, (quiet x).0, (quiet x).1, losses-append x (history w.trace) (c ∷ []))

    both : IsClosed (after d c w)
    both = elim closed [ inl failed ↦ inl failed | inr s ↦ inr (settled s) ]

    go :
        (b : Bool)
        → Ends
            (λ u v. IsClosed v)
            Never
            (cleaned ((if b then pure (d w.trace c).out else raise failed_call) (after d c w)))
    go true = both
    go false = inl refl

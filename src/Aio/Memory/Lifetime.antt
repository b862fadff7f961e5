-- ===== src/Aio/Memory/Lifetime.antt =====
-- The destructor of the host memory.
use ascend_hal_sharing_probe.Prelude.{◌≡◌, refl, true, inl, inr, arith}
use ascend_hal_sharing_probe.Effects.{
  Call, Driver, Trace, Outcome, ok, threw, fault, World, acl_finalize, reset_device, pure,
}
use ascend_hal_sharing_probe.Effects.Ledger.{
  Resource, address, memory, mapping, IsReal, gained, lost,
}
use ascend_hal_sharing_probe.DataStrategy.Accounts.{held}
use ascend_hal_sharing_probe.Effects.Ledger.{is_neutral, gained-neutral, lost-neutral}
use ascend_hal_sharing_probe.Aio.{HostMemory, AioState, sdk, cleanup, cleaned}
use ascend_hal_sharing_probe.Effects.Outcomes.{Ends, Ends-bind, Ends-if}
use ascend_hal_sharing_probe.Aio.Memory.{release, destroy}
use ascend_hal_sharing_probe.Aio.Memory.Books.{
  mapping_of, IsKept, Left, Any, Never, IsEmpty, IsClosed, release-Ends, neutral-IsClosed,
}

held-IsEmpty : (m : HostMemory) (x : Resource) → IsEmpty m → IsReal x → held x (mapping_of m) ≡ 0
held-IsEmpty m (address a) (unmapped, released, freed) real = ground arith
held-IsEmpty m (memory a) (unmapped, released, freed) real = ground arith
held-IsEmpty m (mapping a) (unmapped, released, freed) real = ground arith

abbrev pub Closed : Unit {0} → World AioState → Type 0
Closed u w = IsClosed w

cleaned-IsClosed :
    (r : Outcome (Unit {0}) × World AioState)
    → Ends (Left IsEmpty) Any r
    → Ends Closed Never (cleaned r)
cleaned-IsClosed (ok u, w) (kept, empty) =
    inr (λ x real. omega (arith, kept.books x real, held-IsEmpty w.self.memory x empty real))
cleaned-IsClosed (threw e, w) h = inl refl
cleaned-IsClosed (fault f, w) h = h

-- A neutral call obtains and gives back nothing.
quiet :
    (d : Driver) (c : Call) (t : Trace)
    → is_neutral c ≡ true
    → (x : Resource) → (gained x c (d t c) ≡ 0) × (lost x c ≡ 0)
quiet d c t h x = (gained-neutral c x (d t c) h, lost-neutral c x h)

module _ (d : Driver) where
  -- The destructor of HAL memory returns, and afterwards either the process reports a failed cleanup
  -- or everything that the memory obtained has been given back.
  pub destroy-IsClosed : (w : World AioState) → IsKept w → Ends Closed Never (destroy d w)
  unfolding destroy
  destroy-IsClosed w kept =
      Ends-bind Closed Closed Never _ (cleaned (release d w))
        (cleaned-IsClosed (release d w) (release-Ends d w kept))
        λ u v closed.
          Ends-bind Closed Closed Never _ _
            (Ends-if Closed Never v.self.memory.device_set
              (cleanup (sdk d (reset_device v.self.memory.device))) (pure tt) v
              (λ set.
                neutral-IsClosed d (reset_device v.self.memory.device) v
                  (quiet d (reset_device v.self.memory.device) v.trace refl) closed)
              (λ unset. closed))
            λ u' y closed'.
              Ends-if Closed Never v.self.memory.initialized (cleanup (sdk d acl_finalize))
                (pure tt) y
                (λ set.
                  neutral-IsClosed d acl_finalize y (quiet d acl_finalize y.trace refl) closed')
                (λ unset. closed')

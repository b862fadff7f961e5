-- ===== src/Aio/Memory/Allocate.antt =====
-- Allocation of HAL memory: the books are kept on every way out.
use ascend_hal_sharing_probe.Prelude.{
  ℕ, ◌+◌, ◌<◌, ◌≡◌, refl, true, false, ◌||◌, ◌^◌, inl, inr, arith, ◌==◌, ltb, lt→ltb, is_zero, lcm,
  size_mod, Bool-cases,
}
use ascend_hal_sharing_probe.Effects.{
  Call, Driver, PageType, Reply, Trace, World, MemProp, address_reserve, get_granularity, pure,
  raise,
}
use ascend_hal_sharing_probe.Effects.Ledger.{
  Resource, address, memory, mapping, IsReal, gained, lost,
}
use ascend_hal_sharing_probe.HalMemory.{address_alignment, host_memory_prop}
use ascend_hal_sharing_probe.DataStrategy.Accounts.{held}
use ascend_hal_sharing_probe.Effects.Ledger.{is_neutral, gained-neutral, lost-neutral}
use ascend_hal_sharing_probe.Aio.{HostMemory, AioState, sdk, failed_call}
use ascend_hal_sharing_probe.Effects.Outcomes.{Ends, Ends-bind, Ends-if, after}
use ascend_hal_sharing_probe.Aio.Outcomes.{sdk-Ends}
use ascend_hal_sharing_probe.Aio.Memory.{
  update, allocate, reserve_part, create_part, map_part, stride_for, null_reservation,
  invalid_granularity,
}
use ascend_hal_sharing_probe.Aio.Memory.Books.{mapping_of, IsKept, changed, changed-IsKept, IsEmpty}

-- What the driver's documentation promises: the recommended granularity has a common multiple with
-- the address alignment that `size_t` holds, and a creation that fails gives no handle.
pub record IsPlain (d : Driver) : Type 0 where
  pub small :
      (t : Trace) (prop : MemProp)
      → lcm address_alignment (d t (get_granularity prop)).out < size_mod
  pub no_handle :
      (t : Trace) (size : ℕ) (prop : MemProp)
      → is_zero (d t (Call.mem_create size prop)).ret ≡ false
      → (d t (Call.mem_create size prop)).out ≡ 0

module _ (d : Driver) (plain : IsPlain d) where
  abbrev Kept : (HostMemory → Type 0) → Unit {0} → World AioState → Type 0
  Kept P u w = IsKept w × P w.self.memory

  abbrev IsBare : HostMemory → Type 0
  IsBare m = (m.mapped ≡ false) × (m.handle ≡ 0)

  neutral-IsKept :
      (c : Call) (w : World AioState) → is_neutral c ≡ true → IsKept w → IsKept (after d c w)
  neutral-IsKept c w h kept =
      changed-IsKept d c (λ m. m) w kept kept.from_hal
        (λ x real. omega (arith, gained-neutral c x (d w.trace c) h, lost-neutral c x h))

  reserve-even :
      (m : HostMemory) (stride : ℕ) (r : Reply) (x : Resource)
      → IsReal x
      → IsEmpty m
      → held x (mapping_of (record m { addr = r.out })) + lost x (address_reserve stride)
        ≡ held x (mapping_of m) + gained x (address_reserve stride) r
  reserve-even m stride r (address a) real (unmapped, released, freed) = ground arith
  reserve-even m stride r (memory a) real (unmapped, released, freed) = ground arith
  reserve-even m stride r (mapping a) real (unmapped, released, freed) = ground arith

  reserve_part-Ends :
      (stride : ℕ) (w : World AioState)
      → IsKept w
      → IsEmpty w.self.memory
      → Ends (Kept IsBare) IsKept (reserve_part d stride w)
  reserve_part-Ends stride w kept (unmapped, released, freed) =
      let c = address_reserve stride in
      let r = d w.trace c in
      let v = changed d c (λ m. record m { addr = r.out }) w in
      let kept' : IsKept v =
        changed-IsKept d c (λ m. record m { addr = r.out }) w kept kept.from_hal
          (λ x real. reserve-even w.self.memory stride r x real (unmapped, released, freed)) in
      Ends-if (Kept IsBare) IsKept (is_zero r.ret) _ (raise failed_call) v
        (λ z.
          Ends-if (Kept IsBare) IsKept (r.out == 0) (raise null_reservation) (pure tt) v
            (λ null. kept') (λ given. (kept', (unmapped, released))))
        (λ z. kept')

  create-even :
      (m : HostMemory) (stride : ℕ) (page : PageType) (r : Reply) (x : Resource)
      → IsReal x
      → IsBare m
      → (is_zero r.ret ≡ false → r.out ≡ 0)
      → held x (mapping_of (record m { handle = r.out }))
          + lost x (Call.mem_create stride (host_memory_prop page))
        ≡ held x (mapping_of m) + gained x (Call.mem_create stride (host_memory_prop page)) r
  create-even m stride page r (address a) real (unmapped, released) none_given = ground arith
  create-even m stride page r (memory a) real (unmapped, released) none_given =
      elim (Bool-cases (is_zero r.ret)) [
        | inl z ↦ ground (arith, z)
        | inr z ↦ ground (arith, z, none_given z)
      ]
  create-even m stride page r (mapping a) real (unmapped, released) none_given = ground arith

  abbrev IsUnmapped : HostMemory → Type 0
  IsUnmapped m = m.mapped ≡ false

  create_part-Ends :
      (stride : ℕ) (page : PageType) (w : World AioState)
      → IsKept w
      → IsBare w.self.memory
      → Ends (Kept IsUnmapped) IsKept (create_part d stride page w)
  create_part-Ends stride page w kept (unmapped, released) =
      let c = Call.mem_create stride (host_memory_prop page) in
      let r = d w.trace c in
      let v = changed d c (λ m. record m { handle = r.out }) w in
      let kept' : IsKept v =
        changed-IsKept d c (λ m. record m { handle = r.out }) w kept kept.from_hal
          (λ x real.
            create-even w.self.memory stride page r x real (unmapped, released)
              (plain.no_handle w.trace stride (host_memory_prop page))) in
      Ends-if (Kept IsUnmapped) IsKept (is_zero r.ret) (pure tt) (raise failed_call) v
        (λ z. (kept', unmapped)) (λ z. kept')

  map-even :
      (m : HostMemory) (stride : ℕ) (r : Reply) (x : Resource)
      → IsReal x
      → m.mapped ≡ false
      → is_zero r.ret ≡ true
      → held x (mapping_of (record m { mapped = true }))
          + lost x (Call.mem_map m.addr stride m.handle)
        ≡ held x (mapping_of m) + gained x (Call.mem_map m.addr stride m.handle) r
  map-even m stride r (address a) real unmapped z = ground arith
  map-even m stride r (memory a) real unmapped z = ground arith
  map-even m stride r (mapping a) real unmapped z = ground (arith, z, unmapped)

  map-failed :
      (m : HostMemory) (stride : ℕ) (r : Reply) (x : Resource)
      → is_zero r.ret ≡ false
      → held x (mapping_of m) + lost x (Call.mem_map m.addr stride m.handle)
        ≡ held x (mapping_of m) + gained x (Call.mem_map m.addr stride m.handle) r
  map-failed m stride r (address a) z = refl
  map-failed m stride r (memory a) z = refl
  map-failed m stride r (mapping a) z = ground (arith, z)

  map_part-Ends :
      (stride : ℕ) (w : World AioState)
      → IsKept w
      → IsUnmapped w.self.memory
      → Ends (λ u v. IsKept v) IsKept (map_part d stride w)
  map_part-Ends stride w kept unmapped =
      let m = w.self.memory in
      let c = Call.mem_map m.addr stride m.handle in
      let f = λ (m : HostMemory). record m { mapped = true } in
      let r = d w.trace c in
      Ends-bind (λ n v. (is_zero r.ret ≡ true) × (v ≡ after d c w)) (λ u v. IsKept v) IsKept
        (λ n. update f) (sdk d c w)
        (sdk-Ends (λ n v. (is_zero r.ret ≡ true) × (v ≡ after d c w)) IsKept d c w (λ z. (z, refl))
          (λ z.
            changed-IsKept d c (λ m. m) w kept kept.from_hal (λ x real. map-failed m stride r x z)))
        (λ n v (z, here). rw here (
          changed-IsKept d c f w kept kept.from_hal
            (λ x real. map-even m stride r x real unmapped z)))

  stride_for-Ends :
      (bytes granularity : ℕ) (w : World AioState)
      → lcm address_alignment granularity < size_mod
      → IsKept w
      → IsEmpty w.self.memory
      → Ends (λ stride. Kept IsEmpty tt) IsKept (stride_for d bytes granularity w)
  unfolding stride_for
  stride_for-Ends bytes granularity w small kept empty =
      Ends-if (λ stride. Kept IsEmpty tt) IsKept (granularity == 0 || ltb (2 ^ 40) granularity)
        (raise invalid_granularity) _ w (λ bad. kept)
        (λ good. rw (lt→ltb (lcm address_alignment granularity) size_mod small) (kept, empty))

  -- With such a driver, an allocation from empty memory keeps the books, whether it returns or throws at any of its
  -- calls: what the memory holds is what was obtained and not given back.
  pub allocate-IsKept :
      (bytes : ℕ) (page : PageType) (w : World AioState)
      → IsKept w
      → IsEmpty w.self.memory
      → Ends (λ u v. IsKept v) IsKept (allocate d bytes page w)
  unfolding allocate
  allocate-IsKept bytes page w kept empty =
      let c = get_granularity (host_memory_prop page) in
      let v = after d c w in
      let kept' = neutral-IsKept c w refl kept in
      Ends-bind (λ n y. (n ≡ (d w.trace c).out) × (y ≡ v)) (λ u y. IsKept y) IsKept _ (sdk d c w)
        (sdk-Ends (λ n y. (n ≡ (d w.trace c).out) × (y ≡ v)) IsKept d c w (λ z. (refl, refl))
          (λ z. kept'))
        λ n y (value, here).
          rw (value, here)
            (Ends-bind (λ stride. Kept IsEmpty tt) (λ u y. IsKept y) IsKept _
              (stride_for d bytes (d w.trace c).out v)
              (stride_for-Ends bytes (d w.trace c).out v
                (plain.small w.trace (host_memory_prop page)) kept' empty)
              (λ stride v1 (kept1, empty1).
                Ends-bind (Kept IsBare) (λ u y. IsKept y) IsKept _ (reserve_part d stride v1)
                  (reserve_part-Ends stride v1 kept1 empty1)
                  (λ u v2 (kept2, bare).
                    Ends-bind (Kept IsUnmapped) (λ u y. IsKept y) IsKept _
                      (create_part d stride page v2) (create_part-Ends stride page v2 kept2 bare)
                      (λ u v3 (kept3, unmapped). map_part-Ends stride v3 kept3 unmapped))))

-- ===== src/Aio/Memory.antt =====
-- `HostMemory` of cache2_hal_aio.cc: the buffer, and how it is obtained and given back.
use ascend_hal_sharing_probe.Prelude.{
  ℕ, ◌+◌, ◌^◌, ℤ, Bool, true, false, ◌||◌, [], ◌∷◌, ltb, ◌==◌, is_zero, if◌then◌else◌, lcm,
  size_mod,
}
use ascend_hal_sharing_probe.Status.{plain}
use ascend_hal_sharing_probe.Effects.{
  PageType, normal, huge, Call, Driver, Exception, runtime_error, Outcome, ok, threw, fault,
  lcm_overflow, World, get_granularity, address_reserve, address_free, acl_init, acl_finalize,
  set_device, reset_device, free, pure, raise, crash, gets, modify, call, ◌>>=◌, ◌>>◌,
}
use ascend_hal_sharing_probe.HalMemory.{address_alignment, host_memory_prop}
use ascend_hal_sharing_probe.DataStrategy.{round_up}
use ascend_hal_sharing_probe.Aio.{HostMemory, AioState, Step, sdk, cleanup, failed_call}
pub mod Books
pub mod Lifetime
pub mod Allocate

abbrev pub update : (HostMemory → HostMemory) → Step (Unit {0})
update f = modify (λ s. record s { memory = f s.memory })

abbrev pub memory_of : Step HostMemory
memory_of = gets (λ s. s.memory)

abbrev pub invalid_granularity : Exception
invalid_granularity = runtime_error (plain "invalid allocation granularity")

abbrev pub null_reservation : Exception
null_reservation = runtime_error (plain "null HAL reservation")

module _ (d : Driver) where
  abbrev pub unmap_part : Step (Unit {0})
  unmap_part = do
    m ← memory_of
    if m.mapped
        then (do n ← sdk d (Call.mem_unmap m.addr); update (λ m. record m { mapped = false }))
        else pure tt

  abbrev pub release_part : Step (Unit {0})
  release_part = do
    m ← memory_of
    if m.handle == 0
        then pure tt
        else (do n ← sdk d (Call.mem_release m.handle); update (λ m. record m { handle = 0 }))

  abbrev pub free_part : Step (Unit {0})
  free_part = do
    m ← memory_of
    if m.addr == 0
        then pure tt
        else (do n ← sdk d (address_free m.addr); update (λ m. record m { addr = 0 }))

  abbrev pub release_hal : Step (Unit {0})
  release_hal = unmap_part >> (release_part >> free_part)

  unfoldable pub release : Step (Unit {0})
  release = do
    m ← memory_of
    if m.malloc_base == 0 then release_hal else (do
      r ← call d (free m.malloc_base)
      update (λ m. record m { malloc_base = 0; addr = 0 }))

  -- The destructor.
  unfoldable pub destroy : Step (Unit {0})
  destroy = do
    cleanup release
    m ← memory_of
    if m.device_set then cleanup (sdk d (reset_device m.device)) else pure tt
    if m.initialized then cleanup (sdk d acl_finalize) else pure tt

  -- A call that writes its result through a pointer into the object, and then the test of its code.
  abbrev pub reserve_part : ℕ → Step (Unit {0})
  reserve_part stride = do
    r ← call d (address_reserve stride)
    update (λ m. record m { addr = r.out })
    if is_zero r.ret
        then (if r.out == 0 then raise null_reservation else pure tt)
        else raise failed_call

  abbrev pub create_part : ℕ → PageType → Step (Unit {0})
  create_part stride page = do
    r ← call d (Call.mem_create stride (host_memory_prop page))
    update (λ m. record m { handle = r.out })
    if is_zero r.ret then pure tt else raise failed_call

  abbrev pub map_part : ℕ → Step (Unit {0})
  map_part stride = do
    m ← memory_of
    n ← sdk d (Call.mem_map m.addr stride m.handle)
    update (λ m. record m { mapped = true })

  -- The stride for a recommended granularity.
  unfoldable pub stride_for : ℕ → ℕ → Step ℕ
  stride_for bytes granularity =
      if granularity == 0 || ltb (2 ^ 40) granularity
      then raise invalid_granularity
      else if ltb (lcm address_alignment granularity) size_mod
      then pure (round_up bytes (lcm address_alignment granularity))
      else crash lcm_overflow

  unfoldable pub allocate : ℕ → PageType → Step (Unit {0})
  allocate bytes page = do
    granularity ← sdk d (get_granularity (host_memory_prop page))
    stride ← stride_for bytes granularity
    reserve_part stride
    create_part stride page
    map_part stride

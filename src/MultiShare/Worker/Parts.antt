-- ===== src/MultiShare/Worker/Parts.antt =====
-- The tests of a worker of multi_share and its whole run.
use ascend_hal_sharing_probe.Prelude.{
  length, List, ℕ, zero, suc, ◌+◌, ◌*◌, ◌/◌, ℤ, pos, negsuc, Bool, true, false, not, ◌||◌, ◌==◌,
  is_zero, if◌then◌else◌,
}
use ascend_hal_sharing_probe.Effects.{
  Call, Driver, Exception, Trace, CopyKind, host_to_device, device_to_host, device_to_device,
  copy_async, sync_stream, set_bytes, set_device_bytes, resize_vector, create_file, unlink_file,
  close_file, truncate_file, io_setup, io_destroy, acl_finalize, reset_device, get_attribute,
  address_free, close_socket, MemProp, pure, raise, gets, modify, call, ◌>>=◌, ◌>>◌,
}
use ascend_hal_sharing_probe.Effects.Meets.{attempt, scoped}
use ascend_hal_sharing_probe.Common.{check, check_reply, cleanup}
use ascend_hal_sharing_probe.Common.Acl.{obtain_device, obtain_stream, leave_acl}
use ascend_hal_sharing_probe.Common.AioOperation.{IoEvent, aio_operation}
use ascend_hal_sharing_probe.Common.Pattern.{Memory, fill, verify}
use ascend_hal_sharing_probe.MultiShare.Options.{MultiOptions, slice}
use ascend_hal_sharing_probe.MultiShare.Barriers.{read_rounds}
use ascend_hal_sharing_probe.MultiShare.Cpu.{Cpus, bind_cpu}
use ascend_hal_sharing_probe.MultiShare.Worker.{
  MultiShare, Step, acl, note, get_ctx, set_ctx, failure, count, barrier, set_up, reserve_base,
  create_own, query_own, export_own, map_from, unmap_from, slice_of,
}

-- The seed of an owner's pattern in a round.
abbrev pub seed_of : MultiOptions → ℕ → ℕ → ℕ
seed_of o round owner = 300 + round * length o.devices + owner

-- The own block comes from the host, and the imported ones from the device.
abbrev pub read_kind : ℕ → ℕ → CopyKind
read_kind rank owner = if owner == rank then host_to_device else device_to_device

module _ (d : Driver) (mem : Memory) (rounds : ℕ) (events : Trace → List IoEvent)
    (properties : Trace → MemProp) where
  -- `buffered_aio`: the shared memory is read from a file and written to it.
  module _ (ptr bytes seed : ℕ) where
    abbrev pub operate : ℕ → ℕ → Bool → Step (Unit {0})
    operate fd buffer write = do
      ctx ← gets get_ctx
      aio_operation d events set_ctx note ctx fd buffer bytes write

    unfoldable pub file_case : ℕ → ℕ → Step (Unit {0})
    file_case control fd = do
      r ← call d (io_setup 8)
      modify (set_ctx r.out)
      n ← check_reply d r
      operate fd control true
      r ← call d (set_bytes ptr 0 bytes)
      operate fd ptr false
      verify mem ptr bytes seed
      n ← check d (truncate_file fd)
      operate fd ptr true
      r ← call d (set_bytes control 0 bytes)
      operate fd control false
      verify mem control bytes seed

    -- The clause for every exception closes what is open, and throws it again.
    abbrev pub file_failed : ℕ → Exception → Step (Unit {0})
    file_failed fd e = do
      ctx ← gets get_ctx
      if ctx == 0 then pure tt else (cleanup d note (io_destroy ctx) >> modify (set_ctx 0))
      cleanup d note (close_file fd)
      raise e

    -- The variable of the context ends here.
    abbrev pub file_passed : ℕ → Step (Unit {0})
    file_passed fd = do
      ctx ← gets get_ctx
      cleanup d note (io_destroy ctx) >> modify (set_ctx 0)
      cleanup d note (close_file fd)

    abbrev pub with_file : ℕ → ℤ → Step (Unit {0})
    with_file control (pos fd) = do
      r ← call d (unlink_file fd)
      if is_zero r.ret
          then (attempt (file_case control fd) (file_failed fd) >> file_passed fd)
          else (do r ← call d (close_file fd); raise failure)
    with_file control (negsuc n) = raise failure

    unfoldable pub buffered_aio : Step (Unit {0})
    buffered_aio = do
      control ← check d (resize_vector (bytes / 8))
      fill d control bytes seed
      r ← call d (create_file false)
      with_file control r.ret

  module _ (cpus : Cpus) (o : MultiOptions) (rank device node fd : ℕ) where
    -- A block copied and waited for; the address at which the resources have their memory is given.
    abbrev pub copy_block : CopyKind → ℕ → ℕ → Step (Unit {0})
    copy_block kind to from = do
      a ← gets (λ s. s.acl)
      n ← check d (copy_async kind to from o.bytes a.stream)
      n ← check d (sync_stream a.stream)
      pure tt

    abbrev pub read_block : ℕ → ℕ → ℕ → Step (Unit {0})
    read_block staging round owner = do
      from ← slice_of d mem rounds events properties o rank device node fd owner
      a ← gets (λ s. s.acl)
      n ← check d (set_device_bytes a.device 0 o.bytes)
      copy_block (read_kind rank owner) a.device from
      r ← call d (set_bytes staging 0 o.bytes)
      copy_block device_to_host staging a.device
      verify mem staging o.bytes (seed_of o round owner)

    unfoldable pub read_from : ℕ → ℕ → ℕ → ℕ → Step (Unit {0})
    read_from staging round zero owner = pure tt
    read_from staging round (suc left) owner = do
      read_block staging round owner
      read_from staging round left (suc owner)

    abbrev pub meet : Step (Unit {0})
    meet = barrier d mem rounds events properties o rank device node fd

    abbrev pub read_round : ℕ → ℕ → ℕ → Step (Unit {0})
    read_round own staging round = do
      fill d own o.bytes (seed_of o round rank)
      verify mem own o.bytes (seed_of o round rank)
      meet
      read_from staging round (count d mem rounds events properties o rank device node fd) 0
      verify mem own o.bytes (seed_of o round rank)
      meet

    unfoldable pub rounds_from : ℕ → ℕ → ℕ → ℕ → Step (Unit {0})
    rounds_from own staging zero round = pure tt
    rounds_from own staging (suc left) round = do
      read_round own staging round
      rounds_from own staging left (suc round)

    unfoldable pub hbm_part : ℕ → Step (Unit {0})
    hbm_part own = do
      n ← obtain_device d acl o.bytes
      a ← gets (λ s. s.acl)
      at ← check d (get_attribute a.device)
      if at == device then pure tt else raise failure
      n ← obtain_stream d acl
      staging ← check d (resize_vector (o.bytes / 8))
      rounds_from own staging read_rounds 0

    abbrev pub map_all : Step (Unit {0})
    map_all = do
      reserve_base d mem rounds events properties o rank device node fd
      n ← create_own d mem rounds events properties o rank device node fd
      query_own d mem rounds events properties o rank device node fd
      export_own d mem rounds events properties o rank device node fd
      map_from d mem rounds events properties o rank device node fd
          (count d mem rounds events properties o rank device node fd) 0

    abbrev pub own_tests : ℕ → Step (Unit {0})
    own_tests own = do
      fill d own o.bytes (100 + rank)
      verify mem own o.bytes (100 + rank)
      buffered_aio own o.bytes (200 + rank)

    unfoldable pub share : Step (Unit {0})
    share = do
      bind_cpu d cpus failure node
      set_up d mem rounds events properties o rank device node fd
      map_all
      meet
      own ← slice_of d mem rounds events properties o rank device node fd rank
      own_tests own
      meet
      scoped (hbm_part own) (leave_acl d note acl)
      meet
      unmap_from d mem rounds events properties o rank device node fd
          (count d mem rounds events properties o rank device node fd) 0
      meet

    abbrev pub attempted : Step (Unit {0})
    attempted = attempt share (λ e. modify (λ s. record s { result = true }))

    -- The loop over what is still mapped and held, over the values that the variables have.
    unfoldable pub release_from : MultiShare → ℕ → ℕ → Step (Unit {0})
    release_from s zero i = pure tt
    release_from s (suc left) i = do
      if s.mapped i then cleanup d note (Call.mem_unmap (slice o s.base i)) else pure tt
      if not (s.handles i == 0) then cleanup d note (Call.mem_release (s.handles i)) else pure tt
      release_from s left (suc i)

    unfoldable pub finish : Step Bool
    finish = do
      s ← gets (λ s. s)
      release_from s (count d mem rounds events properties o rank device node fd) 0
      if not (s.base == 0) then cleanup d note (address_free s.base) else pure tt
      if s.device_set then cleanup d note (reset_device (pos device)) else pure tt
      if s.acl_init then cleanup d note acl_finalize else pure tt
      r ← call d (close_socket fd)
      gets (λ s. s.result || s.cleanup_failed)

    unfoldable pub worker : Step Bool
    worker = attempted >> finish

-- ===== src/MultiShare/Worker.antt =====
-- `worker` of multi_share.cpp: a range of addresses with a slice for each owner's memory, and the tests
-- on it between the barriers.
pub mod Parts
pub mod Sums
pub mod Slices
pub mod Stages
pub mod Mapping
pub mod Tests
pub mod Copies
pub mod Owing
pub mod Balance
use ascend_hal_sharing_probe.Prelude.{
  ℕ, zero, suc, ◌+◌, ◌*◌, ◌/◌, ◌%◌, ℤ, pos, negsuc, Bool, true, false, not, ◌&&◌, ◌||◌, Option,
  none, some, List, [], ◌∷◌, ◌==◌, is_zero, if◌then◌else◌, length,
}
use ascend_hal_sharing_probe.Status.{plain}
use ascend_hal_sharing_probe.Effects.{
  huge, host_numa_side, host_side, dev_side, Side, ddr, MemProp, Call, Driver, Exception,
  runtime_error, Trace, M, CopyKind, host_to_device, device_to_host, device_to_device, copy_async,
  sync_stream, set_bytes, set_device_bytes, resize_vector, create_file, unlink_file, close_file,
  truncate_file, io_setup, io_destroy, acl_init as init_call, acl_finalize, set_device,
  reset_device, get_context, get_device, get_attribute, get_affinity, set_affinity, find_query,
  query_properties, export_handle, disable_whitelist, import_handle, address_reserve, address_free,
  close_socket, pure, raise, gets, modify, call, ◌>>=◌, ◌>>◌,
}
use ascend_hal_sharing_probe.Effects.Meets.{attempt, scoped}
use ascend_hal_sharing_probe.Common.{check, check_reply, cleanup}
use ascend_hal_sharing_probe.Common.Acl.{
  AclResources, acl_resources, AclPlace, obtain_device, obtain_stream, leave_acl,
}
use ascend_hal_sharing_probe.Common.AioOperation.{IoEvent, aio_operation}
use ascend_hal_sharing_probe.Common.Pattern.{Memory, fill, verify}
use ascend_hal_sharing_probe.Cli.{send_word, receive_word, await_zero}
use ascend_hal_sharing_probe.MultiShare.Options.{MultiOptions, va_alignment, reserve_bytes, slice}
use ascend_hal_sharing_probe.MultiShare.Barriers.{read_rounds}

-- The variables of `worker`. The two vectors have an element for each device, and no index is beyond.
pub record MultiShare : Type 0 where
  pub acl_init : Bool
  pub device_set : Bool
  pub base : ℕ
  pub handles : ℕ → ℕ
  pub mapped : ℕ → Bool
  pub result : Bool
  pub cleanup_failed : Bool
  pub acl : AclResources
  pub ctx : ℕ

abbrev pub multi_share : MultiShare
multi_share = record {
  acl_init = false;
  device_set = false;
  base = 0;
  handles = λ i. 0;
  mapped = λ i. false;
  result = false;
  cleanup_failed = false;
  acl = acl_resources;
  ctx = 0;
}

abbrev pub Step : Type 0 → Type 0
Step A = M MultiShare A

abbrev pub acl : AclPlace MultiShare
acl = record { get = λ s. s.acl; put = λ a s. record s { acl = a } }

abbrev pub note : MultiShare → MultiShare
note s = record s { cleanup_failed = true }

abbrev pub get_ctx : MultiShare → ℕ
get_ctx s = s.ctx

abbrev pub set_ctx : ℕ → MultiShare → MultiShare
set_ctx c s = record s { ctx = c }

-- A vector with one element written.
abbrev pub written : {A : Type 0} → ℕ → A → (ℕ → A) → ℕ → A
written i v f j = if j == i then v else f j

abbrev pub set_handle : ℕ → ℕ → MultiShare → MultiShare
set_handle i h s = record s { handles = written i h s.handles }

abbrev pub set_mapped : ℕ → Bool → MultiShare → MultiShare
set_mapped i b s = record s { mapped = written i b s.mapped }

abbrev pub failure : Exception
failure = runtime_error (plain "worker")

abbrev pub numa_prop : ℕ → MemProp
numa_prop node = record { side = host_numa_side; devid = node; pg_type = huge; mem_type = ddr }

-- The reported side and node are the requested ones.
abbrev pub is_numa : Side → Bool
is_numa host_numa_side = true
is_numa _ = false

-- `rounds` bounds the interruptions of a call, `mem` is what the memory holds, and `events` is what the
-- kernel has written; `properties` is what the driver has written of an allocation.
module _ (d : Driver) (mem : Memory) (rounds : ℕ) (events : Trace → List IoEvent)
    (properties : Trace → MemProp) where
  module _ (o : MultiOptions) (rank device node fd : ℕ) where
    abbrev pub count : ℕ
    count = length o.devices

    abbrev pub barrier : Step (Unit {0})
    barrier = send_word d rounds fd 0 >> await_zero d rounds fd

    -- The device's context, as it is after aclrtSetDevice.
    abbrev pub set_up : Step (Unit {0})
    set_up = do
      n ← check d init_call
      modify (λ s. record s { acl_init = true })
      n ← check d (set_device (pos device))
      modify (λ s. record s { device_set = true })
      current ← check d get_context
      if current == 0 then raise failure else pure tt
      current_device ← check d get_device
      if current_device == device then pure tt else raise failure

    abbrev pub reserve_base : Step (Unit {0})
    reserve_base = do
      r ← call d (address_reserve (reserve_bytes o))
      modify (λ s. record s { base = r.out })
      n ← check_reply d r
      base ← gets (λ s. s.base)
      if base == 0 || not (base % va_alignment == 0) then raise failure else pure tt

    abbrev pub create_own : Step ℕ
    create_own = do
      r ← call d (Call.mem_create o.bytes (numa_prop node))
      modify (set_handle rank r.out)
      check_reply d r

    abbrev pub is_as_requested : MemProp → Bool
    is_as_requested p = is_numa p.side && p.devid == node

    -- The query, where the driver has it.
    abbrev pub query_own : Step (Unit {0})
    query_own = do
      query ← call d find_query
      h ← gets (λ s. s.handles rank)
      if query.out == 0 then pure tt else (do
        n ← check d (query_properties h)
        λ w. (if is_as_requested (properties w.trace) then pure tt else raise failure) w)

    abbrev pub export_own : Step (Unit {0})
    export_own = do
      h ← gets (λ s. s.handles rank)
      token ← check d (export_handle h)
      n ← check d (disable_whitelist token)
      send_word d rounds fd token

    abbrev pub import_peer : ℕ → ℕ → Step (Unit {0})
    import_peer owner token = if owner == rank then pure tt else (do
      r ← call d (import_handle token (pos device))
      modify (set_handle owner r.out)
      n ← check_reply d r
      pure tt)

    abbrev pub slice_of : ℕ → Step ℕ
    slice_of owner = gets (λ s. slice o s.base owner)

    abbrev pub map_slice : ℕ → Step (Unit {0})
    map_slice owner = do
      va ← slice_of owner
      h ← gets (λ s. s.handles owner)
      n ← check d (Call.mem_map va o.bytes h)
      modify (set_mapped owner true)

    -- The loop over the owners: how many are left, from one on.
    unfoldable pub map_from : ℕ → ℕ → Step (Unit {0})
    map_from zero owner = pure tt
    map_from (suc left) owner = do
      token ← receive_word d rounds fd
      import_peer owner token
      map_slice owner
      map_from left (suc owner)

    abbrev pub unmap_slice : ℕ → Step (Unit {0})
    unmap_slice i = do va ← slice_of i; n ← check d (Call.mem_unmap va); modify (set_mapped i false)

    -- Unmap everywhere before any owner releases its allocation.
    unfoldable pub unmap_from : ℕ → ℕ → Step (Unit {0})
    unmap_from zero i = pure tt
    unmap_from (suc left) i = do unmap_slice i; unmap_from left (suc i)

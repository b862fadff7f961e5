-- ===== src/DeviceShare.antt =====
-- device_share.cpp: host memory shared between two processes, and copied to the device's memory and
-- back by each of them.
pub mod Stages
pub mod Balance
use ascend_hal_sharing_probe.Prelude.{
  ℕ, ◌≡◌, ◌/◌, pos, Bool, true, false, not, ◌||◌, List, ◌==◌, if◌then◌else◌,
}
use ascend_hal_sharing_probe.Status.{plain}
use ascend_hal_sharing_probe.Effects.{
  normal, dev_side, hbm as hbm_type, MemProp, Call, Driver, Exception, runtime_error, Outcome, ok,
  threw, fault, World, M, CopyKind, host_to_device, device_to_host, device_to_device, copy,
  open_library, find_open, find_close, close_library, open_tsd, close_tsd, open_device,
  close_device, close_socket, resize_vector, set_bytes, export_handle, disable_whitelist, pure,
  raise, gets, modify, call, ◌>>=◌, ◌>>◌,
}
use ascend_hal_sharing_probe.HalMemory.{host_memory_prop}
use ascend_hal_sharing_probe.Common.{
  Allocation, allocation, Place, check, cleanup, reserve, create, import, map_whole, unmap, release,
  free_address, destroy,
}
use ascend_hal_sharing_probe.Common.Pattern.{Memory, fill, verify}
use ascend_hal_sharing_probe.Cli.{send_word, receive_word, await_zero}

-- The variables of `worker`; the two allocations stand in the try block.
pub record DeviceShare : Type 0 where
  pub mapping : Allocation
  pub hbm : Allocation
  pub library : ℕ
  pub tsd_open : Bool
  pub device_open : Bool
  pub result : Bool
  pub cleanup_failed : Bool

abbrev pub device_share : DeviceShare
device_share = record {
  mapping = allocation;
  hbm = allocation;
  library = 0;
  tsd_open = false;
  device_open = false;
  result = false;
  cleanup_failed = false;
}

abbrev pub Step : Type 0 → Type 0
Step A = M DeviceShare A

abbrev pub mapping : Place DeviceShare
mapping = record { get = λ s. s.mapping; put = λ a s. record s { mapping = a } }

abbrev pub hbm : Place DeviceShare
hbm = record { get = λ s. s.hbm; put = λ a s. record s { hbm = a } }

abbrev pub note : DeviceShare → DeviceShare
note s = record s { cleanup_failed = true }

-- HAL device 0.
abbrev pub device_id : ℕ
device_id = 0

abbrev pub hbm_prop : MemProp
hbm_prop = record { side = dev_side; devid = device_id; pg_type = normal; mem_type = hbm_type }

abbrev pub missing : Exception
missing = runtime_error (plain "missing TsdOpen/TsdClose")

-- `rounds` bounds the interruptions of a call, and `mem` is what the memory holds.
module _ (d : Driver) (mem : Memory) (rounds : ℕ) where
  -- The TSD library and its two functions, and the device.
  abbrev pub set_up : Step (Unit {0})
  set_up = do
    r ← call d open_library
    modify (λ s. record s { library = r.out })
    if r.out == 0 then raise missing else pure tt
    open_tsd_at ← call d find_open
    close_tsd_at ← call d find_close
    if open_tsd_at.out == 0 || close_tsd_at.out == 0 then raise missing else pure tt
    n ← check d (open_tsd device_id)
    modify (λ s. record s { tsd_open = true })
    n ← check d (open_device device_id)
    modify (λ s. record s { device_open = true })

  module _ (importer : Bool) (channel bytes : ℕ) where
    abbrev pub allocate_hbm : Step (Unit {0})
    allocate_hbm = do
      n ← reserve d hbm bytes
      n ← create d hbm bytes hbm_prop
      map_whole d hbm bytes

    abbrev pub mapping_va : Step ℕ
    mapping_va = gets (λ s. s.mapping.addr)

    abbrev pub hbm_va : Step ℕ
    hbm_va = gets (λ s. s.hbm.addr)

    -- The shared buffer by way of the device's memory into the buffer for verification.
    abbrev pub read_shared : CopyKind → ℕ → Step (Unit {0})
    read_shared kind host = do
      to ← hbm_va
      from ← mapping_va
      n ← check d (copy kind to from bytes)
      n ← check d (copy device_to_host host to bytes)
      verify mem host bytes 101

    abbrev pub map_shared : Step (Unit {0})
    map_shared = do
      n ← reserve d mapping bytes
      n ← create d mapping bytes (host_memory_prop normal)
      map_whole d mapping bytes

    abbrev pub export_shared : Step (Unit {0})
    export_shared = do
      h ← gets (λ s. s.mapping.handle)
      token ← check d (export_handle h)
      n ← check d (disable_whitelist token)
      send_word d rounds channel token

    abbrev pub creator_part : ℕ → Step (Unit {0})
    creator_part host = do
      map_shared
      va ← mapping_va
      fill d va bytes 101
      allocate_hbm
      read_shared host_to_device host
      export_shared
      await_zero d rounds channel
      verify mem va bytes 202
      send_word d rounds channel 0
      await_zero d rounds channel

    abbrev pub import_shared : Step (Unit {0})
    import_shared = do
      token ← receive_word d rounds channel
      n ← reserve d mapping bytes
      n ← import d mapping token (pos device_id)
      map_whole d mapping bytes

    -- The new pattern by way of the device's memory into the shared buffer, and back for verification.
    abbrev pub write_shared : ℕ → Step (Unit {0})
    write_shared host = do
      fill d host bytes 202
      at ← hbm_va
      shared ← mapping_va
      n ← check d (copy host_to_device at host bytes)
      n ← check d (copy device_to_device shared at bytes)
      r ← call d (set_bytes host 0 bytes)
      n ← check d (copy device_to_host host shared bytes)
      verify mem host bytes 202

    abbrev pub importer_part : ℕ → Step (Unit {0})
    importer_part host = do
      import_shared
      allocate_hbm
      read_shared device_to_device host
      write_shared host
      send_word d rounds channel 0
      await_zero d rounds channel
      unmap d mapping
      release d mapping
      free_address d mapping
      send_word d rounds channel 0

    unfoldable pub share : Step (Unit {0})
    share = do
      set_up
      host ← check d (resize_vector (bytes / 8))
      if importer then importer_part host else creator_part host

    -- The allocations end with the try block, the later one first; then the catch clause. A blank one,
    -- where the block was left before its declaration, issues no call.
    abbrev pub leave : Step (Unit {0})
    leave = do a ← gets (λ s. s.hbm); b ← gets (λ s. s.mapping); destroy d note a; destroy d note b

    abbrev pub caught :
        Outcome (Unit {0}) × World DeviceShare → Outcome (Unit {0}) × World DeviceShare
    caught (ok a, w) = leave w
    caught (threw e, w) = (leave >> modify (λ s. record s { result = true })) w
    caught (fault f, w) = (fault f, w)

    unfoldable pub finish : Step Bool
    finish = do
      r ← call d (close_socket channel)
      s ← gets (λ s. s)
      if s.device_open then cleanup d note (close_device device_id) else pure tt
      if s.tsd_open then cleanup d note (close_tsd device_id) else pure tt
      if s.library == 0 then pure tt else cleanup d note (close_library s.library)
      gets (λ s. s.result || s.cleanup_failed)

    unfoldable pub worker : Step Bool
    worker = (λ w. caught (share w)) >>= λ u. finish

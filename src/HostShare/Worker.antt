-- ===== src/HostShare/Worker.antt =====
-- `worker` of host_share.cpp, the creator's and the importer's.
use ascend_hal_sharing_probe.Prelude.{ℕ, List, pos, Bool, true, not, ◌||◌, ◌==◌, if◌then◌else◌}
use ascend_hal_sharing_probe.Effects.{
  huge, Driver, Trace, acl_init, acl_finalize, set_device, reset_device, get_host_id, get_attribute,
  export_handle, disable_whitelist, close_socket, pure, raise, gets, modify, call, ◌>>=◌, ◌>>◌,
}
use ascend_hal_sharing_probe.Effects.Meets.{attempt, scoped}
use ascend_hal_sharing_probe.HalMemory.{host_memory_prop}
use ascend_hal_sharing_probe.Common.{
  allocation, check, cleanup, failed_check, reserve, create, import, map_whole, unmap, release,
  free_address, destroy,
}
use ascend_hal_sharing_probe.Common.AioOperation.{IoEvent}
use ascend_hal_sharing_probe.Common.Pattern.{Memory, fill, verify}
use ascend_hal_sharing_probe.Cli.{send_word, receive_word, await_zero}
use ascend_hal_sharing_probe.HostShare.{AioMode, Step, host, note, add_failures, extended}
use ascend_hal_sharing_probe.HostShare.IoTests.{io_tests}

-- `rounds` bounds the interruptions of a call, `mem` is what the memory holds, and `events` is what the
-- kernel has written.
module _ (d : Driver) (mem : Memory) (rounds : ℕ) (events : Trace → List IoEvent) where
  module _ (mode : AioMode) (device : ℕ) (reader : Bool) (channel bytes : ℕ) where
    abbrev pub host_va : Step ℕ
    host_va = gets (λ s. s.host.addr)

    abbrev pub set_up : Step ℕ
    set_up = do
      n ← check d acl_init
      modify (λ s. record s { initialized = true })
      n ← check d (set_device (pos device))
      modify (λ s. record s { device_set = true })
      check d get_host_id

    abbrev pub obtain : ℕ → Step ℕ
    obtain host_id =
        if reader
        then (do
          token ← receive_word d rounds channel
          n ← reserve d host bytes
          import d host token (pos host_id))
        else (do n ← reserve d host bytes; create d host bytes (host_memory_prop huge))

    -- What `inspect_mapping` asks of the driver; the rest of it prints lines of /proc/self/smaps.
    abbrev pub inspect_mapping : ℕ → Step (Unit {0})
    inspect_mapping va = do r ← call d (get_attribute va); pure tt

    abbrev pub tested : ℕ → ℕ → Step (Unit {0})
    tested va seed = do n ← io_tests d mem rounds events mode va bytes seed; modify (add_failures n)

    abbrev pub creator_part : ℕ → Step (Unit {0})
    creator_part va = do
      fill d va bytes 101
      verify mem va bytes 101
      h ← gets (λ s. s.host.handle)
      token ← check d (export_handle h)
      n ← check d (disable_whitelist token)
      send_word d rounds channel token
      await_zero d rounds channel
      verify mem va bytes 202
      tested va 303
      send_word d rounds channel 303
      n ← receive_word d rounds channel
      modify (add_failures n)
      verify mem va bytes 404
      send_word d rounds channel 0
      await_zero d rounds channel

    abbrev pub await_io : Step (Unit {0})
    await_io = do
      n ← receive_word d rounds channel
      if n == 303 then pure tt else raise failed_check

    abbrev pub importer_part : ℕ → Step (Unit {0})
    importer_part va = do
      verify mem va bytes 101
      fill d va bytes 202
      verify mem va bytes 202
      send_word d rounds channel 0
      await_io
      verify mem va bytes 303
      tested va 404
      n ← gets (λ s. s.failures)
      send_word d rounds channel (extended n)
      await_zero d rounds channel
      unmap d host
      release d host
      free_address d host
      send_word d rounds channel 0

    unfoldable pub share : Step (Unit {0})
    share = do
      host_id ← set_up
      n ← obtain host_id
      map_whole d host bytes
      va ← host_va
      inspect_mapping va
      if reader then importer_part va else creator_part va

    -- The end of the scope of the allocation.
    abbrev pub leave_host : Step (Unit {0})
    leave_host = do
      a ← gets (λ s. s.host)
      modify (λ s. record s { host = allocation })
      destroy d note a

    abbrev pub attempted : Step (Unit {0})
    attempted = attempt (scoped share leave_host) (λ e. modify (add_failures 100))

    unfoldable pub finish : Step ℕ
    finish = do
      r ← call d (close_socket channel)
      s ← gets (λ s. s)
      if s.device_set then cleanup d note (reset_device (pos device)) else pure tt
      if s.initialized then cleanup d note acl_finalize else pure tt
      gets (λ s. if not (s.failures == 0) || s.cleanup_failed then 1 else 0)

    unfoldable pub worker : Step ℕ
    worker = attempted >> finish

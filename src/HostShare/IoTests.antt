-- ===== src/HostShare/IoTests.antt =====
-- `io_tests` of host_share.cpp: transfers by the ACL runtime, and on files with O_DIRECT and without.
use ascend_hal_sharing_probe.Prelude.{
  ℕ, zero, suc, List, ℤ, pos, negsuc, Bool, true, false, ◌==◌, is_zero, if◌then◌else◌,
}
use ascend_hal_sharing_probe.Effects.{
  Driver, Exception, Trace, CopyKind, host_to_device, device_to_host, copy_async, record_event,
  query_event, sync_event, sync_stream, set_bytes, clock_now, allocate, free, create_file,
  unlink_file, close_file, sync_file, io_setup, io_destroy, pure, raise, gets, modify, call, ◌>>=◌,
  ◌>>◌,
}
use ascend_hal_sharing_probe.Effects.Meets.{attempt, scoped}
use ascend_hal_sharing_probe.Common.{check, check_reply, cleanup}
use ascend_hal_sharing_probe.Common.Acl.{obtain_device, obtain_stream, obtain_event, leave_acl}
use ascend_hal_sharing_probe.Common.AioOperation.{IoEvent, aio_operation}
use ascend_hal_sharing_probe.Common.Pattern.{Memory, fill, verify}
use ascend_hal_sharing_probe.HostShare.{
  AioMode, Step, acl, note, get_ctx, set_ctx, count_failure, write_seed, unlink_failed, is_skipped,
  without_files,
}

-- `rounds` bounds the interruptions of a call, `mem` is what the memory holds, and `events` is what the
-- kernel has written.
module _ (d : Driver) (mem : Memory) (rounds : ℕ) (events : Trace → List IoEvent) where
  module _ (mode : AioMode) (ptr bytes seed : ℕ) where
    abbrev pub stream_copy : CopyKind → Step ℕ
    stream_copy host_to_device = do
      a ← gets (λ s. s.acl)
      check d (copy_async host_to_device a.device ptr bytes a.stream)
    stream_copy kind = do
      a ← gets (λ s. s.acl)
      check d (copy_async kind ptr a.device bytes a.stream)

    abbrev pub sync : Step ℕ
    sync = do a ← gets (λ s. s.acl); check d (sync_stream a.stream)

    -- The loop over the backlog of copies.
    unfoldable pub copies : ℕ → CopyKind → Step (Unit {0})
    copies zero kind = pure tt
    copies (suc n) kind = do m ← stream_copy kind; copies n kind

    abbrev pub backlog : CopyKind → Step (Unit {0})
    backlog kind = do
      begin ← call d clock_now
      copies 32 kind
      submitted ← call d clock_now
      a ← gets (λ s. s.acl)
      n ← check d (record_event a.event a.stream)
      status ← check d (query_event a.event)
      n ← check d (sync_event a.event)
      end ← call d clock_now
      pure tt

    unfoldable pub acl_case : Step (Unit {0})
    acl_case = do
      n ← obtain_device d acl bytes
      n ← obtain_stream d acl
      n ← obtain_event d acl
      fill d ptr bytes seed
      n ← stream_copy host_to_device
      n ← sync
      r ← call d (set_bytes ptr 0 bytes)
      n ← stream_copy device_to_host
      n ← sync
      verify mem ptr bytes seed
      backlog host_to_device
      backlog device_to_host
      verify mem ptr bytes seed

    -- The catch clause, which may throw itself.
    abbrev pub acl_failed : Exception → Step (Unit {0})
    acl_failed e = do
      modify count_failure
      a ← gets (λ s. s.acl)
      if a.stream == 0 then pure tt else (do n ← sync; pure tt)

    abbrev pub operate : ℕ → ℕ → Bool → Step (Unit {0})
    operate fd buffer write = do
      ctx ← gets get_ctx
      aio_operation d events set_ctx note ctx fd buffer bytes write

    module _ (control fd : ℕ) where
      -- One operation on the shared memory.
      abbrev pub operation_case : Bool → Step (Unit {0})
      operation_case true = do
        operate fd ptr true
        n ← check d (sync_file fd)
        r ← call d (set_bytes control 0 bytes)
        operate fd control false
        verify mem control bytes (write_seed seed)
      operation_case false = do operate fd ptr false; verify mem ptr bytes seed

      -- A failed case is counted; the operations go on while there is a context.
      abbrev pub operation_failed : Exception → Step (Unit {0})
      operation_failed e = do
        modify count_failure
        ctx ← gets get_ctx
        if ctx == 0 then raise e else pure tt

      unfoldable pub operation_tested : Bool → Step (Unit {0})
      operation_tested write = do
        fill d ptr bytes (if write then write_seed seed else 0)
        attempt (operation_case write) operation_failed

      abbrev pub set_up_context : Step ℕ
      set_up_context = do r ← call d (io_setup 8); modify (set_ctx r.out); check_reply d r

      unfoldable pub file_case : Step (Unit {0})
      file_case = do
        n ← set_up_context
        operate fd control true
        n ← check d (sync_file fd)
        r ← call d (set_bytes control 0 bytes)
        operate fd control false
        verify mem control bytes seed
        operation_tested false
        operation_tested true

      -- The context, where there is one, and the file; the variable of the context ends here.
      abbrev pub end_context : Step (Unit {0})
      end_context = do
        ctx ← gets get_ctx
        if ctx == 0 then pure tt else (cleanup d note (io_destroy ctx) >> modify (set_ctx 0))

      unfoldable pub opened_case : Step (Unit {0})
      opened_case = do
        attempt file_case (λ e. modify count_failure)
        end_context
        cleanup d note (close_file fd)

      abbrev pub abandon : Step (Unit {0})
      abandon = do r ← call d (close_file fd); r ← call d (free control); raise unlink_failed

    -- The body of the loop over `direct`, from the file's creation on; a negative descriptor is none.
    abbrev pub with_file : ℕ → ℤ → Step (Unit {0})
    with_file control (pos fd) = do
      r ← call d (unlink_file fd)
      if is_zero r.ret then opened_case control fd else abandon control fd
    with_file control (negsuc n) = modify count_failure

    unfoldable pub file_turn : ℕ → Bool → Step (Unit {0})
    file_turn control with_direct = if is_skipped mode with_direct then pure tt else (do
      fill d control bytes seed
      r ← call d (create_file with_direct)
      with_file control r.ret)

    abbrev pub with_buffer : ℕ → Step (Unit {0})
    with_buffer control = do
      fill d control bytes seed
      file_turn control false
      file_turn control true
      r ← call d (free control)
      fill d ptr bytes seed

    unfoldable pub file_cases : Step (Unit {0})
    file_cases = do control ← check d (allocate bytes); with_buffer control

    unfoldable pub all_cases : Step (Unit {0})
    all_cases = do
      attempt acl_case acl_failed
      if without_files mode then fill d ptr bytes seed else file_cases

    -- `io_tests`: the number of its failures.
    unfoldable pub io_tests : Step ℕ
    io_tests = do
      modify (λ s. record s { io_failures = 0 })
      scoped all_cases (leave_acl d note acl)
      gets (λ s. s.io_failures)

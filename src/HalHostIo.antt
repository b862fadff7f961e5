-- ===== src/HalHostIo.antt =====
-- hal_host_io.cpp: a host buffer is written to a file and read back by positioned transfers.
pub mod Arguments
pub mod Transfers
pub mod Verdict
pub mod Balance
use ascend_hal_sharing_probe.Prelude.{
  ℕ, zero, suc, ◌+◌, ◌-◌, ◌/◌, ◌^◌, ℤ, pos, negsuc, Bool, true, false, not, ◌&&◌, ltb, ◌==◌,
  is_zero, is_negative, if◌then◌else◌,
}
use Prim.Native.Nat.{min}
use ascend_hal_sharing_probe.Effects.{
  normal, Call, Driver, Reply, Outcome, ok, threw, fault, stalled, World, M, acl_init, acl_finalize,
  set_device, reset_device, set_bytes, create_file, close_file, unlink_file, positioned, pure,
  crash, gets, modify, call, ◌>>=◌, ◌>>◌,
}
use ascend_hal_sharing_probe.HalMemory.{host_memory_prop}
use ascend_hal_sharing_probe.Common.{
  Allocation, allocation, Place, check, cleanup, reserve, create, map_whole, destroy,
}
use ascend_hal_sharing_probe.Common.Retry.{retried}
use ascend_hal_sharing_probe.Common.Pattern.{Memory, agrees}

-- The variables of `main`.
pub record HostIo : Type 0 where
  pub host : Allocation
  pub initialized : Bool
  pub device_set : Bool
  pub result : ℕ

abbrev pub host_io : HostIo
host_io = record { host = allocation; initialized = false; device_set = false; result = 0 }

abbrev pub Step : Type 0 → Type 0
Step A = M HostIo A

abbrev pub host : Place HostIo
host = record { get = λ s. s.host; put = λ a s. record s { host = a } }

abbrev pub note_failure : HostIo → HostIo
note_failure s = record s { result = 1 }

-- `transferred == static_cast<ssize_t>(bytes)`
abbrev pub is_whole : ℕ → ℤ → Bool
is_whole bytes (pos n) = n == bytes
is_whole bytes (negsuc n) = false

abbrev pub piece : ℕ → ℕ → ℕ
piece size offset = min (size - offset) (2 ^ 30)

-- `rounds` bounds the interruptions of a call, and `mem` holds the bytes of the memory.
module _ (d : Driver) (mem : Memory) (rounds : ℕ) where
  module _ (buffer size : ℕ) where
    -- The loop over the offset, with a bound on its rounds.
    unfoldable pub transfer_from : ℕ → Bool → ℕ → ℕ → Step Bool
    transfer_from zero write fd offset = if ltb offset size then crash stalled else pure true
    transfer_from (suc left) write fd offset =
        if ltb offset size
        then (do
          r ← retried d rounds (positioned write fd (buffer + offset) (piece size offset) offset)
          if is_whole (piece size offset) r.ret
              then transfer_from left write fd (offset + piece size offset)
              else pure false)
        else pure true

    abbrev pub transfer : ℕ → Bool → Step Bool
    transfer fd write = transfer_from (suc (size / 2 ^ 30)) write fd 0

    -- The loop that compares the bytes with 'A'.
    abbrev pub compare_bytes : Step Bool
    compare_bytes w = (pure (agrees (mem w.trace buffer) (λ i. 65) 0 size)) w

    abbrev pub write_then_read : ℕ → Step Bool
    write_then_read fd = do
      r ← call d (set_bytes buffer 65 size)
      written ← transfer fd true
      if written
          then (do
            r ← call d (set_bytes buffer 0 size)
            was_read ← transfer fd false
            if was_read then compare_bytes else pure false)
          else pure false

    -- `close(fd)`, then `unlink(path)`: a failure of either fails the test.
    abbrev pub test_open : ℕ → Step Bool
    test_open fd = do
      passed ← write_then_read fd
      closed ← call d (close_file fd)
      gone ← call d (unlink_file fd)
      pure (passed && (is_zero closed.ret && is_zero gone.ret))

    abbrev pub tested : ℤ → Step Bool
    tested (pos fd) = test_open fd
    tested (negsuc n) = pure false

    -- The file's name has the process's number in it; the call stands for `open` with O_EXCL.
    unfoldable pub test_io : Step Bool
    test_io = do r ← call d (create_file true); tested r.ret

  module _ (size : ℕ) where
    abbrev pub set_up : Step (Unit {0})
    set_up = do
      n ← check d acl_init
      modify (λ s. record s { initialized = true })
      n ← check d (set_device (pos 0))
      modify (λ s. record s { device_set = true })
      n ← reserve d host size
      n ← create d host size (host_memory_prop normal)
      map_whole d host size

    abbrev pub test_host : Step (Unit {0})
    test_host = do
      buffer ← gets (λ s. s.host.addr)
      passed ← test_io buffer size
      modify (λ s. record s { result = if passed then 0 else 1 })

    unfoldable pub attempt : Step (Unit {0})
    attempt = set_up >> test_host

    abbrev pub caught : Outcome (Unit {0}) × World HostIo → Outcome (Unit {0}) × World HostIo
    caught (ok a, w) = (ok a, w)
    caught (threw e, w) = modify note_failure w
    caught (fault f, w) = (fault f, w)

    unfoldable pub finish : Step ℕ
    finish = do
      s ← gets (λ s. s)
      destroy d note_failure s.host
      if s.device_set then cleanup d note_failure (reset_device (pos 0)) else pure tt
      if s.initialized then cleanup d note_failure acl_finalize else pure tt
      gets (λ s. s.result)

    unfoldable pub run_test : Step ℕ
    run_test = (λ w. caught (attempt w)) >>= λ u. finish

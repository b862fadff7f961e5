-- ===== src/HalMapProbe.antt =====
-- hal_map_probe.cpp: the process that creates a host buffer and shares it, or imports and maps it.
pub mod Balance
use ascend_hal_sharing_probe.Prelude.{
  ℕ, ◌*◌, ◌%◌, ◌^◌, ℤ, pos, negsuc, Bool, true, false, not, List, is_zero, ◌==◌, if◌then◌else◌,
  xor_digits, size_mod,
}
use ascend_hal_sharing_probe.Status.{plain}
use ascend_hal_sharing_probe.Effects.{
  MemProp, Call, Driver, Exception, runtime_error, Outcome, ok, threw, fault, World, M, open_device,
  close_device, get_host_id, export_handle, disable_whitelist, send_bytes, receive_bytes,
  close_socket, pure, raise, gets, modify, call, ◌>>=◌, ◌>>◌, huge,
}
use ascend_hal_sharing_probe.HalMemory.{host_memory_prop}
use ascend_hal_sharing_probe.Common.{
  Allocation, allocation, Place, check, cleanup, reserve, create, import, map_whole, unmap, release,
  free_address, destroy,
}
use ascend_hal_sharing_probe.Common.Retry.{retried}
use ascend_hal_sharing_probe.Common.Pattern.{Memory, store, compare_with}

-- The variables of `worker`.
pub record MapProbe : Type 0 where
  pub host : Allocation
  pub opened : Bool
  pub result : ℕ

abbrev pub map_probe : MapProbe
map_probe = record { host = allocation; opened = false; result = 0 }

abbrev pub Step : Type 0 → Type 0
Step A = M MapProbe A

abbrev pub host : Place MapProbe
host = record { get = λ s. s.host; put = λ a s. record s { host = a } }

abbrev pub address : Step ℕ
address = gets (λ s. s.host.addr)

abbrev pub handle_of : Step ℕ
handle_of = gets (λ s. s.host.handle)

abbrev pub note_failure : MapProbe → MapProbe
note_failure s = record s { result = 1 }

abbrev pub ipc_failed : Exception
ipc_failed = runtime_error (plain "IPC")

-- `seed ^ i`
abbrev pub seeded : ℕ → ℕ → ℕ
seeded seed i = xor_digits 64 seed i

-- `n == sizeof(value)`
abbrev pub is_word : ℤ → Bool
is_word (pos n) = n == 8
is_word (negsuc n) = false

-- `rounds` bounds the interruptions of a call, and `mem` is what the memory holds.
module _ (d : Driver) (mem : Memory) (rounds : ℕ) where
  abbrev pub send_word : ℕ → ℕ → Step (Unit {0})
  send_word fd value = do
    r ← retried d rounds (send_bytes fd value 8)
    if is_word r.ret then pure tt else raise ipc_failed

  abbrev pub receive_word : ℕ → Step ℕ
  receive_word fd = do
    r ← retried d rounds (receive_bytes fd 8)
    if is_word r.ret then pure (r.out % size_mod) else raise ipc_failed

  -- `check(static_cast<int>(receive_word(socket)), ...)`
  abbrev pub await_zero : ℕ → Step (Unit {0})
  await_zero fd = do v ← receive_word fd; if v % 2 ^ 32 == 0 then pure tt else raise ipc_failed

  abbrev pub write_pattern : ℕ → ℕ → Step (Unit {0})
  write_pattern bytes seed = do a ← address; store d (seeded seed) a bytes

  abbrev pub verify : ℕ → ℕ → Step (Unit {0})
  verify bytes seed = do a ← address; compare_with mem (seeded seed) a bytes

  module _ (importer host_mode : Bool) (device bytes socket : ℕ) where
    abbrev pub open_part : Step (Unit {0})
    open_part = do n ← check d (open_device device); modify (λ s. record s { opened = true })

    -- What the handle is got from.
    abbrev pub target : Step ℕ
    target = if host_mode then check d get_host_id else pure device

    abbrev pub obtain : ℕ → Step (Unit {0})
    obtain token =
        if importer
        then (do t ← target; n ← import d host token (pos t); pure tt)
        else (do n ← create d host bytes (host_memory_prop huge); pure tt)

    abbrev pub map_part : Step (Unit {0})
    map_part = do
      open_part
      token ← if importer then receive_word socket else pure 0
      n ← reserve d host bytes
      obtain token
      map_whole d host bytes

    abbrev pub creator_part : Step (Unit {0})
    creator_part = do
      write_pattern bytes 101
      h ← handle_of
      token ← check d (export_handle h)
      n ← check d (disable_whitelist token)
      send_word socket token
      await_zero socket
      if host_mode then verify bytes 202 else pure tt
      send_word socket 0
      await_zero socket

    abbrev pub importer_part : Step (Unit {0})
    importer_part = do
      if host_mode then (do verify bytes 101; write_pattern bytes 202) else pure tt
      send_word socket 0
      await_zero socket
      unmap d host
      release d host
      free_address d host
      send_word socket 0

    unfoldable pub share : Step (Unit {0})
    share = map_part >> (if importer then importer_part else creator_part)

    abbrev pub caught : Outcome (Unit {0}) × World MapProbe → Outcome (Unit {0}) × World MapProbe
    caught (ok a, w) = (ok a, w)
    caught (threw e, w) = modify note_failure w
    caught (fault f, w) = (fault f, w)

    -- What follows the catch clause.
    unfoldable pub finish : Step ℕ
    finish = do
      r ← call d (close_socket socket)
      a ← gets (λ s. s.host)
      destroy d note_failure a
      opened ← gets (λ s. s.opened)
      if opened then cleanup d note_failure (close_device device) else pure tt
      gets (λ s. s.result)

    unfoldable pub worker : Step ℕ
    worker = (λ w. caught (share w)) >>= λ u. finish

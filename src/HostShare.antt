-- ===== src/HostShare.antt =====
-- host_share.cpp: host memory shared between two processes, with transfers to and from it by the ACL
-- runtime and by Linux AIO. The state of a process.
pub mod IoTests
pub mod Worker
pub mod Cases
pub mod Files
pub mod Variables
pub mod Turns
pub mod Closing
pub mod Stages
pub mod Balance
use ascend_hal_sharing_probe.Prelude.{
  ℕ, zero, suc, List, ◌+◌, ◌-◌, ◌%◌, ◌^◌, ℤ, pos, negsuc, Bool, true, false, not, ◌||◌, ltb, ◌==◌,
  is_zero, if◌then◌else◌, xor_digits,
}
use ascend_hal_sharing_probe.Status.{plain}
use ascend_hal_sharing_probe.Effects.{
  huge, Call, Driver, Exception, runtime_error, Trace, M, CopyKind, host_to_device, device_to_host,
  copy_async, record_event, query_event, sync_event, sync_stream, set_bytes, clock_now, allocate,
  free, create_file, unlink_file, close_file, sync_file, io_setup, io_destroy, acl_init,
  acl_finalize, set_device, reset_device, get_host_id, get_attribute, export_handle,
  disable_whitelist, close_socket, pure, raise, gets, modify, call, ◌>>=◌, ◌>>◌,
}
use ascend_hal_sharing_probe.Effects.Meets.{attempt, scoped}
use ascend_hal_sharing_probe.HalMemory.{host_memory_prop}
use ascend_hal_sharing_probe.Common.{
  Allocation, allocation, Place, check, check_reply, cleanup, failed_check, reserve, create, import,
  map_whole, unmap, release, free_address, destroy,
}
use ascend_hal_sharing_probe.Common.Acl.{
  AclResources, acl_resources, AclPlace, obtain_device, obtain_stream, obtain_event, leave_acl,
}
use ascend_hal_sharing_probe.Common.AioOperation.{IoEvent, aio_operation}
use ascend_hal_sharing_probe.Common.Pattern.{Memory, fill, verify}
use ascend_hal_sharing_probe.Cli.{send_word, receive_word, await_zero}

-- `options.aio`: launch accepts these values only.
pub data AioMode : Type 0 where
  both buffered direct none : AioMode

-- The variables of `worker` and, from `acl` on, of `io_tests`: its resources, its AIO context and its
-- own `failures`. A C++ int is the number of its 32 binary digits.
pub record HostShare : Type 0 where
  pub host : Allocation
  pub initialized : Bool
  pub device_set : Bool
  pub failures : ℕ
  pub cleanup_failed : Bool
  pub acl : AclResources
  pub ctx : ℕ
  pub io_failures : ℕ

abbrev pub host_share : HostShare
host_share = record {
  host = allocation;
  initialized = false;
  device_set = false;
  failures = 0;
  cleanup_failed = false;
  acl = acl_resources;
  ctx = 0;
  io_failures = 0;
}

abbrev pub Step : Type 0 → Type 0
Step A = M HostShare A

abbrev pub host : Place HostShare
host = record { get = λ s. s.host; put = λ a s. record s { host = a } }

abbrev pub acl : AclPlace HostShare
acl = record { get = λ s. s.acl; put = λ a s. record s { acl = a } }

abbrev pub note : HostShare → HostShare
note s = record s { cleanup_failed = true }

abbrev pub get_ctx : HostShare → ℕ
get_ctx s = s.ctx

abbrev pub set_ctx : ℕ → HostShare → HostShare
set_ctx c s = record s { ctx = c }

abbrev pub count_failure : HostShare → HostShare
count_failure s = record s { io_failures = suc s.io_failures }

-- `failures += n` on an int.
abbrev pub add_failures : ℕ → HostShare → HostShare
add_failures n s = record s { failures = (s.failures + n) % 2 ^ 32 }

-- An int as a word of 64 bits.
abbrev pub extended : ℕ → ℕ
extended n = if ltb n (2 ^ 31) then n else n + (2 ^ 64 - 2 ^ 32)

-- `seed ^ 0xfedcba9876543210ULL`
abbrev pub write_seed : ℕ → ℕ
write_seed seed = xor_digits 64 seed 18364758544493064720

abbrev pub unlink_failed : Exception
unlink_failed = runtime_error (plain "unlink temporary AIO file")

-- Whether the mode leaves out the turn with O_DIRECT or without.
abbrev pub is_skipped : AioMode → Bool → Bool
is_skipped buffered with_direct = with_direct
is_skipped direct with_direct = not with_direct
is_skipped _ with_direct = false

abbrev pub without_files : AioMode → Bool
without_files none = true
without_files _ = false

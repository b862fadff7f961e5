-- ===== src/Aio.antt =====
-- cache2_hal_aio.cc: a buffer is filled, dumped to files and loaded back, through HAL or malloc memory
-- and through Linux AIO or synchronous positioned I/O. Here are the options that the parts use, the
-- program's state, and the wrappers `SDK`, `OS` and `CLEANUP`.
pub mod Outcomes
pub mod Memory
pub mod Psync
pub mod Phase
pub mod Options
use ascend_hal_sharing_probe.Prelude.{
  ℕ, ℤ, pos, negsuc, Bool, true, false, Option, none, [], ◌∷◌, is_zero, if◌then◌else◌,
}
use ascend_hal_sharing_probe.Status.{plain}
use ascend_hal_sharing_probe.Effects.{
  Call, Driver, Exception, runtime_error, Outcome, ok, threw, fault, World, M, pure, raise, gets,
  modify, call, ◌>>=◌,
}

-- The sizes of a run; `tensor_bytes` is 0 unless it is given.
pub record Sizes : Type 0 where
  pub blocks : ℕ
  pub shards : ℕ
  pub slot_bytes : ℕ
  pub tensor_bytes : ℕ

-- A null pointer is 0.
pub record HostMemory : Type 0 where
  pub malloc_base : ℕ
  pub initialized : Bool
  pub device_set : Bool
  pub mapped : Bool
  pub device : ℤ
  pub addr : ℕ
  pub handle : ℕ

abbrev pub host_memory : HostMemory
host_memory = record {
  malloc_base = 0;
  initialized = false;
  device_set = false;
  mapped = false;
  device = pos 0;
  addr = 0;
  handle = 0;
}

-- What the program keeps: `cleanupFailed`, the host memory, and the descriptor that the synchronous
-- transfer has open.
pub record AioState : Type 0 where
  pub memory : HostMemory
  pub cleanup_failed : Bool
  pub fd : Option ℕ

abbrev pub Step : Type 0 → Type 0
Step A = M AioState A

abbrev pub failed_call : Exception
failed_call = runtime_error (plain "ret errno")

module _ (d : Driver) where
  -- `OS(call)`: a negative result throws.
  abbrev pub non_negative : ℤ → Step ℕ
  non_negative (pos n) = pure n
  non_negative (negsuc n) = raise failed_call

  abbrev pub os : Call → Step ℕ
  os c = do r ← call d c; non_negative r.ret

  -- `SDK(call)`: a result other than zero throws.
  abbrev pub sdk : Call → Step ℕ
  sdk c = do r ← call d c; if is_zero r.ret then pure r.out else raise failed_call

-- `CLEANUP(call)`: an exception is logged and noted.
abbrev pub cleaned : {A : Type 0} → Outcome A × World AioState → Outcome (Unit {0}) × World AioState
cleaned (ok a, w) = (ok tt, w)
cleaned (threw e, w) = (ok tt, record w { self = record w.self { cleanup_failed = true } })
cleaned (fault f, w) = (fault f, w)

abbrev pub cleanup : {A : Type 0} → Step A → Step (Unit {0})
cleanup m w = cleaned (m w)

-- ===== src/Tests/Aio.antt =====
-- Runs of cache2_hal_aio.
use ascend_hal_sharing_probe.Prelude.{
  lcm-le, ◌≡◌, ◌+◌, pos, true, false, none, refl, arith, [], ◌∷◌, length,
}
use ascend_hal_sharing_probe.Effects.{
  Call, Driver, World, huge, open_file, transfer, get_granularity, address_reserve,
}
use ascend_hal_sharing_probe.Aio.{host_memory, Sizes, AioState}
use ascend_hal_sharing_probe.Effects.Ledger.{
  Resource, IsReal, address, memory, mapping, gains, losses, history,
}
use ascend_hal_sharing_probe.HalMemory.{address_alignment, host_memory_prop}
use ascend_hal_sharing_probe.DataStrategy.Accounts.{held}
use ascend_hal_sharing_probe.Aio.Memory.{allocate, destroy}
use ascend_hal_sharing_probe.Aio.Memory.Books.{IsKept, mapping_of, Never}
use ascend_hal_sharing_probe.Aio.Memory.Lifetime.{destroy-IsClosed, Closed}
use ascend_hal_sharing_probe.Aio.Memory.Allocate.{IsPlain, allocate-IsKept}
use ascend_hal_sharing_probe.Aio.Psync.{transfer_all}
use ascend_hal_sharing_probe.Aio.Psync.Balance.{opened, closed, IsBalanced, Ends}
use ascend_hal_sharing_probe.Aio.Psync.Runs.{AllDone, transfer_all-Ends}

abbrev small_sizes : Sizes
small_sizes = record { blocks = 2; shards = 2; slot_bytes = 4096; tensor_bytes = 1024 }

-- Files open and every transfer is complete.
abbrev serving : Driver
serving t (open_file block dump) = record { ret = pos (3 + length t); out = 0 }
serving t (transfer dump fd addr bytes offset) = record { ret = pos bytes; out = 0 }
serving t (get_granularity prop) = record { ret = pos 0; out = 2097152 }
serving t (address_reserve size) = record { ret = pos 0; out = 4096 }
serving t c = record { ret = pos 0; out = 0 }

abbrev idle_world : World AioState
idle_world = record {
  self = record { memory = host_memory; cleanup_failed = false; fd = none };
  trace = [];
  input = [];
}

transfer_all-Ends_example :
    Ends
      (AllDone small_sizes true 2 0 idle_world)
      IsBalanced
      (transfer_all serving small_sizes true idle_world)
unfolding opened closed
transfer_all-Ends_example =
    transfer_all-Ends serving small_sizes true 4 (ground arith) refl idle_world (λ n. refl)

serving-IsPlain : IsPlain serving
serving-IsPlain = record {
  small = λ t prop. omega (arith, lcm-le address_alignment 2097152);
  no_handle = λ t size prop bad. refl;
}

idle_world-IsKept : IsKept idle_world
unfolding gains losses history
idle_world-IsKept = record { from_hal = refl; books = kept }
  where
    kept :
        (x : Resource)
        → IsReal x
        → gains x [] ≡ losses x (history []) + held x (mapping_of idle_world.self.memory)
    kept (address a) real = ground arith
    kept (memory a) real = ground arith
    kept (mapping a) real = refl

allocate-IsKept_example : Ends (λ u v. IsKept v) IsKept (allocate serving 16384 huge idle_world)
allocate-IsKept_example =
    allocate-IsKept serving serving-IsPlain 16384 huge idle_world idle_world-IsKept
      (refl, refl, refl)

-- A world whose memory holds a reserved, created and mapped range.
abbrev holding_world : World AioState
holding_world = record {
  self = record {
    memory = record host_memory { mapped = true; addr = 4096; handle = 9; device_set = true };
    cleanup_failed = false;
    fd = none;
  };
  trace =
      (Call.mem_map 4096 1073741824 9, record { ret = pos 0; out = 0 })
      ∷ (Call.mem_create 1073741824 (host_memory_prop huge), record { ret = pos 0; out = 9 })
      ∷ (address_reserve 1073741824, record { ret = pos 0; out = 4096 })
      ∷ [];
  input = [];
}

holding_world-IsKept : IsKept holding_world
unfolding gains losses history
holding_world-IsKept = record { from_hal = refl; books = kept }
  where
    kept :
        (x : Resource)
        → IsReal x
        → gains x holding_world.trace
          ≡ losses x (history holding_world.trace) + held x (mapping_of holding_world.self.memory)
    kept (address a) real = ground arith
    kept (memory a) real = ground arith
    kept (mapping a) real = ground arith

destroy-IsClosed_example : Ends Closed Never (destroy serving holding_world)
destroy-IsClosed_example = destroy-IsClosed serving holding_world holding_world-IsKept

-- ===== src/Tests/Worlds.antt =====
-- Drivers and worlds for the runs.
use ascend_hal_sharing_probe.Prelude.{
  ℕ, zero, suc, ◌+◌, ◌*◌, ◌≡◌, refl, pos, ◌<◌, get_elem?, true, some, List, [], ◌∷◌, arith, length,
}
use Prim.Native.Nat.{max}
use ascend_hal_sharing_probe.Effects.{
  Call, Reply, Trace, Driver, World, clock_now, sleep_until, get_granularity, address_reserve,
  export_handle, import_handle, normal,
}
use ascend_hal_sharing_probe.Effects.Ledger.{address, memory, mapping, gains, losses, history}
use ascend_hal_sharing_probe.HalMemory.{host_memory_prop}
use ascend_hal_sharing_probe.CtrlLayout.{CtrlLayout, ctrl_layout}
use ascend_hal_sharing_probe.DataStrategy.{DataStrategy, Mapping, data_strategy}
use ascend_hal_sharing_probe.DataStrategy.Accounts.{held_all, Accounted}
use ascend_hal_sharing_probe.DataStrategy.Stages.{Staged}
use ascend_hal_sharing_probe.DataStrategy.Lifecycle.{IsClear, IsReady}
use ascend_hal_sharing_probe.DataStrategy.Wait.{IsSteady}

abbrev done : ℕ → Reply
done out = record { ret = pos 0; out = out }

-- Each call succeeds; addresses and handles are new ones.
abbrev pub willing : Driver
willing t (get_granularity prop) = done 2097152
willing t (address_reserve size) = done (1099511627776 * suc (length t))
willing t (Call.mem_create size prop) = done (500 + length t)
willing t (export_handle handle) = done (9000 + handle)
willing t (import_handle token device) = done (700 + length t)
willing t c = done 0

-- The last time that a history shows.
abbrev pub last_time : Trace → ℕ
last_time [] = 0
last_time ((sleep_until until, r) ∷ t) = max until (last_time t)
last_time ((clock_now, r) ∷ t) = max r.out (last_time t)
last_time ((c, r) ∷ t) = last_time t

abbrev pub steady : Driver
steady t clock_now = done (last_time t)
steady t c = done 0

pub steady-IsSteady : IsSteady steady
steady-IsSteady = record { slept = λ t until r. omega arith; onward = λ t r. omega arith }

abbrev pub two_ranks : CtrlLayout
two_ranks = ctrl_layout 2 4

-- "DESC 1 77"
abbrev pub peer_line : List ℕ
peer_line = 68 ∷ 69 ∷ 83 ∷ 67 ∷ 32 ∷ 49 ∷ 32 ∷ 55 ∷ 55 ∷ []

abbrev pub fresh_world : World DataStrategy
fresh_world = record { self = data_strategy; trace = []; input = peer_line ∷ [] }

pub fresh_world-IsClear : IsClear fresh_world
unfolding gains losses history
fresh_world-IsClear = record { empty = refl; unset = refl; settled = λ x real. refl }

abbrev pub only_mapping : Mapping
only_mapping = record { handle = 7; addr = 4096; mapped = true }

-- One rank, set up.
abbrev pub ready_world : World DataStrategy
ready_world = record {
  self = record {
    slot_size = 64;
    n_slots_per_rank = 4;
    mappings = only_mapping ∷ [];
    owner = 0;
    device_id = pos 0;
    rank_stride = 1073741824;
  };
  trace =
      (Call.mem_map 4096 1073741824 7, done 0)
      ∷ (Call.mem_create 1073741824 (host_memory_prop normal), done 7)
      ∷ (address_reserve 1073741824, done 4096)
      ∷ [];
  input = [];
}

pub ready_world-Accounted : Accounted ready_world
unfolding gains losses history held_all
ready_world-Accounted (address a) real = ground arith
ready_world-Accounted (memory h) real = ground arith
ready_world-Accounted (mapping a) real = ground arith

pub ready_world-Staged : Staged 1 0 1 ready_world.self.mappings
ready_world-Staged = record {
  size = refl;
  done = λ i below which.
      (only_mapping, first i below, record { reserved = ground arith; is_mapped = refl });
  left = λ i other above below. absurd (omega arith);
}
  where
    first : (i : ℕ) → i < 1 → get_elem? (only_mapping ∷ []) i ≡ some only_mapping
    first zero below = refl
    first (suc i) below = absurd (omega arith)

pub ready_world-IsReady : IsReady 0 1 64 4 (pos 0) ready_world
ready_world-IsReady = record {
  owner = refl;
  device = refl;
  slot_size = refl;
  n_slots = refl;
  staged = ready_world-Staged;
  books = ready_world-Accounted;
}

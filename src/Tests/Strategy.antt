-- ===== src/Tests/Strategy.antt =====
-- Runs of the data strategy.
use ascend_hal_sharing_probe.Prelude.{
  ◌≡◌, refl, arith, pos, size_mod, get_elem?, some, [], ◌*◌, ◌-◌, ◌/◌, ◌++◌, ◌≢◌, ◌<◌, ◌≤◌, ◌+◌,
  zero, suc, ℕ,
}
use ascend_hal_sharing_probe.Status.{error}
use ascend_hal_sharing_probe.Effects.{Trace, ok}
use ascend_hal_sharing_probe.Effects.Ledger.{Resource, gains, history}
use ascend_hal_sharing_probe.CtrlLayout.{rank_out_of_range}
use ascend_hal_sharing_probe.DataStrategy.{Mapping, reset, round_up}
use ascend_hal_sharing_probe.DataStrategy.Setup.{setup, poll}
use ascend_hal_sharing_probe.DataStrategy.Reset.{reset_lem, reset_calls}
use ascend_hal_sharing_probe.DataStrategy.Accounts.{IsSettled}
use ascend_hal_sharing_probe.DataStrategy.Lifecycle.{SetupEnd, setup-SetupEnd, reset-IsReady}
use ascend_hal_sharing_probe.DataStrategy.Addresses.{
  round_up_covers, round_up_wraps, slots-IsServed, IsServed, LieApart, data_at-disjoint, Fits,
}
use ascend_hal_sharing_probe.DataStrategy.Wait.{poll-Ends, Ends}
use ascend_hal_sharing_probe.DataStrategy.{data_at, device_data_at}
use ascend_hal_sharing_probe.Tests.Worlds.{
  only_mapping, willing, steady, steady-IsSteady, two_ranks, fresh_world, fresh_world-IsClear,
  ready_world, ready_world-Staged, ready_world-IsReady,
}

setup-SetupEnd_example :
    SetupEnd willing two_ranks 64 4 0
      (pos 0)
      (setup willing 2 two_ranks (pos 0) 0 64 4 100 fresh_world)
setup-SetupEnd_example =
    setup-SetupEnd willing two_ranks 64 4 2 (pos 0) 0 100 fresh_world (ground arith) (omega arith)
      fresh_world-IsClear

reset-IsReady_example :
    ((reset willing ready_world).0 ≡ ok tt)
    × ((reset willing ready_world).1.self.mappings ≡ [])
    × IsSettled (reset willing ready_world).1.trace
reset-IsReady_example = reset-IsReady willing 0 1 64 4 (pos 0) ready_world ready_world-IsReady

round_up_covers_example :
    (300 ≤ round_up 300 128)
    × (round_up 300 128 < 300 + 128)
    × ((count : ℕ) × (round_up 300 128 ≡ count * 128))
round_up_covers_example = round_up_covers 300 128 (omega arith) (omega arith)

round_up_wraps_example : round_up (size_mod - 5) 4096 < size_mod - 5
round_up_wraps_example =
    round_up_wraps (size_mod - 5) 4096 (omega arith) (omega arith) (omega arith)

all_fit :
    (i : ℕ) (m : Mapping) → get_elem? ready_world.self.mappings i ≡ some m → Fits ready_world.self m
all_fit zero m e = ground arith
all_fit (suc i) m e = ground arith

slots-IsServed_example :
    (m : Mapping) × (get_elem? ready_world.self.mappings (2 / 4) ≡ some m)
    × (m.addr ≢ 0)
    × IsServed ready_world.self m 2
slots-IsServed_example =
    slots-IsServed ready_world.self 1 2 (ground arith) ready_world-Staged (omega arith) all_fit

data_at-disjoint_example :
    (0 ≡ ready_world.self.owner
      → LieApart ready_world.self only_mapping (data_at ready_world.self) 1 3)
    × (0 ≢ ready_world.self.owner
        → LieApart ready_world.self only_mapping (device_data_at ready_world.self) 1 3)
data_at-disjoint_example =
    data_at-disjoint ready_world.self only_mapping 1 3 (ground arith) refl (omega arith) refl refl
      (omega arith)

poll-Ends_example : Ends (poll steady two_ranks 5 25 3 (error rank_out_of_range) fresh_world)
poll-Ends_example =
    poll-Ends steady steady-IsSteady two_ranks 5 25 3 0 (error rank_out_of_range) fresh_world
      (omega arith) (omega arith) (omega arith)

reset_lem_example :
    (t : Trace) × (reset willing ready_world ≡ (
      ok tt,
      record ready_world {
        self = record ready_world.self { mappings = []; rank_stride = 0 };
        trace = t;
      },
    ))
    × (history t ≡ history ready_world.trace ++ reset_calls ready_world.self)
    × ((x : Resource) → gains x t ≡ gains x ready_world.trace)
reset_lem_example = reset_lem willing ready_world

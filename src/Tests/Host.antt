-- ===== src/Tests/Host.antt =====
-- Runs of host_share.
use ascend_hal_sharing_probe.Prelude.{ℕ, refl, [], ◌∷◌, List, pos, true, arith}
use ascend_hal_sharing_probe.Effects.{World, Trace}
use ascend_hal_sharing_probe.Effects.Ledger.{gains, given, address, memory, mapping}
use ascend_hal_sharing_probe.Effects.Outcomes.{Ends}
use ascend_hal_sharing_probe.DataStrategy.Accounts.{held_all}
use ascend_hal_sharing_probe.Common.Books.{IsKept}
use ascend_hal_sharing_probe.Common.Teardown.{Never}
use ascend_hal_sharing_probe.Common.AioOperation.{IoEvent}
use ascend_hal_sharing_probe.HostShare.{HostShare, AioMode, host_share}
use ascend_hal_sharing_probe.HostShare.IoTests.{io_tests}
use ascend_hal_sharing_probe.HostShare.Worker.{worker}
use ascend_hal_sharing_probe.HostShare.Cases.{holds}
use ascend_hal_sharing_probe.HostShare.Closing.{AllClosed, io_tests-AllClosed}
use ascend_hal_sharing_probe.HostShare.Balance.{Ended, worker-Ended}
use ascend_hal_sharing_probe.Tests.Probes.{agreeing, agreeing-IsPlain, agreeing-IsPatient, letters}

abbrev host_world : World HostShare
host_world = record { self = host_share; trace = []; input = [] }

host_world-IsKept : IsKept holds host_world
unfolding gains given held_all
host_world-IsKept (address n) real = ground arith
host_world-IsKept (memory n) real = ground arith
host_world-IsKept (mapping n) real = ground arith

-- Four full transfers of a quarter of 2 MiB.
abbrev pub event_of : ℕ → IoEvent
event_of n = record { index = n; res = pos 524288; res2 = pos 0 }

abbrev pub four_events : Trace → List IoEvent
four_events t = event_of 0 ∷ event_of 1 ∷ event_of 2 ∷ event_of 3 ∷ []

io_tests-AllClosed_example :
    Ends
      (λ n v. AllClosed [] v.trace)
      (λ v. AllClosed [] v.trace)
      (io_tests agreeing letters 1 four_events AioMode.both 1099511627776 2097152 303 host_world)
io_tests-AllClosed_example =
    io_tests-AllClosed agreeing letters 1 four_events AioMode.both 1099511627776 2097152 303
      host_world host_world-IsKept (refl, refl, refl) refl

worker-Ended_example :
    Ends Ended Never
      (worker agreeing letters 1 four_events AioMode.both 0 true 5 2097152 host_world)
worker-Ended_example =
    worker-Ended agreeing letters 1 four_events agreeing-IsPlain agreeing-IsPatient AioMode.both 0
      true 5 2097152 host_world host_world-IsKept (refl, refl, refl) ((refl, refl, refl), refl)

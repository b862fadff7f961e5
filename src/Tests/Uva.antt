-- ===== src/Tests/Uva.antt =====
-- Runs of host_uva_share.
use ascend_hal_sharing_probe.Prelude.{ℕ, ◌≡◌, pos, [], arith}
use ascend_hal_sharing_probe.Effects.{Trace, World}
use ascend_hal_sharing_probe.Effects.Ledger.{given, gains, refused}
use ascend_hal_sharing_probe.Effects.Outcomes.{Ends}
use ascend_hal_sharing_probe.DataStrategy.Accounts.{held_all}
use ascend_hal_sharing_probe.Common.Teardown.{IsReturned, Never}
use ascend_hal_sharing_probe.HostUva.{
  Words, verify_test_data, write_test_data, run_writer, run_reader,
}
use ascend_hal_sharing_probe.HostUva.Checksum.{verify-write, verify-exchanged, exchanged}
use ascend_hal_sharing_probe.HostUva.Runs.{Leaves, run_reader-Leaves}
use ascend_hal_sharing_probe.HostUva.Writer.{IsCareful, Returned, run_writer-Returned}
use ascend_hal_sharing_probe.Tests.Probes.{agreeing}

abbrev zeros : Words
zeros i = 0

verify-write_example : verify_test_data 1024 (write_test_data 1024 zeros) ≡ pos 0
verify-write_example = verify-write 1024 zeros (omega arith)

verify-exchanged_example :
    verify_test_data 1024 (exchanged (write_test_data 1024 zeros) 5)
    ≡ verify_test_data 1024 (write_test_data 1024 zeros)
verify-exchanged_example =
    verify-exchanged 1024 5 (write_test_data 1024 zeros) (omega arith) (omega arith)

abbrev unused : Trace → ℕ → Words
unused t a i = 0

abbrev uva_world : World ℕ
uva_world = record { self = 0; trace = []; input = [] }

run_reader-Leaves_example : Leaves {S = ℕ} 1099511627776 (run_reader agreeing unused (pos 0) 77)
run_reader-Leaves_example = run_reader-Leaves agreeing unused 1099511627776 (pos 0) 77

agreeing-IsCareful : IsCareful agreeing
agreeing-IsCareful t size bad = absurd (ground arith)

uva_world-IsReturned : IsReturned uva_world.trace
unfolding gains given refused held_all
uva_world-IsReturned x real = (omega arith, omega arith)

run_writer-Returned_example : Ends Returned Never (run_writer agreeing unused (pos 0) uva_world)
run_writer-Returned_example =
    run_writer-Returned agreeing unused (pos 0) uva_world agreeing-IsCareful uva_world-IsReturned

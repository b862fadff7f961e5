-- ===== src/Tests/Demo.antt =====
-- Runs of the demo process.
use ascend_hal_sharing_probe.Prelude.{ℤ, Bool, false, refl, List, [], ◌∷◌}
use ascend_hal_sharing_probe.Text.{Line, bytes_of}
use ascend_hal_sharing_probe.Demo.{main}
use ascend_hal_sharing_probe.Demo.Run.{DemoEnd, main-DemoEnd}
use ascend_hal_sharing_probe.Tests.Worlds.{willing, fresh_world, fresh_world-IsClear}

abbrev never_repeat : ℤ → Bool
never_repeat ret = false

-- "--rank 0 --slots-per-rank 4"
abbrev arguments : List Line
arguments = bytes_of "--rank" ∷ bytes_of "0" ∷ bytes_of "--slots-per-rank" ∷ bytes_of "4" ∷ []

main-DemoEnd_example : DemoEnd (main willing never_repeat 2 arguments fresh_world)
main-DemoEnd_example =
    main-DemoEnd willing never_repeat 2 arguments fresh_world refl fresh_world-IsClear.settled

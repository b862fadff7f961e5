-- ===== src/Tests/Multi.antt =====
-- A run of a worker of multi_share, and the CPUs of a node.
use ascend_hal_sharing_probe.Prelude.{
  ℕ, ◌∷◌, List, Bool, ◌%◌, ◌==◌, ◌&&◌, ◌≡◌, ◌<◌, pos, refl, [], true, some, arith,
}
use ascend_hal_sharing_probe.Effects.{
  World, Trace, MemProp, Driver, get_context, get_device, get_attribute,
}
use ascend_hal_sharing_probe.Effects.Ledger.{gains, given, address, memory, mapping}
use ascend_hal_sharing_probe.Effects.Outcomes.{Ends}
use ascend_hal_sharing_probe.DataStrategy.Accounts.{held_all}
use ascend_hal_sharing_probe.Text.{bytes_of}
use ascend_hal_sharing_probe.Common.Evens.{IsPlain}
use ascend_hal_sharing_probe.Common.Retry.{IsPatient}
use ascend_hal_sharing_probe.Common.Books.{IsKept}
use ascend_hal_sharing_probe.Common.Teardown.{Never}
use ascend_hal_sharing_probe.MultiShare.Cpu.{Cpus}
use ascend_hal_sharing_probe.MultiShare.Cpu.{chosen}
use ascend_hal_sharing_probe.MultiShare.Cpu.Chosen.{is_set, is_listed, is_set-chosen}
use ascend_hal_sharing_probe.Text.{Line}
use ascend_hal_sharing_probe.MultiShare.Worker.{MultiShare, multi_share, numa_prop}
use ascend_hal_sharing_probe.MultiShare.Worker.Parts.{worker}
use ascend_hal_sharing_probe.MultiShare.Worker.Slices.{holds}
use ascend_hal_sharing_probe.MultiShare.Worker.Sums.{sum_from}
use ascend_hal_sharing_probe.MultiShare.Worker.Balance.{AllReturned, worker-AllReturned}
use ascend_hal_sharing_probe.Tests.Host.{four_events}
use ascend_hal_sharing_probe.Tests.Probes.{agreeing, agreeing-IsPatient, letters}
use ascend_hal_sharing_probe.Tests.Shares.{three_devices}

-- A driver that has set the device 1 and knows of its context.
abbrev placed : Driver
placed t get_context = record { ret = pos 0; out = 77 }
placed t get_device = record { ret = pos 0; out = 1 }
placed t (get_attribute addr) = record { ret = pos 0; out = 1 }
placed t c = agreeing t c

placed-IsPlain : IsPlain placed
placed-IsPlain = record {
  no_create = λ t size prop bad. absurd (ground arith);
  no_import = λ t token target bad. absurd (ground arith);
}

placed-IsPatient : IsPatient placed 1
placed-IsPatient get_context t h = absurd (ground arith)
placed-IsPatient get_device t h = absurd (ground arith)
placed-IsPatient (get_attribute addr) t h = absurd (ground arith)
placed-IsPatient c t h = agreeing-IsPatient c t h

abbrev two_cpus : Cpus
two_cpus = record { cpulist = λ node. some (bytes_of "0-1"); allowed = λ t cpu. true }

abbrev on_node_six : Trace → MemProp
on_node_six t = numa_prop 6

abbrev multi_world : World MultiShare
multi_world = record { self = multi_share; trace = []; input = [] }

multi_world-IsKept : IsKept (holds three_devices) multi_world
unfolding gains given held_all sum_from
multi_world-IsKept (address n) real = ground arith
multi_world-IsKept (memory n) real = ground arith
multi_world-IsKept (mapping n) real = ground arith

worker-AllReturned_example :
    Ends AllReturned Never
      (worker placed letters 1 four_events on_node_six two_cpus three_devices 0 1 6 5 multi_world)
worker-AllReturned_example =
    worker-AllReturned placed letters 1 four_events on_node_six placed-IsPlain placed-IsPatient
      two_cpus three_devices 0 1 6 5 multi_world (omega arith) multi_world-IsKept
      (refl, (λ i lt. refl), (λ i lt. refl))

abbrev node_cpus : List Line
node_cpus = bytes_of "0-3" ∷ bytes_of "8" ∷ []

abbrev is_even : ℕ → Bool
is_even c = c % 2 == 0

even_cpus : chosen is_even node_cpus ≡ some (0 ∷ 2 ∷ 8 ∷ [])
unfolding chosen
even_cpus = refl

is_set-chosen_example :
    (is_set 3 (0 ∷ 2 ∷ 8 ∷ []) ≡ is_even 3 && is_listed node_cpus 3)
    × (is_listed node_cpus 3 ≡ true → 3 < 1024)
is_set-chosen_example = is_set-chosen is_even node_cpus (0 ∷ 2 ∷ 8 ∷ []) 3 even_cpus

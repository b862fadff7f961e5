-- ===== src/MultiShare/Cpu.antt =====
-- `bind_cpu` of multi_share.cpp: the process is bound to the CPUs of a NUMA node that it may use.
pub mod Chosen
use ascend_hal_sharing_probe.Prelude.{
  ℕ, zero, suc, ◌-◌, Bool, Option, none, some, List, [], ◌∷◌, ◌++◌, leb, ◌==◌, if◌then◌else◌,
}
use ascend_hal_sharing_probe.Text.{Line}
use ascend_hal_sharing_probe.Demo.{number_of}
use ascend_hal_sharing_probe.Effects.{
  Driver, Exception, Trace, M, get_affinity, set_affinity, pure, raise, ◌>>=◌,
}
use ascend_hal_sharing_probe.Common.{check}
use ascend_hal_sharing_probe.MultiShare.Options.{up_to_int_max, split_commas}

-- The kernel's list for a node, where it can be read, and the CPUs that it lets the process use.
pub record Cpus : Type 0 where
  pub cpulist : ℕ → Option Line
  pub allowed : Trace → ℕ → Bool

-- `CPU_SETSIZE`
abbrev pub set_size : ℕ
set_size = 1024

-- What stands before the first dash and after it.
unfoldable pub split_dash : Line → Line × Option Line
split_dash [] = ([], none)
split_dash (c ∷ cs) =
    let rest = split_dash cs in if c == 45 then ([], some cs) else (c ∷ rest.0, rest.1)

abbrev pub both_of : Option ℕ → Option ℕ → Option (ℕ × ℕ)
both_of (some first) (some last) = some (first, last)
both_of _ _ = none

abbrev pub last_of : Line → Option Line → Line
last_of first none = first
last_of first (some last) = last

-- The first and the last number of a part; the kernel's lists have digits only.
unfoldable pub range_of : Line → Option (ℕ × ℕ)
unfolding split_dash
range_of part =
    let ends = split_dash part in
    both_of (up_to_int_max (number_of ends.0)) (up_to_int_max (number_of (last_of ends.0 ends.1)))

-- The CPUs of a range that are allowed, so many from one on.
unfoldable pub chosen_from : (ℕ → Bool) → ℕ → ℕ → List ℕ
chosen_from allowed zero cpu = []
chosen_from allowed (suc left) cpu =
    let rest = chosen_from allowed left (suc cpu) in if allowed cpu then cpu ∷ rest else rest

abbrev pub add_range : (ℕ → Bool) → Option (ℕ × ℕ) → Option (List ℕ) → Option (List ℕ)
add_range allowed (some (first, last)) (some rest) =
    if leb set_size last then none else some (chosen_from allowed (suc last - first) first ++ rest)
add_range allowed _ _ = none

-- The loop over the parts; none where it throws.
unfoldable pub chosen : (ℕ → Bool) → List Line → Option (List ℕ)
unfolding range_of chosen_from
chosen allowed [] = some []
chosen allowed (p ∷ ps) = add_range allowed (range_of p) (chosen allowed ps)

module _ {S : Type 0} (d : Driver) (cpus : Cpus) (failure : Exception) where
  abbrev pub set_cpus : Option (List ℕ) → M S (Unit {0})
  set_cpus (some (c ∷ cs)) = do n ← check d (set_affinity (c ∷ cs)); pure tt
  set_cpus _ = raise failure

  abbrev pub select_cpus : Option Line → M S (Unit {0})
  select_cpus none = raise failure
  select_cpus (some line) = do
    n ← check d get_affinity
    λ w. set_cpus (chosen (cpus.allowed w.trace) (split_commas line)) w

  unfoldable pub bind_cpu : ℕ → M S (Unit {0})
  bind_cpu node = select_cpus (cpus.cpulist node)

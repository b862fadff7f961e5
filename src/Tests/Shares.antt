-- ===== src/Tests/Shares.antt =====
-- Runs of device_share and multi_share, and words over a socket.
use ascend_hal_sharing_probe.Prelude.{
  ℕ, ◌+◌, ◌-◌, ◌/◌, ◌%◌, ◌^◌, ◌≤◌, ◌≡◌, ◌⊎◌, refl, ap, pos, true, false, [], ◌∷◌, arith,
}
use Prim.Native.Nat.{min}
use ascend_hal_sharing_probe.Effects.{Reply, Driver, World, receive_bytes}
use ascend_hal_sharing_probe.Effects.Ledger.{gains, given, address, memory, mapping}
use ascend_hal_sharing_probe.Effects.Outcomes.{Ends}
use ascend_hal_sharing_probe.DataStrategy.Accounts.{held_all}
use ascend_hal_sharing_probe.Common.Books.{IsKept}
use ascend_hal_sharing_probe.Common.Retry.{IsPatient}
use ascend_hal_sharing_probe.Common.Teardown.{Never}
use ascend_hal_sharing_probe.Cli.{receive_word}
use ascend_hal_sharing_probe.Cli.Words.{Delivers, receive_word-Arrived}
use ascend_hal_sharing_probe.DeviceShare.{DeviceShare, device_share, worker}
use ascend_hal_sharing_probe.DeviceShare.Stages.{holds}
use ascend_hal_sharing_probe.DeviceShare.Balance.{Over, worker-IsReturned}
use ascend_hal_sharing_probe.MultiShare.Options.{
  MultiOptions, multi_options, is_refused, slice, reserve_bytes,
}
use ascend_hal_sharing_probe.MultiShare.Options.Layout.{
  IsLaidOut, is_refused-IsLaidOut, slice-disjoint,
}
use ascend_hal_sharing_probe.MultiShare.Barriers.{
  Group, GroupSteps, start, begin, then_step, arrive, bump,
}
use ascend_hal_sharing_probe.MultiShare.Barriers.Invariant.{steps-together, steps-lockstep}
use ascend_hal_sharing_probe.MultiShare.Barriers.Progress.{IsOver, CanStep, steps-progress}
use ascend_hal_sharing_probe.MultiShare.Barriers.Meeting.{MeetingSteps, meeting, steps-MeetingSteps}
use ascend_hal_sharing_probe.Tests.Probes.{agreeing, agreeing-IsPlain, agreeing-IsPatient, letters}

abbrev share_world : World DeviceShare
share_world = record { self = device_share; trace = []; input = [] }

share_world-IsKept : IsKept holds share_world
unfolding gains given held_all
share_world-IsKept (address n) real = ground arith
share_world-IsKept (memory n) real = ground arith
share_world-IsKept (mapping n) real = ground arith

worker-IsReturned_example : Ends Over Never (worker agreeing letters 1 true 5 2097152 share_world)
worker-IsReturned_example =
    worker-IsReturned agreeing letters 1 agreeing-IsPlain agreeing-IsPatient true 5 2097152
      share_world share_world-IsKept (refl, refl, refl) (refl, refl, refl)

-- A stream that delivers at most three bytes of the word 81985529216486895 at a time.
abbrev at_a_time : ℕ → ℕ
at_a_time left = min left 3

abbrev three_bytes : Driver
three_bytes t (receive_bytes fd left) = record {
  ret = pos (at_a_time left);
  out = 81985529216486895 / 256 ^ (8 - left) % 256 ^ at_a_time left;
}
three_bytes t c = record { ret = pos 0; out = 0 }

three_bytes-IsPatient : IsPatient three_bytes 1
three_bytes-IsPatient (receive_bytes fd left) t h = ground arith
three_bytes-IsPatient c t h = ground arith

three_bytes-Delivers : Delivers three_bytes 4 81985529216486895
three_bytes-Delivers = record {
  amount = λ t n. min (8 - n) 3;
  some_bytes = λ t n lt. omega arith;
  within = λ t n lt. omega arith;
  answers = λ t n lt calm.
      let same : 8 - (8 - n) ≡ n = omega arith in
      ap
        (λ (k : ℕ).
          let r : Reply = record {
            ret = pos (min (8 - n) 3);
            out = 81985529216486895 / 256 ^ k % 256 ^ min (8 - n) 3;
          } in
          r)
        same;
}

abbrev word_world : World ℕ
word_world = record { self = 0; trace = []; input = [] }

receive_word-Arrived_example :
    Ends (λ v w. v ≡ 81985529216486895) (λ w. ⊥) (receive_word three_bytes 1 4 word_world)
receive_word-Arrived_example =
    receive_word-Arrived ℕ three_bytes 1 4 81985529216486895 (omega arith) three_bytes-IsPatient
      three_bytes-Delivers word_world

abbrev pub three_devices : MultiOptions
three_devices = record multi_options {
  devices = 1 ∷ 2 ∷ 4 ∷ [];
  nodes = 6 ∷ 4 ∷ 0 ∷ [];
  bytes = 33554432;
}

three_devices-accepted : is_refused false three_devices ≡ false
unfolding is_refused
three_devices-accepted = refl

is_refused-IsLaidOut_example : IsLaidOut three_devices
is_refused-IsLaidOut_example = is_refused-IsLaidOut false three_devices three_devices-accepted

slice-disjoint_example :
    (slice three_devices 1073741824 0 + 33554432 ≤ slice three_devices 1073741824 2)
    × (slice three_devices 1073741824 2 + 33554432 ≤ 1073741824 + reserve_bytes three_devices)
slice-disjoint_example =
    slice-disjoint false three_devices 1073741824 0 2 three_devices-accepted
      (omega (arith, (is_refused-IsLaidOut false three_devices three_devices-accepted).close))
      (omega arith) (omega arith) (omega arith)

-- Two workers, of which the first has arrived at the first barrier.
abbrev one_waits : Group
one_waits = record start { sent = bump 0 start.sent }

one_waits-GroupSteps : GroupSteps 2 one_waits
one_waits-GroupSteps = then_step begin (arrive 0 (omega arith) refl refl (omega arith))

steps-together_example : one_waits.passed 0 ≤ one_waits.sent 1
steps-together_example = steps-together 2 one_waits-GroupSteps 0 1 (omega arith) (omega arith)

steps-lockstep_example : start.passed 0 ≡ start.passed 1
steps-lockstep_example = steps-lockstep 2 begin 0 1 (omega arith) (omega arith) refl refl

steps-progress_example : IsOver 2 one_waits ⊎ CanStep 2 one_waits
steps-progress_example = steps-progress 2 one_waits-GroupSteps (λ i lt. refl)

steps-MeetingSteps_example : MeetingSteps 2 (meeting one_waits)
steps-MeetingSteps_example = steps-MeetingSteps 2 one_waits-GroupSteps

-- ===== src/Tests/Probes.antt =====
-- Runs of hal_map_probe and hal_host_io.
use ascend_hal_sharing_probe.Prelude.{
  ℕ, ◌+◌, ◌*◌, ◌<◌, ◌/◌, ◌≡◌, ◌↔◌, refl, suc, pos, true, false, [], arith, length,
}
use ascend_hal_sharing_probe.Effects.{
  Call, Driver, World, address_reserve, export_handle, import_handle, send_bytes, receive_bytes,
  positioned, create_file,
}
use ascend_hal_sharing_probe.Effects.Ledger.{gains, given, address, memory, mapping}
use ascend_hal_sharing_probe.Effects.Outcomes.{Ends}
use ascend_hal_sharing_probe.DataStrategy.Accounts.{held_all}
use ascend_hal_sharing_probe.Text.{bytes_of}
use ascend_hal_sharing_probe.Prelude.{List, ◌∷◌}
use ascend_hal_sharing_probe.Text.{Line}
use ascend_hal_sharing_probe.Common.Books.{IsKept}
use ascend_hal_sharing_probe.Common.Evens.{IsPlain}
use ascend_hal_sharing_probe.Common.Retry.{IsPatient}
use ascend_hal_sharing_probe.Common.Teardown.{Never}
use ascend_hal_sharing_probe.Common.Pattern.{
  Memory, pattern_word, verify, HasReturned, verify_iff, verify-one_seed,
}
use ascend_hal_sharing_probe.Common.AioOperation.{IoEvent, requests, has_failed}
use ascend_hal_sharing_probe.Common.AioOperation.Completions.{AllFull, events_of, has_failed_iff}
use ascend_hal_sharing_probe.HalMapProbe.{MapProbe, map_probe, worker}
use ascend_hal_sharing_probe.HalMapProbe.Balance as MapBalance
use ascend_hal_sharing_probe.HalHostIo.{HostIo, host_io}
use ascend_hal_sharing_probe.HalHostIo.Arguments.{
  main, parse, default_arguments, Accepts, parse-IsSized,
}
use ascend_hal_sharing_probe.HalHostIo.Verdict.{Verdict}
use ascend_hal_sharing_probe.HalHostIo.Balance as IoBalance

abbrev answer : Call → ℕ
answer (send_bytes fd bytes count) = count
answer (receive_bytes fd count) = count
answer (positioned write fd addr bytes offset) = bytes
answer (create_file direct) = 3
answer c = 0

abbrev output : ℕ → Call → ℕ
output n (address_reserve size) = 1099511627776 * suc n
output n (Call.mem_create size prop) = 500 + n
output n (export_handle handle) = 9000 + handle
output n (import_handle token target) = 700 + n
output n c = 0

-- Everything succeeds, and peers send zeros.
abbrev pub agreeing : Driver
agreeing t c = record { ret = pos (answer c); out = output (length t) c }

pub agreeing-IsPlain : IsPlain agreeing
agreeing-IsPlain = record {
  no_create = λ t size prop bad. absurd (ground arith);
  no_import = λ t token target bad. absurd (ground arith);
}

pub agreeing-IsPatient : IsPatient agreeing 1
agreeing-IsPatient c t h = ground arith

-- Memory that reads as 'A' in every byte.
abbrev pub letters : Memory
letters t a i = 65

abbrev map_world : World MapProbe
map_world = record { self = map_probe; trace = []; input = [] }

map_world-IsKept : IsKept MapBalance.holds map_world
unfolding gains given held_all
map_world-IsKept (address n) real = ground arith
map_world-IsKept (memory n) real = ground arith
map_world-IsKept (mapping n) real = ground arith

worker-Over_example :
    Ends MapBalance.Over Never (worker agreeing letters 1 true false 0 2097152 5 map_world)
worker-Over_example =
    MapBalance.worker-Over agreeing letters 1 agreeing-IsPlain agreeing-IsPatient true false 0
      2097152 5 map_world map_world-IsKept (refl, refl, refl) (omega arith)

abbrev io_world : World HostIo
io_world = record { self = host_io; trace = []; input = [] }

io_world-IsKept : IsKept IoBalance.holds io_world
unfolding gains given held_all
io_world-IsKept (address n) real = ground arith
io_world-IsKept (memory n) real = ground arith
io_world-IsKept (mapping n) real = ground arith

-- "--size-mib 3 /tmp"
abbrev io_words : List Line
io_words = bytes_of "--size-mib" ∷ bytes_of "3" ∷ bytes_of "/tmp" ∷ []

main-Done_example : Ends IoBalance.Done Never (main agreeing letters 1 io_words io_world)
main-Done_example =
    IoBalance.main-Done agreeing letters 1 agreeing-IsPlain agreeing-IsPatient io_words io_world
      io_world-IsKept (refl, refl, refl) (omega arith)

parse-IsSized_example : Accepts (parse io_words default_arguments)
parse-IsSized_example = parse-IsSized io_words

-- Memory that holds the pattern for the seed 101.
abbrev filled : Memory
filled t a i = pattern_word i 101

verify_iff_example :
    HasReturned (verify filled 4096 64 101 io_world)
    ↔ ((i : ℕ) → i < 64 / 8 → filled [] 4096 i ≡ pattern_word i 101)
verify_iff_example = verify_iff filled 4096 64 101 io_world

verify-one_seed_example : ◌≡◌ {A = ℕ} 101 101
verify-one_seed_example =
    verify-one_seed filled 4096 64 101 101 io_world (omega arith) (omega arith) (omega arith)
      ((verify_iff filled 4096 64 101 io_world).1 (λ i lt. refl))
      ((verify_iff filled 4096 64 101 io_world).1 (λ i lt. refl))

abbrev quarter_done : ℕ → IoEvent
quarter_done i = record { index = i; res = pos 1024; res2 = pos 0 }

-- The four requests, in another order.
abbrev four_events : List IoEvent
four_events = quarter_done 2 ∷ quarter_done 0 ∷ quarter_done 3 ∷ quarter_done 1 ∷ []

has_failed_iff_example :
    (has_failed 1024 0 four_events ≡ false)
    ↔ (AllFull 1024 four_events × ((i : ℕ) → i < requests → events_of i four_events ≡ 1))
has_failed_iff_example = has_failed_iff 1024 four_events refl

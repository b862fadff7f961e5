-- ===== src/HostShare/Variables.antt =====
-- What `io_tests` holds in its variables: a descriptor and a buffer.
use ascend_hal_sharing_probe.Prelude.{
  ℕ, ◌+◌, ◌≡◌, refl, Bool, ◌==◌, arith, is_zero, pos, negsuc, ℤ, if◌then◌else◌,
}
use ascend_hal_sharing_probe.Effects.{Reply, create_file, close_file, allocate, free}
use ascend_hal_sharing_probe.Effects.Ledger.{one_if}
use ascend_hal_sharing_probe.Effects.Tally.{
  Item, file, buffer, stream, is_descriptor, IsItem, opened, closed,
}

-- The descriptor, or none, and the buffer that the part at work holds.
abbrev pub with_descriptor : (Item → ℕ) → ℤ → Item → ℕ
with_descriptor extra ret (file n) = extra (file n) + one_if (is_descriptor n ret)
with_descriptor extra ret x = extra x

abbrev pub with_control : (Item → ℕ) → ℕ → Item → ℕ
with_control extra at (buffer n) = extra (buffer n) + one_if (at == n)
with_control extra at x = extra x

pub file_closed :
    (extra : Item → ℕ) (fd : ℕ) (x : Item)
    → IsItem x
    → (r : Reply)
    → (extra x + closed x (close_file fd) ≡ with_descriptor extra (pos fd) x)
      × (opened x (close_file fd) r ≡ 0)
file_closed extra fd (stream n) real r = (ground arith, refl)
file_closed extra fd _ real r = (ground arith, refl)

pub file_opened :
    (extra : Item → ℕ) (with_direct : Bool) (x : Item)
    → IsItem x
    → (r : Reply)
    → with_descriptor extra r.ret x + closed x (create_file with_direct)
      ≡ extra x + opened x (create_file with_direct) r
file_opened extra with_direct (stream n) real r = ground arith
file_opened extra with_direct _ real r = ground arith

pub no_file : (extra : Item → ℕ) (n : ℕ) (x : Item) → with_descriptor extra (negsuc n) x ≡ extra x
no_file extra n (stream m) = refl
no_file extra n (file m) = ground arith
no_file extra n _ = refl

pub buffer_closed :
    (extra : Item → ℕ) (at : ℕ) (x : Item)
    → IsItem x
    → (r : Reply)
    → (extra x + closed x (free at) ≡ with_control extra at x) × (opened x (free at) r ≡ 0)
buffer_closed extra at (stream n) real r = (ground arith, refl)
buffer_closed extra at _ real r = (ground arith, refl)

pub buffer_opened :
    (extra : Item → ℕ) (bytes : ℕ) (x : Item)
    → IsItem x
    → (r : Reply)
    → (if is_zero r.ret then with_control extra r.out x else extra x) + closed x (allocate bytes)
      ≡ extra x + opened x (allocate bytes) r
buffer_opened extra bytes (stream n) real r = ground arith
buffer_opened extra bytes _ real r = ground arith

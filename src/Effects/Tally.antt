-- ===== src/Effects/Tally.antt =====
-- What a history of calls has opened and closed besides the driver's memory: streams, events, memory
-- of the device, AIO contexts, file descriptors and buffers.
use ascend_hal_sharing_probe.Prelude.{
  ℕ, ◌+◌, ◌≡◌, ◌≢◌, arith, ℤ, pos, negsuc, Bool, true, false, ◌&&◌, [], ◌∷◌, ◌==◌, is_zero,
}
use ascend_hal_sharing_probe.Effects.{Call, Reply, Trace, World, Driver}
use ascend_hal_sharing_probe.Effects.Ledger.{one_if, is_neutral}
use ascend_hal_sharing_probe.Effects.Outcomes.{after}

pub data Item : Type 0 where
  stream event device_memory context file buffer : ℕ → Item

-- A null handle names no item; every descriptor does.
abbrev pub IsItem : Item → Type 0
IsItem (stream n) = n ≢ 0
IsItem (event n) = n ≢ 0
IsItem (device_memory n) = n ≢ 0
IsItem (context n) = n ≢ 0
IsItem (file n) = Unit {0}
IsItem (buffer n) = n ≢ 0

abbrev pub is_descriptor : ℕ → ℤ → Bool
is_descriptor n (pos fd) = fd == n
is_descriptor n (negsuc m) = false

-- A handle counts as opened once the call has written it, a buffer once the call has succeeded.
abbrev pub opened : Item → Call → Reply → ℕ
opened (stream n) Call.create_stream r = one_if (r.out == n)
opened (event n) Call.create_event r = one_if (r.out == n)
opened (device_memory n) (Call.malloc_device size) r = one_if (r.out == n)
opened (context n) (Call.io_setup depth) r = one_if (r.out == n)
opened (file n) (Call.create_file direct) r = one_if (is_descriptor n r.ret)
opened (file n) (Call.open_file name write) r = one_if (is_descriptor n r.ret)
opened (buffer n) (Call.allocate size) r = one_if (is_zero r.ret && r.out == n)
opened _ _ r = 0

abbrev pub closed : Item → Call → ℕ
closed (stream n) (Call.destroy_stream m) = one_if (m == n)
closed (event n) (Call.destroy_event m) = one_if (m == n)
closed (device_memory n) (Call.free_device m) = one_if (m == n)
closed (context n) (Call.io_destroy m) = one_if (m == n)
closed (file n) (Call.close_file m) = one_if (m == n)
closed (buffer n) (Call.free m) = one_if (m == n)
closed _ _ = 0

-- The calls that open and close nothing.
abbrev pub is_still : Call → Bool
is_still Call.create_stream = false
is_still Call.create_event = false
is_still (Call.malloc_device size) = false
is_still (Call.io_setup depth) = false
is_still (Call.create_file direct) = false
is_still (Call.open_file name write) = false
is_still (Call.allocate size) = false
is_still (Call.destroy_stream m) = false
is_still (Call.destroy_event m) = false
is_still (Call.free_device m) = false
is_still (Call.io_destroy m) = false
is_still (Call.close_file m) = false
is_still (Call.free m) = false
is_still _ = true

-- These obtain nothing from the driver either.
abbrev pub is_quiet : Call → Bool
is_quiet c = is_neutral c && is_still c

unfoldable pub opens : Item → Trace → ℕ
opens x [] = 0
opens x ((c, r) ∷ t) = opens x t + opened x c r

unfoldable pub closes : Item → Trace → ℕ
closes x [] = 0
closes x ((c, r) ∷ t) = closes x t + closed x c

pub opened-still : (x : Item) (c : Call) (r : Reply) → is_still c ≡ true → opened x c r ≡ 0
opened-still (stream n) c r h = ground arith
opened-still _ c r h = ground arith

pub closed-still : (x : Item) (c : Call) → is_still c ≡ true → closed x c ≡ 0
closed-still (stream n) c h = ground arith
closed-still _ c h = ground arith

-- What was opened since a history and is not closed: what the object holds, and what the part at work
-- holds in its variables.
abbrev pub Tally : {S : Type 0} → (Item → S → ℕ) → (Item → ℕ) → Trace → World S → Type 0
Tally held extra t w =
    (x : Item)
    → IsItem x
    → opens x w.trace + closes x t ≡ closes x w.trace + opens x t + (held x w.self + extra x)

-- A call and the change of what is held come to the same.
pub changed-Tally :
    {S : Type 0} (held : Item → S → ℕ) (extra extra' : Item → ℕ) (t : Trace) (d : Driver) (c : Call)
    (s : S) (w : World S)
    → Tally held extra t w
    → ((x : Item)
        → IsItem x
        → held x s + extra' x + closed x c ≡ held x w.self + extra x + opened x c (d w.trace c))
    → Tally held extra' t (record w { self = s; trace = (c, d w.trace c) ∷ w.trace })
unfolding opens closes
changed-Tally held extra extra' t d c s w h even x real = omega (arith, h x real, even x real)

pub called-Tally :
    {S : Type 0} (held : Item → S → ℕ) (extra : Item → ℕ) (t : Trace) (d : Driver) (c : Call)
    (w : World S)
    → is_still c ≡ true
    → Tally held extra t w
    → Tally held extra t (after d c w)
called-Tally held extra t d c w still h =
    changed-Tally held extra extra t d c w.self w h
      λ x real. omega (arith, opened-still x c (d w.trace c) still, closed-still x c still)

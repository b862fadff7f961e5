-- ===== src/Effects/Ledger.antt =====
-- What a history of calls has obtained from the driver and what it has given back: addresses,
-- memory handles and mappings.
use ascend_hal_sharing_probe.Prelude.{
  ℕ, ◌+◌, ◌≡◌, ◌≢◌, arith, Bool, true, false, ◌&&◌, List, [], ◌∷◌, ◌++◌, ◌==◌, is_zero,
  if◌then◌else◌,
}
use ascend_hal_sharing_probe.Effects.{
  Call, Reply, Trace, address_reserve, address_free, mem_create, mem_release, mem_map, mem_unmap,
  import_handle,
}

pub data Resource : Type 0 where
  address memory mapping : ℕ → Resource

-- A null pointer names no resource.
abbrev pub IsReal : Resource → Type 0
IsReal (address a) = a ≢ 0
IsReal (memory h) = h ≢ 0
IsReal (mapping a) = Unit {0}

abbrev pub one_if : Bool → ℕ
one_if b = if b then 1 else 0

-- An address counts as obtained once the call has written it, a handle or a mapping once the call
-- has succeeded.
abbrev pub gained : Resource → Call → Reply → ℕ
gained (address a) (address_reserve size) r = one_if (r.out == a)
gained (memory h) (mem_create size prop) r = one_if (is_zero r.ret && r.out == h)
gained (memory h) (import_handle token device) r = one_if (is_zero r.ret && r.out == h)
gained (mapping a) (mem_map addr size handle) r = one_if (is_zero r.ret && addr == a)
gained _ _ r = 0

abbrev pub lost : Resource → Call → ℕ
lost (address a) (address_free addr) = one_if (addr == a)
lost (memory h) (mem_release handle) = one_if (handle == h)
lost (mapping a) (mem_unmap addr) = one_if (addr == a)
lost _ _ = 0

-- The calls that neither obtain nor give back anything.
abbrev pub is_neutral : Call → Bool
is_neutral (Call.address_reserve size) = false
is_neutral (Call.address_free addr) = false
is_neutral (Call.mem_create size prop) = false
is_neutral (Call.mem_release handle) = false
is_neutral (Call.mem_map addr size handle) = false
is_neutral (Call.mem_unmap addr) = false
is_neutral (Call.import_handle token device) = false
is_neutral _ = true

pub gained-neutral : (c : Call) (x : Resource) (r : Reply) → is_neutral c ≡ true → gained x c r ≡ 0
gained-neutral c (address a) r h = ground arith
gained-neutral c (memory a) r h = ground arith
gained-neutral c (mapping a) r h = ground arith

pub lost-neutral : (c : Call) (x : Resource) → is_neutral c ≡ true → lost x c ≡ 0
lost-neutral c (address a) h = ground arith
lost-neutral c (memory a) h = ground arith
lost-neutral c (mapping a) h = ground arith

unfoldable pub gains : Resource → Trace → ℕ
gains x [] = 0
gains x ((c, r) ∷ t) = gains x t + gained x c r

unfoldable pub losses : Resource → List Call → ℕ
losses x [] = 0
losses x (c ∷ cs) = lost x c + losses x cs

-- What a call has given back, and what the driver has refused to take back.
abbrev pub returned : Resource → Call → Reply → ℕ
returned x c r = if is_zero r.ret then lost x c else 0

abbrev pub declined : Resource → Call → Reply → ℕ
declined x c r = if is_zero r.ret then 0 else lost x c

unfoldable pub given : Resource → Trace → ℕ
given x [] = 0
given x ((c, r) ∷ t) = given x t + returned x c r

unfoldable pub refused : Resource → Trace → ℕ
refused x [] = 0
refused x ((c, r) ∷ t) = refused x t + declined x c r

-- The calls, oldest first.
unfoldable pub history : Trace → List Call
history [] = []
history ((c, r) ∷ t) = history t ++ (c ∷ [])

pub losses-append :
    (x : Resource) (cs ds : List Call) → losses x (cs ++ ds) ≡ losses x cs + losses x ds
unfolding losses
losses-append x [] ds = omega arith
losses-append x (c ∷ cs) ds = omega (arith, losses-append x cs ds)

pub returned-neutral :
    (c : Call) (x : Resource) (r : Reply) → is_neutral c ≡ true → returned x c r ≡ 0
returned-neutral c x r h = ground (arith, lost-neutral c x h)

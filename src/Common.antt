-- ===== src/Common.antt =====
-- common.hpp: checked calls, allocations and their destructor. A program's state is a parameter, and
-- a place is an allocation that stands in it.
pub mod Books
pub mod Rules
pub mod Evens
pub mod Places
pub mod Teardown
pub mod Retry
pub mod Pattern
pub mod AioOperation
pub mod Items
pub mod Calls
pub mod Quiet
pub mod Acl
use ascend_hal_sharing_probe.Prelude.{ℕ, ◌==◌, is_zero, if◌then◌else◌, Bool, true, false, not}
use ascend_hal_sharing_probe.Status.{plain}
use ascend_hal_sharing_probe.Effects.{
  MemProp, Call, Reply, Driver, Exception, runtime_error, M, address_reserve, address_free,
  import_handle, pure, raise, gets, modify, call, ◌>>=◌, ◌>>◌,
}
use ascend_hal_sharing_probe.Prelude.{ℤ}
use ascend_hal_sharing_probe.DataStrategy.{Mapping}

-- `struct Allocation`: the address (`va`), the handle, and whether they are mapped, as in a Mapping.
abbrev pub Allocation : Type 0
Allocation = Mapping

abbrev pub allocation : Allocation
allocation = record { handle = 0; addr = 0; mapped = false }

abbrev pub with_addr : ℕ → Allocation → Allocation
with_addr n a = record a { addr = n }

abbrev pub with_handle : ℕ → Allocation → Allocation
with_handle n a = record a { handle = n }

abbrev pub with_mapped : Bool → Allocation → Allocation
with_mapped b a = record a { mapped = b }

pub record Place (S : Type 0) : Type 0 where
  pub get : S → Allocation
  pub put : Allocation → S → S

abbrev pub failed_check : Exception
failed_check = runtime_error (plain "name")

module _ {S : Type 0} (d : Driver) where
  abbrev pub check_reply : Reply → M S ℕ
  check_reply r = if is_zero r.ret then pure r.out else raise failed_check

  -- `check(call, name)`: a result other than zero throws.
  abbrev pub check : Call → M S ℕ
  check c = do r ← call d c; check_reply r

  -- `cleanup(call, name)`: a result other than zero is noted.
  abbrev pub cleanup : (S → S) → Call → M S (Unit {0})
  cleanup note c = do r ← call d c; if is_zero r.ret then pure tt else modify note

  -- A checked call that writes through a pointer into the allocation.
  abbrev pub writes : Place S → (Allocation → Call) → (Reply → Allocation → Allocation) → M S ℕ
  writes p c u = do a ← gets p.get; r ← call d (c a); modify (p.put (u r a)); check_reply r

  -- A checked call, and what is noted of the allocation when it has succeeded.
  abbrev pub marks : Place S → (Allocation → Call) → (Allocation → Allocation) → M S (Unit {0})
  marks p c u = do a ← gets p.get; n ← check (c a); modify (p.put (u a))

  -- The statements of the programs on an allocation.
  abbrev pub reserve : Place S → ℕ → M S ℕ
  reserve p size = writes p (λ a. address_reserve size) (λ r. with_addr r.out)

  abbrev pub create : Place S → ℕ → MemProp → M S ℕ
  create p size prop = writes p (λ a. Call.mem_create size prop) (λ r. with_handle r.out)

  abbrev pub import : Place S → ℕ → ℤ → M S ℕ
  import p token target = writes p (λ a. import_handle token target) (λ r. with_handle r.out)

  abbrev pub map_whole : Place S → ℕ → M S (Unit {0})
  map_whole p size = marks p (λ a. Call.mem_map a.addr size a.handle) (with_mapped true)

  abbrev pub unmap : Place S → M S (Unit {0})
  unmap p = marks p (λ a. Call.mem_unmap a.addr) (with_mapped false)

  abbrev pub release : Place S → M S (Unit {0})
  release p = marks p (λ a. Call.mem_release a.handle) (with_handle 0)

  abbrev pub free_address : Place S → M S (Unit {0})
  free_address p = marks p (λ a. address_free a.addr) (with_addr 0)

  -- `~Allocation`
  unfoldable pub destroy : (S → S) → Allocation → M S (Unit {0})
  destroy note a = do
    if a.mapped then cleanup note (Call.mem_unmap a.addr) else pure tt
    if not (a.handle == 0) then cleanup note (Call.mem_release a.handle) else pure tt
    if not (a.addr == 0) then cleanup note (address_free a.addr) else pure tt

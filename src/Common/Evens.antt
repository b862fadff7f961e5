-- ===== src/Common/Evens.antt =====
-- What a statement on an allocation obtains or gives back is what the allocation gains or loses.
use ascend_hal_sharing_probe.Prelude.{ℕ, ◌+◌, ◌≡◌, true, false, arith, is_zero, ℤ}
use ascend_hal_sharing_probe.Effects.{
  Call, Driver, MemProp, Reply, Trace, address_reserve, address_free, import_handle,
}
use ascend_hal_sharing_probe.Effects.Ledger.{
  Resource, address, memory, mapping, IsReal, gained, lost, returned,
}
use ascend_hal_sharing_probe.DataStrategy.Accounts.{held}
use ascend_hal_sharing_probe.Common.{Allocation, with_addr, with_handle, with_mapped}

-- A failed creation or import leaves the handle null.
pub record IsPlain (d : Driver) : Type 0 where
  pub no_create :
      (t : Trace) (size : ℕ) (prop : MemProp)
      → is_zero (d t (Call.mem_create size prop)).ret ≡ false
      → (d t (Call.mem_create size prop)).out ≡ 0
  pub no_import :
      (t : Trace) (token : ℕ) (target : ℤ)
      → is_zero (d t (import_handle token target)).ret ≡ false
      → (d t (import_handle token target)).out ≡ 0

-- The stages of an allocation.
abbrev pub IsBlank : Allocation → Type 0
IsBlank a = (a.addr ≡ 0) × (a.handle ≡ 0) × (a.mapped ≡ false)

abbrev pub IsReserved : Allocation → Type 0
IsReserved a = (a.handle ≡ 0) × (a.mapped ≡ false)

abbrev pub IsUnmapped : Allocation → Type 0
IsUnmapped a = a.mapped ≡ false

abbrev pub IsMapped : Allocation → Type 0
IsMapped a = a.mapped ≡ true

-- The call and the change of the allocation come to the same.
abbrev pub Evens :
    (Allocation → Type 0)
    → Driver
    → (Allocation → Call)
    → (Reply → Allocation → Allocation)
    → Type 0
Evens A d c u =
    (x : Resource)
    → IsReal x
    → (t : Trace) (a : Allocation) → A a
    → held x (u (d t (c a)) a) + returned x (c a) (d t (c a))
      ≡ held x a + gained x (c a) (d t (c a))

-- The same for a call whose change is noted when it has succeeded.
pub record Takes (A : Allocation → Type 0) (c : Allocation → Call) (u : Allocation → Allocation)
    : Type 0 where
  pub good :
      (x : Resource)
      → IsReal x
      → (a : Allocation) (r : Reply) → A a
      → is_zero r.ret ≡ true
      → held x (u a) + lost x (c a) ≡ held x a + gained x (c a) r
  pub bad :
      (x : Resource)
      → IsReal x
      → (a : Allocation) (r : Reply) → is_zero r.ret ≡ false
      → gained x (c a) r ≡ 0

pub reserve-Evens :
    (d : Driver) (size : ℕ) → Evens IsBlank d (λ a. address_reserve size) (λ r. with_addr r.out)
reserve-Evens d size (address n) real t a h = ground arith
reserve-Evens d size (memory n) real t a h = ground arith
reserve-Evens d size (mapping n) real t a h = ground arith

pub create-Evens :
    (d : Driver) (size : ℕ) (prop : MemProp)
    → IsPlain d
    → Evens IsReserved d (λ a. Call.mem_create size prop) (λ r. with_handle r.out)
create-Evens d size prop plain (address n) real t a h = ground arith
create-Evens d size prop plain (memory n) real t a h = ground (arith, plain.no_create t size prop)
create-Evens d size prop plain (mapping n) real t a h = ground arith

pub import-Evens :
    (d : Driver) (token : ℕ) (target : ℤ)
    → IsPlain d
    → Evens IsReserved d (λ a. import_handle token target) (λ r. with_handle r.out)
import-Evens d token target plain (address n) real t a h = ground arith
import-Evens d token target plain (memory n) real t a h =
    ground (arith, plain.no_import t token target)
import-Evens d token target plain (mapping n) real t a h = ground arith

map-Takes_good :
    (size : ℕ) (x : Resource)
    → IsReal x
    → (a : Allocation) (r : Reply) → IsUnmapped a
    → is_zero r.ret ≡ true
    → held x ((with_mapped true) a) + lost x (Call.mem_map a.addr size a.handle)
      ≡ held x a + gained x (Call.mem_map a.addr size a.handle) r
map-Takes_good size (address n) real a r h e = ground arith
map-Takes_good size (memory n) real a r h e = ground arith
map-Takes_good size (mapping n) real a r h e = ground arith

map-Takes_bad :
    (size : ℕ) (x : Resource)
    → IsReal x
    → (a : Allocation) (r : Reply) → is_zero r.ret ≡ false
    → gained x (Call.mem_map a.addr size a.handle) r ≡ 0
map-Takes_bad size (address n) real a r e = ground arith
map-Takes_bad size (memory n) real a r e = ground arith
map-Takes_bad size (mapping n) real a r e = ground arith

pub map-Takes :
    (size : ℕ) → Takes IsUnmapped (λ a. Call.mem_map a.addr size a.handle) (with_mapped true)
map-Takes size = record {
  good = λ x real a r h e. map-Takes_good size x real a r h e;
  bad = λ x real a r e. map-Takes_bad size x real a r e;
}

unmap-Takes_good :
    (x : Resource)
    → IsReal x
    → (a : Allocation) (r : Reply) → IsMapped a
    → is_zero r.ret ≡ true
    → held x ((with_mapped false) a) + lost x (Call.mem_unmap a.addr)
      ≡ held x a + gained x (Call.mem_unmap a.addr) r
unmap-Takes_good (address n) real a r h e = ground arith
unmap-Takes_good (memory n) real a r h e = ground arith
unmap-Takes_good (mapping n) real a r h e = ground arith

unmap-Takes_bad :
    (x : Resource)
    → IsReal x
    → (a : Allocation) (r : Reply) → is_zero r.ret ≡ false
    → gained x (Call.mem_unmap a.addr) r ≡ 0
unmap-Takes_bad (address n) real a r e = ground arith
unmap-Takes_bad (memory n) real a r e = ground arith
unmap-Takes_bad (mapping n) real a r e = ground arith

pub unmap-Takes : Takes IsMapped (λ a. Call.mem_unmap a.addr) (with_mapped false)
unmap-Takes = record {
  good = λ x real a r h e. unmap-Takes_good x real a r h e;
  bad = λ x real a r e. unmap-Takes_bad x real a r e;
}

release-Takes_good :
    (x : Resource)
    → IsReal x
    → (a : Allocation) (r : Reply) → IsUnmapped a
    → is_zero r.ret ≡ true
    → held x ((with_handle 0) a) + lost x (Call.mem_release a.handle)
      ≡ held x a + gained x (Call.mem_release a.handle) r
release-Takes_good (address n) real a r h e = ground arith
release-Takes_good (memory n) real a r h e = ground arith
release-Takes_good (mapping n) real a r h e = ground arith

release-Takes_bad :
    (x : Resource)
    → IsReal x
    → (a : Allocation) (r : Reply) → is_zero r.ret ≡ false
    → gained x (Call.mem_release a.handle) r ≡ 0
release-Takes_bad (address n) real a r e = ground arith
release-Takes_bad (memory n) real a r e = ground arith
release-Takes_bad (mapping n) real a r e = ground arith

pub release-Takes : Takes IsUnmapped (λ a. Call.mem_release a.handle) (with_handle 0)
release-Takes = record {
  good = λ x real a r h e. release-Takes_good x real a r h e;
  bad = λ x real a r e. release-Takes_bad x real a r e;
}

free-Takes_good :
    (x : Resource)
    → IsReal x
    → (a : Allocation) (r : Reply) → IsReserved a
    → is_zero r.ret ≡ true
    → held x ((with_addr 0) a) + lost x (address_free a.addr)
      ≡ held x a + gained x (address_free a.addr) r
free-Takes_good (address n) real a r h e = ground arith
free-Takes_good (memory n) real a r h e = ground arith
free-Takes_good (mapping n) real a r h e = ground arith

free-Takes_bad :
    (x : Resource)
    → IsReal x
    → (a : Allocation) (r : Reply) → is_zero r.ret ≡ false
    → gained x (address_free a.addr) r ≡ 0
free-Takes_bad (address n) real a r e = ground arith
free-Takes_bad (memory n) real a r e = ground arith
free-Takes_bad (mapping n) real a r e = ground arith

pub free-Takes : Takes IsReserved (λ a. address_free a.addr) (with_addr 0)
free-Takes = record {
  good = λ x real a r h e. free-Takes_good x real a r h e;
  bad = λ x real a r e. free-Takes_bad x real a r e;
}

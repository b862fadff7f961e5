-- ===== src/HostUva/Blocks.antt =====
-- What each call of a writer obtains or gives back.
use ascend_hal_sharing_probe.Prelude.{ℕ, ◌+◌, ◌≡◌, refl, Bool, true, false, [], ◌∷◌, arith, is_zero}
use ascend_hal_sharing_probe.Effects.{huge, Call, Reply, address_reserve, address_free}
use ascend_hal_sharing_probe.Effects.Ledger.{
  Resource, address, memory, mapping, IsReal, gained, lost,
}
use ascend_hal_sharing_probe.HalMemory.{host_memory_prop}
use ascend_hal_sharing_probe.DataStrategy.Accounts.{held_all}
use ascend_hal_sharing_probe.Common.{Allocation}

-- The block of memory, as far as it is obtained.
abbrev pub block : ℕ → ℕ → Bool → Allocation
block va handle mapped = record { handle = handle; addr = va; mapped = mapped }

pub free-even :
    (va : ℕ) (r : Reply) (x : Resource)
    → IsReal x
    → (held_all x (block va 0 false ∷ []) ≡ held_all x ([]) + lost x (address_free va))
      × (gained x (address_free va) r ≡ 0)
unfolding held_all
free-even va r (address n) real = (ground arith, refl)
free-even va r (memory n) real = (ground arith, refl)
free-even va r (mapping n) real = (ground arith, refl)

pub release-even :
    (va handle : ℕ) (r : Reply) (x : Resource)
    → IsReal x
    → (held_all x (block va handle false ∷ [])
        ≡ held_all x (block va 0 false ∷ []) + lost x (Call.mem_release handle))
      × (gained x (Call.mem_release handle) r ≡ 0)
unfolding held_all
release-even va handle r (address n) real = (ground arith, refl)
release-even va handle r (memory n) real = (ground arith, refl)
release-even va handle r (mapping n) real = (ground arith, refl)

pub unmap-even :
    (va handle : ℕ) (r : Reply) (x : Resource)
    → IsReal x
    → (held_all x (block va handle true ∷ [])
        ≡ held_all x (block va handle false ∷ []) + lost x (Call.mem_unmap va))
      × (gained x (Call.mem_unmap va) r ≡ 0)
unfolding held_all
unmap-even va handle r (address n) real = (ground arith, refl)
unmap-even va handle r (memory n) real = (ground arith, refl)
unmap-even va handle r (mapping n) real = (ground arith, refl)

pub reserve-gain :
    (size : ℕ) (r : Reply) (x : Resource)
    → IsReal x
    → is_zero r.ret ≡ true
    → (held_all x (block r.out 0 false ∷ []) ≡ held_all x ([]) + gained x (address_reserve size) r)
      × (lost x (address_reserve size) ≡ 0)
unfolding held_all
reserve-gain size r (address n) real e = (ground arith, refl)
reserve-gain size r (memory n) real e = (ground arith, refl)
reserve-gain size r (mapping n) real e = (ground arith, refl)

pub create-gain :
    (va size : ℕ) (r : Reply) (x : Resource)
    → IsReal x
    → is_zero r.ret ≡ true
    → (held_all x (block va r.out false ∷ [])
        ≡ held_all x (block va 0 false ∷ [])
          + gained x (Call.mem_create size (host_memory_prop huge)) r)
      × (lost x (Call.mem_create size (host_memory_prop huge)) ≡ 0)
unfolding held_all
create-gain va size r (address n) real e = (ground arith, refl)
create-gain va size r (memory n) real e = (ground arith, refl)
create-gain va size r (mapping n) real e = (ground arith, refl)

pub map-gain :
    (va handle size : ℕ) (r : Reply) (x : Resource)
    → IsReal x
    → is_zero r.ret ≡ true
    → (held_all x (block va handle true ∷ [])
        ≡ held_all x (block va handle false ∷ []) + gained x (Call.mem_map va size handle) r)
      × (lost x (Call.mem_map va size handle) ≡ 0)
unfolding held_all
map-gain va handle size r (address n) real e = (ground arith, refl)
map-gain va handle size r (memory n) real e = (ground arith, refl)
map-gain va handle size r (mapping n) real e = (ground arith, refl)

pub reserve-none :
    (size : ℕ) (r : Reply) (x : Resource)
    → IsReal x
    → is_zero r.ret ≡ false
    → r.out ≡ 0
    → (gained x (address_reserve size) r ≡ 0) × (lost x (address_reserve size) ≡ 0)
reserve-none size r (address n) real e none = (ground arith, refl)
reserve-none size r (memory n) real e none = (ground arith, refl)
reserve-none size r (mapping n) real e none = (ground arith, refl)

pub create-none :
    (va size : ℕ) (r : Reply) (x : Resource)
    → IsReal x
    → is_zero r.ret ≡ false
    → (gained x (Call.mem_create size (host_memory_prop huge)) r ≡ 0)
      × (lost x (Call.mem_create size (host_memory_prop huge)) ≡ 0)
create-none va size r (address n) real e = (ground arith, refl)
create-none va size r (memory n) real e = (ground arith, refl)
create-none va size r (mapping n) real e = (ground arith, refl)

pub map-none :
    (va handle size : ℕ) (r : Reply) (x : Resource)
    → IsReal x
    → is_zero r.ret ≡ false
    → (gained x (Call.mem_map va size handle) r ≡ 0) × (lost x (Call.mem_map va size handle) ≡ 0)
map-none va handle size r (address n) real e = (ground arith, refl)
map-none va handle size r (memory n) real e = (ground arith, refl)
map-none va handle size r (mapping n) real e = (ground arith, refl)

-- ===== src/MultiShare/Worker/Slices.antt =====
-- What a worker of multi_share holds, and how a write to one of its variables changes that.
use ascend_hal_sharing_probe.Prelude.{
  ℕ, ◌+◌, ◌<◌, ◌≡◌, refl, ℤ, arith, Bool, true, false, ◌&&◌, ◌==◌, length, is_zero,
}
use ascend_hal_sharing_probe.Effects.{Call, Reply, MemProp, address_reserve, import_handle}
use ascend_hal_sharing_probe.Effects.Ledger.{
  Resource, address, memory, mapping, IsReal, one_if, gained, lost, returned,
}
use ascend_hal_sharing_probe.MultiShare.Options.{MultiOptions, slice}
use ascend_hal_sharing_probe.MultiShare.Worker.{MultiShare, set_handle, set_mapped}
use ascend_hal_sharing_probe.MultiShare.Worker.Sums.{sum_from, sum_from-same, sum_from-changed}

abbrev pub handle_at : ℕ → MultiShare → ℕ → ℕ
handle_at h s i = one_if (s.handles i == h)

abbrev pub mapping_at : MultiOptions → ℕ → MultiShare → ℕ → ℕ
mapping_at o a s i = one_if (s.mapped i && slice o s.base i == a)

abbrev pub holds : MultiOptions → Resource → MultiShare → ℕ
holds o (address a) s = one_if (s.base == a)
holds o (memory h) s = sum_from (handle_at h s) 0 (length o.devices)
holds o (mapping a) s = sum_from (mapping_at o a s) 0 (length o.devices)

module _ (o : MultiOptions) where
  abbrev pub count : ℕ
  count = length o.devices

  -- Nothing is mapped.
  abbrev pub NoneMapped : MultiShare → Type 0
  NoneMapped s = (i : ℕ) → i < count → s.mapped i ≡ false

  pub base-even :
      (x : Resource)
      → IsReal x
      → (size : ℕ) (s : MultiShare) (r : Reply) → s.base ≡ 0
      → NoneMapped s
      → holds o x (record s { base = r.out }) + returned x (address_reserve size) r
        ≡ holds o x s + gained x (address_reserve size) r
  base-even (address a) real size s r unset none = ground arith
  base-even (memory h) real size s r unset none = ground arith
  base-even (mapping a) real size s r unset none =
      let same : sum_from (mapping_at o a (record s { base = r.out })) 0 count
          ≡ sum_from (mapping_at o a s) 0 count =
        sum_from-same (mapping_at o a s) (mapping_at o a (record s { base = r.out })) 0 count
          λ j le lt. ground (arith, none j (omega arith)) in
      ground arith

  -- A handle that a creation or an import has written.
  pub handle_changed :
      (h i n : ℕ) (s : MultiShare)
      → i < count
      → holds o (memory h) (set_handle i n s) + one_if (s.handles i == h)
        ≡ holds o (memory h) s + one_if (n == h)
  handle_changed h i n s lt =
      let c =
        sum_from-changed (handle_at h s) (handle_at h (set_handle i n s)) 0 count i (omega arith)
          (omega arith) (λ j ne. ground arith) in
      ground (arith, c)

  pub mapping_changed :
      (a i : ℕ) (b : Bool) (s : MultiShare)
      → i < count
      → holds o (mapping a) (set_mapped i b s) + one_if (s.mapped i && slice o s.base i == a)
        ≡ holds o (mapping a) s + one_if (b && slice o s.base i == a)
  mapping_changed a i b s lt =
      let c =
        sum_from-changed (mapping_at o a s) (mapping_at o a (set_mapped i b s)) 0 count i
          (omega arith) (omega arith) (λ j ne. ground arith) in
      ground (arith, c)

  -- The handle of an owner is written by a call that leaves it null when it fails.
  pub create-even :
      (x : Resource)
      → IsReal x
      → (i size : ℕ) (prop : MemProp) (s : MultiShare) (r : Reply) → i < count
      → s.handles i ≡ 0
      → (is_zero r.ret ≡ false → r.out ≡ 0)
      → holds o x (set_handle i r.out s) + returned x (Call.mem_create size prop) r
        ≡ holds o x s + gained x (Call.mem_create size prop) r
  create-even (address a) real i size prop s r lt blank plain = ground arith
  create-even (memory h) real i size prop s r lt blank plain =
      ground (arith, handle_changed h i r.out s lt, plain)
  create-even (mapping a) real i size prop s r lt blank plain = ground arith

  pub import-even :
      (x : Resource)
      → IsReal x
      → (i token : ℕ) (target : ℤ) (s : MultiShare) (r : Reply) → i < count
      → s.handles i ≡ 0
      → (is_zero r.ret ≡ false → r.out ≡ 0)
      → holds o x (set_handle i r.out s) + returned x (import_handle token target) r
        ≡ holds o x s + gained x (import_handle token target) r
  import-even (address a) real i token target s r lt blank plain = ground arith
  import-even (memory h) real i token target s r lt blank plain =
      ground (arith, handle_changed h i r.out s lt, plain)
  import-even (mapping a) real i token target s r lt blank plain = ground arith

  pub map-even :
      (x : Resource)
      → IsReal x
      → (i handle : ℕ) (s : MultiShare) (r : Reply) → i < count
      → s.mapped i ≡ false
      → is_zero r.ret ≡ true
      → holds o x (set_mapped i true s) + lost x (Call.mem_map (slice o s.base i) o.bytes handle)
        ≡ holds o x s + gained x (Call.mem_map (slice o s.base i) o.bytes handle) r
  map-even (address a) real i handle s r lt unmapped good = ground arith
  map-even (memory h) real i handle s r lt unmapped good = ground arith
  map-even (mapping a) real i handle s r lt unmapped good =
      ground (arith, mapping_changed a i true s lt)

  pub unmap-even :
      (x : Resource)
      → IsReal x
      → (i : ℕ) (s : MultiShare) (r : Reply) → i < count
      → s.mapped i ≡ true
      → holds o x (set_mapped i false s) + lost x (Call.mem_unmap (slice o s.base i))
        ≡ holds o x s + gained x (Call.mem_unmap (slice o s.base i)) r
  unmap-even (address a) real i s r lt is_mapped = ground arith
  unmap-even (memory h) real i s r lt is_mapped = ground arith
  unmap-even (mapping a) real i s r lt is_mapped = ground (arith, mapping_changed a i false s lt)

  pub map-none :
      (x : Resource)
      → (va bytes handle : ℕ) (r : Reply) → is_zero r.ret ≡ false
      → gained x (Call.mem_map va bytes handle) r ≡ 0
  map-none (address a) va bytes handle r bad = refl
  map-none (memory h) va bytes handle r bad = refl
  map-none (mapping a) va bytes handle r bad = ground arith

  pub unmap-none : (x : Resource) (va : ℕ) (r : Reply) → gained x (Call.mem_unmap va) r ≡ 0
  unmap-none (address a) va r = refl
  unmap-none (memory h) va r = refl
  unmap-none (mapping a) va r = refl

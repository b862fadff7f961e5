-- ===== src/Common/Places.antt =====
-- The statements of the programs on an allocation keep the books.
use ascend_hal_sharing_probe.Prelude.{
  ℕ, ◌+◌, ◌≡◌, refl, sym, subst, true, false, ◌∷◌, arith, is_zero, ℤ,
}
use ascend_hal_sharing_probe.Effects.{
  Call, Driver, MemProp, Reply, World, address_reserve, address_free, import_handle, modify, pure,
  raise,
}
use ascend_hal_sharing_probe.Effects.Ledger.{Resource, IsReal, gained, returned}
use ascend_hal_sharing_probe.Effects.Outcomes.{Ends-bind, Ends-if, after}
use ascend_hal_sharing_probe.DataStrategy.Accounts.{held}
use ascend_hal_sharing_probe.Common.{
  Allocation, Place, check, check_reply, failed_check, writes, marks, reserve, create, import,
  map_whole, unmap, release, free_address, with_addr, with_handle, with_mapped,
}
use ascend_hal_sharing_probe.Common.Books.{IsKept, Keeps, IsPlace, changed-IsKept}
use ascend_hal_sharing_probe.Common.Rules.{Keeps-check_reply}
use ascend_hal_sharing_probe.Common.Evens.{
  IsPlain, IsBlank, IsReserved, IsUnmapped, IsMapped, Evens, Takes, reserve-Evens, create-Evens,
  import-Evens, map-Takes, unmap-Takes, release-Takes, free-Takes,
}

module _ {S : Type 0} {holds : Resource → S → ℕ} (p : Place S) (is_place : IsPlace holds p) where
  -- What is said of the allocation, and of the rest of the object.
  abbrev pub At : (Allocation → Type 0) → (S → Type 0) → S → Type 0
  At A F s = A (p.get s) × F s

  abbrev pub IsFrame : (S → Type 0) → Type 0
  IsFrame F = (a : Allocation) (s : S) → F s → F (p.put a s)

  put-IsKept :
      (d : Driver) (c : Call) (b : Allocation) (w : World S)
      → IsKept holds w
      → ((x : Resource)
          → IsReal x
          → held x b + returned x c (d w.trace c)
            ≡ held x (p.get w.self) + gained x c (d w.trace c))
      → IsKept holds (record w { self = p.put b w.self; trace = (c, d w.trace c) ∷ w.trace })
  put-IsKept d c b w kept even =
      changed-IsKept holds d c (p.put b w.self) w kept
        λ x real. omega (arith, even x real, is_place.moved x b w.self)

  writes-Keeps :
      (d : Driver) (A B : Allocation → Type 0) (F : S → Type 0) (c : Allocation → Call)
      (u : Reply → Allocation → Allocation)
      → IsFrame F
      → ((r : Reply) (a : Allocation) → A a → B (u r a))
      → Evens A d c u
      → Keeps holds (At A F) (At B F) (writes d p c u)
  writes-Keeps d A B F c u frame step even = record {
    ends = λ w kept (in_a, in_f).
        let a = p.get w.self in
        let r = d w.trace (c a) in
        let v : World S = record w { self = p.put (u r a) w.self; trace = (c a, r) ∷ w.trace } in
        let k : Keeps holds (At B F) (At B F) (check_reply d r) = Keeps-check_reply d r in
        k.ends v (put-IsKept d (c a) (u r a) w kept (λ x real. even x real w.trace a in_a))
          (subst B (sym (is_place.got (u r a) w.self)) (step r a in_a), frame (u r a) w.self in_f);
  }

  marks-Keeps :
      (d : Driver) (A B : Allocation → Type 0) (F : S → Type 0) (c : Allocation → Call)
      (u : Allocation → Allocation)
      → IsFrame F
      → ((a : Allocation) → A a → B (u a))
      → Takes A c u
      → Keeps holds (At A F) (At B F) (marks d p c u)
  marks-Keeps d A B F c u frame step takes = record {
    ends = λ w kept (in_a, in_f).
        let a = p.get w.self in
        let r = d w.trace (c a) in
        Ends-bind (λ n v. (v ≡ after d (c a) w) × (is_zero r.ret ≡ true))
          (λ n v. IsKept holds v × At B F v.self) (IsKept holds) (λ n. modify (p.put (u a)))
          (check d (c a) w)
          (Ends-if (λ n v. (v ≡ after d (c a) w) × (is_zero r.ret ≡ true)) (IsKept holds)
            (is_zero r.ret) (pure r.out) (raise failed_check) (after d (c a) w)
            (λ good. (refl, good))
            (λ bad.
              changed-IsKept holds d (c a) w.self w kept
                (λ x real. rw bad (omega (arith, takes.bad x real a r bad)))))
          (λ n v (here, good). rw here (
            put-IsKept d (c a) (u a) w kept (λ x real. rw good (takes.good x real a r in_a good)),
            (subst B (sym (is_place.got (u a) w.self)) (step a in_a), frame (u a) w.self in_f),
          ));
  }

  -- The statements, each from the stage of the allocation that it needs to the next.
  pub reserve-Keeps :
      (d : Driver) (F : S → Type 0) (size : ℕ)
      → IsFrame F
      → Keeps holds (At IsBlank F) (At IsReserved F) (reserve d p size)
  reserve-Keeps d F size frame =
      writes-Keeps d IsBlank IsReserved F (λ a. address_reserve size) (λ r. with_addr r.out) frame
        (λ r a h. (h.1, h.2)) (reserve-Evens d size)

  pub create-Keeps :
      (d : Driver) (F : S → Type 0) (size : ℕ) (prop : MemProp)
      → IsPlain d
      → IsFrame F
      → Keeps holds (At IsReserved F) (At IsUnmapped F) (create d p size prop)
  create-Keeps d F size prop plain frame =
      writes-Keeps d IsReserved IsUnmapped F (λ a. Call.mem_create size prop)
        (λ r. with_handle r.out) frame (λ r a h. h.1) (create-Evens d size prop plain)

  pub import-Keeps :
      (d : Driver) (F : S → Type 0) (token : ℕ) (target : ℤ)
      → IsPlain d
      → IsFrame F
      → Keeps holds (At IsReserved F) (At IsUnmapped F) (import d p token target)
  import-Keeps d F token target plain frame =
      writes-Keeps d IsReserved IsUnmapped F (λ a. import_handle token target)
        (λ r. with_handle r.out) frame (λ r a h. h.1) (import-Evens d token target plain)

  pub map_whole-Keeps :
      (d : Driver) (F : S → Type 0) (size : ℕ)
      → IsFrame F
      → Keeps holds (At IsUnmapped F) (At IsMapped F) (map_whole d p size)
  map_whole-Keeps d F size frame =
      marks-Keeps d IsUnmapped IsMapped F (λ a. Call.mem_map a.addr size a.handle)
        (with_mapped true) frame (λ a h. refl) (map-Takes size)

  pub unmap-Keeps :
      (d : Driver) (F : S → Type 0)
      → IsFrame F
      → Keeps holds (At IsMapped F) (At IsUnmapped F) (unmap d p)
  unmap-Keeps d F frame =
      marks-Keeps d IsMapped IsUnmapped F (λ a. Call.mem_unmap a.addr) (with_mapped false) frame
        (λ a h. refl) unmap-Takes

  pub release-Keeps :
      (d : Driver) (F : S → Type 0)
      → IsFrame F
      → Keeps holds (At IsUnmapped F) (At IsReserved F) (release d p)
  release-Keeps d F frame =
      marks-Keeps d IsUnmapped IsReserved F (λ a. Call.mem_release a.handle) (with_handle 0) frame
        (λ a h. (refl, h)) release-Takes

  pub free_address-Keeps :
      (d : Driver) (F : S → Type 0)
      → IsFrame F
      → Keeps holds (At IsReserved F) (At IsBlank F) (free_address d p)
  free_address-Keeps d F frame =
      marks-Keeps d IsReserved IsBlank F (λ a. address_free a.addr) (with_addr 0) frame
        (λ a h. (refl, h.0, h.1)) free-Takes

-- ===== src/HostUva/Writer.antt =====
-- A writer gives back what it obtains, by the ladder of its labels.
use ascend_hal_sharing_probe.Prelude.{
  ℕ, ◌+◌, ◌/◌, ◌≡◌, refl, ℤ, true, false, List, [], ◌∷◌, arith, is_zero, Bool-cases, inl, inr,
}
use ascend_hal_sharing_probe.Effects.{
  huge, Call, Driver, Trace, World, M, acl_init, acl_finalize, set_device, reset_device,
  address_reserve, address_free, export_handle, disable_whitelist, read_character, store_table,
  pure, ◌>>◌,
}
use ascend_hal_sharing_probe.Effects.Ledger.{
  Resource, IsReal, gained, lost, gains, given, refused, is_neutral, gained-neutral, lost-neutral,
}
use ascend_hal_sharing_probe.Effects.Outcomes.{Ends, Ends-if, after}
use ascend_hal_sharing_probe.HalMemory.{host_memory_prop}
use ascend_hal_sharing_probe.DataStrategy.Accounts.{held_all}
use ascend_hal_sharing_probe.Common.{Allocation}
use ascend_hal_sharing_probe.Common.Teardown.{Outstanding, IsReturned, Never, called-Outstanding}
use ascend_hal_sharing_probe.HostUva.{
  Words, k_shm_size, write_test_data, ignored, check_then, goto_unless, finished, free_va,
  release_handle, unmap_va, run_writer, store_test_data,
}
use ascend_hal_sharing_probe.HostUva.Blocks.{
  block, free-even, release-even, unmap-even, reserve-gain, create-gain, map-gain, reserve-none,
  create-none, map-none,
}

-- A failed reservation leaves the address null.
abbrev pub IsCareful : Driver → Type 0
IsCareful d =
    (t : Trace) (size : ℕ)
    → is_zero (d t (address_reserve size)).ret ≡ false
    → (d t (address_reserve size)).out ≡ 0

abbrev pub Returned : {S : Type 0} → ℤ → World S → Type 0
Returned code v = IsReturned v.trace

module _ {S : Type 0} (d : Driver) (mem : Trace → ℕ → Words) where
  -- A call of the ladder.
  give_back :
      (c : Call) (owed rest : List Allocation) (k : M S ℤ) (w : World S)
      → ((x : Resource)
          → IsReal x
          → (held_all x owed ≡ held_all x rest + lost x c) × (gained x c (d w.trace c) ≡ 0))
      → Outstanding owed w.trace
      → ((v : World S) → Outstanding rest v.trace → Ends Returned Never (k v))
      → Ends Returned Never ((ignored d mem c >> k) w)
  unfolding gains given refused
  give_back c owed rest k w even h next = next (after d c w) λ x real.
      elim (Bool-cases (is_zero (d w.trace c).ret)) [
        | inl good ↦ rw good (omega (arith, h x real, even x real))
        | inr bad ↦ rw bad (omega (arith, h x real, even x real))
      ]

  -- A call that obtains something, or nothing when it fails.
  obtain :
      (c : Call) (owed : List Allocation) (more : ℕ → List Allocation) (label : M S ℤ)
      (k : ℕ → M S ℤ) (w : World S)
      → ((x : Resource)
          → IsReal x
          → is_zero (d w.trace c).ret ≡ true
          → (held_all x (more (d w.trace c).out) ≡ held_all x owed + gained x c (d w.trace c))
            × (lost x c ≡ 0))
      → ((x : Resource)
          → IsReal x
          → is_zero (d w.trace c).ret ≡ false
          → (gained x c (d w.trace c) ≡ 0) × (lost x c ≡ 0))
      → Outstanding owed w.trace
      → ((v : World S) → Outstanding owed v.trace → Ends Returned Never (label v))
      → ((n : ℕ) (v : World S) → Outstanding (more n) v.trace → Ends Returned Never (k n v))
      → Ends Returned Never (goto_unless d mem c label k w)
  unfolding gains given refused
  obtain c owed more label k w good bad h out next =
      Ends-if Returned Never (is_zero (d w.trace c).ret) (k (d w.trace c).out) label (after d c w)
        (λ e.
          next (d w.trace c).out (after d c w)
            λ x real. rw e (omega (arith, h x real, good x real e)))
        (λ e. out (after d c w) λ x real. rw e (omega (arith, h x real, bad x real e)))

  -- One that obtains nothing.
  neutral_or :
      (c : Call) (owed : List Allocation) (label : M S ℤ) (k : ℕ → M S ℤ) (w : World S)
      → is_neutral c ≡ true
      → Outstanding owed w.trace
      → ((v : World S) → Outstanding owed v.trace → Ends Returned Never (label v))
      → ((n : ℕ) (v : World S) → Outstanding owed v.trace → Ends Returned Never (k n v))
      → Ends Returned Never (goto_unless d mem c label k w)
  neutral_or c owed label k w quiet h =
      obtain c owed (λ n. owed) label k w
        (λ x real e.
          (omega (arith, gained-neutral c x (d w.trace c) quiet), lost-neutral c x quiet))
        (λ x real e. (gained-neutral c x (d w.trace c) quiet, lost-neutral c x quiet)) h

  -- `CHECK`, before anything is obtained.
  checked :
      (c : Call) (k : M S ℤ) (w : World S)
      → is_neutral c ≡ true
      → IsReturned w.trace
      → ((v : World S) → IsReturned v.trace → Ends Returned Never (k v))
      → Ends Returned Never (check_then d mem c k w)
  checked c k w quiet h next =
      let back = called-Outstanding d c [] w quiet h in
      Ends-if Returned Never (is_zero (d w.trace c).ret) k (pure (d w.trace c).ret) (after d c w)
        (λ e. next (after d c w) back) (λ e. back)

  -- The labels, each from what is owed there.
  finished-Returned :
      (device : ℤ) (w : World S)
      → Outstanding [] w.trace
      → Ends Returned Never (finished d mem device w)
  finished-Returned device w h =
      let v = after d (reset_device device) w in
      called-Outstanding d acl_finalize [] v refl
        (called-Outstanding d (reset_device device) [] w refl h)

  free_va-Returned :
      (device : ℤ) (va : ℕ) (w : World S)
      → Outstanding (block va 0 false ∷ []) w.trace
      → Ends Returned Never (free_va d mem device va w)
  free_va-Returned device va w h =
      give_back (address_free va) (block va 0 false ∷ []) [] (finished d mem device) w
        (free-even va (d w.trace (address_free va))) h (finished-Returned device)

  release_handle-Returned :
      (device : ℤ) (va handle : ℕ) (w : World S)
      → Outstanding (block va handle false ∷ []) w.trace
      → Ends Returned Never (release_handle d mem device va handle w)
  release_handle-Returned device va handle w h =
      let c = Call.mem_release handle in
      give_back c (block va handle false ∷ []) (block va 0 false ∷ []) (free_va d mem device va) w
        (release-even va handle (d w.trace c)) h (free_va-Returned device va)

  unmap_va-Returned :
      (device : ℤ) (va handle : ℕ) (w : World S)
      → Outstanding (block va handle true ∷ []) w.trace
      → Ends Returned Never (unmap_va d mem device va handle w)
  unmap_va-Returned device va handle w h =
      let c = Call.mem_unmap va in
      give_back c (block va handle true ∷ []) (block va handle false ∷ [])
        (release_handle d mem device va handle) w (unmap-even va handle (d w.trace c)) h
        (release_handle-Returned device va handle)

  -- The rest of a writer, after each thing that it obtains.
  abbrev exporting : ℤ → ℕ → ℕ → M S ℤ
  exporting device va handle =
      store_test_data d mem va
      >> goto_unless d mem (export_handle handle) (unmap_va d mem device va handle) λ token.
        goto_unless d mem (disable_whitelist token) (unmap_va d mem device va handle)
          λ n. ignored d mem read_character >> unmap_va d mem device va handle

  abbrev mapping_in : ℤ → ℕ → ℕ → M S ℤ
  mapping_in device va handle =
      goto_unless d mem (Call.mem_map va k_shm_size handle) (release_handle d mem device va handle)
        λ n. exporting device va handle

  abbrev creating : ℤ → ℕ → M S ℤ
  creating device va =
      goto_unless d mem (Call.mem_create k_shm_size (host_memory_prop huge))
        (free_va d mem device va) λ handle. mapping_in device va handle

  abbrev reserving : ℤ → M S ℤ
  reserving device =
      goto_unless d mem (address_reserve k_shm_size) (finished d mem device)
        λ va. creating device va

  exporting-Returned :
      (device : ℤ) (va handle : ℕ) (w : World S)
      → Outstanding (block va handle true ∷ []) w.trace
      → Ends Returned Never (exporting device va handle w)
  exporting-Returned device va handle w h =
      let owed = block va handle true ∷ [] in
      let c = store_table va (k_shm_size / 4) (write_test_data (k_shm_size / 4) (mem w.trace va)) in
      let out = unmap_va-Returned device va handle in
      let last = ignored d mem read_character >> unmap_va d mem device va handle in
      neutral_or (export_handle handle) owed (unmap_va d mem device va handle)
        (λ token.
          goto_unless d mem (disable_whitelist token) (unmap_va d mem device va handle) (λ n. last))
        (after d c w) refl (called-Outstanding d c owed w refl h) out
        λ token v h'.
          neutral_or (disable_whitelist token) owed (unmap_va d mem device va handle) (λ n. last) v
            refl h' out
            λ n y h''.
              out (after d read_character y) (called-Outstanding d read_character owed y refl h'')

  mapping_in-Returned :
      (device : ℤ) (va handle : ℕ) (w : World S)
      → Outstanding (block va handle false ∷ []) w.trace
      → Ends Returned Never (mapping_in device va handle w)
  mapping_in-Returned device va handle w h =
      let c = Call.mem_map va k_shm_size handle in
      obtain c (block va handle false ∷ []) (λ n. block va handle true ∷ [])
        (release_handle d mem device va handle) (λ n. exporting device va handle) w
        (map-gain va handle k_shm_size (d w.trace c)) (map-none va handle k_shm_size (d w.trace c))
        h (release_handle-Returned device va handle) (λ n. exporting-Returned device va handle)

  creating-Returned :
      (device : ℤ) (va : ℕ) (w : World S)
      → Outstanding (block va 0 false ∷ []) w.trace
      → Ends Returned Never (creating device va w)
  creating-Returned device va w h =
      let c = Call.mem_create k_shm_size (host_memory_prop huge) in
      obtain c (block va 0 false ∷ []) (λ handle. block va handle false ∷ [])
        (free_va d mem device va) (mapping_in device va) w (create-gain va k_shm_size (d w.trace c))
        (create-none va k_shm_size (d w.trace c)) h (free_va-Returned device va)
        (mapping_in-Returned device va)

  -- With a driver that leaves the address null when a reservation fails, a writer that starts with
  -- nothing owed returns on every path, and each address, handle and mapping has been given back, or
  -- the driver has refused to take it, and none has been given back more often than obtained.
  pub run_writer-Returned :
      (device : ℤ) (w : World S)
      → IsCareful d
      → IsReturned w.trace
      → Ends Returned Never (run_writer d mem device w)
  unfolding run_writer
  run_writer-Returned device w careful h =
      checked acl_init (check_then d mem (set_device device) (reserving device)) w refl h λ w1 h1.
        checked (set_device device) (reserving device) w1 refl h1 λ w2 h2.
          obtain (address_reserve k_shm_size) [] (λ va. block va 0 false ∷ [])
            (finished d mem device) (creating device) w2
            (reserve-gain k_shm_size (d w2.trace (address_reserve k_shm_size)))
            (λ x real e.
              reserve-none k_shm_size (d w2.trace (address_reserve k_shm_size)) x real e
                (careful w2.trace k_shm_size e))
            h2 (finished-Returned device) (creating-Returned device)

-- ===== src/HostUva/Runs.antt =====
-- What a writer and a reader give back.
use ascend_hal_sharing_probe.Prelude.{
  ℕ, ◌≡◌, refl, ◌∙◌, ℤ, pos, Bool, true, false, arith, is_zero, if◌then◌else◌,
}
use ascend_hal_sharing_probe.Effects.{
  Call, Driver, Trace, World, M, acl_init, acl_finalize, set_device, reset_device, address_reserve,
  address_free, import_handle, malloc_host, free_host, copy, device_to_host, pure, call, ◌>>=◌,
}
use ascend_hal_sharing_probe.Effects.Ledger.{mapping, lost, given}
use ascend_hal_sharing_probe.Effects.Outcomes.{Ends, Ends-bind, Ends-map}
use ascend_hal_sharing_probe.HostUva.{
  Words, k_shm_size, ignored, check_then, goto_unless, finished, free_va, release_handle,
  free_buffer, run_reader,
}

-- The part returns, and gives back no mapping at the address.
pub record Leaves {S A : Type 0} (at : ℕ) (m : M S A) : Type 0 where
  pub ends :
      (w : World S)
      → Ends (λ a v. given (mapping at) v.trace ≡ given (mapping at) w.trace) (λ v. ⊥) (m w)

-- A call other than an unmap.
abbrev Spares : ℕ → Call → Type 0
Spares at c = lost (mapping at) c ≡ 0

module _ {S : Type 0} (d : Driver) (mem : Trace → ℕ → Words) (at : ℕ) where
  Leaves-pure : {A : Type 0} (a : A) → Leaves {S = S} at (pure a)
  Leaves-pure a = record { ends = λ w. refl }

  Leaves-bind :
      {A B : Type 0} {m : M S A} {f : A → M S B}
      → Leaves at m
      → ((a : A) → Leaves at (f a))
      → Leaves at (m >>= f)
  Leaves-bind {A} {B} {m} {f} h k = record {
    ends = λ w.
        Ends-bind (λ a v. given (mapping at) v.trace ≡ given (mapping at) w.trace)
          (λ a v. given (mapping at) v.trace ≡ given (mapping at) w.trace) (λ v. ⊥) f (m w)
          (h.ends w)
          λ a v same.
            Ends-map (λ b u. given (mapping at) u.trace ≡ given (mapping at) v.trace)
              (λ b u. given (mapping at) u.trace ≡ given (mapping at) w.trace) (λ v. ⊥) (f a v)
              (λ b u e. e ∙ same) ((k a).ends v);
  }

  Leaves-call : (c : Call) → Spares at c → Leaves {S = S} at (call d c)
  unfolding given
  Leaves-call c spared = record { ends = λ w. ground (arith, spared) }

  Leaves-if :
      {A : Type 0} {f g : M S A} (b : Bool)
      → Leaves at f
      → Leaves at g
      → Leaves at (if b then f else g)
  Leaves-if true h k = h
  Leaves-if false h k = k

  Leaves-ignored : (c : Call) → Spares at c → Leaves {S = S} at (ignored d mem c)
  Leaves-ignored c spared = Leaves-bind (Leaves-call c spared) λ r. Leaves-pure tt

  Leaves-check_then :
      (c : Call) {k : M S ℤ} → Spares at c → Leaves at k → Leaves at (check_then d mem c k)
  Leaves-check_then c spared h =
      Leaves-bind (Leaves-call c spared) λ r. Leaves-if (is_zero r.ret) h (Leaves-pure r.ret)

  Leaves-goto_unless :
      (c : Call) {label : M S ℤ} {k : ℕ → M S ℤ}
      → Spares at c
      → Leaves at label
      → ((n : ℕ) → Leaves at (k n))
      → Leaves at (goto_unless d mem c label k)
  Leaves-goto_unless c spared l h =
      Leaves-bind (Leaves-call c spared) λ r. Leaves-if (is_zero r.ret) (h r.out) l

  finished-Leaves : (device : ℤ) → Leaves {S = S} at (finished d mem device)
  finished-Leaves device =
      Leaves-bind (Leaves-ignored (reset_device device) refl)
        λ u. Leaves-bind (Leaves-ignored acl_finalize refl) λ u'. Leaves-pure (pos 0)

  free_va-Leaves : (device : ℤ) (va : ℕ) → Leaves {S = S} at (free_va d mem device va)
  free_va-Leaves device va =
      Leaves-bind (Leaves-ignored (address_free va) refl) λ u. finished-Leaves device

  release_handle-Leaves :
      (device : ℤ) (va handle : ℕ) → Leaves {S = S} at (release_handle d mem device va handle)
  release_handle-Leaves device va handle =
      Leaves-bind (Leaves-ignored (Call.mem_release handle) refl) λ u. free_va-Leaves device va

  free_buffer-Leaves :
      (device : ℤ) (va handle buffer : ℕ)
      → Leaves {S = S} at (free_buffer d mem device va handle buffer)
  free_buffer-Leaves device va handle buffer =
      Leaves-bind (Leaves-ignored (free_host buffer) refl)
        λ u. release_handle-Leaves device va handle

  -- The reader returns on every path and gives no mapping back: one that it has obtained stays, also
  -- when its handle and its address are released.
  pub run_reader-Leaves :
      (device : ℤ) (token : ℕ) → Leaves {S = S} at (run_reader d mem device token)
  unfolding run_reader
  run_reader-Leaves device token = Leaves-check_then acl_init refl (
      Leaves-check_then (set_device device) refl (
        Leaves-goto_unless (address_reserve k_shm_size) refl (finished-Leaves device) λ va.
          Leaves-goto_unless (import_handle token device) refl (free_va-Leaves device va) λ handle.
            Leaves-goto_unless (Call.mem_map va k_shm_size handle) refl
              (release_handle-Leaves device va handle)
              λ n.
                Leaves-goto_unless (malloc_host k_shm_size) refl
                  (release_handle-Leaves device va handle)
                  λ buffer.
                    Leaves-goto_unless (copy device_to_host buffer va k_shm_size) refl
                      (free_buffer-Leaves device va handle buffer)
                      λ n'. free_buffer-Leaves device va handle buffer))

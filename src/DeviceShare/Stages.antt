-- ===== src/DeviceShare/Stages.antt =====
-- The parts of the try block of device_share keep the books.
use ascend_hal_sharing_probe.Effects.Ledger.{Resource}
use ascend_hal_sharing_probe.Prelude.{ℕ, refl, pos, Bool, true, ◌||◌, [], ◌∷◌, arith, ◌==◌, ◌/◌}
use ascend_hal_sharing_probe.Effects.{
  Driver, normal, CopyKind, host_to_device, device_to_host, device_to_device, copy, open_library,
  find_open, find_close, open_tsd, open_device, resize_vector, set_bytes, export_handle,
  disable_whitelist,
}
use ascend_hal_sharing_probe.HalMemory.{host_memory_prop}
use ascend_hal_sharing_probe.DataStrategy.Accounts.{held_all}
use ascend_hal_sharing_probe.Common.{Allocation}
use ascend_hal_sharing_probe.Common.Books.{Keeps, IsPlace}
use ascend_hal_sharing_probe.Common.Rules.{
  Keeps-bind, Keeps-if, Keeps-pure, Keeps-raise, Keeps-gets, Keeps-call, Keeps-check, Keeps-modify,
  Keeps-weaken, Keeps-convert,
}
use ascend_hal_sharing_probe.Common.Evens.{IsPlain, IsBlank, IsMapped}
use ascend_hal_sharing_probe.Common.Places.{
  At, reserve-Keeps, create-Keeps, import-Keeps, map_whole-Keeps, unmap-Keeps, release-Keeps,
  free_address-Keeps,
}
use ascend_hal_sharing_probe.Common.Retry.{IsPatient}
use ascend_hal_sharing_probe.Common.Pattern.{Memory, fill-Keeps, verify-Keeps}
use ascend_hal_sharing_probe.Cli.{send_word-Keeps, receive_word-Keeps, await_zero-Keeps}
use ascend_hal_sharing_probe.DeviceShare.{
  DeviceShare, mapping, hbm, hbm_prop, missing, device_id, set_up, allocate_hbm, read_shared,
  export_shared, creator_part, write_shared, importer_part, share,
}

-- In the order in which they end.
abbrev pub holds : Resource → DeviceShare → ℕ
holds x s = held_all x (s.hbm ∷ s.mapping ∷ [])

pub mapping-IsPlace : IsPlace holds mapping
unfolding held_all
mapping-IsPlace = record { got = λ a s. refl; moved = λ x a s. omega arith }

pub hbm-IsPlace : IsPlace holds hbm
unfolding held_all
hbm-IsPlace = record { got = λ a s. refl; moved = λ x a s. omega arith }

-- The stages of the mapping and of the device's memory.
abbrev pub Both : (Allocation → Type 0) → (Allocation → Type 0) → DeviceShare → Type 0
Both A B s = A s.mapping × B s.hbm

-- The allocations may be at any stage.
abbrev pub Any : DeviceShare → Type 0
Any s = Unit {0}

module _ (d : Driver) (mem : Memory) (rounds : ℕ) (plain : IsPlain d)
    (patient : IsPatient d rounds) where
  set_up-Keeps : Keeps holds (Both IsBlank IsBlank) (Both IsBlank IsBlank) (set_up d mem rounds)
  set_up-Keeps = Keeps-bind (Keeps-call d open_library refl) λ r.
      Keeps-bind
        (Keeps-modify {Q = Both IsBlank IsBlank} (λ s. record s { library = r.out }) (λ x s. refl)
          (λ s h. h))
        λ u. Keeps-bind (Keeps-if (r.out == 0) (Keeps-raise missing) (Keeps-pure tt)) λ u1.
          Keeps-bind (Keeps-call d find_open refl) λ o.
            Keeps-bind (Keeps-call d find_close refl) λ c.
              Keeps-bind (Keeps-if (o.out == 0 || c.out == 0) (Keeps-raise missing) (Keeps-pure tt))
                λ u2. Keeps-bind (Keeps-check d (open_tsd device_id) refl) λ n.
                  Keeps-bind
                    (Keeps-modify {Q = Both IsBlank IsBlank} (λ s. record s { tsd_open = true })
                      (λ x s. refl) (λ s h. h))
                    λ u3. Keeps-bind (Keeps-check d (open_device device_id) refl) λ n'.
                      Keeps-modify (λ s. record s { device_open = true }) (λ x s. refl) (λ s h. h)

  module _ (importer : Bool) (channel bytes : ℕ) where
    -- The device's memory, whatever the stage of the mapping.
    allocate_hbm-Keeps :
        (A : Allocation → Type 0)
        → Keeps holds
            (Both A IsBlank)
            (Both A IsMapped)
            (allocate_hbm d mem rounds importer channel bytes)
    allocate_hbm-Keeps A =
        let F = λ (s : DeviceShare). A s.mapping in
        Keeps-convert {P = At hbm hbm-IsPlace IsBlank F} {Q = At hbm hbm-IsPlace IsMapped F}
          (λ s h. (h.1, h.0)) (λ s h. (h.1, h.0))
          (Keeps-bind (reserve-Keeps hbm hbm-IsPlace d F bytes (λ a s h. h)) λ n.
            Keeps-bind (create-Keeps hbm hbm-IsPlace d F bytes hbm_prop plain (λ a s h. h))
              λ n. map_whole-Keeps hbm hbm-IsPlace d F bytes (λ a s h. h))

    module _ {P : DeviceShare → Type 0} where
      read_shared-Keeps :
          (kind : CopyKind) (host : ℕ)
          → Keeps holds P P (read_shared d mem rounds importer channel bytes kind host)
      read_shared-Keeps kind host = Keeps-bind (Keeps-gets (λ s. s.hbm.addr)) λ to.
          Keeps-bind (Keeps-gets (λ s. s.mapping.addr)) λ from.
            Keeps-bind (Keeps-check d (copy kind to from bytes) refl) λ n.
              Keeps-bind (Keeps-check d (copy device_to_host host to bytes) refl)
                λ n'. verify-Keeps mem host bytes 101

      export_shared-Keeps : Keeps holds P P (export_shared d mem rounds importer channel bytes)
      export_shared-Keeps = Keeps-bind (Keeps-gets (λ s. s.mapping.handle)) λ h.
          Keeps-bind (Keeps-check d (export_handle h) refl) λ token.
            Keeps-bind (Keeps-check d (disable_whitelist token) refl)
              λ n. send_word-Keeps d rounds patient channel token

      write_shared-Keeps :
          (host : ℕ) → Keeps holds P P (write_shared d mem rounds importer channel bytes host)
      write_shared-Keeps host = Keeps-bind (fill-Keeps d host bytes 202) λ u.
          Keeps-bind (Keeps-gets (λ s. s.hbm.addr)) λ at.
            Keeps-bind (Keeps-gets (λ s. s.mapping.addr)) λ shared.
              Keeps-bind (Keeps-check d (copy host_to_device at host bytes) refl) λ n.
                Keeps-bind (Keeps-check d (copy device_to_device shared at bytes) refl) λ n1.
                  Keeps-bind (Keeps-call d (set_bytes host 0 bytes) refl) λ r.
                    Keeps-bind (Keeps-check d (copy device_to_host host shared bytes) refl)
                      λ n2. verify-Keeps mem host bytes 202

    creator_part-Keeps :
        (host : ℕ)
        → Keeps holds
            (Both IsBlank IsBlank)
            Any
            (creator_part d mem rounds importer channel bytes host)
    creator_part-Keeps host =
        let F = λ (s : DeviceShare). IsBlank s.hbm in
        Keeps-bind
          (Keeps-bind (reserve-Keeps mapping mapping-IsPlace d F bytes (λ a s h. h)) λ n.
            Keeps-bind
              (create-Keeps mapping mapping-IsPlace d F bytes (host_memory_prop normal) plain
                (λ a s h. h))
              λ n. map_whole-Keeps mapping mapping-IsPlace d F bytes (λ a s h. h))
          λ u. Keeps-bind (Keeps-gets (λ s. s.mapping.addr)) λ va.
            Keeps-bind (fill-Keeps d va bytes 101) λ u1.
              Keeps-bind (allocate_hbm-Keeps IsMapped) λ u2.
                Keeps-bind (read_shared-Keeps host_to_device host) λ u3.
                  Keeps-bind export_shared-Keeps λ u4.
                    Keeps-bind (await_zero-Keeps d rounds patient channel) λ u5.
                      Keeps-bind (verify-Keeps mem va bytes 202) λ u6.
                        Keeps-bind (send_word-Keeps d rounds patient channel 0)
                          λ u7. Keeps-weaken (λ s h. tt) (await_zero-Keeps d rounds patient channel)

    importer_part-Keeps :
        (host : ℕ)
        → Keeps holds
            (Both IsBlank IsBlank)
            Any
            (importer_part d mem rounds importer channel bytes host)
    importer_part-Keeps host =
        let F = λ (s : DeviceShare). IsBlank s.hbm in
        let G = λ (s : DeviceShare). IsMapped s.hbm in
        Keeps-bind
          (Keeps-bind (receive_word-Keeps d rounds patient channel) λ token.
            Keeps-bind (reserve-Keeps mapping mapping-IsPlace d F bytes (λ a s h. h)) λ n.
              Keeps-bind
                (import-Keeps mapping mapping-IsPlace d F token (pos device_id) plain (λ a s h. h))
                λ n'. map_whole-Keeps mapping mapping-IsPlace d F bytes (λ a s h. h))
          λ u. Keeps-bind (allocate_hbm-Keeps IsMapped) λ u1.
            Keeps-bind (read_shared-Keeps device_to_device host) λ u2.
              Keeps-bind (write_shared-Keeps host) λ u3.
                Keeps-bind (send_word-Keeps d rounds patient channel 0) λ u4.
                  Keeps-bind (await_zero-Keeps d rounds patient channel) λ u5.
                    Keeps-bind (unmap-Keeps mapping mapping-IsPlace d G (λ a s h. h)) λ u6.
                      Keeps-bind (release-Keeps mapping mapping-IsPlace d G (λ a s h. h)) λ u7.
                        Keeps-bind (free_address-Keeps mapping mapping-IsPlace d G (λ a s h. h))
                          λ u8.
                            Keeps-weaken (λ s h. tt) (send_word-Keeps d rounds patient channel 0)

    pub share-Keeps :
        Keeps holds (Both IsBlank IsBlank) Any (share d mem rounds importer channel bytes)
    unfolding share
    share-Keeps = Keeps-bind set_up-Keeps λ u.
        Keeps-bind (Keeps-check d (resize_vector (bytes / 8)) refl)
          λ host. Keeps-if importer (importer_part-Keeps host) (creator_part-Keeps host)

-- ===== src/HalMapProbe/Balance.antt =====
-- A process of hal_map_probe gives back what it obtains.
use ascend_hal_sharing_probe.Effects.Ledger.{Resource}
use ascend_hal_sharing_probe.Prelude.{ℕ, ◌≤◌, refl, Bool, [], ◌∷◌, arith, pos, ◌==◌, ◌%◌, ◌^◌}
use ascend_hal_sharing_probe.Effects.{
  Driver, Outcome, ok, threw, fault, World, open_device, close_device, close_socket, export_handle,
  disable_whitelist, huge, send_bytes, receive_bytes, get_host_id,
}
use ascend_hal_sharing_probe.Effects.Outcomes.{Ends, Ends-bind, after}
use ascend_hal_sharing_probe.HalMemory.{host_memory_prop}
use ascend_hal_sharing_probe.DataStrategy.Accounts.{held_all}
use ascend_hal_sharing_probe.Common.{Allocation, destroy}
use ascend_hal_sharing_probe.Common.Books.{IsKept, Keeps, IsPlace, called-IsKept}
use ascend_hal_sharing_probe.Common.Rules.{
  Keeps-bind, Keeps-if, Keeps-pure, Keeps-raise, Keeps-gets, Keeps-check, Keeps-modify,
  Keeps-weaken,
}
use ascend_hal_sharing_probe.Common.Evens.{IsPlain, IsBlank, IsReserved, IsUnmapped, IsMapped}
use ascend_hal_sharing_probe.Common.Places.{
  At, reserve-Keeps, create-Keeps, import-Keeps, map_whole-Keeps, unmap-Keeps, release-Keeps,
  free_address-Keeps,
}
use ascend_hal_sharing_probe.Common.Retry.{IsPatient, retried-Keeps}
use ascend_hal_sharing_probe.Common.Pattern.{Memory, store-Keeps, compare_with-Keeps}
use ascend_hal_sharing_probe.Common.Teardown.{
  IsReturned, Never, Left, kept-Outstanding, destroy-Outstanding, if_cleanup-Left,
}
use ascend_hal_sharing_probe.HalMapProbe.{
  MapProbe, host, is_word, ipc_failed, note_failure, seeded, send_word, receive_word, await_zero,
  write_pattern, verify, obtain, map_part, creator_part, importer_part, share, caught, finish,
  worker,
}

abbrev pub holds : Resource → MapProbe → ℕ
holds x s = held_all x (s.host ∷ [])

pub host-IsPlace : IsPlace holds host
unfolding held_all
host-IsPlace = record { got = λ a s. refl; moved = λ x a s. omega arith }

-- The result is an exit code.
abbrev pub IsCode : MapProbe → Type 0
IsCode s = s.result ≤ 1

noted : (s : MapProbe) → IsCode s → IsCode (note_failure s)
noted s h = omega arith

abbrev pub Stage : (Allocation → Type 0) → MapProbe → Type 0
Stage A = At host host-IsPlace A IsCode

-- The process is over with an exit code, and nothing is left to give back.
abbrev pub Over : ℕ → World MapProbe → Type 0
Over code v = IsReturned v.trace × (code ≤ 1)

module _ (d : Driver) (mem : Memory) (rounds : ℕ) (plain : IsPlain d)
    (patient : IsPatient d rounds) where
  module _ {P : MapProbe → Type 0} where
    send_word-Keeps : (fd value : ℕ) → Keeps holds P P (send_word d mem rounds fd value)
    send_word-Keeps fd value =
        Keeps-bind (retried-Keeps holds P d (send_bytes fd value 8) refl rounds patient)
          λ r. Keeps-if (is_word r.ret) (Keeps-pure tt) (Keeps-raise ipc_failed)

    receive_word-Keeps : (fd : ℕ) → Keeps holds P P (receive_word d mem rounds fd)
    receive_word-Keeps fd =
        Keeps-bind (retried-Keeps holds P d (receive_bytes fd 8) refl rounds patient)
          λ r. Keeps-if (is_word r.ret) (Keeps-pure _) (Keeps-raise ipc_failed)

    await_zero-Keeps : (fd : ℕ) → Keeps holds P P (await_zero d mem rounds fd)
    await_zero-Keeps fd =
        Keeps-bind (receive_word-Keeps fd)
          λ v. Keeps-if (v % 2 ^ 32 == 0) (Keeps-pure tt) (Keeps-raise ipc_failed)

    write_pattern-Keeps : (bytes seed : ℕ) → Keeps holds P P (write_pattern d mem rounds bytes seed)
    write_pattern-Keeps bytes seed =
        Keeps-bind (Keeps-gets (λ s. s.host.addr)) λ a. store-Keeps d (seeded seed) a bytes

    verify-Keeps : (bytes seed : ℕ) → Keeps holds P P (verify d mem rounds bytes seed)
    verify-Keeps bytes seed =
        Keeps-bind (Keeps-gets (λ s. s.host.addr)) λ a. compare_with-Keeps mem (seeded seed) a bytes

  module _ (importer host_mode : Bool) (device bytes socket : ℕ) where
    obtain-Keeps :
        (token : ℕ)
        → Keeps holds
            (Stage IsReserved)
            (Stage IsUnmapped)
            (obtain d mem rounds importer host_mode device bytes socket token)
    obtain-Keeps token =
        Keeps-if importer
          (Keeps-bind (Keeps-if host_mode (Keeps-check d get_host_id refl) (Keeps-pure device)) λ t.
            Keeps-bind (import-Keeps host host-IsPlace d IsCode token (pos t) plain (λ a s h. h))
              λ n. Keeps-pure tt)
          (Keeps-bind
            (create-Keeps host host-IsPlace d IsCode bytes (host_memory_prop huge) plain
              (λ a s h. h))
            λ n. Keeps-pure tt)

    map_part-Keeps :
        Keeps holds
          (Stage IsBlank)
          (Stage IsMapped)
          (map_part d mem rounds importer host_mode device bytes socket)
    map_part-Keeps =
        Keeps-bind
          (Keeps-bind (Keeps-check d (open_device device) refl)
            λ n. Keeps-modify _ (λ x s. refl) (λ s h. h))
          λ u. Keeps-bind (Keeps-if importer (receive_word-Keeps socket) (Keeps-pure 0)) λ token.
            Keeps-bind (reserve-Keeps host host-IsPlace d IsCode bytes (λ a s h. h)) λ n.
              Keeps-bind (obtain-Keeps token)
                λ u'. map_whole-Keeps host host-IsPlace d IsCode bytes (λ a s h. h)

    creator_part-Keeps :
        Keeps holds
          (Stage IsMapped)
          IsCode
          (creator_part d mem rounds importer host_mode device bytes socket)
    creator_part-Keeps = Keeps-bind (write_pattern-Keeps bytes 101) λ u.
        Keeps-bind (Keeps-gets (λ s. s.host.handle)) λ h.
          Keeps-bind (Keeps-check d (export_handle h) refl) λ token.
            Keeps-bind (Keeps-check d (disable_whitelist token) refl) λ n.
              Keeps-bind (send_word-Keeps socket token) λ u1.
                Keeps-bind (await_zero-Keeps socket) λ u2.
                  Keeps-bind (Keeps-if host_mode (verify-Keeps bytes 202) (Keeps-pure tt)) λ u3.
                    Keeps-bind (send_word-Keeps socket 0)
                      λ u4. Keeps-weaken (λ s h. h.1) (await_zero-Keeps socket)

    importer_part-Keeps :
        Keeps holds
          (Stage IsMapped)
          IsCode
          (importer_part d mem rounds importer host_mode device bytes socket)
    importer_part-Keeps =
        Keeps-bind
          (Keeps-if host_mode
            (Keeps-bind (verify-Keeps bytes 101) λ u. write_pattern-Keeps bytes 202)
            (Keeps-pure tt))
          λ u. Keeps-bind (send_word-Keeps socket 0) λ u1.
            Keeps-bind (await_zero-Keeps socket) λ u2.
              Keeps-bind (unmap-Keeps host host-IsPlace d IsCode (λ a s h. h)) λ u3.
                Keeps-bind (release-Keeps host host-IsPlace d IsCode (λ a s h. h)) λ u4.
                  Keeps-bind (free_address-Keeps host host-IsPlace d IsCode (λ a s h. h))
                    λ u5. Keeps-weaken (λ s h. h.1) (send_word-Keeps socket 0)

    share-Keeps :
        Keeps holds
          (Stage IsBlank)
          IsCode
          (share d mem rounds importer host_mode device bytes socket)
    unfolding share
    share-Keeps =
        Keeps-bind map_part-Keeps λ u. Keeps-if importer importer_part-Keeps creator_part-Keeps

    finish-Over :
        (w : World MapProbe)
        → IsKept holds w
        → IsCode w.self
        → Ends Over Never (finish d mem rounds importer host_mode device bytes socket w)
    unfolding finish
    finish-Over w kept code =
        let v = after d (close_socket socket) w in
        let c = close_device device in
        Ends-bind (Left IsCode []) Over Never _ (destroy d note_failure v.self.host v)
          (destroy-Outstanding d note_failure IsCode noted v.self.host [] v
            (kept-Outstanding holds (v.self.host ∷ []) v (λ x. refl)
              (called-IsKept holds d (close_socket socket) w refl kept))
            code)
          λ u y h.
            Ends-bind (Left IsCode []) Over Never _ _
              (if_cleanup-Left d note_failure IsCode noted y.self.opened c [] y refl h)
              λ u' x h'. h'

    caught-IsKept :
        (r : Outcome (Unit {0}) × World MapProbe)
        → Ends (λ a v. IsKept holds v × IsCode v.self) (IsKept holds) r
        → Ends
            (λ a v. IsKept holds v × IsCode v.self)
            Never
            (caught d mem rounds importer host_mode device bytes socket r)
    caught-IsKept (ok a, w) h = h
    caught-IsKept (threw e, w) h = (h, omega arith)
    caught-IsKept (fault f, w) h = h

    -- With a driver that leaves the handle null when a creation or an import fails, and interrupts no
    -- call more often in a row than the rounds allow, a process that has obtained nothing ends with an
    -- exit code of at most 1, whatever the driver, the peer and the memory answer: each address,
    -- handle and mapping has been given back, or the driver has refused to take it, and none has been
    -- given back more often than obtained.
    pub worker-Over :
        (w : World MapProbe)
        → IsKept holds w
        → IsBlank w.self.host
        → IsCode w.self
        → Ends Over Never (worker d mem rounds importer host_mode device bytes socket w)
    unfolding worker
    worker-Over w kept blank code =
        Ends-bind (λ u v. IsKept holds v × IsCode v.self) Over Never _ _
          (caught-IsKept _ (share-Keeps.ends w kept (blank, code)))
          λ u v (h, code'). finish-Over v h code'

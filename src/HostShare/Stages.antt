-- ===== src/HostShare/Stages.antt =====
-- The statements of a process of host_share keep its books.
use ascend_hal_sharing_probe.Prelude.{ℕ, ◌≡◌, refl, Bool, true, pos, List, ◌==◌, arith}
use ascend_hal_sharing_probe.Effects.{
  Driver, Trace, huge, acl_init, set_device, get_host_id, get_attribute, export_handle,
  disable_whitelist,
}
use ascend_hal_sharing_probe.Effects.Outcomes.{Ends-weaken}
use ascend_hal_sharing_probe.HalMemory.{host_memory_prop}
use ascend_hal_sharing_probe.DataStrategy.Accounts.{held_all}
use ascend_hal_sharing_probe.Common.{Allocation, failed_check}
use ascend_hal_sharing_probe.Common.Books.{IsKept, Keeps, IsPlace}
use ascend_hal_sharing_probe.Common.Rules.{
  Keeps-bind, Keeps-if, Keeps-pure, Keeps-raise, Keeps-gets, Keeps-call, Keeps-check, Keeps-modify,
  Keeps-weaken,
}
use ascend_hal_sharing_probe.Common.Evens.{IsPlain, IsBlank, IsUnmapped, IsMapped}
use ascend_hal_sharing_probe.Common.Places.{
  At, reserve-Keeps, create-Keeps, import-Keeps, map_whole-Keeps, unmap-Keeps, release-Keeps,
  free_address-Keeps,
}
use ascend_hal_sharing_probe.Common.Retry.{IsPatient}
use ascend_hal_sharing_probe.Common.Pattern.{Memory, fill-Keeps, verify-Keeps}
use ascend_hal_sharing_probe.Common.Acl.Changes.{IsNone}
use ascend_hal_sharing_probe.Common.AioOperation.{IoEvent}
use ascend_hal_sharing_probe.Cli.{send_word-Keeps, receive_word-Keeps, await_zero-Keeps}
use ascend_hal_sharing_probe.HostShare.{HostShare, AioMode, host, add_failures, extended}
use ascend_hal_sharing_probe.HostShare.Worker.{
  set_up, obtain, tested, creator_part, importer_part, share,
}
use ascend_hal_sharing_probe.HostShare.Cases.{holds}
use ascend_hal_sharing_probe.HostShare.Closing.{Clear, io_tests-Ends}

pub host-IsPlace : IsPlace holds host
unfolding held_all
host-IsPlace = record { got = λ a s. refl; moved = λ x a s. omega arith }

-- No ACL resources and no AIO context.
abbrev pub IsIdle : HostShare → Type 0
IsIdle s = IsNone s.acl × (s.ctx ≡ 0)

abbrev pub In : (Allocation → Type 0) → HostShare → Type 0
In A = At host host-IsPlace A IsIdle

abbrev pub Any : HostShare → Type 0
Any s = Unit {0}

module _ (d : Driver) (mem : Memory) (rounds : ℕ) (events : Trace → List IoEvent)
    (plain : IsPlain d) (patient : IsPatient d rounds) where
  module _ (mode : AioMode) (device : ℕ) (reader : Bool) (channel bytes : ℕ) where
    set_up-Keeps :
        Keeps holds
          (In IsBlank)
          (In IsBlank)
          (set_up d mem rounds events mode device reader channel bytes)
    set_up-Keeps = Keeps-bind (Keeps-check d acl_init refl) λ n.
        Keeps-bind
          (Keeps-modify {Q = In IsBlank} (λ s. record s { initialized = true }) (λ x s. refl)
            (λ s h. h))
          λ u. Keeps-bind (Keeps-check d (set_device (pos device)) refl) λ n1.
            Keeps-bind
              (Keeps-modify {Q = In IsBlank} (λ s. record s { device_set = true }) (λ x s. refl)
                (λ s h. h))
              λ u1. Keeps-check d get_host_id refl

    obtain-Keeps :
        (host_id : ℕ)
        → Keeps holds
            (In IsBlank)
            (In IsUnmapped)
            (obtain d mem rounds events mode device reader channel bytes host_id)
    obtain-Keeps host_id =
        Keeps-if reader
          (Keeps-bind (receive_word-Keeps d rounds patient channel) λ token.
            Keeps-bind (reserve-Keeps host host-IsPlace d IsIdle bytes (λ a s h. h))
              λ n. import-Keeps host host-IsPlace d IsIdle token (pos host_id) plain (λ a s h. h))
          (Keeps-bind (reserve-Keeps host host-IsPlace d IsIdle bytes (λ a s h. h)) λ n.
            create-Keeps host host-IsPlace d IsIdle bytes (host_memory_prop huge) plain
              (λ a s h. h))

    tested-Keeps :
        (va seed : ℕ)
        → Keeps holds
            (In IsMapped)
            (In IsMapped)
            (tested d mem rounds events mode device reader channel bytes va seed)
    tested-Keeps va seed =
        Keeps-bind {Q = In IsMapped}
          (record {
            ends = λ w kept (mapped, (none, unset)).
                Ends-weaken
                  {P = λ n v. Clear d mem rounds events mode va bytes seed w.trace IsMapped v}
                  {P' = λ n v. IsKept holds v × In IsMapped v.self}
                  {Q = Clear d mem rounds events mode va bytes seed w.trace IsMapped}
                  {Q' = IsKept holds} _ (λ n v h. (h.kept, (h.frame.1.0, (h.frame.0, h.frame.1.1))))
                  (λ v h. h.kept)
                  (io_tests-Ends d mem rounds events mode va bytes seed IsMapped w kept mapped none
                    unset);
          })
          λ n. Keeps-modify (add_failures n) (λ x s. refl) (λ s h. h)

    creator_part-Keeps :
        (va : ℕ)
        → Keeps holds
            (In IsMapped)
            Any
            (creator_part d mem rounds events mode device reader channel bytes va)
    creator_part-Keeps va = Keeps-bind (fill-Keeps d va bytes 101) λ u.
        Keeps-bind (verify-Keeps mem va bytes 101) λ u1.
          Keeps-bind (Keeps-gets (λ s. s.host.handle)) λ h.
            Keeps-bind (Keeps-check d (export_handle h) refl) λ token.
              Keeps-bind (Keeps-check d (disable_whitelist token) refl) λ n.
                Keeps-bind (send_word-Keeps d rounds patient channel token) λ u2.
                  Keeps-bind (await_zero-Keeps d rounds patient channel) λ u3.
                    Keeps-bind (verify-Keeps mem va bytes 202) λ u4.
                      Keeps-bind (tested-Keeps va 303) λ u5.
                        Keeps-bind (send_word-Keeps d rounds patient channel 303) λ u6.
                          Keeps-bind (receive_word-Keeps d rounds patient channel) λ n1.
                            Keeps-bind
                              (Keeps-modify {Q = Any} (add_failures n1) (λ x s. refl) (λ s h. tt))
                              λ u7. Keeps-bind (verify-Keeps mem va bytes 404) λ u8.
                                Keeps-bind (send_word-Keeps d rounds patient channel 0)
                                  λ u9. await_zero-Keeps d rounds patient channel

    importer_part-Keeps :
        (va : ℕ)
        → Keeps holds
            (In IsMapped)
            Any
            (importer_part d mem rounds events mode device reader channel bytes va)
    importer_part-Keeps va = Keeps-bind (verify-Keeps mem va bytes 101) λ u.
        Keeps-bind (fill-Keeps d va bytes 202) λ u1.
          Keeps-bind (verify-Keeps mem va bytes 202) λ u2.
            Keeps-bind (send_word-Keeps d rounds patient channel 0) λ u3.
              Keeps-bind
                (Keeps-bind (receive_word-Keeps d rounds patient channel)
                  λ n. Keeps-if (n == 303) (Keeps-pure tt) (Keeps-raise failed_check))
                λ u4. Keeps-bind (verify-Keeps mem va bytes 303) λ u5.
                  Keeps-bind (tested-Keeps va 404) λ u6.
                    Keeps-bind (Keeps-gets (λ s. s.failures)) λ n1.
                      Keeps-bind (send_word-Keeps d rounds patient channel (extended n1)) λ u7.
                        Keeps-bind (await_zero-Keeps d rounds patient channel) λ u8.
                          Keeps-bind (unmap-Keeps host host-IsPlace d IsIdle (λ a s h. h)) λ u9.
                            Keeps-bind (release-Keeps host host-IsPlace d IsIdle (λ a s h. h)) λ v.
                              Keeps-bind
                                (free_address-Keeps host host-IsPlace d IsIdle (λ a s h. h))
                                λ v1.
                                  Keeps-weaken (λ s h. tt)
                                    (send_word-Keeps d rounds patient channel 0)

    pub share-Keeps :
        Keeps holds (In IsBlank) Any (share d mem rounds events mode device reader channel bytes)
    unfolding share
    share-Keeps = Keeps-bind set_up-Keeps λ host_id. Keeps-bind (obtain-Keeps host_id) λ n.
        Keeps-bind (map_whole-Keeps host host-IsPlace d IsIdle bytes (λ a s h. h)) λ u.
          Keeps-bind (Keeps-gets (λ s. s.host.addr)) λ va.
            Keeps-bind (Keeps-bind (Keeps-call d (get_attribute va) refl) λ r. Keeps-pure tt)
              λ u1. Keeps-if reader (importer_part-Keeps va) (creator_part-Keeps va)

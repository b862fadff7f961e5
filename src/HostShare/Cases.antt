-- ===== src/HostShare/Cases.antt =====
-- The cases of `io_tests` in host_share: what they hold of streams, events, memory of the device,
-- contexts, files and buffers.
use ascend_hal_sharing_probe.Effects.Ledger.{Resource}
use ascend_hal_sharing_probe.DataStrategy.Accounts.{held_all}
use ascend_hal_sharing_probe.Prelude.{ℕ, zero, suc, ◌+◌, refl, List, [], ◌∷◌, ◌==◌, arith}
use ascend_hal_sharing_probe.Effects.{
  Driver, modify, Exception, Trace, World, CopyKind, host_to_device, device_to_host,
  device_to_device, record_event, query_event, sync_event, set_bytes, clock_now,
}
use ascend_hal_sharing_probe.Effects.Tally.{Item}
use ascend_hal_sharing_probe.Effects.Meets.{
  Meets, Meets-bind, Meets-if, Meets-pure, Meets-modify, Meets-gets, Meets-weaken,
}
use ascend_hal_sharing_probe.Common.{Allocation}
use ascend_hal_sharing_probe.Common.Items.Parts.{call-Holds, check-Holds, fill-Holds, verify-Holds}
use ascend_hal_sharing_probe.Common.Items.{Holds}
use ascend_hal_sharing_probe.Common.Acl.Changes.{acl_held, IsNone}
use ascend_hal_sharing_probe.Common.Acl.Releases.{
  IsAclPlace, IsNote, AclAt, obtain_device-Meets, obtain_stream-Meets, obtain_event-Meets,
}
use ascend_hal_sharing_probe.Common.AioOperation.{IoEvent}
use ascend_hal_sharing_probe.Common.AioOperation.Holdings.{ctx_held, Open}
use ascend_hal_sharing_probe.Common.Pattern.{Memory}
use ascend_hal_sharing_probe.HostShare.{HostShare, AioMode, acl, note, get_ctx, count_failure}
use ascend_hal_sharing_probe.HostShare.IoTests.{
  stream_copy, sync, copies, backlog, acl_case, acl_failed,
}

abbrev pub holds : Resource → HostShare → ℕ
holds x s = held_all x (s.host ∷ [])

abbrev pub held : Item → HostShare → ℕ
held x s = acl_held x s.acl + ctx_held x s.ctx

pub acl-IsAclPlace : IsAclPlace holds held acl
acl-IsAclPlace = record { got = λ a s. refl; same = λ x a s. refl; moved = λ x a s. omega arith }

pub note-IsNote :
    (F : HostShare → Type 0) → ((s : HostShare) → F s → F (note s)) → IsNote holds held F note
note-IsNote F frame = record { same = λ x s. refl; same_held = λ x s. refl; frame = frame }

-- The allocation's stage, with or without an AIO context.
abbrev pub Host : (Allocation → Type 0) → HostShare → Type 0
Host A s = A s.host

abbrev pub NoContext : (Allocation → Type 0) → HostShare → Type 0
NoContext A = Open (Host A) get_ctx 0

-- A failure is counted.
pub counted :
    {t : Trace} {F : HostShare → Type 0} {extra : Item → ℕ} {E : World HostShare → Type 0}
    → ((s : HostShare) → F s → F (count_failure s))
    → Meets (Holds holds held t F extra) (Holds holds held t F extra) E (modify count_failure)
counted frame =
    Meets-modify count_failure
      λ w h. record { kept = h.kept; frame = frame w.self h.frame; tally = h.tally }

module _ (d : Driver) (mem : Memory) (rounds : ℕ) (events : Trace → List IoEvent) (mode : AioMode)
    (ptr bytes seed : ℕ) (t : Trace) (A : Allocation → Type 0) (extra : Item → ℕ) where
  abbrev pub In : (HostShare → Type 0) → World HostShare → Type 0
  In F = Holds holds held t F extra

  module _ (F : HostShare → Type 0) where
    stream_copy-Meets :
        (kind : CopyKind)
        → Meets (In F) (In F) (In F) (stream_copy d mem rounds events mode ptr bytes seed kind)
    stream_copy-Meets host_to_device =
        Meets-bind (Meets-gets (λ s. s.acl)) λ a. check-Holds d _ refl
    stream_copy-Meets device_to_host =
        Meets-bind (Meets-gets (λ s. s.acl)) λ a. check-Holds d _ refl
    stream_copy-Meets device_to_device =
        Meets-bind (Meets-gets (λ s. s.acl)) λ a. check-Holds d _ refl

    sync-Meets : Meets (In F) (In F) (In F) (sync d mem rounds events mode ptr bytes seed)
    sync-Meets = Meets-bind (Meets-gets (λ s. s.acl)) λ a. check-Holds d _ refl

    copies-Meets :
        (n : ℕ) (kind : CopyKind)
        → Meets (In F) (In F) (In F) (copies d mem rounds events mode ptr bytes seed n kind)
    unfolding copies
    copies-Meets zero kind = Meets-pure tt
    copies-Meets (suc n) kind = Meets-bind (stream_copy-Meets kind) λ m. copies-Meets n kind

    backlog-Meets :
        (kind : CopyKind)
        → Meets (In F) (In F) (In F) (backlog d mem rounds events mode ptr bytes seed kind)
    backlog-Meets kind = Meets-bind (call-Holds d clock_now refl) λ r.
        Meets-bind (copies-Meets 32 kind) λ u. Meets-bind (call-Holds d clock_now refl) λ r1.
          Meets-bind (Meets-gets (λ s. s.acl)) λ a.
            Meets-bind (check-Holds d (record_event a.event a.stream) refl) λ n.
              Meets-bind (check-Holds d (query_event a.event) refl) λ n1.
                Meets-bind (check-Holds d (sync_event a.event) refl)
                  λ n2. Meets-bind (call-Holds d clock_now refl) λ r2. Meets-pure tt

  -- The transfers by the ACL runtime, with or without an error.
  pub acl_case-Meets :
      Meets
        (In (AclAt acl IsNone (NoContext A)))
        (In (NoContext A))
        (In (NoContext A))
        (acl_case d mem rounds events mode ptr bytes seed)
  unfolding acl_case
  acl_case-Meets =
      let G = NoContext A in
      Meets-bind (obtain_device-Meets acl acl-IsAclPlace d G extra (λ a s h. h) bytes) λ n.
        Meets-bind (obtain_stream-Meets acl acl-IsAclPlace d G extra (λ a s h. h)) λ n1.
          Meets-bind {Q = In G}
            (Meets-weaken (λ w h. h)
              (λ w h. record { kept = h.kept; frame = h.frame.1; tally = h.tally }) (λ w h. h)
              (obtain_event-Meets acl acl-IsAclPlace d G extra (λ a s h. h)))
            λ n2. Meets-bind (fill-Holds d ptr bytes seed) λ u.
              Meets-bind (stream_copy-Meets G host_to_device) λ n3. Meets-bind (sync-Meets G) λ n4.
                Meets-bind (call-Holds d (set_bytes ptr 0 bytes) refl) λ r.
                  Meets-bind (stream_copy-Meets G device_to_host) λ n5.
                    Meets-bind (sync-Meets G) λ n6.
                      Meets-bind (verify-Holds mem ptr bytes seed) λ u1.
                        Meets-bind (backlog-Meets G host_to_device) λ u2.
                          Meets-bind (backlog-Meets G device_to_host)
                            λ u3. verify-Holds mem ptr bytes seed

  pub acl_failed-Meets :
      (e : Exception)
      → Meets
          (In (NoContext A))
          (In (NoContext A))
          (In (NoContext A))
          (acl_failed d mem rounds events mode ptr bytes seed e)
  acl_failed-Meets e = Meets-bind (counted (λ s h. h)) λ u.
      Meets-bind (Meets-gets (λ s. s.acl)) λ a.
        Meets-if (a.stream == 0) (Meets-pure tt)
          (Meets-bind (sync-Meets (NoContext A)) λ n. Meets-pure tt)

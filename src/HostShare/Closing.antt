-- ===== src/HostShare/Closing.antt =====
-- `io_tests` of host_share closes what it opens.
use ascend_hal_sharing_probe.Prelude.{
  ℕ, ◌+◌, ◌≡◌, refl, List, arith, is_zero, Bool-cases, inl, inr, if◌then◌else◌,
}
use ascend_hal_sharing_probe.Effects.{Driver, Trace, World, ◌>>=◌, allocate}
use ascend_hal_sharing_probe.Effects.Outcomes.{Ends, Ends-weaken}
use ascend_hal_sharing_probe.Effects.Tally.{Item, stream, IsItem, opens, closes}
use ascend_hal_sharing_probe.Effects.Meets.{
  Meets, Meets-bind, Meets-if, Meets-modify, Meets-gets, Meets-call_into, Meets-attempt,
  Meets-scoped,
}
use ascend_hal_sharing_probe.Common.{Allocation, check_reply}
use ascend_hal_sharing_probe.Common.Books.{IsKept}
use ascend_hal_sharing_probe.Common.Items.{Holds, changed-Holds}
use ascend_hal_sharing_probe.Common.Items.Parts.{fill-Holds}
use ascend_hal_sharing_probe.Common.Acl.Changes.{IsNone}
use ascend_hal_sharing_probe.Common.Acl.Releases.{AclAt, leave_acl-Meets}
use ascend_hal_sharing_probe.Common.AioOperation.{IoEvent}
use ascend_hal_sharing_probe.Common.Pattern.{Memory}
use ascend_hal_sharing_probe.HostShare.{HostShare, AioMode, acl, note, without_files}
use ascend_hal_sharing_probe.HostShare.IoTests.{file_cases, all_cases, with_buffer, io_tests}
use ascend_hal_sharing_probe.HostShare.Cases.{
  holds, held, NoContext, note-IsNote, acl-IsAclPlace, acl_case-Meets, acl_failed-Meets,
}
use ascend_hal_sharing_probe.HostShare.Variables.{with_control, buffer_opened}
use ascend_hal_sharing_probe.HostShare.Turns.{Idle, with_buffer-Meets}

module _ (d : Driver) (mem : Memory) (rounds : ℕ) (events : Trace → List IoEvent) (mode : AioMode)
    (ptr bytes seed : ℕ) (t : Trace) (A : Allocation → Type 0) where
  file_cases-Meets :
      (extra : Item → ℕ)
      → Meets
          (Idle d mem rounds events mode ptr bytes seed t A extra)
          (Idle d mem rounds events mode ptr bytes seed t A extra)
          (Idle d mem rounds events mode ptr bytes seed t A extra)
          (file_cases d mem rounds events mode ptr bytes seed)
  unfolding file_cases
  file_cases-Meets extra =
      Meets-call_into
        (λ r.
          Idle d mem rounds events mode ptr bytes seed t A
            (λ x. if is_zero r.ret then with_control extra r.out x else extra x))
        {f = λ r. check_reply d r >>= with_buffer d mem rounds events mode ptr bytes seed} d
        (allocate bytes)
        (λ w h.
          changed-Holds d (allocate bytes) w.self w refl (λ x. refl) h.frame
            (λ x real. omega (arith, buffer_opened extra bytes x real (d w.trace (allocate bytes))))
            h)
        λ r. elim (Bool-cases (is_zero r.ret)) [
          | inl good ↦
              rw good (with_buffer-Meets d mem rounds events mode ptr bytes seed t A extra r.out)
          | inr bad ↦ rw bad (record { ends = λ w h. h })
        ]

  all_cases-Meets :
      (extra : Item → ℕ)
      → Meets
          (Holds holds held t (AclAt acl IsNone (NoContext A)) extra)
          (Idle d mem rounds events mode ptr bytes seed t A extra)
          (Idle d mem rounds events mode ptr bytes seed t A extra)
          (all_cases d mem rounds events mode ptr bytes seed)
  unfolding all_cases
  all_cases-Meets extra =
      Meets-bind
        (Meets-attempt (acl_case-Meets d mem rounds events mode ptr bytes seed t A extra)
          (acl_failed-Meets d mem rounds events mode ptr bytes seed t A extra))
        λ u. Meets-if (without_files mode) (fill-Holds d ptr bytes seed) (file_cases-Meets extra)

  -- With nothing held before and after.
  abbrev pub Clear : World HostShare → Type 0
  Clear = Holds holds held t (AclAt acl IsNone (NoContext A)) (λ x. 0)

  pub io_tests-Meets : Meets Clear Clear Clear (io_tests d mem rounds events mode ptr bytes seed)
  unfolding io_tests
  io_tests-Meets =
      Meets-bind {Q = Clear}
        (Meets-modify (λ s. record s { io_failures = 0 })
          λ w h. record { kept = h.kept; frame = h.frame; tally = h.tally })
        λ u.
          Meets-bind
            (Meets-scoped (all_cases-Meets (λ x. 0))
              (leave_acl-Meets acl acl-IsAclPlace d note (note-IsNote _ (λ s h. h))
                (λ s h. ((refl, refl, refl), h)))
              (leave_acl-Meets acl acl-IsAclPlace d note (note-IsNote _ (λ s h. h))
                (λ s h. ((refl, refl, refl), h))))
            λ u1. Meets-gets (λ s. s.io_failures)

-- Every item that is opened between two histories is closed there, as often.
abbrev pub AllClosed : Trace → Trace → Type 0
AllClosed t t' = (x : Item) → IsItem x → opens x t' + closes x t ≡ closes x t' + opens x t

none_held : (x : Item) (s : HostShare) → IsItem x → IsNone s.acl → s.ctx ≡ 0 → held x s ≡ 0
none_held (stream n) s real none unset = ground arith
none_held _ s real none unset = ground arith

module _ (d : Driver) (mem : Memory) (rounds : ℕ) (events : Trace → List IoEvent) (mode : AioMode)
    (ptr bytes seed : ℕ) where
  -- The tests leave the allocation as it is, and hold nothing afterwards.
  pub io_tests-Ends :
      (A : Allocation → Type 0) (w : World HostShare)
      → IsKept holds w
      → A w.self.host
      → IsNone w.self.acl
      → w.self.ctx ≡ 0
      → Ends
          (λ n v. Clear d mem rounds events mode ptr bytes seed w.trace A v)
          (Clear d mem rounds events mode ptr bytes seed w.trace A)
          (io_tests d mem rounds events mode ptr bytes seed w)
  io_tests-Ends A w kept in_a none unset =
      (io_tests-Meets d mem rounds events mode ptr bytes seed w.trace A).ends w record {
        kept = kept;
        frame = (none, (in_a, unset));
        tally = λ x real. omega (arith, none_held x w.self real none unset);
      }

  -- From an object whose books are kept, with no ACL resources and no AIO context, `io_tests` returns or
  -- throws, and by then each stream, event, context, descriptor, and memory of the device or the host
  -- that it has opened has been closed as often as it was opened.
  pub io_tests-AllClosed :
      (w : World HostShare)
      → IsKept holds w
      → IsNone w.self.acl
      → w.self.ctx ≡ 0
      → Ends
          (λ n v. AllClosed w.trace v.trace)
          (λ v. AllClosed w.trace v.trace)
          (io_tests d mem rounds events mode ptr bytes seed w)
  io_tests-AllClosed w kept none unset =
      Ends-weaken _ (λ n v h. all_closed w.trace v h) (λ v h. all_closed w.trace v h)
        (io_tests-Ends (λ a. Unit {0}) w kept tt none unset)
    where
      all_closed :
          (t : Trace) (v : World HostShare)
          → Clear d mem rounds events mode ptr bytes seed t (λ a. Unit {0}) v
          → AllClosed t v.trace
      all_closed t v h x real =
          omega (arith, h.tally x real, none_held x v.self real h.frame.0 h.frame.1.1)

-- ===== src/HostShare/Turns.antt =====
-- The file tests of host_share close the file, its context and their buffer.
use ascend_hal_sharing_probe.Prelude.{
  ℕ, refl, Bool, true, false, List, arith, is_zero, pos, negsuc, ℤ,
}
use ascend_hal_sharing_probe.Effects.{
  Driver, Trace, World, create_file, close_file, unlink_file, free,
}
use ascend_hal_sharing_probe.Effects.Tally.{Item}
use ascend_hal_sharing_probe.Effects.Meets.{
  Meets, Meets-bind, Meets-if, Meets-pure, Meets-raise, Meets-call, Meets-call_into, Meets-attempt,
  Meets-weaken,
}
use ascend_hal_sharing_probe.Common.{Allocation}
use ascend_hal_sharing_probe.Common.Items.{Holds, Holds-IsStable, changed-Holds, quiet-Meets}
use ascend_hal_sharing_probe.Common.Items.Parts.{fill-Holds}
use ascend_hal_sharing_probe.Common.Acl.Releases.{closes-Meets}
use ascend_hal_sharing_probe.Common.AioOperation.{IoEvent}
use ascend_hal_sharing_probe.Common.Pattern.{Memory, fill-Meets}
use ascend_hal_sharing_probe.HostShare.{HostShare, AioMode, note, is_skipped, unlink_failed}
use ascend_hal_sharing_probe.HostShare.IoTests.{opened_case, with_file, file_turn, with_buffer}
use ascend_hal_sharing_probe.HostShare.Cases.{holds, held, Host, NoContext, note-IsNote, counted}
use ascend_hal_sharing_probe.HostShare.Files.{file_case-Meets, end_context-Meets}
use ascend_hal_sharing_probe.HostShare.Variables.{
  with_descriptor, with_control, file_closed, file_opened, no_file, buffer_closed,
}

module _ (d : Driver) (mem : Memory) (rounds : ℕ) (events : Trace → List IoEvent) (mode : AioMode)
    (ptr bytes seed : ℕ) (t : Trace) (A : Allocation → Type 0) where
  abbrev pub Idle : (Item → ℕ) → World HostShare → Type 0
  Idle extra = Holds holds held t (NoContext A) extra

  opened_case-Meets :
      {E : World HostShare → Type 0} (extra : Item → ℕ) (control fd : ℕ)
      → Meets
          (Idle (with_descriptor extra (pos fd)))
          (Idle extra)
          E
          (opened_case d mem rounds events mode ptr bytes seed control fd)
  unfolding opened_case
  opened_case-Meets extra control fd =
      let more = with_descriptor extra (pos fd) in
      Meets-bind {Q = Holds holds held t (Host A) more}
        (Meets-attempt (file_case-Meets d mem rounds events mode ptr bytes seed t A more control fd)
          (λ e. counted (λ s h. h)))
        λ u.
          Meets-bind (end_context-Meets d mem rounds events mode ptr bytes seed t A more control fd)
            λ u1.
              closes-Meets d note (close_file fd) (note-IsNote (NoContext A) (λ s h. h)) refl
                (file_closed extra fd)

  -- The buffer ends with the exception.
  with_file-Meets :
      (extra : Item → ℕ) (control : ℕ) (ret : ℤ)
      → Meets
          (Idle (with_descriptor (with_control extra control) ret))
          (Idle (with_control extra control))
          (Idle extra)
          (with_file d mem rounds events mode ptr bytes seed control ret)
  with_file-Meets extra control (pos fd) =
      let more = with_control extra control in
      Meets-bind (quiet-Meets d (Holds-IsStable d) (unlink_file fd) refl) λ r.
        Meets-if (is_zero r.ret) (opened_case-Meets more control fd) (
          Meets-bind
            (Meets-call {Q = Idle more} d (close_file fd) λ w h.
              changed-Holds d (close_file fd) w.self w refl (λ x. refl) h.frame
                (λ x real. omega (arith, file_closed more fd x real (d w.trace (close_file fd)))) h)
            λ r1.
              Meets-bind
                (Meets-call {Q = Idle extra} d (free control) λ w h.
                  changed-Holds d (free control) w.self w refl (λ x. refl) h.frame
                    (λ x real.
                      omega (arith, buffer_closed extra control x real (d w.trace (free control))))
                    h)
                λ r2. Meets-raise unlink_failed (λ w h. h))
  with_file-Meets extra control (negsuc n) =
      let more = with_control extra control in
      Meets-weaken {P = Idle more}
        (λ w h. record {
          kept = h.kept;
          frame = h.frame;
          tally = λ x real. omega (arith, h.tally x real, no_file more n x);
        })
        (λ w h. h) (λ w h. h) (counted (λ s h. h))

  file_turn-Meets :
      (extra : Item → ℕ) (control : ℕ) (with_direct : Bool)
      → Meets
          (Idle (with_control extra control))
          (Idle (with_control extra control))
          (Idle extra)
          (file_turn d mem rounds events mode ptr bytes seed control with_direct)
  unfolding file_turn
  file_turn-Meets extra control with_direct =
      let more = with_control extra control in
      Meets-if (is_skipped mode with_direct) (Meets-pure tt) (
        Meets-bind (fill-Meets d (Holds-IsStable d) control bytes seed) λ u.
          Meets-call_into (λ r. Idle (with_descriptor more r.ret)) d (create_file with_direct)
            (λ w h.
              changed-Holds d (create_file with_direct) w.self w refl (λ x. refl) h.frame
                (λ x real. omega (
                  arith,
                  file_opened more with_direct x real (d w.trace (create_file with_direct)),
                ))
                h)
            (λ r. with_file-Meets extra control r.ret))

  pub with_buffer-Meets :
      (extra : Item → ℕ) (control : ℕ)
      → Meets
          (Idle (with_control extra control))
          (Idle extra)
          (Idle extra)
          (with_buffer d mem rounds events mode ptr bytes seed control)
  with_buffer-Meets extra control =
      let more = with_control extra control in
      Meets-bind (fill-Meets d (Holds-IsStable d) control bytes seed) λ u.
        Meets-bind (file_turn-Meets extra control false) λ u1.
          Meets-bind (file_turn-Meets extra control true) λ u2.
            Meets-bind
              (Meets-call {Q = Idle extra} d (free control) λ w h.
                changed-Holds d (free control) w.self w refl (λ x. refl) h.frame
                  (λ x real.
                    omega (arith, buffer_closed extra control x real (d w.trace (free control))))
                  h)
              λ r. fill-Holds d ptr bytes seed

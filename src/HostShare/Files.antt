-- ===== src/HostShare/Files.antt =====
-- The cases on files: each context, file and buffer is given back.
use ascend_hal_sharing_probe.Prelude.{
  ℕ, ◌+◌, ◌≡◌, refl, Bool, true, false, List, ◌==◌, arith, is_zero, Bool-cases, inl, inr,
}
use ascend_hal_sharing_probe.Effects.{
  Reply, Driver, Exception, Trace, World, set_bytes, sync_file, io_setup,
}
use ascend_hal_sharing_probe.Effects.Tally.{Item, context, IsItem, opened, closed}
use ascend_hal_sharing_probe.Effects.Meets.{
  Meets, Meets-bind, Meets-if, Meets-pure, Meets-raise, Meets-gets, Meets-attempt, Meets-weaken,
}
use ascend_hal_sharing_probe.Common.{Allocation, check_reply, failed_check}
use ascend_hal_sharing_probe.Common.Items.{Holds, changed-Holds}
use ascend_hal_sharing_probe.Common.Items.Parts.{call-Holds, check-Holds, fill-Holds, verify-Holds}
use ascend_hal_sharing_probe.Common.AioOperation.{IoEvent, aio_operation}
use ascend_hal_sharing_probe.Common.AioOperation.Holdings.{
  ctx_held, IsContext, Open, aio_operation-Meets, close_context-Meets, closed_still,
}
use ascend_hal_sharing_probe.Common.Pattern.{Memory}
use ascend_hal_sharing_probe.HostShare.{HostShare, AioMode, note, get_ctx, set_ctx, write_seed}
use ascend_hal_sharing_probe.HostShare.IoTests.{
  operate, operation_case, operation_failed, operation_tested, set_up_context, file_case,
  end_context,
}
use ascend_hal_sharing_probe.HostShare.Cases.{holds, held, Host, NoContext, note-IsNote, counted}

ctx-IsContext : (A : Allocation → Type 0) → IsContext holds held (Host A) get_ctx set_ctx note
ctx-IsContext A = record {
  same = λ x c s. refl;
  frame = λ c s h. h;
  got = λ c s. refl;
  moved = λ x c s. omega arith;
  noted = note-IsNote (Host A) (λ s h. h);
  kept = λ s. refl;
  kept_held = λ x s. refl;
}

set_up-even :
    (x : Item)
    → IsItem x
    → (out : ℕ) (s : HostShare) → s.ctx ≡ 0
    → ctx_held x out ≡ ctx_held x s.ctx + ctx_held x out
set_up-even (context n) real out s e = ground arith
set_up-even _ real out s e = ground arith

opened_context :
    (x : Item) (r : Reply)
    → (opened x (io_setup 8) r ≡ ctx_held x r.out) × (closed x (io_setup 8) ≡ 0)
opened_context (context n) r = (refl, refl)
opened_context _ r = (refl, refl)

module _ (d : Driver) (mem : Memory) (rounds : ℕ) (events : Trace → List IoEvent) (mode : AioMode)
    (ptr bytes seed : ℕ) (t : Trace) (A : Allocation → Type 0) where
  abbrev In : (Item → ℕ) → (HostShare → Type 0) → World HostShare → Type 0
  In extra F = Holds holds held t F extra

  module _ (extra : Item → ℕ) where
    -- An operation with the context that is there, if any.
    operate-Meets :
        (fd at : ℕ) (write : Bool)
        → Meets
            (In extra (Host A))
            (In extra (Host A))
            (In extra (Host A))
            (operate d mem rounds events mode ptr bytes seed fd at write)
    operate-Meets fd at write = record {
      ends = λ w h.
          let ctx = w.self.ctx in
          let k : Meets (In extra (Open (Host A) get_ctx ctx)) (In extra (Host A))
              (In extra (Host A)) (aio_operation d events set_ctx note ctx fd at bytes write) =
            Meets-weaken (λ w h. h)
              (closed_still get_ctx set_ctx note (ctx-IsContext A) d extra ctx) (λ w h. h)
              (aio_operation-Meets get_ctx set_ctx note (ctx-IsContext A) d extra events ctx fd at
                bytes write) in
          k.ends w record { kept = h.kept; frame = (h.frame, refl); tally = h.tally };
    }

    module _ (control fd : ℕ) where
      operation_case-Meets :
          (write : Bool)
          → Meets
              (In extra (Host A))
              (In extra (Host A))
              (In extra (Host A))
              (operation_case d mem rounds events mode ptr bytes seed control fd write)
      operation_case-Meets true = Meets-bind (operate-Meets fd ptr true) λ u.
          Meets-bind (check-Holds d (sync_file fd) refl) λ n.
            Meets-bind (call-Holds d (set_bytes control 0 bytes) refl) λ r.
              Meets-bind (operate-Meets fd control false)
                λ u1. verify-Holds mem control bytes (write_seed seed)
      operation_case-Meets false =
          Meets-bind (operate-Meets fd ptr false) λ u. verify-Holds mem ptr bytes seed

      operation_failed-Meets :
          (e : Exception)
          → Meets
              (In extra (Host A))
              (In extra (Host A))
              (In extra (Host A))
              (operation_failed d mem rounds events mode ptr bytes seed control fd e)
      operation_failed-Meets e = Meets-bind (counted (λ s h. h)) λ u.
          Meets-bind (Meets-gets get_ctx)
            λ ctx. Meets-if (ctx == 0) (Meets-raise e (λ w h. h)) (Meets-pure tt)

      operation_tested-Meets :
          (write : Bool)
          → Meets
              (In extra (Host A))
              (In extra (Host A))
              (In extra (Host A))
              (operation_tested d mem rounds events mode ptr bytes seed control fd write)
      unfolding operation_tested
      operation_tested-Meets write =
          Meets-bind (fill-Holds d ptr bytes _)
            λ u. Meets-attempt (operation_case-Meets write) operation_failed-Meets

      set_up_context-Meets :
          Meets
            (In extra (NoContext A))
            (In extra (Host A))
            (In extra (Host A))
            (set_up_context d mem rounds events mode ptr bytes seed control fd)
      set_up_context-Meets = record {
        ends = λ w h.
            let r = d w.trace (io_setup 8) in
            let k : Meets (In extra (Host A)) (In extra (Host A)) (In extra (Host A))
                (check_reply d r) =
              Meets-if (is_zero r.ret) (Meets-pure r.out) (Meets-raise failed_check (λ w h. h)) in
            k.ends _ (
              changed-Holds d (io_setup 8) (set_ctx r.out w.self) w refl (λ x. refl) h.frame.0
                (λ x real.
                  omega (arith, set_up-even x real r.out w.self h.frame.1, opened_context x r))
                h);
      }

      pub file_case-Meets :
          Meets
            (In extra (NoContext A))
            (In extra (Host A))
            (In extra (Host A))
            (file_case d mem rounds events mode ptr bytes seed control fd)
      unfolding file_case
      file_case-Meets = Meets-bind set_up_context-Meets λ n.
          Meets-bind (operate-Meets fd control true) λ u.
            Meets-bind (check-Holds d (sync_file fd) refl) λ n1.
              Meets-bind (call-Holds d (set_bytes control 0 bytes) refl) λ r.
                Meets-bind (operate-Meets fd control false) λ u1.
                  Meets-bind (verify-Holds mem control bytes seed) λ u2.
                    Meets-bind (operation_tested-Meets false) λ u3. operation_tested-Meets true

      pub end_context-Meets :
          {E : World HostShare → Type 0}
          → Meets
              (In extra (Host A))
              (In extra (NoContext A))
              E
              (end_context d mem rounds events mode ptr bytes seed control fd)
      end_context-Meets {E} = record {
        ends = λ w h.
            let ctx = w.self.ctx in
            let there : In extra (Open (Host A) get_ctx ctx) w = record {
              kept = h.kept;
              frame = (h.frame, refl);
              tally = h.tally;
            } in
            let k : Meets (In extra (Open (Host A) get_ctx ctx)) (In extra (NoContext A)) E _ =
              close_context-Meets get_ctx set_ctx note (ctx-IsContext A) d extra ctx in
            elim (Bool-cases (ctx == 0)) [
              | inl e ↦
                  rw e record { kept = h.kept; frame = (h.frame, ground arith); tally = h.tally }
              | inr e ↦ rw e (k.ends w there)
            ];
      }

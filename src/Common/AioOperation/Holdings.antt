-- ===== src/Common/AioOperation/Holdings.antt =====
-- `aio_operation` gives up the context that it destroys, and holds on to it otherwise.
use ascend_hal_sharing_probe.Prelude.{
  ℕ, ◌+◌, ◌/◌, ◌≡◌, refl, ap, Bool, List, ◌==◌, arith, if◌then◌else◌, take,
}
use ascend_hal_sharing_probe.Effects.{
  Driver, Reply, Trace, World, io_submit, io_getevents, io_destroy, raise, pure, modify, ◌>>◌,
}
use ascend_hal_sharing_probe.Effects.Ledger.{Resource, one_if}
use ascend_hal_sharing_probe.Effects.Tally.{Item, context, stream, IsItem, closed, opened}
use ascend_hal_sharing_probe.Effects.Meets.{
  Meets, Meets-bind, Meets-if, Meets-pure, Meets-raise, Meets-modify, Meets-weaken,
}
use ascend_hal_sharing_probe.Common.{cleanup}
use ascend_hal_sharing_probe.Common.Items.{Holds, Holds-IsStable, quiet-Meets}
use ascend_hal_sharing_probe.Common.Acl.Releases.{IsNote, closes-Meets}
use ascend_hal_sharing_probe.Common.AioOperation.{
  IoEvent, requests, is_count, has_failed, blocks_from, failed_operation, give_up, judge,
  aio_operation,
}

abbrev pub ctx_held : Item → ℕ → ℕ
ctx_held (context n) c = one_if (c == n)
ctx_held _ c = 0

-- The context as it stands in the object.
pub record IsContext {S : Type 0} (holds : Resource → S → ℕ) (held : Item → S → ℕ) (F : S → Type 0)
    (get : S → ℕ) (set : ℕ → S → S) (note : S → S) : Type 0 where
  pub same : (x : Resource) (c : ℕ) (s : S) → holds x (set c s) ≡ holds x s
  pub frame : (c : ℕ) (s : S) → F s → F (set c s)
  pub got : (c : ℕ) (s : S) → get (set c s) ≡ c
  pub moved :
      (x : Item) (c : ℕ) (s : S) → held x (set c s) + ctx_held x (get s) ≡ held x s + ctx_held x c
  pub noted : IsNote holds held F note
  pub kept : (s : S) → get (note s) ≡ get s
  pub kept_held : (x : Item) (s : S) → held x (set 0 (note s)) ≡ held x (set 0 s)

none_held : (x : Item) → IsItem x → ctx_held x 0 ≡ 0
none_held (context n) real = ground arith
none_held _ real = ground arith

destroyed :
    (x : Item) (extra ctx : ℕ) → (extra + closed x (io_destroy ctx) ≡ extra + ctx_held x ctx)
destroyed (context n) extra ctx = ground arith
destroyed _ extra ctx = ground arith

never_opened : (x : Item) (ctx : ℕ) (r : Reply) → opened x (io_destroy ctx) r ≡ 0
never_opened (stream n) ctx r = refl
never_opened _ ctx r = refl

-- The context is there, and no operation has given it up.
abbrev pub Open : {S : Type 0} → (S → Type 0) → (S → ℕ) → ℕ → S → Type 0
Open F get ctx s = F s × (get s ≡ ctx)

-- What the object holds beside the context.
abbrev held_beside : {S : Type 0} → (Item → S → ℕ) → (ℕ → S → S) → Item → S → ℕ
held_beside held set x s = held x (set 0 s)

module _ {S : Type 0} {holds : Resource → S → ℕ} {held : Item → S → ℕ} {t : Trace} {F : S → Type 0}
    (get : S → ℕ) (set : ℕ → S → S) (note : S → S) (here : IsContext holds held F get set note)
    (d : Driver) (extra : Item → ℕ) where
  -- The context is closed, and the object still names it.
  destroy_context-Meets :
      {E : World S → Type 0} (ctx : ℕ)
      → Meets
          (Holds holds held t (Open F get ctx) extra)
          (Holds holds (held_beside held set) t F extra)
          E
          (cleanup d note (io_destroy ctx))
  destroy_context-Meets {E} ctx =
      let is_note : IsNote holds (held_beside held set) F note = record {
        same = here.noted.same;
        same_held = λ x s. here.kept_held x s;
        frame = here.noted.frame;
      } in
      Meets-weaken {P = Holds holds (held_beside held set) t F (λ x. extra x + ctx_held x ctx)}
        (λ w h. record {
          kept = h.kept;
          frame = h.frame.0;
          tally = λ x real. omega (
            arith,
            h.tally x real,
            here.moved x 0 w.self,
            none_held x real,
            ap (ctx_held x) h.frame.1,
          );
        })
        (λ w h. h) (λ w h. h)
        (closes-Meets d note (io_destroy ctx) is_note refl
          (λ x real r. (destroyed x (extra x) ctx, never_opened x ctx r)))

  clear_context-Meets :
      {E : World S → Type 0}
      → Meets
          (Holds holds (held_beside held set) t F extra)
          (Holds holds held t (Open F get 0) extra)
          E
          (modify (set 0))
  clear_context-Meets = Meets-modify (set 0) λ w h. record {
    kept = λ x real. omega (arith, h.kept x real, here.same x 0 w.self);
    frame = (here.frame 0 w.self h.frame, here.got 0 w.self);
    tally = h.tally;
  }

  pub close_context-Meets :
      {E : World S → Type 0} (ctx : ℕ)
      → Meets
          (Holds holds held t (Open F get ctx) extra)
          (Holds holds held t (Open F get 0) extra)
          E
          (cleanup d note (io_destroy ctx) >> modify (set 0))
  close_context-Meets ctx = Meets-bind (destroy_context-Meets ctx) λ u. clear_context-Meets

  pub closed_still :
      (ctx : ℕ) (w : World S)
      → Holds holds held t (Open F get ctx) extra w
      → Holds holds held t F extra w
  closed_still ctx w h = record { kept = h.kept; frame = h.frame.0; tally = h.tally }

  give_up-Meets :
      (ctx : ℕ) (events : Trace → List IoEvent)
      → Meets
          (Holds holds held t (Open F get ctx) extra)
          (Holds holds held t (Open F get ctx) extra)
          (Holds holds held t F extra)
          (give_up d events set note ctx)
  give_up-Meets ctx events =
      Meets-bind (destroy_context-Meets ctx)
        λ u. Meets-bind clear_context-Meets λ u1. Meets-raise failed_operation (closed_still 0)

  judge-Meets :
      (ctx chunk : ℕ) (events : Trace → List IoEvent)
      → Meets
          (Holds holds held t (Open F get ctx) extra)
          (Holds holds held t (Open F get ctx) extra)
          (Holds holds held t F extra)
          (judge d events set note chunk)
  judge-Meets ctx chunk events = record {
    ends = λ w h.
        let failed = has_failed chunk 0 (take requests (events w.trace)) in
        let k : Meets (Holds holds held t (Open F get ctx) extra)
            (Holds holds held t (Open F get ctx) extra) (Holds holds held t F extra)
            (if failed then raise failed_operation else pure tt) =
          Meets-if failed (Meets-raise failed_operation (closed_still ctx)) (Meets-pure tt) in
        k.ends w h;
  }

  pub aio_operation-Meets :
      (events : Trace → List IoEvent) (ctx fd ptr bytes : ℕ) (write : Bool)
      → Meets
          (Holds holds held t (Open F get ctx) extra)
          (Holds holds held t (Open F get ctx) extra)
          (Holds holds held t F extra)
          (aio_operation d events set note ctx fd ptr bytes write)
  unfolding aio_operation
  aio_operation-Meets events ctx fd ptr bytes write =
      Meets-bind
        (quiet-Meets d (Holds-IsStable d)
          (io_submit ctx (blocks_from requests 0 write fd ptr (bytes / requests))) refl)
        λ submitted.
          Meets-if (is_count requests submitted.ret)
            (Meets-bind (quiet-Meets d (Holds-IsStable d) (io_getevents ctx requests) refl)
              λ completed.
                Meets-if (is_count requests completed.ret)
                  (judge-Meets ctx (bytes / requests) events) (give_up-Meets ctx events))
            (give_up-Meets ctx events)

-- ===== src/Common/Acl/Releases.antt =====
-- The ACL resources are given back by their destructor.
use ascend_hal_sharing_probe.Prelude.{
  ◌+◌, ◌≡◌, refl, sym, subst, ℕ, Bool, not, true, false, ◌==◌, arith, is_zero, if◌then◌else◌,
}
use ascend_hal_sharing_probe.Effects.{
  Call, Driver, Reply, Trace, World, malloc_device, create_stream, create_event, pure,
}
use ascend_hal_sharing_probe.Effects.Ledger.{Resource, is_neutral}
use ascend_hal_sharing_probe.Effects.Tally.{
  Item, IsItem, opened, closed, opened-still, closed-still,
}
use ascend_hal_sharing_probe.Effects.Meets.{
  Meets, Meets-bind, Meets-call, Meets-if, Meets-pure, Meets-raise, Meets-modify,
}
use ascend_hal_sharing_probe.Common.{check_reply, cleanup, failed_check}
use ascend_hal_sharing_probe.Common.Teardown.{Never}
use ascend_hal_sharing_probe.Common.Items.{Holds, changed-Holds, modified-Holds}
use ascend_hal_sharing_probe.Common.Acl.Changes.{
  acl_held, IsNone, HasDevice, HasStream, AnyAcl, without_event, only_device, held_with,
  device-even, stream-even, event-even, none_held, event_closed, event_kept, stream_closed,
  stream_kept, device_closed, device_kept,
}
use ascend_hal_sharing_probe.Common.Acl.{
  AclResources, acl_resources, AclPlace, obtains, obtain_device, obtain_stream, obtain_event,
  destroy_acl, leave_acl,
}

-- A place of the object whose writes change nothing else of what it holds.
pub record IsAclPlace {S : Type 0} (holds : Resource → S → ℕ) (held : Item → S → ℕ) (p : AclPlace S)
    : Type 0 where
  pub got : (a : AclResources) (s : S) → p.get (p.put a s) ≡ a
  pub same : (x : Resource) (a : AclResources) (s : S) → holds x (p.put a s) ≡ holds x s
  pub moved :
      (x : Item) (a : AclResources) (s : S)
      → held x (p.put a s) + acl_held x (p.get s) ≡ held x s + acl_held x a

-- What the destructor notes leaves the holdings.
pub record IsNote {S : Type 0} (holds : Resource → S → ℕ) (held : Item → S → ℕ) (F : S → Type 0)
    (note : S → S) : Type 0 where
  pub same : (x : Resource) (s : S) → holds x (note s) ≡ holds x s
  pub same_held : (x : Item) (s : S) → held x (note s) ≡ held x s
  pub frame : (s : S) → F s → F (note s)

-- What is said of the resources, and of the rest of the object.
abbrev pub AclAt : {S : Type 0} → AclPlace S → (AclResources → Type 0) → (S → Type 0) → S → Type 0
AclAt p A F s = A (p.get s) × F s

module _ {S : Type 0} {holds : Resource → S → ℕ} {held : Item → S → ℕ} {t : Trace} where
  -- A noted call that closes something of what the part holds.
  pub closes-Meets :
      {F : S → Type 0} {extra extra' : Item → ℕ} {E : World S → Type 0} (d : Driver) (note : S → S)
      (c : Call)
      → IsNote holds held F note
      → is_neutral c ≡ true
      → ((x : Item)
          → IsItem x
          → (r : Reply) → (extra' x + closed x c ≡ extra x) × (opened x c r ≡ 0))
      → Meets (Holds holds held t F extra) (Holds holds held t F extra') E (cleanup d note c)
  closes-Meets {F} {extra} {extra'} d note c is_note quiet even =
      Meets-bind {Q = Holds holds held t F extra'}
        (Meets-call d c λ w h.
          changed-Holds d c w.self w quiet (λ x. refl) h.frame
            (λ x real. omega (arith, even x real (d w.trace c))) h)
        λ r. Meets-if (is_zero r.ret) (Meets-pure tt) (
          Meets-modify note λ w h.
            modified-Holds (note w.self) w (λ x. is_note.same x w.self)
              (is_note.frame w.self h.frame) (λ x real. omega (arith, is_note.same_held x w.self))
              h)

  noted :
      {F : S → Type 0} {extra : Item → ℕ} (note : S → S)
      → IsNote holds held F note
      → (w : World S) → Holds holds held t F extra w
      → Holds holds held t F extra (record w { self = note w.self })
  noted note is_note w h =
      modified-Holds (note w.self) w (λ x. is_note.same x w.self) (is_note.frame w.self h.frame)
        (λ x real. omega (arith, is_note.same_held x w.self)) h

  module _ (p : AclPlace S) (is_place : IsAclPlace holds held p) where
    pub obtains-Meets :
        (d : Driver) (A B : AclResources → Type 0) (F : S → Type 0) (extra : Item → ℕ) (c : Call)
        (u : ℕ → AclResources → AclResources)
        → ((a : AclResources) (s : S) → F s → F (p.put a s))
        → is_neutral c ≡ true
        → ((n : ℕ) (a : AclResources) → A a → B (u n a))
        → ((x : Item)
            → IsItem x
            → (a : AclResources) (r : Reply) → A a
            → acl_held x (u r.out a) + closed x c ≡ acl_held x a + opened x c r)
        → Meets
            (Holds holds held t (AclAt p A F) extra)
            (Holds holds held t (AclAt p B F) extra)
            (Holds holds held t F extra)
            (obtains d p c u)
    obtains-Meets d A B F extra c u framed quiet step even = record {
      ends = λ w h.
          let a = p.get w.self in
          let r = d w.trace c in
          let k : Meets (Holds holds held t (AclAt p B F) extra)
              (Holds holds held t (AclAt p B F) extra) (Holds holds held t F extra)
              (check_reply d r) =
            Meets-if (is_zero r.ret) (Meets-pure r.out) (
              Meets-raise failed_check
                λ v h'. record { kept = h'.kept; frame = h'.frame.1; tally = h'.tally }) in
          k.ends _ (
            changed-Holds d c (p.put (u r.out a) w.self) w quiet
              (λ x. is_place.same x (u r.out a) w.self)
              (
                subst B (sym (is_place.got (u r.out a) w.self)) (step r.out a h.frame.0),
                framed (u r.out a) w.self h.frame.1,
              )
              (λ x real.
                omega (arith, even x real a r h.frame.0, is_place.moved x (u r.out a) w.self))
              h);
    }

    module _ (d : Driver) (F : S → Type 0) (extra : Item → ℕ)
        (framed : (a : AclResources) (s : S) → F s → F (p.put a s)) where
      pub obtain_device-Meets :
          (bytes : ℕ)
          → Meets
              (Holds holds held t (AclAt p IsNone F) extra)
              (Holds holds held t (AclAt p HasDevice F) extra)
              (Holds holds held t F extra)
              (obtain_device d p bytes)
      obtain_device-Meets bytes =
          obtains-Meets d IsNone HasDevice F extra (malloc_device bytes)
            (λ n a. record a { device = n }) framed refl (λ n a h. (h.1, h.2))
            (λ x real a r h. device-even x real bytes a r h)

      pub obtain_stream-Meets :
          Meets
            (Holds holds held t (AclAt p HasDevice F) extra)
            (Holds holds held t (AclAt p HasStream F) extra)
            (Holds holds held t F extra)
            (obtain_stream d p)
      obtain_stream-Meets =
          obtains-Meets d HasDevice HasStream F extra create_stream (λ n a. record a { stream = n })
            framed refl (λ n a h. h.1) (λ x real a r h. stream-even x real a r h)

      pub obtain_event-Meets :
          Meets
            (Holds holds held t (AclAt p HasStream F) extra)
            (Holds holds held t (AclAt p AnyAcl F) extra)
            (Holds holds held t F extra)
            (obtain_event d p)
      obtain_event-Meets =
          obtains-Meets d HasStream AnyAcl F extra create_event (λ n a. record a { event = n })
            framed refl (λ n a h. tt) (λ x real a r h. event-even x real a r h)

  -- The destructor closes what the part holds of the resources.
  if_closes-Meets :
      {F : S → Type 0} {extra extra' : Item → ℕ} (d : Driver) (note : S → S) (b : Bool) (c : Call)
      → IsNote holds held F note
      → is_neutral c ≡ true
      → ((x : Item)
          → IsItem x
          → (r : Reply) → b ≡ true
          → (extra' x + closed x c ≡ extra x) × (opened x c r ≡ 0))
      → ((x : Item) → IsItem x → b ≡ false → extra' x ≡ extra x)
      → Meets
          (Holds holds held t F extra)
          (Holds holds held t F extra')
          Never
          (if b then cleanup d note c else pure tt)
  if_closes-Meets d note true c is_note quiet even none =
      closes-Meets d note c is_note quiet (λ x real r. even x real r refl)
  if_closes-Meets d note false c is_note quiet even none = record {
    ends = λ w h. record {
      kept = h.kept;
      frame = h.frame;
      tally = λ x real. omega (arith, h.tally x real, none x real refl);
    };
  }

  module _ {F : S → Type 0} (d : Driver) (note : S → S) (is_note : IsNote holds held F note)
      (extra : Item → ℕ) (a : AclResources) where
    pub destroy_acl-Meets :
        Meets
          (Holds holds held t F (held_with extra a))
          (Holds holds held t F extra)
          Never
          (destroy_acl d note a)
    unfolding destroy_acl
    destroy_acl-Meets =
        Meets-bind {Q = Holds holds held t F (held_with extra a)}
          (if_closes-Meets d note (not (a.stream == 0)) (Call.sync_stream a.stream) is_note refl
            (λ x real r e. (
              omega (arith, closed-still x (Call.sync_stream a.stream) refl),
              opened-still x (Call.sync_stream a.stream) r refl,
            ))
            (λ x real e. refl))
          λ u.
            Meets-bind {Q = Holds holds held t F (held_with extra (without_event a))}
              (if_closes-Meets d note (not (a.event == 0)) (Call.destroy_event a.event) is_note refl
                (λ x real r e. event_closed (extra x) a x real r)
                (λ x real e. event_kept (extra x) a x real e))
              λ u1.
                Meets-bind {Q = Holds holds held t F (held_with extra (only_device a))}
                  (if_closes-Meets d note (not (a.stream == 0)) (Call.destroy_stream a.stream)
                    is_note refl (λ x real r e. stream_closed (extra x) a x real r)
                    (λ x real e. stream_kept (extra x) a x real e))
                  λ u2.
                    if_closes-Meets d note (not (a.device == 0)) (Call.free_device a.device) is_note
                      refl (λ x real r e. device_closed (extra x) a x real r)
                      (λ x real e. device_kept (extra x) a x real e)

  -- The end of the scope.
  pub leave_acl-Meets :
      {F G : S → Type 0} {extra : Item → ℕ} (p : AclPlace S) (is_place : IsAclPlace holds held p)
      (d : Driver) (note : S → S)
      → IsNote holds held G note
      → ((s : S) → F s → G (p.put acl_resources s))
      → Meets (Holds holds held t F extra) (Holds holds held t G extra) Never (leave_acl d note p)
  leave_acl-Meets {F} {G} {extra} p is_place d note is_note step = record {
    ends = λ w h.
        let a = p.get w.self in
        let k : Meets (Holds holds held t G (λ x. extra x + acl_held x a))
            (Holds holds held t G extra) Never (destroy_acl d note a) =
          destroy_acl-Meets d note is_note extra a in
        k.ends _ (
          modified-Holds (p.put acl_resources w.self) w (λ x. is_place.same x acl_resources w.self)
            (step w.self h.frame)
            (λ x real. omega (arith, is_place.moved x acl_resources w.self, none_held x real)) h);
  }

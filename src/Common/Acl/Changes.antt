-- ===== src/Common/Acl/Changes.antt =====
-- What the calls on the ACL resources open and close is what the resources gain or lose.
use ascend_hal_sharing_probe.Prelude.{◌+◌, ◌≡◌, refl, ℕ, not, false, ◌==◌, arith}
use ascend_hal_sharing_probe.Effects.{Call, Reply, malloc_device, create_stream, create_event}
use ascend_hal_sharing_probe.Effects.Ledger.{one_if}
use ascend_hal_sharing_probe.Effects.Tally.{
  Item, stream, event, device_memory, IsItem, opened, closed,
}
use ascend_hal_sharing_probe.Common.Acl.{AclResources, acl_resources}

abbrev pub acl_held : Item → AclResources → ℕ
acl_held (stream n) a = one_if (a.stream == n)
acl_held (event n) a = one_if (a.event == n)
acl_held (device_memory n) a = one_if (a.device == n)
acl_held _ a = 0

-- The resources before each of them is obtained, in the order of the programs.
abbrev pub IsNone : AclResources → Type 0
IsNone a = (a.device ≡ 0) × (a.stream ≡ 0) × (a.event ≡ 0)

abbrev pub HasDevice : AclResources → Type 0
HasDevice a = (a.stream ≡ 0) × (a.event ≡ 0)

abbrev pub HasStream : AclResources → Type 0
HasStream a = a.event ≡ 0

abbrev pub AnyAcl : AclResources → Type 0
AnyAcl a = Unit {0}

-- The resources with the event gone, and with the stream gone too; and what is held of them.
abbrev pub without_event : AclResources → AclResources
without_event a = record a { event = 0 }

abbrev pub only_device : AclResources → AclResources
only_device a = record a { stream = 0; event = 0 }

abbrev pub held_with : (Item → ℕ) → AclResources → Item → ℕ
held_with extra b x = extra x + acl_held x b

pub device-even :
    (x : Item)
    → IsItem x
    → (size : ℕ) (a : AclResources) (r : Reply) → IsNone a
    → acl_held x (record a { device = r.out }) + closed x (malloc_device size)
      ≡ acl_held x a + opened x (malloc_device size) r
device-even (stream n) real size a r h = ground arith
device-even _ real size a r h = ground arith

pub stream-even :
    (x : Item)
    → IsItem x
    → (a : AclResources) (r : Reply) → HasDevice a
    → acl_held x (record a { stream = r.out }) + closed x create_stream
      ≡ acl_held x a + opened x create_stream r
stream-even (stream n) real a r h = ground arith
stream-even _ real a r h = ground arith

pub event-even :
    (x : Item)
    → IsItem x
    → (a : AclResources) (r : Reply) → HasStream a
    → acl_held x (record a { event = r.out }) + closed x create_event
      ≡ acl_held x a + opened x create_event r
event-even (stream n) real a r h = ground arith
event-even _ real a r h = ground arith

pub none_held : (x : Item) → IsItem x → acl_held x acl_resources ≡ 0
none_held (stream n) real = ground arith
none_held _ real = ground arith

-- The destructor's calls, one by one.
module _ (extra : ℕ) (a : AclResources) where
  pub event_closed :
      (x : Item)
      → IsItem x
      → (r : Reply)
      → (extra + acl_held x (record a { event = 0 }) + closed x (Call.destroy_event a.event)
          ≡ extra + acl_held x a)
        × (opened x (Call.destroy_event a.event) r ≡ 0)
  event_closed (stream n) real r = (ground arith, refl)
  event_closed _ real r = (ground arith, refl)

  pub event_kept :
      (x : Item)
      → IsItem x
      → not (a.event == 0) ≡ false
      → extra + acl_held x (record a { event = 0 }) ≡ extra + acl_held x a
  event_kept (stream n) real e = ground arith
  event_kept _ real e = ground arith

  pub stream_closed :
      (x : Item)
      → IsItem x
      → (r : Reply)
      → (extra
            + acl_held x (record a { stream = 0; event = 0 })
            + closed x (Call.destroy_stream a.stream)
          ≡ extra + acl_held x (record a { event = 0 }))
        × (opened x (Call.destroy_stream a.stream) r ≡ 0)
  stream_closed (stream n) real r = (ground arith, refl)
  stream_closed _ real r = (ground arith, refl)

  pub stream_kept :
      (x : Item)
      → IsItem x
      → not (a.stream == 0) ≡ false
      → extra + acl_held x (record a { stream = 0; event = 0 })
        ≡ extra + acl_held x (record a { event = 0 })
  stream_kept (stream n) real e = ground arith
  stream_kept _ real e = ground arith

  pub device_closed :
      (x : Item)
      → IsItem x
      → (r : Reply)
      → (extra + closed x (Call.free_device a.device)
          ≡ extra + acl_held x (record a { stream = 0; event = 0 }))
        × (opened x (Call.free_device a.device) r ≡ 0)
  device_closed (stream n) real r = (ground arith, refl)
  device_closed _ real r = (ground arith, refl)

  pub device_kept :
      (x : Item)
      → IsItem x
      → not (a.device == 0) ≡ false
      → extra ≡ extra + acl_held x (record a { stream = 0; event = 0 })
  device_kept (stream n) real e = ground arith
  device_kept _ real e = ground arith

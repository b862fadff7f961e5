-- ===== src/Common/Acl.antt =====
-- `struct AclResources` of common.hpp: a stream, an event and memory of the device.
pub mod Changes
pub mod Releases
use ascend_hal_sharing_probe.Prelude.{ℕ, ◌==◌, if◌then◌else◌, not}
use ascend_hal_sharing_probe.Effects.{
  Call, Driver, M, malloc_device, create_stream, create_event, pure, gets, modify, call, ◌>>=◌,
  ◌>>◌,
}
use ascend_hal_sharing_probe.Common.{check_reply, cleanup}

pub record AclResources : Type 0 where
  pub device : ℕ
  pub stream : ℕ
  pub event : ℕ

abbrev pub acl_resources : AclResources
acl_resources = record { device = 0; stream = 0; event = 0 }

-- The resources as they stand in a program's object.
pub record AclPlace (S : Type 0) : Type 0 where
  pub get : S → AclResources
  pub put : AclResources → S → S

module _ {S : Type 0} (d : Driver) where
  -- A checked call that writes one of the fields.
  abbrev pub obtains : AclPlace S → Call → (ℕ → AclResources → AclResources) → M S ℕ
  obtains p c u = do r ← call d c; modify (λ s. p.put (u r.out (p.get s)) s); check_reply d r

  abbrev pub obtain_device : AclPlace S → ℕ → M S ℕ
  obtain_device p bytes = obtains p (malloc_device bytes) (λ n a. record a { device = n })

  abbrev pub obtain_stream : AclPlace S → M S ℕ
  obtain_stream p = obtains p create_stream (λ n a. record a { stream = n })

  abbrev pub obtain_event : AclPlace S → M S ℕ
  obtain_event p = obtains p create_event (λ n a. record a { event = n })

  -- `~AclResources`
  unfoldable pub destroy_acl : (S → S) → AclResources → M S (Unit {0})
  destroy_acl note a = do
    if not (a.stream == 0) then cleanup d note (Call.sync_stream a.stream) else pure tt
    if not (a.event == 0) then cleanup d note (Call.destroy_event a.event) else pure tt
    if not (a.stream == 0) then cleanup d note (Call.destroy_stream a.stream) else pure tt
    if not (a.device == 0) then cleanup d note (Call.free_device a.device) else pure tt

  -- The end of the scope of the resources.
  abbrev pub leave_acl : (S → S) → AclPlace S → M S (Unit {0})
  leave_acl note p = do a ← gets p.get; modify (p.put acl_resources); destroy_acl note a

-- ===== src/MultiShare/Worker/Copies.antt =====
-- The copies of a worker of multi_share leave its slices as they are.
use ascend_hal_sharing_probe.Prelude.{List, ℕ, zero, suc, ◌/◌, ◌==◌, refl}
use ascend_hal_sharing_probe.Effects.{
  Driver, Trace, MemProp, CopyKind, device_to_host, copy_async, sync_stream, set_bytes,
  set_device_bytes, resize_vector, get_attribute, malloc_device, create_stream,
}
use ascend_hal_sharing_probe.Common.Books.{Keeps}
use ascend_hal_sharing_probe.Common.Rules.{
  Keeps-bind, Keeps-if, Keeps-pure, Keeps-raise, Keeps-gets, Keeps-call, Keeps-check,
}
use ascend_hal_sharing_probe.Common.Quiet.{Whatever, Keeps-scoped, Keeps-obtains, Keeps-leave_acl}
use ascend_hal_sharing_probe.Common.Evens.{IsPlain}
use ascend_hal_sharing_probe.Common.Retry.{IsPatient}
use ascend_hal_sharing_probe.Common.Acl.{leave_acl}
use ascend_hal_sharing_probe.Common.AioOperation.{IoEvent}
use ascend_hal_sharing_probe.Common.Pattern.{Memory, fill-Keeps, verify-Keeps}
use ascend_hal_sharing_probe.MultiShare.Cpu.{Cpus}
use ascend_hal_sharing_probe.MultiShare.Options.{MultiOptions, slice}
use ascend_hal_sharing_probe.MultiShare.Barriers.{read_rounds}
use ascend_hal_sharing_probe.MultiShare.Worker.{scoped, MultiShare, acl, note, failure}
use ascend_hal_sharing_probe.MultiShare.Worker.Parts.{
  copy_block, read_from, rounds_from, hbm_part, meet, seed_of, read_kind,
}
use ascend_hal_sharing_probe.MultiShare.Worker.Slices.{holds, count}
use ascend_hal_sharing_probe.MultiShare.Worker.Stages.{barrier-Keeps}
use ascend_hal_sharing_probe.MultiShare.Worker.Tests.{
  IsAside, Whatever-IsAside, note-IsBeside, acl-IsBeside,
}

module _ (d : Driver) (mem : Memory) (rounds : ℕ) (events : Trace → List IoEvent)
    (properties : Trace → MemProp) (plain : IsPlain d) (patient : IsPatient d rounds) (cpus : Cpus)
    (o : MultiOptions) where
  module _ {P : MultiShare → Type 0} (aside : IsAside P) where
    module _ (rank device node fd : ℕ) where
      copy_block-Keeps :
          (kind : CopyKind) (to from : ℕ)
          → Keeps
              (holds o)
              P
              P
              (copy_block d mem rounds events properties cpus o rank device node fd kind to from)
      copy_block-Keeps kind to from = Keeps-bind (Keeps-gets (λ s. s.acl)) λ a.
          Keeps-bind (Keeps-check d (copy_async kind to from o.bytes a.stream) refl)
            λ n. Keeps-bind (Keeps-check d (sync_stream a.stream) refl) λ n1. Keeps-pure tt

      read_from-Keeps :
          (staging round left owner : ℕ)
          → Keeps (holds o) P P (
              read_from d mem rounds events properties cpus o rank device node fd staging round left
                owner)
      unfolding read_from
      read_from-Keeps staging round zero owner = Keeps-pure tt
      read_from-Keeps staging round (suc left) owner =
          Keeps-bind
            (Keeps-bind (Keeps-gets (λ s. slice o s.base owner)) λ from.
              Keeps-bind (Keeps-gets (λ s. s.acl)) λ a.
                Keeps-bind (Keeps-check d (set_device_bytes a.device 0 o.bytes) refl) λ n.
                  Keeps-bind (copy_block-Keeps (read_kind rank owner) a.device from) λ u.
                    Keeps-bind (Keeps-call d (set_bytes staging 0 o.bytes) refl) λ r.
                      Keeps-bind (copy_block-Keeps device_to_host staging a.device)
                        λ u1. verify-Keeps mem staging o.bytes (seed_of o round owner))
            λ u. read_from-Keeps staging round left (suc owner)

      meet-Keeps :
          Keeps (holds o) P P (meet d mem rounds events properties cpus o rank device node fd)
      meet-Keeps =
          barrier-Keeps d mem rounds events properties plain patient cpus o rank device node fd

      rounds_from-Keeps :
          (own staging left round : ℕ)
          → Keeps (holds o) P P (
              rounds_from d mem rounds events properties cpus o rank device node fd own staging left
                round)
      unfolding rounds_from
      rounds_from-Keeps own staging zero round = Keeps-pure tt
      rounds_from-Keeps own staging (suc left) round =
          Keeps-bind
            (Keeps-bind (fill-Keeps d own o.bytes (seed_of o round rank)) λ u.
              Keeps-bind (verify-Keeps mem own o.bytes (seed_of o round rank)) λ u1.
                Keeps-bind meet-Keeps λ u2.
                  Keeps-bind (read_from-Keeps staging round (count o) 0) λ u3.
                    Keeps-bind (verify-Keeps mem own o.bytes (seed_of o round rank))
                      λ u4. meet-Keeps)
            λ u. rounds_from-Keeps own staging left (suc round)

      hbm_part-Keeps :
          (own : ℕ)
          → Keeps
              (holds o)
              P
              P
              (hbm_part d mem rounds events properties cpus o rank device node fd own)
      unfolding hbm_part
      hbm_part-Keeps own =
          Keeps-bind
            (Keeps-obtains d acl (malloc_device o.bytes) (λ n a. record a { device = n })
              (acl-IsBeside o P aside) refl)
            λ n. Keeps-bind (Keeps-gets (λ s. s.acl)) λ a.
              Keeps-bind (Keeps-check d (get_attribute a.device) refl) λ at.
                Keeps-bind (Keeps-if (at == device) (Keeps-pure tt) (Keeps-raise failure)) λ u.
                  Keeps-bind
                    (Keeps-obtains d acl create_stream (λ n a. record a { stream = n })
                      (acl-IsBeside o P aside) refl)
                    λ n1.
                      Keeps-bind (Keeps-check d (resize_vector (o.bytes / 8)) refl)
                        λ staging. rounds_from-Keeps own staging read_rounds 0

      -- The block with the ACL resources.
      pub hbm_scope-Keeps :
          (own : ℕ)
          → Keeps (holds o) P P (
              scoped
                (hbm_part d mem rounds events properties cpus o rank device node fd own)
                (leave_acl d note acl))
      hbm_scope-Keeps own =
          Keeps-scoped (hbm_part-Keeps own)
            (Keeps-leave_acl d note acl (note-IsBeside o P aside) (acl-IsBeside o P aside))
            (Keeps-leave_acl d note acl (note-IsBeside o Whatever Whatever-IsAside)
              (acl-IsBeside o Whatever Whatever-IsAside))

-- ===== src/MultiShare/Worker/Tests.antt =====
-- The tests of a worker of multi_share leave its slices as they are.
use ascend_hal_sharing_probe.Text.{Line}
use ascend_hal_sharing_probe.Prelude.{
  some, none, [], ◌∷◌, Option, List, ℕ, ◌≡◌, ◌/◌, ◌==◌, refl, pos, negsuc, ℤ, Bool, true, false,
  is_zero,
}
use ascend_hal_sharing_probe.Effects.{
  Driver, Exception, Trace, MemProp, set_bytes, resize_vector, create_file, unlink_file, close_file,
  truncate_file, io_setup, io_destroy, modify, ◌>>◌, get_affinity, set_affinity,
}
use ascend_hal_sharing_probe.Effects.Ledger.{Resource, address, memory, mapping}
use ascend_hal_sharing_probe.Common.Books.{Keeps}
use ascend_hal_sharing_probe.Common.Rules.{
  Keeps-bind, Keeps-if, Keeps-pure, Keeps-raise, Keeps-gets, Keeps-call, Keeps-check,
  Keeps-check_reply, Keeps-modify,
}
use ascend_hal_sharing_probe.Common.Quiet.{
  IsBeside, Whatever, Keeps-attempt, Keeps-cleanup, aio_operation-Keeps,
}
use ascend_hal_sharing_probe.Common.Evens.{IsPlain}
use ascend_hal_sharing_probe.Common.Retry.{IsPatient}
use ascend_hal_sharing_probe.Common.Acl.{AclResources}
use ascend_hal_sharing_probe.Common.AioOperation.{IoEvent}
use ascend_hal_sharing_probe.Common.Pattern.{Memory, fill-Keeps, verify-Keeps}
use ascend_hal_sharing_probe.MultiShare.Cpu.{Cpus, bind_cpu, set_cpus, select_cpus, chosen}
use ascend_hal_sharing_probe.MultiShare.Options.{MultiOptions, split_commas}
use ascend_hal_sharing_probe.MultiShare.Worker.{
  cleanup, MultiShare, acl, note, get_ctx, set_ctx, failure,
}
use ascend_hal_sharing_probe.MultiShare.Worker.Parts.{
  operate, file_case, file_failed, file_passed, with_file, buffered_aio,
}
use ascend_hal_sharing_probe.MultiShare.Worker.Slices.{holds}

-- A condition that the writes beside the slices leave as it is.
pub record IsAside (P : MultiShare → Type 0) : Type 0 where
  pub noted : (s : MultiShare) → P s → P (note s)
  pub with_ctx : (c : ℕ) (s : MultiShare) → P s → P (set_ctx c s)
  pub with_acl : (a : AclResources) (s : MultiShare) → P s → P (acl.put a s)

module _ (o : MultiOptions) (P : MultiShare → Type 0) (aside : IsAside P) where
  pub note-IsBeside : IsBeside (holds o) P note
  note-IsBeside = (same, aside.noted)
    where
      same : (x : Resource) (s : MultiShare) → holds o x (note s) ≡ holds o x s
      same (address a) s = refl
      same (memory h) s = refl
      same (mapping a) s = refl

  ctx-IsBeside : (c : ℕ) → IsBeside (holds o) P (set_ctx c)
  ctx-IsBeside c = (same, aside.with_ctx c)
    where
      same : (x : Resource) (s : MultiShare) → holds o x (set_ctx c s) ≡ holds o x s
      same (address a) s = refl
      same (memory h) s = refl
      same (mapping a) s = refl

  pub acl-IsBeside : (a : AclResources) → IsBeside (holds o) P (acl.put a)
  acl-IsBeside a = (same, aside.with_acl a)
    where
      same : (x : Resource) (s : MultiShare) → holds o x (acl.put a s) ≡ holds o x s
      same (address n) s = refl
      same (memory h) s = refl
      same (mapping n) s = refl

pub Whatever-IsAside : IsAside Whatever
Whatever-IsAside = record { noted = λ s h. tt; with_ctx = λ c s h. tt; with_acl = λ a s h. tt }

module _ (d : Driver) (mem : Memory) (rounds : ℕ) (events : Trace → List IoEvent)
    (properties : Trace → MemProp) (plain : IsPlain d) (patient : IsPatient d rounds) (cpus : Cpus)
    (o : MultiOptions) where
  pub bind_cpu-Keeps :
      {P : MultiShare → Type 0} (node : ℕ) → Keeps (holds o) P P (bind_cpu d cpus failure node)
  unfolding bind_cpu
  bind_cpu-Keeps {P} node = selected (cpus.cpulist node)
    where
      chosen_set : (l : Option (List ℕ)) → Keeps (holds o) P P (set_cpus d cpus failure l)
      chosen_set (some (c ∷ cs)) =
          Keeps-bind (Keeps-check d (set_affinity (c ∷ cs)) refl) λ n. Keeps-pure tt
      chosen_set (some []) = Keeps-raise failure
      chosen_set none = Keeps-raise failure

      selected : (l : Option Line) → Keeps (holds o) P P (select_cpus d cpus failure l)
      selected none = Keeps-raise failure
      selected (some line) = Keeps-bind (Keeps-check d get_affinity refl) λ n. record {
        ends = λ w kept p.
            (chosen_set (chosen (cpus.allowed w.trace) (split_commas line))).ends w kept p;
      }

  module _ {P : MultiShare → Type 0} (aside : IsAside P) (ptr bytes seed : ℕ) where
    operate-Keeps :
        (fd buffer : ℕ) (write : Bool)
        → Keeps
            (holds o)
            P
            P
            (operate d mem rounds events properties ptr bytes seed fd buffer write)
    operate-Keeps fd buffer write = Keeps-bind (Keeps-gets get_ctx) λ ctx.
        aio_operation-Keeps d events set_ctx note (note-IsBeside o P aside) (ctx-IsBeside o P aside)
          ctx fd buffer bytes write

    file_case-Keeps :
        (control fd : ℕ)
        → Keeps (holds o) P P (file_case d mem rounds events properties ptr bytes seed control fd)
    unfolding file_case
    file_case-Keeps control fd = Keeps-bind (Keeps-call d (io_setup 8) refl) λ r.
        Keeps-bind
          (Keeps-modify {Q = P} (set_ctx r.out) (ctx-IsBeside o P aside r.out).0
            (ctx-IsBeside o P aside r.out).1)
          λ u. Keeps-bind (Keeps-check_reply d r) λ n.
            Keeps-bind (operate-Keeps fd control true) λ u1.
              Keeps-bind (Keeps-call d (set_bytes ptr 0 bytes) refl) λ r1.
                Keeps-bind (operate-Keeps fd ptr false) λ u2.
                  Keeps-bind (verify-Keeps mem ptr bytes seed) λ u3.
                    Keeps-bind (Keeps-check d (truncate_file fd) refl) λ n1.
                      Keeps-bind (operate-Keeps fd ptr true) λ u4.
                        Keeps-bind (Keeps-call d (set_bytes control 0 bytes) refl) λ r2.
                          Keeps-bind (operate-Keeps fd control false)
                            λ u5. verify-Keeps mem control bytes seed

    close_context-Keeps :
        (ctx : ℕ) → Keeps (holds o) P P (cleanup d note (io_destroy ctx) >> modify (set_ctx 0))
    close_context-Keeps ctx =
        Keeps-bind (Keeps-cleanup d note (io_destroy ctx) (note-IsBeside o P aside) refl)
          λ u. Keeps-modify (set_ctx 0) (ctx-IsBeside o P aside 0).0 (ctx-IsBeside o P aside 0).1

    file_passed-Keeps :
        (fd : ℕ)
        → Keeps (holds o) P P (file_passed d mem rounds events properties ptr bytes seed fd)
    file_passed-Keeps fd = Keeps-bind (Keeps-gets get_ctx) λ ctx.
        Keeps-bind (close_context-Keeps ctx)
          λ u. Keeps-cleanup d note (close_file fd) (note-IsBeside o P aside) refl

  file_failed-Keeps :
      {Q : MultiShare → Type 0} (ptr bytes seed fd : ℕ) (e : Exception)
      → Keeps (holds o) Whatever Q (file_failed d mem rounds events properties ptr bytes seed fd e)
  file_failed-Keeps ptr bytes seed fd e = Keeps-bind (Keeps-gets get_ctx) λ ctx.
      Keeps-bind
        (Keeps-if (ctx == 0) (Keeps-pure tt)
          (close_context-Keeps Whatever-IsAside ptr bytes seed ctx))
        λ u.
          Keeps-bind
            (Keeps-cleanup d note (close_file fd) (note-IsBeside o Whatever Whatever-IsAside) refl)
            λ u1. Keeps-raise e

  module _ {P : MultiShare → Type 0} (aside : IsAside P) where
    with_file-Keeps :
        (ptr bytes seed control : ℕ) (ret : ℤ)
        → Keeps (holds o) P P (with_file d mem rounds events properties ptr bytes seed control ret)
    with_file-Keeps ptr bytes seed control (pos fd) =
        Keeps-bind (Keeps-call d (unlink_file fd) refl) λ r.
          Keeps-if (is_zero r.ret)
            (Keeps-bind
              (Keeps-attempt (file_case-Keeps aside ptr bytes seed control fd)
                (file_failed-Keeps ptr bytes seed fd))
              λ u. file_passed-Keeps aside ptr bytes seed fd)
            (Keeps-bind (Keeps-call d (close_file fd) refl) λ r1. Keeps-raise failure)
    with_file-Keeps ptr bytes seed control (negsuc n) = Keeps-raise failure

    pub buffered_aio-Keeps :
        (ptr bytes seed : ℕ)
        → Keeps (holds o) P P (buffered_aio d mem rounds events properties ptr bytes seed)
    unfolding buffered_aio
    buffered_aio-Keeps ptr bytes seed =
        Keeps-bind (Keeps-check d (resize_vector (bytes / 8)) refl) λ control.
          Keeps-bind (fill-Keeps d control bytes seed) λ u.
            Keeps-bind (Keeps-call d (create_file false) refl)
              λ r. with_file-Keeps ptr bytes seed control r.ret

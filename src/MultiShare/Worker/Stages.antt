-- ===== src/MultiShare/Worker/Stages.antt =====
-- The statements of a worker of multi_share on its range keep the books.
use ascend_hal_sharing_probe.Prelude.{
  List, ℕ, ◌<◌, ◌≤◌, ◌≡◌, ◌≢◌, ◌||◌, not, ◌%◌, refl, arith, pos, true, false, ◌==◌, if◌then◌else◌,
}
use ascend_hal_sharing_probe.Effects.{
  Call, Driver, Trace, MemProp, address_reserve, set_device, get_context, get_device, find_query,
  query_properties, export_handle, disable_whitelist, pure, raise, acl_init as init_call,
}
use ascend_hal_sharing_probe.Effects.Ledger.{Resource}
use ascend_hal_sharing_probe.Common.Books.{Keeps}
use ascend_hal_sharing_probe.Common.Rules.{
  Keeps-bind, Keeps-if, Keeps-pure, Keeps-raise, Keeps-gets, Keeps-call, Keeps-check, Keeps-modify,
}
use ascend_hal_sharing_probe.Common.Calls.{writes_out-Keeps}
use ascend_hal_sharing_probe.Common.Evens.{IsPlain}
use ascend_hal_sharing_probe.Common.Retry.{IsPatient}
use ascend_hal_sharing_probe.Common.AioOperation.{IoEvent}
use ascend_hal_sharing_probe.Common.Pattern.{Memory}
use ascend_hal_sharing_probe.Cli.{send_word-Keeps, await_zero-Keeps}
use ascend_hal_sharing_probe.MultiShare.Options.{MultiOptions, reserve_bytes, va_alignment}
use ascend_hal_sharing_probe.MultiShare.Cpu.{Cpus}
use ascend_hal_sharing_probe.MultiShare.Worker.{
  MultiShare, set_handle, failure, numa_prop, barrier, set_up, reserve_base, create_own, query_own,
  export_own, is_as_requested,
}
use ascend_hal_sharing_probe.MultiShare.Worker.Slices.{
  holds, count, NoneMapped, base-even, create-even,
}

-- Nothing is reserved, and no owner has a handle.
abbrev pub IsFresh : MultiOptions → MultiShare → Type 0
IsFresh o s = (s.base ≡ 0) × ((i : ℕ) → i < count o → s.handles i ≡ 0) × NoneMapped o s

-- The slices of so many owners are mapped, and no other owner but the worker's own has a handle.
pub record Filled (o : MultiOptions) (rank k : ℕ) (s : MultiShare) : Type 0 where
  pub below : (i : ℕ) → i < k → s.mapped i ≡ true
  pub above : (i : ℕ) → i < count o → k ≤ i → s.mapped i ≡ false
  pub blank : (i : ℕ) → i < count o → k ≤ i → i ≢ rank → s.handles i ≡ 0

-- From an owner on all slices are mapped.
abbrev pub MappedFrom : MultiOptions → ℕ → MultiShare → Type 0
MappedFrom o k s = (i : ℕ) → i < count o → k ≤ i → s.mapped i ≡ true

module _ (d : Driver) (mem : Memory) (rounds : ℕ) (events : Trace → List IoEvent)
    (properties : Trace → MemProp) (plain : IsPlain d) (patient : IsPatient d rounds) (cpus : Cpus)
    (o : MultiOptions) (rank device node fd : ℕ) where
  pub barrier-Keeps :
      {P : MultiShare → Type 0}
      → Keeps (holds o) P P (barrier d mem rounds events properties o rank device node fd)
  barrier-Keeps =
      Keeps-bind (send_word-Keeps d rounds patient fd 0) λ u. await_zero-Keeps d rounds patient fd

  pub set_up-Keeps :
      Keeps
        (holds o)
        (IsFresh o)
        (IsFresh o)
        (set_up d mem rounds events properties o rank device node fd)
  set_up-Keeps = Keeps-bind (Keeps-check d init_call refl) λ n.
      Keeps-bind (Keeps-modify {Q = IsFresh o} (λ s. record s { acl_init = true }) same (λ s h. h))
        λ u. Keeps-bind (Keeps-check d (set_device (pos device)) refl) λ n1.
          Keeps-bind
            (Keeps-modify {Q = IsFresh o} (λ s. record s { device_set = true }) same' (λ s h. h))
            λ u1. Keeps-bind (Keeps-check d get_context refl) λ current.
              Keeps-bind (Keeps-if (current == 0) (Keeps-raise failure) (Keeps-pure tt)) λ u2.
                Keeps-bind (Keeps-check d get_device refl)
                  λ n2. Keeps-if (n2 == device) (Keeps-pure tt) (Keeps-raise failure)
    where
      same :
          (x : Resource) (s : MultiShare) → holds o x (record s { acl_init = true }) ≡ holds o x s
      same (Resource.address a) s = refl
      same (Resource.memory a) s = refl
      same (Resource.mapping a) s = refl

      same' :
          (x : Resource) (s : MultiShare) → holds o x (record s { device_set = true }) ≡ holds o x s
      same' (Resource.address a) s = refl
      same' (Resource.memory a) s = refl
      same' (Resource.mapping a) s = refl

  -- The worker's own handle is still to come.
  abbrev pub Reserved : MultiShare → Type 0
  Reserved s = Filled o rank 0 s × (s.handles rank ≡ 0)

  fresh-Filled :
      (n : ℕ) (s : MultiShare) → IsFresh o s → rank < count o → Reserved (record s { base = n })
  fresh-Filled n s (unset, handles, none) lt = (
    record {
      below = λ i early. absurd (omega arith);
      above = λ i at late. none i at;
      blank = λ i at late other. handles i at;
    },
    handles rank lt,
  )

  pub reserve_base-Keeps :
      rank < count o
      → Keeps
          (holds o)
          (IsFresh o)
          Reserved
          (reserve_base d mem rounds events properties o rank device node fd)
  reserve_base-Keeps lt =
      Keeps-bind
        (writes_out-Keeps {Q = Reserved} d (address_reserve (reserve_bytes o))
          (λ r s. record s { base = r.out }) (λ r s h. fresh-Filled r.out s h lt)
          (λ x real t s h.
            base-even o x real (reserve_bytes o) s (d t (address_reserve (reserve_bytes o))) h.0
              h.2))
        λ n. Keeps-bind (Keeps-gets (λ s. s.base)) λ base.
          Keeps-if (base == 0 || not (base % va_alignment == 0)) (Keeps-raise failure)
            (Keeps-pure tt)

  own-Filled :
      (n k : ℕ) (s : MultiShare) → Filled o rank k s → Filled o rank k (set_handle rank n s)
  own-Filled n k s h = record {
    below = h.below;
    above = h.above;
    blank = λ i at late other. ground (arith, h.blank i at late other);
  }

  pub create_own-Keeps :
      rank < count o
      → Keeps
          (holds o)
          Reserved
          (Filled o rank 0)
          (create_own d mem rounds events properties o rank device node fd)
  create_own-Keeps lt =
      let c = Call.mem_create o.bytes (numa_prop node) in
      writes_out-Keeps d c (λ r. set_handle rank r.out) (λ r s h. own-Filled r.out 0 s h.0)
        (λ x real t s h.
          create-even o x real rank o.bytes (numa_prop node) s (d t c) lt h.1
            (plain.no_create t o.bytes (numa_prop node)))

  module _ {P : MultiShare → Type 0} where
    pub query_own-Keeps :
        Keeps (holds o) P P (query_own d mem rounds events properties o rank device node fd)
    query_own-Keeps = Keeps-bind (Keeps-call d find_query refl) λ query.
        Keeps-bind (Keeps-gets (λ s. s.handles rank)) λ h.
          Keeps-if (query.out == 0) (Keeps-pure tt)
            (Keeps-bind (Keeps-check d (query_properties h) refl) λ n. judged)
      where
        judged : Keeps (holds o) P P (λ w.
            (if is_as_requested d mem rounds events properties o rank device node fd
                  (properties w.trace)
                then pure tt
                else raise failure)
              w)
        judged = record {
          ends = λ w kept p.
              let good =
                is_as_requested d mem rounds events properties o rank device node fd
                  (properties w.trace) in
              let k : Keeps (holds o) P P (if good then pure tt else raise failure) =
                Keeps-if good (Keeps-pure tt) (Keeps-raise failure) in
              k.ends w kept p;
        }

    pub export_own-Keeps :
        Keeps (holds o) P P (export_own d mem rounds events properties o rank device node fd)
    export_own-Keeps = Keeps-bind (Keeps-gets (λ s. s.handles rank)) λ h.
        Keeps-bind (Keeps-check d (export_handle h) refl) λ token.
          Keeps-bind (Keeps-check d (disable_whitelist token) refl)
            λ n. send_word-Keeps d rounds patient fd token

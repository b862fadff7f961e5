-- ===== src/MultiShare/Worker/Mapping.antt =====
-- The owners' slices in a worker's range of addresses, mapped and unmapped, keep the books.
use ascend_hal_sharing_probe.Prelude.{
  List, ℕ, zero, suc, ◌+◌, ◌<◌, ◌≤◌, ◌≡◌, ◌≢◌, subst, arith, pos, true, false, ◌==◌, Bool-cases,
  inl, inr,
}
use ascend_hal_sharing_probe.Effects.{Call, Driver, Trace, MemProp, import_handle}
use ascend_hal_sharing_probe.Effects.Ledger.{lost, gained}
use ascend_hal_sharing_probe.Common.Quiet.{Whatever}
use ascend_hal_sharing_probe.Common.Books.{Keeps}
use ascend_hal_sharing_probe.Common.Rules.{Keeps-bind, Keeps-pure, Keeps-weaken}
use ascend_hal_sharing_probe.Common.Calls.{Keeps-gets_as, writes_out-Keeps, notes-Keeps}
use ascend_hal_sharing_probe.Common.Evens.{IsPlain}
use ascend_hal_sharing_probe.Common.Retry.{IsPatient}
use ascend_hal_sharing_probe.Common.AioOperation.{IoEvent}
use ascend_hal_sharing_probe.Common.Pattern.{Memory}
use ascend_hal_sharing_probe.Cli.{receive_word-Keeps}
use ascend_hal_sharing_probe.MultiShare.Options.{MultiOptions, slice}
use ascend_hal_sharing_probe.MultiShare.Cpu.{Cpus}
use ascend_hal_sharing_probe.MultiShare.Worker.Parts.{map_all}
use ascend_hal_sharing_probe.MultiShare.Worker.{
  MultiShare, set_handle, set_mapped, import_peer, map_slice, unmap_slice, map_from, unmap_from,
}
use ascend_hal_sharing_probe.MultiShare.Worker.Slices.{
  holds, count, import-even, map-even, unmap-even, map-none, unmap-none,
}
use ascend_hal_sharing_probe.MultiShare.Worker.Stages.{
  IsFresh, Filled, MappedFrom, reserve_base-Keeps, create_own-Keeps, query_own-Keeps,
  export_own-Keeps,
}

module _ (d : Driver) (mem : Memory) (rounds : ℕ) (events : Trace → List IoEvent)
    (properties : Trace → MemProp) (plain : IsPlain d) (patient : IsPatient d rounds) (cpus : Cpus)
    (o : MultiOptions) (rank device node fd : ℕ) where
  -- The slices of so many owners are mapped, and the next owner's handle may be there.
  abbrev Fetched : ℕ → MultiShare → Type 0
  Fetched k s =
      ((i : ℕ) → i < k → s.mapped i ≡ true)
      × ((i : ℕ) → i < count o → k ≤ i → s.mapped i ≡ false)
      × ((i : ℕ) → i < count o → k < i → i ≢ rank → s.handles i ≡ 0)

  import_peer-Keeps :
      (k token : ℕ)
      → k < count o
      → Keeps
          (holds o)
          (Filled o rank k)
          (Fetched k)
          (import_peer d mem rounds events properties o rank device node fd k token)
  import_peer-Keeps k token lt = elim (Bool-cases (k == rank)) [
    | inl own ↦ rw own (
        Keeps-weaken
          (λ s (h : Filled o rank k s).
            (h.below, h.above, λ i at late other. h.blank i at (omega arith) other))
          (Keeps-pure tt))
    | inr other ↦
        let c = import_handle token (pos device) in
        let ne : k ≢ rank = λ e. ground arith in
        rw other (
          Keeps-bind
            (writes_out-Keeps {Q = Fetched k} d c (λ r. set_handle k r.out)
              (λ r s h. (
                h.below,
                h.above,
                λ i at late other'. ground (arith, h.blank i at (omega arith) other'),
              ))
              (λ x real t s h.
                import-even o x real k token (pos device) s (d t c) lt
                  (h.blank k lt (omega arith) ne) (plain.no_import t token (pos device))))
            λ n. Keeps-pure tt)
  ]

  map_slice-Keeps :
      (k : ℕ)
      → k < count o
      → Keeps
          (holds o)
          (Fetched k)
          (Filled o rank (suc k))
          (map_slice d mem rounds events properties o rank device node fd k)
  map_slice-Keeps k lt =
      Keeps-gets_as (λ s. slice o s.base k)
        λ va.
          Keeps-gets_as (λ s. s.handles k)
            λ h.
              notes-Keeps d (Call.mem_map va o.bytes h) (set_mapped k true)
                (λ s ((fetched, e), e'). record {
                  below = λ i early. ground (arith, fetched.0 i);
                  above = λ i at late. ground (arith, fetched.1 i at);
                  blank = λ i at late other. fetched.2 i at (omega arith) other;
                })
                (λ x real s r ((fetched, e), e') good.
                  subst
                    (λ v.
                      holds o x (set_mapped k true s) + lost x (Call.mem_map v o.bytes h)
                      ≡ holds o x s + gained x (Call.mem_map v o.bytes h) r)
                    e (map-even o x real k h s r lt (fetched.1 k lt (omega arith)) good))
                (λ x real r bad. map-none o x va o.bytes h r bad)

  pub map_from-Keeps :
      (left k : ℕ)
      → k + left ≡ count o
      → Keeps
          (holds o)
          (Filled o rank k)
          (MappedFrom o 0)
          (map_from d mem rounds events properties o rank device node fd left k)
  unfolding map_from
  map_from-Keeps zero k all =
      Keeps-weaken (λ s (h : Filled o rank k s) i at late. h.below i (omega arith)) (Keeps-pure tt)
  map_from-Keeps (suc left) k all = Keeps-bind (receive_word-Keeps d rounds patient fd) λ token.
      Keeps-bind (import_peer-Keeps k token (omega arith)) λ u.
        Keeps-bind (map_slice-Keeps k (omega arith)) λ u1. map_from-Keeps left (suc k) (omega arith)

  unmap_slice-Keeps :
      (k : ℕ)
      → k < count o
      → Keeps
          (holds o)
          (MappedFrom o k)
          (MappedFrom o (suc k))
          (unmap_slice d mem rounds events properties o rank device node fd k)
  unmap_slice-Keeps k lt =
      Keeps-gets_as (λ s. slice o s.base k)
        λ va.
          notes-Keeps d (Call.mem_unmap va) (set_mapped k false)
            (λ s (h, e) i at late. ground (arith, h i at (omega arith)))
            (λ x real s r (h, e) good.
              subst
                (λ v.
                  holds o x (set_mapped k false s) + lost x (Call.mem_unmap v)
                  ≡ holds o x s + gained x (Call.mem_unmap v) r)
                e (unmap-even o x real k s r lt (h k lt (omega arith))))
            (λ x real r bad. unmap-none o x va r)

  pub unmap_from-Keeps :
      (left k : ℕ)
      → k + left ≡ count o
      → Keeps
          (holds o)
          (MappedFrom o k)
          Whatever
          (unmap_from d mem rounds events properties o rank device node fd left k)
  unfolding unmap_from
  unmap_from-Keeps zero k all = Keeps-weaken (λ s h. tt) (Keeps-pure {P = MappedFrom o k} tt)
  unmap_from-Keeps (suc left) k all =
      Keeps-bind (unmap_slice-Keeps k (omega arith))
        λ u. unmap_from-Keeps left (suc k) (omega arith)

  -- From nothing to all slices mapped.
  pub map_all-Keeps :
      rank < count o
      → Keeps
          (holds o)
          (IsFresh o)
          (MappedFrom o 0)
          (map_all d mem rounds events properties cpus o rank device node fd)
  map_all-Keeps lt =
      Keeps-bind
        (reserve_base-Keeps d mem rounds events properties plain patient cpus o rank device node fd
          lt)
        λ u.
          Keeps-bind
            (create_own-Keeps d mem rounds events properties plain patient cpus o rank device node
              fd lt)
            λ n.
              Keeps-bind
                (query_own-Keeps d mem rounds events properties plain patient cpus o rank device
                  node fd)
                λ u1.
                  Keeps-bind
                    (export_own-Keeps d mem rounds events properties plain patient cpus o rank
                      device node fd)
                    λ u2. map_from-Keeps (count o) 0 (omega arith)

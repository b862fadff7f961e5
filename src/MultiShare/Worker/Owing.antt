-- ===== src/MultiShare/Worker/Owing.antt =====
-- The cleanups of a worker of multi_share: what is left to give back, until nothing is.
use ascend_hal_sharing_probe.Prelude.{
  List, ℕ, zero, suc, ◌+◌, ◌≡◌, ◌==◌, not, refl, arith, true, false,
}
use ascend_hal_sharing_probe.Effects.{Call, Driver, Reply, Trace, World, MemProp, address_free}
use ascend_hal_sharing_probe.Effects.Ledger.{
  Resource, address, memory, mapping, IsReal, one_if, gained, lost,
}
use ascend_hal_sharing_probe.Effects.Outcomes.{Ends, Ends-bind}
use ascend_hal_sharing_probe.Common.AioOperation.{IoEvent}
use ascend_hal_sharing_probe.Common.Pattern.{Memory}
use ascend_hal_sharing_probe.Common.Teardown.{Owing, Never, step-Owing}
use ascend_hal_sharing_probe.MultiShare.Cpu.{Cpus}
use ascend_hal_sharing_probe.MultiShare.Options.{MultiOptions, slice}
use ascend_hal_sharing_probe.MultiShare.Worker.{MultiShare, note}
use ascend_hal_sharing_probe.MultiShare.Worker.Parts.{release_from}
use ascend_hal_sharing_probe.MultiShare.Worker.Sums.{sum_from}
use ascend_hal_sharing_probe.MultiShare.Worker.Slices.{handle_at, mapping_at}

-- What the variables still hold: the range, and so many mappings and handles, each from one on.
abbrev pub owed : MultiOptions → MultiShare → ℕ → ℕ → ℕ → ℕ → Resource → ℕ
owed o s i m j h (address a) = one_if (s.base == a)
owed o s i m j h (memory n) = sum_from (handle_at n s) j h
owed o s i m j h (mapping a) = sum_from (mapping_at o a s) i m

abbrev pub Any : MultiShare → Type 0
Any s = Unit {0}

unmap-owed :
    (o : MultiOptions) (s : MultiShare) (i m j h : ℕ) (r : Reply) (x : Resource)
    → s.mapped i ≡ true
    → (owed o s i (suc m) j h x
        ≡ owed o s (suc i) m j h x + lost x (Call.mem_unmap (slice o s.base i)))
      × (gained x (Call.mem_unmap (slice o s.base i)) r ≡ 0)
unfolding sum_from
unmap-owed o s i m j h r (address a) e = (ground arith, refl)
unmap-owed o s i m j h r (memory n) e = (ground arith, refl)
unmap-owed o s i m j h r (mapping a) e = (ground arith, refl)

unmapped-owed :
    (o : MultiOptions) (s : MultiShare) (i m j h : ℕ) (x : Resource)
    → s.mapped i ≡ false
    → owed o s i (suc m) j h x ≡ owed o s (suc i) m j h x
unfolding sum_from
unmapped-owed o s i m j h (address a) e = refl
unmapped-owed o s i m j h (memory n) e = refl
unmapped-owed o s i m j h (mapping a) e = ground arith

release-owed :
    (o : MultiOptions) (s : MultiShare) (i m j h : ℕ) (r : Reply) (x : Resource)
    → (owed o s i m j (suc h) x
        ≡ owed o s i m (suc j) h x + lost x (Call.mem_release (s.handles j)))
      × (gained x (Call.mem_release (s.handles j)) r ≡ 0)
unfolding sum_from
release-owed o s i m j h r (address a) = (ground arith, refl)
release-owed o s i m j h r (memory n) = (ground arith, refl)
release-owed o s i m j h r (mapping a) = (ground arith, refl)

released-owed :
    (o : MultiOptions) (s : MultiShare) (i m j h : ℕ) (x : Resource)
    → IsReal x
    → not (s.handles j == 0) ≡ false
    → owed o s i m j (suc h) x ≡ owed o s i m (suc j) h x
unfolding sum_from
released-owed o s i m j h (address a) real e = refl
released-owed o s i m j h (memory n) real e = ground arith
released-owed o s i m j h (mapping a) real e = refl

only_range :
    (o : MultiOptions) (s : MultiShare) (i : ℕ) (x : Resource)
    → owed o s i 0 i 0 x ≡ owed o s 0 0 0 0 x
unfolding sum_from
only_range o s i (address a) = refl
only_range o s i (memory n) = refl
only_range o s i (mapping a) = refl

pub free-owed :
    (o : MultiOptions) (s : MultiShare) (r : Reply) (x : Resource)
    → (owed o s 0 0 0 0 x ≡ 0 + lost x (address_free s.base))
      × (gained x (address_free s.base) r ≡ 0)
unfolding sum_from
free-owed o s r (address a) = (ground arith, refl)
free-owed o s r (memory n) = (ground arith, refl)
free-owed o s r (mapping a) = (ground arith, refl)

pub freed-owed :
    (o : MultiOptions) (s : MultiShare) (x : Resource)
    → IsReal x
    → not (s.base == 0) ≡ false
    → owed o s 0 0 0 0 x ≡ 0
unfolding sum_from
freed-owed o s (address a) real e = ground arith
freed-owed o s (memory n) real e = ground arith
freed-owed o s (mapping a) real e = ground arith

module _ (d : Driver) (mem : Memory) (rounds : ℕ) (events : Trace → List IoEvent)
    (properties : Trace → MemProp) (cpus : Cpus) (o : MultiOptions) (rank device node fd : ℕ) where
  abbrev Rest : (Resource → ℕ) → Unit {0} → World MultiShare → Type 0
  Rest f u v = Owing f v.trace × Any v.self

  pub release_from-Owing :
      (s : MultiShare) (left i : ℕ) (w : World MultiShare)
      → Owing (owed o s i left i left) w.trace
      → Ends
          (λ u v. Owing (owed o s 0 0 0 0) v.trace)
          Never
          (release_from d mem rounds events properties cpus o rank device node fd s left i w)
  unfolding release_from
  release_from-Owing s zero i w h = λ x real. omega (arith, h x real, only_range o s i x)
  release_from-Owing s (suc left) i w h =
      Ends-bind (Rest (owed o s (suc i) left i (suc left)))
        (λ u v. Owing (owed o s 0 0 0 0) v.trace) Never _ _
        (step-Owing d note Any (λ s h. tt) (s.mapped i) (Call.mem_unmap (slice o s.base i))
          (owed o s i (suc left) i (suc left)) (owed o s (suc i) left i (suc left)) w
          (λ x real e. unmap-owed o s i left i (suc left) _ x e)
          (λ x real e. unmapped-owed o s i left i (suc left) x e) h tt)
        λ u v (h', any).
          Ends-bind (Rest (owed o s (suc i) left (suc i) left))
            (λ u v. Owing (owed o s 0 0 0 0) v.trace) Never _ _
            (step-Owing d note Any (λ s h. tt) (not (s.handles i == 0))
              (Call.mem_release (s.handles i)) (owed o s (suc i) left i (suc left))
              (owed o s (suc i) left (suc i) left) v
              (λ x real e. release-owed o s (suc i) left i left _ x)
              (λ x real e. released-owed o s (suc i) left i left x real e) h' tt)
            λ u' v' (h'', any'). release_from-Owing s left (suc i) v' h''

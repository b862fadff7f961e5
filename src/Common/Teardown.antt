-- ===== src/Common/Teardown.antt =====
-- Destructors: what is left to give back, until nothing is.
use ascend_hal_sharing_probe.Prelude.{
  ℕ, ◌+◌, ◌≤◌, ◌≡◌, refl, Bool, true, false, not, List, [], ◌∷◌, arith, is_zero, if◌then◌else◌,
  ◌==◌,
}
use ascend_hal_sharing_probe.Effects.{Call, Driver, Reply, Trace, World, address_free, modify, pure}
use ascend_hal_sharing_probe.Effects.Ledger.{
  Resource, address, memory, mapping, IsReal, gained, lost, gains, given, refused, is_neutral,
  gained-neutral, lost-neutral, returned-neutral,
}
use ascend_hal_sharing_probe.Effects.Outcomes.{Ends, Ends-bind, Ends-if, after}
use ascend_hal_sharing_probe.DataStrategy.Accounts.{held_all}
use ascend_hal_sharing_probe.Common.{Allocation, cleanup, destroy, with_mapped, with_handle}
use ascend_hal_sharing_probe.Common.Books.{IsKept}

-- So much is still to be given back; all else has been, or the driver has refused it, and nothing was
-- given back more often than obtained.
abbrev pub Owing : (Resource → ℕ) → Trace → Type 0
Owing owed t =
    (x : Resource)
    → IsReal x
    → (given x t + owed x ≤ gains x t) × (gains x t ≤ given x t + refused x t + owed x)

-- These allocations are still to be given back.
abbrev pub Outstanding : List Allocation → Trace → Type 0
Outstanding owed t = Owing (λ x. held_all x owed) t

-- Nothing is left to give back.
abbrev pub IsReturned : Trace → Type 0
IsReturned t = Outstanding [] t

pub kept-Outstanding :
    {S : Type 0} (holds : Resource → S → ℕ) (owed : List Allocation) (w : World S)
    → ((x : Resource) → holds x w.self ≡ held_all x owed)
    → IsKept holds w
    → Outstanding owed w.trace
kept-Outstanding holds owed w same kept x real = omega (arith, kept x real, same x)

-- A destructor does not throw.
abbrev pub Never : {S : Type 0} → World S → Type 0
Never w = ⊥

unmap-owed :
    (a : Allocation) (owed : List Allocation) (r : Reply) (x : Resource)
    → IsReal x
    → a.mapped ≡ true
    → (held_all x (a ∷ owed)
        ≡ held_all x ((with_mapped false a) ∷ owed) + lost x (Call.mem_unmap a.addr))
      × (gained x (Call.mem_unmap a.addr) r ≡ 0)
unfolding held_all
unmap-owed a owed r (address n) real e = (ground arith, refl)
unmap-owed a owed r (memory n) real e = (ground arith, refl)
unmap-owed a owed r (mapping n) real e = (ground arith, refl)

unmapped-owed :
    (a : Allocation) (owed : List Allocation) (x : Resource)
    → IsReal x
    → a.mapped ≡ false
    → held_all x (a ∷ owed) ≡ held_all x ((with_mapped false a) ∷ owed)
unfolding held_all
unmapped-owed a owed (address n) real e = ground arith
unmapped-owed a owed (memory n) real e = ground arith
unmapped-owed a owed (mapping n) real e = ground arith

release-owed :
    (a : Allocation) (owed : List Allocation) (r : Reply) (x : Resource)
    → IsReal x
    → not (a.handle == 0) ≡ true
    → (held_all x ((with_mapped false a) ∷ owed)
        ≡ held_all x ((with_handle 0 (with_mapped false a)) ∷ owed)
          + lost x (Call.mem_release a.handle))
      × (gained x (Call.mem_release a.handle) r ≡ 0)
unfolding held_all
release-owed a owed r (address n) real e = (ground arith, refl)
release-owed a owed r (memory n) real e = (ground arith, refl)
release-owed a owed r (mapping n) real e = (ground arith, refl)

released-owed :
    (a : Allocation) (owed : List Allocation) (x : Resource)
    → IsReal x
    → not (a.handle == 0) ≡ false
    → held_all x ((with_mapped false a) ∷ owed)
      ≡ held_all x ((with_handle 0 (with_mapped false a)) ∷ owed)
unfolding held_all
released-owed a owed (address n) real e = ground arith
released-owed a owed (memory n) real e = ground arith
released-owed a owed (mapping n) real e = ground arith

free-owed :
    (a : Allocation) (owed : List Allocation) (r : Reply) (x : Resource)
    → IsReal x
    → not (a.addr == 0) ≡ true
    → (held_all x ((with_handle 0 (with_mapped false a)) ∷ owed)
        ≡ held_all x owed + lost x (address_free a.addr))
      × (gained x (address_free a.addr) r ≡ 0)
unfolding held_all
free-owed a owed r (address n) real e = (ground arith, refl)
free-owed a owed r (memory n) real e = (ground arith, refl)
free-owed a owed r (mapping n) real e = (ground arith, refl)

freed-owed :
    (a : Allocation) (owed : List Allocation) (x : Resource)
    → IsReal x
    → not (a.addr == 0) ≡ false
    → held_all x ((with_handle 0 (with_mapped false a)) ∷ owed) ≡ held_all x owed
unfolding held_all
freed-owed a owed (address n) real e = ground arith
freed-owed a owed (memory n) real e = ground arith
freed-owed a owed (mapping n) real e = ground arith

-- A call that obtains and gives back nothing leaves that as it is.
pub called-Outstanding :
    {S : Type 0} (d : Driver) (c : Call) (owed : List Allocation) (w : World S)
    → is_neutral c ≡ true
    → Outstanding owed w.trace
    → Outstanding owed (after d c w).trace
unfolding gains given refused
called-Outstanding d c owed w quiet h x real = ground (
  arith,
  h x real,
  gained-neutral c x (d w.trace c) quiet,
  lost-neutral c x quiet,
  returned-neutral c x (d w.trace c) quiet,
)

-- What is left, and what a noted failure keeps of the object.
abbrev pub Left : {S : Type 0} → (S → Type 0) → List Allocation → Unit {0} → World S → Type 0
Left I owed u v = Outstanding owed v.trace × I v.self

module _ {S : Type 0} (d : Driver) (note : S → S) (I : S → Type 0)
    (noted : (s : S) → I s → I (note s)) where
  -- What is left after a noted call that gives something back.
  pub cleanup-Owing :
      (c : Call) (owed rest : Resource → ℕ) (w : World S)
      → ((x : Resource) → IsReal x → (owed x ≡ rest x + lost x c) × (gained x c (d w.trace c) ≡ 0))
      → Owing owed w.trace
      → I w.self
      → Ends (λ u v. Owing rest v.trace × I v.self) Never (cleanup d note c w)
  unfolding gains given refused
  cleanup-Owing c owed rest w even h inv =
      Ends-if (λ u v. Owing rest v.trace × I v.self) Never (is_zero (d w.trace c).ret) (pure tt)
        (modify note) (after d c w)
        (λ good. ((λ x real. rw good (omega (arith, h x real, even x real))), inv))
        (λ bad. ((λ x real. rw bad (omega (arith, h x real, even x real))), noted w.self inv))

  -- The same under a test; when the test fails there is nothing to give back.
  pub step-Owing :
      (b : Bool) (c : Call) (owed rest : Resource → ℕ) (w : World S)
      → ((x : Resource)
          → IsReal x
          → b ≡ true
          → (owed x ≡ rest x + lost x c) × (gained x c (d w.trace c) ≡ 0))
      → ((x : Resource) → IsReal x → b ≡ false → owed x ≡ rest x)
      → Owing owed w.trace
      → I w.self
      → Ends
          (λ u v. Owing rest v.trace × I v.self)
          Never
          ((if b then cleanup d note c else pure tt) w)
  step-Owing true c owed rest w even none h inv =
      cleanup-Owing c owed rest w (λ x real. even x real refl) h inv
  step-Owing false c owed rest w even none h inv =
      ((λ x real. omega (arith, h x real, none x real refl)), inv)

  pub neutral-Outstanding :
      (c : Call) (owed : List Allocation) (w : World S)
      → is_neutral c ≡ true
      → Outstanding owed w.trace
      → I w.self
      → Ends (Left I owed) Never (cleanup d note c w)
  neutral-Outstanding c owed w quiet =
      cleanup-Owing c (λ x. held_all x owed) (λ x. held_all x owed) w
        λ x real. (omega (arith, lost-neutral c x quiet), gained-neutral c x (d w.trace c) quiet)  -- The same under a test.

  pub if_cleanup-Left :
      (b : Bool) (c : Call) (owed : List Allocation) (w : World S)
      → is_neutral c ≡ true
      → Left I owed tt w
      → Ends (Left I owed) Never ((if b then cleanup d note c else pure tt) w)
  if_cleanup-Left b c owed w quiet (h, inv) =
      Ends-if (Left I owed) Never b (cleanup d note c) (pure tt) w
        (λ z. neutral-Outstanding c owed w quiet h inv) (λ z. (h, inv))

  -- `~Allocation` leaves the others.
  pub destroy-Outstanding :
      (a : Allocation) (owed : List Allocation) (w : World S)
      → Outstanding (a ∷ owed) w.trace
      → I w.self
      → Ends (Left I owed) Never (destroy d note a w)
  unfolding destroy held_all
  destroy-Outstanding a owed w h inv =
      let b = with_mapped false a in
      let c = with_handle 0 b in
      Ends-bind (Left I (b ∷ owed)) (Left I owed) Never _ _
        (step-Owing a.mapped (Call.mem_unmap a.addr) (λ x. held_all x (a ∷ owed))
          (λ x. held_all x (b ∷ owed)) w (unmap-owed a owed (d w.trace (Call.mem_unmap a.addr)))
          (unmapped-owed a owed) h inv)
        λ u v (h', inv').
          Ends-bind (Left I (c ∷ owed)) (Left I owed) Never _ _
            (step-Owing (not (a.handle == 0)) (Call.mem_release a.handle)
              (λ x. held_all x (b ∷ owed)) (λ x. held_all x (c ∷ owed)) v
              (release-owed a owed (d v.trace (Call.mem_release a.handle))) (released-owed a owed)
              h' inv')
            λ u' y (h'', inv'').
              step-Owing (not (a.addr == 0)) (address_free a.addr) (λ x. held_all x (c ∷ owed))
                (λ x. held_all x owed) y (free-owed a owed (d y.trace (address_free a.addr)))
                (freed-owed a owed) h'' inv''

-- ===== src/DataStrategy/Reset.antt =====
-- `DataStrategy::Reset`: the calls that it issues, and their order.
use mathlib.Core.List.{append-nil, append_assoc}
use ascend_hal_sharing_probe.Prelude.{
  ℕ, suc, ◌≡◌, refl, ◌∙◌, sym, Bool, true, false, Option, none, some, List, [], ◌∷◌, ◌++◌, arith,
  get_elem?, ◌==◌, if◌then◌else◌,
}
use ascend_hal_sharing_probe.Effects.{
  Call, Reply, Trace, Driver, Outcome, ok, World, pure, call, ◌>>=◌, ◌>>◌, address_free,
  mem_release, mem_unmap,
}
use ascend_hal_sharing_probe.Effects.Ledger.{Resource, address, gains, gained, history}
use ascend_hal_sharing_probe.DataStrategy.{
  DataStrategy, Mapping, Action, for_each, unmap_one, release_one, free_one, release_peers, reset,
}

abbrev pub unmap_call : Mapping → List Call
unmap_call m = if m.mapped then mem_unmap m.addr ∷ [] else []

abbrev pub release_call : Mapping → List Call
release_call m = if m.handle == 0 then [] else mem_release m.handle ∷ []

abbrev pub free_call : Mapping → List Call
free_call m = if m.addr == 0 then [] else address_free m.addr ∷ []

abbrev pub calls_of : (Mapping → List Call) → List Mapping → List Call
calls_of f [] = []
calls_of f (m ∷ ms) = f m ++ calls_of f ms

abbrev pub peer_releases : ℕ → ℕ → List Mapping → List Call
peer_releases owner rank [] = []
peer_releases owner rank (m ∷ ms) =
    (if rank == owner then [] else release_call m) ++ peer_releases owner (suc rank) ms

abbrev pub owner_release : ℕ → List Mapping → List Call
owner_release owner ms = elim (get_elem? ms owner) [ none ↦ [] | some m ↦ release_call m ]

-- Unmap, then the imported handles, then the local one, then the addresses.
abbrev pub reset_calls : DataStrategy → List Call
reset_calls s =
    calls_of unmap_call s.mappings
    ++ (peer_releases s.owner 0 s.mappings
        ++ (owner_release s.owner s.mappings ++ calls_of free_call s.mappings))

-- An action that only issues the given calls, whatever they return.
abbrev pub Issued :
    List Call → World DataStrategy → Outcome (Unit {0}) × World DataStrategy → Type 0
Issued cs w r =
    (t : Trace) × (r ≡ (ok tt, record w { trace = t }))
    × (history t ≡ history w.trace ++ cs)
    × ((x : Resource) → gains x t ≡ gains x w.trace)

pub record Issues (cs : List Call) (f : Action (Unit {0})) : Type 0 where
  pub run : (w : World DataStrategy) → Issued cs w (f w)

Issues-pure : Issues [] (pure tt)
Issues-pure = record { run = λ w. (w.trace, refl, sym (append-nil _), λ x. refl) }

Issues-seq :
    {cs ds : List Call} {f g : Action (Unit {0})}
    → Issues cs f
    → Issues ds g
    → Issues (cs ++ ds) (f >> g)
Issues-seq {cs} {ds} i j = record {
  run = λ w.
      let (t, e, h, n) = i.run w in
      let (u, e', h', n') = j.run (record w { trace = t }) in
      (u, rw e e', h' ∙ rw (h, append_assoc) refl, λ x. n' x ∙ n x);
}

Issues-if :
    {cs ds : List Call} {f g : Action (Unit {0})} (b : Bool)
    → Issues cs f
    → Issues ds g
    → Issues (if b then cs else ds) (if b then f else g)
Issues-if true i j = i
Issues-if false i j = j

module _ (d : Driver) where
  Issues-call :
      (c : Call)
      → ((x : Resource) (r : Reply) → gained x c r ≡ 0)
      → Issues (c ∷ []) (call d c >>= λ r. pure tt)
  unfolding history gains
  Issues-call c quiet = record {
    run = λ w. (_, refl, refl, λ x. omega (arith, quiet x (d w.trace c)));
  }

  Issues-unmap : (m : Mapping) → Issues (unmap_call m) (unmap_one d m)
  Issues-unmap m = Issues-if m.mapped (Issues-call (mem_unmap m.addr) quiet) Issues-pure
    where
      quiet : (x : Resource) (r : Reply) → gained x (mem_unmap m.addr) r ≡ 0
      quiet (address a) r = refl
      quiet _ r = refl

  Issues-release : (m : Mapping) → Issues (release_call m) (release_one d m)
  Issues-release m =
      Issues-if (m.handle == 0) Issues-pure (Issues-call (mem_release m.handle) quiet)
    where
      quiet : (x : Resource) (r : Reply) → gained x (mem_release m.handle) r ≡ 0
      quiet (address a) r = refl
      quiet _ r = refl

  Issues-free : (m : Mapping) → Issues (free_call m) (free_one d m)
  Issues-free m = Issues-if (m.addr == 0) Issues-pure (Issues-call (address_free m.addr) quiet)
    where
      quiet : (x : Resource) (r : Reply) → gained x (address_free m.addr) r ≡ 0
      quiet (address a) r = refl
      quiet _ r = refl

  Issues-for_each :
      (f : Mapping → Action (Unit {0})) (cs : Mapping → List Call)
      → ((m : Mapping) → Issues (cs m) (f m))
      → (ms : List Mapping) → Issues (calls_of cs ms) (for_each d f ms)
  unfolding for_each
  Issues-for_each f cs h [] = Issues-pure
  Issues-for_each f cs h (m ∷ ms) = Issues-seq (h m) (Issues-for_each f cs h ms)

  Issues-peers :
      (owner rank : ℕ) (ms : List Mapping)
      → Issues (peer_releases owner rank ms) (release_peers d owner rank ms)
  unfolding release_peers
  Issues-peers owner rank [] = Issues-pure
  Issues-peers owner rank (m ∷ ms) =
      Issues-seq (Issues-if (rank == owner) Issues-pure (Issues-release m))
        (Issues-peers owner (suc rank) ms)

  Issues-optional :
      (o : Option Mapping)
      → Issues
          (elim o [ none ↦ [] | some m ↦ release_call m ])
          (elim o [ none ↦ pure tt | some m ↦ release_one d m ])
  Issues-optional none = Issues-pure
  Issues-optional (some m) = Issues-release m

  -- Reset ends normally whatever the driver answers, issues exactly the calls of `reset_calls`, in
  -- that order, and leaves the object without mappings; it obtains nothing.
  pub reset_lem :
      (w : World DataStrategy)
      → (t : Trace) × (reset d w ≡ (
        ok tt,
        record w { self = record w.self { mappings = []; rank_stride = 0 }; trace = t },
      ))
        × (history t ≡ history w.trace ++ reset_calls w.self)
        × ((x : Resource) → gains x t ≡ gains x w.trace)
  unfolding reset
  reset_lem w =
      let s = w.self in
      let (t, e, h, n) =
        (Issues-seq (Issues-for_each (unmap_one d) unmap_call Issues-unmap s.mappings) (
            Issues-seq (Issues-peers s.owner 0 s.mappings) (
              Issues-seq (Issues-optional (get_elem? s.mappings s.owner))
                (Issues-for_each (free_one d) free_call Issues-free s.mappings)))).run
          w in
      (t, rw e, h, n)

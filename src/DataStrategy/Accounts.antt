-- ===== src/DataStrategy/Accounts.antt =====
-- The books of a DataStrategy: what it has obtained from the driver is what it has given back and
-- what its mappings hold.
use ascend_hal_sharing_probe.Prelude.{
  ℕ, zero, suc, ◌+◌, ◌<◌, ◌≡◌, refl, ◌&&◌, some, List, [], ◌∷◌, ◌++◌, arith, get_elem?, set,
  replicate, ◌==◌,
}
use ascend_hal_sharing_probe.Effects.{Call, Trace, Driver, World}
use ascend_hal_sharing_probe.Effects.Ledger.{
  Resource, address, memory, mapping, IsReal, one_if, gains, losses, history, losses-append,
}
use ascend_hal_sharing_probe.DataStrategy.{DataStrategy, Mapping, blank, reset}
use ascend_hal_sharing_probe.DataStrategy.Reset.{
  unmap_call, release_call, free_call, calls_of, peer_releases, owner_release, reset_calls,
  reset_lem,
}

abbrev pub held : Resource → Mapping → ℕ
held (address a) m = one_if (m.addr == a)
held (memory h) m = one_if (m.handle == h)
held (mapping a) m = one_if (m.mapped && m.addr == a)

unfoldable pub held_all : Resource → List Mapping → ℕ
held_all x [] = 0
held_all x (m ∷ ms) = held x m + held_all x ms

pub held_all-set :
    (x : Resource) (ms : List Mapping) (i : ℕ) {m : Mapping} (m' : Mapping)
    → get_elem? ms i ≡ some m
    → held_all x (set ms i m') + held x m ≡ held_all x ms + held x m'
unfolding held_all
held_all-set x [] i m' e = ground arith
held_all-set x (n ∷ ms) zero m' e = ground arith
held_all-set x (n ∷ ms) (suc i) m' e = omega (arith, held_all-set x ms i m' e)

pub held_all-blank : (x : Resource) (n : ℕ) → IsReal x → held_all x (replicate n blank) ≡ 0
unfolding held_all
held_all-blank x zero h = refl
held_all-blank (address a) (suc n) h = ground (arith, held_all-blank (address a) n h)
held_all-blank (memory a) (suc n) h = ground (arith, held_all-blank (memory a) n h)
held_all-blank (mapping a) (suc n) h = ground (arith, held_all-blank (mapping a) n h)

losses-calls_of :
    (x : Resource) (f : Mapping → List Call)
    → ((m : Mapping) → losses x (f m) ≡ held x m)
    → (ms : List Mapping) → losses x (calls_of f ms) ≡ held_all x ms
unfolding losses held_all
losses-calls_of x f h [] = refl
losses-calls_of x f h (m ∷ ms) =
    omega (arith, losses-append x (f m) (calls_of f ms), h m, losses-calls_of x f h ms)

losses-calls_of_none :
    (x : Resource) (f : Mapping → List Call)
    → ((m : Mapping) → losses x (f m) ≡ 0)
    → (ms : List Mapping) → losses x (calls_of f ms) ≡ 0
unfolding losses
losses-calls_of_none x f h [] = refl
losses-calls_of_none x f h (m ∷ ms) =
    omega (arith, losses-append x (f m) (calls_of f ms), h m, losses-calls_of_none x f h ms)

losses-release :
    (h : ℕ)
    → IsReal (memory h)
    → (m : Mapping) → losses (memory h) (release_call m) ≡ held (memory h) m
unfolding losses
losses-release h real m = ground arith

-- Once the owner's place is passed, every handle is released in the peers' pass.
losses-peers_after :
    (h : ℕ)
    → IsReal (memory h)
    → (owner rank : ℕ) (ms : List Mapping) → owner < rank
    → losses (memory h) (peer_releases owner rank ms) ≡ held_all (memory h) ms
unfolding losses held_all
losses-peers_after h real owner rank [] lt = refl
losses-peers_after h real owner rank (m ∷ ms) lt = ground (
  arith,
  losses-release h real m,
  losses-append (memory h) (release_call m) (peer_releases owner (suc rank) ms),
  losses-peers_after h real owner (suc rank) ms,
)

losses-peers_owner :
    (h : ℕ)
    → IsReal (memory h)
    → (owner rank k : ℕ) (ms : List Mapping) → owner ≡ rank + k
    → losses (memory h) (peer_releases owner rank ms) + losses (memory h) (owner_release k ms)
      ≡ held_all (memory h) ms
unfolding losses held_all
losses-peers_owner h real owner rank k [] e = refl
losses-peers_owner h real owner rank zero (m ∷ ms) e =
    ground (arith, losses-release h real m, losses-peers_after h real owner (suc rank) ms)
losses-peers_owner h real owner rank (suc k) (m ∷ ms) e = ground (
  arith,
  losses-release h real m,
  losses-append (memory h) (release_call m) (peer_releases owner (suc rank) ms),
  losses-peers_owner h real owner (suc rank) k ms,
)

losses-no_releases :
    (x : Resource)
    → ((m : Mapping) → losses x (release_call m) ≡ 0)
    → (owner rank : ℕ) (ms : List Mapping) → losses x (peer_releases owner rank ms) ≡ 0
unfolding losses
losses-no_releases x h owner rank [] = refl
losses-no_releases x h owner rank (m ∷ ms) = ground (
  arith,
  h m,
  losses-append x (release_call m) (peer_releases owner (suc rank) ms),
  losses-no_releases x h owner (suc rank) ms,
)

losses-owner_none :
    (x : Resource)
    → ((m : Mapping) → losses x (release_call m) ≡ 0)
    → (k : ℕ) (ms : List Mapping) → losses x (owner_release k ms) ≡ 0
unfolding losses
losses-owner_none x h k [] = refl
losses-owner_none x h zero (m ∷ ms) = h m
losses-owner_none x h (suc k) (m ∷ ms) = losses-owner_none x h k ms

losses-four :
    (x : Resource) (us bs cs ds : List Call)
    → losses x (us ++ (bs ++ (cs ++ ds))) ≡ losses x us + losses x bs + losses x cs + losses x ds
losses-four x us bs cs ds = omega (
  arith,
  losses-append x us (bs ++ (cs ++ ds)),
  losses-append x bs (cs ++ ds),
  losses-append x cs ds,
)

-- Reset gives back each thing that the mappings hold, once.
pub losses-reset_calls :
    (x : Resource) (s : DataStrategy) → IsReal x → losses x (reset_calls s) ≡ held_all x s.mappings
unfolding losses
losses-reset_calls (address a) s real = omega (
  arith,
  losses-four (address a) (calls_of unmap_call s.mappings) (peer_releases s.owner 0 s.mappings)
      (owner_release s.owner s.mappings) (calls_of free_call s.mappings),
  losses-calls_of_none (address a) unmap_call (λ m. ground arith) s.mappings,
  losses-no_releases (address a) (λ m. ground arith) s.owner 0 s.mappings,
  losses-owner_none (address a) (λ m. ground arith) s.owner s.mappings,
  losses-calls_of (address a) free_call (λ m. ground arith) s.mappings,
)
losses-reset_calls (memory h) s real = omega (
  arith,
  losses-four (memory h) (calls_of unmap_call s.mappings) (peer_releases s.owner 0 s.mappings)
      (owner_release s.owner s.mappings) (calls_of free_call s.mappings),
  losses-calls_of_none (memory h) unmap_call (λ m. ground arith) s.mappings,
  losses-peers_owner h real s.owner 0 s.owner s.mappings (omega arith),
  losses-calls_of_none (memory h) free_call (λ m. ground arith) s.mappings,
)
losses-reset_calls (mapping a) s real = omega (
  arith,
  losses-four (mapping a) (calls_of unmap_call s.mappings) (peer_releases s.owner 0 s.mappings)
      (owner_release s.owner s.mappings) (calls_of free_call s.mappings),
  losses-calls_of (mapping a) unmap_call (λ m. ground arith) s.mappings,
  losses-no_releases (mapping a) (λ m. ground arith) s.owner 0 s.mappings,
  losses-owner_none (mapping a) (λ m. ground arith) s.owner s.mappings,
  losses-calls_of_none (mapping a) free_call (λ m. ground arith) s.mappings,
)

-- Nothing is owed: every address, handle and mapping obtained has had the call that gives it back as
-- often, whether or not the driver took it.
abbrev pub IsSettled : Trace → Type 0
IsSettled t = (x : Resource) → IsReal x → gains x t ≡ losses x (history t)

-- What is obtained and not given back is held by a mapping.
abbrev pub Accounted : World DataStrategy → Type 0
Accounted w =
    (x : Resource)
    → IsReal x
    → gains x w.trace ≡ losses x (history w.trace) + held_all x w.self.mappings

-- An object without mappings keeps its books exactly when nothing is owed.
pub Accounted-of_settled :
    (w : World DataStrategy) → w.self.mappings ≡ [] → IsSettled w.trace → Accounted w
unfolding held_all
Accounted-of_settled w e h x real = rw e (omega (arith, h x real))

-- After a reset of an object whose books are kept, nothing is owed.
pub reset-IsSettled :
    (d : Driver) (w : World DataStrategy) → Accounted w → IsSettled (reset d w).1.trace
reset-IsSettled d w h x real =
    let (t, e, calls, quiet) = reset_lem d w in
    rw e (
      rw calls (
        omega (
          arith,
          quiet x,
          h x real,
          losses-append x (history w.trace) (reset_calls w.self),
          losses-reset_calls x w.self real,
        )))

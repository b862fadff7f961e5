-- ===== src/DataStrategy/Stages.antt =====
-- How far a setup has come, and what a part of it leaves behind on every way out.
use ascend_hal_sharing_probe.Prelude.{
  ℕ, zero, suc, ◌≤◌, ◌<◌, ◌≡◌, ◌≢◌, refl, ap, ◌∙◌, sym, true, ◌⊎◌, inl, inr, some, List, [], ◌∷◌,
  arith, subst, ℕ_discrete, get_elem?, set, get_elem?-set_self, length, length-set, replicate,
  length-replicate, get_elem?-replicate, Bool-cases,
}
use ascend_hal_sharing_probe.Status.{Status, success}
use ascend_hal_sharing_probe.Effects.{Call, Driver, Outcome, ok, threw, fault, Fault, World, follow}
use ascend_hal_sharing_probe.Effects.Ledger.{gains, losses, history, losses-append}
use ascend_hal_sharing_probe.DataStrategy.{DataStrategy, Mapping, Action, blank, unless_failed}
use ascend_hal_sharing_probe.Effects.Ledger.{is_neutral, gained-neutral, lost-neutral}
use ascend_hal_sharing_probe.DataStrategy.Accounts.{Accounted}
use ascend_hal_sharing_probe.DataStrategy.Steps.{IsComplete, Filled}

-- The mapping at a rank is there and complete.
abbrev pub IsDone : List Mapping → ℕ → Type 0
IsDone ms i = (m : Mapping) × (get_elem? ms i ≡ some m) × IsComplete m

-- There is a mapping for each of `n` ranks; the owner's and those below `k` are complete, and the
-- others are blank.
pub record Staged (k owner n : ℕ) (ms : List Mapping) : Type 0 where
  pub size : length ms ≡ n
  pub done : (i : ℕ) → i < n → (i ≡ owner) ⊎ (i < k) → IsDone ms i
  pub left : (i : ℕ) → i ≢ owner → k ≤ i → i < n → get_elem? ms i ≡ some blank

pub get_elem?-set_ne {ℓ} :
    {A : Type ℓ} (xs : List A) (i j : ℕ) (v : A) → i ≢ j → get_elem? (set xs i v) j ≡ get_elem? xs j
get_elem?-set_ne [] i j v h = refl
get_elem?-set_ne (x ∷ xs) zero zero v h = absurd (h refl)
get_elem?-set_ne (x ∷ xs) zero (suc j) v h = refl
get_elem?-set_ne (x ∷ xs) (suc i) zero v h = refl
get_elem?-set_ne (x ∷ xs) (suc i) (suc j) v h = get_elem?-set_ne xs i j v (λ e. h (ap suc e))

-- Fresh mappings with the owner's filled in.
pub Staged-owner :
    (owner n : ℕ) (m : Mapping)
    → owner < n
    → IsComplete m
    → Staged 0 owner n (set (replicate n blank) owner m)
Staged-owner owner n m lt c = record {
  size = omega (arith, length-set (replicate n blank) owner m, length-replicate n blank);
  done = λ i below which. elim which [
    | inl here ↦ rw here (
      m,
      get_elem?-set_self (replicate n blank) owner m (omega (arith, length-replicate n blank)),
      c,
    )
    | inr early ↦ absurd (omega arith)
  ];
  left = λ i other above below.
      get_elem?-set_ne (replicate n blank) owner i m (λ e. other (sym e))
      ∙ get_elem?-replicate n i blank below;
}

-- One more rank is complete.
pub Staged-set :
    (k owner n : ℕ) (ms : List Mapping) (m : Mapping)
    → k ≢ owner
    → k < n
    → IsComplete m
    → Staged k owner n ms
    → Staged (suc k) owner n (set ms k m)
Staged-set k owner n ms m other lt c s = record {
  size = omega (arith, length-set ms k m, s.size);
  done = λ i below which. elim (ℕ_discrete k i) [
    | yes here ↦ rw (← here) (m, get_elem?-set_self ms k m (omega (arith, s.size)), c)
    | no there ↦
        rw (get_elem?-set_ne ms k i m there)
          (s.done i below (elim which [ inl e ↦ inl e | inr h ↦ inr (omega arith) ]))
  ];
  left =
      λ i ne above below. get_elem?-set_ne ms k i m (omega arith) ∙ s.left i ne (omega arith) below;
}

-- The owner's own rank is passed over.
pub Staged-skip :
    (k owner n : ℕ) (ms : List Mapping)
    → k ≡ owner
    → Staged k owner n ms
    → Staged (suc k) owner n ms
Staged-skip k owner n ms own s = record {
  size = s.size;
  done = λ i below which. s.done i below (elim which [
    | inl e ↦ inl e
    | inr h ↦ elim (ℕ_discrete i k) [ yes e ↦ inl (e ∙ own) | no ne ↦ inr (omega arith) ]
  ]);
  left = λ i ne above below. s.left i ne (omega arith) below;
}

-- What every part of a setup leaves alone, and the books.
pub record Kept (w w' : World DataStrategy) : Type 0 where
  pub owner : w'.self.owner ≡ w.self.owner
  pub device : w'.self.device_id ≡ w.self.device_id
  pub slots : w'.self.n_slots_per_rank ≡ w.self.n_slots_per_rank
  pub books : Accounted w'

-- A part that ended kept the books; if its status is a success, the object is as `P` says. A
-- fault has its excuse in `X`.
abbrev pub Post :
    (Fault → World DataStrategy → Type 0)
    → World DataStrategy
    → (DataStrategy → Type 0)
    → Outcome Status × World DataStrategy
    → Type 0
Post X w P (ok status, w') = Kept w w' × (success status ≡ true → P w'.self)
Post X w P (threw e, w') = Kept w w'
Post X w P (fault f, w') = X f w'

pub Kept-trans : {u v w : World DataStrategy} → Kept u v → Kept v w → Kept u w
Kept-trans a b = record {
  owner = b.owner ∙ a.owner;
  device = b.device ∙ a.device;
  slots = b.slots ∙ a.slots;
  books = b.books;
}

module _ (X : Fault → World DataStrategy → Type 0) where
  pub Post-trans :
      (u v : World DataStrategy) (P : DataStrategy → Type 0)
      (r : Outcome Status × World DataStrategy)
      → Kept u v
      → Post X v P r
      → Post X u P r
  Post-trans u v P (ok status, w) a (b, h) = (Kept-trans a b, h)
  Post-trans u v P (threw e, w) a b = Kept-trans a b
  Post-trans u v P (fault f, w) a b = b

  -- `status = part; if (status.Failure()) { return status; }` and the rest.
  pub Post-then :
      (w : World DataStrategy) (P Q : DataStrategy → Type 0)
      (r : Outcome Status × World DataStrategy) (rest : Action Status)
      → Post X w P r
      → ((w' : World DataStrategy) → Kept w w' → P w'.self → Post X w Q (rest w'))
      → Post X w Q (follow (λ status. unless_failed status rest) r)
  Post-then w P Q (ok status, w') rest (a, h) go = elim (Bool-cases (success status)) [
    | inl good ↦ rw good (go w' a (h good))
    | inr bad ↦ rw bad (a, λ good. absurd (ground arith))
  ]
  Post-then w P Q (threw e, w') rest a go = a
  Post-then w P Q (fault f, w') rest a go = a

  pub Post-Filled :
      (rank : ℕ) (w : World DataStrategy) (P : DataStrategy → Type 0)
      (r : Outcome Status × World DataStrategy)
      → Filled rank w r
      → ((m : Mapping) → IsComplete m → P (record w.self { mappings = set w.self.mappings rank m }))
      → Post X w P r
  Post-Filled rank w P (ok status, w') (m, books, same, complete) h = (
    record {
      owner = ap (λ s. s.owner) same;
      device = ap (λ s. s.device_id) same;
      slots = ap (λ s. s.n_slots_per_rank) same;
      books = books;
    },
    λ good. subst P (sym same) (h m (complete good)),
  )
  Post-Filled rank w P (threw e, w') f h = absurd f
  Post-Filled rank w P (fault e, w') f h = absurd f

pub called-Accounted :
    (d : Driver) (c : Call) (w : World DataStrategy)
    → is_neutral c ≡ true
    → Accounted w
    → Accounted (record w { trace = (c, d w.trace c) ∷ w.trace })
unfolding gains losses history
called-Accounted d c w n h x real = omega (
  arith,
  h x real,
  gained-neutral c x (d w.trace c) n,
  lost-neutral c x n,
  losses-append x (history w.trace) (c ∷ []),
)

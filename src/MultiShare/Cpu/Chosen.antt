-- ===== src/MultiShare/Cpu/Chosen.antt =====
-- Which CPUs `bind_cpu` of multi_share.cpp selects.
use ascend_hal_sharing_probe.Prelude.{
  ℕ, zero, suc, ◌+◌, ◌-◌, ◌<◌, ◌≡◌, ◌&&◌, ◌||◌, refl, ap, subst, arith, Bool, true, false, Option,
  none, some, List, [], ◌∷◌, ◌++◌, ltb, leb, ◌==◌, Bool-cases, inl, inr,
}
use ascend_hal_sharing_probe.Text.{Line}
use ascend_hal_sharing_probe.MultiShare.Cpu.{set_size, range_of, chosen_from, add_range, chosen}

-- `CPU_ISSET` of the set that the list is.
unfoldable pub is_set : ℕ → List ℕ → Bool
is_set c [] = false
is_set c (x ∷ xs) = c == x || is_set c xs

abbrev pub is_between : Option (ℕ × ℕ) → ℕ → Bool
is_between (some (first, last)) c = leb first c && leb c last
is_between none c = false

-- Some part of the kernel's list has the CPU in its range.
unfoldable pub is_listed : List Line → ℕ → Bool
is_listed [] c = false
is_listed (p ∷ ps) c = is_between (range_of p) c || is_listed ps c

is_set-append : (c : ℕ) (xs ys : List ℕ) → is_set c (xs ++ ys) ≡ is_set c xs || is_set c ys
unfolding is_set
is_set-append c [] ys = refl
is_set-append c (x ∷ xs) ys = ground (arith, is_set-append c xs ys)

is_set-chosen_from :
    (allowed : ℕ → Bool) (left cpu c : ℕ)
    → is_set c (chosen_from allowed left cpu) ≡ allowed c && leb cpu c && ltb c (cpu + left)
unfolding is_set chosen_from
is_set-chosen_from allowed zero cpu c = ground arith
is_set-chosen_from allowed (suc left) cpu c =
    let rest = is_set-chosen_from allowed left (suc cpu) c in
    elim (Bool-cases (c == cpu)) [
      | inl same ↦
          let e : allowed c ≡ allowed cpu = ap allowed (ground arith) in
          elim (Bool-cases (allowed cpu)) [
            | inl may ↦ rw may (ground (arith, rest, e))
            | inr barred ↦ rw barred (ground (arith, rest, e))
          ]
      | inr other ↦ elim (Bool-cases (allowed cpu)) [
        | inl may ↦ rw may (ground (arith, rest))
        | inr barred ↦ rw barred (ground (arith, rest))
      ]
    ]

-- The numbers of a range from its first on.
is_set-range :
    (allowed : ℕ → Bool) (first last c : ℕ)
    → is_set c (chosen_from allowed (suc last - first) first)
      ≡ allowed c && is_between (some (first, last)) c
is_set-range allowed first last c =
    ground (arith, is_set-chosen_from allowed (suc last - first) first c)

-- One part before the others, of which the claim holds.
step-chosen :
    (allowed : ℕ → Bool) (range : Option (ℕ × ℕ)) (rest : Option (List ℕ)) (listed : Bool)
    (cpus : List ℕ) (c : ℕ)
    → ((l : List ℕ)
        → rest ≡ some l
        → (is_set c l ≡ allowed c && listed) × (listed ≡ true → c < set_size))
    → add_range allowed range rest ≡ some cpus
    → (is_set c cpus ≡ allowed c && (is_between range c || listed))
      × (is_between range c || listed ≡ true → c < set_size)
step-chosen allowed (some (first, last)) (some l) listed cpus c others h =
    elim (Bool-cases (leb set_size last)) [
      | inl beyond ↦ absurd (ground (arith, h))
      | inr within ↦
          let all = chosen_from allowed (suc last - first) first ++ l in
          let same : all ≡ cpus = ground (arith, h) in
          let joined = is_set-append c (chosen_from allowed (suc last - first) first) l in
          let from_range = is_set-range allowed first last c in
          let (from_rest, small) = others l refl in
          (
            subst (λ k. is_set c k ≡ allowed c && (is_between (some (first, last)) c || listed))
                same (ground (arith, joined, from_range, from_rest)),
            λ e. ground (arith, small),
          )
    ]
step-chosen allowed (some (first, last)) none listed cpus c others h = ground (arith, h)
step-chosen allowed none rest listed cpus c others h = ground (arith, h)

-- When the loop over the parts of the kernel's list does not throw, a CPU is in the selected set exactly when
-- the process may use it and some part of the list has it in its range, and every CPU that a part lists
-- is below CPU_SETSIZE.
pub is_set-chosen :
    (allowed : ℕ → Bool) (parts : List Line) (cpus : List ℕ) (c : ℕ)
    → chosen allowed parts ≡ some cpus
    → (is_set c cpus ≡ allowed c && is_listed parts c) × (is_listed parts c ≡ true → c < set_size)
unfolding chosen is_listed is_set
is_set-chosen allowed [] cpus c h =
    let same : [] ≡ cpus = ground (arith, h) in
    (subst (λ k. is_set c k ≡ allowed c && false) same (ground arith), λ e. absurd (ground arith))
is_set-chosen allowed (p ∷ ps) cpus c h =
    step-chosen allowed (range_of p) (chosen allowed ps) (is_listed ps c) cpus c
      (λ l e. is_set-chosen allowed ps l c e) h

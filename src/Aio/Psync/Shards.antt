-- ===== src/Aio/Psync/Shards.antt =====
-- All the shards of one block of the synchronous transfer.
use ascend_hal_sharing_probe.Prelude.{
  ℕ, zero, suc, ◌+◌, ◌*◌, ◌≤◌, ◌≡◌, ◌≢◌, refl, ap, ◌∙◌, sym, Bool, ◌||◌, inl, inr, none, some, [],
  ◌++◌, arith, ◌==◌, Bool-cases, if◌then◌else◌,
}
use mathlib.Core.Path.{subst₂}
use mathlib.Core.List.{append-nil}
use native.Mathlib.Nat.{suc-mul, mul-le-mul_left}
use ascend_hal_sharing_probe.Effects.{Driver, World, pure}
use ascend_hal_sharing_probe.Aio.{Sizes, AioState}
use ascend_hal_sharing_probe.Aio.Psync.{
  chunk, open_for, positions, close_now, one_shard, shards_from,
}
use ascend_hal_sharing_probe.Aio.Psync.Balance.{
  IsHeld, IsOpenFor, none-IsOpenFor, Moved, Moved-trans, moves, Ends, Ends-bind, Ends-map, Tiles,
}
use ascend_hal_sharing_probe.Aio.Psync.Shard.{
  PositionsDone, positions-Ends, OpenDone, open_for-Ends, CloseDone, close_now-Ends,
}

-- The same moves between other bounds and worlds that are equal.
pub Moved-eq :
    (file : ℕ × Bool) (base : ℕ) {a a' b b' : ℕ} (v v' w w' : World AioState)
    → a ≡ a'
    → b ≡ b'
    → moves v.trace ≡ moves w.trace
    → moves v'.trace ≡ moves w'.trace
    → Moved file base a b v v'
    → Moved file base a' b' w w'
Moved-eq file base v v' w w' ea eb ev ew (ms, e, t) =
    (ms, sym ew ∙ e ∙ ap (λ xs. xs ++ ms) ev, subst₂ (λ x y. Tiles file base x y ms) ea eb t)

module _ (d : Driver) (o : Sizes) (dump : Bool) (k : ℕ) (some_bytes : chunk o ≢ 0)
    (whole : k * chunk o ≡ o.slot_bytes) where
  abbrev ShardDone : ℕ → ℕ → World AioState → Unit {0} → World AioState → Type 0
  ShardDone block shard w u w' =
      IsHeld w'
      × (suc shard ≡ o.shards → w'.self.fd ≡ none)
      × IsOpenFor (block, dump) w'
      × Moved (block, dump) (block * o.shards * o.slot_bytes) (shard * o.slot_bytes)
          (suc shard * o.slot_bytes) w w'

  enough_rounds : k ≤ o.slot_bytes
  enough_rounds = omega (arith, whole, mul-le-mul_left {m = 1} {n = chunk o} k (omega arith))

  one_shard-Ends :
      (block shard : ℕ) (w : World AioState)
      → IsHeld w
      → IsOpenFor (block, dump) w
      → Ends (ShardDone block shard w) IsHeld (one_shard d o dump block shard w)
  unfolding one_shard
  one_shard-Ends block shard w held names =
      Ends-bind (OpenDone d o dump block shard w) (ShardDone block shard w) IsHeld _
        (open_for d o dump block w.self.fd w)
        (open_for-Ends d o dump block shard w.self.fd w refl held names)
        λ fd v (is_open, held1, names1, same1).
          Ends-bind (PositionsDone d o dump block shard 0 v) (ShardDone block shard w) IsHeld _
            (positions d o dump o.slot_bytes fd block shard 0 v)
            (positions-Ends d o dump block shard o.slot_bytes k fd 0 v some_bytes
              (omega (arith, whole)) enough_rounds held1 is_open names1)
            λ u x (same2, held2, names2, rest).
              conclude fd v x is_open same1 same2 held2 names2 rest
    where
      conclude :
          (fd : ℕ) (v x : World AioState)
          → v.self.fd ≡ some fd
          → moves v.trace ≡ moves w.trace
          → x.self ≡ v.self
          → IsHeld x
          → IsOpenFor (block, dump) x
          → Moved
              (block, dump)
              (block * o.shards * o.slot_bytes)
              (shard * o.slot_bytes + 0)
              (shard * o.slot_bytes + o.slot_bytes)
              v
              x
          → Ends
              (ShardDone block shard w)
              IsHeld
              ((if dump || suc shard == o.shards then close_now d o dump fd else pure tt) x)
      conclude fd v x is_open same1 same2 held2 names2 rest =
          elim (Bool-cases (dump || suc shard == o.shards)) [
            | inl close ↦ rw close (
                Ends-map (CloseDone d o dump block shard x) (ShardDone block shard w) IsHeld
                  (close_now d o dump fd x)
                  (λ u y (shut, held3, same3). (
                    held3,
                    (λ last. shut),
                    none-IsOpenFor (block, dump) y shut,
                    Moved-eq (block, dump) (block * o.shards * o.slot_bytes) v x w y (omega arith)
                        (omega (arith, suc-mul shard o.slot_bytes)) same1 (sym same3) rest,
                  ))
                  (close_now-Ends d o dump block shard fd x (ap (λ s. s.fd) same2 ∙ is_open) held2))
            | inr keep ↦ rw keep (
              held2,
              (λ last. absurd (ground arith)),
              names2,
              Moved-eq (block, dump) (block * o.shards * o.slot_bytes) v x w x (omega arith)
                  (omega (arith, suc-mul shard o.slot_bytes)) same1 refl rest,
            )
          ]

  abbrev pub ShardsDone : ℕ → ℕ → World AioState → Unit {0} → World AioState → Type 0
  ShardsDone block shard w u w' =
      (w'.self.fd ≡ none)
      × IsHeld w'
      × Moved (block, dump) (block * o.shards * o.slot_bytes) (shard * o.slot_bytes)
          (o.shards * o.slot_bytes) w w'

  pub shards_from-Ends :
      (block left shard : ℕ) (w : World AioState)
      → shard + left ≡ o.shards
      → (left ≡ 0 → w.self.fd ≡ none)
      → IsHeld w
      → IsOpenFor (block, dump) w
      → Ends (ShardsDone block shard w) IsHeld (shards_from d o dump block left shard w)
  unfolding shards_from
  shards_from-Ends block zero shard w e shut held names = (
    shut refl,
    held,
    (
      [],
      sym (append-nil (moves w.trace)),
      ap (λ (s : ℕ). s * o.slot_bytes) (let same : shard ≡ o.shards = omega arith in same),
    ),
  )
  shards_from-Ends block (suc left) shard w e shut held names =
      Ends-bind (ShardDone block shard w) (ShardsDone block shard w) IsHeld _
        (one_shard d o dump block shard w) (one_shard-Ends block shard w held names)
        λ u v (held1, shut1, names1, first).
          Ends-map (ShardsDone block (suc shard) v) (ShardsDone block shard w) IsHeld
            (shards_from d o dump block left (suc shard) v)
            (λ u' x (shut2, held2, rest). (
              shut2,
              held2,
              Moved-trans (block, dump) (block * o.shards * o.slot_bytes) (shard * o.slot_bytes)
                  (suc shard * o.slot_bytes) (o.shards * o.slot_bytes) w v x first rest,
            ))
            (shards_from-Ends block left (suc shard) v (omega arith) (λ last. shut1 (omega arith))
              held1 names1)

-- ===== src/Aio/Psync/Runs.antt =====
-- Whole runs of the synchronous transfer: every descriptor is closed, and a run that returns has
-- moved each byte of each block once.
use ascend_hal_sharing_probe.Prelude.{
  ℕ, zero, suc, ◌*◌, ◌≡◌, ◌≢◌, refl, ap, ◌∙◌, sym, Bool, Option, none, some, List, [], ◌++◌, arith,
}
use mathlib.Core.List.{append-nil, append_assoc}
use ascend_hal_sharing_probe.Effects.{
  Driver, Exception, Outcome, ok, threw, fault, World, close_file, follow, raise, ◌>>◌,
}
use ascend_hal_sharing_probe.Aio.{Sizes, AioState, os, cleaned}
use ascend_hal_sharing_probe.Aio.Psync.{
  chunk, shards_from, close_open, caught, one_block, blocks_from, transfer_all,
}
use ascend_hal_sharing_probe.Aio.Psync.Balance.{
  IsHeld, IsBalanced, holds, opened, closed, Moved, Move, moves, Ends, Ends-bind, Ends-map, Tiles,
  none-IsOpenFor,
}
use ascend_hal_sharing_probe.Aio.Psync.Shard.{after, os-Ends}
use ascend_hal_sharing_probe.Aio.Psync.Shards.{Moved-eq, ShardsDone, shards_from-Ends}

module _ (d : Driver) (o : Sizes) (dump : Bool) (k : ℕ) (some_bytes : chunk o ≢ 0)
    (whole : k * chunk o ≡ o.slot_bytes) where
  -- The file and the block's part of the buffer are covered once.
  abbrev BlockDone : ℕ → World AioState → Unit {0} → World AioState → Type 0
  BlockDone block w u w' =
      IsBalanced w'
      × Moved (block, dump) (block * o.shards * o.slot_bytes) 0 (o.shards * o.slot_bytes) w w'

  close_open-Ends :
      (fd : Option ℕ) (e : Exception) (w : World AioState)
      → w.self.fd ≡ fd
      → IsHeld w
      → Ends {A = Unit {0}} (λ u v. ⊥) IsBalanced ((close_open d o dump fd >> raise e) w)
  unfolding opened closed
  close_open-Ends none e w same held = λ n. omega (arith, held n, ap (holds n) same)
  close_open-Ends (some fd) e w same held =
      noted (os d (close_file fd) w) (
        os-Ends (λ n v. IsBalanced v) IsBalanced d (close_file fd) w (λ n got. shut)
          (λ n got. shut))
    where
      shut : IsBalanced (after d (close_file fd) w)
      shut n = omega (arith, held n, ap (holds n) same)

      noted :
          (r : Outcome ℕ × World AioState)
          → Ends (λ n v. IsBalanced v) IsBalanced r
          → Ends {A = Unit {0}} (λ u v. ⊥) IsBalanced (follow (λ u. raise e) (cleaned r))
      noted (ok n, v) h = h
      noted (threw x, v) h = h
      noted (fault f, v) h = h

  caught-Ends :
      (block : ℕ) (w v : World AioState) (r : Outcome (Unit {0}) × World AioState)
      → moves v.trace ≡ moves w.trace
      → Ends (ShardsDone d o dump k some_bytes whole block 0 v) IsHeld r
      → Ends (BlockDone block w) IsBalanced (caught d o dump r)
  caught-Ends block w v (ok u, x) same (shut, held, moved) = (
    (λ n. omega (arith, held n, ap (holds n) shut)),
    Moved-eq (block, dump) (block * o.shards * o.slot_bytes) v x w x (omega arith) refl same refl
        moved,
  )
  caught-Ends block w v (threw e, x) same held =
      Ends-map (λ u y. ⊥) (BlockDone block w) IsBalanced
        ((close_open d o dump x.self.fd >> raise e) x) (λ u y bad. absurd bad)
        (close_open-Ends x.self.fd e x refl held)
  caught-Ends block w v (fault f, x) same bad = bad

  one_block-Ends :
      (block : ℕ) (w : World AioState)
      → IsBalanced w
      → Ends (BlockDone block w) IsBalanced (one_block d o dump block w)
  unfolding one_block
  one_block-Ends block w even =
      let v = record w { self = record w.self { fd = none } } in
      caught-Ends block w v (shards_from d o dump block o.shards 0 v) refl (
        shards_from-Ends d o dump k some_bytes whole block o.shards 0 v (omega arith) (λ e. refl)
          (λ n. omega (arith, even n)) (none-IsOpenFor (block, dump) v refl))

-- The moves of `left` blocks from `block` on, one block after the other.
abbrev pub EachBlock : Sizes → Bool → ℕ → ℕ → List Move → Type 0
EachBlock o dump zero block ms = ms ≡ []
EachBlock o dump (suc left) block ms =
    (xs : List Move) × (ys : List Move) × (ms ≡ xs ++ ys)
    × Tiles (block, dump) (block * o.shards * o.slot_bytes) 0 (o.shards * o.slot_bytes) xs
    × EachBlock o dump left (suc block) ys

-- Every descriptor is closed, and the run has moved, block by block and in order, every byte of each
-- block's file and of the buffer once.
abbrev pub AllDone : Sizes → Bool → ℕ → ℕ → World AioState → Unit {0} → World AioState → Type 0
AllDone o dump left block w u w' =
    IsBalanced w'
    × (ms : List Move) × (moves w'.trace ≡ moves w.trace ++ ms)
    × EachBlock o dump left block ms

module _ (d : Driver) (o : Sizes) (dump : Bool) (k : ℕ) (some_bytes : chunk o ≢ 0)
    (whole : k * chunk o ≡ o.slot_bytes) where
  blocks_from-Ends :
      (left block : ℕ) (w : World AioState)
      → IsBalanced w
      → Ends (AllDone o dump left block w) IsBalanced (blocks_from d o dump left block w)
  unfolding blocks_from
  blocks_from-Ends zero block w even = (even, [], sym (append-nil (moves w.trace)), refl)
  blocks_from-Ends (suc left) block w even =
      Ends-bind (BlockDone d o dump k some_bytes whole block w) (AllDone o dump (suc left) block w)
        IsBalanced _ (one_block d o dump block w)
        (one_block-Ends d o dump k some_bytes whole block w even)
        λ u v (even', (xs, e, tiles)).
          Ends-map (AllDone o dump left (suc block) v) (AllDone o dump (suc left) block w)
            IsBalanced (blocks_from d o dump left (suc block) v)
            (λ u' x (even'', ys, f, rest).
              (even'', xs ++ ys, f ∙ rw (e, append_assoc) refl, (xs, ys, refl, tiles, rest)))
            (blocks_from-Ends left (suc block) v even')

  -- Where the chunk is not empty and divides the slot, the synchronous transfer ends: it returns or
  -- throws, with every descriptor closed as often as it was opened, whatever the calls answer. If it
  -- returns, its moves go block by block; each is a complete `pwrite`, or `pread` where it does not
  -- dump, on a descriptor that was opened for the block's own file and not closed since, and together
  -- they cover the bytes of that file, and those of the block in the buffer, in order and without a gap.
  pub transfer_all-Ends :
      (w : World AioState)
      → IsBalanced w
      → Ends (AllDone o dump o.blocks 0 w) IsBalanced (transfer_all d o dump w)
  unfolding transfer_all
  transfer_all-Ends w even = blocks_from-Ends o.blocks 0 w even

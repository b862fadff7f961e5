-- ===== src/Aio/Psync/Shard.antt =====
-- One shard of the synchronous transfer: its descriptor and its positions.
use ascend_hal_sharing_probe.Prelude.{
  ℕ, zero, suc, ◌+◌, ◌*◌, ◌≤◌, ◌≡◌, ◌≢◌, refl, ap, ◌∙◌, sym, ℤ, pos, negsuc, Bool, true, false, inl,
  inr, Option, none, some, [], ◌∷◌, arith, ◌==◌, ltb, Bool-cases,
}
use mathlib.Core.List.{append-nil}
use native.Mathlib.Nat.{suc-mul}
use ascend_hal_sharing_probe.Effects.{Call, Driver, World, open_file, transfer, close_file}
use ascend_hal_sharing_probe.Aio.{Sizes, AioState, os, non_negative}
pub use ascend_hal_sharing_probe.Effects.Outcomes.{after}
use ascend_hal_sharing_probe.Aio.Psync.{chunk, open_for, positions, close_now}
use ascend_hal_sharing_probe.Aio.Psync.Balance.{
  IsHeld, IsOpenFor, file_of, Moved, Moved-trans, moves, opened, closed, holds, Ends, Ends-bind,
  Ends-map,
}

non_negative-Ends :
    (P : ℕ → World AioState → Type 0) (Q : World AioState → Type 0) (d : Driver) (x : ℤ)
    (w : World AioState)
    → ((n : ℕ) → x ≡ pos n → P n w)
    → ((n : ℕ) → x ≡ negsuc n → Q w)
    → Ends P Q (non_negative d x w)
non_negative-Ends P Q d (pos n) w p q = p n refl
non_negative-Ends P Q d (negsuc n) w p q = q n refl

pub os-Ends :
    (P : ℕ → World AioState → Type 0) (Q : World AioState → Type 0) (d : Driver) (c : Call)
    (w : World AioState)
    → ((n : ℕ) → (d w.trace c).ret ≡ pos n → P n (after d c w))
    → ((n : ℕ) → (d w.trace c).ret ≡ negsuc n → Q (after d c w))
    → Ends P Q (os d c w)
os-Ends P Q d c w p q = non_negative-Ends P Q d (d w.trace c).ret (after d c w) p q

module _ (d : Driver) (o : Sizes) (dump : Bool) (block shard : ℕ) where
  abbrev pub file : ℕ × Bool
  file = (block, dump)

  abbrev pub base : ℕ
  base = block * o.shards * o.slot_bytes

  transfer-IsHeld :
      (fd addr bytes offset : ℕ) (w : World AioState)
      → IsHeld w
      → IsHeld (after d (transfer dump fd addr bytes offset) w)
  unfolding opened closed
  transfer-IsHeld fd addr bytes offset w held n = omega (arith, held n)

  abbrev pub PositionsDone : ℕ → World AioState → Unit {0} → World AioState → Type 0
  PositionsDone at_byte w u w' =
      (w'.self ≡ w.self)
      × IsHeld w'
      × IsOpenFor file w'
      × Moved file base (shard * o.slot_bytes + at_byte) (shard * o.slot_bytes + o.slot_bytes) w w'

  none_left :
      (at_byte : ℕ) (w : World AioState)
      → at_byte ≡ o.slot_bytes
      → IsHeld w
      → IsOpenFor file w
      → PositionsDone at_byte w tt w
  none_left at_byte w e held names = (
    refl,
    held,
    names,
    ([], sym (append-nil (moves w.trace)), ap (λ (b : ℕ). shard * o.slot_bytes + b) e),
  )

  -- The chunks that are left, `k` of them, go out in order.
  pub positions-Ends :
      (rounds k fd at_byte : ℕ) (w : World AioState)
      → chunk o ≢ 0
      → at_byte + k * chunk o ≡ o.slot_bytes
      → k ≤ rounds
      → IsHeld w
      → w.self.fd ≡ some fd
      → IsOpenFor file w
      → Ends (PositionsDone at_byte w) IsHeld (positions d o dump rounds fd block shard at_byte w)
  unfolding positions moves file_of
  positions-Ends zero zero fd at_byte w some_bytes e enough held is_open names =
      let last : ltb at_byte o.slot_bytes ≡ false = ground arith in
      rw last (none_left at_byte w (omega arith) held names)
  positions-Ends zero (suc k) fd at_byte w some_bytes e enough held is_open names =
      absurd (omega arith)
  positions-Ends (suc rounds) zero fd at_byte w some_bytes e enough held is_open names =
      let last : ltb at_byte o.slot_bytes ≡ false = ground arith in
      rw last (none_left at_byte w (omega arith) held names)
  positions-Ends (suc rounds) (suc k) fd at_byte w some_bytes e enough held is_open names =
      let step : at_byte + chunk o + k * chunk o ≡ o.slot_bytes =
        omega (arith, suc-mul k (chunk o)) in
      let more : ltb at_byte o.slot_bytes ≡ true = ground arith in
      let offset = shard * o.slot_bytes + at_byte in
      let c = transfer dump fd (base + offset) (chunk o) offset in
      let w1 = after d c w in
      let held1 = transfer-IsHeld fd (base + offset) (chunk o) offset w held in
      rw more (
        Ends-bind (λ n v. ((d w.trace c).ret ≡ pos n) × (v ≡ w1)) (PositionsDone at_byte w) IsHeld _
          (os d c w)
          (os-Ends (λ n v. ((d w.trace c).ret ≡ pos n) × (v ≡ w1)) IsHeld d c w
            (λ n got. (got, refl)) (λ n got. held1))
          (λ n v (got, here). rw here (elim (Bool-cases (n == chunk o)) [
            | inl full ↦ rw full (
                Ends-map (PositionsDone (at_byte + chunk o) w1) (PositionsDone at_byte w) IsHeld
                  (positions d o dump rounds fd block shard (at_byte + chunk o) w1)
                  (λ u w' (same, held', names', rest). (
                    same,
                    held',
                    names',
                    Moved-trans file base (shard * o.slot_bytes + at_byte)
                        (shard * o.slot_bytes + (at_byte + chunk o))
                        (shard * o.slot_bytes + o.slot_bytes) w w1 w'
                        (
                          record {
                            file = file_of fd w.trace;
                            write = dump;
                            addr = base + offset;
                            bytes = chunk o;
                            offset = offset;
                            answer = (d w.trace c).ret;
                          }
                              ∷ [],
                          refl,
                          ((names fd is_open, refl, complete n got full), refl, refl, omega arith),
                        )
                        rest,
                  ))
                  (positions-Ends rounds k fd (at_byte + chunk o) w1 some_bytes step (omega arith)
                    held1 is_open names))
            | inr short ↦ rw short held1
          ])))
    where
      complete :
          (n : ℕ)
          → (d w.trace (
              transfer dump fd
                (base + (shard * o.slot_bytes + at_byte))
                (chunk o)
                (shard * o.slot_bytes + at_byte))).ret
            ≡ pos n
          → (n == chunk o) ≡ true
          → (d w.trace (
              transfer dump fd
                (base + (shard * o.slot_bytes + at_byte))
                (chunk o)
                (shard * o.slot_bytes + at_byte))).ret
            ≡ pos (chunk o)
      complete n got full = let same : n ≡ chunk o = ground arith in got ∙ ap pos same

  -- `fd` is open afterwards, and nothing has moved.
  abbrev pub OpenDone : World AioState → ℕ → World AioState → Type 0
  OpenDone w fd w' =
      (w'.self.fd ≡ some fd) × IsHeld w' × IsOpenFor file w' × (moves w'.trace ≡ moves w.trace)

  pub open_for-Ends :
      (before : Option ℕ) (w : World AioState)
      → w.self.fd ≡ before
      → IsHeld w
      → IsOpenFor file w
      → Ends (OpenDone w) IsHeld (open_for d o dump block before w)
  unfolding opened closed moves file_of
  open_for-Ends (some fd) w e held names = (e, held, names, refl)
  open_for-Ends none w e held names =
      let c = open_file block dump in
      Ends-bind (λ n v. ((d w.trace c).ret ≡ pos n) × (v ≡ after d c w)) (OpenDone w) IsHeld _
        (os d c w)
        (os-Ends (λ n v. ((d w.trace c).ret ≡ pos n) × (v ≡ after d c w)) IsHeld d c w
          (λ n got. (got, refl)) (λ n got i. rw got (omega (arith, held i, ap (holds i) e))))
        (λ n v (got, here). rw here (
          refl,
          (λ i. rw got (omega (arith, held i, ap (holds i) e))),
          (λ i same. rw got (ground (arith, same))),
          append-nil (moves w.trace),
        ))

  abbrev pub CloseDone : World AioState → Unit {0} → World AioState → Type 0
  CloseDone w u w' = (w'.self.fd ≡ none) × IsHeld w' × (moves w'.trace ≡ moves w.trace)

  pub close_now-Ends :
      (fd : ℕ) (w : World AioState)
      → w.self.fd ≡ some fd
      → IsHeld w
      → Ends (CloseDone w) IsHeld (close_now d o dump fd w)
  unfolding opened closed moves
  close_now-Ends fd w e held =
      let c = close_file fd in
      let v = record w { self = record w.self { fd = none } } in
      let held' : IsHeld (after d c v) = λ i. omega (arith, held i, ap (holds i) e) in
      Ends-bind (λ n u. u ≡ after d c v) (CloseDone w) IsHeld _ (os d c v)
        (os-Ends (λ n u. u ≡ after d c v) IsHeld d c v (λ n got. refl) (λ n got. held'))
        (λ n u here. rw here (refl, held', append-nil (moves w.trace)))

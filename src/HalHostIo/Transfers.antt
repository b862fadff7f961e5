-- ===== src/HalHostIo/Transfers.antt =====
-- The transfers of hal_host_io cover the buffer and the file.
use ascend_hal_sharing_probe.Prelude.{
  ℕ, zero, suc, ◌+◌, ◌*◌, ◌/◌, ◌^◌, ◌≤◌, ◌≡◌, refl, ap, subst, ◌∙◌, Bool, true, false, not, ◌&&◌,
  [], ◌∷◌, ltb, leb, ◌==◌, if◌then◌else◌, arith,
}
use ascend_hal_sharing_probe.Effects.{
  Call, Driver, Reply, Trace, World, positioned, pure, crash, stalled,
}
use ascend_hal_sharing_probe.Effects.Outcomes.{Ends, Ends-bind, Ends-if}
use ascend_hal_sharing_probe.Common.Retry.{retried, is_interrupted, IsPatient, Tried, retried-Tried}
use ascend_hal_sharing_probe.Common.Pattern.{Memory}
use ascend_hal_sharing_probe.HalHostIo.{HostIo, is_whole, piece, transfer_from, transfer}

-- A complete positioned transfer in one direction, that goes on where the ones before it have ended,
-- in the file and in the buffer alike, and is within the kernel's limit for one call.
abbrev pub extends_to : Bool → ℕ → ℕ → Call → Reply → Bool
extends_to true buffer at (positioned true fd addr bytes offset) r =
    (addr == buffer + at && offset == at) && (leb bytes (2 ^ 30) && is_whole bytes r.ret)
extends_to false buffer at (positioned false fd addr bytes offset) r =
    (addr == buffer + at && offset == at) && (leb bytes (2 ^ 30) && is_whole bytes r.ret)
extends_to _ buffer at _ r = false

abbrev pub bytes_moved : Call → ℕ
bytes_moved (positioned write fd addr bytes offset) = bytes
bytes_moved _ = 0

-- How far the transfers in one direction reach from the buffer's start, without a gap.
unfoldable pub reach : Bool → ℕ → Trace → ℕ
reach write buffer [] = 0
reach write buffer ((c, r) ∷ t) =
    let at = reach write buffer t in
    if extends_to write buffer at c r then at + bytes_moved c else at

reach-whole :
    (write : Bool) (buffer at fd bytes : ℕ) (r : Reply) (t : Trace)
    → reach write buffer t ≡ at
    → bytes ≤ 2 ^ 30
    → is_whole bytes r.ret ≡ true
    → reach write buffer ((positioned write fd (buffer + at) bytes at, r) ∷ t) ≡ at + bytes
unfolding reach
reach-whole true buffer at fd bytes r t e small whole = rw (e, whole) (ground arith)
reach-whole false buffer at fd bytes r t e small whole = rw (e, whole) (ground arith)

reach-interrupted :
    (write : Bool) (buffer at fd bytes : ℕ) (r : Reply) (t : Trace)
    → is_interrupted r ≡ true
    → reach write buffer ((positioned write fd (buffer + at) bytes at, r) ∷ t)
      ≡ reach write buffer t
unfolding reach
reach-interrupted true buffer at fd bytes r t h = ground arith
reach-interrupted false buffer at fd bytes r t h = ground arith

reach-other :
    (write : Bool) (buffer at fd bytes : ℕ) (r : Reply) (t : Trace)
    → reach (not write) buffer ((positioned write fd (buffer + at) bytes at, r) ∷ t)
      ≡ reach (not write) buffer t
unfolding reach
reach-other true buffer at fd bytes r t = refl
reach-other false buffer at fd bytes r t = refl

-- One direction reaches so far, the other so far.
pub record Reaches (write : Bool) (buffer near far : ℕ) (t : Trace) : Type 0 where
  pub this_way : reach write buffer t ≡ near
  pub other_way : reach (not write) buffer t ≡ far

-- A transfer that succeeds has reached the end, and in any case the other direction is as it was.
abbrev pub Transferred : Bool → ℕ → ℕ → ℕ → Bool → World HostIo → Type 0
Transferred write buffer size far passed v =
    (passed ≡ true → reach write buffer v.trace ≡ size) × (reach (not write) buffer v.trace ≡ far)

module _ (d : Driver) (mem : Memory) (rounds : ℕ) (patient : IsPatient d rounds) where
  module _ (write : Bool) (buffer size fd far : ℕ) where
    transfer_from-reach :
        (left offset : ℕ) (w : World HostIo)
        → offset ≤ size
        → size ≤ offset + left * 2 ^ 30
        → Reaches write buffer offset far w.trace
        → Ends
            (Transferred write buffer size far)
            (λ v. ⊥)
            (transfer_from d mem rounds buffer size left write fd offset w)
    unfolding transfer_from
    transfer_from-reach zero offset w below enough at =
        Ends-if (Transferred write buffer size far) (λ v. ⊥) (ltb offset size) (crash stalled)
          (pure true) w (λ more. absurd (ground arith))
          (λ over. ((λ passed. at.this_way ∙ omega arith), at.other_way))
    transfer_from-reach (suc left) offset w below enough at =
        let n = piece size offset in
        let c = positioned write fd (buffer + offset) n offset in
        let other : (r : Reply) (v : World HostIo)
            → Tried d c (Reaches write buffer offset far) w.self r v
            → reach (not write) buffer v.trace ≡ far =
          λ r v tried.
            ap (reach (not write) buffer) tried.trace
            ∙ reach-other write buffer offset fd n (d tried.before c) tried.before
            ∙ tried.kept.other_way in
        Ends-if (Transferred write buffer size far) (λ v. ⊥) (ltb offset size) _ (pure true) w
          (λ more.
            Ends-bind (Tried d c (Reaches write buffer offset far) w.self)
              (Transferred write buffer size far) (λ v. ⊥) _ (retried d rounds c w)
              (retried-Tried d c (Reaches write buffer offset far) rounds w
                (λ t stop at'. record {
                  this_way =
                      reach-interrupted write buffer offset fd n (d t c) t stop ∙ at'.this_way;
                  other_way = reach-other write buffer offset fd n (d t c) t ∙ at'.other_way;
                })
                (patient c w.trace) at)
              (λ r v tried.
                Ends-if (Transferred write buffer size far) (λ v. ⊥) (is_whole n r.ret) _
                  (pure false) v
                  (λ whole.
                    transfer_from-reach left (offset + n) v (omega arith) (omega arith) record {
                      this_way =
                          ap (reach write buffer) tried.trace
                          ∙ reach-whole write buffer offset fd n (d tried.before c) tried.before
                              tried.kept.this_way (omega arith)
                              (subst (λ (x : Reply). is_whole n x.ret ≡ true) tried.reply whole);
                      other_way = other r v tried;
                    })
                  (λ short. ((λ passed. absurd (ground arith)), other r v tried))))
          (λ over. ((λ passed. at.this_way ∙ ground arith), at.other_way))

    pub transfer-reach :
        (w : World HostIo)
        → Reaches write buffer 0 far w.trace
        → Ends
            (Transferred write buffer size far)
            (λ v. ⊥)
            (transfer d mem rounds buffer size fd write w)
    transfer-reach w at =
        transfer_from-reach (suc (size / 2 ^ 30)) 0 w (omega arith) (omega arith) at

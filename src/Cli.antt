-- ===== src/Cli.antt =====
-- cli.hpp: words over a stream socket, and the options of the share programs.
pub mod Words
use ascend_hal_sharing_probe.Effects.Ledger.{Resource}
use ascend_hal_sharing_probe.Prelude.{
  ℕ, zero, suc, ◌+◌, ◌-◌, ◌*◌, ◌/◌, ◌%◌, ◌^◌, ◌≤◌, ◌≡◌, refl, ℤ, pos, negsuc, Bool, true, false,
  Option, none, some, List, [], ◌∷◌, ltb, ◌==◌, if◌then◌else◌, arith, size_mod, Bool-cases, inl,
  inr,
}
use ascend_hal_sharing_probe.Status.{plain}
use ascend_hal_sharing_probe.Effects.{
  Driver, Exception, runtime_error, World, M, send_bytes, receive_bytes, pure, raise, crash,
  stalled, ◌>>=◌,
}
use ascend_hal_sharing_probe.Common.{Allocation, failed_check}
use ascend_hal_sharing_probe.Common.Books.{Keeps}
use ascend_hal_sharing_probe.Common.Rules.{Kept, Kept-IsStable, Meets-Keeps}
use ascend_hal_sharing_probe.Effects.Meets.{
  Meets, IsStable, Meets-bind, Meets-if, Meets-pure, Meets-raise,
}
use ascend_hal_sharing_probe.Common.Retry.{retried, retried-Meets, IsPatient}

-- The bytes that a call has moved; none when it has failed.
abbrev pub moved : ℤ → ℕ
moved (pos n) = n
moved (negsuc n) = 0

abbrev pub ipc_failed : Exception
ipc_failed = runtime_error (plain "IPC send / peer closed")

-- `rounds` bounds the interruptions of a call.
module _ {S : Type 0} (d : Driver) (rounds : ℕ) where
  -- The loop over the bytes that are left, with a bound on its rounds.
  unfoldable pub send_from : ℕ → ℕ → ℕ → ℕ → M S (Unit {0})
  send_from zero fd value sent = if ltb sent 8 then crash stalled else pure tt
  send_from (suc k) fd value sent =
      if ltb sent 8
      then (do
        r ← retried d rounds (send_bytes fd (value / 256 ^ sent) (8 - sent))
        if moved r.ret == 0 then raise ipc_failed else send_from k fd value (sent + moved r.ret))
      else pure tt

  abbrev pub send_word : ℕ → ℕ → M S (Unit {0})
  send_word fd value = send_from 8 fd value 0

  -- The value so far has the bytes received.
  unfoldable pub receive_from : ℕ → ℕ → ℕ → ℕ → M S ℕ
  receive_from zero fd value received = if ltb received 8 then crash stalled else pure value
  receive_from (suc k) fd value received =
      if ltb received 8
      then (do
        r ← retried d rounds (receive_bytes fd (8 - received))
        if moved r.ret == 0
            then raise ipc_failed
            else receive_from k fd ((value + r.out % 256 ^ moved r.ret * 256 ^ received) % size_mod)
                (received + moved r.ret))
      else pure value

  abbrev pub receive_word : ℕ → M S ℕ
  receive_word fd = receive_from 8 fd 0 0

  -- `check(receive_word(fd), name)`
  abbrev pub await_zero : ℕ → M S (Unit {0})
  await_zero fd = do v ← receive_word fd; if v == 0 then pure tt else raise failed_check

module _ {S : Type 0} {P : World S → Type 0} (d : Driver) (rounds : ℕ)
    (patient : IsPatient d rounds) (stable : IsStable d P) where
  pub send_from-Meets :
      (k fd value sent : ℕ) → 8 ≤ sent + k → Meets P P P (send_from d rounds k fd value sent)
  unfolding send_from
  send_from-Meets zero fd value sent enough = elim (Bool-cases (ltb sent 8)) [
    | inl more ↦ absurd (ground arith)
    | inr over ↦ rw over (Meets-pure tt)
  ]
  send_from-Meets (suc k) fd value sent enough =
      Meets-if (ltb sent 8)
        (Meets-bind
          (retried-Meets P d (send_bytes fd (value / 256 ^ sent) (8 - sent)) (stable _ refl) rounds
            patient)
          λ r. elim (Bool-cases (moved r.ret == 0)) [
            | inl none_moved ↦ rw none_moved (Meets-raise ipc_failed (λ w p. p))
            | inr some_moved ↦
                rw some_moved (send_from-Meets k fd value (sent + moved r.ret) (ground arith))
          ])
        (Meets-pure tt)

  pub receive_from-Meets :
      (k fd value received : ℕ)
      → 8 ≤ received + k
      → Meets P P P (receive_from d rounds k fd value received)
  unfolding receive_from
  receive_from-Meets zero fd value received enough = elim (Bool-cases (ltb received 8)) [
    | inl more ↦ absurd (ground arith)
    | inr over ↦ rw over (Meets-pure value)
  ]
  receive_from-Meets (suc k) fd value received enough =
      Meets-if (ltb received 8)
        (Meets-bind
          (retried-Meets P d (receive_bytes fd (8 - received)) (stable _ refl) rounds patient)
          λ r. elim (Bool-cases (moved r.ret == 0)) [
            | inl none_moved ↦ rw none_moved (Meets-raise ipc_failed (λ w p. p))
            | inr some_moved ↦ rw some_moved (
                receive_from-Meets k fd
                  ((value + r.out % 256 ^ moved r.ret * 256 ^ received) % size_mod)
                  (received + moved r.ret) (ground arith))
          ])
        (Meets-pure value)

  pub send_word-Meets : (fd value : ℕ) → Meets P P P (send_word d rounds fd value)
  send_word-Meets fd value = send_from-Meets 8 fd value 0 (omega arith)

  pub receive_word-Meets : (fd : ℕ) → Meets P P P (receive_word d rounds fd)
  receive_word-Meets fd = receive_from-Meets 8 fd 0 0 (omega arith)

  pub await_zero-Meets : (fd : ℕ) → Meets P P P (await_zero d rounds fd)
  await_zero-Meets fd =
      Meets-bind (receive_word-Meets fd)
        λ v. Meets-if (v == 0) (Meets-pure tt) (Meets-raise failed_check (λ w p. p))

module _ {S : Type 0} {holds : Resource → S → ℕ} {P : S → Type 0} (d : Driver) (rounds : ℕ)
    (patient : IsPatient d rounds) (fd : ℕ) where
  pub send_word-Keeps : (value : ℕ) → Keeps holds P P (send_word d rounds fd value)
  send_word-Keeps value =
      Meets-Keeps holds P (send_word-Meets d rounds patient (Kept-IsStable holds P d) fd value)

  pub receive_word-Keeps : Keeps holds P P (receive_word d rounds fd)
  receive_word-Keeps =
      Meets-Keeps holds P (receive_word-Meets d rounds patient (Kept-IsStable holds P d) fd)

  pub await_zero-Keeps : Keeps holds P P (await_zero d rounds fd)
  await_zero-Keeps =
      Meets-Keeps holds P (await_zero-Meets d rounds patient (Kept-IsStable holds P d) fd)

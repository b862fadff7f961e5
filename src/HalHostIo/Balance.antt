-- ===== src/HalHostIo/Balance.antt =====
-- A run of hal_host_io gives back what it obtains.
use ascend_hal_sharing_probe.Prelude.{
  ℕ, zero, suc, ◌+◌, ◌*◌, ◌/◌, ◌^◌, ◌≤◌, refl, ℤ, pos, negsuc, Bool, true, false, ◌&&◌, is_zero,
  List, [], ◌∷◌, arith, ltb, if◌then◌else◌, Bool-cases, inl, inr,
}
use ascend_hal_sharing_probe.Effects.{
  Driver, Outcome, ok, threw, fault, World, normal, acl_init, acl_finalize, set_device,
  reset_device, set_bytes, create_file, close_file, unlink_file, positioned,
}
use ascend_hal_sharing_probe.Effects.Outcomes.{Ends, Ends-bind, Ends-map}
use ascend_hal_sharing_probe.HalMemory.{host_memory_prop}
use ascend_hal_sharing_probe.HalHostIo.Arguments.{
  Parsed, help, invalid, accepted, default_arguments, begin, parse, main,
}
use ascend_hal_sharing_probe.Text.{Line}
use ascend_hal_sharing_probe.Effects.Ledger.{Resource, address, memory, mapping}
use ascend_hal_sharing_probe.DataStrategy.Accounts.{held_all}
use ascend_hal_sharing_probe.Common.{Allocation, destroy}
use ascend_hal_sharing_probe.Common.Books.{IsKept, Keeps, IsPlace}
use ascend_hal_sharing_probe.Common.Rules.{
  Keeps-bind, Keeps-if, Keeps-pure, Keeps-gets, Keeps-call, Keeps-check, Keeps-modify,
}
use ascend_hal_sharing_probe.Common.Evens.{IsPlain, IsBlank, IsMapped}
use ascend_hal_sharing_probe.Common.Places.{At, reserve-Keeps, create-Keeps, map_whole-Keeps}
use ascend_hal_sharing_probe.Common.Retry.{IsPatient, retried-Keeps}
use ascend_hal_sharing_probe.Common.Pattern.{Memory}
use ascend_hal_sharing_probe.Common.Teardown.{
  IsReturned, Never, Left, kept-Outstanding, destroy-Outstanding, if_cleanup-Left,
}
use ascend_hal_sharing_probe.HalHostIo.{
  HostIo, host, note_failure, is_whole, piece, transfer_from, transfer, compare_bytes,
  write_then_read, tested, test_io, attempt, caught, finish, run_test,
}

abbrev pub holds : Resource → HostIo → ℕ
holds x s = held_all x (s.host ∷ [])

pub host-IsPlace : IsPlace holds host
unfolding held_all
host-IsPlace = record { got = λ a s. refl; moved = λ x a s. omega arith }

-- The result is an exit code.
abbrev pub IsCode : HostIo → Type 0
IsCode s = s.result ≤ 1

noted : (s : HostIo) → IsCode s → IsCode (note_failure s)
noted s h = omega arith

abbrev pub Stage : (Allocation → Type 0) → HostIo → Type 0
Stage A = At host host-IsPlace A IsCode

code : (passed : Bool) → (if passed then 0 else 1) ≤ 1
code true = omega arith
code false = omega arith

-- A blank allocation leaves nothing to give back.
nothing : (w : World HostIo) → IsKept holds w → IsBlank w.self.host → IsReturned w.trace
unfolding held_all
nothing w kept (a, h, m) (address n) real = ground (arith, kept (address n) real)
nothing w kept (a, h, m) (memory n) real = ground (arith, kept (memory n) real)
nothing w kept (a, h, m) (mapping n) real = ground (arith, kept (mapping n) real)

-- The process is over with an exit code, and nothing is left to give back.
abbrev pub Over : ℕ → World HostIo → Type 0
Over code v = IsReturned v.trace × (code ≤ 1)

-- The program is over: 0 or 1 for the test, 2 for bad arguments.
abbrev pub Done : ℕ → World HostIo → Type 0
Done code v = IsReturned v.trace × (code ≤ 2)

module _ (d : Driver) (mem : Memory) (rounds : ℕ) (plain : IsPlain d)
    (patient : IsPatient d rounds) where
  module _ (P : HostIo → Type 0) (buffer size : ℕ) where
    -- The loop does not run out of its rounds.
    transfer_from-Keeps :
        (left : ℕ) (write : Bool) (fd offset : ℕ)
        → size ≤ offset + left * 2 ^ 30
        → Keeps holds P P (transfer_from d mem rounds buffer size left write fd offset)
    unfolding transfer_from
    transfer_from-Keeps zero write fd offset enough = elim (Bool-cases (ltb offset size)) [
      | inl more ↦ absurd (ground arith)
      | inr over ↦ rw over (Keeps-pure true)
    ]
    transfer_from-Keeps (suc left) write fd offset enough =
        Keeps-if (ltb offset size)
          (Keeps-bind
            (retried-Keeps holds P d
              (positioned write fd (buffer + offset) (piece size offset) offset) refl rounds
              patient)
            λ r.
              Keeps-if (is_whole (piece size offset) r.ret)
                (transfer_from-Keeps left write fd (offset + piece size offset) (omega arith))
                (Keeps-pure false))
          (Keeps-pure true)

    transfer-Keeps :
        (fd : ℕ) (write : Bool) → Keeps holds P P (transfer d mem rounds buffer size fd write)
    transfer-Keeps fd write = transfer_from-Keeps (suc (size / 2 ^ 30)) write fd 0 (omega arith)

    compare_bytes-Keeps : Keeps holds P P (compare_bytes d mem rounds buffer size)
    compare_bytes-Keeps = record { ends = λ w kept p. (kept, p) }

    write_then_read-Keeps : (fd : ℕ) → Keeps holds P P (write_then_read d mem rounds buffer size fd)
    write_then_read-Keeps fd = Keeps-bind (Keeps-call d (set_bytes buffer 65 size) refl) λ r.
        Keeps-bind (transfer-Keeps fd true) λ written.
          Keeps-if written
            (Keeps-bind (Keeps-call d (set_bytes buffer 0 size) refl) λ r.
              Keeps-bind (transfer-Keeps fd false)
                λ was_read. Keeps-if was_read compare_bytes-Keeps (Keeps-pure false))
            (Keeps-pure false)

    tested-Keeps : (ret : ℤ) → Keeps holds P P (tested d mem rounds buffer size ret)
    tested-Keeps (negsuc n) = Keeps-pure false
    tested-Keeps (pos fd) = Keeps-bind (write_then_read-Keeps fd) λ passed.
        Keeps-bind (Keeps-call d (close_file fd) refl) λ closed.
          Keeps-bind (Keeps-call d (unlink_file fd) refl)
            λ gone. Keeps-pure (passed && (is_zero closed.ret && is_zero gone.ret))

    test_io-Keeps : Keeps holds P P (test_io d mem rounds buffer size)
    unfolding test_io
    test_io-Keeps = Keeps-bind (Keeps-call d (create_file true) refl) λ r. tested-Keeps r.ret

  module _ (size : ℕ) where
    attempt-Keeps : Keeps holds (Stage IsBlank) IsCode (attempt d mem rounds size)
    unfolding attempt
    attempt-Keeps =
        Keeps-bind
          (Keeps-bind (Keeps-check d acl_init refl) λ n.
            Keeps-bind
              (Keeps-modify {Q = Stage IsBlank} (λ s. record s { initialized = true }) (λ x s. refl)
                (λ s h. h))
              λ u. Keeps-bind (Keeps-check d (set_device (pos 0)) refl) λ n.
                Keeps-bind
                  (Keeps-modify {Q = Stage IsBlank} (λ s. record s { device_set = true })
                    (λ x s. refl) (λ s h. h))
                  λ u. Keeps-bind (reserve-Keeps host host-IsPlace d IsCode size (λ a s h. h)) λ n.
                    Keeps-bind
                      (create-Keeps host host-IsPlace d IsCode size (host_memory_prop normal) plain
                        (λ a s h. h))
                      λ n. map_whole-Keeps host host-IsPlace d IsCode size (λ a s h. h))
          λ u. Keeps-bind (Keeps-gets (λ s. s.host.addr)) λ buffer.
            Keeps-bind (test_io-Keeps (Stage IsMapped) buffer size) λ passed.
              Keeps-modify (λ s. record s { result = if passed then 0 else 1 }) (λ x s. refl)
                (λ s h. code passed)

    finish-Over :
        (w : World HostIo)
        → IsKept holds w
        → IsCode w.self
        → Ends Over Never (finish d mem rounds size w)
    unfolding finish
    finish-Over w kept code =
        let c = reset_device (pos 0) in
        Ends-bind (Left IsCode []) Over Never _ (destroy d note_failure w.self.host w)
          (destroy-Outstanding d note_failure IsCode noted w.self.host [] w
            (kept-Outstanding holds (w.self.host ∷ []) w (λ x. refl) kept) code)
          λ u y h.
            Ends-bind (Left IsCode []) Over Never _ _
              (if_cleanup-Left d note_failure IsCode noted w.self.device_set c [] y refl h)
              λ u' x h'.
                Ends-bind (Left IsCode []) Over Never _ _
                  (if_cleanup-Left d note_failure IsCode noted w.self.initialized acl_finalize [] x
                    refl h')
                  λ u'' z h''. h''

    caught-IsKept :
        (r : Outcome (Unit {0}) × World HostIo)
        → Ends (λ a v. IsKept holds v × IsCode v.self) (IsKept holds) r
        → Ends (λ a v. IsKept holds v × IsCode v.self) Never (caught d mem rounds size r)
    caught-IsKept (ok a, w) h = h
    caught-IsKept (threw e, w) h = (h, omega arith)
    caught-IsKept (fault f, w) h = h

    pub run_test-Over :
        (w : World HostIo)
        → IsKept holds w
        → IsBlank w.self.host
        → IsCode w.self
        → Ends Over Never (run_test d mem rounds size w)
    unfolding run_test
    run_test-Over w kept blank code =
        Ends-bind (λ u v. IsKept holds v × IsCode v.self) Over Never _ _
          (caught-IsKept _ (attempt-Keeps.ends w kept (blank, code)))
          λ u v (h, code'). finish-Over v h code'

  begin-Done :
      (p : Parsed) (w : World HostIo)
      → IsKept holds w
      → IsBlank w.self.host
      → IsCode w.self
      → Ends Done Never (begin d mem rounds p w)
  begin-Done help w kept blank code = (nothing w kept blank, omega arith)
  begin-Done invalid w kept blank code = (nothing w kept blank, omega arith)
  begin-Done (accepted o) w kept blank code =
      Ends-map Over Done Never (run_test d mem rounds o.buffer_size w)
        (λ code v (h, small). (h, omega arith)) (run_test-Over o.buffer_size w kept blank code)

  -- With a driver that leaves the handle null when a creation fails, and interrupts no call more often
  -- in a row than the rounds allow, the program started with nothing obtained ends with an exit code of
  -- at most 2 and no exception, whatever the arguments, the driver, the file and the memory are: each
  -- address, handle and mapping has been given back, or the driver has refused to take it, and none has
  -- been given back more often than obtained.
  pub main-Done :
      (words : List Line) (w : World HostIo)
      → IsKept holds w
      → IsBlank w.self.host
      → IsCode w.self
      → Ends Done Never (main d mem rounds words w)
  unfolding main
  main-Done words w = begin-Done (parse words default_arguments) w

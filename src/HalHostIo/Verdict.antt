-- ===== src/HalHostIo/Verdict.antt =====
-- The verdict of the test of hal_host_io.
use ascend_hal_sharing_probe.Prelude.{ℕ, ◌<◌, ◌≡◌, ℤ, pos, negsuc, Bool, true, false, ◌∷◌}
use ascend_hal_sharing_probe.Effects.{Driver, Reply, Trace, World, close_file, unlink_file}
use ascend_hal_sharing_probe.Common.Retry.{IsPatient}
use ascend_hal_sharing_probe.Common.Pattern.{Memory}
use ascend_hal_sharing_probe.HalHostIo.{HostIo}
use ascend_hal_sharing_probe.HalHostIo.Transfers.{reach}

-- The whole buffer was written to the file and read back, without a gap, and after that each of its
-- bytes is 'A'.
pub record IsVerified (mem : Memory) (buffer size : ℕ) (t : Trace) : Type 0 where
  pub written : reach true buffer t ≡ size
  pub read_back : reach false buffer t ≡ size
  pub bytes : (i : ℕ) → i < size → mem t buffer i ≡ 65

-- The test of an open file ends by closing and unlinking it.
pub record Complete (mem : Memory) (buffer size fd : ℕ) (passed : Bool) (v : World HostIo)
    : Type 0 where
  pub before : Trace
  pub closed : Reply
  pub gone : Reply
  pub trace : v.trace ≡ (unlink_file fd, gone) ∷ (close_file fd, closed) ∷ before
  pub verified : passed ≡ true → IsVerified mem buffer size before

-- By the answer to `open`.
abbrev pub Verdict : Memory → ℕ → ℕ → ℤ → Bool → World HostIo → Type 0
Verdict mem buffer size (pos fd) passed v = Complete mem buffer size fd passed v
Verdict mem buffer size (negsuc n) passed v = passed ≡ false

module _ (d : Driver) (mem : Memory) (rounds : ℕ) (patient : IsPatient d rounds) where
  module _ (buffer size : ℕ) where
    abbrev Read : Bool → World HostIo → Type 0
    Read passed v = passed ≡ true → IsVerified mem buffer size v.trace

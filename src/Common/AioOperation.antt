-- ===== src/Common/AioOperation.antt =====
-- `aio_operation` of common.hpp: four requests for a quarter of the buffer each, and their events.
pub mod Completions
pub mod Holdings
use ascend_hal_sharing_probe.Prelude.{
  ℕ, zero, suc, ◌+◌, ◌-◌, ◌*◌, ◌/◌, ◌%◌, ◌^◌, ℤ, pos, negsuc, Bool, true, false, not, ◌||◌, List,
  [], ◌∷◌, ltb, leb, ◌==◌, is_zero, if◌then◌else◌, take,
}
use ascend_hal_sharing_probe.Status.{plain}
use ascend_hal_sharing_probe.Effects.{
  Call, Driver, IoRequest, Exception, runtime_error, Trace, M, io_submit, io_getevents, io_destroy,
  pure, raise, gets, modify, call, ◌>>=◌, ◌>>◌,
}
use ascend_hal_sharing_probe.Common.{cleanup}

pub record IoEvent : Type 0 where
  pub index : ℕ
  pub res : ℤ
  pub res2 : ℤ

-- The number of requests.
abbrev pub requests : ℕ
requests = 4

abbrev pub is_count : ℕ → ℤ → Bool
is_count n (pos m) = m == n
is_count n (negsuc m) = false

-- A binary digit of `seen`.
abbrev pub digit : ℕ → ℕ → ℕ
digit seen i = seen / 2 ^ i % 2

-- `seen |= 1U << index`, for an index of a request.
abbrev pub marked : ℕ → ℕ → ℕ
marked seen i = if ltb i requests then seen + (1 - digit seen i) * 2 ^ i else seen

abbrev pub is_bad : ℕ → ℕ → IoEvent → Bool
is_bad chunk seen e =
    leb requests e.index
    || (digit seen e.index == 1 || (not (is_count chunk e.res) || not (is_zero e.res2)))

-- The loop over the events, which goes on after a bad one.
unfoldable pub has_failed : ℕ → ℕ → List IoEvent → Bool
has_failed chunk seen [] = false
has_failed chunk seen (e ∷ es) = is_bad chunk seen e || has_failed chunk (marked seen e.index) es

-- The loop that fills the control blocks.
unfoldable pub blocks_from : ℕ → ℕ → Bool → ℕ → ℕ → ℕ → List IoRequest
blocks_from zero i write fd ptr chunk = []
blocks_from (suc n) i write fd ptr chunk =
    record {
      index = i;
      write = write;
      fd = fd;
      addr = ptr + i * chunk;
      bytes = chunk;
      offset = i * chunk;
    }
    ∷ blocks_from n (suc i) write fd ptr chunk

abbrev pub failed_operation : Exception
failed_operation = runtime_error (plain "aio completion")

-- `set_ctx` writes the caller's context, and `events` is what the kernel has written.
module _ {S : Type 0} (d : Driver) (events : Trace → List IoEvent) (set_ctx : ℕ → S → S)
    (note : S → S) where
  -- The requests that were taken end with the context, before the caller uses its buffer again.
  abbrev pub give_up : ℕ → M S (Unit {0})
  give_up ctx = cleanup d note (io_destroy ctx) >> (modify (set_ctx 0) >> raise failed_operation)

  abbrev pub judge : ℕ → M S (Unit {0})
  judge chunk w =
      (if has_failed chunk 0 (take requests (events w.trace))
          then raise failed_operation
          else pure tt)
        w

  unfoldable pub aio_operation : ℕ → ℕ → ℕ → ℕ → Bool → M S (Unit {0})
  unfolding has_failed blocks_from
  aio_operation ctx fd ptr bytes write = do
    let blocks = blocks_from requests 0 write fd ptr (bytes / requests)
    submitted ← call d (io_submit ctx blocks)
    if is_count requests submitted.ret
        then (do
          completed ← call d (io_getevents ctx requests)
          if is_count requests completed.ret then judge (bytes / requests) else give_up ctx)
        else give_up ctx

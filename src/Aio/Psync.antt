-- ===== src/Aio/Psync.antt =====
-- `Transfer` of cache2_hal_aio.cc with the synchronous engine.
use ascend_hal_sharing_probe.Prelude.{
  ℕ, zero, suc, ◌+◌, ◌*◌, Bool, true, false, ◌||◌, Option, none, some, ltb, ◌==◌, if◌then◌else◌,
}
use ascend_hal_sharing_probe.Status.{plain}
use ascend_hal_sharing_probe.Effects.{
  Driver, Exception, runtime_error, Outcome, ok, threw, fault, stalled, World, open_file, transfer,
  close_file, pure, raise, crash, gets, modify, ◌>>=◌, ◌>>◌,
}
use ascend_hal_sharing_probe.Aio.{Sizes, AioState, Step, os, cleanup}
pub mod Balance
pub mod Shard
pub mod Shards
pub mod Runs

abbrev pub short_io : Exception
short_io = runtime_error (plain "short psync I/O")

abbrev pub set_fd : Option ℕ → Step (Unit {0})
set_fd fd = modify (λ s. record s { fd = fd })

-- `opt.tensorBytes ? opt.tensorBytes : opt.slotBytes`
abbrev pub chunk : Sizes → ℕ
chunk o = if o.tensor_bytes == 0 then o.slot_bytes else o.tensor_bytes

module _ (d : Driver) (o : Sizes) (dump : Bool) where
  -- `if (fd < 0) { fd = OS(open(...)); }`
  abbrev pub open_for : ℕ → Option ℕ → Step ℕ
  open_for block none = do fd ← os d (open_file block dump); set_fd (some fd); pure fd
  open_for block (some fd) = pure fd

  -- The positions of one shard, with a bound on their number.
  unfoldable pub positions : ℕ → ℕ → ℕ → ℕ → ℕ → Step (Unit {0})
  positions zero fd block shard at_byte =
      if ltb at_byte o.slot_bytes then crash stalled else pure tt
  positions (suc rounds) fd block shard at_byte =
      if ltb at_byte o.slot_bytes
      then (do
        n ← os d (
            transfer dump fd (block * o.shards * o.slot_bytes + (shard * o.slot_bytes + at_byte))
              (chunk o) (shard * o.slot_bytes + at_byte))
        if n == chunk o
            then positions rounds fd block shard (at_byte + chunk o)
            else raise short_io)
      else pure tt

  -- `const int closing = fd; fd = -1; OS(close(closing));`
  abbrev pub close_now : ℕ → Step (Unit {0})
  close_now fd = do set_fd none; n ← os d (close_file fd); pure tt

  unfoldable pub one_shard : ℕ → ℕ → Step (Unit {0})
  unfolding positions
  one_shard block shard = do
    before ← gets (λ s. s.fd)
    fd ← open_for block before
    positions o.slot_bytes fd block shard 0
    if dump || suc shard == o.shards then close_now fd else pure tt

  -- The shards left, and the next one.
  unfoldable pub shards_from : ℕ → ℕ → ℕ → Step (Unit {0})
  shards_from block zero shard = pure tt
  shards_from block (suc left) shard = one_shard block shard >> shards_from block left (suc shard)

  -- `catch (...)`: an open descriptor is closed, and the exception goes on.
  abbrev pub close_open : Option ℕ → Step (Unit {0})
  close_open none = pure tt
  close_open (some fd) = cleanup (os d (close_file fd))

  abbrev pub caught : Outcome (Unit {0}) × World AioState → Outcome (Unit {0}) × World AioState
  caught (ok a, w) = (ok a, w)
  caught (threw e, w) = (close_open w.self.fd >> raise e) w
  caught (fault f, w) = (fault f, w)

  -- One block; its descriptor is a variable of the loop's body.
  unfoldable pub one_block : ℕ → Step (Unit {0})
  one_block block = set_fd none >> (λ w. caught (shards_from block o.shards 0 w))

  unfoldable pub blocks_from : ℕ → ℕ → Step (Unit {0})
  blocks_from zero block = pure tt
  blocks_from (suc left) block = one_block block >> blocks_from left (suc block)

  unfoldable pub transfer_all : Step (Unit {0})
  transfer_all = blocks_from o.blocks 0

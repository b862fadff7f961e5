-- ===== src/DataStrategy/Setup.antt =====
-- `DataStrategy::LocalSetup`, `CrossRankSetup` and `Setup` of ucm_data_strategy/data_strategy.cc.
use ascend_hal_sharing_probe.Prelude.{
  ℕ, zero, suc, ◌+◌, ◌*◌, ◌/◌, ◌%◌, ℤ, pos, true, [], ◌∷◌, leb, ◌==◌, is_zero, length,
  if◌then◌else◌, size_mod,
}
use Prim.Native.Nat.{min}
use ascend_hal_sharing_probe.Status.{
  Status, plain, format, format_status, ok_status, error_status, out_of_memory, failure, rewrap,
  Expected, value, error, etimeout_code,
}
use ascend_hal_sharing_probe.Effects.{
  PageType, normal, huge, Driver, Outcome, ok, threw, fault, division_by_zero, stalled, bad_alloc,
  runtime_error, World, pure, raise, crash, gets, modify, ◌>>=◌, ◌>>◌, call, resize_vector,
  clock_now, sleep_until,
}
use ascend_hal_sharing_probe.HalMemory.{
  address_alignment, mem_get_allocation_granularity, mem_create, mem_map,
  mem_export_to_shareable_handle, mem_share_handle_disable_whitelist,
  mem_import_from_shareable_handle,
}
use ascend_hal_sharing_probe.Device
use ascend_hal_sharing_probe.CtrlLayout.{CtrlLayout, set_rank_desc, get_rank_desc}
use ascend_hal_sharing_probe.DataStrategy.{
  DataStrategy, Action, unless_failed, at, put, resize, checked_lcm, round_up, reserve_rank_address,
  reset,
}

module _ (d : Driver) where
  -- `mappings_.resize(nRanks)`, which may throw
  abbrev pub resize_mappings : ℕ → Action (Unit {0})
  resize_mappings n = do
    r ← call d (resize_vector n)
    if is_zero r.ret
        then modify (λ s. record s { mappings = resize n s.mappings })
        else raise bad_alloc

  -- Map the range at `mappings_[rank].addr` and note it, or return the status that `wrap` makes.
  abbrev pub map_rank : (Status → Status) → ℕ → Action Status
  map_rank wrap rank = do
    m ← at rank
    stride ← gets (λ s. s.rank_stride)
    status ← mem_map d m.addr stride m.handle
    if failure status
        then pure (wrap status)
        else (do put rank (record m { mapped = true }); pure ok_status)

  unfoldable pub create_local : PageType → Action Status
  create_local page = do
    owner ← gets (λ s. s.owner)
    m ← at owner
    stride ← gets (λ s. s.rank_stride)
    (status, handle) ← mem_create d m.handle stride page
    put owner (record m { handle = handle })
    pure status

  unfoldable pub map_local : Action Status
  map_local = do owner ← gets (λ s. s.owner); map_rank (λ status. status) owner

  abbrev pub allocate_local : PageType → Action Status
  allocate_local page = do
    owner ← gets (λ s. s.owner)
    reserved ← reserve_rank_address d owner
    unless_failed reserved (do created ← create_local page; unless_failed created map_local)

  abbrev pub size_mappings : ℕ → ℕ → ℕ → Action (Unit {0})
  size_mappings data_bytes n_ranks granularity = do
    alignment ← checked_lcm address_alignment granularity
    modify (λ s. record s { rank_stride = round_up data_bytes alignment })
    resize_mappings n_ranks

  unfoldable pub local_setup : ℕ → ℕ → PageType → Action Status
  local_setup data_bytes n_ranks page = do
    (status, granularity) ← mem_get_allocation_granularity d page
    unless_failed status (
        if granularity == 0
        then pure (
            error_status (
              format "invalid HAL granularity({}) for data size({})" (pos 0 ∷ pos data_bytes ∷ [])))
        else (do size_mappings data_bytes n_ranks granularity; allocate_local page))

  -- The wait for a peer's descriptor, with a bound on its rounds.
  unfoldable pub poll : CtrlLayout → ℕ → ℕ → ℕ → Expected ℕ → Action (Expected ℕ)
  poll ctrl rank deadline rounds (value handle) = pure (value handle)
  poll ctrl rank deadline zero (error e) = crash stalled
  poll ctrl rank deadline (suc rounds) (error e) = do
    now ← call d clock_now
    if leb deadline now.out then pure (error e) else (do
      r ← call d (sleep_until (min deadline (now.out + 10)))
      later ← call d clock_now
      if leb deadline later.out
          then pure (error e)
          else (do again ← get_rank_desc ctrl rank; poll ctrl rank deadline rounds again))

  abbrev pub timed_out : ℕ → ℤ → ℕ → ℕ → Status → Status
  timed_out owner device rank timeout_ms e = record {
    code = etimeout_code;
    message =
        format_status "GetRankDesc timed out: owner={} device={} rank={} timeout_ms={} status={}"
          (pos owner ∷ device ∷ pos rank ∷ pos timeout_ms ∷ []) e.code e.message;
  }

  unfoldable pub import_peer : ℕ → ℕ → Action Status
  import_peer rank token = do
    m ← at rank
    device ← gets (λ s. s.device_id)
    (status, handle) ← mem_import_from_shareable_handle d token device m.handle
    put rank (record m { handle = handle })
    pure (
        if failure status
        then rewrap "HAL peer import failed: rank={} status={}" (pos rank ∷ []) status
        else ok_status)

  unfoldable pub map_peer : ℕ → Action Status
  map_peer rank = map_rank (rewrap "HAL peer map failed: rank={} status={}" (pos rank ∷ [])) rank

  -- One round of the loop over the peers, once its descriptor is there.
  abbrev pub attach_peer : ℕ → ℕ → Action Status
  attach_peer rank token = do
    imported ← import_peer rank token
    unless_failed imported
        (do reserved ← reserve_rank_address d rank; unless_failed reserved (map_peer rank))

  abbrev pub with_desc : ℕ → ℕ → Expected ℕ → Action Status
  with_desc timeout_ms rank (error e) = gets (λ s. timed_out s.owner s.device_id rank timeout_ms e)
  with_desc timeout_ms rank (value token) = attach_peer rank token

  unfoldable pub setup_peer : CtrlLayout → ℕ → ℕ → ℕ → ℕ → Action Status
  unfolding poll
  setup_peer ctrl timeout_ms deadline rounds rank = do
    first ← get_rank_desc ctrl rank
    desc ← poll ctrl rank deadline rounds first
    with_desc timeout_ms rank desc

  -- `for (rank...)`: the ranks left, and the next one.
  unfoldable pub setup_peers : CtrlLayout → ℕ → ℕ → ℕ → ℕ → ℕ → Action Status
  setup_peers ctrl timeout_ms deadline rounds zero rank = pure ok_status
  setup_peers ctrl timeout_ms deadline rounds (suc left) rank = do
    owner ← gets (λ s. s.owner)
    status ←
        (if rank == owner then pure ok_status else setup_peer ctrl timeout_ms deadline rounds rank)
    unless_failed status (setup_peers ctrl timeout_ms deadline rounds left (suc rank))

  abbrev pub all_peers : CtrlLayout → ℕ → ℕ → ℕ → Action Status
  all_peers ctrl timeout_ms deadline rounds = do
    count ← gets (λ s. length s.mappings)
    setup_peers ctrl timeout_ms deadline rounds count 0

  -- Export the local handle, open it to the server and announce it.
  unfoldable pub publish_local : CtrlLayout → Action Status
  publish_local ctrl = do
    owner ← gets (λ s. s.owner)
    m ← at owner
    (exported, token) ← mem_export_to_shareable_handle d m.handle
    unless_failed exported (do
      opened ← mem_share_handle_disable_whitelist d token
      unless_failed opened (do
        announced ← set_rank_desc d ctrl owner token
        device ← gets (λ s. s.device_id)
        pure (
            if failure announced
            then rewrap "SetRankDesc failed: owner={} device={} status={}" (pos owner ∷ device ∷ [])
                announced
            else ok_status)))

  unfoldable pub cross_rank_setup : CtrlLayout → ℕ → ℕ → Action Status
  cross_rank_setup ctrl timeout_ms rounds = do
    start ← call d clock_now
    published ← publish_local ctrl
    unless_failed published (all_peers ctrl timeout_ms (start.out + timeout_ms) rounds)

  -- Huge pages first; any failure is undone and normal pages are tried.
  unfoldable pub local_or_retry : ℕ → ℕ → Action Status
  local_or_retry data_bytes n_ranks = do
    status ← local_setup data_bytes n_ranks huge
    if failure status then (do reset d; local_setup data_bytes n_ranks normal) else pure status

  -- What stands in the `try` block.
  unfoldable pub setup_body : CtrlLayout → ℤ → ℕ → ℕ → ℕ → ℕ → Action Status
  setup_body ctrl device slot_size n_slots timeout_ms rounds = do
    opened ← Device.setup d device
    unless_failed opened (
        if n_slots == 0 then crash division_by_zero else (do
          status ← local_or_retry (slot_size * n_slots % size_mod) (ctrl.slot_count / n_slots)
          unless_failed status (cross_rank_setup ctrl timeout_ms rounds)))

  -- The two `catch` clauses.
  abbrev pub caught : Outcome Status × World DataStrategy → Outcome Status × World DataStrategy
  caught (ok status, w) = (ok status, w)
  caught (threw bad_alloc, w) = (ok out_of_memory, w)
  caught (threw (runtime_error m), w) = (ok (error_status m), w)
  caught (fault f, w) = (fault f, w)

  unfoldable pub conclude : ℕ → ℕ → Status → Action Status
  conclude slot_size n_slots status = if failure status then (do reset d; pure status) else (do
    modify (λ s. record s { slot_size = slot_size; n_slots_per_rank = n_slots })
    pure ok_status)

  abbrev pub already_set_up : Status
  already_set_up = error_status (plain "cache2 data strategy is already initialized")

  unfoldable pub setup : ℕ → CtrlLayout → ℤ → ℕ → ℕ → ℕ → ℕ → Action Status
  setup rounds ctrl device rank slot_size n_slots timeout_ms = do
    initialized ← gets (λ s. s.n_slots_per_rank)
    if initialized == 0
        then (do
          modify (λ s. record s { owner = rank; device_id = device })
          status ← (λ w. caught (setup_body ctrl device slot_size n_slots timeout_ms rounds w))
          conclude slot_size n_slots status)
        else pure already_set_up

-- ===== src/HalMemory.antt =====
-- ucm_data_strategy/trans/ascend/hal/hal_memory.{h,cc}: each wrapper forwards one HAL call and
-- turns the driver's code into a Status.
use ascend_hal_sharing_probe.Prelude.{ℕ, ◌^◌, String, ℤ, is_zero, [], ◌∷◌, if◌then◌else◌}
use ascend_hal_sharing_probe.Status.{Status, format, ok_status, success}
use ascend_hal_sharing_probe.Effects.{
  PageType, Call, MemProp, host_side, ddr, get_granularity, address_reserve, address_free,
  export_handle, disable_whitelist, import_handle, Driver, M, pure, call, ◌>>=◌,
}

abbrev pub address_alignment : ℕ
address_alignment = 2 ^ 30

abbrev pub host_memory_prop : PageType → MemProp
host_memory_prop page = record { side = host_side; devid = 0; pg_type = page; mem_type = ddr }

abbrev pub from_hal_error : String → ℤ → Status
from_hal_error api ret =
    if is_zero ret then ok_status else record { code = ret; message = format api (ret ∷ []) }

module _ (d : Driver) {S : Type 0} where
  abbrev hal_call : String → Call → M S Status
  hal_call api c = do r ← call d c; pure (from_hal_error api r.ret)

  -- The granularity is written through the caller's pointer, whatever the code.
  abbrev pub mem_get_allocation_granularity : PageType → M S (Status × ℕ)
  mem_get_allocation_granularity page = do
    r ← call d (get_granularity (host_memory_prop page))
    pure (from_hal_error "halMemGetAllocationGranularity" r.ret, r.out)

  -- So is the address.
  abbrev pub mem_address_reserve : ℕ → M S (Status × ℕ)
  mem_address_reserve size = do
    r ← call d (address_reserve size)
    pure (from_hal_error "halMemAddressReserve" r.ret, r.out)

  abbrev pub mem_address_free : ℕ → M S Status
  mem_address_free addr = hal_call "halMemAddressFree" (address_free addr)

  -- The caller's handle is assigned only on success.
  abbrev pub mem_create : ℕ → ℕ → PageType → M S (Status × ℕ)
  mem_create handle size page = do
    r ← call d (Call.mem_create size (host_memory_prop page))
    let status = from_hal_error "halMemCreate" r.ret
    pure (status, (if success status then r.out else handle))

  abbrev pub mem_release : ℕ → M S Status
  mem_release handle = hal_call "halMemRelease" (Call.mem_release handle)

  abbrev pub mem_map : ℕ → ℕ → ℕ → M S Status
  mem_map addr size handle = hal_call "halMemMap" (Call.mem_map addr size handle)

  abbrev pub mem_unmap : ℕ → M S Status
  mem_unmap addr = hal_call "halMemUnmap" (Call.mem_unmap addr)

  abbrev pub mem_export_to_shareable_handle : ℕ → M S (Status × ℕ)
  mem_export_to_shareable_handle handle = do
    r ← call d (export_handle handle)
    pure (from_hal_error "halMemExportToShareableHandle" r.ret, r.out)

  abbrev pub mem_share_handle_disable_whitelist : ℕ → M S Status
  mem_share_handle_disable_whitelist token =
      hal_call "halMemShareHandleSetAttribute" (disable_whitelist token)

  abbrev pub mem_import_from_shareable_handle : ℕ → ℤ → ℕ → M S (Status × ℕ)
  mem_import_from_shareable_handle token device handle = do
    r ← call d (import_handle token device)
    let status = from_hal_error "halMemImportFromShareableHandle" r.ret
    pure (status, (if success status then r.out else handle))

-- ===== src/HostUva.antt =====
-- host_uva_share.cpp: a writer fills shared memory with words and their checksum, and a reader in
-- another process copies them and looks at the checksum. The words are 32 bits wide.
pub mod Checksum
pub mod Runs
pub mod Blocks
pub mod Writer
use ascend_hal_sharing_probe.Prelude.{
  ℕ, zero, suc, ◌+◌, ◌-◌, ◌*◌, ◌/◌, ◌%◌, ◌^◌, ℤ, pos, negsuc, Bool, true, false, not, ltb, ◌==◌,
  if◌then◌else◌, is_zero, List,
}
use ascend_hal_sharing_probe.Effects.{
  normal, huge, Call, Reply, Driver, World, Trace, M, acl_init, acl_finalize, set_device,
  reset_device, address_reserve, address_free, export_handle, disable_whitelist, import_handle,
  malloc_host, free_host, copy, device_to_host, read_character, store_table, pure, call, ◌>>=◌,
  ◌>>◌,
}
use ascend_hal_sharing_probe.HalMemory.{host_memory_prop}

-- Words by their index.
abbrev pub Words : Type 0
Words = ℕ → ℕ

abbrev pub word_mod : ℕ
word_mod = 2 ^ 32

abbrev pub k_magic : ℕ
k_magic = 1212566867

abbrev pub k_shm_size : ℕ
k_shm_size = 2 * 2 ^ 30

abbrev pub put_word : ℕ → ℕ → Words → Words
put_word i v p j = if j == i then v else p j

-- The loop that stores the low byte of each index, so many times.
unfoldable pub bytes_from : ℕ → ℕ → Words → Words
bytes_from i zero p = p
bytes_from i (suc n) p = bytes_from (suc i) n (put_word i (i % 256) p)

-- The loop that adds up the words.
unfoldable pub sum_from : Words → ℕ → ℕ → ℕ → ℕ
sum_from p sum i zero = sum
sum_from p sum i (suc n) = sum_from p ((sum + p i) % word_mod) (suc i) n

-- For `count` words, at least one.
unfoldable pub write_test_data : ℕ → Words → Words
unfolding bytes_from sum_from
write_test_data count p =
    let filled = bytes_from 1 (count - 2) (put_word 0 k_magic p) in
    put_word (count - 1) (sum_from filled 0 0 (count - 1)) filled

unfoldable pub verify_test_data : ℕ → Words → ℤ
unfolding sum_from
verify_test_data count p =
    if not (p 0 == k_magic)
    then negsuc 0
    else if not (p (count - 1) == sum_from p 0 0 (count - 1))
    then negsuc 0
    else pos 0

-- `mem` is what the memory holds, by its 32-bit words.
module _ {S : Type 0} (d : Driver) (mem : Trace → ℕ → Words) where
  -- A call whose result is not looked at.
  abbrev pub ignored : Call → M S (Unit {0})
  ignored c = do r ← call d c; pure tt

  -- `CHECK(call)`: a result other than zero is returned at once.
  abbrev pub check_then : Call → M S ℤ → M S ℤ
  check_then c k = do r ← call d c; if is_zero r.ret then k else pure r.ret

  -- `CHECK_GOTO(call, label)`: a result other than zero goes to the label.
  abbrev pub goto_unless : Call → M S ℤ → (ℕ → M S ℤ) → M S ℤ
  goto_unless c label k = do r ← call d c; if is_zero r.ret then k r.out else label

  -- The labels of `RunWriter`, each falling through to the next.
  abbrev pub finished : ℤ → M S ℤ
  finished device = ignored (reset_device device) >> (ignored acl_finalize >> pure (pos 0))

  abbrev pub free_va : ℤ → ℕ → M S ℤ
  free_va device va = ignored (address_free va) >> finished device

  abbrev pub release_handle : ℤ → ℕ → ℕ → M S ℤ
  release_handle device va handle = ignored (Call.mem_release handle) >> free_va device va

  abbrev pub unmap_va : ℤ → ℕ → ℕ → M S ℤ
  unmap_va device va handle = ignored (Call.mem_unmap va) >> release_handle device va handle

  abbrev pub store_test_data : ℕ → M S (Unit {0})
  store_test_data va w =
      ignored (store_table va (k_shm_size / 4) (write_test_data (k_shm_size / 4) (mem w.trace va)))
        w

  unfoldable pub run_writer : ℤ → M S ℤ
  run_writer device = check_then acl_init (
      check_then (set_device device) (
        goto_unless (address_reserve k_shm_size) (finished device) λ va.
          goto_unless (Call.mem_create k_shm_size (host_memory_prop huge)) (free_va device va)
            λ handle.
              goto_unless (Call.mem_map va k_shm_size handle) (release_handle device va handle) λ n.
                store_test_data va
                >> goto_unless (export_handle handle) (unmap_va device va handle) λ token.
                  goto_unless (disable_whitelist token) (unmap_va device va handle)
                    λ n. ignored read_character >> unmap_va device va handle))

  -- `RunReader`: what the verification of the copy says is only logged.
  abbrev pub free_buffer : ℤ → ℕ → ℕ → ℕ → M S ℤ
  free_buffer device va handle buffer =
      ignored (free_host buffer) >> release_handle device va handle

  unfoldable pub run_reader : ℤ → ℕ → M S ℤ
  run_reader device token = check_then acl_init (
      check_then (set_device device) (
        goto_unless (address_reserve k_shm_size) (finished device) λ va.
          goto_unless (import_handle token device) (free_va device va) λ handle.
            goto_unless (Call.mem_map va k_shm_size handle) (release_handle device va handle) λ n.
              goto_unless (malloc_host k_shm_size) (release_handle device va handle) λ buffer.
                goto_unless (copy device_to_host buffer va k_shm_size)
                  (free_buffer device va handle buffer) λ n. free_buffer device va handle buffer))

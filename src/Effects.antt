-- ===== src/Effects.antt =====
-- The world outside the repository as the programs meet it: CANN's ACL and HAL entry points, the
-- clock, standard input and output. A driver answers a call from the whole history of calls and
-- answers; nothing is assumed of it unless a theorem says so.
pub mod Ledger
pub mod Outcomes
pub mod Tally
pub mod Meets
use ascend_hal_sharing_probe.Prelude.{Bool, ℕ, ℤ, List, ◌∷◌}
use ascend_hal_sharing_probe.Status.{Message}

pub data PageType : Type 0 where
  normal huge : PageType

pub data Side : Type 0 where
  host_side host_numa_side dev_side : Side

pub data MemType : Type 0 where
  ddr hbm : MemType

-- `drv_mem_prop`; the fields that no program sets stay zero.
pub record MemProp : Type 0 where
  pub side : Side
  pub devid : ℕ
  pub pg_type : PageType
  pub mem_type : MemType

-- A control block: `aio_data`, the opcode, the descriptor, the buffer, the length and the offset.
pub record IoRequest : Type 0 where
  pub index : ℕ
  pub write : Bool
  pub fd : ℕ
  pub addr : ℕ
  pub bytes : ℕ
  pub offset : ℕ

pub data CopyKind : Type 0 where
  host_to_device device_to_host device_to_device : CopyKind

pub data Call : Type 0 where
  acl_init acl_finalize : Call
  set_device reset_device : ℤ → Call
  get_granularity : MemProp → Call
  address_reserve : ℕ → Call
  address_free : ℕ → Call
  mem_create : ℕ → MemProp → Call
  mem_release : ℕ → Call
  mem_map : ℕ → ℕ → ℕ → Call
  mem_unmap : ℕ → Call
  export_handle : ℕ → Call
  disable_whitelist : ℕ → Call
  import_handle : ℕ → ℤ → Call
  resize_vector : ℕ → Call
  clock_now : Call
  sleep_until : ℕ → Call
  write_line : List ℕ → Call
  allocate : ℕ → Call
  free : ℕ → Call
  open_file : ℕ → Bool → Call
  transfer : Bool → ℕ → ℕ → ℕ → ℕ → Call
  close_file : ℕ → Call
  -- the descriptor, the bytes that are left as a number, least byte first, and how many they are
  send_bytes : ℕ → ℕ → ℕ → Call
  receive_bytes : ℕ → ℕ → Call
  close_socket : ℕ → Call
  -- the processor's stores of 64-bit words
  write_words : ℕ → List ℕ → Call
  -- `memset`: the address, the byte and how many
  set_bytes : ℕ → ℕ → ℕ → Call
  -- stores of 32-bit words, by their index
  store_table : ℕ → ℕ → (ℕ → ℕ) → Call
  open_device close_device : ℕ → Call
  get_host_id : Call
  open_library find_open find_close : Call
  close_library : ℕ → Call
  open_tsd close_tsd : ℕ → Call
  copy : CopyKind → ℕ → ℕ → ℕ → Call
  malloc_device : ℕ → Call
  free_device : ℕ → Call
  malloc_host free_host : ℕ → Call
  read_character : Call
  create_stream create_event : Call
  sync_stream destroy_stream destroy_event : ℕ → Call
  -- a copy put into a stream, the last argument, and what follows it there
  copy_async : CopyKind → ℕ → ℕ → ℕ → ℕ → Call
  record_event : ℕ → ℕ → Call
  query_event sync_event : ℕ → Call
  -- `aclrtMemset`: the address, the byte and how many
  set_device_bytes : ℕ → ℕ → ℕ → Call
  get_attribute : ℕ → Call
  get_context get_device find_query : Call
  query_properties : ℕ → Call
  get_affinity : Call
  set_affinity : List ℕ → Call
  io_setup : ℕ → Call
  io_submit : ℕ → List IoRequest → Call
  io_getevents : ℕ → ℕ → Call
  io_destroy : ℕ → Call
  -- a new file, with O_DIRECT or without
  create_file : Bool → Call
  unlink_file truncate_file sync_file : ℕ → Call
  -- `pwrite` or `pread`: the descriptor, the address, the bytes and the offset
  positioned : Bool → ℕ → ℕ → ℕ → ℕ → Call

-- `ret` is the returned code; `out` is what the call's output variable holds afterwards, which the
-- programs set to 0 or nullptr before every call, or errno where the call reports through it.
pub record Reply : Type 0 where
  pub ret : ℤ
  pub out : ℕ

abbrev pub Event : Type 0
Event = Call × Reply

-- Newest first.
abbrev pub Trace : Type 0
Trace = List Event

abbrev pub Driver : Type 0
Driver = Trace → Call → Reply

-- `fault` is what C++ leaves undefined, or a bounded wait that ran out of its rounds.
pub data Fault : Type 0 where
  out_of_bounds division_by_zero lcm_overflow stalled : Fault

pub data Exception : Type 0 where
  bad_alloc : Exception
  runtime_error : Message → Exception

pub data Outcome (A : Type 0) : Type 0 where
  ok : A → Outcome A
  threw : Exception → Outcome A
  fault : Fault → Outcome A

-- The object at work, the calls so far, and the lines that standard input still holds.
pub record World (S : Type 0) : Type 0 where
  pub self : S
  pub trace : Trace
  pub input : List (List ℕ)

abbrev pub M : Type 0 → Type 0 → Type 0
M S A = World S → Outcome A × World S

module _ {S A : Type 0} where
  abbrev pub pure : A → M S A
  pure a w = (ok a, w)

  abbrev pub raise : Exception → M S A
  raise e w = (threw e, w)

  abbrev pub crash : Fault → M S A
  crash e w = (fault e, w)

  abbrev pub gets : (S → A) → M S A
  gets f w = (ok (f w.self), w)

abbrev pub modify : {S : Type 0} → (S → S) → M S (Unit {0})
modify f w = (ok tt, record w { self = f w.self })

abbrev pub follow : {S A B : Type 0} → (A → M S B) → Outcome A × World S → Outcome B × World S
follow f (ok a, w) = f a w
follow f (threw e, w) = (threw e, w)
follow f (fault e, w) = (fault e, w)

infixl 5 ◌>>=◌ ◌>>◌
abbrev pub ◌>>=◌ : {S A B : Type 0} → M S A → (A → M S B) → M S B
◌>>=◌ m f w = follow f (m w)

abbrev pub ◌>>◌ : {S B : Type 0} → M S (Unit {0}) → M S B → M S B
m >> k = m >>= λ _. k

-- One call of the outside world.
abbrev pub call : {S : Type 0} → Driver → Call → M S Reply
call d c w = let r = d w.trace c in (ok r, record w { trace = (c, r) ∷ w.trace })

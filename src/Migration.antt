-- ===== src/Migration.antt =====
-- uhyve-migration.c, uhyve-migration.h and uhyve-migration-tcp.c: the parameters of a migration, and
-- the transfer of the guest's memory over TCP. The socket is the stream of its bytes.
pub mod Transferred
pub mod Socket
mod Tests
use hermit_caves.Base.{
  ℕ, zero, suc, ◌+◌, ◌-◌, ◌*◌, ◌%◌, ◌^◌, Bool, true, false, ltb, ◌==◌, ◌&&◌, ◌||◌, if◌then◌else◌,
  List, [], ◌∷◌, ◌++◌, Option, none, some, length, take, drop,
}
use hermit_caves.Base.Memory.{Memory}
use hermit_caves.Regions.{MemChunk}
use hermit_caves.Syscalls.Wire.{bytes_of, word_of}
use hermit_caves.Vcpu.Transfer.{bytes_at, store_bytes}
use hermit_caves.Vcpu.Ports.{same_name}

-- `mig_mode_t` and `mig_type_t`.
pub data MigMode : Type 0 where
  complete_dump incremental_dump : MigMode

pub data MigType : Type 0 where
  cold live : MigType

-- `mig_params_t`.
pub record MigParams : Type 0 where
  pub type : MigType
  pub mode : MigMode
  pub use_odp : Bool
  pub prefetch : Bool

abbrev pub default_params : MigParams
default_params = record { type = cold; mode = complete_dump; use_odp = false; prefetch = false }

-- The tables `mig_mode_conv` and `mig_type_conv`.
abbrev pub mode_conv : List (MigMode × List ℕ)
mode_conv =
    (
      complete_dump,
      b'c' ∷ b'o' ∷ b'm' ∷ b'p' ∷ b'l' ∷ b'e' ∷ b't' ∷ b'e' ∷ b'-' ∷ b'd' ∷ b'u' ∷ b'm' ∷ b'p' ∷ [],
    )
    ∷ (
      incremental_dump,
      b'i' ∷ b'n' ∷ b'c' ∷ b'r' ∷ b'e' ∷ b'm' ∷ b'e' ∷ b'n' ∷ b't' ∷ b'a' ∷ b'l' ∷ b'-' ∷ b'd'
          ∷ b'u' ∷ b'm' ∷ b'p' ∷ [],
    )
    ∷ []

abbrev pub type_conv : List (MigType × List ℕ)
type_conv = (cold, b'c' ∷ b'o' ∷ b'l' ∷ b'd' ∷ []) ∷ (live, b'l' ∷ b'i' ∷ b'v' ∷ b'e' ∷ []) ∷ []

-- The loop of the setters: the last entry that matches, or what was there.
pub look_up : {A : Type 0} → List (A × List ℕ) → List ℕ → A → A
look_up [] str old = old
look_up ((value, name) ∷ conv) str old =
    look_up conv str (if same_name str name then value else old)

-- `none` is NULL.
unfoldable pub set_migration_type : Option (List ℕ) → MigParams → MigParams
set_migration_type none p = p
set_migration_type (some str) p = record p { type = look_up type_conv str p.type }

unfoldable pub set_migration_mode : Option (List ℕ) → MigParams → MigParams
set_migration_mode none p = p
set_migration_mode (some str) p = record p { mode = look_up mode_conv str p.mode }

-- What `fscanf` finds in a file of parameters; the numbers are stored in a `bool`, as its byte.
pub record ParamFile : Type 0 where
  pub mode_str : List ℕ
  pub type_str : List ℕ
  pub odp : ℕ
  pub pre : ℕ

-- `none` is no file name. Behind `mode` and `type` the numbers are stored as four bytes each: that of
-- `use_odp` over `prefetch`, which is stored then.
unfoldable pub set_migration_params : Option ParamFile → MigParams → MigParams
set_migration_params none p = p
set_migration_params (some f) p =
    record (set_migration_type (some f.type_str) (set_migration_mode (some f.mode_str) p)) {
      use_odp = ltb 0 (f.odp % 256);
      prefetch = ltb 0 (f.pre % 256);
    }

-- `get_migration_type_str` and `get_migration_mode_str`.
unfoldable pub get_migration_type_str : MigType → List ℕ
get_migration_type_str cold = b'c' ∷ b'o' ∷ b'l' ∷ b'd' ∷ []
get_migration_type_str live = b'l' ∷ b'i' ∷ b'v' ∷ b'e' ∷ []

-- `mem_chunk_t` in memory, and an array of them: the size, and the pointer.
pub chunk_bytes : List MemChunk → List ℕ
chunk_bytes [] = []
chunk_bytes (c ∷ cs) = bytes_of 8 c.size ++ (bytes_of 8 c.ptr ++ chunk_bytes cs)

abbrev pub is_live : MigType → Bool
is_live cold = false
is_live live = true

abbrev pub is_none : List MemChunk → Bool
is_none [] = true
is_none (_ ∷ _) = false

-- What is sent: the regions of the whole guest, or those in use.
abbrev pub regions_sent : MigParams → List MemChunk → List MemChunk → List MemChunk
regions_sent p guest_physical_memory mem_mappings =
    if is_live p.type || is_none mem_mappings then guest_physical_memory else mem_mappings

unfoldable pub send_mem_regions : MigParams → List MemChunk → List MemChunk → List ℕ
send_mem_regions p guest_physical_memory mem_mappings =
    let regions = regions_sent p guest_physical_memory mem_mappings in
    bytes_of 8 (length regions) ++ chunk_bytes regions

-- `precopy_phase`: what `stop_and_copy_phase` will send.
unfoldable pub precopy_phase : MigParams → List MemChunk → List MemChunk → List MemChunk
precopy_phase p guest_mem mem_mappings = if is_live p.type then guest_mem else mem_mappings

-- The loop of `stop_and_copy_phase`, for both modes; pointers are offsets from `guest_mem`.
unfoldable pub stop_and_copy_phase : List MemChunk → Memory → List ℕ
stop_and_copy_phase [] m = []
stop_and_copy_phase (c ∷ cs) m = bytes_at m c.ptr c.size ++ stop_and_copy_phase cs m

-- An array of chunks that is received.
pub read_chunks : ℕ → List ℕ → List MemChunk
read_chunks zero bs = []
read_chunks (suc n) bs =
    record { size = word_of (take 8 bs); ptr = word_of (take 8 (drop 8 bs)) }
    ∷ read_chunks n (drop 8 (drop 8 bs))

-- `recv_mem_regions`, with what is left of the stream.
unfoldable pub recv_mem_regions : List ℕ → List MemChunk × List ℕ
recv_mem_regions stream =
    let count = word_of (take 8 stream) in
    (read_chunks count (drop 8 stream), drop (count * 16) (drop 8 stream))

-- `recv_guest_mem`: the memory, and what is left of the stream.
unfoldable pub recv_guest_mem : List MemChunk → List ℕ → Memory → Memory × List ℕ
recv_guest_mem [] stream m = (m, stream)
recv_guest_mem (c ∷ cs) stream m =
    recv_guest_mem cs (drop c.size stream) (store_bytes m c.ptr (take c.size stream))

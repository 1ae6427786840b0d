-- ===== src/Regions.antt =====
-- uhyve-x86_64.c: the guest's physical memory around the 32-bit gap (`init_kvm_arch`,
-- `determine_guest_physical_memory_regions`), and the memory that a migration sends
-- (`check_for_io_gap`, `determine_mem_mappings`). Sizes and addresses wrap at 2 ^ 64.
pub mod Slots
pub mod Gaps
mod Tests
use hermit_caves.Base.{
  ℕ, zero, suc, ◌+◌, ◌-◌, ◌*◌, ◌%◌, ◌^◌, Bool, true, false, ltb, leb, ◌==◌, ◌&&◌, not,
  if◌then◌else◌, List, [], ◌∷◌, ◌++◌, Option, none, some, length,
}

abbrev pub gap_size : ℕ
gap_size = 768 * 2 ^ 20

abbrev pub gap_start : ℕ
gap_start = 2 ^ 32 - gap_size

abbrev pub gap_end : ℕ
gap_end = gap_start + gap_size

-- Subtraction of a `size_t`.
abbrev pub sub64 : ℕ → ℕ → ℕ
sub64 a b = (a + 2 ^ 64 - b) % 2 ^ 64

-- `mem_chunk_t`, and `mem_mappings_t` with its array.
pub record MemChunk : Type 0 where
  pub size : ℕ
  pub ptr : ℕ

pub record MemMappings : Type 0 where
  pub mem_chunks : ℕ → MemChunk
  pub count : ℕ

-- The size of the guest's address space that `init_kvm_arch` maps.
abbrev pub mapped_size : ℕ → ℕ
mapped_size guest_size =
    if ltb guest_size gap_start then guest_size else (guest_size + gap_size) % 2 ^ 64

-- `kvm_userspace_memory_region`, its host address as an offset from `guest_mem`.
pub record MemorySlot : Type 0 where
  pub slot : ℕ
  pub guest_phys_addr : ℕ
  pub memory_size : ℕ
  pub userspace_offset : ℕ

-- The calls of KVM_SET_USER_MEMORY_REGION for a mapped size.
unfoldable pub memory_slots : ℕ → List MemorySlot
memory_slots guest_size =
    if leb guest_size gap_start
    then record { slot = 0; guest_phys_addr = 0; memory_size = guest_size; userspace_offset = 0 }
      ∷ []
    else record { slot = 0; guest_phys_addr = 0; memory_size = gap_start; userspace_offset = 0 }
      ∷ record {
        slot = 1;
        guest_phys_addr = gap_start + gap_size;
        memory_size = sub64 (sub64 guest_size gap_size) gap_start;
        userspace_offset = gap_start + gap_size;
      }
      ∷ []

unfoldable pub init_kvm_arch : ℕ → List MemorySlot
init_kvm_arch guest_size = memory_slots (mapped_size guest_size)

unfoldable pub determine_guest_physical_memory_regions : ℕ → List MemChunk
determine_guest_physical_memory_regions guest_size =
    if ltb guest_size gap_start
    then record { size = guest_size; ptr = 0 } ∷ []
    else record { size = gap_start; ptr = 0 }
      ∷ record { size = sub64 guest_size (gap_start + gap_size); ptr = gap_start + gap_size }
      ∷ []

-- `guest_mem + ptr`, as an offset: what `convert_to_host_virt` leaves.
abbrev pub put_chunk : ℕ → MemChunk → MemMappings → MemMappings
put_chunk i c mm = record mm { mem_chunks = λ j. if j == i then c else mm.mem_chunks j }

-- Returns `*cur_slot` and the mappings.
unfoldable pub check_for_io_gap : ℕ → MemMappings → ℕ × MemMappings
check_for_io_gap cur_slot mm =
    let c = mm.mem_chunks cur_slot in
    let cur_end = (c.ptr + c.size) % 2 ^ 64 in
    if c.ptr == gap_start && cur_end == gap_end
    then (sub64 cur_slot 1, record mm { count = sub64 mm.count 1 })
    else if cur_end == gap_end
    then (cur_slot, put_chunk cur_slot (record c { size = sub64 c.size gap_size }) mm)
    else if c.ptr == gap_start
    then (
      cur_slot,
      put_chunk cur_slot
          (record { size = sub64 c.size gap_size; ptr = (c.ptr + gap_size) % 2 ^ 64 }) mm,
    )
    else if ltb c.ptr gap_start && ltb gap_end cur_end
    then (
      (cur_slot + 1) % 2 ^ 64,
      record (put_chunk ((cur_slot + 1) % 2 ^ 64)
          (record { size = sub64 cur_end gap_end; ptr = gap_end })
          (put_chunk cur_slot (record c { size = sub64 gap_start c.ptr }) mm)) {
            count = (mm.count + 1) % 2 ^ 64;
          },
    )
    else (cur_slot, mm)

-- A node of the guest's free list.
pub record FreeRegion : Type 0 where
  pub start : ℕ
  pub end : ℕ

-- The state of the loop over the free list when it is through.
pub record Filled : Type 0 where
  pub cur_slot : ℕ
  pub cur : FreeRegion
  pub mappings : MemMappings

pub fill_chunks : ℕ → FreeRegion → MemMappings → List FreeRegion → Filled
fill_chunks cur_slot cur mm [] = record { cur_slot = cur_slot; cur = cur; mappings = mm }
fill_chunks cur_slot cur mm (next ∷ rest) =
    let checked =
      check_for_io_gap cur_slot
        (put_chunk cur_slot (record { size = sub64 next.start cur.end; ptr = cur.end }) mm) in
    fill_chunks ((checked.0 + 1) % 2 ^ 64) next checked.1 rest

abbrev pub first_chunk : ℕ
first_chunk = 0x800000

-- The allocation behind the last free region.
unfoldable pub behind_last : ℕ → Filled → MemMappings
behind_last guest_size filled =
    if guest_size == filled.cur.end
    then filled.mappings
    else (check_for_io_gap filled.cur_slot (
        put_chunk filled.cur_slot
          (record { size = sub64 guest_size filled.cur.end; ptr = filled.cur.end })
          filled.mappings)).1

-- `determine_mem_mappings` for a list with a first node and the nodes behind it; `heap` is what
-- `malloc` returns.
unfoldable pub determine_mem_mappings :
    (ℕ → MemChunk) → ℕ → FreeRegion → List FreeRegion → MemMappings
determine_mem_mappings heap guest_size free_list rest =
    let mm0 : MemMappings = record { mem_chunks = heap; count = suc (length rest) } in
    let first =
      check_for_io_gap 0 (
        put_chunk 0 (record { size = sub64 free_list.start first_chunk; ptr = first_chunk }) mm0) in
    behind_last guest_size (fill_chunks ((first.0 + 1) % 2 ^ 64) free_list first.1 rest)

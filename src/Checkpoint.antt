-- ===== src/Checkpoint.antt =====
-- uhyve-x86_64.c: the pages of a checkpoint. `scan_page_tables` with `write_mem_page_to_chk_file` writes
-- them, `load_checkpoint` reads them back at `determine_dest_offset`.
pub mod Entries
pub mod Restore
pub mod Used
pub mod Growth
pub mod Complete
pub mod Barriers
mod Tests
use hermit_caves.Base.{
  ℕ, zero, suc, ◌+◌, ◌-◌, ◌*◌, ◌%◌, ◌^◌, bit_and, bit_or, Bool, true, false, not, ltb, leb, ◌==◌,
  ◌&&◌, if◌then◌else◌, List, [], ◌∷◌, ◌++◌, Option, none, some, length, take, drop,
}
use hermit_caves.Base.Memory.{Memory, load64, store64}
use hermit_caves.Paging.{pte_mask, mask_at, pg_present, pg_pse, boot_pml4}
use hermit_caves.Syscalls.Wire.{bytes_of, word_of}
use hermit_caves.Vcpu.Transfer.{bytes_at, store_bytes}

abbrev pub pg_accessed : ℕ
pg_accessed = 2 ^ 5

abbrev pub pg_dirty : ℕ
pg_dirty = 2 ^ 6

-- `~(PG_DIRTY|PG_ACCESSED)` and `~PG_PSE`, widened to 64 bits.
abbrev pub not_used : ℕ
not_used = 2 ^ 64 - 1 - (pg_dirty + pg_accessed)

abbrev pub not_pse : ℕ
not_pse = 2 ^ 64 - 1 - pg_pse

abbrev pub page_2m_mask : ℕ
page_2m_mask = mask_at 1

-- What `save_page` is called with: the entry and the page.
pub record Saved : Type 0 where
  pub entry : ℕ
  pub page : List ℕ

-- The guest's memory and the pages saved so far.
pub record Scan : Type 0 where
  pub memory : Memory
  pub saved : List Saved

-- `for(i = 0; i < n; i++)` from an index on.
pub for_each : ℕ → ℕ → (ℕ → Scan → Scan) → Scan → Scan
for_each zero i body s = s
for_each (suc n) i body s = for_each n (i + 1) body (body i s)

abbrev pub is_set : ℕ → ℕ → Bool
is_set entry flags = bit_and entry flags == flags

-- The two globals `full_checkpoint` and `no_checkpoint`.
pub record Mode : Type 0 where
  pub full_checkpoint : Bool
  pub no_checkpoint : ℕ

abbrev pub flag_of : Mode → ℕ
flag_of mode =
    if not mode.full_checkpoint && ltb 0 mode.no_checkpoint then pg_dirty else pg_accessed

module _ (mode : Mode) where
  -- `if (!full_checkpoint) *entry = *entry & ~(PG_DIRTY|PG_ACCESSED)`.
  abbrev pub clear_used : ℕ → Memory → Memory
  clear_used a m = if mode.full_checkpoint then m else store64 m a (bit_and (load64 m a) not_used)

  pub save_small : ℕ → Scan → Scan
  save_small a s =
      let m = clear_used a s.memory in
      record {
        memory = m;
        saved =
            s.saved
            ++ (record {
              entry = bit_and (load64 m a) not_pse;
              page = bytes_at m (bit_and (load64 m a) pte_mask) (2 ^ 12);
            }
                ∷ []);
      }

  pub save_large : ℕ → Scan → Scan
  save_large a s =
      let m = clear_used a s.memory in
      record {
        memory = m;
        saved =
            s.saved
            ++ (record {
              entry = load64 m a;
              page = bytes_at m (bit_and (load64 m a) page_2m_mask) (2 ^ 21);
            }
                ∷ []);
      }

  pub scan_pgt : ℕ → ℕ → Scan → Scan
  scan_pgt pgt l s =
      if is_set (load64 s.memory (pgt + 8 * l)) (bit_or pg_present (flag_of mode))
      then save_small (pgt + 8 * l) s
      else s

  pub scan_pgd : ℕ → ℕ → Scan → Scan
  scan_pgd pgd k s =
      let entry = load64 s.memory (pgd + 8 * k) in
      if not (is_set entry pg_present)
      then s
      else if not (is_set entry pg_pse)
      then for_each 512 0 (scan_pgt (bit_and entry pte_mask)) s
      else if is_set entry (flag_of mode)
      then save_large (pgd + 8 * k) s
      else s

  pub scan_pdpt : ℕ → ℕ → Scan → Scan
  scan_pdpt pdpt j s =
      let entry = load64 s.memory (pdpt + 8 * j) in
      if not (is_set entry pg_present)
      then s
      else for_each 512 0 (scan_pgd (bit_and entry pte_mask)) s

  pub scan_pml4 : ℕ → Scan → Scan
  scan_pml4 i s =
      let entry = load64 s.memory (boot_pml4 + 8 * i) in
      if not (is_set entry pg_present)
      then s
      else for_each 512 0 (scan_pdpt (bit_and entry pte_mask)) s

  unfoldable pub scan_page_tables : Memory → Scan
  scan_page_tables m = for_each 512 0 scan_pml4 (record { memory = m; saved = [] })

-- The bytes that `write_mem_page_to_chk_file` appends for each page.
pub file_of : List Saved → List ℕ
file_of [] = []
file_of (p ∷ ps) = bytes_of 8 p.entry ++ (p.page ++ file_of ps)

unfoldable pub determine_dest_offset : ℕ → ℕ
determine_dest_offset src_addr =
    if not (bit_and src_addr pg_pse == 0)
    then bit_and src_addr page_2m_mask
    else bit_and src_addr pte_mask

abbrev pub page_size : ℕ → ℕ
page_size location = if not (bit_and location pg_pse == 0) then 2 ^ 21 else 2 ^ 12

-- The loop of `load_checkpoint` over the rest of a file; `none` is the end of the process by `err`.
-- It ends when `fread` finds no further location; each round takes eight bytes at least, so that as
-- many rounds as there are bytes are enough.
unfoldable pub load_pages : ℕ → List ℕ → Memory → Option Memory
load_pages zero file m = some m
load_pages (suc fuel) file m =
    let location = word_of (take 8 file) in
    let data' = drop 8 file in
    let rest =
      load_pages fuel (drop (page_size location) data')
        (store_bytes m (determine_dest_offset location) (take (page_size location) data')) in
    if ltb (length file) 8
    then some m
    else if ltb (length data') (page_size location)
    then none
    else rest

-- The clock at the head of a file.
abbrev pub clock_size : ℕ
clock_size = 48

-- The result of `load_checkpoint`: 0, -1 for a missing file, or the end of the process.
pub data Restored : Type 0 where
  restored : Memory → Restored
  missing : Restored
  failed : Restored

-- The loop over the files `chk<i>_mem.dat`, for `n` files from a number on; `none` is a file that
-- cannot be opened.
pub load_files : (ℕ → Option (List ℕ)) → ℕ → ℕ → Memory → Restored
load_files files zero i m = restored m
load_files files (suc n) i m = elim (files i) [
  | none ↦ missing
  | some file ↦ elim (ltb (length file) clock_size) [
    | true ↦ failed
    | false ↦ elim (load_pages (length file) (drop clock_size file) m) [
      | none ↦ failed
      | some m' ↦ load_files files n (i + 1) m'
    ]
  ]
]

-- The memory part of `load_checkpoint`.
unfoldable pub load_checkpoint : Mode → (ℕ → Option (List ℕ)) → Memory → Restored
load_checkpoint mode files m =
    if mode.full_checkpoint
    then load_files files 1 mode.no_checkpoint m
    else load_files files (mode.no_checkpoint + 1) 0 m

-- ===== src/Paging.antt =====
-- uhyve-x86_64.c: `setup_system_page_tables`, which writes the boot page tables into the guest's
-- memory, and `virt_to_phys`, which walks the page tables of the guest.

pub mod Walk
pub mod Tables
pub mod Identity
pub mod HighHalf
mod Tests
use hermit_caves.Base.{
  Bool, ℕ, zero, suc, ◌+◌, ◌-◌, ◌*◌, ◌/◌, ◌%◌, ◌^◌, bit_and, bit_or, ◌&&◌, ltb, ◌==◌, if◌then◌else◌,
  not,
}
use hermit_caves.Base.Memory.{Memory, load64, store64, memset}

abbrev pub boot_pml4 : ℕ
boot_pml4 = 0x10000

abbrev pub boot_pdpte : ℕ
boot_pdpte = 0x11000

abbrev pub boot_pde : ℕ
boot_pde = 0x12000

abbrev pub guest_page_size : ℕ
guest_page_size = 0x200000

-- X86_PDPT_P | X86_PDPT_RW, and the same with X86_PDPT_PS.
abbrev pub table_flags : ℕ
table_flags = bit_or (2 ^ 0) (2 ^ 1)

abbrev pub page_flags : ℕ
page_flags = bit_or table_flags (2 ^ 7)

-- The control registers of `struct kvm_sregs` that the boot code writes.
pub record Sregs : Type 0 where
  pub cr0 : ℕ
  pub cr3 : ℕ
  pub cr4 : ℕ
  pub efer : ℕ

abbrev cr0_pe : ℕ
cr0_pe = 2 ^ 0

abbrev cr0_pg : ℕ
cr0_pg = 2 ^ 31

abbrev cr4_pae : ℕ
cr4_pae = 2 ^ 5

-- EFER_LME | EFER_LMA | EFER_NX.
abbrev efer_flags : ℕ
efer_flags = bit_or (bit_or (2 ^ 8) (2 ^ 10)) (2 ^ 11)

unfoldable pub setup_system_64bit : Sregs → Sregs
setup_system_64bit s = record s {
  cr0 = bit_or s.cr0 cr0_pe;
  cr4 = bit_or s.cr4 cr4_pae;
  efer = bit_or s.efer efer_flags;
}

-- The loop over `pde[i]`: `n` rounds are left, and `paddr` grows beside `i`.
pub fill_pde : ℕ → ℕ → ℕ → Memory → Memory
fill_pde zero i paddr m = m
fill_pde (suc n) i paddr m =
    fill_pde n (i + 1) (paddr + guest_page_size)
      (store64 m (boot_pde + 8 * i) (bit_or paddr page_flags))

-- The three `memset`s and the three entries above the page directory.
pub clear_tables : Memory → Memory
clear_tables m = memset (memset (memset m boot_pml4 0 4096) boot_pdpte 0 4096) boot_pde 0 4096

pub link_tables : Memory → Memory
link_tables m =
    let m1 = store64 m boot_pml4 (bit_or boot_pdpte table_flags) in
    let m2 = store64 m1 (boot_pml4 + 8 * 511) (bit_or boot_pml4 table_flags) in
    store64 m2 boot_pdpte (bit_or boot_pde table_flags)

pub setup_system_page_tables : Sregs → Memory → Sregs × Memory
setup_system_page_tables s m = (
  record s { cr0 = bit_or s.cr0 cr0_pg; cr3 = boot_pml4; cr4 = bit_or s.cr4 cr4_pae },
  fill_pde 512 0 0 (link_tables (clear_tables m)),
)

abbrev pub pg_present : ℕ
pg_present = 2 ^ 0

abbrev pub pg_pse : ℕ
pg_pse = 2 ^ 7

-- `~PG_XD`, and PAGE_MASK: `((~0UL) << PAGE_BITS) & ~PG_XD`.
abbrev pub not_xd : ℕ
not_xd = 2 ^ 64 - 1 - 2 ^ 63

abbrev pub pte_mask : ℕ
pte_mask = bit_and ((2 ^ 64 - 1) * 2 ^ 12 % 2 ^ 64) not_xd

-- What a walk leaves in `*physical_address` and `*physical_address_page_end`.
pub record Location : Type 0 where
  pub physical : ℕ
  pub page_end : ℕ

-- The constants of one level of the walk.
abbrev pub index_at : ℕ → ℕ → ℕ
index_at va level = bit_and (va / 2 ^ 12 / 2 ^ (level * 9)) 0x1ff

abbrev pub mask_at : ℕ → ℕ
mask_at level = bit_and ((2 ^ 64 - 1) * 2 ^ 12 % 2 ^ 64 * 2 ^ (level * 9) % 2 ^ 64) not_xd

abbrev pub size_at : ℕ → ℕ
size_at level = 2 ^ 12 * 2 ^ (level * 9)

-- The entry maps a page: `phy | off`, and the end of the page.
pub leaf : ℕ → ℕ → ℕ → Location
leaf va level entry =
    let phy = bit_and entry (mask_at level) in
    record {
      physical = bit_or phy (bit_and va (2 ^ 64 - 1 - mask_at level));
      page_end = (phy + size_at level) % 2 ^ 64;
    }

abbrev pub is_set : ℕ → ℕ → Bool
is_set entry flag = not (bit_and entry flag == 0)

-- `virt_to_phys_for_table`: nothing is written where an entry is not present.
pub virt_to_phys_for_table : Memory → ℕ → ℕ → ℕ → Location → Location
virt_to_phys_for_table m va table zero out =
    let entry = load64 m (table + 8 * index_at va 0) in
    if is_set entry pg_present then leaf va 0 entry else out
virt_to_phys_for_table m va table (suc level) out =
    let entry = load64 m (table + 8 * index_at va (suc level)) in
    let deeper = virt_to_phys_for_table m va (bit_and entry pte_mask) level out in
    if is_set entry pg_present
    then (if ltb (suc level) 3 && is_set entry pg_pse then leaf va (suc level) entry else deeper)
    else out

pub virt_to_phys : Memory → ℕ → Location
virt_to_phys m va = virt_to_phys_for_table m va boot_pml4 3 (record { physical = 0; page_end = 0 })

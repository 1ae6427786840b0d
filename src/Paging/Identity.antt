-- ===== src/Paging/Identity.antt =====
-- The walk of `virt_to_phys` over the boot page tables.
use hermit_caves.Base.{
  ℕ, ◌+◌, ◌-◌, ◌*◌, ◌/◌, ◌%◌, ◌^◌, ◌≤◌, ◌<◌, bit_and, ◌≡◌, refl, ◌∙◌, arith, true,
}
use hermit_caves.Base.Bits.{bit_or_disjoint, bit_and_low, bit_and_field, bit_and_split}
use hermit_caves.Base.Memory.{Memory}
use hermit_caves.Paging.{
  Sregs, Location, setup_system_page_tables, virt_to_phys, index_at, leaf, boot_pml4, boot_pdpte,
  boot_pde, is_set, pg_present, pg_pse,
}
use hermit_caves.Paging.Walk.{walk_absent, walk_down, walk_page}
use hermit_caves.Paging.Tables.{pml4_first, pdpte_first, pdpte_other, pde_entry}

index_at_lem :
    (va : ℕ)
    → (index_at va 3 ≡ va / 2 ^ 39 % 512)
      × (index_at va 2 ≡ va / 2 ^ 30 % 512)
      × (index_at va 1 ≡ va / 2 ^ 21 % 512)
index_at_lem va = omega (
  arith,
  bit_and_low 9 (va / 2 ^ 12 / 2 ^ 27),
  bit_and_low 9 (va / 2 ^ 12 / 2 ^ 18),
  bit_and_low 9 (va / 2 ^ 12 / 2 ^ 9),
)

-- A page directory entry of the boot tables is present and maps a page.
pde_flags :
    (j : ℕ)
    → (is_set (j * 2 ^ 21 + 0x83) pg_present ≡ true) × (is_set (j * 2 ^ 21 + 0x83) pg_pse ≡ true)
pde_flags j = (
  ground (arith, bit_and_field 1 0 (j * 2 ^ 21 + 0x83)),
  ground (arith, bit_and_field 1 7 (j * 2 ^ 21 + 0x83)),
)

-- Below 2^63 the complement of the page mask keeps the offset alone.
page_offset : (va : ℕ) → va < 2 ^ 63 → bit_and va (2 ^ 63 + (2 ^ 21 - 1)) ≡ va % 2 ^ 21
page_offset va h =
    let e : 0 * 2 ^ 63 + va ≡ va = omega arith in
    omega (arith, rw e at (bit_and_split 63 0 1 va (2 ^ 21 - 1) h (omega arith)), bit_and_low 21 va)

leaf_lem :
    (va j : ℕ)
    → va < 2 ^ 63
    → j < 512
    → leaf va 1 (j * 2 ^ 21 + 0x83)
      ≡ record { physical = j * 2 ^ 21 + va % 2 ^ 21; page_end = (j + 1) * 2 ^ 21 }
unfolding leaf
leaf_lem va j h k =
    let f : bit_and (j * 2 ^ 21 + 0x83) ((2 ^ 42 - 1) * 2 ^ 21) ≡ j * 2 ^ 21 =
      omega (arith, bit_and_field 42 21 (j * 2 ^ 21 + 0x83)) in
    rw (f, page_offset va h) (ground (arith, bit_or_disjoint 21 j (va % 2 ^ 21)))

abbrev nowhere : Location
nowhere = record { physical = 0; page_end = 0 }

-- Over the boot page tables `virt_to_phys` translates every address of the first gigabyte to itself,
-- and returns the end of its 2 MiB page.
pub virt_to_phys_identity :
    (s : Sregs) (m : Memory) (va : ℕ)
    → va < 2 ^ 30
    → virt_to_phys (setup_system_page_tables s m).1 va
      ≡ record { physical = va; page_end = (va / 2 ^ 21 + 1) * 2 ^ 21 }
unfolding virt_to_phys
virt_to_phys_identity s m va h =
    let (i3, i2, i1) = index_at_lem va in
    let e3 : index_at va 3 ≡ 0 = omega arith in
    let e2 : index_at va 2 ≡ 0 = omega arith in
    let e1 : index_at va 1 ≡ va / 2 ^ 21 = omega arith in
    let (p, q) = pde_flags (va / 2 ^ 21) in
    walk_down t va boot_pml4 2 nowhere e3 (pml4_first s m) refl refl
    ∙ walk_down t va boot_pdpte 1 nowhere e2 (pdpte_first s m) refl refl
    ∙ walk_page t va boot_pde 0 nowhere e1 (pde_entry s m (va / 2 ^ 21) (omega arith)) p q
    ∙ leaf_lem va (va / 2 ^ 21) (omega arith) (omega arith)
    ∙ ground arith
  where
    t : Memory
    t = (setup_system_page_tables s m).1

-- From 1 GiB up to 512 GiB the boot page tables map nothing: `virt_to_phys` leaves both results 0.
pub virt_to_phys_unmapped :
    (s : Sregs) (m : Memory) (va : ℕ)
    → 2 ^ 30 ≤ va
    → va < 2 ^ 39
    → virt_to_phys (setup_system_page_tables s m).1 va ≡ record { physical = 0; page_end = 0 }
unfolding virt_to_phys
virt_to_phys_unmapped s m va h k =
    let (i3, i2, i1) = index_at_lem va in
    let e3 : index_at va 3 ≡ 0 = omega arith in
    let e2 : index_at va 2 ≡ va / 2 ^ 30 = omega arith in
    walk_down t va boot_pml4 2 nowhere e3 (pml4_first s m) refl refl
    ∙ walk_absent t va boot_pdpte 1 nowhere e2
        (pdpte_other s m (va / 2 ^ 30) (omega arith) (omega arith)) refl
  where
    t : Memory
    t = (setup_system_page_tables s m).1

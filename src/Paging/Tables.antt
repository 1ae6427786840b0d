-- ===== src/Paging/Tables.antt =====
-- What the boot page tables hold: the entries that `setup_system_page_tables` leaves behind.
use hermit_caves.Base.{
  ℕ, zero, suc, ◌+◌, ◌*◌, ◌^◌, ◌≤◌, ◌<◌, bit_or, ◌≡◌, refl, ◌∙◌, inl, inr, arith,
}
use hermit_caves.Base.Bits.{bit_or_disjoint}
use hermit_caves.Base.Memory.{
  Memory, load64, store64, load64-store64_self, load64-store64_ne, memset_inside, memset_below,
  load64_zero,
}
use hermit_caves.Paging.{
  Sregs, boot_pml4, boot_pdpte, boot_pde, guest_page_size, page_flags, fill_pde, clear_tables,
  link_tables, setup_system_page_tables,
}
use native.Mathlib.Decide.{ℕ_discrete}

-- The loop writes from entry `i` on.
fill_pde_below :
    (n i p b : ℕ) (m : Memory) → b + 8 ≤ boot_pde + 8 * i → load64 (fill_pde n i p m) b ≡ load64 m b
unfolding fill_pde
fill_pde_below zero i p b m h = refl
fill_pde_below (suc n) i p b m h =
    fill_pde_below n (i + 1) (p + guest_page_size) b
      (store64 m (boot_pde + 8 * i) (bit_or p page_flags)) (omega arith)
    ∙ load64-store64_ne m (boot_pde + 8 * i) b (bit_or p page_flags) (inr h)

fill_pde_entry :
    (n i p j : ℕ) (m : Memory)
    → p ≡ i * 2 ^ 21
    → i + n ≤ 512
    → i ≤ j
    → j < i + n
    → load64 (fill_pde n i p m) (boot_pde + 8 * j) ≡ j * 2 ^ 21 + 0x83
unfolding fill_pde
fill_pde_entry zero i p j m e f h k = absurd (omega arith)
fill_pde_entry (suc n) i p j m e f h k = elim (ℕ_discrete i j) [
  | yes same ↦ rw (← same) (
      fill_pde_below n (i + 1) (p + guest_page_size) (boot_pde + 8 * i)
        (store64 m (boot_pde + 8 * i) (bit_or p page_flags)) (omega arith)
      ∙ load64-store64_self m (boot_pde + 8 * i) (bit_or p page_flags) (rw e (omega (arith, entry)))
      ∙ rw e entry)
  | no differ ↦
      fill_pde_entry n (i + 1) (p + guest_page_size) j
        (store64 m (boot_pde + 8 * i) (bit_or p page_flags)) (omega arith) (omega arith)
        (omega arith) (omega arith)
]
  where
    entry : bit_or (i * 2 ^ 21) page_flags ≡ i * 2 ^ 21 + 0x83
    entry = bit_or_disjoint 21 i 0x83 (omega arith)

-- The words around the loop's entries, before the loop runs.
module _ (m : Memory) where
  abbrev linked : Memory
  linked = link_tables (clear_tables m)

  linked_first : load64 linked boot_pml4 ≡ 0x11003
  unfolding link_tables
  linked_first =
      load64-store64_ne _ boot_pdpte boot_pml4 0x12003 (inr (omega arith))
      ∙ load64-store64_ne _ (boot_pml4 + 8 * 511) boot_pml4 0x10003 (inr (omega arith))
      ∙ load64-store64_self (clear_tables m) boot_pml4 0x11003 (omega arith)

  linked_last : load64 linked (boot_pml4 + 8 * 511) ≡ 0x10003
  unfolding link_tables
  linked_last =
      load64-store64_ne _ boot_pdpte (boot_pml4 + 8 * 511) 0x12003 (inr (omega arith))
      ∙ load64-store64_self _ (boot_pml4 + 8 * 511) 0x10003 (omega arith)

  linked_pdpte : load64 linked boot_pdpte ≡ 0x12003
  unfolding link_tables
  linked_pdpte = load64-store64_self _ boot_pdpte 0x12003 (omega arith)

  cleared : (x : ℕ) → boot_pdpte ≤ x → x < boot_pdpte + 4096 → clear_tables m x ≡ 0
  unfolding clear_tables
  cleared x h k =
      memset_below _ boot_pde 0 4096 x (omega arith) ∙ memset_inside _ boot_pdpte 0 4096 x h k

  linked_other : (j : ℕ) → 0 < j → j < 512 → load64 linked (boot_pdpte + 8 * j) ≡ 0
  unfolding link_tables load64
  linked_other j h k =
      load64-store64_ne _ boot_pdpte (boot_pdpte + 8 * j) 0x12003 (inl (omega arith))
      ∙ load64-store64_ne _ (boot_pml4 + 8 * 511) (boot_pdpte + 8 * j) 0x10003 (inl (omega arith))
      ∙ load64-store64_ne _ boot_pml4 (boot_pdpte + 8 * j) 0x11003 (inl (omega arith))
      ∙ load64_zero (clear_tables m) (boot_pdpte + 8 * j)
          (λ x a b. cleared x (omega arith) (omega arith))

module _ (s : Sregs) (m : Memory) where
  abbrev tables : Memory
  tables = (setup_system_page_tables s m).1

  pub pml4_first : load64 tables boot_pml4 ≡ 0x11003
  unfolding setup_system_page_tables
  pml4_first = fill_pde_below 512 0 0 boot_pml4 _ (omega arith) ∙ linked_first m

  pub pml4_last : load64 tables (boot_pml4 + 8 * 511) ≡ 0x10003
  unfolding setup_system_page_tables
  pml4_last = fill_pde_below 512 0 0 (boot_pml4 + 8 * 511) _ (omega arith) ∙ linked_last m

  pub pdpte_first : load64 tables boot_pdpte ≡ 0x12003
  unfolding setup_system_page_tables
  pdpte_first = fill_pde_below 512 0 0 boot_pdpte _ (omega arith) ∙ linked_pdpte m

  pub pdpte_other : (j : ℕ) → 0 < j → j < 512 → load64 tables (boot_pdpte + 8 * j) ≡ 0
  unfolding setup_system_page_tables
  pdpte_other j h k =
      fill_pde_below 512 0 0 (boot_pdpte + 8 * j) _ (omega arith) ∙ linked_other m j h k

  pub pde_entry : (j : ℕ) → j < 512 → load64 tables (boot_pde + 8 * j) ≡ j * 2 ^ 21 + 0x83
  unfolding setup_system_page_tables
  pde_entry j h = fill_pde_entry 512 0 0 j _ (omega arith) (omega arith) (omega arith) (omega arith)

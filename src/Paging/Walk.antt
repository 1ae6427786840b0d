-- ===== src/Paging/Walk.antt =====
-- One level of `virt_to_phys_for_table`: an absent entry, a pointer to a lower table, a page.
use hermit_caves.Base.{bit_and, ℕ, suc, ◌+◌, ◌*◌, ltb, ◌&&◌, true, false, ◌≡◌}
use hermit_caves.Base.Memory.{Memory, load64}
use hermit_caves.Paging.{
  Location, virt_to_phys_for_table, index_at, leaf, is_set, pg_present, pg_pse, pte_mask,
}

module _ (m : Memory) (va table level : ℕ) (out : Location) {index entry : ℕ} where
  pub walk_absent :
      index_at va (suc level) ≡ index
      → load64 m (table + 8 * index) ≡ entry
      → is_set entry pg_present ≡ false
      → virt_to_phys_for_table m va table (suc level) out ≡ out
  unfolding virt_to_phys_for_table
  walk_absent i e p = rw (i, e) (rw p)

  pub walk_down :
      index_at va (suc level) ≡ index
      → load64 m (table + 8 * index) ≡ entry
      → is_set entry pg_present ≡ true
      → (ltb (suc level) 3 && is_set entry pg_pse) ≡ false
      → virt_to_phys_for_table m va table (suc level) out
        ≡ virt_to_phys_for_table m va (bit_and entry pte_mask) level out
  unfolding virt_to_phys_for_table
  walk_down i e p q = rw (i, e) (rw p (rw q))

  pub walk_page :
      index_at va (suc level) ≡ index
      → load64 m (table + 8 * index) ≡ entry
      → is_set entry pg_present ≡ true
      → (ltb (suc level) 3 && is_set entry pg_pse) ≡ true
      → virt_to_phys_for_table m va table (suc level) out ≡ leaf va (suc level) entry
  unfolding virt_to_phys_for_table
  walk_page i e p q = rw (i, e) (rw p (rw q))

-- The last level.
pub walk_last :
    (m : Memory) (va table : ℕ) (out : Location) {index entry : ℕ}
    → index_at va 0 ≡ index
    → load64 m (table + 8 * index) ≡ entry
    → is_set entry pg_present ≡ true
    → virt_to_phys_for_table m va table 0 out ≡ leaf va 0 entry
unfolding virt_to_phys_for_table
walk_last m va table out i e p = rw (i, e) (rw p)

-- ===== src/Checkpoint/Growth.antt =====
-- In a full checkpoint, the scan leaves the memory alone, and drops nothing that is saved.
use hermit_caves.Base.{
  ℕ, ◌+◌, ◌*◌, ◌^◌, bit_and, bit_or, true, [], ◌∷◌, ◌++◌, ◌≡◌, inl, inr, refl, Bool-cases,
}
use hermit_caves.Base.Memory.{load64}
use hermit_caves.Paging.{pte_mask, pg_present, pg_pse, boot_pml4}
use hermit_caves.Vcpu.Transfer.{bytes_at}
use hermit_caves.Checkpoint.{
  Scan, Mode, is_set, flag_of, save_small, save_large, scan_pgt, scan_pgd, scan_pdpt, scan_pml4,
  not_pse, page_2m_mask,
}
use hermit_caves.Checkpoint.Used.{Contains-left, Grows, for_each-Grows}

module _ (mode : Mode) (full : mode.full_checkpoint ≡ true) where
  pub save_small_full :
      (a : ℕ) (s : Scan)
      → save_small mode a s ≡ record {
        memory = s.memory;
        saved =
            s.saved
            ++ (record {
              entry = bit_and (load64 s.memory a) not_pse;
              page = bytes_at s.memory (bit_and (load64 s.memory a) pte_mask) (2 ^ 12);
            }
                ∷ []);
      }
  unfolding save_small
  save_small_full a s = rw full refl

  pub save_large_full :
      (a : ℕ) (s : Scan)
      → save_large mode a s ≡ record {
        memory = s.memory;
        saved =
            s.saved
            ++ (record {
              entry = load64 s.memory a;
              page = bytes_at s.memory (bit_and (load64 s.memory a) page_2m_mask) (2 ^ 21);
            }
                ∷ []);
      }
  unfolding save_large
  save_large_full a s = rw full refl

  pub scan_pgt-Grows : (pgt l : ℕ) (s : Scan) → Grows s (scan_pgt mode pgt l s)
  unfolding scan_pgt
  scan_pgt-Grows pgt l s =
      elim (Bool-cases
        (is_set (load64 s.memory (pgt + 8 * l)) (bit_or pg_present (flag_of mode)))) [
          | inl e ↦
              rw e (rw (save_small_full (pgt + 8 * l) s) (refl, λ p c. Contains-left p s.saved _ c))
          | inr e ↦ rw e (refl, λ p c. c)
        ]

  pub scan_pgd-Grows : (pgd k : ℕ) (s : Scan) → Grows s (scan_pgd mode pgd k s)
  unfolding scan_pgd
  scan_pgd-Grows pgd k s =
      let entry = load64 s.memory (pgd + 8 * k) in
      elim (Bool-cases (is_set entry pg_present)) [
        | inr e ↦ rw e (refl, λ p c. c)
        | inl e ↦ rw e (elim (Bool-cases (is_set entry pg_pse)) [
          | inr f ↦ rw f (
              for_each-Grows 512 0 (scan_pgt mode (bit_and entry pte_mask)) s
                (scan_pgt-Grows (bit_and entry pte_mask)))
          | inl f ↦ rw f (elim (Bool-cases (is_set entry (flag_of mode))) [
            | inl g ↦
                rw g
                  (rw (save_large_full (pgd + 8 * k) s) (refl, λ p c. Contains-left p s.saved _ c))
            | inr g ↦ rw g (refl, λ p c. c)
          ])
        ])
      ]

  pub scan_pdpt-Grows : (pdpt j : ℕ) (s : Scan) → Grows s (scan_pdpt mode pdpt j s)
  unfolding scan_pdpt
  scan_pdpt-Grows pdpt j s =
      let entry = load64 s.memory (pdpt + 8 * j) in
      elim (Bool-cases (is_set entry pg_present)) [
        | inr e ↦ rw e (refl, λ p c. c)
        | inl e ↦ rw e (
            for_each-Grows 512 0 (scan_pgd mode (bit_and entry pte_mask)) s
              (scan_pgd-Grows (bit_and entry pte_mask)))
      ]

  pub scan_pml4-Grows : (i : ℕ) (s : Scan) → Grows s (scan_pml4 mode i s)
  unfolding scan_pml4
  scan_pml4-Grows i s =
      let entry = load64 s.memory (boot_pml4 + 8 * i) in
      elim (Bool-cases (is_set entry pg_present)) [
        | inr e ↦ rw e (refl, λ p c. c)
        | inl e ↦ rw e (
            for_each-Grows 512 0 (scan_pdpt mode (bit_and entry pte_mask)) s
              (scan_pdpt-Grows (bit_and entry pte_mask)))
      ]

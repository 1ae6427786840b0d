-- ===== src/Checkpoint/Entries.antt =====
-- What `scan_page_tables` saves can be told apart again and goes back to where it came from.
use hermit_caves.Base.{
  ℕ, zero, suc, ◌+◌, ◌*◌, ◌^◌, ◌<◌, bit_and, bit_or, List, [], ◌∷◌, ◌++◌, ◌≡◌, refl, ap, ◌∙◌, arith,
  Bool-cases, inl, inr,
}
use hermit_caves.Base.Bits.{bit_and-zero}
use hermit_caves.Base.BitsAssoc.{bit_and_assoc, bit_and_le}
use hermit_caves.Base.Memory.{Memory, load64, load64-store64_self, store64_lt}
use hermit_caves.Paging.{pte_mask, pg_present, pg_pse, boot_pml4}
use hermit_caves.Vcpu.Transfer.{bytes_at}
use hermit_caves.Checkpoint.{
  Saved, Scan, Mode, for_each, is_set, flag_of, clear_used, save_small, save_large, scan_pgt,
  scan_pgd, scan_pdpt, scan_pml4, scan_page_tables, determine_dest_offset, page_size, not_pse,
  not_used, page_2m_mask,
}

abbrev pub IsBytes : Memory → Type 0
IsBytes m = (x : ℕ) → m x < 256

-- The memory, or the memory after the flags of some entries were cleared by the scan.
pub data HasCleared (mode : Mode) (m : Memory) : Memory → Type 0 where
  uncleared : HasCleared mode m m
  cleared :
      {m' : Memory} → HasCleared mode m m' → (a : ℕ) → HasCleared mode m (clear_used mode a m')

-- The location is 64 bits wide; the page has the size by which it is read back, and its bytes are those
-- that the guest's memory has at the address to which it is read back.
abbrev pub IsSaved : Mode → Memory → Saved → Type 0
IsSaved mode m p =
    (p.entry < 2 ^ 64)
    × ((m' : Memory) × (HasCleared mode m m')
        × (p.page ≡ bytes_at m' (determine_dest_offset p.entry) (page_size p.entry)))

abbrev pub AreSaved : Mode → Memory → List Saved → Type 0
AreSaved mode m [] = Unit {0}
AreSaved mode m (p ∷ ps) = IsSaved mode m p × AreSaved mode m ps

abbrev pub IsScan : Mode → Memory → Scan → Type 0
IsScan mode m s = IsBytes s.memory × (HasCleared mode m s.memory × AreSaved mode m s.saved)

AreSaved-snoc :
    (mode : Mode) (m : Memory) (ps : List Saved) (p : Saved)
    → AreSaved mode m ps
    → IsSaved mode m p
    → AreSaved mode m (ps ++ (p ∷ []))
AreSaved-snoc mode m [] p h k = (k, tt)
AreSaved-snoc mode m (q ∷ ps) p h k = (h.0, AreSaved-snoc mode m ps p h.1 k)

load64_lt : (m : Memory) (a : ℕ) → IsBytes m → load64 m a < 2 ^ 64
unfolding load64
load64_lt m a h =
    omega (arith, h a, h (a + 1), h (a + 2), h (a + 3), h (a + 4), h (a + 5), h (a + 6), h (a + 7))

small_pse : (e : ℕ) → bit_and (bit_and e not_pse) pg_pse ≡ 0
small_pse e = bit_and_assoc e not_pse pg_pse ∙ bit_and-zero e

small_dest : (e : ℕ) → determine_dest_offset (bit_and e not_pse) ≡ bit_and e pte_mask
unfolding determine_dest_offset
small_dest e = rw (small_pse e) (bit_and_assoc e not_pse pte_mask)

module _ (mode : Mode) (start : Memory) where
  small-IsSaved :
      (m : Memory) (e : ℕ)
      → HasCleared mode start m
      → e < 2 ^ 64
      → IsSaved mode start
          (record { entry = bit_and e not_pse; page = bytes_at m (bit_and e pte_mask) (2 ^ 12) })
  small-IsSaved m e c h =
      (omega (arith, bit_and_le e not_pse), (m, c, rw (small_pse e) (rw (small_dest e) refl)))

  large-IsSaved :
      (m : Memory) (e : ℕ)
      → HasCleared mode start m
      → e < 2 ^ 64
      → bit_and e pg_pse ≡ pg_pse
      → IsSaved mode start
          (record { entry = e; page = bytes_at m (bit_and e page_2m_mask) (2 ^ 21) })
  unfolding determine_dest_offset
  large-IsSaved m e c h pse = (h, (m, c, rw pse refl))

  clear_used-IsBytes : (m : Memory) (a : ℕ) → IsBytes m → IsBytes (clear_used mode a m)
  clear_used-IsBytes m a h = elim (Bool-cases mode.full_checkpoint) [
    | inl e ↦ rw e h
    | inr e ↦ rw e (λ x. store64_lt m a (bit_and (load64 m a) not_used) x (h x))
  ]

  save_small-IsScan :
      (a : ℕ) (s : Scan) → IsScan mode start s → IsScan mode start (save_small mode a s)
  unfolding save_small
  save_small-IsScan a s (b, (c, h)) =
      let m = clear_used mode a s.memory in
      let b' = clear_used-IsBytes s.memory a b in
      (
        b',
        (
          cleared c a,
          AreSaved-snoc mode start s.saved _ h
              (small-IsSaved m (load64 m a) (cleared c a) (load64_lt m a b')),
        ),
      )

  cleared_pse :
      (m : Memory) (a : ℕ)
      → IsBytes m
      → bit_and (load64 m a) pg_pse ≡ pg_pse
      → bit_and (load64 (clear_used mode a m) a) pg_pse ≡ pg_pse
  cleared_pse m a b h = elim (Bool-cases mode.full_checkpoint) [
    | inl e ↦ rw e h
    | inr e ↦
        let v = bit_and (load64 m a) not_used in
        rw e (
          ap (λ w. bit_and w pg_pse)
            (load64-store64_self m a v
              (omega (arith, bit_and_le (load64 m a) not_used, load64_lt m a b)))
          ∙ bit_and_assoc (load64 m a) not_used pg_pse
          ∙ h)
  ]

  save_large-IsScan :
      (a : ℕ) (s : Scan)
      → bit_and (load64 s.memory a) pg_pse ≡ pg_pse
      → IsScan mode start s
      → IsScan mode start (save_large mode a s)
  unfolding save_large
  save_large-IsScan a s pse (b, (c, h)) =
      let m = clear_used mode a s.memory in
      let b' = clear_used-IsBytes s.memory a b in
      (
        b',
        (
          cleared c a,
          AreSaved-snoc mode start s.saved _ h (
              large-IsSaved m (load64 m a) (cleared c a) (load64_lt m a b')
                (cleared_pse s.memory a b pse)),
        ),
      )

  for_each-IsScan :
      (n i : ℕ) (body : ℕ → Scan → Scan) (s : Scan)
      → ((j : ℕ) (t : Scan) → IsScan mode start t → IsScan mode start (body j t))
      → IsScan mode start s
      → IsScan mode start (for_each n i body s)
  unfolding for_each
  for_each-IsScan zero i body s keeps h = h
  for_each-IsScan (suc n) i body s keeps h =
      for_each-IsScan n (i + 1) body (body i s) keeps (keeps i s h)

  scan_pgt-IsScan :
      (pgt l : ℕ) (s : Scan) → IsScan mode start s → IsScan mode start (scan_pgt mode pgt l s)
  unfolding scan_pgt
  scan_pgt-IsScan pgt l s h =
      elim (Bool-cases
        (is_set (load64 s.memory (pgt + 8 * l)) (bit_or pg_present (flag_of mode)))) [
          | inl e ↦ rw e (save_small-IsScan (pgt + 8 * l) s h)
          | inr e ↦ rw e h
        ]

  scan_pgd-IsScan :
      (pgd k : ℕ) (s : Scan) → IsScan mode start s → IsScan mode start (scan_pgd mode pgd k s)
  unfolding scan_pgd
  scan_pgd-IsScan pgd k s h =
      let entry = load64 s.memory (pgd + 8 * k) in
      elim (Bool-cases (is_set entry pg_present)) [
        | inr e ↦ rw e h
        | inl e ↦ rw e (elim (Bool-cases (is_set entry pg_pse)) [
          | inr f ↦ rw f (
              for_each-IsScan 512 0 (scan_pgt mode (bit_and entry pte_mask)) s
                (scan_pgt-IsScan (bit_and entry pte_mask)) h)
          | inl f ↦ rw f (elim (Bool-cases (is_set entry (flag_of mode))) [
            | inl g ↦ rw g (save_large-IsScan (pgd + 8 * k) s (ground (arith, f)) h)
            | inr g ↦ rw g h
          ])
        ])
      ]

  scan_pdpt-IsScan :
      (pdpt j : ℕ) (s : Scan) → IsScan mode start s → IsScan mode start (scan_pdpt mode pdpt j s)
  unfolding scan_pdpt
  scan_pdpt-IsScan pdpt j s h =
      let entry = load64 s.memory (pdpt + 8 * j) in
      elim (Bool-cases (is_set entry pg_present)) [
        | inr e ↦ rw e h
        | inl e ↦ rw e (
            for_each-IsScan 512 0 (scan_pgd mode (bit_and entry pte_mask)) s
              (scan_pgd-IsScan (bit_and entry pte_mask)) h)
      ]

  scan_pml4-IsScan :
      (i : ℕ) (s : Scan) → IsScan mode start s → IsScan mode start (scan_pml4 mode i s)
  unfolding scan_pml4
  scan_pml4-IsScan i s h =
      let entry = load64 s.memory (boot_pml4 + 8 * i) in
      elim (Bool-cases (is_set entry pg_present)) [
        | inr e ↦ rw e h
        | inl e ↦ rw e (
            for_each-IsScan 512 0 (scan_pdpt mode (bit_and entry pte_mask)) s
              (scan_pdpt-IsScan (bit_and entry pte_mask)) h)
      ]

  pub scan_page_tables-IsScan : IsBytes start → IsScan mode start (scan_page_tables mode start)
  unfolding scan_page_tables
  scan_page_tables-IsScan h =
      for_each-IsScan 512 0 (scan_pml4 mode) (record { memory = start; saved = [] })
        scan_pml4-IsScan (h, (uncleared, tt))

-- ===== src/Checkpoint/Used.antt =====
-- The pages that are in use, and what the loops of the scan add to what is saved.
use hermit_caves.Base.{
  ℕ, zero, suc, ◌+◌, ◌*◌, ◌^◌, ◌<◌, ◌≤◌, bit_and, bit_or, true, false, List, [], ◌∷◌, ◌++◌, ◌≡◌,
  ◌⊎◌, inl, inr, refl, ◌∙◌, arith, subst,
}
use hermit_caves.Base.Memory.{Memory, load64}
use hermit_caves.Paging.{pte_mask, pg_present, pg_pse, boot_pml4}
use hermit_caves.Vcpu.Transfer.{bytes_at}
use hermit_caves.Checkpoint.{Saved, Scan, Mode, for_each, is_set, flag_of, not_pse, page_2m_mask}

abbrev pub Contains : Saved → List Saved → Type 0
Contains p [] = ⊥
Contains p (q ∷ ps) = (q ≡ p) ⊎ Contains p ps

pub Contains-left : (p : Saved) (ps qs : List Saved) → Contains p ps → Contains p (ps ++ qs)
Contains-left p [] qs h = absurd h
Contains-left p (q ∷ ps) qs (inl h) = inl h
Contains-left p (q ∷ ps) qs (inr h) = inr (Contains-left p ps qs h)

pub Contains-last : (p : Saved) (ps : List Saved) → Contains p (ps ++ (p ∷ []))
Contains-last p [] = inl refl
Contains-last p (q ∷ ps) = inr (Contains-last p ps)

-- The memory is as before, and what was saved is still there.
abbrev pub Grows : Scan → Scan → Type 0
Grows s t = (t.memory ≡ s.memory) × ((p : Saved) → Contains p s.saved → Contains p t.saved)

Grows-join : (s t u : Scan) → Grows s t → Grows t u → Grows s u
Grows-join s t u (e, h) (f, k) = (f ∙ e, λ p c. k p (h p c))

pub for_each-Grows :
    (n i : ℕ) (body : ℕ → Scan → Scan) (s : Scan)
    → ((j : ℕ) (t : Scan) → Grows t (body j t))
    → Grows s (for_each n i body s)
unfolding for_each
for_each-Grows zero i body s g = (refl, λ p c. c)
for_each-Grows (suc n) i body s g =
    Grows-join s (body i s) _ (g i s) (for_each-Grows n (i + 1) body (body i s) g)

-- What one round saves is there at the end.
pub for_each-Contains :
    (n i j : ℕ) (body : ℕ → Scan → Scan) (m : Memory) (p : Saved) (s : Scan)
    → ((k : ℕ) (t : Scan) → Grows t (body k t))
    → i ≤ j
    → j < i + n
    → ((t : Scan) → t.memory ≡ m → Contains p (body j t).saved)
    → s.memory ≡ m
    → Contains p (for_each n i body s).saved
unfolding for_each
for_each-Contains zero i j body m p s g low high adds e = absurd (omega arith)
for_each-Contains (suc n) i j body m p s g low high adds e = elim (here_or_later i j low) [
  | inl here ↦
      (for_each-Grows n (i + 1) body (body i s) g).1 p
        (subst (λ k. Contains p (body k s).saved) here (adds s e))
  | inr later ↦
      for_each-Contains n (i + 1) j body m p (body i s) g later (omega arith) adds ((g i s).0 ∙ e)
]
  where
    here_or_later : (i j : ℕ) → i ≤ j → (j ≡ i) ⊎ (i + 1 ≤ j)
    here_or_later i j h = omega arith

-- The entries of the tables that an address leads to.
abbrev pub pml4_entry : Memory → ℕ → ℕ
pml4_entry m i = load64 m (boot_pml4 + 8 * i)

abbrev pub pdpt_entry : Memory → ℕ → ℕ → ℕ
pdpt_entry m i j = load64 m (bit_and (pml4_entry m i) pte_mask + 8 * j)

abbrev pub pgd_entry : Memory → ℕ → ℕ → ℕ → ℕ
pgd_entry m i j k = load64 m (bit_and (pdpt_entry m i j) pte_mask + 8 * k)

abbrev pub pgt_entry : Memory → ℕ → ℕ → ℕ → ℕ → ℕ
pgt_entry m i j k l = load64 m (bit_and (pgd_entry m i j k) pte_mask + 8 * l)

-- A page in use, at the end of a walk over present entries, and what is to be saved of it.
pub data IsUsed (mode : Mode) (m : Memory) : Saved → Type 0 where
  small :
      (i j k l : ℕ)
      → i < 512
      → j < 512
      → k < 512
      → l < 512
      → is_set (pml4_entry m i) pg_present ≡ true
      → is_set (pdpt_entry m i j) pg_present ≡ true
      → is_set (pgd_entry m i j k) pg_present ≡ true
      → is_set (pgd_entry m i j k) pg_pse ≡ false
      → is_set (pgt_entry m i j k l) (bit_or pg_present (flag_of mode)) ≡ true
      → IsUsed mode m (record {
        entry = bit_and (pgt_entry m i j k l) not_pse;
        page = bytes_at m (bit_and (pgt_entry m i j k l) pte_mask) (2 ^ 12);
      })
  large :
      (i j k : ℕ)
      → i < 512
      → j < 512
      → k < 512
      → is_set (pml4_entry m i) pg_present ≡ true
      → is_set (pdpt_entry m i j) pg_present ≡ true
      → is_set (pgd_entry m i j k) pg_present ≡ true
      → is_set (pgd_entry m i j k) pg_pse ≡ true
      → is_set (pgd_entry m i j k) (flag_of mode) ≡ true
      → IsUsed mode m (record {
        entry = pgd_entry m i j k;
        page = bytes_at m (bit_and (pgd_entry m i j k) page_2m_mask) (2 ^ 21);
      })

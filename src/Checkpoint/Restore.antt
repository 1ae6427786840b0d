-- ===== src/Checkpoint/Restore.antt =====
-- Loading the pages of a checkpoint.
use hermit_caves.Base.{
  ℕ, zero, suc, ◌^◌, ◌≤◌, ◌<◌, ltb, false, List, [], ◌∷◌, ◌++◌, some, length, take, drop, ◌≡◌, refl,
  ap, ◌∙◌, sym, ◌+◌, ◌⊎◌, arith, length-append, take-append_exact, drop-append_exact,
}
use hermit_caves.Base.Memory.{Memory}
use hermit_caves.Syscalls.Wire.{bytes_of, word_of, word_of-bytes_of, length-bytes_of}
use hermit_caves.Vcpu.Transfer.{store_bytes}
use hermit_caves.Vcpu.Written.{length-bytes_at}
use hermit_caves.Checkpoint.{Saved, Mode, file_of, load_pages, determine_dest_offset, page_size}
use hermit_caves.Checkpoint.Entries.{HasCleared, IsSaved, AreSaved}

-- The pages, each at its address, later ones over earlier ones.
abbrev pub place : List Saved → Memory → Memory
place [] m = m
place (p ∷ ps) m = place ps (store_bytes m (determine_dest_offset p.entry) p.page)

head-word : (v : ℕ) (xs : List ℕ) → v < 2 ^ 64 → word_of (take 8 (bytes_of 8 v ++ xs)) ≡ v
head-word v xs h =
    ap (λ n. word_of (take n (bytes_of 8 v ++ xs))) (sym (length-bytes_of 8 v))
    ∙ ap word_of (take-append_exact (bytes_of 8 v) xs)
    ∙ word_of-bytes_of 8 v h

tail-word : (v : ℕ) (xs : List ℕ) → drop 8 (bytes_of 8 v ++ xs) ≡ xs
tail-word v xs =
    ap (λ n. drop n (bytes_of 8 v ++ xs)) (sym (length-bytes_of 8 v))
    ∙ drop-append_exact (bytes_of 8 v) xs

not-shorter : (a b : ℕ) → b ≤ a → ltb a b ≡ false
not-shorter a b h = ground arith

-- One page of a file.
load_page :
    (mode : Mode) (start : Memory) (fuel : ℕ) (p : Saved) (rest : List ℕ) (m : Memory)
    → IsSaved mode start p
    → load_pages (suc fuel) (bytes_of 8 p.entry ++ (p.page ++ rest)) m
      ≡ load_pages fuel rest (store_bytes m (determine_dest_offset p.entry) p.page)
unfolding load_pages
load_page mode start fuel p rest m (small, (m', c, e)) =
    let size : length p.page ≡ page_size p.entry =
      ap length e ∙ length-bytes_at m' (determine_dest_offset p.entry) (page_size p.entry) in
    let long : ltb (length (bytes_of 8 p.entry ++ (p.page ++ rest))) 8 ≡ false = not-shorter _ 8 (
      omega (
        arith,
        length-append {0} (bytes_of 8 p.entry) (p.page ++ rest),
        length-bytes_of 8 p.entry,
      )) in
    let enough : ltb (length (p.page ++ rest)) (page_size p.entry) ≡ false =
      not-shorter _ (page_size p.entry) (omega (arith, length-append {0} p.page rest, size)) in
    let kept : take (page_size p.entry) (p.page ++ rest) ≡ p.page =
      ap (λ n. take n (p.page ++ rest)) (sym size) ∙ take-append_exact p.page rest in
    let left : drop (page_size p.entry) (p.page ++ rest) ≡ rest =
      ap (λ n. drop n (p.page ++ rest)) (sym size) ∙ drop-append_exact p.page rest in
    rw long (
      rw (tail-word p.entry (p.page ++ rest))
        (rw (head-word p.entry (p.page ++ rest) small) (rw enough (rw kept (rw left refl)))))

pub load_pages-file_of :
    (mode : Mode) (start : Memory) (ps : List Saved) (fuel : ℕ) (m : Memory)
    → AreSaved mode start ps
    → length (file_of ps) ≤ fuel
    → load_pages fuel (file_of ps) m ≡ some (place ps m)
unfolding load_pages file_of
load_pages-file_of mode start [] zero m ok h = refl
load_pages-file_of mode start [] (suc fuel) m ok h = refl
load_pages-file_of mode start (p ∷ ps) zero m ok h =
    absurd (lt_zero (omega (arith, h, size p (file_of ps))))
  where
    lt_zero : 0 < 0 → ⊥
    lt_zero k = omega arith

    size : (p : Saved) (rest : List ℕ) → 8 ≤ length (bytes_of 8 p.entry ++ (p.page ++ rest))
    size p rest =
        omega (
          arith,
          length-append {0} (bytes_of 8 p.entry) (p.page ++ rest),
          length-bytes_of 8 p.entry,
        )
load_pages-file_of mode start (p ∷ ps) (suc fuel) m ok h =
    load_page mode start fuel p (file_of ps) m ok.0
    ∙ load_pages-file_of mode start ps fuel _ ok.1 (shorter p (file_of ps) h)
  where
    shorter :
        (p : Saved) (rest : List ℕ)
        → length (bytes_of 8 p.entry ++ (p.page ++ rest)) ≤ suc fuel
        → length rest ≤ fuel
    shorter p rest k = omega (
      arith,
      k,
      length-append {0} (bytes_of 8 p.entry) (p.page ++ rest),
      length-append {0} p.page rest,
      length-bytes_of 8 p.entry,
    )

-- An address in the page, or in one of the pages, by the location of the entry.
abbrev pub InPage : Saved → ℕ → Type 0
InPage p x =
    (determine_dest_offset p.entry ≤ x) × (x < determine_dest_offset p.entry + page_size p.entry)

abbrev pub InPages : List Saved → ℕ → Type 0
InPages [] x = ⊥
InPages (p ∷ ps) x = InPage p x ⊎ InPages ps x

module _ (mode : Mode) (start : Memory) where
  -- What the guest's memory has at an address, perhaps after flags were cleared.
  abbrev pub IsFrom : ℕ → ℕ → Type 0
  IsFrom x v = (m' : Memory) × (HasCleared mode start m') × (v ≡ m' x)

-- ===== src/Utils/Pread.antt =====
-- utils.c: `pread_in_full`. The result of each `pread` is given beforehand; a loop that still runs
-- when the list ends is left as `running`.
mod Tests
use hermit_caves.Base.{
  ℕ, zero, suc, ◌+◌, ◌-◌, ◌*◌, ◌^◌, ◌≤◌, ◌<◌, Bool, true, false, ltb, leb, if◌then◌else◌, List, [],
  ◌∷◌, ◌++◌, ◌≡◌, refl, ap, ◌∙◌, sym, arith, length, take, drop, Bool-cases, inl, inr, append_assoc,
  append-nil, min, ◌⊎◌, length-take, length-drop, length-append, ltb→lt,
}

-- What one `pread` does: it returns some bytes of the file, as many as given but no more than it is
-- asked for and than the file has; it is interrupted (-1 with EINTR); or it fails (-1).
pub data Pread : Type 0 where
  upto : ℕ → Pread
  interrupted : Pread
  failing : Pread

-- -1, or the number of bytes in the buffer and these bytes; or no result yet.
pub data Loaded : Type 0 where
  error : Loaded
  loaded : ℕ → List ℕ → Loaded
  running : Loaded

abbrev pub ssize_max : ℕ
ssize_max = 2 ^ 63 - 1

-- `pread(fd, p, count, offset)` with the file's bytes.
unfoldable pub pread : ℕ → List ℕ → ℕ → ℕ → List ℕ
pread n file count offset = take n (take count (drop offset file))

abbrev pub is_empty : List ℕ → Bool
is_empty [] = true
is_empty (_ ∷ _) = false

-- The loop: `buf` holds what was read.
pub fill : List ℕ → ℕ → List ℕ → ℕ → List Pread → Loaded
fill file zero buf offset calls = loaded (length buf) buf
fill file (suc count) buf offset [] = running
fill file (suc count) buf offset (interrupted ∷ calls) = fill file (suc count) buf offset calls
fill file (suc count) buf offset (failing ∷ calls) = error
fill file (suc count) buf offset (upto n ∷ calls) =
    let chunk = pread n file (suc count) offset in
    let rest = fill file (suc count - length chunk) (buf ++ chunk) (offset + length chunk) calls in
    if is_empty chunk then loaded (length buf) buf else rest

unfoldable pub pread_in_full : List ℕ → ℕ → ℕ → List Pread → Loaded
pread_in_full file count offset calls =
    if ltb ssize_max count then error else fill file count [] offset calls

-- No call fails, and a call that is not interrupted returns something of what there is.
abbrev pub Progress : List Pread → Type 0
Progress [] = Unit {0}
Progress (upto zero ∷ calls) = ⊥
Progress (upto (suc n) ∷ calls) = Progress calls
Progress (interrupted ∷ calls) = Progress calls
Progress (failing ∷ calls) = ⊥

abbrev pub reads : List Pread → ℕ
reads [] = 0
reads (upto n ∷ calls) = suc (reads calls)
reads (interrupted ∷ calls) = reads calls
reads (failing ∷ calls) = reads calls

drop_nil : (m : ℕ) → drop {A = ℕ} m [] ≡ []
drop_nil zero = refl
drop_nil (suc m) = refl

take_nil : (m : ℕ) → take {A = ℕ} m [] ≡ []
take_nil zero = refl
take_nil (suc m) = refl

-- A piece of what is asked for, and the rest of it.
abbrev piece : ℕ → ℕ → List ℕ → List ℕ
piece n count xs = take n (take count xs)

piece-rest :
    (n count : ℕ) (xs : List ℕ)
    → piece n count xs
        ++ take (count - length (piece n count xs)) (drop (length (piece n count xs)) xs)
      ≡ take count xs
piece-rest zero count xs = let e : count - 0 ≡ count = omega arith in rw e
piece-rest (suc n) zero xs = refl
piece-rest (suc n) (suc count) [] = take_nil (suc count - 0)
piece-rest (suc n) (suc count) (x ∷ xs) =
    let e : suc count - suc (length (piece n count xs)) ≡ count - length (piece n count xs) =
      omega arith in
    rw e (ap (λ l. x ∷ l) (piece-rest n count xs))

drop-drop : (n m : ℕ) (xs : List ℕ) → drop (n + m) xs ≡ drop m (drop n xs)
drop-drop zero m xs = let e : 0 + m ≡ m = omega arith in rw e
drop-drop (suc n) m [] = drop_nil (suc n + m) ∙ sym (drop_nil m)
drop-drop (suc n) m (x ∷ xs) =
    let e : suc n + m ≡ suc (n + m) = omega arith in rw e (drop-drop n m xs)

List-cases : (xs : List ℕ) → (xs ≡ []) ⊎ ((x : ℕ) × (ys : List ℕ) × (xs ≡ x ∷ ys))
List-cases [] = inl refl
List-cases (x ∷ xs) = inr (x, xs, refl)

-- What the loop ends with.
abbrev full : List ℕ → ℕ → List ℕ → ℕ → Loaded
full file count buf offset =
    let all = buf ++ take count (drop offset file) in loaded (length all) all

fill_lem :
    (calls : List Pread) (file : List ℕ) (count : ℕ) (buf : List ℕ) (offset : ℕ)
    → Progress calls
    → count < reads calls
    → fill file count buf offset calls ≡ full file count buf offset
unfolding fill pread
fill_lem calls file zero buf offset p h = simp append-nil refl
fill_lem [] file (suc count) buf offset p h = elim h [ ]
fill_lem (interrupted ∷ calls) file (suc count) buf offset p h =
    fill_lem calls file (suc count) buf offset p h
fill_lem (failing ∷ calls) file (suc count) buf offset p h = absurd p
fill_lem (upto zero ∷ calls) file (suc count) buf offset p h = absurd p
fill_lem (upto (suc n) ∷ calls) file (suc count) buf offset p h =
    elim (List-cases (drop offset file)) [
      | inl e ↦ rw e (simp append-nil refl)
      | inr (x, xs, e) ↦
          let chunk = x ∷ piece n count xs in
          rw e (
            fill_lem calls file (suc count - length chunk) (buf ++ chunk) (offset + length chunk) p
              (omega arith)
            ∙ ap (λ l. loaded (length l) l)
                (append_assoc buf chunk
                    (take (suc count - length chunk) (drop (offset + length chunk) file))
                  ∙ ap (λ l. buf ++ l)
                      (ap (λ l. chunk ++ take (suc count - length chunk) l)
                          (drop-drop offset (length chunk) file ∙ ap (drop (length chunk)) e)
                        ∙ piece-rest (suc n) (suc count) (x ∷ xs))))
    ]

-- While no `pread` fails and each that is not interrupted returns something of what is left, as many
-- such calls as bytes are asked for and one more suffice: `pread_in_full` returns the bytes of the
-- file from the offset on, all that are asked for or as far as the file goes, and their number,
-- wherever the calls stop and are interrupted. The size is at most SSIZE_MAX.
pub pread_in_full_complete :
    (file : List ℕ) (count offset : ℕ) (calls : List Pread)
    → count < 2 ^ 63
    → Progress calls
    → count < reads calls
    → pread_in_full file count offset calls
      ≡ loaded (min count (length file - offset)) (take count (drop offset file))
unfolding pread_in_full
pread_in_full_complete file count offset calls h p enough =
    let small : ltb ssize_max count ≡ false = ground arith in
    rw (small, pread_in_full)
      (fill_lem calls file count [] offset p enough
        ∙ ap (λ n. loaded n (take count (drop offset file)))
            (length-take count (drop offset file) ∙ ap (min count) (length-drop offset file)))

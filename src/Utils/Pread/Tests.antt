-- ===== src/Utils/Pread/Tests.antt =====
-- Runs of `pread_in_full`, and an instance of its theorem.
use hermit_caves.Base.{ℕ, ◌-◌, List, [], ◌∷◌, ◌≡◌, refl, arith, length, take, drop, min}
use hermit_caves.Utils.Pread.{
  upto, interrupted, failing, loaded, error, fill, pread, pread_in_full, pread_in_full_complete,
}

abbrev file : List ℕ
file = 10 ∷ 11 ∷ 12 ∷ 13 ∷ 14 ∷ []

fails_late : pread_in_full file 4 0 (upto 2 ∷ failing ∷ []) ≡ error
unfolding pread_in_full fill pread
fails_late = refl

ends_early :
    pread_in_full file 9 3 (upto 1 ∷ interrupted ∷ upto 8 ∷ upto 8 ∷ []) ≡ loaded 2 (13 ∷ 14 ∷ [])
unfolding pread_in_full fill pread
ends_early = refl

pread_in_full_complete_example :
    pread_in_full file 3 1 (upto 2 ∷ interrupted ∷ upto 1 ∷ upto 1 ∷ upto 1 ∷ [])
    ≡ loaded (min 3 (length file - 1)) (take 3 (drop 1 file))
pread_in_full_complete_example =
    pread_in_full_complete file 3 1 (upto 2 ∷ interrupted ∷ upto 1 ∷ upto 1 ∷ upto 1 ∷ [])
      (omega arith) tt (omega arith)

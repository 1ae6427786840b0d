-- ===== src/Syscalls/Wire.antt =====
-- main.c: the loops of `handle_syscalls` around `read` and `write` on the socket, and the C integers
-- in what is read and written (little-endian, as the host stores them).
use native.Mathlib.Numerals.{unary_clauses}
use hermit_caves.Base.{
  ℕ, zero, suc, ◌+◌, ◌-◌, ◌*◌, ◌/◌, ◌%◌, ◌^◌, ◌≤◌, ◌<◌, leb, if◌then◌else◌, List, [], ◌∷◌, ◌++◌,
  ◌≡◌, refl, sym, ap, ◌∙◌, arith, length, take, drop, length-append, Bool-cases, length-drop,
  take-append-drop, leb→le, take-append_over, take-append_under, drop-append_over,
  drop-append_under, inl, inr,
}

-- What arrives at the socket: bytes that one `read` can return together, or an error. `bytes []` is a
-- `read` that returns 0; behind the end of the list every `read` does, or none returns.
pub data Arrival : Type 0 where
  bytes : List ℕ → Arrival
  failure : Arrival

-- What one `write` does: it takes some bytes (the kernel takes no more than there are), or fails.
pub data Taken : Type 0 where
  took : ℕ → Taken
  refused : Taken

-- The loop over `read` has all bytes, never ends, or sees an error.
pub data Got : Type 0 where
  got : List ℕ → List Arrival → Got
  no_more : Got
  broken : List Arrival → Got

pub prefixed : List ℕ → Got → Got
prefixed bs (got bs' rest) = got (bs ++ bs') rest
prefixed bs no_more = no_more
prefixed bs (broken rest) = broken rest

-- `while (j < n)`; `read` returns at most the `n - j` bytes that are asked for, and leaves the others.
unfoldable pub read_full : ℕ → List Arrival → Got
read_full zero input = got [] input
read_full (suc n) [] = no_more
read_full (suc n) (failure ∷ rest) = broken rest
read_full (suc n) (bytes bs ∷ rest) =
    let more = read_full (suc n - length bs) rest in
    if leb (length bs) (suc n)
    then prefixed bs more
    else got (take (suc n) bs) (bytes (drop (suc n) bs) ∷ rest)

-- The loop over `write`: all bytes are out, it never ends, or a `write` fails behind some bytes.
pub data Put : Type 0 where
  written : List ℕ → List Taken → Put
  blocked : Put
  unwritten : List ℕ → List Taken → Put

pub after : List ℕ → Put → Put
after bs (written out rest) = written (bs ++ out) rest
after bs blocked = blocked
after bs (unwritten out rest) = unwritten (bs ++ out) rest

unfoldable pub write_full : List ℕ → List Taken → Put
write_full [] room = written [] room
write_full (b ∷ bs) [] = blocked
write_full (b ∷ bs) (refused ∷ rest) = unwritten [] rest
write_full (b ∷ bs) (took n ∷ rest) = after (take n (b ∷ bs)) (write_full (drop n (b ∷ bs)) rest)

-- The bytes of an integer in memory, and the integer that bytes in memory are.
unfoldable pub bytes_of : ℕ → ℕ → List ℕ
bytes_of zero v = []
bytes_of (suc n) v = v % 256 ∷ bytes_of n (v / 256)

unfoldable pub word_of : List ℕ → ℕ
word_of [] = 0
word_of (b ∷ bs) = b + 256 * word_of bs

pub word_of-bytes_of : (n v : ℕ) → v < 256 ^ n → word_of (bytes_of n v) ≡ v
unfolding word_of bytes_of
word_of-bytes_of zero v h = omega arith
word_of-bytes_of (suc n) v h =
    omega (arith, word_of-bytes_of n (v / 256) (smaller (simp unary_clauses at h)))
  where
    smaller : v < 256 ^ n * 256 → v / 256 < 256 ^ n
    smaller k = omega arith

pub length-bytes_of : (n v : ℕ) → length (bytes_of n v) ≡ n
unfolding bytes_of
length-bytes_of zero v = refl
length-bytes_of (suc n) v = ap suc (length-bytes_of n (v / 256))

-- No `read` fails, and the bytes that arrive.
abbrev pub IsSound : List Arrival → Type 0
IsSound [] = Unit {0}
IsSound (bytes bs ∷ rest) = IsSound rest
IsSound (failure ∷ rest) = ⊥

unfoldable pub stream : List Arrival → List ℕ
stream [] = []
stream (bytes bs ∷ rest) = bs ++ stream rest
stream (failure ∷ rest) = []

-- Loops over `read` see the stream of bytes and not how it is cut.
pub read_full-stream :
    (n : ℕ) (input : List Arrival)
    → IsSound input
    → n ≤ length (stream input)
    → (rest : List Arrival) × (read_full n input ≡ got (take n (stream input)) rest)
      × IsSound rest
      × (stream rest ≡ drop n (stream input))
unfolding read_full stream prefixed
read_full-stream zero input ok h = (input, refl, ok, refl)
read_full-stream (suc n) [] ok h = elim h [ ]
read_full-stream (suc n) (bytes bs ∷ rest) ok h = elim (Bool-cases (leb (length bs) (suc n))) [
  | inl short ↦
      let small = leb→le (length bs) (suc n) short in
      let (rest', e, ok', left) =
        read_full-stream (suc n - length bs) rest ok
          (omega (arith, small, length-append {0} bs (stream rest))) in
      (
        rest',
        rw (short, read_full) (rw e (rw (take-append_over (suc n) bs (stream rest) small))),
        ok',
        left ∙ sym (drop-append_over (suc n) bs (stream rest) small),
      )
  | inr long ↦
      let big : suc n ≤ length bs = ground arith in
      (
        bytes (drop (suc n) bs) ∷ rest,
        rw (long, read_full) (rw (take-append_under (suc n) bs (stream rest) big)),
        ok,
        sym (drop-append_under (suc n) bs (stream rest) big),
      )
]
read_full-stream (suc n) (failure ∷ rest) ok h = absurd ok

-- Every `write` takes something.
abbrev pub IsFlowing : List Taken → Type 0
IsFlowing [] = Unit {0}
IsFlowing (took zero ∷ rest) = ⊥
IsFlowing (took (suc n) ∷ rest) = IsFlowing rest
IsFlowing (refused ∷ rest) = ⊥

-- Loops over `write` put all bytes out, with one call for a byte at most.
pub write_full-IsFlowing :
    (fuel : ℕ) (bs : List ℕ) (room : List Taken)
    → length room ≤ fuel
    → IsFlowing room
    → length bs ≤ length room
    → (rest : List Taken) × (write_full bs room ≡ written bs rest)
      × IsFlowing rest
      × (length room ≤ length rest + length bs)
unfolding write_full after
write_full-IsFlowing fuel [] room f ok h = (room, refl, ok, omega arith)
write_full-IsFlowing fuel (b ∷ bs) [] f ok h = elim h [ ]
write_full-IsFlowing zero (b ∷ bs) (t ∷ rest) f ok h = elim f [ ]
write_full-IsFlowing (suc fuel) (b ∷ bs) (took zero ∷ rest) f ok h = absurd ok
write_full-IsFlowing (suc fuel) (b ∷ bs) (refused ∷ rest) f ok h = absurd ok
write_full-IsFlowing (suc fuel) (b ∷ bs) (took (suc n) ∷ rest) f ok h =
    let (rest', e, ok', room) =
      write_full-IsFlowing fuel (drop n bs) rest (omega arith) ok
        (omega (arith, length-drop n bs)) in
    (
      rest',
      rw e (ap (λ l. written (b ∷ l) rest') (take-append-drop n bs)),
      ok',
      omega (arith, room, length-drop n bs),
    )

-- ===== src/Gdb/Packet/Framing.antt =====
-- The packet format `$<data>#<checksum>`, and what a packet leaves in the stub's buffer.
use hermit_caves.Base.{
  ℕ, zero, suc, ◌+◌, ◌/◌, ◌%◌, ◌<◌, List, [], ◌∷◌, ◌++◌, ◌≡◌, ◌≢◌, refl, ap, length, arith,
}
use hermit_caves.Gdb.Hex.{hexchar}
use hermit_caves.Gdb.Packet.{Recv, byte, bufmax, put, c_string}

-- The sum of the characters modulo 256, on top of `acc`.
abbrev pub sum_from : ℕ → List ℕ → ℕ
sum_from acc [] = acc
sum_from acc (ch ∷ chs) = sum_from ((acc + ch) % 256) chs

abbrev pub digits_of : ℕ → List ℕ
digits_of sum = hexchar (sum / 16) ∷ hexchar (sum % 16) ∷ []

abbrev pub encode : List ℕ → List ℕ
encode chs = b'$' ∷ (chs ++ (b'#' ∷ digits_of (sum_from 0 chs)))

-- The characters as they arrive, in front of what else arrives.
abbrev pub arriving : List ℕ → List Recv → List Recv
arriving [] rest = rest
arriving (ch ∷ chs) rest = byte ch ∷ arriving chs rest

-- A character that can stand in a packet: ASCII, not NUL, and neither `$` nor `#`.
abbrev pub IsPayloadChar : ℕ → Type 0
IsPayloadChar ch = (ch < 128) × (ch ≢ 0) × (ch ≢ b'$') × (ch ≢ b'#')

abbrev pub IsPayload : List ℕ → Type 0
IsPayload [] = Unit {0}
IsPayload (ch ∷ chs) = IsPayloadChar ch × IsPayload chs

-- ASCII characters between packets.
abbrev pub IsNoise : List ℕ → Type 0
IsNoise [] = Unit {0}
IsNoise (ch ∷ chs) = ((ch < 128) × (ch ≢ b'$')) × IsNoise chs

-- The buffer after the characters were stored from index `i` on.
abbrev pub store_from : (ℕ → ℕ) → ℕ → List ℕ → ℕ → ℕ
store_from buffer i [] = buffer
store_from buffer i (ch ∷ chs) = store_from (put buffer i ch) (i + 1) chs

-- The buffer after a whole packet: its characters and a NUL. What stood behind them is still there.
abbrev pub stored : (ℕ → ℕ) → List ℕ → ℕ → ℕ
stored buffer chs = put (store_from buffer 0 chs) (length chs) 0

pub store_from_before :
    (chs : List ℕ) (buffer : ℕ → ℕ) (i j : ℕ) → j < i → store_from buffer i chs j ≡ buffer j
store_from_before [] buffer i j h = refl
store_from_before (ch ∷ chs) buffer i j h =
    ground (arith, store_from_before chs (put buffer i ch) (i + 1) j)

c_string-store_from :
    (chs : List ℕ) (buffer : ℕ → ℕ) (n i k : ℕ)
    → length chs < n
    → k ≡ i + length chs
    → IsPayload chs
    → c_string n (put (store_from buffer i chs) k 0) i ≡ chs
unfolding c_string
c_string-store_from chs buffer zero i k h e p = absurd (omega arith)
c_string-store_from [] buffer (suc n) i k h e p = ground arith
c_string-store_from (ch ∷ chs) buffer (suc n) i k h e p = ground (
  arith,
  store_from_before chs (put buffer i ch) (i + 1) i,
  c_string-store_from chs (put buffer i ch) n (i + 1) k (omega arith) (omega arith) p.1,
)

-- The string at the start of the buffer is the packet's data.
pub c_string-stored :
    (chs : List ℕ) (buffer : ℕ → ℕ)
    → length chs < bufmax
    → IsPayload chs
    → c_string bufmax (stored buffer chs) 0 ≡ chs
c_string-stored chs buffer h p =
    c_string-store_from chs buffer bufmax 0 (length chs) h (omega arith) p

pub sum_from-lt : (chs : List ℕ) (acc : ℕ) → acc < 256 → sum_from acc chs < 256
sum_from-lt [] acc h = h
sum_from-lt (ch ∷ chs) acc h = sum_from-lt chs ((acc + ch) % 256) (omega arith)

pub arriving-append :
    (xs ys : List ℕ) (rest : List Recv) → arriving (xs ++ ys) rest ≡ arriving xs (arriving ys rest)
arriving-append [] ys rest = refl
arriving-append (x ∷ xs) ys rest = ap (◌∷◌ (byte x)) (arriving-append xs ys rest)

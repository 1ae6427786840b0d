-- ===== src/Gdb/Hex.antt =====
-- uhyve-gdb.c: `hex`, `mem2hex` and `hex2mem`.
pub mod RoundTrip
mod Tests
use hermit_caves.Base.{
  ℕ, zero, suc, ◌+◌, ◌-◌, ◌*◌, ◌/◌, ◌%◌, ◌^◌, ◌&&◌, leb, if◌then◌else◌, Option, none, some, List,
  [], ◌∷◌, get_or, length,
}

-- The digit's value; -1, as the bit pattern of an `int`, for any other character.
unfoldable pub hex : ℕ → ℕ
hex ch =
    if leb b'a' ch && leb ch b'f'
    then ch - b'a' + 10
    else if leb b'0' ch && leb ch b'9'
    then ch - b'0'
    else if leb b'A' ch && leb ch b'F'
    then ch - b'A' + 10
    else 2 ^ 32 - 1

abbrev pub hexchars : List ℕ
hexchars =
    b'0' ∷ b'1' ∷ b'2' ∷ b'3' ∷ b'4' ∷ b'5' ∷ b'6' ∷ b'7' ∷ b'8' ∷ b'9' ∷ b'a' ∷ b'b' ∷ b'c' ∷ b'd'
    ∷ b'e' ∷ b'f' ∷ []

-- `hexchars[i]`.
unfoldable pub hexchar : ℕ → ℕ
hexchar i = get_or hexchars i 0

-- The list is the `count` bytes at `mem`, the result the string in `buf`.
unfoldable pub mem2hex : List ℕ → List ℕ
mem2hex [] = []
mem2hex (ch ∷ mem) = hexchar (ch / 2 ^ 4) ∷ hexchar (ch % 16) ∷ mem2hex mem

-- The byte that two characters stand for, as `unsigned char` arithmetic gives it.
unfoldable pub hex_byte : ℕ → ℕ → ℕ
hex_byte hi lo = (hex hi * 2 ^ 4 % 256 + hex lo) % 256

hex2mem_loop : List ℕ → ℕ → List ℕ
hex2mem_loop buf zero = []
hex2mem_loop [] (suc count) = []
hex2mem_loop (hi ∷ []) (suc count) = []
hex2mem_loop (hi ∷ lo ∷ buf) (suc count) = hex_byte hi lo ∷ hex2mem_loop buf count

-- The bytes written to `mem`; `none` is the failure of the assertion, or, where the product wraps around
-- in it and it holds for a count from 2 ^ 63 on, the reading behind the end of `buf`.
unfoldable pub hex2mem : List ℕ → ℕ → Option (List ℕ)
unfolding hex2mem_loop
hex2mem buf count = if leb (2 * count) (length buf) then some (hex2mem_loop buf count) else none

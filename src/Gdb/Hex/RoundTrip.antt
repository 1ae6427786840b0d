-- ===== src/Gdb/Hex/RoundTrip.antt =====
-- `hex2mem` undoes `mem2hex`, and accepts either case.
use hermit_caves.Base.{
  ℕ, ◌+◌, ◌*◌, ◌/◌, ◌%◌, ◌^◌, ◌<◌, true, ◌==◌, ==_iff, leb, some, List, [], ◌∷◌, ◌++◌, ◌≡◌, refl,
  length, length-append, arith,
}
use hermit_caves.Base.Ranges.{holds_below, holds_below_at}
use hermit_caves.Gdb.Hex.{hex, hexchar, mem2hex, hex_byte, hex2mem, hex2mem_loop}

-- Every number of the list is a byte.
abbrev pub IsBytes : List ℕ → Type 0
IsBytes [] = Unit {0}
IsBytes (b ∷ bs) = (b < 256) × IsBytes bs

pub hex-hexchar : (i : ℕ) → i < 16 → hex (hexchar i) ≡ i
unfolding hex hexchar holds_below
hex-hexchar i h = (==_iff _ i).0 (holds_below_at 16 (λ x. hex (hexchar x) == x) i refl h)

pub hex_byte-hexchar : (b : ℕ) → b < 256 → hex_byte (hexchar (b / 2 ^ 4)) (hexchar (b % 16)) ≡ b
unfolding hex_byte
hex_byte-hexchar b h =
    omega (arith, hex-hexchar (b / 2 ^ 4) (omega arith), hex-hexchar (b % 16) (omega arith))

length-mem2hex : (mem : List ℕ) → length (mem2hex mem) ≡ 2 * length mem
unfolding mem2hex
length-mem2hex [] = refl
length-mem2hex (b ∷ mem) = omega (arith, length-mem2hex mem)

loop-mem2hex :
    (mem rest : List ℕ) → IsBytes mem → hex2mem_loop (mem2hex mem ++ rest) (length mem) ≡ mem
unfolding mem2hex hex2mem_loop
loop-mem2hex [] rest h = refl
loop-mem2hex (b ∷ mem) rest h = rw (hex_byte-hexchar b h.0, loop-mem2hex mem rest h.1)

length-append_mem2hex :
    (mem rest : List ℕ) → length (mem2hex mem ++ rest) ≡ 2 * length mem + length rest
length-append_mem2hex mem rest =
    omega (arith, length-append {0} (mem2hex mem) rest, length-mem2hex mem)

-- `hex2mem` reads back from the hexadecimal text of a list of bytes, with any text behind it,
-- exactly those bytes.
pub hex2mem-mem2hex :
    (mem rest : List ℕ) → IsBytes mem → hex2mem (mem2hex mem ++ rest) (length mem) ≡ some mem
unfolding hex2mem
hex2mem-mem2hex mem rest h =
    let fits : leb (2 * length mem) (length (mem2hex mem ++ rest)) ≡ true =
      ground (arith, length-append_mem2hex mem rest) in
    rw fits (rw (loop-mem2hex mem rest h))

-- ===== src/Gdb/Hex/Tests.antt =====
-- Runs of the hexadecimal conversions, and an instance of their round trip.
use hermit_caves.Base.{[], ◌∷◌, ◌++◌, none, some, ◌≡◌, refl, arith}
use hermit_caves.Gdb.Hex.{hex, hex_byte, mem2hex, hex2mem}
use hermit_caves.Gdb.Hex.RoundTrip.{hex2mem-mem2hex}

reads_either_case : hex2mem (b'a' ∷ b'F' ∷ b'0' ∷ b'7' ∷ []) 2 ≡ some (0xaf ∷ 7 ∷ [])
unfolding hex2mem hex_byte hex
reads_either_case = refl

too_short : hex2mem (b'a' ∷ b'F' ∷ b'0' ∷ []) 2 ≡ none
unfolding hex2mem
too_short = refl

hex2mem-mem2hex_example : hex2mem (mem2hex (0x4f ∷ 0 ∷ []) ++ (b'#' ∷ [])) 2 ≡ some (0x4f ∷ 0 ∷ [])
hex2mem-mem2hex_example = hex2mem-mem2hex (0x4f ∷ 0 ∷ []) (b'#' ∷ []) (omega arith)

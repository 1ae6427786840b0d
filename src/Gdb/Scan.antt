-- ===== src/Gdb/Scan.antt =====
-- uhyve-gdb.c: the texts of numbers in packets, as `sscanf` reads them by `%lx`, `%zx` and `%x`, and
-- `snprintf` writes them by `%lx`.
pub mod Numbers
use hermit_caves.Base.{
  ℕ, zero, suc, ◌+◌, ◌-◌, ◌*◌, ◌/◌, ◌%◌, ◌^◌, min, Bool, true, false, ◌&&◌, ◌||◌, ltb, leb, ◌==◌,
  if◌then◌else◌, ◌>>=◌, Option, none, some, List, [], ◌∷◌,
}
use hermit_caves.Base.Digits.{Notation, scan_digits, print_digits}
use hermit_caves.Gdb.Hex.{hex, hexchar}

-- `isspace`.
abbrev pub is_space : ℕ → Bool
is_space ch = ch == b' ' || leb 9 ch && leb ch 13

abbrev pub is_hex : ℕ → Bool
is_hex ch = ltb (hex ch) 16

unfoldable pub skip_space : List ℕ → List ℕ
skip_space [] = []
skip_space (ch ∷ text) = elim (is_space ch) [ true ↦ skip_space text | false ↦ ch ∷ text ]

-- The digits of `%lx`; upper case is read, and never written.
abbrev pub hexadecimal : Notation
hexadecimal = record { base = 16; digit = hexchar; value = hex; is_digit = is_hex }

-- A sign (true for `-`), and the text behind it.
unfoldable pub scan_sign : List ℕ → Bool × List ℕ
scan_sign [] = (false, [])
scan_sign (ch ∷ text) =
    if ch == b'-' then (true, text) else if ch == b'+' then (false, text) else (false, ch ∷ text)

unfoldable pub skip_prefix : List ℕ → List ℕ
skip_prefix [] = []
skip_prefix (ch ∷ []) = ch ∷ []
skip_prefix (ch ∷ x ∷ text) = if ch == b'0' && (x == b'x' || x == b'X') then text else ch ∷ x ∷ text

-- At least one digit is needed; a number above 2 ^ 64 - 1 becomes that number.
unfoldable pub scan_magnitude : Bool → List ℕ → Option (ℕ × List ℕ)
scan_magnitude negative [] = none
scan_magnitude negative (ch ∷ text) =
    let scanned = scan_digits hexadecimal 0 (ch ∷ text) in
    let magnitude = min scanned.0 (2 ^ 64 - 1) in
    if is_hex ch
    then some (
      if negative && ltb scanned.0 (2 ^ 64) then (2 ^ 64 - magnitude) % 2 ^ 64 else magnitude,
      scanned.1,
    )
    else none

-- `%lx`, and a literal character before or behind it.
unfoldable pub scan_hex : List ℕ → Option (ℕ × List ℕ)
scan_hex text =
    let signed = scan_sign (skip_space text) in scan_magnitude signed.0 (skip_prefix signed.1)

unfoldable pub literal : ℕ → List ℕ → Option (List ℕ)
literal ch [] = none
literal ch (c ∷ text) = if c == ch then some text else none

-- `%lx,%zx`.
unfoldable pub scan_pair : List ℕ → Option ((ℕ × ℕ) × List ℕ)
scan_pair text = do
  addr ← scan_hex text
  behind ← literal b',' addr.1
  len ← scan_hex behind
  some ((addr.0, len.0), len.1)

-- What is left of a text up to white space.
unfoldable pub word : List ℕ → List ℕ
word [] = []
word (ch ∷ text) = elim (is_space ch) [ true ↦ [] | false ↦ ch ∷ word text ]

abbrev pub nonempty : List ℕ → Option (List ℕ)
nonempty [] = none
nonempty (ch ∷ text) = some (ch ∷ text)

-- `%s`.
unfoldable pub scan_word : List ℕ → Option (List ℕ)
scan_word text = nonempty (word (skip_space text))

-- `%lx` of `snprintf`.
unfoldable pub print_hex : ℕ → List ℕ
print_hex value = print_digits hexadecimal 16 value []

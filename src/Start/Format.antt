-- ===== src/Start/Format.antt =====
-- What `fprintf` and `fscanf` do with the formats of the checkpoint's configuration.
use hermit_caves.Base.{
  ℕ, ◌+◌, ◌-◌, ◌%◌, ◌^◌, min, Bool, true, false, ◌&&◌, ltb, leb, ◌==◌, if◌then◌else◌, ◌>>=◌, Option,
  none, some, List, [], ◌∷◌,
}
use hermit_caves.Base.Digits.{Notation, scan_digits, print_digits}
use hermit_caves.Gdb.Scan.{is_space, skip_space, scan_sign}

abbrev pub is_decimal : ℕ → Bool
is_decimal ch = leb b'0' ch && leb ch b'9'

abbrev pub decimal : Notation
decimal = record {
  base = 10;
  digit = λ i. b'0' + i;
  value = λ ch. ch - b'0';
  is_digit = is_decimal;
}

-- `%u` of `fprintf`.
unfoldable pub print_decimal : ℕ → List ℕ
print_decimal value = print_digits decimal 10 value []

-- A sign, and at least one digit: the sign, the number and the text behind it.
unfoldable pub scan_digits_of : Bool → List ℕ → Option (Bool × ℕ × List ℕ)
scan_digits_of negative [] = none
scan_digits_of negative (ch ∷ text) =
    let scanned = scan_digits decimal 0 (ch ∷ text) in
    if is_decimal ch then some (negative, scanned.0, scanned.1) else none

unfoldable pub scan_decimal : List ℕ → Option (Bool × ℕ × List ℕ)
scan_decimal text = let signed = scan_sign (skip_space text) in scan_digits_of signed.0 signed.1

-- The value that `%u` stores: the low half of what `strtoul` returns.
abbrev pub unsigned_of : Bool → ℕ → ℕ
unsigned_of negative n =
    if ltb n (2 ^ 64) then if negative then (2 ^ 64 - n) % 2 ^ 32 else n % 2 ^ 32 else 2 ^ 32 - 1

-- The value of `%d`, as its bit pattern: the low half of what `strtol` returns.
abbrev pub int_of : Bool → ℕ → ℕ
int_of negative n =
    if negative then (2 ^ 64 - min n (2 ^ 63)) % 2 ^ 32 else min n (2 ^ 63 - 1) % 2 ^ 32

unfoldable pub scan_unsigned : List ℕ → Option (ℕ × List ℕ)
scan_unsigned text =
    scan_decimal text >>= λ scanned. some (unsigned_of scanned.0 scanned.1, scanned.2)

unfoldable pub scan_int : List ℕ → Option (ℕ × List ℕ)
scan_int text = scan_decimal text >>= λ scanned. some (int_of scanned.0 scanned.1, scanned.2)

-- The characters of a format that are no conversion: white space takes all white space that is there, any
-- other character only itself. The result says if all of them matched, and what is left of the stream.
unfoldable pub match_text : List ℕ → List ℕ → Bool × List ℕ
match_text [] stream = (true, stream)
match_text (ch ∷ format) [] =
    let rest = match_text format [] in if is_space ch then rest else (false, [])
match_text (ch ∷ format) (c ∷ stream) =
    let spaced = match_text format (skip_space (c ∷ stream)) in
    let same = match_text format stream in
    if is_space ch then spaced else if c == ch then same else (false, c ∷ stream)

-- One call of `fscanf` with one conversion: the variable keeps its value where the text does not match.
-- A conversion that fails is taken to leave the stream.
unfoldable pub read_field :
    List ℕ → (List ℕ → Option (ℕ × List ℕ)) → List ℕ → ℕ → List ℕ → ℕ × List ℕ
read_field before conversion behind old stream =
    let matched = match_text before stream in
    elim matched.0 [
      | false ↦ (old, matched.1)
      | true ↦ elim (conversion matched.1) [
        | none ↦ (old, matched.1)
        | some (value, rest) ↦ (value, (match_text behind rest).1)
      ]
    ]

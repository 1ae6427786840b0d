-- ===== src/Gdb/Scan/Numbers.antt =====
-- Numbers that are printed are read back.
use hermit_caves.Base.{
  ℕ, ◌-◌, ◌^◌, ◌<◌, min, Bool, true, ◌&&◌, not, ◌==◌, some, List, [], ◌∷◌, ◌++◌, ◌≡◌, ◌≢◌, refl, ap,
  ◌∙◌, arith, lt→ltb,
}
use hermit_caves.Base.Digits.{
  IsNotation, EndsDigits, scan_digits, print_digits, scan_digits-print_digits, scan_digits_end,
  print_digits_starts, print_digits-append,
}
use hermit_caves.Base.Ranges.{holds_below, holds_below_at}
use hermit_caves.Gdb.Hex.{hex, hexchar}
use hermit_caves.Gdb.Hex.RoundTrip.{hex-hexchar}
use hermit_caves.Gdb.Scan.{
  is_space, is_hex, hexadecimal, skip_space, scan_sign, skip_prefix, scan_magnitude, scan_hex,
  print_hex,
}

pub hexadecimal-IsNotation : IsNotation hexadecimal
hexadecimal-IsNotation = record {
  positive = omega arith;
  reads = λ i h. rw (hex-hexchar i h) (lt→ltb i 16 h);
  keeps = hex-hexchar;
}

-- The text does not go on with the letter of a prefix.
abbrev pub NoPrefix : List ℕ → Type 0
NoPrefix [] = Unit {0}
NoPrefix (ch ∷ text) = (ch ≢ b'x') × (ch ≢ b'X')

-- A text that ends a number.
abbrev pub EndsNumber : List ℕ → Type 0
EndsNumber text = EndsDigits hexadecimal text × NoPrefix text

-- A printed number starts with a digit; neither white space, a sign nor a prefix is taken off it.
is_plain : ℕ → Bool
is_plain ch =
    is_hex ch
    && not (is_space ch)
    && not (ch == b'-')
    && not (ch == b'+')
    && not (ch == b'x')
    && not (ch == b'X')

is_plain-hexchar : (i : ℕ) → i < 16 → is_plain (hexchar i) ≡ true
unfolding is_plain hex hexchar holds_below
is_plain-hexchar i h = holds_below_at 16 (λ x. is_plain (hexchar x)) i refl h

hexchar-NoPrefix : (i : ℕ) (text : List ℕ) → i < 16 → NoPrefix (hexchar i ∷ text)
unfolding is_plain
hexchar-NoPrefix i text h = let p = is_plain-hexchar i h in ground arith

scan_hex_plain :
    (ch : ℕ) (text : List ℕ)
    → is_plain ch ≡ true
    → NoPrefix text
    → scan_hex (ch ∷ text)
      ≡ some (
        min (scan_digits hexadecimal 0 (ch ∷ text)).0 (2 ^ 64 - 1),
        (scan_digits hexadecimal 0 (ch ∷ text)).1,
      )
unfolding scan_hex is_plain skip_space scan_sign skip_prefix scan_magnitude
scan_hex_plain ch [] p h = ground arith
scan_hex_plain ch (x ∷ text) p h = ground arith

scan_hex-print_digits :
    (value : ℕ) (rest : List ℕ)
    → value < 2 ^ 64
    → NoPrefix rest
    → scan_hex (print_digits hexadecimal 16 value rest)
      ≡ some (
        min (scan_digits hexadecimal 0 (print_digits hexadecimal 16 value rest)).0 (2 ^ 64 - 1),
        (scan_digits hexadecimal 0 (print_digits hexadecimal 16 value rest)).1,
      )
scan_hex-print_digits value rest h k =
    let (i, tail, b, e, t) =
      print_digits_starts hexadecimal hexadecimal-IsNotation NoPrefix hexchar-NoPrefix 15 value rest
        (omega arith) k in
    rw e (scan_hex_plain (hexchar i) tail (is_plain-hexchar i b) t)

-- A 64-bit number that `%lx` prints is read back, with what follows it left.
pub scan_hex-print_hex :
    (value : ℕ) (rest : List ℕ)
    → value < 2 ^ 64
    → EndsNumber rest
    → scan_hex (print_hex value ++ rest) ≡ some (value, rest)
unfolding print_hex
scan_hex-print_hex value rest h (ends, plain) =
    rw (print_digits-append hexadecimal 16 value [] rest) (
      scan_hex-print_digits value rest h plain
      ∙ rw
          (scan_digits-print_digits hexadecimal hexadecimal-IsNotation 15 value rest (omega arith)
            ∙ scan_digits_end hexadecimal hexadecimal-IsNotation value rest ends)
          (ap (λ v. some (v, rest)) (omega arith)))

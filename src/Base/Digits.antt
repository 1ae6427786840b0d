-- ===== src/Base/Digits.antt =====
-- Numbers as texts of digits: how `sscanf` reads them and `snprintf` writes them.
use hermit_caves.Base.Tests.{ltb, if◌then◌else◌, Bool-cases, ltb→lt, lt→ltb}
use Prim.Native.Nat.{ℕ, zero, suc, ◌+◌, ◌*◌, ◌/◌, ◌%◌, ◌^◌, ◌<◌}
use mathlib.Core.Path.{◌≡◌, refl, ap, ◌∙◌}
use mathlib.Core.Logic.{inl, inr}
use mathlib.Core.Bool.{Bool, true, false}
use mathlib.Core.List.{List, [], ◌∷◌, ◌++◌}
use native.Mathlib.Nat.{div-add-mod, mod-lt, div-lt_iff_lt-mul, pow-suc, pow-zero, mul-zero}
use native.Mathlib.Omega.{arith}

-- A base, its digits, and their values.
pub record Notation : Type 0 where
  pub base : ℕ
  pub digit : ℕ → ℕ
  pub value : ℕ → ℕ
  pub is_digit : ℕ → Bool

module _ (d : Notation) where
  -- The digits in front, on top of the number `n`, and the text behind them.
  unfoldable pub scan_digits : ℕ → List ℕ → ℕ × List ℕ
  scan_digits n [] = (n, [])
  scan_digits n (ch ∷ text) = elim (d.is_digit ch) [
    | true ↦ scan_digits (d.base * n + d.value ch) text
    | false ↦ (n, ch ∷ text)
  ]

  -- At most `k` digits of `n`, in front of `text`.
  unfoldable pub print_digits : ℕ → ℕ → List ℕ → List ℕ
  print_digits zero n text = text
  print_digits (suc k) n text =
      let longer = print_digits k (n / d.base) (d.digit (n % d.base) ∷ text) in
      if ltb n d.base then d.digit n ∷ text else longer

-- Each digit is read back.
pub record IsNotation (d : Notation) : Type 0 where
  pub positive : 1 < d.base
  pub reads : (i : ℕ) → i < d.base → d.is_digit (d.digit i) ≡ true
  pub keeps : (i : ℕ) → i < d.base → d.value (d.digit i) ≡ i

-- A text that does not go on with a digit.
abbrev pub EndsDigits : Notation → List ℕ → Type 0
EndsDigits d [] = Unit {0}
EndsDigits d (ch ∷ text) = d.is_digit ch ≡ false

module _ (d : Notation) (h : IsNotation d) where
  scan_digit :
      (n i : ℕ) (text : List ℕ)
      → i < d.base
      → scan_digits d n (d.digit i ∷ text) ≡ scan_digits d (d.base * n + i) text
  unfolding scan_digits
  scan_digit n i text k = rw (h.reads i k, scan_digits) (rw (h.keeps i k) refl)

  pub scan_digits_end :
      (n : ℕ) (rest : List ℕ) → EndsDigits d rest → scan_digits d n rest ≡ (n, rest)
  unfolding scan_digits
  scan_digits_end n [] e = refl
  scan_digits_end n (ch ∷ rest) e = rw (e, scan_digits) refl

  quotient_lt : (k n : ℕ) → n < d.base ^ suc k → n / d.base < d.base ^ k
  quotient_lt k n l =
      (div-lt_iff_lt-mul {k = d.base} {x = n} {y = d.base ^ k} (omega (arith, h.positive))).1
        (omega (arith, pow-suc d.base k, l))

  rest_lt : (n : ℕ) → n % d.base < d.base
  rest_lt n = mod-lt n (omega (arith, h.positive))

  last_lt : (n : ℕ) → n < d.base ^ 1 → n < d.base
  last_lt n l = omega (arith, pow-suc d.base 0, ap (λ x. x * d.base) (pow-zero d.base), l)

  scan_small :
      (k n : ℕ) (text : List ℕ)
      → ltb n d.base ≡ true
      → scan_digits d 0 (print_digits d (suc k) n text) ≡ scan_digits d n text
  unfolding print_digits
  scan_small k n text small =
      rw (small, print_digits)
        (scan_digit 0 n text (ltb→lt n d.base small)
          ∙ ap (λ v. scan_digits d (v + n) text) (mul-zero d.base)
          ∙ ap (λ v. scan_digits d v text) (omega arith))

  pub scan_digits-print_digits :
      (k n : ℕ) (text : List ℕ)
      → n < d.base ^ suc k
      → scan_digits d 0 (print_digits d (suc k) n text) ≡ scan_digits d n text
  unfolding print_digits
  scan_digits-print_digits zero n text l = scan_small zero n text (lt→ltb n d.base (last_lt n l))
  scan_digits-print_digits (suc k) n text l = elim (Bool-cases (ltb n d.base)) [
    | inl small ↦ scan_small (suc k) n text small
    | inr large ↦
        rw (large, print_digits)
          (scan_digits-print_digits k (n / d.base) (d.digit (n % d.base) ∷ text)
              (quotient_lt (suc k) n l)
            ∙ scan_digit (n / d.base) (n % d.base) text (rest_lt n)
            ∙ ap (λ v. scan_digits d v text) (div-add-mod n d.base))
  ]

  -- A printed number starts with a digit, and goes on with digits or the text behind it.
  pub print_digits_starts :
      (Q : List ℕ → Type 0)
      → ((i : ℕ) (tail : List ℕ) → i < d.base → Q (d.digit i ∷ tail))
      → (k n : ℕ) (text : List ℕ) → n < d.base ^ suc k
      → Q text
      → (i : ℕ) × (tail : List ℕ) × (i < d.base)
        × (print_digits d (suc k) n text ≡ d.digit i ∷ tail)
        × Q tail
  unfolding print_digits
  print_digits_starts Q q zero n text l r =
      let small = last_lt n l in (n, text, small, rw (lt→ltb n d.base small, print_digits) refl, r)
  print_digits_starts Q q (suc k) n text l r = elim (Bool-cases (ltb n d.base)) [
    | inl small ↦ (n, text, ltb→lt n d.base small, rw (small, print_digits) refl, r)
    | inr large ↦
        let (i, tail, b, e, t) =
          print_digits_starts Q q k (n / d.base) (d.digit (n % d.base) ∷ text)
            (quotient_lt (suc k) n l) (q (n % d.base) text (rest_lt n)) in
        (i, tail, b, rw (large, print_digits) e, t)
  ]

pub print_digits-append :
    (d : Notation) (k n : ℕ) (text rest : List ℕ)
    → print_digits d k n text ++ rest ≡ print_digits d k n (text ++ rest)
unfolding print_digits
print_digits-append d zero n text rest = refl
print_digits-append d (suc k) n text rest = elim (Bool-cases (ltb n d.base)) [
  | inl small ↦ rw (small, print_digits) refl
  | inr large ↦
      rw (large, print_digits)
        (print_digits-append d k (n / d.base) (d.digit (n % d.base) ∷ text) rest)
]

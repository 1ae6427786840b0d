-- ===== src/Base/Bits.antt =====
-- Laws of `&` and `|` on machine words: masks of low bits, masks shifted left, disjoint fields.
use Prim.Native.Nat.{ℕ, zero, suc, ◌+◌, ◌-◌, ◌*◌, ◌/◌, ◌%◌, ◌^◌, ◌≤◌, ◌<◌, min, max}
use Prim.Native.Nat.{bit_and, bit_or, digits, bit_and-bitwise, bit_or-bitwise}
use mathlib.Core.Path.{◌≡◌, refl, sym, ◌∙◌, ap}
use native.Mathlib.Omega.{arith}
use native.Mathlib.Nat.{pow-suc, one-le-pow}

-- The digit recursion of the operations, whose fuel is irrelevant once it covers the first number.
module _ (z : ℕ → ℕ) (f : ℕ → ℕ → ℕ) where
  digits-zero : (fuel y : ℕ) → digits z f fuel 0 y ≡ z y
  digits-zero zero y = refl
  digits-zero (suc fuel) y = refl

  digits_covered :
      (x y fuel fuel' : ℕ) → x ≤ fuel → x ≤ fuel' → digits z f fuel x y ≡ digits z f fuel' x y
  digits_covered zero y fuel fuel' p q = digits-zero fuel y ∙ sym (digits-zero fuel' y)
  digits_covered (suc x) y zero fuel' p q = absurd (omega arith)
  digits_covered (suc x) y (suc fuel) zero p q = absurd (omega arith)
  digits_covered (suc x) y (suc fuel) (suc fuel') p q =
      ap (λ t. t * 2 + f (suc x % 2) (y % 2))
        (digits_covered (suc x / 2) (y / 2) fuel fuel' (omega arith) (omega arith))

  -- One digit of a number that is not zero.
  digits_next :
      (x y : ℕ)
      → digits z f (suc x) (suc x) y
        ≡ digits z f (suc x / 2) (suc x / 2) (y / 2) * 2 + f (suc x % 2) (y % 2)
  digits_next x y =
      ap (λ t. t * 2 + f (suc x % 2) (y % 2))
        (digits_covered (suc x / 2) (y / 2) x (suc x / 2) (omega arith) (omega arith))

pub bit_and_step : (x y : ℕ) → bit_and x y ≡ bit_and (x / 2) (y / 2) * 2 + min (x % 2) (y % 2)
bit_and_step zero y = rw (bit_and-bitwise 0 y, bit_and-bitwise 0 (y / 2)) (omega arith)
bit_and_step (suc x) y =
    rw (bit_and-bitwise (suc x) y, bit_and-bitwise (suc x / 2) (y / 2))
      (digits_next (λ t. 0) min x y)

pub bit_or_step : (x y : ℕ) → bit_or x y ≡ bit_or (x / 2) (y / 2) * 2 + max (x % 2) (y % 2)
bit_or_step zero y = rw (bit_or-bitwise 0 y, bit_or-bitwise 0 (y / 2)) (omega arith)
bit_or_step (suc x) y =
    rw (bit_or-bitwise (suc x) y, bit_or-bitwise (suc x / 2) (y / 2)) (digits_next (λ t. t) max x y)

pub zero-bit_and : (b : ℕ) → bit_and 0 b ≡ 0
zero-bit_and b = simp bit_and-bitwise (omega arith)

pub zero-bit_or : (b : ℕ) → bit_or 0 b ≡ b
zero-bit_or b = simp bit_or-bitwise (omega arith)

bit_and-zero_below : (n a : ℕ) → a ≤ n → bit_and a 0 ≡ 0
bit_and-zero_below n zero h = refl
bit_and-zero_below zero (suc a) h = absurd (omega arith)
bit_and-zero_below (suc n) (suc a) h =
    omega (arith, bit_and_step (suc a) 0, bit_and-zero_below n (suc a / 2) (omega arith))

pub bit_and-zero : (a : ℕ) → bit_and a 0 ≡ 0
bit_and-zero a = bit_and-zero_below a a (omega arith)

bit_or-zero_below : (n a : ℕ) → a ≤ n → bit_or a 0 ≡ a
bit_or-zero_below n zero h = refl
bit_or-zero_below zero (suc a) h = absurd (omega arith)
bit_or-zero_below (suc n) (suc a) h =
    omega (arith, bit_or_step (suc a) 0, bit_or-zero_below n (suc a / 2) (omega arith))

pub bit_or-zero : (a : ℕ) → bit_or a 0 ≡ a
bit_or-zero a = bit_or-zero_below a a (omega arith)

double-pow : (q k : ℕ) → q * 2 ^ suc k ≡ 2 * (q * 2 ^ k)
double-pow q k = omega (arith, ap (λ (t : ℕ). q * t) (pow-suc 2 k))

-- `&` acts on the high and on the low fields by themselves.
pub bit_and_split :
    (k q m r c : ℕ)
    → r < 2 ^ k
    → c < 2 ^ k
    → bit_and (q * 2 ^ k + r) (m * 2 ^ k + c) ≡ bit_and q m * 2 ^ k + bit_and r c
bit_and_split zero q m r c h g =
    let e : q * 1 + r ≡ q = omega arith in
    let f : m * 1 + c ≡ m = omega arith in
    let x : r ≡ 0 = omega arith in let y : c ≡ 0 = omega arith in rw (e, f, x, y) (omega arith)
bit_and_split (suc k) q m r c h g = ground (
  arith,
  bit_and_step (q * 2 ^ suc k + r) (m * 2 ^ suc k + c),
  bit_and_step r c,
  double-pow q k,
  double-pow m k,
  double-pow (bit_and q m) k,
  bit_and_split k q m (r / 2) (c / 2) (omega (arith, pow-suc 2 k)) (omega (arith, pow-suc 2 k)),
)

-- `|` acts on the high and on the low fields by themselves.
pub bit_or_split :
    (k q m r c : ℕ)
    → r < 2 ^ k
    → c < 2 ^ k
    → bit_or (q * 2 ^ k + r) (m * 2 ^ k + c) ≡ bit_or q m * 2 ^ k + bit_or r c
bit_or_split zero q m r c h g =
    let e : q * 1 + r ≡ q = omega arith in
    let f : m * 1 + c ≡ m = omega arith in
    let x : r ≡ 0 = omega arith in let y : c ≡ 0 = omega arith in rw (e, f, x, y) (omega arith)
bit_or_split (suc k) q m r c h g = ground (
  arith,
  bit_or_step (q * 2 ^ suc k + r) (m * 2 ^ suc k + c),
  bit_or_step r c,
  double-pow q k,
  double-pow m k,
  double-pow (bit_or q m) k,
  bit_or_split k q m (r / 2) (c / 2) (omega (arith, pow-suc 2 k)) (omega (arith, pow-suc 2 k)),
)

half_ones : (k : ℕ) → (2 ^ suc k - 1) / 2 ≡ 2 ^ k - 1
half_ones k = omega (arith, pow-suc 2 k, one-le-pow k 2)

-- All bits of a number that fits `k` of them.
ones : (k r : ℕ) → r < 2 ^ k → bit_and r (2 ^ k - 1) ≡ r
ones zero r h = rw (bit_and-zero r) (omega arith)
ones (suc k) r h = omega (
  arith,
  bit_and_step r (2 ^ suc k - 1),
  pow-suc 2 k,
  one-le-pow k 2,
  ap (λ m. bit_and (r / 2) m) (half_ones k),
  ones k (r / 2) (omega (arith, pow-suc 2 k)),
)

-- `a & ((1 << k) - 1)` keeps the `k` low bits.
pub bit_and_low : (k a : ℕ) → bit_and a (2 ^ k - 1) ≡ a % 2 ^ k
bit_and_low k a = ground (
  arith,
  one-le-pow k 2,
  bit_and_split k (a / 2 ^ k) 0 (a % 2 ^ k) (2 ^ k - 1),
  bit_and-zero (a / 2 ^ k),
  ones k (a % 2 ^ k),
)

-- A mask that is shifted left acts on the number without its low bits.
shifted_mask : (k q r m : ℕ) → r < 2 ^ k → bit_and (q * 2 ^ k + r) (m * 2 ^ k) ≡ bit_and q m * 2 ^ k
shifted_mask k q r m h = ground (arith, one-le-pow k 2, bit_and_split k q m r 0, bit_and-zero r)

-- `a & (((1 << n) - 1) << k)` keeps the `n` bits from bit `k` on.
pub bit_and_field : (n k a : ℕ) → bit_and a ((2 ^ n - 1) * 2 ^ k) ≡ (a / 2 ^ k) % 2 ^ n * 2 ^ k
bit_and_field n k a = ground (
  arith,
  one-le-pow k 2,
  shifted_mask k (a / 2 ^ k) (a % 2 ^ k) (2 ^ n - 1),
  bit_and_low n (a / 2 ^ k),
)

-- `(q << k) | r` is a sum if `r` fits the `k` bits.
pub bit_or_disjoint : (k q r : ℕ) → r < 2 ^ k → bit_or (q * 2 ^ k) r ≡ q * 2 ^ k + r
bit_or_disjoint k q r h =
    ground (arith, one-le-pow k 2, bit_or_split k q 0 0 r, bit_or-zero q, zero-bit_or r)

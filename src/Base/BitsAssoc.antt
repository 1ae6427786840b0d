-- ===== src/Base/BitsAssoc.antt =====
-- Masks on masks.
use hermit_caves.Base.Bits.{bit_and_step, zero-bit_and}
use Prim.Native.Nat.{ℕ, zero, suc, ◌/◌, ◌%◌, ◌≤◌, bit_and, min}
use mathlib.Core.Path.{◌≡◌, sym, ap}
use native.Mathlib.Omega.{arith}

bit_and_half : (a b : ℕ) → bit_and a b / 2 ≡ bit_and (a / 2) (b / 2)
bit_and_half a b = omega (arith, bit_and_step a b)

bit_and_parity : (a b : ℕ) → bit_and a b % 2 ≡ min (a % 2) (b % 2)
bit_and_parity a b = omega (arith, bit_and_step a b)

assoc_below : (k a b c : ℕ) → a ≤ k → bit_and (bit_and a b) c ≡ bit_and a (bit_and b c)
assoc_below zero a b c h =
    let e : a ≡ 0 = omega arith in
    rw e (rw (zero-bit_and b) (rw (zero-bit_and c) (sym (zero-bit_and (bit_and b c)))))
assoc_below (suc k) a b c h =
    let left = ap (λ x. bit_and x (c / 2)) (bit_and_half a b) in
    let right = ap (λ x. bit_and (a / 2) x) (bit_and_half b c) in
    omega (
      arith,
      bit_and_step (bit_and a b) c,
      bit_and_step a (bit_and b c),
      left,
      right,
      bit_and_parity a b,
      bit_and_parity b c,
      assoc_below k (a / 2) (b / 2) (c / 2) (omega arith),
    )

pub bit_and_assoc : (a b c : ℕ) → bit_and (bit_and a b) c ≡ bit_and a (bit_and b c)
bit_and_assoc a b c = assoc_below a a b c (omega arith)

le_below : (k a b : ℕ) → a ≤ k → bit_and a b ≤ a
le_below zero a b h =
    let e : a ≡ 0 = omega arith in omega (arith, e, ap (λ x. bit_and x b) e, zero-bit_and b)
le_below (suc k) a b h = omega (arith, bit_and_step a b, le_below k (a / 2) (b / 2) (omega arith))

pub bit_and_le : (a b : ℕ) → bit_and a b ≤ a
bit_and_le a b = le_below a a b (omega arith)

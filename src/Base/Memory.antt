-- ===== src/Base/Memory.antt =====
-- The guest's memory as the host sees it: bytes by their offset from `guest_mem`, and the 64-bit
-- little-endian words that C reads and writes through a `size_t *` or a `uint64_t *`.
use hermit_caves.Base.Tests.{ltb, leb, ◌==◌, if◌then◌else◌}
use Prim.Native.Nat.{ℕ, zero, suc, ◌+◌, ◌-◌, ◌*◌, ◌/◌, ◌%◌, ◌^◌, ◌≤◌, ◌<◌}
use mathlib.Core.Path.{◌≡◌}
use mathlib.Core.Bool.{◌&&◌}
use mathlib.Core.Logic.{◌⊎◌}
use native.Mathlib.Omega.{arith}

abbrev pub Memory : Type 0
Memory = ℕ → ℕ

-- Byte `i` of a word.
pub byte_of : ℕ → ℕ → ℕ
byte_of v zero = v % 256
byte_of v (suc i) = byte_of (v / 256) i

-- `*p = v` at a `uint8_t *`.
unfoldable pub store8 : Memory → ℕ → ℕ → Memory
store8 m a v x = if x == a then v else m x

unfoldable pub store64 : Memory → ℕ → ℕ → Memory
unfolding byte_of
store64 m a v x = if leb a x && ltb x (a + 8) then byte_of v (x - a) else m x

unfoldable pub load64 : Memory → ℕ → ℕ
load64 m a =
    m a
    + 256
      * (m (a + 1)
          + 256
            * (m (a + 2)
                + 256
                  * (m (a + 3)
                      + 256
                        * (m (a + 4) + 256 * (m (a + 5) + 256 * (m (a + 6) + 256 * m (a + 7)))))))

-- `memset(p, v, n)`.
unfoldable pub memset : Memory → ℕ → ℕ → ℕ → Memory
memset m a v n x = if leb a x && ltb x (a + n) then v else m x

store64_byte : (m : Memory) (a v i : ℕ) → i < 8 → store64 m a v (a + i) ≡ byte_of v i
unfolding store64
store64_byte m a v i h = let e : a + i - a ≡ i = omega arith in rw e (ground arith)

store64_first : (m : Memory) (a v : ℕ) → store64 m a v a ≡ byte_of v 0
unfolding store64
store64_first m a v = let e : a - a ≡ 0 = omega arith in rw e (ground arith)

pub store64_outside : (m : Memory) (a v x : ℕ) → (x < a) ⊎ (a + 8 ≤ x) → store64 m a v x ≡ m x
unfolding store64
store64_outside m a v x h = ground arith

pub memset_inside : (m : Memory) (a v n x : ℕ) → a ≤ x → x < a + n → memset m a v n x ≡ v
unfolding memset
memset_inside m a v n x h k = ground arith

pub memset_below : (m : Memory) (a v n x : ℕ) → x < a → memset m a v n x ≡ m x
unfolding memset
memset_below m a v n x h = ground arith

pub load64_zero : (m : Memory) (a : ℕ) → ((x : ℕ) → a ≤ x → x < a + 8 → m x ≡ 0) → load64 m a ≡ 0
unfolding load64
load64_zero m a h = omega (
  arith,
  h a (omega arith) (omega arith),
  h (a + 1) (omega arith) (omega arith),
  h (a + 2) (omega arith) (omega arith),
  h (a + 3) (omega arith) (omega arith),
  h (a + 4) (omega arith) (omega arith),
  h (a + 5) (omega arith) (omega arith),
  h (a + 6) (omega arith) (omega arith),
  h (a + 7) (omega arith) (omega arith),
)

pub load64-store64_self : (m : Memory) (a v : ℕ) → v < 2 ^ 64 → load64 (store64 m a v) a ≡ v
unfolding load64 byte_of
load64-store64_self m a v h = omega (
  arith,
  store64_first m a v,
  store64_byte m a v 1 (omega arith),
  store64_byte m a v 2 (omega arith),
  store64_byte m a v 3 (omega arith),
  store64_byte m a v 4 (omega arith),
  store64_byte m a v 5 (omega arith),
  store64_byte m a v 6 (omega arith),
  store64_byte m a v 7 (omega arith),
)

pub load64-store64_ne :
    (m : Memory) (a b v : ℕ) → (a + 8 ≤ b) ⊎ (b + 8 ≤ a) → load64 (store64 m a v) b ≡ load64 m b
unfolding load64
load64-store64_ne m a b v h = omega (
  arith,
  store64_outside m a v b (omega arith),
  store64_outside m a v (b + 1) (omega arith),
  store64_outside m a v (b + 2) (omega arith),
  store64_outside m a v (b + 3) (omega arith),
  store64_outside m a v (b + 4) (omega arith),
  store64_outside m a v (b + 5) (omega arith),
  store64_outside m a v (b + 6) (omega arith),
  store64_outside m a v (b + 7) (omega arith),
)

byte_of_lt : (i v : ℕ) → byte_of v i < 256
unfolding byte_of
byte_of_lt zero v = omega arith
byte_of_lt (suc i) v = byte_of_lt i (v / 256)

pub store64_lt : (m : Memory) (a v x : ℕ) → m x < 256 → store64 m a v x < 256
unfolding store64
store64_lt m a v x h = ground (arith, byte_of_lt (x - a) v)

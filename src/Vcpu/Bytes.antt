-- ===== src/Vcpu/Bytes.antt =====
-- Bytes that are stored in the guest's memory are read back, and others are left.
use hermit_caves.Base.{
  ◌<◌, ltb, leb, ◌&&◌, true, false, get_or, ◌⊎◌, inl, inr, Bool-cases, ap, ◌∙◌, ℕ, zero, suc, ◌+◌,
  ◌-◌, ◌≤◌, List, [], ◌∷◌, ◌≡◌, refl, arith, length,
}
use hermit_caves.Base.Memory.{Memory}
use hermit_caves.Vcpu.Transfer.{bytes_at, store_bytes}
use hermit_caves.Vcpu.Written.{length-bytes_at}

bytes_at_same :
    (n : ℕ) (m m' : Memory) (a : ℕ)
    → ((x : ℕ) → a ≤ x → m x ≡ m' x)
    → bytes_at m a n ≡ bytes_at m' a n
unfolding bytes_at
bytes_at_same zero m m' a h = refl
bytes_at_same (suc n) m m' a h =
    rw (h a (omega arith)) (rw (bytes_at_same n m m' (a + 1) (λ x k. h x (omega arith))) refl)

store_bytes_first : (b : ℕ) (bs : List ℕ) (m : Memory) (a : ℕ) → store_bytes m a (b ∷ bs) a ≡ b
unfolding store_bytes
store_bytes_first b bs m a = let e : a - a ≡ 0 = omega arith in rw e (ground arith)

store_bytes_later :
    (b : ℕ) (bs : List ℕ) (m : Memory) (a x : ℕ)
    → a + 1 ≤ x
    → store_bytes m a (b ∷ bs) x ≡ store_bytes m (a + 1) bs x
unfolding store_bytes
store_bytes_later b bs m a x h =
    let e : x - a ≡ suc (x - (a + 1)) = omega arith in rw e (ground arith)

pub bytes_at-store_bytes :
    (bs : List ℕ) (m : Memory) (a : ℕ) → bytes_at (store_bytes m a bs) a (length bs) ≡ bs
unfolding bytes_at
bytes_at-store_bytes [] m a = refl
bytes_at-store_bytes (b ∷ bs) m a = rw (store_bytes_first b bs m a) (
    rw
      (bytes_at_same (length bs) (store_bytes m a (b ∷ bs)) (store_bytes m (a + 1) bs) (a + 1)
        (store_bytes_later b bs m a))
      (rw (bytes_at-store_bytes bs m (a + 1)) refl))

get_or-bytes_at : (m : Memory) (n a i : ℕ) → i < n → get_or (bytes_at m a n) i 0 ≡ m (a + i)
unfolding bytes_at
get_or-bytes_at m zero a i h = elim h [ ]
get_or-bytes_at m (suc n) a zero h = let e : a + 0 ≡ a = omega arith in rw e refl
get_or-bytes_at m (suc n) a (suc i) h =
    get_or-bytes_at m n (a + 1) i (omega arith) ∙ ap m (omega arith)

pub store_inside :
    (m m0 : Memory) (a n x : ℕ) → a ≤ x → x < a + n → store_bytes m0 a (bytes_at m a n) x ≡ m x
unfolding store_bytes
store_inside m m0 a n x h k =
    let e : (leb a x && ltb x (a + n)) ≡ true = ground arith in
    let f : a + (x - a) ≡ x = omega arith in
    rw (length-bytes_at m a n) (rw e (get_or-bytes_at m n a (x - a) (omega arith) ∙ ap m f))

pub store_outside :
    (m m0 : Memory) (a n x : ℕ) → (x < a) ⊎ (a + n ≤ x) → store_bytes m0 a (bytes_at m a n) x ≡ m0 x
unfolding store_bytes
store_outside m m0 a n x h =
    let e : (leb a x && ltb x (a + n)) ≡ false = ground arith in
    rw (length-bytes_at m a n) (rw e refl)

pub where-is : (a n x : ℕ) → ((a ≤ x) × (x < a + n)) ⊎ ((x < a) ⊎ (a + n ≤ x))
where-is a n x = elim (Bool-cases (ltb x a)) [
  | inl low ↦ inr (inl (ground arith))
  | inr high ↦ elim (Bool-cases (ltb x (a + n))) [
    | inl inside ↦ inl (ground arith, ground arith)
    | inr outside ↦ inr (inr (ground arith))
  ]
]

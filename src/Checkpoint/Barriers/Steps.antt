-- ===== src/Checkpoint/Barriers/Steps.antt =====
-- Steps of one thread among others, and of all threads together.
use hermit_caves.Base.{
  ℕ, zero, suc, Bool, true, false, ◌||◌, bind_some, Option, some, List, [], ◌∷◌, ◌≡◌, subst, arith,
  map,
}
use hermit_caves.Checkpoint.Barriers.{step_at, all}

module _ {A : Type 0} where
  abbrev pub All : (A → Type 0) → List A → Type 0
  All P [] = Unit {0}
  All P (x ∷ xs) = P x × All P xs

  abbrev pub any : (A → Bool) → List A → Bool
  any p [] = false
  any p (x ∷ xs) = p x || any p xs

  some_list : {xs ys : List A} → some xs ≡ some ys → xs ≡ ys
  some_list e = cc

  -- A step keeps what holds of all, if it does so for the thread that takes it.
  pub step_at-All :
      (P Q : A → Type 0) (f : A → Option A)
      → ((x : A) → P x → Q x)
      → ((x y : A) → P x → f x ≡ some y → Q y)
      → (i : ℕ) (xs ys : List A) → All P xs
      → step_at i f xs ≡ some ys
      → All Q ys
  unfolding step_at
  step_at-All P Q f same new i [] ys h e = cc
  step_at-All P Q f same new zero (x ∷ xs) ys h e =
      let (y, e1, e2) = bind_some (f x) _ ys e in
      subst (All Q) (some_list e2) (new x y h.0 e1, all_same xs h.1)
    where
      all_same : (zs : List A) → All P zs → All Q zs
      all_same [] k = tt
      all_same (z ∷ zs) k = (same z k.0, all_same zs k.1)
  step_at-All P Q f same new (suc i) (x ∷ xs) ys h e =
      let (zs, e1, e2) = bind_some (step_at i f xs) _ ys e in
      subst (All Q) (some_list e2) (same x h.0, step_at-All P Q f same new i xs zs h.1 e1)

  -- A test that only one of them could pass.
  pub step_at-none :
      (P : A → Type 0) (f : A → Option A)
      → ((x y : A) → P x → f x ≡ some y → ⊥)
      → (i : ℕ) (xs ys : List A) → All P xs
      → step_at i f xs ≡ some ys
      → ⊥
  unfolding step_at
  step_at-none P f never i [] ys h e = cc
  step_at-none P f never zero (x ∷ xs) ys h e =
      let (y, e1, e2) = bind_some (f x) _ ys e in never x y h.0 e1
  step_at-none P f never (suc i) (x ∷ xs) ys h e =
      let (zs, e1, e2) = bind_some (step_at i f xs) _ ys e in step_at-none P f never i xs zs h.1 e1

  -- All threads that pass a test go on.
  pub map-All :
      (P Q : A → Type 0) (p : A → Bool) (f : A → A)
      → ((x : A) → P x → p x ≡ true → Q (f x))
      → (xs : List A) → All P xs
      → all p xs ≡ true
      → All Q (map f xs)
  map-All P Q p f new [] h e = tt
  map-All P Q p f new (x ∷ xs) h e =
      (new x h.0 (ground arith), map-All P Q p f new xs h.1 (ground arith))

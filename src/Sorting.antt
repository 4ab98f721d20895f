-- ===== src/Sorting.antt =====
-- sort.Slice and sort.Strings: a sorted permutation. Which one, among elements that compare equal,
-- the library does not say; the theorems below hold of this one.
use instachron.Base.{◌≡◌, arith, Bool, true, false, List, [], ◌∷◌, if◌then◌else◌}
use instachron.Base.{Bool-cases, inl, inr, length, suc, refl, ◌⊎◌, ◌↔◌}
use mathlib.Core.List.{Perm}
use mathlib.Core.List.Perm

module _ {A : Type 0} (lt : A → A → Bool) where
  unfoldable pub place : A → List A → List A
  place x [] = x ∷ []
  place x (y ∷ ys) = let rest = place x ys in if lt x y then x ∷ y ∷ ys else y ∷ rest

  unfoldable pub sort : List A → List A
  sort [] = []
  sort (x ∷ xs) = place x (sort xs)

  -- No element is greater than the next.
  abbrev pub Ascending : List A → Type 0
  Ascending [] = Unit {0}
  Ascending (x ∷ []) = Unit {0}
  Ascending (x ∷ y ∷ ys) = (lt y x ≡ false) × Ascending (y ∷ ys)

  place-perm : (x : A) (xs : List A) → Perm (place x xs) (x ∷ xs)
  unfolding place
  place-perm x [] = Perm.refl (x ∷ [])
  place-perm x (y ∷ ys) = elim (Bool-cases (lt x y)) [
    | inl before ↦ rw before (Perm.refl (x ∷ y ∷ ys))
    | inr after ↦ rw after (Perm.trans (Perm.cons y (place-perm x ys)) (Perm.swap x y ys))
  ]

  pub sort-perm : (xs : List A) → Perm (sort xs) xs
  unfolding sort
  sort-perm [] = Perm.refl []
  sort-perm (x ∷ xs) = Perm.trans (place-perm x (sort xs)) (Perm.cons x (sort-perm xs))

  length-place : (x : A) (xs : List A) → length (place x xs) ≡ suc (length xs)
  unfolding place
  length-place x [] = refl
  length-place x (y ∷ ys) = ground (arith, length-place x ys)

  pub length-sort : (xs : List A) → length (sort xs) ≡ length xs
  unfolding sort
  length-sort [] = refl
  length-sort (x ∷ xs) = omega (arith, length-place x (sort xs), length-sort xs)

  module _ (asymmetric : (a b : A) → lt a b ≡ true → lt b a ≡ false) where
    place-Ascending : (x : A) (xs : List A) → Ascending xs → Ascending (place x xs)
    unfolding place
    place-Ascending x [] s = tt
    place-Ascending x (y ∷ []) s = ground (arith, asymmetric x y)
    place-Ascending x (y ∷ z ∷ zs) s =
        ground (arith, asymmetric x y, asymmetric x z, place-Ascending x (z ∷ zs) s.1)

    pub sort-Ascending : (xs : List A) → Ascending (sort xs)
    unfolding sort
    sort-Ascending [] = tt
    sort-Ascending (x ∷ xs) = place-Ascending x (sort xs) (sort-Ascending xs)

-- Membership, by recursion on the list.
unfoldable pub In : {A : Type 0} → A → List A → Type 0
In a [] = ⊥
In a (x ∷ xs) = (a ≡ x) ⊎ In a xs

module _ {A : Type 0} (lt : A → A → Bool) (a : A) where
  In-place : (x : A) (xs : List A) → In a (place lt x xs) ↔ In a (x ∷ xs)
  unfolding In place
  In-place x [] = (λ h. h, λ h. h)
  In-place x (y ∷ ys) = elim (Bool-cases (lt x y)) [
    | inl before ↦ rw before (λ h. h, λ h. h)
    | inr after ↦ rw after (ground (arith, In-place x ys))
  ]

  pub In-sort : (xs : List A) → In a (sort lt xs) ↔ In a xs
  unfolding In sort
  In-sort [] = (λ h. h, λ h. h)
  In-sort (x ∷ xs) = ground (arith, In-place x (sort lt xs), In-sort xs)

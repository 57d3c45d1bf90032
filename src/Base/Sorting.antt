-- ===== src/Base/Sorting.antt =====
-- `xs.sort(compare)`: JavaScript's sort is stable, so it is this insertion sort.
use mathlib.Core.Path.{◌≡◌, refl}
use mathlib.Core.Logic.{◌⊎◌, inl, inr}
use mathlib.Core.Bool.{Bool, true, ◌||◌}
use mathlib.Core.List.{List, [], ◌∷◌, Perm}
use mathlib.Core.List.Perm
use native.Mathlib.Omega.{arith}
use multi_venue_grid_engine.Base.Tests.{if◌then◌else◌, Bool-cases, Eq, ◌==◌}
use multi_venue_grid_engine.Base.Lists.{All, includes}

module _ {ℓ} {A : Type ℓ} (le : A → A → Bool) where
  unfoldable pub place : A → List A → List A
  place x [] = x ∷ []
  place x (y ∷ ys) = if le x y then x ∷ y ∷ ys else y ∷ place x ys

  unfoldable pub sort : List A → List A
  unfolding place
  sort [] = []
  sort (x ∷ xs) = place x (sort xs)

  -- Each entry is at most the next ones.
  abbrev pub IsSorted : List A → Type 0
  IsSorted [] = Unit
  IsSorted (x ∷ xs) = All (λ y. le x y ≡ true) xs × IsSorted xs

  place-perm : (x : A) (ys : List A) → Perm (place x ys) (x ∷ ys)
  unfolding place
  place-perm x [] = Perm.refl (x ∷ [])
  place-perm x (y ∷ ys) = elim (Bool-cases (le x y)) [
    | inl h ↦ rw h (Perm.refl (x ∷ y ∷ ys))
    | inr h ↦ rw h (Perm.trans (Perm.cons y (place-perm x ys)) (Perm.swap x y ys))
  ]

  pub sort-perm : (xs : List A) → Perm (sort xs) xs
  unfolding sort
  sort-perm [] = Perm.refl []
  sort-perm (x ∷ xs) = Perm.trans (place-perm x (sort xs)) (Perm.cons x (sort-perm xs))

  module _ (total : (a b : A) → (le a b ≡ true) ⊎ (le b a ≡ true))
      (trans : (a b c : A) → le a b ≡ true → le b c ≡ true → le a c ≡ true) where
    All-below :
        (x y : A) (ys : List A)
        → le x y ≡ true
        → All (λ z. le y z ≡ true) ys
        → All (λ z. le x z ≡ true) ys
    All-below x y [] h a = tt
    All-below x y (z ∷ zs) h a = (trans x y z h a.0, All-below x y zs h a.1)

    All-place :
        (y x : A) (ys : List A)
        → le y x ≡ true
        → All (λ z. le y z ≡ true) ys
        → All (λ z. le y z ≡ true) (place x ys)
    unfolding place
    All-place y x [] h a = (h, tt)
    All-place y x (z ∷ zs) h a = elim (Bool-cases (le x z)) [
      | inl k ↦ rw k (h, a)
      | inr k ↦ rw k (a.0, All-place y x zs h a.1)
    ]

    place-IsSorted : (x : A) (ys : List A) → IsSorted ys → IsSorted (place x ys)
    unfolding place
    place-IsSorted x [] s = (tt, tt)
    place-IsSorted x (y ∷ ys) s = elim (Bool-cases (le x y)) [
      | inl h ↦ rw h ((h, All-below x y ys h s.0), s)
      | inr h ↦ rw h (All-place y x ys (ground (arith, total x y)) s.0, place-IsSorted x ys s.1)
    ]

    pub sort-IsSorted : (xs : List A) → IsSorted (sort xs)
    unfolding sort
    sort-IsSorted [] = tt
    sort-IsSorted (x ∷ xs) = place-IsSorted x (sort xs) (sort-IsSorted xs)

module _ {ℓ} {A : Type ℓ} ⦃e : Eq A⦄ (le : A → A → Bool) where
  pub includes-place :
      (x : A) (ys : List A) (a : A) → includes (place le x ys) a ≡ (x == a || includes ys a)
  unfolding place
  includes-place x [] a = refl
  includes-place x (y ∷ ys) a = elim (Bool-cases (le x y)) [
    | inl h ↦ rw h refl
    | inr h ↦ rw (h, includes-place x ys a) (ground arith)
  ]

  pub includes-sort : (xs : List A) (a : A) → includes (sort le xs) a ≡ includes xs a
  unfolding sort
  includes-sort [] a = refl
  includes-sort (x ∷ xs) a = rw (includes-place x (sort le xs) a, includes-sort xs a)

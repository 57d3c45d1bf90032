-- ===== src/Base/Lists.antt =====
-- Lists as JavaScript's arrays and sets use them.
use Prim.Native.Nat.{ℕ, suc, ◌+◌}
use mathlib.Core.Path.{◌≡◌, refl, ap}
use mathlib.Core.Logic.{inl, inr}
use mathlib.Core.Bool.{Bool, true, false, ◌&&◌, ◌||◌}
use mathlib.Core.Option.{Option, none, some}
use mathlib.Core.List.{List, [], ◌∷◌, ◌++◌}
use native.Mathlib.Omega.{arith}
use multi_venue_grid_engine.Base.Tests.{if◌then◌else◌, Eq, ◌==◌, Bool-cases}

module _ {ℓ} {A : Type ℓ} where
  abbrev pub length : List A → ℕ
  length [] = 0
  length (x ∷ xs) = suc (length xs)

  pub length-append : (xs ys : List A) → length (xs ++ ys) ≡ length xs + length ys
  length-append [] ys = omega arith
  length-append (x ∷ xs) ys = omega (arith, length-append xs ys)

  -- `xs.some`, `xs.every`, `xs.filter` and `xs.find` with a Boolean test.
  abbrev pub any : (A → Bool) → List A → Bool
  any p [] = false
  any p (x ∷ xs) = p x || any p xs

  abbrev pub every : (A → Bool) → List A → Bool
  every p [] = true
  every p (x ∷ xs) = p x && every p xs

  abbrev pub keep : (A → Bool) → List A → List A
  keep p [] = []
  keep p (x ∷ xs) = if p x then x ∷ keep p xs else keep p xs

  abbrev pub find : (A → Bool) → List A → Option A
  find p [] = none
  find p (x ∷ xs) = if p x then some x else find p xs

  abbrev pub All {κ} : (A → Type κ) → List A → Type κ
  All P [] = Unit
  All P (x ∷ xs) = P x × All P xs

  pub any-append : (p : A → Bool) (xs ys : List A) → any p (xs ++ ys) ≡ (any p xs || any p ys)
  any-append p [] ys = refl
  any-append p (x ∷ xs) ys = rw (any-append p xs ys) (ground arith)

module _ {ℓ} {A : Type ℓ} ⦃e : Eq A⦄ where
  -- `xs.includes(a)`.
  abbrev pub includes : List A → A → Bool
  includes [] a = false
  includes (x ∷ xs) a = x == a || includes xs a

  -- `set.add(a)` on a set kept in the order of insertion.
  unfoldable pub insert : List A → A → List A
  insert xs a = if includes xs a then xs else xs ++ (a ∷ [])

  unfoldable pub insert_all : List A → List A → List A
  unfolding insert
  insert_all acc [] = acc
  insert_all acc (x ∷ xs) = insert_all (insert acc x) xs

  -- `[...new Set(xs)]`.
  unfoldable pub unique : List A → List A
  unfolding insert_all
  unique xs = insert_all [] xs

  -- No two entries are equal.
  abbrev pub IsNodup : List A → Type 0
  IsNodup [] = Unit
  IsNodup (x ∷ xs) = (includes xs x ≡ false) × IsNodup xs

  pub beq_refl : (a : A) → (a == a) ≡ true
  beq_refl a = (e.beq_iff a a).1 refl

  pub beq_sym : (a b : A) → (a == b) ≡ (b == a)
  beq_sym a b =
      ground (arith, (e.beq_iff a b).0, (e.beq_iff a b).1, (e.beq_iff b a).0, (e.beq_iff b a).1)

  pub includes_congr : (xs : List A) (x a : A) → (x == a) ≡ true → includes xs x ≡ includes xs a
  includes_congr xs x a h = ap (includes xs) ((e.beq_iff x a).0 h)

  pub includes-append :
      (xs ys : List A) (a : A) → includes (xs ++ ys) a ≡ (includes xs a || includes ys a)
  includes-append [] ys a = refl
  includes-append (x ∷ xs) ys a = rw (includes-append xs ys a) (ground arith)

  pub includes-insert :
      (xs : List A) (x a : A) → includes (insert xs x) a ≡ (includes xs a || (x == a))
  unfolding insert
  includes-insert xs x a = elim (Bool-cases (includes xs x)) [
    | inl h ↦ rw h (elim (Bool-cases (x == a)) [
      | inl k ↦ rw k (ground (arith, includes_congr xs x a k))
      | inr k ↦ rw k (ground arith)
    ])
    | inr h ↦ rw (h, includes-append xs (x ∷ []) a) (ground arith)
  ]

  pub includes-insert_all :
      (acc xs : List A) (a : A) → includes (insert_all acc xs) a ≡ (includes acc a || includes xs a)
  unfolding insert_all
  includes-insert_all acc [] a = ground arith
  includes-insert_all acc (x ∷ xs) a =
      rw (includes-insert_all (insert acc x) xs a, includes-insert acc x a) (ground arith)

  -- A set has the members of the list that it is made from.
  pub includes-unique : (xs : List A) (a : A) → includes (unique xs) a ≡ includes xs a
  unfolding unique
  includes-unique xs a = includes-insert_all [] xs a

  IsNodup-snoc :
      (xs : List A) (a : A) → IsNodup xs → includes xs a ≡ false → IsNodup (xs ++ (a ∷ []))
  IsNodup-snoc [] a h n = (refl, tt)
  IsNodup-snoc (x ∷ xs) a h n = (
    rw (includes-append xs (a ∷ []) x) (ground (arith, beq_sym a x)),
    IsNodup-snoc xs a h.1 (ground arith),
  )

  IsNodup-insert : (xs : List A) (a : A) → IsNodup xs → IsNodup (insert xs a)
  unfolding insert
  IsNodup-insert xs a h = elim (Bool-cases (includes xs a)) [
    | inl k ↦ rw k h
    | inr k ↦ rw k (IsNodup-snoc xs a h k)
  ]

  IsNodup-insert_all : (acc xs : List A) → IsNodup acc → IsNodup (insert_all acc xs)
  unfolding insert_all
  IsNodup-insert_all acc [] h = h
  IsNodup-insert_all acc (x ∷ xs) h = IsNodup-insert_all (insert acc x) xs (IsNodup-insert acc x h)

  pub unique-IsNodup : (xs : List A) → IsNodup (unique xs)
  unfolding unique
  unique-IsNodup xs = IsNodup-insert_all [] xs tt

  -- A set that is empty was made from nothing.
  pub unique-nil : (xs : List A) → unique xs ≡ [] → xs ≡ []
  unique-nil [] h = refl
  unique-nil (x ∷ xs) h = absurd (ground (arith, includes-unique (x ∷ xs) x, beq_refl x))

  -- What is in neither part is not in the whole.
  pub excludes-append :
      (xs ys : List A) (a : A)
      → includes (xs ++ ys) a ≡ false
      → (includes xs a ≡ false) × (includes ys a ≡ false)
  excludes-append xs ys a h = ground (arith, includes-append xs ys a)

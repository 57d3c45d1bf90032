-- ===== src/Base/Maps.antt =====
-- JavaScript's `Map`, as its entries in the order of insertion.
use mathlib.Core.Path.{◌≡◌}
use mathlib.Core.Logic.{inl, inr}
use mathlib.Core.Bool.{false}
use mathlib.Core.Option.{Option, none, some}
use mathlib.Core.List.{List, [], ◌∷◌}
use native.Mathlib.Omega.{arith}
use multi_venue_grid_engine.Base.Tests.{if◌then◌else◌, Eq, ◌==◌, Bool-cases}

module _ {ℓ} {K : Type 0} {A : Type ℓ} ⦃e : Eq K⦄ where
  unfoldable pub get_entry : List (K × A) → K → Option A
  get_entry [] k = none
  get_entry ((j, a) ∷ m) k = if j == k then some a else get_entry m k

  unfoldable pub set_entry : List (K × A) → K → A → List (K × A)
  set_entry [] k a = (k, a) ∷ []
  set_entry ((j, b) ∷ m) k a = if j == k then (k, a) ∷ m else (j, b) ∷ set_entry m k a

  pub get-set_same : (m : List (K × A)) (k : K) (a : A) → get_entry (set_entry m k a) k ≡ some a
  unfolding get_entry set_entry
  get-set_same [] k a = ground (arith, (e.beq_iff k k).1)
  get-set_same ((j, b) ∷ m) k a = ground (arith, get-set_same m k a, (e.beq_iff k k).1)

  pub get-set_other :
      (m : List (K × A)) (k i : K) (a : A)
      → (k == i) ≡ false
      → get_entry (set_entry m k a) i ≡ get_entry m i
  unfolding get_entry set_entry
  get-set_other [] k i a h = ground arith
  get-set_other ((j, b) ∷ m) k i a h = elim (Bool-cases (j == k)) [
    | inl same ↦ ground (arith, (e.beq_iff j k).0)
    | inr other ↦ ground (arith, get-set_other m k i a h)
  ]

-- ===== src/Base/TextOrder.antt =====
-- The order of strings by code units is total.
use mathlib.Core.Path.{◌≡◌, refl}
use mathlib.Core.Logic.{◌⊎◌, inl, inr}
use mathlib.Core.Bool.{Bool, true, false}
use mathlib.Core.List.{[], ◌∷◌}
use Prim.Native.Nat.{Ordering}
use native.Mathlib.Omega.{arith}
use multi_venue_grid_engine.Base.Texts.{Text, text_compare}

-- `!(left > right)`
unfoldable pub text_leb : Text → Text → Bool
text_leb s t = elim (text_compare s t) [ Ordering.gt ↦ false | _ ↦ true ]

pub text_leb_total : (s t : Text) → (text_leb s t ≡ true) ⊎ (text_leb t s ≡ true)
unfolding text_leb text_compare
text_leb_total [] [] = inl refl
text_leb_total [] (b ∷ t) = inl refl
text_leb_total (a ∷ s) [] = inr refl
text_leb_total (a ∷ s) (b ∷ t) = ground (arith, text_leb_total s t)

pub text_leb_trans :
    (s t u : Text) → text_leb s t ≡ true → text_leb t u ≡ true → text_leb s u ≡ true
unfolding text_leb text_compare
text_leb_trans [] t [] h k = refl
text_leb_trans [] t (c ∷ u) h k = refl
text_leb_trans (a ∷ s) [] u h k = cc
text_leb_trans (a ∷ s) (b ∷ t) [] h k = cc
text_leb_trans (a ∷ s) (b ∷ t) (c ∷ u) h k = ground (arith, text_leb_trans s t u)

-- ===== src/Math/Order.antt =====
-- What the code relies on of decimal.js's `cmp`, and its consequence for decimalCmp of math/decimal.ts.
use multi_venue_grid_engine.Base.{
  is_gt, is_lt, sym, ◌∙◌, ok_injective, Option-cases, inl, inr, ◌≡◌, refl, Bool, true, false,
  Option, none, some, Ordering, Text, ok, ◌>>=◌, >>=-eq-ok, arith,
}
use multi_venue_grid_engine.Math.DecimalJs.{DecimalJs}
use multi_venue_grid_engine.Math.Decimal.{as_decimal, compared, decimal_cmp}

-- `cmp` gave a number, and it is not 1.
abbrev pub at_most : Option Ordering → Bool
at_most none = false
at_most (some Ordering.gt) = false
at_most (some _) = true

-- decimal.js compares values as numbers.
pub record IsNumericOrder (J : DecimalJs) : Type 0 where
  pub trans :
      (a b c : J.Number)
      → at_most (J.cmp a b) ≡ true
      → at_most (J.cmp b c) ≡ true
      → at_most (J.cmp a c) ≡ true
  pub converse : (a b : J.Number) → J.cmp a b ≡ some Ordering.gt → at_most (J.cmp b a) ≡ true
  pub symmetric : (a b : J.Number) → J.cmp a b ≡ some Ordering.eq → at_most (J.cmp b a) ≡ true

compared_inv :
    (J : DecimalJs) (m : Option Ordering) {c : Ordering} → compared J m ≡ ok c → m ≡ some c
unfolding compared
compared_inv J none h = cc
compared_inv J (some c) h = ground arith

module _ (J : DecimalJs) where
  -- Both strings compare, and the first is not above the second.
  abbrev pub AtMost : Text → Text → Type 0
  AtMost left right = (c : Ordering) × (decimal_cmp J left right ≡ ok c) × (is_gt c ≡ false)

  decimal_cmp-inv :
      (left right : Text) {c : Ordering}
      → decimal_cmp J left right ≡ ok c
      → (a : J.Number) × (b : J.Number) × (as_decimal J left ≡ ok a)
        × (as_decimal J right ≡ ok b)
        × (J.cmp a b ≡ some c)
  unfolding decimal_cmp compared
  decimal_cmp-inv left right {c} h =
      let (a, e1, h1) = >>=-eq-ok (as_decimal J left) _ h in
      let (b, e2, h2) = >>=-eq-ok (as_decimal J right) _ h1 in
      (a, b, e1, e2, compared_inv J (J.cmp a b) h2)

  AtMost-intro :
      (left right : Text) (a b : J.Number)
      → as_decimal J left ≡ ok a
      → as_decimal J right ≡ ok b
      → at_most (J.cmp a b) ≡ true
      → AtMost left right
  unfolding decimal_cmp compared
  AtMost-intro left right a b e1 e2 h = elim (Option-cases (J.cmp a b)) [
    | inl none_is ↦ absurd (ground arith)
    | inr (c, is) ↦ (c, rw (e1, e2, ◌>>=◌, is) refl, ground arith)
  ]

  module _ (laws : IsNumericOrder J) where
    pub AtMost-trans : (x y z : Text) → AtMost x y → AtMost y z → AtMost x z
    AtMost-trans x y z (c, h, hc) (d, k, kd) =
        let (a, b, e1, e2, first) = decimal_cmp-inv x y h in
        let (b', w, e3, e4, second) = decimal_cmp-inv y z k in
        let same : b' ≡ b = ok_injective (sym e3 ∙ e2) in
        AtMost-intro x z a w e1 e4 (laws.trans a b w (ground arith) (ground arith))

    pub AtMost-converse :
        (x y : Text) (c : Ordering) → decimal_cmp J x y ≡ ok c → is_lt c ≡ false → AtMost y x
    AtMost-converse x y Ordering.lt h k = cc
    AtMost-converse x y Ordering.eq h k =
        let (a, b, e1, e2, e) = decimal_cmp-inv x y h in
        AtMost-intro y x b a e2 e1 (laws.symmetric a b e)
    AtMost-converse x y Ordering.gt h k =
        let (a, b, e1, e2, e) = decimal_cmp-inv x y h in
        AtMost-intro y x b a e2 e1 (laws.converse a b e)

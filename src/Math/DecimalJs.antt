-- ===== src/Math/DecimalJs.antt =====
-- The third-party package decimal.js, as the code in src/math uses it: a parameter of the model.
use multi_venue_grid_engine.Base.{ℕ, Bool, Option, Ordering, Text}
use multi_venue_grid_engine.Base.Int.{ℤ}

pub data DecimalRounding : Type 0 where
  down up half_up : DecimalRounding

-- `plus`, `minus`, `times` and `div` take the `precision` of the class that `Decimal.clone` made.
pub record DecimalJs : Type 1 where
  pub Number : Type 0
  -- `new Decimal(value)`
  pub of_text : Text → Number
  pub to_fixed : Number → Text
  pub is_finite : Number → Bool
  pub is_negative : Number → Bool
  pub is_zero : Number → Bool
  -- `value.lte(0)`
  pub lte_zero : Number → Bool
  -- `undefined` where an operand is NaN
  pub cmp : Number → Number → Option Ordering
  pub abs : Number → Number
  pub negated : Number → Number
  -- the exponent of the first digit, and the number of significant digits
  pub e : Number → ℤ
  pub sd : Number → ℕ
  pub plus : ℕ → Number → Number → Number
  pub minus : ℕ → Number → Number → Number
  pub times : ℕ → Number → Number → Number
  pub div : ℕ → Number → Number → Number
  pub rem : ℕ → Number → Number → Number
  pub to_decimal_places : ℕ → DecimalRounding → Number → Number

-- ===== src/Math/ExactDecimal.antt =====
-- src/math/exact-decimal.ts: sums, differences and products that are refused rather than rounded.
use multi_venue_grid_engine.Base.{
  ℕ, ◌+◌, ◌||◌, Text, text, Outcome, ok, ◌>>=◌, guard, ◌>>◌, if◌then◌else◌,
}
use multi_venue_grid_engine.Base.Int.{ℤ, pos, ◌+ℤ◌, ◌-ℤ◌, max_ℤ, min_ℤ, leb_ℤ}
use multi_venue_grid_engine.Math.DecimalJs.{DecimalJs}
use multi_venue_grid_engine.Math.Decimal.{
  DecimalError, exact_precision_exceeded, parse_decimal_string, to_canonical_string,
}

abbrev pub exact_decimal_max_digits : ℕ
exact_decimal_max_digits = 1024

-- `requireDigits`
abbrev pub require_digits : ℤ → Outcome DecimalError (Unit {0})
require_digits digits = guard (leb_ℤ digits (pos exact_decimal_max_digits)) exact_precision_exceeded

module _ (J : DecimalJs) where
  open J use {Number, of_text, is_zero, negated, e, sd, plus, minus, times}

  -- `asExact`
  unfoldable pub as_exact : Text → Outcome DecimalError Number
  as_exact value = do parsed ← parse_decimal_string J value; ok (of_text parsed)

  unfoldable pub lowest_digit_exponent : Number → ℤ
  lowest_digit_exponent d = e d -ℤ pos (sd d) +ℤ pos 1

  unfoldable pub sum_digits : Number → Number → ℤ
  sum_digits a b =
      let highest = max_ℤ (e a) (e b) +ℤ pos 1 in
      let lowest = min_ℤ (lowest_digit_exponent a) (lowest_digit_exponent b) in
      highest -ℤ lowest +ℤ pos 1

  unfoldable pub exact_add : Text → Text → Outcome DecimalError Text
  exact_add left right = do
    a ← as_exact left
    b ← as_exact right
    (if is_zero b
        then to_canonical_string J a
        else if is_zero a
        then to_canonical_string J b
        else do
          require_digits (sum_digits a b)
          to_canonical_string J (plus exact_decimal_max_digits a b))

  unfoldable pub exact_sub : Text → Text → Outcome DecimalError Text
  exact_sub left right = do
    a ← as_exact left
    b ← as_exact right
    (if is_zero b
        then to_canonical_string J a
        else if is_zero a
        then to_canonical_string J (negated b)
        else do
          require_digits (sum_digits a b)
          to_canonical_string J (minus exact_decimal_max_digits a b))

  unfoldable pub exact_mul : Text → Text → Outcome DecimalError Text
  exact_mul left right = do
    a ← as_exact left
    b ← as_exact right
    (if is_zero a || is_zero b then ok (text "0") else do
      require_digits (pos (sd a + sd b))
      to_canonical_string J (times exact_decimal_max_digits a b))

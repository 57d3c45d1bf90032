-- ===== src/Math/Decimal.antt =====
-- src/math/decimal.ts: decimal strings, their canonical form and the arithmetic at 40 digits.
use multi_venue_grid_engine.Base.{
  ℕ, Bool, true, false, ◌&&◌, ◌||◌, not, Option, none, some, [], ◌∷◌, ◌++◌, Ordering, Text, text,
  text_eq, nat_eq, text_is_empty, includes, any, ◌==◌, leb, Outcome, ok, err, ◌>>=◌, guard, ◌>>◌,
  if◌then◌else◌,
}
use multi_venue_grid_engine.Math.DecimalJs.{DecimalJs, DecimalRounding}

-- The reason of an `InvalidDecimalError`.
pub data DecimalError : Type 0 where
  non_finite_decimal empty_decimal non_canonical_decimal division_by_zero : DecimalError
  decimal_compare_failed invalid_step exact_precision_exceeded : DecimalError

-- `precision` of `CanonicalDecimal`
abbrev pub canonical_precision : ℕ
canonical_precision = 40

abbrev pub is_digit : ℕ → Bool
is_digit c = leb b'0' c && leb c b'9'

-- `\s` for ASCII; any other space fails the pattern, with the same error.
abbrev pub is_space : ℕ → Bool
is_space c = (leb 9 c && leb c 13) || c == 32

-- What is left when the digits in front are taken off.
unfoldable pub after_digits : Text → Text
after_digits [] = []
after_digits (c ∷ s) = let rest = after_digits s in if is_digit c then rest else c ∷ s

abbrev pub starts_with_digit : Text → Bool
starts_with_digit [] = false
starts_with_digit (c ∷ s) = is_digit c

-- `(?:\.\d+)?$`
unfoldable pub fraction_matches : Text → Bool
fraction_matches [] = true
fraction_matches (c ∷ s) = c == b'.' && starts_with_digit s && text_is_empty (after_digits s)

-- `(?:0|[1-9]\d*)(?:\.\d+)?$`
unfoldable pub unsigned_matches : Text → Bool
unsigned_matches [] = false
unsigned_matches (c ∷ s) =
    if c == b'0' then fraction_matches s else is_digit c && fraction_matches (after_digits s)

-- `/^-?(?:0|[1-9]\d*)(?:\.\d+)?$/`
unfoldable pub canonical_input_matches : Text → Bool
canonical_input_matches [] = false
canonical_input_matches (c ∷ s) = if c == b'-' then unsigned_matches s else unsigned_matches (c ∷ s)

-- `value.split(".")`, its first part and its second part, or "" where there is none
unfoldable pub whole_part : Text → Text
whole_part [] = []
whole_part (c ∷ s) = if c == b'.' then [] else c ∷ whole_part s

unfoldable pub fraction_part : Text → Text
fraction_part [] = []
fraction_part (c ∷ s) = if c == b'.' then whole_part s else fraction_part s

-- `fraction.replace(/0+$/, "")`
unfoldable pub trim_zero : ℕ → Text → Text
trim_zero c [] = if c == b'0' then [] else c ∷ []
trim_zero c (d ∷ s) = c ∷ d ∷ s

unfoldable pub trim_zeros : Text → Text
trim_zeros [] = []
trim_zeros (c ∷ s) = trim_zero c (trim_zeros s)

-- `whole.replace(/^-/, "")`
unfoldable pub strip_minus : Text → Text
strip_minus [] = []
strip_minus (c ∷ s) = if c == b'-' then s else c ∷ s

module _ (J : DecimalJs) where
  open J use {
    Number, of_text, to_fixed, is_finite, is_negative, is_zero, lte_zero, cmp, abs, negated, plus,
    minus, times, div, rem, to_decimal_places,
  }

  unfoldable pub to_canonical_string : Number → Outcome DecimalError Text
  to_canonical_string d =
      if not (is_finite d)
      then err non_finite_decimal
      else (let whole = whole_part (to_fixed d) in
          let fraction = trim_zeros (fraction_part (to_fixed d)) in
          let sign =
            if is_negative d && (not (whole == text "0") || not (text_is_empty fraction))
            then text "-"
            else [] in
          ok (
            if text_is_empty fraction
            then sign ++ strip_minus whole
            else sign ++ (strip_minus whole ++ (b'.' ∷ fraction))))

  unfoldable pub parse_decimal_string : Text → Outcome DecimalError Text
  parse_decimal_string value =
      if text_is_empty value
      then err empty_decimal
      else if includes value b'e'
          || includes value b'E'
          || includes value b','
          || any is_space value
      then err non_canonical_decimal
      else if not (canonical_input_matches value)
      then err non_canonical_decimal
      else if not (is_finite (of_text value))
      then err non_finite_decimal
      else to_canonical_string (of_text value)

  unfoldable pub is_canonical_decimal_string : Text → Bool
  is_canonical_decimal_string value = elim (parse_decimal_string value) [
    | ok parsed ↦ parsed == value
    | err e ↦ false
  ]

  -- `asDecimal`
  unfoldable pub as_decimal : Text → Outcome DecimalError Number
  as_decimal value = do parsed ← parse_decimal_string value; ok (of_text parsed)

  unfoldable pub decimal_add : Text → Text → Outcome DecimalError Text
  decimal_add left right = do
    a ← as_decimal left
    b ← as_decimal right
    to_canonical_string (plus canonical_precision a b)

  unfoldable pub decimal_sub : Text → Text → Outcome DecimalError Text
  decimal_sub left right = do
    a ← as_decimal left
    b ← as_decimal right
    to_canonical_string (minus canonical_precision a b)

  unfoldable pub decimal_mul : Text → Text → Outcome DecimalError Text
  decimal_mul left right = do
    a ← as_decimal left
    b ← as_decimal right
    to_canonical_string (times canonical_precision a b)

  -- The divisor is read and checked first.
  unfoldable pub decimal_div : Text → Text → DecimalRounding → Outcome DecimalError Text
  decimal_div left right rounding = do
    divisor ← as_decimal right
    guard (not (is_zero divisor)) division_by_zero
    a ← as_decimal left
    to_canonical_string (to_decimal_places 20 rounding (div canonical_precision a divisor))

  unfoldable pub compared : Option Ordering → Outcome DecimalError Ordering
  compared none = err decimal_compare_failed
  compared (some c) = ok c

  unfoldable pub decimal_cmp : Text → Text → Outcome DecimalError Ordering
  decimal_cmp left right = do a ← as_decimal left; b ← as_decimal right; compared (cmp a b)

  unfoldable pub decimal_abs : Text → Outcome DecimalError Text
  decimal_abs value = do a ← as_decimal value; to_canonical_string (abs a)

  unfoldable pub decimal_is_zero : Text → Outcome DecimalError Bool
  decimal_is_zero value = do a ← as_decimal value; ok (is_zero a)

  unfoldable pub decimal_negate : Text → Outcome DecimalError Text
  decimal_negate value = do a ← as_decimal value; to_canonical_string (negated a)

  unfoldable pub quantize : Text → Text → DecimalRounding → Outcome DecimalError Text
  quantize value step rounding = do
    increment ← as_decimal step
    guard (is_finite increment && not (lte_zero increment)) invalid_step
    a ← as_decimal value
    to_canonical_string (
        times canonical_precision
          (to_decimal_places 0 rounding (div canonical_precision a increment)) increment)

  unfoldable pub is_exact_multiple : Text → Text → Outcome DecimalError Bool
  is_exact_multiple value step = do
    increment ← as_decimal step
    (if not (is_finite increment) || lte_zero increment
        then ok false
        else do a ← as_decimal value; ok (is_zero (rem canonical_precision a increment)))

-- ===== src/Examples/Cents.antt =====
-- decimal.js on the numbers that have at most four decimal places: a concrete instance of the
-- parameter, as integers that count ten-thousandths. Quotients and products are truncated.
use multi_venue_grid_engine.Base.{
  ℕ, suc, zero, ◌+◌, ◌-◌, ◌*◌, ◌/◌, ◌%◌, Ordering, compare, Bool, true, false, some, [], ◌∷◌, ◌++◌,
  if◌then◌else◌, ◌==◌, nat_eq, Text, arith,
}
use multi_venue_grid_engine.Base.Int.{ℤ, pos, negsuc, pos_part, neg_part, ◌+ℤ◌, ◌-ℤ◌}
use multi_venue_grid_engine.Math.DecimalJs.{DecimalJs}
use multi_venue_grid_engine.Math.Decimal.{is_digit}
use multi_venue_grid_engine.Math.Order.{IsNumericOrder}

unfoldable pub digit : ℕ → ℕ
digit c = if is_digit c then c - 48 else 0

-- The first `places` digits, as though zeros followed.
unfoldable pub read_fraction : ℕ → ℕ → Text → ℕ
unfolding digit
read_fraction zero acc t = acc
read_fraction (suc places) acc [] = read_fraction places (acc * 10) []
read_fraction (suc places) acc (c ∷ cs) = read_fraction places (acc * 10 + digit c) cs

unfoldable pub read_unsigned : ℕ → Text → ℕ
unfolding read_fraction
read_unsigned acc [] = acc * 10000
read_unsigned acc (c ∷ cs) =
    if c == 46 then read_fraction 4 acc cs else read_unsigned (acc * 10 + digit c) cs

unfoldable pub negative : ℕ → ℤ
negative zero = pos 0
negative (suc n) = negsuc n

unfoldable pub read : Text → ℤ
unfolding read_unsigned negative
read [] = pos 0
read (c ∷ cs) = if c == 45 then negative (read_unsigned 0 cs) else pos (read_unsigned 0 (c ∷ cs))

unfoldable pub print_digits : ℕ → ℕ → Text
print_digits zero n = []
print_digits (suc width) n = print_digits width (n / 10) ++ ((48 + n % 10) ∷ [])

-- Leading zeros of a printed number, all but the last digit.
unfoldable pub drop_zeros : Text → Text
drop_zeros [] = []
drop_zeros (c ∷ []) = c ∷ []
drop_zeros (c ∷ (d ∷ cs)) = if c == 48 then drop_zeros (d ∷ cs) else c ∷ d ∷ cs

unfoldable pub print_unsigned : ℕ → Text
unfolding print_digits drop_zeros
print_unsigned n = drop_zeros (print_digits 12 (n / 10000)) ++ (46 ∷ print_digits 4 (n % 10000))

unfoldable pub print : ℤ → Text
unfolding print_unsigned
print (pos n) = print_unsigned n
print (negsuc n) = 45 ∷ print_unsigned (suc n)

unfoldable pub magnitude : ℤ → ℕ
magnitude z = pos_part z + neg_part z

unfoldable pub same_sign : ℤ → ℤ → Bool
same_sign (pos a) (pos b) = true
same_sign (negsuc a) (negsuc b) = true
same_sign a b = false

unfoldable pub signed : Bool → ℕ → ℤ
unfolding negative
signed s n = if s then pos n else negative n

unfoldable pub quotient : ℕ → ℕ → ℕ
quotient a zero = 0
quotient a (suc b) = a / suc b

unfoldable pub remainder : ℕ → ℕ → ℕ
remainder a zero = 0
remainder a (suc b) = a % suc b

unfoldable pub cmp_cents : ℤ → ℤ → Ordering
cmp_cents a b = compare (pos_part a + neg_part b) (pos_part b + neg_part a)

unfoldable pub is_negative_cents : ℤ → Bool
is_negative_cents (pos n) = false
is_negative_cents (negsuc n) = true

unfoldable pub cents : DecimalJs
unfolding read print magnitude same_sign signed quotient remainder cmp_cents is_negative_cents ◌+ℤ◌
    ◌-ℤ◌
cents = record {
  Number = ℤ;
  of_text = read;
  to_fixed = print;
  is_finite = λ d. true;
  is_negative = is_negative_cents;
  is_zero = λ d. magnitude d == 0;
  lte_zero = λ d. pos_part d == 0;
  cmp = λ a b. some (cmp_cents a b);
  abs = λ d. pos (magnitude d);
  negated = λ d. pos 0 -ℤ d;
  e = λ d. pos 11 -ℤ pos 0;
  sd = λ d. 16;
  plus = λ p a b. a +ℤ b;
  minus = λ p a b. a -ℤ b;
  times = λ p a b. signed (same_sign a b) ((magnitude a * magnitude b) / 10000);
  div = λ p a b. signed (same_sign a b) (quotient (magnitude a * 10000) (magnitude b));
  rem = λ p a b. pos (remainder (magnitude a) (magnitude b));
  to_decimal_places = λ places rounding d. d;
}

pub cents-IsNumericOrder : IsNumericOrder cents
unfolding cents cmp_cents
cents-IsNumericOrder = record {
  trans = λ a b c h k. ground arith;
  converse = λ a b h. ground arith;
  symmetric = λ a b h. ground arith;
}

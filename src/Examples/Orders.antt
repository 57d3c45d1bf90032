-- ===== src/Examples/Orders.antt =====
-- The exposure gate (risk/exposure.ts) and the risk engine (risk/risk-engine.ts) on a small account.
use multi_venue_grid_engine.Base.{
  ◌≡◌, refl, true, false, some, [], ◌∷◌, text, ok, text_beq, insert, insert_all, unique, fold_m,
  flat_map_m, place, sort,
}
use multi_venue_grid_engine.Base.Int.{◌+ℤ◌, ◌-ℤ◌}
use multi_venue_grid_engine.Math.Decimal.{
  after_digits, fraction_matches, unsigned_matches, canonical_input_matches, whole_part,
  fraction_part, trim_zero, trim_zeros, strip_minus, to_canonical_string, parse_decimal_string,
  is_canonical_decimal_string, as_decimal, decimal_add, decimal_sub, decimal_mul, decimal_div,
  compared, decimal_cmp, decimal_abs, decimal_is_zero, decimal_negate, quantize, is_exact_multiple,
}
use multi_venue_grid_engine.Math.ExactDecimal.{
  as_exact, lowest_digit_exponent, sum_digits, exact_add, exact_sub, exact_mul,
}
use multi_venue_grid_engine.Risk.Types.{str, bool, RiskProposedIntent, RiskWorkingOrder}
use multi_venue_grid_engine.Risk.Validation.{
  is_risk_side, is_purpose, is_funding_convention, decimal_field, nullable_field, not_negative,
  positive, validate_proposed_intent, validate_working_order, validate_unknown_reservation,
  grid_order, validate_grid_domain, validate_nullable_decimal, decimal_fields, validate_risk_input,
}
use multi_venue_grid_engine.Risk.Exposure.{
  ExposureArgs, empty_exposure, parse_notional, long_position_notional, short_position_notional,
  add_directed, add_parsed, add_notional, if_valid, add_order, add_reservation, add_intent,
  finish_exposure, add_all, priced_exposure, bounded_exposure, not_canonical, exposure_of,
  compute_exposure,
}
use multi_venue_grid_engine.Risk.PlannedExposure.{
  validate_batch_intent, invalid_entries, over_cap, not_within_cap, decide_on, decide_computed,
  decide_valid, planned_exposure_decision,
}
use multi_venue_grid_engine.Risk.PlannedExposure.Gate.{IsWithinCap, allowed-IsWithinCap}
use multi_venue_grid_engine.Examples.Cents.{
  digit, read_fraction, read_unsigned, negative, read, print_digits, drop_zeros, print_unsigned,
  print, magnitude, same_sign, signed, quotient, remainder, cmp_cents, is_negative_cents, cents,
  cents-IsNumericOrder,
}

abbrev small_buy : RiskProposedIntent
small_buy = record {
  side = str (text "BUY");
  price = str (text "50.5");
  quantity = str (text "1");
  reduce_only = bool false;
  purpose = str (text "GRID_ENTRY");
}

abbrev pub open_order : RiskWorkingOrder
open_order = record {
  side = str (text "SELL");
  price = str (text "52");
  remaining_quantity = str (text "0.5");
  reduce_only = bool false;
  owned = bool true;
}

abbrev pub small_batch : ExposureArgs
small_batch = record {
  signed_position = some (text "1.5");
  mark_or_mid_price = some (text "51");
  owned_active_orders = open_order ∷ [];
  unknown_reservations = [];
  proposed_batch = small_buy ∷ [];
}

pub small_batch_allowed :
    planned_exposure_decision cents small_batch
    ≡ ok (record { allowed = true; reason_codes = []; planned_gross_notional = some (text "127") })
unfolding ◌+ℤ◌ ◌-ℤ◌ text_beq insert insert_all unique fold_m flat_map_m place sort after_digits
    fraction_matches unsigned_matches canonical_input_matches whole_part fraction_part trim_zero
    trim_zeros strip_minus to_canonical_string parse_decimal_string is_canonical_decimal_string
    as_decimal decimal_add decimal_sub decimal_mul decimal_div compared decimal_cmp decimal_abs
    decimal_is_zero decimal_negate quantize is_exact_multiple as_exact lowest_digit_exponent
    sum_digits exact_add exact_sub exact_mul is_risk_side is_purpose is_funding_convention
    decimal_field nullable_field not_negative positive validate_proposed_intent
    validate_working_order validate_unknown_reservation grid_order validate_grid_domain
    validate_nullable_decimal decimal_fields validate_risk_input empty_exposure parse_notional
    long_position_notional short_position_notional add_directed add_parsed add_notional if_valid
    add_order add_reservation add_intent finish_exposure add_all priced_exposure bounded_exposure
    not_canonical exposure_of compute_exposure validate_batch_intent invalid_entries over_cap
    not_within_cap decide_on decide_computed decide_valid planned_exposure_decision digit
    read_fraction read_unsigned negative read print_digits drop_zeros print_unsigned print magnitude
    same_sign signed quotient remainder cmp_cents is_negative_cents cents
small_batch_allowed = refl

allowed-IsWithinCap_example : IsWithinCap cents small_batch
allowed-IsWithinCap_example =
    allowed-IsWithinCap cents cents-IsNumericOrder small_batch small_batch_allowed refl

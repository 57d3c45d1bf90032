-- ===== src/Examples/Account.antt =====
-- The risk engine (risk/risk-engine.ts) on the account of a quiet day.
use multi_venue_grid_engine.Base.{
  ◌≡◌, ◌↔◌, includes, arith, refl, true, false, none, some, List, [], ◌∷◌, text, text_beq, insert,
  insert_all, unique, fold_m, flat_map_m, place, sort,
}
use multi_venue_grid_engine.Base.Int.{◌+ℤ◌, ◌-ℤ◌}
use multi_venue_grid_engine.Math.Decimal.{
  after_digits, fraction_matches, unsigned_matches, canonical_input_matches, whole_part,
  fraction_part, trim_zero, trim_zeros, strip_minus, to_canonical_string, parse_decimal_string,
  is_canonical_decimal_string, as_decimal, decimal_add, decimal_sub, decimal_mul, decimal_div,
  compared, decimal_cmp, decimal_abs, decimal_is_zero, decimal_negate, quantize, is_exact_multiple,
}
use multi_venue_grid_engine.Math.ExactDecimal.{
  as_exact, lowest_digit_exponent, sum_digits, exact_add, exact_sub, exact_mul,
}
use multi_venue_grid_engine.Risk.Validation.{
  is_risk_side, is_purpose, is_funding_convention, decimal_field, nullable_field, not_negative,
  positive, validate_proposed_intent, validate_working_order, validate_unknown_reservation,
  grid_order, validate_grid_domain, validate_nullable_decimal, decimal_fields, validate_risk_input,
}
use multi_venue_grid_engine.Risk.Validation
use multi_venue_grid_engine.Risk.Exposure.{
  empty_exposure, parse_notional, long_position_notional, short_position_notional, add_directed,
  add_parsed, add_notional, if_valid, add_order, add_reservation, add_intent, finish_exposure,
  add_all, priced_exposure, bounded_exposure, not_canonical, exposure_of, compute_exposure,
}
use multi_venue_grid_engine.Risk.PlannedExposure.{
  validate_batch_intent, invalid_entries, over_cap, not_within_cap, decide_on, decide_computed,
  decide_valid, planned_exposure_decision,
}
use multi_venue_grid_engine.Examples.Cents.{
  digit, read_fraction, read_unsigned, negative, read, print_digits, drop_zeros, print_unsigned,
  print, magnitude, same_sign, signed, quotient, remainder, cmp_cents, is_negative_cents, cents,
}
use multi_venue_grid_engine.Risk.Types.{RiskFreshness, RiskInput}
use multi_venue_grid_engine.Risk.ReasonCodes.{
  sort_phase2d_reason_codes, ReasonCode, rank, code_eq, daily_loss, boundary, boundary_seed_blocked,
  sort_phase2d_congr,
}
use multi_venue_grid_engine.Risk.Freshness.{
  is_canonical_integer_ms, timestamp_matches, big_int, observed_codes, freshness_failures,
  freshness-nil_iff, IsFresh,
}
use multi_venue_grid_engine.Risk.Limits.{
  realized_codes, required_codes, convention_codes, normalize_funding, net_daily_pnl, pnl_finding,
  pnl_of, compute_daily_pnl, drawdown_of, compute_start_drawdown, flat_boundary, short_boundary,
  long_boundary, boundary_of, boundary_in_domain, compute_boundary,
}
use multi_venue_grid_engine.Risk.Engine.{
  continue, parsed, canonical_evaluated_at, invalid_input_decision, persistence_codes, lease_codes,
  cannot_reduce, actual_action, actual_codes, raises, choose_action, build_metrics,
}
use multi_venue_grid_engine.Risk.Evaluate.{
  raised_codes, high_water_codes, action_of, decide, check_input, evaluate_trusted_risk_input,
  or_invalid, evaluate_risk,
}
use multi_venue_grid_engine.Risk.Evaluate.Continue.{IsSafe, evaluate_risk-IsSafe}
use multi_venue_grid_engine.Risk.Evaluate.Reported.{IsReport, evaluate_risk-IsReport}
use multi_venue_grid_engine.Examples.Orders.{open_order}

abbrev fresh_data : RiskFreshness
fresh_data = record {
  evaluated_at = some (text "1700000005000");
  max_stale_ms = some (text "10000");
  position_observed_at = some (text "1700000000000");
  equity_observed_at = some (text "1700000001000");
  mark_observed_at = some (text "1700000004000");
  pnl_observed_at = some (text "1700000005000");
}

abbrev pub quiet_day : RiskInput
quiet_day = record {
  signed_position = some (text "1.5");
  mark_or_mid_price = some (text "51");
  equity = some (text "98");
  starting_equity = some (text "100");
  high_water_equity = none;
  realized_trading_pnl = some (text "-1.25");
  fees = some (text "0.5");
  funding = some (text "0");
  funding_convention = some (text "RECEIVED_POSITIVE");
  owned_active_orders = open_order ∷ [];
  unknown_reservations = [];
  proposed_batch = [];
  grid_lower = some (text "49");
  grid_upper = some (text "53");
  freshness = fresh_data;
  unresolved = false;
  lease = record { proven = true; expired = false; lost = false };
  latch_blocked = false;
  pair_authority_proven = true;
  halt_authority_clear = false;
  bounded_reduction = record {
    possible = true;
    is_ambiguous = false;
    cancel_only = false;
    snapshot_fresh = true;
  };
}

-- The engine continues, within limits and with new seeding allowed.
pub quiet_day_decides :
    ((evaluate_risk cents (parsed quiet_day)).action ≡ continue)
    × ((evaluate_risk cents (parsed quiet_day)).risk_metrics_within_limits ≡ true)
    × (includes (evaluate_risk cents (parsed quiet_day)).reason_codes boundary_seed_blocked ≡ false)
unfolding ◌+ℤ◌ ◌-ℤ◌ text_beq insert insert_all unique fold_m flat_map_m place sort after_digits
    fraction_matches unsigned_matches canonical_input_matches whole_part fraction_part trim_zero
    trim_zeros strip_minus to_canonical_string parse_decimal_string is_canonical_decimal_string
    as_decimal decimal_add decimal_sub decimal_mul decimal_div compared decimal_cmp decimal_abs
    decimal_is_zero decimal_negate quantize is_exact_multiple as_exact lowest_digit_exponent
    sum_digits exact_add exact_sub exact_mul is_risk_side is_purpose is_funding_convention
    decimal_field nullable_field not_negative positive validate_proposed_intent
    validate_working_order validate_unknown_reservation grid_order validate_grid_domain
    validate_nullable_decimal decimal_fields validate_risk_input empty_exposure parse_notional
    long_position_notional short_position_notional add_directed add_parsed add_notional if_valid
    add_order add_reservation add_intent finish_exposure add_all priced_exposure bounded_exposure
    not_canonical exposure_of compute_exposure validate_batch_intent invalid_entries over_cap
    not_within_cap decide_on decide_computed decide_valid planned_exposure_decision digit
    read_fraction read_unsigned negative read print_digits drop_zeros print_unsigned print magnitude
    same_sign signed quotient remainder cmp_cents is_negative_cents cents is_canonical_integer_ms
    Validation.convention_codes timestamp_matches big_int observed_codes freshness_failures rank
    sort_phase2d_reason_codes realized_codes required_codes convention_codes normalize_funding
    net_daily_pnl pnl_finding pnl_of compute_daily_pnl drawdown_of compute_start_drawdown
    flat_boundary short_boundary long_boundary boundary_of boundary_in_domain compute_boundary
    canonical_evaluated_at invalid_input_decision persistence_codes lease_codes cannot_reduce
    actual_action actual_codes raises choose_action build_metrics raised_codes high_water_codes
    action_of decide check_input evaluate_trusted_risk_input or_invalid evaluate_risk
quiet_day_decides = (refl, refl, refl)

evaluate_risk-IsSafe_example :
    IsSafe cents quiet_day (evaluate_risk cents (parsed quiet_day)).reason_codes
evaluate_risk-IsSafe_example = evaluate_risk-IsSafe cents quiet_day quiet_day_decides.0

evaluate_risk-IsReport_example : IsReport (evaluate_risk cents (parsed quiet_day)).reason_codes
evaluate_risk-IsReport_example = evaluate_risk-IsReport cents (parsed quiet_day)

freshness-nil_iff_example : (freshness_failures cents fresh_data ≡ []) ↔ IsFresh cents fresh_data
freshness-nil_iff_example = freshness-nil_iff cents fresh_data

abbrev first_order : List ReasonCode
first_order = daily_loss ∷ boundary ∷ daily_loss ∷ []

abbrev second_order : List ReasonCode
second_order = boundary ∷ daily_loss ∷ []

same_codes : (c : ReasonCode) → includes first_order c ≡ includes second_order c
unfolding rank
same_codes c = ground arith

sort_phase2d_congr_example :
    sort_phase2d_reason_codes first_order ≡ sort_phase2d_reason_codes second_order
sort_phase2d_congr_example = sort_phase2d_congr first_order second_order same_codes

-- ===== src/Examples/Lookups.antt =====
-- A lookup of a pending cancel (evaluateCancelLookup of execution/coordinator.ts) that shows it done.
use multi_venue_grid_engine.Base.{
  ◌≡◌, refl, none, some, [], ◌∷◌, text, text_eq, ok, text_beq, get_entry, set_entry, place, sort,
  text_compare, text_leb, fold_m,
}
use multi_venue_grid_engine.Base.Int.{◌+ℤ◌, ◌-ℤ◌}
use multi_venue_grid_engine.Math.Decimal.{
  after_digits, fraction_matches, unsigned_matches, canonical_input_matches, whole_part,
  fraction_part, trim_zero, trim_zeros, strip_minus, to_canonical_string, parse_decimal_string,
  is_canonical_decimal_string, as_decimal, decimal_add, decimal_sub, decimal_mul, decimal_div,
  compared, decimal_cmp, decimal_abs, decimal_is_zero, decimal_negate, quantize, is_exact_multiple,
}
use multi_venue_grid_engine.Math.ExactDecimal.{
  as_exact, lowest_digit_exponent, sum_digits, exact_add, exact_sub, exact_mul,
}
use multi_venue_grid_engine.Examples.Cents.{
  digit, read_fraction, read_unsigned, negative, read, print_digits, drop_zeros, print_unsigned,
  print, magnitude, same_sign, signed, quotient, remainder, cmp_cents, is_negative_cents, cents,
}
use multi_venue_grid_engine.Domain.ScopeKey.{parse_scope_key, split}
use multi_venue_grid_engine.Execution.IntentStatus.{cancelled, cancel_unverified}
use multi_venue_grid_engine.Execution.Intents.{parse_scope, IntentRecord, CancelResolution}
use multi_venue_grid_engine.Execution.RegistryState.{RegistryState}
use multi_venue_grid_engine.Execution.Observations.{
  ExchangeOrderObservation, same_decimal, same_price, is_not_negative, order_matches_intent,
  sum_quantities, exceeds_limit,
}
use multi_venue_grid_engine.Execution.Screening.{
  ClientOrderLookup, resolve_with, screen_from, screen_executions,
}
use multi_venue_grid_engine.Execution.CancelLookup.{
  changed_executions, cancel_contradiction, by_order_status, cancel_evidence, cancel_total,
  order_differs, cancel_decision, evaluate_cancel_screened, evaluate_cancel_lookup,
}
use multi_venue_grid_engine.Execution.CancelLookup.Proven.{
  IsProven, evaluate_cancel_lookup-IsProven,
}
use multi_venue_grid_engine.Examples.Sequences.{entry, dead_record, empty_state}

abbrev pending_record : IntentRecord
pending_record = record dead_record {
  intent = entry;
  status = cancel_unverified;
  exchange_order_id = some (text "x-1");
}

abbrev pending_state : RegistryState
pending_state = record empty_state {
  records = (text "int:1", pending_record) ∷ [];
  by_exchange_order_id = (text "x-1", text "int:1") ∷ [];
}

abbrev cancelled_order : ExchangeOrderObservation
cancelled_order = record {
  venue = text "vx";
  market = text "BTC-PERP";
  exchange_order_id = text "x-1";
  client_order_id = entry.client_order_id;
  side = text "BUY";
  price = some (text "50.5");
  original_quantity = text "2";
  executed_quantity = text "0";
  status = text "CANCELLED";
  reduce_only = none;
}

abbrev shown : ClientOrderLookup
shown = record { order = some cancelled_order; executions = [] }

abbrev closed : CancelResolution
closed = record { status = cancelled; executions = []; reason_codes = text "CANCEL_VERIFIED" ∷ [] }

cancel_is_proven :
    evaluate_cancel_lookup cents pending_record shown pending_state ≡ ok (resolve_with closed)
unfolding evaluate_cancel_lookup parse_scope parse_scope_key split screen_executions screen_from
    evaluate_cancel_screened cancel_contradiction changed_executions exceeds_limit sum_quantities
    cancel_decision order_differs order_matches_intent same_decimal same_price is_not_negative
    cancel_total cancel_evidence by_order_status text_beq ◌+ℤ◌ ◌-ℤ◌ after_digits fold_m get_entry
    set_entry place sort text_compare text_leb fraction_matches unsigned_matches
    canonical_input_matches whole_part fraction_part trim_zero trim_zeros strip_minus
    to_canonical_string parse_decimal_string is_canonical_decimal_string as_decimal decimal_add
    decimal_sub decimal_mul decimal_div compared decimal_cmp decimal_abs decimal_is_zero
    decimal_negate quantize is_exact_multiple as_exact lowest_digit_exponent sum_digits exact_add
    exact_sub exact_mul digit read_fraction read_unsigned negative read print_digits drop_zeros
    print_unsigned print magnitude same_sign signed quotient remainder cmp_cents is_negative_cents
    cents
cancel_is_proven = refl

evaluate_cancel_lookup-IsProven_example : IsProven cents pending_record pending_state shown closed
evaluate_cancel_lookup-IsProven_example =
    evaluate_cancel_lookup-IsProven cents pending_record shown pending_state cancel_is_proven

-- ===== src/Examples/Sequences.antt =====
-- A short life of two intents in the registry (execution/intent-registry.ts).
use multi_venue_grid_engine.Base.{
  ◌≡◌, refl, get_entry, set_entry, text_compare, text_leb, text_eq, false, none, some, [], ◌∷◌,
  Text, text, ok, text_beq, insert, insert_all, unique, fold_m, flat_map_m, place, sort,
  discrete_beq,
}
use multi_venue_grid_engine.Base.Int.{◌+ℤ◌, ◌-ℤ◌}
use multi_venue_grid_engine.Math.Decimal.{
  after_digits, fraction_matches, unsigned_matches, canonical_input_matches, whole_part,
  fraction_part, trim_zero, trim_zeros, strip_minus, to_canonical_string, parse_decimal_string,
  is_canonical_decimal_string, as_decimal, decimal_add, decimal_sub, decimal_mul, decimal_div,
  compared, decimal_cmp, decimal_abs, decimal_is_zero, decimal_negate, quantize, is_exact_multiple,
}
use multi_venue_grid_engine.Math.ExactDecimal.{
  as_exact, lowest_digit_exponent, sum_digits, exact_add, exact_sub, exact_mul,
}
use multi_venue_grid_engine.Examples.Cents.{
  digit, read_fraction, read_unsigned, negative, read, print_digits, drop_zeros, print_unsigned,
  print, magnitude, same_sign, signed, quotient, remainder, cmp_cents, is_negative_cents, cents,
  cents-IsNumericOrder,
}
use multi_venue_grid_engine.Domain.ScopeKey.{join}
use multi_venue_grid_engine.Domain.OrderId.{make_client_order_id, slice_front}
use multi_venue_grid_engine.Execution.IntentStatus.{
  IntentStatus-discrete, allowed_transitions, is_working, is_partial_quantity, prepared, not_sent,
  linked,
}
use multi_venue_grid_engine.Execution.Intents.{
  OrderIntent, IntentRecord, IntentLink, RecordedExecution, is_canonical_generation_string,
  is_positive_decimal, is_priced, place_intent_problem,
}
use multi_venue_grid_engine.Execution.Executions.{
  is_valid_execution, check_executions, normalize_executions, sum_executions,
  quantity_matches_status,
}
use multi_venue_grid_engine.Execution.RegistryState.{
  RegistryState, require_record, assert_allowed, explains, explained_by, is_explained,
  drop_explained_contradictions, add_contradiction,
}
use multi_venue_grid_engine.Execution.Registry.{
  claim_executions, settle, transition, total_within, prepare, linked_record, link, prepare_call,
  link_call, perform,
}
use multi_venue_grid_engine.Execution.Registry.Evolves.{Evolves, IsBounded}
use multi_venue_grid_engine.Execution.Registry.Terminal.{
  start, next, AllBounded, perform-Evolves, terminal-constant, path-AllBounded,
}

abbrev pub one_hash : Text → Text
one_hash s = text "0123456789abcdef0123456789abcdef"

abbrev pub print_of : OrderIntent → Text
print_of i = i.intent_id

abbrev pub entry : OrderIntent
entry = record {
  intent_id = text "int:1";
  experiment_id = text "e";
  run_id = text "r";
  scope_key = text "main/vx/BTC-PERP/grid";
  anchor_epoch = text "epoch-1";
  logical_level_id = some (text "B1");
  purpose = text "GRID_ENTRY";
  side = text "BUY";
  order_type = text "LIMIT";
  time_in_force = some (text "GTC");
  price = some (text "50.5");
  quantity = text "2";
  reduce_only = false;
  client_order_id = some (text "mv10123456789abcdef0123");
  lease_generation = text "7";
  created_at = text "t0";
}

abbrev pub earlier : OrderIntent
earlier = record entry { intent_id = text "int:0"; client_order_id = some (text "mv1old") }

abbrev pub dead_record : IntentRecord
dead_record = record {
  intent = earlier;
  status = not_sent;
  request_fingerprint = text "int:0";
  exchange_order_id = none;
  authority = none;
  executions = [];
  executed_quantity = text "0";
  reason_codes = text "VENUE_DOWN" ∷ [];
}

abbrev entry_record : IntentRecord
entry_record = record {
  intent = entry;
  status = prepared;
  request_fingerprint = text "int:1";
  exchange_order_id = none;
  authority = none;
  executions = [];
  executed_quantity = text "0";
  reason_codes = [];
}

abbrev pub empty_state : RegistryState
empty_state = record {
  records = [];
  by_client_order_id = [];
  by_exchange_order_id = [];
  by_execution_id = [];
  contradictions = [];
}

abbrev pub dead_state : RegistryState
dead_state = record empty_state {
  records = (text "int:0", dead_record) ∷ [];
  by_client_order_id = (text "mv1old", text "int:0") ∷ [];
}

abbrev after_dead : RegistryState
after_dead = record dead_state {
  records = (text "int:0", dead_record) ∷ (text "int:1", entry_record) ∷ [];
  by_client_order_id =
      (text "mv1old", text "int:0") ∷ (text "mv10123456789abcdef0123", text "int:1") ∷ [];
}

abbrev pub entry_state : RegistryState
entry_state = record empty_state {
  records = (text "int:1", entry_record) ∷ [];
  by_client_order_id = (text "mv10123456789abcdef0123", text "int:1") ∷ [];
}

abbrev half_fill : RecordedExecution
half_fill = record {
  execution_id = text "f-1";
  exchange_order_id = text "x-1";
  quantity = text "0.75";
  price = text "50.5";
}

abbrev venue_link : IntentLink
venue_link = record {
  exchange_order_id = text "x-1";
  authority = record { source = text "ACK"; evidence_id = text "ev-1" };
  executions = half_fill ∷ [];
  reason_codes = [];
}

abbrev linked_record_1 : IntentRecord
linked_record_1 = record entry_record {
  status = linked;
  exchange_order_id = some (text "x-1");
  authority = some venue_link.authority;
  executions = half_fill ∷ [];
  executed_quantity = text "0.75";
}

abbrev linked_state : RegistryState
linked_state = record entry_state {
  records =
      (
        text "int:1",
        record entry_record {
          status = linked;
          exchange_order_id = some (text "x-1");
          authority = some venue_link.authority;
          executions = half_fill ∷ [];
          executed_quantity = text "0.75";
        },
      )
      ∷ [];
  by_exchange_order_id = (text "x-1", text "int:1") ∷ [];
  by_execution_id = (text "f-1", text "int:1") ∷ [];
}

pub prepared_first :
    perform cents one_hash print_of empty_state (prepare_call entry) ≡ ok entry_state
unfolding ◌+ℤ◌ ◌-ℤ◌ text_beq insert insert_all unique fold_m flat_map_m place sort after_digits
    fraction_matches unsigned_matches canonical_input_matches whole_part fraction_part trim_zero
    trim_zeros strip_minus to_canonical_string parse_decimal_string is_canonical_decimal_string
    as_decimal decimal_add decimal_sub decimal_mul decimal_div compared decimal_cmp decimal_abs
    decimal_is_zero decimal_negate quantize is_exact_multiple as_exact lowest_digit_exponent
    sum_digits exact_add exact_sub exact_mul discrete_beq get_entry set_entry text_compare text_leb
    join make_client_order_id slice_front IntentStatus-discrete allowed_transitions is_working
    is_partial_quantity is_canonical_generation_string is_positive_decimal is_priced
    place_intent_problem is_valid_execution check_executions normalize_executions sum_executions
    quantity_matches_status require_record assert_allowed explains explained_by is_explained
    drop_explained_contradictions add_contradiction claim_executions settle transition total_within
    prepare linked_record link perform digit read_fraction read_unsigned negative read print_digits
    drop_zeros print_unsigned print magnitude same_sign signed quotient remainder cmp_cents
    is_negative_cents cents
prepared_first = refl

prepared_second : perform cents one_hash print_of dead_state (prepare_call entry) ≡ ok after_dead
unfolding ◌+ℤ◌ ◌-ℤ◌ text_beq insert insert_all unique fold_m flat_map_m place sort after_digits
    fraction_matches unsigned_matches canonical_input_matches whole_part fraction_part trim_zero
    trim_zeros strip_minus to_canonical_string parse_decimal_string is_canonical_decimal_string
    as_decimal decimal_add decimal_sub decimal_mul decimal_div compared decimal_cmp decimal_abs
    decimal_is_zero decimal_negate quantize is_exact_multiple as_exact lowest_digit_exponent
    sum_digits exact_add exact_sub exact_mul discrete_beq get_entry set_entry text_compare text_leb
    join make_client_order_id slice_front IntentStatus-discrete allowed_transitions is_working
    is_partial_quantity is_canonical_generation_string is_positive_decimal is_priced
    place_intent_problem is_valid_execution check_executions normalize_executions sum_executions
    quantity_matches_status require_record assert_allowed explains explained_by is_explained
    drop_explained_contradictions add_contradiction claim_executions settle transition total_within
    prepare linked_record link perform digit read_fraction read_unsigned negative read print_digits
    drop_zeros print_unsigned print magnitude same_sign signed quotient remainder cmp_cents
    is_negative_cents cents
prepared_second = refl

linked_first :
    perform cents one_hash print_of entry_state (link_call (text "int:1") venue_link)
    ≡ ok linked_state
unfolding ◌+ℤ◌ ◌-ℤ◌ text_beq insert insert_all unique fold_m flat_map_m place sort after_digits
    fraction_matches unsigned_matches canonical_input_matches whole_part fraction_part trim_zero
    trim_zeros strip_minus to_canonical_string parse_decimal_string is_canonical_decimal_string
    as_decimal decimal_add decimal_sub decimal_mul decimal_div compared decimal_cmp decimal_abs
    decimal_is_zero decimal_negate quantize is_exact_multiple as_exact lowest_digit_exponent
    sum_digits exact_add exact_sub exact_mul discrete_beq get_entry set_entry text_compare text_leb
    join make_client_order_id slice_front IntentStatus-discrete allowed_transitions is_working
    is_partial_quantity is_canonical_generation_string is_positive_decimal is_priced
    place_intent_problem is_valid_execution check_executions normalize_executions sum_executions
    quantity_matches_status require_record assert_allowed explains explained_by is_explained
    drop_explained_contradictions add_contradiction claim_executions settle transition total_within
    prepare linked_record link perform digit read_fraction read_unsigned negative read print_digits
    drop_zeros print_unsigned print magnitude same_sign signed quotient remainder cmp_cents
    is_negative_cents cents
linked_first = refl

entry_found : get_entry entry_state.records (text "int:1") ≡ some entry_record
unfolding get_entry text_beq
entry_found = refl

perform-Evolves_example :
    (r' : IntentRecord) × (get_entry linked_state.records (text "int:1") ≡ some r')
    × Evolves entry_record r'
perform-Evolves_example =
    perform-Evolves cents one_hash print_of entry_state (link_call (text "int:1") venue_link)
      (text "int:1") entry_record linked_first entry_found

dead_found : get_entry dead_state.records (text "int:0") ≡ some dead_record
unfolding get_entry text_beq
dead_found = refl

terminal-constant_example : get_entry after_dead.records (text "int:0") ≡ some dead_record
terminal-constant_example =
    terminal-constant cents one_hash print_of (text "int:0") dead_record
      (next (prepare_call entry) start prepared_second) dead_found refl

empty-AllBounded : AllBounded cents one_hash print_of empty_state
unfolding get_entry
empty-AllBounded i r h = cc

linked_found : get_entry linked_state.records (text "int:1") ≡ some linked_record_1
unfolding get_entry text_beq
linked_found = refl

path-AllBounded_example : IsBounded cents linked_record_1
path-AllBounded_example =
    path-AllBounded cents one_hash print_of cents-IsNumericOrder (text "int:1") linked_record_1
      (next (link_call (text "int:1") venue_link) (next (prepare_call entry) start prepared_first)
        linked_first)
      empty-AllBounded linked_found

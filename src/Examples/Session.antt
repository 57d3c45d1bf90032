-- ===== src/Examples/Session.antt =====
-- A short life of a coordinator (execution/coordinator.ts), with a venue that acknowledges every place.
use multi_venue_grid_engine.Base.{
  ◌≡◌, refl, arith, true, Option, none, some, List, [], ◌∷◌, Text, text, text_eq, nat_eq, ok,
  text_beq, includes, any, place, sort, text_compare, text_leb,
}
use multi_venue_grid_engine.Base.Int.{◌+ℤ◌, ◌-ℤ◌}
use multi_venue_grid_engine.Execution.IntentStatus.{linked, is_working}
use multi_venue_grid_engine.Execution.Intents.{OrderIntent, IntentRecord}
use multi_venue_grid_engine.Execution.RegistryState.{RegistryState}
use multi_venue_grid_engine.Execution.Ports.{
  Ports, Awaited, acknowledged, unrecognized, HaltAuthorityView,
}
use multi_venue_grid_engine.Execution.CoordinatorState.{
  Coordinator, new_coordinator, list_records, observe_stream_sequence, is_stream_sequence,
  is_risk_increasing, interrupt_all,
}
use multi_venue_grid_engine.Execution.CoordinatorState.Gaps.{
  observe_all, numbers, observe_all_complete,
}
use multi_venue_grid_engine.Execution.Steps.{Machine, Deps, ◌>>=◌, return, gets, of_outcome, await}
use multi_venue_grid_engine.Execution.Admission.{
  is_possibly_live, reserve_working, reserve_record, reserve_all, exposure_reservation,
  to_proposed_intent, gate_args, gate_inputs, exposure_problem,
}
use multi_venue_grid_engine.Execution.Observations.{remaining_quantity, difference_or_null}
use multi_venue_grid_engine.Execution.Admission.Within.{IsCovered, exposure_problem-IsCovered}
use multi_venue_grid_engine.Execution.Continuation.{
  ContinuationEvidence, risk_input, halt_allows, gate_action, grants, decide_on,
  decide_continuation,
}
use multi_venue_grid_engine.Execution.Continuation.Granted.{
  IsGranted, decide_continuation-IsGranted,
}
use multi_venue_grid_engine.Execution.Session.{Operation, submits, cancels, run_operations}
use multi_venue_grid_engine.Execution.Sends.{AllSound}
use multi_venue_grid_engine.Execution.Sends.Session.{run_operations-AllSound}
use multi_venue_grid_engine.Risk.Engine.{parsed}
use multi_venue_grid_engine.Risk.Freshness.{big_int}
use multi_venue_grid_engine.Math.Decimal.{
  after_digits, fraction_matches, unsigned_matches, canonical_input_matches, whole_part,
  fraction_part, trim_zero, trim_zeros, strip_minus, to_canonical_string, parse_decimal_string,
  is_canonical_decimal_string, as_decimal, decimal_add, decimal_sub, decimal_mul, decimal_div,
  compared, decimal_cmp, decimal_abs, decimal_is_zero, decimal_negate, quantize, is_exact_multiple,
}
use multi_venue_grid_engine.Math.ExactDecimal.{
  as_exact, lowest_digit_exponent, sum_digits, exact_add, exact_sub, exact_mul,
}
use multi_venue_grid_engine.Examples.Cents.{
  digit, read_fraction, read_unsigned, negative, read, print_digits, drop_zeros, print_unsigned,
  print, magnitude, same_sign, signed, quotient, remainder, cmp_cents, is_negative_cents, cents,
  cents-IsNumericOrder,
}
use multi_venue_grid_engine.Examples.Account.{quiet_day, quiet_day_decides}
use multi_venue_grid_engine.Examples.Orders.{open_order, small_batch, small_batch_allowed}
use multi_venue_grid_engine.Examples.Sequences.{
  one_hash, print_of, entry, dead_record, empty_state, dead_state,
}

abbrev pub at_once : {A : Type 0} → A → Unit {0} → Awaited (Unit {0}) A
at_once a w = (tt, [], a)

abbrev running : HaltAuthorityView
running = record { durable_status = text "RUNNING"; allow_risk_increase = true; reason_codes = [] }

abbrev pub calm_ports : Ports (Unit {0})
calm_ports = record {
  read_exposure =
      at_once (
        some
          (record { signed_position = some (text "1.5"); mark_or_mid_price = some (text "51") }));
  persist_journal = λ s. at_once true;
  persist_checkpoint = λ cursor. at_once true;
  enter_fence = at_once none;
  leave_fence = at_once none;
  place_order = λ i. at_once (
      some (
        acknowledged (record {
          intent_id = i.intent_id;
          client_order_id = i.client_order_id;
          exchange_order_id = text "x-9";
        })));
  cancel_order = λ q. at_once (some unrecognized);
  lookup_client_order = λ id. at_once none;
  list_open_orders = at_once (some []);
  list_executions_since = λ cursor. at_once none;
  read_risk_inputs = at_once (some quiet_day);
  inspect_halt = at_once (some running);
}

abbrev pub calm : Deps (Unit {0})
calm = record {
  config = record {
    experiment_id = text "e";
    run_id = text "r";
    scope_key = text "main/vx/BTC-PERP/grid";
    write_budget_per_cycle = 4;
    lease_generation = text "7";
  };
  ports = calm_ports;
  decimal_js = cents;
  sha256_hex = one_hash;
  intent_fingerprint = print_of;
  admit_risk_input = parsed;
}

-- An exit, which may be sent without a grant.
abbrev pub exit_order : OrderIntent
exit_order = record entry { purpose = text "GRID_EXIT"; side = text "SELL"; reduce_only = true }

abbrev pub machine_on : RegistryState → Machine (Unit {0})
machine_on s = record { coordinator = new_coordinator s none; world = tt; trace = [] }

abbrev two_calls : List Operation
two_calls = submits exit_order ∷ cancels (text "int:1") ∷ []

run_operations-AllSound_example :
    AllSound (run_operations calm 3 two_calls (machine_on dead_state)).trace
run_operations-AllSound_example =
    run_operations-AllSound calm 3 two_calls (machine_on dead_state) refl

abbrev quiet_evidence : ContinuationEvidence
quiet_evidence = record {
  risk_inputs = some quiet_day;
  halt_view = some running;
  reservation = record { owned_active_orders = open_order ∷ []; unknown_reservations = [] };
  blockers = [];
}

quiet_granted : (decide_continuation cents parsed quiet_evidence).allow_risk_increase ≡ true
unfolding decide_continuation decide_on grants gate_action halt_allows risk_input text_beq
quiet_granted = rw (quiet_day_decides.0, quiet_day_decides.1, quiet_day_decides.2) refl

decide_continuation-IsGranted_example : IsGranted cents parsed quiet_evidence
decide_continuation-IsGranted_example =
    decide_continuation-IsGranted cents parsed quiet_evidence quiet_granted

abbrev counting : Coordinator
counting = record (new_coordinator empty_state none) { last_stream_sequence = some 5 }

abbrev next_two : List (Option Text)
next_two = some (text "6") ∷ some (text "7") ∷ []

next_two_clear :
    ((observe_stream_sequence counting (some (text "6"))).1 ≡ none)
    × ((observe_stream_sequence
          (observe_stream_sequence counting (some (text "6"))).0
          (some (text "7"))).1
        ≡ none)
unfolding observe_stream_sequence is_stream_sequence big_int
next_two_clear = (refl, refl)

next_two_last : (observe_all counting next_two).last_stream_sequence ≡ some 7
unfolding observe_all observe_stream_sequence is_stream_sequence big_int
next_two_last = refl

observe_all_complete_example : includes (numbers next_two) 6 ≡ true
observe_all_complete_example =
    observe_all_complete counting next_two 5 7 6 refl (next_two_clear.0, (next_two_clear.1, tt))
      next_two_last (omega arith) (omega arith)

-- A sell of half a unit that is working.
abbrev working_record : IntentRecord
working_record = record dead_record {
  intent = record entry {
    side = text "SELL";
    price = some (text "52");
    quantity = text "0.5";
    intent_id = text "int:0";
  };
  status = linked;
  exchange_order_id = some (text "x-1");
}

abbrev working_state : RegistryState
working_state = record empty_state { records = (text "int:0", working_record) ∷ [] }

abbrev buy_one : OrderIntent
buy_one = record entry { quantity = text "1" }

batch_is_small :
    gate_args cents
      (new_coordinator working_state none)
      (record { signed_position = some (text "1.5"); mark_or_mid_price = some (text "51") })
      (buy_one ∷ [])
    ≡ small_batch
unfolding gate_args exposure_reservation reserve_all reserve_record reserve_working list_records
    place sort text_compare text_leb is_working is_possibly_live is_risk_increasing
    to_proposed_intent remaining_quantity difference_or_null text_beq ◌+ℤ◌ ◌-ℤ◌ after_digits
    fraction_matches unsigned_matches canonical_input_matches whole_part fraction_part trim_zero
    trim_zeros strip_minus to_canonical_string parse_decimal_string is_canonical_decimal_string
    as_decimal decimal_add decimal_sub decimal_mul decimal_div compared decimal_cmp decimal_abs
    decimal_is_zero decimal_negate quantize is_exact_multiple as_exact lowest_digit_exponent
    sum_digits exact_add exact_sub exact_mul digit read_fraction read_unsigned negative read
    print_digits drop_zeros print_unsigned print magnitude same_sign signed quotient remainder
    cmp_cents is_negative_cents cents
batch_is_small = refl

buy_not_denied : (exposure_problem calm (buy_one ∷ []) (machine_on working_state)).0 ≡ ok none
unfolding exposure_problem gate_inputs ◌>>=◌ return gets of_outcome await interrupt_all
    is_risk_increasing text_beq
buy_not_denied = rw (batch_is_small, small_batch_allowed) refl

buy_risky : any is_risk_increasing (buy_one ∷ []) ≡ true
unfolding is_risk_increasing text_beq
buy_risky = refl

exposure_problem-IsCovered_example :
    IsCovered cents
      (await calm_ports.read_exposure (machine_on working_state)).1.coordinator
      (buy_one ∷ [])
      (some (record { signed_position = some (text "1.5"); mark_or_mid_price = some (text "51") }))
exposure_problem-IsCovered_example =
    exposure_problem-IsCovered calm cents-IsNumericOrder (buy_one ∷ []) (machine_on working_state)
      buy_risky buy_not_denied

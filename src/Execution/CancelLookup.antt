-- ===== src/Execution/CancelLookup.antt =====
-- src/execution/coordinator.ts: what a lookup proves about a pending cancel (evaluateCancelLookup).
pub mod Own
pub mod Proven
use multi_venue_grid_engine.Base.{
  Bool, false, ◌&&◌, ◌||◌, not, Option, none, some, List, [], ◌∷◌, map, Text, text, text_eq,
  option_eq, is_gt, any, every, keep, find, get_entry, Outcome, ok, ◌>>=◌, if◌then◌else◌, ◌==◌,
}
use multi_venue_grid_engine.Math.DecimalJs.{DecimalJs}
use multi_venue_grid_engine.Math.Decimal.{decimal_cmp}
use multi_venue_grid_engine.Execution.IntentStatus.{linked, cancelled, filled}
use multi_venue_grid_engine.Execution.Intents.{
  RegistryError, lift, parse_scope, IntentRecord, RecordedExecution,
}
use multi_venue_grid_engine.Execution.RegistryState.{RegistryState}
use multi_venue_grid_engine.Execution.Observations.{
  ExchangeOrderObservation, ExecutionFacts, known, to_recorded, is_eq, order_matches_intent,
  same_facts, sum_quantities, exceeds_limit,
}
use multi_venue_grid_engine.Execution.Screening.{
  ClientOrderLookup, LookupDecision, ScreenedExecutions, screened, stopped, undecided, contradicted,
  resolved_cancel, has_entries, is_recorded, screen_executions,
}

module _ (J : DecimalJs) where
  -- The recorded executions that an observed one contradicts.
  unfoldable pub changed_executions :
      List RecordedExecution → List ExecutionFacts → Outcome RegistryError (List ExecutionFacts)
  changed_executions recorded [] = ok []
  changed_executions recorded (x ∷ xs) =
      elim (find (λ y. y.execution_id == known x.execution_id) recorded) [
        | none ↦ changed_executions recorded xs
        | some y ↦ same_facts J (to_recorded x) y >>= λ same.
            (changed_executions recorded xs >>= λ rest. ok (if same then rest else x ∷ rest))
      ]

  -- An execution that the registry has recorded for another intent.
  abbrev pub is_foreign_execution : RegistryState → Text → ExecutionFacts → Bool
  is_foreign_execution s id x = elim (get_entry s.by_execution_id (known x.execution_id)) [
    | none ↦ false
    | some owner ↦ not (owner == id)
  ]

  -- The contradictions of a cancel lookup, in the order of their checks.
  unfoldable pub cancel_contradiction :
      IntentRecord
      → RegistryState
      → List ExecutionFacts
      → Outcome RegistryError (Option LookupDecision)
  cancel_contradiction r s unique =
      if any (λ x. not (x.exchange_order_id == r.exchange_order_id)) unique
      then ok (
          some (
            contradicted (text "LOOKUP_EXECUTION_MISMATCH") (text "EXECUTION_MISMATCH")
              (keep (λ x. not (x.exchange_order_id == r.exchange_order_id)) unique)))
      else do
        changed ← changed_executions r.executions unique
        (if has_entries changed
            then ok (
                some (
                  contradicted (text "LOOKUP_EXECUTION_MISMATCH") (text "EXECUTION_CONFLICT")
                    changed))
            else if any (is_foreign_execution s r.intent.intent_id) unique
            then ok (
                some (
                  contradicted (text "EXECUTION_ID_COLLISION") (text "EXECUTION_ID_COLLISION")
                    (keep (is_foreign_execution s r.intent.intent_id) unique)))
            else do
              over ←
                  exceeds_limit J r.executed_quantity
                    (map to_recorded (keep (λ x. not (is_recorded s x)) unique)) r.intent.quantity
              ok (
                  if over
                  then some (
                      contradicted (text "LOOKUP_OVERFILL") (text "EXECUTION_OVERFILL")
                        (keep (λ x. not (is_recorded s x)) unique))
                  else none))

  -- `ORDER_FILLED`, `CANCEL_VERIFIED` or `ORDER_STILL_ACTIVE`
  unfoldable pub by_order_status : Text → Bool → List RecordedExecution → LookupDecision
  by_order_status status full executions =
      if status == text "FILLED" && full
      then resolved_cancel filled executions (text "ORDER_FILLED")
      else if status == text "CANCELLED" && not full
      then resolved_cancel cancelled executions (text "CANCEL_VERIFIED")
      else if status == text "OPEN" && not full
      then resolved_cancel linked executions (text "ORDER_STILL_ACTIVE")
      else undecided (text "ORDER_STATUS_UNPROVEN")

  -- The decision on a total that does not exceed the quantity.
  unfoldable pub cancel_evidence :
      Option ExchangeOrderObservation
      → Text
      → Bool
      → List RecordedExecution
      → Outcome RegistryError LookupDecision
  cancel_evidence none executed full executions = ok (
      if full
      then resolved_cancel filled executions (text "FILLED_BY_EXECUTION_EVIDENCE")
      else undecided (text "ORDER_NOT_OBSERVED"))
  cancel_evidence (some o) executed full executions = do
    c ← lift (decimal_cmp J o.executed_quantity executed)
    ok (
        if not (is_eq c)
        then undecided (text "EXECUTION_EVIDENCE_INCOMPLETE")
        else by_order_status o.status full executions)

  abbrev pub are_all_observed : List RecordedExecution → List ExecutionFacts → Bool
  are_all_observed recorded unique =
      every (λ y. any (λ x. known x.execution_id == y.execution_id) unique) recorded

  unfoldable pub cancel_total :
      IntentRecord
      → RegistryState
      → Option ExchangeOrderObservation
      → List ExecutionFacts
      → Text
      → Outcome RegistryError LookupDecision
  cancel_total r s order unique executed = do
    c ← lift (decimal_cmp J executed r.intent.quantity)
    (if is_gt c
        then ok (
            contradicted (text "LOOKUP_OVERFILL") (text "EXECUTION_OVERFILL")
              (keep (λ x. not (is_recorded s x)) unique))
        else if not (are_all_observed r.executions unique)
        then ok (undecided (text "EXECUTION_EVIDENCE_MISSING"))
        else cancel_evidence order executed (is_eq c) (map to_recorded unique))

  -- The order that was observed is not the record's.
  unfoldable pub order_differs :
      IntentRecord → Text → Text → Option ExchangeOrderObservation → Outcome RegistryError Bool
  order_differs r venue market none = ok false
  order_differs r venue market (some o) = do
    matches ← order_matches_intent J o r.intent venue market
    ok (not matches || not (some o.exchange_order_id == r.exchange_order_id))

  -- The decision where nothing contradicts.
  unfoldable pub cancel_decision :
      IntentRecord
      → RegistryState
      → Text
      → Text
      → Option ExchangeOrderObservation
      → List ExecutionFacts
      → Bool
      → Outcome RegistryError LookupDecision
  cancel_decision r s venue market order unique invalid = do
    differs ← order_differs r venue market order
    (if differs
        then ok (undecided (text "LOOKUP_ORDER_MISMATCH"))
        else if invalid
        then ok (undecided (text "LOOKUP_EXECUTION_MISMATCH"))
        else elim (sum_quantities J (text "0") (map to_recorded unique)) [
          | none ↦ ok (undecided (text "LOOKUP_QUANTITY_UNBOUNDED"))
          | some executed ↦ cancel_total r s order unique executed
        ])

  unfoldable pub evaluate_cancel_screened :
      IntentRecord
      → RegistryState
      → Text
      → Text
      → Option ExchangeOrderObservation
      → ScreenedExecutions
      → Outcome RegistryError LookupDecision
  evaluate_cancel_screened r s venue market order (stopped d) = ok d
  evaluate_cancel_screened r s venue market order (screened unique invalid) = do
    contradiction ← cancel_contradiction r s unique
    elim contradiction [
      | some d ↦ ok d
      | none ↦ cancel_decision r s venue market order unique invalid
    ]

  -- `evaluateCancelLookup`
  unfoldable pub evaluate_cancel_lookup :
      IntentRecord → ClientOrderLookup → RegistryState → Outcome RegistryError LookupDecision
  evaluate_cancel_lookup r lookup s = do
    parts ← parse_scope r.intent.scope_key
    screening ← screen_executions J r.intent lookup.executions parts.venue parts.market
    evaluate_cancel_screened r s parts.venue parts.market lookup.order screening

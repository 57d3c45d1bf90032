-- ===== src/Execution/PlaceLookup.antt =====
-- src/execution/coordinator.ts: what a lookup proves about an unresolved place (evaluateLookup).
use multi_venue_grid_engine.Base.{
  Bool, true, false, not, Option, none, some, List, [], ◌∷◌, ◌++◌, map, Text, text, text_eq,
  option_eq, is_lt, any, keep, get_entry, Outcome, ok, ◌>>=◌, if◌then◌else◌, ◌==◌,
}
use multi_venue_grid_engine.Math.DecimalJs.{DecimalJs}
use multi_venue_grid_engine.Math.Decimal.{decimal_cmp}
use multi_venue_grid_engine.Execution.Intents.{RegistryError, lift, parse_scope, OrderIntent}
use multi_venue_grid_engine.Execution.RegistryState.{RegistryState, is_unset}
use multi_venue_grid_engine.Execution.Observations.{
  ExchangeOrderObservation, ExecutionFacts, known, to_recorded, is_eq, order_matches_intent,
  sum_quantities, exceeds_limit,
}
use multi_venue_grid_engine.Execution.Screening.{
  ClientOrderLookup, LookupDecision, link_with, ScreenedExecutions, screened, stopped, undecided,
  contradicted, first_order_id, is_recorded, screen_executions,
}

module _ (J : DecimalJs) where
  unfoldable pub order_agrees :
      OrderIntent → Text → Text → Option ExchangeOrderObservation → Outcome RegistryError Bool
  order_agrees i venue market none = ok true
  order_agrees i venue market (some o) = order_matches_intent J o i venue market

  abbrev pub anchor_of : Option ExchangeOrderObservation → Bool → List ExecutionFacts → Option Text
  anchor_of none matches unique = first_order_id unique
  anchor_of (some o) matches unique =
      if matches then some o.exchange_order_id else first_order_id unique

  abbrev pub off_order_evidence :
      Option ExchangeOrderObservation
      → Bool
      → List ExecutionFacts
      → List ExecutionFacts
      → List ExecutionFacts
  off_order_evidence none matches off unique = unique
  off_order_evidence (some o) matches off unique = if matches then off else unique

  abbrev pub belongs_to_another : RegistryState → Option Text → Bool
  belongs_to_another s none = false
  belongs_to_another s (some x) = not (is_unset (get_entry s.by_exchange_order_id x))

  -- The contradictions of a place lookup, in the order of their checks.
  unfoldable pub place_contradiction :
      OrderIntent
      → RegistryState
      → Option ExchangeOrderObservation
      → Bool
      → List ExecutionFacts
      → Outcome RegistryError (Option LookupDecision)
  place_contradiction i s order matches unique =
      if any (is_recorded s) unique
      then ok (
          some (
            contradicted (text "EXECUTION_ID_COLLISION") (text "EXECUTION_ID_COLLISION")
              (keep (is_recorded s) unique)))
      else if any (λ x. not (x.exchange_order_id == anchor_of order matches unique)) unique
      then ok (
          some (
            contradicted (text "LOOKUP_EXECUTION_MISMATCH") (text "EXECUTION_MISMATCH") (
              off_order_evidence order matches
                (keep (λ x. not (x.exchange_order_id == anchor_of order matches unique)) unique)
                unique)))
      else if belongs_to_another s (first_order_id unique)
      then ok (
          some
            (contradicted (text "EXCHANGE_ORDER_ID_COLLISION") (text "EXECUTION_MISMATCH") unique))
      else do
        over ← exceeds_limit J (text "0") (map to_recorded unique) i.quantity
        ok (
            if over
            then some (contradicted (text "LOOKUP_OVERFILL") (text "EXECUTION_OVERFILL") unique)
            else none)

  abbrev pub evidence_id_of : Option ExchangeOrderObservation → Text → List ExecutionFacts → Text
  evidence_id_of (some o) x unique = text "order:" ++ x
  evidence_id_of none x [] = text "execution:"
  evidence_id_of none x (y ∷ ys) = text "execution:" ++ known y.execution_id

  -- Whether the executions account for the order, or without an order for the whole intent.
  unfoldable pub place_evidence :
      OrderIntent
      → Option ExchangeOrderObservation
      → Text
      → Outcome RegistryError (Option LookupDecision)
  place_evidence i (some o) executed = do
    c ← lift (decimal_cmp J o.executed_quantity executed)
    ok (if is_eq c then none else some (undecided (text "EXECUTION_EVIDENCE_INCOMPLETE")))
  place_evidence i none executed = do
    c ← lift (decimal_cmp J executed i.quantity)
    ok (if is_lt c then some (undecided (text "ORDER_STATE_UNPROVEN")) else none)

  abbrev pub link_decision :
      Option ExchangeOrderObservation → Text → List ExecutionFacts → LookupDecision
  link_decision order x unique = link_with (record {
    exchange_order_id = x;
    authority = record {
      source = text "AUTHORITATIVE_OBSERVATION";
      evidence_id = evidence_id_of order x unique;
    };
    executions = map to_recorded unique;
    reason_codes = text "RECONCILED_BY_CLIENT_ORDER_ID" ∷ [];
  })

  abbrev pub order_id_of : Option ExchangeOrderObservation → List ExecutionFacts → Option Text
  order_id_of none unique = first_order_id unique
  order_id_of (some o) unique = some o.exchange_order_id

  -- The decision on an order ID and a total that are known.
  unfoldable pub place_known :
      OrderIntent
      → RegistryState
      → Option ExchangeOrderObservation
      → List ExecutionFacts
      → Text
      → Text
      → Outcome RegistryError LookupDecision
  place_known i s order unique x executed =
      if not (is_unset (get_entry s.by_exchange_order_id x))
      then ok (undecided (text "EXCHANGE_ORDER_ID_COLLISION"))
      else do
        doubt ← place_evidence i order executed
        ok (elim doubt [ some d ↦ d | none ↦ link_decision order x unique ])

  -- The decision where nothing contradicts.
  unfoldable pub place_decision :
      OrderIntent
      → RegistryState
      → Option ExchangeOrderObservation
      → Bool
      → List ExecutionFacts
      → Bool
      → Outcome RegistryError LookupDecision
  place_decision i s order matches unique invalid =
      if not matches
      then ok (undecided (text "LOOKUP_ORDER_MISMATCH"))
      else if invalid
      then ok (undecided (text "LOOKUP_EXECUTION_MISMATCH"))
      else elim (order_id_of order unique) [
        | none ↦ ok (undecided (text "NO_DEFINITIVE_EVIDENCE"))
        | some x ↦ elim (sum_quantities J (text "0") (map to_recorded unique)) [
          | none ↦ ok (undecided (text "LOOKUP_QUANTITY_UNBOUNDED"))
          | some executed ↦ place_known i s order unique x executed
        ]
      ]

  unfoldable pub evaluate_screened :
      OrderIntent
      → RegistryState
      → Option ExchangeOrderObservation
      → Bool
      → ScreenedExecutions
      → Outcome RegistryError LookupDecision
  evaluate_screened i s order matches (stopped d) = ok d
  evaluate_screened i s order matches (screened unique invalid) = do
    contradiction ← place_contradiction i s order matches unique
    elim contradiction [ some d ↦ ok d | none ↦ place_decision i s order matches unique invalid ]

  -- `evaluateLookup`
  unfoldable pub evaluate_lookup :
      OrderIntent → ClientOrderLookup → RegistryState → Outcome RegistryError LookupDecision
  evaluate_lookup i lookup s = do
    parts ← parse_scope i.scope_key
    matches ← order_agrees i parts.venue parts.market lookup.order
    screening ← screen_executions J i lookup.executions parts.venue parts.market
    evaluate_screened i s lookup.order matches screening

-- ===== src/Execution/Screening.antt =====
-- src/execution/coordinator.ts: the decisions on a lookup, and the screening of its executions
-- (screenExecutions).
pub mod ById
pub mod Unique
use multi_venue_grid_engine.Base.{
  Bool, true, false, not, Option, none, some, List, [], ◌∷◌, map, Text, text, text_eq, option_eq,
  text_leb, sort, get_entry, set_entry, Outcome, ok, ◌>>=◌,
}
use multi_venue_grid_engine.Math.DecimalJs.{DecimalJs}
use multi_venue_grid_engine.Execution.IntentStatus.{IntentStatus}
use multi_venue_grid_engine.Execution.Intents.{
  RegistryError, OrderIntent, RecordedExecution, IntentLink, CancelResolution,
}
use multi_venue_grid_engine.Execution.RegistryState.{RegistryState, is_unset}
use multi_venue_grid_engine.Execution.Observations.{
  ExchangeOrderObservation, ExecutionFacts, known, is_execution_in_market, to_recorded,
  execution_matches_intent, same_facts,
}

-- `ClientOrderLookup`
pub record ClientOrderLookup : Type 0 where
  pub order : Option ExchangeOrderObservation
  pub executions : List ExecutionFacts

pub record LookupContradiction : Type 0 where
  pub reason_code : Text
  pub evidence : List ExecutionFacts

pub data LookupDecision : Type 0 where
  unresolved : Text → Option LookupContradiction → LookupDecision
  link_with : IntentLink → LookupDecision
  resolve_with : CancelResolution → LookupDecision

-- The unique executions and whether one was invalid, or the decision that stopped the screening.
pub data ScreenedExecutions : Type 0 where
  screened : List ExecutionFacts → Bool → ScreenedExecutions
  stopped : LookupDecision → ScreenedExecutions

-- `unresolved(reasonCode)`
abbrev pub undecided : Text → LookupDecision
undecided code = unresolved code none

abbrev pub contradicted : Text → Text → List ExecutionFacts → LookupDecision
contradicted code durable_code evidence =
    unresolved code (some (record { reason_code = durable_code; evidence = evidence }))

abbrev pub resolved_cancel : IntentStatus → List RecordedExecution → Text → LookupDecision
resolved_cancel status executions code =
    resolve_with (record { status = status; executions = executions; reason_codes = code ∷ [] })

abbrev pub by_execution_id : ExecutionFacts → ExecutionFacts → Bool
by_execution_id x y = text_leb (known x.execution_id) (known y.execution_id)

abbrev pub second : Text × ExecutionFacts → ExecutionFacts
second p = p.1

abbrev pub has_entries {ℓ} : {A : Type ℓ} → List A → Bool
has_entries [] = false
has_entries (x ∷ xs) = true

-- The exchange order ID of the first execution.
abbrev pub first_order_id : List ExecutionFacts → Option Text
first_order_id [] = none
first_order_id (x ∷ xs) = x.exchange_order_id

-- The executions that the registry has recorded for some intent.
abbrev pub is_recorded : RegistryState → ExecutionFacts → Bool
is_recorded s x = not (is_unset (get_entry s.by_execution_id (known x.execution_id)))

module _ (J : DecimalJs) where
  -- The loop of `screenExecutions`, over what it has kept so far.
  unfoldable pub screen_from :
      OrderIntent
      → Text
      → Text
      → List (Text × ExecutionFacts)
      → Bool
      → List ExecutionFacts
      → Outcome RegistryError ScreenedExecutions
  screen_from i venue market kept invalid [] =
      ok (screened (sort by_execution_id (map second kept)) invalid)
  screen_from i venue market kept invalid (x ∷ xs) = elim (is_execution_in_market venue market x) [
    | false ↦ screen_from i venue market kept true xs
    | true ↦ execution_matches_intent J x i venue market >>= λ matches. (elim matches [
      | false ↦ ok (
          stopped
            (contradicted (text "LOOKUP_EXECUTION_MISMATCH") (text "EXECUTION_MISMATCH") (x ∷ [])))
      | true ↦ elim (get_entry kept (known x.execution_id)) [
        | none ↦ screen_from i venue market (set_entry kept (known x.execution_id) x) invalid xs
        | some seen ↦ same_facts J (to_recorded seen) (to_recorded x) >>= λ same. (elim same [
          | false ↦ ok (
              stopped (
                contradicted (text "LOOKUP_EXECUTION_MISMATCH") (text "EXECUTION_CONFLICT")
                  (seen ∷ x ∷ [])))
          | true ↦ screen_from i venue market (set_entry kept (known x.execution_id) x) invalid xs
        ])
      ]
    ])
  ]

  unfoldable pub screen_executions :
      OrderIntent → List ExecutionFacts → Text → Text → Outcome RegistryError ScreenedExecutions
  screen_executions i observed venue market = screen_from i venue market [] false observed

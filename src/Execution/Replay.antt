-- ===== src/Execution/Replay.antt =====
-- src/execution/coordinator.ts: recording executions from the venue's feed, page by page, and from the
-- stream. A plan is checked as a whole before anything of it is recorded.
use multi_venue_grid_engine.Base.{
  Bool, true, false, ◌&&◌, ◌||◌, not, Option, none, some, List, [], ◌∷◌, ◌++◌, Text, text, text_eq,
  option_eq, find, get_entry, set_entry, Outcome, ok, ◌>>=◌, if◌then◌else◌, ◌==◌,
}
use multi_venue_grid_engine.Math.DecimalJs.{DecimalJs}
use multi_venue_grid_engine.Execution.IntentStatus.{is_working}
use multi_venue_grid_engine.Execution.Intents.{
  RegistryError, parse_scope, IntentRecord, RecordedExecution,
}
use multi_venue_grid_engine.Execution.RegistryState.{RegistryState, is_unset, require_record}
use multi_venue_grid_engine.Execution.Observations.{
  ExecutionFacts, known, is_non_empty, is_execution_in_market, execution_matches_intent,
  to_recorded, same_facts, sum_quantities, exceeds_limit,
}
use multi_venue_grid_engine.Execution.Ports.{ExecutionCursor}
use multi_venue_grid_engine.Execution.CoordinatorState.{CoordinatorConfig}

-- `ExecutionPlan`: a problem with its evidence, or what to add to each intent.
pub data ExecutionPlan : Type 0 where
  problem : Text → List ExecutionFacts → ExecutionPlan
  additions : List (Text × List RecordedExecution) → ExecutionPlan

-- What one observed execution does to the plan so far.
pub data Planned : Type 0 where
  refuses : Text → List ExecutionFacts → Planned
  skips : Planned
  adds : Text → Planned

abbrev pub entries_of : List (Text × List RecordedExecution) → Text → List RecordedExecution
entries_of m id = elim (get_entry m id) [ none ↦ [] | some xs ↦ xs ]

abbrev pub fact_of : List (Text × ExecutionFacts) → RecordedExecution → List ExecutionFacts
fact_of seen x = elim (get_entry seen x.execution_id) [ none ↦ [] | some facts ↦ facts ∷ [] ]

unfoldable pub facts_of :
    List (Text × ExecutionFacts) → List RecordedExecution → List ExecutionFacts
facts_of seen [] = []
facts_of seen (x ∷ xs) = fact_of seen x ++ facts_of seen xs

-- `unattributedProblem`
unfoldable pub unattributed_problem : RegistryState → ExecutionFacts → Outcome RegistryError Text
unattributed_problem s x = elim x.client_order_id [
  | none ↦ ok (text "UNATTRIBUTED_EXECUTION")
  | some client_id ↦ elim (get_entry s.by_client_order_id client_id) [
    | none ↦ ok (text "UNATTRIBUTED_EXECUTION")
    | some id ↦ require_record s id >>= λ r. ok (
        if is_unset r.exchange_order_id
        then text "EXECUTION_FOR_UNLINKED_INTENT"
        else text "EXECUTION_MISMATCH")
  ]
]

module _ (J : DecimalJs) where
  -- An execution that the registry has already recorded.
  unfoldable pub plan_recorded :
      IntentRecord → Text → Text → ExecutionFacts → Outcome RegistryError Planned
  plan_recorded r id owner x =
      if not (owner == id)
      then ok (refuses (text "EXECUTION_ID_COLLISION") (x ∷ []))
      else elim (find (λ y. y.execution_id == known x.execution_id) r.executions) [
        | none ↦ ok (refuses (text "EXECUTION_CONFLICT") (x ∷ []))
        | some y ↦ same_facts J y (to_recorded x) >>= λ same.
            ok (if same then skips else refuses (text "EXECUTION_CONFLICT") (x ∷ []))
      ]

  -- An execution that is new to the registry.
  unfoldable pub plan_new :
      IntentRecord
      → Text
      → List (Text × ExecutionFacts)
      → ExecutionFacts
      → Outcome RegistryError Planned
  plan_new r id seen x = elim (get_entry seen (known x.execution_id)) [
    | some earlier ↦ same_facts J (to_recorded earlier) (to_recorded x) >>= λ same.
        ok (if same then skips else refuses (text "EXECUTION_CONFLICT") (earlier ∷ x ∷ []))
    | none ↦
        ok
          (if is_working r.status then adds id else refuses (text "EXECUTION_AFTER_CLOSE") (x ∷ []))
  ]

  -- An execution of an order that a record is linked to.
  unfoldable pub plan_linked :
      Text
      → Text
      → RegistryState
      → List (Text × ExecutionFacts)
      → Text
      → ExecutionFacts
      → Outcome RegistryError Planned
  plan_linked venue market s seen id x = do
    r ← require_record s id
    matches ← execution_matches_intent J x r.intent venue market
    (if not matches
        then ok (refuses (text "EXECUTION_MISMATCH") (x ∷ []))
        else elim (get_entry s.by_execution_id (known x.execution_id)) [
          | some owner ↦ plan_recorded r id owner x
          | none ↦ plan_new r id seen x
        ])

  -- One observed execution.
  unfoldable pub plan_one :
      Text
      → Text
      → RegistryState
      → List (Text × ExecutionFacts)
      → ExecutionFacts
      → Outcome RegistryError Planned
  plan_one venue market s seen x =
      if not (is_execution_in_market venue market x)
      then ok (refuses (text "EXECUTION_OBSERVATION_INVALID") [])
      else elim (get_entry s.by_exchange_order_id (known x.exchange_order_id)) [
        | none ↦ unattributed_problem s x >>= λ code. ok (refuses code (x ∷ []))
        | some id ↦ plan_linked venue market s seen id x
      ]

  -- The quantities of what would be added to each intent.
  unfoldable pub check_totals :
      RegistryState
      → List (Text × ExecutionFacts)
      → List (Text × List RecordedExecution)
      → Outcome RegistryError (Option (Text × List ExecutionFacts))
  check_totals s seen [] = ok none
  check_totals s seen (e ∷ es) = require_record s e.0 >>= λ r.
      (exceeds_limit J r.executed_quantity e.1 r.intent.quantity >>= λ over. elim over [
        | true ↦ ok (some (text "EXECUTION_OVERFILL", facts_of seen e.1))
        | false ↦ elim (is_unset (sum_quantities J r.executed_quantity e.1)) [
          | true ↦ ok (some (text "EXECUTION_QUANTITY_UNBOUNDED", []))
          | false ↦ check_totals s seen es
        ]
      ])

  abbrev pub plan_of :
      List (Text × List RecordedExecution) → Option (Text × List ExecutionFacts) → ExecutionPlan
  plan_of added none = additions added
  plan_of added (some p) = problem p.0 p.1

  -- The loop over the observed executions.
  unfoldable pub plan_from :
      Text
      → Text
      → RegistryState
      → List (Text × ExecutionFacts)
      → List (Text × List RecordedExecution)
      → List ExecutionFacts
      → Outcome RegistryError ExecutionPlan
  plan_from venue market s seen added [] = check_totals s seen added >>= λ p. ok (plan_of added p)
  plan_from venue market s seen added (x ∷ xs) = plan_one venue market s seen x >>= λ planned.
      elim planned [
        | refuses code evidence ↦ ok (problem code evidence)
        | skips ↦ plan_from venue market s seen added xs
        | adds id ↦
            plan_from venue market s (set_entry seen (known x.execution_id) x)
              (set_entry added id (entries_of added id ++ (to_recorded x ∷ []))) xs
      ]

  -- `planExecutions`
  unfoldable pub plan_executions :
      CoordinatorConfig → RegistryState → List ExecutionFacts → Outcome RegistryError ExecutionPlan
  plan_executions config s observed = do
    k ← parse_scope config.scope_key
    plan_from k.venue k.market s [] [] observed

-- `isValidCursor`
unfoldable pub is_valid_cursor : ExecutionCursor → Text → Outcome RegistryError Bool
is_valid_cursor cursor scope_key = do
  k ← parse_scope scope_key
  ok (
      cursor.venue == k.venue
      && cursor.market == k.market
      && is_non_empty (some cursor.opaque_position)
      && (is_unset cursor.last_execution_id || is_non_empty cursor.last_execution_id)
      && (is_unset cursor.last_execution_time || is_non_empty cursor.last_execution_time))

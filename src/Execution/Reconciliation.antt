-- ===== src/Execution/Reconciliation.antt =====
-- src/execution/coordinator.ts: resolving places and cancels from venue lookups (reconcileExclusive), and
-- keeping the evidence of a contradiction (recordProblem).
use multi_venue_grid_engine.Base.{
  ℕ, Bool, true, false, ◌||◌, not, Option, none, some, List, [], ◌∷◌, map, Text, text, length,
  nat_eq, Outcome, if◌then◌else◌, ◌==◌,
}
use multi_venue_grid_engine.Execution.IntentStatus.{IntentStatus}
use multi_venue_grid_engine.Execution.Intents.{RegistryError, IntentRecord, ExecutionContradiction}
use multi_venue_grid_engine.Execution.RegistryState.{
  RegistryState, client_id_of, record_contradictions,
}
use multi_venue_grid_engine.Execution.Registry.{link, resolve_cancel}
use multi_venue_grid_engine.Execution.Observations.{ExecutionFacts}
use multi_venue_grid_engine.Execution.Screening.{
  ClientOrderLookup, LookupContradiction, LookupDecision, unresolved, link_with, resolve_with,
}
use multi_venue_grid_engine.Execution.PlaceLookup.{evaluate_lookup}
use multi_venue_grid_engine.Execution.CancelLookup.{evaluate_cancel_lookup}
use multi_venue_grid_engine.Execution.CoordinatorState.{
  Coordinator, add_blocker, unresolved_records,
}
use multi_venue_grid_engine.Execution.Steps.{
  Step, Deps, return, of_outcome, ◌>>=◌, ◌>>◌, gets, modify, await, change, persist,
}
use multi_venue_grid_engine.Execution.Submission.{record_of}

-- `ReconcileItem`
pub record ReconcileItem : Type 0 where
  pub intent_id : Text
  pub status : IntentStatus
  pub reason_codes : List Text

pub record ReconcileResult : Type 0 where
  pub reason_codes : List Text
  pub items : List ReconcileItem

-- `toContradiction` of facts, whose fields are strings or null
unfoldable pub to_contradiction : Text → ExecutionFacts → ExecutionContradiction
to_contradiction code x = record {
  reason_code = code;
  execution_id = x.execution_id;
  exchange_order_id = x.exchange_order_id;
  client_order_id = x.client_order_id;
  side = x.side;
  quantity = x.quantity;
  price = x.price;
}

abbrev pub count_contradictions : Coordinator → ℕ
count_contradictions c = length c.registry.contradictions

abbrev pub unresolved_item : IntentRecord → Text → ReconcileItem
unresolved_item r code = record {
  intent_id = r.intent.intent_id;
  status = r.status;
  reason_codes = code ∷ [];
}

-- The item of a record that a decision moved.
abbrev pub moved_item : IntentRecord → Option IntentRecord → ReconcileItem
moved_item r none = record { intent_id = r.intent.intent_id; status = r.status; reason_codes = [] }
moved_item r (some next) = record {
  intent_id = r.intent.intent_id;
  status = next.status;
  reason_codes = next.reason_codes;
}

-- `recordContradictions` only adds, so its result is whether there are more of them.
module _ {W : Type 0} (D : Deps W) where
  -- `recordProblem`
  unfoldable pub record_problem : Text → List ExecutionFacts → Step W Bool
  record_problem code evidence = do
    modify (λ c. add_blocker c code)
    before ← gets count_contradictions
    change (λ s. record_contradictions s (map (to_contradiction code) evidence))
    after ← gets count_contradictions
    (if after == before then return true else persist D.ports)

  -- What the lookup decides, with the evaluation that the record asks for.
  unfoldable pub decide_lookup :
      IntentRecord → ClientOrderLookup → RegistryState → Outcome RegistryError LookupDecision
  decide_lookup r lookup s = elim r.exchange_order_id [
    | none ↦ evaluate_lookup D.decimal_js r.intent lookup s
    | some order_id ↦ evaluate_cancel_lookup D.decimal_js r lookup s
  ]

  -- The evidence of a contradiction; whether it is durable.
  unfoldable pub keep_evidence : Option LookupContradiction → Step W Bool
  keep_evidence none = return true
  keep_evidence (some found) = record_problem found.reason_code found.evidence

  -- One decision: the item, whether the registry changed, and whether the pass goes on.
  unfoldable pub apply_decision :
      IntentRecord → LookupDecision → Step W (ReconcileItem × Bool × Bool)
  apply_decision r (unresolved code found) = do
    durable ← keep_evidence found
    return (unresolved_item r code, false, durable)
  apply_decision r (link_with l) = do
    change (λ s. link D.decimal_js s r.intent.intent_id l)
    next ← gets (record_of r.intent.intent_id)
    return (moved_item r next, true, true)
  apply_decision r (resolve_with resolution) = do
    change (λ s. resolve_cancel D.decimal_js s r.intent.intent_id resolution)
    next ← gets (record_of r.intent.intent_id)
    return (moved_item r next, true, true)

  unfoldable pub reconcile_lookup :
      IntentRecord → Option ClientOrderLookup → Step W (ReconcileItem × Bool × Bool)
  reconcile_lookup r none = return (unresolved_item r (text "LOOKUP_FAILED"), false, true)
  reconcile_lookup r (some lookup) = do
    s ← gets (λ c. c.registry)
    decision ← of_outcome (decide_lookup r lookup s)
    apply_decision r decision

  -- The turn of one record.
  unfoldable pub reconcile_record : IntentRecord → Step W (ReconcileItem × Bool × Bool)
  reconcile_record r = do
    lookup ← await (D.ports.lookup_client_order (client_id_of r.intent))
    reconcile_lookup r lookup

  -- The loop over the records that were unresolved at its start: the items, whether the registry
  -- changed, and whether it reached the end.
  unfoldable pub reconcile_all :
      Bool → List IntentRecord → Step W (List ReconcileItem × Bool × Bool)
  reconcile_all changed [] = return ([], changed, true)
  reconcile_all changed (r ∷ rs) = reconcile_record r >>= λ turn.
      (if turn.2
        then (reconcile_all (changed || turn.1) rs >>= λ rest.
            return (turn.0 ∷ rest.0, rest.1, rest.2))
        else return (turn.0 ∷ [], changed, false))

  -- The end of the pass.
  unfoldable pub finish_reconcile : List ReconcileItem × Bool × Bool → Step W ReconcileResult
  finish_reconcile pass =
      if not pass.2
      then return (record { reason_codes = text "JOURNAL_WRITE_FAILED" ∷ []; items = pass.0 })
      else if not pass.1
      then return (record { reason_codes = []; items = pass.0 })
      else do
        durable ← persist D.ports
        return (record {
          reason_codes = if durable then [] else text "JOURNAL_WRITE_FAILED" ∷ [];
          items = pass.0;
        })

  -- `reconcileExclusive`
  unfoldable pub reconcile_exclusive : Step W ReconcileResult
  reconcile_exclusive = do
    c ← gets (λ c. c)
    (if c.journal_failed
        then return (record { reason_codes = text "JOURNAL_LATCHED" ∷ []; items = [] })
        else do pass ← reconcile_all false (unresolved_records c.registry); finish_reconcile pass)

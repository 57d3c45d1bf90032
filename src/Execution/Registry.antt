-- ===== src/Execution/Registry.antt =====
-- src/execution/intent-registry.ts: the operations that change the registry. An operation that throws
-- gives no new state, since every check runs before any change.
pub mod Evolves
pub mod Change
pub mod Terminal
use multi_venue_grid_engine.Base.{
  ℕ, ◌≡◌, refl, Bool, true, false, ◌&&◌, ◌||◌, not, Option, none, some, List, [], ◌∷◌, ◌++◌, Text,
  text, text_eq, option_eq, text_is_empty, any, every, find, keep, is_gt, is_lt, Ordering, Outcome,
  ok, err, ◌>>=◌, guard, if◌then◌else◌, ◌==◌, get_entry, set_entry, includes, discrete_beq,
}
use multi_venue_grid_engine.Math.DecimalJs.{DecimalJs}
use multi_venue_grid_engine.Math.Decimal.{decimal_cmp}
use multi_venue_grid_engine.Execution.IntentStatus.{
  IntentStatus, status_eq, allowed_transitions, is_working, prepared, not_sent, rejected, unknown,
  linked, cancel_prepared, cancel_unverified, filled,
}
use multi_venue_grid_engine.Execution.Intents.{
  RegistryError, invalid_transition, not_executable, intent_already_registered,
  intent_not_registered, client_order_id_collision, invalid_exchange_order_id,
  exchange_order_id_collision, execution_id_collision, execution_overfill, order_fully_executed,
  no_new_executions, execution_evidence_missing, status_quantity_mismatch,
  invalid_execution_contradiction, lift, OrderIntent, IntentRecord, RecordedExecution, IntentLink,
  CancelResolution, ExecutionContradiction, one_of, place_intent_problem,
}
use multi_venue_grid_engine.Execution.Executions.{
  normalize_executions, sum_executions, quantity_matches_status,
}
use multi_venue_grid_engine.Execution.RegistryState.{
  RegistryState, is_unset, client_id_of, require_record, assert_allowed, same_execution,
  drop_explained_contradictions, record_contradictions,
}

abbrev pub is_nil {ℓ} : {A : Type ℓ} → List A → Bool
is_nil [] = true
is_nil (x ∷ xs) = false

abbrev pub refuse_on : Option RegistryError → Outcome RegistryError (Unit {0})
refuse_on none = ok tt
refuse_on (some e) = err e

-- `for (const execution of executions) byExecutionId.set(execution.executionId, intentId)`
unfoldable pub claim_executions :
    List (Text × Text) → Text → List RecordedExecution → List (Text × Text)
claim_executions m id [] = m
claim_executions m id (x ∷ xs) = claim_executions (set_entry m x.execution_id id) id xs

-- The record in its new form, with its executions claimed.
unfoldable pub settle : RegistryState → Text → IntentRecord → List RecordedExecution → RegistryState
settle s id r claimed = drop_explained_contradictions (record s {
  records = set_entry s.records id r;
  by_execution_id = claim_executions s.by_execution_id id claimed;
})

abbrev pub are_new : RegistryState → List RecordedExecution → Bool
are_new s xs = every (λ x. is_unset (get_entry s.by_execution_id x.execution_id)) xs

-- No other intent owns one of the keys.
abbrev pub is_free_for : List (Text × Text) → Text → Text → Bool
is_free_for m id key = elim (get_entry m key) [ none ↦ true | some owner ↦ owner == id ]

unfoldable pub transition :
    RegistryState → Text → IntentStatus → List Text → Outcome RegistryError RegistryState
transition s id next codes = do
  r ← require_record s id
  _ ← assert_allowed r.status next
  ok (record s {
    records = set_entry s.records id (record r { status = next; reason_codes = codes });
  })

module _ (J : DecimalJs) where
  -- The sum of the executions, compared with the intent's quantity and not above it.
  unfoldable pub total_within :
      List RecordedExecution → Text → Outcome RegistryError (Text × Ordering)
  total_within executions quantity = do
    total ← sum_executions J executions
    c ← lift (decimal_cmp J total quantity)
    _ ← guard (not (is_gt c)) execution_overfill
    ok (total, c)

  unfoldable pub prepare :
      (Text → Text)
      → (OrderIntent → Text)
      → RegistryState
      → OrderIntent
      → Outcome RegistryError RegistryState
  prepare sha256_hex fingerprint s i = do
    problem ← place_intent_problem J sha256_hex i
    _ ← refuse_on problem
    _ ← guard (is_unset (get_entry s.records i.intent_id)) intent_already_registered
    _ ← guard (is_unset (get_entry s.by_client_order_id (client_id_of i))) client_order_id_collision
    ok (record s {
      records = set_entry s.records i.intent_id (record {
        intent = i;
        status = prepared;
        request_fingerprint = fingerprint i;
        exchange_order_id = none;
        authority = none;
        executions = [];
        executed_quantity = text "0";
        reason_codes = [];
      });
      by_client_order_id = set_entry s.by_client_order_id (client_id_of i) i.intent_id;
    })

  unfoldable pub linked_record :
      RegistryState → Text → IntentRecord → IntentLink → Outcome RegistryError IntentRecord
  linked_record s id r l = do
    _ ← guard (is_unset r.exchange_order_id) (invalid_transition r.status linked)
    _ ← assert_allowed r.status linked
    _ ← guard (not (text_is_empty l.exchange_order_id)) invalid_exchange_order_id
    _ ←
        guard (is_free_for s.by_exchange_order_id id l.exchange_order_id)
          exchange_order_id_collision
    executions ← normalize_executions J l.executions l.exchange_order_id
    _ ← guard (are_new s executions) execution_id_collision
    (total, _) ← total_within executions r.intent.quantity
    ok (record r {
      status = linked;
      exchange_order_id = some l.exchange_order_id;
      authority = some l.authority;
      executions = executions;
      executed_quantity = total;
      reason_codes = l.reason_codes;
    })

  unfoldable pub link : RegistryState → Text → IntentLink → Outcome RegistryError RegistryState
  link s id l = do
    r ← require_record s id
    r' ← linked_record s id r l
    ok (
        settle
          (record s {
            by_exchange_order_id = set_entry s.by_exchange_order_id l.exchange_order_id id;
          })
          id r' r'.executions)

  unfoldable pub mark_cancel_prepared :
      RegistryState → Text → List Text → Outcome RegistryError RegistryState
  mark_cancel_prepared s id codes = do
    r ← require_record s id
    c ← lift (decimal_cmp J r.executed_quantity r.intent.quantity)
    _ ← guard (is_lt c) order_fully_executed
    transition s id cancel_prepared codes

  -- `FILLED` on the full quantity
  unfoldable pub filled_if : IntentRecord → Ordering → Outcome RegistryError IntentRecord
  filled_if r Ordering.eq = do
    _ ← assert_allowed r.status filled
    ok (record r { status = filled; reason_codes = text "FILLED_BY_EXECUTION_EVIDENCE" ∷ [] })
  filled_if r _ = ok r

  unfoldable pub executed_record :
      IntentRecord → Text → List RecordedExecution → Outcome RegistryError IntentRecord
  executed_record r exchange_order_id added = do
    merged ← normalize_executions J (r.executions ++ added) exchange_order_id
    (total, c) ← total_within merged r.intent.quantity
    r' ← filled_if r c
    ok (record r' { executions = merged; executed_quantity = total })

  -- The order that the record is bound to, if it may still execute.
  unfoldable pub working_order : IntentRecord → Outcome RegistryError Text
  working_order r = elim r.exchange_order_id [
    | none ↦ err (not_executable r.status)
    | some x ↦ if is_working r.status then ok x else err (not_executable r.status)
  ]

  unfoldable pub apply_executions :
      RegistryState → Text → List RecordedExecution → Outcome RegistryError RegistryState
  apply_executions s id executions = do
    r ← require_record s id
    x ← working_order r
    added ← normalize_executions J executions x
    _ ← guard (not (is_nil added)) no_new_executions
    _ ← guard (are_new s added) execution_id_collision
    r' ← executed_record r x added
    ok (settle s id r' added)

  -- Every recorded execution is observed again, unchanged.
  abbrev pub are_observed : List RecordedExecution → List RecordedExecution → Bool
  are_observed recorded observed =
      every
        (λ x. elim (find (λ y. y.execution_id == x.execution_id) observed) [
          | none ↦ false
          | some y ↦ same_execution y x
        ])
        recorded

  unfoldable pub pending_order : IntentRecord → IntentStatus → Outcome RegistryError Text
  pending_order r next = elim r.exchange_order_id [
    | none ↦ err (invalid_transition r.status next)
    | some x ↦ if r.status == linked then err (invalid_transition r.status next) else ok x
  ]

  unfoldable pub resolved_record :
      RegistryState → Text → IntentRecord → CancelResolution → Outcome RegistryError IntentRecord
  resolved_record s id r resolution = do
    x ← pending_order r resolution.status
    _ ← assert_allowed r.status resolution.status
    executions ← normalize_executions J resolution.executions x
    _ ← guard (are_observed r.executions executions) execution_evidence_missing
    _ ←
        guard (every (λ y. is_free_for s.by_execution_id id y.execution_id) executions)
          execution_id_collision
    (total, _) ← total_within executions r.intent.quantity
    matches ← quantity_matches_status J resolution.status total r.intent.quantity
    _ ← guard matches status_quantity_mismatch
    ok (record r {
      status = resolution.status;
      executions = executions;
      executed_quantity = total;
      reason_codes = resolution.reason_codes;
    })

  unfoldable pub resolve_cancel :
      RegistryState → Text → CancelResolution → Outcome RegistryError RegistryState
  resolve_cancel s id resolution = do
    r ← require_record s id
    r' ← resolved_record s id r resolution
    ok (settle s id r' r'.executions)

-- The calls that change the registry.
pub data RegistryCall : Type 0 where
  prepare_call : OrderIntent → RegistryCall
  mark_not_sent mark_rejected mark_unknown : Text → List Text → RegistryCall
  link_call : Text → IntentLink → RegistryCall
  cancel_prepared_call mark_cancel_unverified : Text → List Text → RegistryCall
  apply_call : Text → List RecordedExecution → RegistryCall
  resolve_call : Text → CancelResolution → RegistryCall
  contradictions_call : List ExecutionContradiction → RegistryCall

unfoldable pub perform :
    DecimalJs
    → (Text → Text)
    → (OrderIntent → Text)
    → RegistryState
    → RegistryCall
    → Outcome RegistryError RegistryState
perform J sha fingerprint s (prepare_call i) = prepare J sha fingerprint s i
perform J sha fingerprint s (mark_not_sent id codes) = transition s id not_sent codes
perform J sha fingerprint s (mark_rejected id codes) = transition s id rejected codes
perform J sha fingerprint s (mark_unknown id codes) = transition s id unknown codes
perform J sha fingerprint s (link_call id l) = link J s id l
perform J sha fingerprint s (cancel_prepared_call id codes) = mark_cancel_prepared J s id codes
perform J sha fingerprint s (mark_cancel_unverified id codes) =
    transition s id cancel_unverified codes
perform J sha fingerprint s (apply_call id xs) = apply_executions J s id xs
perform J sha fingerprint s (resolve_call id r) = resolve_cancel J s id r
perform J sha fingerprint s (contradictions_call es) = record_contradictions s es

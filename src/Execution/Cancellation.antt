-- ===== src/Execution/Cancellation.antt =====
-- src/execution/coordinator.ts: cancelling a linked order. The cancel is written ahead and sent through
-- the fence; only a proven non-send restores the record that was there before.
use multi_venue_grid_engine.Base.{
  Bool, true, false, ◌&&◌, not, Option, none, some, List, [], ◌∷◌, Text, text, text_eq, option_eq,
  is_lt, Outcome, ok, err, if◌then◌else◌, ◌==◌,
}
use multi_venue_grid_engine.Math.DecimalJs.{DecimalJs}
use multi_venue_grid_engine.Math.Decimal.{decimal_cmp}
use multi_venue_grid_engine.Execution.IntentStatus.{
  IntentStatus, linked, cancel_prepared, cancel_unverified, cancelled, filled,
}
use multi_venue_grid_engine.Execution.Intents.{RegistryError, lift, IntentRecord}
use multi_venue_grid_engine.Execution.Registry.{mark_cancel_prepared, resolve_cancel}
use multi_venue_grid_engine.Execution.Ports.{
  CancelRequest, CancelAck, VenueWriteResult, acknowledged, venue_rejected, venue_unknown,
  venue_not_sent, unrecognized, FenceResult, fence_not_sent, fence_sent, fence_unknown,
}
use multi_venue_grid_engine.Execution.CoordinatorState.{CoordinatorConfig}
use multi_venue_grid_engine.Execution.Steps.{
  Step, Deps, cancel_sent, return, of_outcome, ◌>>=◌, ◌>>◌, gets, modify, emit, await, change,
  persist,
}
use multi_venue_grid_engine.Execution.Admission.{in_scope, budget_allows}
use multi_venue_grid_engine.Execution.Submission.{
  SubmitResult, refused, recorded, count_write, record_of, mark, leave_fence_with, with_write,
}

-- `cancelAckMatches`
unfoldable pub cancel_ack_matches : IntentRecord → CancelAck → Bool
cancel_ack_matches r ack = some ack.exchange_order_id == r.exchange_order_id && ack.is_cancelled

-- The problem of a cancel by the record's status, when the record is in scope.
unfoldable pub status_cancel_problem :
    DecimalJs → IntentRecord → IntentStatus → Outcome RegistryError (Option Text)
status_cancel_problem J r linked =
    elim (lift (decimal_cmp J r.executed_quantity r.intent.quantity)) [
      | err e ↦ err e
      | ok c ↦ ok (if is_lt c then none else some (text "ORDER_FULLY_EXECUTED"))
    ]
status_cancel_problem J r cancel_prepared = ok (some (text "CANCEL_UNRESOLVED"))
status_cancel_problem J r cancel_unverified = ok (some (text "CANCEL_UNRESOLVED"))
status_cancel_problem J r cancelled = ok (some (text "ORDER_ALREADY_CLOSED"))
status_cancel_problem J r filled = ok (some (text "ORDER_ALREADY_CLOSED"))
status_cancel_problem J r _ = ok (some (text "CANCEL_REQUIRES_LINKED_ORDER"))

-- `cancelProblem`
unfoldable pub cancel_problem :
    DecimalJs → CoordinatorConfig → IntentRecord → Outcome RegistryError (Option Text)
cancel_problem J config r =
    if not (in_scope config r.intent)
    then ok (some (text "INTENT_SCOPE_MISMATCH"))
    else status_cancel_problem J r r.status

abbrev pub cancel_request : IntentRecord → Text → CancelRequest
cancel_request r order_id = record {
  scope_key = r.intent.scope_key;
  exchange_order_id = order_id;
  client_order_id = r.intent.client_order_id;
}

module _ {W : Type 0} (D : Deps W) where
  -- `revertCancel`, with the codes that it records.
  unfoldable pub revert_cancel : IntentRecord → List Text → Step W (List Text)
  revert_cancel r codes = do
    change (λ s.
        resolve_cancel D.decimal_js s r.intent.intent_id
          (record { status = linked; executions = r.executions; reason_codes = codes }))
    return codes

  -- `registry.markCancelUnverified(...)`
  abbrev pub leave_unverified : IntentRecord → List Text → Step W (List Text)
  leave_unverified r codes = mark D r.intent.intent_id cancel_unverified codes

  unfoldable pub apply_cancel_result :
      IntentRecord → VenueWriteResult CancelAck → Step W (List Text)
  apply_cancel_result r (acknowledged ack) =
      leave_unverified r (
        (if cancel_ack_matches r ack then text "CANCEL_ACK" else text "ACK_IDENTITY_MISMATCH") ∷ [])
  apply_cancel_result r (venue_rejected code) = leave_unverified r (text "CANCEL_REJECTED" ∷ [])
  apply_cancel_result r venue_unknown = leave_unverified r (text "VENUE_OUTCOME_UNKNOWN" ∷ [])
  apply_cancel_result r venue_not_sent = revert_cancel r (text "VENUE_NOT_SENT" ∷ [])
  apply_cancel_result r unrecognized = leave_unverified r (text "UNRECOGNIZED_VENUE_RESULT" ∷ [])

  -- `applyCancelOutcome`
  unfoldable pub apply_cancel_outcome :
      IntentRecord → FenceResult (VenueWriteResult CancelAck) → Step W (List Text)
  apply_cancel_outcome r (fence_not_sent codes) = revert_cancel r (text "FENCE_NOT_SENT" ∷ codes)
  apply_cancel_outcome r (fence_unknown codes) =
      leave_unverified r (text "TRANSPORT_OUTCOME_UNKNOWN" ∷ codes)
  apply_cancel_outcome r (fence_sent none) =
      leave_unverified r (text "TRANSPORT_OUTCOME_UNKNOWN" ∷ [])
  apply_cancel_outcome r (fence_sent (some result)) = apply_cancel_result r result

  -- The fence's run around the venue's call.
  unfoldable pub run_cancel :
      CancelRequest → Option (List Text) → Step W (FenceResult (VenueWriteResult CancelAck))
  run_cancel request (some codes) = return (fence_not_sent codes)
  run_cancel request none = do
    emit (λ c. cancel_sent request c)
    answer ← await (D.ports.cancel_order request)
    leave_fence_with D answer

  unfoldable pub cancel_durable : Text → IntentRecord → Text → Step W SubmitResult
  cancel_durable id r order_id = do
    entering ← await D.ports.enter_fence
    fenced ← run_cancel (cancel_request r order_id) entering
    codes ← apply_cancel_outcome r fenced
    durable ← persist D.ports
    after ← gets (record_of id)
    return (recorded after (with_write D durable codes))

  unfoldable pub cancel_if_durable : Text → IntentRecord → Text → Bool → Step W SubmitResult
  cancel_if_durable id r order_id false = do
    codes ← revert_cancel r (text "JOURNAL_WRITE_FAILED" ∷ [])
    after ← gets (record_of r.intent.intent_id)
    return (recorded after codes)
  cancel_if_durable id r order_id true = do modify count_write; cancel_durable id r order_id

  -- The cancel of an order that passed the checks.
  unfoldable pub send_cancel : Text → IntentRecord → Text → Step W SubmitResult
  send_cancel id r order_id = do
    change (λ s. mark_cancel_prepared D.decimal_js s id [])
    durable ← persist D.ports
    cancel_if_durable id r order_id durable

  -- The order that the record is linked to.
  unfoldable pub cancel_order : Text → IntentRecord → Option Text → Step W SubmitResult
  cancel_order id r none = return (refused (text "CANCEL_REQUIRES_LINKED_ORDER" ∷ []))
  cancel_order id r (some order_id) = do
    allowed ← gets (λ c. budget_allows D.config c 1)
    (if allowed
        then send_cancel id r order_id
        else return (refused (text "WRITE_BUDGET_EXHAUSTED" ∷ [])))

  unfoldable pub cancel_checked : Text → IntentRecord → Option Text → Step W SubmitResult
  cancel_checked id r (some problem) = return (refused (problem ∷ []))
  cancel_checked id r none = cancel_order id r r.exchange_order_id

  unfoldable pub cancel_found : Text → Option IntentRecord → Step W SubmitResult
  cancel_found id none = return (refused (text "INTENT_NOT_REGISTERED" ∷ []))
  cancel_found id (some r) = do
    problem ← of_outcome (cancel_problem D.decimal_js D.config r)
    cancel_checked id r problem

  -- `cancelExclusive`
  unfoldable pub cancel_exclusive : Text → Step W SubmitResult
  cancel_exclusive id = do
    latched ← gets (λ c. c.journal_failed)
    (if latched
        then return (refused (text "JOURNAL_LATCHED" ∷ []))
        else do held ← gets (record_of id); cancel_found id held)

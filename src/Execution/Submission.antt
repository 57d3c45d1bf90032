-- ===== src/Execution/Submission.antt =====
-- src/execution/coordinator.ts: sending places. An intent is written ahead, sent through the fence with a
-- last check of the authority to increase risk, and its outcome is recorded.
pub mod Budget
use multi_venue_grid_engine.Base.{
  ◌+◌, Bool, true, false, ◌&&◌, ◌||◌, not, Option, none, some, List, [], ◌∷◌, ◌++◌, Text, text,
  text_eq, text_is_empty, option_eq, length, includes, get_entry, Outcome, ok, err, if◌then◌else◌,
  ◌==◌,
}
use multi_venue_grid_engine.Execution.IntentStatus.{
  IntentStatus, status_eq, not_sent, rejected, unknown,
}
use multi_venue_grid_engine.Execution.Intents.{
  RegistryError, OrderIntent, IntentRecord, IntentLink, place_intent_problem,
}
use multi_venue_grid_engine.Execution.RegistryState.{is_unset, client_id_of}
use multi_venue_grid_engine.Execution.Registry.{transition, prepare, link}
use multi_venue_grid_engine.Execution.Ports.{
  OrderAck, VenueWriteResult, acknowledged, venue_rejected, venue_unknown, venue_not_sent,
  unrecognized, FenceResult, fence_not_sent, fence_sent, fence_unknown,
}
use multi_venue_grid_engine.Execution.CoordinatorState.{Coordinator, slot_key, is_empty}
use multi_venue_grid_engine.Execution.Steps.{
  Step, Deps, placed, return, of_outcome, ◌>>=◌, ◌>>◌, gets, modify, emit, await, change, persist,
}
use multi_venue_grid_engine.Execution.Admission.{
  ExposureDenial, exposure_problem, admission_problem, budget_allows, revoked_risk_increase,
}

-- What the fenced callback gave: a place that it withheld, or the venue's answer.
pub data PlaceValue : Type 0 where
  withheld : List Text → PlaceValue
  answered : VenueWriteResult OrderAck → PlaceValue

-- `SubmitResult`, by its disposition and reason.
pub data SubmitResult : Type 0 where
  refused : List Text → SubmitResult
  refused_intent : RegistryError → SubmitResult
  refused_exposure : ExposureDenial → SubmitResult
  already_recorded : IntentRecord → SubmitResult
  recorded : Option IntentRecord → List Text → SubmitResult

pub record BatchItem : Type 0 where
  pub intent_id : Text
  pub status : Option IntentStatus
  pub reason_codes : List Text

-- `BatchResult`, by its disposition and reason.
pub data BatchResult : Type 0 where
  batch_refused : List Text → BatchResult
  batch_refused_intent : RegistryError → BatchResult
  batch_refused_exposure : ExposureDenial → BatchResult
  batch_submitted : List Text → List BatchItem → BatchResult

abbrev pub count_write : Coordinator → Coordinator
count_write c = record c { writes_this_cycle = c.writes_this_cycle + 1 }

abbrev pub record_of : Text → Coordinator → Option IntentRecord
record_of id c = get_entry c.registry.records id

abbrev pub status_of : Option IntentRecord → Option IntentStatus
status_of none = none
status_of (some r) = some r.status

-- A problem of a batch: a code, or the problem of one intent.
pub data BatchProblem : Type 0 where
  batch_code : Text → BatchProblem
  batch_intent : RegistryError → BatchProblem

abbrev pub batch_problem : BatchProblem → BatchResult
batch_problem (batch_code code) = batch_refused (code ∷ [])
batch_problem (batch_intent e) = batch_refused_intent e

abbrev pub duplicate_client_order_id_code : Text
duplicate_client_order_id_code = text "DUPLICATE_CLIENT_ORDER_ID"

module _ {W : Type 0} (D : Deps W) where
  -- `registry.markNotSent(...)` and the like, with the codes that it records.
  unfoldable pub mark : Text → IntentStatus → List Text → Step W (List Text)
  mark id next codes = do change (λ s. transition s id next codes); return codes

  abbrev pub is_own_ack : OrderIntent → OrderAck → Bool
  is_own_ack i ack =
      ack.intent_id == i.intent_id
      && ack.client_order_id == i.client_order_id
      && not (text_is_empty ack.exchange_order_id)

  abbrev pub ack_link : OrderAck → IntentLink
  ack_link ack = record {
    exchange_order_id = ack.exchange_order_id;
    authority = record { source = text "ACK"; evidence_id = text "ack:" ++ ack.exchange_order_id };
    executions = [];
    reason_codes = text "VENUE_ACK" ∷ [];
  }

  unfoldable pub link_ack : OrderIntent → OrderAck → Step W (List Text)
  link_ack i ack = do
    c ← gets (λ c. c)
    (if not (is_own_ack i ack)
        then mark i.intent_id unknown (text "ACK_IDENTITY_MISMATCH" ∷ [])
        else if not (is_unset (get_entry c.registry.by_exchange_order_id ack.exchange_order_id))
        then mark i.intent_id unknown (text "EXCHANGE_ORDER_ID_COLLISION" ∷ [])
        else do
          change (λ s. link D.decimal_js s i.intent_id (ack_link ack))
          return (text "VENUE_ACK" ∷ []))

  abbrev pub is_duplicate_rejection : Option Text → Bool
  is_duplicate_rejection none = false
  is_duplicate_rejection (some code) = code == duplicate_client_order_id_code

  unfoldable pub apply_place_result : OrderIntent → VenueWriteResult OrderAck → Step W (List Text)
  apply_place_result i (acknowledged ack) = link_ack i ack
  apply_place_result i (venue_rejected code) =
      if is_duplicate_rejection code
      then mark i.intent_id unknown (text "DUPLICATE_CLIENT_ORDER_ID_REJECTION" ∷ [])
      else mark i.intent_id rejected (text "VENUE_REJECTED" ∷ [])
  apply_place_result i venue_unknown = mark i.intent_id unknown (text "VENUE_OUTCOME_UNKNOWN" ∷ [])
  apply_place_result i venue_not_sent = mark i.intent_id not_sent (text "VENUE_NOT_SENT" ∷ [])
  apply_place_result i unrecognized =
      mark i.intent_id unknown (text "UNRECOGNIZED_VENUE_RESULT" ∷ [])

  unfoldable pub apply_place_outcome : OrderIntent → FenceResult PlaceValue → Step W (List Text)
  apply_place_outcome i (fence_not_sent codes) =
      mark i.intent_id not_sent (text "FENCE_NOT_SENT" ∷ codes)
  apply_place_outcome i (fence_unknown codes) =
      mark i.intent_id unknown (text "TRANSPORT_OUTCOME_UNKNOWN" ∷ codes)
  apply_place_outcome i (fence_sent none) =
      mark i.intent_id unknown (text "TRANSPORT_OUTCOME_UNKNOWN" ∷ [])
  apply_place_outcome i (fence_sent (some (withheld codes))) = mark i.intent_id not_sent codes
  apply_place_outcome i (fence_sent (some (answered result))) = apply_place_result i result

  -- The end of the fence's run, with the callback's value.
  unfoldable pub leave_fence_with : {A : Type 0} → Option A → Step W (FenceResult A)
  leave_fence_with value = do
    leaving ← await D.ports.leave_fence
    return (elim leaving [ none ↦ fence_sent value | some codes ↦ fence_unknown codes ])

  abbrev pub answer_of : Option (VenueWriteResult OrderAck) → Option PlaceValue
  answer_of none = none
  answer_of (some result) = some (answered result)

  -- The fenced callback: the last check, and the call of the venue.
  unfoldable pub place_callback : OrderIntent → Option (List Text) → Step W (Option PlaceValue)
  place_callback i (some revoked) = return (some (withheld revoked))
  place_callback i none = do
    emit (λ c. placed i c)
    answer ← await (D.ports.place_order i)
    return (answer_of answer)

  unfoldable pub run_place : OrderIntent → Option (List Text) → Step W (FenceResult PlaceValue)
  run_place i (some codes) = return (fence_not_sent codes)
  run_place i none = do
    revoked ← gets (λ c. revoked_risk_increase c i)
    value ← place_callback i revoked
    leave_fence_with value

  abbrev pub with_write : Bool → List Text → List Text
  with_write durable codes = if durable then codes else codes ++ (text "JOURNAL_WRITE_FAILED" ∷ [])

  -- The send, once the intent is durable.
  unfoldable pub send_durable : OrderIntent → Step W (List Text)
  send_durable i = do
    entering ← await D.ports.enter_fence
    fenced ← run_place i entering
    codes ← apply_place_outcome i fenced
    durable ← persist D.ports
    return (with_write durable codes)

  unfoldable pub send_if_durable : OrderIntent → Bool → Step W (List Text)
  send_if_durable i false = mark i.intent_id not_sent (text "JOURNAL_WRITE_FAILED" ∷ [])
  send_if_durable i true = do modify count_write; send_durable i

  -- `sendPlace`
  unfoldable pub send_place : OrderIntent → Step W (List Text)
  send_place i = do
    change (λ s. prepare D.decimal_js D.sha256_hex D.intent_fingerprint s i)
    durable ← persist D.ports
    send_if_durable i durable

  -- The exposure gate over the intent, and its send.
  unfoldable pub send_new : OrderIntent → Step W SubmitResult
  send_new i = do
    denied ← exposure_problem D (i ∷ [])
    elim denied [
      | some d ↦ return (refused_exposure d)
      | none ↦ (do
        codes ← send_place i
        r ← gets (record_of i.intent_id)
        return (recorded r codes))
    ]

  -- The submission of an intent that is new and well formed.
  unfoldable pub submit_new : OrderIntent → Step W SubmitResult
  submit_new i = do
    c ← gets (λ c. c)
    elim (admission_problem D.config c i) [
      | some code ↦ return (refused (code ∷ []))
      | none ↦
          if not (budget_allows D.config c 1)
          then return (refused (text "WRITE_BUDGET_EXHAUSTED" ∷ []))
          else send_new i
    ]

  unfoldable pub submit_checked : OrderIntent → Option RegistryError → Step W SubmitResult
  submit_checked i (some problem) = return (refused_intent problem)
  submit_checked i none = do
    existing ← gets (record_of i.intent_id)
    elim existing [
      | none ↦ submit_new i
      | some r ↦ return (
          if r.request_fingerprint == D.intent_fingerprint i
          then already_recorded r
          else refused (text "INTENT_CONTENT_CONFLICT" ∷ []))
    ]

  -- `submitExclusive`
  unfoldable pub submit_exclusive : OrderIntent → Step W SubmitResult
  submit_exclusive i = do
    latched ← gets (λ c. c.journal_failed)
    (if latched then return (refused (text "JOURNAL_LATCHED" ∷ [])) else do
      problem ← of_outcome (place_intent_problem D.decimal_js D.sha256_hex i)
      submit_checked i problem)

  -- The problem of one intent of a batch against the records.
  unfoldable pub element_problem : Coordinator → OrderIntent → Option Text
  element_problem c i =
      if not (is_unset (record_of i.intent_id c))
      then some (text "INTENT_ALREADY_RECORDED")
      else admission_problem D.config c i

  -- The checks of the whole batch, over the identities and slots so far.
  unfoldable pub check_batch :
      Coordinator
      → List Text
      → List Text
      → List OrderIntent
      → Outcome RegistryError (Option BatchProblem)
  check_batch c identities slots [] = ok none
  check_batch c identities slots (i ∷ is) =
      elim (place_intent_problem D.decimal_js D.sha256_hex i) [
        | err e ↦ err e
        | ok (some problem) ↦ ok (some (batch_intent problem))
        | ok none ↦ elim (element_problem c i) [
          | some code ↦ ok (some (batch_code code))
          | none ↦ elim (includes identities i.intent_id || includes identities (client_id_of i)) [
            | true ↦ ok (some (batch_code (text "BATCH_IDENTITY_CONFLICT")))
            | false ↦ elim (includes slots (slot_key i)) [
              | true ↦ ok (some (batch_code (text "BATCH_SLOT_CONFLICT")))
              | false ↦
                  check_batch c (i.intent_id ∷ client_id_of i ∷ identities) (slot_key i ∷ slots) is
            ]
          ]
        ]
      ]

  -- `stoppedBy ??= ...`
  abbrev pub stop_reason : Coordinator → OrderIntent → Option Text → Option Text
  stop_reason c i (some code) = some code
  stop_reason c i none =
      if c.journal_failed then some (text "JOURNAL_LATCHED") else admission_problem D.config c i

  abbrev pub after_send : Option IntentStatus → Option Text
  after_send (some not_sent) = some (text "PRIOR_MUTATION_NOT_SENT")
  after_send _ = none

  abbrev pub stopped_item : OrderIntent → Text → BatchItem
  stopped_item i code = record {
    intent_id = i.intent_id;
    status = some not_sent;
    reason_codes = text "BATCH_STOPPED_BEFORE_SEND" ∷ code ∷ [];
  }

  -- The loop that sends; the last component is `stoppedBy` at its end.
  unfoldable pub send_all : Option Text → List OrderIntent → Step W (List BatchItem × Option Text)
  send_all stopped [] = return ([], stopped)
  send_all stopped (i ∷ is) = gets (λ c. stop_reason c i stopped) >>= λ reason. (elim reason [
    | some code ↦ send_all (some code) is >>= λ rest. return (stopped_item i code ∷ rest.0, rest.1)
    | none ↦ send_place i >>= λ codes. gets (λ c. status_of (record_of i.intent_id c)) >>= λ status.
        send_all (after_send status) is >>= λ rest.
        return (
          record { intent_id = i.intent_id; status = status; reason_codes = codes } ∷ rest.0,
          rest.1,
        )
  ])

  -- The exposure gate over the batch, and the sends.
  unfoldable pub send_batch : List OrderIntent → Step W BatchResult
  send_batch intents = do
    denied ← exposure_problem D intents
    elim denied [
      | some d ↦ return (batch_refused_exposure d)
      | none ↦ (do
        sent ← send_all none intents
        return
            (batch_submitted (if is_unset sent.1 then [] else text "BATCH_INCOMPLETE" ∷ []) sent.0))
    ]

  unfoldable pub submit_batch_checked : List OrderIntent → Option BatchProblem → Step W BatchResult
  submit_batch_checked intents (some problem) = return (batch_problem problem)
  submit_batch_checked intents none = do
    allowed ← gets (λ c. budget_allows D.config c (length intents))
    (if not allowed
        then return (batch_refused (text "WRITE_BUDGET_EXHAUSTED" ∷ []))
        else send_batch intents)

  -- `submitBatchExclusive`
  unfoldable pub submit_batch_exclusive : List OrderIntent → Step W BatchResult
  submit_batch_exclusive intents = do
    c ← gets (λ c. c)
    (if c.journal_failed
        then return (batch_refused (text "JOURNAL_LATCHED" ∷ []))
        else if is_empty intents
        then return (batch_refused (text "EMPTY_BATCH" ∷ []))
        else do
          problem ← of_outcome (check_batch c [] [] intents)
          submit_batch_checked intents problem)

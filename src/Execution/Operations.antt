-- ===== src/Execution/Operations.antt =====
-- src/execution/coordinator.ts: the operations that a caller starts. One runs at a time; each ends with
-- the release of the coordinator, which first records the stream executions that arrived meanwhile. The
-- number `rounds` bounds the turns of that loop.
use multi_venue_grid_engine.Base.{
  ℕ, Bool, true, false, ◌||◌, Option, none, some, List, [], ◌∷◌, ◌++◌, Text, text, Outcome, ok, err,
  if◌then◌else◌,
}
use multi_venue_grid_engine.Execution.Intents.{RegistryError, OrderIntent}
use multi_venue_grid_engine.Execution.Observations.{ExecutionFacts}
use multi_venue_grid_engine.Execution.CoordinatorState.{
  Coordinator, risk_increase_blockers, note_stream_event, defer_stream_execution,
}
use multi_venue_grid_engine.Execution.Steps.{Step, Deps, return, ◌>>=◌, ◌>>◌, gets, modify, await}
use multi_venue_grid_engine.Execution.Admission.{exposure_reservation}
use multi_venue_grid_engine.Execution.Submission.{
  SubmitResult, refused, BatchResult, batch_refused, submit_exclusive, submit_batch_exclusive,
}
use multi_venue_grid_engine.Execution.Cancellation.{cancel_exclusive}
use multi_venue_grid_engine.Execution.Reconciliation.{ReconcileResult, reconcile_exclusive}
use multi_venue_grid_engine.Execution.Feed.{
  ReplayResult, replay_exclusive, ingest_exclusive, release, revoke,
}
use multi_venue_grid_engine.Execution.OpenOrders.{OpenOrderScan}
use multi_venue_grid_engine.Execution.OrderScan.{
  DuplicateCleanupResult, failed_scan_result, scan_exclusive, cleanup_exclusive,
}
use multi_venue_grid_engine.Execution.Continuation.{
  ContinuationDecision, decide_continuation, unevaluated_continuation,
}

abbrev pub occupy : Coordinator → Coordinator
occupy c = record c { busy = true }

abbrev pub occupy_revoked : Coordinator → Coordinator
occupy_revoked c = record c { busy = true; continuation_granted = false }

abbrev pub coordinator_busy : List Text
coordinator_busy = text "COORDINATOR_BUSY" ∷ []

-- The result of a `try` whose `finally` ended so.
abbrev pub after_finally {ℓ} :
    {A : Type ℓ}
    → Outcome RegistryError A
    → Outcome RegistryError (Unit {0})
    → Outcome RegistryError A
after_finally result (ok u) = result
after_finally result (err e) = err e

-- `startCycle`: the new state and the answer.
unfoldable pub start_cycle : Coordinator → Coordinator × Bool
start_cycle c =
    if c.busy
    then (c, false)
    else (record c { continuation_granted = false; writes_this_cycle = 0 }, true)

abbrev pub grant_by : ContinuationDecision → Coordinator → Coordinator
grant_by d c = record c { continuation_granted = d.allow_risk_increase }

-- The codes of a stream execution that is only kept for later.
abbrev pub deferred_codes : Coordinator → Option Text → List Text
deferred_codes c problem =
    (elim problem [ none ↦ [] | some code ↦ code ∷ [] ])
    ++ (text "EXECUTION_STREAM_EVENT_DROPPED"
        ∷ (if c.busy then text "COORDINATOR_BUSY" else text "JOURNAL_LATCHED")
        ∷ [])

abbrev pub problem_codes : Option Text → List Text
problem_codes none = []
problem_codes (some code) = code ∷ []

module _ {W : Type 0} (D : Deps W) (rounds : ℕ) where
  -- A `try` around `body`, whose `finally` makes a change and releases.
  unfoldable pub releasing {ℓ} : {A : Type ℓ} → (Coordinator → Coordinator) → Step W A → Step W A
  releasing finally body m =
      let ran = body m in
      let freed = release D rounds (record ran.1 { coordinator = finally ran.1.coordinator }) in
      (after_finally ran.0 freed.0, freed.1)

  -- An operation that is refused while another runs.
  unfoldable pub exclusively {ℓ} :
      {A : Type ℓ}
      → A
      → (Coordinator → Coordinator)
      → (Coordinator → Coordinator)
      → Step W A
      → Step W A
  exclusively answer enter finally body = do
    busy ← gets (λ c. c.busy)
    (if busy then return answer else (modify enter >> releasing finally body))

  unfoldable pub submit : OrderIntent → Step W SubmitResult
  submit i = exclusively (refused coordinator_busy) occupy revoke (submit_exclusive D i)

  unfoldable pub submit_batch : List OrderIntent → Step W BatchResult
  submit_batch intents =
      exclusively (batch_refused coordinator_busy) occupy revoke (submit_batch_exclusive D intents)

  unfoldable pub cancel : Text → Step W SubmitResult
  cancel id = exclusively (refused coordinator_busy) occupy_revoked (λ c. c) (cancel_exclusive D id)

  unfoldable pub reconcile_unresolved : Step W ReconcileResult
  reconcile_unresolved =
      exclusively (record { reason_codes = coordinator_busy; items = [] }) occupy_revoked (λ c. c)
        (reconcile_exclusive D)

  abbrev pub busy_scan : OpenOrderScan
  busy_scan = failed_scan_result (text "COORDINATOR_BUSY")

  unfoldable pub scan_open_orders : Text → Step W OpenOrderScan
  scan_open_orders anchor_epoch =
      exclusively busy_scan occupy_revoked (λ c. c) (scan_exclusive D anchor_epoch)

  unfoldable pub cleanup_owned_duplicates : Text → Step W DuplicateCleanupResult
  cleanup_owned_duplicates anchor_epoch =
      exclusively (record { scan = busy_scan; cancels = []; reason_codes = coordinator_busy })
        occupy_revoked (λ c. c) (cleanup_exclusive D anchor_epoch)

  unfoldable pub replay_executions : Step W ReplayResult
  replay_executions =
      exclusively (record { reason_codes = coordinator_busy; recorded_ids = [] }) occupy_revoked
        (λ c. c) (replay_exclusive D)

  -- `ingestStreamExecution`, of the facts and the sequence that were read.
  unfoldable pub ingest_stream_execution : ExecutionFacts → Option Text → Step W ReplayResult
  ingest_stream_execution facts sequence = do
    problem ← gets (λ c. (note_stream_event c sequence).1)
    modify (λ c. (note_stream_event c sequence).0)
    c ← gets (λ c. c)
    (if c.busy || c.journal_failed
        then (do
          modify (λ c. defer_stream_execution c facts)
          return (record { reason_codes = deferred_codes c problem; recorded_ids = [] }))
        else (modify occupy
            >> releasing (λ c. c) (ingest_exclusive D facts (problem_codes problem))))

  -- `continuationExclusive`
  unfoldable pub continuation_exclusive : Text → Step W ContinuationDecision
  continuation_exclusive anchor_epoch = do
    _ ← reconcile_exclusive D
    _ ← scan_exclusive D anchor_epoch
    _ ← replay_exclusive D
    reservation ← gets (λ c. exposure_reservation D.decimal_js c.registry)
    risk_inputs ← await D.ports.read_risk_inputs
    halt_view ← await D.ports.inspect_halt
    blockers ← gets risk_increase_blockers
    return (
        decide_continuation D.decimal_js D.admit_risk_input (record {
          risk_inputs = risk_inputs;
          halt_view = halt_view;
          reservation = reservation;
          blockers = blockers;
        }))

  -- The decision, which is also the grant.
  unfoldable pub granting : Text → Step W ContinuationDecision
  granting anchor_epoch = do
    decision ← continuation_exclusive anchor_epoch
    modify (grant_by decision)
    return decision

  unfoldable pub evaluate_continuation : Text → Step W ContinuationDecision
  evaluate_continuation anchor_epoch =
      exclusively (unevaluated_continuation coordinator_busy) occupy_revoked (λ c. c)
        (granting anchor_epoch)

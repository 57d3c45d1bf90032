-- ===== src/Execution/Session.antt =====
-- src/execution/coordinator.ts: the life of a coordinator, as the operations that its caller starts one
-- after the other. An operation that throws ends; the caller may go on with the next.
use multi_venue_grid_engine.Base.{ℕ, Option, List, [], ◌∷◌, Text}
use multi_venue_grid_engine.Execution.Intents.{OrderIntent}
use multi_venue_grid_engine.Execution.Observations.{ExecutionFacts}
use multi_venue_grid_engine.Execution.CoordinatorState.{stream_reconnect}
use multi_venue_grid_engine.Execution.Steps.{Step, Machine, Deps, ◌>>=◌, modify, return}
use multi_venue_grid_engine.Execution.Operations.{
  submit, submit_batch, cancel, reconcile_unresolved, scan_open_orders, cleanup_owned_duplicates,
  replay_executions, ingest_stream_execution, evaluate_continuation, start_cycle,
}

-- The public methods that change the coordinator.
pub data Operation : Type 0 where
  submits : OrderIntent → Operation
  submits_batch : List OrderIntent → Operation
  cancels : Text → Operation
  reconciles replays reconnects starts_cycle : Operation
  scans cleans_up evaluates : Text → Operation
  ingests : ExecutionFacts → Option Text → Operation

-- The value of an operation is the caller's.
abbrev pub finished {ℓ} : {W : Type 0} {A : Type ℓ} → Step W A → Step W (Unit {0})
finished step = step >>= λ _. return tt

module _ {W : Type 0} (D : Deps W) (rounds : ℕ) where
  unfoldable pub perform_operation : Operation → Step W (Unit {0})
  perform_operation (submits i) = finished (submit D rounds i)
  perform_operation (submits_batch is) = finished (submit_batch D rounds is)
  perform_operation (cancels id) = finished (cancel D rounds id)
  perform_operation reconciles = finished (reconcile_unresolved D rounds)
  perform_operation replays = finished (replay_executions D rounds)
  perform_operation reconnects = modify stream_reconnect
  perform_operation starts_cycle = modify (λ c. (start_cycle c).0)
  perform_operation (scans epoch) = finished (scan_open_orders D rounds epoch)
  perform_operation (cleans_up epoch) = finished (cleanup_owned_duplicates D rounds epoch)
  perform_operation (evaluates epoch) = finished (evaluate_continuation D rounds epoch)
  perform_operation (ingests facts sequence) =
      finished (ingest_stream_execution D rounds facts sequence)

  unfoldable pub run_operations : List Operation → Machine W → Machine W
  run_operations [] m = m
  run_operations (op ∷ ops) m = run_operations ops (perform_operation op m).1

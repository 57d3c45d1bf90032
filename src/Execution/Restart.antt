-- ===== src/Execution/Restart.antt =====
-- src/execution/restart.ts: what a restart does before any coordinator uses the loaded registry, and the
-- gate that it passes afterwards.
use multi_venue_grid_engine.Base.{
  Bool, true, false, ℕ, List, [], ◌∷◌, Text, text, Outcome, ok, ◌>>=◌, if◌then◌else◌, Option, none,
  some,
}
use multi_venue_grid_engine.Execution.IntentStatus.{
  IntentStatus, prepared, unknown, cancel_prepared, cancel_unverified,
}
use multi_venue_grid_engine.Execution.Intents.{RegistryError, IntentRecord}
use multi_venue_grid_engine.Execution.RegistryState.{RegistryState}
use multi_venue_grid_engine.Execution.Registry.{transition}
use multi_venue_grid_engine.Execution.CoordinatorState.{
  is_empty, unresolved_records, risk_increase_blockers,
}
use multi_venue_grid_engine.Execution.Steps
use multi_venue_grid_engine.Execution.Steps.{Step, Deps}
use multi_venue_grid_engine.Execution.Reconciliation.{ReconcileResult}
use multi_venue_grid_engine.Execution.Feed.{ReplayResult}
use multi_venue_grid_engine.Execution.OpenOrders.{OpenOrderScan}
use multi_venue_grid_engine.Execution.Operations.{
  reconcile_unresolved, scan_open_orders, replay_executions,
}

-- `RecoveredIntent`
pub record RecoveredIntent : Type 0 where
  pub intent_id : Text
  pub from_status : IntentStatus
  pub to_status : IntentStatus

pub record RestartRecoveryResult : Type 0 where
  pub is_recovered : Bool
  pub reason_codes : List Text
  pub items : List RecoveredIntent

-- The status and the code that replace an interrupted one.
unfoldable pub recovered_status : IntentStatus → Option (IntentStatus × Text)
recovered_status prepared = some (unknown, text "RESTART_SEND_OUTCOME_UNKNOWN")
recovered_status cancel_prepared = some (cancel_unverified, text "RESTART_CANCEL_OUTCOME_UNKNOWN")
recovered_status _ = none

-- The loop over the records that were unresolved at its start.
unfoldable pub recover_all :
    RegistryState → List IntentRecord → Outcome RegistryError (RegistryState × List RecoveredIntent)
recover_all s [] = ok (s, [])
recover_all s (r ∷ rs) = elim (recovered_status r.status) [
  | none ↦ recover_all s rs
  | some next ↦ transition s r.intent.intent_id next.0 (next.1 ∷ []) >>= λ s'.
      (recover_all s' rs >>= λ done. ok (
        done.0,
        record { intent_id = r.intent.intent_id; from_status = r.status; to_status = next.0 }
            ∷ done.1,
      ))
]

-- `recoverInterruptedIntents`, with the write as a function of the registry.
unfoldable pub recover_interrupted_intents :
    (RegistryState → Bool)
    → RegistryState
    → Outcome RegistryError (RegistryState × RestartRecoveryResult)
recover_interrupted_intents write s = do
  (s', items) ← recover_all s (unresolved_records s)
  ok (
    s',
    (if is_empty items
        then record { is_recovered = true; reason_codes = []; items = items }
        else if write s'
        then record { is_recovered = true; reason_codes = []; items = items }
        else record {
          is_recovered = false;
          reason_codes = text "RESTART_RECOVERY_WRITE_FAILED" ∷ [];
          items = items;
        }),
  )

pub record RestartGateResult : Type 0 where
  pub allow_risk_increase : Bool
  pub reason_codes : List Text
  pub reconcile : ReconcileResult
  pub scan : OpenOrderScan
  pub replay : ReplayResult

module _ {W : Type 0} (D : Deps W) (rounds : ℕ) where
  -- `runRestartGate`
  unfoldable pub run_restart_gate : Text → Step W RestartGateResult
  run_restart_gate anchor_epoch = Steps.◌>>=◌ (reconcile_unresolved D rounds) λ reconcile.
      Steps.◌>>=◌ (scan_open_orders D rounds anchor_epoch) λ scan.
        Steps.◌>>=◌ (replay_executions D rounds) λ replay.
          Steps.◌>>=◌ (Steps.gets risk_increase_blockers) λ codes. Steps.return (record {
            allow_risk_increase = is_empty codes;
            reason_codes = codes;
            reconcile = reconcile;
            scan = scan;
            replay = replay;
          })

-- ===== src/Execution/OrderScan.antt =====
-- src/execution/coordinator.ts: reading the open orders (scanExclusive), and cancelling owned duplicates
-- (cleanupExclusive).
use multi_venue_grid_engine.Base.{
  Option, none, some, List, [], ◌∷◌, ◌++◌, Text, text, text_eq, Bool, true, false, get_entry,
  Outcome, ok, err, if◌then◌else◌,
}
use multi_venue_grid_engine.Domain.Duplicates.{DuplicateCleanupPlan}
use multi_venue_grid_engine.Execution.IntentStatus.{IntentStatus, cancel_unverified}
use multi_venue_grid_engine.Execution.Intents.{RegistryError, intent_not_registered}
use multi_venue_grid_engine.Execution.RegistryState.{RegistryState, is_unset, require_record}
use multi_venue_grid_engine.Execution.Observations.{ExchangeOrderObservation}
use multi_venue_grid_engine.Execution.CoordinatorState.{Coordinator}
use multi_venue_grid_engine.Execution.Steps.{
  Step, Deps, return, of_outcome, ◌>>=◌, ◌>>◌, gets, modify, await,
}
use multi_venue_grid_engine.Execution.Submission.{
  SubmitResult, refused, refused_intent, refused_exposure, already_recorded, recorded,
}
use multi_venue_grid_engine.Execution.Cancellation.{cancel_exclusive}
use multi_venue_grid_engine.Execution.OpenOrders.{OpenOrderScan, is_valid_snapshot, scan_snapshot}

-- `CleanupCancel`
pub record CleanupCancel : Type 0 where
  pub intent_id : Text
  pub exchange_order_id : Text
  pub status : IntentStatus
  pub reason_codes : List Text

pub record DuplicateCleanupResult : Type 0 where
  pub scan : OpenOrderScan
  pub cancels : List CleanupCancel
  pub reason_codes : List Text

abbrev pub set_blockers : List Text → Coordinator → Coordinator
set_blockers codes c = record c { open_order_blockers = codes }

abbrev pub failed_scan_result : Text → OpenOrderScan
failed_scan_result code = record { reason_codes = code ∷ []; orders = []; duplicates = [] }

-- `result.reasonCodes` of a cancel, which is refused with codes or recorded.
abbrev pub cancel_codes : SubmitResult → List Text
cancel_codes (refused codes) = codes
cancel_codes (refused_intent e) = []
cancel_codes (refused_exposure e) = []
cancel_codes (already_recorded r) = []
cancel_codes (recorded r codes) = codes

unfoldable pub planned_cancels : List DuplicateCleanupPlan → List Text
planned_cancels [] = []
planned_cancels (p ∷ ps) = p.cancel_exchange_order_ids ++ planned_cancels ps

-- `intentIdForExchangeOrderId(...) as IntentId`; the code throws on the record of a missing one.
unfoldable pub owner_of_order : RegistryState → Text → Outcome RegistryError Text
owner_of_order s order_id = elim (get_entry s.by_exchange_order_id order_id) [
  | none ↦ err intent_not_registered
  | some id ↦ ok id
]

unfoldable pub status_in : RegistryState → Text → Outcome RegistryError IntentStatus
status_in s id = elim (require_record s id) [ ok r ↦ ok r.status | err e ↦ err e ]

abbrev pub stop_after : IntentStatus → Option Text
stop_after cancel_unverified = none
stop_after _ = some (text "PRIOR_CANCEL_NOT_SENT")

module _ {W : Type 0} (D : Deps W) where
  -- `failedScan`
  unfoldable pub failed_scan : Text → Step W OpenOrderScan
  failed_scan code = do modify (set_blockers (code ∷ [])); return (failed_scan_result code)

  unfoldable pub scan_valid : Text → List ExchangeOrderObservation → Bool → Step W OpenOrderScan
  scan_valid anchor_epoch snapshot false = failed_scan (text "OPEN_ORDER_OBSERVATION_INVALID")
  scan_valid anchor_epoch snapshot true = do
    s ← gets (λ c. c.registry)
    scan ← of_outcome (scan_snapshot D.decimal_js D.config s anchor_epoch snapshot)
    modify (set_blockers scan.reason_codes)
    return scan

  unfoldable pub scan_read : Text → Option (List ExchangeOrderObservation) → Step W OpenOrderScan
  scan_read anchor_epoch none = failed_scan (text "OPEN_ORDER_SCAN_FAILED")
  scan_read anchor_epoch (some snapshot) = do
    valid ← of_outcome (is_valid_snapshot D.config snapshot)
    scan_valid anchor_epoch snapshot valid

  -- `scanExclusive`
  unfoldable pub scan_exclusive : Text → Step W OpenOrderScan
  scan_exclusive anchor_epoch = do
    modify (set_blockers (text "OPEN_ORDER_SCAN_FAILED" ∷ []))
    snapshot ← await D.ports.list_open_orders
    scan_read anchor_epoch snapshot

  -- The loop of `cleanupExclusive`; the last component is `stoppedBy` at its end.
  unfoldable pub cancel_all : Option Text → List Text → Step W (List CleanupCancel × Option Text)
  cancel_all stopped [] = return ([], stopped)
  cancel_all stopped (order_id ∷ order_ids) = gets (λ c. c.registry) >>= λ s.
      of_outcome (owner_of_order s order_id) >>= λ id. (elim stopped [
        | some code ↦ of_outcome (status_in s id) >>= λ status.
            cancel_all (some code) order_ids >>= λ rest. return (
              record {
                intent_id = id;
                exchange_order_id = order_id;
                status = status;
                reason_codes = text "CLEANUP_STOPPED_BEFORE_SEND" ∷ code ∷ [];
              }
                  ∷ rest.0,
              rest.1,
            )
        | none ↦ cancel_exclusive D id >>= λ result. gets (λ c. c.registry) >>= λ s'.
            of_outcome (status_in s' id) >>= λ status.
            cancel_all (stop_after status) order_ids >>= λ rest. return (
              record {
                intent_id = id;
                exchange_order_id = order_id;
                status = status;
                reason_codes = cancel_codes result;
              }
                  ∷ rest.0,
              rest.1,
            )
      ])

  -- `cleanupExclusive`
  unfoldable pub cleanup_exclusive : Text → Step W DuplicateCleanupResult
  cleanup_exclusive anchor_epoch = do
    scan ← scan_exclusive anchor_epoch
    done ← cancel_all none (planned_cancels scan.duplicates)
    return (record {
      scan = scan;
      cancels = done.0;
      reason_codes = if is_unset done.1 then [] else text "CLEANUP_INCOMPLETE" ∷ [];
    })

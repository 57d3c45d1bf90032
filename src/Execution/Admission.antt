-- ===== src/Execution/Admission.antt =====
-- src/execution/coordinator.ts: what a place must pass before it is sent: the admission checks, the write
-- budget and the exposure gate over everything that the records still reserve.
pub mod Claims
pub mod Within
use multi_venue_grid_engine.Base.{
  ℕ, ◌+◌, ◌≡◌, refl, Bool, true, false, ◌&&◌, ◌||◌, not, Option, none, some, List, [], ◌∷◌, ◌++◌,
  map, Text, text, text_eq, any, leb, get_entry, Outcome, ok, err, if◌then◌else◌, ◌==◌,
}
use multi_venue_grid_engine.Math.DecimalJs.{DecimalJs}
use multi_venue_grid_engine.Risk.Types.{
  Value, null, str, bool, RiskWorkingOrder, RiskUnknownReservation, RiskProposedIntent,
}
use multi_venue_grid_engine.Risk.ReasonCodes.{ReasonCode}
use multi_venue_grid_engine.Risk.Exposure.{ExposureArgs}
use multi_venue_grid_engine.Risk.PlannedExposure.{
  PlannedExposureDecision, planned_exposure_decision,
}
use multi_venue_grid_engine.Execution.IntentStatus.{
  IntentStatus, prepared, unknown, linked, cancel_prepared, cancel_unverified, is_working,
}
use multi_venue_grid_engine.Execution.Intents.{lift, OrderIntent, IntentRecord}
use multi_venue_grid_engine.Execution.RegistryState.{RegistryState, is_unset, client_id_of}
use multi_venue_grid_engine.Execution.Observations.{remaining_quantity}
use multi_venue_grid_engine.Execution.Ports.{Ports, ExposureInputs}
use multi_venue_grid_engine.Execution.CoordinatorState.{
  Coordinator, CoordinatorConfig, list_records, unresolved_records, execution_blocker_codes,
  slot_key, is_risk_increasing, is_empty,
}
use multi_venue_grid_engine.Execution.Steps.{Step, Deps, return, of_outcome, ◌>>=◌, gets, await}

pub record ExposureReservation : Type 0 where
  pub owned_active_orders : List RiskWorkingOrder
  pub unknown_reservations : List RiskUnknownReservation

-- A `DecimalString | null` as a field of a risk entry.
abbrev pub value_of : Option Text → Value
value_of none = null
value_of (some t) = str t

-- `POSSIBLY_LIVE_STATUSES`
unfoldable pub is_possibly_live : IntentStatus → Bool
is_possibly_live prepared = true
is_possibly_live unknown = true
is_possibly_live _ = false

abbrev pub reserve_order : ExposureReservation → RiskWorkingOrder → ExposureReservation
reserve_order e o = record e { owned_active_orders = o ∷ e.owned_active_orders }

abbrev pub reserve_unknown : ExposureReservation → RiskUnknownReservation → ExposureReservation
reserve_unknown e u = record e { unknown_reservations = u ∷ e.unknown_reservations }

module _ (J : DecimalJs) where
  -- What a record with a working order reserves, before what the later records reserve.
  unfoldable pub reserve_working : IntentRecord → ExposureReservation → ExposureReservation
  reserve_working r rest = elim r.intent.price [
    | none ↦ reserve_unknown rest (record {
      side = str r.intent.side;
      price = null;
      quantity = str (remaining_quantity J r.intent.quantity r.executed_quantity);
    })
    | some price ↦ reserve_order rest (record {
      side = str r.intent.side;
      price = str price;
      remaining_quantity = str (remaining_quantity J r.intent.quantity r.executed_quantity);
      reduce_only = bool false;
      owned = bool true;
    })
  ]

  unfoldable pub reserve_record : IntentRecord → ExposureReservation → ExposureReservation
  reserve_record r rest =
      if not (is_risk_increasing r.intent)
      then rest
      else if is_working r.status
      then reserve_working r rest
      else if is_possibly_live r.status
      then reserve_unknown rest (record {
        side = str r.intent.side;
        price = value_of r.intent.price;
        quantity = str r.intent.quantity;
      })
      else rest

  unfoldable pub reserve_all : List IntentRecord → ExposureReservation
  reserve_all [] = record { owned_active_orders = []; unknown_reservations = [] }
  reserve_all (r ∷ rs) = reserve_record r (reserve_all rs)

  -- `exposureReservation()`
  unfoldable pub exposure_reservation : RegistryState → ExposureReservation
  exposure_reservation s = reserve_all (list_records s)

-- `toProposedIntent`
unfoldable pub to_proposed_intent : OrderIntent → RiskProposedIntent
to_proposed_intent i = record {
  side = str i.side;
  price = value_of i.price;
  quantity = str i.quantity;
  reduce_only = bool (not (is_risk_increasing i));
  purpose = str i.purpose;
}

-- `inScope`
unfoldable pub in_scope : CoordinatorConfig → OrderIntent → Bool
in_scope config i =
    i.experiment_id == config.experiment_id
    && i.run_id == config.run_id
    && i.scope_key == config.scope_key

-- `admissionProblem`
unfoldable pub admission_problem : CoordinatorConfig → Coordinator → OrderIntent → Option Text
admission_problem config c i =
    if not (in_scope config i)
    then some (text "INTENT_SCOPE_MISMATCH")
    else if not (i.lease_generation == config.lease_generation)
    then some (text "INTENT_LEASE_GENERATION_MISMATCH")
    else if not (is_unset (get_entry c.registry.by_client_order_id (client_id_of i)))
    then some (text "CLIENT_ORDER_ID_COLLISION")
    else if any (λ r. slot_key r.intent == slot_key i) (unresolved_records c.registry)
    then some (text "UNRESOLVED_INTENT_FOR_SLOT")
    else if not (is_empty (unresolved_records c.registry)) && is_risk_increasing i
    then some (text "UNRESOLVED_INTENT_BLOCKS_RISK_INCREASE")
    else if not (is_empty c.open_order_blockers) && is_risk_increasing i
    then some (text "OPEN_ORDER_SCAN_BLOCKS_RISK_INCREASE")
    else if not (is_empty (execution_blocker_codes c)) && is_risk_increasing i
    then some (text "EXECUTION_REPLAY_BLOCKS_RISK_INCREASE")
    else if not c.continuation_granted && is_risk_increasing i
    then some (text "CONTINUATION_NOT_GRANTED")
    else none

-- `budgetAllows`
unfoldable pub budget_allows : CoordinatorConfig → Coordinator → ℕ → Bool
budget_allows config c writes = leb (c.writes_this_cycle + writes) config.write_budget_per_cycle

-- `revokedRiskIncrease`
unfoldable pub revoked_risk_increase : Coordinator → OrderIntent → Option (List Text)
revoked_risk_increase c i =
    if not (is_risk_increasing i)
      || (c.continuation_granted && is_empty (execution_blocker_codes c))
    then none
    else some (text "RISK_INCREASE_REVOKED_BEFORE_SEND" ∷ execution_blocker_codes c)

-- Why a batch is denied: no inputs, or the codes of the risk gate.
pub data ExposureDenial : Type 0 where
  exposure_input_unavailable : ExposureDenial
  planned_exposure_denied : List ReasonCode → ExposureDenial

-- The arguments of the gate: the inputs that were read, what the records reserve, and the batch.
unfoldable pub gate_args :
    DecimalJs → Coordinator → ExposureInputs → List OrderIntent → ExposureArgs
gate_args J c inputs intents = record {
  signed_position = inputs.signed_position;
  mark_or_mid_price = inputs.mark_or_mid_price;
  owned_active_orders = (exposure_reservation J c.registry).owned_active_orders;
  unknown_reservations = (exposure_reservation J c.registry).unknown_reservations;
  proposed_batch = map to_proposed_intent intents;
}

abbrev pub denial_of : PlannedExposureDecision → Option ExposureDenial
denial_of d = if d.allowed then none else some (planned_exposure_denied d.reason_codes)

module _ {W : Type 0} (D : Deps W) where
  -- The decision on the inputs, once they have been read.
  unfoldable pub gate_inputs :
      Coordinator → List OrderIntent → Option ExposureInputs → Step W (Option ExposureDenial)
  gate_inputs c intents none = return (some exposure_input_unavailable)
  gate_inputs c intents (some inputs) = do
    d ←
        of_outcome
          (lift (planned_exposure_decision D.decimal_js (gate_args D.decimal_js c inputs intents)))
    return (denial_of d)

  -- `exposureProblem`
  unfoldable pub exposure_problem : List OrderIntent → Step W (Option ExposureDenial)
  exposure_problem intents =
      if not (any is_risk_increasing intents)
      then return none
      else do inputs ← await D.ports.read_exposure; c ← gets (λ c. c); gate_inputs c intents inputs

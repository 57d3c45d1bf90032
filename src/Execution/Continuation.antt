-- ===== src/Execution/Continuation.antt =====
-- src/execution/continuation.ts: the decision whether trading continues, from the risk rules, the
-- coordinator's blockers and the durable halt authority.
pub mod Granted
use multi_venue_grid_engine.Base.{
  Bool, true, false, ◌&&◌, ◌||◌, not, Option, none, some, List, [], ◌∷◌, ◌++◌, map, Text, text,
  text_eq, text_leb, includes, unique, sort, if◌then◌else◌, ◌==◌,
}
use multi_venue_grid_engine.Math.DecimalJs.{DecimalJs}
use multi_venue_grid_engine.Risk.Types.{RiskInput}
use multi_venue_grid_engine.Risk.ReasonCodes
use multi_venue_grid_engine.Risk.ReasonCodes.{
  ReasonCode, code_eq, boundary_seed_blocked, invalid_risk_input,
}
use multi_venue_grid_engine.Risk.Engine.{
  RiskAction, continue, reduce, halt, RiskDecision, ParsedRiskInput, refused,
  unauthorized_evaluated_at,
}
use multi_venue_grid_engine.Risk.Evaluate.{evaluate_risk}
use multi_venue_grid_engine.Execution.Ports.{HaltAuthorityView}
use multi_venue_grid_engine.Execution.CoordinatorState.{is_empty}
use multi_venue_grid_engine.Execution.Admission.{ExposureReservation}

pub record ContinuationDecision : Type 0 where
  pub action : RiskAction
  pub allow_risk_increase : Bool
  pub reason_codes : List Text
  pub evaluated_at : Option Text
  pub risk : Option RiskDecision
  pub halt_status : Option Text

-- `ContinuationEvidence`, of reads that have the fields of their types. The account inputs are a risk
-- input whose order lists and halt authority are not read.
pub record ContinuationEvidence : Type 0 where
  pub risk_inputs : Option RiskInput
  pub halt_view : Option HaltAuthorityView
  pub reservation : ExposureReservation
  pub blockers : List Text

-- A code as its text, from the catalog of src/risk/risk-types.ts.
unfoldable pub code_text : ReasonCode → Text
code_text ReasonCodes.persistence_unproven = text "PERSISTENCE_UNPROVEN"
code_text ReasonCodes.lease_unproven = text "LEASE_UNPROVEN"
code_text ReasonCodes.durable_halt_or_ack_unavailable = text "DURABLE_HALT_OR_ACK_UNAVAILABLE"
code_text ReasonCodes.reconciliation_required = text "RECONCILIATION_REQUIRED"
code_text ReasonCodes.stale_or_missing_input = text "STALE_OR_MISSING_INPUT"
code_text ReasonCodes.daily_loss = text "DAILY_LOSS"
code_text ReasonCodes.start_drawdown = text "START_DRAWDOWN"
code_text ReasonCodes.boundary = text "BOUNDARY"
code_text ReasonCodes.actual_notional = text "ACTUAL_NOTIONAL"
code_text ReasonCodes.planned_notional = text "PLANNED_NOTIONAL"
code_text ReasonCodes.continue_metrics_only = text "CONTINUE_METRICS_ONLY"
code_text ReasonCodes.latch_blocked = text "LATCH_BLOCKED"
code_text ReasonCodes.pair_unproven = text "PAIR_UNPROVEN"
code_text ReasonCodes.lease_lost = text "LEASE_LOST"
code_text ReasonCodes.lease_expired = text "LEASE_EXPIRED"
code_text ReasonCodes.fee_missing = text "FEE_MISSING"
code_text ReasonCodes.funding_missing = text "FUNDING_MISSING"
code_text ReasonCodes.funding_convention_missing = text "FUNDING_CONVENTION_MISSING"
code_text ReasonCodes.unbounded_exposure = text "UNBOUNDED_EXPOSURE"
code_text ReasonCodes.invalid_decimal = text "INVALID_DECIMAL"
code_text ReasonCodes.invalid_risk_input = text "INVALID_RISK_INPUT"
code_text ReasonCodes.reduction_not_proven = text "REDUCTION_NOT_PROVEN"
code_text ReasonCodes.reduction_ambiguous = text "REDUCTION_AMBIGUOUS"
code_text ReasonCodes.cancel_only_reduction = text "CANCEL_ONLY_REDUCTION"
code_text ReasonCodes.boundary_seed_blocked = text "BOUNDARY_SEED_BLOCKED"
code_text ReasonCodes.high_water_observed = text "HIGH_WATER_OBSERVED"
code_text ReasonCodes.risk_input_limit_exceeded = text "RISK_INPUT_LIMIT_EXCEEDED"

-- `riskInput`
unfoldable pub risk_input : ContinuationEvidence → Option RiskInput
risk_input e = elim e.risk_inputs [
  | none ↦ none
  | some account ↦ some (record account {
    owned_active_orders = e.reservation.owned_active_orders;
    unknown_reservations = e.reservation.unknown_reservations;
    proposed_batch = [];
    halt_authority_clear = false;
    unresolved = not (is_empty e.blockers) || account.unresolved;
  })
]

-- What the admission boundary makes of the input; it refuses `null`.
abbrev pub admitted : (RiskInput → ParsedRiskInput) → Option RiskInput → ParsedRiskInput
admitted admit none = refused (invalid_risk_input ∷ []) unauthorized_evaluated_at
admitted admit (some i) = admit i

unfoldable pub halt_allows : Option HaltAuthorityView → Bool
halt_allows none = false
halt_allows (some view) = view.allow_risk_increase && view.durable_status == text "RUNNING"

abbrev pub is_halting : RiskAction → Bool
is_halting halt = true
is_halting _ = false

abbrev pub is_continuing : RiskAction → Bool
is_continuing continue = true
is_continuing _ = false

unfoldable pub gate_action : RiskDecision → Bool → RiskAction
gate_action risk allows = if is_halting risk.action || not allows then halt else risk.action

unfoldable pub grants : RiskDecision → Bool → List Text → Bool
grants risk allows blockers =
    is_continuing (gate_action risk allows)
    && is_empty blockers
    && risk.risk_metrics_within_limits
    && not (includes risk.reason_codes boundary_seed_blocked)

abbrev pub codes_if : Bool → Text → List Text
codes_if b code = if b then code ∷ [] else []

abbrev pub is_missing {ℓ} : {A : Type ℓ} → Option A → Bool
is_missing none = true
is_missing (some a) = false

abbrev pub halt_codes : Option HaltAuthorityView → List Text
halt_codes none = []
halt_codes (some view) = view.reason_codes

abbrev pub halt_status_of : Option HaltAuthorityView → Option Text
halt_status_of none = none
halt_status_of (some view) = some view.durable_status

-- `gateCodes`
unfoldable pub gate_codes : ContinuationEvidence → Bool → List Text
gate_codes e granted =
    codes_if (is_missing e.risk_inputs) (text "RISK_INPUT_UNAVAILABLE")
    ++ (codes_if (is_missing e.halt_view) (text "HALT_AUTHORITY_UNAVAILABLE")
        ++ (codes_if (not (halt_allows e.halt_view)) (text "HALT_AUTHORITY_DENIED")
            ++ codes_if granted (text "CONTINUATION_GRANTED")))

-- The decision from the risk rules' own.
unfoldable pub decide_on : ContinuationEvidence → RiskDecision → ContinuationDecision
decide_on e risk = record {
  action = gate_action risk (halt_allows e.halt_view);
  allow_risk_increase = grants risk (halt_allows e.halt_view) e.blockers;
  reason_codes = sort text_leb (
      unique (
        map code_text risk.reason_codes
        ++ (e.blockers
            ++ (halt_codes e.halt_view
                ++ gate_codes e (grants risk (halt_allows e.halt_view) e.blockers)))));
  evaluated_at = some risk.evaluated_at;
  risk = some risk;
  halt_status = halt_status_of e.halt_view;
}

-- `decideContinuation`
unfoldable pub decide_continuation :
    DecimalJs → (RiskInput → ParsedRiskInput) → ContinuationEvidence → ContinuationDecision
decide_continuation J admit e = decide_on e (evaluate_risk J (admitted admit (risk_input e)))

-- `unevaluatedContinuation`
unfoldable pub unevaluated_continuation : List Text → ContinuationDecision
unevaluated_continuation codes = record {
  action = halt;
  allow_risk_increase = false;
  reason_codes = sort text_leb codes;
  evaluated_at = none;
  risk = none;
  halt_status = none;
}

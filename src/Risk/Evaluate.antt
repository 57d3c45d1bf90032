-- ===== src/Risk/Evaluate.antt =====
-- src/risk/risk-engine.ts: evaluateRisk and evaluateTrustedRiskInput.
pub mod Band
pub mod Continue
pub mod Reported
pub mod Within
use multi_venue_grid_engine.Base.{
  ◌≡◌, Bool, true, false, ◌&&◌, ◌||◌, not, Option, none, some, List, [], ◌∷◌, ◌++◌, Text, includes,
  Outcome, ok, err, ◌>>=◌, if◌then◌else◌,
}
use multi_venue_grid_engine.Math.DecimalJs.{DecimalJs}
use multi_venue_grid_engine.Math.Decimal.{DecimalError, is_canonical_decimal_string}
use multi_venue_grid_engine.Risk.Types.{RiskInput}
use multi_venue_grid_engine.Risk.ReasonCodes.{
  ReasonCode, code_eq, sort_phase2d_reason_codes, durable_halt_or_ack_unavailable,
  reconciliation_required, planned_notional, invalid_risk_input, risk_input_limit_exceeded,
  continue_metrics_only, high_water_observed,
}
use multi_venue_grid_engine.Risk.Validation.{validate_risk_input}
use multi_venue_grid_engine.Risk.Freshness.{freshness_failures}
use multi_venue_grid_engine.Risk.Exposure.{ExposureComputation, compute_exposure}
use multi_venue_grid_engine.Risk.PlannedExposure.{over_cap, not_within_cap}
use multi_venue_grid_engine.Risk.Limits.{
  Finding, compute_daily_pnl, compute_start_drawdown, compute_boundary,
}
use multi_venue_grid_engine.Risk.Engine.{
  RiskAction, ParsedRiskInput, parsed, refused, RiskDecision, code_if, unauthorized_evaluated_at,
  canonical_evaluated_at, invalid_input_decision, persistence_codes, lease_codes, actual_action,
  actual_codes, raises, choose_action, limit_codes, is_continue, build_metrics, exposure_args,
}

-- Everything that the checks of one input find.
pub record Checked : Type 0 where
  pub input_codes : List ReasonCode
  pub stale : List ReasonCode
  pub exposure : ExposureComputation
  pub pnl : Finding
  pub drawdown : Finding
  pub boundary : List ReasonCode
  pub actual_over : Bool
  pub planned_over : Bool

-- `codes`, at the end of the pushes
unfoldable pub raised_codes : RiskInput → Checked → List ReasonCode
raised_codes i k =
    durable_halt_or_ack_unavailable
    ∷ (k.input_codes
        ++ (persistence_codes i
            ++ (lease_codes i
                ++ (code_if i.unresolved reconciliation_required
                    ++ (k.stale
                        ++ (k.exposure.reason_codes
                            ++ (k.pnl.reason_codes
                                ++ (k.drawdown.reason_codes
                                    ++ (k.boundary
                                        ++ (actual_codes k.actual_over i.bounded_reduction
                                            ++ code_if k.planned_over planned_notional))))))))))

module _ (J : DecimalJs) where
  unfoldable pub high_water_codes : Option Text → List ReasonCode
  high_water_codes none = []
  high_water_codes (some t) = code_if (is_canonical_decimal_string J t) high_water_observed

  unfoldable pub action_of : RiskInput → Checked → RiskAction
  action_of i k =
      choose_action (sort_phase2d_reason_codes (raised_codes i k))
        (actual_action k.actual_over i.bounded_reduction)

  -- From `uniqueCodes` to the decision.
  unfoldable pub decide : RiskInput → Checked → RiskDecision
  decide i k = record {
    action = action_of i k;
    reason_codes = sort_phase2d_reason_codes (
        sort_phase2d_reason_codes (raised_codes i k)
        ++ (code_if (is_continue (action_of i k)) continue_metrics_only
            ++ high_water_codes i.high_water_equity));
    metrics = build_metrics i k.exposure k.pnl.figure k.drawdown.figure;
    risk_metrics_within_limits =
        not (raises (sort_phase2d_reason_codes (raised_codes i k)) limit_codes);
    system_allow_risk_increase = false;
    evaluated_at = canonical_evaluated_at i.freshness.evaluated_at;
  }

  -- The checks in the order in which the code makes them.
  unfoldable pub check_input : RiskInput → List ReasonCode → Outcome DecimalError Checked
  check_input i input_codes = do
    exposure ← compute_exposure J (exposure_args i)
    pnl ← compute_daily_pnl J i
    drawdown ← compute_start_drawdown J i
    boundary ← compute_boundary J i
    actual_over ← over_cap J exposure.actual_gross_notional
    planned_over ← not_within_cap J exposure
    ok (record {
      input_codes = input_codes;
      stale = freshness_failures J i.freshness;
      exposure = exposure;
      pnl = pnl;
      drawdown = drawdown;
      boundary = boundary;
      actual_over = actual_over;
      planned_over = planned_over;
    })

  unfoldable pub evaluate_trusted_risk_input : RiskInput → Outcome DecimalError RiskDecision
  evaluate_trusted_risk_input i = do
    input_codes ← validate_risk_input J i
    (if includes input_codes risk_input_limit_exceeded
        then ok (
            invalid_input_decision (canonical_evaluated_at i.freshness.evaluated_at)
              (risk_input_limit_exceeded ∷ []))
        else (check_input i input_codes >>= λ k. ok (decide i k)))

  -- `catch { return invalidInputDecision(...) }`
  unfoldable pub or_invalid : Outcome DecimalError RiskDecision → RiskDecision
  or_invalid (ok d) = d
  or_invalid (err e) = invalid_input_decision unauthorized_evaluated_at (invalid_risk_input ∷ [])

  -- `evaluateRisk` and `evaluateRiskFromJsonBytes`, from the result of the admission boundary.
  unfoldable pub evaluate_risk : ParsedRiskInput → RiskDecision
  evaluate_risk (parsed input) = or_invalid (evaluate_trusted_risk_input input)
  evaluate_risk (refused codes evaluated_at) = invalid_input_decision evaluated_at codes

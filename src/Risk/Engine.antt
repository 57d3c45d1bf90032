-- ===== src/Risk/Engine.antt =====
-- src/risk/risk-engine.ts: the decision over one input.
use multi_venue_grid_engine.Base.{
  Bool, true, false, ◌||◌, not, Option, none, some, List, [], ◌∷◌, ◌++◌, Text, text, length, ltb,
  includes, keep, if◌then◌else◌, ◌==◌,
}
use multi_venue_grid_engine.Risk.Types.{
  RiskInput, RiskBoundedReduction, frozen_planned_gross_notional_usdt, frozen_daily_net_loss_usdt,
  frozen_start_drawdown_usdt,
}
use multi_venue_grid_engine.Risk.ReasonCodes.{
  ReasonCode, code_eq, sort_phase2d_reason_codes, durable_halt_or_ack_unavailable,
  persistence_unproven, latch_blocked, pair_unproven, lease_unproven, lease_lost, lease_expired,
  reconciliation_required, actual_notional, cancel_only_reduction, reduction_ambiguous,
  reduction_not_proven, planned_notional, daily_loss, start_drawdown, boundary,
  stale_or_missing_input, unbounded_exposure, invalid_decimal, invalid_risk_input,
  risk_input_limit_exceeded, continue_metrics_only,
}
use multi_venue_grid_engine.Risk.Freshness.{timestamp_matches}
use multi_venue_grid_engine.Risk.Exposure.{ExposureComputation, ExposureArgs}

pub data RiskAction : Type 0 where
  continue reduce halt : RiskAction

pub data ActualAction : Type 0 where
  nothing reduces halts : ActualAction

pub record RiskMetrics : Type 0 where
  pub planned_gross_notional : Option Text
  pub actual_gross_notional : Option Text
  pub worst_long_notional : Option Text
  pub worst_short_notional : Option Text
  pub net_daily_pnl : Option Text
  pub equity : Option Text
  pub starting_equity : Option Text
  pub high_water_equity : Option Text
  pub drawdown : Option Text
  pub signed_position : Option Text
  pub mark_or_mid_price : Option Text
  pub planned_cap : Text
  pub daily_loss_limit : Text
  pub start_drawdown_limit : Text

pub record RiskDecision : Type 0 where
  pub action : RiskAction
  pub reason_codes : List ReasonCode
  pub metrics : RiskMetrics
  pub risk_metrics_within_limits : Bool
  pub system_allow_risk_increase : Bool
  pub evaluated_at : Text

-- The result of the admission boundary (risk-input-parser.ts).
pub data ParsedRiskInput : Type 0 where
  parsed : RiskInput → ParsedRiskInput
  refused : List ReasonCode → Text → ParsedRiskInput

abbrev pub code_if : Bool → ReasonCode → List ReasonCode
code_if b c = if b then c ∷ [] else []

abbrev pub unauthorized_evaluated_at : Text
unauthorized_evaluated_at = text "0"

-- `canonicalEvaluatedAt` of risk-input-parser.ts
unfoldable pub canonical_evaluated_at : Option Text → Text
canonical_evaluated_at none = unauthorized_evaluated_at
canonical_evaluated_at (some t) =
    if ltb 13 (length t)
    then unauthorized_evaluated_at
    else if timestamp_matches t
    then t
    else unauthorized_evaluated_at

empty_metrics : RiskMetrics
empty_metrics = record {
  planned_gross_notional = none;
  actual_gross_notional = none;
  worst_long_notional = none;
  worst_short_notional = none;
  net_daily_pnl = none;
  equity = none;
  starting_equity = none;
  high_water_equity = none;
  drawdown = none;
  signed_position = none;
  mark_or_mid_price = none;
  planned_cap = frozen_planned_gross_notional_usdt;
  daily_loss_limit = frozen_daily_net_loss_usdt;
  start_drawdown_limit = frozen_start_drawdown_usdt;
}

unfoldable pub invalid_input_decision : Text → List ReasonCode → RiskDecision
unfolding empty_metrics
invalid_input_decision evaluated_at extra = record {
  action = halt;
  reason_codes =
      keep (λ c. not (c == continue_metrics_only))
        (sort_phase2d_reason_codes
          (durable_halt_or_ack_unavailable ∷ stale_or_missing_input ∷ invalid_risk_input ∷ extra));
  metrics = empty_metrics;
  risk_metrics_within_limits = false;
  system_allow_risk_increase = false;
  evaluated_at = evaluated_at;
}

-- What each block of `evaluateTrustedRiskInput` pushes.
unfoldable pub persistence_codes : RiskInput → List ReasonCode
persistence_codes i =
    if i.latch_blocked || not i.pair_authority_proven
    then persistence_unproven
      ∷ (code_if i.latch_blocked latch_blocked
          ++ code_if (not i.pair_authority_proven) pair_unproven)
    else []

unfoldable pub lease_codes : RiskInput → List ReasonCode
lease_codes i =
    if not i.lease.proven || (i.lease.lost || i.lease.expired)
    then lease_unproven ∷ (code_if i.lease.lost lease_lost ++ code_if i.lease.expired lease_expired)
    else []

-- A position over the cap can be reduced only if the reduction is bounded, clear and proven.
unfoldable pub cannot_reduce : RiskBoundedReduction → Bool
cannot_reduce r = r.cancel_only || (r.is_ambiguous || (not r.possible || not r.snapshot_fresh))

unfoldable pub actual_action : Bool → RiskBoundedReduction → ActualAction
actual_action over r = if over then (if cannot_reduce r then halts else reduces) else nothing

unfoldable pub actual_codes : Bool → RiskBoundedReduction → List ReasonCode
actual_codes over r =
    if over
    then actual_notional
      ∷ (if cannot_reduce r
          then code_if r.cancel_only cancel_only_reduction
            ++ (code_if r.is_ambiguous reduction_ambiguous
                ++ code_if (not r.possible || not r.snapshot_fresh) reduction_not_proven)
          else [])
    else []

-- The codes that halt by themselves.
abbrev pub metric_codes : List ReasonCode
metric_codes = daily_loss ∷ start_drawdown ∷ boundary ∷ []

abbrev pub system_codes : List ReasonCode
system_codes =
    persistence_unproven ∷ lease_unproven ∷ reconciliation_required ∷ stale_or_missing_input
    ∷ unbounded_exposure ∷ invalid_decimal ∷ invalid_risk_input ∷ risk_input_limit_exceeded ∷ []

-- One of `watched` was raised.
unfoldable pub raises : List ReasonCode → List ReasonCode → Bool
raises codes [] = false
raises codes (w ∷ ws) = includes codes w || raises codes ws

unfoldable pub choose_action : List ReasonCode → ActualAction → RiskAction
choose_action codes actual =
    if raises codes system_codes || raises codes metric_codes then halt else elim actual [
      | halts ↦ halt
      | reduces ↦ reduce
      | nothing ↦ if includes codes planned_notional then halt else continue
    ]

abbrev pub limit_codes : List ReasonCode
limit_codes =
    daily_loss ∷ start_drawdown ∷ boundary ∷ actual_notional ∷ planned_notional ∷ unbounded_exposure
    ∷ stale_or_missing_input ∷ invalid_decimal ∷ invalid_risk_input ∷ risk_input_limit_exceeded ∷ []

abbrev pub is_continue : RiskAction → Bool
is_continue continue = true
is_continue _ = false

unfoldable pub build_metrics :
    RiskInput → ExposureComputation → Option Text → Option Text → RiskMetrics
build_metrics i e pnl drawdown = record {
  planned_gross_notional = e.planned_gross_notional;
  actual_gross_notional = e.actual_gross_notional;
  worst_long_notional = e.worst_long_notional;
  worst_short_notional = e.worst_short_notional;
  net_daily_pnl = pnl;
  equity = i.equity;
  starting_equity = i.starting_equity;
  high_water_equity = i.high_water_equity;
  drawdown = drawdown;
  signed_position = i.signed_position;
  mark_or_mid_price = i.mark_or_mid_price;
  planned_cap = frozen_planned_gross_notional_usdt;
  daily_loss_limit = frozen_daily_net_loss_usdt;
  start_drawdown_limit = frozen_start_drawdown_usdt;
}

abbrev pub exposure_args : RiskInput → ExposureArgs
exposure_args i = record {
  signed_position = i.signed_position;
  mark_or_mid_price = i.mark_or_mid_price;
  owned_active_orders = i.owned_active_orders;
  unknown_reservations = i.unknown_reservations;
  proposed_batch = i.proposed_batch;
}

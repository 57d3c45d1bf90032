-- ===== src/Risk/PlannedExposure.antt =====
-- src/risk/exposure.ts: the gate that a batch of intents passes before it is sent.
pub mod Directed
pub mod Bounded
pub mod Gate
use multi_venue_grid_engine.Base.{
  is_lt, is_le, is_gt, ◌≡◌, Bool, true, false, ◌&&◌, ◌||◌, not, Option, none, some, List, [], ◌∷◌,
  ◌++◌, Text, text, text_beq, text_eq, unique, flat_map_m, Outcome, ok, err, ◌>>=◌, if◌then◌else◌,
}
use multi_venue_grid_engine.Math.DecimalJs.{DecimalJs}
use multi_venue_grid_engine.Math.Decimal.{DecimalError, decimal_cmp}
use multi_venue_grid_engine.Risk.Types.{
  is_str, RiskProposedIntent, frozen_planned_gross_notional_usdt,
}
use multi_venue_grid_engine.Risk.ReasonCodes.{
  ReasonCode, code_eq, rank, invalid_risk_input, invalid_decimal, stale_or_missing_input,
  unbounded_exposure, planned_notional,
}
use multi_venue_grid_engine.Risk.Validation.{
  Codes, validate_working_order, validate_unknown_reservation, validate_proposed_intent,
}
use multi_venue_grid_engine.Risk.Exposure.{
  ExposureComputation, ExposureArgs, is_none, compute_exposure,
}

pub record PlannedExposureDecision : Type 0 where
  pub allowed : Bool
  pub planned_gross_notional : Option Text
  pub reason_codes : List ReasonCode

abbrev pub is_nil {ℓ} : {A : Type ℓ} → List A → Bool
is_nil [] = true
is_nil (x ∷ xs) = false

abbrev pub refused : List ReasonCode → PlannedExposureDecision
refused codes = record { allowed = false; planned_gross_notional = none; reason_codes = codes }

module _ (J : DecimalJs) where
  unfoldable pub validate_batch_intent : RiskProposedIntent → Codes
  validate_batch_intent i =
      if is_str i.purpose (text "CANCEL")
      then ok (invalid_risk_input ∷ [])
      else validate_proposed_intent J i

  unfoldable pub invalid_entries : ExposureArgs → Codes
  invalid_entries args = do
    orders ← flat_map_m (validate_working_order J) args.owned_active_orders
    reservations ← flat_map_m (validate_unknown_reservation J) args.unknown_reservations
    intents ← flat_map_m validate_batch_intent args.proposed_batch
    ok (orders ++ (reservations ++ intents))

  -- `planned !== null && decimalCmp(planned, cap) > 0`
  unfoldable pub over_cap : Option Text → Outcome DecimalError Bool
  over_cap none = ok false
  over_cap (some planned) = do
    c ← decimal_cmp J planned frozen_planned_gross_notional_usdt
    ok (is_gt c)

  -- `exposure.unbounded || over_cap`
  unfoldable pub not_within_cap : ExposureComputation → Outcome DecimalError Bool
  not_within_cap e = if e.unbounded then ok true else over_cap e.planned_gross_notional

  abbrev pub with_missing : ExposureComputation → List ReasonCode → List ReasonCode
  with_missing e codes =
      if is_none e.planned_gross_notional && is_nil codes
      then stale_or_missing_input ∷ []
      else codes

  unfoldable pub decide_on : ExposureComputation → Outcome DecimalError PlannedExposureDecision
  decide_on e = do
    over ← not_within_cap e
    (let codes = with_missing e (e.reason_codes ++ (if over then planned_notional ∷ [] else [])) in
        ok (record {
          allowed = is_nil codes;
          planned_gross_notional = e.planned_gross_notional;
          reason_codes = codes;
        }))

  -- The handler of `computeExposure`'s exception; every exception here is an `InvalidDecimalError`.
  unfoldable pub decide_computed :
      Outcome DecimalError ExposureComputation → Outcome DecimalError PlannedExposureDecision
  decide_computed (ok e) = decide_on e
  decide_computed (err r) =
      ok (refused (unbounded_exposure ∷ invalid_decimal ∷ planned_notional ∷ []))

  unfoldable pub decide_valid :
      ExposureArgs → List ReasonCode → Outcome DecimalError PlannedExposureDecision
  decide_valid args [] = decide_computed (compute_exposure J args)
  decide_valid args (c ∷ cs) = ok (refused (unique (c ∷ cs)))

  unfoldable pub planned_exposure_decision :
      ExposureArgs → Outcome DecimalError PlannedExposureDecision
  planned_exposure_decision args = do invalid ← invalid_entries args; decide_valid args invalid

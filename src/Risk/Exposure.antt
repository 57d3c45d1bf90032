-- ===== src/Risk/Exposure.antt =====
-- src/risk/exposure.ts: the worst directional notional over the position, the working orders, the
-- unknown submissions and a proposed batch. The call counters are not modelled.
use multi_venue_grid_engine.Base.{
  is_lt, is_le, is_gt, Bool, true, false, ◌||◌, not, Option, none, some, List, [], ◌∷◌, ◌++◌, Text,
  text, text_eq, unique, fold_m, Outcome, ok, ◌>>=◌, if◌then◌else◌,
}
use multi_venue_grid_engine.Math.DecimalJs.{DecimalJs}
use multi_venue_grid_engine.Math.Decimal.{
  DecimalError, is_canonical_decimal_string, decimal_cmp, decimal_abs,
}
use multi_venue_grid_engine.Math.ExactDecimal.{exact_add, exact_mul}
use multi_venue_grid_engine.Risk.Types.{
  Value, str, is_null, is_true, is_str, RiskWorkingOrder, RiskUnknownReservation,
  RiskProposedIntent,
}
use multi_venue_grid_engine.Risk.ReasonCodes.{
  ReasonCode, code_eq, invalid_risk_input, invalid_decimal, stale_or_missing_input,
  unbounded_exposure,
}
use multi_venue_grid_engine.Risk.Validation.{
  is_risk_side, validate_working_order, validate_unknown_reservation, validate_proposed_intent,
}

pub record ExposureComputation : Type 0 where
  pub planned_gross_notional : Option Text
  pub actual_gross_notional : Option Text
  pub worst_long_notional : Option Text
  pub worst_short_notional : Option Text
  pub unbounded : Bool
  pub reason_codes : List ReasonCode

pub record ExposureArgs : Type 0 where
  pub signed_position : Option Text
  pub mark_or_mid_price : Option Text
  pub owned_active_orders : List RiskWorkingOrder
  pub unknown_reservations : List RiskUnknownReservation
  pub proposed_batch : List RiskProposedIntent

-- The variables of the loops.
pub record Totals : Type 0 where
  pub long : Text
  pub short : Text
  pub unbounded : Bool
  pub reasons : List ReasonCode

abbrev pub is_none {ℓ} : {A : Type ℓ} → Option A → Bool
is_none none = true
is_none (some a) = false

unfoldable pub empty_exposure : List ReasonCode → ExposureComputation
empty_exposure codes = record {
  planned_gross_notional = none;
  actual_gross_notional = none;
  worst_long_notional = none;
  worst_short_notional = none;
  unbounded = false;
  reason_codes = unique codes;
}

-- `reasons.push(...codes); continue`
abbrev pub skip_with : Totals → List ReasonCode → Outcome DecimalError Totals
skip_with t codes = ok (record t { reasons = t.reasons ++ codes })

-- `unbounded = true; reasons.push("UNBOUNDED_EXPOSURE", code); continue`
abbrev pub unbounded_with : Totals → ReasonCode → Outcome DecimalError Totals
unbounded_with t code =
    ok (record t { unbounded = true; reasons = t.reasons ++ (unbounded_exposure ∷ code ∷ []) })

module _ (J : DecimalJs) where
  unfoldable pub parse_notional : Value → Value → Outcome DecimalError (Option Text)
  parse_notional (str quantity) (str price) =
      if not (is_canonical_decimal_string J quantity) || not (is_canonical_decimal_string J price)
      then ok none
      else do
        q ← decimal_cmp J quantity (text "0")
        (if is_lt q then ok none else do
          p ← decimal_cmp J price (text "0")
          (if is_le p then ok none else do n ← exact_mul J quantity price; ok (some n)))
  parse_notional _ _ = ok none

  unfoldable pub long_position_notional : Text → Text → Outcome DecimalError Text
  long_position_notional signed mark = do
    c ← decimal_cmp J signed (text "0")
    (if is_gt c then exact_mul J signed mark else ok (text "0"))

  unfoldable pub short_position_notional : Text → Text → Outcome DecimalError Text
  short_position_notional signed mark = do
    c ← decimal_cmp J signed (text "0")
    (if is_lt c then (decimal_abs J signed >>= λ a. exact_mul J a mark) else ok (text "0"))

  -- The end of each loop body: add to the long or to the short total.
  unfoldable pub add_directed : Totals → Value → Text → Outcome DecimalError Totals
  add_directed t side notional =
      if is_str side (text "BUY")
      then (exact_add J t.long notional >>= λ l. ok (record t { long = l }))
      else (exact_add J t.short notional >>= λ s. ok (record t { short = s }))

  unfoldable pub add_parsed : Totals → Value → Option Text → Outcome DecimalError Totals
  add_parsed t side none = unbounded_with t invalid_decimal
  add_parsed t side (some notional) =
      if not (is_risk_side side)
      then skip_with t (invalid_risk_input ∷ [])
      else add_directed t side notional

  unfoldable pub add_notional : Totals → Value → Value → Value → Outcome DecimalError Totals
  add_notional t side quantity price = do
    notional ← parse_notional quantity price
    add_parsed t side notional

  -- `if (invalid.length > 0) { reasons.push(...invalid); continue; }`
  unfoldable pub if_valid :
      Totals → List ReasonCode → Outcome DecimalError Totals → Outcome DecimalError Totals
  if_valid t [] rest = rest
  if_valid t (c ∷ cs) rest = skip_with t (c ∷ cs)

  unfoldable pub add_order : Totals → RiskWorkingOrder → Outcome DecimalError Totals
  add_order t o = do
    invalid ← validate_working_order J o
    if_valid t invalid (
        if not (is_true o.owned) || is_true o.reduce_only
        then ok t
        else add_notional t o.side o.remaining_quantity o.price)

  unfoldable pub add_reservation : Totals → RiskUnknownReservation → Outcome DecimalError Totals
  add_reservation t r = do
    invalid ← validate_unknown_reservation J r
    if_valid t invalid (
        if is_null r.price || is_null r.quantity
        then unbounded_with t stale_or_missing_input
        else add_notional t r.side r.quantity r.price)

  unfoldable pub add_intent : Totals → RiskProposedIntent → Outcome DecimalError Totals
  add_intent t i = do
    invalid ← validate_proposed_intent J i
    if_valid t invalid (
        if is_true i.reduce_only
        then ok t
        else if is_str i.purpose (text "CANCEL")
        then skip_with t (invalid_risk_input ∷ [])
        else if is_null i.price
        then unbounded_with t stale_or_missing_input
        else add_notional t i.side i.quantity i.price)

  -- What is returned after the loops.
  unfoldable pub finish_exposure : Text → Totals → Outcome DecimalError ExposureComputation
  finish_exposure actual t =
      if t.unbounded
      then ok (record {
        planned_gross_notional = none;
        actual_gross_notional = some actual;
        worst_long_notional = none;
        worst_short_notional = none;
        unbounded = true;
        reason_codes = unique t.reasons;
      })
      else do
        c ← decimal_cmp J t.long t.short
        ok (record {
          planned_gross_notional = some (if is_lt c then t.short else t.long);
          actual_gross_notional = some actual;
          worst_long_notional = some t.long;
          worst_short_notional = some t.short;
          unbounded = false;
          reason_codes = [];
        })

  -- The three loops, from the totals of the position.
  unfoldable pub add_all : ExposureArgs → Totals → Outcome DecimalError Totals
  add_all args t = do
    t1 ← fold_m add_order t args.owned_active_orders
    t2 ← fold_m add_reservation t1 args.unknown_reservations
    fold_m add_intent t2 args.proposed_batch

  -- From the notional of the position on.
  unfoldable pub priced_exposure :
      ExposureArgs → Text → Text → Outcome DecimalError ExposureComputation
  priced_exposure args position mark = do
    size ← decimal_abs J position
    actual ← exact_mul J size mark
    long ← long_position_notional position mark
    short ← short_position_notional position mark
    totals ← add_all args (record { long = long; short = short; unbounded = false; reasons = [] })
    finish_exposure actual totals

  unfoldable pub bounded_exposure :
      ExposureArgs → Text → Text → Outcome DecimalError ExposureComputation
  bounded_exposure args position mark = do
    m ← decimal_cmp J mark (text "0")
    (if is_le m
        then ok (empty_exposure (invalid_decimal ∷ stale_or_missing_input ∷ []))
        else priced_exposure args position mark)

  -- `value !== null && !isCanonicalDecimalString(value)`
  unfoldable pub not_canonical : Option Text → List ReasonCode
  not_canonical none = []
  not_canonical (some t) =
      if is_canonical_decimal_string J t then [] else invalid_decimal ∷ stale_or_missing_input ∷ []

  unfoldable pub exposure_of :
      ExposureArgs
      → List ReasonCode
      → Option Text
      → Option Text
      → Outcome DecimalError ExposureComputation
  exposure_of args [] (some position) (some mark) = bounded_exposure args position mark
  exposure_of args reasons _ _ = ok (empty_exposure reasons)

  unfoldable pub compute_exposure : ExposureArgs → Outcome DecimalError ExposureComputation
  compute_exposure args =
      let missing =
        if is_none args.signed_position || is_none args.mark_or_mid_price
        then stale_or_missing_input ∷ []
        else [] in
      exposure_of args
        (not_canonical args.signed_position ++ (not_canonical args.mark_or_mid_price ++ missing))
        args.signed_position args.mark_or_mid_price

-- ===== src/Risk/Limits.antt =====
-- src/risk/risk-engine.ts: the daily loss, the drawdown from the start and the grid's boundary.
use multi_venue_grid_engine.Base.{
  is_lt, is_le, is_gt, ◌||◌, not, Option, none, some, List, [], ◌∷◌, ◌++◌, Text, text, text_eq,
  Outcome, ok, ◌>>=◌, if◌then◌else◌, ◌==◌,
}
use multi_venue_grid_engine.Math.DecimalJs.{DecimalJs}
use multi_venue_grid_engine.Math.Decimal.{DecimalError, decimal_cmp, is_canonical_decimal_string}
use multi_venue_grid_engine.Math.ExactDecimal.{exact_add, exact_sub, exact_mul}
use multi_venue_grid_engine.Risk.Types.{
  RiskInput, frozen_daily_net_loss_usdt, frozen_start_drawdown_usdt,
}
use multi_venue_grid_engine.Risk.ReasonCodes.{
  ReasonCode, stale_or_missing_input, fee_missing, funding_missing, funding_convention_missing,
  invalid_decimal, invalid_risk_input, daily_loss, start_drawdown, boundary, boundary_seed_blocked,
}
use multi_venue_grid_engine.Risk.Validation.{is_funding_convention, validate_grid_domain}

-- A figure, if it could be computed, and what was found.
pub record Finding : Type 0 where
  pub figure : Option Text
  pub reason_codes : List ReasonCode

module _ (J : DecimalJs) where
  unfoldable pub realized_codes : Option Text → List ReasonCode
  realized_codes none = stale_or_missing_input ∷ []
  realized_codes (some t) =
      if not (is_canonical_decimal_string J t) then stale_or_missing_input ∷ [] else []

  unfoldable pub required_codes : ReasonCode → Option Text → List ReasonCode
  required_codes missing none = missing ∷ stale_or_missing_input ∷ []
  required_codes missing (some t) =
      if not (is_canonical_decimal_string J t)
      then invalid_decimal ∷ stale_or_missing_input ∷ []
      else []

  unfoldable pub convention_codes : Option Text → List ReasonCode
  convention_codes none = funding_convention_missing ∷ stale_or_missing_input ∷ []
  convention_codes (some c) = if not (is_funding_convention c) then invalid_risk_input ∷ [] else []

  unfoldable pub normalize_funding : Text → Text → Outcome DecimalError Text
  normalize_funding funding convention =
      if convention == text "PAID_POSITIVE" then exact_mul J funding (text "-1") else ok funding

  unfoldable pub net_daily_pnl : Text → Text → Text → Text → Outcome DecimalError Text
  net_daily_pnl realized fees funding convention = do
    signed ← normalize_funding funding convention
    net ← exact_sub J realized fees
    exact_add J net signed

  unfoldable pub pnl_finding : Text → Outcome DecimalError Finding
  pnl_finding net = do
    c ← decimal_cmp J net frozen_daily_net_loss_usdt
    ok (record { figure = some net; reason_codes = if is_le c then daily_loss ∷ [] else [] })

  unfoldable pub pnl_of :
      List ReasonCode
      → Option Text
      → Option Text
      → Option Text
      → Option Text
      → Outcome DecimalError Finding
  pnl_of [] (some realized) (some fees) (some funding) (some convention) = do
    net ← net_daily_pnl realized fees funding convention
    pnl_finding net
  pnl_of reasons _ _ _ _ = ok (record { figure = none; reason_codes = reasons })

  unfoldable pub compute_daily_pnl : RiskInput → Outcome DecimalError Finding
  compute_daily_pnl i =
      pnl_of
        (realized_codes i.realized_trading_pnl
          ++ (required_codes fee_missing i.fees
              ++ (required_codes funding_missing i.funding
                  ++ convention_codes i.funding_convention)))
        i.realized_trading_pnl i.fees i.funding i.funding_convention

  unfoldable pub drawdown_of : Option Text → Option Text → Outcome DecimalError Finding
  drawdown_of (some equity) (some starting) =
      if not (is_canonical_decimal_string J equity) || not (is_canonical_decimal_string J starting)
      then ok (record { figure = none; reason_codes = stale_or_missing_input ∷ [] })
      else do
        drawdown ← exact_sub J starting equity
        c ← decimal_cmp J drawdown frozen_start_drawdown_usdt
        ok (record {
          figure = some drawdown;
          reason_codes = if not (is_lt c) then start_drawdown ∷ [] else [];
        })
  drawdown_of _ _ = ok (record { figure = none; reason_codes = stale_or_missing_input ∷ [] })

  unfoldable pub compute_start_drawdown : RiskInput → Outcome DecimalError Finding
  compute_start_drawdown i = drawdown_of i.equity i.starting_equity

  -- The three tests of the boundary; each comparison is made only where the code reaches it.
  unfoldable pub flat_boundary : Text → Text → Text → Text → Outcome DecimalError (List ReasonCode)
  flat_boundary position mark floor ceiling = do
    side ← decimal_cmp J position (text "0")
    (if is_lt side || is_gt side then ok [] else do
      low ← decimal_cmp J mark floor
      (if is_lt low then ok (boundary_seed_blocked ∷ []) else do
        high ← decimal_cmp J mark ceiling
        ok (if is_gt high then boundary_seed_blocked ∷ [] else [])))

  unfoldable pub short_boundary : Text → Text → Text → Text → Outcome DecimalError (List ReasonCode)
  short_boundary position mark floor ceiling = do
    side ← decimal_cmp J position (text "0")
    (if is_lt side
        then (decimal_cmp J mark ceiling >>= λ c.
            (if is_gt c then ok (boundary ∷ []) else flat_boundary position mark floor ceiling))
        else flat_boundary position mark floor ceiling)

  unfoldable pub long_boundary : Text → Text → Text → Text → Outcome DecimalError (List ReasonCode)
  long_boundary position mark floor ceiling = do
    side ← decimal_cmp J position (text "0")
    (if is_gt side
        then (decimal_cmp J mark floor >>= λ c.
            (if is_lt c then ok (boundary ∷ []) else short_boundary position mark floor ceiling))
        else short_boundary position mark floor ceiling)

  unfoldable pub boundary_of : Text → Text → Text → Text → Outcome DecimalError (List ReasonCode)
  boundary_of position mark lower upper =
      if not (is_canonical_decimal_string J position)
        || (not (is_canonical_decimal_string J mark)
            || (not (is_canonical_decimal_string J lower)
                || not (is_canonical_decimal_string J upper)))
      then ok (invalid_decimal ∷ stale_or_missing_input ∷ [])
      else do
        floor ← exact_mul J lower (text "0.99")
        ceiling ← exact_mul J upper (text "1.01")
        long_boundary position mark floor ceiling

  unfoldable pub boundary_in_domain :
      List ReasonCode
      → Option Text
      → Option Text
      → Option Text
      → Option Text
      → Outcome DecimalError (List ReasonCode)
  boundary_in_domain [] (some position) (some mark) (some lower) (some upper) =
      boundary_of position mark lower upper
  boundary_in_domain [] _ _ _ _ = ok (stale_or_missing_input ∷ [])
  boundary_in_domain (c ∷ cs) _ _ _ _ = ok (c ∷ cs)

  unfoldable pub compute_boundary : RiskInput → Outcome DecimalError (List ReasonCode)
  compute_boundary i = do
    domain ← validate_grid_domain J i.grid_lower i.grid_upper
    boundary_in_domain domain i.signed_position i.mark_or_mid_price i.grid_lower i.grid_upper

-- ===== src/Risk/Types.antt =====
-- src/risk/risk-types.ts. The admission boundary fixes the type of every field of a `RiskInput`, but
-- of the entries of its three lists it only fixes the keys, so their fields are run-time values.
use multi_venue_grid_engine.Base.{Bool, true, false, Option, List, Text, text, text_eq, ◌==◌, not}

-- A run-time value. `other` is a number, an array or an object, which the code only rejects.
pub data Value : Type 0 where
  null other : Value
  bool : Bool → Value
  str : Text → Value

abbrev pub is_null : Value → Bool
is_null null = true
is_null _ = false

-- `value === true`
abbrev pub is_true : Value → Bool
is_true (bool b) = b
is_true _ = false

abbrev pub is_bool : Value → Bool
is_bool (bool b) = true
is_bool _ = false

-- `value === false`
abbrev pub is_false : Value → Bool
is_false (bool b) = not b
is_false _ = false

-- `value === t` for a string `t`
abbrev pub is_str : Value → Text → Bool
is_str (str s) t = s == t
is_str _ t = false

pub record RiskWorkingOrder : Type 0 where
  pub side : Value
  pub price : Value
  pub remaining_quantity : Value
  pub reduce_only : Value
  pub owned : Value

pub record RiskUnknownReservation : Type 0 where
  pub side : Value
  pub price : Value
  pub quantity : Value

pub record RiskProposedIntent : Type 0 where
  pub side : Value
  pub price : Value
  pub quantity : Value
  pub reduce_only : Value
  pub purpose : Value

pub record RiskLeaseAssertion : Type 0 where
  pub proven : Bool
  pub expired : Bool
  pub lost : Bool

pub record RiskBoundedReduction : Type 0 where
  pub possible : Bool
  pub is_ambiguous : Bool
  pub cancel_only : Bool
  pub snapshot_fresh : Bool

-- Each is a string or `null`.
pub record RiskFreshness : Type 0 where
  pub evaluated_at : Option Text
  pub max_stale_ms : Option Text
  pub position_observed_at : Option Text
  pub equity_observed_at : Option Text
  pub mark_observed_at : Option Text
  pub pnl_observed_at : Option Text

-- `unresolved` and `pair_authority_proven` are the only fields of `reconciliation` and
-- `durableInspection`.
pub record RiskInput : Type 0 where
  pub signed_position : Option Text
  pub mark_or_mid_price : Option Text
  pub equity : Option Text
  pub starting_equity : Option Text
  pub high_water_equity : Option Text
  pub realized_trading_pnl : Option Text
  pub fees : Option Text
  pub funding : Option Text
  pub funding_convention : Option Text
  pub owned_active_orders : List RiskWorkingOrder
  pub unknown_reservations : List RiskUnknownReservation
  pub proposed_batch : List RiskProposedIntent
  pub grid_lower : Option Text
  pub grid_upper : Option Text
  pub freshness : RiskFreshness
  pub unresolved : Bool
  pub lease : RiskLeaseAssertion
  pub latch_blocked : Bool
  pub pair_authority_proven : Bool
  pub halt_authority_clear : Bool
  pub bounded_reduction : RiskBoundedReduction

abbrev pub frozen_planned_gross_notional_usdt : Text
frozen_planned_gross_notional_usdt = text "150"

abbrev pub frozen_daily_net_loss_usdt : Text
frozen_daily_net_loss_usdt = text "-5"

abbrev pub frozen_start_drawdown_usdt : Text
frozen_start_drawdown_usdt = text "10"

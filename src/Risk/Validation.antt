-- ===== src/Risk/Validation.antt =====
-- src/risk/risk-input-validation.ts. What the admission boundary has settled is left out: that
-- objects have exactly their keys, and that the fields of the input itself have their types.
use multi_venue_grid_engine.Base.{
  is_lt, is_le, ℕ, Bool, ◌&&◌, ◌||◌, not, Option, none, some, List, [], ◌∷◌, ◌++◌, Text, text,
  text_eq, length, ltb, includes, unique, flat_map_m, Outcome, ok, ◌>>=◌, if◌then◌else◌, ◌==◌,
}
use multi_venue_grid_engine.Math.DecimalJs.{DecimalJs}
use multi_venue_grid_engine.Math.Decimal.{DecimalError, is_canonical_decimal_string, decimal_cmp}
use multi_venue_grid_engine.Risk.Types.{
  Value, null, str, is_false, is_bool, is_str, RiskWorkingOrder, RiskUnknownReservation,
  RiskProposedIntent, RiskInput,
}
use multi_venue_grid_engine.Risk.ReasonCodes.{
  ReasonCode, code_eq, invalid_risk_input, invalid_decimal, risk_input_limit_exceeded,
}

abbrev pub max_risk_decimal_chars : ℕ
max_risk_decimal_chars = 128

abbrev pub Codes : Type 0
Codes = Outcome DecimalError (List ReasonCode)

unfoldable pub is_risk_side : Value → Bool
is_risk_side v = is_str v (text "BUY") || is_str v (text "SELL")

unfoldable pub is_purpose : Value → Bool
is_purpose v =
    is_str v (text "GRID_ENTRY")
    || is_str v (text "GRID_EXIT")
    || is_str v (text "RISK_REDUCTION")
    || is_str v (text "EMERGENCY_FLATTEN")
    || is_str v (text "CANCEL")

unfoldable pub is_funding_convention : Text → Bool
is_funding_convention t = t == text "RECEIVED_POSITIVE" || t == text "PAID_POSITIVE"

-- `if (test) codes.push("INVALID_RISK_INPUT")`
abbrev pub invalid_if : Bool → List ReasonCode
invalid_if b = if b then invalid_risk_input ∷ [] else []

module _ (J : DecimalJs) where
  -- The chain of tests on a decimal field; `last` is the test on its sign.
  unfoldable pub decimal_field : (Text → Codes) → Value → Codes
  decimal_field last (str t) =
      if ltb max_risk_decimal_chars (length t)
      then ok (risk_input_limit_exceeded ∷ [])
      else if not (is_canonical_decimal_string J t)
      then ok (invalid_risk_input ∷ invalid_decimal ∷ [])
      else last t
  decimal_field last _ = ok (invalid_risk_input ∷ invalid_decimal ∷ [])

  -- The same after `!== null`.
  unfoldable pub nullable_field : (Text → Codes) → Value → Codes
  nullable_field last null = ok []
  nullable_field last v = decimal_field last v

  -- `decimalCmp(value, "0") < 0`, and `<= 0`
  unfoldable pub not_negative : Text → Codes
  not_negative t = do c ← decimal_cmp J t (text "0"); ok (invalid_if (is_lt c))

  unfoldable pub positive : Text → Codes
  positive t = do c ← decimal_cmp J t (text "0"); ok (invalid_if (is_le c))

  abbrev pub any_decimal : Text → Codes
  any_decimal t = ok []

  unfoldable pub validate_proposed_intent : RiskProposedIntent → Codes
  validate_proposed_intent i = do
    quantity ← decimal_field not_negative i.quantity
    price ← nullable_field positive i.price
    ok (
        unique (
          invalid_if (not (is_risk_side i.side))
          ++ (invalid_if (not (is_purpose i.purpose))
              ++ (invalid_if (not (is_bool i.reduce_only))
                  ++ (quantity
                      ++ (price
                          ++ invalid_if
                              (is_str i.purpose (text "CANCEL") && is_false i.reduce_only)))))))

  unfoldable pub validate_working_order : RiskWorkingOrder → Codes
  validate_working_order o = do
    price ← decimal_field positive o.price
    remaining ← decimal_field not_negative o.remaining_quantity
    ok (
        unique (
          invalid_if (not (is_risk_side o.side))
          ++ (invalid_if (not (is_bool o.reduce_only) || not (is_bool o.owned))
              ++ (price ++ remaining))))

  unfoldable pub validate_unknown_reservation : RiskUnknownReservation → Codes
  validate_unknown_reservation r = do
    price ← nullable_field any_decimal r.price
    quantity ← nullable_field any_decimal r.quantity
    ok (unique (invalid_if (not (is_risk_side r.side)) ++ (price ++ quantity)))

  -- The tests of `gridLower` and `gridUpper`, made from left to right.
  unfoldable pub grid_order : Text → Text → Codes
  grid_order lower upper = do
    l ← decimal_cmp J lower (text "0")
    (if is_le l then ok (invalid_risk_input ∷ []) else do
      u ← decimal_cmp J upper (text "0")
      (if is_le u
          then ok (invalid_risk_input ∷ [])
          else do c ← decimal_cmp J lower upper; ok (invalid_if (not (is_lt c)))))

  unfoldable pub validate_grid_domain : Option Text → Option Text → Codes
  validate_grid_domain (some lower) (some upper) =
      if ltb max_risk_decimal_chars (length lower) || ltb max_risk_decimal_chars (length upper)
      then ok (risk_input_limit_exceeded ∷ [])
      else if not (is_canonical_decimal_string J lower) || not (is_canonical_decimal_string J upper)
      then ok []
      else grid_order lower upper
  validate_grid_domain _ _ = ok []

  unfoldable pub validate_nullable_decimal : Option Text → List ReasonCode
  validate_nullable_decimal none = []
  validate_nullable_decimal (some t) =
      if ltb max_risk_decimal_chars (length t)
      then risk_input_limit_exceeded ∷ []
      else if not (is_canonical_decimal_string J t)
      then invalid_decimal ∷ []
      else []

  unfoldable pub decimal_fields : RiskInput → List ReasonCode
  decimal_fields i =
      validate_nullable_decimal i.signed_position
      ++ (validate_nullable_decimal i.mark_or_mid_price
          ++ (validate_nullable_decimal i.equity
              ++ (validate_nullable_decimal i.starting_equity
                  ++ (validate_nullable_decimal i.high_water_equity
                      ++ (validate_nullable_decimal i.realized_trading_pnl
                          ++ (validate_nullable_decimal i.fees
                              ++ (validate_nullable_decimal i.funding
                                  ++ (validate_nullable_decimal i.grid_lower
                                      ++ validate_nullable_decimal i.grid_upper))))))))

  unfoldable pub convention_codes : Option Text → List ReasonCode
  convention_codes none = []
  convention_codes (some c) = invalid_if (not (is_funding_convention c))

  -- `validateRiskInput` on an admitted input. The code tests for a limit code twice; between the two
  -- tests no limit code can be pushed, so the second is the first again.
  unfoldable pub validate_risk_input : RiskInput → Codes
  validate_risk_input i =
      let first = invalid_if i.halt_authority_clear ++ decimal_fields i in
      if includes first risk_input_limit_exceeded then ok (unique first) else do
        orders ← flat_map_m validate_working_order i.owned_active_orders
        reservations ← flat_map_m validate_unknown_reservation i.unknown_reservations
        intents ← flat_map_m validate_proposed_intent i.proposed_batch
        grid ← validate_grid_domain i.grid_lower i.grid_upper
        ok (
            unique (
              first
              ++ (convention_codes i.funding_convention
                  ++ (orders ++ (reservations ++ (intents ++ grid))))))

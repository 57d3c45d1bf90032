-- ===== src/Execution/Observations.antt =====
-- What the venue reports of orders and executions (src/domain/types.ts), and how src/execution/coordinator.ts
-- compares it with an intent. Fields that the coordinator never reads are left out.
use multi_venue_grid_engine.Base.{
  Bool, true, false, ◌&&◌, not, Option, none, some, List, [], ◌∷◌, Text, text, text_eq, option_eq,
  text_is_empty, is_gt, is_lt, is_le, Ordering, fold_m, sort, Outcome, ok, err, ◌>>=◌,
  if◌then◌else◌, ◌==◌,
}
use multi_venue_grid_engine.Math.DecimalJs.{DecimalJs}
use multi_venue_grid_engine.Math.Decimal.{DecimalError, is_canonical_decimal_string, decimal_cmp}
use multi_venue_grid_engine.Math.ExactDecimal.{exact_add, exact_sub}
use multi_venue_grid_engine.Execution.Intents.{
  RegistryError, lift, OrderIntent, RecordedExecution, is_positive_decimal,
}

pub record ExchangeOrderObservation : Type 0 where
  pub venue : Text
  pub market : Text
  pub exchange_order_id : Text
  pub client_order_id : Option Text
  pub side : Text
  pub price : Option Text
  pub original_quantity : Text
  pub executed_quantity : Text
  pub status : Text
  pub reduce_only : Option Bool

-- An observed execution, from a page, a lookup or the stream: a field that is not a string is `none`.
pub record ExecutionFacts : Type 0 where
  pub venue : Option Text
  pub market : Option Text
  pub execution_id : Option Text
  pub exchange_order_id : Option Text
  pub client_order_id : Option Text
  pub side : Option Text
  pub price : Option Text
  pub quantity : Option Text

-- The field of an execution that has passed the check of its identity.
abbrev pub known : Option Text → Text
known none = []
known (some t) = t

abbrev pub is_non_empty : Option Text → Bool
is_non_empty none = false
is_non_empty (some t) = not (text_is_empty t)

-- `isExecutionInMarket`
unfoldable pub is_execution_in_market : Text → Text → ExecutionFacts → Bool
is_execution_in_market venue market x =
    x.venue == some venue
    && x.market == some market
    && is_non_empty x.execution_id
    && is_non_empty x.exchange_order_id

unfoldable pub to_recorded : ExecutionFacts → RecordedExecution
to_recorded x = record {
  execution_id = known x.execution_id;
  exchange_order_id = known x.exchange_order_id;
  quantity = known x.quantity;
  price = known x.price;
}

abbrev pub or_null {ℓ} : {A : Type ℓ} → Outcome DecimalError A → Option A
or_null (ok a) = some a
or_null (err e) = none

abbrev pub is_eq : Ordering → Bool
is_eq c = not (is_lt c) && not (is_gt c)

module _ (J : DecimalJs) where
  unfoldable pub is_positive_field : Option Text → Outcome RegistryError Bool
  is_positive_field none = ok false
  is_positive_field (some t) = is_positive_decimal J t

  -- `sameDecimal`
  unfoldable pub same_decimal : Option Text → Text → Outcome RegistryError Bool
  same_decimal none right = ok false
  same_decimal (some left) right =
      if is_canonical_decimal_string J left
      then (lift (decimal_cmp J left right) >>= λ c. ok (is_eq c))
      else ok false

  -- `executionMatchesIntent`
  unfoldable pub execution_matches_intent :
      ExecutionFacts → OrderIntent → Text → Text → Outcome RegistryError Bool
  execution_matches_intent x i venue market =
      if not (
        is_execution_in_market venue market x
        && x.client_order_id == i.client_order_id
        && x.side == some i.side)
      then ok false
      else do
        sized ← is_positive_field x.quantity
        (if not sized then ok false else is_positive_field x.price)

  -- The price of the order, which is not part of a market order's identity.
  unfoldable pub same_price : Option Text → Option Text → Outcome RegistryError Bool
  same_price observed none = ok true
  same_price observed (some price) = same_decimal observed price

  -- `isCanonicalDecimalString(quantity) && decimalCmp(quantity, "0") >= 0`
  unfoldable pub is_not_negative : Text → Outcome RegistryError Bool
  is_not_negative quantity =
      if is_canonical_decimal_string J quantity
      then (lift (decimal_cmp J quantity (text "0")) >>= λ c. ok (not (is_lt c)))
      else ok false

  abbrev pub same_reduce_only : Option Bool → Bool → Bool
  same_reduce_only none expected = true
  same_reduce_only (some true) expected = expected
  same_reduce_only (some false) expected = not expected

  -- `orderMatchesIntent`
  unfoldable pub order_matches_intent :
      ExchangeOrderObservation → OrderIntent → Text → Text → Outcome RegistryError Bool
  order_matches_intent o i venue market =
      if not (
        o.venue == venue
        && o.market == market
        && not (text_is_empty o.exchange_order_id)
        && o.client_order_id == i.client_order_id
        && o.side == i.side)
      then ok false
      else do
        priced ← same_price o.price i.price
        (if not priced then ok false else do
          sized ← same_decimal (some o.original_quantity) i.quantity
          (if not sized then ok false else do
            executed ← is_not_negative o.executed_quantity
            ok (executed && same_reduce_only o.reduce_only i.reduce_only)))

  -- `sameExecution`
  unfoldable pub same_facts : RecordedExecution → RecordedExecution → Outcome RegistryError Bool
  same_facts x y = if not (x.exchange_order_id == y.exchange_order_id) then ok false else do
    c ← lift (decimal_cmp J x.quantity y.quantity)
    (if not (is_eq c) then ok false else do d ← lift (decimal_cmp J x.price y.price); ok (is_eq d))

  -- `sumQuantities`, with `null` where the exact total is not computed
  unfoldable pub sum_quantities : Text → List RecordedExecution → Option Text
  sum_quantities start executions =
      or_null (fold_m (λ sum x. exact_add J sum x.quantity) start executions)

  -- `differenceOrNull`
  unfoldable pub difference_or_null : Text → Text → Option Text
  difference_or_null left right = or_null (exact_sub J left right)

  -- `remainingQuantity`
  unfoldable pub remaining_quantity : Text → Text → Text
  remaining_quantity quantity executed = elim (difference_or_null quantity executed) [
    | none ↦ quantity
    | some left ↦ left
  ]

  -- The order of the sort; the quantities are canonical, so that their comparison does not throw.
  unfoldable pub is_at_least : RecordedExecution → RecordedExecution → Bool
  is_at_least x y = elim (decimal_cmp J y.quantity x.quantity) [ ok c ↦ is_le c | err e ↦ false ]

  -- The loop of `exceedsLimit` over the largest quantities first.
  unfoldable pub exceeds_room : Text → Bool → List RecordedExecution → Outcome RegistryError Bool
  exceeds_room room skipped [] =
      if skipped then (lift (decimal_cmp J room (text "0")) >>= λ c. ok (is_eq c)) else ok false
  exceeds_room room skipped (x ∷ xs) = lift (decimal_cmp J x.quantity room) >>= λ c.
      (elim (is_gt c) [
        | true ↦ ok true
        | false ↦ elim (difference_or_null room x.quantity) [
          | none ↦ exceeds_room room true xs
          | some next ↦ exceeds_room next skipped xs
        ]
      ])

  -- `exceedsLimit`
  unfoldable pub exceeds_limit : Text → List RecordedExecution → Text → Outcome RegistryError Bool
  exceeds_limit start executions limit = elim (sum_quantities start executions) [
    | some total ↦ lift (decimal_cmp J total limit) >>= λ c. ok (is_gt c)
    | none ↦ elim (difference_or_null limit start) [
      | none ↦ ok false
      | some room ↦ exceeds_room room false (sort is_at_least executions)
    ]
  ]

-- ===== src/Execution/Executions.antt =====
-- src/execution/intent-registry.ts: the executions of one order, in order and summed.
use multi_venue_grid_engine.Base.{
  Bool, true, false, ◌&&◌, ◌||◌, not, Option, none, some, List, [], ◌∷◌, Text, text, text_eq,
  text_leb, text_is_empty, is_gt, is_lt, Ordering, fold_m, sort, Outcome, ok, err, ◌>>=◌, guard,
  if◌then◌else◌, ◌==◌,
}
use multi_venue_grid_engine.Math.DecimalJs.{DecimalJs}
use multi_venue_grid_engine.Math.Decimal.{decimal_cmp}
use multi_venue_grid_engine.Math.ExactDecimal.{exact_add}
use multi_venue_grid_engine.Execution.IntentStatus.{IntentStatus, filled, is_partial_quantity}
use multi_venue_grid_engine.Execution.Intents.{
  RegistryError, invalid_execution, duplicate_execution_id, execution_quantity_unbounded, lift,
  RecordedExecution, is_positive_decimal,
}

abbrev pub by_id : RecordedExecution → RecordedExecution → Bool
by_id x y = text_leb x.execution_id y.execution_id

module _ (J : DecimalJs) where
  unfoldable pub is_valid_execution : Text → RecordedExecution → Outcome RegistryError Bool
  is_valid_execution exchange_order_id x =
      if text_is_empty x.execution_id || not (x.exchange_order_id == exchange_order_id)
      then ok false
      else do
        sized ← is_positive_decimal J x.quantity
        (if not sized then ok false else is_positive_decimal J x.price)

  -- The loop over the sorted executions; the first argument is the ID before this one.
  unfoldable pub check_executions :
      Text → Option Text → List RecordedExecution → Outcome RegistryError (Unit {0})
  check_executions exchange_order_id before [] = ok tt
  check_executions exchange_order_id before (x ∷ xs) = do
    valid ← is_valid_execution exchange_order_id x
    _ ← guard valid invalid_execution
    _ ←
        guard (elim before [ none ↦ true | some y ↦ not (y == x.execution_id) ])
          duplicate_execution_id
    check_executions exchange_order_id (some x.execution_id) xs

  unfoldable pub normalize_executions :
      List RecordedExecution → Text → Outcome RegistryError (List RecordedExecution)
  normalize_executions executions exchange_order_id = do
    _ ← check_executions exchange_order_id none (sort by_id executions)
    ok (sort by_id executions)

  unfoldable pub sum_executions : List RecordedExecution → Outcome RegistryError Text
  sum_executions executions =
      elim (fold_m (λ sum x. exact_add J sum x.quantity) (text "0") executions) [
        | ok total ↦ ok total
        | err e ↦ err execution_quantity_unbounded
      ]

  abbrev pub suits : IntentStatus → Ordering → Bool
  suits filled c = not (is_lt c) && not (is_gt c)
  suits status c = if is_partial_quantity status then is_lt c else not (is_gt c)

  unfoldable pub quantity_matches_status : IntentStatus → Text → Text → Outcome RegistryError Bool
  quantity_matches_status status executed quantity = do
    c ← lift (decimal_cmp J executed quantity)
    ok (suits status c)

-- ===== src/Risk/PlannedExposure/Bounded.antt =====
-- The pre-send gate of exposure.ts against the sums that it bounds.
use multi_venue_grid_engine.Base.{
  ◌≡◌, subst, false, ◌&&◌, not, List, [], ◌∷◌, ◌++◌, fold_m, ok, >>=-eq-ok, Bool-cases, arith, All,
  inl, inr,
}
use multi_venue_grid_engine.Math.DecimalJs.{DecimalJs}
use multi_venue_grid_engine.Risk.Types.{
  is_true, RiskWorkingOrder, RiskUnknownReservation, RiskProposedIntent,
}
use multi_venue_grid_engine.Risk.Validation.{
  validate_working_order, validate_unknown_reservation, validate_proposed_intent,
}
use multi_venue_grid_engine.Risk.Exposure.{
  ExposureArgs, Totals, add_notional, if_valid, add_order, add_reservation, add_intent, add_all,
}
use multi_venue_grid_engine.Risk.PlannedExposure.{validate_batch_intent}
use multi_venue_grid_engine.Risk.PlannedExposure.Directed.{
  exposed_orders, exposed_reservations, exposed_intents, exposed, Grows, Grows-refl, Grows-append,
  add_notional-Grows, order_side, reservation_side, intent_side,
}

exposed_orders-cons :
    (o : RiskWorkingOrder) (os : List RiskWorkingOrder)
    → exposed_orders (o ∷ os) ≡ exposed_orders (o ∷ []) ++ exposed_orders os
unfolding exposed_orders
exposed_orders-cons o os = ground arith

exposed_intents-cons :
    (i : RiskProposedIntent) (is : List RiskProposedIntent)
    → exposed_intents (i ∷ is) ≡ exposed_intents (i ∷ []) ++ exposed_intents is
unfolding exposed_intents
exposed_intents-cons i is = ground arith

module _ (J : DecimalJs) where
  add_order-Grows :
      (t t' : Totals) (o : RiskWorkingOrder)
      → validate_working_order J o ≡ ok []
      → add_order J t o ≡ ok t'
      → t'.unbounded ≡ false
      → Grows J t t' (exposed_orders (o ∷ []))
  unfolding add_order if_valid exposed_orders
  add_order-Grows t t' o valid h bounded =
      elim (Bool-cases (is_true o.owned && not (is_true o.reduce_only))) [
        | inl counts ↦
            let run : add_notional J t o.side o.remaining_quantity o.price ≡ ok t' = ground arith in
            rw counts (
              add_notional-Grows J t t' o.side o.remaining_quantity o.price (order_side J o valid)
                run bounded)
        | inr skipped ↦
            let same : t ≡ t' = ground arith in
            rw skipped (subst (λ u. Grows J t u []) same (Grows-refl J t (ground arith)))
      ]

  add_reservation-Grows :
      (t t' : Totals) (r : RiskUnknownReservation)
      → validate_unknown_reservation J r ≡ ok []
      → add_reservation J t r ≡ ok t'
      → t'.unbounded ≡ false
      → Grows J t t' (exposed_reservations (r ∷ []))
  unfolding add_reservation if_valid exposed_reservations
  add_reservation-Grows t t' r valid h bounded =
      let run : add_notional J t r.side r.quantity r.price ≡ ok t' = ground arith in
      add_notional-Grows J t t' r.side r.quantity r.price (reservation_side J r valid) run bounded

  add_intent-Grows :
      (t t' : Totals) (i : RiskProposedIntent)
      → validate_batch_intent J i ≡ ok []
      → add_intent J t i ≡ ok t'
      → t'.unbounded ≡ false
      → Grows J t t' (exposed_intents (i ∷ []))
  unfolding add_intent if_valid exposed_intents validate_batch_intent
  add_intent-Grows t t' i valid h bounded =
      let sound : validate_proposed_intent J i ≡ ok [] = ground arith in
      elim (Bool-cases (is_true i.reduce_only)) [
        | inr counts ↦
            let run : add_notional J t i.side i.quantity i.price ≡ ok t' = ground arith in
            rw counts (
              add_notional-Grows J t t' i.side i.quantity i.price (intent_side J i sound) run
                bounded)
        | inl skipped ↦
            let same : t ≡ t' = ground arith in
            rw skipped (subst (λ u. Grows J t u []) same (Grows-refl J t (ground arith)))
      ]

  orders-Grows :
      (t t' : Totals) (os : List RiskWorkingOrder)
      → All (λ o. validate_working_order J o ≡ ok []) os
      → fold_m (add_order J) t os ≡ ok t'
      → t'.unbounded ≡ false
      → Grows J t t' (exposed_orders os)
  unfolding fold_m
  orders-Grows t t' [] valid h bounded =
      unfold exposed_orders in
      (let same : t ≡ t' = ground arith in
        subst (λ u. Grows J t u []) same (Grows-refl J t (ground arith)))
  orders-Grows t t' (o ∷ os) valid h bounded =
      let (t1, first, rest) = >>=-eq-ok (add_order J t o) _ h in
      let later = orders-Grows t1 t' os valid.1 rest bounded in
      rw (exposed_orders-cons o os)
        (Grows-append J (add_order-Grows t t1 o valid.0 first later.was_bounded) later)

  reservations-Grows :
      (t t' : Totals) (rs : List RiskUnknownReservation)
      → All (λ r. validate_unknown_reservation J r ≡ ok []) rs
      → fold_m (add_reservation J) t rs ≡ ok t'
      → t'.unbounded ≡ false
      → Grows J t t' (exposed_reservations rs)
  unfolding fold_m exposed_reservations
  reservations-Grows t t' [] valid h bounded =
      let same : t ≡ t' = ground arith in
      subst (λ u. Grows J t u []) same (Grows-refl J t (ground arith))
  reservations-Grows t t' (r ∷ rs) valid h bounded =
      let (t1, first, rest) = >>=-eq-ok (add_reservation J t r) _ h in
      let later = reservations-Grows t1 t' rs valid.1 rest bounded in
      Grows-append J (add_reservation-Grows t t1 r valid.0 first later.was_bounded) later

  intents-Grows :
      (t t' : Totals) (is : List RiskProposedIntent)
      → All (λ i. validate_batch_intent J i ≡ ok []) is
      → fold_m (add_intent J) t is ≡ ok t'
      → t'.unbounded ≡ false
      → Grows J t t' (exposed_intents is)
  unfolding fold_m
  intents-Grows t t' [] valid h bounded =
      unfold exposed_intents in
      (let same : t ≡ t' = ground arith in
        subst (λ u. Grows J t u []) same (Grows-refl J t (ground arith)))
  intents-Grows t t' (i ∷ is) valid h bounded =
      let (t1, first, rest) = >>=-eq-ok (add_intent J t i) _ h in
      let later = intents-Grows t1 t' is valid.1 rest bounded in
      rw (exposed_intents-cons i is)
        (Grows-append J (add_intent-Grows t t1 i valid.0 first later.was_bounded) later)

  -- No entry of the three lists fails its validation.
  pub record IsValidated (args : ExposureArgs) : Type 0 where
    pub orders : All (λ o. validate_working_order J o ≡ ok []) args.owned_active_orders
    pub reservations : All (λ r. validate_unknown_reservation J r ≡ ok []) args.unknown_reservations
    pub intents : All (λ i. validate_batch_intent J i ≡ ok []) args.proposed_batch

  pub add_all-Grows :
      (args : ExposureArgs) (t t' : Totals)
      → IsValidated args
      → add_all J args t ≡ ok t'
      → t'.unbounded ≡ false
      → Grows J t t' (exposed args)
  unfolding add_all exposed
  add_all-Grows args t t' v h bounded =
      let (t1, h1, rest) = >>=-eq-ok (fold_m (add_order J) t args.owned_active_orders) _ h in
      let (t2, h2, h3) =
        >>=-eq-ok (fold_m (add_reservation J) t1 args.unknown_reservations) _ rest in
      let g3 = intents-Grows t2 t' args.proposed_batch v.intents h3 bounded in
      let g2 =
        reservations-Grows t1 t2 args.unknown_reservations v.reservations h2 g3.was_bounded in
      let g1 = orders-Grows t t1 args.owned_active_orders v.orders h1 g2.was_bounded in
      Grows-append J g1 (Grows-append J g2 g3)

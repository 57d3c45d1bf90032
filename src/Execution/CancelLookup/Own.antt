-- ===== src/Execution/CancelLookup/Own.antt =====
-- When an observed order and its executions are the record's own (orderMatchesIntent and the checks of
-- evaluateCancelLookup in src/execution/coordinator.ts).
use multi_venue_grid_engine.Base.{
  ◌≡◌, ◌⊎◌, refl, ap, ◌∙◌, arith, inl, inr, Bool, true, false, ◌&&◌, ◌||◌, not, Bool-cases, Option,
  none, some, List, [], ◌∷◌, any, All, Text, text_eq, option_eq, Outcome, ok, >>=-eq-ok,
  ok_injective, ◌==◌, if◌then◌else◌,
}
use multi_venue_grid_engine.Math.DecimalJs.{DecimalJs}
use multi_venue_grid_engine.Execution.Intents.{RegistryError, IntentRecord}
use multi_venue_grid_engine.Execution.RegistryState.{RegistryState}
use multi_venue_grid_engine.Execution.Observations.{
  ExchangeOrderObservation, ExecutionFacts, same_decimal, same_price, is_not_negative,
  same_reduce_only, order_matches_intent,
}
use multi_venue_grid_engine.Execution.Screening.{LookupDecision, has_entries}
use multi_venue_grid_engine.Execution.CancelLookup.{
  changed_executions, is_foreign_execution, cancel_contradiction, order_differs,
}

not_both : false ≡ true → ⊥
not_both h = cc

all_five :
    (a b c d e : Bool)
    → (a && b && c && d && e) ≡ true
    → (a ≡ true) × (b ≡ true) × (d ≡ true) × (e ≡ true)
all_five a b c d e h = (ground arith, ground arith, ground arith, ground arith)

second_true : (a b : Bool) → (a && b) ≡ true → b ≡ true
second_true a b h = ground arith

found_none : {d : LookupDecision} → some d ≡ none → ⊥
found_none h = cc

beq_same : (a b : Option Text) → (a == b) ≡ true → a ≡ b
beq_same a b = ((option_eq {A = Text}).beq_iff a b).0

module _ (J : DecimalJs) where
  -- The order is the record's, in each field by which the venue could mean another one.
  pub record IsOwnOrder (r : IntentRecord) (venue market : Text) (o : ExchangeOrderObservation)
      : Type 0 where
    pub same_venue : o.venue ≡ venue
    pub same_market : o.market ≡ market
    pub same_client_order_id : o.client_order_id ≡ r.intent.client_order_id
    pub same_exchange_order_id : some o.exchange_order_id ≡ r.exchange_order_id
    pub same_side : o.side ≡ r.intent.side
    pub price_fits : same_price J o.price r.intent.price ≡ ok true
    pub quantity_fits : same_decimal J (some o.original_quantity) r.intent.quantity ≡ ok true
    pub flag_fits : same_reduce_only J o.reduce_only r.intent.reduce_only ≡ true

  -- Either no order was observed, or the record's own.
  abbrev pub OwnOrNone : IntentRecord → Text → Text → Option ExchangeOrderObservation → Type 0
  OwnOrNone r venue market order =
      (order ≡ none)
      ⊎ ((o : ExchangeOrderObservation) × (order ≡ some o) × IsOwnOrder r venue market o)

  -- A decision behind a test that failed is `false`.
  behind :
      {b : Bool} {rest : Outcome RegistryError Bool}
      → (if not b then ok false else rest) ≡ ok true
      → (b ≡ true) × (rest ≡ ok true)
  behind {b} h = elim (Bool-cases b) [
    | inl yes_it_is ↦ (yes_it_is, rw yes_it_is at h)
    | inr no_it_is ↦ absurd (not_both (ok_injective (rw no_it_is at h)))
  ]

  matches-IsOwnOrder :
      (r : IntentRecord) (venue market : Text) (o : ExchangeOrderObservation)
      → order_matches_intent J o r.intent venue market ≡ ok true
      → (some o.exchange_order_id == r.exchange_order_id) ≡ true
      → IsOwnOrder r venue market o
  unfolding order_matches_intent
  matches-IsOwnOrder r venue market o h same =
      let (fields, h1) = behind h in
      let (venues, markets, clients, sides) = all_five _ _ _ _ _ fields in
      let (priced, e1, h2) = >>=-eq-ok (same_price J o.price r.intent.price) _ h1 in
      let (is_priced, h3) = behind h2 in
      let (sized, e2, h4) =
        >>=-eq-ok (same_decimal J (some o.original_quantity) r.intent.quantity) _ h3 in
      let (is_sized, h5) = behind h4 in
      let (executed, _, h6) = >>=-eq-ok (is_not_negative J o.executed_quantity) _ h5 in
      record {
        same_venue = (text_eq.beq_iff o.venue venue).0 venues;
        same_market = (text_eq.beq_iff o.market market).0 markets;
        same_client_order_id = beq_same o.client_order_id r.intent.client_order_id clients;
        same_exchange_order_id = beq_same (some o.exchange_order_id) r.exchange_order_id same;
        same_side = (text_eq.beq_iff o.side r.intent.side).0 sides;
        price_fits = e1 ∙ ap ok is_priced;
        quantity_fits = e2 ∙ ap ok is_sized;
        flag_fits = second_true executed _ (ok_injective h6);
      }

  pub order_differs-OwnOrNone :
      (r : IntentRecord) (venue market : Text) (order : Option ExchangeOrderObservation)
      → order_differs J r venue market order ≡ ok false
      → OwnOrNone r venue market order
  unfolding order_differs
  order_differs-OwnOrNone r venue market none h = inl refl
  order_differs-OwnOrNone r venue market (some o) h =
      let (matches, e, h1) = >>=-eq-ok (order_matches_intent J o r.intent venue market) _ h in
      let same : (not matches || not (some o.exchange_order_id == r.exchange_order_id)) ≡ false =
        ok_injective h1 in
      let found : matches ≡ true = ground arith in
      inr (o, refl, matches-IsOwnOrder r venue market o (e ∙ ap ok found) (ground arith))

  any-All :
      (r : IntentRecord) (xs : List ExecutionFacts)
      → any (λ x. not (x.exchange_order_id == r.exchange_order_id)) xs ≡ false
      → All (λ x. x.exchange_order_id ≡ r.exchange_order_id) xs
  any-All r [] h = tt
  any-All r (x ∷ xs) h =
      (beq_same x.exchange_order_id r.exchange_order_id (ground arith), any-All r xs (ground arith))

  -- The executions are of the record's order, and not recorded for another intent.
  pub record AreOwn (r : IntentRecord) (s : RegistryState) (xs : List ExecutionFacts) : Type 0 where
    pub of_order : All (λ x. x.exchange_order_id ≡ r.exchange_order_id) xs
    pub none_foreign : any (is_foreign_execution J s r.intent.intent_id) xs ≡ false
    pub none_changed :
        (c : List ExecutionFacts) × (changed_executions J r.executions xs ≡ ok c)
        × (has_entries c ≡ false)

  pub cancel_contradiction-AreOwn :
      (r : IntentRecord) (s : RegistryState) (xs : List ExecutionFacts)
      → cancel_contradiction J r s xs ≡ ok none
      → AreOwn r s xs
  unfolding cancel_contradiction
  cancel_contradiction-AreOwn r s xs h =
      elim (Bool-cases (any (λ x. not (x.exchange_order_id == r.exchange_order_id)) xs)) [
        | inl off ↦ absurd (found_none (ok_injective (rw (off, cancel_contradiction) at h)))
        | inr on ↦
            let (changed, e1, h1) =
              >>=-eq-ok (changed_executions J r.executions xs) _
                (rw (on, cancel_contradiction) at h) in
            elim (Bool-cases (has_entries changed)) [
              | inl conflict ↦ absurd (found_none (ok_injective (rw conflict at h1)))
              | inr agree ↦
                  elim (Bool-cases (any (is_foreign_execution J s r.intent.intent_id) xs)) [
                    | inl foreign ↦ absurd (found_none (ok_injective (rw (agree, foreign) at h1)))
                    | inr own ↦ record {
                      of_order = any-All r xs on;
                      none_foreign = own;
                      none_changed = (changed, e1, agree);
                    }
                  ]
            ]
      ]

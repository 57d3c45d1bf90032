-- ===== src/Risk/PlannedExposure/Directed.antt =====
-- The pre-send gate of exposure.ts against the sum that it stands for.
use multi_venue_grid_engine.Base.{
  unique, includes-unique, beq_refl, ◌≡◌, refl, ◌∙◌, Bool, true, false, ◌&&◌, not, Option, none,
  some, List, [], ◌∷◌, ◌++◌, Text, text, text_beq, text_eq, text_beq_iff, fold_m, fold_m-append,
  Outcome, ok, err, ◌>>=◌, >>=-eq-ok, Bool-cases, if◌then◌else◌, arith, inl, inr,
}
use multi_venue_grid_engine.Math.DecimalJs.{DecimalJs}
use multi_venue_grid_engine.Math.Decimal.{DecimalError, empty_decimal}
use multi_venue_grid_engine.Math.ExactDecimal.{exact_add, exact_mul}
use multi_venue_grid_engine.Risk.Types.{
  Value, null, other, bool, str, is_true, is_str, RiskWorkingOrder, RiskUnknownReservation,
  RiskProposedIntent,
}
use multi_venue_grid_engine.Risk.Validation.{
  Codes, is_risk_side, decimal_field, nullable_field, any_decimal, not_negative, positive,
  invalid_if, validate_working_order, validate_unknown_reservation, validate_proposed_intent,
}
use multi_venue_grid_engine.Risk.ReasonCodes.{ReasonCode, code_eq, invalid_risk_input}
use multi_venue_grid_engine.Risk.Exposure.{
  ExposureArgs, Totals, parse_notional, add_directed, add_parsed, add_notional,
}

-- One order that may still increase the position: its side, quantity and price.
pub record Exposed : Type 0 where
  pub side : Value
  pub quantity : Value
  pub price : Value

-- The orders of the engine that are working and do not only reduce.
unfoldable pub exposed_orders : List RiskWorkingOrder → List Exposed
exposed_orders [] = []
exposed_orders (o ∷ os) =
    if is_true o.owned && not (is_true o.reduce_only)
    then record { side = o.side; quantity = o.remaining_quantity; price = o.price }
      ∷ exposed_orders os
    else exposed_orders os

-- Every submission that may have reached the venue.
unfoldable pub exposed_reservations : List RiskUnknownReservation → List Exposed
exposed_reservations [] = []
exposed_reservations (r ∷ rs) =
    record { side = r.side; quantity = r.quantity; price = r.price } ∷ exposed_reservations rs

-- The proposed intents that do not only reduce.
unfoldable pub exposed_intents : List RiskProposedIntent → List Exposed
exposed_intents [] = []
exposed_intents (i ∷ is) =
    if is_true i.reduce_only
    then exposed_intents is
    else record { side = i.side; quantity = i.quantity; price = i.price } ∷ exposed_intents is

unfoldable pub exposed : ExposureArgs → List Exposed
unfolding exposed_orders exposed_reservations exposed_intents
exposed args =
    exposed_orders args.owned_active_orders
    ++ (exposed_reservations args.unknown_reservations ++ exposed_intents args.proposed_batch)

module _ (J : DecimalJs) where
  -- Quantity times price, of an entry that has both.
  unfoldable pub notional_of : Value → Value → Outcome DecimalError Text
  notional_of (str quantity) (str price) = exact_mul J quantity price
  notional_of _ _ = err empty_decimal

  unfoldable pub add_if_side : Text → Text → Exposed → Outcome DecimalError Text
  add_if_side direction total x =
      if is_str x.side direction
      then (notional_of x.quantity x.price >>= λ n. exact_add J total n)
      else ok total

  -- The exact sum of `base` and of the notionals of one direction.
  unfoldable pub directed_total : Text → Text → List Exposed → Outcome DecimalError Text
  directed_total direction = fold_m (add_if_side direction)

  -- The totals `t` grow to `t'` by the entries `xs`, and stay bounded.
  pub record Grows (t t' : Totals) (xs : List Exposed) : Type 0 where
    pub was_bounded : t.unbounded ≡ false
    pub buys : directed_total (text "BUY") t.long xs ≡ ok t'.long
    pub sells : directed_total (text "SELL") t.short xs ≡ ok t'.short

  side_exclusive : (v : Value) → is_str v (text "BUY") ≡ true → is_str v (text "SELL") ≡ false
  unfolding text_beq
  side_exclusive (str s) h = rw ((text_beq_iff s (text "BUY")).0 h) refl
  side_exclusive null h = cc
  side_exclusive other h = cc
  side_exclusive (bool b) h = cc

  side_cases :
      (v : Value)
      → is_risk_side v ≡ true
      → is_str v (text "BUY") ≡ false
      → is_str v (text "SELL") ≡ true
  unfolding is_risk_side
  side_cases v h k = ground arith

  add_if_side_hit :
      (d total q p n : Text) (side : Value)
      → is_str side d ≡ true
      → exact_mul J q p ≡ ok n
      → add_if_side d total (record { side = side; quantity = str q; price = str p })
        ≡ exact_add J total n
  unfolding add_if_side notional_of
  add_if_side_hit d total q p n side h e = rw (h, e, ◌>>=◌) refl

  add_if_side_miss :
      (d total : Text) (x : Exposed) → is_str x.side d ≡ false → add_if_side d total x ≡ ok total
  unfolding add_if_side
  add_if_side_miss d total x h = rw h refl

  directed_one :
      (d total : Text) (x : Exposed) {r : Text}
      → add_if_side d total x ≡ ok r
      → directed_total d total (x ∷ []) ≡ ok r
  unfolding directed_total fold_m
  directed_one d total x h = rw (h, ◌>>=◌) refl

  add_directed-Grows :
      (t t' : Totals) (side : Value) (q p n : Text)
      → is_risk_side side ≡ true
      → exact_mul J q p ≡ ok n
      → add_directed J t side n ≡ ok t'
      → t'.unbounded ≡ false
      → Grows t t' (record { side = side; quantity = str q; price = str p } ∷ [])
  unfolding add_directed
  add_directed-Grows t t' side q p n risky priced added bounded =
      let x : Exposed = record { side = side; quantity = str q; price = str p } in
      elim (Bool-cases (is_str side (text "BUY"))) [
        | inl buy ↦
            let run : (exact_add J t.long n >>= λ l. ok (record t { long = l })) ≡ ok t' =
              ground arith in
            let (l, e, r) = >>=-eq-ok (exact_add J t.long n) _ run in
            record {
              was_bounded = ground arith;
              buys =
                  directed_one (text "BUY") t.long x
                    (add_if_side_hit (text "BUY") t.long q p n side buy priced ∙ e ∙ ground arith);
              sells = directed_one (text "SELL") t.short x (
                  add_if_side_miss (text "SELL") t.short x (side_exclusive side buy)
                  ∙ ground arith);
            }
        | inr not_buy ↦
            let run : (exact_add J t.short n >>= λ s. ok (record t { short = s })) ≡ ok t' =
              ground arith in
            let (l, e, r) = >>=-eq-ok (exact_add J t.short n) _ run in
            record {
              was_bounded = ground arith;
              buys =
                  directed_one (text "BUY") t.long x
                    (add_if_side_miss (text "BUY") t.long x not_buy ∙ ground arith);
              sells = directed_one (text "SELL") t.short x (
                  add_if_side_hit (text "SELL") t.short q p n side (side_cases side risky not_buy)
                    priced
                  ∙ e
                  ∙ ground arith);
            }
      ]

  parse_notional-mul :
      (q p n : Text) → parse_notional J (str q) (str p) ≡ ok (some n) → exact_mul J q p ≡ ok n
  unfolding parse_notional
  parse_notional-mul q p n h = ground arith

  add_parsed-Grows :
      (t t' : Totals) (side : Value) (q p : Text) (parsed : Option Text)
      → parse_notional J (str q) (str p) ≡ ok parsed
      → add_parsed J t side parsed ≡ ok t'
      → is_risk_side side ≡ true
      → t'.unbounded ≡ false
      → Grows t t' (record { side = side; quantity = str q; price = str p } ∷ [])
  unfolding add_parsed
  add_parsed-Grows t t' side q p none e h risky bounded = absurd (ground arith)
  add_parsed-Grows t t' side q p (some n) e h risky bounded =
      let added : add_directed J t side n ≡ ok t' = ground arith in
      add_directed-Grows t t' side q p n risky (parse_notional-mul q p n e) added bounded

  pub Grows-refl : (t : Totals) → t.unbounded ≡ false → Grows t t []
  unfolding directed_total fold_m
  Grows-refl t h = record { was_bounded = h; buys = refl; sells = refl }

  directed-append :
      (d total : Text) (xs ys : List Exposed) {middle end : Text}
      → directed_total d total xs ≡ ok middle
      → directed_total d middle ys ≡ ok end
      → directed_total d total (xs ++ ys) ≡ ok end
  unfolding directed_total
  directed-append d total xs ys h k = fold_m-append (add_if_side d) total xs ys ∙ rw (h, ◌>>=◌) k

  pub Grows-append :
      {t t1 t2 : Totals} {xs ys : List Exposed}
      → Grows t t1 xs
      → Grows t1 t2 ys
      → Grows t t2 (xs ++ ys)
  Grows-append {t} {t1} {t2} {xs} {ys} g h = record {
    was_bounded = g.was_bounded;
    buys = directed-append (text "BUY") t.long xs ys g.buys h.buys;
    sells = directed-append (text "SELL") t.short xs ys g.sells h.sells;
  }

  pub add_notional-Grows :
      (t t' : Totals) (side quantity price : Value)
      → is_risk_side side ≡ true
      → add_notional J t side quantity price ≡ ok t'
      → t'.unbounded ≡ false
      → Grows t t' (record { side = side; quantity = quantity; price = price } ∷ [])
  unfolding add_notional parse_notional add_parsed
  add_notional-Grows t t' side (str q) (str p) risky h bounded =
      let (parsed, e, k) = >>=-eq-ok (parse_notional J (str q) (str p)) _ h in
      add_parsed-Grows t t' side q p parsed e k risky bounded
  add_notional-Grows t t' side null p risky h bounded = absurd (ground arith)
  add_notional-Grows t t' side other p risky h bounded = absurd (ground arith)
  add_notional-Grows t t' side (bool b) p risky h bounded = absurd (ground arith)
  add_notional-Grows t t' side (str q) null risky h bounded = absurd (ground arith)
  add_notional-Grows t t' side (str q) other risky h bounded = absurd (ground arith)
  add_notional-Grows t t' side (str q) (bool b) risky h bounded = absurd (ground arith)

  -- What a validation that finds nothing says of the side.
  invalid_if-nil :
      (b : Bool) (rest : List ReasonCode)
      → ◌≡◌ {A = Codes} (ok (unique (invalid_if (not b) ++ rest))) (ok [])
      → b ≡ true
  invalid_if-nil true rest h = refl
  invalid_if-nil false rest h = ground (
    arith,
    includes-unique (invalid_risk_input ∷ rest) invalid_risk_input,
    beq_refl invalid_risk_input,
  )

  pub order_side :
      (o : RiskWorkingOrder) → validate_working_order J o ≡ ok [] → is_risk_side o.side ≡ true
  unfolding validate_working_order
  order_side o h =
      let (price, _, h1) = >>=-eq-ok (decimal_field J (positive J) o.price) _ h in
      let (remaining, _, h2) =
        >>=-eq-ok (decimal_field J (not_negative J) o.remaining_quantity) _ h1 in
      invalid_if-nil (is_risk_side o.side) _ h2

  pub reservation_side :
      (r : RiskUnknownReservation)
      → validate_unknown_reservation J r ≡ ok []
      → is_risk_side r.side ≡ true
  unfolding validate_unknown_reservation
  reservation_side r h =
      let (price, _, h1) = >>=-eq-ok (nullable_field J (any_decimal J) r.price) _ h in
      let (quantity, _, h2) = >>=-eq-ok (nullable_field J (any_decimal J) r.quantity) _ h1 in
      invalid_if-nil (is_risk_side r.side) _ h2

  pub intent_side :
      (i : RiskProposedIntent) → validate_proposed_intent J i ≡ ok [] → is_risk_side i.side ≡ true
  unfolding validate_proposed_intent
  intent_side i h =
      let (quantity, _, h1) = >>=-eq-ok (decimal_field J (not_negative J) i.quantity) _ h in
      let (price, _, h2) = >>=-eq-ok (nullable_field J (positive J) i.price) _ h1 in
      invalid_if-nil (is_risk_side i.side) _ h2

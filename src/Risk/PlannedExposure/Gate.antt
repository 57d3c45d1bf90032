-- ===== src/Risk/PlannedExposure/Gate.antt =====
-- What plannedExposureDecision of exposure.ts promises when it allows a batch.
use multi_venue_grid_engine.Base.{
  is_lt, is_le, is_gt, ◌≡◌, refl, ap, ◌∙◌, subst, Bool, true, false, ◌&&◌, Option, none, some, List,
  [], ◌∷◌, ◌++◌, Ordering, Text, text, flat_map_m, flat_map_m-nil, append-nil_inv, ok_injective,
  Outcome, ok, err, ◌>>=◌, >>=-eq-ok, Outcome-cases, Bool-cases, if◌then◌else◌, arith, inl, inr,
}
use multi_venue_grid_engine.Math.DecimalJs.{DecimalJs}
use multi_venue_grid_engine.Math.Decimal.{DecimalError, decimal_cmp, decimal_abs}
use multi_venue_grid_engine.Math.Order.{IsNumericOrder, AtMost, AtMost-trans, AtMost-converse}
use multi_venue_grid_engine.Math.ExactDecimal.{exact_mul}
use multi_venue_grid_engine.Risk.Types.{frozen_planned_gross_notional_usdt}
use multi_venue_grid_engine.Risk.ReasonCodes.{ReasonCode, planned_notional, stale_or_missing_input}
use multi_venue_grid_engine.Risk.Validation.{validate_working_order, validate_unknown_reservation}
use multi_venue_grid_engine.Risk.Exposure.{
  ExposureComputation, ExposureArgs, Totals, is_none, empty_exposure, add_all,
  long_position_notional, short_position_notional, bounded_exposure, priced_exposure,
  finish_exposure, exposure_of, compute_exposure,
}
use multi_venue_grid_engine.Risk.PlannedExposure.{
  PlannedExposureDecision, is_nil, planned_exposure_decision, validate_batch_intent,
  invalid_entries, over_cap, not_within_cap, decide_on, decide_computed, decide_valid,
}
use multi_venue_grid_engine.Risk.PlannedExposure.Directed.{exposed, directed_total}
use multi_venue_grid_engine.Risk.PlannedExposure.Bounded.{IsValidated, add_all-Grows}

no_codes :
    (missing over : Bool) (codes : List ReasonCode)
    → is_nil (
        if missing && is_nil (codes ++ (if over then planned_notional ∷ [] else []))
        then stale_or_missing_input ∷ []
        else codes ++ (if over then planned_notional ∷ [] else []))
      ≡ true
    → (over ≡ false) × (missing ≡ false)
no_codes missing over [] h = ground arith
no_codes missing over (c ∷ cs) h = ground arith

allowed_of : Outcome DecimalError PlannedExposureDecision → Bool
allowed_of (ok d) = d.allowed
allowed_of (err e) = false

module _ (J : DecimalJs) where
  invalid_entries-IsValidated :
      (args : ExposureArgs) → invalid_entries J args ≡ ok [] → IsValidated J args
  unfolding invalid_entries
  invalid_entries-IsValidated args h =
      let (os, e1, h1) =
        >>=-eq-ok (flat_map_m (validate_working_order J) args.owned_active_orders) _ h in
      let (rs, e2, h2) =
        >>=-eq-ok (flat_map_m (validate_unknown_reservation J) args.unknown_reservations) _ h1 in
      let (is, e3, h3) =
        >>=-eq-ok (flat_map_m (validate_batch_intent J) args.proposed_batch) _ h2 in
      let (no_os, rest) = append-nil_inv os (rs ++ is) (ground arith) in
      let (no_rs, no_is) = append-nil_inv rs is rest in
      record {
        orders = flat_map_m-nil _ args.owned_active_orders (cc);
        reservations = flat_map_m-nil _ args.unknown_reservations (cc);
        intents = flat_map_m-nil _ args.proposed_batch (cc);
      }

  -- The decision allows only a bounded exposure whose planned notional is known and not over the cap.
  record Allows (e : ExposureComputation) (planned : Text) : Type 0 where
    known : e.planned_gross_notional ≡ some planned
    bounded : e.unbounded ≡ false
    order : Ordering
    compared : decimal_cmp J planned frozen_planned_gross_notional_usdt ≡ ok order
    capped : is_gt order ≡ false

  unbounded-over :
      (e : ExposureComputation) (over : Bool)
      → not_within_cap J e ≡ ok over
      → over ≡ false
      → e.unbounded ≡ false
  unfolding not_within_cap
  unbounded-over e over h k = ground arith

  decide_on-Allows :
      (e : ExposureComputation) {d : PlannedExposureDecision} (planned : Option Text)
      → e.planned_gross_notional ≡ planned
      → decide_on J e ≡ ok d
      → d.allowed ≡ true
      → (p : Text) × Allows e p
  unfolding decide_on not_within_cap over_cap allowed_of
  decide_on-Allows e none k h a = absurd (ground arith)
  decide_on-Allows e (some p) k h a =
      let (over, e1, h1) = >>=-eq-ok (not_within_cap J e) _ h in
      let within : over ≡ false =
        (no_codes (is_none e.planned_gross_notional) over e.reason_codes
          (ap allowed_of h1 ∙ a)).0 in
      let bounded : e.unbounded ≡ false = unbounded-over e over e1 within in
      let run : (decimal_cmp J p frozen_planned_gross_notional_usdt >>= λ c. ok (is_gt c))
          ≡ ok over =
        ground arith in
      let (c, e2, h2) = >>=-eq-ok (decimal_cmp J p frozen_planned_gross_notional_usdt) _ run in
      (
        p,
        record {
          known = k;
          bounded = bounded;
          order = c;
          compared = e2;
          capped = ok_injective h2 ∙ within;
        },
      )

  exposure_of-bounded :
      (args : ExposureArgs) (reasons : List ReasonCode) (position mark : Option Text)
      (e : ExposureComputation) (p : Text)
      → exposure_of J args reasons position mark ≡ ok e
      → e.planned_gross_notional ≡ some p
      → (x : Text) × (m : Text) × (position ≡ some x)
        × (mark ≡ some m)
        × (bounded_exposure J args x m ≡ ok e)
  unfolding exposure_of empty_exposure
  exposure_of-bounded args [] (some x) (some m) e p h k = (x, m, refl, refl, h)
  exposure_of-bounded args [] (some x) none e p h k = absurd (ground arith)
  exposure_of-bounded args [] none mark e p h k = absurd (ground arith)
  exposure_of-bounded args (r ∷ rs) position mark e p h k = absurd (ground arith)

  record Finished (t : Totals) (planned : Text) : Type 0 where
    totals_bounded : t.unbounded ≡ false
    order : Ordering
    compared : decimal_cmp J t.long t.short ≡ ok order
    planned_is : planned ≡ (if is_lt order then t.short else t.long)

  finish-Finished :
      (actual : Text) (t : Totals) (e : ExposureComputation) (p : Text)
      → finish_exposure J actual t ≡ ok e
      → e.planned_gross_notional ≡ some p
      → Finished t p
  unfolding finish_exposure
  finish-Finished actual t e p h k = elim (Outcome-cases (decimal_cmp J t.long t.short)) [
    | inl (c, e1) ↦ record {
      totals_bounded = ground arith;
      order = c;
      compared = e1;
      planned_is = ground arith;
    }
    | inr (r, e1) ↦ absurd (ground arith)
  ]

  -- How a planned notional came about: the totals of the position grew to these totals.
  record Computed (args : ExposureArgs) (position mark planned : Text) : Type 0 where
    long_base : Text
    short_base : Text
    long_base_is : long_position_notional J position mark ≡ ok long_base
    short_base_is : short_position_notional J position mark ≡ ok short_base
    totals : Totals
    added :
        add_all J args
          (record { long = long_base; short = short_base; unbounded = false; reasons = [] })
        ≡ ok totals
    finished : Finished totals planned

  priced-Computed :
      (args : ExposureArgs) (position mark : Text) (e : ExposureComputation) (p : Text)
      → priced_exposure J args position mark ≡ ok e
      → e.planned_gross_notional ≡ some p
      → Computed args position mark p
  unfolding priced_exposure
  priced-Computed args position mark e p h k =
      let (size, _, h1) = >>=-eq-ok (decimal_abs J position) _ h in
      let (actual, _, h2) = >>=-eq-ok (exact_mul J size mark) _ h1 in
      let (long, el, h3) = >>=-eq-ok (long_position_notional J position mark) _ h2 in
      let (short, es, h4) = >>=-eq-ok (short_position_notional J position mark) _ h3 in
      let start : Totals = record { long = long; short = short; unbounded = false; reasons = [] } in
      let (totals, et, h5) = >>=-eq-ok (add_all J args start) _ h4 in
      record {
        long_base = long;
        short_base = short;
        long_base_is = el;
        short_base_is = es;
        totals = totals;
        added = et;
        finished = finish-Finished actual totals e p h5 k;
      }

  bounded-priced :
      (args : ExposureArgs) (position mark : Text) (e : ExposureComputation) (p : Text)
      → bounded_exposure J args position mark ≡ ok e
      → e.planned_gross_notional ≡ some p
      → (m : Ordering) × (decimal_cmp J mark (text "0") ≡ ok m)
        × (is_le m ≡ false)
        × (priced_exposure J args position mark ≡ ok e)
  unfolding bounded_exposure empty_exposure
  bounded-priced args position mark e p h k = elim (Outcome-cases (decimal_cmp J mark (text "0"))) [
    | inl (m, e1) ↦ (m, e1, ground arith, ground arith)
    | inr (r, e1) ↦ absurd (ground arith)
  ]

  -- What an allowed batch is known to satisfy.
  pub record IsWithinCap (args : ExposureArgs) : Type 0 where
    pub position : Text
    pub mark : Text
    pub position_known : args.signed_position ≡ some position
    pub mark_known : args.mark_or_mid_price ≡ some mark
    pub mark_positive : (m : Ordering) × (decimal_cmp J mark (text "0") ≡ ok m) × (is_le m ≡ false)
    pub long_base : Text
    pub short_base : Text
    pub long_base_is : long_position_notional J position mark ≡ ok long_base
    pub short_base_is : short_position_notional J position mark ≡ ok short_base
    pub long : Text
    pub short : Text
    pub long_is : directed_total J (text "BUY") long_base (exposed args) ≡ ok long
    pub short_is : directed_total J (text "SELL") short_base (exposed args) ≡ ok short
    pub long_capped : AtMost J long frozen_planned_gross_notional_usdt
    pub short_capped : AtMost J short frozen_planned_gross_notional_usdt

  decide_valid-inv :
      (args : ExposureArgs) (invalid : List ReasonCode) {d : PlannedExposureDecision}
      → decide_valid J args invalid ≡ ok d
      → d.allowed ≡ true
      → (e : ExposureComputation) × (invalid ≡ [])
        × (compute_exposure J args ≡ ok e)
        × (decide_on J e ≡ ok d)
  unfolding decide_valid decide_computed
  decide_valid-inv args [] h a = elim (Outcome-cases (compute_exposure J args)) [
    | inl (e, e1) ↦ (e, refl, e1, ground arith)
    | inr (r, e1) ↦ absurd (ground arith)
  ]
  decide_valid-inv args (c ∷ cs) h a = absurd (ground arith)

  both_capped :
      (laws : IsNumericOrder J) (long short : Text) (c : Ordering) (planned : Text)
      → decimal_cmp J long short ≡ ok c
      → planned ≡ (if is_lt c then short else long)
      → AtMost J planned frozen_planned_gross_notional_usdt
      → AtMost J long frozen_planned_gross_notional_usdt
        × AtMost J short frozen_planned_gross_notional_usdt
  both_capped laws long short c planned compared is capped = elim (Bool-cases (is_lt c)) [
    | inl below ↦
        let high : AtMost J short frozen_planned_gross_notional_usdt =
          subst (λ x. AtMost J x frozen_planned_gross_notional_usdt) (is ∙ rw below) capped in
        (AtMost-trans J laws long short _ (c, compared, ground arith) high, high)
    | inr above ↦
        let high : AtMost J long frozen_planned_gross_notional_usdt =
          subst (λ x. AtMost J x frozen_planned_gross_notional_usdt) (is ∙ rw above) capped in
        (
          high,
          AtMost-trans J laws short long _ (AtMost-converse J laws long short c compared above)
              high,
        )
  ]

  -- If decimal.js compares as numbers do, a batch is allowed only if the position and a positive mark
  -- price are known and, for each direction, the position's notional in that direction together with
  -- every working order, every unknown submission and every proposed intent that could increase it
  -- in that direction add up, exactly, to at most the cap of 150 USDT.
  pub allowed-IsWithinCap :
      (laws : IsNumericOrder J) (args : ExposureArgs) {d : PlannedExposureDecision}
      → planned_exposure_decision J args ≡ ok d
      → d.allowed ≡ true
      → IsWithinCap args
  unfolding planned_exposure_decision compute_exposure
  allowed-IsWithinCap laws args h a =
      let (invalid, e1, h1) = >>=-eq-ok (invalid_entries J args) _ h in
      let (e, none_invalid, computed, decided) = decide_valid-inv args invalid h1 a in
      let valid = invalid_entries-IsValidated args (e1 ∙ ap ok none_invalid) in
      let (p, allows) = decide_on-Allows e e.planned_gross_notional refl decided a in
      let (x, m, x_known, m_known, run) =
        exposure_of-bounded args _ args.signed_position args.mark_or_mid_price e p computed
          allows.known in
      let (order, mark_compared, mark_positive, run2) =
        bounded-priced args x m e p run allows.known in
      let c = priced-Computed args x m e p run2 allows.known in
      let grown = add_all-Grows J args _ c.totals valid c.added c.finished.totals_bounded in
      let capped =
        both_capped laws c.totals.long c.totals.short c.finished.order p c.finished.compared
          c.finished.planned_is (allows.order, allows.compared, allows.capped) in
      record {
        position = x;
        mark = m;
        position_known = x_known;
        mark_known = m_known;
        mark_positive = (order, mark_compared, mark_positive);
        long_base = c.long_base;
        short_base = c.short_base;
        long_base_is = c.long_base_is;
        short_base_is = c.short_base_is;
        long = c.totals.long;
        short = c.totals.short;
        long_is = grown.buys;
        short_is = grown.sells;
        long_capped = capped.0;
        short_capped = capped.1;
      }

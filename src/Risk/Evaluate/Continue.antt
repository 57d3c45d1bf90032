-- ===== src/Risk/Evaluate/Continue.antt =====
-- What a decision to continue (risk-engine.ts) is based on.
use multi_venue_grid_engine.Base.{
  ◌≡◌, ◌∙◌, ◌++◌, refl, ap, sym, Bool, true, false, List, [], ◌∷◌, includes, ok, ◌>>=◌, >>=-eq-ok,
  ok_injective, Outcome-cases, if◌then◌else◌, ◌==◌, arith, inl, inr, Bool-cases, subst, ||_iff,
  excludes-append,
}
use multi_venue_grid_engine.Math.DecimalJs.{DecimalJs}
use multi_venue_grid_engine.Risk.Types.{RiskInput}
use multi_venue_grid_engine.Risk.ReasonCodes.{
  ReasonCode, code_eq, rank, sort_phase2d_reason_codes, includes-sort_phase2d, persistence_unproven,
  lease_unproven, reconciliation_required, stale_or_missing_input, invalid_risk_input,
  risk_input_limit_exceeded, daily_loss, start_drawdown, boundary, boundary_seed_blocked,
  planned_notional,
}
use multi_venue_grid_engine.Risk.Validation.{validate_risk_input}
use multi_venue_grid_engine.Risk.Freshness.{
  freshness_failures, IsFresh, freshness-excludes_stale, freshness-nil_iff,
}
use multi_venue_grid_engine.Risk.Exposure.{ExposureComputation, compute_exposure}
use multi_venue_grid_engine.Risk.PlannedExposure.{over_cap, not_within_cap}
use multi_venue_grid_engine.Risk.Limits.{
  compute_daily_pnl, compute_start_drawdown, compute_boundary,
}
use multi_venue_grid_engine.Risk.Engine.{
  continue, ActualAction, nothing, reduces, halts, parsed, RiskDecision, canonical_evaluated_at,
  invalid_input_decision, code_if, persistence_codes, lease_codes, actual_action, actual_codes,
  metric_codes, system_codes, raises, choose_action, exposure_args,
}
use multi_venue_grid_engine.Risk.Evaluate.Band.{
  IsInBand, compute_boundary-IsInBand, reported-IsInBand,
}
use multi_venue_grid_engine.Risk.Evaluate.Within.{
  IsDayWithin, IsStartWithin, compute_daily_pnl-IsDayWithin, compute_start_drawdown-IsStartWithin,
}
use multi_venue_grid_engine.Risk.Evaluate.{
  Checked, raised_codes, decide, check_input, evaluate_trusted_risk_input, or_invalid,
  evaluate_risk, action_of,
}

-- What `choose_action` answers when it continues.
record Continues (codes : List ReasonCode) (actual : ActualAction) : Type 0 where
  no_system : raises codes system_codes ≡ false
  no_metric : raises codes metric_codes ≡ false
  within : actual ≡ nothing
  no_planned : includes codes planned_notional ≡ false

choose-Continues :
    (codes : List ReasonCode) (actual : ActualAction)
    → choose_action codes actual ≡ continue
    → Continues codes actual
unfolding choose_action
choose-Continues codes nothing h = ground arith
choose-Continues codes reduces h = absurd (ground arith)
choose-Continues codes halts h = absurd (ground arith)

-- A code that was not raised was not raised by any of the checks.
record IsAbsent (i : RiskInput) (k : Checked) (w : ReasonCode) : Type 0 where
  input : includes k.input_codes w ≡ false
  persistence : includes (persistence_codes i) w ≡ false
  lease : includes (lease_codes i) w ≡ false
  reconciliation : includes (code_if i.unresolved reconciliation_required) w ≡ false
  stale : includes k.stale w ≡ false
  exposure : includes k.exposure.reason_codes w ≡ false
  pnl : includes k.pnl.reason_codes w ≡ false
  drawdown : includes k.drawdown.reason_codes w ≡ false
  at_boundary : includes k.boundary w ≡ false
  planned : includes (code_if k.planned_over planned_notional) w ≡ false

absent :
    (i : RiskInput) (k : Checked) (w : ReasonCode)
    → includes (raised_codes i k) w ≡ false
    → IsAbsent i k w
unfolding raised_codes
absent i k w h =
    let h0 = ((||_iff _ _).0 h).1 in
    let (a, h1) = excludes-append k.input_codes _ w h0 in
    let (b, h2) = excludes-append (persistence_codes i) _ w h1 in
    let (c, h3) = excludes-append (lease_codes i) _ w h2 in
    let (d, h4) = excludes-append (code_if i.unresolved reconciliation_required) _ w h3 in
    let (e, h5) = excludes-append k.stale _ w h4 in
    let (f, h6) = excludes-append k.exposure.reason_codes _ w h5 in
    let (g, h7) = excludes-append k.pnl.reason_codes _ w h6 in
    let (l, h8) = excludes-append k.drawdown.reason_codes _ w h7 in
    let (m, h9) = excludes-append k.boundary _ w h8 in
    let (n, o) = excludes-append (actual_codes k.actual_over i.bounded_reduction) _ w h9 in
    record {
      input = a;
      persistence = b;
      lease = c;
      reconciliation = d;
      stale = e;
      exposure = f;
      pnl = g;
      drawdown = l;
      at_boundary = m;
      planned = o;
    }

raises-absent :
    (codes ws : List ReasonCode) (w : ReasonCode)
    → raises codes ws ≡ false
    → includes ws w ≡ true
    → includes codes w ≡ false
unfolding raises
raises-absent codes [] w h k = cc
raises-absent codes (v ∷ ws) w h k = elim (Bool-cases (v == w)) [
  | inl e ↦ subst (λ x. includes codes x ≡ false) ((code_eq.beq_iff v w).0 e) (ground arith)
  | inr e ↦ raises-absent codes ws w (ground arith) (ground arith)
]

-- The engine's authority over the account, as the input states it.
pub record HasAuthority (i : RiskInput) : Type 0 where
  pub latch_open : i.latch_blocked ≡ false
  pub pair_proven : i.pair_authority_proven ≡ true
  pub lease_proven : i.lease.proven ≡ true
  pub lease_held : i.lease.lost ≡ false
  pub lease_current : i.lease.expired ≡ false
  pub reconciled : i.unresolved ≡ false

authority :
    (i : RiskInput)
    → includes (persistence_codes i) persistence_unproven ≡ false
    → includes (lease_codes i) lease_unproven ≡ false
    → includes (code_if i.unresolved reconciliation_required) reconciliation_required ≡ false
    → HasAuthority i
unfolding persistence_codes lease_codes rank
authority i h1 h2 h3 = record {
  latch_open = ground arith;
  pair_proven = ground arith;
  lease_proven = ground arith;
  lease_held = ground arith;
  lease_current = ground arith;
  reconciled = ground arith;
}

module _ (J : DecimalJs) where
  -- What the engine has established when it continues and reports these codes.
  pub record IsSafe (i : RiskInput) (reported : List ReasonCode) : Type 0 where
    pub has_authority : HasAuthority i
    pub fresh : IsFresh J i.freshness
    pub day : IsDayWithin J i
    pub start : IsStartWithin J i
    pub exposure : ExposureComputation
    pub exposure_is : compute_exposure J (exposure_args i) ≡ ok exposure
    pub planned_within : not_within_cap J exposure ≡ ok false
    pub actual_within : over_cap J exposure.actual_gross_notional ≡ ok false
    pub band : IsInBand J i (includes reported boundary_seed_blocked)

  -- Where each part of `Checked` comes from.
  record IsCheckOf (i : RiskInput) (k : Checked) : Type 0 where
    stale_is : k.stale ≡ freshness_failures J i.freshness
    exposure_is : compute_exposure J (exposure_args i) ≡ ok k.exposure
    pnl_is : compute_daily_pnl J i ≡ ok k.pnl
    drawdown_is : compute_start_drawdown J i ≡ ok k.drawdown
    boundary_is : compute_boundary J i ≡ ok k.boundary
    actual_is : over_cap J k.exposure.actual_gross_notional ≡ ok k.actual_over
    planned_is : not_within_cap J k.exposure ≡ ok k.planned_over

  check_input-IsCheckOf :
      (i : RiskInput) (codes : List ReasonCode) (k : Checked)
      → check_input J i codes ≡ ok k
      → IsCheckOf i k
  unfolding check_input
  check_input-IsCheckOf i codes k h =
      let (e, e1, h1) = >>=-eq-ok (compute_exposure J (exposure_args i)) _ h in
      let (p, e2, h2) = >>=-eq-ok (compute_daily_pnl J i) _ h1 in
      let (d, e3, h3) = >>=-eq-ok (compute_start_drawdown J i) _ h2 in
      let (b, e4, h4) = >>=-eq-ok (compute_boundary J i) _ h3 in
      let (o, e5, h5) = >>=-eq-ok (over_cap J e.actual_gross_notional) _ h4 in
      let (q, e6, h6) = >>=-eq-ok (not_within_cap J e) _ h5 in
      subst (IsCheckOf i) (ok_injective h6) (record {
        stale_is = refl;
        exposure_is = e1;
        pnl_is = e2;
        drawdown_is = e3;
        boundary_is = e4;
        actual_is = e5;
        planned_is = e6;
      })

  actual_nothing :
      (over : Bool) (i : RiskInput)
      → actual_action over i.bounded_reduction ≡ nothing
      → over ≡ false
  unfolding actual_action
  actual_nothing over i h = ground arith

  code_if-false :
      (b : Bool) → includes (code_if b planned_notional) planned_notional ≡ false → b ≡ false
  unfolding rank
  code_if-false b h = ground arith

  -- A code that the decision does not report was not raised by the boundary.
  seed-absent :
      (i : RiskInput) (k : Checked)
      → includes (decide J i k).reason_codes boundary_seed_blocked ≡ false
      → includes k.boundary boundary_seed_blocked ≡ false
  unfolding decide
  seed-absent i k h =
      let raised = sort_phase2d_reason_codes (raised_codes i k) in
      let all = sym (includes-sort_phase2d (raised ++ _) boundary_seed_blocked) ∙ h in
      let (first, _) = excludes-append raised _ boundary_seed_blocked all in
      (absent i k boundary_seed_blocked
        (sym (includes-sort_phase2d (raised_codes i k) boundary_seed_blocked) ∙ first)).at_boundary

  decide-IsSafe :
      (i : RiskInput) (k : Checked)
      → IsCheckOf i k
      → (decide J i k).action ≡ continue
      → IsSafe i (decide J i k).reason_codes
  unfolding decide action_of
  decide-IsSafe i k c h =
      let sorted = sort_phase2d_reason_codes (raised_codes i k) in
      let cont = choose-Continues sorted (actual_action k.actual_over i.bounded_reduction) h in
      let missing = λ (w : ReasonCode) (e : includes sorted w ≡ false).
        absent i k w (sym (includes-sort_phase2d (raised_codes i k) w) ∙ e) in
      let system = λ (w : ReasonCode) (e : includes system_codes w ≡ true).
        missing w (raises-absent sorted system_codes w cont.no_system e) in
      let metric = λ (w : ReasonCode) (e : includes metric_codes w ≡ true).
        missing w (raises-absent sorted metric_codes w cont.no_metric e) in
      unfold rank in
      (let stale = system stale_or_missing_input refl in
        let invalid = system invalid_risk_input refl in
        let actual = actual_nothing k.actual_over i cont.within in
        let planned =
          code_if-false k.planned_over (missing planned_notional cont.no_planned).planned in
        record {
          has_authority =
              authority i (system persistence_unproven refl).persistence
                (system lease_unproven refl).lease
                (system reconciliation_required refl).reconciliation;
          fresh = (freshness-nil_iff J i.freshness).0 (
              freshness-excludes_stale J i.freshness
                (subst (λ x. includes x stale_or_missing_input ≡ false) c.stale_is stale.stale));
          day =
              compute_daily_pnl-IsDayWithin J i k.pnl c.pnl_is (metric daily_loss refl).pnl
                stale.pnl invalid.pnl;
          start =
              compute_start_drawdown-IsStartWithin J i k.drawdown c.drawdown_is
                (metric start_drawdown refl).drawdown stale.drawdown;
          exposure = k.exposure;
          exposure_is = c.exposure_is;
          planned_within = c.planned_is ∙ ap ok planned;
          actual_within = c.actual_is ∙ ap ok actual;
          band =
              reported-IsInBand J (includes k.boundary boundary_seed_blocked)
                (includes (decide J i k).reason_codes boundary_seed_blocked) (seed-absent i k)
                (compute_boundary-IsInBand J i k.boundary c.boundary_is
                  (metric boundary refl).at_boundary stale.at_boundary invalid.at_boundary
                  (system risk_input_limit_exceeded refl).at_boundary);
        })

  from_codes :
      (i : RiskInput) (d : RiskDecision) (codes : List ReasonCode)
      → (if includes codes risk_input_limit_exceeded
          then ok (
              invalid_input_decision
                (canonical_evaluated_at i.freshness.evaluated_at)
                (risk_input_limit_exceeded ∷ []))
          else (check_input J i codes >>= λ k. ok (decide J i k)))
        ≡ ok d
      → d.action ≡ continue
      → IsSafe i d.reason_codes
  unfolding invalid_input_decision
  from_codes i d codes h a = elim (Bool-cases (includes codes risk_input_limit_exceeded)) [
    | inl e ↦ absurd (ground arith)
    | inr e ↦ elim (Outcome-cases (check_input J i codes)) [
      | inl (k, e1) ↦
          let same : decide J i k ≡ d = ok_injective (rw (e, e1) at h) in
          subst (λ x. IsSafe i x) (ap (λ (x : RiskDecision). x.reason_codes) same)
            (decide-IsSafe i k (check_input-IsCheckOf i codes k e1)
              (ap (λ (x : RiskDecision). x.action) same ∙ a))
      | inr (r, e1) ↦ absurd (ground arith)
    ]
  ]

  trusted-IsSafe :
      (i : RiskInput) (d : RiskDecision)
      → evaluate_trusted_risk_input J i ≡ ok d
      → d.action ≡ continue
      → IsSafe i d.reason_codes
  unfolding evaluate_trusted_risk_input invalid_input_decision
  trusted-IsSafe i d h a =
      let (codes, _, h1) = >>=-eq-ok (validate_risk_input J i) _ h in from_codes i d codes h1 a

  -- The engine continues only with an open latch, a proven pair, a held lease and nothing unresolved,
  -- on fresh observations, with the day's net result above -5 USDT and the loss since the start below
  -- 10 USDT, both computed exactly from known figures, with the exposure bounded and neither its
  -- planned nor its actual notional over the cap where they are known, and with a price that is not
  -- below 0.99 of the grid's lower end for a long position, not above 1.01 of its upper end for a short
  -- one, and neither for a flat one, unless the decision reports BOUNDARY_SEED_BLOCKED.
  pub evaluate_risk-IsSafe :
      (i : RiskInput)
      → (evaluate_risk J (parsed i)).action ≡ continue
      → IsSafe i (evaluate_risk J (parsed i)).reason_codes
  unfolding evaluate_risk or_invalid invalid_input_decision
  evaluate_risk-IsSafe i h = elim (Outcome-cases (evaluate_trusted_risk_input J i)) [
    | inl (d, e) ↦ rw (e, or_invalid) (trusted-IsSafe i d e (rw (e, or_invalid) at h))
    | inr (r, e) ↦ absurd (ground arith)
  ]

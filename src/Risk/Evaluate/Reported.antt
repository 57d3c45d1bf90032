-- ===== src/Risk/Evaluate/Reported.antt =====
-- What every risk decision (risk-engine.ts) reports.
use multi_venue_grid_engine.Base.{
  ℕ, ◌≡◌, ◌∙◌, refl, ap, Bool, true, not, List, [], ◌∷◌, ◌++◌, Text, includes, includes-append,
  keep, All, ok, ◌>>=◌, >>=-eq-ok, Outcome-cases, if◌then◌else◌, ◌==◌, arith, inl, inr, ◌<◌,
  beq_refl, Bool-cases, subst, ok_injective,
}
use multi_venue_grid_engine.Math.DecimalJs.{DecimalJs}
use multi_venue_grid_engine.Risk.Types.{RiskInput}
use multi_venue_grid_engine.Risk.ReasonCodes.{
  ReasonCode, code_eq, rank, stale_or_missing_input, invalid_risk_input, sort_phase2d_reason_codes,
  durable_halt_or_ack_unavailable, continue_metrics_only, IsCanonical, sort_phase2d-IsCanonical,
  includes-sort_phase2d, risk_input_limit_exceeded,
}
use multi_venue_grid_engine.Risk.Validation.{validate_risk_input}
use multi_venue_grid_engine.Risk.Engine.{
  ParsedRiskInput, parsed, refused, RiskDecision, canonical_evaluated_at, invalid_input_decision,
  code_if, is_continue,
}
use multi_venue_grid_engine.Risk.Evaluate.{
  Checked, raised_codes, decide, check_input, evaluate_trusted_risk_input, or_invalid,
  evaluate_risk, action_of, high_water_codes,
}

-- A report that names the missing authority, and is in the catalog's order with no repetition.
pub record IsReport (codes : List ReasonCode) : Type 0 where
  pub names_authority : includes codes durable_halt_or_ack_unavailable ≡ true
  pub canonical : IsCanonical codes

All-keep :
    (n : ℕ) (p : ReasonCode → Bool) (cs : List ReasonCode)
    → All (λ c. n < rank c) cs
    → All (λ c. n < rank c) (keep p cs)
All-keep n p [] a = tt
All-keep n p (c ∷ cs) a = ground (arith, All-keep n p cs a.1)

keep-IsCanonical :
    (p : ReasonCode → Bool) (cs : List ReasonCode) → IsCanonical cs → IsCanonical (keep p cs)
keep-IsCanonical p [] h = tt
keep-IsCanonical p (c ∷ cs) h =
    ground (arith, keep-IsCanonical p cs h.1, All-keep (rank c) p cs h.0)

includes-keep :
    (p : ReasonCode → Bool) (cs : List ReasonCode) (c : ReasonCode)
    → p c ≡ true
    → includes (keep p cs) c ≡ includes cs c
includes-keep p [] c h = refl
includes-keep p (d ∷ cs) c h = elim (Bool-cases (d == c)) [
  | inl e ↦ let kept : p d ≡ true = ap p ((code_eq.beq_iff d c).0 e) ∙ h in ground arith
  | inr e ↦ ground (arith, includes-keep p cs c h)
]

invalid-IsReport :
    (t : Text) (extra : List ReasonCode) → IsReport (invalid_input_decision t extra).reason_codes
unfolding invalid_input_decision rank
invalid-IsReport t extra =
    let raised : List ReasonCode =
      durable_halt_or_ack_unavailable ∷ stale_or_missing_input ∷ invalid_risk_input ∷ extra in
    record {
      names_authority =
          includes-keep _ (sort_phase2d_reason_codes raised) durable_halt_or_ack_unavailable refl
          ∙ includes-sort_phase2d raised durable_halt_or_ack_unavailable
          ∙ refl;
      canonical =
          keep-IsCanonical (λ c. not (c == continue_metrics_only))
            (sort_phase2d_reason_codes raised) (sort_phase2d-IsCanonical raised);
    }

module _ (J : DecimalJs) where
  decide-IsReport : (i : RiskInput) (k : Checked) → IsReport (decide J i k).reason_codes
  unfolding decide raised_codes
  decide-IsReport i k =
      let first = raised_codes i k in
      let later =
        code_if (is_continue (action_of J i k)) continue_metrics_only
        ++ high_water_codes J i.high_water_equity in
      record {
        names_authority =
            includes-sort_phase2d (sort_phase2d_reason_codes first ++ later)
              durable_halt_or_ack_unavailable
            ∙ includes-append (sort_phase2d_reason_codes first) later
                durable_halt_or_ack_unavailable
            ∙ ground (
              arith,
              includes-sort_phase2d first durable_halt_or_ack_unavailable,
              beq_refl durable_halt_or_ack_unavailable,
            );
        canonical = sort_phase2d-IsCanonical _;
      }

  from_codes :
      (i : RiskInput) (d : RiskDecision) (codes : List ReasonCode)
      → (if includes codes risk_input_limit_exceeded
          then ok (
              invalid_input_decision
                (canonical_evaluated_at i.freshness.evaluated_at)
                (risk_input_limit_exceeded ∷ []))
          else (check_input J i codes >>= λ k. ok (decide J i k)))
        ≡ ok d
      → IsReport d.reason_codes
  from_codes i d codes h = elim (Bool-cases (includes codes risk_input_limit_exceeded)) [
    | inl e ↦
        let same : invalid_input_decision (canonical_evaluated_at i.freshness.evaluated_at)
              (risk_input_limit_exceeded ∷ [])
            ≡ d =
          ok_injective (rw e at h) in
        subst (λ x. IsReport x.reason_codes) same (invalid-IsReport _ _)
    | inr e ↦ elim (Outcome-cases (check_input J i codes)) [
      | inl (k, e1) ↦
          subst (λ x. IsReport x.reason_codes) (ok_injective (rw (e, e1) at h))
            (decide-IsReport i k)
      | inr (r, e1) ↦ absurd (ground arith)
    ]
  ]

  trusted-IsReport :
      (i : RiskInput) (d : RiskDecision)
      → evaluate_trusted_risk_input J i ≡ ok d
      → IsReport d.reason_codes
  unfolding evaluate_trusted_risk_input
  trusted-IsReport i d h =
      let (codes, _, h1) = >>=-eq-ok (validate_risk_input J i) _ h in from_codes i d codes h1

  -- Every decision, whatever the input, its refusal or an exception, names the missing durable authority
  -- and reports its codes in the order of the catalog, each once.
  pub evaluate_risk-IsReport : (p : ParsedRiskInput) → IsReport (evaluate_risk J p).reason_codes
  unfolding evaluate_risk or_invalid
  evaluate_risk-IsReport (refused codes t) = invalid-IsReport t codes
  evaluate_risk-IsReport (parsed i) = elim (Outcome-cases (evaluate_trusted_risk_input J i)) [
    | inl (d, e) ↦ rw (e, or_invalid) (trusted-IsReport i d e)
    | inr (r, e) ↦ rw (e, or_invalid) (invalid-IsReport _ _)
  ]

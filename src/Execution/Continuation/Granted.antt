-- ===== src/Execution/Continuation/Granted.antt =====
-- What a grant to increase risk (src/execution/continuation.ts) is based on.
use multi_venue_grid_engine.Base.{
  ◌≡◌, refl, ap, sym, subst, ◌∙◌, includes, arith, Bool, true, false, ◌||◌, not, Option, none, some,
  List, [], ◌∷◌, Text, text, text_eq, ◌==◌, if◌then◌else◌,
}
use multi_venue_grid_engine.Math.DecimalJs.{DecimalJs}
use multi_venue_grid_engine.Risk.Types.{RiskInput}
use multi_venue_grid_engine.Risk.Engine.{
  RiskAction, continue, reduce, halt, RiskDecision, ParsedRiskInput, parsed, refused,
  invalid_input_decision,
}
use multi_venue_grid_engine.Risk.Evaluate.{evaluate_risk}
use multi_venue_grid_engine.Risk.ReasonCodes.{ReasonCode, code_eq, boundary_seed_blocked}
use multi_venue_grid_engine.Risk.Evaluate.Band.{IsInBand}
use multi_venue_grid_engine.Execution.Admission.{ExposureReservation}
use multi_venue_grid_engine.Risk.Evaluate.Continue.{IsSafe, evaluate_risk-IsSafe}
use multi_venue_grid_engine.Execution.Ports.{HaltAuthorityView}
use multi_venue_grid_engine.Execution.CoordinatorState.{is_empty}
use multi_venue_grid_engine.Execution.Continuation.{
  ContinuationEvidence, risk_input, admitted, halt_allows, is_halting, is_continuing, gate_action,
  grants, decide_on, decide_continuation,
}

-- A halt record that proves that the engine runs and may increase risk.
pub record IsRunning (view : Option HaltAuthorityView) : Type 0 where
  pub seen : HaltAuthorityView
  pub is_seen : view ≡ some seen
  pub allows : seen.allow_risk_increase ≡ true
  pub running : (seen.durable_status == text "RUNNING") ≡ true

halt_allows-IsRunning : (view : Option HaltAuthorityView) → halt_allows view ≡ true → IsRunning view
unfolding halt_allows
halt_allows-IsRunning none h = cc
halt_allows-IsRunning (some v) h = record {
  seen = v;
  is_seen = refl;
  allows = ground arith;
  running = ground arith;
}

is_empty-nil {ℓ} : {A : Type ℓ} (xs : List A) → is_empty xs ≡ true → xs ≡ []
is_empty-nil [] h = refl
is_empty-nil (x ∷ xs) h = cc

-- The account with the coordinator's own orders and reservations, and no batch.
abbrev pub with_reservation : RiskInput → ExposureReservation → RiskInput
with_reservation account own = record account {
  owned_active_orders = own.owned_active_orders;
  unknown_reservations = own.unknown_reservations;
  proposed_batch = [];
  halt_authority_clear = false;
}

-- The input of the risk engine, once no blocker stands.
record IsInput (e : ContinuationEvidence) (input : RiskInput) : Type 0 where
  account : RiskInput
  account_read : e.risk_inputs ≡ some account
  input_is : input ≡ with_reservation account e.reservation

some_injective {ℓ} : {A : Type ℓ} {a b : A} → some a ≡ some b → a ≡ b
some_injective h = cc

risk_input-IsInput :
    (e : ContinuationEvidence) (account : Option RiskInput) {input : RiskInput}
    → e.risk_inputs ≡ account
    → e.blockers ≡ []
    → risk_input e ≡ some input
    → IsInput e input
unfolding risk_input
risk_input-IsInput e none read unblocked h = absurd (ground arith)
risk_input-IsInput e (some account) read unblocked h = record {
  account = account;
  account_read = read;
  input_is = sym (some_injective (rw (read, unblocked) at h));
}

module _ (J : DecimalJs) (admit : RiskInput → ParsedRiskInput) where
  -- What the gate has established when it grants.
  pub record IsGranted (e : ContinuationEvidence) : Type 0 where
    pub account : RiskInput
    pub account_read : e.risk_inputs ≡ some account
    pub snapshot : RiskInput
    pub is_admitted : admit (with_reservation account e.reservation) ≡ parsed snapshot
    pub continues : (evaluate_risk J (parsed snapshot)).action ≡ continue
    pub within_limits : (evaluate_risk J (parsed snapshot)).risk_metrics_within_limits ≡ true
    pub safe : IsSafe J snapshot (evaluate_risk J (parsed snapshot)).reason_codes
    pub in_band : IsInBand J snapshot false
    pub unblocked : e.blockers ≡ []
    pub running : IsRunning e.halt_view

action-continues :
    (a : RiskAction) (allows : Bool)
    → is_continuing (if is_halting a || not allows then halt else a) ≡ true
    → (a ≡ continue) × (allows ≡ true)
action-continues continue true h = (refl, refl)
action-continues continue false h = cc
action-continues reduce true h = cc
action-continues reduce false h = cc
action-continues halt allows h = cc

refused-halts :
    (J : DecimalJs) (codes : List ReasonCode) (at : Text)
    → (evaluate_risk J (refused codes at)).action ≡ continue
    → ⊥
unfolding evaluate_risk invalid_input_decision
refused-halts J codes at h = cc

-- What `grants` has read of the risk decision.
record Seeds (risk : RiskDecision) : Type 0 where
  continues : risk.action ≡ continue
  within_limits : risk.risk_metrics_within_limits ≡ true
  not_barred : includes risk.reason_codes boundary_seed_blocked ≡ false

grants-inv :
    (risk : RiskDecision) (allows : Bool) (blockers : List Text)
    → grants risk allows blockers ≡ true
    → Seeds risk × (allows ≡ true) × (blockers ≡ [])
unfolding grants gate_action
grants-inv risk allows blockers h =
    let (continues, allowed) = action-continues risk.action allows (ground arith) in
    (
      record { continues = continues; within_limits = ground arith; not_barred = ground arith },
      allowed,
      is_empty-nil blockers (ground arith),
    )

module _ (J : DecimalJs) (admit : RiskInput → ParsedRiskInput) where
  admitted-IsGranted :
      (e : ContinuationEvidence) (input : RiskInput) (p : ParsedRiskInput)
      → IsInput e input
      → admit input ≡ p
      → Seeds (evaluate_risk J p)
      → e.blockers ≡ []
      → IsRunning e.halt_view
      → IsGranted J admit e
  unfolding evaluate_risk invalid_input_decision
  admitted-IsGranted e input (parsed snapshot) from is_admitted seeds unblocked running =
      let safe = evaluate_risk-IsSafe J snapshot seeds.continues in
      record {
        account = from.account;
        account_read = from.account_read;
        snapshot = snapshot;
        is_admitted = ap admit (sym from.input_is) ∙ is_admitted;
        continues = seeds.continues;
        within_limits = seeds.within_limits;
        safe = safe;
        in_band = subst (IsInBand J snapshot) seeds.not_barred safe.band;
        unblocked = unblocked;
        running = running;
      }
  admitted-IsGranted e input (refused codes at) from is_admitted seeds unblocked running =
      absurd (refused-halts J codes at seeds.continues)

  input-IsGranted :
      (e : ContinuationEvidence) (input : Option RiskInput)
      → risk_input e ≡ input
      → Seeds (evaluate_risk J (admitted admit input))
      → e.blockers ≡ []
      → IsRunning e.halt_view
      → IsGranted J admit e
  input-IsGranted e none is_input seeds unblocked running =
      absurd (refused-halts J _ _ seeds.continues)
  input-IsGranted e (some input) is_input seeds unblocked running =
      admitted-IsGranted e input (admit input)
        (risk_input-IsInput e e.risk_inputs refl unblocked is_input) refl seeds unblocked running

  -- The gate allows more risk only if the account inputs were read and, with the coordinator's own
  -- orders and reservations and no batch, admitted as an input on which the risk engine continues, with
  -- its metrics within their limits, and which has what `IsSafe` lists and a price within the band, for
  -- a flat position too; if no blocker stands; and if the halt record was
  -- read, runs, and allows it.
  pub decide_continuation-IsGranted :
      (e : ContinuationEvidence)
      → (decide_continuation J admit e).allow_risk_increase ≡ true
      → IsGranted J admit e
  unfolding decide_continuation decide_on
  decide_continuation-IsGranted e h =
      let (seeds, allows, unblocked) =
        grants-inv (evaluate_risk J (admitted admit (risk_input e))) (halt_allows e.halt_view)
          e.blockers h in
      input-IsGranted e (risk_input e) refl seeds unblocked
        (halt_allows-IsRunning e.halt_view allows)

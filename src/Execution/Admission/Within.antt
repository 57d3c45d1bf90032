-- ===== src/Execution/Admission/Within.antt =====
-- What the exposure gate of src/execution/coordinator.ts has established when it denies nothing.
use mathlib.Core.List.{Perm}
use multi_venue_grid_engine.Base.{
  ◌++◌, ◌≡◌, refl, arith, inl, inr, true, any, Bool-cases, Option, none, some, List, Outcome, ok,
  err,
}
use multi_venue_grid_engine.Math.DecimalJs.{DecimalJs}
use multi_venue_grid_engine.Math.Order.{IsNumericOrder}
use multi_venue_grid_engine.Risk.PlannedExposure.{
  PlannedExposureDecision, planned_exposure_decision,
}
use multi_venue_grid_engine.Risk.PlannedExposure.Gate.{IsWithinCap, allowed-IsWithinCap}
use multi_venue_grid_engine.Risk.Exposure.{ExposureArgs}
use multi_venue_grid_engine.Risk.PlannedExposure.Directed.{exposed}
use multi_venue_grid_engine.Execution.Admission.Claims.{
  record_claims, intent_claims, gate_args-claims,
}
use multi_venue_grid_engine.Execution.Intents.{lift, OrderIntent}
use multi_venue_grid_engine.Execution.Ports.{ExposureInputs}
use multi_venue_grid_engine.Execution.CoordinatorState.{Coordinator, is_risk_increasing}
use multi_venue_grid_engine.Execution.Steps.{Machine, Deps, ◌>>=◌, return, of_outcome, gets, await}
use multi_venue_grid_engine.Execution.Admission.{
  denial_of, gate_args, gate_inputs, exposure_problem,
}

-- The inputs that were read, and the cap that is kept by exactly the claims of the records and of the
-- batch, beside the position.
pub record IsCovered (J : DecimalJs) (c : Coordinator) (is : List OrderIntent)
    (read : Option ExposureInputs) : Type 0 where
  pub inputs : ExposureInputs
  pub is_read : read ≡ some inputs
  pub args : ExposureArgs
  pub same_position : args.signed_position ≡ inputs.signed_position
  pub same_mark : args.mark_or_mid_price ≡ inputs.mark_or_mid_price
  pub counts : Perm (exposed args) (record_claims J c.registry.records ++ intent_claims is)
  pub within : IsWithinCap J args

module _ {W : Type 0} (D : Deps W) where
  decision-Covers :
      (laws : IsNumericOrder D.decimal_js) (c : Coordinator) (is : List OrderIntent)
      (inputs : ExposureInputs) (r : Outcome _ PlannedExposureDecision) (m : Machine W)
      → planned_exposure_decision D.decimal_js (gate_args D.decimal_js c inputs is) ≡ r
      → ((of_outcome (lift r) >>= λ d. return (denial_of d)) m).0 ≡ ok none
      → IsWithinCap D.decimal_js (gate_args D.decimal_js c inputs is)
  unfolding ◌>>=◌ of_outcome return
  decision-Covers laws c is inputs (ok d) m e h = elim (Bool-cases d.allowed) [
    | inl allowed ↦ allowed-IsWithinCap D.decimal_js laws _ e allowed
    | inr denied ↦ absurd (ground arith)
  ]
  decision-Covers laws c is inputs (err x) m e h = cc

  inputs-Covers :
      (laws : IsNumericOrder D.decimal_js) (c : Coordinator) (is : List OrderIntent)
      (read : Option ExposureInputs) (m : Machine W)
      → (gate_inputs D c is read m).0 ≡ ok none
      → IsCovered D.decimal_js c is read
  unfolding gate_inputs gate_args return
  inputs-Covers laws c is none m h = cc
  inputs-Covers laws c is (some inputs) m h = record {
    inputs = inputs;
    is_read = refl;
    args = gate_args D.decimal_js c inputs is;
    same_position = refl;
    same_mark = refl;
    counts = gate_args-claims D.decimal_js c inputs is;
    within = decision-Covers laws c is inputs _ m refl h;
  }

  -- If decimal.js compares as numbers do, a batch that increases risk is not denied only if the exposure
  -- inputs were read, and in each direction the position at the price that was read is within the cap
  -- together with, counted once each: what is left of every order that a record holds as working, every
  -- submission that may have reached the venue, and every intent of the batch, as far as they do not
  -- only reduce.
  pub exposure_problem-IsCovered :
      (laws : IsNumericOrder D.decimal_js) (is : List OrderIntent) (m : Machine W)
      → any is_risk_increasing is ≡ true
      → (exposure_problem D is m).0 ≡ ok none
      → IsCovered D.decimal_js
          (await D.ports.read_exposure m).1.coordinator
          is
          (D.ports.read_exposure m.world).2
  unfolding exposure_problem ◌>>=◌ gets await
  exposure_problem-IsCovered laws is m risky h = inputs-Covers laws _ is _ _ (rw risky at h)

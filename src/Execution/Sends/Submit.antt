-- ===== src/Execution/Sends/Submit.antt =====
-- src/execution/coordinator.ts: a submission and a batch keep every send sound.
use multi_venue_grid_engine.Base.{not, any, Option, some, none, List, [], ◌∷◌, Text, text_eq}
use multi_venue_grid_engine.Execution.Intents.{RegistryError, OrderIntent}
use multi_venue_grid_engine.Execution.RegistryState.{RegistryState}
use multi_venue_grid_engine.Execution.CoordinatorState.{Coordinator, is_risk_increasing, is_empty}
use multi_venue_grid_engine.Execution.Steps.{Deps}
use multi_venue_grid_engine.Execution.Steps.Rules.{Keeps, chain, by_if, by_option}
use multi_venue_grid_engine.Execution.Ports.{ExposureInputs}
use multi_venue_grid_engine.Execution.Admission.{
  gate_inputs, exposure_problem, admission_problem, budget_allows,
}
use multi_venue_grid_engine.Execution.Submission.{
  BatchProblem, submit_new, send_new, send_batch, submit_checked, submit_exclusive, send_all,
  after_send, submit_batch_checked, submit_batch_exclusive,
}
use multi_venue_grid_engine.Execution.Sends.{IsGood}
use multi_venue_grid_engine.Execution.Sends.Rules.{awaits, returns-On, reads-On, computes-On}
use multi_venue_grid_engine.Execution.Sends.Place.{send_place-Sound}

module _ {W : Type 0} (D : Deps W) (s0 : RegistryState) where
  gate_inputs-Good :
      (c : Coordinator) (is : List OrderIntent) (inputs : Option ExposureInputs)
      → Keeps (IsGood D s0) (gate_inputs D c is inputs)
  unfolding gate_inputs
  gate_inputs-Good c is none = returns-On D s0 _
  gate_inputs-Good c is (some inputs) = chain (computes-On D s0 _) λ d. returns-On D s0 _

  exposure-Good : (is : List OrderIntent) → Keeps (IsGood D s0) (exposure_problem D is)
  unfolding exposure_problem
  exposure-Good is =
      by_if (not (any is_risk_increasing is)) (returns-On D s0 _)
        (chain (awaits D s0 _) λ inputs. chain (reads-On D s0 _) λ c. gate_inputs-Good c is inputs)

  submit_new-Good : (i : OrderIntent) → Keeps (IsGood D s0) (submit_new D i)
  unfolding submit_new send_new
  submit_new-Good i = chain (reads-On D s0 _) λ c.
      by_option (admission_problem D.config c i)
        (by_if (not (budget_allows D.config c 1)) (returns-On D s0 _) (
          chain (exposure-Good (i ∷ [])) λ denied.
            by_option denied
              (chain (send_place-Sound D s0 i)
                λ codes. chain (reads-On D s0 _) λ r. returns-On D s0 _)
              λ d. returns-On D s0 _))
        λ code. returns-On D s0 _

  submit_checked-Good :
      (i : OrderIntent) (problem : Option RegistryError)
      → Keeps (IsGood D s0) (submit_checked D i problem)
  unfolding submit_checked
  submit_checked-Good i (some problem) = returns-On D s0 _
  submit_checked-Good i none =
      chain (reads-On D s0 _)
        λ existing. by_option existing (submit_new-Good i) λ r. returns-On D s0 _

  pub submit-Good : (i : OrderIntent) → Keeps (IsGood D s0) (submit_exclusive D i)
  unfolding submit_exclusive
  submit-Good i = chain (reads-On D s0 _) λ latched.
      by_if latched (returns-On D s0 _)
        (chain (computes-On D s0 _) λ problem. submit_checked-Good i problem)

  send_all-Good :
      (stopped : Option Text) (is : List OrderIntent) → Keeps (IsGood D s0) (send_all D stopped is)
  unfolding send_all
  send_all-Good stopped [] = returns-On D s0 _
  send_all-Good stopped (i ∷ is) = chain (reads-On D s0 _) λ reason.
      by_option reason
        (chain (send_place-Sound D s0 i) λ codes.
          chain (reads-On D s0 _)
            λ status. chain (send_all-Good (after_send D status) is) λ rest. returns-On D s0 _)
        λ code. chain (send_all-Good (some code) is) λ rest. returns-On D s0 _

  batch_checked-Good :
      (is : List OrderIntent) (problem : Option BatchProblem)
      → Keeps (IsGood D s0) (submit_batch_checked D is problem)
  unfolding submit_batch_checked send_batch
  batch_checked-Good is (some problem) = returns-On D s0 _
  batch_checked-Good is none = chain (reads-On D s0 _) λ allowed.
      by_if (not allowed) (returns-On D s0 _) (
        chain (exposure-Good is) λ denied.
          by_option denied (chain (send_all-Good none is) λ sent. returns-On D s0 _)
            λ d. returns-On D s0 _)

  pub submit_batch-Good :
      (is : List OrderIntent) → Keeps (IsGood D s0) (submit_batch_exclusive D is)
  unfolding submit_batch_exclusive
  submit_batch-Good is = chain (reads-On D s0 _) λ c. by_if c.journal_failed (returns-On D s0 _) (
      by_if (is_empty is) (returns-On D s0 _)
        (chain (computes-On D s0 _) λ problem. batch_checked-Good is problem))

-- ===== src/Execution/Submission/Budget/Spent.antt =====
-- src/execution/coordinator.ts: what a submission or a batch sends stays within the write budget of its cycle.
use multi_venue_grid_engine.Base.{
  ap, ◌+◌, ℕ, ◌≤◌, ◌≡◌, refl, arith, not, Option, some, none, List, [], ◌∷◌, Text, text, text_eq,
  length, if◌then◌else◌,
}
use multi_venue_grid_engine.Execution.Intents.{RegistryError, OrderIntent}
use multi_venue_grid_engine.Execution.CoordinatorState.{Coordinator, is_empty}
use multi_venue_grid_engine.Execution.Steps.{Machine, Deps, Step, return}
use multi_venue_grid_engine.Execution.Steps.Rules.{
  Triple, Keeps, chain, returns, reads, by_if, by_option, keeps_machine, weaken,
}
use multi_venue_grid_engine.Execution.Admission.{budget_allows, admission_problem}
use multi_venue_grid_engine.Execution.Submission.{
  refused, send_new, submit_new, submit_checked, submit_exclusive, BatchProblem, send_batch,
  submit_batch_checked, submit_batch_exclusive,
}
use multi_venue_grid_engine.Execution.Submission.Budget.{
  sends, raise, Below, budget, Adds, exposure-Below, send_all-Adds, send_place-Adds, reads-Below,
  returns-Below, computes-Below, gated-Below,
}

module _ {W : Type 0} (D : Deps W) (s w : ℕ) where
  batch_sends-Adds : (is : List OrderIntent) (n : ℕ) → Adds D s w n (length is) (send_batch D is)
  unfolding send_batch
  batch_sends-Adds is n =
      chain
        (weaken {Q' = λ _. Below D s w 0 n} (λ a m q. q) (λ m e. raise D s w e (omega arith))
          (exposure-Below D s w is))
        λ denied.
          by_option denied (chain (send_all-Adds D s w n none is) λ sent. returns-Below D s w _)
            λ d. returns _ (λ m p. raise D s w p (omega arith))

  batch_checked-Below :
      (is : List OrderIntent) (problem : Option BatchProblem)
      → Keeps (Below D s w 0 (budget D s w)) (submit_batch_checked D is problem)
  unfolding submit_batch_checked
  batch_checked-Below is (some problem) = returns-Below D s w _
  batch_checked-Below is none =
      chain (reads _ (λ m p. (p, refl)))
        λ allowed. gated-Below D s w (length is) _ allowed (batch_sends-Adds is)

  batch-Below :
      (is : List OrderIntent) → Keeps (Below D s w 0 (budget D s w)) (submit_batch_exclusive D is)
  unfolding submit_batch_exclusive
  batch-Below is = chain (reads-Below D s w _) λ c. by_if c.journal_failed (returns-Below D s w _) (
      by_if (is_empty is) (returns-Below D s w _)
        (chain (computes-Below D s w _) λ problem. batch_checked-Below is problem))

  new_sent-Adds : (i : OrderIntent) (n : ℕ) → Adds D s w n 1 (send_new D i)
  unfolding send_new
  new_sent-Adds i n =
      chain
        (weaken {Q' = λ _. Below D s w 0 n} (λ a m q. q) (λ m e. raise D s w e (omega arith))
          (exposure-Below D s w (i ∷ [])))
        λ denied.
          by_option denied
            (chain (send_place-Adds D s w n i)
              λ codes. chain (reads-Below D s w _) λ r. returns-Below D s w _)
            λ d. returns _ (λ m p. raise D s w p (omega arith))

  -- The coordinator that the tests read is the one they run on.
  new_admitted-Below :
      (i : OrderIntent) (c : Coordinator) (problem : Option Text)
      → Triple
          (λ m. Below D s w 0 (budget D s w) m × (c ≡ m.coordinator))
          (elim problem [
            | some code ↦ return (refused (code ∷ []))
            | none ↦
                if not (budget_allows D.config c 1)
                then return (refused (text "WRITE_BUDGET_EXHAUSTED" ∷ []))
                else send_new D i
          ])
          (λ _. Below D s w 0 (budget D s w))
          (Below D s w 0 (budget D s w))
  new_admitted-Below i c (some code) = returns _ (λ m p. p.0)
  new_admitted-Below i c none = record {
    run = λ m p.
        (gated-Below D s w 1 _ (budget_allows D.config c 1) (new_sent-Adds i)).run m
          (p.0, ap (λ x. budget_allows D.config x 1) p.1);
  }

  new-Below : (i : OrderIntent) → Keeps (Below D s w 0 (budget D s w)) (submit_new D i)
  unfolding submit_new
  new-Below i =
      chain (reads _ (λ m p. (p, refl)))
        λ c. new_admitted-Below i c (admission_problem D.config c i)

  checked-Below :
      (i : OrderIntent) (problem : Option RegistryError)
      → Keeps (Below D s w 0 (budget D s w)) (submit_checked D i problem)
  unfolding submit_checked
  checked-Below i (some problem) = returns-Below D s w _
  checked-Below i none =
      chain (reads-Below D s w _)
        λ existing. by_option existing (new-Below i) λ r. returns-Below D s w _

  single-Below : (i : OrderIntent) → Keeps (Below D s w 0 (budget D s w)) (submit_exclusive D i)
  unfolding submit_exclusive
  single-Below i = chain (reads-Below D s w _) λ latched.
      by_if latched (returns-Below D s w _)
        (chain (computes-Below D s w _) λ problem. checked-Below i problem)

module _ {W : Type 0} (D : Deps W) where
  -- Each send of the venue was counted, and the writes counted in the cycle are within the budget.
  abbrev pub IsPaid : Machine W → Machine W → Type 0
  IsPaid before after =
      (sends after.trace + before.coordinator.writes_this_cycle
        ≤ sends before.trace + after.coordinator.writes_this_cycle)
      × (after.coordinator.writes_this_cycle ≤ D.config.write_budget_per_cycle)

  paid {ℓ} :
      {A : Type ℓ} {step : Step W A} (m : Machine W)
      → ((s w : ℕ) → Keeps (Below D s w 0 (budget D s w)) step)
      → m.coordinator.writes_this_cycle ≤ D.config.write_budget_per_cycle
      → IsPaid m (step m).1
  paid {step = step} m keeps start =
      let after =
        keeps_machine step (keeps (sends m.trace) m.coordinator.writes_this_cycle) m
          (record { counted = omega arith; capped = start }) in
      let counted = after.counted in (omega arith, after.capped)

  -- If the writes counted in the cycle are within the budget before a batch, then after it, however it
  -- ends, they are too, and it made at most as many sends as it counted writes.
  pub submit_batch_exclusive_bounded :
      (is : List OrderIntent) (m : Machine W)
      → m.coordinator.writes_this_cycle ≤ D.config.write_budget_per_cycle
      → IsPaid m (submit_batch_exclusive D is m).1
  submit_batch_exclusive_bounded is m start = paid m (λ s w. batch-Below D s w is) start

  -- If the writes counted in the cycle are within the budget before an intent is submitted, then after
  -- that, however it ends, they are too, and it made at most as many sends as it counted writes.
  pub submit_exclusive_bounded :
      (i : OrderIntent) (m : Machine W)
      → m.coordinator.writes_this_cycle ≤ D.config.write_budget_per_cycle
      → IsPaid m (submit_exclusive D i m).1
  submit_exclusive_bounded i m start = paid m (λ s w. single-Below D s w i) start

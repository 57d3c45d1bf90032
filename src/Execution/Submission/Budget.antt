-- ===== src/Execution/Submission/Budget.antt =====
-- src/execution/coordinator.ts: the sends of a place, and the writes that it adds to those of its cycle.
pub mod Spent
use multi_venue_grid_engine.Base.{
  ℕ, ◌+◌, ◌-◌, ◌≤◌, ◌≡◌, refl, sym, subst, ◌∙◌, arith, inl, inr, Bool, true, false, not, Bool-cases,
  any, Option, some, none, List, [], ◌∷◌, Text, text, text_eq, length, if◌then◌else◌, get_entry,
  Outcome,
}
use multi_venue_grid_engine.Execution.IntentStatus.{IntentStatus}
use multi_venue_grid_engine.Execution.Intents.{RegistryError, OrderIntent}
use multi_venue_grid_engine.Execution.RegistryState.{RegistryState, is_unset}
use multi_venue_grid_engine.Execution.Observations.{ExecutionFacts}
use multi_venue_grid_engine.Execution.Ports.{
  OrderAck, VenueWriteResult, acknowledged, venue_rejected, venue_unknown, venue_not_sent,
  unrecognized, FenceResult, fence_not_sent, fence_sent, fence_unknown, Interruption,
  stream_execution, stream_reconnected, Awaited, ExposureInputs,
}
use multi_venue_grid_engine.Execution.CoordinatorState.{
  Coordinator, observe_stream_sequence, add_problem, note_stream_event, defer_stream_execution,
  stream_reconnect, interrupt, interrupt_all, is_risk_increasing, is_empty,
}
use multi_venue_grid_engine.Execution.Steps.{
  Effect, persisted, checkpointed, placed, cancel_sent, Machine, Deps, Step, return, gets, modify,
  emit, await, change, of_outcome, persist, latch_unless,
}
use multi_venue_grid_engine.Execution.Steps.Rules.{
  Triple, Keeps, chain, changes, returns, reads, computes, by_if, by_option, keeps_machine, weaken,
}
use multi_venue_grid_engine.Execution.Admission.{exposure_problem, gate_inputs, budget_allows}
use multi_venue_grid_engine.Execution.Submission.{
  PlaceValue, withheld, answered, BatchProblem, batch_refused, mark, is_own_ack, link_ack,
  is_duplicate_rejection, apply_place_result, apply_place_outcome, leave_fence_with, place_callback,
  run_place, send_durable, send_if_durable, send_place, after_send, send_all, send_batch,
  submit_batch_checked, submit_batch_exclusive,
}
use multi_venue_grid_engine.Execution.CoordinatorState.Writes.{interrupt_all-writes}

latch-writes :
    (b : Bool) (c : Coordinator) → (latch_unless b c).writes_this_cycle ≡ c.writes_this_cycle
latch-writes true c = refl
latch-writes false c = refl

-- The calls of the venue that send a place or a cancel.
unfoldable pub sends : List Effect → ℕ
sends [] = 0
sends (placed i c ∷ es) = 1 + sends es
sends (cancel_sent q c ∷ es) = 1 + sends es
sends (persisted s durable ∷ es) = sends es
sends (checkpointed cursor durable ∷ es) = sends es

-- Since there were `s` sends and `w` writes, the count of writes has grown by `k` more than the sends, at
-- least, and it is at most `n`.
module _ {W : Type 0} (D : Deps W) (s w : ℕ) where
  pub record Below (k n : ℕ) (m : Machine W) : Type 0 where
    pub counted : sends m.trace + w + k ≤ s + m.coordinator.writes_this_cycle
    pub capped : m.coordinator.writes_this_cycle ≤ n

  -- The same under a higher cap.
  pub raise : {k n l : ℕ} {m : Machine W} → Below k n m → n ≤ l → Below k l m
  raise p h = let capped = p.capped in record { counted = p.counted; capped = omega arith }

  unused : {n : ℕ} {m : Machine W} → Below 1 n m → Below 0 n m
  unused p = let counted = p.counted in record { counted = omega arith; capped = p.capped }

  awaits-Below :
      {A : Type 0} {n k : ℕ} {E : Machine W → Type 0} (call : W → Awaited W A)
      → Triple (Below k n) (await call) (λ _. Below k n) E
  unfolding await
  awaits-Below {n = n} {k = k} call = record {
    run = λ m p.
        let same = sym (interrupt_all-writes m.coordinator (call m.world).1) in
        record {
          counted = subst (λ x. sends m.trace + w + k ≤ s + x) same p.counted;
          capped = subst (λ x. x ≤ n) same p.capped;
        };
  }

  calls-Below :
      {n k : ℕ} (f : RegistryState → Outcome RegistryError RegistryState)
      → Keeps {W = W} (Below k n) (change f)
  calls-Below f =
      changes f (λ m p t e. record { counted = p.counted; capped = p.capped }) (λ m p. p)

  persists-Below :
      {n k : ℕ} {E : Machine W → Type 0} → Triple (Below k n) (persist D.ports) (λ _. Below k n) E
  unfolding persist await sends
  persists-Below {n = n} {k = k} = record {
    run = λ m p.
        let call = D.ports.persist_journal m.coordinator.registry m.world in
        let same = sym (
          latch-writes call.2 (interrupt_all m.coordinator call.1)
          ∙ interrupt_all-writes m.coordinator call.1) in
        record {
          counted = subst (λ x. sends m.trace + w + k ≤ s + x) same p.counted;
          capped = subst (λ x. x ≤ n) same p.capped;
        };
  }

  pub reads-Below {ℓ} :
      {A : Type ℓ} {n k : ℕ} {E : Machine W → Type 0} (f : Coordinator → A)
      → Triple (Below k n) (gets f) (λ _. Below k n) E
  reads-Below f = reads f (λ m p. p)

  pub returns-Below {ℓ} :
      {A : Type ℓ} {n k : ℕ} {E : Machine W → Type 0} (a : A)
      → Triple (Below k n) (return a) (λ _. Below k n) E
  returns-Below a = returns a (λ m p. p)

  pub computes-Below {ℓ} :
      {A : Type ℓ} {n k : ℕ} (r : Outcome RegistryError A)
      → Keeps {W = W} (Below k n) (of_outcome r)
  computes-Below r = computes r (λ m p a e. p) (λ m p. p)

  mark-Below :
      {n k : ℕ} (id : Text) (next : IntentStatus) (codes : List Text)
      → Keeps (Below k n) (mark D id next codes)
  unfolding mark
  mark-Below id next codes = chain (calls-Below _) λ _. returns-Below _

  ack-Below : {n k : ℕ} (i : OrderIntent) (ack : OrderAck) → Keeps (Below k n) (link_ack D i ack)
  unfolding link_ack
  ack-Below i ack = chain (reads-Below _) λ c. by_if (not (is_own_ack D i ack)) (mark-Below _ _ _) (
      by_if (not (is_unset (get_entry c.registry.by_exchange_order_id ack.exchange_order_id)))
        (mark-Below _ _ _) (chain (calls-Below _) λ _. returns-Below _))

  result-Below :
      {n k : ℕ} (i : OrderIntent) (result : VenueWriteResult OrderAck)
      → Keeps (Below k n) (apply_place_result D i result)
  unfolding apply_place_result
  result-Below i (acknowledged ack) = ack-Below i ack
  result-Below i (venue_rejected code) =
      by_if (is_duplicate_rejection D code) (mark-Below _ _ _) (mark-Below _ _ _)
  result-Below i venue_unknown = mark-Below _ _ _
  result-Below i venue_not_sent = mark-Below _ _ _
  result-Below i unrecognized = mark-Below _ _ _

  outcome-Below :
      {n k : ℕ} (i : OrderIntent) (fenced : FenceResult PlaceValue)
      → Keeps (Below k n) (apply_place_outcome D i fenced)
  unfolding apply_place_outcome
  outcome-Below i (fence_not_sent codes) = mark-Below _ _ _
  outcome-Below i (fence_unknown codes) = mark-Below _ _ _
  outcome-Below i (fence_sent none) = mark-Below _ _ _
  outcome-Below i (fence_sent (some (withheld codes))) = mark-Below _ _ _
  outcome-Below i (fence_sent (some (answered result))) = result-Below i result

  -- The slack of one is used up by the send.
  abbrev Sends {ℓ} : {A : Type ℓ} → ℕ → Step W A → Type 0
  Sends n step = Triple (Below 1 n) step (λ _. Below 0 n) (Below 0 n)

  callback-Sends :
      (n : ℕ) (i : OrderIntent) (revoked : Option (List Text))
      → Sends n (place_callback D i revoked)
  unfolding place_callback emit sends
  callback-Sends n i (some codes) = returns _ (λ m p. unused p)
  callback-Sends n i none =
      chain {Q = λ _. Below 0 n}
        (record {
          run =
              λ m p. let counted = p.counted in record { counted = omega arith; capped = p.capped };
        })
        λ _. chain (awaits-Below _) λ answer. returns-Below _

  run-Sends :
      (n : ℕ) (i : OrderIntent) (entering : Option (List Text)) → Sends n (run_place D i entering)
  unfolding run_place leave_fence_with
  run-Sends n i (some codes) = returns _ (λ m p. unused p)
  run-Sends n i none = chain (reads-Below _) λ revoked.
      chain (callback-Sends n i revoked) λ value. chain (awaits-Below _) λ leaving. returns-Below _

  durable-Sends : (n : ℕ) (i : OrderIntent) → Sends n (send_durable D i)
  unfolding send_durable
  durable-Sends n i = chain (awaits-Below _) λ entering. chain (run-Sends n i entering) λ fenced.
      chain (outcome-Below i fenced) λ codes. chain persists-Below λ durable. returns-Below _

  -- One more write at most.
  abbrev pub Adds {ℓ} : {A : Type ℓ} → ℕ → ℕ → Step W A → Type 0
  Adds n k step = Triple (Below 0 n) step (λ _. Below 0 (n + k)) (Below 0 (n + k))

  weakened {ℓ} :
      {A : Type ℓ} {step : Step W A} (n k : ℕ) → Keeps (Below 0 (n + k)) step → Adds n k step
  weakened n k keeps = record { run = λ m p. keeps.run m (raise p (omega arith)) }

  if_durable-Adds :
      (n : ℕ) (i : OrderIntent) (durable : Bool) → Adds n 1 (send_if_durable D i durable)
  unfolding send_if_durable modify
  if_durable-Adds n i false = weakened n 1 (mark-Below _ _ _)
  if_durable-Adds n i true =
      chain {Q = λ _. Below 1 (n + 1)}
        (record {
          run = λ m p.
              let counted = p.counted in
              let capped = p.capped in record { counted = omega arith; capped = omega arith };
        })
        λ _. durable-Sends (n + 1) i

  pub send_place-Adds : (n : ℕ) (i : OrderIntent) → Adds n 1 (send_place D i)
  unfolding send_place
  send_place-Adds n i =
      chain {Q = λ _. Below 0 n}
        (changes _ (λ m p t e. record { counted = p.counted; capped = p.capped })
          (λ m p. raise p (omega arith)))
        λ _. chain persists-Below λ durable. if_durable-Adds n i durable

  gate-Below :
      {n : ℕ} (c : Coordinator) (is : List OrderIntent) (inputs : Option ExposureInputs)
      → Keeps (Below 0 n) (gate_inputs D c is inputs)
  unfolding gate_inputs
  gate-Below c is none = returns-Below _
  gate-Below c is (some inputs) = chain (computes-Below _) λ d. returns-Below _

  pub exposure-Below : {n : ℕ} (is : List OrderIntent) → Keeps (Below 0 n) (exposure_problem D is)
  unfolding exposure_problem
  exposure-Below is =
      by_if (not (any is_risk_increasing is)) (returns-Below _)
        (chain (awaits-Below _) λ inputs. chain (reads-Below _) λ c. gate-Below c is inputs)

  abbrev pub budget : ℕ
  budget = D.config.write_budget_per_cycle

  -- After the loop, at most one write for each intent.
  pub send_all-Adds :
      (n : ℕ) (stopped : Option Text) (is : List OrderIntent)
      → Adds n (length is) (send_all D stopped is)
  unfolding send_all
  send_all-Adds n stopped [] = returns _ (λ m p. raise p (omega arith))
  send_all-Adds n stopped (i ∷ is) = chain (reads-Below _) λ reason.
      by_option reason
        (chain
          (weaken {Q' = λ _. Below 0 (n + 1)} (λ a m q. q) (λ m e. raise e (omega arith))
            (send_place-Adds n i))
          λ codes. chain (reads-Below _) λ status.
            chain
              (weaken {Q' = λ _. Below 0 (n + length (i ∷ is))} (λ a m q. raise q (omega arith))
                (λ m e. raise e (omega arith)) (send_all-Adds (n + 1) (after_send D status) is))
              λ rest. returns-Below _)
        λ code.
          chain
            (weaken {Q' = λ _. Below 0 (n + length (i ∷ is))} (λ a m q. raise q (omega arith))
              (λ m e. raise e (omega arith)) (send_all-Adds n (some code) is))
            λ rest. returns-Below _

  -- A step that adds at most `k` writes, where the budget allows `k` more.
  spends {ℓ} :
      {A : Type ℓ} {step : Step W A} (k : ℕ)
      → ((n : ℕ) → Adds n k step)
      → Triple
          (λ m. Below 0 budget m × (true ≡ budget_allows D.config m.coordinator k))
          step
          (λ _. Below 0 budget)
          (Below 0 budget)
  unfolding budget_allows
  spends k adds = record {
    run = λ m p.
        let fits : m.coordinator.writes_this_cycle + k ≤ budget = ground arith in
        (weaken (λ a m q. raise q (omega arith)) (λ m e. raise e (omega arith))
            (adds (budget - k))).run
          m (record { counted = p.0.counted; capped = omega arith });
  }

  -- A step behind the test of the budget.
  pub gated-Below {ℓ} :
      {A : Type ℓ} {step : Step W A} (k : ℕ) (refusal : A) (allowed : Bool)
      → ((n : ℕ) → Adds n k step)
      → Triple
          (λ m. Below 0 budget m × (allowed ≡ budget_allows D.config m.coordinator k))
          (if not allowed then return refusal else step)
          (λ _. Below 0 budget)
          (Below 0 budget)
  gated-Below k refusal false adds = returns refusal (λ m p. p.0)
  gated-Below k refusal true adds = spends k adds

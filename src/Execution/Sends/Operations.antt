-- ===== src/Execution/Sends/Operations.antt =====
-- src/execution/coordinator.ts: every operation of the coordinator keeps the invariant, in any sequence.
use multi_venue_grid_engine.Base.{
  ℕ, ◌≡◌, refl, sym, subst, Bool, true, false, ◌||◌, ◌∙◌, Bool-cases, inl, inr, Option, some, none,
  List, [], ◌∷◌, Text, Outcome, ok, err, text_eq,
}
use multi_venue_grid_engine.Execution.Intents.{RegistryError}
use multi_venue_grid_engine.Execution.RegistryState.{RegistryState}
use multi_venue_grid_engine.Execution.Registry.Terminal.{CallPath}
use multi_venue_grid_engine.Execution.Observations.{ExecutionFacts, ExchangeOrderObservation}
use multi_venue_grid_engine.Execution.CoordinatorState.{
  Coordinator, note_stream_event, stream_reconnect, observe_stream_sequence, observe-registry,
  problem-registry, defer-registry,
}
use multi_venue_grid_engine.Execution.Steps.{Step, Machine, Deps}
use multi_venue_grid_engine.Execution.Steps.Rules.{
  Keeps, Ends, chain, by_if, by_option, keeps_machine,
}
use multi_venue_grid_engine.Execution.Feed.{release, revoke}
use multi_venue_grid_engine.Execution.OrderScan.{
  failed_scan, scan_valid, scan_read, scan_exclusive, cancel_all, cleanup_exclusive,
  planned_cancels, stop_after,
}
use multi_venue_grid_engine.Execution.Operations.{
  occupy, occupy_revoked, releasing, exclusively, submit, submit_batch, cancel,
  reconcile_unresolved, scan_open_orders, cleanup_owned_duplicates, replay_executions,
  ingest_stream_execution, continuation_exclusive, granting, evaluate_continuation, start_cycle,
  after_finally,
}
use multi_venue_grid_engine.Execution.Session.{
  Operation, submits, submits_batch, cancels, reconciles, scans, cleans_up, replays, evaluates,
  ingests, reconnects, starts_cycle, perform_operation, run_operations, finished,
}
use multi_venue_grid_engine.Execution.Sends.{IsGood}
use multi_venue_grid_engine.Execution.Sends.Rules.{
  awaits, modifies, returns-On, reads-On, computes-On,
}
use multi_venue_grid_engine.Execution.Sends.Submit.{submit-Good, submit_batch-Good}
use multi_venue_grid_engine.Execution.Sends.Cancel.{cancel-Good}
use multi_venue_grid_engine.Execution.Sends.Feed.{
  reconcile-Good, replay-Good, ingest-Good, release-Good,
}

module _ {W : Type 0} (D : Deps W) (s0 : RegistryState) where
  failed-Good : (code : Text) → Keeps (IsGood D s0) (failed_scan D code)
  unfolding failed_scan
  failed-Good code = chain (modifies D s0 _ (λ c. refl)) λ _. returns-On D s0 _

  scan_valid-Good :
      (epoch : Text) (orders : List ExchangeOrderObservation) (valid : Bool)
      → Keeps (IsGood D s0) (scan_valid D epoch orders valid)
  unfolding scan_valid
  scan_valid-Good epoch orders false = failed-Good _
  scan_valid-Good epoch orders true = chain (reads-On D s0 _) λ s.
      chain (computes-On D s0 _) λ scan. chain (modifies D s0 _ (λ c. refl)) λ _. returns-On D s0 _

  scan_read-Good :
      (epoch : Text) (snapshot : Option (List ExchangeOrderObservation))
      → Keeps (IsGood D s0) (scan_read D epoch snapshot)
  unfolding scan_read
  scan_read-Good epoch none = failed-Good _
  scan_read-Good epoch (some orders) =
      chain (computes-On D s0 _) λ valid. scan_valid-Good epoch orders valid

  scan-Good : (epoch : Text) → Keeps (IsGood D s0) (scan_exclusive D epoch)
  unfolding scan_exclusive
  scan-Good epoch =
      chain (modifies D s0 _ (λ c. refl))
        λ _. chain (awaits D s0 _) λ snapshot. scan_read-Good epoch snapshot

  cancels-Good :
      (stopped : Option Text) (ids : List Text) → Keeps (IsGood D s0) (cancel_all D stopped ids)
  unfolding cancel_all
  cancels-Good stopped [] = returns-On D s0 _
  cancels-Good stopped (x ∷ xs) = chain (reads-On D s0 _) λ s. chain (computes-On D s0 _) λ id.
      by_option stopped
        (chain (cancel-Good D s0 id) λ result. chain (reads-On D s0 _) λ s'.
          chain (computes-On D s0 _)
            λ status. chain (cancels-Good (stop_after status) xs) λ rest. returns-On D s0 _)
        λ code.
          chain (computes-On D s0 _)
            λ status. chain (cancels-Good (some code) xs) λ rest. returns-On D s0 _

  cleanup-Good : (epoch : Text) → Keeps (IsGood D s0) (cleanup_exclusive D epoch)
  unfolding cleanup_exclusive
  cleanup-Good epoch =
      chain (scan-Good epoch) λ scan.
        chain (cancels-Good none (planned_cancels scan.duplicates)) λ done. returns-On D s0 _

  granting-Good : (rounds : ℕ) (epoch : Text) → Keeps (IsGood D s0) (granting D rounds epoch)
  unfolding granting continuation_exclusive
  granting-Good rounds epoch =
      chain
        (chain (reconcile-Good D s0) λ _. chain (scan-Good epoch) λ _. chain (replay-Good D s0) λ _.
          chain (reads-On D s0 _) λ reservation. chain (awaits D s0 _) λ inputs.
            chain (awaits D s0 _) λ view. chain (reads-On D s0 _) λ blockers. returns-On D s0 _)
        λ decision. chain (modifies D s0 _ (λ c. refl)) λ _. returns-On D s0 _

  after_release {ℓ} :
      {A : Type ℓ} (r : Outcome RegistryError A)
      (freed : Outcome RegistryError (Unit {0}) × Machine W)
      → IsGood D s0 freed.1
      → Ends (λ _. IsGood D s0) (IsGood D s0) (after_finally r freed.0, freed.1)
  after_release (ok a) (ok u, m) p = p
  after_release (err e) (ok u, m) p = p
  after_release r (err e, m) p = p

  releasing-Good {ℓ} :
      {A : Type ℓ} (rounds : ℕ) (finally : Coordinator → Coordinator) (body : Step W A)
      → ((c : Coordinator) → (finally c).registry ≡ c.registry)
      → Keeps (IsGood D s0) body
      → Keeps (IsGood D s0) (releasing D rounds finally body)
  unfolding releasing
  releasing-Good rounds finally body same keeps = record {
    run = λ m p.
        let ran = keeps_machine body keeps m p in
        let left = record (body m).1 { coordinator = finally (body m).1.coordinator } in
        after_release (body m).0 (release D rounds left) (
          release-Good D s0 rounds left (record {
            path =
                subst (CallPath D.decimal_js D.sha256_hex D.intent_fingerprint s0)
                  (sym (same (body m).1.coordinator)) ran.path;
            sends = ran.sends;
          }));
  }

  exclusively-Good {ℓ} :
      {A : Type ℓ} (answer : A) (rounds : ℕ) (enter finally : Coordinator → Coordinator)
      {body : Step W A}
      → ((c : Coordinator) → (enter c).registry ≡ c.registry)
      → ((c : Coordinator) → (finally c).registry ≡ c.registry)
      → Keeps (IsGood D s0) body
      → Keeps (IsGood D s0) (exclusively D rounds answer enter finally body)
  unfolding exclusively
  exclusively-Good answer rounds enter finally same same' keeps = chain (reads-On D s0 _) λ busy.
      by_if busy (returns-On D s0 _)
        (chain (modifies D s0 enter same) λ _. releasing-Good rounds finally _ same' keeps)

  note-registry :
      (c : Coordinator) (t : Option Text) → (note_stream_event c t).0.registry ≡ c.registry
  unfolding note_stream_event
  note-registry c t =
      problem-registry (observe_stream_sequence (record c { continuation_granted = false }) t).0 _
      ∙ observe-registry (record c { continuation_granted = false }) t

  ingest_stream-Good :
      (rounds : ℕ) (facts : ExecutionFacts) (sequence : Option Text)
      → Keeps (IsGood D s0) (ingest_stream_execution D rounds facts sequence)
  unfolding ingest_stream_execution
  ingest_stream-Good rounds facts sequence = chain (reads-On D s0 _) λ problem.
      chain (modifies D s0 _ (λ c. note-registry c sequence)) λ _. chain (reads-On D s0 _) λ c.
        by_if (c.busy || c.journal_failed)
          (chain (modifies D s0 _ (λ c. defer-registry c facts)) λ _. returns-On D s0 _)
          (chain (modifies D s0 occupy (λ c. refl))
            λ _. releasing-Good rounds (λ c. c) _ (λ c. refl) (ingest-Good D s0 facts _))

  start_cycle-registry : (c : Coordinator) → (start_cycle c).0.registry ≡ c.registry
  unfolding start_cycle
  start_cycle-registry c = elim (Bool-cases c.busy) [ inl e ↦ rw e refl | inr e ↦ rw e refl ]

  reconnect-registry : (c : Coordinator) → (stream_reconnect c).registry ≡ c.registry
  unfolding stream_reconnect
  reconnect-registry c = refl

  finish {ℓ} :
      {A : Type ℓ} {step : Step W A}
      → Keeps (IsGood D s0) step
      → Keeps (IsGood D s0) (finished step)
  finish keeps = chain keeps λ _. returns-On D s0 _

  kept : (rounds : ℕ) (op : Operation) → Keeps (IsGood D s0) (perform_operation D rounds op)
  unfolding perform_operation submit submit_batch cancel reconcile_unresolved scan_open_orders
      cleanup_owned_duplicates replay_executions evaluate_continuation
  kept rounds (submits i) =
      finish (exclusively-Good _ rounds occupy revoke (λ c. refl) (λ c. refl) (submit-Good D s0 i))
  kept rounds (submits_batch is) =
      finish (
        exclusively-Good _ rounds occupy revoke (λ c. refl) (λ c. refl) (submit_batch-Good D s0 is))
  kept rounds (cancels id) = finish (
      exclusively-Good _ rounds occupy_revoked (λ c. c) (λ c. refl) (λ c. refl)
        (cancel-Good D s0 id))
  kept rounds reconciles = finish (
      exclusively-Good _ rounds occupy_revoked (λ c. c) (λ c. refl) (λ c. refl)
        (reconcile-Good D s0))
  kept rounds (scans epoch) =
      finish (
        exclusively-Good _ rounds occupy_revoked (λ c. c) (λ c. refl) (λ c. refl) (scan-Good epoch))
  kept rounds (cleans_up epoch) = finish (
      exclusively-Good _ rounds occupy_revoked (λ c. c) (λ c. refl) (λ c. refl)
        (cleanup-Good epoch))
  kept rounds replays =
      finish (
        exclusively-Good _ rounds occupy_revoked (λ c. c) (λ c. refl) (λ c. refl)
          (replay-Good D s0))
  kept rounds (evaluates epoch) = finish (
      exclusively-Good _ rounds occupy_revoked (λ c. c) (λ c. refl) (λ c. refl)
        (granting-Good rounds epoch))
  kept rounds (ingests facts sequence) = finish (ingest_stream-Good rounds facts sequence)
  kept rounds reconnects = modifies D s0 stream_reconnect reconnect-registry
  kept rounds starts_cycle = modifies D s0 _ start_cycle-registry

  pub run-Good :
      (rounds : ℕ) (ops : List Operation) (m : Machine W)
      → IsGood D s0 m
      → IsGood D s0 (run_operations D rounds ops m)
  unfolding run_operations
  run-Good rounds [] m p = p
  run-Good rounds (op ∷ ops) m p =
      run-Good rounds ops _ (keeps_machine (perform_operation D rounds op) (kept rounds op) m p)

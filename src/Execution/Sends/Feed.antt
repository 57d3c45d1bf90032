-- ===== src/Execution/Sends/Feed.antt =====
-- src/execution/coordinator.ts: reconciliation, scans, the replay and the stream send nothing, and keep
-- the invariant.
use multi_venue_grid_engine.Base.{
  ℕ, refl, ◌||◌, zero, suc, not, true, false, Bool, Option, some, none, List, [], ◌∷◌, Text, ◌==◌,
  nat_eq, sort, text_leb,
}
use multi_venue_grid_engine.Execution.Intents.{IntentRecord, RecordedExecution}
use multi_venue_grid_engine.Execution.RegistryState.{RegistryState}
use multi_venue_grid_engine.Execution.Registry.{
  perform, link_call, resolve_call, apply_call, contradictions_call,
}
use multi_venue_grid_engine.Execution.Observations.{ExecutionFacts}
use multi_venue_grid_engine.Execution.Screening.{
  ClientOrderLookup, LookupContradiction, LookupDecision, unresolved, link_with, resolve_with,
}
use multi_venue_grid_engine.Execution.Ports.{ExecutionCursor, ExecutionPage}
use multi_venue_grid_engine.Execution.CoordinatorState.{unresolved_records}
use multi_venue_grid_engine.Execution.Steps.{Machine, Deps, Step, await, return}
use multi_venue_grid_engine.Execution.Steps.Rules.{Keeps, chain, by_if, by_option, keeps_machine}
use multi_venue_grid_engine.Execution.Reconciliation.{
  ReconcileItem, record_problem, keep_evidence, apply_decision, reconcile_lookup, reconcile_record,
  reconcile_all, finish_reconcile, reconcile_exclusive,
}
use multi_venue_grid_engine.Execution.Replay.{ExecutionPlan, problem, additions}
use multi_venue_grid_engine.Execution.Feed.{
  ReplayResult, PageEnd, ends, goes_on, ends_with, apply_entries, apply_plan, persist_added,
  save_cursor, replay_stopped, stop_on_problem, checkpoint, finish_replay, close_page, apply_page,
  check_page, read_page, replay_page, replay_pages, replay_exclusive, ingest_problem, ingest_plan,
  ingest_exclusive, drain, release, max_replay_pages, is_unusable,
}
use multi_venue_grid_engine.Execution.Sends.{IsGood}
use multi_venue_grid_engine.Execution.Sends.Rules.{
  awaits, modifies, calls, persists-Good, returns-On, reads-On, computes-On, by_call,
}

module _ {W : Type 0} (D : Deps W) (s0 : RegistryState) where
  problem-Good :
      (code : Text) (evidence : List ExecutionFacts)
      → Keeps (IsGood D s0) (record_problem D code evidence)
  unfolding record_problem perform
  problem-Good code evidence = chain (modifies D s0 _ (λ c. refl)) λ _.
      chain (reads-On D s0 _) λ before.
        chain (calls D s0 _ (by_call D s0 (contradictions_call _))) λ _.
          chain (reads-On D s0 _)
            λ after. by_if (after == before) (returns-On D s0 _) (persists-Good D s0)

  evidence-Good : (found : Option LookupContradiction) → Keeps (IsGood D s0) (keep_evidence D found)
  unfolding keep_evidence
  evidence-Good none = returns-On D s0 _
  evidence-Good (some found) = problem-Good _ _

  decision-Good :
      (r : IntentRecord) (decision : LookupDecision)
      → Keeps (IsGood D s0) (apply_decision D r decision)
  unfolding apply_decision perform
  decision-Good r (unresolved code found) = chain (evidence-Good found) λ durable. returns-On D s0 _
  decision-Good r (link_with l) =
      chain (calls D s0 _ (by_call D s0 (link_call _ _)))
        λ _. chain (reads-On D s0 _) λ next. returns-On D s0 _
  decision-Good r (resolve_with resolution) =
      chain (calls D s0 _ (by_call D s0 (resolve_call _ _)))
        λ _. chain (reads-On D s0 _) λ next. returns-On D s0 _

  lookup-Good :
      (r : IntentRecord) (lookup : Option ClientOrderLookup)
      → Keeps (IsGood D s0) (reconcile_lookup D r lookup)
  unfolding reconcile_lookup
  lookup-Good r none = returns-On D s0 _
  lookup-Good r (some lookup) =
      chain (reads-On D s0 _) λ s. chain (computes-On D s0 _) λ decision. decision-Good r decision

  record-Good : (r : IntentRecord) → Keeps (IsGood D s0) (reconcile_record D r)
  unfolding reconcile_record
  record-Good r = chain (awaits D s0 _) λ lookup. lookup-Good r lookup

  all-Good :
      (changed : Bool) (rs : List IntentRecord) → Keeps (IsGood D s0) (reconcile_all D changed rs)
  unfolding reconcile_all
  all-Good changed [] = returns-On D s0 _
  all-Good changed (r ∷ rs) = chain (record-Good r) λ turn.
      by_if turn.2 (chain (all-Good (changed || turn.1) rs) λ rest. returns-On D s0 _)
        (returns-On D s0 _)

  finish-Good :
      (pass : List ReconcileItem × Bool × Bool) → Keeps (IsGood D s0) (finish_reconcile D pass)
  unfolding finish_reconcile
  finish-Good pass = by_if (not pass.2) (returns-On D s0 _) (
      by_if (not pass.1) (returns-On D s0 _)
        (chain (persists-Good D s0) λ durable. returns-On D s0 _))

  pub reconcile-Good : Keeps (IsGood D s0) (reconcile_exclusive D)
  unfolding reconcile_exclusive
  reconcile-Good = chain (reads-On D s0 _) λ c.
      by_if c.journal_failed (returns-On D s0 _)
        (chain (all-Good false (unresolved_records c.registry)) λ pass. finish-Good pass)

  entries-Good :
      (es : List (Text × List RecordedExecution)) → Keeps (IsGood D s0) (apply_entries D es)
  unfolding apply_entries perform
  entries-Good [] = returns-On D s0 _
  entries-Good (e ∷ es) =
      chain (calls D s0 _ (by_call D s0 (apply_call _ _)))
        λ _. chain (entries-Good es) λ rest. returns-On D s0 _

  plan-Good :
      (added : List (Text × List RecordedExecution)) → Keeps (IsGood D s0) (apply_plan D added)
  unfolding apply_plan
  plan-Good added =
      chain (entries-Good (sort (λ p q. text_leb p.0 q.0) added)) λ ids. returns-On D s0 _

  added-Good : (ids : List Text) → Keeps (IsGood D s0) (persist_added D ids)
  unfolding persist_added
  added-Good [] = returns-On D s0 _
  added-Good (id ∷ ids) = persists-Good D s0

  stopped-Good : (code : Text) (ids : List Text) → Keeps (IsGood D s0) (replay_stopped D code ids)
  unfolding replay_stopped
  stopped-Good code ids =
      chain (modifies D s0 _ (λ c. refl)) λ _. chain (reads-On D s0 _) λ codes. returns-On D s0 _

  saves-Good : (next : ExecutionCursor) → Keeps (IsGood D s0) (save_cursor D next)
  unfolding save_cursor await
  saves-Good next = record {
    run = λ m p.
        let kept = (awaits D s0 {E = IsGood D s0} (D.ports.persist_checkpoint next)).run m p in
        record { path = kept.path; sends = (tt, kept.sends) };
  }

  checkpoint-Good : (next : ExecutionCursor) → Keeps (IsGood D s0) (checkpoint D next)
  unfolding checkpoint
  checkpoint-Good next = chain (saves-Good next) λ saved.
      by_if saved (chain (modifies D s0 _ (λ c. refl)) λ _. returns-On D s0 _) (returns-On D s0 _)

  finish_replay-Good : (ids : List Text) → Keeps (IsGood D s0) (finish_replay D ids)
  unfolding finish_replay
  finish_replay-Good ids =
      chain (modifies D s0 _ (λ c. refl)) λ _. chain (reads-On D s0 _) λ codes. returns-On D s0 _

  ends-Good :
      {step : Step W ReplayResult}
      → Keeps (IsGood D s0) step
      → Keeps (IsGood D s0) (ends_with D step)
  ends-Good keeps = chain keeps λ result. returns-On D s0 _

  close-Good :
      (page : ExecutionPage) (ids : List Text) (durable : Bool)
      → Keeps (IsGood D s0) (close_page D page ids durable)
  unfolding close_page
  close-Good page ids false = ends-Good (stopped-Good _ ids)
  close-Good page ids true = chain (checkpoint-Good page.next_cursor) λ saved.
      by_if (not saved) (ends-Good (stopped-Good _ ids))
        (by_if page.has_more (returns-On D s0 _) (ends-Good (finish_replay-Good ids)))

  apply_page-Good :
      (page : ExecutionPage) (ids : List Text) (plan : ExecutionPlan)
      → Keeps (IsGood D s0) (apply_page D page ids plan)
  unfolding apply_page stop_on_problem
  apply_page-Good page ids (problem code evidence) =
      ends-Good (chain (problem-Good code evidence) λ durable. stopped-Good _ ids)
  apply_page-Good page ids (additions added) =
      chain (plan-Good added) λ new. chain (added-Good new) λ durable. close-Good page _ durable

  check_page-Good :
      (page : ExecutionPage) (ids : List Text) (valid : Bool)
      → Keeps (IsGood D s0) (check_page D page ids valid)
  unfolding check_page
  check_page-Good page ids false = ends-Good (stopped-Good _ ids)
  check_page-Good page ids true =
      chain (reads-On D s0 _) λ s. chain (computes-On D s0 _) λ plan. apply_page-Good page ids plan

  read_page-Good :
      (page : Option ExecutionPage) (ids : List Text) → Keeps (IsGood D s0) (read_page D page ids)
  unfolding read_page
  read_page-Good none ids = ends-Good (stopped-Good _ ids)
  read_page-Good (some page) ids =
      chain (computes-On D s0 _) λ valid. check_page-Good page ids valid

  page-Good : (ids : List Text) → Keeps (IsGood D s0) (replay_page D ids)
  unfolding replay_page
  page-Good ids =
      chain (reads-On D s0 _) λ cursor. chain (awaits D s0 _) λ page. read_page-Good page ids

  after_page-Good :
      (n : ℕ) (turn : PageEnd)
      → ((ids : List Text) → Keeps (IsGood D s0) (replay_pages D n ids))
      → Keeps
          (IsGood D s0)
          (elim turn [ ends result ↦ return result | goes_on ids ↦ replay_pages D n ids ])
  after_page-Good n (ends result) rest = returns-On D s0 _
  after_page-Good n (goes_on ids) rest = rest ids

  pages-Good : (n : ℕ) (ids : List Text) → Keeps (IsGood D s0) (replay_pages D n ids)
  unfolding replay_pages
  pages-Good zero ids = stopped-Good _ ids
  pages-Good (suc n) ids =
      chain (page-Good ids) λ turn. after_page-Good n turn (λ new. pages-Good n new)

  pub replay-Good : Keeps (IsGood D s0) (replay_exclusive D)
  unfolding replay_exclusive
  replay-Good = chain (reads-On D s0 _) λ latched.
      by_if latched (returns-On D s0 _)
        (chain (modifies D s0 _ (λ c. refl)) λ _. pages-Good max_replay_pages [])

  ingest_problem-Good :
      (codes : List Text) (code : Text) (evidence : List ExecutionFacts)
      → Keeps (IsGood D s0) (ingest_problem D codes code evidence)
  unfolding ingest_problem
  ingest_problem-Good codes code evidence =
      chain (problem-Good code evidence) λ durable. returns-On D s0 _

  ingest_plan-Good :
      (facts : ExecutionFacts) (codes : List Text) (plan : ExecutionPlan)
      → Keeps (IsGood D s0) (ingest_plan D facts codes plan)
  unfolding ingest_plan
  ingest_plan-Good facts codes (problem code evidence) =
      by_if (is_unusable code) (ingest_problem-Good codes _ _)
        (ingest_problem-Good codes code evidence)
  ingest_plan-Good facts codes (additions added) =
      chain (plan-Good added) λ ids. chain (added-Good ids) λ durable. returns-On D s0 _

  pub ingest-Good :
      (facts : ExecutionFacts) (codes : List Text)
      → Keeps (IsGood D s0) (ingest_exclusive D facts codes)
  unfolding ingest_exclusive
  ingest-Good facts codes =
      chain (reads-On D s0 _)
        λ s. chain (computes-On D s0 _) λ plan. ingest_plan-Good facts codes plan

  drain-Good : (n : ℕ) → Keeps (IsGood D s0) (drain D n)
  unfolding drain
  drain-Good zero = returns-On D s0 _
  drain-Good (suc n) = chain (reads-On D s0 _) λ next. by_option next (returns-On D s0 _) λ facts.
      chain (modifies D s0 _ (λ c. refl)) λ _.
        chain (ingest-Good facts []) λ result. chain (modifies D s0 _ (λ c. refl)) λ _. drain-Good n

  pub release-Good : (n : ℕ) (m : Machine W) → IsGood D s0 m → IsGood D s0 (release D n m).1
  unfolding release
  release-Good n m p =
      let drained = keeps_machine (drain D n) (drain-Good n) m p in
      record { path = drained.path; sends = drained.sends }

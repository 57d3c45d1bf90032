-- ===== src/Execution/Feed.antt =====
-- src/execution/coordinator.ts: the replay of the venue's execution feed up to a durable checkpoint, the
-- recording of a stream execution, and the release of the coordinator.
use multi_venue_grid_engine.Base.{
  ℕ, zero, suc, Bool, true, false, not, Option, none, some, List, [], ◌∷◌, ◌++◌, map, Text, text,
  text_eq, text_leb, keep, sort, ok, if◌then◌else◌, ◌==◌,
}
use multi_venue_grid_engine.Execution.Intents.{RecordedExecution}
use multi_venue_grid_engine.Execution.Registry.{apply_executions}
use multi_venue_grid_engine.Execution.Observations.{ExecutionFacts}
use multi_venue_grid_engine.Execution.Ports.{ExecutionCursor, ExecutionPage}
use multi_venue_grid_engine.Execution.CoordinatorState.{
  Coordinator, execution_blocker_codes, add_blocker,
}
use multi_venue_grid_engine.Execution.Steps.{
  Step, Deps, checkpointed, return, of_outcome, ◌>>=◌, ◌>>◌, gets, modify, await, change, persist,
}
use multi_venue_grid_engine.Execution.Reconciliation.{record_problem}
use multi_venue_grid_engine.Execution.Replay.{
  ExecutionPlan, problem, additions, plan_executions, is_valid_cursor,
}

-- `ExecutionReplayResult`
pub record ReplayResult : Type 0 where
  pub reason_codes : List Text
  pub recorded_ids : List Text

-- What a page does: a result that ends the replay, or the executions so far.
pub data PageEnd : Type 0 where
  ends : ReplayResult → PageEnd
  goes_on : List Text → PageEnd

abbrev pub max_replay_pages : ℕ
max_replay_pages = 100

abbrev pub replay_incomplete : Text
replay_incomplete = text "EXECUTION_REPLAY_INCOMPLETE"

abbrev pub is_unusable : Text → Bool
is_unusable code = code == text "EXECUTION_OBSERVATION_INVALID"

abbrev pub execution_key : RecordedExecution → Text
execution_key x = x.execution_id

-- `new Set(["EXECUTION_REPLAY_INCOMPLETE"])` in place of the blockers.
abbrev pub begin_replay : Coordinator → Coordinator
begin_replay c = record c { execution_blockers = replay_incomplete ∷ [] }

abbrev pub end_replay : Coordinator → Coordinator
end_replay c = record c {
  execution_blockers = keep (λ code. not (code == replay_incomplete)) c.execution_blockers;
}

abbrev pub move_cursor : ExecutionCursor → Coordinator → Coordinator
move_cursor next c = record c { cursor = some next }

abbrev pub revoke : Coordinator → Coordinator
revoke c = record c { continuation_granted = false }

abbrev pub shift {ℓ} : {A : Type ℓ} → List A → List A
shift [] = []
shift (x ∷ xs) = xs

module _ {W : Type 0} (D : Deps W) where
  -- The loop of `applyPlan`, over entries in the order of their intent IDs.
  unfoldable pub apply_entries : List (Text × List RecordedExecution) → Step W (List Text)
  apply_entries [] = return []
  apply_entries (e ∷ es) =
      change (λ s. apply_executions D.decimal_js s e.0 e.1)
      >> (apply_entries es >>= λ rest. return (map execution_key e.1 ++ rest))

  -- `applyPlan`
  unfoldable pub apply_plan : List (Text × List RecordedExecution) → Step W (List Text)
  apply_plan added = do
    ids ← apply_entries (sort (λ p q. text_leb p.0 q.0) added)
    return (sort text_leb ids)

  -- `persist()`, unless nothing was added.
  unfoldable pub persist_added : List Text → Step W Bool
  persist_added [] = return true
  persist_added (id ∷ ids) = persist D.ports

  -- `checkpoints.persist(...)`
  unfoldable pub save_cursor : ExecutionCursor → Step W Bool
  unfolding await
  save_cursor next m =
      let step = await (D.ports.persist_checkpoint next) m in
      let durable = (D.ports.persist_checkpoint next m.world).2 in
      (ok durable, record step.1 { trace = checkpointed next durable ∷ m.trace })

  -- `replayStopped`
  unfoldable pub replay_stopped : Text → List Text → Step W ReplayResult
  replay_stopped code recorded_ids = do
    modify (λ c. add_blocker c code)
    codes ← gets execution_blocker_codes
    return (record { reason_codes = codes; recorded_ids = recorded_ids })

  -- The problem of a plan, with its evidence made durable.
  unfoldable pub stop_on_problem : Text → List ExecutionFacts → List Text → Step W ReplayResult
  stop_on_problem code evidence recorded_ids = do
    durable ← record_problem D code evidence
    replay_stopped (if durable then code else text "JOURNAL_WRITE_FAILED") recorded_ids

  -- The checkpoint of a page whose executions are durable; whether it was saved.
  unfoldable pub checkpoint : ExecutionCursor → Step W Bool
  checkpoint next = do
    saved ← save_cursor next
    (if saved then (modify (move_cursor next) >> return true) else return false)

  unfoldable pub finish_replay : List Text → Step W ReplayResult
  finish_replay recorded_ids = do
    modify end_replay
    codes ← gets execution_blocker_codes
    return (record { reason_codes = codes; recorded_ids = recorded_ids })

  abbrev pub ends_with : Step W ReplayResult → Step W PageEnd
  ends_with step = step >>= λ result. return (ends result)

  -- After the executions of a page are recorded.
  unfoldable pub close_page : ExecutionPage → List Text → Bool → Step W PageEnd
  close_page page recorded_ids false =
      ends_with (replay_stopped (text "JOURNAL_WRITE_FAILED") recorded_ids)
  close_page page recorded_ids true = do
    saved ← checkpoint page.next_cursor
    (if not saved
        then ends_with (replay_stopped (text "EXECUTION_CHECKPOINT_WRITE_FAILED") recorded_ids)
        else if page.has_more
        then return (goes_on recorded_ids)
        else ends_with (finish_replay recorded_ids))

  unfoldable pub apply_page : ExecutionPage → List Text → ExecutionPlan → Step W PageEnd
  apply_page page recorded_ids (problem code evidence) =
      ends_with (stop_on_problem code evidence recorded_ids)
  apply_page page recorded_ids (additions added) = do
    ids ← apply_plan added
    durable ← persist_added ids
    close_page page (recorded_ids ++ ids) durable

  unfoldable pub check_page : ExecutionPage → List Text → Bool → Step W PageEnd
  check_page page recorded_ids false =
      ends_with (replay_stopped (text "EXECUTION_PAGE_INVALID") recorded_ids)
  check_page page recorded_ids true = do
    s ← gets (λ c. c.registry)
    plan ← of_outcome (plan_executions D.decimal_js D.config s page.executions)
    apply_page page recorded_ids plan

  unfoldable pub read_page : Option ExecutionPage → List Text → Step W PageEnd
  read_page none recorded_ids =
      ends_with (replay_stopped (text "EXECUTION_REPLAY_READ_FAILED") recorded_ids)
  read_page (some page) recorded_ids = do
    valid ← of_outcome (is_valid_cursor page.next_cursor D.config.scope_key)
    check_page page recorded_ids valid

  -- The turn of one page.
  unfoldable pub replay_page : List Text → Step W PageEnd
  replay_page recorded_ids = do
    cursor ← gets (λ c. c.cursor)
    page ← await (D.ports.list_executions_since cursor)
    read_page page recorded_ids

  -- The loop over at most so many pages.
  unfoldable pub replay_pages : ℕ → List Text → Step W ReplayResult
  replay_pages zero recorded_ids = replay_stopped (text "EXECUTION_REPLAY_PAGE_LIMIT") recorded_ids
  replay_pages (suc n) recorded_ids = replay_page recorded_ids >>= λ turn. elim turn [
    | ends result ↦ return result
    | goes_on ids ↦ replay_pages n ids
  ]

  -- `replayExclusive`
  unfoldable pub replay_exclusive : Step W ReplayResult
  replay_exclusive = do
    latched ← gets (λ c. c.journal_failed)
    (if latched
        then return (record { reason_codes = text "JOURNAL_LATCHED" ∷ []; recorded_ids = [] })
        else (modify begin_replay >> replay_pages max_replay_pages []))

  -- The problem of a stream execution's plan.
  unfoldable pub ingest_problem : List Text → Text → List ExecutionFacts → Step W ReplayResult
  ingest_problem codes code evidence = do
    durable ← record_problem D code evidence
    return (record {
      reason_codes = codes ++ (code ∷ (if durable then [] else text "JOURNAL_WRITE_FAILED" ∷ []));
      recorded_ids = [];
    })

  unfoldable pub ingest_plan : ExecutionFacts → List Text → ExecutionPlan → Step W ReplayResult
  ingest_plan facts codes (problem code evidence) =
      if is_unusable code
      then ingest_problem codes (text "EXECUTION_STREAM_EVENT_UNUSABLE") (facts ∷ [])
      else ingest_problem codes code evidence
  ingest_plan facts codes (additions added) = do
    ids ← apply_plan added
    durable ← persist_added ids
    return (record {
      reason_codes = codes ++ (if durable then [] else text "JOURNAL_WRITE_FAILED" ∷ []);
      recorded_ids = ids;
    })

  -- `ingestExclusive`
  unfoldable pub ingest_exclusive : ExecutionFacts → List Text → Step W ReplayResult
  ingest_exclusive facts codes = do
    s ← gets (λ c. c.registry)
    plan ← of_outcome (plan_executions D.decimal_js D.config s (facts ∷ []))
    ingest_plan facts codes plan

  abbrev pub drop_first : Coordinator → Coordinator
  drop_first c = record c { deferred_stream = shift c.deferred_stream }

  -- The deferred execution that the loop takes next, if it goes on.
  abbrev pub next_deferred : Coordinator → Option ExecutionFacts
  next_deferred c =
      if c.journal_failed
      then none
      else elim c.deferred_stream [ [] ↦ none | facts ∷ rest ↦ some facts ]

  -- The loop of `release`, for at most so many executions.
  unfoldable pub drain : ℕ → Step W (Unit {0})
  drain zero = return tt
  drain (suc n) = gets next_deferred >>= λ next. elim next [
    | none ↦ return tt
    | some facts ↦
        modify revoke >> (ingest_exclusive facts [] >>= λ result. (modify drop_first >> drain n))
  ]

  -- `release`: the coordinator is free afterwards, also where the loop throws.
  unfoldable pub release : ℕ → Step W (Unit {0})
  release n m =
      let drained = drain n m in
      (drained.0, record drained.1 { coordinator = record drained.1.coordinator { busy = false } })

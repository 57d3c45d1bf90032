-- ===== src/Execution/CoordinatorState.antt =====
-- src/execution/coordinator.ts: the state of the coordinator, the blockers of risk increase, and what the
-- execution stream does to it while another operation runs.
pub mod Gaps
pub mod Writes
use multi_venue_grid_engine.Base.{
  ℕ, ◌+◌, ◌≡◌, refl, Bool, true, false, ◌&&◌, ◌||◌, not, Option, none, some, List, [], ◌∷◌, ◌++◌,
  map, Text, text, text_eq, text_is_empty, text_leb, every, keep, insert, insert_all, unique, sort,
  length, ltb, if◌then◌else◌, ◌==◌, nat_eq, Eq, Bool-cases, inl, inr, ◌∙◌, arith,
}
use multi_venue_grid_engine.Math.Decimal.{is_digit}
use multi_venue_grid_engine.Risk.Freshness.{big_int}
use multi_venue_grid_engine.Execution.IntentStatus.{
  IntentStatus, prepared, unknown, cancel_prepared, cancel_unverified,
}
use multi_venue_grid_engine.Execution.Intents.{
  OrderIntent, IntentRecord, ExecutionContradiction, one_of,
}
use multi_venue_grid_engine.Execution.RegistryState.{RegistryState}
use multi_venue_grid_engine.Execution.Observations.{ExecutionFacts}
use multi_venue_grid_engine.Execution.Ports.{
  ExecutionCursor, Interruption, stream_execution, stream_reconnected,
}
use multi_venue_grid_engine.Domain.ScopeKey.{join}

-- `ExecutionCoordinatorConfig`, with the lease generation of the fence.
pub record CoordinatorConfig : Type 0 where
  pub experiment_id : Text
  pub run_id : Text
  pub scope_key : Text
  pub write_budget_per_cycle : ℕ
  pub lease_generation : Text

pub record Coordinator : Type 0 where
  pub registry : RegistryState
  pub cursor : Option ExecutionCursor
  pub busy : Bool
  pub journal_failed : Bool
  pub open_order_blockers : List Text
  pub execution_blockers : List Text
  pub deferred_stream : List ExecutionFacts
  pub last_stream_sequence : Option ℕ
  pub writes_this_cycle : ℕ
  pub continuation_granted : Bool

-- `new ExecutionCoordinator(deps)` with a valid budget and cursor
abbrev pub new_coordinator : RegistryState → Option ExecutionCursor → Coordinator
new_coordinator registry cursor = record {
  registry = registry;
  cursor = cursor;
  busy = false;
  journal_failed = false;
  open_order_blockers = text "OPEN_ORDER_SCAN_REQUIRED" ∷ [];
  execution_blockers = text "EXECUTION_REPLAY_INCOMPLETE" ∷ [];
  deferred_stream = [];
  last_stream_sequence = none;
  writes_this_cycle = 0;
  continuation_granted = false;
}

-- `UNRESOLVED_STATUSES`
unfoldable pub is_unresolved : IntentStatus → Bool
is_unresolved prepared = true
is_unresolved unknown = true
is_unresolved cancel_prepared = true
is_unresolved cancel_unverified = true
is_unresolved _ = false

abbrev pub key_leb : Text × IntentRecord → Text × IntentRecord → Bool
key_leb p q = text_leb p.0 q.0

abbrev pub entry_record : Text × IntentRecord → IntentRecord
entry_record p = p.1

-- `registry.list()`
unfoldable pub list_records : RegistryState → List IntentRecord
list_records s = map entry_record (sort key_leb s.records)

-- `registry.unresolved()`
unfoldable pub unresolved_records : RegistryState → List IntentRecord
unresolved_records s = keep (λ r. is_unresolved r.status) (list_records s)

abbrev pub contradiction_code : ExecutionContradiction → Text
contradiction_code e = e.reason_code

abbrev pub is_empty {ℓ} : {A : Type ℓ} → List A → Bool
is_empty [] = true
is_empty (x ∷ xs) = false

-- `executionBlockerCodes()`
unfoldable pub execution_blocker_codes : Coordinator → List Text
execution_blocker_codes c = sort text_leb (
    unique (
      c.execution_blockers
      ++ ((if is_empty c.deferred_stream then [] else text "EXECUTION_STREAM_EVENT_DROPPED" ∷ [])
          ++ map contradiction_code c.registry.contradictions)))

-- `riskIncreaseBlockers()`
unfoldable pub risk_increase_blockers : Coordinator → List Text
risk_increase_blockers c = sort text_leb (
    unique (
      c.open_order_blockers
      ++ (execution_blocker_codes c
          ++ ((if c.journal_failed then text "JOURNAL_LATCHED" ∷ [] else [])
              ++ (if is_empty (unresolved_records c.registry)
                  then []
                  else text "UNRESOLVED_INTENT" ∷ [])))))

abbrev pub add_blocker : Coordinator → Text → Coordinator
add_blocker c code = record c { execution_blockers = insert c.execution_blockers code }

-- `STREAM_SEQUENCE_PATTERN`
unfoldable pub is_stream_sequence : Text → Bool
is_stream_sequence [] = false
is_stream_sequence (c ∷ s) = if c == b'0' then text_is_empty s else is_digit c && every is_digit s

abbrev pub is_after : ℕ → Option ℕ → Bool
is_after n none = true
is_after n (some last) = ltb last n

abbrev pub is_gap : ℕ → Option ℕ → Bool
is_gap n none = false
is_gap n (some last) = ltb (last + 1) n

-- `observeStreamSequence`: the new state and the problem.
unfoldable pub observe_stream_sequence : Coordinator → Option Text → Coordinator × Option Text
observe_stream_sequence c none = (c, some (text "EXECUTION_STREAM_SEQUENCE_UNUSABLE"))
observe_stream_sequence c (some t) =
    if not (is_stream_sequence t) then (c, some (text "EXECUTION_STREAM_SEQUENCE_UNUSABLE")) else (
      (if is_after (big_int t) c.last_stream_sequence
          then record c { last_stream_sequence = some (big_int t) }
          else c),
      (if is_gap (big_int t) c.last_stream_sequence
          then some (text "EXECUTION_STREAM_GAP")
          else none),
    )

abbrev pub add_problem : Coordinator → Option Text → Coordinator
add_problem c none = c
add_problem c (some code) = add_blocker c code

-- `ingestStreamExecution` up to the test of `busy`, which every call makes.
unfoldable pub note_stream_event : Coordinator → Option Text → Coordinator × Option Text
note_stream_event c sequence =
    let seen = observe_stream_sequence (record c { continuation_granted = false }) sequence in
    (add_problem seen.0 seen.1, seen.1)

-- `ingestStreamExecution` where it only keeps the execution for later.
unfoldable pub defer_stream_execution : Coordinator → ExecutionFacts → Coordinator
defer_stream_execution c facts =
    let blocked = add_blocker c (text "EXECUTION_STREAM_EVENT_DROPPED") in
    if c.journal_failed
    then blocked
    else record blocked { deferred_stream = c.deferred_stream ++ (facts ∷ []) }

-- `executionStreamReconnected()`
unfoldable pub stream_reconnect : Coordinator → Coordinator
stream_reconnect c =
    add_blocker (record c { continuation_granted = false; last_stream_sequence = none })
      (text "EXECUTION_STREAM_RECONNECTED")

-- What arrives while an operation waits, when the coordinator is busy.
unfoldable pub interrupt : Coordinator → Interruption → Coordinator
interrupt c (stream_execution facts sequence) =
    defer_stream_execution (note_stream_event c sequence).0 facts
interrupt c stream_reconnected = stream_reconnect c

unfoldable pub interrupt_all : Coordinator → List Interruption → Coordinator
interrupt_all c [] = c
interrupt_all c (i ∷ is) = interrupt_all (interrupt c i) is

-- `slotKey`
unfoldable pub slot_key : OrderIntent → Text
slot_key i = join b'|' (
    i.scope_key
    ∷ i.anchor_epoch
    ∷ (elim i.logical_level_id [ none ↦ text "none" | some l ↦ l ])
    ∷ i.purpose
    ∷ [])

-- `isRiskIncreasing`
unfoldable pub is_risk_increasing : OrderIntent → Bool
is_risk_increasing i = not (
    i.reduce_only
    && one_of (text "GRID_EXIT" ∷ text "RISK_REDUCTION" ∷ text "EMERGENCY_FLATTEN" ∷ []) i.purpose)

pub problem-registry : (c : Coordinator) (p : Option Text) → (add_problem c p).registry ≡ c.registry
problem-registry c none = refl
problem-registry c (some code) = refl

pub observe-registry :
    (c : Coordinator) (t : Option Text) → (observe_stream_sequence c t).0.registry ≡ c.registry
unfolding observe_stream_sequence
observe-registry c none = refl
observe-registry c (some t) = ground arith

pub defer-registry :
    (c : Coordinator) (facts : ExecutionFacts)
    → (defer_stream_execution c facts).registry ≡ c.registry
unfolding defer_stream_execution
defer-registry c facts = elim (Bool-cases c.journal_failed) [
  | inl latched ↦ rw latched refl
  | inr usable ↦ rw usable refl
]

interrupt-registry : (c : Coordinator) (i : Interruption) → (interrupt c i).registry ≡ c.registry
unfolding interrupt note_stream_event stream_reconnect
interrupt-registry c (stream_execution facts t) =
    let before = record c { continuation_granted = false } in
    let seen = observe_stream_sequence before t in
    defer-registry (add_problem seen.0 seen.1) facts
    ∙ problem-registry seen.0 seen.1
    ∙ observe-registry before t
interrupt-registry c stream_reconnected = refl

-- What arrives while an operation waits leaves the registry alone.
pub interrupt_all-registry :
    (c : Coordinator) (is : List Interruption) → (interrupt_all c is).registry ≡ c.registry
unfolding interrupt_all
interrupt_all-registry c [] = refl
interrupt_all-registry c (i ∷ is) =
    interrupt_all-registry (interrupt c i) is ∙ interrupt-registry c i

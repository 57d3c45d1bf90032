-- ===== src/Execution/RegistryState.antt =====
-- src/execution/intent-registry.ts: the registry's state, and the contradictions that it keeps. Where
-- the code compares canonical bytes of two records of strings, the model compares the fields.
use multi_venue_grid_engine.Base.{
  Bool, true, false, ◌&&◌, ◌||◌, not, Option, none, some, List, [], ◌∷◌, ◌++◌, Text, text, text_eq,
  option_eq, text_is_empty, any, every, find, keep, Outcome, ok, err, ◌>>=◌, guard, if◌then◌else◌,
  ◌==◌, get_entry, includes,
}
use multi_venue_grid_engine.Execution.IntentStatus.{IntentStatus, status_eq, allowed_transitions}
use multi_venue_grid_engine.Execution.Intents.{
  RegistryError, invalid_transition, intent_not_registered, invalid_execution_contradiction,
  OrderIntent, IntentRecord, RecordedExecution, ExecutionContradiction, one_of,
}

pub record RegistryState : Type 0 where
  pub records : List (Text × IntentRecord)
  pub by_client_order_id : List (Text × Text)
  pub by_exchange_order_id : List (Text × Text)
  pub by_execution_id : List (Text × Text)
  pub contradictions : List ExecutionContradiction

abbrev pub is_unset {ℓ} : {A : Type ℓ} → Option A → Bool
is_unset none = true
is_unset (some a) = false

abbrev pub client_id_of : OrderIntent → Text
client_id_of i = elim i.client_order_id [ none ↦ [] | some c ↦ c ]

unfoldable pub require_record : RegistryState → Text → Outcome RegistryError IntentRecord
require_record s id = elim (get_entry s.records id) [
  | none ↦ err intent_not_registered
  | some r ↦ ok r
]

unfoldable pub assert_allowed : IntentStatus → IntentStatus → Outcome RegistryError (Unit {0})
assert_allowed from to = guard (includes (allowed_transitions from) to) (invalid_transition from to)

abbrev pub attribution_codes : List Text
attribution_codes = text "UNATTRIBUTED_EXECUTION" ∷ text "EXECUTION_FOR_UNLINKED_INTENT" ∷ []

abbrev pub contradiction_codes : List Text
contradiction_codes =
    attribution_codes
    ++ (text "EXECUTION_AFTER_CLOSE"
        ∷ text "EXECUTION_CONFLICT"
        ∷ text "EXECUTION_ID_COLLISION"
        ∷ text "EXECUTION_MISMATCH"
        ∷ text "EXECUTION_OVERFILL"
        ∷ text "EXECUTION_STREAM_EVENT_UNUSABLE"
        ∷ [])

abbrev pub is_id : Option Text → Bool
is_id none = false
is_id (some t) = not (text_is_empty t)

-- `parseContradiction` of an entry that has the fields of its type
unfoldable pub is_contradiction : ExecutionContradiction → Bool
is_contradiction e =
    one_of contradiction_codes e.reason_code
    && (e.reason_code == text "EXECUTION_STREAM_EVENT_UNUSABLE"
        || (is_id e.execution_id && is_id e.exchange_order_id))

abbrev pub same_contradiction : ExecutionContradiction → ExecutionContradiction → Bool
same_contradiction x y =
    x.reason_code == y.reason_code
    && x.execution_id == y.execution_id
    && x.exchange_order_id == y.exchange_order_id
    && x.client_order_id == y.client_order_id
    && x.side == y.side
    && x.quantity == y.quantity
    && x.price == y.price

abbrev pub same_execution : RecordedExecution → RecordedExecution → Bool
same_execution x y =
    x.execution_id == y.execution_id
    && x.exchange_order_id == y.exchange_order_id
    && x.quantity == y.quantity
    && x.price == y.price

-- A recorded execution agrees with what was observed.
unfoldable pub explains : ExecutionContradiction → IntentRecord → RecordedExecution → Bool
explains e r x =
    some x.exchange_order_id == e.exchange_order_id
    && some x.quantity == e.quantity
    && some x.price == e.price
    && some r.intent.side == e.side
    && (is_unset e.client_order_id || e.client_order_id == r.intent.client_order_id)

unfoldable pub explained_by : ExecutionContradiction → Text → Option IntentRecord → Bool
explained_by e id none = false
explained_by e id (some r) = elim (find (λ x. x.execution_id == id) r.executions) [
  | none ↦ false
  | some x ↦ explains e r x
]

unfoldable pub is_explained : RegistryState → ExecutionContradiction → Bool
is_explained s e = elim e.execution_id [
  | none ↦ false
  | some id ↦ one_of attribution_codes e.reason_code && elim (get_entry s.by_execution_id id) [
    | none ↦ false
    | some owner ↦ explained_by e id (get_entry s.records owner)
  ]
]

unfoldable pub drop_explained_contradictions : RegistryState → RegistryState
drop_explained_contradictions s = record s {
  contradictions = keep (λ e. not (is_explained s e)) s.contradictions;
}

unfoldable pub add_contradiction : RegistryState → ExecutionContradiction → RegistryState
add_contradiction s e =
    if is_explained s e || any (same_contradiction e) s.contradictions
    then s
    else record s { contradictions = s.contradictions ++ (e ∷ []) }

unfoldable pub add_contradictions : RegistryState → List ExecutionContradiction → RegistryState
add_contradictions s [] = s
add_contradictions s (e ∷ es) = add_contradictions (add_contradiction s e) es

unfoldable pub record_contradictions :
    RegistryState → List ExecutionContradiction → Outcome RegistryError RegistryState
record_contradictions s entries = do
  _ ← guard (every is_contradiction entries) invalid_execution_contradiction
  ok (add_contradictions s entries)

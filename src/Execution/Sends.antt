-- ===== src/Execution/Sends.antt =====
-- src/execution/coordinator.ts: what must hold of every call that reaches the venue, however the
-- operations are composed.
pub mod Rules
pub mod Place
pub mod Submit
pub mod Cancel
pub mod Feed
pub mod Operations
pub mod Session
pub mod Unwritten
use multi_venue_grid_engine.Base.{
  ◌≡◌, ◌⊎◌, Bool, true, false, Option, some, List, [], ◌∷◌, Text, text_eq, get_entry,
}
use multi_venue_grid_engine.Execution.IntentStatus.{prepared, cancel_prepared}
use multi_venue_grid_engine.Execution.Intents.{OrderIntent, IntentRecord}
use multi_venue_grid_engine.Execution.RegistryState.{RegistryState}
use multi_venue_grid_engine.Execution.Registry.Terminal.{CallPath}
use multi_venue_grid_engine.Execution.Ports.{CancelRequest}
use multi_venue_grid_engine.Execution.CoordinatorState.{
  Coordinator, execution_blocker_codes, is_risk_increasing,
}
use multi_venue_grid_engine.Execution.Steps.{
  Effect, persisted, checkpointed, placed, cancel_sent, Machine, Deps,
}

-- A registry that holds the intent as prepared.
pub record HasPrepared (s : RegistryState) (i : OrderIntent) : Type 0 where
  pub held : IntentRecord
  pub found : get_entry s.records i.intent_id ≡ some held
  pub is_prepared : held.status ≡ prepared
  pub same_intent : held.intent ≡ i

-- A registry that holds a pending cancel of the request's order.
pub record HasCancelPrepared (s : RegistryState) (q : CancelRequest) : Type 0 where
  pub id : Text
  pub held : IntentRecord
  pub found : get_entry s.records id ≡ some held
  pub is_prepared : held.status ≡ cancel_prepared
  pub same_order : held.exchange_order_id ≡ some q.exchange_order_id
  pub same_client : held.intent.client_order_id ≡ q.client_order_id

-- The write that came directly before, if it became durable.
pub record IsAfterWrite (P : RegistryState → Type 0) (before : List Effect) : Type 0 where
  pub written : RegistryState
  pub earlier : List Effect
  pub directly : before ≡ persisted written true ∷ earlier
  pub holds : P written

-- An order that increases risk is sent on a grant, with no execution blocker.
abbrev pub IsAuthorised : OrderIntent → Coordinator → Type 0
IsAuthorised i c =
    (is_risk_increasing i ≡ false)
    ⊎ ((c.continuation_granted ≡ true) × (execution_blocker_codes c ≡ []))

-- What must hold of an effect after the earlier ones.
abbrev pub IsSound : Effect → List Effect → Type 0
IsSound (persisted s durable) before = Unit {0}
IsSound (checkpointed cursor durable) before = Unit {0}
IsSound (placed i c) before = IsAfterWrite (λ s. HasPrepared s i) before × IsAuthorised i c
IsSound (cancel_sent q c) before = IsAfterWrite (λ s. HasCancelPrepared s q) before

abbrev pub AllSound : List Effect → Type 0
AllSound [] = Unit {0}
AllSound (e ∷ before) = IsSound e before × AllSound before

-- The registry is reached from `s0` by its own calls, and the effects so far are as `T` says.
pub record IsOn {W : Type 0} (D : Deps W) (s0 : RegistryState) (T : List Effect → Type 0)
    (m : Machine W) : Type 0 where
  pub path : CallPath D.decimal_js D.sha256_hex D.intent_fingerprint s0 m.coordinator.registry
  pub sends : T m.trace

abbrev pub IsGood : {W : Type 0} → Deps W → RegistryState → Machine W → Type 0
IsGood D s0 = IsOn D s0 AllSound

-- ===== src/Execution/OpenOrders.antt =====
-- src/execution/coordinator.ts: the classification of a snapshot of open orders, and the plan for owned
-- duplicates.
use multi_venue_grid_engine.Base.{
  Bool, true, false, ◌&&◌, not, Option, none, some, List, [], ◌∷◌, ◌++◌, map, Text, text, text_eq,
  option_eq, text_leb, text_is_empty, is_lt, includes, unique, sort, length, ltb, get_entry,
  set_entry, Outcome, ok, err, ◌>>=◌, if◌then◌else◌, ◌==◌,
}
use multi_venue_grid_engine.Math.DecimalJs.{DecimalJs}
use multi_venue_grid_engine.Math.Decimal.{decimal_cmp}
use multi_venue_grid_engine.Domain.OrderId.{is_engine_client_order_id}
use multi_venue_grid_engine.Domain.Ownership.{
  Ownership, owned, unowned, ambiguous, OrderAuthorityLink, OwnershipEvidence, ObservedIdentity,
  classify_ownership,
}
use multi_venue_grid_engine.Domain.Duplicates.{DuplicateCleanupPlan, plan_owned_duplicate_cleanup}
use multi_venue_grid_engine.Execution.IntentStatus.{is_working}
use multi_venue_grid_engine.Execution.Intents.{
  RegistryError, lift, parse_scope, OrderIntent, IntentRecord,
}
use multi_venue_grid_engine.Execution.RegistryState.{RegistryState, client_id_of}
use multi_venue_grid_engine.Execution.Observations.{ExchangeOrderObservation, order_matches_intent}
use multi_venue_grid_engine.Execution.CoordinatorState.{CoordinatorConfig, list_records, slot_key}

-- `OpenOrderClassification`
pub record OpenOrderClassification : Type 0 where
  pub exchange_order_id : Text
  pub client_order_id : Option Text
  pub ownership : Ownership
  pub intent_id : Option Text

pub record OpenOrderScan : Type 0 where
  pub reason_codes : List Text
  pub orders : List OpenOrderClassification
  pub duplicates : List DuplicateCleanupPlan

-- An entry of a group: the slot's intent and its open orders.
pub record SlotGroup : Type 0 where
  pub first_intent : OrderIntent
  pub exchange_order_ids : List Text

abbrev pub is_present_id : Option Text → Bool
is_present_id none = true
is_present_id (some t) = not (text_is_empty t)

-- The loop of `validSnapshot`, over the exchange order IDs so far.
unfoldable pub are_valid_orders : Text → Text → List Text → List ExchangeOrderObservation → Bool
are_valid_orders venue market seen [] = true
are_valid_orders venue market seen (o ∷ os) =
    o.venue == venue
    && o.market == market
    && not (text_is_empty o.exchange_order_id)
    && not (includes seen o.exchange_order_id)
    && o.status == text "OPEN"
    && is_present_id o.client_order_id
    && are_valid_orders venue market (o.exchange_order_id ∷ seen) os

-- `validSnapshot` of observations that have the fields of their type
unfoldable pub is_valid_snapshot :
    CoordinatorConfig → List ExchangeOrderObservation → Outcome RegistryError Bool
is_valid_snapshot config snapshot = do
  k ← parse_scope config.scope_key
  ok (are_valid_orders k.venue k.market [] snapshot)

-- The link that a record proves, if its order may still be working.
unfoldable pub authority_link : IntentRecord → List OrderAuthorityLink
authority_link r = elim r.exchange_order_id [
  | none ↦ []
  | some order_id ↦ elim r.authority [
    | none ↦ []
    | some a ↦
        if is_working r.status
        then record {
          source = a.source;
          evidence_id = a.evidence_id;
          exchange_order_id = order_id;
          intent_id = r.intent.intent_id;
          client_order_id = client_id_of r.intent;
          scope_key = r.intent.scope_key;
          anchor_epoch = r.intent.anchor_epoch;
        }
          ∷ []
        else []
  ]
]

unfoldable pub authority_links_of : List IntentRecord → List OrderAuthorityLink
authority_links_of [] = []
authority_links_of (r ∷ rs) = authority_link r ++ authority_links_of rs

abbrev pub order_ids_of : List IntentRecord → List Text
order_ids_of [] = []
order_ids_of (r ∷ rs) = elim r.exchange_order_id [
  | none ↦ order_ids_of rs
  | some x ↦ x ∷ order_ids_of rs
]

-- The epochs of the client order IDs, over those so far.
unfoldable pub client_epochs : List (Text × Text) → List IntentRecord → List (Text × Text)
client_epochs m [] = m
client_epochs m (r ∷ rs) =
    client_epochs (set_entry m (client_id_of r.intent) r.intent.anchor_epoch) rs

-- `ownershipEvidence`
unfoldable pub ownership_evidence : CoordinatorConfig → List IntentRecord → Text → OwnershipEvidence
ownership_evidence config records anchor_epoch = record {
  current_scope_key = config.scope_key;
  current_anchor_epoch = anchor_epoch;
  known_client_order_ids = unique (map (λ r. client_id_of r.intent) records);
  known_exchange_order_ids = unique (order_ids_of records);
  client_order_epoch_by_id = get_entry (client_epochs [] records);
  authority_links = some (authority_links_of records);
}

abbrev pub classified : ExchangeOrderObservation → Ownership → Option Text → OpenOrderClassification
classified o ownership intent_id = record {
  exchange_order_id = o.exchange_order_id;
  client_order_id = o.client_order_id;
  ownership = ownership;
  intent_id = intent_id;
}

abbrev pub identity_of : ExchangeOrderObservation → ObservedIdentity
identity_of o = record {
  client_order_id = o.client_order_id;
  exchange_order_id = some o.exchange_order_id;
  scope_key = none;
  anchor_epoch = none;
}

-- An order that no record is linked to, with a client order ID that this engine cannot have made.
abbrev pub is_foreign_order : ExchangeOrderObservation → Option Text → Bool
is_foreign_order o (some id) = false
is_foreign_order o none = elim o.client_order_id [
  | none ↦ false
  | some c ↦ not (is_engine_client_order_id c)
]

abbrev pub slot_group : List (Text × SlotGroup) → OrderIntent → SlotGroup
slot_group m i = elim (get_entry m (slot_key i)) [
  | none ↦ record { first_intent = i; exchange_order_ids = [] }
  | some g ↦ g
]

abbrev pub grow : SlotGroup → Text → SlotGroup
grow g order_id = record g { exchange_order_ids = g.exchange_order_ids ++ (order_id ∷ []) }

abbrev pub owned_record : RegistryState → OpenOrderClassification → Option IntentRecord
owned_record s o = elim o.ownership [
  | owned ↦ elim o.intent_id [ none ↦ none | some id ↦ get_entry s.records id ]
  | unowned ↦ none
  | ambiguous ↦ none
]

-- The loop of `ownedDuplicates`, over the groups so far.
unfoldable pub group_owned :
    RegistryState → List (Text × SlotGroup) → List OpenOrderClassification → List (Text × SlotGroup)
group_owned s m [] = m
group_owned s m (o ∷ os) = elim (owned_record s o) [
  | none ↦ group_owned s m os
  | some r ↦
      group_owned s
        (set_entry m (slot_key r.intent) (grow (slot_group m r.intent) o.exchange_order_id)) os
]

-- The plan of a group with more than one order; it is never refused, as the group is not empty.
unfoldable pub plan_group : SlotGroup → List DuplicateCleanupPlan
plan_group g =
    if ltb 1 (length g.exchange_order_ids)
    then elim (plan_owned_duplicate_cleanup g.exchange_order_ids g.first_intent.logical_level_id) [
      | ok p ↦ p ∷ []
      | err e ↦ []
    ]
    else []

abbrev pub plan_groups : List (Text × SlotGroup) → List DuplicateCleanupPlan
plan_groups [] = []
plan_groups (g ∷ gs) = plan_group g.1 ++ plan_groups gs

-- `ownedDuplicates`
unfoldable pub owned_duplicates :
    RegistryState → List OpenOrderClassification → List DuplicateCleanupPlan
owned_duplicates s orders = plan_groups (sort (λ p q. text_leb p.0 q.0) (group_owned s [] orders))

abbrev pub ownership_blocker : Ownership → List Text
ownership_blocker owned = []
ownership_blocker unowned = text "UNOWNED_OPEN_ORDER" ∷ []
ownership_blocker ambiguous = text "AMBIGUOUS_OPEN_ORDER" ∷ []

abbrev pub ownership_blockers : List OpenOrderClassification → List Text
ownership_blockers [] = []
ownership_blockers (o ∷ os) = ownership_blocker o.ownership ++ ownership_blockers os

-- The blockers of a scan, sorted and each once.
unfoldable pub scan_blockers : List OpenOrderClassification → List DuplicateCleanupPlan → List Text
scan_blockers orders [] = sort text_leb (unique (ownership_blockers orders))
scan_blockers orders (p ∷ ps) =
    sort text_leb (unique (ownership_blockers orders ++ (text "OWNED_DUPLICATE_OPEN_ORDER" ∷ [])))

module _ (J : DecimalJs) where
  -- `observedMatchesRecord`
  unfoldable pub observed_matches_record :
      ExchangeOrderObservation → IntentRecord → Outcome RegistryError Bool
  observed_matches_record o r = do
    k ← parse_scope r.intent.scope_key
    matches ← order_matches_intent J o r.intent k.venue k.market
    (if not (matches && some o.exchange_order_id == r.exchange_order_id) then ok false else do
      c ← lift (decimal_cmp J o.executed_quantity r.executed_quantity)
      ok (not (is_lt c)))

  -- Whether the order of proven authority is still the recorded one.
  unfoldable pub confirm_owned :
      RegistryState → ExchangeOrderObservation → Option Text → Outcome RegistryError Ownership
  confirm_owned s o none = ok ambiguous
  confirm_owned s o (some id) = elim (get_entry s.records id) [
    | none ↦ ok ambiguous
    | some r ↦ observed_matches_record o r >>= λ same. ok (if same then owned else ambiguous)
  ]

  unfoldable pub ownership_from :
      RegistryState
      → ExchangeOrderObservation
      → Option Text
      → Ownership
      → Outcome RegistryError Ownership
  ownership_from s o id owned = confirm_owned s o id
  ownership_from s o id unowned = ok unowned
  ownership_from s o id ambiguous = ok (if is_foreign_order o id then unowned else ambiguous)

  -- `classifyOpenOrder`
  unfoldable pub classify_open_order :
      RegistryState
      → OwnershipEvidence
      → ExchangeOrderObservation
      → Outcome RegistryError OpenOrderClassification
  classify_open_order s evidence o = do
    ownership ←
        ownership_from s o (get_entry s.by_exchange_order_id o.exchange_order_id)
          (classify_ownership (identity_of o) evidence)
    ok (classified o ownership (get_entry s.by_exchange_order_id o.exchange_order_id))

  unfoldable pub classify_all :
      RegistryState
      → OwnershipEvidence
      → List ExchangeOrderObservation
      → Outcome RegistryError (List OpenOrderClassification)
  classify_all s evidence [] = ok []
  classify_all s evidence (o ∷ os) = do
    first ← classify_open_order s evidence o
    rest ← classify_all s evidence os
    ok (first ∷ rest)

  abbrev pub by_order_id : OpenOrderClassification → OpenOrderClassification → Bool
  by_order_id x y = text_leb x.exchange_order_id y.exchange_order_id

  -- `scanExclusive` from a valid snapshot to its result.
  unfoldable pub scan_snapshot :
      CoordinatorConfig
      → RegistryState
      → Text
      → List ExchangeOrderObservation
      → Outcome RegistryError OpenOrderScan
  scan_snapshot config s anchor_epoch snapshot = do
    orders ← classify_all s (ownership_evidence config (list_records s) anchor_epoch) snapshot
    ok (record {
      reason_codes =
          scan_blockers (sort by_order_id orders) (owned_duplicates s (sort by_order_id orders));
      orders = sort by_order_id orders;
      duplicates = owned_duplicates s (sort by_order_id orders);
    })

-- ===== src/Execution/IntentStatus.antt =====
-- src/execution/intent-registry.ts: the statuses of an intent and the moves between them.
use multi_venue_grid_engine.Base.{Bool, true, false, List, [], ◌∷◌, Eq, eq_of_discrete}

pub data IntentStatus : Type 0 where
  prepared not_sent rejected unknown linked : IntentStatus
  cancel_prepared cancel_unverified cancelled filled : IntentStatus

unfoldable pub IntentStatus-discrete : Discrete IntentStatus
IntentStatus-discrete = hlevel

instance abbrev pub status_eq : Eq IntentStatus
status_eq = eq_of_discrete IntentStatus-discrete

-- `ALLOWED_TRANSITIONS[from]`
unfoldable pub allowed_transitions : IntentStatus → List IntentStatus
allowed_transitions prepared = not_sent ∷ rejected ∷ unknown ∷ linked ∷ []
allowed_transitions unknown = linked ∷ []
allowed_transitions not_sent = []
allowed_transitions rejected = []
allowed_transitions linked = cancel_prepared ∷ filled ∷ []
allowed_transitions cancel_prepared = cancel_unverified ∷ linked ∷ cancelled ∷ filled ∷ []
allowed_transitions cancel_unverified = linked ∷ cancelled ∷ filled ∷ []
allowed_transitions cancelled = []
allowed_transitions filled = []

-- `WORKING_STATUSES`
unfoldable pub is_working : IntentStatus → Bool
is_working linked = true
is_working cancel_prepared = true
is_working cancel_unverified = true
is_working _ = false

-- `PARTIAL_QUANTITY_STATUSES`
unfoldable pub is_partial_quantity : IntentStatus → Bool
is_partial_quantity cancel_prepared = true
is_partial_quantity cancel_unverified = true
is_partial_quantity cancelled = true
is_partial_quantity _ = false

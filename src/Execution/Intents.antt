-- ===== src/Execution/Intents.antt =====
-- src/execution/intent-registry.ts: the intents, their records and the errors. An intent stands here
-- with the fields of its TypeScript type; the check that a value has exactly these fields is left out.
use multi_venue_grid_engine.Base.{
  Bool, true, false, ◌&&◌, ◌||◌, not, Option, none, some, List, [], ◌∷◌, Text, text, text_eq,
  text_is_empty, any, every, length, leb, option_eq, is_gt, Outcome, ok, err, ◌>>=◌, if◌then◌else◌,
  ◌==◌, nat_eq,
}
use multi_venue_grid_engine.Math.DecimalJs.{DecimalJs}
use multi_venue_grid_engine.Math.Decimal.{
  DecimalError, is_canonical_decimal_string, decimal_cmp, is_digit,
}
use multi_venue_grid_engine.Domain.ScopeKey.{ScopeKeyError, ScopeParts, parse_scope_key}
use multi_venue_grid_engine.Domain.OrderId.{make_client_order_id}
use multi_venue_grid_engine.Execution.IntentStatus.{IntentStatus}

pub data RegistryError : Type 0 where
  invalid_transition : IntentStatus → IntentStatus → RegistryError
  not_executable : IntentStatus → RegistryError
  invalid_intent_fields cancel_is_not_a_place client_order_id_not_deterministic : RegistryError
  intent_already_registered intent_not_registered client_order_id_collision : RegistryError
  invalid_exchange_order_id exchange_order_id_collision execution_id_collision : RegistryError
  invalid_execution duplicate_execution_id execution_quantity_unbounded execution_overfill :
      RegistryError
  order_fully_executed no_new_executions execution_evidence_missing status_quantity_mismatch :
      RegistryError
  invalid_execution_contradiction : RegistryError
  -- an error of the decimal arithmetic that passes through
  decimal : DecimalError → RegistryError
  -- an error of `parseScopeKey` that passes through
  scope : ScopeKeyError → RegistryError

abbrev pub lift {ℓ} : {A : Type ℓ} → Outcome DecimalError A → Outcome RegistryError A
lift (ok a) = ok a
lift (err e) = err (decimal e)

abbrev pub lift_scope {ℓ} : {A : Type ℓ} → Outcome ScopeKeyError A → Outcome RegistryError A
lift_scope (ok a) = ok a
lift_scope (err e) = err (scope e)

unfoldable pub parse_scope : Text → Outcome RegistryError ScopeParts
parse_scope key = lift_scope (parse_scope_key key)

pub record OrderIntent : Type 0 where
  pub intent_id : Text
  pub experiment_id : Text
  pub run_id : Text
  pub scope_key : Text
  pub anchor_epoch : Text
  pub logical_level_id : Option Text
  pub purpose : Text
  pub side : Text
  pub order_type : Text
  pub time_in_force : Option Text
  pub price : Option Text
  pub quantity : Text
  pub reduce_only : Bool
  pub client_order_id : Option Text
  pub lease_generation : Text
  pub created_at : Text

pub record IntentAuthority : Type 0 where
  pub source : Text
  pub evidence_id : Text

pub record RecordedExecution : Type 0 where
  pub execution_id : Text
  pub exchange_order_id : Text
  pub quantity : Text
  pub price : Text

pub record IntentRecord : Type 0 where
  pub intent : OrderIntent
  pub status : IntentStatus
  pub request_fingerprint : Text
  pub exchange_order_id : Option Text
  pub authority : Option IntentAuthority
  pub executions : List RecordedExecution
  pub executed_quantity : Text
  pub reason_codes : List Text

pub record IntentLink : Type 0 where
  pub exchange_order_id : Text
  pub authority : IntentAuthority
  pub executions : List RecordedExecution
  pub reason_codes : List Text

-- The IDs can be null only for a stream execution that could not be checked.
pub record ExecutionContradiction : Type 0 where
  pub reason_code : Text
  pub execution_id : Option Text
  pub exchange_order_id : Option Text
  pub client_order_id : Option Text
  pub side : Option Text
  pub quantity : Option Text
  pub price : Option Text

pub record CancelResolution : Type 0 where
  pub status : IntentStatus
  pub executions : List RecordedExecution
  pub reason_codes : List Text

-- The members of `set` as a test.
abbrev pub one_of : List Text → Text → Bool
one_of [] t = false
one_of (x ∷ xs) t = x == t || one_of xs t

abbrev pub purposes : List Text
purposes =
    text "GRID_ENTRY"
    ∷ text "GRID_EXIT"
    ∷ text "RISK_REDUCTION"
    ∷ text "EMERGENCY_FLATTEN"
    ∷ text "CANCEL"
    ∷ []

abbrev pub sides : List Text
sides = text "BUY" ∷ text "SELL" ∷ []

abbrev pub order_types : List Text
order_types = text "LIMIT" ∷ text "MARKET" ∷ []

abbrev pub times_in_force : List Text
times_in_force = text "GTC" ∷ text "IOC" ∷ text "FOK" ∷ text "POST_ONLY" ∷ []

abbrev pub is_null_or {ℓ} : {A : Type ℓ} → (A → Bool) → Option A → Bool
is_null_or p none = true
is_null_or p (some a) = p a

abbrev pub has_empty_field : OrderIntent → Bool
has_empty_field i =
    any text_is_empty
      (i.intent_id ∷ i.experiment_id ∷ i.run_id ∷ i.scope_key ∷ i.anchor_epoch ∷ i.created_at ∷ [])

-- `/^[1-9][0-9]{0,38}$/` of src/persistence/durable-envelope.ts
unfoldable pub is_canonical_generation_string : Text → Bool
is_canonical_generation_string [] = false
is_canonical_generation_string (c ∷ s) =
    is_digit c && not (c == b'0') && every is_digit s && leb (length s) 38

module _ (J : DecimalJs) where
  unfoldable pub is_positive_decimal : Text → Outcome RegistryError Bool
  is_positive_decimal value =
      if is_canonical_decimal_string J value
      then (lift (decimal_cmp J value (text "0")) >>= λ c. ok (is_gt c))
      else ok false

  -- The price that the order's type asks for.
  unfoldable pub is_priced : OrderIntent → Outcome RegistryError Bool
  is_priced i =
      if i.order_type == text "LIMIT"
      then elim i.price [ none ↦ ok false | some price ↦ is_positive_decimal price ]
      else ok (elim i.price [ none ↦ true | some price ↦ false ])

  -- `placeIntentProblem`, with the hash function as an argument.
  unfoldable pub place_intent_problem :
      (Text → Text) → OrderIntent → Outcome RegistryError (Option RegistryError)
  place_intent_problem sha256_hex i =
      if has_empty_field i
        || not (is_null_or (λ l. not (text_is_empty l)) i.logical_level_id)
        || not (one_of purposes i.purpose)
      then ok (some invalid_intent_fields)
      else if i.purpose == text "CANCEL"
      then ok (some cancel_is_not_a_place)
      else if not (one_of sides i.side)
          || not (one_of order_types i.order_type)
          || not (is_null_or (one_of times_in_force) i.time_in_force)
      then ok (some invalid_intent_fields)
      else do
        sized ← is_positive_decimal i.quantity
        (if not sized then ok (some invalid_intent_fields) else do
          priced ← is_priced i
          (if not priced || not (is_canonical_generation_string i.lease_generation)
              then ok (some invalid_intent_fields)
              else if i.client_order_id
                  == some (
                      make_client_order_id sha256_hex (record {
                        scope_key = i.scope_key;
                        anchor_epoch = i.anchor_epoch;
                        logical_level_id = i.logical_level_id;
                        purpose = i.purpose;
                        intent_id = i.intent_id;
                      }))
              then ok none
              else ok (some client_order_id_not_deterministic)))

-- ===== src/Execution/Sends/Cancel.antt =====
-- src/execution/coordinator.ts: a cancel is sent on the write that holds it as pending, for the order that
-- the record is linked to.
use multi_venue_grid_engine.Base.{
  ◌≡◌, refl, sym, ap, ◌∙◌, subst, Bool, true, false, Option, some, none, List, [], Text, text_eq,
  ok, is_lt, guard, get_entry, get-set_same, >>=-eq-ok, ok_injective,
}
use multi_venue_grid_engine.Math.Decimal.{decimal_cmp}
use multi_venue_grid_engine.Execution.IntentStatus.{cancel_prepared, cancel_unverified}
use multi_venue_grid_engine.Execution.Intents
use multi_venue_grid_engine.Execution.Intents.{lift, IntentRecord}
use multi_venue_grid_engine.Execution.RegistryState.{RegistryState, require_record, assert_allowed}
use multi_venue_grid_engine.Execution.Registry.{
  perform, transition, mark_cancel_prepared, cancel_prepared_call, mark_cancel_unverified,
  resolve_call,
}
use multi_venue_grid_engine.Execution.Registry.Evolves.{require_record-ok}
use multi_venue_grid_engine.Execution.Ports.{
  CancelAck, VenueWriteResult, acknowledged, venue_rejected, venue_unknown, venue_not_sent,
  unrecognized, FenceResult, fence_not_sent, fence_sent, fence_unknown,
}
use multi_venue_grid_engine.Execution.Steps.{Effect, Machine, Deps, emit, return}
use multi_venue_grid_engine.Execution.Steps.Rules.{
  Triple, Keeps, chain, changes, reads, computes, returns, by_if,
}
use multi_venue_grid_engine.Execution.Submission.{mark, record_of}
use multi_venue_grid_engine.Execution.Cancellation.{
  cancel_request, revert_cancel, apply_cancel_result, apply_cancel_outcome, run_cancel,
  cancel_durable, cancel_if_durable, send_cancel, cancel_order, cancel_checked, cancel_found,
  cancel_exclusive,
}
use multi_venue_grid_engine.Execution.Sends.{HasCancelPrepared, AllSound, IsGood}
use multi_venue_grid_engine.Execution.Sends.Rules.{
  On, AfterWrite, awaits, modifies, calls, persists_holding, persists-Good, returns-On, reads-On,
  by_call,
}
use multi_venue_grid_engine.Execution.Sends.Place.{mark-On, leave_fence-On}

same_entry : {o : Option IntentRecord} {x y : IntentRecord} → o ≡ some x → o ≡ some y → x ≡ y
same_entry e f = cc

-- The intent and the order of a record that the registry holds under `id`.
abbrev Holds : Text → IntentRecord → RegistryState → Type 0
Holds id r s = get_entry s.records id ≡ some r

prepared-Holds :
    {W : Type 0} (D : Deps W) (s : RegistryState) (id : Text) (r : IntentRecord) (order_id : Text)
    (s' : RegistryState)
    → Holds id r s
    → r.exchange_order_id ≡ some order_id
    → mark_cancel_prepared D.decimal_js s id [] ≡ ok s'
    → HasCancelPrepared s' (cancel_request r order_id)
unfolding mark_cancel_prepared transition
prepared-Holds D s id r order_id s' held linked_to h =
    let (r0, there, h1) = >>=-eq-ok (require_record s id) _ h in
    let same = same_entry (require_record-ok s id there) held in
    let (c, _, h2) =
      >>=-eq-ok (lift (decimal_cmp D.decimal_js r0.executed_quantity r0.intent.quantity)) _ h1 in
    let (_, _, h3) = >>=-eq-ok (guard (is_lt c) Intents.order_fully_executed) _ h2 in
    let (r1, there', h4) = >>=-eq-ok (require_record s id) _ h3 in
    let same' = same_entry (require_record-ok s id there') held in
    let (_, _, e) = >>=-eq-ok (assert_allowed r1.status cancel_prepared) _ h4 in
    subst (λ s'. HasCancelPrepared s' (cancel_request r order_id)) (ok_injective e)
      (record {
        id = id;
        held = record r1 { status = cancel_prepared; reason_codes = [] };
        found = get-set_same s.records id _;
        is_prepared = refl;
        same_order = ap (λ r. r.exchange_order_id) same' ∙ linked_to;
        same_client = ap (λ r. r.intent.client_order_id) same';
      })

module _ {W : Type 0} (D : Deps W) (s0 : RegistryState) where
  unverified-On :
      {T : List Effect → Type 0} (id : Text) (codes : List Text)
      → Keeps (On D s0 T) (mark D id cancel_unverified codes)
  unfolding perform
  unverified-On id codes =
      mark-On D s0 id cancel_unverified codes (mark_cancel_unverified id codes) (λ s. refl)

  revert-On :
      {T : List Effect → Type 0} (r : IntentRecord) (codes : List Text)
      → Keeps (On D s0 T) (revert_cancel D r codes)
  unfolding revert_cancel perform
  revert-On r codes = chain (calls D s0 _ (by_call D s0 (resolve_call _ _))) λ _. returns-On D s0 _

  cancel_result-On :
      {T : List Effect → Type 0} (r : IntentRecord) (result : VenueWriteResult CancelAck)
      → Keeps (On D s0 T) (apply_cancel_result D r result)
  unfolding apply_cancel_result
  cancel_result-On r (acknowledged ack) = unverified-On _ _
  cancel_result-On r (venue_rejected code) = unverified-On _ _
  cancel_result-On r venue_unknown = unverified-On _ _
  cancel_result-On r venue_not_sent = revert-On _ _
  cancel_result-On r unrecognized = unverified-On _ _

  cancel_outcome-On :
      {T : List Effect → Type 0} (r : IntentRecord)
      (fenced : FenceResult (VenueWriteResult CancelAck))
      → Keeps (On D s0 T) (apply_cancel_outcome D r fenced)
  unfolding apply_cancel_outcome
  cancel_outcome-On r (fence_not_sent codes) = revert-On _ _
  cancel_outcome-On r (fence_unknown codes) = unverified-On _ _
  cancel_outcome-On r (fence_sent none) = unverified-On _ _
  cancel_outcome-On r (fence_sent (some result)) = cancel_result-On r result

  abbrev Pending : IntentRecord → Text → RegistryState → Type 0
  Pending r order_id s = HasCancelPrepared s (cancel_request r order_id)

  run_cancel-Sound :
      (r : IntentRecord) (order_id : Text) (entering : Option _)
      → Triple
          (On D s0 (AfterWrite (Pending r order_id) true))
          (run_cancel D (cancel_request r order_id) entering)
          (λ _. On D s0 AllSound)
          (On D s0 AllSound)
  unfolding run_cancel emit return
  run_cancel-Sound r order_id none =
      chain {Q = λ _. On D s0 AllSound}
        (record { run = λ m p. record { path = p.path; sends = p.sends } })
        λ _. chain (awaits D s0 _) λ answer. leave_fence-On D s0 answer
  run_cancel-Sound r order_id (some codes) = record {
    run = λ m p. record { path = p.path; sends = p.sends.1 };
  }

  if_durable-Sound :
      (id : Text) (r : IntentRecord) (order_id : Text) (durable : Bool)
      → Triple
          (On D s0 (AfterWrite (Pending r order_id) durable))
          (cancel_if_durable D id r order_id durable)
          (λ _. On D s0 AllSound)
          (On D s0 AllSound)
  unfolding cancel_if_durable cancel_durable
  if_durable-Sound id r order_id false =
      chain (revert-On r _) λ codes. chain (reads-On D s0 _) λ after. returns-On D s0 _
  if_durable-Sound id r order_id true = chain (modifies D s0 _ (λ c. refl)) λ _.
      chain (awaits D s0 _) λ entering. chain (run_cancel-Sound r order_id entering) λ fenced.
        chain (cancel_outcome-On r fenced) λ codes.
          chain (persists-Good D s0) λ durable. chain (reads-On D s0 _) λ after. returns-On D s0 _

  -- Good, with the record still held.
  abbrev GoodWith : Text → IntentRecord → Machine W → Type 0
  GoodWith id r m = On D s0 AllSound m × Holds id r m.coordinator.registry

  send_cancel-Sound :
      (id : Text) (r : IntentRecord) (order_id : Text)
      → r.exchange_order_id ≡ some order_id
      → Triple (GoodWith id r) (send_cancel D id r order_id) (λ _. IsGood D s0) (IsGood D s0)
  unfolding send_cancel perform
  send_cancel-Sound id r order_id linked_to =
      chain {Q = λ _ m. On D s0 AllSound m × Pending r order_id m.coordinator.registry}
        (changes _
          (λ m p s e. (
            record {
              path = by_call D s0 (cancel_prepared_call id []) _ s e p.0.path;
              sends = p.0.sends;
            },
            prepared-Holds D m.coordinator.registry id r order_id s p.1 linked_to e,
          ))
          (λ m p. p.0))
        λ _. chain (persists_holding D s0 _) λ durable. if_durable-Sound id r order_id durable

  -- A refusal leaves everything as it is.
  abbrev refuses {ℓ} :
      {A : Type ℓ} (id : Text) (r : IntentRecord) (a : A)
      → Triple (GoodWith id r) (return {W = W} a) (λ _. IsGood D s0) (IsGood D s0)
  refuses id r a = returns a (λ m p. p.0)

  order_checked-Sound :
      (id : Text) (r : IntentRecord) (order : Option Text)
      → r.exchange_order_id ≡ order
      → Triple (GoodWith id r) (cancel_order D id r order) (λ _. IsGood D s0) (IsGood D s0)
  unfolding cancel_order
  order_checked-Sound id r none e = refuses id r _
  order_checked-Sound id r (some order_id) e =
      chain (reads _ (λ m p. p))
        λ allowed. by_if allowed (send_cancel-Sound id r order_id e) (refuses id r _)

  checked-Sound :
      (id : Text) (r : IntentRecord) (problem : Option Text)
      → Triple (GoodWith id r) (cancel_checked D id r problem) (λ _. IsGood D s0) (IsGood D s0)
  unfolding cancel_checked
  checked-Sound id r none = order_checked-Sound id r r.exchange_order_id refl
  checked-Sound id r (some problem) = refuses id r _

  found-Sound :
      (id : Text) (held : Option IntentRecord)
      → Triple
          (λ m. On D s0 AllSound m × (held ≡ record_of id m.coordinator))
          (cancel_found D id held)
          (λ _. IsGood D s0)
          (IsGood D s0)
  unfolding cancel_found
  found-Sound id none = returns _ (λ m p. p.0)
  found-Sound id (some r) =
      chain {Q = λ _. GoodWith id r} (computes _ (λ m p a e. (p.0, sym p.1)) (λ m p. p.0))
        λ problem. checked-Sound id r problem

  pub cancel-Good : (id : Text) → Keeps (IsGood D s0) (cancel_exclusive D id)
  unfolding cancel_exclusive
  cancel-Good id = chain (reads-On D s0 _) λ latched. by_if latched (returns-On D s0 _) (
      chain {Q = λ held m. On D s0 AllSound m × (held ≡ record_of id m.coordinator)}
        (reads _ (λ m p. (p, refl))) λ held. found-Sound id held)

-- ===== src/Execution/Registry/Change.antt =====
-- What one call does to the records of the intent registry.
use multi_venue_grid_engine.Base.{
  ◌≡◌, refl, ap, sym, ◌∙◌, inl, inr, ◌||◌, not, none, some, List, [], ◌∷◌, Text, text_eq, is_lt, ok,
  >>=-eq-ok, Bool-cases, guard, ok_injective, every, any, get_entry, set_entry,
}
use multi_venue_grid_engine.Math.DecimalJs.{DecimalJs}
use multi_venue_grid_engine.Math.Decimal.{decimal_cmp}
use multi_venue_grid_engine.Math.Order.{IsNumericOrder}
use multi_venue_grid_engine.Execution.IntentStatus.{IntentStatus, status_eq, cancel_prepared}
use multi_venue_grid_engine.Execution.Intents.{
  is_positive_decimal, place_intent_problem, RegistryError, lift, OrderIntent, IntentRecord,
  RecordedExecution, IntentLink, CancelResolution, ExecutionContradiction,
}
use multi_venue_grid_engine.Execution.Executions.{normalize_executions}
use multi_venue_grid_engine.Execution.RegistryState.{
  RegistryState, is_unset, client_id_of, require_record, assert_allowed,
  drop_explained_contradictions, add_contradiction, is_explained, same_contradiction,
  add_contradictions, is_contradiction, record_contradictions,
}
use multi_venue_grid_engine.Execution.Intents
use multi_venue_grid_engine.Execution.Registry
use multi_venue_grid_engine.Execution.Registry.Evolves.{
  Evolves, guard-ok, is_unset-none, refuse_on-none, require_record-ok, assert_allowed-ok, IsBounded,
  linked_record-Evolves, executed_record-Evolves, working_order-IsWorking, resolved_record-Evolves,
  positive-AtMost, place_intent_problem-none,
}

module _ (J : DecimalJs) where
  -- The records of `s'` are those of `s`, but for at most one that is new or has evolved.
  pub data Change (s s' : RegistryState) : Type 0 where
    unchanged : s'.records ≡ s.records → Change s s'
    registered :
        (id : Text) (r : IntentRecord)
        → get_entry s.records id ≡ none
        → s'.records ≡ set_entry s.records id r
        → (IsNumericOrder J → IsBounded J r)
        → Change s s'
    moved :
        (id : Text) (r r' : IntentRecord)
        → get_entry s.records id ≡ some r
        → s'.records ≡ set_entry s.records id r'
        → Evolves r r'
        → (IsBounded J r → IsBounded J r')
        → Change s s'

  transition-Change :
      (s : RegistryState) (id : Text) (next : IntentStatus) (codes : List Text) {s' : RegistryState}
      → Registry.transition s id next codes ≡ ok s'
      → Change s s'
  unfolding Registry.transition
  transition-Change s id next codes {s'} h =
      let (r, found, h1) = >>=-eq-ok (require_record s id) _ h in
      let (_, allowed, e) = >>=-eq-ok (assert_allowed r.status next) _ h1 in
      moved id r (record r { status = next; reason_codes = codes }) (require_record-ok s id found)
        (cc)
        (record { same_intent = refl; moves = inr (inl (assert_allowed-ok r.status next allowed)) })
        (λ b. b)

  settle-records :
      (s : RegistryState) (id : Text) (r : IntentRecord) (claimed : List RecordedExecution)
      → (Registry.settle s id r claimed).records ≡ set_entry s.records id r
  unfolding Registry.settle drop_explained_contradictions
  settle-records s id r claimed = refl

  link-Change :
      (s : RegistryState) (id : Text) (l : IntentLink) {s' : RegistryState}
      → Registry.link J s id l ≡ ok s'
      → Change s s'
  unfolding Registry.link
  link-Change s id l h =
      let (r, found, h1) = >>=-eq-ok (require_record s id) _ h in
      let (r', made, e) = >>=-eq-ok (Registry.linked_record J s id r l) _ h1 in
      let (evolves, bounded) = linked_record-Evolves J s id r l made in
      moved id r r' (require_record-ok s id found)
        (ap (λ x. x.records) (sym (ok_injective e)) ∙ settle-records _ id r' r'.executions) evolves
        (λ b. bounded)

  apply_executions-Change :
      (s : RegistryState) (id : Text) (xs : List RecordedExecution) {s' : RegistryState}
      → Registry.apply_executions J s id xs ≡ ok s'
      → Change s s'
  unfolding Registry.apply_executions
  apply_executions-Change s id xs h =
      let (r, found, h1) = >>=-eq-ok (require_record s id) _ h in
      let (x, working, h2) = >>=-eq-ok (Registry.working_order J r) _ h1 in
      let (ys, _, h3) = >>=-eq-ok (normalize_executions J xs x) _ h2 in
      let (_, _, h4) =
        >>=-eq-ok (guard (not (Registry.is_nil ys)) Intents.no_new_executions) _ h3 in
      let (_, _, h5) =
        >>=-eq-ok (guard (Registry.are_new s ys) Intents.execution_id_collision) _ h4 in
      let (r', made, e) = >>=-eq-ok (Registry.executed_record J r x ys) _ h5 in
      let (evolves, bounded) =
        executed_record-Evolves J r x ys (working_order-IsWorking J r working) made in
      moved id r r' (require_record-ok s id found)
        (ap (λ z. z.records) (sym (ok_injective e)) ∙ settle-records s id r' ys) evolves
        (λ b. bounded)

  resolve_cancel-Change :
      (s : RegistryState) (id : Text) (resolution : CancelResolution) {s' : RegistryState}
      → Registry.resolve_cancel J s id resolution ≡ ok s'
      → Change s s'
  unfolding Registry.resolve_cancel
  resolve_cancel-Change s id resolution h =
      let (r, found, h1) = >>=-eq-ok (require_record s id) _ h in
      let (r', made, e) = >>=-eq-ok (Registry.resolved_record J s id r resolution) _ h1 in
      let (evolves, bounded) = resolved_record-Evolves J s id r resolution made in
      moved id r r' (require_record-ok s id found)
        (ap (λ z. z.records) (sym (ok_injective e)) ∙ settle-records s id r' r'.executions) evolves
        (λ b. bounded)

  mark_cancel_prepared-Change :
      (s : RegistryState) (id : Text) (codes : List Text) {s' : RegistryState}
      → Registry.mark_cancel_prepared J s id codes ≡ ok s'
      → Change s s'
  unfolding Registry.mark_cancel_prepared
  mark_cancel_prepared-Change s id codes h =
      let (r, _, h1) = >>=-eq-ok (require_record s id) _ h in
      let (c, _, h2) =
        >>=-eq-ok (lift (decimal_cmp J r.executed_quantity r.intent.quantity)) _ h1 in
      let (_, _, h3) = >>=-eq-ok (guard (is_lt c) Intents.order_fully_executed) _ h2 in
      transition-Change s id cancel_prepared codes h3

  add_contradiction-records :
      (s : RegistryState) (e : ExecutionContradiction) → (add_contradiction s e).records ≡ s.records
  unfolding add_contradiction
  add_contradiction-records s e =
      elim (Bool-cases (is_explained s e || any (same_contradiction e) s.contradictions)) [
        | inl k ↦ rw k refl
        | inr k ↦ rw k refl
      ]

  add_contradictions-records :
      (s : RegistryState) (es : List ExecutionContradiction)
      → (add_contradictions s es).records ≡ s.records
  unfolding add_contradictions
  add_contradictions-records s [] = refl
  add_contradictions-records s (e ∷ es) =
      add_contradictions-records (add_contradiction s e) es ∙ add_contradiction-records s e

  record_contradictions-Change :
      (s : RegistryState) (es : List ExecutionContradiction) {s' : RegistryState}
      → record_contradictions s es ≡ ok s'
      → Change s s'
  unfolding record_contradictions
  record_contradictions-Change s es h =
      let (_, _, e) =
        >>=-eq-ok (guard (every is_contradiction es) Intents.invalid_execution_contradiction) _ h in
      unchanged (ap (λ z. z.records) (sym (ok_injective e)) ∙ add_contradictions-records s es)

  prepare-Change :
      (sha : Text → Text) (fingerprint : OrderIntent → Text) (s : RegistryState) (i : OrderIntent)
      {s' : RegistryState}
      → Registry.prepare J sha fingerprint s i ≡ ok s'
      → Change s s'
  unfolding Registry.prepare
  prepare-Change sha fingerprint s i h =
      let (problem, checked, h1) = >>=-eq-ok (place_intent_problem J sha i) _ h in
      let (_, fine, h2) = >>=-eq-ok (Registry.refuse_on problem) _ h1 in
      let (_, absent, h3) =
        >>=-eq-ok
          (guard (is_unset (get_entry s.records i.intent_id)) Intents.intent_already_registered) _
          h2 in
      let (_, _, e) =
        >>=-eq-ok
          (guard (is_unset (get_entry s.by_client_order_id (client_id_of i)))
            Intents.client_order_id_collision)
          _ h3 in
      registered i.intent_id _ (is_unset-none _ (guard-ok _ _ absent))
        (ap (λ z. z.records) (sym (ok_injective e)))
        (λ laws.
          positive-AtMost J laws i.quantity
            (place_intent_problem-none J sha i (checked ∙ ap ok (refuse_on-none problem fine))))

  -- Every call that succeeds leaves the records as they were, but for at most one, which is new or
  -- has evolved.
  pub perform-Change :
      (sha : Text → Text) (fingerprint : OrderIntent → Text) (s : RegistryState)
      (call : Registry.RegistryCall) {s' : RegistryState}
      → Registry.perform J sha fingerprint s call ≡ ok s'
      → Change s s'
  unfolding Registry.perform
  perform-Change sha fingerprint s (Registry.prepare_call i) h =
      prepare-Change sha fingerprint s i h
  perform-Change sha fingerprint s (Registry.mark_not_sent id codes) h =
      transition-Change s id _ codes h
  perform-Change sha fingerprint s (Registry.mark_rejected id codes) h =
      transition-Change s id _ codes h
  perform-Change sha fingerprint s (Registry.mark_unknown id codes) h =
      transition-Change s id _ codes h
  perform-Change sha fingerprint s (Registry.link_call id l) h = link-Change s id l h
  perform-Change sha fingerprint s (Registry.cancel_prepared_call id codes) h =
      mark_cancel_prepared-Change s id codes h
  perform-Change sha fingerprint s (Registry.mark_cancel_unverified id codes) h =
      transition-Change s id _ codes h
  perform-Change sha fingerprint s (Registry.apply_call id xs) h = apply_executions-Change s id xs h
  perform-Change sha fingerprint s (Registry.resolve_call id r) h = resolve_cancel-Change s id r h
  perform-Change sha fingerprint s (Registry.contradictions_call es) h =
      record_contradictions-Change s es h

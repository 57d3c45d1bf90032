-- ===== src/Execution/Sends/Place.antt =====
-- src/execution/coordinator.ts: a place is sent on the write that holds its intent as prepared, and on a
-- grant where it increases risk.
use multi_venue_grid_engine.Base.{
  ◌≡◌, refl, sym, ◌∙◌, subst, inl, inr, arith, Bool, true, false, ◌&&◌, not, Bool-cases, Option,
  some, none, List, Text, text_eq, ok, get_entry, get-set_same, guard, >>=-eq-ok, ok_injective,
}
use multi_venue_grid_engine.Execution.IntentStatus.{IntentStatus, not_sent, rejected, unknown}
use multi_venue_grid_engine.Execution.Intents
use multi_venue_grid_engine.Execution.Intents.{OrderIntent, place_intent_problem}
use multi_venue_grid_engine.Execution.RegistryState.{RegistryState, is_unset, client_id_of}
use multi_venue_grid_engine.Execution.Registry
use multi_venue_grid_engine.Execution.Registry.{
  RegistryCall, perform, transition, prepare, prepare_call, link_call, mark_not_sent, mark_rejected,
  mark_unknown,
}
use multi_venue_grid_engine.Execution.Ports.{
  OrderAck, VenueWriteResult, acknowledged, venue_rejected, venue_unknown, venue_not_sent,
  unrecognized, FenceResult, fence_not_sent, fence_sent, fence_unknown,
}
use multi_venue_grid_engine.Execution.CoordinatorState.{
  Coordinator, execution_blocker_codes, is_risk_increasing, is_empty,
}
use multi_venue_grid_engine.Execution.Steps.{Effect, Deps, emit, return}
use multi_venue_grid_engine.Execution.Steps.Rules.{Triple, Keeps, chain, changes, reads, by_if}
use multi_venue_grid_engine.Execution.Admission.{revoked_risk_increase}
use multi_venue_grid_engine.Execution.Submission.{
  PlaceValue, withheld, answered, mark, is_own_ack, is_duplicate_rejection, link_ack,
  apply_place_result, apply_place_outcome, leave_fence_with, place_callback, run_place,
  send_durable, send_if_durable, send_place,
}
use multi_venue_grid_engine.Execution.Sends.{HasPrepared, IsAuthorised, AllSound, IsGood}
use multi_venue_grid_engine.Execution.Sends.Rules.{
  On, AfterWrite, persists_holding, awaits, modifies, calls, persists-Good, returns-On, reads-On,
  by_call,
}

pub prepare-HasPrepared :
    {W : Type 0} (D : Deps W) (s : RegistryState) (i : OrderIntent) (s' : RegistryState)
    → prepare D.decimal_js D.sha256_hex D.intent_fingerprint s i ≡ ok s'
    → HasPrepared s' i
unfolding prepare
prepare-HasPrepared D s i s' h =
    let (problem, checked, h1) = >>=-eq-ok (place_intent_problem D.decimal_js D.sha256_hex i) _ h in
    let (_, fine, h2) = >>=-eq-ok (Registry.refuse_on problem) _ h1 in
    let (_, absent, h3) =
      >>=-eq-ok
        (guard (is_unset (get_entry s.records i.intent_id)) Intents.intent_already_registered) _
        h2 in
    let (_, _, e) =
      >>=-eq-ok
        (guard (is_unset (get_entry s.by_client_order_id (client_id_of i)))
          Intents.client_order_id_collision)
        _ h3 in
    subst (λ s'. HasPrepared s' i) (ok_injective e)
      (record {
        held = _;
        found = get-set_same s.records i.intent_id _;
        is_prepared = refl;
        same_intent = refl;
      })

not_revoked-IsAuthorised :
    (c : Coordinator) (i : OrderIntent) → none ≡ revoked_risk_increase c i → IsAuthorised i c
unfolding revoked_risk_increase
not_revoked-IsAuthorised c i h = elim (Bool-cases (is_risk_increasing i)) [
  | inr e ↦ inl e
  | inl e ↦ elim (Bool-cases (c.continuation_granted && is_empty (execution_blocker_codes c))) [
    | inl fine ↦ inr (ground arith, ground arith)
    | inr revoked ↦ absurd (ground arith)
  ]
]

module _ {W : Type 0} (D : Deps W) (s0 : RegistryState) where
  pub mark-On :
      {T : List Effect → Type 0} (id : Text) (next : IntentStatus) (codes : List Text)
      (call : RegistryCall)
      → ((s : RegistryState)
          → transition s id next codes
            ≡ perform D.decimal_js D.sha256_hex D.intent_fingerprint s call)
      → Keeps (On D s0 T) (mark D id next codes)
  unfolding mark
  mark-On id next codes call same =
      chain (calls D s0 _ (λ s s' e. by_call D s0 call s s' (sym (same s) ∙ e)))
        λ _. returns-On D s0 _

  marks_unknown :
      {T : List Effect → Type 0} (id : Text) (codes : List Text)
      → Keeps (On D s0 T) (mark D id unknown codes)
  unfolding perform
  marks_unknown id codes = mark-On id unknown codes (mark_unknown id codes) (λ s. refl)

  marks_not_sent :
      {T : List Effect → Type 0} (id : Text) (codes : List Text)
      → Keeps (On D s0 T) (mark D id not_sent codes)
  unfolding perform
  marks_not_sent id codes = mark-On id not_sent codes (mark_not_sent id codes) (λ s. refl)

  marks_rejected :
      {T : List Effect → Type 0} (id : Text) (codes : List Text)
      → Keeps (On D s0 T) (mark D id rejected codes)
  unfolding perform
  marks_rejected id codes = mark-On id rejected codes (mark_rejected id codes) (λ s. refl)

  link_ack-On :
      {T : List Effect → Type 0} (i : OrderIntent) (ack : OrderAck)
      → Keeps (On D s0 T) (link_ack D i ack)
  unfolding link_ack perform
  link_ack-On i ack = chain (reads-On D s0 _) λ c.
      by_if (not (is_own_ack D i ack)) (marks_unknown _ _) (
        by_if (not (is_unset (get_entry c.registry.by_exchange_order_id ack.exchange_order_id)))
          (marks_unknown _ _)
          (chain (calls D s0 _ (by_call D s0 (link_call _ _))) λ _. returns-On D s0 _))

  apply_result-On :
      {T : List Effect → Type 0} (i : OrderIntent) (result : VenueWriteResult OrderAck)
      → Keeps (On D s0 T) (apply_place_result D i result)
  unfolding apply_place_result
  apply_result-On i (acknowledged ack) = link_ack-On i ack
  apply_result-On i (venue_rejected code) =
      by_if (is_duplicate_rejection D code) (marks_unknown _ _) (marks_rejected _ _)
  apply_result-On i venue_unknown = marks_unknown _ _
  apply_result-On i venue_not_sent = marks_not_sent _ _
  apply_result-On i unrecognized = marks_unknown _ _

  apply_outcome-On :
      {T : List Effect → Type 0} (i : OrderIntent) (fenced : FenceResult PlaceValue)
      → Keeps (On D s0 T) (apply_place_outcome D i fenced)
  unfolding apply_place_outcome
  apply_outcome-On i (fence_not_sent codes) = marks_not_sent _ _
  apply_outcome-On i (fence_unknown codes) = marks_unknown _ _
  apply_outcome-On i (fence_sent none) = marks_unknown _ _
  apply_outcome-On i (fence_sent (some (withheld codes))) = marks_not_sent _ _
  apply_outcome-On i (fence_sent (some (answered result))) = apply_result-On i result

  pub leave_fence-On :
      {A : Type 0} {T : List Effect → Type 0} (value : Option A)
      → Keeps (On D s0 T) (leave_fence_with D value)
  unfolding leave_fence_with
  leave_fence-On value = chain (awaits D s0 _) λ _. returns-On D s0 _

  -- The effects when the intent's write is the last of them.
  abbrev Written : OrderIntent → List Effect → Type 0
  Written i = AfterWrite (λ s. HasPrepared s i) true

  callback-Sound :
      (i : OrderIntent) (revoked : Option _)
      → Triple
          (λ m. On D s0 (Written i) m × (revoked ≡ revoked_risk_increase m.coordinator i))
          (place_callback D i revoked)
          (λ _. On D s0 AllSound)
          (On D s0 AllSound)
  unfolding place_callback emit return
  callback-Sound i none =
      chain {Q = λ _. On D s0 AllSound}
        (record {
          run = λ m p. record {
            path = p.0.path;
            sends = ((p.0.sends.0, not_revoked-IsAuthorised _ i p.1), p.0.sends.1);
          };
        })
        λ _. chain (awaits D s0 _) λ _. returns-On D s0 _
  callback-Sound i (some codes) = record {
    run = λ m p. record { path = p.0.path; sends = p.0.sends.1 };
  }

  run-Sound :
      (i : OrderIntent) (entering : Option _)
      → Triple
          (On D s0 (Written i))
          (run_place D i entering)
          (λ _. On D s0 AllSound)
          (On D s0 AllSound)
  unfolding run_place return
  run-Sound i none =
      chain (reads _ (λ m p. (p, refl)))
        λ revoked. chain (callback-Sound i revoked) λ value. leave_fence-On value
  run-Sound i (some codes) = record { run = λ m p. record { path = p.path; sends = p.sends.1 } }

  durable-Sound :
      (i : OrderIntent)
      → Triple (On D s0 (Written i)) (send_durable D i) (λ _. On D s0 AllSound) (On D s0 AllSound)
  unfolding send_durable
  durable-Sound i = chain (awaits D s0 _) λ entering. chain (run-Sound i entering) λ fenced.
      chain (apply_outcome-On i fenced)
        λ codes. chain (persists-Good D s0) λ durable. returns-On D s0 _

  if_durable-Sound :
      (i : OrderIntent) (durable : Bool)
      → Triple
          (On D s0 (AfterWrite (λ s. HasPrepared s i) durable))
          (send_if_durable D i durable)
          (λ _. On D s0 AllSound)
          (On D s0 AllSound)
  unfolding send_if_durable
  if_durable-Sound i false = marks_not_sent _ _
  if_durable-Sound i true = chain (modifies D s0 _ (λ c. refl)) λ _. durable-Sound i

  pub send_place-Sound : (i : OrderIntent) → Keeps (IsGood D s0) (send_place D i)
  unfolding send_place perform
  send_place-Sound i =
      chain {Q = λ _ m. On D s0 AllSound m × HasPrepared m.coordinator.registry i}
        (changes _
          (λ m p s e. (
            record { path = by_call D s0 (prepare_call i) _ s e p.path; sends = p.sends },
            prepare-HasPrepared D m.coordinator.registry i s e,
          ))
          (λ m p. p))
        λ _. chain (persists_holding D s0 _) λ durable. if_durable-Sound i durable

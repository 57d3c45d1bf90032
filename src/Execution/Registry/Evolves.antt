-- ===== src/Execution/Registry/Evolves.antt =====
-- What the operations on one record of the intent registry do to it.
use multi_venue_grid_engine.Base.{
  ◌≡◌, refl, ap, sym, ◌∙◌, subst, ◌⊎◌, inl, inr, Bool, true, false, not, Option, none, some, List,
  ◌++◌, Text, text, text_eq, arith, is_gt, Ordering, Outcome, ok, err, >>=-eq-ok, Outcome-cases,
  Option-cases, Bool-cases, guard, ok_injective, text_is_empty, every, get_entry, includes,
}
use multi_venue_grid_engine.Math.DecimalJs.{DecimalJs}
use multi_venue_grid_engine.Math.Decimal.{decimal_cmp, is_canonical_decimal_string}
use multi_venue_grid_engine.Math.Order.{AtMost, IsNumericOrder, AtMost-converse}
use multi_venue_grid_engine.Execution.IntentStatus.{
  IntentStatus, status_eq, allowed_transitions, is_working, linked, filled,
}
use multi_venue_grid_engine.Execution.Intents.{
  is_positive_decimal, place_intent_problem, RegistryError, lift, OrderIntent, IntentRecord,
  RecordedExecution, IntentLink, CancelResolution, ExecutionContradiction,
}
use multi_venue_grid_engine.Execution.Executions.{
  sum_executions, normalize_executions, quantity_matches_status,
}
use multi_venue_grid_engine.Execution.RegistryState.{
  RegistryState, is_unset, require_record, assert_allowed,
}
use multi_venue_grid_engine.Execution.Intents
use multi_venue_grid_engine.Execution.Registry

-- A record keeps its intent, and changes its status along an allowed transition, if at all: a record
-- that is not working and keeps its status is the same record.
pub record Evolves (r r' : IntentRecord) : Type 0 where
  pub same_intent : r'.intent ≡ r.intent
  pub moves :
      (r' ≡ r)
      ⊎ (includes (allowed_transitions r.status) r'.status ≡ true)
      ⊎ ((is_working r.status ≡ true) × (r'.status ≡ r.status))

pub guard-ok : (b : Bool) (e : RegistryError) {u : Unit {0}} → guard b e ≡ ok u → b ≡ true
guard-ok true e h = refl
guard-ok false e h = cc

pub is_unset-none {ℓ} : {A : Type ℓ} (m : Option A) → is_unset m ≡ true → m ≡ none
is_unset-none none h = refl
is_unset-none (some a) h = cc

pub refuse_on-none :
    (m : Option RegistryError) {u : Unit {0}} → Registry.refuse_on m ≡ ok u → m ≡ none
refuse_on-none none h = refl
refuse_on-none (some e) h = cc

pub require_record-ok :
    (s : RegistryState) (id : Text) {r : IntentRecord}
    → require_record s id ≡ ok r
    → get_entry s.records id ≡ some r
unfolding require_record
require_record-ok s id h = elim (Option-cases (get_entry s.records id)) [
  | inl e ↦ absurd (ground arith)
  | inr (r, e) ↦ ground arith
]

pub assert_allowed-ok :
    (from to : IntentStatus) {u : Unit {0}}
    → assert_allowed from to ≡ ok u
    → includes (allowed_transitions from) to ≡ true
unfolding assert_allowed
assert_allowed-ok from to h = guard-ok _ _ h

module _ (J : DecimalJs) where
  -- The executed quantity is not above the intent's.
  abbrev pub IsBounded : IntentRecord → Type 0
  IsBounded r = AtMost J r.executed_quantity r.intent.quantity

  lift-ok : {A : Type 0} (m : Outcome _ A) {a : A} → lift m ≡ ok a → m ≡ ok a
  lift-ok (ok a) h = cc
  lift-ok (err e) h = cc

  total_within-AtMost :
      (xs : List RecordedExecution) (quantity total : Text) (c : Ordering)
      → Registry.total_within J xs quantity ≡ ok (total, c)
      → AtMost J total quantity
  unfolding Registry.total_within
  total_within-AtMost xs quantity total c h =
      let (t, summed, h1) = >>=-eq-ok (sum_executions J xs) _ h in
      let (d, compared, h2) = >>=-eq-ok (lift (decimal_cmp J t quantity)) _ h1 in
      let (_, below, e) = >>=-eq-ok (guard (not (is_gt d)) _) _ h2 in
      let bound : AtMost J t quantity =
        (d, lift-ok _ compared, ground (arith, guard-ok _ _ below)) in
      let same_total : t ≡ total = cc in subst (λ x. AtMost J x quantity) same_total bound

  pub linked_record-Evolves :
      (s : RegistryState) (id : Text) (r : IntentRecord) (l : IntentLink) {r' : IntentRecord}
      → Registry.linked_record J s id r l ≡ ok r'
      → Evolves r r' × IsBounded r'
  unfolding Registry.linked_record
  linked_record-Evolves s id r l {r'} h =
      let (_, _, h1) =
        >>=-eq-ok
          (guard (is_unset r.exchange_order_id) (Intents.invalid_transition r.status linked)) _ h in
      let (_, allowed, h2) = >>=-eq-ok (assert_allowed r.status linked) _ h1 in
      let (_, _, h3) =
        >>=-eq-ok
          (guard (not (text_is_empty l.exchange_order_id)) Intents.invalid_exchange_order_id) _
          h2 in
      let (_, _, h4) =
        >>=-eq-ok
          (guard (Registry.is_free_for s.by_exchange_order_id id l.exchange_order_id)
            Intents.exchange_order_id_collision)
          _ h3 in
      let (xs, _, h5) = >>=-eq-ok (normalize_executions J l.executions l.exchange_order_id) _ h4 in
      let (_, _, h6) =
        >>=-eq-ok (guard (Registry.are_new s xs) Intents.execution_id_collision) _ h5 in
      let ((total, c), within, e) = >>=-eq-ok (Registry.total_within J xs r.intent.quantity) _ h6 in
      let is : _ ≡ r' = ok_injective e in
      subst (λ x. Evolves r x × IsBounded x) is
        (
          record {
            same_intent = refl;
            moves = inr (inl (assert_allowed-ok r.status linked allowed));
          },
          total_within-AtMost xs r.intent.quantity total c within,
        )

  filled_if-lem :
      (r : IntentRecord) (c : Ordering) {r' : IntentRecord}
      → is_working r.status ≡ true
      → Registry.filled_if J r c ≡ ok r'
      → (r'.intent ≡ r.intent)
        × ((includes (allowed_transitions r.status) r'.status ≡ true)
            ⊎ ((is_working r.status ≡ true) × (r'.status ≡ r.status)))
  unfolding Registry.filled_if
  filled_if-lem r Ordering.lt {r'} w h =
      let e : r ≡ r' = ok_injective h in
      (ap (λ x. x.intent) (sym e), inr (w, ap (λ x. x.status) (sym e)))
  filled_if-lem r Ordering.gt {r'} w h =
      let e : r ≡ r' = ok_injective h in
      (ap (λ x. x.intent) (sym e), inr (w, ap (λ x. x.status) (sym e)))
  filled_if-lem r Ordering.eq {r'} w h =
      let (_, allowed, h1) = >>=-eq-ok (assert_allowed r.status filled) _ h in
      let e : _ ≡ r' = ok_injective h1 in
      (
        ap (λ x. x.intent) (sym e),
        inl (
            ap (λ x. includes (allowed_transitions r.status) x.status) (sym e)
            ∙ assert_allowed-ok r.status filled allowed),
      )

  pub executed_record-Evolves :
      (r : IntentRecord) (x : Text) (added : List RecordedExecution) {r' : IntentRecord}
      → is_working r.status ≡ true
      → Registry.executed_record J r x added ≡ ok r'
      → Evolves r r' × IsBounded r'
  unfolding Registry.executed_record
  executed_record-Evolves r x added {r'} w h =
      let (merged, _, h1) = >>=-eq-ok (normalize_executions J (r.executions ++ added) x) _ h in
      let ((total, c), within, h2) =
        >>=-eq-ok (Registry.total_within J merged r.intent.quantity) _ h1 in
      let (f, filling, e) = >>=-eq-ok (Registry.filled_if J r c) _ h2 in
      let (intent_kept, moves) = filled_if-lem r c w filling in
      let is : _ ≡ r' = ok_injective e in
      subst (λ y. Evolves r y × IsBounded y) is
        (
          record { same_intent = intent_kept; moves = inr moves },
          subst (λ i. AtMost J total i.quantity) (sym intent_kept)
              (total_within-AtMost merged r.intent.quantity total c within),
        )

  pub working_order-IsWorking :
      (r : IntentRecord) {x : Text} → Registry.working_order J r ≡ ok x → is_working r.status ≡ true
  unfolding Registry.working_order
  working_order-IsWorking r h = elim (Option-cases r.exchange_order_id) [
    | inl e ↦ absurd (ground arith)
    | inr (x, e) ↦ elim (Bool-cases (is_working r.status)) [
      | inl w ↦ w
      | inr w ↦ absurd (ground arith)
    ]
  ]

  pub resolved_record-Evolves :
      (s : RegistryState) (id : Text) (r : IntentRecord) (resolution : CancelResolution)
      {r' : IntentRecord}
      → Registry.resolved_record J s id r resolution ≡ ok r'
      → Evolves r r' × IsBounded r'
  unfolding Registry.resolved_record
  resolved_record-Evolves s id r resolution {r'} h =
      let (x, _, h1) = >>=-eq-ok (Registry.pending_order J r resolution.status) _ h in
      let (_, allowed, h2) = >>=-eq-ok (assert_allowed r.status resolution.status) _ h1 in
      let (xs, _, h3) = >>=-eq-ok (normalize_executions J resolution.executions x) _ h2 in
      let (_, _, h4) =
        >>=-eq-ok
          (guard (Registry.are_observed J r.executions xs) Intents.execution_evidence_missing) _
          h3 in
      let (_, _, h5) =
        >>=-eq-ok
          (guard (every (λ y. Registry.is_free_for s.by_execution_id id y.execution_id) xs)
            Intents.execution_id_collision)
          _ h4 in
      let ((total, c), within, h6) =
        >>=-eq-ok (Registry.total_within J xs r.intent.quantity) _ h5 in
      let (m, _, h7) =
        >>=-eq-ok (quantity_matches_status J resolution.status total r.intent.quantity) _ h6 in
      let (_, _, e) = >>=-eq-ok (guard m Intents.status_quantity_mismatch) _ h7 in
      let is : _ ≡ r' = ok_injective e in
      subst (λ y. Evolves r y × IsBounded y) is
        (
          record {
            same_intent = refl;
            moves = inr (inl (assert_allowed-ok r.status resolution.status allowed));
          },
          total_within-AtMost xs r.intent.quantity total c within,
        )

  pub positive-AtMost :
      (laws : IsNumericOrder J) (quantity : Text)
      → is_positive_decimal J quantity ≡ ok true
      → AtMost J (text "0") quantity
  unfolding is_positive_decimal
  positive-AtMost laws quantity h = elim (Outcome-cases (decimal_cmp J quantity (text "0"))) [
    | inl (c, e) ↦
        AtMost-converse J laws quantity (text "0") c e
          (elim (Bool-cases (is_canonical_decimal_string J quantity)) [
            | inl k ↦ ground arith
            | inr k ↦ absurd (ground arith)
          ])
    | inr (r, e) ↦ absurd (ground arith)
  ]

  pub place_intent_problem-none :
      (sha : Text → Text) (i : OrderIntent)
      → place_intent_problem J sha i ≡ ok none
      → is_positive_decimal J i.quantity ≡ ok true
  unfolding place_intent_problem
  place_intent_problem-none sha i h = elim (Outcome-cases (is_positive_decimal J i.quantity)) [
    | inl (b, e) ↦ elim (Bool-cases b) [ inl k ↦ ground arith | inr k ↦ absurd (ground arith) ]
    | inr (r, e) ↦ absurd (ground arith)
  ]

-- ===== src/Execution/CancelLookup/Proven.antt =====
-- What a lookup must show before it resolves a pending cancel (evaluateCancelLookup of
-- src/execution/coordinator.ts).
use multi_venue_grid_engine.Base.{
  ◌≡◌, ◌⊎◌, refl, ap, ◌∙◌, arith, inl, inr, Bool, true, false, ◌&&◌, not, Bool-cases, Option, none,
  some, Option-cases, List, [], ◌∷◌, map, any, keep, Text, text, text_eq, option_eq, Ordering,
  is_gt, get_entry, set_entry, Outcome, ok, err, >>=-eq-ok, ok_injective, if◌then◌else◌, ◌==◌,
}
use multi_venue_grid_engine.Domain.ScopeKey.{ScopeParts}
use multi_venue_grid_engine.Math.DecimalJs.{DecimalJs}
use multi_venue_grid_engine.Math.Decimal.{DecimalError, decimal_cmp}
use multi_venue_grid_engine.Execution.IntentStatus.{linked, cancelled, filled}
use multi_venue_grid_engine.Execution.Intents.{
  RegistryError, lift, parse_scope, OrderIntent, IntentRecord, CancelResolution, RecordedExecution,
}
use multi_venue_grid_engine.Execution.RegistryState.{RegistryState}
use multi_venue_grid_engine.Execution.Observations.{
  ExchangeOrderObservation, ExecutionFacts, known, to_recorded, is_eq, execution_matches_intent,
  is_execution_in_market, same_facts, sum_quantities, exceeds_limit,
}
use multi_venue_grid_engine.Execution.Screening.{
  ClientOrderLookup, LookupContradiction, LookupDecision, unresolved, link_with, resolve_with,
  ScreenedExecutions, screened, stopped, screen_from, screen_executions, has_entries, is_recorded,
}
use multi_venue_grid_engine.Execution.Screening.Unique.{IsUnique, screen_executions-IsUnique}
use multi_venue_grid_engine.Execution.CancelLookup.Own.{
  OwnOrNone, order_differs-OwnOrNone, AreOwn, cancel_contradiction-AreOwn,
}
use multi_venue_grid_engine.Execution.CancelLookup.{
  changed_executions, is_foreign_execution, cancel_contradiction, by_order_status, cancel_evidence,
  are_all_observed, cancel_total, order_differs, cancel_decision, evaluate_cancel_screened,
  evaluate_cancel_lookup,
}

abbrev resolves : LookupDecision → Bool
resolves (resolve_with r) = true
resolves (link_with l) = false
resolves (unresolved code found) = false

undecided-resolves :
    (code : Text) (found : Option LookupContradiction) {d : LookupDecision}
    → stopped (unresolved code found) ≡ stopped d
    → resolves d ≡ false
undecided-resolves code found h = cc

found-resolves :
    (code : Text) (found : Option LookupContradiction) {d : LookupDecision}
    → some (unresolved code found) ≡ some d
    → resolves d ≡ false
found-resolves code found h = cc

not_resolved :
    {d : LookupDecision} {res : CancelResolution} → resolves d ≡ false → d ≡ resolve_with res → ⊥
not_resolved h e = cc

lifted : {A : Type 0} (m : Outcome DecimalError A) {a : A} → lift m ≡ ok a → m ≡ ok a
lifted (ok a) h = cc
lifted (err e) h = cc

none_found : {d : LookupDecision} → none ≡ some d → ⊥
none_found h = cc

not_undecided :
    {code : Text} {found : Option LookupContradiction} {res : CancelResolution}
    → unresolved code found ≡ resolve_with res
    → ⊥
not_undecided h = cc

-- A decision that resolves comes from behind both tests.
past_both :
    {res : CancelResolution} (a b : Bool) (c1 c2 : Text) (f1 f2 : Option LookupContradiction)
    (rest : Outcome RegistryError LookupDecision)
    → (if a then ok (unresolved c1 f1) else if b then ok (unresolved c2 f2) else rest)
      ≡ ok (resolve_with res)
    → (a ≡ false) × (b ≡ false) × (rest ≡ ok (resolve_with res))
past_both true b c1 c2 f1 f2 rest h = absurd (not_undecided (ok_injective h))
past_both false true c1 c2 f1 f2 rest h = absurd (not_undecided (ok_injective h))
past_both false false c1 c2 f1 f2 rest h = (refl, refl, h)

module _ (J : DecimalJs) where
  screen_from-stops :
      (i : OrderIntent) (venue market : Text) (kept : List (Text × ExecutionFacts)) (invalid : Bool)
      (xs : List ExecutionFacts) {d : LookupDecision}
      → screen_from J i venue market kept invalid xs ≡ ok (stopped d)
      → resolves d ≡ false
  unfolding screen_from
  screen_from-stops i venue market kept invalid [] h = cc
  screen_from-stops i venue market kept invalid (x ∷ xs) h =
      elim (Bool-cases (is_execution_in_market venue market x)) [
        | inr e ↦ screen_from-stops i venue market kept true xs (rw (e, screen_from) at h)
        | inl e ↦
            let (matches, e1, h1) =
              >>=-eq-ok (execution_matches_intent J x i venue market) _
                (rw (e, screen_from) at h) in
            elim (Bool-cases matches) [
              | inr differs ↦ undecided-resolves _ _ (ok_injective (rw differs at h1))
              | inl agrees ↦ elim (Option-cases (get_entry kept (known x.execution_id))) [
                | inl fresh ↦
                    screen_from-stops i venue market (set_entry kept (known x.execution_id) x)
                      invalid xs (rw (agrees, fresh) at h1)
                | inr (seen, before) ↦
                    let (same, e2, h2) =
                      >>=-eq-ok (same_facts J (to_recorded seen) (to_recorded x)) _
                        (rw (agrees, before) at h1) in
                    elim (Bool-cases same) [
                      | inr changed ↦ undecided-resolves _ _ (ok_injective (rw changed at h2))
                      | inl again ↦
                          screen_from-stops i venue market (set_entry kept (known x.execution_id) x)
                            invalid xs (rw again at h2)
                    ]
              ]
            ]
      ]

  -- What the venue has shown of the order when a cancel is resolved so.
  abbrev Shows : Option ExchangeOrderObservation → CancelResolution → Bool → Type 0
  Shows order resolution full =
      ((resolution.status ≡ filled) × (full ≡ true))
      ⊎ ((o : ExchangeOrderObservation) × (order ≡ some o)
          × (full ≡ false)
          × (((resolution.status ≡ cancelled) × ((o.status == text "CANCELLED") ≡ true))
              ⊎ ((resolution.status ≡ linked) × ((o.status == text "OPEN") ≡ true))))

  status-Shows :
      (o : ExchangeOrderObservation) (full : Bool) (xs : List RecordedExecution)
      {res : CancelResolution}
      → by_order_status J o.status full xs ≡ resolve_with res
      → Shows (some o) res full × (res.executions ≡ xs)
  unfolding by_order_status
  status-Shows o full xs h = elim (Bool-cases (o.status == text "FILLED" && full)) [
    | inl a ↦ (inl (ground arith, ground arith), ground arith)
    | inr a ↦ elim (Bool-cases (o.status == text "CANCELLED" && not full)) [
      | inl b ↦ (inr (o, refl, ground arith, inl (ground arith, ground arith)), ground arith)
      | inr b ↦ elim (Bool-cases (o.status == text "OPEN" && not full)) [
        | inl c ↦ (inr (o, refl, ground arith, inr (ground arith, ground arith)), ground arith)
        | inr c ↦ absurd (ground arith)
      ]
    ]
  ]

  contradiction-undecided :
      (r : IntentRecord) (s : RegistryState) (unique : List ExecutionFacts) {d : LookupDecision}
      → cancel_contradiction J r s unique ≡ ok (some d)
      → resolves d ≡ false
  unfolding cancel_contradiction
  contradiction-undecided r s unique h =
      elim (Bool-cases (any (λ x. not (x.exchange_order_id == r.exchange_order_id)) unique)) [
        | inl off ↦ found-resolves _ _ (ok_injective (rw (off, cancel_contradiction) at h))
        | inr on ↦
            let (changed, e1, h1) =
              >>=-eq-ok (changed_executions J r.executions unique) _
                (rw (on, cancel_contradiction) at h) in
            elim (Bool-cases (has_entries changed)) [
              | inl some_changed ↦ found-resolves _ _ (ok_injective (rw some_changed at h1))
              | inr none_changed ↦
                  elim (Bool-cases (any (is_foreign_execution J s r.intent.intent_id) unique)) [
                    | inl foreign ↦
                        found-resolves _ _ (ok_injective (rw (none_changed, foreign) at h1))
                    | inr own ↦
                        let (over, e2, h2) =
                          >>=-eq-ok
                            (exceeds_limit J r.executed_quantity
                              (map to_recorded (keep (λ x. not (is_recorded s x)) unique))
                              r.intent.quantity)
                            _ (rw (none_changed, own) at h1) in
                        elim (Bool-cases over) [
                          | inl above ↦ found-resolves _ _ (ok_injective (rw above at h2))
                          | inr within ↦ absurd (none_found (ok_injective (rw within at h2)))
                        ]
                  ]
            ]
      ]

  -- What a lookup has shown when it resolves a cancel.
  pub record IsProven (r : IntentRecord) (s : RegistryState) (lookup : ClientOrderLookup)
      (resolution : CancelResolution) : Type 0 where
    pub parts : ScopeParts
    pub parts_are : parse_scope r.intent.scope_key ≡ ok parts
    pub own_order : OwnOrNone J r parts.venue parts.market lookup.order
    pub unique : List ExecutionFacts
    pub is_unique : IsUnique J r.intent parts.venue parts.market lookup.executions unique
    pub are_own : AreOwn J r s unique
    pub executions_are : resolution.executions ≡ map to_recorded unique
    pub executed : Text
    pub total_is : sum_quantities J (text "0") (map to_recorded unique) ≡ some executed
    pub compared : Ordering
    pub compared_is : decimal_cmp J executed r.intent.quantity ≡ ok compared
    pub within : is_gt compared ≡ false
    pub all_observed : are_all_observed J r.executions unique ≡ true
    pub shows : Shows lookup.order resolution (is_eq compared)

  -- What the checks before the total have established.
  record IsChecked (r : IntentRecord) (s : RegistryState) (lookup : ClientOrderLookup)
      (unique : List ExecutionFacts) : Type 0 where
    parts : ScopeParts
    parts_are : parse_scope r.intent.scope_key ≡ ok parts
    own_order : OwnOrNone J r parts.venue parts.market lookup.order
    is_unique : IsUnique J r.intent parts.venue parts.market lookup.executions unique
    are_own : AreOwn J r s unique

  evidence-Shows :
      (order : Option ExchangeOrderObservation) (executed : Text) (full : Bool)
      (xs : List RecordedExecution) {res : CancelResolution}
      → cancel_evidence J order executed full xs ≡ ok (resolve_with res)
      → Shows order res full × (res.executions ≡ xs)
  unfolding cancel_evidence
  evidence-Shows none executed full xs h = elim (Bool-cases full) [
    | inl e ↦ (inl (ground arith, e), ground arith)
    | inr e ↦ absurd (ground arith)
  ]
  evidence-Shows (some o) executed full xs h =
      let (c, e1, h1) = >>=-eq-ok (lift (decimal_cmp J o.executed_quantity executed)) _ h in
      elim (Bool-cases (is_eq c)) [
        | inl same ↦ status-Shows o full xs (ok_injective (rw same at h1))
        | inr other ↦ absurd (not_undecided (ok_injective (rw other at h1)))
      ]

  total-IsProven :
      (r : IntentRecord) (s : RegistryState) (lookup : ClientOrderLookup)
      (unique : List ExecutionFacts) (executed : Text) {res : CancelResolution}
      → IsChecked r s lookup unique
      → sum_quantities J (text "0") (map to_recorded unique) ≡ some executed
      → cancel_total J r s lookup.order unique executed ≡ ok (resolve_with res)
      → IsProven r s lookup res
  unfolding cancel_total
  total-IsProven r s lookup unique executed checked total h =
      let (c, e1, h1) = >>=-eq-ok (lift (decimal_cmp J executed r.intent.quantity)) _ h in
      let (within, observed, rest) =
        past_both (is_gt c) (not (are_all_observed J r.executions unique)) _ _ _ _ _ h1 in
      let (shows, same) =
        evidence-Shows lookup.order executed (is_eq c) (map to_recorded unique) rest in
      record {
        parts = checked.parts;
        parts_are = checked.parts_are;
        own_order = checked.own_order;
        unique = unique;
        is_unique = checked.is_unique;
        are_own = checked.are_own;
        executions_are = same;
        executed = executed;
        total_is = total;
        compared = c;
        compared_is = lifted _ e1;
        within = within;
        all_observed = ground arith;
        shows = shows;
      }

  decision-IsProven :
      (r : IntentRecord) (s : RegistryState) (parts : ScopeParts) (lookup : ClientOrderLookup)
      (unique : List ExecutionFacts) (invalid : Bool) {res : CancelResolution}
      → parse_scope r.intent.scope_key ≡ ok parts
      → screen_executions J r.intent lookup.executions parts.venue parts.market
        ≡ ok (screened unique invalid)
      → AreOwn J r s unique
      → cancel_decision J r s parts.venue parts.market lookup.order unique invalid
        ≡ ok (resolve_with res)
      → IsProven r s lookup res
  unfolding cancel_decision
  decision-IsProven r s parts lookup unique invalid scope screening own h =
      let (differs, e, h1) =
        >>=-eq-ok (order_differs J r parts.venue parts.market lookup.order) _ h in
      elim (Bool-cases differs) [
        | inl other ↦ absurd (not_undecided (ok_injective (rw other at h1)))
        | inr same ↦ elim (Bool-cases invalid) [
          | inl bad ↦ absurd (not_undecided (ok_injective (rw (same, bad) at h1)))
          | inr good ↦ elim (Option-cases (sum_quantities J (text "0") (map to_recorded unique))) [
            | inl unbounded ↦
                absurd (not_undecided (ok_injective (rw (same, good, unbounded) at h1)))
            | inr (executed, total) ↦
                let checked : IsChecked r s lookup unique = record {
                  parts = parts;
                  parts_are = scope;
                  own_order =
                      order_differs-OwnOrNone J r parts.venue parts.market lookup.order
                        (e ∙ ap ok same);
                  is_unique =
                      screen_executions-IsUnique J r.intent parts.venue parts.market
                        lookup.executions (screening ∙ ap (λ b. ok (screened unique b)) good);
                  are_own = own;
                } in
                total-IsProven r s lookup unique executed checked total
                  (rw (same, good, total) at h1)
          ]
        ]
      ]

  screened-IsProven :
      (r : IntentRecord) (s : RegistryState) (parts : ScopeParts) (lookup : ClientOrderLookup)
      (screening : ScreenedExecutions) {res : CancelResolution}
      → parse_scope r.intent.scope_key ≡ ok parts
      → screen_executions J r.intent lookup.executions parts.venue parts.market ≡ ok screening
      → evaluate_cancel_screened J r s parts.venue parts.market lookup.order screening
        ≡ ok (resolve_with res)
      → IsProven r s lookup res
  unfolding evaluate_cancel_screened screen_executions
  screened-IsProven r s parts lookup (stopped d) scope e h = absurd (
      not_resolved
        (screen_from-stops r.intent parts.venue parts.market [] false lookup.executions e)
        (ok_injective h))
  screened-IsProven r s parts lookup (screened unique invalid) scope e h =
      let (contradiction, e1, h1) = >>=-eq-ok (cancel_contradiction J r s unique) _ h in
      elim (Option-cases contradiction) [
        | inl nothing ↦
            let own = cancel_contradiction-AreOwn J r s unique (e1 ∙ ap ok nothing) in
            decision-IsProven r s parts lookup unique invalid scope e own (rw nothing at h1)
        | inr (d, something) ↦ absurd (
            not_resolved (contradiction-undecided r s unique (e1 ∙ ap ok something))
              (ok_injective (rw something at h1)))
      ]

  -- A lookup resolves a pending cancel only with executions whose exact total is at most the intent's
  -- quantity: with one execution for each ID that the lookup gives and none else, each of the intent
  -- and of the record's order, none recorded for another intent, none contradicting a recorded one, and
  -- every recorded one among them. It resolves as filled only when the total is the whole quantity, and
  -- otherwise only when an order was observed, as cancelled when its status is CANCELLED and as linked
  -- when it is OPEN; and an order that was observed is the record's own, by its venue, market, IDs,
  -- side, price and quantity.
  pub evaluate_cancel_lookup-IsProven :
      (r : IntentRecord) (lookup : ClientOrderLookup) (s : RegistryState) {res : CancelResolution}
      → evaluate_cancel_lookup J r lookup s ≡ ok (resolve_with res)
      → IsProven r s lookup res
  unfolding evaluate_cancel_lookup
  evaluate_cancel_lookup-IsProven r lookup s h =
      let (parts, scope, h1) = >>=-eq-ok (parse_scope r.intent.scope_key) _ h in
      let (screening, e, h2) =
        >>=-eq-ok (screen_executions J r.intent lookup.executions parts.venue parts.market) _ h1 in
      screened-IsProven r s parts lookup screening scope e h2

-- ===== src/Execution/Admission/Claims.antt =====
-- What the exposure gate of src/execution/coordinator.ts counts beside the position: a claim for each
-- record that may still increase it, and one for each intent of the batch.
use mathlib.Core.List.{Perm, perm_middle, append_assoc}
use mathlib.Core.List.Perm
use multi_venue_grid_engine.Base.{
  ◌≡◌, refl, subst, inl, inr, Bool, true, false, ◌&&◌, Bool-cases, none, some, List, [], ◌∷◌, ◌++◌,
  map, Text, Outcome, ok, err, ◌||◌, Option-cases, place, sort, if◌then◌else◌,
}
use multi_venue_grid_engine.Math.DecimalJs.{DecimalJs}
use multi_venue_grid_engine.Math.Decimal.{DecimalError}
use multi_venue_grid_engine.Math.ExactDecimal.{exact_sub}
use multi_venue_grid_engine.Risk.Types.{str}
use multi_venue_grid_engine.Risk.PlannedExposure.Directed.{
  Exposed, exposed, exposed_orders, exposed_reservations, exposed_intents,
}
use multi_venue_grid_engine.Execution.IntentStatus.{
  IntentStatus, prepared, unknown, linked, not_sent, rejected, cancel_prepared, cancelled, filled,
  cancel_unverified, is_working,
}
use multi_venue_grid_engine.Execution.Intents.{OrderIntent, IntentRecord}
use multi_venue_grid_engine.Execution.Observations.{remaining_quantity, difference_or_null, or_null}
use multi_venue_grid_engine.Execution.Ports.{ExposureInputs}
use multi_venue_grid_engine.Execution.CoordinatorState.{
  Coordinator, list_records, entry_record, key_leb, is_risk_increasing,
}
use multi_venue_grid_engine.Execution.Admission.{
  ExposureReservation, value_of, is_possibly_live, reserve_working, reserve_record, reserve_all,
  exposure_reservation, to_proposed_intent, gate_args,
}

-- The statuses in which some of an order may still be executed.
unfoldable pub may_execute : IntentStatus → Bool
may_execute prepared = true
may_execute unknown = true
may_execute linked = true
may_execute cancel_prepared = true
may_execute cancel_unverified = true
may_execute _ = false

module _ (J : DecimalJs) where
  -- What is left of a working order, or all of it where the difference is not exact; all of a submission
  -- that may have reached the venue.
  unfoldable pub claimed_quantity : IntentRecord → Text
  claimed_quantity r =
      if is_working r.status
      then elim (exact_sub J r.intent.quantity r.executed_quantity) [
        | ok left ↦ left
        | err e ↦ r.intent.quantity
      ]
      else r.intent.quantity

  abbrev pub record_claim : IntentRecord → Exposed
  record_claim r = record {
    side = str r.intent.side;
    quantity = str (claimed_quantity r);
    price = value_of r.intent.price;
  }

  unfoldable pub record_claims : List (Text × IntentRecord) → List Exposed
  record_claims [] = []
  record_claims ((k, r) ∷ rs) =
      if is_risk_increasing r.intent && may_execute r.status
      then record_claim r ∷ record_claims rs
      else record_claims rs

abbrev pub intent_claim : OrderIntent → Exposed
intent_claim i = record { side = str i.side; quantity = str i.quantity; price = value_of i.price }

unfoldable pub intent_claims : List OrderIntent → List Exposed
intent_claims [] = []
intent_claims (i ∷ is) =
    if is_risk_increasing i then intent_claim i ∷ intent_claims is else intent_claims is

intents-claims :
    (is : List OrderIntent) → exposed_intents (map to_proposed_intent is) ≡ intent_claims is
unfolding exposed_intents to_proposed_intent intent_claims
intents-claims [] = refl
intents-claims (i ∷ is) = elim (Bool-cases (is_risk_increasing i)) [
  | inl risky ↦ rw (risky, intents-claims is) refl
  | inr safe ↦ rw (safe, intents-claims is) refl
]

module _ (J : DecimalJs) where
  -- The entries of a reservation, orders first.
  abbrev reserved : ExposureReservation → List Exposed
  reserved e = exposed_orders e.owned_active_orders ++ exposed_reservations e.unknown_reservations

  left-same :
      (quantity : Text) (left : Outcome DecimalError Text)
      → elim (or_null left) [ none ↦ quantity | some l ↦ l ]
        ≡ elim left [ ok l ↦ l | err e ↦ quantity ]
  left-same quantity (ok l) = refl
  left-same quantity (err e) = refl

  remaining-claimed :
      (r : IntentRecord)
      → is_working r.status ≡ true
      → remaining_quantity J r.intent.quantity r.executed_quantity ≡ claimed_quantity J r
  unfolding remaining_quantity difference_or_null claimed_quantity
  remaining-claimed r w =
      rw w (left-same r.intent.quantity (exact_sub J r.intent.quantity r.executed_quantity))

  working-claims :
      (r : IntentRecord) (rest : ExposureReservation)
      → is_working r.status ≡ true
      → Perm (reserved (reserve_working J r rest)) (record_claim J r ∷ reserved rest)
  unfolding reserve_working exposed_orders exposed_reservations claimed_quantity
  working-claims r rest w = elim (Option-cases r.intent.price) [
    | inl none_given ↦
        rw (none_given, remaining-claimed r w)
          (perm_middle (exposed_orders rest.owned_active_orders)
            (exposed_reservations rest.unknown_reservations))
    | inr (p, priced) ↦ rw (priced, remaining-claimed r w) (Perm.refl _)
  ]

  live_cases : (s : IntentStatus) → may_execute s ≡ (is_working s || is_possibly_live s)
  unfolding may_execute is_working is_possibly_live
  live_cases prepared = refl
  live_cases unknown = refl
  live_cases linked = refl
  live_cases cancel_prepared = refl
  live_cases cancel_unverified = refl
  live_cases not_sent = refl
  live_cases rejected = refl
  live_cases cancelled = refl
  live_cases filled = refl

  idle-claimed :
      (r : IntentRecord) → is_working r.status ≡ false → claimed_quantity J r ≡ r.intent.quantity
  unfolding claimed_quantity
  idle-claimed r idle = rw idle refl

  -- What one record adds.
  record-claims :
      (k : Text) (r : IntentRecord) (rs : List (Text × IntentRecord)) (rest : ExposureReservation)
      → Perm (reserved rest) (record_claims J rs)
      → Perm (reserved (reserve_record J r rest)) (record_claims J ((k, r) ∷ rs))
  unfolding reserve_record record_claims exposed_reservations
  record-claims k r rs rest p =
      let live = live_cases r.status in
      elim (Bool-cases (is_risk_increasing r.intent)) [
        | inr safe ↦ rw safe p
        | inl risky ↦ elim (Bool-cases (is_working r.status)) [
          | inl working ↦
              let both =
                Perm.trans (working-claims r rest working) (Perm.cons (record_claim J r) p) in
              rw (risky, live, working) both
          | inr idle ↦ elim (Bool-cases (is_possibly_live r.status)) [
            | inl waits ↦
                let middle =
                  perm_middle (exposed_orders rest.owned_active_orders)
                    (exposed_reservations rest.unknown_reservations) in
                let same = idle-claimed r idle in
                rw (risky, live, idle, waits, same) (Perm.trans middle (Perm.cons _ p))
            | inr gone ↦ rw (risky, live, idle, gone) p
          ]
        ]
      ]

  all-claims :
      (rs : List (Text × IntentRecord))
      → Perm (reserved (reserve_all J (map entry_record rs))) (record_claims J rs)
  unfolding reserve_all record_claims exposed_orders exposed_reservations
  all-claims [] = Perm.refl []
  all-claims ((k, r) ∷ rs) = record-claims k r rs _ (all-claims rs)

  cons-claims :
      (e : Text × IntentRecord) (xs ys : List (Text × IntentRecord))
      → Perm (record_claims J xs) (record_claims J ys)
      → Perm (record_claims J (e ∷ xs)) (record_claims J (e ∷ ys))
  unfolding record_claims
  cons-claims (k, r) xs ys p =
      elim (Bool-cases (is_risk_increasing r.intent && may_execute r.status)) [
        | inl counts ↦ rw counts (Perm.cons (record_claim J r) p)
        | inr passed ↦ rw passed p
      ]

  swap-claims :
      (d e : Text × IntentRecord) (rs : List (Text × IntentRecord))
      → Perm (record_claims J (d ∷ e ∷ rs)) (record_claims J (e ∷ d ∷ rs))
  unfolding record_claims
  swap-claims (k, r) (l, q) rs =
      elim (Bool-cases (is_risk_increasing r.intent && may_execute r.status)) [
        | inr passed ↦ rw passed (Perm.refl _)
        | inl counts ↦ elim (Bool-cases (is_risk_increasing q.intent && may_execute q.status)) [
          | inl both ↦ rw (counts, both) (Perm.swap (record_claim J q) (record_claim J r) _)
          | inr one ↦ rw (counts, one) (Perm.refl _)
        ]
      ]

  place-claims :
      (e : Text × IntentRecord) (rs : List (Text × IntentRecord))
      → Perm (record_claims J (place key_leb e rs)) (record_claims J (e ∷ rs))
  unfolding place
  place-claims e [] = Perm.refl _
  place-claims e (d ∷ rs) = elim (Bool-cases (key_leb e d)) [
    | inl before ↦ rw before (Perm.refl _)
    | inr after ↦ rw after (Perm.trans (cons-claims d _ _ (place-claims e rs)) (swap-claims d e rs))
  ]

  sort-claims :
      (rs : List (Text × IntentRecord))
      → Perm (record_claims J (sort key_leb rs)) (record_claims J rs)
  unfolding sort
  sort-claims [] = Perm.refl _
  sort-claims (e ∷ rs) =
      Perm.trans (place-claims e (sort key_leb rs)) (cons-claims e _ _ (sort-claims rs))

  -- The gate counts exactly the claims of the records and of the batch.
  pub gate_args-claims :
      (c : Coordinator) (inputs : ExposureInputs) (is : List OrderIntent)
      → Perm
          (exposed (gate_args J c inputs is))
          (record_claims J c.registry.records ++ intent_claims is)
  unfolding exposed gate_args exposure_reservation list_records
  gate_args-claims c inputs is =
      let own = exposure_reservation J c.registry in
      rw⁻¹ (intents-claims is) (
        subst
          (λ x.
            Perm x
              (record_claims J c.registry.records ++ exposed_intents (map to_proposed_intent is)))
          (append_assoc (exposed_orders own.owned_active_orders)
            (exposed_reservations own.unknown_reservations) _)
          (Perm.append_right _ (
            Perm.trans (all-claims (sort key_leb c.registry.records))
              (sort-claims c.registry.records))))

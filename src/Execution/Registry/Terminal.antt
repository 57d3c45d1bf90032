-- ===== src/Execution/Registry/Terminal.antt =====
-- The life of one intent in the registry (intent-registry.ts), over every sequence of calls.
use multi_venue_grid_engine.Base.{
  ◌≡◌, refl, ap, sym, ◌∙◌, subst, ◌⊎◌, inl, inr, Bool, true, false, none, some, List, Text, text_eq,
  arith, ◌==◌, ok, Bool-cases, get_entry, set_entry, get-set_same, get-set_other,
}
use multi_venue_grid_engine.Math.DecimalJs.{DecimalJs}
use multi_venue_grid_engine.Math.Order.{IsNumericOrder}
use multi_venue_grid_engine.Execution.IntentStatus.{
  IntentStatus, status_eq, allowed_transitions, is_working, not_sent, rejected, cancelled, filled,
}
use multi_venue_grid_engine.Execution.Intents.{OrderIntent, IntentRecord}
use multi_venue_grid_engine.Execution.RegistryState.{RegistryState}
use multi_venue_grid_engine.Execution.Registry.{RegistryCall, perform}
use multi_venue_grid_engine.Execution.Registry.Evolves.{Evolves, IsBounded}
use multi_venue_grid_engine.Execution.Registry.Change.{
  Change, unchanged, registered, moved, perform-Change,
}

abbrev pub is_terminal : IntentStatus → Bool
is_terminal not_sent = true
is_terminal rejected = true
is_terminal cancelled = true
is_terminal filled = true
is_terminal _ = false

-- What a record of the new state was before, if it stood under the same ID.
lookup_set :
    (m : List (Text × IntentRecord)) (k i : Text) (a : IntentRecord) {r : IntentRecord}
    → get_entry (set_entry m k a) i ≡ some r
    → ((k ≡ i) × (r ≡ a)) ⊎ (get_entry m i ≡ some r)
lookup_set m k i a {r} h = elim (Bool-cases (k == i)) [
  | inl e ↦
      let same : k ≡ i = (text_eq.beq_iff k i).0 e in
      let found : some a ≡ some r =
        sym (get-set_same m k a) ∙ (ap (get_entry (set_entry m k a)) same ∙ h) in
      inl (same, cc)
  | inr e ↦ inr (sym (get-set_other m k i a e) ∙ h)
]

module _ (J : DecimalJs) (sha : Text → Text) (fingerprint : OrderIntent → Text) where
  stays : (r : IntentRecord) → Evolves r r
  stays r = record { same_intent = refl; moves = inl refl }

  Change-Evolves :
      (s s' : RegistryState) (i : Text) (r : IntentRecord)
      → Change J s s'
      → get_entry s.records i ≡ some r
      → (r' : IntentRecord) × (get_entry s'.records i ≡ some r') × Evolves r r'
  Change-Evolves s s' i r (unchanged e) h = (r, ap (λ m. get_entry m i) e ∙ h, stays r)
  Change-Evolves s s' i r (registered k a absent e _) h = elim (Bool-cases (k == i)) [
    | inl same ↦
        let found : none ≡ some r =
          sym absent ∙ (ap (get_entry s.records) ((text_eq.beq_iff k i).0 same) ∙ h) in
        absurd (cc)
    | inr other ↦
        (r, ap (λ m. get_entry m i) e ∙ (get-set_other s.records k i a other ∙ h), stays r)
  ]
  Change-Evolves s s' i r (moved k a b before e evolves _) h = elim (Bool-cases (k == i)) [
    | inl same ↦
        let at : k ≡ i = (text_eq.beq_iff k i).0 same in
        let found : some a ≡ some r = sym before ∙ (ap (get_entry s.records) at ∙ h) in
        let is : a ≡ r = cc in
        (
          b,
          ap (λ m. get_entry m i) e
              ∙ subst (λ x. get_entry (set_entry s.records k b) x ≡ some b) at
                  (get-set_same s.records k b),
          subst (λ x. Evolves x b) is evolves,
        )
    | inr other ↦
        (r, ap (λ m. get_entry m i) e ∙ (get-set_other s.records k i b other ∙ h), stays r)
  ]

  -- A call that succeeds keeps every registered intent with its record, which changes its status
  -- only along the allowed transitions; a record that keeps its status keeps every field, unless the
  -- order is working.
  pub perform-Evolves :
      (s : RegistryState) (call : RegistryCall) {s' : RegistryState} (i : Text) (r : IntentRecord)
      → perform J sha fingerprint s call ≡ ok s'
      → get_entry s.records i ≡ some r
      → (r' : IntentRecord) × (get_entry s'.records i ≡ some r') × Evolves r r'
  perform-Evolves s call {s'} i r h found =
      Change-Evolves s s' i r (perform-Change J sha fingerprint s call h) found

  -- Every sequence of calls in which each succeeds.
  pub data CallPath (s : RegistryState) : RegistryState → Type 0 where
    start : CallPath s s
    next :
        {t u : RegistryState} (call : RegistryCall)
        → CallPath s t
        → perform J sha fingerprint t call ≡ ok u
        → CallPath s u

  terminal_stays : (r r' : IntentRecord) → is_terminal r.status ≡ true → Evolves r r' → r' ≡ r
  unfolding allowed_transitions is_working
  terminal_stays r r' t v = elim v.moves [
    | inl e ↦ e
    | inr (inl allowed) ↦ absurd (ground arith)
    | inr (inr (w, _)) ↦ absurd (ground arith)
  ]

  -- Once an intent is not sent, rejected, cancelled or filled, its record never changes again in any
  -- field, whatever sequence of calls follows.
  pub terminal-constant :
      {s t : RegistryState} (i : Text) (r : IntentRecord)
      → CallPath s t
      → get_entry s.records i ≡ some r
      → is_terminal r.status ≡ true
      → get_entry t.records i ≡ some r
  terminal-constant i r start h final = h
  terminal-constant {t = t} i r (next {t = u} call p step) h final =
      let before = terminal-constant i r p h final in
      let (r', found, evolves) = perform-Evolves u call i r step before in
      subst (λ x. get_entry t.records i ≡ some x) (terminal_stays r r' final evolves) found

  -- Every record's executed quantity is at most the quantity of its intent.
  abbrev pub AllBounded : RegistryState → Type 0
  AllBounded s = (i : Text) (r : IntentRecord) → get_entry s.records i ≡ some r → IsBounded J r

  Change-AllBounded :
      (laws : IsNumericOrder J) (s s' : RegistryState)
      → Change J s s'
      → AllBounded s
      → AllBounded s'
  Change-AllBounded laws s s' (unchanged e) all i r h =
      all i r (sym (ap (λ m. get_entry m i) e) ∙ h)
  Change-AllBounded laws s s' (registered k a absent e bounded) all i r h =
      elim (lookup_set s.records k i a (sym (ap (λ m. get_entry m i) e) ∙ h)) [
        | inl (_, is) ↦ subst (IsBounded J) (sym is) (bounded laws)
        | inr old ↦ all i r old
      ]
  Change-AllBounded laws s s' (moved k a b before e _ bounded) all i r h =
      elim (lookup_set s.records k i b (sym (ap (λ m. get_entry m i) e) ∙ h)) [
        | inl (_, is) ↦ subst (IsBounded J) (sym is) (bounded (all k a before))
        | inr old ↦ all i r old
      ]

  path_bounded :
      (laws : IsNumericOrder J) {s t : RegistryState} → CallPath s t → AllBounded s → AllBounded t
  path_bounded laws start all = all
  path_bounded laws {t = t} (next {t = u} call p step) all =
      Change-AllBounded laws u t (perform-Change J sha fingerprint u call step)
        (path_bounded laws p all)

  -- If decimal.js compares as numbers do, then from a registry in which every record's executed
  -- quantity is at most the quantity of its intent, every sequence of calls leads to one in which
  -- this holds of every record.
  pub path-AllBounded :
      (laws : IsNumericOrder J) {s t : RegistryState} (i : Text) (r : IntentRecord)
      → CallPath s t
      → AllBounded s
      → get_entry t.records i ≡ some r
      → IsBounded J r
  path-AllBounded laws i r p all found = path_bounded laws p all i r found

-- ===== src/Execution/Sends/Unwritten.antt =====
-- src/execution/coordinator.ts: a place whose intent could not be written is never sent (sendPlace).
use multi_venue_grid_engine.Base.{
  ◌≡◌, refl, sym, ap, ◌∙◌, subst, Bool, true, false, some, List, [], ◌∷◌, Text, text, text_eq,
  Outcome, ok, get_entry, set_entry, get-set_same, discrete_beq,
}
use multi_venue_grid_engine.Execution.IntentStatus.{
  IntentStatus, IntentStatus-discrete, status_eq, allowed_transitions, prepared, not_sent,
}
use multi_venue_grid_engine.Execution.Intents.{RegistryError, OrderIntent, IntentRecord}
use multi_venue_grid_engine.Execution.RegistryState.{RegistryState, require_record, assert_allowed}
use multi_venue_grid_engine.Execution.Registry.{transition, prepare}
use multi_venue_grid_engine.Execution.CoordinatorState.{
  Coordinator, interrupt_all, interrupt_all-registry,
}
use multi_venue_grid_engine.Execution.Steps.{
  Effect, persisted, Machine, Deps, return, ◌>>=◌, await, change, persist, latch_unless,
}
use multi_venue_grid_engine.Execution.Steps.Rules.{chain-ok, change-ok}
use multi_venue_grid_engine.Execution.Sends.Rules.{latch-registry}
use multi_venue_grid_engine.Execution.Submission.{mark, send_if_durable, send_place}
use multi_venue_grid_engine.Execution.Sends.{HasPrepared}
use multi_venue_grid_engine.Execution.Sends.Place.{prepare-HasPrepared}

abbrev pub unwritten : List Text
unwritten = text "JOURNAL_WRITE_FAILED" ∷ []

-- The registry with the intent marked as not sent.
abbrev marked : RegistryState → Text → IntentRecord → RegistryState
marked s id r = record s {
  records = set_entry s.records id (record r { status = not_sent; reason_codes = unwritten });
}

prepared-require :
    (s : RegistryState) (i : OrderIntent) (h : HasPrepared s i)
    → require_record s i.intent_id ≡ ok h.held
unfolding require_record
prepared-require s i h = rw (h.found, require_record) refl

prepared-allowed :
    (status : IntentStatus) → status ≡ prepared → assert_allowed status not_sent ≡ ok tt
unfolding assert_allowed allowed_transitions IntentStatus-discrete discrete_beq
prepared-allowed status e = subst (λ s. assert_allowed s not_sent ≡ ok tt) (sym e) refl

prepared-transition :
    (s : RegistryState) (i : OrderIntent) (h : HasPrepared s i)
    → transition s i.intent_id not_sent unwritten ≡ ok (marked s i.intent_id h.held)
unfolding transition
prepared-transition s i h =
    rw (prepared-require s i h, transition) (rw (prepared-allowed h.held.status h.is_prepared) refl)

-- A machine in which the intent was withheld: nothing went out since `before`, the journal is latched,
-- and the record says that the intent was not sent.
pub record IsWithheld {W : Type 0} (i : OrderIntent) (written : RegistryState)
    (before : List Effect) (m : Machine W) : Type 0 where
  pub effects : m.trace ≡ persisted written false ∷ before
  pub latched : m.coordinator.journal_failed ≡ true
  pub held : IntentRecord
  pub found : get_entry m.coordinator.registry.records i.intent_id ≡ some held
  pub is_not_sent : held.status ≡ not_sent

module _ {W : Type 0} (D : Deps W) (i : OrderIntent) (s' : RegistryState) where
  abbrev Withheld : List Effect → Outcome RegistryError (List Text) × Machine W → Type 0
  Withheld before end = (end.0 ≡ ok unwritten) × IsWithheld i s' before end.1

  -- After the marking of a registry that holds the intent as prepared.
  marked-IsWithheld :
      (m : Machine W) (before : List Effect) (h : HasPrepared m.coordinator.registry i)
      → m.trace ≡ persisted s' false ∷ before
      → m.coordinator.journal_failed ≡ true
      → Withheld before (mark D i.intent_id not_sent unwritten m)
  unfolding mark return
  marked-IsWithheld m before h effects latched =
      let run =
        chain-ok (change (λ s. transition s i.intent_id not_sent unwritten)) (λ _. return unwritten)
          m (change-ok _ m (prepared-transition m.coordinator.registry i h)) in
      subst (Withheld before) (sym run) (
        refl,
        record {
          effects = effects;
          latched = latched;
          held = _;
          found = get-set_same m.coordinator.registry.records i.intent_id _;
          is_not_sent = refl;
        },
      )

  unwritten-IsWithheld :
      (m : Machine W) (before : List Effect) (durable : Bool)
      (h : HasPrepared m.coordinator.registry i)
      → m.trace ≡ persisted s' durable ∷ before
      → m.coordinator.journal_failed ≡ true
      → durable ≡ false
      → Withheld before (send_if_durable D i durable m)
  unfolding send_if_durable
  unwritten-IsWithheld m before true h effects latched failed = cc
  unwritten-IsWithheld m before false h effects latched failed =
      marked-IsWithheld m before h effects latched

  latch_unless-failed :
      (durable : Bool) (c : Coordinator)
      → durable ≡ false
      → (latch_unless durable c).journal_failed ≡ true
  latch_unless-failed true c failed = cc
  latch_unless-failed false c failed = refl

  written-IsWithheld :
      (m : Machine W) (h : HasPrepared s' i)
      → m.coordinator.registry ≡ s'
      → (D.ports.persist_journal s' m.world).2 ≡ false
      → Withheld m.trace ((persist D.ports >>= λ durable. send_if_durable D i durable) m)
  unfolding ◌>>=◌ persist await
  written-IsWithheld m h same failed =
      let call = D.ports.persist_journal m.coordinator.registry m.world in
      let still =
        latch-registry call.2 (interrupt_all m.coordinator call.1)
        ∙ interrupt_all-registry m.coordinator call.1
        ∙ same in
      let fails = ap (λ s. (D.ports.persist_journal s m.world).2) same ∙ failed in
      unwritten-IsWithheld _ m.trace call.2 (subst (λ s. HasPrepared s i) (sym still) h)
        (ap (λ s. persisted s call.2 ∷ m.trace) same) (latch_unless-failed call.2 _ fails) fails

  -- If the registry accepts an intent and the journal cannot write it, then the send ends with the code
  -- of the failure, nothing has gone out since it began but the failed write, the journal is latched,
  -- and the record says that the intent was not sent.
  pub send_place-IsWithheld :
      (m : Machine W)
      → prepare D.decimal_js D.sha256_hex D.intent_fingerprint m.coordinator.registry i ≡ ok s'
      → (D.ports.persist_journal s' m.world).2 ≡ false
      → ((send_place D i m).0 ≡ ok unwritten) × IsWithheld i s' m.trace (send_place D i m).1
  unfolding send_place
  send_place-IsWithheld m prepares failed =
      let run =
        chain-ok (change (λ s. prepare D.decimal_js D.sha256_hex D.intent_fingerprint s i)) _ m
          (change-ok _ m prepares) in
      subst (Withheld m.trace) (sym run) (
        written-IsWithheld (record m { coordinator = record m.coordinator { registry = s' } })
          (prepare-HasPrepared D m.coordinator.registry i s' prepares) refl failed)

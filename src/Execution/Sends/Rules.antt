-- ===== src/Execution/Sends/Rules.antt =====
-- src/execution/coordinator.ts: the steps that keep the invariant by themselves.
use multi_venue_grid_engine.Base.{
  ◌≡◌, refl, ◌∙◌, true, false, sym, subst, Bool, List, ◌∷◌, Outcome, ok,
}
use multi_venue_grid_engine.Execution.Intents.{RegistryError}
use multi_venue_grid_engine.Execution.RegistryState.{RegistryState}
use multi_venue_grid_engine.Execution.Registry.{RegistryCall, perform}
use multi_venue_grid_engine.Execution.Registry.Terminal.{CallPath}
use multi_venue_grid_engine.Execution.Registry.Terminal
use multi_venue_grid_engine.Execution.Ports.{Awaited}
use multi_venue_grid_engine.Execution.CoordinatorState.{
  Coordinator, interrupt_all, interrupt_all-registry,
}
use multi_venue_grid_engine.Execution.Steps.{
  Effect, persisted, Machine, Deps, return, gets, modify, await, change, of_outcome, persist,
  latch_unless,
}
use multi_venue_grid_engine.Execution.Steps.Rules.{Triple, Keeps, changes, returns, reads, computes}
use multi_venue_grid_engine.Execution.Sends.{AllSound, IsOn, IsAfterWrite}

pub latch-registry : (b : Bool) (c : Coordinator) → (latch_unless b c).registry ≡ c.registry
latch-registry true c = refl
latch-registry false c = refl

-- After a write of a registry with `P`, where it became durable.
abbrev pub AfterWrite : (RegistryState → Type 0) → Bool → List Effect → Type 0
AfterWrite P true t = IsAfterWrite P t × AllSound t
AfterWrite P false t = AllSound t

after_write :
    (P : RegistryState → Type 0) (s : RegistryState) (durable : Bool) (t : List Effect)
    → P s
    → AllSound t
    → AfterWrite P durable (persisted s durable ∷ t)
after_write P s true t p sound =
    (record { written = s; earlier = t; directly = refl; holds = p }, (tt, sound))
after_write P s false t p sound = (tt, sound)

module _ {W : Type 0} (D : Deps W) (s0 : RegistryState) where
  abbrev Calls : RegistryState → Type 0
  Calls = CallPath D.decimal_js D.sha256_hex D.intent_fingerprint s0

  abbrev pub On : (List Effect → Type 0) → Machine W → Type 0
  On = IsOn D s0

  pub awaits :
      {A : Type 0} {T : List Effect → Type 0} {E : Machine W → Type 0} (call : W → Awaited W A)
      → Triple (On T) (await call) (λ _. On T) E
  unfolding await
  awaits call = record {
    run = λ m p. record {
      path = subst Calls (sym (interrupt_all-registry m.coordinator (call m.world).1)) p.path;
      sends = p.sends;
    };
  }

  -- A change of the coordinator outside its registry.
  pub modifies :
      {T : List Effect → Type 0} {E : Machine W → Type 0} (f : Coordinator → Coordinator)
      → ((c : Coordinator) → (f c).registry ≡ c.registry)
      → Triple (On T) (modify f) (λ _. On T) E
  unfolding modify
  modifies f same = record {
    run = λ m p. record { path = subst Calls (sym (same m.coordinator)) p.path; sends = p.sends };
  }

  -- A call of the registry.
  pub calls :
      {T : List Effect → Type 0} (f : RegistryState → Outcome RegistryError RegistryState)
      → ((s s' : RegistryState) → f s ≡ ok s' → Calls s → Calls s')
      → Keeps (On T) (change f)
  calls f step =
      changes f
        (λ m p s e. record { path = step m.coordinator.registry s e p.path; sends = p.sends })
        (λ m p. p)

  -- The write that a durable journal has, for what holds after any write.
  pub persists :
      {T T' : List Effect → Type 0} {E : Machine W → Type 0}
      → ((s : RegistryState) (durable : Bool) (t : List Effect)
          → T t
          → T' (persisted s durable ∷ t))
      → Triple (On T) (persist D.ports) (λ _. On T') E
  unfolding persist await
  persists after = record {
    run = λ m p.
        let call = D.ports.persist_journal m.coordinator.registry m.world in
        record {
          path =
              subst Calls
                (sym (
                  latch-registry call.2 (interrupt_all m.coordinator call.1)
                  ∙ interrupt_all-registry m.coordinator call.1))
                p.path;
          sends = after m.coordinator.registry call.2 m.trace p.sends;
        };
  }

  pub persists_holding :
      {E : Machine W → Type 0} (P : RegistryState → Type 0)
      → Triple
          (λ m. On AllSound m × P m.coordinator.registry)
          (persist D.ports)
          (λ durable. On (AfterWrite P durable))
          E
  unfolding persist await
  persists_holding P = record {
    run = λ m p.
        let call = D.ports.persist_journal m.coordinator.registry m.world in
        record {
          path =
              subst Calls
                (sym (
                  latch-registry call.2 (interrupt_all m.coordinator call.1)
                  ∙ interrupt_all-registry m.coordinator call.1))
                p.0.path;
          sends = after_write P m.coordinator.registry call.2 m.trace p.1 p.0.sends;
        };
  }

  pub persists-Good : Keeps (On AllSound) (persist D.ports)
  persists-Good = persists (λ s durable t sound. (tt, sound))

  pub returns-On {ℓ} :
      {A : Type ℓ} {T : List Effect → Type 0} {E : Machine W → Type 0} (a : A)
      → Triple (On T) (return a) (λ _. On T) E
  returns-On a = returns a (λ m p. p)

  pub reads-On {ℓ} :
      {A : Type ℓ} {T : List Effect → Type 0} {E : Machine W → Type 0} (f : Coordinator → A)
      → Triple (On T) (gets f) (λ _. On T) E
  reads-On f = reads f (λ m p. p)

  pub computes-On {ℓ} :
      {A : Type ℓ} {T : List Effect → Type 0} (r : Outcome RegistryError A)
      → Keeps (On T) (of_outcome r)
  computes-On r = computes r (λ m p a e. p) (λ m p. p)

  -- The call of the registry that gives this state.
  pub by_call :
      (call : RegistryCall) (s s' : RegistryState)
      → perform D.decimal_js D.sha256_hex D.intent_fingerprint s call ≡ ok s'
      → Calls s
      → Calls s'
  by_call call s s' e p = Terminal.next call p e

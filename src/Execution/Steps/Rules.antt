-- ===== src/Execution/Steps/Rules.antt =====
-- src/execution/coordinator.ts: rules for what holds before and after the steps of an operation, on the
-- branch that goes on and on the one that throws.
use multi_venue_grid_engine.Base.{
  ◌≡◌, refl, ap, Bool, Option, none, some, Outcome, ok, err, true, false, if◌then◌else◌,
}
use multi_venue_grid_engine.Execution.Intents.{RegistryError}
use multi_venue_grid_engine.Execution.RegistryState.{RegistryState}
use multi_venue_grid_engine.Execution.CoordinatorState.{Coordinator}
use multi_venue_grid_engine.Execution.Steps.{
  Step, Machine, ◌>>=◌, change_to, change, return, gets, of_outcome,
}

module _ {W : Type 0} where
  -- `Q` after a value, `E` after an error.
  abbrev pub Ends {ℓ} :
      {A : Type ℓ}
      → (A → Machine W → Type 0)
      → (Machine W → Type 0)
      → Outcome RegistryError A × Machine W
      → Type 0
  Ends Q E (ok a, m) = Q a m
  Ends Q E (err e, m) = E m

  -- Before `step` the first predicate holds; after it, the others do.
  pub record Triple {ℓ} {A : Type ℓ} (P : Machine W → Type 0) (step : Step W A)
      (Q : A → Machine W → Type 0) (E : Machine W → Type 0) : Type 0 where
    pub run : (m : Machine W) → P m → Ends Q E (step m)

  -- The same predicate before and after, on both branches.
  abbrev pub Keeps {ℓ} : {A : Type ℓ} → (Machine W → Type 0) → Step W A → Type 0
  Keeps I step = Triple I step (λ _. I) I

  chain_at {ℓ κ} :
      {A : Type ℓ} {B : Type κ} (Q : A → Machine W → Type 0) (R : B → Machine W → Type 0)
      (E : Machine W → Type 0) (next : A → Step W B) (r : Outcome RegistryError A × Machine W)
      → ((a : A) → Triple (Q a) (next a) R E)
      → Ends Q E r
      → Ends R E (elim r.0 [ ok a ↦ next a r.1 | err e ↦ (err e, r.1) ])
  chain_at Q R E next (ok a, m) after q = (after a).run m q
  chain_at Q R E next (err e, m) after q = q

  pub chain {ℓ κ} :
      {A : Type ℓ} {B : Type κ} {P : Machine W → Type 0} {Q : A → Machine W → Type 0}
      {R : B → Machine W → Type 0} {E : Machine W → Type 0} {step : Step W A} {next : A → Step W B}
      → Triple P step Q E
      → ((a : A) → Triple (Q a) (next a) R E)
      → Triple P (step >>= next) R E
  unfolding ◌>>=◌
  chain {Q = Q} {R = R} {E = E} {step = step} {next = next} first after = record {
    run = λ m p. chain_at Q R E next (step m) after (first.run m p);
  }

  change_at :
      (Q E : Machine W → Type 0) (m : Machine W) (r : Outcome RegistryError RegistryState)
      → ((s : RegistryState)
          → r ≡ ok s
          → Q (record m { coordinator = record m.coordinator { registry = s } }))
      → E m
      → Ends (λ _. Q) E (change_to m r)
  change_at Q E m (ok s) q e = q s refl
  change_at Q E m (err x) q e = e

  pub changes :
      {P Q E : Machine W → Type 0} (f : RegistryState → Outcome RegistryError RegistryState)
      → ((m : Machine W)
          → P m
          → (s : RegistryState) → f m.coordinator.registry ≡ ok s
          → Q (record m { coordinator = record m.coordinator { registry = s } }))
      → ((m : Machine W) → P m → E m)
      → Triple P (change f) (λ _. Q) E
  unfolding change
  changes {Q = Q} {E = E} f q e = record {
    run = λ m p. change_at Q E m (f m.coordinator.registry) (q m p) (e m p);
  }

  pub returns {ℓ} :
      {A : Type ℓ} {P E : Machine W → Type 0} {Q : A → Machine W → Type 0} (a : A)
      → ((m : Machine W) → P m → Q a m)
      → Triple P (return a) Q E
  unfolding return
  returns a h = record { run = h }

  pub reads {ℓ} :
      {A : Type ℓ} {P E : Machine W → Type 0} {Q : A → Machine W → Type 0} (f : Coordinator → A)
      → ((m : Machine W) → P m → Q (f m.coordinator) m)
      → Triple P (gets f) Q E
  unfolding gets
  reads f h = record { run = h }

  of_at {ℓ} :
      {A : Type ℓ} (Q : A → Machine W → Type 0) (E : Machine W → Type 0) (m : Machine W)
      (r : Outcome RegistryError A)
      → ((a : A) → r ≡ ok a → Q a m)
      → E m
      → Ends Q E (r, m)
  of_at Q E m (ok a) q e = q a refl
  of_at Q E m (err x) q e = e

  pub computes {ℓ} :
      {A : Type ℓ} {P E : Machine W → Type 0} {Q : A → Machine W → Type 0}
      (r : Outcome RegistryError A)
      → ((m : Machine W) → P m → (a : A) → r ≡ ok a → Q a m)
      → ((m : Machine W) → P m → E m)
      → Triple P (of_outcome r) Q E
  unfolding of_outcome
  computes {E = E} {Q = Q} r q e = record { run = λ m p. of_at Q E m r (q m p) (e m p) }

  machine_at {ℓ} :
      {A : Type ℓ} (I : Machine W → Type 0) (r : Outcome RegistryError A × Machine W)
      → Ends (λ _. I) I r
      → I r.1
  machine_at I (ok a, m) q = q
  machine_at I (err e, m) q = q

  pub keeps_machine {ℓ} :
      {A : Type ℓ} {I : Machine W → Type 0} (step : Step W A)
      → Keeps I step
      → (m : Machine W) → I m
      → I (step m).1
  keeps_machine {I = I} step keeps m i = machine_at I (step m) (keeps.run m i)

  pub by_if {ℓ} :
      {A : Type ℓ} {P : Machine W → Type 0} {Q : A → Machine W → Type 0} {E : Machine W → Type 0}
      {x y : Step W A} (b : Bool)
      → Triple P x Q E
      → Triple P y Q E
      → Triple P (if b then x else y) Q E
  by_if true p q = p
  by_if false p q = q

  pub by_option {ℓ κ} :
      {A : Type ℓ} {B : Type κ} {P : Machine W → Type 0} {Q : A → Machine W → Type 0}
      {E : Machine W → Type 0} {x : Step W A} {f : B → Step W A} (o : Option B)
      → Triple P x Q E
      → ((b : B) → Triple P (f b) Q E)
      → Triple P (elim o [ none ↦ x | some b ↦ f b ]) Q E
  by_option none p q = p
  by_option (some b) p q = q b

  pub change-ok :
      (f : RegistryState → Outcome RegistryError RegistryState) (m : Machine W) {s : RegistryState}
      → f m.coordinator.registry ≡ ok s
      → change f m ≡ (ok tt, record m { coordinator = record m.coordinator { registry = s } })
  unfolding change
  change-ok f m e = ap (change_to m) e

  pub chain-ok {ℓ κ} :
      {A : Type ℓ} {B : Type κ} (step : Step W A) (next : A → Step W B) (m : Machine W) {a : A}
      {m' : Machine W}
      → step m ≡ (ok a, m')
      → (step >>= next) m ≡ next a m'
  unfolding ◌>>=◌
  chain-ok step next m e = ap (λ r. elim r.0 [ ok a ↦ next a r.1 | err x ↦ (err x, r.1) ]) e

  outcome_then {ℓ} :
      {A : Type ℓ} (Q Q' : A → Machine W → Type 0) (E E' : Machine W → Type 0)
      (r : Outcome RegistryError A × Machine W)
      → ((a : A) (m : Machine W) → Q a m → Q' a m)
      → ((m : Machine W) → E m → E' m)
      → Ends Q E r
      → Ends Q' E' r
  outcome_then Q Q' E E' (ok a, m) q e p = q a m p
  outcome_then Q Q' E E' (err x, m) q e p = e m p

  -- A triple with less after it.
  pub weaken {ℓ} :
      {A : Type ℓ} {P E E' : Machine W → Type 0} {Q Q' : A → Machine W → Type 0} {step : Step W A}
      → ((a : A) (m : Machine W) → Q a m → Q' a m)
      → ((m : Machine W) → E m → E' m)
      → Triple P step Q E
      → Triple P step Q' E'
  weaken {E = E} {E' = E'} {Q = Q} {Q' = Q'} {step = step} q e t = record {
    run = λ m p. outcome_then Q Q' E E' (step m) q e (t.run m p);
  }

-- ===== src/Execution/Steps.antt =====
-- A running operation of src/execution/coordinator.ts: the coordinator, the world outside, and the effects
-- on it so far, newest first. A step that throws keeps what was changed before.
pub mod Rules
use multi_venue_grid_engine.Base.{
  Text, Bool, true, false, Option, none, some, List, [], ◌∷◌, Outcome, ok, err,
}
use multi_venue_grid_engine.Math.DecimalJs.{DecimalJs}
use multi_venue_grid_engine.Risk.Types.{RiskInput}
use multi_venue_grid_engine.Risk.Engine.{ParsedRiskInput}
use multi_venue_grid_engine.Execution.Intents.{RegistryError, OrderIntent}
use multi_venue_grid_engine.Execution.RegistryState.{RegistryState}
use multi_venue_grid_engine.Execution.Ports.{
  Ports, Interruption, Awaited, ExecutionCursor, CancelRequest,
}
use multi_venue_grid_engine.Execution.CoordinatorState.{
  Coordinator, CoordinatorConfig, interrupt_all,
}

-- The calls whose order matters, each as it was issued; a write also with whether it became durable, a
-- send with the coordinator at that moment.
pub data Effect : Type 0 where
  persisted : RegistryState → Bool → Effect
  checkpointed : ExecutionCursor → Bool → Effect
  placed : OrderIntent → Coordinator → Effect
  cancel_sent : CancelRequest → Coordinator → Effect

pub record Machine (W : Type 0) : Type 0 where
  pub coordinator : Coordinator
  pub world : W
  pub trace : List Effect

-- `ExecutionCoordinatorDeps`, with decimal.js, the hash function and the fingerprint of an intent.
pub record Deps (W : Type 0) : Type 1 where
  pub config : CoordinatorConfig
  pub ports : Ports W
  pub decimal_js : DecimalJs
  pub sha256_hex : Text → Text
  pub intent_fingerprint : OrderIntent → Text
  -- `parseAndSnapshotRiskInput` of src/risk/risk-input-parser.ts on an input of its type
  pub admit_risk_input : RiskInput → ParsedRiskInput

abbrev pub Step {ℓ} : Type 0 → Type ℓ → Type ℓ
Step W A = Machine W → Outcome RegistryError A × Machine W

-- A failed write latches the journal.
abbrev pub latch_unless : Bool → Coordinator → Coordinator
latch_unless true c = c
latch_unless false c = record c { journal_failed = true }

module _ {W : Type 0} where
  unfoldable pub return {ℓ} : {A : Type ℓ} → A → Step W A
  return a m = (ok a, m)

  unfoldable pub of_outcome {ℓ} : {A : Type ℓ} → Outcome RegistryError A → Step W A
  of_outcome r m = (r, m)

  infixl 5 ◌>>=◌ ◌>>◌
  unfoldable pub ◌>>=◌ {ℓ κ} : {A : Type ℓ} {B : Type κ} → Step W A → (A → Step W B) → Step W B
  ◌>>=◌ step next m = elim (step m).0 [ ok a ↦ next a (step m).1 | err e ↦ (err e, (step m).1) ]

  abbrev pub ◌>>◌ {ℓ} : {B : Type ℓ} → Step W (Unit {0}) → Step W B → Step W B
  step >> next = step >>= λ _. next

  -- What the coordinator holds now.
  unfoldable pub gets {ℓ} : {A : Type ℓ} → (Coordinator → A) → Step W A
  gets f m = (ok (f m.coordinator), m)

  unfoldable pub modify : (Coordinator → Coordinator) → Step W (Unit {0})
  modify f m = (ok tt, record m { coordinator = f m.coordinator })

  -- A call that is issued now.
  unfoldable pub emit : (Coordinator → Effect) → Step W (Unit {0})
  emit e m = (ok tt, record m { trace = e m.coordinator ∷ m.trace })

  -- An awaited call, with what arrived while it was pending.
  unfoldable pub await : {A : Type 0} → (W → Awaited W A) → Step W A
  await call m = (
    ok (call m.world).2,
    record m {
      coordinator = interrupt_all m.coordinator (call m.world).1;
      world = (call m.world).0;
    },
  )

  abbrev pub change_to :
      Machine W → Outcome RegistryError RegistryState → Outcome RegistryError (Unit {0}) × Machine W
  change_to m (ok s) = (ok tt, record m { coordinator = record m.coordinator { registry = s } })
  change_to m (err e) = (err e, m)

  -- An operation of the registry, which throws or changes it.
  unfoldable pub change : (RegistryState → Outcome RegistryError RegistryState) → Step W (Unit {0})
  change f m = change_to m (f m.coordinator.registry)

  -- `persist()`
  unfoldable pub persist : Ports W → Step W Bool
  unfolding await
  persist ports m =
      let call = ports.persist_journal m.coordinator.registry m.world in
      (
        ok call.2,
        record m {
          coordinator = latch_unless call.2 (interrupt_all m.coordinator call.1);
          world = call.0;
          trace = persisted m.coordinator.registry call.2 ∷ m.trace;
        },
      )

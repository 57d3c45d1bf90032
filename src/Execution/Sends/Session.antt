-- ===== src/Execution/Sends/Session.antt =====
-- src/execution/coordinator.ts: what holds over the whole life of a coordinator.
use multi_venue_grid_engine.Base.{ℕ, ◌≡◌, sym, subst, List, [], text_eq}
use multi_venue_grid_engine.Execution.Registry.Terminal
use multi_venue_grid_engine.Execution.Registry.Terminal.{
  is_terminal, terminal-constant, AllBounded, path-AllBounded,
}
use multi_venue_grid_engine.Execution.Steps.{Machine, Deps}
use multi_venue_grid_engine.Execution.Session.{Operation, run_operations}
use multi_venue_grid_engine.Execution.Sends.{AllSound, IsGood}
use multi_venue_grid_engine.Execution.Sends.Operations.{run-Good}

module _ {W : Type 0} (D : Deps W) (rounds : ℕ) (ops : List Operation) (m : Machine W)
    (empty : m.trace ≡ []) where
  reached : IsGood D m.coordinator.registry (run_operations D rounds ops m)
  reached =
      run-Good D m.coordinator.registry rounds ops m
        (record { path = Terminal.start; sends = subst AllSound (sym empty) tt })

  -- Whatever operations run one after the other, from an empty trace: every place was sent directly after
  -- a durable write of a registry that holds its intent as prepared, and, where it increases risk, while
  -- the continuation was granted and no execution blocker stood; and every cancel was sent directly
  -- after a durable write of a registry that holds it as pending for the order that it names.
  pub run_operations-AllSound : AllSound (run_operations D rounds ops m).trace
  run_operations-AllSound = reached.sends

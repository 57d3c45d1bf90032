-- ===== src/Examples/Batches.antt =====
-- An exit that is submitted alone and in a batch (submitExclusive, submitBatchExclusive of
-- execution/coordinator.ts), within a budget of four writes.
use multi_venue_grid_engine.Base.{arith, List, [], ◌∷◌}
use multi_venue_grid_engine.Execution.Intents.{OrderIntent}
use multi_venue_grid_engine.Execution.Submission.{submit_exclusive, submit_batch_exclusive}
use multi_venue_grid_engine.Execution.Submission.Budget.Spent.{
  IsPaid, submit_exclusive_bounded, submit_batch_exclusive_bounded,
}
use multi_venue_grid_engine.Examples.Sequences.{empty_state}
use multi_venue_grid_engine.Examples.Session.{calm, exit_order, machine_on}

abbrev one_exit : List OrderIntent
one_exit = exit_order ∷ []

submit_batch_exclusive_bounded_example :
    IsPaid calm
      (machine_on empty_state)
      (submit_batch_exclusive calm one_exit (machine_on empty_state)).1
submit_batch_exclusive_bounded_example =
    submit_batch_exclusive_bounded calm one_exit (machine_on empty_state) (omega arith)

submit_exclusive_bounded_example :
    IsPaid calm
      (machine_on empty_state)
      (submit_exclusive calm exit_order (machine_on empty_state)).1
submit_exclusive_bounded_example =
    submit_exclusive_bounded calm exit_order (machine_on empty_state) (omega arith)

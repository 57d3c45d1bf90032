-- ===== src/Execution/CoordinatorState/Writes.antt =====
-- src/execution/coordinator.ts: what arrives on the stream leaves the count of writes alone.
use multi_venue_grid_engine.Base.{
  ◌≡◌, refl, ◌∙◌, arith, inl, inr, false, Bool-cases, Option, some, none, List, [], ◌∷◌, Text,
  text_eq,
}
use multi_venue_grid_engine.Execution.Observations.{ExecutionFacts}
use multi_venue_grid_engine.Execution.Ports.{Interruption, stream_execution, stream_reconnected}
use multi_venue_grid_engine.Execution.CoordinatorState.{
  Coordinator, observe_stream_sequence, add_problem, note_stream_event, defer_stream_execution,
  stream_reconnect, interrupt, interrupt_all,
}

-- An observation of the stream leaves the count of writes alone.
problem-writes :
    (c : Coordinator) (p : Option Text) → (add_problem c p).writes_this_cycle ≡ c.writes_this_cycle
problem-writes c none = refl
problem-writes c (some code) = refl

observe-writes :
    (c : Coordinator) (t : Option Text)
    → (observe_stream_sequence c t).0.writes_this_cycle ≡ c.writes_this_cycle
unfolding observe_stream_sequence
observe-writes c none = refl
observe-writes c (some t) = ground arith

defer-writes :
    (c : Coordinator) (x : ExecutionFacts)
    → (defer_stream_execution c x).writes_this_cycle ≡ c.writes_this_cycle
unfolding defer_stream_execution
defer-writes c x = elim (Bool-cases c.journal_failed) [
  | inl latched ↦ rw latched refl
  | inr usable ↦ rw usable refl
]

interrupt-writes :
    (c : Coordinator) (i : Interruption) → (interrupt c i).writes_this_cycle ≡ c.writes_this_cycle
unfolding interrupt note_stream_event stream_reconnect
interrupt-writes c (stream_execution x t) =
    let before = record c { continuation_granted = false } in
    let seen = observe_stream_sequence before t in
    defer-writes (add_problem seen.0 seen.1) x
    ∙ problem-writes seen.0 seen.1
    ∙ observe-writes before t
interrupt-writes c stream_reconnected = refl

pub interrupt_all-writes :
    (c : Coordinator) (is : List Interruption)
    → (interrupt_all c is).writes_this_cycle ≡ c.writes_this_cycle
unfolding interrupt_all
interrupt_all-writes c [] = refl
interrupt_all-writes c (i ∷ is) = interrupt_all-writes (interrupt c i) is ∙ interrupt-writes c i

-- ===== src/Strategy/LevelState.antt =====
-- src/strategy/levelState.ts: which moves of a level's state need evidence from the venue.
pub mod Local
use multi_venue_grid_engine.Base.{
  ℕ, ◌≡◌, refl, Bool, true, false, ◌&&◌, ◌||◌, not, Option, none, some, List, [], ◌∷◌, includes, Eq,
  ◌==◌, eq_of_discrete, discrete_beq, Outcome, ok, err, if◌then◌else◌, arith,
}

pub data GridLevelState : Type 0 where
  idle entry_submitting entry_working entry_partial : GridLevelState
  position_open exit_submitting exit_working exit_partial : GridLevelState
  cancel_pending reconciling error_requires_reconciliation halted : GridLevelState

pub data TransitionEvidence : Type 0 where
  ack observation rejected unknown local : TransitionEvidence

unfoldable pub GridLevelState-discrete : Discrete GridLevelState
GridLevelState-discrete = hlevel

unfoldable pub TransitionEvidence-discrete : Discrete TransitionEvidence
TransitionEvidence-discrete = hlevel

instance abbrev pub state_eq : Eq GridLevelState
state_eq = eq_of_discrete GridLevelState-discrete

instance abbrev pub evidence_eq : Eq TransitionEvidence
evidence_eq = eq_of_discrete TransitionEvidence-discrete

pub record ForbiddenStateTransition : Type 0 where
  pub from : GridLevelState
  pub to : GridLevelState
  pub evidence : TransitionEvidence

abbrev pub mutation_evidence : List TransitionEvidence
mutation_evidence = ack ∷ observation ∷ rejected ∷ unknown ∷ []

unfoldable pub is_mutation_dependent_transition : GridLevelState → GridLevelState → Bool
unfolding discrete_beq GridLevelState-discrete
is_mutation_dependent_transition from to =
    if from == to
    then false
    else if from == idle && to == entry_submitting
    then false
    else if from == entry_submitting && to == idle
    then false
    else if from == position_open && to == exit_submitting
    then false
    else if from == exit_submitting && to == position_open
    then false
    else if from == entry_working && to == cancel_pending
    then false
    else if from == entry_partial && to == cancel_pending
    then false
    else if from == exit_working && to == cancel_pending
    then false
    else if from == exit_partial && to == cancel_pending
    then false
    else true

unfoldable pub assert_transition :
    GridLevelState
    → GridLevelState
    → TransitionEvidence
    → Outcome ForbiddenStateTransition (Unit {0})
unfolding discrete_beq GridLevelState-discrete TransitionEvidence-discrete
assert_transition from to evidence =
    if from == to
    then ok tt
    else if is_mutation_dependent_transition from to && not (includes mutation_evidence evidence)
    then err (record { from = from; to = to; evidence = evidence })
    else ok tt

unfoldable pub is_working_state : GridLevelState → Bool
unfolding discrete_beq GridLevelState-discrete
is_working_state s =
    s == entry_working || s == entry_partial || s == exit_working || s == exit_partial

unfoldable pub is_risk_increasing_state : GridLevelState → Bool
unfolding discrete_beq GridLevelState-discrete
is_risk_increasing_state s =
    s == entry_submitting || s == entry_working || s == entry_partial || s == reconciling

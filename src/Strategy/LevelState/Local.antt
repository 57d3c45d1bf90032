-- ===== src/Strategy/LevelState/Local.antt =====
-- The moves of strategy/levelState.ts that need no evidence, as a relation.
use multi_venue_grid_engine.Base.{
  ◌≡◌, refl, sym, ◌≢◌, ◌↔◌, ◌⊎◌, inl, inr, false, ok, arith, includes, discrete_beq, subst, ap, ◌∙◌,
  Bool-cases, ◌==◌,
}
use multi_venue_grid_engine.Strategy.LevelState.{
  GridLevelState, idle, entry_submitting, entry_working, entry_partial, position_open,
  exit_submitting, exit_working, exit_partial, cancel_pending, reconciling,
  error_requires_reconciliation, halted, TransitionEvidence, local, TransitionEvidence-discrete,
  mutation_evidence, state_eq, evidence_eq, is_mutation_dependent_transition, assert_transition,
}

-- The moves that the engine may make on its own.
pub data LocalMove : GridLevelState → GridLevelState → Type 0 where
  submit_entry : LocalMove idle entry_submitting
  entry_not_sent : LocalMove entry_submitting idle
  submit_exit : LocalMove position_open exit_submitting
  exit_not_sent : LocalMove exit_submitting position_open
  cancel_entry : LocalMove entry_working cancel_pending
  cancel_partial_entry : LocalMove entry_partial cancel_pending
  cancel_exit : LocalMove exit_working cancel_pending
  cancel_partial_exit : LocalMove exit_partial cancel_pending

local_cases :
    (from to : GridLevelState)
    → is_mutation_dependent_transition from to ≡ false
    → (from ≡ to) ⊎ LocalMove from to
unfolding is_mutation_dependent_transition
local_cases idle idle h = inl refl
local_cases entry_submitting entry_submitting h = inl refl
local_cases entry_working entry_working h = inl refl
local_cases entry_partial entry_partial h = inl refl
local_cases position_open position_open h = inl refl
local_cases exit_submitting exit_submitting h = inl refl
local_cases exit_working exit_working h = inl refl
local_cases exit_partial exit_partial h = inl refl
local_cases cancel_pending cancel_pending h = inl refl
local_cases reconciling reconciling h = inl refl
local_cases error_requires_reconciliation error_requires_reconciliation h = inl refl
local_cases halted halted h = inl refl
local_cases idle entry_submitting h = inr submit_entry
local_cases entry_submitting idle h = inr entry_not_sent
local_cases position_open exit_submitting h = inr submit_exit
local_cases exit_submitting position_open h = inr exit_not_sent
local_cases entry_working cancel_pending h = inr cancel_entry
local_cases entry_partial cancel_pending h = inr cancel_partial_entry
local_cases exit_working cancel_pending h = inr cancel_exit
local_cases exit_partial cancel_pending h = inr cancel_partial_exit
local_cases _ _ h = cc

move_is_local :
    {from to : GridLevelState}
    → LocalMove from to
    → is_mutation_dependent_transition from to ≡ false
unfolding is_mutation_dependent_transition
move_is_local submit_entry = refl
move_is_local entry_not_sent = refl
move_is_local submit_exit = refl
move_is_local exit_not_sent = refl
move_is_local cancel_entry = refl
move_is_local cancel_partial_entry = refl
move_is_local cancel_exit = refl
move_is_local cancel_partial_exit = refl

evidence_cases : (e : TransitionEvidence) → (includes mutation_evidence e ≡ false) → e ≡ local
unfolding discrete_beq TransitionEvidence-discrete
evidence_cases local h = refl
evidence_cases _ h = cc

local_is_no_evidence : includes mutation_evidence local ≡ false
unfolding discrete_beq TransitionEvidence-discrete
local_is_no_evidence = refl

-- A transition is allowed exactly when it keeps the state, when it has evidence from the venue, or
-- when it is one of the eight moves that the engine may make on its own.
pub assert_transition-ok_iff :
    (from to : GridLevelState) (evidence : TransitionEvidence)
    → (assert_transition from to evidence ≡ ok tt)
      ↔ ((from ≡ to) ⊎ (evidence ≢ local) ⊎ LocalMove from to)
unfolding assert_transition
assert_transition-ok_iff from to evidence = (
  λ h. elim (Bool-cases (is_mutation_dependent_transition from to)) [
    | inr free ↦ elim (local_cases from to free) [ inl e ↦ inl e | inr m ↦ inr (inr m) ]
    | inl bound ↦ elim (Bool-cases (from == to)) [
      | inl same ↦ inl ((state_eq.beq_iff from to).0 same)
      | inr differ ↦
          inr (inl (λ e. ground (arith, local_is_no_evidence, ap (includes mutation_evidence) e)))
    ]
  ],
  λ h. elim h [
    | inl e ↦ let k = (state_eq.beq_iff from to).1 e in ground arith
    | inr (inl n) ↦ elim (Bool-cases (includes mutation_evidence evidence)) [
      | inl k ↦ ground arith
      | inr k ↦ absurd (n (evidence_cases evidence k))
    ]
    | inr (inr m) ↦ let k = move_is_local m in ground arith
  ],
)

-- A sequence of transitions without any evidence from the venue.
pub data LocalPath (s : GridLevelState) : GridLevelState → Type 0 where
  start : LocalPath s s
  step :
      {t u : GridLevelState} → LocalPath s t → assert_transition t u local ≡ ok tt → LocalPath s u

-- What a level holds: nothing, a position, an order in the state that the venue last reported, or a
-- state that only the venue can settle.
pub data Holding : Type 0 where
  nothing position : Holding
  order in_doubt : GridLevelState → Holding

unfoldable pub holding : GridLevelState → Holding
holding idle = nothing
holding entry_submitting = nothing
holding position_open = position
holding exit_submitting = position
holding entry_working = order entry_working
holding entry_partial = order entry_partial
holding exit_working = order exit_working
holding exit_partial = order exit_partial
holding cancel_pending = in_doubt cancel_pending
holding reconciling = in_doubt reconciling
holding error_requires_reconciliation = in_doubt error_requires_reconciliation
holding halted = in_doubt halted

-- A level that holds the same at the end, or an order whose cancel it now waits for.
abbrev pub Kept : GridLevelState → GridLevelState → Type 0
Kept s t =
    (holding s ≡ holding t) ⊎ ((u : GridLevelState) × (holding s ≡ order u) × (t ≡ cancel_pending))

move-Kept : {s t : GridLevelState} → LocalMove s t → Kept s t
unfolding holding
move-Kept submit_entry = inl refl
move-Kept entry_not_sent = inl refl
move-Kept submit_exit = inl refl
move-Kept exit_not_sent = inl refl
move-Kept cancel_entry = inr (_, refl, refl)
move-Kept cancel_partial_entry = inr (_, refl, refl)
move-Kept cancel_exit = inr (_, refl, refl)
move-Kept cancel_partial_exit = inr (_, refl, refl)

cancel_pending_waits : {s t : GridLevelState} → LocalMove s t → s ≢ cancel_pending
cancel_pending_waits submit_entry = λ e. cc
cancel_pending_waits entry_not_sent = λ e. cc
cancel_pending_waits submit_exit = λ e. cc
cancel_pending_waits exit_not_sent = λ e. cc
cancel_pending_waits cancel_entry = λ e. cc
cancel_pending_waits cancel_partial_entry = λ e. cc
cancel_pending_waits cancel_exit = λ e. cc
cancel_pending_waits cancel_partial_exit = λ e. cc

local_step : (t u : GridLevelState) → assert_transition t u local ≡ ok tt → (t ≡ u) ⊎ LocalMove t u
local_step t u h = elim ((assert_transition-ok_iff t u local).0 h) [
  | inl e ↦ inl e
  | inr (inl n) ↦ absurd (n refl)
  | inr (inr m) ↦ inr m
]

path-Kept : {s t : GridLevelState} → LocalPath s t → Kept s t
path-Kept start = inl refl
path-Kept {s} (step {t = t} {u = u} p allowed) = elim (local_step t u allowed) [
  | inl same ↦ subst (Kept s) same (path-Kept p)
  | inr move ↦ elim (path-Kept p) [
    | inr (_, _, c) ↦ absurd (cancel_pending_waits move c)
    | inl kept ↦ elim (move-Kept move) [
      | inl e ↦ inl (kept ∙ e)
      | inr (v, e, c) ↦ inr (v, kept ∙ e, c)
    ]
  ]
]

by_move : {s t : GridLevelState} → LocalMove s t → LocalPath s t
by_move {s} {t} m = step start ((assert_transition-ok_iff s t local).1 (inr (inr m)))

same-LocalPath : (s t : GridLevelState) → holding s ≡ holding t → LocalPath s t
unfolding holding
same-LocalPath idle idle h = start
same-LocalPath idle entry_submitting h = by_move submit_entry
same-LocalPath entry_submitting idle h = by_move entry_not_sent
same-LocalPath entry_submitting entry_submitting h = start
same-LocalPath position_open position_open h = start
same-LocalPath position_open exit_submitting h = by_move submit_exit
same-LocalPath exit_submitting position_open h = by_move exit_not_sent
same-LocalPath exit_submitting exit_submitting h = start
same-LocalPath entry_working entry_working h = start
same-LocalPath entry_partial entry_partial h = start
same-LocalPath exit_working exit_working h = start
same-LocalPath exit_partial exit_partial h = start
same-LocalPath cancel_pending cancel_pending h = start
same-LocalPath reconciling reconciling h = start
same-LocalPath error_requires_reconciliation error_requires_reconciliation h = start
same-LocalPath halted halted h = start
same-LocalPath _ _ h = cc

order-LocalPath : (s u : GridLevelState) → holding s ≡ order u → LocalPath s cancel_pending
unfolding holding
order-LocalPath entry_working u h = by_move cancel_entry
order-LocalPath entry_partial u h = by_move cancel_partial_entry
order-LocalPath exit_working u h = by_move cancel_exit
order-LocalPath exit_partial u h = by_move cancel_partial_exit
order-LocalPath _ u h = cc

-- Without evidence from the venue a level reaches exactly the states in which it holds the same: nothing,
-- a position, the order in the state last reported, or the same state in doubt; and, from an order,
-- the wait for its cancel.
pub LocalPath-holding_iff : (s t : GridLevelState) → LocalPath s t ↔ Kept s t
LocalPath-holding_iff s t = (
  path-Kept,
  λ k. elim k [
    | inl same ↦ same-LocalPath s t same
    | inr (u, e, waits) ↦ subst (LocalPath s) (sym waits) (order-LocalPath s u e)
  ],
)

-- ===== src/Execution/CoordinatorState/Gaps.antt =====
-- src/execution/coordinator.ts: what a run of stream sequences without a problem shows (observeStreamSequence).
use multi_venue_grid_engine.Base.{
  ℕ, ◌+◌, ◌≤◌, ◌<◌, ◌⊎◌, ◌≡◌, refl, arith, inl, inr, true, Bool-cases, Option, none, some, List, [],
  ◌∷◌, Text, includes, nat_eq, ltb, ◌==◌,
}
use multi_venue_grid_engine.Risk.Freshness.{big_int}
use multi_venue_grid_engine.Execution.CoordinatorState.{
  Coordinator, is_stream_sequence, observe_stream_sequence,
}

-- The coordinator after a run of sequences.
unfoldable pub observe_all : Coordinator → List (Option Text) → Coordinator
observe_all c [] = c
observe_all c (t ∷ ts) = observe_all (observe_stream_sequence c t).0 ts

-- No sequence of the run is a problem.
abbrev pub AllClear : Coordinator → List (Option Text) → Type 0
AllClear c [] = Unit {0}
AllClear c (t ∷ ts) =
    ((observe_stream_sequence c t).1 ≡ none) × AllClear (observe_stream_sequence c t).0 ts

-- The numbers of a run.
abbrev pub numbers : List (Option Text) → List ℕ
numbers [] = []
numbers (none ∷ ts) = numbers ts
numbers (some t ∷ ts) = big_int t ∷ numbers ts

-- What one sequence without a problem does to the last one known.
record Advance (c : Coordinator) (l : ℕ) (t : Text) : Type 0 where
  next : ℕ
  next_is : (observe_stream_sequence c (some t)).0.last_stream_sequence ≡ some next
  steps : (next ≡ l) ⊎ ((next ≡ l + 1) × (next ≡ big_int t))

advance :
    (c : Coordinator) (l : ℕ) (t : Text)
    → c.last_stream_sequence ≡ some l
    → (observe_stream_sequence c (some t)).1 ≡ none
    → Advance c l t
unfolding observe_stream_sequence
advance c l t known clear = elim (Bool-cases (is_stream_sequence t)) [
  | inr bad ↦ absurd (ground arith)
  | inl good ↦ elim (Bool-cases (ltb l (big_int t))) [
    | inl after ↦ record {
      next = big_int t;
      next_is = ground arith;
      steps = inr (ground arith, refl);
    }
    | inr old ↦ record { next = l; next_is = ground arith; steps = inl refl }
  ]
]

unusable : (c : Coordinator) → (observe_stream_sequence c none).1 ≡ none → ⊥
unfolding observe_stream_sequence
unusable c h = cc

-- If a run of stream sequences reports no problem, then every number after the last one known before it
-- and up to the last one known after it is the number of some event of the run.
pub observe_all_complete :
    (c : Coordinator) (ts : List (Option Text)) (l l' k : ℕ)
    → c.last_stream_sequence ≡ some l
    → AllClear c ts
    → (observe_all c ts).last_stream_sequence ≡ some l'
    → l < k
    → k ≤ l'
    → includes (numbers ts) k ≡ true
unfolding observe_all
observe_all_complete c [] l l' k known clear end above below = absurd (ground arith)
observe_all_complete c (none ∷ ts) l l' k known clear end above below = absurd (unusable c clear.0)
observe_all_complete c (some t ∷ ts) l l' k known clear end above below =
    let a = advance c l t known clear.0 in
    let rest = λ (h : a.next < k).
      observe_all_complete (observe_stream_sequence c (some t)).0 ts a.next l' k a.next_is clear.1
        end h below in
    elim (Bool-cases (big_int t == k)) [
      | inl same ↦ ground arith
      | inr other ↦
          ground (arith, rest (elim a.steps [ inl e ↦ ground arith | inr e ↦ ground arith ]))
    ]

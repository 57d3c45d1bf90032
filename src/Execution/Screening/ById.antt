-- ===== src/Execution/Screening/ById.antt =====
-- The executions of src/execution/coordinator.ts in the order of their IDs, and a map of them by ID.
use multi_venue_grid_engine.Base.{
  ◌≡◌, refl, sym, ◌∙◌, arith, inl, inr, false, ◌||◌, Bool-cases, List, [], ◌∷◌, map, All, includes,
  IsNodup, beq_sym, Text, text_eq, place, sort, set_entry, ◌==◌,
}
use multi_venue_grid_engine.Execution.Observations.{ExecutionFacts, known}
use multi_venue_grid_engine.Execution.Screening.{by_execution_id}

abbrev pub id_of : ExecutionFacts → Text
id_of x = known x.execution_id

abbrev pub first : Text × ExecutionFacts → Text
first p = p.0

includes-place_ids :
    (x : ExecutionFacts) (ys : List ExecutionFacts) (k : Text)
    → includes (map id_of (place by_execution_id x ys)) k
      ≡ (id_of x == k || includes (map id_of ys) k)
unfolding place
includes-place_ids x [] k = refl
includes-place_ids x (y ∷ ys) k = elim (Bool-cases (by_execution_id x y)) [
  | inl before ↦ rw before refl
  | inr after ↦ rw (after, includes-place_ids x ys k) (ground arith)
]

place-IsNodup :
    (x : ExecutionFacts) (ys : List ExecutionFacts)
    → includes (map id_of ys) (id_of x) ≡ false
    → IsNodup (map id_of ys)
    → IsNodup (map id_of (place by_execution_id x ys))
unfolding place
place-IsNodup x [] h d = (refl, tt)
place-IsNodup x (y ∷ ys) h d = elim (Bool-cases (by_execution_id x y)) [
  | inl before ↦ rw before (h, d)
  | inr after ↦
      let flipped = beq_sym (id_of x) (id_of y) in
      let rest = place-IsNodup x ys (ground arith) d.1 in
      let apart = includes-place_ids x ys (id_of y) in rw after (apart ∙ ground arith, rest)
]

pub includes-sort_ids :
    (xs : List ExecutionFacts) (k : Text)
    → includes (map id_of (sort by_execution_id xs)) k ≡ includes (map id_of xs) k
unfolding sort
includes-sort_ids [] k = refl
includes-sort_ids (x ∷ xs) k =
    includes-place_ids x (sort by_execution_id xs) k ∙ rw (includes-sort_ids xs k) refl

pub sort-IsNodup :
    (xs : List ExecutionFacts)
    → IsNodup (map id_of xs)
    → IsNodup (map id_of (sort by_execution_id xs))
unfolding sort
sort-IsNodup [] d = tt
sort-IsNodup (x ∷ xs) d =
    place-IsNodup x (sort by_execution_id xs) (includes-sort_ids xs (id_of x) ∙ d.0)
      (sort-IsNodup xs d.1)

All-place :
    (P : ExecutionFacts → Type 0) (x : ExecutionFacts) (ys : List ExecutionFacts)
    → P x
    → All P ys
    → All P (place by_execution_id x ys)
unfolding place
All-place P x [] p a = (p, tt)
All-place P x (y ∷ ys) p a = elim (Bool-cases (by_execution_id x y)) [
  | inl before ↦ rw before (p, a)
  | inr after ↦ rw after (a.0, All-place P x ys p a.1)
]

pub All-sort :
    (P : ExecutionFacts → Type 0) (xs : List ExecutionFacts)
    → All P xs
    → All P (sort by_execution_id xs)
unfolding sort
All-sort P [] a = tt
All-sort P (x ∷ xs) a = All-place P x (sort by_execution_id xs) a.0 (All-sort P xs a.1)

-- The map by ID that the loop fills.
abbrev pub Entries : Type 0
Entries = List (Text × ExecutionFacts)

abbrev pub add : Entries → ExecutionFacts → Entries
add kept x = set_entry kept (id_of x) x

pub includes-add :
    (kept : Entries) (x : ExecutionFacts) (k : Text)
    → includes (map first (add kept x)) k ≡ (id_of x == k || includes (map first kept) k)
unfolding set_entry
includes-add [] x k = refl
includes-add ((j, y) ∷ kept) x k = elim (Bool-cases (j == id_of x)) [
  | inl same ↦ rw (same, (text_eq.beq_iff j (id_of x)).0 same) (ground arith)
  | inr other ↦ rw (other, includes-add kept x k) (ground arith)
]

pub add-IsNodup :
    (kept : Entries) (x : ExecutionFacts)
    → IsNodup (map first kept)
    → IsNodup (map first (add kept x))
unfolding set_entry
add-IsNodup [] x d = (refl, tt)
add-IsNodup ((j, y) ∷ kept) x d = elim (Bool-cases (j == id_of x)) [
  | inl same ↦ rw (same, sym ((text_eq.beq_iff j (id_of x)).0 same)) d
  | inr other ↦
      let flipped = beq_sym j (id_of x) in
      rw other (includes-add kept x j ∙ ground arith, add-IsNodup kept x d.1)
]

pub All-add :
    (P : Text × ExecutionFacts → Type 0) (kept : Entries) (x : ExecutionFacts)
    → P (id_of x, x)
    → All P kept
    → All P (add kept x)
unfolding set_entry
All-add P [] x p a = (p, tt)
All-add P ((j, y) ∷ kept) x p a = elim (Bool-cases (j == id_of x)) [
  | inl same ↦ rw same (p, a.1)
  | inr other ↦ rw other (a.0, All-add P kept x p a.1)
]

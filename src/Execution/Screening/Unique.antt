-- ===== src/Execution/Screening/Unique.antt =====
-- The executions that screenExecutions of src/execution/coordinator.ts keeps, and those that it was given.
use mathlib.Core.List.{Mem, mem-cons_self, mem-cons_of_mem}
use multi_venue_grid_engine.Base.{
  ◌≡◌, refl, ap, sym, subst, ◌∙◌, arith, inl, inr, Bool, true, false, Bool-cases, Option-cases,
  List, [], ◌∷◌, map, All, includes, IsNodup, beq_refl, Text, text_eq, sort, get_entry, ok,
  >>=-eq-ok, ok_injective,
}
use multi_venue_grid_engine.Math.DecimalJs.{DecimalJs}
use multi_venue_grid_engine.Execution.Intents.{OrderIntent}
use multi_venue_grid_engine.Execution.Observations.{
  ExecutionFacts, known, is_execution_in_market, to_recorded, execution_matches_intent, same_facts,
}
use multi_venue_grid_engine.Execution.Screening.{
  screened, stopped, by_execution_id, second, screen_from, screen_executions,
}
use multi_venue_grid_engine.Execution.Screening.ById.{
  All-add, All-sort, Entries, add, add-IsNodup, first, id_of, includes-add, includes-sort_ids,
  sort-IsNodup,
}

module _ (J : DecimalJs) (i : OrderIntent) (venue market : Text) where
  abbrev Matches : ExecutionFacts → Type 0
  Matches x = execution_matches_intent J x i venue market ≡ ok true

  -- The turns of a loop that ends without a stop: from what it has kept, whether an execution was
  -- invalid, and what is still to come, to what it keeps in the end.
  data Screens (u : List ExecutionFacts) (b : Bool)
      : Entries → Bool → List ExecutionFacts → Type 0 where
    finished : (kept : Entries) → u ≡ sort by_execution_id (map second kept) → Screens u b kept b []
    skipped :
        {kept : Entries} {invalid : Bool} {x : ExecutionFacts} {xs : List ExecutionFacts}
        → Screens u b kept true xs
        → Screens u b kept invalid (x ∷ xs)
    kept_one :
        {kept : Entries} {invalid : Bool} {x : ExecutionFacts} {xs : List ExecutionFacts}
        → Matches x
        → Screens u b (add kept x) invalid xs
        → Screens u b kept invalid (x ∷ xs)

  screened-inv :
      {u v : List ExecutionFacts} {a b : Bool} → screened u a ≡ screened v b → (u ≡ v) × (a ≡ b)
  screened-inv h = (cc, cc)

  not_screened : {d : _} {u : List ExecutionFacts} {b : Bool} → stopped d ≡ screened u b → ⊥
  not_screened h = cc

  screen_from-Screens :
      (kept : Entries) (invalid : Bool) (xs : List ExecutionFacts) {u : List ExecutionFacts}
      {b : Bool}
      → screen_from J i venue market kept invalid xs ≡ ok (screened u b)
      → Screens u b kept invalid xs
  unfolding screen_from
  screen_from-Screens kept invalid [] {u} {b} h =
      let (same, flag) = screened-inv (ok_injective h) in
      subst (λ x. Screens u b kept x []) (sym flag) (finished kept (sym same))
  screen_from-Screens kept invalid (x ∷ xs) h =
      elim (Bool-cases (is_execution_in_market venue market x)) [
        | inr e ↦ skipped (screen_from-Screens kept true xs (rw (e, screen_from) at h))
        | inl e ↦
            let (matches, e1, h1) =
              >>=-eq-ok (execution_matches_intent J x i venue market) _
                (rw (e, screen_from) at h) in
            elim (Bool-cases matches) [
              | inr differs ↦ absurd (not_screened (ok_injective (rw differs at h1)))
              | inl agrees ↦
                  kept_one (e1 ∙ ap ok agrees)
                    (elim (Option-cases (get_entry kept (known x.execution_id))) [
                      | inl fresh ↦
                          screen_from-Screens (add kept x) invalid xs (rw (agrees, fresh) at h1)
                      | inr (seen, before) ↦
                          let (same, e2, h2) =
                            >>=-eq-ok (same_facts J (to_recorded seen) (to_recorded x)) _
                              (rw (agrees, before) at h1) in
                          elim (Bool-cases same) [
                            | inr changed ↦ absurd (not_screened (ok_injective (rw changed at h2)))
                            | inl again ↦
                                screen_from-Screens (add kept x) invalid xs (rw again at h2)
                          ]
                    ])
            ]
      ]

  stays_invalid :
      {u : List ExecutionFacts} {b : Bool} {kept : Entries} {invalid : Bool}
      {xs : List ExecutionFacts}
      → Screens u b kept invalid xs
      → invalid ≡ true
      → b ≡ true
  stays_invalid (finished kept e) h = h
  stays_invalid (skipped s) h = stays_invalid s refl
  stays_invalid (kept_one m s) h = stays_invalid s h

  abbrev Keyed : Text × ExecutionFacts → Type 0
  Keyed p = p.0 ≡ id_of p.1

  keys-ids : (kept : Entries) → All Keyed kept → map id_of (map second kept) ≡ map first kept
  keys-ids [] a = refl
  keys-ids ((k, x) ∷ kept) a = rw (keys-ids kept a.1, a.0) refl

  -- What was kept stays kept.
  Screens-keeps :
      {u : List ExecutionFacts} {b : Bool} {kept : Entries} {invalid : Bool}
      {xs : List ExecutionFacts} (k : Text)
      → Screens u b kept invalid xs
      → All Keyed kept
      → includes (map first kept) k ≡ true
      → includes (map id_of u) k ≡ true
  Screens-keeps k (finished kept e) a h =
      ap (λ x. includes (map id_of x) k) e
      ∙ includes-sort_ids (map second kept) k
      ∙ ap (λ x. includes x k) (keys-ids kept a)
      ∙ h
  Screens-keeps k (skipped s) a h = Screens-keeps k s a h
  Screens-keeps k (kept_one {kept = kept} {x = x} m s) a h =
      Screens-keeps k s (All-add Keyed kept x refl a) (includes-add kept x k ∙ rw h (ground arith))

  -- Every execution that was given is among the unique ones, by its ID.
  Screens-covers :
      {u : List ExecutionFacts} {b : Bool} {kept : Entries} {invalid : Bool}
      {xs : List ExecutionFacts}
      → Screens u b kept invalid xs
      → b ≡ false
      → All Keyed kept
      → All (λ x. includes (map id_of u) (id_of x) ≡ true) xs
  Screens-covers (finished kept e) h a = tt
  Screens-covers (skipped s) h a = let bad = stays_invalid s refl in absurd (ground arith)
  Screens-covers (kept_one {kept = kept} {x = x} m s) h a =
      let keyed = All-add Keyed kept x refl a in
      (
        Screens-keeps (id_of x) s keyed
            (includes-add kept x (id_of x) ∙ rw (beq_refl (id_of x)) (ground arith)),
        Screens-covers s h keyed,
      )

  Screens-IsNodup :
      {u : List ExecutionFacts} {b : Bool} {kept : Entries} {invalid : Bool}
      {xs : List ExecutionFacts}
      → Screens u b kept invalid xs
      → All Keyed kept
      → IsNodup (map first kept)
      → IsNodup (map id_of u)
  Screens-IsNodup (finished kept e) a d =
      subst (λ x. IsNodup (map id_of x)) (sym e)
        (sort-IsNodup (map second kept) (subst IsNodup (sym (keys-ids kept a)) d))
  Screens-IsNodup (skipped s) a d = Screens-IsNodup s a d
  Screens-IsNodup (kept_one {kept = kept} {x = x} m s) a d =
      Screens-IsNodup s (All-add Keyed kept x refl a) (add-IsNodup kept x d)

  values-All :
      (P : ExecutionFacts → Type 0) (kept : Entries)
      → All (λ p. P p.1) kept
      → All P (map second kept)
  values-All P [] a = tt
  values-All P ((k, x) ∷ kept) a = (a.0, values-All P kept a.1)

  module _ (given : List ExecutionFacts) where
    -- One of the given executions, and one of the intent.
    abbrev pub IsGiven : ExecutionFacts → Type 0
    IsGiven x = Mem x given × Matches x

    Screens-IsGiven :
        {u : List ExecutionFacts} {b : Bool} {kept : Entries} {invalid : Bool}
        {xs : List ExecutionFacts}
        → Screens u b kept invalid xs
        → All (λ p. IsGiven p.1) kept
        → ((x : ExecutionFacts) → Mem x xs → Mem x given)
        → All IsGiven u
    Screens-IsGiven (finished kept e) a h =
        subst (All IsGiven) (sym e) (All-sort IsGiven (map second kept) (values-All IsGiven kept a))
    Screens-IsGiven (skipped {x = x} s) a h = Screens-IsGiven s a (λ y m. h y (mem-cons_of_mem x m))
    Screens-IsGiven (kept_one {kept = kept} {x = x} m s) a h =
        Screens-IsGiven s (All-add (λ p. IsGiven p.1) kept x (h x mem-cons_self, m) a)
          (λ y n. h y (mem-cons_of_mem x n))

    -- The unique executions are given ones, one for each ID among the given ones.
    pub record IsUnique (u : List ExecutionFacts) : Type 0 where
      pub are_given : All IsGiven u
      pub one_each : IsNodup (map id_of u)
      pub are_all : All (λ x. includes (map id_of u) (id_of x) ≡ true) given

    pub screen_executions-IsUnique :
        {u : List ExecutionFacts}
        → screen_executions J i given venue market ≡ ok (screened u false)
        → IsUnique u
    unfolding screen_executions
    screen_executions-IsUnique h =
        let s = screen_from-Screens [] false given h in
        record {
          are_given = Screens-IsGiven s tt (λ x m. m);
          one_each = Screens-IsNodup s tt tt;
          are_all = Screens-covers s refl tt;
        }

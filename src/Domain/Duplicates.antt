-- ===== src/Domain/Duplicates.antt =====
-- src/domain/ownership.ts: which of several owned orders of one level survives.
use mathlib.Core.List.{Perm}
use multi_venue_grid_engine.Base.{
  ◌≡◌, subst, true, Option, List, [], ◌∷◌, Text, text_leb, text_leb_total, text_leb_trans, sort,
  sort-perm, sort-IsSorted, IsSorted, All, Outcome, ok, err, arith,
}

pub data CleanupError : Type 0 where
  no_owned_duplicate_candidates : CleanupError

pub data ReconciliationDisposition : Type 0 where
  proven_consistent repair_local_from_venue cancel_owned_duplicate : ReconciliationDisposition
  wait_for_fresh_evidence block_risk_increase hard_halt : ReconciliationDisposition

pub record DuplicateCleanupPlan : Type 0 where
  pub logical_level_id : Option Text
  pub survivor_exchange_order_id : Text
  pub cancel_exchange_order_ids : List Text
  pub disposition : ReconciliationDisposition

survivor_first : List Text → Option Text → Outcome CleanupError DuplicateCleanupPlan
survivor_first [] level = err no_owned_duplicate_candidates
survivor_first (survivor ∷ rest) level = ok (record {
  logical_level_id = level;
  survivor_exchange_order_id = survivor;
  cancel_exchange_order_ids = rest;
  disposition = cancel_owned_duplicate;
})

unfoldable pub plan_owned_duplicate_cleanup :
    List Text → Option Text → Outcome CleanupError DuplicateCleanupPlan
unfolding survivor_first sort text_leb
plan_owned_duplicate_cleanup ids level = survivor_first (sort text_leb ids) level

survivor_first_lem :
    (sorted : List Text) (level : Option Text) {plan : DuplicateCleanupPlan}
    → survivor_first sorted level ≡ ok plan
    → sorted ≡ plan.survivor_exchange_order_id ∷ plan.cancel_exchange_order_ids
unfolding survivor_first
survivor_first_lem [] level h = cc
survivor_first_lem (s ∷ rest) level h = ground arith

-- The survivor and the orders to cancel are exactly the owned orders, each as often as it was given,
-- and no order to cancel has an ID before the survivor's.
pub cleanup-partitions :
    (ids : List Text) (level : Option Text) {plan : DuplicateCleanupPlan}
    → plan_owned_duplicate_cleanup ids level ≡ ok plan
    → Perm (plan.survivor_exchange_order_id ∷ plan.cancel_exchange_order_ids) ids
      × All (λ x. text_leb plan.survivor_exchange_order_id x ≡ true) plan.cancel_exchange_order_ids
unfolding plan_owned_duplicate_cleanup
cleanup-partitions ids level h =
    let e = survivor_first_lem (sort text_leb ids) level h in
    (
      subst (λ xs. Perm xs ids) e (sort-perm text_leb ids),
      (subst (IsSorted text_leb) e (sort-IsSorted text_leb text_leb_total text_leb_trans ids)).0,
    )

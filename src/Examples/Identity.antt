-- ===== src/Examples/Identity.antt =====
-- The identifiers and the ownership of orders (domain/ids.ts, domain/ownership.ts), the level states
-- (strategy/levelState.ts) and the persistence latch on concrete values.
use mathlib.Core.List.{Perm}
use multi_venue_grid_engine.Base.{
  ◌≡◌, ◌↔◌, ◌⊎◌, ◌≢◌, refl, true, ◌||◌, none, some, List, [], ◌∷◌, Text, text, ok, arith, includes,
  All, text_leb, text_compare, text_eq, place, sort,
}
use multi_venue_grid_engine.Domain.ScopeKey.{
  ScopeParts, join, make_scope_key, parse_scope_key, parse-make, make-parse,
}
use multi_venue_grid_engine.Domain.OrderId.{
  ClientOrderIdInput, make_client_order_id, is_engine_client_order_id,
  make_client_order_id-is_engine,
}
use multi_venue_grid_engine.Domain.Ownership.{
  owned, unowned, OrderAuthorityLink, OwnershipEvidence, ObservedIdentity, classify_ownership,
}
use multi_venue_grid_engine.Domain.Ownership.Proven.{
  IsLocal, IsProven, classify-owned_iff, classify-unowned_iff,
}
use multi_venue_grid_engine.Domain.Duplicates.{
  DuplicateCleanupPlan, plan_owned_duplicate_cleanup, cancel_owned_duplicate, cleanup-partitions,
}
use multi_venue_grid_engine.Strategy.LevelState.{
  idle, entry_submitting, entry_working, cancel_pending, local, assert_transition,
}
use multi_venue_grid_engine.Strategy.LevelState.Local.{
  LocalMove, LocalPath, Kept, assert_transition-ok_iff, LocalPath-holding_iff,
}
use multi_venue_grid_engine.Persistence.Latch.{
  LatchState, BlockCall, block_all, any_call_includes, block_all-keeps,
}

abbrev parts : ScopeParts
parts = record {
  account_scope = text "main";
  venue = text "vx";
  market = text "BTC-PERP";
  strategy = text "grid";
}

abbrev key : Text
key = text "main/vx/BTC-PERP/grid"

made : make_scope_key parts ≡ ok key
unfolding make_scope_key join
made = refl

parse-make_example : parse_scope_key key ≡ ok parts
parse-make_example = parse-make parts made

make-parse_example : make_scope_key parts ≡ ok key
make-parse_example = make-parse key parse-make_example

-- A hash function that gives the same sixty-four digits for everything.
abbrev constant_hash : Text → Text
constant_hash s = text "0123456789abcdef0123456789abcdef0123456789abcdef0123456789abcdef"

abbrev order_input : ClientOrderIdInput
order_input = record {
  scope_key = key;
  anchor_epoch = text "epoch-1";
  logical_level_id = some (text "B1");
  purpose = text "GRID_ENTRY";
  intent_id = text "int:1";
}

make_client_order_id-is_engine_example :
    is_engine_client_order_id (make_client_order_id constant_hash order_input) ≡ true
make_client_order_id-is_engine_example =
    make_client_order_id-is_engine constant_hash (λ s. (omega arith, refl)) order_input

abbrev known_link : OrderAuthorityLink
known_link = record {
  intent_id = text "int:1";
  exchange_order_id = text "x-1";
  client_order_id = text "mv1a";
  source = text "ACK";
  evidence_id = text "ev-1";
  scope_key = key;
  anchor_epoch = text "epoch-1";
}

abbrev observed : ObservedIdentity
observed = record {
  scope_key = some key;
  anchor_epoch = none;
  client_order_id = some (text "mv1a");
  exchange_order_id = some (text "x-1");
}

abbrev evidence : OwnershipEvidence
evidence = record {
  current_scope_key = key;
  current_anchor_epoch = text "epoch-1";
  client_order_epoch_by_id = λ c. none;
  known_client_order_ids = text "mv1a" ∷ [];
  known_exchange_order_ids = [];
  authority_links = some (known_link ∷ []);
}

classify-owned_iff_example : (classify_ownership observed evidence ≡ owned) ↔ (
    IsLocal observed evidence
    × ((x : Text) × (l : OrderAuthorityLink) × IsProven observed evidence x l))
classify-owned_iff_example = classify-owned_iff observed evidence

classify-unowned_iff_example :
    (classify_ownership observed evidence ≡ unowned) ↔ (¬ IsLocal observed evidence)
classify-unowned_iff_example = classify-unowned_iff observed evidence

abbrev plan : DuplicateCleanupPlan
plan = record {
  logical_level_id = some (text "B1");
  survivor_exchange_order_id = text "x-1";
  cancel_exchange_order_ids = text "x-2" ∷ text "x-3" ∷ [];
  disposition = cancel_owned_duplicate;
}

planned :
    plan_owned_duplicate_cleanup (text "x-2" ∷ text "x-1" ∷ text "x-3" ∷ []) (some (text "B1"))
    ≡ ok plan
unfolding plan_owned_duplicate_cleanup sort place text_leb text_compare
planned = refl

cleanup-partitions_example :
    Perm (text "x-1" ∷ text "x-2" ∷ text "x-3" ∷ []) (text "x-2" ∷ text "x-1" ∷ text "x-3" ∷ [])
    × All (λ x. text_leb (text "x-1") x ≡ true) (text "x-2" ∷ text "x-3" ∷ [])
cleanup-partitions_example =
    cleanup-partitions (text "x-2" ∷ text "x-1" ∷ text "x-3" ∷ []) (some (text "B1")) planned

assert_transition-ok_iff_example :
    (assert_transition idle entry_submitting local ≡ ok tt)
    ↔ ((idle ≡ entry_submitting) ⊎ (local ≢ local) ⊎ LocalMove idle entry_submitting)
assert_transition-ok_iff_example = assert_transition-ok_iff idle entry_submitting local

LocalPath-holding_iff_example :
    LocalPath entry_working cancel_pending ↔ Kept entry_working cancel_pending
LocalPath-holding_iff_example = LocalPath-holding_iff entry_working cancel_pending

abbrev blocked_latch : LatchState
blocked_latch = record {
  blocked = true;
  reason_codes = text "A" ∷ [];
  blocked_at = some (text "t1");
}

abbrev later_calls : List BlockCall
later_calls = (text "B" ∷ [], text "t2") ∷ (text "A" ∷ [], text "t3") ∷ []

block_all-keeps_example :
    ((block_all blocked_latch later_calls).blocked ≡ true)
    × ((block_all blocked_latch later_calls).blocked_at ≡ blocked_latch.blocked_at)
    × ((c : Text)
        → includes (block_all blocked_latch later_calls).reason_codes c
          ≡ (includes blocked_latch.reason_codes c || any_call_includes later_calls c))
block_all-keeps_example = block_all-keeps blocked_latch later_calls refl

-- ===== src/Domain/Ownership.antt =====
-- src/domain/ownership.ts: whose order an observed order is.
pub mod Proven
use multi_venue_grid_engine.Base.{
  ℕ, ◌≡◌, refl, ap, Bool, true, false, ◌&&◌, ◌||◌, not, Option, none, some, List, [], ◌∷◌, Text,
  text, text_is_empty, text_eq, text_beq_iff, keep, Eq, ◌==◌, arith, if◌then◌else◌, ◌⊎◌, inl, inr,
}

pub data Ownership : Type 0 where
  owned unowned ambiguous : Ownership

-- `source` is the string found at run time.
pub record OrderAuthorityLink : Type 0 where
  pub source : Text
  pub evidence_id : Text
  pub exchange_order_id : Text
  pub intent_id : Text
  pub client_order_id : Text
  pub scope_key : Text
  pub anchor_epoch : Text

pub record OwnershipEvidence : Type 0 where
  pub current_scope_key : Text
  pub current_anchor_epoch : Text
  pub known_client_order_ids : List Text
  pub known_exchange_order_ids : List Text
  pub client_order_epoch_by_id : Text → Option Text
  pub authority_links : Option (List OrderAuthorityLink)

pub record ObservedIdentity : Type 0 where
  pub client_order_id : Option Text
  pub exchange_order_id : Option Text
  pub scope_key : Option Text
  pub anchor_epoch : Option Text

-- `value !== null && value !== expected`
abbrev pub differs : Option Text → Text → Bool
differs none t = false
differs (some s) t = not (s == t)

unfoldable pub is_proven_authority_source : Text → Bool
is_proven_authority_source s = s == text "ACK" || s == text "AUTHORITATIVE_OBSERVATION"

abbrev pub links_of : OwnershipEvidence → List OrderAuthorityLink
links_of v = elim v.authority_links [ none ↦ [] | some ls ↦ ls ]

abbrev pub matches_of : Text → OwnershipEvidence → List OrderAuthorityLink
matches_of x v = keep (λ l. l.exchange_order_id == x) (links_of v)

-- The checks on the only link that names the observed exchange order.
unfoldable pub link_agrees : OrderAuthorityLink → ObservedIdentity → OwnershipEvidence → Bool
unfolding is_proven_authority_source
link_agrees l o v =
    if not (is_proven_authority_source l.source) || text_is_empty l.evidence_id
    then false
    else if not (l.scope_key == v.current_scope_key)
        || not (l.anchor_epoch == v.current_anchor_epoch)
    then false
    else if differs o.client_order_id l.client_order_id
    then false
    else if differs o.scope_key l.scope_key
    then false
    else if differs o.anchor_epoch l.anchor_epoch
    then false
    else true

only_link : List OrderAuthorityLink → ObservedIdentity → OwnershipEvidence → Bool
unfolding link_agrees
only_link (l ∷ []) o v = link_agrees l o v
only_link _ o v = false

unfoldable pub has_matching_proven_authority : ObservedIdentity → OwnershipEvidence → Bool
unfolding only_link
has_matching_proven_authority o v = elim o.exchange_order_id [
  | none ↦ false
  | some x ↦ only_link (matches_of x v) o v
]

-- `recordedEpoch !== undefined && recordedEpoch !== evidence.currentAnchorEpoch`
recorded_epoch_differs : ObservedIdentity → OwnershipEvidence → Bool
recorded_epoch_differs o v = elim o.client_order_id [
  | none ↦ false
  | some c ↦ differs (v.client_order_epoch_by_id c) v.current_anchor_epoch
]

unfoldable pub classify_ownership : ObservedIdentity → OwnershipEvidence → Ownership
unfolding recorded_epoch_differs has_matching_proven_authority
classify_ownership o v =
    if differs o.scope_key v.current_scope_key
    then unowned
    else if differs o.anchor_epoch v.current_anchor_epoch
    then unowned
    else if recorded_epoch_differs o v
    then unowned
    else if has_matching_proven_authority o v
    then owned
    else ambiguous

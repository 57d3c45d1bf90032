-- ===== src/Domain/Ownership/Proven.antt =====
-- What the answers of classifyOwnership (domain/ownership.ts) mean.
use multi_venue_grid_engine.Base.{
  ◌≡◌, refl, Bool, true, false, ◌||◌, Option, none, some, List, [], ◌∷◌, Text, text, text_is_empty,
  text_eq, text_beq_iff, ◌==◌, arith, ◌⊎◌, inl, inr, ◌↔◌, Bool-cases,
}
use multi_venue_grid_engine.Domain.Ownership.{
  owned, unowned, OrderAuthorityLink, OwnershipEvidence, ObservedIdentity, differs,
  is_proven_authority_source, matches_of, link_agrees, only_link, has_matching_proven_authority,
  recorded_epoch_differs, classify_ownership,
}

-- An observed value is absent or the expected one.
abbrev pub Agrees : Option Text → Text → Type 0
Agrees none t = Unit
Agrees (some s) t = s ≡ t

abbrev pub RecordedAgrees : Option Text → OwnershipEvidence → Type 0
RecordedAgrees none v = Unit
RecordedAgrees (some c) v = Agrees (v.client_order_epoch_by_id c) v.current_anchor_epoch

-- Nothing that was observed or recorded places the order in another scope or epoch.
pub record IsLocal (o : ObservedIdentity) (v : OwnershipEvidence) : Type 0 where
  pub scope_agrees : Agrees o.scope_key v.current_scope_key
  pub epoch_agrees : Agrees o.anchor_epoch v.current_anchor_epoch
  pub recorded_agrees : RecordedAgrees o.client_order_id v

-- The one link that names the order, with its proof of authority.
pub record IsProven (o : ObservedIdentity) (v : OwnershipEvidence) (x : Text)
    (l : OrderAuthorityLink) : Type 0 where
  pub observed_id : o.exchange_order_id ≡ some x
  pub only : matches_of x v ≡ l ∷ []
  pub source_proven : (l.source ≡ text "ACK") ⊎ (l.source ≡ text "AUTHORITATIVE_OBSERVATION")
  pub has_evidence : text_is_empty l.evidence_id ≡ false
  pub scope_current : l.scope_key ≡ v.current_scope_key
  pub epoch_current : l.anchor_epoch ≡ v.current_anchor_epoch
  pub client_agrees : Agrees o.client_order_id l.client_order_id

differs-Agrees : (o : Option Text) (t : Text) → (differs o t ≡ false) ↔ Agrees o t
differs-Agrees none t = (λ h. tt, λ a. refl)
differs-Agrees (some s) t =
    (λ h. (text_beq_iff s t).0 (ground arith), λ a. let e = (text_beq_iff s t).1 a in ground arith)

recorded-Agrees :
    (o : ObservedIdentity) (c : Option Text) (v : OwnershipEvidence)
    → o.client_order_id ≡ c
    → (recorded_epoch_differs o v ≡ false) ↔ RecordedAgrees c v
unfolding recorded_epoch_differs
recorded-Agrees o none v e = rw (e, recorded_epoch_differs) (λ h. tt, λ a. refl)
recorded-Agrees o (some c) v e =
    rw (e, recorded_epoch_differs)
      (differs-Agrees (v.client_order_epoch_by_id c) v.current_anchor_epoch)

is_foreign : ObservedIdentity → OwnershipEvidence → Bool
is_foreign o v =
    differs o.scope_key v.current_scope_key
    || (differs o.anchor_epoch v.current_anchor_epoch || recorded_epoch_differs o v)

foreign-IsLocal :
    (o : ObservedIdentity) (v : OwnershipEvidence) → (is_foreign o v ≡ false) ↔ IsLocal o v
unfolding is_foreign
foreign-IsLocal o v =
    let scope = differs-Agrees o.scope_key v.current_scope_key in
    let epoch = differs-Agrees o.anchor_epoch v.current_anchor_epoch in
    let recorded = recorded-Agrees o o.client_order_id v refl in
    (
      λ h. record {
        scope_agrees = scope.0 (ground arith);
        epoch_agrees = epoch.0 (ground arith);
        recorded_agrees = recorded.0 (ground arith);
      },
      λ a.
          ground
            (arith, scope.1 a.scope_agrees, epoch.1 a.epoch_agrees, recorded.1 a.recorded_agrees),
    )

-- An order is called foreign exactly when its scope, its epoch or the epoch recorded for its client
-- order ID is known and is not the current one.
pub classify-unowned_iff :
    (o : ObservedIdentity) (v : OwnershipEvidence)
    → (classify_ownership o v ≡ unowned) ↔ (¬ IsLocal o v)
unfolding classify_ownership is_foreign
classify-unowned_iff o v = (
  λ h a. ground (arith, (foreign-IsLocal o v).1 a),
  λ n. elim (Bool-cases (is_foreign o v)) [
    | inl e ↦ ground arith
    | inr e ↦ absurd (n ((foreign-IsLocal o v).0 e))
  ],
)

source_iff :
    (s : Text)
    → (is_proven_authority_source s ≡ true)
      ↔ ((s ≡ text "ACK") ⊎ (s ≡ text "AUTHORITATIVE_OBSERVATION"))
unfolding is_proven_authority_source
source_iff s = (
  λ h. elim (Bool-cases (s == text "ACK")) [
    | inl e ↦ inl ((text_beq_iff _ _).0 e)
    | inr e ↦ inr ((text_beq_iff _ _).0 (ground arith))
  ],
  λ d. elim d [
    | inl e ↦ rw ((text_beq_iff _ _).1 e) refl
    | inr e ↦ let k = (text_beq_iff _ _).1 e in ground arith
  ],
)

link_agrees-IsProven :
    (o : ObservedIdentity) (v : OwnershipEvidence) (x : Text) (l : OrderAuthorityLink)
    → o.exchange_order_id ≡ some x
    → matches_of x v ≡ l ∷ []
    → link_agrees l o v ≡ true
    → IsProven o v x l
unfolding link_agrees
link_agrees-IsProven o v x l e m h = record {
  observed_id = e;
  only = m;
  source_proven = (source_iff l.source).0 (ground arith);
  has_evidence = ground arith;
  scope_current = (text_beq_iff _ _).0 (ground arith);
  epoch_current = (text_beq_iff _ _).0 (ground arith);
  client_agrees = (differs-Agrees o.client_order_id l.client_order_id).0 (ground arith);
}

IsProven-link_agrees :
    (o : ObservedIdentity) (v : OwnershipEvidence) (x : Text) (l : OrderAuthorityLink)
    → IsLocal o v
    → IsProven o v x l
    → link_agrees l o v ≡ true
unfolding link_agrees
IsProven-link_agrees o v x l here p =
    rw
      (
        (source_iff l.source).1 p.source_proven,
        p.has_evidence,
        (text_beq_iff _ _).1 p.scope_current,
        (text_beq_iff _ _).1 p.epoch_current,
        (differs-Agrees o.client_order_id l.client_order_id).1 p.client_agrees,
        p.scope_current,
        (differs-Agrees o.scope_key v.current_scope_key).1 here.scope_agrees,
        p.epoch_current,
        (differs-Agrees o.anchor_epoch v.current_anchor_epoch).1 here.epoch_agrees,
      )
      refl

only_link_inv :
    (ls : List OrderAuthorityLink) (o : ObservedIdentity) (v : OwnershipEvidence)
    → only_link ls o v ≡ true
    → (l : OrderAuthorityLink) × (ls ≡ l ∷ []) × (link_agrees l o v ≡ true)
unfolding only_link
only_link_inv [] o v h = cc
only_link_inv (l ∷ []) o v h = (l, refl, h)
only_link_inv (l ∷ k ∷ ls) o v h = cc

authority-IsProven :
    (o : ObservedIdentity) (v : OwnershipEvidence) (c : Option Text)
    → o.exchange_order_id ≡ c
    → has_matching_proven_authority o v ≡ true
    → (x : Text) × (l : OrderAuthorityLink) × IsProven o v x l
unfolding has_matching_proven_authority
authority-IsProven o v none e h = absurd (ground arith)
authority-IsProven o v (some x) e h =
    let (l, m, a) = only_link_inv (matches_of x v) o v (ground arith) in
    (x, l, link_agrees-IsProven o v x l e m a)

-- An order is taken for the engine's own exactly when nothing places it elsewhere and one single
-- authority link names it, from a proven source, with evidence, in the current scope and epoch, and
-- with the observed client order ID if there is one.
pub classify-owned_iff :
    (o : ObservedIdentity) (v : OwnershipEvidence)
    → (classify_ownership o v ≡ owned)
      ↔ (IsLocal o v × ((x : Text) × (l : OrderAuthorityLink) × IsProven o v x l))
unfolding classify_ownership is_foreign
classify-owned_iff o v = (
  λ h. (
    (foreign-IsLocal o v).0 (ground arith),
    authority-IsProven o v o.exchange_order_id refl (ground arith),
  ),
  λ (p : IsLocal o v × ((x : Text) × (l : OrderAuthorityLink) × IsProven o v x l)).
      let (x, l, proof) = p.1 in
      let here = (foreign-IsLocal o v).1 p.0 in
      let proven : has_matching_proven_authority o v ≡ true =
        unfold has_matching_proven_authority only_link in
        rw (proof.observed_id, has_matching_proven_authority)
          (rw proof.only (IsProven-link_agrees o v x l p.0 proof)) in
      ground arith,
)

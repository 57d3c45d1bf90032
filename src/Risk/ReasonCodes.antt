-- ===== src/Risk/ReasonCodes.antt =====
-- The reason codes of src/risk (risk-types.ts) and their canonical order (sortPhase2DReasonCodes of
-- risk-engine.ts).
use multi_venue_grid_engine.Base.{
  ℕ, zero, suc, ◌≡◌, refl, ap, ◌≤◌, ◌<◌, Bool, true, false, Option, none, some, List, [], ◌∷◌, Eq,
  nat_beq, nat_beq_iff, leb, sort, place, unique, includes, includes-sort, includes-unique, IsNodup,
  unique-IsNodup, sort-IsSorted, includes-place, sym, ◌∙◌, All, IsSorted, ◌↔◌, arith,
}

pub data ReasonCode : Type 0 where
  persistence_unproven lease_unproven durable_halt_or_ack_unavailable : ReasonCode
  reconciliation_required stale_or_missing_input daily_loss : ReasonCode
  start_drawdown boundary actual_notional : ReasonCode
  planned_notional continue_metrics_only latch_blocked : ReasonCode
  pair_unproven lease_lost lease_expired : ReasonCode
  fee_missing funding_missing funding_convention_missing : ReasonCode
  unbounded_exposure invalid_decimal invalid_risk_input : ReasonCode
  reduction_not_proven reduction_ambiguous cancel_only_reduction : ReasonCode
  boundary_seed_blocked high_water_observed risk_input_limit_exceeded : ReasonCode

abbrev pub phase_2d_reason_code_catalog : List ReasonCode
phase_2d_reason_code_catalog =
    persistence_unproven ∷ lease_unproven ∷ durable_halt_or_ack_unavailable
    ∷ reconciliation_required ∷ stale_or_missing_input ∷ daily_loss ∷ start_drawdown ∷ boundary
    ∷ actual_notional ∷ planned_notional ∷ continue_metrics_only ∷ latch_blocked ∷ pair_unproven
    ∷ lease_lost ∷ lease_expired ∷ fee_missing ∷ funding_missing ∷ funding_convention_missing
    ∷ unbounded_exposure ∷ invalid_decimal ∷ invalid_risk_input ∷ reduction_not_proven
    ∷ reduction_ambiguous ∷ cancel_only_reduction ∷ boundary_seed_blocked ∷ high_water_observed
    ∷ risk_input_limit_exceeded ∷ []

-- The place of a code in the catalog.
unfoldable pub rank : ReasonCode → ℕ
rank persistence_unproven = 0
rank lease_unproven = 1
rank durable_halt_or_ack_unavailable = 2
rank reconciliation_required = 3
rank stale_or_missing_input = 4
rank daily_loss = 5
rank start_drawdown = 6
rank boundary = 7
rank actual_notional = 8
rank planned_notional = 9
rank continue_metrics_only = 10
rank latch_blocked = 11
rank pair_unproven = 12
rank lease_lost = 13
rank lease_expired = 14
rank fee_missing = 15
rank funding_missing = 16
rank funding_convention_missing = 17
rank unbounded_exposure = 18
rank invalid_decimal = 19
rank invalid_risk_input = 20
rank reduction_not_proven = 21
rank reduction_ambiguous = 22
rank cancel_only_reduction = 23
rank boundary_seed_blocked = 24
rank high_water_observed = 25
rank risk_input_limit_exceeded = 26

nth : List ReasonCode → ℕ → Option ReasonCode
nth [] n = none
nth (c ∷ cs) zero = some c
nth (c ∷ cs) (suc n) = nth cs n

nth-rank : (c : ReasonCode) → nth phase_2d_reason_code_catalog (rank c) ≡ some c
unfolding nth rank
nth-rank persistence_unproven = refl
nth-rank lease_unproven = refl
nth-rank durable_halt_or_ack_unavailable = refl
nth-rank reconciliation_required = refl
nth-rank stale_or_missing_input = refl
nth-rank daily_loss = refl
nth-rank start_drawdown = refl
nth-rank boundary = refl
nth-rank actual_notional = refl
nth-rank planned_notional = refl
nth-rank continue_metrics_only = refl
nth-rank latch_blocked = refl
nth-rank pair_unproven = refl
nth-rank lease_lost = refl
nth-rank lease_expired = refl
nth-rank fee_missing = refl
nth-rank funding_missing = refl
nth-rank funding_convention_missing = refl
nth-rank unbounded_exposure = refl
nth-rank invalid_decimal = refl
nth-rank invalid_risk_input = refl
nth-rank reduction_not_proven = refl
nth-rank reduction_ambiguous = refl
nth-rank cancel_only_reduction = refl
nth-rank boundary_seed_blocked = refl
nth-rank high_water_observed = refl
nth-rank risk_input_limit_exceeded = refl

pub code_beq_iff : (a b : ReasonCode) → (nat_beq (rank a) (rank b) ≡ true) ↔ (a ≡ b)
code_beq_iff a b = (
  λ h. ground (
    arith,
    nth-rank a,
    nth-rank b,
    ap (nth phase_2d_reason_code_catalog) ((nat_beq_iff _ _).0 h),
  ),
  λ e. (nat_beq_iff _ _).1 (ap rank e),
)

instance abbrev pub code_eq : Eq ReasonCode
code_eq = record { beq = λ a b. nat_beq (rank a) (rank b); beq_iff = code_beq_iff }

abbrev pub rank_leb : ReasonCode → ReasonCode → Bool
rank_leb a b = leb (rank a) (rank b)

-- `sortPhase2DReasonCodes`; every code that the engine pushes is in the catalog.
unfoldable pub sort_phase2d_reason_codes : List ReasonCode → List ReasonCode
unfolding sort unique rank
sort_phase2d_reason_codes codes = sort rank_leb (unique codes)

-- Codes in the order of the catalog, each once.
abbrev pub IsCanonical : List ReasonCode → Type 0
IsCanonical [] = Unit
IsCanonical (c ∷ cs) = All (λ d. rank c < rank d) cs × IsCanonical cs

All-lt :
    (c : ReasonCode) (cs : List ReasonCode)
    → All (λ d. rank_leb c d ≡ true) cs
    → includes cs c ≡ false
    → All (λ d. rank c < rank d) cs
All-lt c [] a n = tt
All-lt c (d ∷ cs) a n = (ground arith, All-lt c cs a.1 (ground arith))

sorted-IsCanonical : (cs : List ReasonCode) → IsSorted rank_leb cs → IsNodup cs → IsCanonical cs
sorted-IsCanonical [] s n = tt
sorted-IsCanonical (c ∷ cs) s n = (All-lt c cs s.0 n.0, sorted-IsCanonical cs s.1 n.1)

not_below :
    (n : ℕ) (cs : List ReasonCode) (c : ReasonCode)
    → All (λ d. n < rank d) cs
    → rank c ≤ n
    → includes cs c ≡ false
not_below n [] c a h = refl
not_below n (d ∷ cs) c a h = ground (arith, not_below n cs c a.1 h)

canonical_ext :
    (xs ys : List ReasonCode)
    → IsCanonical xs
    → IsCanonical ys
    → ((c : ReasonCode) → includes xs c ≡ includes ys c)
    → xs ≡ ys
canonical_ext [] [] a b h = refl
canonical_ext [] (y ∷ ys) a b h = absurd (ground (arith, h y))
canonical_ext (x ∷ xs) [] a b h = absurd (ground (arith, h x))
canonical_ext (x ∷ xs) (y ∷ ys) a b h =
    let ranks : rank x ≡ rank y =
      ground (arith, h x, h y, not_below (rank y) ys x b.0, not_below (rank x) xs y a.0) in
    let same : x ≡ y = (code_beq_iff x y).0 ((nat_beq_iff _ _).1 ranks) in
    let rest : xs ≡ ys =
      canonical_ext xs ys a.1 b.1
        (λ c. ground (arith, h c, not_below (rank x) xs c, not_below (rank y) ys c)) in
    ground arith

place-IsNodup :
    (c : ReasonCode) (cs : List ReasonCode)
    → IsNodup cs
    → includes cs c ≡ false
    → IsNodup (place rank_leb c cs)
unfolding place
place-IsNodup c [] n h = (refl, tt)
place-IsNodup c (d ∷ cs) n h =
    ground (arith, place-IsNodup c cs n.1, includes-place rank_leb c cs d)

sort-IsNodup : (cs : List ReasonCode) → IsNodup cs → IsNodup (sort rank_leb cs)
unfolding sort
sort-IsNodup [] n = tt
sort-IsNodup (c ∷ cs) n =
    place-IsNodup c (sort rank_leb cs) (sort-IsNodup cs n.1) (includes-sort rank_leb cs c ∙ n.0)

pub includes-sort_phase2d :
    (cs : List ReasonCode) (c : ReasonCode)
    → includes (sort_phase2d_reason_codes cs) c ≡ includes cs c
unfolding sort_phase2d_reason_codes
includes-sort_phase2d cs c = includes-sort rank_leb (unique cs) c ∙ includes-unique cs c

pub sort_phase2d-IsCanonical : (cs : List ReasonCode) → IsCanonical (sort_phase2d_reason_codes cs)
unfolding sort_phase2d_reason_codes
sort_phase2d-IsCanonical cs =
    sorted-IsCanonical (sort rank_leb (unique cs))
      (sort-IsSorted rank_leb (λ a b. ground arith) (λ a b c h k. ground arith) (unique cs))
      (sort-IsNodup (unique cs) (unique-IsNodup cs))

-- The reported codes depend on which codes were raised, and not on the order in which the checks ran
-- nor on how often each was raised.
pub sort_phase2d_congr :
    (cs ds : List ReasonCode)
    → ((c : ReasonCode) → includes cs c ≡ includes ds c)
    → sort_phase2d_reason_codes cs ≡ sort_phase2d_reason_codes ds
sort_phase2d_congr cs ds h =
    canonical_ext _ _ (sort_phase2d-IsCanonical cs) (sort_phase2d-IsCanonical ds)
      (λ c. includes-sort_phase2d cs c ∙ h c ∙ sym (includes-sort_phase2d ds c))

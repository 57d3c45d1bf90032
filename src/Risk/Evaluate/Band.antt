-- ===== src/Risk/Evaluate/Band.antt =====
-- Where the price stands to the grid's band when computeBoundary of risk-engine.ts raises no boundary.
use multi_venue_grid_engine.Base.{
  ◌≡◌, ◌⊎◌, refl, ap, sym, ◌∙◌, subst, is_lt, is_le, is_gt, Bool, true, false, ◌||◌, not, Option,
  none, some, List, [], ◌∷◌, Ordering, Text, text, includes, ok, ◌>>=◌, >>=-eq-ok, Bool-cases,
  arith, inl, inr,
}
use multi_venue_grid_engine.Math.DecimalJs.{DecimalJs}
use multi_venue_grid_engine.Math.Decimal.{decimal_cmp, is_canonical_decimal_string}
use multi_venue_grid_engine.Math.ExactDecimal.{exact_mul}
use multi_venue_grid_engine.Risk.Types.{RiskInput}
use multi_venue_grid_engine.Risk.ReasonCodes.{
  ReasonCode, code_eq, rank, stale_or_missing_input, invalid_risk_input, risk_input_limit_exceeded,
  boundary, boundary_seed_blocked,
}
use multi_venue_grid_engine.Risk.Validation.{grid_order, validate_grid_domain}
use multi_venue_grid_engine.Risk.Limits.{
  flat_boundary, short_boundary, long_boundary, boundary_of, boundary_in_domain, compute_boundary,
}

module _ (J : DecimalJs) where
  -- The comparison was made, and `x` is not below `y`.
  pub record IsNotBelow (x y : Text) : Type 0 where
    pub order : Ordering
    pub compared : decimal_cmp J x y ≡ ok order
    pub not_less : is_lt order ≡ false

  pub record IsNotAbove (x y : Text) : Type 0 where
    pub order : Ordering
    pub compared : decimal_cmp J x y ≡ ok order
    pub not_greater : is_gt order ≡ false

  -- The price on the side of the band that matters to the position; `blocked` says that a flat
  -- position is barred from new orders instead.
  pub data Place (blocked : Bool) (side : Ordering) (mark floor ceiling : Text) : Type 0 where
    long_kept : is_gt side ≡ true → IsNotBelow mark floor → Place blocked side mark floor ceiling
    short_kept : is_lt side ≡ true → IsNotAbove mark ceiling → Place blocked side mark floor ceiling
    flat_inside :
        is_lt side ≡ false
        → is_gt side ≡ false
        → IsNotBelow mark floor
        → IsNotAbove mark ceiling
        → Place blocked side mark floor ceiling
    flat_blocked :
        is_lt side ≡ false
        → is_gt side ≡ false
        → blocked ≡ true
        → Place blocked side mark floor ceiling

  -- The band from 0.99 of the grid's lower end to 1.01 of its upper end, and the place in it.
  pub record IsInBand (i : RiskInput) (blocked : Bool) : Type 0 where
    pub position : Text
    pub mark : Text
    pub lower : Text
    pub upper : Text
    pub position_known : i.signed_position ≡ some position
    pub mark_known : i.mark_or_mid_price ≡ some mark
    pub lower_known : i.grid_lower ≡ some lower
    pub upper_known : i.grid_upper ≡ some upper
    pub floor : Text
    pub ceiling : Text
    pub floor_is : exact_mul J lower (text "0.99") ≡ ok floor
    pub ceiling_is : exact_mul J upper (text "1.01") ≡ ok ceiling
    pub side : Ordering
    pub side_is : decimal_cmp J position (text "0") ≡ ok side
    pub place : Place blocked side mark floor ceiling

  abbrev bars : List ReasonCode → Bool
  bars codes = includes codes boundary_seed_blocked

  flat-Place :
      (position mark floor ceiling : Text) (side : Ordering) (codes : List ReasonCode)
      → decimal_cmp J position (text "0") ≡ ok side
      → is_lt side ≡ false
      → is_gt side ≡ false
      → flat_boundary J position mark floor ceiling ≡ ok codes
      → Place (bars codes) side mark floor ceiling
  unfolding flat_boundary rank
  flat-Place position mark floor ceiling side codes e l g h =
      let (low, e1, h1) = >>=-eq-ok (decimal_cmp J mark floor) _ (rw (e, l, g, ◌>>=◌) at h) in
      elim (Bool-cases (is_lt low)) [
        | inl below ↦ flat_blocked l g (ground arith)
        | inr kept ↦
            let (high, e2, h2) = >>=-eq-ok (decimal_cmp J mark ceiling) _ (rw kept at h1) in
            elim (Bool-cases (is_gt high)) [
              | inl above ↦ flat_blocked l g (ground arith)
              | inr inside ↦
                  flat_inside l g (record { order = low; compared = e1; not_less = kept })
                    (record { order = high; compared = e2; not_greater = inside })
            ]
      ]

  short-Place :
      (position mark floor ceiling : Text) (side : Ordering) (codes : List ReasonCode)
      → decimal_cmp J position (text "0") ≡ ok side
      → is_gt side ≡ false
      → short_boundary J position mark floor ceiling ≡ ok codes
      → includes codes boundary ≡ false
      → Place (bars codes) side mark floor ceiling
  unfolding short_boundary rank
  short-Place position mark floor ceiling side codes e g h n = elim (Bool-cases (is_lt side)) [
    | inr flat ↦
        flat-Place position mark floor ceiling side codes e flat g (rw (e, flat, ◌>>=◌) at h)
    | inl short ↦
        let (high, e1, h1) = >>=-eq-ok (decimal_cmp J mark ceiling) _ (rw (e, short, ◌>>=◌) at h) in
        elim (Bool-cases (is_gt high)) [
          | inl above ↦ absurd (ground arith)
          | inr kept ↦ short_kept short (record { order = high; compared = e1; not_greater = kept })
        ]
  ]

  long-Place :
      (position mark floor ceiling : Text) (side : Ordering) (codes : List ReasonCode)
      → decimal_cmp J position (text "0") ≡ ok side
      → long_boundary J position mark floor ceiling ≡ ok codes
      → includes codes boundary ≡ false
      → Place (bars codes) side mark floor ceiling
  unfolding long_boundary rank
  long-Place position mark floor ceiling side codes e h n = elim (Bool-cases (is_gt side)) [
    | inr other ↦
        short-Place position mark floor ceiling side codes e other (rw (e, other, ◌>>=◌) at h) n
    | inl long ↦
        let (low, e1, h1) = >>=-eq-ok (decimal_cmp J mark floor) _ (rw (e, long, ◌>>=◌) at h) in
        elim (Bool-cases (is_lt low)) [
          | inl below ↦ absurd (ground arith)
          | inr kept ↦ long_kept long (record { order = low; compared = e1; not_less = kept })
        ]
  ]

  order-nil :
      (lower upper : Text) (codes : List ReasonCode)
      → grid_order J lower upper ≡ ok codes
      → includes codes invalid_risk_input ≡ false
      → codes ≡ []
  unfolding grid_order rank
  order-nil a b codes h v =
      let (l, e1, h1) = >>=-eq-ok (decimal_cmp J a (text "0")) _ h in
      elim (Bool-cases (is_le l)) [
        | inl low ↦ absurd (ground arith)
        | inr positive ↦
            let (u, e2, h2) = >>=-eq-ok (decimal_cmp J b (text "0")) _ (rw positive at h1) in
            elim (Bool-cases (is_le u)) [
              | inl low ↦ absurd (ground arith)
              | inr high ↦
                  let (c, e3, h3) = >>=-eq-ok (decimal_cmp J a b) _ (rw high at h2) in ground arith
            ]
      ]

  -- The grid's domain raises nothing but these two codes.
  domain-nil :
      (lower upper : Option Text) (codes : List ReasonCode)
      → validate_grid_domain J lower upper ≡ ok codes
      → includes codes invalid_risk_input ≡ false
      → includes codes risk_input_limit_exceeded ≡ false
      → codes ≡ []
  unfolding validate_grid_domain rank
  domain-nil none upper codes h v l = ground arith
  domain-nil (some a) none codes h v l = ground arith
  domain-nil (some a) (some b) codes h v l = ground (arith, order-nil a b codes)

  domain-same :
      (domain codes : List ReasonCode) (a b c d : Option Text)
      → boundary_in_domain J domain a b c d ≡ ok codes
      → (domain ≡ []) ⊎ (codes ≡ domain)
  unfolding boundary_in_domain
  domain-same [] codes a b c d h = inl refl
  domain-same (w ∷ ws) codes a b c d h = inr (ground arith)

  of-IsInBand :
      (i : RiskInput) (codes : List ReasonCode) (a b c d : Option Text)
      → i.signed_position ≡ a
      → i.mark_or_mid_price ≡ b
      → i.grid_lower ≡ c
      → i.grid_upper ≡ d
      → boundary_in_domain J [] a b c d ≡ ok codes
      → includes codes boundary ≡ false
      → includes codes stale_or_missing_input ≡ false
      → IsInBand i (bars codes)
  unfolding boundary_in_domain boundary_of long_boundary rank
  of-IsInBand i codes (some a) (some b) (some c) (some d) ea eb ec ed h n s =
      elim (Bool-cases (
        not (is_canonical_decimal_string J a)
        || (not (is_canonical_decimal_string J b)
            || (not (is_canonical_decimal_string J c) || not (is_canonical_decimal_string J d))))) [
              | inl bad ↦ absurd (ground arith)
              | inr good ↦
                  let (floor, e1, h1) = >>=-eq-ok (exact_mul J c (text "0.99")) _ (rw good at h) in
                  let (ceiling, e2, h2) = >>=-eq-ok (exact_mul J d (text "1.01")) _ h1 in
                  let (side, e3, _) = >>=-eq-ok (decimal_cmp J a (text "0")) _ h2 in
                  record {
                    position = a;
                    mark = b;
                    lower = c;
                    upper = d;
                    position_known = ea;
                    mark_known = eb;
                    lower_known = ec;
                    upper_known = ed;
                    floor = floor;
                    ceiling = ceiling;
                    floor_is = e1;
                    ceiling_is = e2;
                    side = side;
                    side_is = e3;
                    place = long-Place a b floor ceiling side codes e3 h2 n;
                  }
            ]
  of-IsInBand i codes none b c d ea eb ec ed h n s = absurd (ground arith)
  of-IsInBand i codes (some a) none c d ea eb ec ed h n s = absurd (ground arith)
  of-IsInBand i codes (some a) (some b) none d ea eb ec ed h n s = absurd (ground arith)
  of-IsInBand i codes (some a) (some b) (some c) none ea eb ec ed h n s = absurd (ground arith)

  pub compute_boundary-IsInBand :
      (i : RiskInput) (codes : List ReasonCode)
      → compute_boundary J i ≡ ok codes
      → includes codes boundary ≡ false
      → includes codes stale_or_missing_input ≡ false
      → includes codes invalid_risk_input ≡ false
      → includes codes risk_input_limit_exceeded ≡ false
      → IsInBand i (includes codes boundary_seed_blocked)
  unfolding compute_boundary
  compute_boundary-IsInBand i codes h n s v l =
      let (domain, e, h1) = >>=-eq-ok (validate_grid_domain J i.grid_lower i.grid_upper) _ h in
      let empty : domain ≡ [] = elim (domain-same domain codes _ _ _ _ h1) [
        | inl none_found ↦ none_found
        | inr same ↦
            domain-nil _ _ domain e (ap (λ x. includes x invalid_risk_input) (sym same) ∙ v)
              (ap (λ x. includes x risk_input_limit_exceeded) (sym same) ∙ l)
      ] in
      of-IsInBand i codes _ _ _ _ refl refl refl refl (rw empty at h1) n s

  barred-Place :
      {b : Bool} {side : Ordering} {mark floor ceiling : Text}
      → Place b side mark floor ceiling
      → Place true side mark floor ceiling
  barred-Place (long_kept s k) = long_kept s k
  barred-Place (short_kept s k) = short_kept s k
  barred-Place (flat_inside l g f c) = flat_inside l g f c
  barred-Place (flat_blocked l g e) = flat_blocked l g refl

  barred-IsInBand : {i : RiskInput} {b : Bool} → IsInBand i b → IsInBand i true
  barred-IsInBand band = record {
    position = band.position;
    mark = band.mark;
    lower = band.lower;
    upper = band.upper;
    position_known = band.position_known;
    mark_known = band.mark_known;
    lower_known = band.lower_known;
    upper_known = band.upper_known;
    floor = band.floor;
    ceiling = band.ceiling;
    floor_is = band.floor_is;
    ceiling_is = band.ceiling_is;
    side = band.side;
    side_is = band.side_is;
    place = barred-Place band.place;
  }

  -- The same of codes that are reported with others.
  pub reported-IsInBand :
      {i : RiskInput} (codes reported : Bool)
      → (reported ≡ false → codes ≡ false)
      → IsInBand i codes
      → IsInBand i reported
  reported-IsInBand codes true kept band = barred-IsInBand band
  reported-IsInBand {i} codes false kept band = subst (IsInBand i) (kept refl) band

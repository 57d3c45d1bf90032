-- ===== src/Risk/Freshness.antt =====
-- src/risk/freshness.ts: every observation is recent enough.
use multi_venue_grid_engine.Base.{
  sym, ◌∙◌, excludes-append, includes, includes-unique, ℕ, ◌+◌, ◌-◌, ◌*◌, ◌≤◌, ◌≡◌, ◌↔◌, refl, Bool,
  true, false, ◌&&◌, ◌||◌, not, Option, none, some, List, [], ◌∷◌, ◌++◌, Text, text_is_empty,
  length, every, leb, ltb, unique, nat_eq, if◌then◌else◌, ◌==◌, arith, Bool-cases, inl, inr,
  unique-nil, append-nil_inv, insert_all,
}
use multi_venue_grid_engine.Math.DecimalJs.{DecimalJs}
use multi_venue_grid_engine.Math.Decimal.{is_canonical_decimal_string}
use multi_venue_grid_engine.Risk.Types.{RiskFreshness}
use multi_venue_grid_engine.Risk.ReasonCodes.{
  ReasonCode, code_eq, rank, stale_or_missing_input, invalid_decimal,
}

abbrev pub is_digit : ℕ → Bool
is_digit c = leb b'0' c && leb c b'9'

-- `/^(0|[1-9][0-9]{0,12})$/`
unfoldable pub timestamp_matches : Text → Bool
timestamp_matches [] = false
timestamp_matches (c ∷ s) =
    if c == b'0' then text_is_empty s else is_digit c && every is_digit s && leb (length s) 12

-- The test on a value that may be `null`, which is read as the string "null".
abbrev pub is_timestamp : Option Text → Bool
is_timestamp none = false
is_timestamp (some t) = timestamp_matches t

digits_value : ℕ → Text → ℕ
digits_value n [] = n
digits_value n (c ∷ s) = digits_value (n * 10 + (c - b'0')) s

-- `BigInt(value)` of a string of digits
unfoldable pub big_int : Text → ℕ
unfolding digits_value
big_int s = digits_value 0 s

abbrev pub time_of : Option Text → ℕ
time_of none = 0
time_of (some t) = big_int t

-- The check of one observation.
unfoldable pub observed_codes : ℕ → ℕ → Option Text → List ReasonCode
observed_codes now max_stale observed_at =
    if not (is_timestamp observed_at)
    then stale_or_missing_input ∷ []
    else if ltb now (time_of observed_at) || ltb max_stale (now - time_of observed_at)
    then stale_or_missing_input ∷ []
    else []

-- The observation is a timestamp, not from the future, and at most `max_stale` old.
pub record IsRecent (f : RiskFreshness) (observed_at : Option Text) : Type 0 where
  pub stamped : is_timestamp observed_at ≡ true
  pub not_ahead : time_of observed_at ≤ time_of f.evaluated_at
  pub not_old : time_of f.evaluated_at ≤ time_of observed_at + time_of f.max_stale_ms

observed-IsRecent :
    (f : RiskFreshness) (o : Option Text)
    → observed_codes (time_of f.evaluated_at) (time_of f.max_stale_ms) o ≡ []
    → IsRecent f o
unfolding observed_codes
observed-IsRecent f o h = elim (Bool-cases (is_timestamp o)) [
  | inl k ↦ record { stamped = k; not_ahead = ground arith; not_old = ground arith }
  | inr k ↦ absurd (ground arith)
]

IsRecent-observed :
    (f : RiskFreshness) (o : Option Text)
    → IsRecent f o
    → observed_codes (time_of f.evaluated_at) (time_of f.max_stale_ms) o ≡ []
unfolding observed_codes
IsRecent-observed f o r = ground arith

observed_stale :
    (now max_stale : ℕ) (o : Option Text)
    → includes (observed_codes now max_stale o) stale_or_missing_input ≡ false
    → observed_codes now max_stale o ≡ []
unfolding observed_codes rank
observed_stale now max_stale o h = ground arith

unique_none : unique {A = ReasonCode} [] ≡ []
unfolding unique insert_all
unique_none = refl

four_stale :
    (a b c d : List ReasonCode)
    → (includes a stale_or_missing_input ≡ false → a ≡ [])
    → (includes b stale_or_missing_input ≡ false → b ≡ [])
    → (includes c stale_or_missing_input ≡ false → c ≡ [])
    → (includes d stale_or_missing_input ≡ false → d ≡ [])
    → includes (unique (a ++ (b ++ (c ++ d)))) stale_or_missing_input ≡ false
    → unique (a ++ (b ++ (c ++ d))) ≡ []
four_stale a b c d ha hb hc hd h =
    let whole = sym (includes-unique (a ++ (b ++ (c ++ d))) stale_or_missing_input) ∙ h in
    let (p, h1) = excludes-append a (b ++ (c ++ d)) stale_or_missing_input whole in
    let (e, h2) = excludes-append b (c ++ d) stale_or_missing_input h1 in
    let (m, n) = excludes-append c d stale_or_missing_input h2 in
    rw (ha p, hb e, hc m, hd n) unique_none

abbrev codes : RiskFreshness → Option Text → List ReasonCode
codes f o = observed_codes (time_of f.evaluated_at) (time_of f.max_stale_ms) o

module _ (J : DecimalJs) where
  unfoldable pub is_canonical_integer_ms : Option Text → Bool
  is_canonical_integer_ms none = false
  is_canonical_integer_ms (some t) = timestamp_matches t && is_canonical_decimal_string J t

  unfoldable pub freshness_failures : RiskFreshness → List ReasonCode
  freshness_failures f =
      if not (is_timestamp f.evaluated_at) || not (is_canonical_integer_ms f.max_stale_ms)
      then stale_or_missing_input ∷ invalid_decimal ∷ []
      else unique (
          observed_codes (time_of f.evaluated_at) (time_of f.max_stale_ms) f.position_observed_at
          ++ (observed_codes (time_of f.evaluated_at) (time_of f.max_stale_ms) f.equity_observed_at
              ++ (observed_codes (time_of f.evaluated_at) (time_of f.max_stale_ms)
                    f.mark_observed_at
                  ++ observed_codes (time_of f.evaluated_at) (time_of f.max_stale_ms)
                      f.pnl_observed_at)))

  pub record IsFresh (f : RiskFreshness) : Type 0 where
    pub evaluated : is_timestamp f.evaluated_at ≡ true
    pub bounded : is_canonical_integer_ms f.max_stale_ms ≡ true
    pub position : IsRecent f f.position_observed_at
    pub equity : IsRecent f f.equity_observed_at
    pub mark : IsRecent f f.mark_observed_at
    pub pnl : IsRecent f f.pnl_observed_at

  -- Nothing is reported exactly when the evaluation time and the age limit are well formed and each of
  -- the four observations is a timestamp that is not after the evaluation time and is no older than the
  -- age limit.
  pub freshness-nil_iff : (f : RiskFreshness) → (freshness_failures f ≡ []) ↔ IsFresh f
  unfolding freshness_failures
  freshness-nil_iff f = (
    λ h. elim (Bool-cases (is_timestamp f.evaluated_at && is_canonical_integer_ms f.max_stale_ms)) [
      | inr bad ↦ absurd (ground arith)
      | inl good ↦
          let (p, h1) =
            append-nil_inv (codes f f.position_observed_at) _ (unique-nil _ (ground arith)) in
          let (e, h2) = append-nil_inv (codes f f.equity_observed_at) _ h1 in
          let (m, n) = append-nil_inv (codes f f.mark_observed_at) _ h2 in
          record {
            evaluated = ground arith;
            bounded = ground arith;
            position = observed-IsRecent f f.position_observed_at p;
            equity = observed-IsRecent f f.equity_observed_at e;
            mark = observed-IsRecent f f.mark_observed_at m;
            pnl = observed-IsRecent f f.pnl_observed_at n;
          }
    ],
    λ fresh.
        rw
          (
            fresh.evaluated,
            fresh.bounded,
            IsRecent-observed f f.position_observed_at fresh.position,
            IsRecent-observed f f.equity_observed_at fresh.equity,
            IsRecent-observed f f.mark_observed_at fresh.mark,
            IsRecent-observed f f.pnl_observed_at fresh.pnl,
          )
          (unfold unique insert_all in refl),
  )

  -- Any failure is reported as stale or missing input.
  pub freshness-excludes_stale :
      (f : RiskFreshness)
      → includes (freshness_failures f) stale_or_missing_input ≡ false
      → freshness_failures f ≡ []
  unfolding freshness_failures rank
  freshness-excludes_stale f h =
      elim (Bool-cases (is_timestamp f.evaluated_at && is_canonical_integer_ms f.max_stale_ms)) [
        | inr bad ↦ absurd (ground arith)
        | inl good ↦
            let done =
              four_stale (codes f f.position_observed_at) (codes f f.equity_observed_at)
                (codes f f.mark_observed_at) (codes f f.pnl_observed_at)
                (observed_stale _ _ f.position_observed_at)
                (observed_stale _ _ f.equity_observed_at) (observed_stale _ _ f.mark_observed_at)
                (observed_stale _ _ f.pnl_observed_at) (ground arith) in
            ground arith
      ]

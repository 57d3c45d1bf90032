-- ===== src/Risk/Evaluate/Within.antt =====
-- When the day and the drawdown (risk-engine.ts) are within their limits.
use multi_venue_grid_engine.Base.{
  ◌≡◌, refl, sym, ◌⊎◌, is_le, is_lt, true, false, ◌||◌, not, Option, none, some, List, [], ◌∷◌,
  Ordering, Text, includes, ok, ◌>>=◌, >>=-eq-ok, Outcome-cases, arith, inl, inr, Bool-cases,
  excludes-append,
}
use multi_venue_grid_engine.Math.DecimalJs.{DecimalJs}
use multi_venue_grid_engine.Math.Decimal.{decimal_cmp, is_canonical_decimal_string}
use multi_venue_grid_engine.Math.ExactDecimal.{exact_sub}
use multi_venue_grid_engine.Risk.Types.{
  RiskInput, frozen_daily_net_loss_usdt, frozen_start_drawdown_usdt,
}
use multi_venue_grid_engine.Risk.ReasonCodes.{
  ReasonCode, code_eq, rank, stale_or_missing_input, invalid_risk_input, daily_loss, start_drawdown,
  fee_missing, funding_missing,
}
use multi_venue_grid_engine.Risk.Limits.{
  Finding, realized_codes, required_codes, convention_codes, net_daily_pnl, pnl_finding, pnl_of,
  compute_daily_pnl, compute_start_drawdown, drawdown_of,
}

module _ (J : DecimalJs) where
  -- The day's profit or loss is known and above the limit of -5 USDT.
  pub record IsDayWithin (i : RiskInput) : Type 0 where
    pub realized : Text
    pub fees : Text
    pub funding : Text
    pub convention : Text
    pub realized_known : i.realized_trading_pnl ≡ some realized
    pub fees_known : i.fees ≡ some fees
    pub funding_known : i.funding ≡ some funding
    pub convention_known : i.funding_convention ≡ some convention
    pub net : Text
    pub net_is : net_daily_pnl J realized fees funding convention ≡ ok net
    pub order : Ordering
    pub compared : decimal_cmp J net frozen_daily_net_loss_usdt ≡ ok order
    pub above : is_le order ≡ false

  pnl_finding-above :
      (net : Text) (f : Finding)
      → pnl_finding J net ≡ ok f
      → includes f.reason_codes daily_loss ≡ false
      → (c : Ordering) × (decimal_cmp J net frozen_daily_net_loss_usdt ≡ ok c) × (is_le c ≡ false)
  unfolding pnl_finding rank
  pnl_finding-above net f h n =
      elim (Outcome-cases (decimal_cmp J net frozen_daily_net_loss_usdt)) [
        | inl (c, e) ↦ (c, e, ground arith)
        | inr (r, e) ↦ absurd (ground arith)
      ]

  realized_known :
      (o : Option Text)
      → includes (realized_codes J o) stale_or_missing_input ≡ false
      → (x : Text) × (o ≡ some x) × (realized_codes J o ≡ [])
  unfolding realized_codes rank
  realized_known none h = cc
  realized_known (some x) h = (x, refl, ground arith)

  required_known :
      (w : ReasonCode) (o : Option Text)
      → includes (required_codes J w o) stale_or_missing_input ≡ false
      → (x : Text) × (o ≡ some x) × (required_codes J w o ≡ [])
  unfolding required_codes rank
  required_known w none h = absurd (ground arith)
  required_known w (some x) h = (x, refl, ground arith)

  convention_known :
      (o : Option Text)
      → includes (convention_codes J o) stale_or_missing_input ≡ false
      → includes (convention_codes J o) invalid_risk_input ≡ false
      → (x : Text) × (o ≡ some x) × (convention_codes J o ≡ [])
  unfolding convention_codes rank
  convention_known none h k = cc
  convention_known (some x) h k = (x, refl, ground arith)

  pnl_of-codes :
      (reasons : List ReasonCode) (a b c d : Option Text) (f : Finding)
      → pnl_of J reasons a b c d ≡ ok f
      → (reasons ≡ []) ⊎ (f.reason_codes ≡ reasons)
  unfolding pnl_of
  pnl_of-codes [] a b c d f h = inl refl
  pnl_of-codes (r ∷ rs) a b c d f h = inr (ground arith)

  pnl_of-excludes :
      (reasons : List ReasonCode) (a b c d : Option Text) (f : Finding) (w : ReasonCode)
      → pnl_of J reasons a b c d ≡ ok f
      → includes f.reason_codes w ≡ false
      → includes reasons w ≡ false
  pnl_of-excludes reasons a b c d f w h n = elim (pnl_of-codes reasons a b c d f h) [
    | inl e ↦ rw e refl
    | inr e ↦ rw (sym e) n
  ]

  pub compute_daily_pnl-IsDayWithin :
      (i : RiskInput) (f : Finding)
      → compute_daily_pnl J i ≡ ok f
      → includes f.reason_codes daily_loss ≡ false
      → includes f.reason_codes stale_or_missing_input ≡ false
      → includes f.reason_codes invalid_risk_input ≡ false
      → IsDayWithin i
  unfolding compute_daily_pnl pnl_of
  compute_daily_pnl-IsDayWithin i f h n s v =
      let stale =
        pnl_of-excludes _ i.realized_trading_pnl i.fees i.funding i.funding_convention f
          stale_or_missing_input h s in
      let invalid =
        pnl_of-excludes _ i.realized_trading_pnl i.fees i.funding i.funding_convention f
          invalid_risk_input h v in
      let (s1, t1) =
        excludes-append (realized_codes J i.realized_trading_pnl) _ stale_or_missing_input stale in
      let (s2, t2) =
        excludes-append (required_codes J fee_missing i.fees) _ stale_or_missing_input t1 in
      let (s3, s4) =
        excludes-append (required_codes J funding_missing i.funding) _ stale_or_missing_input t2 in
      let u1 =
        (excludes-append (realized_codes J i.realized_trading_pnl) _ invalid_risk_input
          invalid).1 in
      let u2 = (excludes-append (required_codes J fee_missing i.fees) _ invalid_risk_input u1).1 in
      let u3 =
        (excludes-append (required_codes J funding_missing i.funding) _ invalid_risk_input u2).1 in
      let (a, ea, na) = realized_known i.realized_trading_pnl s1 in
      let (b, eb, nb) = required_known fee_missing i.fees s2 in
      let (c, ec, nc) = required_known funding_missing i.funding s3 in
      let (d, ed, nd) = convention_known i.funding_convention s4 u3 in
      let run : (net_daily_pnl J a b c d >>= pnl_finding J) ≡ ok f =
        rw (na, nb, nc, nd, ea, eb, ec, ed) at h in
      let (net, e1, h1) = >>=-eq-ok (net_daily_pnl J a b c d) _ run in
      let (order, compared, above) = pnl_finding-above net f h1 n in
      record {
        realized = a;
        fees = b;
        funding = c;
        convention = d;
        realized_known = ea;
        fees_known = eb;
        funding_known = ec;
        convention_known = ed;
        net = net;
        net_is = e1;
        order = order;
        compared = compared;
        above = above;
      }

  -- The loss since the start is known and below the limit of 10 USDT.
  pub record IsStartWithin (i : RiskInput) : Type 0 where
    pub equity : Text
    pub starting : Text
    pub equity_known : i.equity ≡ some equity
    pub starting_known : i.starting_equity ≡ some starting
    pub drawdown : Text
    pub drawdown_is : exact_sub J starting equity ≡ ok drawdown
    pub order : Ordering
    pub compared : decimal_cmp J drawdown frozen_start_drawdown_usdt ≡ ok order
    pub below : is_lt order ≡ true

  drawdown_known :
      (i : RiskInput) (f : Finding) (equity starting : Option Text)
      → i.equity ≡ equity
      → i.starting_equity ≡ starting
      → drawdown_of J equity starting ≡ ok f
      → includes f.reason_codes start_drawdown ≡ false
      → includes f.reason_codes stale_or_missing_input ≡ false
      → IsStartWithin i
  unfolding drawdown_of rank
  drawdown_known i f none b e1 e2 h n s = absurd (ground arith)
  drawdown_known i f (some a) none e1 e2 h n s = absurd (ground arith)
  drawdown_known i f (some a) (some b) e1 e2 h n s =
      elim (Bool-cases
        (not (is_canonical_decimal_string J a) || not (is_canonical_decimal_string J b))) [
          | inl bad ↦ absurd (ground arith)
          | inr good ↦ elim (Outcome-cases (exact_sub J b a)) [
            | inl (x, e3) ↦ elim (Outcome-cases (decimal_cmp J x frozen_start_drawdown_usdt)) [
              | inl (c, e4) ↦ record {
                equity = a;
                starting = b;
                equity_known = e1;
                starting_known = e2;
                drawdown = x;
                drawdown_is = e3;
                order = c;
                compared = e4;
                below = ground arith;
              }
              | inr (r, e4) ↦ absurd (ground arith)
            ]
            | inr (r, e3) ↦ absurd (ground arith)
          ]
        ]

  pub compute_start_drawdown-IsStartWithin :
      (i : RiskInput) (f : Finding)
      → compute_start_drawdown J i ≡ ok f
      → includes f.reason_codes start_drawdown ≡ false
      → includes f.reason_codes stale_or_missing_input ≡ false
      → IsStartWithin i
  unfolding compute_start_drawdown
  compute_start_drawdown-IsStartWithin i f h n s =
      drawdown_known i f i.equity i.starting_equity refl refl h n s

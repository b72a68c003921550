-- ===== src/Risk/Limits.antt =====
-- The limits that an approved size keeps: the portfolio's, the symbol's and the cluster's.
use binance_futures_algo_bot.Common.{◌≡◌, true, false, Option, some, arith}
use binance_futures_algo_bot.Float.{Float, ◌⊕◌, ◌⊖◌, ◌≤?◌, ◌≼◌, dec, nought, round_to, fmin, fmax}
use binance_futures_algo_bot.Float.Order.{
  above_mono, IsFloat, fmin-le_left, fmin-le_right, le_of_minus_pos,
}
use binance_futures_algo_bot.Risk.Schemas.{ok, PortfolioState, RiskDecision, risk_decision_valid}
use binance_futures_algo_bot.Risk.Policy.{RiskPolicy}
use binance_futures_algo_bot.Risk.Evaluate.{
  Request, Assessment, portfolio_or_default, assess, available_portfolio, available_symbol,
  available_cluster, available_risk_pct, evaluate, guard_correlation,
}
use binance_futures_algo_bot.Risk.Approval.{decide-IsApproval, evaluate-eq-decide}

module _ {F : Type 0} ⦃f : Float F⦄ where
  -- a number of at most four decimals is its own rounding
  abbrev pub HasFourDecimals : F → Type 0
  HasFourDecimals x = round_to 4 x ≡ x

  -- `x` is a number of at most `limit`
  abbrev pub IsAtMost : F → Option F → Type 0
  IsAtMost limit o = (x : F) × (o ≡ some x) × (x ≼ limit)

  fmin-HasFourDecimals :
      (x y : F) → HasFourDecimals x → HasFourDecimals y → HasFourDecimals (fmin x y)
  unfolding fmin
  fmin-HasFourDecimals x y p q = ground arith

  assess-limits :
      (policy : RiskPolicy F) (r : Request F) (p : PortfolioState F)
      → let a = assess policy r p in
        let top = fmin policy.max_account_risk_pct p.max_portfolio_risk_pct in
        (a.max_portfolio ≡ top)
        × (a.max_symbol ≡ fmin top p.max_symbol_risk_pct)
        × (a.max_cluster ≡ fmin top p.max_cluster_risk_pct)
  unfolding assess guard_correlation
  assess-limits policy r p = ground arith

  module _ (laws : IsFloat F) where
    open laws use {le_refl, le_trans, le_total}

    fmax-pos :
        (x : F) → (fmax x nought ≤? nought) ≡ false → ((x ≤? nought) ≡ false) × (fmax x nought ≡ x)
    unfolding fmax
    fmax-pos x h = ground (arith, le_refl nought)

    -- a size within what is left under a limit ends within the limit
    after-le-limit :
        (before limit size : F)
        → nought ≼ before
        → limit ≼ dec 100 0
        → HasFourDecimals limit
        → (fmax (limit ⊖ before) nought ≤? nought) ≡ false
        → size ≼ fmax (limit ⊖ before) nought
        → round_to 4 (before ⊕ size) ≼ limit
    after-le-limit before limit size low high short room fits =
        let (left, same) = fmax-pos (limit ⊖ before) room in
        let below = le_of_minus_pos laws limit before left in
        let fits' : size ≼ limit ⊖ before = rw same at fits in
        let step =
          laws.round_mono 4 (before ⊕ size) (before ⊕ (limit ⊖ before))
            (laws.plus_mono before before size (limit ⊖ before) (le_refl before) fits') in
        rw (laws.round_cancel before limit low below high short) at step

    available-le :
        (a : Assessment F)
        → (available_risk_pct a ≼ available_portfolio a)
          × (available_risk_pct a ≼ available_symbol a)
          × (available_risk_pct a ≼ available_cluster a)
    unfolding available_risk_pct
    available-le a =
        let p = available_portfolio a in
        let s = available_symbol a in
        let c = available_cluster a in
        let first = fmin-le_left laws (fmin p s) c in
        (
          le_trans _ _ _ first (fmin-le_left laws p s),
          le_trans _ _ _ first (fmin-le_right laws p s),
          fmin-le_right laws (fmin p s) c,
        )

    -- `min` of the three rooms is positive only if each of them is
    room_of_available :
        (a : Assessment F)
        → (available_risk_pct a ≤? nought) ≡ false
        → ((available_portfolio a ≤? nought) ≡ false)
          × ((available_symbol a ≤? nought) ≡ false)
          × ((available_cluster a ≤? nought) ≡ false)
    room_of_available a h =
        let (p, s, c) = available-le a in
        (
          above_mono laws _ _ nought p h,
          above_mono laws _ _ nought s h,
          above_mono laws _ _ nought c h,
        )

    valid_before :
        (d : RiskDecision F) {x y z : F}
        → risk_decision_valid d ≡ true
        → d.portfolio_risk_pct_before ≡ some x
        → d.symbol_risk_pct_before ≡ some y
        → d.cluster_risk_pct_before ≡ some z
        → (nought ≼ x) × (nought ≼ y) × (nought ≼ z)
    unfolding risk_decision_valid
    valid_before d v p q r = ground arith

    -- The limits of an assessment can be met exactly.
    pub record HasLimits (a : Assessment F) : Type 0 where
      pub portfolio : a.max_portfolio ≼ dec 100 0
      pub symbol : a.max_symbol ≼ dec 100 0
      pub cluster : a.max_cluster ≼ dec 100 0
      pub portfolio_short : HasFourDecimals a.max_portfolio
      pub symbol_short : HasFourDecimals a.max_symbol
      pub cluster_short : HasFourDecimals a.max_cluster

    pub assess-HasLimits :
        (policy : RiskPolicy F) (r : Request F) (p : PortfolioState F)
        → policy.max_account_risk_pct ≼ dec 100 0
        → HasFourDecimals policy.max_account_risk_pct
        → HasFourDecimals p.max_portfolio_risk_pct
        → HasFourDecimals p.max_symbol_risk_pct
        → HasFourDecimals p.max_cluster_risk_pct
        → HasLimits (assess policy r p)
    assess-HasLimits policy r p small ha hp hs hc =
        let account = policy.max_account_risk_pct in
        let top = fmin account p.max_portfolio_risk_pct in
        let (ep, es, ec) = assess-limits policy r p in
        let top_le : top ≼ dec 100 0 =
          le_trans top account (dec 100 0) (fmin-le_left laws account p.max_portfolio_risk_pct)
            small in
        let top4 = fmin-HasFourDecimals account p.max_portfolio_risk_pct ha hp in
        let below : (x : F) → fmin top x ≼ dec 100 0 =
          λ x. le_trans (fmin top x) top (dec 100 0) (fmin-le_left laws top x) top_le in
        record {
          portfolio = rw ep top_le;
          symbol = rw es (below p.max_symbol_risk_pct);
          cluster = rw ec (below p.max_cluster_risk_pct);
          portfolio_short = rw ep top4;
          symbol_short = rw es (fmin-HasFourDecimals top p.max_symbol_risk_pct top4 hs);
          cluster_short = rw ec (fmin-HasFourDecimals top p.max_cluster_risk_pct top4 hc);
        }

    -- A size within all three rooms ends within all three limits.
    pub afters-le :
        (a : Assessment F) (size : F)
        → HasLimits a
        → (nought ≼ a.portfolio_before) × (nought ≼ a.symbol_before) × (nought ≼ a.cluster_before)
        → (available_risk_pct a ≤? nought) ≡ false
        → size ≼ available_risk_pct a
        → (round_to 4 (a.portfolio_before ⊕ size) ≼ a.max_portfolio)
          × (round_to 4 (a.symbol_before ⊕ size) ≼ a.max_symbol)
          × (round_to 4 (a.cluster_before ⊕ size) ≼ a.max_cluster)
    unfolding available_portfolio available_symbol available_cluster
    afters-le a size l (bp, bs, bc) room fits =
        let (rp, rs, rc) = room_of_available a room in
        let (lp, ls, lc) = available-le a in
        (
          after-le-limit a.portfolio_before a.max_portfolio size bp l.portfolio l.portfolio_short rp
              (le_trans _ _ _ fits lp),
          after-le-limit a.symbol_before a.max_symbol size bs l.symbol l.symbol_short rs
              (le_trans _ _ _ fits ls),
          after-le-limit a.cluster_before a.max_cluster size bc l.cluster l.cluster_short rc
              (le_trans _ _ _ fits lc),
        )

    -- An approved size leaves the risk of the whole portfolio within both the
    -- account's and the portfolio's limit, the symbol's within its limit and the cluster's within its
    -- limit, where the account's limit is at most 100 and the limits have at most four decimals.
    pub approved_within_limits :
        (policy : RiskPolicy F) (r : Request F) (p : PortfolioState F) (d : RiskDecision F)
        → policy.max_account_risk_pct ≼ dec 100 0
        → HasFourDecimals policy.max_account_risk_pct
        → HasFourDecimals p.max_portfolio_risk_pct
        → HasFourDecimals p.max_symbol_risk_pct
        → HasFourDecimals p.max_cluster_risk_pct
        → portfolio_or_default policy r.portfolio_state ≡ ok p
        → evaluate policy r ≡ ok d
        → d.approved ≡ true
        → let top = fmin policy.max_account_risk_pct p.max_portfolio_risk_pct in
          IsAtMost top d.portfolio_risk_pct_after
          × IsAtMost (fmin top p.max_symbol_risk_pct) d.symbol_risk_pct_after
          × IsAtMost (fmin top p.max_cluster_risk_pct) d.cluster_risk_pct_after
    approved_within_limits policy r p d small ha hp hs hc given h approved =
        let a = assess policy r p in
        let (ep, es, ec) = assess-limits policy r p in
        let made = decide-IsApproval r a (rw (evaluate-eq-decide policy r given) at h) approved in
        let size = fmin a.suggested (available_risk_pct a) in
        let before =
          valid_before d made.valid made.portfolio_before made.symbol_before made.cluster_before in
        let (np, ns, nc) =
          afters-le a size (assess-HasLimits policy r p small ha hp hs hc) before made.room
            (fmin-le_right laws a.suggested (available_risk_pct a)) in
        rw (← es, ← ec, ← ep)
          ((_, made.portfolio_after, np), (_, made.symbol_after, ns), (_, made.cluster_after, nc))

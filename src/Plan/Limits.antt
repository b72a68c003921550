-- ===== src/Plan/Limits.antt =====
-- The limits of risk that an approved plan in the database keeps.
use binance_futures_algo_bot.Gate.Outcome.{passed_iff, IsClear}
use binance_futures_algo_bot.Risk.Evaluate.{evaluate, portfolio_or_default}
use binance_futures_algo_bot.Common.Texts.{codes}
use binance_futures_algo_bot.Gate.{FinalGateDecision}
use binance_futures_algo_bot.Common.{◌∙◌, sym, length, arith, true, ◌≡◌}
use binance_futures_algo_bot.Float.{fmin, dec, ◌≼◌, Float}
use binance_futures_algo_bot.Float.Order.{IsFloat}
use binance_futures_algo_bot.Risk.Schemas.{ok, PortfolioState, RiskDecision}
use binance_futures_algo_bot.Risk.Limits.{IsAtMost, HasFourDecimals, approved_within_limits}
use binance_futures_algo_bot.Db.{returned, TradePlan, Session, IsNumbered}
use binance_futures_algo_bot.Plan.Stored.{create-IsStored}
use binance_futures_algo_bot.Plan.Judged.{blocked, approved, IsJudged}
use binance_futures_algo_bot.Plan.{
  TradePlanCreateResponse, TradePlanCreateRequest, TradePlanService, Outside, engine_request,
  create_trade_plan,
}

module _ {F : Type 0} ⦃f : Float F⦄ where
  IsJudged-approved :
      (e : RiskDecision F) (g : FinalGateDecision F) (plan : TradePlan F)
      → IsJudged e g plan
      → plan.status ≡ codes "approved"
      → (e.approved ≡ true) × (g.passed ≡ true) × (plan.applied_risk_pct ≡ e.suggested_risk_pct)
  IsJudged-approved e g plan (approved a b _ d _) h = (a, b, d)
  IsJudged-approved e g plan (blocked a b _ _) h = ground arith

  -- If a call returns the status `approved`, on a session whose plans are numbered, then the market and
  -- the decision meet every threshold of the final gate, and the risk of the portfolio, of the symbol and of
  -- the cluster, with the new plan's, is at most the limit of each, where the account's limit is at most
  -- 100 and the limits have four decimals at most.
  pub approved_plan_within_limits :
      (laws : IsFloat F) (out : Outside F) (service : TradePlanService F)
      (payload : TradePlanCreateRequest F) (s s' : Session F) (r : TradePlanCreateResponse F)
      (p : PortfolioState F)
      → IsNumbered (length s.live.plans) s.live.plans
      → service.risk_engine.max_account_risk_pct ≼ dec 100 0
      → HasFourDecimals service.risk_engine.max_account_risk_pct
      → HasFourDecimals p.max_portfolio_risk_pct
      → HasFourDecimals p.max_symbol_risk_pct
      → HasFourDecimals p.max_cluster_risk_pct
      → portfolio_or_default service.risk_engine payload.portfolio_state ≡ ok p
      → create_trade_plan out service payload s ≡ (returned r, s')
      → r.status ≡ codes "approved"
      → (e : RiskDecision F) × (evaluate service.risk_engine (engine_request payload) ≡ ok e)
        × (r.applied_risk_pct ≡ e.suggested_risk_pct)
        × IsClear service.final_gate e payload.market_state
        × (let top = fmin service.risk_engine.max_account_risk_pct p.max_portfolio_risk_pct in
            IsAtMost top e.portfolio_risk_pct_after
            × IsAtMost (fmin top p.max_symbol_risk_pct) e.symbol_risk_pct_after
            × IsAtMost (fmin top p.max_cluster_risk_pct) e.cluster_risk_pct_after)
  unfolding engine_request
  approved_plan_within_limits laws out service payload s s' r p numbered a b c d k given h ended =
      let (e, judged, stored) = create-IsStored out service payload s s' r numbered h in
      let plan = stored.plan in
      let (agreed, passed, applied) =
        IsJudged-approved e _ plan stored.judged (sym stored.reported.status ∙ ended) in
      let limits =
        approved_within_limits laws service.risk_engine (engine_request payload) p e a b c d k given
          judged agreed in
      (
        e,
        judged,
        stored.reported.risk ∙ applied,
        (passed_iff service.final_gate e payload.market_state).0 passed,
        limits,
      )

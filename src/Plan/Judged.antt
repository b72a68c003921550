-- ===== src/Plan/Judged.antt =====
-- How a plan is judged, by the engine and by the gate (`create_trade_plan` of
-- apps/api/app/services/trade_plan_service.py).
use binance_futures_algo_bot.Gate.{FinalGateDecision}
use binance_futures_algo_bot.Common.{
  refl, inr, and-true, inl, false, Bool-cases, ◌&&◌, true, ℕ, ◌≡◌,
}
use binance_futures_algo_bot.Common.Texts.{Text, codes}
use binance_futures_algo_bot.Float.{Float, nought}
use binance_futures_algo_bot.Risk.Schemas.{RiskDecision}
use binance_futures_algo_bot.Db.{TradePlan}
use binance_futures_algo_bot.Plan.{
  TradePlanCreateRequest, effective_decision, with_url, new_trade_plan,
}

module _ {F : Type 0} ⦃f : Float F⦄ where
  -- The plan carries what the engine decided `e`, if the engine and the gate `g` approve, and is
  -- blocked with no risk otherwise.
  pub data IsJudged (e : RiskDecision F) (g : FinalGateDecision F) (plan : TradePlan F)
      : Type 0 where
    approved :
        e.approved ≡ true
        → g.passed ≡ true
        → plan.status ≡ codes "approved"
        → plan.applied_risk_pct ≡ e.suggested_risk_pct
        → plan.max_position_notional ≡ e.max_position_notional
        → IsJudged e g plan
    blocked :
        (e.approved && g.passed) ≡ false
        → plan.status ≡ codes "blocked"
        → plan.applied_risk_pct ≡ nought
        → plan.max_position_notional ≡ nought
        → IsJudged e g plan

  pub new_trade_plan-IsJudged :
      (now id : ℕ) (payload : TradePlanCreateRequest F) (e : RiskDecision F)
      (g : FinalGateDecision F)
      → IsJudged e g (new_trade_plan now payload (effective_decision e g) id)
  unfolding new_trade_plan effective_decision
  new_trade_plan-IsJudged now id payload e g = elim (Bool-cases (e.approved && g.passed)) [
    | inl h ↦
        approved (and-true e.approved g.passed h).0 (and-true e.approved g.passed h).1 (rw h refl)
          (rw h refl) (rw h refl)
    | inr h ↦ blocked h (rw h refl) (rw h refl) (rw h refl)
  ]

  pub with_url-IsJudged :
      (e : RiskDecision F) (g : FinalGateDecision F) (plan : TradePlan F) (url : Text)
      → IsJudged e g plan
      → IsJudged e g (with_url url plan)
  unfolding with_url
  with_url-IsJudged e g plan url (approved a b c d h) = approved a b c d h
  with_url-IsJudged e g plan url (blocked a b c d) = blocked a b c d

-- ===== src/Gate/Outcome.antt =====
-- When the final gate passes a decision, and what it returns when it does not.
use binance_futures_algo_bot.Risk.Schemas.{RiskEventDetail, MarketState, RiskDecision}
use binance_futures_algo_bot.Gate.{
  portfolio_breakers, confidence_breakers, conclude, breakers, FinalGatePolicy, final_score,
  evaluate_gate, FinalDecisionGate,
}
use binance_futures_algo_bot.Float.{◌≤?◌, ◌<?◌, ◌≼◌, Float}
use binance_futures_algo_bot.Common.{
  refl, not, false, ◌∷◌, none, if◌then◌else◌, Option, append-eq-nil, String, List, [], Bool, some,
  ◌≡◌, ◌↔◌, true, arith,
}

module _ {F : Type 0} ⦃f : Float F⦄ where
  -- The decision and the market meet every threshold of the policy.
  pub record IsClear (gate : FinalDecisionGate F) (d : RiskDecision F) (m : MarketState F)
      : Type 0 where
    pub approved : d.approved ≡ true
    pub calm : (m.volatility_pct <? gate.policy.extreme_volatility_pct) ≡ true
    pub liquid : (gate.policy.min_liquidity_score <? m.liquidity_score) ≡ true
    pub cool :
        (x : F) × (d.portfolio_risk_pct_after ≡ some x)
        × ((x <? gate.policy.max_portfolio_risk_pct) ≡ true)
    pub confident :
        (x : F) × (d.regime_confidence ≡ some x) × ((gate.policy.min_regime_confidence <? x) ≡ true)
    pub scored : gate.policy.min_final_score ≼ final_score gate d m

  conclude-passed :
      (policy : FinalGatePolicy F) (approved : Bool) (score : F)
      (tripped : List (String × RiskEventDetail F))
      → ((conclude policy approved score tripped).passed ≡ true)
        ↔ ((approved ≡ true) × (tripped ≡ []) × (policy.min_final_score ≼ score))
  unfolding conclude
  conclude-passed policy false score tripped = ground arith
  conclude-passed policy true score [] = ground arith
  conclude-passed policy true score (b ∷ bs) = ground arith

  -- No breaker trips.
  abbrev IsCalm : FinalGatePolicy F → RiskDecision F → MarketState F → Type 0
  IsCalm policy d m =
      ((m.volatility_pct <? policy.extreme_volatility_pct) ≡ true)
      × ((policy.min_liquidity_score <? m.liquidity_score) ≡ true)
      × ((x : F) × (d.portfolio_risk_pct_after ≡ some x)
          × ((x <? policy.max_portfolio_risk_pct) ≡ true))
      × ((x : F) × (d.regime_confidence ≡ some x) × ((policy.min_regime_confidence <? x) ≡ true))

  tripped_if-nil :
      (hit : Bool) (b : String × RiskEventDetail F)
      → (if hit then b ∷ [] else []) ≡ []
      → not hit ≡ true
  tripped_if-nil true b h = ground arith
  tripped_if-nil false b h = refl

  portfolio_breakers-nil :
      (threshold : F) (after : Option F)
      → portfolio_breakers threshold after ≡ []
      → (x : F) × (after ≡ some x) × ((x <? threshold) ≡ true)
  unfolding portfolio_breakers
  portfolio_breakers-nil threshold none h = ground arith
  portfolio_breakers-nil threshold (some x) h = (x, refl, ground arith)

  confidence_breakers-nil :
      (threshold : F) (confidence : Option F)
      → confidence_breakers threshold confidence ≡ []
      → (x : F) × (confidence ≡ some x) × ((threshold <? x) ≡ true)
  unfolding confidence_breakers
  confidence_breakers-nil threshold none h = ground arith
  confidence_breakers-nil threshold (some x) h = (x, refl, ground arith)

  breakers-IsCalm :
      (policy : FinalGatePolicy F) (d : RiskDecision F) (m : MarketState F)
      → breakers policy d m ≡ []
      → IsCalm policy d m
  unfolding breakers
  breakers-IsCalm policy d m h =
      let (volatility, h1) = append-eq-nil _ _ h in
      let (liquidity, h2) = append-eq-nil _ _ h1 in
      let (portfolio, confidence) = append-eq-nil _ _ h2 in
      (
        tripped_if-nil (policy.extreme_volatility_pct ≤? m.volatility_pct) _ volatility,
        tripped_if-nil (m.liquidity_score ≤? policy.min_liquidity_score) _ liquidity,
        portfolio_breakers-nil policy.max_portfolio_risk_pct d.portfolio_risk_pct_after portfolio,
        confidence_breakers-nil policy.min_regime_confidence d.regime_confidence confidence,
      )

  IsCalm-breakers :
      (policy : FinalGatePolicy F) (d : RiskDecision F) (m : MarketState F)
      → IsCalm policy d m
      → breakers policy d m ≡ []
  unfolding breakers
  IsCalm-breakers policy d m (v, l, (x, px, hx), (y, py, hy)) = ground arith

  -- The gate passes exactly when the engine has approved, no breaker trips (volatility below and
  -- liquidity above its threshold, a known portfolio risk below and a known confidence above its
  -- threshold) and the final score reaches the minimum.
  pub passed_iff :
      (gate : FinalDecisionGate F) (d : RiskDecision F) (m : MarketState F)
      → ((evaluate_gate gate d m).passed ≡ true) ↔ IsClear gate d m
  unfolding evaluate_gate
  passed_iff gate d m =
      let rule =
        conclude-passed gate.policy d.approved (final_score gate d m) (breakers gate.policy d m) in
      (
        λ h.
            let (approved, none_tripped, scored) = rule.0 h in
            let (calm, liquid, cool, confident) = breakers-IsCalm gate.policy d m none_tripped in
            record {
              approved = approved;
              calm = calm;
              liquid = liquid;
              cool = cool;
              confident = confident;
              scored = scored;
            },
        λ c. rule.1 (
          c.approved,
          IsCalm-breakers gate.policy d m (c.calm, c.liquid, c.cool, c.confident),
          c.scored,
        ),
      )

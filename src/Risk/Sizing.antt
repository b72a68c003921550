-- ===== src/Risk/Sizing.antt =====
-- The score of `RiskEngine` and the size that it suggests, before the portfolio's limits.
use binance_futures_algo_bot.Common.{◌||◌, if◌then◌else◌}
use binance_futures_algo_bot.Float.{
  Float, ◌⊕◌, ◌⊖◌, ◌⊗◌, ◌≤?◌, ◌<?◌, dec, nought, round_to, fmin, fmax,
}
use binance_futures_algo_bot.Risk.Schemas.{
  SignalSnapshot, MarketState, Regime, tendencia_alcista, tendencia_bajista, rango_lateral,
  transicion, alta_volatilidad, unknown,
}
use binance_futures_algo_bot.Risk.Policy.{RiskPolicy}
use binance_futures_algo_bot.Risk.Regime.{clamp_pct}

module _ {F : Type 0} ⦃f : Float F⦄ where
  abbrev pub liquidity_weight : F
  liquidity_weight = dec 5 2

  unfoldable pub aggregate_score : SignalSnapshot F → MarketState F → F
  aggregate_score s m = round_to 2 (
      s.technical ⊗ dec 40 2
      ⊕ s.fundamental ⊗ dec 20 2
      ⊕ s.sentiment ⊗ dec 20 2
      ⊕ s.confidence ⊗ dec 15 2
      ⊕ m.liquidity_score ⊗ liquidity_weight)

  unfoldable pub score_multiplier : F → F → F
  score_multiplier score min_score =
      if score <? min_score
      then nought
      else if min_score ⊕ dec 25 0 ≤? score
      then dec 115 2
      else if min_score ⊕ dec 15 0 ≤? score
      then dec 10 1
      else if min_score ⊕ dec 5 0 ≤? score
      then dec 8 1
      else dec 65 2

  unfoldable pub regime_multiplier : Regime → F → F
  regime_multiplier unknown confidence = nought
  regime_multiplier alta_volatilidad confidence =
      if dec 70 0 ≤? confidence
      then dec 45 2
      else if dec 50 0 ≤? confidence
      then dec 6 1
      else dec 75 2
  regime_multiplier transicion confidence = if dec 70 0 ≤? confidence then dec 75 2 else dec 85 2
  regime_multiplier rango_lateral confidence = dec 8 1
  regime_multiplier tendencia_alcista confidence =
      if dec 75 0 ≤? confidence
      then dec 105 2
      else if confidence <? dec 45 0
      then dec 95 2
      else dec 10 1
  regime_multiplier tendencia_bajista confidence =
      if dec 75 0 ≤? confidence
      then dec 105 2
      else if confidence <? dec 45 0
      then dec 95 2
      else dec 10 1

  unfoldable pub volatility_multiplier : RiskPolicy F → F → F
  volatility_multiplier policy volatility =
      let high = policy.high_volatility_threshold_pct in
      let severe = high ⊕ dec 10 1 in
      let elevated = fmax (dec 20 1) (high ⊖ dec 10 1) in
      let mild = fmax (dec 5 1) (fmin (dec 20 1) (elevated ⊖ dec 5 1)) in
      if severe ≤? volatility
      then dec 45 2
      else if high ≤? volatility
      then dec 6 1
      else if elevated ≤? volatility
      then dec 75 2
      else if mild ≤? volatility
      then dec 9 1
      else dec 10 1

  -- the guardrail: an observed high volatility caps what a regime may allow
  unfoldable pub guarded_regime_multiplier : RiskPolicy F → Regime → F → F → F
  guarded_regime_multiplier policy regime confidence volatility =
      let own = regime_multiplier regime confidence in
      let cap = regime_multiplier alta_volatilidad (clamp_pct (volatility ⊗ dec 180 1)) in
      if policy.high_volatility_threshold_pct ≤? volatility then fmin own cap else own

  unfoldable pub suggest_risk_pct : RiskPolicy F → F → Regime → F → F → F
  suggest_risk_pct policy score regime confidence volatility =
      let score_mult = score_multiplier score policy.min_score_to_trade in
      let vol_mult = volatility_multiplier policy volatility in
      let regime_mult = guarded_regime_multiplier policy regime confidence volatility in
      let suggested = policy.base_risk_per_trade_pct ⊗ score_mult ⊗ regime_mult ⊗ vol_mult in
      if (score_mult ≤? nought) || (regime_mult ≤? nought)
      then nought
      else round_to 4 (fmin suggested policy.max_single_trade_pct)

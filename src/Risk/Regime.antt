-- ===== src/Risk/Regime.antt =====
-- The regime of the market in `RiskEngine`: the name that the caller gives, or the engine's own
-- classification, and how sure of it the engine is.
use binance_futures_algo_bot.Common.{Option, none, some, if◌then◌else◌}
use binance_futures_algo_bot.Common.Texts.{Text, codes, text_eq, lower, strip}
use binance_futures_algo_bot.Float.{
  Float, ◌⊕◌, ◌⊖◌, ◌⊗◌, ◌≤?◌, dec, nought, round_to, fmin, fmax, fabs,
}
use binance_futures_algo_bot.Risk.Schemas.{
  MarketState, Regime, tendencia_alcista, tendencia_bajista, rango_lateral, transicion,
  alta_volatilidad, unknown,
}
use binance_futures_algo_bot.Risk.Policy.{RiskPolicy}

-- `aliases.get(normalized, normalized)`
regime_alias : Text → Text
regime_alias name =
    if text_eq name (codes "tendencia")
    then codes "tendencia_alcista"
    else if text_eq name (codes "tendencia_fuerte")
    then codes "tendencia_alcista"
    else if text_eq name (codes "rango")
    then codes "rango_lateral"
    else name

-- `normalized in allowed`
allowed_regime : Text → Option Regime
allowed_regime name =
    if text_eq name (codes "tendencia_alcista")
    then some tendencia_alcista
    else if text_eq name (codes "tendencia_bajista")
    then some tendencia_bajista
    else if text_eq name (codes "rango_lateral")
    then some rango_lateral
    else if text_eq name (codes "transicion")
    then some transicion
    else if text_eq name (codes "alta_volatilidad")
    then some alta_volatilidad
    else if text_eq name (codes "unknown")
    then some unknown
    else none

unfoldable pub normalize_regime_alias : Option Text → Option Regime
unfolding regime_alias allowed_regime
normalize_regime_alias none = none
normalize_regime_alias (some raw) = allowed_regime (regime_alias (lower (strip raw)))

abbrev or_classified : Option Regime → Regime → Regime
or_classified (some provided) _ = provided
or_classified none own = own

module _ {F : Type 0} ⦃f : Float F⦄ where
  unfoldable pub classify_market_regime : RiskPolicy F → MarketState F → Regime
  classify_market_regime policy m =
      if policy.high_volatility_threshold_pct ≤? m.volatility_pct
      then alta_volatilidad
      else if dec 70 0 ≤? m.trend_strength
      then tendencia_alcista
      else if m.trend_strength ≤? dec 35 0
      then rango_lateral
      else transicion

  unfoldable pub resolve_market_regime : RiskPolicy F → MarketState F → Regime
  unfolding classify_market_regime
  resolve_market_regime policy m =
      or_classified (normalize_regime_alias m.market_regime) (classify_market_regime policy m)

  -- `max(0.0, min(100.0, x))`
  unfoldable pub clamp_pct : F → F
  clamp_pct x = fmax nought (fmin (dec 1000 1) x)

  -- the confidence that each regime derives from the market's numbers
  unfoldable pub derived_confidence : MarketState F → Regime → F
  derived_confidence m regime =
      let volatility_score = clamp_pct (m.volatility_pct ⊗ dec 180 1) in
      let inverse_volatility = dec 1000 1 ⊖ volatility_score in
      let trend =
        round_to 4 (clamp_pct (m.trend_strength ⊗ dec 6 1 ⊕ inverse_volatility ⊗ dec 4 1)) in
      let range =
        round_to 4
          (clamp_pct ((dec 1000 1 ⊖ m.trend_strength) ⊗ dec 6 1 ⊕ inverse_volatility ⊗ dec 4 1)) in
      let ambiguity = dec 1000 1 ⊖ fabs (m.trend_strength ⊖ dec 500 1) ⊗ dec 20 1 in
      let transition =
        round_to 4 (clamp_pct (ambiguity ⊗ dec 55 2 ⊕ inverse_volatility ⊗ dec 45 2)) in
      elim regime [
        | alta_volatilidad ↦ round_to 4 volatility_score
        | tendencia_alcista ↦ trend
        | tendencia_bajista ↦ trend
        | rango_lateral ↦ range
        | transicion ↦ transition
        | unknown ↦ nought
      ]

  abbrev or_derived : Option F → F → F
  or_derived (some given) _ = clamp_pct given
  or_derived none own = own

  unfoldable pub estimate_regime_confidence : MarketState F → Regime → F
  unfolding derived_confidence clamp_pct
  estimate_regime_confidence m regime = or_derived m.regime_confidence (derived_confidence m regime)

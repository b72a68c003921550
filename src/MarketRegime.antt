-- ===== src/MarketRegime.antt =====
-- The regime of a market from its signals (apps/api/app/services/market_regime_service.py and
-- apps/api/app/schemas/market_regime.py).
pub mod Supported
mod Tests
use binance_futures_algo_bot.Common.{
  ◌&&◌, ◌||◌, if◌then◌else◌, ℕ, Bool, true, false, List, Option, none, some,
}
use binance_futures_algo_bot.Common.Texts.{Text}
use binance_futures_algo_bot.Float.{Float, ◌≤?◌, ◌⊕◌, ◌⊖◌, ◌⊗◌, dec, nought, round_to, fabs}
use binance_futures_algo_bot.Risk.Regime.{clamp_pct}
use binance_futures_algo_bot.Risk.Schemas.{
  Regime, tendencia_alcista, tendencia_bajista, rango_lateral, transicion, alta_volatilidad, Result,
  ok, err, validation_error,
}
use binance_futures_algo_bot.Signals.{
  Bias, bullish, bearish, neutral, VolatilityRegime, high, medium, low, IndicatorSnapshot,
  SignalSnapshot, MarketCandle, indicator_snapshot, signal_snapshot, percent_of,
}

pub record MarketRegimeSnapshot (F : Type 0) : Type 0 where
  pub symbol : Text
  pub timeframe : Text
  pub last_candle_close_ms : Option ℕ
  pub regime : Regime
  pub trend_bias : Bias
  pub momentum_bias : Bias
  pub volatility_regime : VolatilityRegime
  pub trend_strength : F
  pub volatility_score : F
  pub momentum_score : F
  pub regime_confidence : F
  pub ema_spread_pct : Option F
  pub atr_pct : Option F
  pub rsi_14 : Option F
  pub momentum_10 : Option F

-- equality of two biases, and the two tests on a volatility
unfoldable pub bias_eq : Bias → Bias → Bool
bias_eq bullish bullish = true
bias_eq bearish bearish = true
bias_eq neutral neutral = true
bias_eq Bias.unknown Bias.unknown = true
bias_eq a b = false

unfoldable pub is_high : VolatilityRegime → Bool
is_high high = true
is_high v = false

unfoldable pub is_missing : VolatilityRegime → Bool
is_missing VolatilityRegime.unknown = true
is_missing v = false

-- `given or own`
abbrev given_or : {A : Type 0} → Option A → A → A
given_or (some given) own = given
given_or none own = own

module _ {F : Type 0} ⦃f : Float F⦄ where
  -- `_trend_strength`
  unfoldable pub trend_strength : Option F → F
  trend_strength none = dec 500 1
  trend_strength (some ema_spread_pct) = clamp_pct (fabs ema_spread_pct ⊗ dec 400 1)

  -- `_volatility_score`
  unfoldable pub volatility_score : Option F → F
  volatility_score none = dec 500 1
  volatility_score (some atr_pct) = clamp_pct (atr_pct ⊗ dec 180 1)

  -- the two components of `_momentum_score`
  unfoldable pub rsi_component : Option F → F
  rsi_component none = dec 500 1
  rsi_component (some rsi_14) = clamp_pct (dec 500 1 ⊕ (rsi_14 ⊖ dec 500 1) ⊗ dec 14 1)

  unfoldable pub momentum_component : Option F → F
  momentum_component none = dec 500 1
  momentum_component (some momentum_10_pct) = clamp_pct (dec 500 1 ⊕ momentum_10_pct ⊗ dec 120 1)

  unfoldable pub mixed_score : Option F → Option F → F
  mixed_score rsi_14 momentum_10_pct =
      round_to 4 (rsi_component rsi_14 ⊗ dec 65 2 ⊕ momentum_component momentum_10_pct ⊗ dec 35 2)

  -- `_momentum_score`
  unfoldable pub momentum_score : Option F → Option F → F
  momentum_score none none = dec 500 1
  momentum_score (some rsi_14) momentum_10_pct = mixed_score (some rsi_14) momentum_10_pct
  momentum_score none (some momentum_10_pct) = mixed_score none (some momentum_10_pct)

  -- `_classify_regime`
  unfoldable pub classify_regime : Bias → Bias → VolatilityRegime → F → F → Regime
  classify_regime trend_bias momentum_bias volatility_regime trend_strength momentum_score =
      if is_high volatility_regime
      then alta_volatilidad
      else if bias_eq trend_bias Bias.unknown
          || (bias_eq momentum_bias Bias.unknown || is_missing volatility_regime)
      then Regime.unknown
      else if bias_eq trend_bias bullish
          && (bias_eq momentum_bias bullish
              && ((dec 580 1 ≤? trend_strength) && (dec 580 1 ≤? momentum_score)))
      then tendencia_alcista
      else if bias_eq trend_bias bearish
          && (bias_eq momentum_bias bearish
              && ((dec 580 1 ≤? trend_strength) && (momentum_score ≤? dec 420 1)))
      then tendencia_bajista
      else if trend_strength ≤? dec 350 1
      then rango_lateral
      else transicion

  -- how near the momentum is to 50
  unfoldable pub momentum_neutrality : F → F
  momentum_neutrality momentum_score =
      clamp_pct (dec 1000 1 ⊖ fabs (momentum_score ⊖ dec 500 1) ⊗ dec 20 1)

  -- `_regime_confidence`
  unfoldable pub regime_confidence : Regime → F → F → F → F
  regime_confidence Regime.unknown trend_strength volatility_score momentum_score = nought
  regime_confidence alta_volatilidad trend_strength volatility_score momentum_score =
      round_to 4 (clamp_pct volatility_score)
  regime_confidence tendencia_alcista trend_strength volatility_score momentum_score = round_to 4 (
      clamp_pct (
        trend_strength ⊗ dec 45 2
        ⊕ momentum_score ⊗ dec 35 2
        ⊕ (dec 1000 1 ⊖ volatility_score) ⊗ dec 2 1))
  regime_confidence tendencia_bajista trend_strength volatility_score momentum_score = round_to 4 (
      clamp_pct (
        trend_strength ⊗ dec 45 2
        ⊕ (dec 1000 1 ⊖ momentum_score) ⊗ dec 35 2
        ⊕ (dec 1000 1 ⊖ volatility_score) ⊗ dec 2 1))
  regime_confidence rango_lateral trend_strength volatility_score momentum_score = round_to 4 (
      clamp_pct (
        (dec 1000 1 ⊖ trend_strength) ⊗ dec 4 1
        ⊕ (dec 1000 1 ⊖ volatility_score) ⊗ dec 4 1
        ⊕ momentum_neutrality momentum_score ⊗ dec 2 1))
  regime_confidence transicion trend_strength volatility_score momentum_score = round_to 4 (
      clamp_pct (
        (dec 1000 1 ⊖ trend_strength) ⊗ dec 35 2
        ⊕ momentum_neutrality momentum_score ⊗ dec 3 1
        ⊕ (dec 1000 1 ⊖ volatility_score) ⊗ dec 35 2))

  -- `Field(ge=0, le=100)`
  abbrev pub in_percent : F → Bool
  in_percent x = (nought ≤? x) && (x ≤? dec 100 0)

  -- `MarketRegimeSnapshot(...)`, which pydantic refuses where a score is out of its bounds
  unfoldable pub new_snapshot : MarketRegimeSnapshot F → Result (MarketRegimeSnapshot F)
  new_snapshot s =
      if in_percent s.trend_strength
        && (in_percent s.volatility_score
            && (in_percent s.momentum_score && in_percent s.regime_confidence))
      then ok s
      else err validation_error

  -- the snapshot of the regime from that of the indicators and that of the signals
  unfoldable pub regime_of :
      Text → Text → IndicatorSnapshot F → SignalSnapshot F → MarketRegimeSnapshot F
  unfolding trend_strength volatility_score momentum_score classify_regime regime_confidence
  regime_of symbol timeframe i s =
      let strength = trend_strength s.ema_spread_pct in
      let volatility = volatility_score s.atr_pct in
      let momentum = momentum_score s.rsi_14 (percent_of s.momentum_10 i.ema_21) in
      let regime =
        classify_regime s.trend_bias s.momentum_bias s.volatility_regime strength momentum in
      record {
        symbol = symbol;
        timeframe = timeframe;
        last_candle_close_ms = s.last_candle_close_ms;
        regime = regime;
        trend_bias = s.trend_bias;
        momentum_bias = s.momentum_bias;
        volatility_regime = s.volatility_regime;
        trend_strength = round_to 4 strength;
        volatility_score = round_to 4 volatility;
        momentum_score = round_to 4 momentum;
        regime_confidence = regime_confidence regime strength volatility momentum;
        ema_spread_pct = s.ema_spread_pct;
        atr_pct = s.atr_pct;
        rsi_14 = s.rsi_14;
        momentum_10 = s.momentum_10;
      }

  -- `MarketRegimeService.snapshot`, with the candles that `_load_rows` reads where a snapshot that
  -- it needs is not given
  unfoldable pub market_regime_snapshot :
      Text
      → Text
      → List (MarketCandle F)
      → Option (IndicatorSnapshot F)
      → Option (SignalSnapshot F)
      → Result (MarketRegimeSnapshot F)
  unfolding new_snapshot regime_of indicator_snapshot signal_snapshot
  market_regime_snapshot symbol timeframe rows given_indicators given_signals =
      let indicators = given_or given_indicators (indicator_snapshot symbol timeframe rows) in
      let signals = given_or given_signals (signal_snapshot symbol timeframe indicators) in
      new_snapshot (regime_of symbol timeframe indicators signals)

-- ===== src/MarketRegime/Tests.antt =====
-- Runs of the regime's snapshot on decimals, and its theorem at one of them.
use binance_futures_algo_bot.Float.{fmin, fmax}
use binance_futures_algo_bot.Risk.Regime.{clamp_pct}
use binance_futures_algo_bot.Common.{[], ◌≡◌, refl, some}
use binance_futures_algo_bot.Common.Texts.{codes}
use binance_futures_algo_bot.Float.Fixed.{Fixed, fixed_float, Fixed-IsFloat}
use binance_futures_algo_bot.Risk.Tests.{d}
use binance_futures_algo_bot.Risk.Schemas.{ok}
use binance_futures_algo_bot.Signals.{SignalSnapshot, IndicatorSnapshot, bullish, medium}
use binance_futures_algo_bot.MarketRegime.{
  momentum_component, rsi_component, mixed_score, MarketRegimeSnapshot, market_regime_snapshot,
  momentum_score,
}
use binance_futures_algo_bot.MarketRegime.Supported.{
  market_regime_snapshot-IsSupported, IsSupported,
}

abbrev indicators : IndicatorSnapshot Fixed
indicators = record {
  symbol = codes "BTCUSDT";
  timeframe = codes "15m";
  candles_used = 200;
  last_candle_close_ms = some 900_000;
  ema_9 = some (d 102 0);
  ema_21 = some (d 100 0);
  rsi_14 = some (d 60 0);
  atr_14 = some (d 2 0);
  momentum_10 = some (d 1 0);
}

abbrev signals : SignalSnapshot Fixed
signals = record {
  symbol = codes "BTCUSDT";
  timeframe = codes "15m";
  last_candle_close_ms = some 900_000;
  trend_bias = bullish;
  momentum_bias = bullish;
  volatility_regime = medium;
  ema_spread_pct = some (d 2 0);
  atr_pct = some (d 2 0);
  rsi_14 = some (d 60 0);
  momentum_10 = some (d 1 0);
}

-- 64 for the index and 62 for the momentum
momentum_score_run : momentum_score (some (d 60 0)) (some (d 1 0)) ≡ d 633 1
unfolding momentum_score fixed_float mixed_score rsi_component momentum_component clamp_pct fmax
    fmin
momentum_score_run = refl

market_regime_snapshot-IsSupported_example :
    (s : MarketRegimeSnapshot Fixed) × (market_regime_snapshot
        (codes "BTCUSDT")
        (codes "15m")
        []
        (some indicators)
        (some signals)
      ≡ ok s)
    × IsSupported s
market_regime_snapshot-IsSupported_example =
    market_regime_snapshot-IsSupported Fixed-IsFloat (codes "BTCUSDT") (codes "15m") []
      (some indicators) (some signals)

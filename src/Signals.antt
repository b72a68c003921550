-- ===== src/Signals.antt =====
-- The indicators over candles (apps/api/app/services/indicator_service.py) and the biases that are
-- read from them (apps/api/app/services/signal_service.py).
pub mod Bounds
mod Tests
use binance_futures_algo_bot.Common.{
  ◌-◌, ◌&&◌, ◌+◌, take, length, leb, [], ◌∷◌, map, if◌then◌else◌, drop, ℕ, Bool, List, Option, none,
  some,
}
use binance_futures_algo_bot.Common.Texts.{Text}
use binance_futures_algo_bot.Float.{
  ◌≤?◌, ◌<?◌, ◌⊕◌, ◌⊗◌, ◌⊖◌, feq, ◌⊘◌, round_to, dec, Float, nought, fmin, fmax, fabs,
}

-- apps/api/app/db/models.py, the columns that the indicators read
pub record MarketCandle (F : Type 0) : Type 0 where
  pub symbol : Text
  pub timeframe : Text
  pub open_time_ms : ℕ
  pub close_time_ms : ℕ
  pub high_price : F
  pub low_price : F
  pub close_price : F

pub record IndicatorSnapshot (F : Type 0) : Type 0 where
  pub symbol : Text
  pub timeframe : Text
  pub candles_used : ℕ
  pub last_candle_close_ms : Option ℕ
  pub ema_9 : Option F
  pub ema_21 : Option F
  pub rsi_14 : Option F
  pub atr_14 : Option F
  pub momentum_10 : Option F

pub data Bias : Type 0 where
  bullish bearish neutral unknown : Bias

pub data VolatilityRegime : Type 0 where
  high medium low unknown : VolatilityRegime

pub record SignalSnapshot (F : Type 0) : Type 0 where
  pub symbol : Text
  pub timeframe : Text
  pub last_candle_close_ms : Option ℕ
  pub trend_bias : Bias
  pub momentum_bias : Bias
  pub volatility_regime : VolatilityRegime
  pub ema_spread_pct : Option F
  pub atr_pct : Option F
  pub rsi_14 : Option F
  pub momentum_10 : Option F

-- the last element
abbrev last {ℓ} : {A : Type ℓ} → List A → Option A
last [] = none
last (x ∷ []) = some x
last (x ∷ y ∷ xs) = last (y ∷ xs)

module _ {F : Type 0} ⦃f : Float F⦄ where
  -- `fmean` of a list that is not empty
  unfoldable pub fmean : List F → F
  fmean xs = f.fsum xs ⊘ dec (length xs) 0

  smooth : F → List F → F → F
  smooth k [] ema = ema
  smooth k (price ∷ prices) ema = smooth k prices ((price ⊗ k) ⊕ (ema ⊗ (dec 1 0 ⊖ k)))

  -- `_ema`
  unfoldable pub ema : List F → ℕ → Option F
  unfolding fmean smooth
  ema values period =
      let k = dec 2 0 ⊘ dec (period + 1) 0 in
      if leb (length values) period
      then none
      else some (round_to 6 (smooth k (drop period values) (fmean (take period values))))

  -- `values[i] - values[i - 1]` for each `i` from 1
  unfoldable pub deltas : List F → List F
  deltas [] = []
  deltas (x ∷ []) = []
  deltas (x ∷ y ∷ xs) = (y ⊖ x) ∷ deltas (y ∷ xs)

  -- the running average of the loops of `_rsi` and `_atr`
  unfoldable pub running : ℕ → List F → F → F
  running period [] avg = avg
  running period (x ∷ xs) avg = running period xs (((avg ⊗ dec (period - 1) 0) ⊕ x) ⊘ dec period 0)

  unfoldable pub average_of : ℕ → List F → F
  unfolding fmean running
  average_of period xs = running period (drop period xs) (fmean (take period xs))

  -- the last part of `_rsi`
  unfoldable pub strength : F → F → F
  strength avg_gain avg_loss =
      if feq avg_loss nought && feq avg_gain nought
      then dec 500 1
      else if feq avg_loss nought
      then dec 1000 1
      else round_to 6 (dec 100 0 ⊖ dec 100 0 ⊘ (dec 1 0 ⊕ avg_gain ⊘ avg_loss))

  -- `_rsi`
  unfoldable pub rsi : List F → ℕ → Option F
  unfolding deltas average_of strength fmin fmax fabs
  rsi values period =
      let gains = map (λ delta. fmax delta nought) (deltas values) in
      let losses = map (λ delta. fabs (fmin delta nought)) (deltas values) in
      if leb (length values) period
      then none
      else some (strength (average_of period gains) (average_of period losses))

  -- the true ranges of `_atr`, from the candle before and those after it
  unfoldable pub true_ranges : List (MarketCandle F) → List F
  unfolding fmax fabs
  true_ranges [] = []
  true_ranges (p ∷ []) = []
  true_ranges (p ∷ c ∷ cs) =
      fmax (fmax (c.high_price ⊖ c.low_price) (fabs (c.high_price ⊖ p.close_price)))
        (fabs (c.low_price ⊖ p.close_price))
      ∷ true_ranges (c ∷ cs)

  -- `_atr`
  unfoldable pub atr : List (MarketCandle F) → ℕ → Option F
  unfolding true_ranges average_of
  atr candles period =
      if leb (length candles) period
      then none
      else some (round_to 6 (average_of period (true_ranges candles)))

  abbrev momentum_of : Option F → Option F → Option F
  momentum_of (some x) (some y) = some (round_to 6 (x ⊖ y))
  momentum_of none y = none
  momentum_of (some x) none = none

  -- `_momentum`
  unfoldable pub momentum : List F → ℕ → Option F
  momentum values period =
      if leb (length values) period
      then none
      else momentum_of (last values) (last (take (length values - period) values))

  -- `IndicatorService.snapshot`, of the candles that `_load_rows` reads, oldest first
  unfoldable pub indicator_snapshot : Text → Text → List (MarketCandle F) → IndicatorSnapshot F
  unfolding ema rsi atr momentum
  indicator_snapshot symbol timeframe rows =
      let closes = map (λ r. r.close_price) rows in
      record {
        symbol = symbol;
        timeframe = timeframe;
        candles_used = length closes;
        last_candle_close_ms = last (map (λ r. r.close_time_ms) rows);
        ema_9 = ema closes 9;
        ema_21 = ema closes 21;
        rsi_14 = rsi closes 14;
        atr_14 = atr rows 14;
        momentum_10 = momentum closes 10;
      }

  -- `_trend_bias`
  unfoldable pub trend_bias : Option F → Option F → Bias
  trend_bias none ema_21 = Bias.unknown
  trend_bias (some a) none = Bias.unknown
  trend_bias (some a) (some b) = if b <? a then bullish else if a <? b then bearish else neutral

  -- `_momentum_bias`
  unfoldable pub momentum_bias : Option F → Option F → Bias
  momentum_bias none momentum_10 = Bias.unknown
  momentum_bias (some rsi_14) none = Bias.unknown
  momentum_bias (some rsi_14) (some m) =
      if (dec 55 0 ≤? rsi_14) && (nought <? m)
      then bullish
      else if (rsi_14 ≤? dec 45 0) && (m <? nought)
      then bearish
      else neutral

  -- `_volatility_regime`
  unfoldable pub volatility_regime : Option F → VolatilityRegime
  volatility_regime none = VolatilityRegime.unknown
  volatility_regime (some atr_pct) =
      if dec 25 1 ≤? atr_pct then high else if dec 10 1 ≤? atr_pct then medium else low

  -- a share of the slow average in percent, where that is neither missing nor 0
  abbrev pub percent_of : Option F → Option F → Option F
  percent_of none ema_21 = none
  percent_of (some x) none = none
  percent_of (some x) (some b) =
      if feq b nought then none else some (round_to 6 (x ⊘ b ⊗ dec 100 0))

  abbrev spread : Option F → Option F → Option F
  spread (some a) (some b) = some (a ⊖ b)
  spread none b = none
  spread (some a) none = none

  -- `SignalService.snapshot`
  unfoldable pub signal_snapshot : Text → Text → IndicatorSnapshot F → SignalSnapshot F
  unfolding trend_bias momentum_bias volatility_regime
  signal_snapshot symbol timeframe i =
      let atr_pct = percent_of i.atr_14 i.ema_21 in
      record {
        symbol = symbol;
        timeframe = timeframe;
        last_candle_close_ms = i.last_candle_close_ms;
        trend_bias = trend_bias i.ema_9 i.ema_21;
        momentum_bias = momentum_bias i.rsi_14 i.momentum_10;
        volatility_regime = volatility_regime atr_pct;
        ema_spread_pct = percent_of (spread i.ema_9 i.ema_21) i.ema_21;
        atr_pct = atr_pct;
        rsi_14 = i.rsi_14;
        momentum_10 = i.momentum_10;
      }

-- ===== src/MarketRegime/Supported.antt =====
-- What a snapshot of the regime promises (apps/api/app/services/market_regime_service.py): the
-- bounds that pydantic checks, and the evidence for the regime that it names.
use binance_futures_algo_bot.Common.{
  ◌^◌, ◌<◌, ◌≡◌, ◌≢◌, ◌⊎◌, ◌+◌, refl, inl, inr, arith, ℕ, true, false, Option, some, none, List,
  Bool-cases,
}
use binance_futures_algo_bot.Common.Texts.{Text}
use binance_futures_algo_bot.Float.{Float, ◌≤?◌, ◌≼◌, ◌⊕◌, ◌⊗◌, dec, nought, round_to}
use binance_futures_algo_bot.Float.Order.{not_le-le, IsFloat}
use binance_futures_algo_bot.Risk.Scale.{literal_le, dec-nonneg}
use binance_futures_algo_bot.Risk.Total.{IsPct, round-IsPct, clamp_pct-IsPct, nought-IsPct}
use binance_futures_algo_bot.Risk.Schemas.{
  Regime, tendencia_alcista, tendencia_bajista, rango_lateral, transicion, alta_volatilidad, ok,
}
use binance_futures_algo_bot.Signals.{
  Bias, bullish, bearish, neutral, VolatilityRegime, high, IndicatorSnapshot, SignalSnapshot,
  MarketCandle, indicator_snapshot, signal_snapshot, percent_of,
}
use binance_futures_algo_bot.MarketRegime.{
  MarketRegimeSnapshot, bias_eq, is_high, is_missing, trend_strength, volatility_score,
  rsi_component, momentum_component, mixed_score, momentum_score, classify_regime,
  regime_confidence, new_snapshot, regime_of, given_or, market_regime_snapshot,
}

bias_eq-eq : (a b : Bias) → bias_eq a b ≡ true → a ≡ b
unfolding bias_eq
bias_eq-eq bullish b h = ground arith
bias_eq-eq bearish b h = ground arith
bias_eq-eq neutral b h = ground arith
bias_eq-eq Bias.unknown b h = ground arith

is_high-eq : (v : VolatilityRegime) → is_high v ≡ true → v ≡ high
unfolding is_high
is_high-eq v h = ground arith

is_high-ne : (v : VolatilityRegime) → is_high v ≡ false → v ≢ high
unfolding is_high
is_high-ne v h e = ground arith

is_missing-eq : (v : VolatilityRegime) → is_missing v ≡ true → v ≡ VolatilityRegime.unknown
unfolding is_missing
is_missing-eq v h = ground arith

-- no signal is missing, and the volatility is not high
abbrev AreKnown : Bias → Bias → VolatilityRegime → Type 0
AreKnown t m v =
    (v ≢ high) × (t ≢ Bias.unknown) × (m ≢ Bias.unknown) × (v ≢ VolatilityRegime.unknown)

bias_eq-ne : (a b : Bias) → bias_eq a b ≡ false → a ≢ b
unfolding bias_eq
bias_eq-ne bullish b h e = ground arith
bias_eq-ne bearish b h e = ground arith
bias_eq-ne neutral b h e = ground arith
bias_eq-ne Bias.unknown b h e = ground arith

is_missing-ne : (v : VolatilityRegime) → is_missing v ≡ false → v ≢ VolatilityRegime.unknown
unfolding is_missing
is_missing-ne v h e = ground arith

module _ {F : Type 0} ⦃f : Float F⦄ where
  -- the evidence for a regime
  pub Evidence : Bias → Bias → VolatilityRegime → F → F → Regime → Type 0
  Evidence t m v strength momentum alta_volatilidad = v ≡ high
  Evidence t m v strength momentum Regime.unknown =
      (v ≢ high) × ((t ≡ Bias.unknown) ⊎ ((m ≡ Bias.unknown) ⊎ (v ≡ VolatilityRegime.unknown)))
  Evidence t m v strength momentum tendencia_alcista =
      AreKnown t m v × (t ≡ bullish) × (m ≡ bullish) × (dec 58 0 ≼ strength) × (dec 58 0 ≼ momentum)
  Evidence t m v strength momentum tendencia_bajista =
      AreKnown t m v × (t ≡ bearish) × (m ≡ bearish) × (dec 58 0 ≼ strength) × (momentum ≼ dec 42 0)
  Evidence t m v strength momentum rango_lateral = AreKnown t m v × (strength ≼ dec 35 0)
  Evidence t m v strength momentum transicion = AreKnown t m v × (dec 35 0 ≼ strength)

  -- A snapshot whose scores are percentages and whose fields bear out its regime, with no confidence
  -- in an unknown one.
  pub record IsSupported (s : MarketRegimeSnapshot F) : Type 0 where
    pub strength : IsPct s.trend_strength
    pub volatility : IsPct s.volatility_score
    pub momentum : IsPct s.momentum_score
    pub confidence : IsPct s.regime_confidence
    pub evidence :
        Evidence s.trend_bias s.momentum_bias s.volatility_regime s.trend_strength s.momentum_score
          s.regime
    pub doubt : s.regime ≡ Regime.unknown → s.regime_confidence ≡ nought

  module _ (laws : IsFloat F) where
    open laws use {le_refl, le_trans, le_total}

    half-IsPct : IsPct (f.dec 500 1)
    half-IsPct = (dec-nonneg laws 500 1 refl, literal_le laws 500 1 100 0 refl)

    trend_strength-IsPct : (x : Option F) → IsPct (trend_strength x)
    unfolding trend_strength
    trend_strength-IsPct none = half-IsPct
    trend_strength-IsPct (some x) = clamp_pct-IsPct laws _

    volatility_score-IsPct : (x : Option F) → IsPct (volatility_score x)
    unfolding volatility_score
    volatility_score-IsPct none = half-IsPct
    volatility_score-IsPct (some x) = clamp_pct-IsPct laws _

    rsi_component-IsPct : (x : Option F) → IsPct (rsi_component x)
    unfolding rsi_component
    rsi_component-IsPct none = half-IsPct
    rsi_component-IsPct (some x) = clamp_pct-IsPct laws _

    momentum_component-IsPct : (x : Option F) → IsPct (momentum_component x)
    unfolding momentum_component
    momentum_component-IsPct none = half-IsPct
    momentum_component-IsPct (some x) = clamp_pct-IsPct laws _

    -- A mean of two percentages, weighted by hundredths that make up the whole, is one.
    mean-IsPct :
        (n m : ℕ) (x y : F) → n + m ≡ 100 → IsPct x → IsPct y → IsPct (x ⊗ dec n 2 ⊕ y ⊗ dec m 2)
    mean-IsPct n m x y h (x0, x1) (y0, y1) =
        let n0 = laws.dec_nonneg n 2 in
        let m0 = laws.dec_nonneg m 2 in
        (
          laws.plus_nonneg _ _ (laws.times_nonneg x (dec n 2) x0 n0)
              (laws.times_nonneg y (dec m 2) y0 m0),
          le_trans _ _ _
              (laws.plus_mono _ _ _ _ (laws.times_mono x _ (dec n 2) _ x0 x1 n0 (le_refl _))
                (laws.times_mono y _ (dec m 2) _ y0 y1 m0 (le_refl _)))
              (laws.share_le n m h),
        )

    mixed_score-IsPct : (rsi_14 change : Option F) → IsPct (mixed_score rsi_14 change)
    unfolding mixed_score
    mixed_score-IsPct r c = round-IsPct laws _ (
        mean-IsPct 65 35 (rsi_component r) (momentum_component c) refl (rsi_component-IsPct r)
          (momentum_component-IsPct c))

    momentum_score-IsPct : (rsi_14 change : Option F) → IsPct (momentum_score rsi_14 change)
    unfolding momentum_score
    momentum_score-IsPct none none = half-IsPct
    momentum_score-IsPct (some r) c = mixed_score-IsPct (some r) c
    momentum_score-IsPct none (some c) = mixed_score-IsPct none (some c)

    regime_confidence-IsPct :
        (regime : Regime) (strength volatility momentum : F)
        → IsPct (regime_confidence regime strength volatility momentum)
    unfolding regime_confidence
    regime_confidence-IsPct Regime.unknown s v m = nought-IsPct laws
    regime_confidence-IsPct alta_volatilidad s v m = round-IsPct laws _ (clamp_pct-IsPct laws _)
    regime_confidence-IsPct tendencia_alcista s v m = round-IsPct laws _ (clamp_pct-IsPct laws _)
    regime_confidence-IsPct tendencia_bajista s v m = round-IsPct laws _ (clamp_pct-IsPct laws _)
    regime_confidence-IsPct rango_lateral s v m = round-IsPct laws _ (clamp_pct-IsPct laws _)
    regime_confidence-IsPct transicion s v m = round-IsPct laws _ (clamp_pct-IsPct laws _)

    -- `58.0`, `42.0` and `35.0` are whole
    from_58 : (x : F) → dec 580 1 ≼ x → dec 58 0 ≼ x
    from_58 x h = le_trans _ _ _ (literal_le laws 58 0 580 1 refl) h

    to_42 : (x : F) → x ≼ dec 420 1 → x ≼ dec 42 0
    to_42 x h = le_trans _ _ _ h (literal_le laws 420 1 42 0 refl)

    to_35 : (x : F) → x ≼ dec 350 1 → x ≼ dec 35 0
    to_35 x h = le_trans _ _ _ h (literal_le laws 350 1 35 0 refl)

    over_35 : (x : F) → (x ≤? dec 350 1) ≡ false → dec 35 0 ≼ x
    over_35 x h = le_trans _ _ _ (literal_le laws 35 0 350 1 refl) (not_le-le laws _ _ h)

    classify_regime-Evidence :
        (t m : Bias) (v : VolatilityRegime) (s o : F)
        → Evidence t m v s o (classify_regime t m v s o)
    unfolding classify_regime Evidence
    classify_regime-Evidence t m v s o = elim (Bool-cases (is_high v)) [
      | inl e ↦ rw e (is_high-eq v e)
      | inr e ↦ rw e (
          ground (
            arith,
            is_high-ne v e,
            is_missing-eq v,
            is_missing-ne v,
            bias_eq-ne t Bias.unknown,
            bias_eq-ne m Bias.unknown,
            bias_eq-eq t Bias.unknown,
            bias_eq-eq m Bias.unknown,
            bias_eq-eq t bullish,
            bias_eq-eq m bullish,
            bias_eq-eq t bearish,
            bias_eq-eq m bearish,
            from_58 s,
            from_58 o,
            to_42 o,
            to_35 s,
            over_35 s,
          ))
    ]

    round-ge : (n : ℕ) (x : F) → n < 10 ^ 11 → f.dec n 0 ≼ x → f.dec n 0 ≼ round_to 4 x
    round-ge n x k h =
        rw (laws.round_whole 4 n (omega arith) k) at (laws.round_mono 4 (dec n 0) x h)

    round-le : (n : ℕ) (x : F) → n < 10 ^ 11 → x ≼ f.dec n 0 → round_to 4 x ≼ f.dec n 0
    round-le n x k h =
        rw (laws.round_whole 4 n (omega arith) k) at (laws.round_mono 4 x (dec n 0) h)

    round-Evidence :
        (t m : Bias) (v : VolatilityRegime) (s o : F) (r : Regime)
        → Evidence t m v s o r
        → Evidence t m v (round_to 4 s) (round_to 4 o) r
    unfolding Evidence
    round-Evidence t m v s o alta_volatilidad h = h
    round-Evidence t m v s o Regime.unknown h = h
    round-Evidence t m v s o tendencia_alcista (calm, trend, move, strong, up) =
        (calm, trend, move, round-ge 58 s (omega arith) strong, round-ge 58 o (omega arith) up)
    round-Evidence t m v s o tendencia_bajista (calm, trend, move, strong, down) =
        (calm, trend, move, round-ge 58 s (omega arith) strong, round-le 42 o (omega arith) down)
    round-Evidence t m v s o rango_lateral (calm, weak) = (calm, round-le 35 s (omega arith) weak)
    round-Evidence t m v s o transicion (calm, some_trend) =
        (calm, round-ge 35 s (omega arith) some_trend)

    regime_confidence-unknown :
        (regime : Regime) (strength volatility momentum : F)
        → regime ≡ Regime.unknown
        → regime_confidence regime strength volatility momentum ≡ nought
    unfolding regime_confidence
    regime_confidence-unknown r s v m e = rw e refl

    regime_of-IsSupported :
        (symbol timeframe : Text) (i : IndicatorSnapshot F) (s : SignalSnapshot F)
        → IsSupported (regime_of symbol timeframe i s)
    unfolding regime_of
    regime_of-IsSupported symbol timeframe i s =
        let strength = trend_strength-IsPct s.ema_spread_pct in
        let volatility = volatility_score-IsPct s.atr_pct in
        let momentum = momentum_score-IsPct s.rsi_14 (percent_of s.momentum_10 i.ema_21) in
        record {
          strength = round-IsPct laws _ strength;
          volatility = round-IsPct laws _ volatility;
          momentum = round-IsPct laws _ momentum;
          confidence = regime_confidence-IsPct _ _ _ _;
          evidence = round-Evidence _ _ _ _ _ _ (
              classify_regime-Evidence s.trend_bias s.momentum_bias s.volatility_regime
                (trend_strength s.ema_spread_pct)
                (momentum_score s.rsi_14 (percent_of s.momentum_10 i.ema_21)));
          doubt = regime_confidence-unknown _ _ _ _;
        }

    new_snapshot-ok : (s : MarketRegimeSnapshot F) → IsSupported s → new_snapshot s ≡ ok s
    unfolding new_snapshot
    new_snapshot-ok s h = ground (arith, h.strength, h.volatility, h.momentum, h.confidence)

    -- A snapshot of the regime never raises, whatever snapshots are given and whatever candles there
    -- are: its trend, volatility and momentum scores and its confidence are between 0 and 100. It
    -- names high volatility exactly from that of the signals. Otherwise it names an unknown regime,
    -- with confidence 0, exactly where a signal is unknown. A trend has both biases on its side, a
    -- strength of 58 or more and a momentum of 58 or more upwards and 42 or less downwards; a range has
    -- a strength of 35 or less and a transition one of 35 or more.
    pub market_regime_snapshot-IsSupported :
        (symbol timeframe : Text) (rows : List (MarketCandle F))
        (indicators : Option (IndicatorSnapshot F)) (signals : Option (SignalSnapshot F))
        → (s : MarketRegimeSnapshot F) × (market_regime_snapshot symbol timeframe rows indicators
              signals
            ≡ ok s)
          × IsSupported s
    unfolding market_regime_snapshot
    market_regime_snapshot-IsSupported symbol timeframe rows i g =
        let made =
          regime_of-IsSupported symbol timeframe
            (given_or i (indicator_snapshot symbol timeframe rows))
            (given_or g (
              signal_snapshot symbol timeframe
                (given_or i (indicator_snapshot symbol timeframe rows)))) in
        (_, new_snapshot-ok _ made, made)

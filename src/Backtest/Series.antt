-- ===== src/Backtest/Series.antt =====
-- The indicators of a backtest, one value for each candle
-- (`_ema_series`, `_rsi_series` and `_compute_rsi` of apps/api/app/services/backtesting_service.py).
use binance_futures_algo_bot.Common.{
  ◌-◌, ◌+◌, ◌++◌, if◌then◌else◌, leb, ltb, length, [], ◌∷◌, ℕ, zero, suc, List, Option, none, some,
  take, drop, map,
}
use binance_futures_algo_bot.Float.{
  Float, ◌⊕◌, ◌⊖◌, ◌⊗◌, ◌⊘◌, dec, nought, round_to, fmin, fmax, fabs,
}
use binance_futures_algo_bot.Signals.{fmean, deltas, strength}

-- `[value] * n`
abbrev pub replicate {ℓ} : {A : Type ℓ} → ℕ → A → List A
replicate zero value = []
replicate (suc n) value = value ∷ replicate n value

module _ {F : Type 0} ⦃f : Float F⦄ where
  ema_rest : F → F → List F → List (Option F)
  ema_rest multiplier ema [] = []
  ema_rest multiplier ema (value ∷ values) =
      let next = value ⊗ multiplier ⊕ ema ⊗ (dec 1 0 ⊖ multiplier) in
      some (round_to 6 next) ∷ ema_rest multiplier next values

  -- `_ema_series`
  unfoldable pub ema_series : List F → ℕ → List (Option F)
  unfolding fmean ema_rest
  ema_series values period =
      let multiplier = dec 2 0 ⊘ dec (period + 1) 0 in
      let ema = fmean (take period values) in
      if ltb (length values) period
      then replicate (length values) none
      else replicate (period - 1) none
        ++ (some (round_to 6 ema) ∷ ema_rest multiplier ema (drop period values))

  rsi_rest : ℕ → F → F → List F → List F → List (Option F)
  unfolding strength
  rsi_rest period avg_gain avg_loss (gain ∷ gains) (loss ∷ losses) =
      let next_gain = (avg_gain ⊗ dec (period - 1) 0 ⊕ gain) ⊘ dec period 0 in
      let next_loss = (avg_loss ⊗ dec (period - 1) 0 ⊕ loss) ⊘ dec period 0 in
      some (strength next_gain next_loss) ∷ rsi_rest period next_gain next_loss gains losses
  rsi_rest period avg_gain avg_loss [] losses = []
  rsi_rest period avg_gain avg_loss (gain ∷ gains) [] = []

  -- `_rsi_series`; `_compute_rsi` is the last part of `IndicatorService._rsi` again
  unfoldable pub rsi_series : List F → ℕ → List (Option F)
  unfolding deltas strength rsi_rest fmean fmin fmax fabs
  rsi_series values period =
      let gains = map (λ delta. fmax delta nought) (deltas values) in
      let losses = map (λ delta. fabs (fmin delta nought)) (deltas values) in
      let avg_gain = fmean (take period gains) in
      let avg_loss = fmean (take period losses) in
      if leb (length values) period
      then replicate (length values) none
      else replicate period none
        ++ (some (strength avg_gain avg_loss)
            ∷ rsi_rest period avg_gain avg_loss (drop period gains) (drop period losses))

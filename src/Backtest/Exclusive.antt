-- ===== src/Backtest/Exclusive.antt =====
-- A candle is never an entry and an exit at once, which a comment in `_simulate_from_signals` of
-- apps/api/app/services/backtesting_service.py says and relies on.
use binance_futures_algo_bot.Common.{
  ◌||◌, ltb, inl, inr, Bool-cases, ◌≡◌, ◌&&◌, refl, arith, ℕ, true, false, List, Option, none, some,
}
use binance_futures_algo_bot.Float.{Float, ◌≤?◌}
use binance_futures_algo_bot.Float.Order.{IsFloat}
use binance_futures_algo_bot.Backtest.{BacktestStrategyParameters, parameters_valid}
use binance_futures_algo_bot.Backtest.Simulate.{candle_signals, signals_at}

module _ {F : Type 0} ⦃f : Float F⦄ (laws : IsFloat F) where
  open laws use {le_refl, le_trans, le_total}

  thresholds_apart :
      (p : BacktestStrategyParameters F)
      → parameters_valid p ≡ true
      → (p.rsi_entry_min ≤? p.rsi_exit_max) ≡ false
  unfolding parameters_valid
  thresholds_apart p h = ground arith

  candle_signals-exclusive :
      (p : BacktestStrategyParameters F) (fast slow fast_before slow_before rsi : Option F)
      → (p.rsi_entry_min ≤? p.rsi_exit_max) ≡ false
      → ((candle_signals p fast slow fast_before slow_before rsi).0
          && (candle_signals p fast slow fast_before slow_before rsi).1)
        ≡ false
  unfolding candle_signals
  candle_signals-exclusive p (some a) (some b) (some c) (some d) (some r) h =
      ground (arith, le_total a b, le_trans p.rsi_entry_min r p.rsi_exit_max)
  candle_signals-exclusive p none b c d r h = refl
  candle_signals-exclusive p (some a) none c d r h = refl
  candle_signals-exclusive p (some a) (some b) none d r h = refl
  candle_signals-exclusive p (some a) (some b) (some c) none r h = refl
  candle_signals-exclusive p (some a) (some b) (some c) (some d) none h = refl

  -- No candle is both an entry and an exit, for parameters that pass the checks of their class,
  -- whatever the prices are and wherever the simulation starts.
  pub signals_at-exclusive :
      (p : BacktestStrategyParameters F) (closes : List F) (start index : ℕ)
      → parameters_valid p ≡ true
      → ((signals_at p closes start index).0 && (signals_at p closes start index).1) ≡ false
  unfolding signals_at
  signals_at-exclusive p closes start index h = elim (Bool-cases (ltb index 1 || ltb index start)) [
    | inl e ↦ rw e refl
    | inr e ↦ rw e (candle_signals-exclusive p _ _ _ _ _ (thresholds_apart p h))
  ]

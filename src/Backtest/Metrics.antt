-- ===== src/Backtest/Metrics.antt =====
-- The metrics of a simulation, and the comparison of two by them (`_build_metrics`,
-- `_max_drawdown_pct` and `_is_better_result` of apps/api/app/services/backtesting_service.py).
use binance_futures_algo_bot.Common.{
  ◌||◌, if◌then◌else◌, ltb, length, is_empty, not, [], ◌∷◌, Bool, List, none, some, select,
}
use binance_futures_algo_bot.Float.{
  Float, ◌⊖◌, ◌⊗◌, ◌⊘◌, ◌<?◌, ◌≤?◌, feq, dec, nought, round_to, fmax, fabs,
}
use binance_futures_algo_bot.Backtest.{BacktestMetrics, SimulationOutput}

module _ {F : Type 0} ⦃f : Float F⦄ where
  -- the loop of `_max_drawdown_pct`
  unfoldable pub drawdown : F → F → List F → F
  unfolding fmax
  drawdown peak max_drawdown [] = max_drawdown
  drawdown peak max_drawdown (equity ∷ curve) =
      let top = fmax peak equity in
      let fall = (top ⊖ equity) ⊘ top ⊗ dec 100 0 in
      drawdown top (if feq top nought then max_drawdown else fmax max_drawdown fall) curve

  -- `_max_drawdown_pct`
  unfoldable pub max_drawdown_pct : List F → F
  unfolding drawdown
  max_drawdown_pct [] = round_to 6 nought
  max_drawdown_pct (equity ∷ curve) = round_to 6 (drawdown equity nought (equity ∷ curve))

  -- `_build_metrics`
  unfoldable pub build_metrics : F → F → List F → List F → BacktestMetrics F
  unfolding select max_drawdown_pct fabs
  build_metrics initial_capital ending_capital trade_pnls equity_curve =
      let wins = select (λ pnl. nought <? pnl) trade_pnls in
      let losses = select (λ pnl. pnl <? nought) trade_pnls in
      record {
        total_return_pct =
            if feq initial_capital nought
            then nought
            else round_to 6 ((ending_capital ⊘ initial_capital ⊖ dec 1 0) ⊗ dec 100 0);
        win_rate_pct =
            if is_empty trade_pnls
            then nought
            else round_to 6 (dec (length wins) 0 ⊘ dec (length trade_pnls) 0 ⊗ dec 100 0);
        profit_factor =
            if is_empty losses then none else some (round_to 6 (f.sum wins ⊘ fabs (f.sum losses)));
        max_drawdown_pct = max_drawdown_pct equity_curve;
        trades_count = length trade_pnls;
        ending_capital = round_to 6 ending_capital;
      }

  -- `isclose(a, b, rel_tol=0.0, abs_tol=1e-9)`
  unfoldable pub is_close : F → F → Bool
  unfolding fabs
  is_close a b = feq a b || (fabs (b ⊖ a) ≤? dec 1 9)

  -- `_is_better_result`
  unfoldable pub is_better_result : SimulationOutput F → SimulationOutput F → Bool
  unfolding is_close
  is_better_result candidate current =
      let c = candidate.metrics in
      let best = current.metrics in
      if not (is_close c.total_return_pct best.total_return_pct)
      then best.total_return_pct <? c.total_return_pct
      else if not (is_close c.max_drawdown_pct best.max_drawdown_pct)
      then c.max_drawdown_pct <? best.max_drawdown_pct
      else ltb c.trades_count best.trades_count

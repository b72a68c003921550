-- ===== src/Backtest/Walk.antt =====
-- The walk over training and testing windows (`run` of
-- apps/api/app/services/backtesting_service.py).
use binance_futures_algo_bot.Common.{
  ◌-◌, ◌+◌, ◌*◌, ◌/◌, ◌++◌, if◌then◌else◌, ltb, length, map, is_empty, take, drop, [], ◌∷◌, ℕ, zero,
  suc, true, List, Option, none, some,
}
use binance_futures_algo_bot.Common.Texts.{Text, codes, upper}
use binance_futures_algo_bot.Float.{Float, nought, round_to}
use binance_futures_algo_bot.Signals.{MarketCandle, fmean}
use binance_futures_algo_bot.Backtest.{
  Outcome, done, raised, ◌>>=◌, data_not_found, backtesting_error, index_error,
  BacktestWindowResult, WalkForwardSummary, BacktestRunRequest, BacktestRunResponse,
  BacktestStrategyParameters, SimulationOutput,
}
use binance_futures_algo_bot.Backtest.Metrics.{build_metrics}
use binance_futures_algo_bot.Backtest.Simulate.{
  last_of, select_best_simulation, simulate_strategy, simulate_buy_and_hold, first_candidate,
  other_candidates,
}

-- the variables of the loop over the windows
pub record WalkState (F : Type 0) : Type 0 where
  pub windows : List (BacktestWindowResult F)
  pub in_sample_returns : List F
  pub oos_trade_pnls : List F
  pub oos_equity_curve : List F
  pub oos_capital : F
  pub benchmark_closes : List F
  pub window_index : ℕ

-- `range(start, ..., step)` of `n` numbers
abbrev pub range_by : ℕ → ℕ → ℕ → List ℕ
range_by step start zero = []
range_by step start (suc n) = start ∷ range_by step (start + step) n

-- `xs[start:stop]`
abbrev pub slice {ℓ} : {A : Type ℓ} → List A → ℕ → ℕ → List A
slice xs start stop = take (stop - start) (drop start xs)

-- `xs[0]` and `xs[-1]`
unfoldable pub first_item : {A : Type 0} → List A → Outcome A
first_item [] = raised index_error
first_item (x ∷ xs) = done x

abbrev item_or_raise : {A : Type 0} → Option A → Outcome A
item_or_raise none = raised index_error
item_or_raise (some x) = done x

unfoldable pub last_item : {A : Type 0} → List A → Outcome A
last_item xs = item_or_raise (last_of xs)

-- the larger of the slowest average's period, 30, and `RSI_PERIOD + 1`
abbrev pub max_warmup : ℕ
max_warmup = 30

abbrev full_period_note : Text
full_period_note =
    codes
      "Las métricas de full_period_strategy usan parámetros seleccionados sobre el periodo completo y deben interpretarse como referencia in-sample, no como resultado out-of-sample."

module _ {F : Type 0} ⦃f : Float F⦄ where
  abbrev pub closes_of : List (MarketCandle F) → List F
  closes_of rows = map (λ row. row.close_price) rows

  -- the row of the results for a window, and the variables after it
  unfoldable pub add_window :
      List (MarketCandle F)
      → List (MarketCandle F)
      → BacktestStrategyParameters F × SimulationOutput F
      → SimulationOutput F
      → SimulationOutput F
      → SimulationOutput F
      → WalkState F
      → Outcome (WalkState F)
  unfolding first_item last_item
  add_window training testing best in_benchmark out out_benchmark s =
      first_item training >>= λ training_first. last_item training >>= λ training_last.
      first_item testing >>= λ testing_first. last_item testing >>= λ testing_last.
      let window : BacktestWindowResult F = record {
        window_index = s.window_index;
        training_start_ms = training_first.open_time_ms;
        training_end_ms = training_last.close_time_ms;
        testing_start_ms = testing_first.open_time_ms;
        testing_end_ms = testing_last.close_time_ms;
        selected_parameters = best.0;
        in_sample_strategy = best.1.metrics;
        in_sample_benchmark = in_benchmark.metrics;
        out_of_sample_strategy = out.metrics;
        out_of_sample_benchmark = out_benchmark.metrics;
      } in
      done (record {
        windows = s.windows ++ (window ∷ []);
        in_sample_returns = s.in_sample_returns ++ (best.1.metrics.total_return_pct ∷ []);
        oos_trade_pnls = s.oos_trade_pnls ++ out.trade_pnls;
        oos_equity_curve = s.oos_equity_curve ++ drop 1 out.equity_curve;
        oos_capital = out.metrics.ending_capital;
        benchmark_closes = s.benchmark_closes ++ closes_of testing;
        window_index = s.window_index + 1;
      })

  -- the body of the loop, for a window that starts at `start`
  unfoldable pub walk_window :
      BacktestRunRequest F → List (MarketCandle F) → ℕ → WalkState F → Outcome (WalkState F)
  unfolding select_best_simulation simulate_strategy simulate_buy_and_hold add_window
  walk_window payload rows start s =
      let middle = start + payload.training_window in
      let stop = middle + payload.testing_window in
      let training = slice rows start middle in
      let testing = slice rows middle stop in
      let warm = closes_of (slice rows (middle - max_warmup) stop) in
      let offset = length warm - length (closes_of testing) in
      if ltb (length testing) payload.testing_window
      then done s
      else (select_best_simulation (closes_of training) payload.initial_capital payload.fee_rate
          >>= λ best.
              simulate_buy_and_hold (closes_of training) payload.initial_capital payload.fee_rate
              >>= λ in_benchmark.
                  simulate_strategy warm best.0 s.oos_capital payload.fee_rate offset >>= λ out.
                  simulate_buy_and_hold (closes_of testing) s.oos_capital payload.fee_rate
                  >>= λ out_benchmark.
                      add_window training testing best in_benchmark out out_benchmark s)

  unfoldable pub walk_windows :
      BacktestRunRequest F → List (MarketCandle F) → List ℕ → WalkState F → Outcome (WalkState F)
  unfolding walk_window
  walk_windows payload rows [] s = done s
  walk_windows payload rows (start ∷ starts) s =
      walk_window payload rows start s >>= λ t. walk_windows payload rows starts t

  -- `range(0, last_window_start + 1, testing_window)`, of at least one window's rows
  unfoldable pub window_starts : BacktestRunRequest F → ℕ → List ℕ
  window_starts payload total =
      let last_window_start = total - (payload.training_window + payload.testing_window) in
      range_by payload.testing_window 0
        ((last_window_start + payload.testing_window) / payload.testing_window)

  unfoldable pub walk_start : BacktestRunRequest F → WalkState F
  walk_start payload = record {
    windows = [];
    in_sample_returns = [];
    oos_trade_pnls = [];
    oos_equity_curve = payload.initial_capital ∷ [];
    oos_capital = payload.initial_capital;
    benchmark_closes = [];
    window_index = 1;
  }

  unfoldable pub summary_of :
      BacktestRunRequest F → WalkState F → SimulationOutput F → WalkForwardSummary F
  unfolding fmean build_metrics
  summary_of payload s benchmark = record {
    windows_count = length s.windows;
    in_sample_avg_return_pct =
        if is_empty s.in_sample_returns then nought else round_to 6 (fmean s.in_sample_returns);
    out_of_sample_strategy =
        build_metrics payload.initial_capital s.oos_capital s.oos_trade_pnls s.oos_equity_curve;
    out_of_sample_benchmark = benchmark.metrics;
    windows = s.windows;
  }

  -- `run`, with the rows that `_load_rows` reads, oldest first
  unfoldable pub run :
      BacktestRunRequest F → List (MarketCandle F) → Outcome (BacktestRunResponse F)
  unfolding select_best_simulation simulate_buy_and_hold walk_windows window_starts walk_start
      summary_of upper first_candidate other_candidates
  run payload rows =
      let capital = payload.initial_capital in
      let fee = payload.fee_rate in
      if is_empty rows
      then raised data_not_found
      else if ltb (length rows) (payload.training_window + 2 * payload.testing_window)
      then raised backtesting_error
      else (select_best_simulation (closes_of rows) capital fee >>= λ full_strategy.
          simulate_buy_and_hold (closes_of rows) capital fee >>= λ full_benchmark.
          walk_windows payload rows (window_starts payload (length rows)) (walk_start payload)
          >>= λ walked. simulate_buy_and_hold walked.benchmark_closes capital fee >>= λ benchmark.
              done (record {
                symbol = upper payload.symbol;
                timeframe = payload.timeframe;
                strategy_name = codes "ema_rsi_baseline";
                benchmark_name = codes "buy_and_hold";
                candles_used = length rows;
                candidate_parameters = first_candidate ∷ other_candidates;
                full_period_strategy = full_strategy.1.metrics;
                full_period_strategy_is_in_sample = true;
                full_period_strategy_note = full_period_note;
                full_period_benchmark = full_benchmark.metrics;
                walk_forward = summary_of payload walked benchmark;
              }))

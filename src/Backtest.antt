-- ===== src/Backtest.antt =====
-- Backtesting (apps/api/app/services/backtesting_service.py): the schemas of
-- apps/api/app/schemas/backtesting.py, the checks of a request, and what a run may raise.
pub mod Series
pub mod Metrics
pub mod Simulate
pub mod Walk
pub mod Bounds
pub mod Solvent
pub mod Returns
pub mod Windows
pub mod Run
pub mod Exclusive
mod Tests
use binance_futures_algo_bot.Common.{
  ◌&&◌, ◌+◌, ◌*◌, if◌then◌else◌, leb, ltb, length, [], ◌∷◌, ℕ, Bool, List, Option, none, some, ◌≡◌,
  refl,
}
use binance_futures_algo_bot.Common.Texts.{Text, codes, strip, upper, text_in}
use binance_futures_algo_bot.Float.{Float, ◌≤?◌, ◌<?◌, dec, nought}

-- `BacktestingDataNotFoundError`, `BacktestingError`, and what Python itself may raise
pub data BacktestError : Type 0 where
  data_not_found backtesting_error zero_division index_error runtime_error : BacktestError

pub data Outcome (A : Type 0) : Type 0 where
  done : A → Outcome A
  raised : BacktestError → Outcome A

infixl 5 ◌>>=◌
abbrev pub ◌>>=◌ : {A B : Type 0} → Outcome A → (A → Outcome B) → Outcome B
done a >>= k = k a
raised e >>= k = raised e

pub record BacktestStrategyParameters (F : Type 0) : Type 0 where
  pub ema_fast_period : ℕ
  pub ema_slow_period : ℕ
  pub rsi_entry_min : F
  pub rsi_exit_max : F

pub record BacktestMetrics (F : Type 0) : Type 0 where
  pub total_return_pct : F
  pub win_rate_pct : F
  pub profit_factor : Option F
  pub max_drawdown_pct : F
  pub trades_count : ℕ
  pub ending_capital : F

pub record SimulationOutput (F : Type 0) : Type 0 where
  pub metrics : BacktestMetrics F
  pub trade_pnls : List F
  pub equity_curve : List F

pub record BacktestWindowResult (F : Type 0) : Type 0 where
  pub window_index : ℕ
  pub training_start_ms : ℕ
  pub training_end_ms : ℕ
  pub testing_start_ms : ℕ
  pub testing_end_ms : ℕ
  pub selected_parameters : BacktestStrategyParameters F
  pub in_sample_strategy : BacktestMetrics F
  pub in_sample_benchmark : BacktestMetrics F
  pub out_of_sample_strategy : BacktestMetrics F
  pub out_of_sample_benchmark : BacktestMetrics F

pub record WalkForwardSummary (F : Type 0) : Type 0 where
  pub windows_count : ℕ
  pub in_sample_avg_return_pct : F
  pub out_of_sample_strategy : BacktestMetrics F
  pub out_of_sample_benchmark : BacktestMetrics F
  pub windows : List (BacktestWindowResult F)

pub record BacktestRunRequest (F : Type 0) : Type 0 where
  pub symbol : Text
  pub timeframe : Text
  pub candles_limit : ℕ
  pub training_window : ℕ
  pub testing_window : ℕ
  pub initial_capital : F
  pub fee_rate : F

pub record BacktestRunResponse (F : Type 0) : Type 0 where
  pub symbol : Text
  pub timeframe : Text
  pub strategy_name : Text
  pub benchmark_name : Text
  pub candles_used : ℕ
  pub candidate_parameters : List (BacktestStrategyParameters F)
  pub full_period_strategy : BacktestMetrics F
  pub full_period_strategy_is_in_sample : Bool
  pub full_period_strategy_note : Text
  pub full_period_benchmark : BacktestMetrics F
  pub walk_forward : WalkForwardSummary F

abbrev allowed_symbols : List Text
allowed_symbols = codes "BTCUSDT" ∷ codes "ETHUSDT" ∷ codes "SOLUSDT" ∷ []

-- a value between two bounds, both included
abbrev within : ℕ → ℕ → ℕ → Bool
within low high n = leb low n && leb n high

module _ {F : Type 0} ⦃f : Float F⦄ where
  -- The bounds of the fields of the parameters and `validate_periods`.
  unfoldable pub parameters_valid : BacktestStrategyParameters F → Bool
  parameters_valid p =
      leb 2 p.ema_fast_period
      && (leb 3 p.ema_slow_period
          && ((nought ≤? p.rsi_entry_min)
              && ((p.rsi_entry_min ≤? dec 100 0)
                  && ((nought ≤? p.rsi_exit_max)
                      && ((p.rsi_exit_max ≤? dec 100 0)
                          && (ltb p.ema_fast_period p.ema_slow_period
                              && (p.rsi_exit_max <? p.rsi_entry_min)))))))

  -- The bounds of the fields and `validate_windows`.
  unfoldable pub request_valid : BacktestRunRequest F → Bool
  request_valid r =
      within 1 32 (length r.symbol)
      && (within 1 16 (length r.timeframe)
          && (within 50 5000 r.candles_limit
              && (within 30 2000 r.training_window
                  && (within 10 1000 r.testing_window
                      && ((nought <? r.initial_capital)
                          && ((nought ≤? r.fee_rate)
                              && ((r.fee_rate ≤? dec 5 2)
                                  && (ltb r.training_window r.candles_limit
                                      && (leb (r.training_window + r.testing_window) r.candles_limit
                                          && leb (r.training_window + 2 * r.testing_window)
                                              r.candles_limit)))))))))

  -- `BacktestRunRequest(...)`, with `validate_allowed_symbol`, or none where pydantic refuses it
  unfoldable pub new_request : BacktestRunRequest F → Option (BacktestRunRequest F)
  unfolding strip upper text_in request_valid
  new_request r =
      let normalized = upper (strip r.symbol) in
      if request_valid r && text_in normalized allowed_symbols
      then some (record r { symbol = normalized })
      else none

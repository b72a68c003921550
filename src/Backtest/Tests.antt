-- ===== src/Backtest/Tests.antt =====
-- Runs of a simulation on decimals, and the theorems on backtests at concrete inputs.
use binance_futures_algo_bot.Backtest.Exclusive.{signals_at-exclusive}
use binance_futures_algo_bot.Common.{
  ◌&&◌, [], ◌∷◌, ◌≡◌, refl, arith, List, All, ℕ, zero, suc, none, true, false, Bool,
}
use binance_futures_algo_bot.Common.Texts.{codes}
use binance_futures_algo_bot.Float.Fixed.{Fixed, fixed_float, Fixed-IsFloat}
use binance_futures_algo_bot.Risk.Tests.{d}
use binance_futures_algo_bot.Signals.{MarketCandle}
use binance_futures_algo_bot.Backtest.{
  parameters_valid, request_valid, BacktestRunRequest, done, raised, zero_division,
}
use binance_futures_algo_bot.Backtest.Series.{replicate}
use binance_futures_algo_bot.Backtest.Simulate.{signals_at, first_candidate, simulate_from_signals}
use binance_futures_algo_bot.Backtest.Walk.{run}
use binance_futures_algo_bot.Backtest.Solvent.{IsPositive}
use binance_futures_algo_bot.Backtest.Returns.{simulate_from_signals-Simulates, Simulates}
use binance_futures_algo_bot.Backtest.Run.{run-Ends, Ends}

abbrev payload : BacktestRunRequest Fixed
payload = record {
  symbol = codes "BTCUSDT";
  timeframe = codes "15m";
  candles_limit = 50;
  training_window = 30;
  testing_window = 10;
  initial_capital = d 1000 0;
  fee_rate = d 4 4;
}

abbrev candle : MarketCandle Fixed
candle = record {
  symbol = codes "BTCUSDT";
  timeframe = codes "15m";
  open_time_ms = 0;
  close_time_ms = 899_999;
  high_price = d 101 0;
  low_price = d 99 0;
  close_price = d 100 0;
}

replicate-priced :
    (n : ℕ) → All (λ row. IsPositive {F = Fixed} row.close_price) (replicate n candle)
unfolding fixed_float
replicate-priced zero = tt
replicate-priced (suc n) = (refl, replicate-priced n)

run-Ends_example : Ends payload (replicate 50 candle) (run payload (replicate 50 candle))
unfolding request_valid fixed_float
run-Ends_example = run-Ends Fixed-IsFloat payload (replicate 50 candle) refl (replicate-priced 50)

abbrev prices : List Fixed
prices = d 10 0 ∷ d 20 0 ∷ d 15 0 ∷ []

abbrev entries : List Bool
entries = true ∷ false ∷ false ∷ []

abbrev exits : List Bool
exits = false ∷ true ∷ false ∷ []

-- bought at 10 and sold at 20, without a fee
doubled :
    simulate_from_signals prices entries exits (d 100 0) (d 0 0) 0
    ≡ done (record {
      metrics = record {
        total_return_pct = d 100 0;
        win_rate_pct = d 100 0;
        profit_factor = none;
        max_drawdown_pct = d 0 0;
        trades_count = 1;
        ending_capital = d 200 0;
      };
      trade_pnls = d 100 0 ∷ [];
      equity_curve = d 100 0 ∷ d 100 0 ∷ d 200 0 ∷ d 200 0 ∷ [];
    })
unfolding simulate_from_signals fixed_float
doubled = refl

-- an entry at a price of 0
divided :
    simulate_from_signals (d 0 0 ∷ []) (true ∷ []) (false ∷ []) (d 100 0) (d 0 0) 0
    ≡ raised zero_division
unfolding simulate_from_signals fixed_float
divided = refl

simulate_from_signals-Simulates_example :
    Simulates 3 (simulate_from_signals prices entries exits (d 100 0) (d 0 0) 0)
unfolding fixed_float
simulate_from_signals-Simulates_example =
    simulate_from_signals-Simulates Fixed-IsFloat prices entries exits (d 100 0) (d 0 0) 0 3
      (omega arith) refl refl (refl, (refl, (refl, tt))) refl refl

-- the first candidate at prices that do not move
signals_at-exclusive_example :
    ((signals_at (first_candidate {F = Fixed}) (replicate 40 (d 100 0)) 0 35).0
      && (signals_at (first_candidate {F = Fixed}) (replicate 40 (d 100 0)) 0 35).1)
    ≡ false
unfolding parameters_valid first_candidate fixed_float
signals_at-exclusive_example =
    signals_at-exclusive Fixed-IsFloat (first_candidate {F = Fixed}) (replicate 40 (d 100 0)) 0 35
      refl

-- ===== src/Signals/Tests.antt =====
-- Runs of the indicators on decimals, and the bounds at these.
use binance_futures_algo_bot.Common.{arith, [], ◌∷◌, List, ◌≡◌, refl, some}
use binance_futures_algo_bot.Float.{dec, ◌≼◌}
use binance_futures_algo_bot.Float.Fixed.{Fixed, fixed_float, Fixed-IsFloat}
use binance_futures_algo_bot.Risk.Tests.{d}
use binance_futures_algo_bot.Signals.{strength, average_of, deltas, rsi, momentum}
use binance_futures_algo_bot.Signals.Bounds.{rsi-IsPct}

abbrev prices : List Fixed
prices = d 10 0 ∷ d 11 0 ∷ d 9 0 ∷ d 12 0 ∷ []

-- two gains, of 1 and 3, around a loss of 2
rsi_run : rsi prices 2 ≡ some (d 77777778 6)
unfolding rsi fixed_float deltas average_of strength
rsi_run = refl

rsi-IsPct_example : (d 0 0 ≼ d 77777778 6) × (d 77777778 6 ≼ dec 100 0)
unfolding fixed_float
rsi-IsPct_example =
    rsi-IsPct Fixed-IsFloat prices 2 (d 77777778 6) (omega arith) (omega arith) rsi_run

momentum_run : momentum prices 2 ≡ some (d 1 0)
unfolding momentum fixed_float
momentum_run = refl

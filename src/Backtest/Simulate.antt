-- ===== src/Backtest/Simulate.antt =====
-- A simulation over closing prices (`_simulate_strategy`, `_simulate_buy_and_hold`,
-- `_simulate_from_signals` and the selection of the parameters in
-- apps/api/app/services/backtesting_service.py).
use binance_futures_algo_bot.Common.{
  drop, ◌&&◌, ◌||◌, ◌-◌, ◌++◌, if◌then◌else◌, ltb, length, map, [], ◌∷◌, ℕ, zero, suc, Bool, true,
  false, List, Option, none, some,
}
use binance_futures_algo_bot.Float.{Float, ◌⊖◌, ◌⊗◌, ◌⊘◌, ◌<?◌, ◌≤?◌, feq, dec, nought, round_to}
use binance_futures_algo_bot.Backtest.{
  Outcome, done, raised, ◌>>=◌, zero_division, index_error, runtime_error, SimulationOutput,
  BacktestStrategyParameters,
}
use binance_futures_algo_bot.Backtest.Series.{replicate, ema_series, rsi_series}
use binance_futures_algo_bot.Backtest.Metrics.{build_metrics, is_better_result}

-- the variables of the loop over the candles
pub record Account (F : Type 0) : Type 0 where
  pub cash : F
  pub units : F
  pub entry_cost : F
  pub trade_pnls : List F
  pub equity_curve : List F

-- `values[index]` of a list of optional values, none out of range
abbrev pub at {ℓ} : {A : Type ℓ} → List (Option A) → ℕ → Option A
at [] n = none
at (x ∷ xs) zero = x
at (x ∷ xs) (suc n) = at xs n

-- `range(start, start + n)`
abbrev pub range_from : ℕ → ℕ → List ℕ
range_from start zero = []
range_from start (suc n) = start ∷ range_from (suc start) n

-- `xs[-1]`
abbrev pub last_of {ℓ} : {A : Type ℓ} → List A → Option A
last_of [] = none
last_of (x ∷ []) = some x
last_of (x ∷ y ∷ xs) = last_of (y ∷ xs)

-- `xs[-1] = value`
abbrev pub set_last {ℓ} : {A : Type ℓ} → List A → A → List A
set_last [] value = []
set_last (x ∷ []) value = value ∷ []
set_last (x ∷ y ∷ xs) value = x ∷ set_last (y ∷ xs) value

-- `entries[0] = True`
abbrev pub set_first {ℓ} : {A : Type ℓ} → List A → A → List A
set_first [] value = []
set_first (x ∷ xs) value = value ∷ xs

module _ {F : Type 0} ⦃f : Float F⦄ where
  -- the end of a pass of the loop
  unfoldable pub mark_equity : F → Account F → Account F
  mark_equity price a =
      let equity = if feq a.units nought then a.cash else a.units ⊗ price in
      record a { equity_curve = a.equity_curve ++ (round_to 6 equity ∷ []) }

  unfoldable pub buy : F → F → Account F → Outcome (Account F)
  buy fee_rate price a =
      if feq price nought
      then raised zero_division
      else done (record a {
        units = a.cash ⊗ (dec 1 0 ⊖ fee_rate) ⊘ price;
        entry_cost = a.cash;
        cash = nought;
      })

  unfoldable pub sell : F → F → Account F → Account F
  sell fee_rate price a =
      let cash = a.units ⊗ price ⊗ (dec 1 0 ⊖ fee_rate) in
      record a {
        cash = cash;
        trade_pnls = a.trade_pnls ++ ((cash ⊖ a.entry_cost) ∷ []);
        units = nought;
        entry_cost = nought;
      }

  -- one pass of the loop for a candle that is not before the start
  unfoldable pub trade_candle : F → F → Bool → Bool → Account F → Outcome (Account F)
  unfolding mark_equity buy sell
  trade_candle fee_rate price entry exit a =
      (if entry && (feq a.units nought && (nought <? a.cash))
        then buy fee_rate price a
        else if exit && (nought <? a.units)
        then done (sell fee_rate price a)
        else done a)
      >>= λ b. done (mark_equity price b)

  -- The loop, where `skip` candles are still before the start. The signals of these are not read, and an
  -- exit is read only where the candle is not an entry that is taken.
  unfoldable pub trade_candles :
      F → ℕ → List F → List Bool → List Bool → Account F → Outcome (Account F)
  unfolding trade_candle
  trade_candles fee_rate skip [] entries exits a = done a
  trade_candles fee_rate (suc skip) (price ∷ closes) entries exits a =
      trade_candles fee_rate skip closes (drop 1 entries) (drop 1 exits) a
  trade_candles fee_rate zero (price ∷ closes) (entry ∷ entries) (exit ∷ exits) a =
      trade_candle fee_rate price entry exit a >>= λ b.
      trade_candles fee_rate zero closes entries exits b
  trade_candles fee_rate zero (price ∷ closes) [] exits a = raised index_error
  trade_candles fee_rate zero (price ∷ closes) (entry ∷ entries) [] a =
      if entry && (feq a.units nought && (nought <? a.cash))
      then (trade_candle fee_rate price entry false a >>= λ b.
          trade_candles fee_rate zero closes entries [] b)
      else raised index_error

  -- the sale of what is held after the last candle
  unfoldable pub liquidate : F → Option F → Account F → Outcome (Account F)
  liquidate fee_rate none a = if nought <? a.units then raised runtime_error else done a
  liquidate fee_rate (some price) a =
      let final_cash = a.units ⊗ price ⊗ (dec 1 0 ⊖ fee_rate) in
      if nought <? a.units
      then done (record a {
        cash = final_cash;
        trade_pnls = a.trade_pnls ++ ((final_cash ⊖ a.entry_cost) ∷ []);
        equity_curve = set_last a.equity_curve (round_to 6 final_cash);
      })
      else done a

  unfoldable pub open_account : F → Account F
  open_account initial_capital = record {
    cash = initial_capital;
    units = nought;
    entry_cost = nought;
    trade_pnls = [];
    equity_curve = initial_capital ∷ [];
  }

  unfoldable pub output_of : F → Account F → SimulationOutput F
  unfolding build_metrics
  output_of initial_capital a = record {
    metrics = build_metrics initial_capital a.cash a.trade_pnls a.equity_curve;
    trade_pnls = a.trade_pnls;
    equity_curve = a.equity_curve;
  }

  -- `_simulate_from_signals`
  unfoldable pub simulate_from_signals :
      List F → List Bool → List Bool → F → F → ℕ → Outcome (SimulationOutput F)
  unfolding trade_candles liquidate open_account output_of
  simulate_from_signals closes entries exits initial_capital fee_rate start_index =
      trade_candles fee_rate start_index closes entries exits (open_account initial_capital)
      >>= λ a. liquidate fee_rate (last_of closes) a >>= λ b. done (output_of initial_capital b)

  -- whether a candle is an entry, and whether it is an exit, by the two averages there and on the
  -- candle before it, and the index of strength there; neither where one of these is missing
  unfoldable pub candle_signals :
      BacktestStrategyParameters F
      → Option F
      → Option F
      → Option F
      → Option F
      → Option F
      → Bool × Bool
  candle_signals p (some fast) (some slow) (some fast_before) (some slow_before) (some rsi) =
      let crossed_up = (slow <? fast) && (fast_before ≤? slow_before) in
      let crossed_down = (fast <? slow) && (slow_before ≤? fast_before) in
      (crossed_up && (p.rsi_entry_min ≤? rsi), crossed_down || (rsi ≤? p.rsi_exit_max))
  candle_signals p none slow fast_before slow_before rsi = (false, false)
  candle_signals p (some fast) none fast_before slow_before rsi = (false, false)
  candle_signals p (some fast) (some slow) none slow_before rsi = (false, false)
  candle_signals p (some fast) (some slow) (some fast_before) none rsi = (false, false)
  candle_signals p (some fast) (some slow) (some fast_before) (some slow_before) none =
      (false, false)

  -- `entries[index]` and `exits[index]` after the loop of `_simulate_strategy`
  unfoldable pub signals_at : BacktestStrategyParameters F → List F → ℕ → ℕ → Bool × Bool
  unfolding ema_series rsi_series candle_signals
  signals_at p closes start_index index =
      let fast = ema_series closes p.ema_fast_period in
      let slow = ema_series closes p.ema_slow_period in
      if ltb index 1 || ltb index start_index
      then (false, false)
      else candle_signals p (at fast index) (at slow index) (at fast (index - 1))
          (at slow (index - 1)) (at (rsi_series closes 14) index)

  -- `_simulate_strategy`
  unfoldable pub simulate_strategy :
      List F → BacktestStrategyParameters F → F → F → ℕ → Outcome (SimulationOutput F)
  unfolding signals_at simulate_from_signals
  simulate_strategy closes parameters initial_capital fee_rate start_index =
      let indices = range_from 0 (length closes) in
      let signals = map (signals_at parameters closes start_index) indices in
      simulate_from_signals closes (map (λ s. s.0) signals) (map (λ s. s.1) signals) initial_capital
        fee_rate start_index

  -- `_simulate_buy_and_hold`
  unfoldable pub simulate_buy_and_hold : List F → F → F → Outcome (SimulationOutput F)
  unfolding simulate_from_signals
  simulate_buy_and_hold closes initial_capital fee_rate =
      simulate_from_signals closes (set_first (replicate (length closes) false) true)
        (set_last (replicate (length closes) false) true) initial_capital fee_rate 0

  -- `CANDIDATE_PARAMETERS`, the first of them apart
  unfoldable pub first_candidate : BacktestStrategyParameters F
  first_candidate = record {
    ema_fast_period = 12;
    ema_slow_period = 30;
    rsi_entry_min = dec 50 0;
    rsi_exit_max = dec 47 0;
  }

  unfoldable pub other_candidates : List (BacktestStrategyParameters F)
  other_candidates =
      record {
        ema_fast_period = 9;
        ema_slow_period = 30;
        rsi_entry_min = dec 50 0;
        rsi_exit_max = dec 45 0;
      }
      ∷ record {
        ema_fast_period = 5;
        ema_slow_period = 30;
        rsi_entry_min = dec 50 0;
        rsi_exit_max = dec 45 0;
      }
      ∷ []

  -- the loop over the candidates after the first, with the best so far
  unfoldable pub select_best :
      List F
      → F
      → F
      → List (BacktestStrategyParameters F)
      → BacktestStrategyParameters F × SimulationOutput F
      → Outcome (BacktestStrategyParameters F × SimulationOutput F)
  unfolding simulate_strategy is_better_result
  select_best closes initial_capital fee_rate [] best = done best
  select_best closes initial_capital fee_rate (p ∷ candidates) best =
      simulate_strategy closes p initial_capital fee_rate 0 >>= λ candidate.
      select_best closes initial_capital fee_rate candidates
        (if is_better_result candidate best.1 then (p, candidate) else best)

  -- `_select_best_simulation_with_parameters`
  unfoldable pub select_best_simulation :
      List F → F → F → Outcome (BacktestStrategyParameters F × SimulationOutput F)
  unfolding simulate_strategy select_best first_candidate other_candidates
  select_best_simulation closes initial_capital fee_rate =
      simulate_strategy closes first_candidate initial_capital fee_rate 0 >>= λ best.
      select_best closes initial_capital fee_rate other_candidates (first_candidate, best)

-- ===== src/Backtest/Returns.antt =====
-- Every simulation of a backtest returns, on positive prices (`_simulate_from_signals`,
-- `_simulate_strategy`, `_simulate_buy_and_hold` and `_select_best_simulation_with_parameters` of
-- apps/api/app/services/backtesting_service.py).
use binance_futures_algo_bot.Common.{
  ◌≡◌, ◌-◌, ◌+◌, refl, inl, inr, arith, if◌then◌else◌, length, map, [], ◌∷◌, ℕ, zero, suc, Bool,
  true, false, List, All, Bool-cases, some,
}
use binance_futures_algo_bot.Float.{Float, ◌≼◌, ◌<?◌, dec, nought, round_to}
use binance_futures_algo_bot.Float.Order.{IsFloat}
use binance_futures_algo_bot.Backtest.{Outcome, done, SimulationOutput, BacktestStrategyParameters}
use binance_futures_algo_bot.Backtest.Series.{replicate}
use binance_futures_algo_bot.Backtest.Simulate.{
  Account, trade_candles, liquidate, open_account, output_of, simulate_from_signals,
  simulate_strategy, simulate_buy_and_hold, signals_at, range_from, set_last, set_first,
  select_best, select_best_simulation, first_candidate, other_candidates,
}
use binance_futures_algo_bot.Backtest.Metrics.{is_better_result, build_metrics}
use binance_futures_algo_bot.Backtest.Bounds.{AreBounded, build_metrics-AreBounded, round_6-nonneg}
use binance_futures_algo_bot.Backtest.Solvent.{
  AreNonneg, IsPositive, IsSolvent, Continues, trade_candles-Continues, sale-nonneg,
  positive-nonneg, set_last-nonneg, last_of-IsPositive, length-set_last,
}

length-map : {A B : Type 0} (g : A → B) (xs : List A) → length (map g xs) ≡ length xs
length-map g [] = refl
length-map g (x ∷ xs) = omega (arith, length-map g xs)

length-range_from : (start n : ℕ) → length (range_from start n) ≡ n
length-range_from start zero = refl
length-range_from start (suc n) = omega (arith, length-range_from (suc start) n)

length-replicate : {A : Type 0} (n : ℕ) (x : A) → length (replicate n x) ≡ n
length-replicate zero x = refl
length-replicate (suc n) x = omega (arith, length-replicate n x)

length-set_first : {A : Type 0} (xs : List A) (x : A) → length (set_first xs x) ≡ length xs
length-set_first [] x = refl
length-set_first (y ∷ xs) x = refl

module _ {F : Type 0} ⦃f : Float F⦄ where
  build_metrics-trades :
      (initial ending : F) (pnls curve : List F)
      → (build_metrics initial ending pnls curve).trades_count ≡ length pnls
  unfolding build_metrics
  build_metrics-trades initial ending pnls curve = refl

  -- A simulation that returns: with bounded metrics, which count its trades, and an equity curve of
  -- the capital and then one point for each of `n` candles.
  pub record IsSimulated (n : ℕ) (o : SimulationOutput F) : Type 0 where
    pub bounded : AreBounded o.metrics
    pub counted : o.metrics.trades_count ≡ length o.trade_pnls
    pub points : length o.equity_curve ≡ n + 1
    pub curve : AreNonneg o.equity_curve

  abbrev pub Simulates : ℕ → Outcome (SimulationOutput F) → Type 0
  Simulates n r = (o : SimulationOutput F) × (r ≡ done o) × IsSimulated n o

  module _ (laws : IsFloat F) where
    open laws use {le_refl}

    liquidate-Continues :
        (fee_rate price : F) (a : Account F)
        → fee_rate ≼ dec 1 0
        → IsPositive price
        → IsSolvent a
        → Continues laws a 0 (liquidate fee_rate (some price) a)
    unfolding liquidate
    liquidate-Continues fee_rate price a hf hp h =
        let proceeds =
          sale-nonneg laws fee_rate price a.units hf (positive-nonneg laws price hp) h.units in
        elim (Bool-cases (nought <? a.units)) [
          | inl e ↦ rw e (
            _,
            refl,
            record {
              cash = proceeds;
              units = h.units;
              curve = set_last-nonneg a.equity_curve _ h.curve (round_6-nonneg laws _ proceeds);
            },
            omega (arith, length-set_last a.equity_curve (round_to 6 _)),
          )
          | inr e ↦ rw e (a, refl, h, omega arith)
        ]

    open_account-IsSolvent : (capital : F) → nought ≼ capital → IsSolvent (open_account capital)
    unfolding open_account
    open_account-IsSolvent capital h = record { cash = h; units = le_refl nought; curve = (h, tt) }

    length-open_account : (capital : F) → length (open_account capital).equity_curve ≡ 1
    unfolding open_account
    length-open_account capital = refl

    output_of-IsSimulated :
        (n : ℕ) (capital : F) (a : Account F)
        → IsSolvent a
        → length a.equity_curve ≡ n + 1
        → IsSimulated n (output_of capital a)
    unfolding output_of
    output_of-IsSimulated n capital a h e = record {
      bounded =
          build_metrics-AreBounded laws capital a.cash a.trade_pnls a.equity_curve h.cash h.curve;
      counted = build_metrics-trades capital a.cash a.trade_pnls a.equity_curve;
      points = e;
      curve = h.curve;
    }

    -- A simulation of any signals, one of each kind for a candle, on closing prices that are greater
    -- than 0, returns, where the capital is not negative and the fee at most 1: its curve has the
    -- capital and one point for each candle from the start on, none of them negative, its metrics
    -- count its trades, the capital at the end is not negative, and the share of won trades and the
    -- largest fall are between 0 and 100.
    pub simulate_from_signals-Simulates :
        (closes : List F) (entries exits : List Bool) (capital fee_rate : F) (start n : ℕ)
        → n ≡ length closes - start
        → nought ≼ capital
        → fee_rate ≼ dec 1 0
        → All IsPositive closes
        → length entries ≡ length closes
        → length exits ≡ length closes
        → Simulates n (simulate_from_signals closes entries exits capital fee_rate start)
    unfolding simulate_from_signals trade_candles liquidate open_account
    simulate_from_signals-Simulates [] entries exits capital fee start n d hc hf hs ne nx =
        rw (le_refl nought) (
          output_of capital (open_account capital),
          refl,
          output_of-IsSimulated n capital (open_account capital) (open_account-IsSolvent capital hc)
              (omega (arith, length-open_account capital)),
        )
    simulate_from_signals-Simulates (p ∷ ps) entries exits capital fee start n d hc hf hs ne nx =
        let (a, r, ha, k) =
          trade_candles-Continues laws fee start (p ∷ ps) entries exits (open_account capital) hf hs
            ne nx (open_account-IsSolvent capital hc) in
        let (y, e, hy) = last_of-IsPositive p ps hs in
        let (b, r2, hb, k2) = liquidate-Continues fee y a hf hy ha in
        rw (r, e, r2)
          (
            output_of capital b,
            refl,
            output_of-IsSimulated n capital b hb (omega (arith, length-open_account capital)),
          )

    pub simulate_strategy-Simulates :
        (closes : List F) (p : BacktestStrategyParameters F) (capital fee_rate : F) (start n : ℕ)
        → n ≡ length closes - start
        → nought ≼ capital
        → fee_rate ≼ dec 1 0
        → All IsPositive closes
        → Simulates n (simulate_strategy closes p capital fee_rate start)
    unfolding simulate_strategy
    simulate_strategy-Simulates closes p capital fee start n d hc hf hs =
        let signals = map (signals_at p closes start) (range_from 0 (length closes)) in
        let long : length signals ≡ length closes = omega (
          arith,
          length-map (signals_at p closes start) (range_from 0 (length closes)),
          length-range_from 0 (length closes),
        ) in
        simulate_from_signals-Simulates closes (map (λ s. s.0) signals) (map (λ s. s.1) signals)
          capital fee start n d hc hf hs (omega (arith, length-map (λ s. s.0) signals))
          (omega (arith, length-map (λ s. s.1) signals))

    pub simulate_buy_and_hold-Simulates :
        (closes : List F) (capital fee_rate : F)
        → nought ≼ capital
        → fee_rate ≼ dec 1 0
        → All IsPositive closes
        → Simulates (length closes) (simulate_buy_and_hold closes capital fee_rate)
    unfolding simulate_buy_and_hold
    simulate_buy_and_hold-Simulates closes capital fee hc hf hs =
        let flat = replicate (length closes) false in
        let long = length-replicate (length closes) false in
        simulate_from_signals-Simulates closes (set_first flat true) (set_last flat true) capital
          fee 0 (length closes) (omega arith) hc hf hs (omega (arith, length-set_first flat true))
          (omega (arith, length-set_last flat true))

    -- a choice of parameters that returns, with what they simulate
    abbrev pub Selects : ℕ → Outcome (BacktestStrategyParameters F × SimulationOutput F) → Type 0
    Selects n r =
        (best : BacktestStrategyParameters F × SimulationOutput F) × (r ≡ done best)
        × IsSimulated n best.1

    better :
        (n : ℕ) (b : Bool) (p : BacktestStrategyParameters F) (o : SimulationOutput F)
        (best : BacktestStrategyParameters F × SimulationOutput F)
        → IsSimulated n o
        → IsSimulated n best.1
        → IsSimulated n (if b then (p, o) else best).1
    better n true p o best h k = h
    better n false p o best h k = k

    select_best-Selects :
        (closes : List F) (capital fee_rate : F) (candidates : List (BacktestStrategyParameters F))
        (best : BacktestStrategyParameters F × SimulationOutput F)
        → nought ≼ capital
        → fee_rate ≼ dec 1 0
        → All IsPositive closes
        → IsSimulated (length closes) best.1
        → Selects (length closes) (select_best closes capital fee_rate candidates best)
    unfolding select_best
    select_best-Selects closes capital fee [] best hc hf hs h = (best, refl, h)
    select_best-Selects closes capital fee (p ∷ ps) best hc hf hs h =
        let (o, r, ho) =
          simulate_strategy-Simulates closes p capital fee 0 (length closes) (omega arith) hc hf
            hs in
        rw r (
          select_best-Selects closes capital fee ps
            (if is_better_result o best.1 then (p, o) else best) hc hf hs
            (better (length closes) (is_better_result o best.1) p o best ho h))

    pub select_best_simulation-Selects :
        (closes : List F) (capital fee_rate : F)
        → nought ≼ capital
        → fee_rate ≼ dec 1 0
        → All IsPositive closes
        → Selects (length closes) (select_best_simulation closes capital fee_rate)
    unfolding select_best_simulation
    select_best_simulation-Selects closes capital fee hc hf hs =
        let (o, r, ho) =
          simulate_strategy-Simulates closes first_candidate capital fee 0 (length closes)
            (omega arith) hc hf hs in
        rw r
          (select_best-Selects closes capital fee other_candidates (first_candidate, o) hc hf hs ho)

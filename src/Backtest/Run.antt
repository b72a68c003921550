-- ===== src/Backtest/Run.antt =====
-- What a backtest ends with (`run` of apps/api/app/services/backtesting_service.py).
use native.Mathlib.Nat.{mul-div-le, le-div_iff_mul-le}
use binance_futures_algo_bot.Common.{
  ◌⊎◌, ap, ◌≡◌, ◌≤◌, ◌<◌, ◌-◌, ◌+◌, ◌*◌, ◌/◌, refl, inl, inr, arith, length, ltb, [], ◌∷◌, ℕ, zero,
  suc, true, false, List, All, Bool-cases,
}
use binance_futures_algo_bot.Float.{Float, ◌≼◌, dec, nought}
use binance_futures_algo_bot.Float.Order.{IsFloat}
use binance_futures_algo_bot.Risk.Scale.{literal_le}
use binance_futures_algo_bot.Signals.{MarketCandle}
use binance_futures_algo_bot.Backtest.{
  Outcome, done, raised, data_not_found, backtesting_error, SimulationOutput, BacktestRunRequest,
  BacktestRunResponse, request_valid,
}
use binance_futures_algo_bot.Backtest.Walk.{
  WalkState, range_by, slice, closes_of, max_warmup, walk_window, walk_windows, window_starts,
  walk_start, summary_of, run,
}
use binance_futures_algo_bot.Backtest.Bounds.{AreBounded, build_metrics-AreBounded}
use binance_futures_algo_bot.Backtest.Solvent.{IsPositive}
use binance_futures_algo_bot.Backtest.Returns.{
  simulate_strategy-Simulates, simulate_buy_and_hold-Simulates, select_best_simulation-Selects,
}
use binance_futures_algo_bot.Backtest.Windows.{
  length-slice, ArePriced, closes_of-IsPositive, slice-priced, IsWindow, IsWalked, Walks,
  add_window-Walks,
}

module _ {F : Type 0} ⦃f : Float F⦄ where
  -- The figures of a response: the number of windows, which are at least two, and metrics that are
  -- bounded, over all rows, in each window, and out of sample.
  pub record IsReport (payload : BacktestRunRequest F) (total : ℕ) (r : BacktestRunResponse F)
      : Type 0 where
    pub used : r.candles_used ≡ total
    pub several : 2 ≤ r.walk_forward.windows_count
    pub count :
        r.walk_forward.windows_count ≡ (total - payload.training_window) / payload.testing_window
    pub listed : length r.walk_forward.windows ≡ r.walk_forward.windows_count
    pub windows : All IsWindow r.walk_forward.windows
    pub strategy : AreBounded r.full_period_strategy
    pub benchmark : AreBounded r.full_period_benchmark
    pub out_strategy : AreBounded r.walk_forward.out_of_sample_strategy
    pub out_benchmark : AreBounded r.walk_forward.out_of_sample_benchmark

  -- How a run ends: without rows, with too few, or with a report.
  pub Ends : BacktestRunRequest F → List (MarketCandle F) → Outcome (BacktestRunResponse F) → Type 0
  Ends payload rows r =
      let needed = payload.training_window + 2 * payload.testing_window in
      ((length rows ≡ 0) × (r ≡ raised data_not_found))
      ⊎ (((0 < length rows) × (length rows < needed) × (r ≡ raised backtesting_error))
          ⊎ ((needed ≤ length rows)
              × ((response : BacktestRunResponse F) × (r ≡ done response)
                  × IsReport payload (length rows) response)))

  -- what the checks of a request leave for the proofs
  record IsUsable (payload : BacktestRunRequest F) : Type 0 where
    capital : nought ≼ payload.initial_capital
    fee : payload.fee_rate ≼ dec 1 0
    training : 0 < payload.training_window
    testing : 0 < payload.testing_window

  module _ (laws : IsFloat F) where
    open laws use {le_refl, le_trans, le_total}

    request_valid-IsUsable :
        (payload : BacktestRunRequest F) → request_valid payload ≡ true → IsUsable payload
    unfolding request_valid
    request_valid-IsUsable payload h =
        let cheap : payload.fee_rate ≼ dec 5 2 = ground arith in
        record {
          capital = ground (arith, le_total payload.initial_capital nought);
          fee = le_trans _ _ _ cheap (literal_le laws 5 2 1 0 refl);
          training = ground arith;
          testing = ground arith;
        }

    walk_window-Walks :
        (payload : BacktestRunRequest F) (rows : List (MarketCandle F)) (start : ℕ)
        (s : WalkState F) (n : ℕ)
        → IsUsable payload
        → ArePriced rows
        → start + payload.training_window + payload.testing_window ≤ length rows
        → IsWalked n s
        → Walks (n + 1) (walk_window payload rows start s)
    unfolding walk_window
    walk_window-Walks payload rows start s n u hp fits h =
        let middle = start + payload.training_window in
        let stop = middle + payload.testing_window in
        let training = slice rows start middle in
        let testing = slice rows middle stop in
        let warm = slice rows (middle - max_warmup) stop in
        let long = length-slice rows start middle (omega arith) (omega arith) in
        let full = length-slice rows middle stop (omega arith) fits in
        let enough : ltb (length testing) payload.testing_window ≡ false = ground arith in
        let train = closes_of-IsPositive training (slice-priced rows start middle hp) in
        let test = closes_of-IsPositive testing (slice-priced rows middle stop hp) in
        let (best, e1, hi) =
          select_best_simulation-Selects laws (closes_of training) payload.initial_capital
            payload.fee_rate u.capital u.fee train in
        let (ib, e2, hib) =
          simulate_buy_and_hold-Simulates laws (closes_of training) payload.initial_capital
            payload.fee_rate u.capital u.fee train in
        let offset = length (closes_of warm) - length (closes_of testing) in
        let (out, e3, ho) =
          simulate_strategy-Simulates laws (closes_of warm) best.0 s.oos_capital payload.fee_rate
            offset (length (closes_of warm) - offset) refl h.capital u.fee
            (closes_of-IsPositive warm (slice-priced rows (middle - max_warmup) stop hp)) in
        let (ob, e4, hob) =
          simulate_buy_and_hold-Simulates laws (closes_of testing) s.oos_capital payload.fee_rate
            h.capital u.fee test in
        rw (enough, e1, e2, e3, e4)
          (add_window-Walks training testing best ib out ob s n _ _ _ _ (omega (arith, u.training))
            (omega (arith, u.testing)) (slice-priced rows middle stop hp) hi hib ho hob h)

    walk_windows-Walks :
        (payload : BacktestRunRequest F) (rows : List (MarketCandle F)) (start count : ℕ)
        (s : WalkState F) (n total : ℕ)
        → n + count ≡ total
        → IsUsable payload
        → ArePriced rows
        → start + payload.training_window + count * payload.testing_window ≤ length rows
        → IsWalked n s
        → Walks total (walk_windows payload rows (range_by payload.testing_window start count) s)
    unfolding walk_windows
    walk_windows-Walks payload rows start zero s n total e u hp fits h = (
      s,
      refl,
      record {
        count = omega (arith, h.count);
        windows = h.windows;
        capital = h.capital;
        curve = h.curve;
        closes = h.closes;
      },
    )
    walk_windows-Walks payload rows start (suc count) s n total e u hp fits h =
        let (t, r, ht) = walk_window-Walks payload rows start s n u hp (omega arith) h in
        let (v, r2, hv) =
          walk_windows-Walks payload rows (start + payload.testing_window) count t (n + 1) total
            (omega arith) u hp (omega arith) ht in
        rw r (v, r2, hv)

    walk_start-IsWalked :
        (payload : BacktestRunRequest F) → IsUsable payload → IsWalked 0 (walk_start payload)
    unfolding walk_start
    walk_start-IsWalked payload u = record {
      count = refl;
      windows = tt;
      capital = u.capital;
      curve = (u.capital, tt);
      closes = tt;
    }

    -- the number of windows, as the loop counts them
    window_count :
        (total training testing : ℕ)
        → training + 2 * testing ≤ total
        → 0 < testing
        → (total - (training + testing) + testing) / testing ≡ (total - training) / testing
    window_count total training testing h k = ap (λ x. x / testing) (omega arith)

    window_fits :
        (total training testing : ℕ)
        → training + 2 * testing ≤ total
        → 0 + training + (total - training) / testing * testing ≤ total
    window_fits total training testing h = omega (arith, mul-div-le (total - training) testing)

    two_windows :
        (total training testing : ℕ)
        → training + 2 * testing ≤ total
        → 0 < testing
        → 2 ≤ (total - training) / testing
    two_windows total training testing h k = (le-div_iff_mul-le {k = testing} k).1 (omega arith)

    walked :
        (payload : BacktestRunRequest F) (rows : List (MarketCandle F))
        → IsUsable payload
        → ArePriced rows
        → payload.training_window + 2 * payload.testing_window ≤ length rows
        → Walks
            ((length rows - payload.training_window) / payload.testing_window)
            (walk_windows payload rows (window_starts payload (length rows)) (walk_start payload))
    unfolding window_starts
    walked payload rows u hp h =
        rw (window_count (length rows) payload.training_window payload.testing_window h u.testing) (
          walk_windows-Walks payload rows 0
            ((length rows - payload.training_window) / payload.testing_window) (walk_start payload)
            0 _ (omega arith) u hp
            (window_fits (length rows) payload.training_window payload.testing_window h)
            (walk_start-IsWalked payload u))

    summary-out :
        (payload : BacktestRunRequest F) (n : ℕ) (s : WalkState F) (o : SimulationOutput F)
        → IsWalked n s
        → AreBounded (summary_of payload s o).out_of_sample_strategy
    unfolding summary_of
    summary-out payload n s o h =
        build_metrics-AreBounded laws payload.initial_capital s.oos_capital s.oos_trade_pnls
          s.oos_equity_curve h.capital h.curve

    run-reports :
        (payload : BacktestRunRequest F) (row : MarketCandle F) (rows : List (MarketCandle F))
        → IsUsable payload
        → ArePriced (row ∷ rows)
        → payload.training_window + 2 * payload.testing_window ≤ length (row ∷ rows)
        → (response : BacktestRunResponse F) × (run payload (row ∷ rows) ≡ done response)
          × IsReport payload (length (row ∷ rows)) response
    unfolding run summary_of
    run-reports payload row rows u hp h =
        let all = row ∷ rows in
        let capital = payload.initial_capital in
        let fee = payload.fee_rate in
        let priced = closes_of-IsPositive all hp in
        let enough : ltb (length all) (payload.training_window + 2 * payload.testing_window)
            ≡ false =
          ground arith in
        let (best, e1, h1) =
          select_best_simulation-Selects laws (closes_of all) capital fee u.capital u.fee priced in
        let (hold, e2, h2) =
          simulate_buy_and_hold-Simulates laws (closes_of all) capital fee u.capital u.fee priced in
        let (s, e3, h3) = walked payload all u hp h in
        let (out, e4, h4) =
          simulate_buy_and_hold-Simulates laws s.benchmark_closes capital fee u.capital u.fee
            h3.closes in
        rw (enough, e1, e2, e3, e4)
          (
            _,
            refl,
            record {
              used = refl;
              several = omega (
                arith,
                h3.count,
                two_windows (length all) payload.training_window payload.testing_window h u.testing,
              );
              count = h3.count;
              listed = refl;
              windows = h3.windows;
              strategy = h1.bounded;
              benchmark = h2.bounded;
              out_strategy = summary-out payload _ s out h3;
              out_benchmark = h4.bounded;
            },
          )

    -- A run of a valid request on candles whose closing prices are greater than 0 always ends: it
    -- raises that there is no data exactly if there are no candles, it raises a backtesting error
    -- exactly if there are some but fewer than the training and two testing windows need, and it
    -- returns otherwise. What it returns has (candles - training) / testing windows, at least two,
    -- and in all of its metrics the capital at the end is not negative and the share of won trades
    -- and the largest fall are between 0 and 100.
    pub run-Ends :
        (payload : BacktestRunRequest F) (rows : List (MarketCandle F))
        → request_valid payload ≡ true
        → All (λ row. IsPositive row.close_price) rows
        → Ends payload rows (run payload rows)
    unfolding run Ends
    run-Ends payload [] h hp = inl (refl, refl)
    run-Ends payload (row ∷ rows) h hp =
        let u = request_valid-IsUsable payload h in
        let needed = payload.training_window + 2 * payload.testing_window in
        elim (Bool-cases (ltb (length (row ∷ rows)) needed)) [
          | inl e ↦ inr (inl (omega arith, ground arith, rw e refl))
          | inr e ↦
              let fits : needed ≤ length (row ∷ rows) = ground arith in
              inr (inr (fits, run-reports payload row rows u hp fits))
        ]

-- ===== src/Backtest/Windows.antt =====
-- The windows of a walk (`run` of apps/api/app/services/backtesting_service.py): their rows, and what
-- one of them adds.
use binance_futures_algo_bot.Common.{
  ◌≡◌, ◌≤◌, ◌<◌, ◌-◌, ◌+◌, refl, arith, length, take, drop, All-take, All-drop, All-append,
  length-append, [], ◌∷◌, ℕ, zero, suc, List, All,
}
use binance_futures_algo_bot.Float.{Float, ◌≼◌, nought}
use binance_futures_algo_bot.Signals.{MarketCandle}
use binance_futures_algo_bot.Backtest.{
  Outcome, done, SimulationOutput, BacktestStrategyParameters, BacktestWindowResult,
}
use binance_futures_algo_bot.Backtest.Walk.{
  WalkState, slice, first_item, last_item, closes_of, add_window,
}
use binance_futures_algo_bot.Backtest.Bounds.{AreBounded}
use binance_futures_algo_bot.Backtest.Solvent.{AreNonneg, IsPositive}
use binance_futures_algo_bot.Backtest.Returns.{IsSimulated}

length-drop : {A : Type 0} (n : ℕ) (xs : List A) → length (drop n xs) ≡ length xs - n
length-drop n [] = omega arith
length-drop zero (x ∷ xs) = omega arith
length-drop (suc n) (x ∷ xs) = omega (arith, length-drop n xs)

length-take : {A : Type 0} (n : ℕ) (xs : List A) → n ≤ length xs → length (take n xs) ≡ n
length-take n [] h = omega arith
length-take zero (x ∷ xs) h = omega arith
length-take (suc n) (x ∷ xs) h = omega (arith, length-take n xs (omega arith))

pub length-slice :
    {A : Type 0} (xs : List A) (start stop : ℕ)
    → start ≤ stop
    → stop ≤ length xs
    → length (slice xs start stop) ≡ stop - start
length-slice xs start stop h k =
    length-take (stop - start) (drop start xs) (omega (arith, length-drop start xs))

first_item-done : {A : Type 0} (xs : List A) → 0 < length xs → (x : A) × (first_item xs ≡ done x)
unfolding first_item
first_item-done [] h = absurd (omega arith)
first_item-done (x ∷ xs) h = (x, refl)

last_item-done : {A : Type 0} (xs : List A) → 0 < length xs → (x : A) × (last_item xs ≡ done x)
unfolding last_item
last_item-done [] h = absurd (omega arith)
last_item-done (x ∷ []) h = (x, refl)
last_item-done (x ∷ y ∷ xs) h = last_item-done (y ∷ xs) (omega arith)

module _ {F : Type 0} ⦃f : Float F⦄ where
  abbrev pub ArePriced : List (MarketCandle F) → Type 0
  ArePriced = All λ row. IsPositive row.close_price

  pub closes_of-IsPositive :
      (rows : List (MarketCandle F)) → ArePriced rows → All IsPositive (closes_of rows)
  closes_of-IsPositive [] h = tt
  closes_of-IsPositive (row ∷ rows) (h, hs) = (h, closes_of-IsPositive rows hs)

  pub slice-priced :
      (rows : List (MarketCandle F)) (start stop : ℕ)
      → ArePriced rows
      → ArePriced (slice rows start stop)
  slice-priced rows start stop h =
      All-take (λ row. IsPositive row.close_price) (stop - start) (drop start rows)
        (All-drop (λ row. IsPositive row.close_price) start rows h)

  -- a window whose four metrics are bounded
  pub record IsWindow (w : BacktestWindowResult F) : Type 0 where
    pub in_strategy : AreBounded w.in_sample_strategy
    pub in_benchmark : AreBounded w.in_sample_benchmark
    pub out_strategy : AreBounded w.out_of_sample_strategy
    pub out_benchmark : AreBounded w.out_of_sample_benchmark

  -- the variables of the loop after `n` windows
  pub record IsWalked (n : ℕ) (s : WalkState F) : Type 0 where
    pub count : length s.windows ≡ n
    pub windows : All IsWindow s.windows
    pub capital : nought ≼ s.oos_capital
    pub curve : AreNonneg s.oos_equity_curve
    pub closes : All IsPositive s.benchmark_closes

  abbrev pub Walks : ℕ → Outcome (WalkState F) → Type 0
  Walks n r = (s : WalkState F) × (r ≡ done s) × IsWalked n s

  pub add_window-Walks :
      (training testing : List (MarketCandle F))
      (best : BacktestStrategyParameters F × SimulationOutput F) (ib out ob : SimulationOutput F)
      (s : WalkState F) (n a b c d : ℕ)
      → 0 < length training
      → 0 < length testing
      → ArePriced testing
      → IsSimulated a best.1
      → IsSimulated b ib
      → IsSimulated c out
      → IsSimulated d ob
      → IsWalked n s
      → Walks (n + 1) (add_window training testing best ib out ob s)
  unfolding add_window
  add_window-Walks training testing best ib out ob s n a b c d ht hu hp hi hib ho hob h =
      let (t1, e1) = first_item-done training ht in
      let (t2, e2) = last_item-done training ht in
      let (u1, e3) = first_item-done testing hu in
      let (u2, e4) = last_item-done testing hu in
      rw (e1, e2, e3, e4)
        (
          _,
          refl,
          record {
            count = omega (arith, h.count, length-append s.windows (_ ∷ []));
            windows = All-append IsWindow s.windows _ h.windows (
              record {
                in_strategy = hi.bounded;
                in_benchmark = hib.bounded;
                out_strategy = ho.bounded;
                out_benchmark = hob.bounded;
              },
              tt,
            );
            capital = ho.bounded.ending;
            curve =
                All-append (λ x. nought ≼ x) s.oos_equity_curve _ h.curve
                  (All-drop (λ x. nought ≼ x) 1 out.equity_curve ho.curve);
            closes =
                All-append IsPositive s.benchmark_closes _ h.closes
                  (closes_of-IsPositive testing hp);
          },
        )

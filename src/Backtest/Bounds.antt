-- ===== src/Backtest/Bounds.antt =====
-- The bounds of the metrics (`_build_metrics` and `_max_drawdown_pct` of
-- apps/api/app/services/backtesting_service.py).
use binance_futures_algo_bot.Common.{
  ◌≡◌, ◌≤◌, inl, inr, arith, if◌then◌else◌, length, is_empty, [], ◌∷◌, ℕ, Bool, suc, false, List,
  All, Bool-cases, select,
}
use binance_futures_algo_bot.Float.{
  Float, ◌≼◌, ◌⊖◌, ◌⊗◌, ◌⊘◌, ◌≤?◌, ◌<?◌, feq, dec, nought, round_to, fmax,
}
use binance_futures_algo_bot.Float.Order.{IsFloat, le-fmax_left, le-fmax_right, fmax-le}
use binance_futures_algo_bot.Risk.Total.{IsPct, nought-IsPct}
use binance_futures_algo_bot.Signals.Bounds.{above_nought}
use binance_futures_algo_bot.Backtest.{BacktestMetrics}
use binance_futures_algo_bot.Backtest.Metrics.{drawdown, max_drawdown_pct, build_metrics}

length-select_le : {A : Type 0} (p : A → Bool) (xs : List A) → length (select p xs) ≤ length xs
unfolding select
length-select_le p [] = omega arith
length-select_le p (x ∷ xs) = ground (arith, length-select_le p xs)

module _ {F : Type 0} ⦃f : Float F⦄ where
  -- Metrics with a capital that is not negative, and shares that are percentages.
  pub record AreBounded (m : BacktestMetrics F) : Type 0 where
    pub ending : nought ≼ m.ending_capital
    pub wins : IsPct m.win_rate_pct
    pub fall : IsPct m.max_drawdown_pct

  module _ (laws : IsFloat F) where
    open laws use {le_refl, le_trans, le_total}

    -- rounding to six places keeps what is not negative, and percentages
    pub round_6-nonneg : (x : F) → nought ≼ x → nought ≼ round_to 6 x
    round_6-nonneg x h =
        rw (laws.round_whole 6 0 (omega arith) (omega arith)) at (laws.round_mono 6 nought x h)

    round_6-IsPct : (x : F) → IsPct x → IsPct (round_to 6 x)
    round_6-IsPct x (low, high) = (
      round_6-nonneg x low,
      rw (laws.round_whole 6 100 (omega arith) (omega arith)) at
          (laws.round_mono 6 x (dec 100 0) high),
    )

    -- a share in percent
    share-IsPct : (a b : F) → nought ≼ a → a ≼ b → (b ≤? nought) ≡ false → IsPct (a ⊘ b ⊗ dec 100 0)
    share-IsPct a b ha hb hp =
        let hundred = laws.dec_nonneg 100 0 in
        let q0 = laws.over_nonneg a b ha hp in
        (
          laws.times_nonneg (a ⊘ b) (dec 100 0) q0 hundred,
          le_trans _ _ _
              (laws.times_mono (a ⊘ b) (dec 1 0) (dec 100 0) (dec 100 0) q0
                (laws.over_le_one a b ha hb hp) hundred (le_refl _))
              (laws.one_times_le 100),
        )

    fmax-IsPct : (a b : F) → IsPct a → IsPct b → IsPct (fmax a b)
    fmax-IsPct a b (a0, a1) (b0, b1) =
        (le_trans _ _ _ a0 (le-fmax_left laws a b), fmax-le laws a b (dec 100 0) a1 b1)

    fall-IsPct :
        (top equity : F)
        → nought ≼ equity
        → equity ≼ top
        → feq top nought ≡ false
        → IsPct ((top ⊖ equity) ⊘ top ⊗ dec 100 0)
    fall-IsPct top equity h k e =
        share-IsPct (top ⊖ equity) top (laws.minus_nonneg top equity k) (laws.minus_le top equity h)
          (ground (arith, le_trans nought equity top h k))

    drawdown-IsPct :
        (peak d : F) (curve : List F)
        → IsPct d
        → All (λ x. nought ≼ x) curve
        → IsPct (drawdown peak d curve)
    unfolding drawdown
    drawdown-IsPct peak d [] h hs = h
    drawdown-IsPct peak d (equity ∷ curve) h (he, hs) =
        let top = fmax peak equity in
        elim (Bool-cases (feq top nought)) [
          | inl e ↦ rw e (drawdown-IsPct top d curve h hs)
          | inr e ↦ rw e (
              drawdown-IsPct top _ curve
                (fmax-IsPct d _ h (fall-IsPct top equity he (le-fmax_right laws peak equity) e)) hs)
        ]

    max_drawdown_pct-IsPct :
        (curve : List F) → All (λ x. nought ≼ x) curve → IsPct (max_drawdown_pct curve)
    unfolding max_drawdown_pct
    max_drawdown_pct-IsPct [] h = round_6-IsPct nought (nought-IsPct laws)
    max_drawdown_pct-IsPct (x ∷ xs) h =
        round_6-IsPct _ (drawdown-IsPct x nought (x ∷ xs) (nought-IsPct laws) h)

    count-pos : (n : ℕ) → (f.dec (suc n) 0 ≤? nought) ≡ false
    count-pos n =
        above_nought laws _ (laws.dec_le 1 0 (suc n) 0 (omega arith) (omega arith) (omega arith))

    win_rate-IsPct :
        (p : F → Bool) (pnls : List F)
        → IsPct {F = F} (
            if is_empty pnls
            then nought
            else round_to 6 (dec (length (select p pnls)) 0 ⊘ dec (length pnls) 0 ⊗ dec 100 0))
    win_rate-IsPct p [] = nought-IsPct laws
    win_rate-IsPct p (x ∷ xs) = round_6-IsPct _ (
        share-IsPct (dec (length (select p (x ∷ xs))) 0) (dec (suc (length xs)) 0)
          (laws.dec_nonneg _ 0)
          (laws.dec_le _ 0 (suc (length xs)) 0 (omega arith) (omega arith)
            (omega (arith, length-select_le p (x ∷ xs))))
          (count-pos (length xs)))

    pub build_metrics-AreBounded :
        (initial ending : F) (pnls curve : List F)
        → nought ≼ ending
        → All (λ x. nought ≼ x) curve
        → AreBounded (build_metrics initial ending pnls curve)
    unfolding build_metrics
    build_metrics-AreBounded initial ending pnls curve h hs = record {
      ending = round_6-nonneg ending h;
      wins = win_rate-IsPct (λ pnl. nought <? pnl) pnls;
      fall = max_drawdown_pct-IsPct curve hs;
    }

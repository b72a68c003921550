-- ===== src/Backtest/Solvent.antt =====
-- A simulation returns, on positive prices, and stays solvent (`_simulate_from_signals` and what
-- calls it in apps/api/app/services/backtesting_service.py).
use binance_futures_algo_bot.Common.{
  drop, ◌≡◌, ◌&&◌, ◌+◌, ◌-◌, refl, arith, if◌then◌else◌, length, length-append, All-append, [], ◌∷◌,
  ℕ, zero, suc, Bool, true, false, List, All, some,
}
use binance_futures_algo_bot.Float.{Float, ◌≼◌, ◌⊖◌, ◌⊗◌, ◌≤?◌, ◌<?◌, feq, dec, nought, round_to}
use binance_futures_algo_bot.Float.Order.{IsFloat}
use binance_futures_algo_bot.Backtest.{Outcome, done}
use binance_futures_algo_bot.Backtest.Simulate.{
  Account, mark_equity, buy, sell, trade_candle, trade_candles, last_of, set_last,
}
use binance_futures_algo_bot.Backtest.Bounds.{round_6-nonneg}

pub length-set_last : {A : Type 0} (xs : List A) (x : A) → length (set_last xs x) ≡ length xs
length-set_last [] x = refl
length-set_last (y ∷ []) x = refl
length-set_last (y ∷ z ∷ xs) x = omega (arith, length-set_last (z ∷ xs) x)

length-drop_1 : {A : Type 0} (xs : List A) (n : ℕ) → length xs ≡ suc n → length (drop 1 xs) ≡ n
length-drop_1 [] n h = ground arith
length-drop_1 (x ∷ []) n h = omega arith
length-drop_1 (x ∷ y ∷ xs) n h = omega arith

module _ {F : Type 0} ⦃f : Float F⦄ where
  -- greater than 0
  abbrev pub IsPositive : F → Type 0
  IsPositive x = (x ≤? nought) ≡ false

  abbrev pub AreNonneg : List F → Type 0
  AreNonneg = All λ x. nought ≼ x

  -- nothing that the account holds is negative
  pub record IsSolvent (a : Account F) : Type 0 where
    pub cash : nought ≼ a.cash
    pub units : nought ≼ a.units
    pub curve : AreNonneg a.equity_curve

  pub set_last-nonneg :
      (xs : List F) (x : F) → AreNonneg xs → nought ≼ x → AreNonneg (set_last xs x)
  set_last-nonneg [] x hs h = tt
  set_last-nonneg (y ∷ []) x hs h = (h, tt)
  set_last-nonneg (y ∷ z ∷ xs) x (hy, hs) h = (hy, set_last-nonneg (z ∷ xs) x hs h)

  pub last_of-IsPositive :
      (x : F) (xs : List F)
      → All IsPositive (x ∷ xs)
      → (y : F) × (last_of (x ∷ xs) ≡ some y) × IsPositive y
  last_of-IsPositive x [] (h, hs) = (x, refl, h)
  last_of-IsPositive x (y ∷ xs) (h, hs) = last_of-IsPositive y xs hs

  module _ (laws : IsFloat F) where
    open laws use {le_refl, le_trans, le_total}

    pub positive-nonneg : (x : F) → IsPositive x → nought ≼ x
    positive-nonneg x h = ground (arith, le_total x nought)

    kept : (fee_rate : F) → fee_rate ≼ dec 1 0 → nought ≼ dec 1 0 ⊖ fee_rate
    kept fee_rate h = laws.minus_nonneg (dec 1 0) fee_rate h

    mark_equity-IsSolvent :
        (price : F) (a : Account F) → nought ≼ price → IsSolvent a → IsSolvent (mark_equity price a)
    unfolding mark_equity
    mark_equity-IsSolvent price a hp h =
        let held = laws.times_nonneg a.units price h.units hp in
        record {
          cash = h.cash;
          units = h.units;
          curve =
              All-append (λ x. nought ≼ x) a.equity_curve _ h.curve
                (ground (arith, round_6-nonneg laws _ h.cash, round_6-nonneg laws _ held));
        }

    length-mark_equity :
        (price : F) (a : Account F)
        → length (mark_equity price a).equity_curve ≡ suc (length a.equity_curve)
    unfolding mark_equity
    length-mark_equity price a = omega (arith, length-append a.equity_curve (round_to 6 _ ∷ []))

    -- What a step leaves: an account that is solvent, with `n` more points of the curve.
    abbrev pub Continues : Account F → ℕ → Outcome (Account F) → Type 0
    Continues a n r =
        (b : Account F) × (r ≡ done b)
        × IsSolvent b
        × (length b.equity_curve ≡ length a.equity_curve + n)

    pub sale-nonneg :
        (fee_rate price units : F)
        → fee_rate ≼ dec 1 0
        → nought ≼ price
        → nought ≼ units
        → nought ≼ units ⊗ price ⊗ (dec 1 0 ⊖ fee_rate)
    sale-nonneg fee_rate price units hf hp hu =
        laws.times_nonneg (units ⊗ price) (dec 1 0 ⊖ fee_rate) (laws.times_nonneg units price hu hp)
          (kept fee_rate hf)

    buy-Continues :
        (fee_rate price : F) (a : Account F)
        → fee_rate ≼ dec 1 0
        → IsPositive price
        → IsSolvent a
        → Continues a 0 (buy fee_rate price a)
    unfolding buy
    buy-Continues fee_rate price a hf hp h = rw hp (
      _,
      refl,
      record {
        cash = le_refl nought;
        units =
            laws.over_nonneg _ price
              (laws.times_nonneg a.cash (dec 1 0 ⊖ fee_rate) h.cash (kept fee_rate hf)) hp;
        curve = h.curve;
      },
      omega arith,
    )

    sell-IsSolvent :
        (fee_rate price : F) (a : Account F)
        → fee_rate ≼ dec 1 0
        → nought ≼ price
        → IsSolvent a
        → IsSolvent (sell fee_rate price a)
    unfolding sell
    sell-IsSolvent fee_rate price a hf hp h = record {
      cash = sale-nonneg fee_rate price a.units hf hp h.units;
      units = le_refl nought;
      curve = h.curve;
    }

    length-sell :
        (fee_rate price : F) (a : Account F)
        → length (sell fee_rate price a).equity_curve ≡ length a.equity_curve + 0
    unfolding sell
    length-sell fee_rate price a = omega arith

    traded :
        (fee_rate price : F) (buys sells : Bool) (a : Account F)
        → fee_rate ≼ dec 1 0
        → IsPositive price
        → IsSolvent a
        → Continues a 0 (
            if buys
            then buy fee_rate price a
            else if sells
            then done (sell fee_rate price a)
            else done a)
    traded fee_rate price true sells a hf hp h = buy-Continues fee_rate price a hf hp h
    traded fee_rate price false true a hf hp h = (
      sell fee_rate price a,
      refl,
      sell-IsSolvent fee_rate price a hf (positive-nonneg price hp) h,
      length-sell fee_rate price a,
    )
    traded fee_rate price false false a hf hp h = (a, refl, h, omega arith)

    trade_candle-Continues :
        (fee_rate price : F) (entry exit : Bool) (a : Account F)
        → fee_rate ≼ dec 1 0
        → IsPositive price
        → IsSolvent a
        → Continues a 1 (trade_candle fee_rate price entry exit a)
    unfolding trade_candle
    trade_candle-Continues fee_rate price entry exit a hf hp h =
        let (b, e, hb, n) =
          traded fee_rate price (entry && (feq a.units nought && (nought <? a.cash)))
            (exit && (nought <? a.units)) a hf hp h in
        rw e (
          mark_equity price b,
          refl,
          mark_equity-IsSolvent price b (positive-nonneg price hp) hb,
          omega (arith, length-mark_equity price b),
        )

    pub trade_candles-Continues :
        (fee_rate : F) (skip : ℕ) (closes : List F) (entries exits : List Bool) (a : Account F)
        → fee_rate ≼ dec 1 0
        → All IsPositive closes
        → length entries ≡ length closes
        → length exits ≡ length closes
        → IsSolvent a
        → Continues a (length closes - skip) (trade_candles fee_rate skip closes entries exits a)
    unfolding trade_candles
    trade_candles-Continues fee skip [] es xs a hf hs n m h = (a, refl, h, omega arith)
    trade_candles-Continues fee (suc skip) (p ∷ ps) es xs a hf (hp, hs) n m h =
        let (b, r, hb, k) =
          trade_candles-Continues fee skip ps (drop 1 es) (drop 1 xs) a hf hs
            (length-drop_1 es (length ps) n) (length-drop_1 xs (length ps) m) h in
        (b, r, hb, omega arith)
    trade_candles-Continues fee zero (p ∷ ps) (e ∷ es) (x ∷ xs) a hf (hp, hs) n m h =
        let (b, r, hb, k) = trade_candle-Continues fee p e x a hf hp h in
        let (c, r2, hc, k2) =
          trade_candles-Continues fee zero ps es xs b hf hs (omega arith) (omega arith) hb in
        rw r (c, r2, hc, omega arith)
    trade_candles-Continues fee zero (p ∷ ps) [] xs a hf hs n m h = absurd (omega arith)
    trade_candles-Continues fee zero (p ∷ ps) (e ∷ es) [] a hf hs n m h = absurd (omega arith)

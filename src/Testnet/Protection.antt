-- ===== src/Testnet/Protection.antt =====
-- Where the protection prices lie (`_derive_protection_prices` of
-- apps/api/app/services/testnet_trading_service.py).
use binance_futures_algo_bot.Common.{inr, inl, Bool-cases, false, ◌⊎◌, true, if◌then◌else◌, ◌≡◌}
use binance_futures_algo_bot.Common.Texts.{Text, codes, text_eq}
use binance_futures_algo_bot.Float.{◌⊗◌, fabs, ◌⊕◌, ◌⊖◌, fmin, ◌<?◌, dec, fmax, Float, nought, ◌≼◌}
use binance_futures_algo_bot.Float.Order.{
  le-fmax_left, fmin-le_right, fmin-le_left, le-fmax_right, IsFloat,
}
use binance_futures_algo_bot.Testnet.Prices.{derive_protection_prices}

module _ {F : Type 0} ⦃f : Float F⦄ where
  -- the mark, or the price of the fill where there is no mark
  abbrev pub reference : F → F → F
  reference exchange_price mark_price = if nought <? mark_price then mark_price else exchange_price

  -- Both prices are at least `low` and at most `high`.
  abbrev pub Encloses : F → F → F → F → Type 0
  Encloses low high price mark = (low ≼ price) × (low ≼ mark) × (price ≼ high) × (mark ≼ high)

  module _ (laws : IsFloat F) where
    open laws use {le_refl, le_trans}

    buffered-nonneg : (x y : F) → nought ≼ fmax x (fmax y (dec 1 8))
    buffered-nonneg x y =
        le_trans nought (dec 1 8) (fmax x (fmax y (dec 1 8))) (laws.dec_nonneg 1 8) (
          le_trans (dec 1 8) (fmax y (dec 1 8)) (fmax x (fmax y (dec 1 8)))
            (le-fmax_right laws y (dec 1 8)) (le-fmax_right laws x (fmax y (dec 1 8))))

    -- what is below the lower of two prices and above the higher of them
    outside : (a b x y : F) → nought ≼ x → nought ≼ y → Encloses (fmin a b ⊖ x) (fmax a b ⊕ y) a b
    outside a b x y hx hy =
        let low = laws.minus_le (fmin a b) x hx in
        let high = laws.le_plus (fmax a b) y hy in
        (
          le_trans _ _ _ low (fmin-le_left laws a b),
          le_trans _ _ _ low (fmin-le_right laws a b),
          le_trans _ _ _ (le-fmax_left laws a b) high,
          le_trans _ _ _ (le-fmax_right laws a b) high,
        )

    -- The two prices enclose the price of the fill and the mark, which is that price where the exchange
    -- gives no mark: for a long position the stop is not above either and the take-profit not below
    -- either, and for any other side the other way round.
    pub derive_protection_prices-Encloses :
        (side : Text)
        (planned_entry planned_stop_loss planned_take_profit exchange_price mark_price : F)
        → let (stop, take_profit) =
            derive_protection_prices side planned_entry planned_stop_loss planned_take_profit
              exchange_price mark_price in
          let mark = reference exchange_price mark_price in
          ((text_eq side (codes "long") ≡ true) × Encloses stop take_profit exchange_price mark)
          ⊎ ((text_eq side (codes "long") ≡ false) × Encloses take_profit stop exchange_price mark)
    unfolding derive_protection_prices
    derive_protection_prices-Encloses side entry planned_stop planned_profit price mark_price =
        let mark = reference price mark_price in
        let stop = buffered-nonneg (fabs (entry ⊖ planned_stop)) (fabs mark ⊗ dec 1 3) in
        let profit = buffered-nonneg (fabs (planned_profit ⊖ entry)) (fabs mark ⊗ dec 1 3) in
        elim (Bool-cases (text_eq side (codes "long"))) [
          | inl e ↦ inl (e, rw e (outside price mark _ _ stop profit))
          | inr e ↦ inr (e, rw e (outside price mark _ _ profit stop))
        ]

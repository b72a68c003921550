-- ===== src/Testnet/Prices.antt =====
-- The prices of the protection orders, the rounding to the exchange's steps, and the exit that the
-- service detects itself (apps/api/app/services/testnet_trading_service.py).
use binance_futures_algo_bot.Common.{some, none, if◌then◌else◌, Option}
use binance_futures_algo_bot.Common.Texts.{Text, codes, text_eq}
use binance_futures_algo_bot.Float.{◌⊕◌, dec, ◌⊗◌, ◌⊖◌, ◌≤?◌, ◌<?◌, Float, nought, fmin, fmax, fabs}

-- `_get_exit_side`
unfoldable pub get_exit_side : Text → Text
unfolding text_eq
get_exit_side position_side =
    if text_eq position_side (codes "long") then codes "SELL" else codes "BUY"

pub data Trigger : Type 0 where
  stop_market take_profit_market : Trigger

module _ {F : Type 0} ⦃f : Float F⦄ where
  -- `_derive_protection_prices`: the stop and the take-profit
  unfoldable pub derive_protection_prices : Text → F → F → F → F → F → F × F
  unfolding fmin fmax fabs text_eq
  derive_protection_prices side planned_entry planned_stop_loss planned_take_profit exchange_price
        mark_price =
      let reference_mark = if nought <? mark_price then mark_price else exchange_price in
      let stop_distance = fabs (planned_entry ⊖ planned_stop_loss) in
      let take_profit_distance = fabs (planned_take_profit ⊖ planned_entry) in
      let safety_buffer = fmax (fabs reference_mark ⊗ dec 1 3) (dec 1 8) in
      let low = fmin exchange_price reference_mark in
      let high = fmax exchange_price reference_mark in
      if text_eq side (codes "long")
      then (low ⊖ fmax stop_distance safety_buffer, high ⊕ fmax take_profit_distance safety_buffer)
      else (high ⊕ fmax stop_distance safety_buffer, low ⊖ fmax take_profit_distance safety_buffer)

  -- `_detect_local_exit_trigger`
  unfoldable pub detect_local_exit_trigger : Text → F → F → F → Option Trigger
  unfolding text_eq
  detect_local_exit_trigger side mark_price stop_loss take_profit =
      if mark_price ≤? nought
      then none
      else if text_eq side (codes "long")
      then (if mark_price ≤? stop_loss
          then some stop_market
          else if take_profit ≤? mark_price
          then some take_profit_market
          else none)
      else if stop_loss ≤? mark_price
      then some stop_market
      else if mark_price ≤? take_profit
      then some take_profit_market
      else none

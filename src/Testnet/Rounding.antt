-- ===== src/Testnet/Rounding.antt =====
-- The rounding of quantities and prices to the exchange's steps
-- (apps/api/app/services/testnet_trading_service.py).
use binance_futures_algo_bot.Common.Int.{pos_part}
use binance_futures_algo_bot.Float.{◌⊗◌, ◌⊘◌, ◌⊖◌, nought, ◌≤?◌, round_to, Float}
use binance_futures_algo_bot.Common.{ltb, if◌then◌else◌, ℕ}

-- `mode`: "down", "up", or any other text
pub data RoundMode : Type 0 where
  down up nearest : RoundMode

module _ {F : Type 0} ⦃f : Float F⦄ where
  -- `max(0, min(12, int(round(-math.log10(step)))))`
  unfoldable pub decimals_of : F → ℕ
  decimals_of step =
      let n = pos_part (f.trunc (round_to 0 (nought ⊖ f.log10 step))) in if ltb 12 n then 12 else n

  -- `_round_to_step`
  unfoldable pub round_to_step : F → F → F
  unfolding decimals_of
  round_to_step quantity step_size =
      if step_size ≤? nought
      then quantity
      else round_to (decimals_of step_size) (f.floor (quantity ⊘ step_size) ⊗ step_size)

  unfoldable pub round_scaled : RoundMode → F → F
  round_scaled down scaled = f.floor scaled
  round_scaled up scaled = f.ceil scaled
  round_scaled nearest scaled = round_to 0 scaled

  -- `_round_price_to_tick`
  unfoldable pub round_price_to_tick : F → F → RoundMode → F
  unfolding decimals_of round_scaled
  round_price_to_tick price tick_size mode =
      if tick_size ≤? nought
      then price
      else round_to (decimals_of tick_size) (round_scaled mode (price ⊘ tick_size) ⊗ tick_size)

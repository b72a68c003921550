-- ===== src/Testnet/Quiet.antt =====
-- The methods that only ask the exchange and log (`_cancel_exchange_order_ref`, `_confirm_exchange_order`,
-- `_place_protection_orders` and the readings after an order) change no row.
use binance_futures_algo_bot.Risk.Schemas.{Value}
use binance_futures_algo_bot.Testnet.Refs.{ExchangeRef}
use binance_futures_algo_bot.Testnet.Payload.{Payload}
use binance_futures_algo_bot.Common.Json.{Json}
use binance_futures_algo_bot.Testnet.Place.{
  stop_only, of_attempt, neither, both, Protection, tick_size, submit_legacy, submit_algo,
  place_protection_orders, place_legacy, place_algo, log_submitted, log_orders_failed, fall_back,
  clean_up, attempt_orders, attempt_legacy, attempt_algo, Attempt,
}
use binance_futures_algo_bot.Testnet.Fills.{
  Fill, trades_failed, risk_failed, order_trades, live_risk, leverage_failed,
}
use binance_futures_algo_bot.Testnet.Logs.{is_market, logs_rules, Logs}
use binance_futures_algo_bot.Common.Texts.{Text}
use binance_futures_algo_bot.Db.{Order, TradePlan}
use binance_futures_algo_bot.Testnet.Confirm.{
  refresh_failed, look_up, confirm_exchange_order, cancel_unavailable, cancel_resolved,
  cancel_exchange_order_ref, cancel_failed,
}
use binance_futures_algo_bot.Float.{Float}
use binance_futures_algo_bot.Testnet.Exchange.{Act, Call, Failure, TestnetService}
use binance_futures_algo_bot.Common.{refl, false, Bool, ◌≡◌, List, ℕ, String, Option}

module _ {F : Type 0} ⦃f : Float F⦄ (service : TestnetService F) where
  cancel_failed-Logs :
      (plan : TradePlan F) (id : Option Text) (event_type : String) (e : Failure)
      → Logs (cancel_failed service plan id event_type e)
  unfolding cancel_failed
  cancel_failed-Logs plan id event_type e = search logs_rules

  cancel_unavailable-Logs :
      (plan : TradePlan F) (id : Option Text) (event_type literal : String)
      → Logs (cancel_unavailable service plan id event_type literal)
  unfolding cancel_unavailable
  cancel_unavailable-Logs plan id event_type literal = search logs_rules

  cancel_resolved-Logs :
      (plan : TradePlan F) (id : Option Text) (event_type : String) (ref : ExchangeRef)
      → Logs (cancel_resolved service plan id event_type ref)
  unfolding cancel_resolved is_market
  cancel_resolved-Logs plan id event_type ref =
      search (logs_rules, cancel_failed-Logs, cancel_unavailable-Logs)

  pub cancel_exchange_order_ref-Logs :
      (plan : TradePlan F) (id : Option Text) (event_type : String)
      → Logs (cancel_exchange_order_ref service plan id event_type)
  unfolding cancel_exchange_order_ref
  cancel_exchange_order_ref-Logs plan id event_type =
      search (logs_rules, cancel_failed-Logs, cancel_resolved-Logs)

  look_up-Logs :
      (symbol : Text) (order : Payload F) (id : Text) → Logs (look_up service symbol order id)
  unfolding look_up is_market
  look_up-Logs symbol order id = search logs_rules

  refresh_failed-Logs :
      (i : ℕ) (symbol : Text) (order : Payload F) (id : Text) (e : Failure)
      → Logs (refresh_failed service i symbol order id e)
  unfolding refresh_failed
  refresh_failed-Logs i symbol order id e = search logs_rules

  pub confirm_exchange_order-Logs :
      (i : ℕ) (symbol : Text) (order : Payload F) (id : Text)
      → Logs (confirm_exchange_order service i symbol order id)
  unfolding confirm_exchange_order
  confirm_exchange_order-Logs i symbol order id =
      search (logs_rules, look_up-Logs, refresh_failed-Logs)

  tick_size-Logs : (symbol : Text) → Logs (tick_size service symbol)
  unfolding tick_size is_market
  tick_size-Logs symbol = search logs_rules

  attempt_orders-Logs :
      (c d : Call F) → is_market c ≡ false → is_market d ≡ false → Logs (attempt_orders service c d)
  unfolding attempt_orders
  attempt_orders-Logs c d hc hd = search logs_rules

  attempt_algo-Logs : (p : Protection F) → Logs (attempt_algo service p)
  unfolding attempt_algo is_market
  attempt_algo-Logs p = attempt_orders-Logs _ _ refl refl

  attempt_legacy-Logs : (p : Protection F) → Logs (attempt_legacy service p)
  unfolding attempt_legacy is_market
  attempt_legacy-Logs p = attempt_orders-Logs _ _ refl refl

  clean_up-Logs :
      (p : Protection F) (named : Payload F → Text → Text) (a : Attempt F)
      → Logs (clean_up service p named a)
  unfolding clean_up
  clean_up-Logs p named (both stop take_profit) = search logs_rules
  clean_up-Logs p named (neither e) = search logs_rules
  clean_up-Logs p named (stop_only stop e) = search (logs_rules, cancel_exchange_order_ref-Logs)

  log_orders_failed-Logs :
      (p : Protection F) (e : Failure) (more : List (String × Value F))
      → Logs (log_orders_failed service p e more)
  unfolding log_orders_failed
  log_orders_failed-Logs p e more = search logs_rules

  log_submitted-Logs :
      (p : Protection F) (stop take_profit : Order F)
      → Logs (log_submitted service p stop take_profit)
  unfolding log_submitted
  log_submitted-Logs p stop take_profit = search logs_rules

  submit_algo-Logs :
      (p : Protection F) (stop take_profit : Payload F)
      → Logs (submit_algo service p stop take_profit)
  unfolding submit_algo
  submit_algo-Logs p stop take_profit = log_submitted-Logs p _ _

  submit_legacy-Logs :
      (p : Protection F) (stop take_profit : Payload F)
      → Logs (submit_legacy service p stop take_profit)
  unfolding submit_legacy
  submit_legacy-Logs p stop take_profit = log_submitted-Logs p _ _

  of_attempt-Logs :
      (a : Attempt F) (ok : Payload F → Payload F → Act F (Option (Order F × Order F)))
      (bad : Failure → Act F (Option (Order F × Order F)))
      → ((p q : Payload F) → Logs (ok p q))
      → ((e : Failure) → Logs (bad e))
      → Logs (of_attempt a ok bad)
  of_attempt-Logs (both p q) ok bad hok hbad = hok p q
  of_attempt-Logs (stop_only p e) ok bad hok hbad = hbad e
  of_attempt-Logs (neither e) ok bad hok hbad = hbad e

  ruleset place_rules = (
    logs_rules, attempt_algo-Logs, attempt_legacy-Logs, clean_up-Logs, log_orders_failed-Logs,
    submit_algo-Logs, submit_legacy-Logs, of_attempt-Logs,
  )

  fall_back-Logs :
      (p : Protection F) (e : Failure) (results : List (Text × Bool))
      → Logs (fall_back service p e results)
  unfolding fall_back
  fall_back-Logs p e results = search place_rules

  place_algo-Logs : (p : Protection F) → Logs (place_algo service p)
  unfolding place_algo
  place_algo-Logs p = search (place_rules, fall_back-Logs)

  place_legacy-Logs : (p : Protection F) → Logs (place_legacy service p)
  unfolding place_legacy
  place_legacy-Logs p = search place_rules

  pub place_protection_orders-Logs :
      (plan : TradePlan F) (exit_side id : Text) (price mark : F)
      → Logs (place_protection_orders service plan exit_side id price mark)
  unfolding place_protection_orders
  place_protection_orders-Logs plan exit_side id price mark =
      search (logs_rules, tick_size-Logs, place_algo-Logs, place_legacy-Logs)

  trades_failed-Logs :
      (plan : TradePlan F) (order_id : Json F) (id : Text) (e : Failure)
      → Logs (trades_failed service plan order_id id e)
  unfolding trades_failed
  trades_failed-Logs plan order_id id e = search logs_rules

  pub order_trades-Logs :
      (plan : TradePlan F) (order : Payload F) (id : Text)
      → Logs (order_trades service plan order id)
  unfolding order_trades is_market
  order_trades-Logs plan order id = search (logs_rules, trades_failed-Logs)

  risk_failed-Logs :
      (plan : TradePlan F) (fill : Fill F) (e : Failure) → Logs (risk_failed service plan fill e)
  unfolding risk_failed
  risk_failed-Logs plan fill e = search logs_rules

  leverage_failed-Logs : (plan : TradePlan F) (e : Failure) → Logs (leverage_failed service plan e)
  unfolding leverage_failed
  leverage_failed-Logs plan e = search logs_rules

  pub live_risk-Logs : (plan : TradePlan F) (fill : Fill F) → Logs (live_risk service plan fill)
  unfolding live_risk is_market
  live_risk-Logs plan fill = search (logs_rules, risk_failed-Logs, leverage_failed-Logs)

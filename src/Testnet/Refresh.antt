-- ===== src/Testnet/Refresh.antt =====
-- apps/api/app/services/testnet_trading_service.py: the first loop of `sync_exit_orders`, which refreshes the protection
-- orders and may leave the method.
use binance_futures_algo_bot.Common.Int.{ℤ, pos}
use binance_futures_algo_bot.Testnet.Confirm.{id_value, empty_ref, bad_int}
use binance_futures_algo_bot.Testnet.Refs.{
  resolve_exchange_order_ref, client_algo_id, algo_id, client_order_id, order_id, ExchangeRef,
}
use binance_futures_algo_bot.Testnet.LocalExit.{not_synced, give_up, Sync}
use binance_futures_algo_bot.Testnet.Status.{normalize_algo_status}
use binance_futures_algo_bot.Testnet.Payload.{is_zero_text, Payload, word, is_blank, int_of, get}
use binance_futures_algo_bot.Db.{returned, raised, Reply, TradePlan, Order}
use binance_futures_algo_bot.Float.{Float}
use binance_futures_algo_bot.Common.Texts.{codes, Text}
use binance_futures_algo_bot.Testnet.Exchange.{
  new_message, other_error, get_algo_order, caught, get_order, pure, call, from_option, Act,
  TestnetService, Failure, ◌>>=◌,
}
use binance_futures_algo_bot.Risk.Schemas.{warning, text}
use binance_futures_algo_bot.Common.{
  ◌||◌, if◌then◌else◌, [], ◌∷◌, ◌&&◌, not, Option, List, none, some,
}

-- How the refresh of an order ends: with its status, with the return where the client cannot look it up, with an
-- exception that is caught, or with the ValueError of its reference, which is not.
pub data Refreshed : Type 0 where
  now_is : Text → Refreshed
  unavailable : Refreshed
  failed : Failure → Refreshed
  unresolved : Refreshed

-- a loop that may leave the method
pub data Loop (A : Type 0) : Type 0 where
  leave : Reply Failure Sync → Loop A
  go_on : A → Loop A

module _ {A B : Type 0} where
  abbrev pub unless_left : Loop A → (Reply Failure Sync → B) → (A → B) → B
  unless_left (leave reply) left next = left reply
  unless_left (go_on a) left next = next a

-- what the call of a missing method raises
abbrev pub not_callable : Failure
not_callable = record {
  kind = other_error;
  type_name = codes "TypeError";
  text = codes "'NoneType' object is not callable";
}

module _ {F : Type 0} ⦃f : Float F⦄ (service : TestnetService F) where
  -- the status of the order that an algo order became, where the answer names it
  unfoldable pub actual_status : TradePlan F → Payload F → Act F Refreshed
  unfolding get int_of word ◌>>=◌
  actual_status plan refreshed =
      from_option (int_of service.int_text (get (codes "actualOrderId") refreshed))
        (pure (failed bad_int))
        λ n. do
          answer ← call service.exchange.dict (get_order plan.symbol (some n) none)
          pure (
              caught answer failed
                λ actual. now_is (word (get (codes "status") actual) (codes "new")))

  unfoldable pub algo_refreshed : TradePlan F → Payload F → Act F Refreshed
  unfolding actual_status normalize_algo_status get is_blank is_zero_text
  algo_refreshed plan refreshed =
      let actual = get (codes "actualOrderId") refreshed in
      if not (is_blank actual || is_zero_text actual) && service.exchange.has_get_order
      then actual_status plan refreshed
      else pure (now_is (normalize_algo_status refreshed))

  unfoldable pub look_up_legacy :
      TradePlan F → Option ℤ → Option Text → Act F (Reply Failure (Payload F))
  unfolding ◌>>=◌
  look_up_legacy plan id client_id =
      if service.exchange.has_get_order
      then call service.exchange.dict (get_order plan.symbol id client_id)
      else pure (raised not_callable)

  unfoldable pub legacy_refreshed : Order F → Act F (Reply Failure (Payload F)) → Act F Refreshed
  unfolding get word ◌>>=◌
  legacy_refreshed order look_up = do
    answer ← look_up
    pure (
        caught answer failed
          λ refreshed. now_is (word (get (codes "status") refreshed) order.status))

  unfoldable pub algo_looked_up : TradePlan F → ExchangeRef → Act F Refreshed
  unfolding algo_refreshed ◌>>=◌
  algo_looked_up plan ref = if not service.exchange.has_get_algo_order then pure unavailable else do
    answer ← call service.exchange.dict (get_algo_order ref)
    caught answer (λ e. pure (failed e)) (algo_refreshed plan)

  -- the refresh of the order that a reference names
  unfoldable pub refresh_ref : TradePlan F → Order F → ExchangeRef → Act F Refreshed
  unfolding look_up_legacy legacy_refreshed algo_looked_up
  refresh_ref plan order (order_id n) =
      legacy_refreshed order (look_up_legacy plan (some (pos n)) none)
  refresh_ref plan order (client_order_id t) =
      legacy_refreshed order (look_up_legacy plan none (some t))
  refresh_ref plan order (algo_id n) = algo_looked_up plan (algo_id n)
  refresh_ref plan order (client_algo_id t) = algo_looked_up plan (client_algo_id t)

  -- one iteration of the first loop
  unfoldable pub refresh_order : TradePlan F → Order F → Act F Refreshed
  unfolding resolve_exchange_order_ref refresh_ref
  refresh_order plan order =
      from_option (resolve_exchange_order_ref order.external_order_id) (pure unresolved)
        (refresh_ref plan order)

  unfoldable pub refresh_failure : TradePlan F → Order F → Failure → Act F (Reply Failure Sync)
  unfolding give_up
  refresh_failure plan order e =
      give_up service plan "testnet_exit_order_refresh_failed" warning
        (new_message "No fue posible refrescar orden de protección: " (text e.text ∷ []))
        (("symbol", text plan.symbol)
          ∷ ("order_id", id_value order.external_order_id)
          ∷ ("exception_type", text e.type_name)
          ∷ [])
        "exit_order_refresh_failed"

  -- the end of the method, or the status of the order
  unfoldable pub settle : TradePlan F → Order F → Refreshed → Act F (Loop Text)
  unfolding refresh_failure ◌>>=◌
  settle plan order (now_is status) = pure (go_on status)
  settle plan order unavailable =
      pure (leave (returned (not_synced "binance_get_order_unavailable")))
  settle plan order (failed e) = do reply ← refresh_failure plan order e; pure (leave reply)
  settle plan order unresolved = pure (leave (raised empty_ref))

  -- the first loop
  unfoldable pub refresh_orders :
      TradePlan F → List (Order F) → Act F (Loop (List (Order F × Text)))
  unfolding refresh_order settle ◌>>=◌
  refresh_orders plan [] = pure (go_on [])
  refresh_orders plan (order ∷ orders) = do
    refreshed ← refresh_order plan order
    one ← settle plan order refreshed
    unless_left one (λ reply. pure (leave reply))
        λ status. do
          rest ← refresh_orders plan orders
          unless_left rest (λ reply. pure (leave reply))
              λ pairs. pure (go_on ((order, status) ∷ pairs))

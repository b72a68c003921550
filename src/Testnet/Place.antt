-- ===== src/Testnet/Place.antt =====
-- apps/api/app/services/testnet_trading_service.py: `_place_protection_orders`, the stop and the take-profit of
-- a position: algo orders, their clean-up, the legacy orders that replace them, and the events.
use binance_futures_algo_bot.Common.Json.{flag}
use binance_futures_algo_bot.Testnet.Status.{normalize_algo_status}
use binance_futures_algo_bot.Testnet.Rounding.{up, down, round_price_to_tick}
use binance_futures_algo_bot.Testnet.Refs.{external_order_id, build_algo_external_order_id}
use binance_futures_algo_bot.Testnet.Confirm.{id_value, cancel_exchange_order_ref}
use binance_futures_algo_bot.Paper.{show}
use binance_futures_algo_bot.Common.Texts.{text_eq, codes, Text}
use binance_futures_algo_bot.Testnet.Prices.{
  take_profit_market, stop_market, derive_protection_prices, Trigger,
}
use binance_futures_algo_bot.Testnet.Payload.{get, word, Payload}
use binance_futures_algo_bot.Float.{nought, Float}
use binance_futures_algo_bot.Db.{Order, TradePlan}
use binance_futures_algo_bot.Testnet.Exchange.{
  new_message, get_symbol_tick_size, pure, place_take_profit_market_order,
  place_take_profit_market_algo_order, caught, place_stop_market_order,
  place_stop_market_algo_order, log_risk_event, call, Call, Act, TestnetService, Failure, ◌>>=◌,
  ◌>>◌,
}
use binance_futures_algo_bot.Risk.Schemas.{cleanups, info, critical, Value, text, json, number}
use binance_futures_algo_bot.Common.{
  false, ◌&&◌, is_empty, ◌/◌, [], ◌∷◌, ◌++◌, true, not, if◌then◌else◌, String, Bool, List, ℕ,
  Option, none, some,
}

-- How the placement of two orders ends: with both, or with the exception of the second or the first.
pub data Attempt (F : Type 0) : Type 0 where
  both : Payload F → Payload F → Attempt F
  stop_only : Payload F → Failure → Attempt F
  neither : Failure → Attempt F

-- the arguments of `_place_protection_orders` with the two prices and client ids that it derives
pub record Protection (F : Type 0) : Type 0 where
  pub plan : TradePlan F
  pub exit_side : Text
  pub external_id : Text
  pub exchange_price : F
  pub mark_price : F
  pub stop_price : F
  pub take_profit_price : F
  pub stop_id : Text
  pub take_profit_id : Text

-- `order_type` of the two orders
unfoldable pub trigger_name : Trigger → Text
trigger_name stop_market = codes "stop_market"
trigger_name take_profit_market = codes "take_profit_market"

module _ {F : Type 0} ⦃f : Float F⦄ where
  abbrev pub of_attempt : {B : Type 0} → Attempt F → (Payload F → Payload F → B) → (Failure → B) → B
  of_attempt (both p q) ok bad = ok p q
  of_attempt (stop_only p e) ok bad = bad e
  of_attempt (neither e) ok bad = bad e

  -- an order that is not in the table yet: its id is 0 until it is added
  unfoldable pub protection_order : ℕ → Protection F → Trigger → F → Text → Text → Order F
  unfolding trigger_name
  protection_order now p trigger price external_id status = record {
    id = 0;
    trade_plan_id = p.plan.id;
    venue = codes "binance_futures_testnet";
    external_order_id = some external_id;
    symbol = p.plan.symbol;
    side = p.plan.side;
    order_type = trigger_name trigger;
    status = status;
    price = price;
    quantity = nought;
    executed_quantity = nought;
    is_testnet = true;
    created_at = now;
  }

  -- the effective prices and the rest that both events of a failure have
  unfoldable pub failure_context : Protection F → Failure → List (String × Value F)
  failure_context p e =
      ("symbol", text p.plan.symbol)
      ∷ ("external_order_id", text p.external_id)
      ∷ ("exception_type", text e.type_name)
      ∷ ("planned_stop_loss", number p.plan.stop_loss)
      ∷ ("planned_take_profit", number p.plan.take_profit)
      ∷ ("effective_stop_loss", number p.stop_price)
      ∷ ("effective_take_profit", number p.take_profit_price)
      ∷ ("exchange_price", number p.exchange_price)
      ∷ ("mark_price", number p.mark_price)
      ∷ []

  module _ (service : TestnetService F) where
    -- `get_symbol_tick_size`, and 0.0 where it is missing or raises
    unfoldable pub tick_size : Text → Act F F
    unfolding ◌>>=◌
    tick_size symbol = if not service.exchange.has_get_symbol_tick_size then pure nought else do
      answer ← call service.exchange.size (get_symbol_tick_size symbol)
      pure (caught answer (λ _. nought) λ tick. tick)

    -- `f"{prefix}-{trade_plan.id}-{int(time.time() * 1000)}"`
    unfoldable pub client_id : String → TradePlan F → Text
    unfolding show
    client_id prefix plan =
        codes prefix ++ codes "-" ++ show plan.id ++ codes "-" ++ show (service.now / 1000)

    -- the prices, rounded away from the market
    unfoldable pub protection_of : TradePlan F → Text → Text → F → F → F → Protection F
    unfolding derive_protection_prices round_price_to_tick client_id text_eq
    protection_of plan exit_side external_id exchange_price mark_price tick =
        let (stop, take_profit) =
          derive_protection_prices plan.side plan.entry_price plan.stop_loss plan.take_profit
            exchange_price mark_price in
        let is_long = text_eq plan.side (codes "long") in
        record {
          plan = plan;
          exit_side = exit_side;
          external_id = external_id;
          exchange_price = exchange_price;
          mark_price = mark_price;
          stop_price = round_price_to_tick stop tick (if is_long then down else up);
          take_profit_price = round_price_to_tick take_profit tick (if is_long then up else down);
          stop_id = client_id "sl" plan;
          take_profit_id = client_id "tpx" plan;
        }

    -- the two calls in their order, where the second follows if the first did not raise
    unfoldable pub attempt_orders : Call F → Call F → Act F (Attempt F)
    unfolding ◌>>=◌
    attempt_orders stop_call take_profit_call = do
      stop ← call service.exchange.dict stop_call
      caught stop (λ e. pure (neither e))
          λ p. do
            take_profit ← call service.exchange.dict take_profit_call
            pure (caught take_profit (stop_only p) (both p))

    unfoldable pub attempt_algo : Protection F → Act F (Attempt F)
    unfolding attempt_orders
    attempt_algo p =
        attempt_orders
          (place_stop_market_algo_order p.plan.symbol p.exit_side p.stop_price p.stop_id)
          (place_take_profit_market_algo_order p.plan.symbol p.exit_side p.take_profit_price
            p.take_profit_id)

    unfoldable pub attempt_legacy : Protection F → Act F (Attempt F)
    unfolding attempt_orders
    attempt_legacy p =
        attempt_orders (place_stop_market_order p.plan.symbol p.exit_side p.stop_price p.stop_id) (
          place_take_profit_market_order p.plan.symbol p.exit_side p.take_profit_price
            p.take_profit_id)

    -- the cancellation of the stop where only that was placed, under the name that `named` gives it
    unfoldable pub clean_up :
        Protection F → (Payload F → Text → Text) → Attempt F → Act F (List (Text × Bool))
    unfolding cancel_exchange_order_ref ◌>>=◌
    clean_up p named (both stop take_profit) = pure []
    clean_up p named (neither e) = pure []
    clean_up p named (stop_only stop e) =
        let ref = named stop p.stop_id in
        if is_empty ref then pure [] else do
          canceled ←
              cancel_exchange_order_ref service p.plan (some ref)
                "testnet_protection_order_cleanup_failed"
          pure ((ref, canceled) ∷ [])

    unfoldable pub log_orders_failed :
        Protection F → Failure → List (String × Value F) → Act F (Option (Order F × Order F))
    unfolding ◌>>=◌ failure_context
    log_orders_failed p e more = do
      log_risk_event service.now p.plan.id "testnet_protection_orders_failed" critical
          (new_message "No fue posible crear órdenes de protección testnet: " (text e.text ∷ []))
          (failure_context p e ++ more)
      pure none

    unfoldable pub log_submitted :
        Protection F → Order F → Order F → Act F (Option (Order F × Order F))
    unfolding ◌>>=◌
    log_submitted p stop take_profit = do
      log_risk_event service.now p.plan.id "testnet_protection_orders_submitted" info
          (new_message "Órdenes de protección testnet enviadas" [])
          (("symbol", text p.plan.symbol)
            ∷ ("external_order_id", text p.external_id)
            ∷ ("stop_order_id", id_value stop.external_order_id)
            ∷ ("take_profit_order_id", id_value take_profit.external_order_id)
            ∷ [])
      pure (some (stop, take_profit))

    unfoldable pub submit_algo :
        Protection F → Payload F → Payload F → Act F (Option (Order F × Order F))
    unfolding protection_order build_algo_external_order_id normalize_algo_status log_submitted
    submit_algo p stop take_profit =
        log_submitted p
          (protection_order service.now p stop_market p.stop_price
            (build_algo_external_order_id stop p.stop_id) (normalize_algo_status stop))
          (protection_order service.now p take_profit_market p.take_profit_price
            (build_algo_external_order_id take_profit p.take_profit_id)
            (normalize_algo_status take_profit))

    unfoldable pub submit_legacy :
        Protection F → Payload F → Payload F → Act F (Option (Order F × Order F))
    unfolding protection_order external_order_id word get log_submitted
    submit_legacy p stop take_profit =
        log_submitted p
          (protection_order service.now p stop_market p.stop_price
            (external_order_id stop p.stop_id) (word (get (codes "status") stop) (codes "new")))
          (protection_order service.now p take_profit_market p.take_profit_price
            (external_order_id take_profit p.take_profit_id)
            (word (get (codes "status") take_profit) (codes "new")))

    -- the fallback to legacy orders after the algo orders raised `original`
    unfoldable pub fall_back :
        Protection F → Failure → List (Text × Bool) → Act F (Option (Order F × Order F))
    unfolding attempt_legacy clean_up submit_legacy log_orders_failed ◌>>=◌
    fall_back p original algo_results = do
      attempt ← attempt_legacy p
      of_attempt attempt (submit_legacy p) λ e. do
        legacy_results ← clean_up p external_order_id attempt
        log_orders_failed p original (
            ("fallback_exception_type", text e.type_name)
            ∷ ("attempted_algo_orders", json (flag true))
            ∷ ("algo_cleanup_results", cleanups algo_results)
            ∷ ("legacy_cleanup_results", cleanups legacy_results)
            ∷ [])

    unfoldable pub place_algo : Protection F → Act F (Option (Order F × Order F))
    unfolding attempt_algo clean_up submit_algo fall_back ◌>>=◌
    place_algo p = do
      attempt ← attempt_algo p
      of_attempt attempt (submit_algo p) λ e. do
        algo_results ← clean_up p build_algo_external_order_id attempt
        fall_back p e algo_results

    unfoldable pub place_legacy : Protection F → Act F (Option (Order F × Order F))
    unfolding attempt_legacy submit_legacy log_orders_failed ◌>>=◌
    place_legacy p = do
      attempt ← attempt_legacy p
      of_attempt attempt (submit_legacy p)
          λ e. log_orders_failed p e (("attempted_algo_orders", json (flag false)) ∷ [])

    -- `_place_protection_orders`; `none` is `None, None, "protection_orders_failed"`
    unfoldable pub place_protection_orders :
        TradePlan F → Text → Text → F → F → Act F (Option (Order F × Order F))
    unfolding tick_size protection_of place_algo place_legacy ◌>>=◌
    place_protection_orders plan exit_side external_id exchange_price mark_price = do
      tick ← tick_size plan.symbol
      let p = protection_of plan exit_side external_id exchange_price mark_price tick
      if service.exchange.has_place_stop_market_algo_order
            && service.exchange.has_place_take_profit_market_algo_order
          then place_algo p
          else place_legacy p

-- ===== src/Testnet/Confirm.antt =====
-- apps/api/app/services/testnet_trading_service.py: `_cancel_exchange_order_ref` and
-- `_confirm_exchange_order`.
use binance_futures_algo_bot.Db.{raised, TradePlan, Reply}
use binance_futures_algo_bot.Testnet.Status.{merge_refreshed}
use binance_futures_algo_bot.Testnet.Refs.{
  ExchangeRef, is_algo_order_ref, resolve_exchange_order_ref,
}
use binance_futures_algo_bot.Testnet.Payload.{int_of, to_float, is_truthy, get, Payload, word}
use binance_futures_algo_bot.Common.Texts.{text_in, codes, Text}
use binance_futures_algo_bot.Testnet.Exchange.{
  new_message, cancel_order, caught, cancel_algo_order, get_order, pure, from_option, Act,
  log_risk_event, call, value_error, TestnetService, Failure,
}
use binance_futures_algo_bot.Float.{◌≤?◌, nought, Float}
use binance_futures_algo_bot.Common.{
  false, true, ◌&&◌, ◌∷◌, ◌||◌, not, [], if◌then◌else◌, Bool, String, Option, ℕ, none, some,
}
use binance_futures_algo_bot.Testnet.Exchange.{◌>>=◌, ◌>>◌}
use binance_futures_algo_bot.Risk.Schemas.{warning, Value, text, json}
use binance_futures_algo_bot.Common.Json.{null}

-- what `int` and `_resolve_exchange_order_ref` raise
abbrev pub bad_int : Failure
bad_int = record {
  kind = value_error;
  type_name = codes "ValueError";
  text = codes "invalid literal for int()";
}

abbrev pub empty_ref : Failure
empty_ref = record {
  kind = value_error;
  type_name = codes "ValueError";
  text = codes "order external_order_id vacío para reconciliación";
}

module _ {F : Type 0} where
  -- a context's value that may be `None`
  abbrev pub id_value : Option Text → Value F
  id_value none = json null
  id_value (some t) = text t

module _ {F : Type 0} ⦃f : Float F⦄ where
  module _ (service : TestnetService F) where
    -- the three events of `_cancel_exchange_order_ref`
    unfoldable pub cancel_failed : TradePlan F → Option Text → String → Failure → Act F Bool
    unfolding log_risk_event
    cancel_failed plan external_id event_type e = do
      log_risk_event service.now plan.id event_type warning
          (new_message "No fue posible cancelar orden de protección: " (text e.text ∷ []))
          (("symbol", text plan.symbol)
            ∷ ("external_order_id", id_value external_id)
            ∷ ("exception_type", text e.type_name)
            ∷ [])
      pure false

    unfoldable pub cancel_unavailable : TradePlan F → Option Text → String → String → Act F Bool
    unfolding log_risk_event
    cancel_unavailable plan external_id event_type literal = do
      log_risk_event service.now plan.id event_type warning (new_message literal [])
          (("symbol", text plan.symbol) ∷ ("external_order_id", id_value external_id) ∷ [])
      pure false

    unfoldable pub cancel_resolved : TradePlan F → Option Text → String → ExchangeRef → Act F Bool
    unfolding cancel_failed cancel_unavailable call is_algo_order_ref
    cancel_resolved plan external_id event_type ref =
        if is_algo_order_ref ref
        then (if not service.exchange.has_cancel_algo_order
            then cancel_unavailable plan external_id event_type
                "No fue posible cancelar orden algo: cancel_algo_order no disponible"
            else do
              answer ← call service.exchange.dict (cancel_algo_order ref)
              caught answer (cancel_failed plan external_id event_type) λ _. pure true)
        else if not service.exchange.has_cancel_order
        then cancel_unavailable plan external_id event_type
            "No fue posible cancelar orden legacy: cancel_order no disponible"
        else do
          answer ← call service.exchange.dict (cancel_order plan.symbol ref)
          caught answer (cancel_failed plan external_id event_type) λ _. pure true

    -- `_cancel_exchange_order_ref`
    unfoldable pub cancel_exchange_order_ref : TradePlan F → Option Text → String → Act F Bool
    unfolding resolve_exchange_order_ref cancel_failed cancel_resolved
    cancel_exchange_order_ref plan external_id event_type =
        from_option (resolve_exchange_order_ref external_id)
          (cancel_failed plan external_id event_type empty_ref)
          (cancel_resolved plan external_id event_type)

    -- `needs_refresh`
    unfoldable pub needs_refresh : Payload F → Bool
    unfolding word get to_float text_in
    needs_refresh order =
        let status = word (get (codes "status") order) [] in
        let avg_price = to_float service.float_text (get (codes "avgPrice") order) nought in
        let executed_qty = to_float service.float_text (get (codes "executedQty") order) nought in
        let ended = text_in status (codes "canceled" ∷ codes "expired" ∷ codes "rejected" ∷ []) in
        not (ended && (executed_qty ≤? nought))
        && ((avg_price ≤? nought)
            || (executed_qty ≤? nought)
            || text_in status (codes "new" ∷ codes "pending_new" ∷ []))

    unfoldable pub refresh_failed : ℕ → Text → Payload F → Text → Failure → Act F (Payload F)
    unfolding log_risk_event get
    refresh_failed plan_id symbol order client_order_id e = do
      log_risk_event service.now plan_id "testnet_order_refresh_failed" warning
          (new_message "No fue posible refrescar la orden testnet: " (text e.text ∷ []))
          (("symbol", text symbol)
            ∷ ("order_id", json (get (codes "orderId") order))
            ∷ ("client_order_id", text client_order_id)
            ∷ ("exception_type", text e.type_name)
            ∷ [])
      pure order

    -- the call with `order_id=int(order_id) if order_id else None`
    unfoldable pub look_up : Text → Payload F → Text → Act F (Reply Failure (Payload F))
    unfolding call get is_truthy int_of
    look_up symbol order client_order_id =
        let order_id = get (codes "orderId") order in
        if is_truthy order_id
        then from_option (int_of service.int_text order_id) (pure (raised bad_int))
            (λ n. call service.exchange.dict (get_order symbol (some n) (some client_order_id)))
        else call service.exchange.dict (get_order symbol none (some client_order_id))

    -- `_confirm_exchange_order`, for a plan
    unfoldable pub confirm_exchange_order : ℕ → Text → Payload F → Text → Act F (Payload F)
    unfolding needs_refresh look_up refresh_failed merge_refreshed
    confirm_exchange_order plan_id symbol order client_order_id =
        if not (needs_refresh order) || not service.exchange.has_get_order then pure order else do
          answer ← look_up symbol order client_order_id
          caught answer (refresh_failed plan_id symbol order client_order_id)
              λ refreshed. pure (merge_refreshed service.float_text order refreshed)

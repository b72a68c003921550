-- ===== src/Testnet/Refs.antt =====
-- How the service names an order of the exchange in `external_order_id`, and reads the name back
-- (apps/api/app/services/testnet_trading_service.py).
use binance_futures_algo_bot.Common.{
  none, is_empty, some, Option, ◌++◌, if◌then◌else◌, false, true, ℕ, Bool,
}
use binance_futures_algo_bot.Common.Texts.{
  to_int, is_digit, remove_prefix, starts_with, strip, Text, codes,
}
use binance_futures_algo_bot.Float.{Float}
use binance_futures_algo_bot.Testnet.Payload.{str, str_or, is_blank, Payload, get}

-- the dict with one key that `_resolve_exchange_order_ref` returns
pub data ExchangeRef : Type 0 where
  algo_id : ℕ → ExchangeRef
  client_algo_id : Text → ExchangeRef
  order_id : ℕ → ExchangeRef
  client_order_id : Text → ExchangeRef

-- `_resolve_exchange_order_ref`; `none` is its `ValueError`
unfoldable pub resolve_exchange_order_ref : Option Text → Option ExchangeRef
unfolding strip starts_with remove_prefix is_digit to_int
resolve_exchange_order_ref none = none
resolve_exchange_order_ref (some external_id) =
    let ref = strip external_id in
    let algo_ref = remove_prefix ref (codes "algo:") in
    if is_empty ref
    then none
    else if starts_with ref (codes "algo:")
    then some (if is_digit algo_ref then algo_id (to_int algo_ref) else client_algo_id algo_ref)
    else if starts_with ref (codes "algo_client:")
    then some (client_algo_id (remove_prefix ref (codes "algo_client:")))
    else if is_digit ref
    then some (order_id (to_int ref))
    else some (client_order_id ref)

-- `_is_algo_order_ref`
unfoldable pub is_algo_order_ref : ExchangeRef → Bool
is_algo_order_ref (algo_id n) = true
is_algo_order_ref (client_algo_id t) = true
is_algo_order_ref (order_id n) = false
is_algo_order_ref (client_order_id t) = false

module _ {F : Type 0} ⦃f : Float F⦄ where
  -- `_build_algo_external_order_id`
  unfoldable pub build_algo_external_order_id : Payload F → Text → Text
  unfolding get is_blank str str_or strip
  build_algo_external_order_id payload fallback_client_algo_id =
      let id = get (codes "algoId") payload in
      if is_blank id
      then codes "algo_client:"
        ++ strip (str_or (get (codes "clientAlgoId") payload) fallback_client_algo_id)
      else codes "algo:" ++ str id

  -- `str(payload.get("orderId") or payload.get("clientOrderId") or client_order_id)`
  unfoldable pub external_order_id : Payload F → Text → Text
  unfolding get str_or
  external_order_id payload own_id =
      str_or (get (codes "orderId") payload) (str_or (get (codes "clientOrderId") payload) own_id)

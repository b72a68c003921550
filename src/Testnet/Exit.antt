-- ===== src/Testnet/Exit.antt =====
-- apps/api/app/services/testnet_trading_service.py: `sync_exit_orders`: the protection orders of a plan are
-- refreshed, and when one is filled, the position and the plan are closed and its siblings canceled.
use binance_futures_algo_bot.Testnet.Refresh.{unless_left, refresh_orders}
use binance_futures_algo_bot.Testnet.Entry.{plan_not_found}
use binance_futures_algo_bot.Testnet.Confirm.{cancel_exchange_order_ref, id_value, empty_ref}
use binance_futures_algo_bot.Testnet.Refs.{
  is_algo_order_ref, resolve_exchange_order_ref, ExchangeRef,
}
use binance_futures_algo_bot.Testnet.LocalExit.{
  exit, set_plan_status, no_triggered_exit, set_position, sync_locally, not_synced, Sync,
  is_of_plan,
}
use binance_futures_algo_bot.Db.{
  Tables, find_plan, returned, raised, Reply, TradePlan, Position, Order,
}
use binance_futures_algo_bot.Float.{Float}
use binance_futures_algo_bot.Db.Rows.{last_row, update_row}
use binance_futures_algo_bot.Common.Texts.{codes, text_in, text_eq, Text}
use binance_futures_algo_bot.Testnet.Exchange.{
  tables, commit_tables, log_risk_event, change_tables, new_message, caught, pure, from_option, Act,
  TestnetService, Failure, ◌>>=◌, ◌>>◌,
}
use binance_futures_algo_bot.Risk.Schemas.{info, warning, text}
use binance_futures_algo_bot.Common.{
  is_empty, select, map, if◌then◌else◌, [], ◌∷◌, ◌&&◌, ◌==◌, not, Option, Bool, ℕ, List, none, some,
}

module _ {F : Type 0} where
  -- the open testnet position of a plan, and its protection orders
  unfoldable pub is_open_of : ℕ → Position F → Bool
  unfolding text_eq
  is_open_of i p = is_of_plan i p.trade_plan_id && text_eq p.status (codes "open") && p.is_testnet

  unfoldable pub is_protection_of : ℕ → Order F → Bool
  unfolding text_in
  is_protection_of i o =
      o.trade_plan_id == i
      && text_in o.order_type (codes "stop_market" ∷ codes "take_profit_market" ∷ [])
      && o.is_testnet

  -- `order.status = refreshed_statuses[order.id]` for all of them
  unfoldable pub set_statuses : List (Order F × Text) → List (Order F) → List (Order F)
  unfolding update_row
  set_statuses [] os = os
  set_statuses ((o, status) ∷ pairs) os =
      set_statuses pairs (update_row (λ o. o.id) o.id (λ o. record o { status = status }) os)

  -- `triggered_order`, and `sibling_orders` with their new statuses
  unfoldable pub triggered_order : List (Order F × Text) → Option (Order F)
  unfolding text_eq
  triggered_order [] = none
  triggered_order ((o, status) ∷ pairs) =
      let rest = triggered_order pairs in if text_eq status (codes "filled") then some o else rest

  unfoldable pub sibling_orders : List (Order F × Text) → List (Order F)
  unfolding text_eq
  sibling_orders [] = []
  sibling_orders ((o, status) ∷ pairs) =
      let rest = sibling_orders pairs in
      if text_eq status (codes "filled")
      then map (λ x. record x.0 { status = x.1 }) pairs
      else record o { status = status } ∷ rest

  -- `TERMINAL_ORDER_STATUSES`
  unfoldable pub is_live : Order F → Bool
  unfolding text_in
  is_live o = not (
      text_in o.status
        (codes "filled" ∷ codes "canceled" ∷ codes "expired" ∷ codes "rejected" ∷ []))

module _ {F : Type 0} ⦃f : Float F⦄ (service : TestnetService F) where
  unfoldable pub cancel_unavailable_event : TradePlan F → Order F → Act F Unit
  unfolding ◌>>=◌
  cancel_unavailable_event plan sibling =
      log_risk_event service.now plan.id "testnet_exit_sibling_cancel_unavailable" warning
        (new_message
          "No fue posible cancelar orden hermana: método de cancelación no disponible para ese tipo"
          [])
        (("symbol", text plan.symbol)
          ∷ ("sibling_order_id", id_value sibling.external_order_id)
          ∷ [])

  -- one iteration of the loop over the live siblings: `canceled_sibling` after it
  unfoldable pub cancel_sibling :
      TradePlan F → Order F → Option Text → ExchangeRef → Act F (Option Text)
  unfolding is_algo_order_ref cancel_unavailable_event cancel_exchange_order_ref update_row ◌>>=◌
  cancel_sibling plan sibling canceled_sibling ref =
      if not (
        if is_algo_order_ref ref
        then service.exchange.has_cancel_algo_order
        else service.exchange.has_cancel_order)
      then (do cancel_unavailable_event plan sibling; pure canceled_sibling)
      else do
        canceled ←
            cancel_exchange_order_ref service plan sibling.external_order_id
              "testnet_exit_sibling_cancel_failed"
        if not canceled then pure canceled_sibling else do
          change_tables λ t. record t {
            orders =
                update_row (λ o. o.id) sibling.id (λ o. record o { status = codes "canceled" })
                  t.orders;
          }
          pure sibling.external_order_id

  -- the loop, which a reference that is empty ends with its ValueError
  unfoldable pub cancel_siblings :
      TradePlan F → List (Order F) → Option Text → Act F (Reply Failure (Option Text))
  unfolding resolve_exchange_order_ref cancel_sibling ◌>>=◌
  cancel_siblings plan [] canceled_sibling = pure (returned canceled_sibling)
  cancel_siblings plan (sibling ∷ siblings) canceled_sibling =
      from_option (resolve_exchange_order_ref sibling.external_order_id) (pure (raised empty_ref))
        λ ref. do
          canceled ← cancel_sibling plan sibling canceled_sibling ref
          cancel_siblings plan siblings canceled

  -- position and plan are closed
  unfoldable pub shut : TradePlan F → Position F → Order F → Act F Unit
  unfolding ◌>>=◌
  shut plan position triggered = do
    change_tables (set_position position.id λ p. record p { status = codes "closed" })
    change_tables (set_plan_status plan.id "testnet_closed")
    log_risk_event service.now plan.id "testnet_exit_order_filled" info
        (new_message "Orden de salida ejecutada en testnet: " (text triggered.order_type ∷ []))
        (("symbol", text plan.symbol)
          ∷ ("triggered_order_id", id_value triggered.external_order_id)
          ∷ ("triggered_order_type", text triggered.order_type)
          ∷ [])

  -- what follows a protection order that is filled
  unfoldable pub store_exit :
      TradePlan F → Position F → Order F → List (Order F) → Act F (Reply Failure Sync)
  unfolding is_live shut cancel_siblings ◌>>=◌
  store_exit plan position triggered siblings = do
    shut plan position triggered
    canceled ← cancel_siblings plan (select is_live siblings) none
    caught canceled (λ e. pure (raised e))
        λ canceled_sibling. do
          commit_tables
          pure (returned (exit triggered.order_type canceled_sibling))

  -- the second loop, and its end
  unfoldable pub apply_statuses :
      TradePlan F → Position F → List (Order F × Text) → Act F (Reply Failure Sync)
  unfolding set_statuses triggered_order sibling_orders store_exit ◌>>=◌
  apply_statuses plan position pairs = do
    change_tables λ t. record t { orders = set_statuses pairs t.orders }
    from_option (triggered_order pairs) (do commit_tables; pure (returned no_triggered_exit))
        λ triggered. store_exit plan position triggered (sibling_orders pairs)

  -- the branch of `sync_exit_orders` with protection orders
  unfoldable pub sync_orders :
      TradePlan F → Position F → List (Order F) → Act F (Reply Failure Sync)
  unfolding refresh_orders apply_statuses ◌>>=◌
  sync_orders plan position orders =
      if not service.exchange.has_get_order && not service.exchange.has_get_algo_order
      then pure (returned (not_synced "binance_get_order_unavailable"))
      else do
        refreshed ← refresh_orders service plan orders
        unless_left refreshed pure (apply_statuses plan position)

  unfoldable pub sync_position :
      Tables F → TradePlan F → Option (Position F) → Act F (Reply Failure Sync)
  unfolding is_protection_of sync_locally sync_orders ◌>>=◌
  sync_position t plan none = pure (returned (not_synced "no_open_position"))
  sync_position t plan (some position) =
      let orders = select (is_protection_of plan.id) t.orders in
      if is_empty orders
      then sync_locally service plan position
      else sync_orders plan position orders

  unfoldable pub sync_plan : Tables F → TradePlan F → Act F (Reply Failure Sync)
  unfolding is_open_of last_row text_eq sync_position ◌>>=◌
  sync_plan t plan =
      if text_eq plan.status (codes "testnet_closed")
      then pure (returned (not_synced "trade_plan_already_closed"))
      else sync_position t plan (last_row (select (is_open_of plan.id) t.positions))

  -- `BinanceTestnetTradingService.sync_exit_orders`
  unfoldable pub sync_exit_orders : ℕ → Act F (Reply Failure Sync)
  unfolding find_plan sync_plan ◌>>=◌
  sync_exit_orders i =
      if not service.execution_enabled
      then pure (returned (not_synced "testnet_execution_disabled"))
      else do
        t ← tables
        from_option (find_plan i t.plans) (pure (raised plan_not_found)) (sync_plan t)

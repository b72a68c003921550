-- ===== src/Testnet/LocalExit.antt =====
-- apps/api/app/services/testnet_trading_service.py: the exit that `sync_exit_orders` makes itself for a position
-- without protection orders, and `_resolve_local_exit_levels`.
use binance_futures_algo_bot.Testnet.Entry.{add_order}
use binance_futures_algo_bot.Common.Json.{null}
use binance_futures_algo_bot.Testnet.Status.{normalize_order_status}
use binance_futures_algo_bot.Testnet.Refs.{external_order_id}
use binance_futures_algo_bot.Testnet.Place.{trigger_name, client_id}
use binance_futures_algo_bot.Testnet.Confirm.{id_value, confirm_exchange_order}
use binance_futures_algo_bot.Db.Rows.{update_row}
use binance_futures_algo_bot.Testnet.Prices.{get_exit_side, detect_local_exit_trigger, Trigger}
use binance_futures_algo_bot.Testnet.Payload.{get, extract_fill_price, Payload, or_else, to_float}
use binance_futures_algo_bot.Db.{
  returned, Reply, Message, Order, TradePlan, RiskEvent, Tables, Position,
}
use binance_futures_algo_bot.Common.Texts.{codes, text_eq, Text}
use binance_futures_algo_bot.Float.{◌⊖◌, ◌⊗◌, ◌<?◌, nought, fmax, dec, Float}
use binance_futures_algo_bot.Testnet.Exchange.{
  caught, get_position_risk, close_position_market, call, pure, new_message, commit_tables,
  log_risk_event, change_tables, from_option, Failure, Act, tables, TestnetService, ◌>>=◌, ◌>>◌,
}
use binance_futures_algo_bot.Risk.Schemas.{
  warning, critical, Severity, Value, text, json, number, whole, cluster, regime, optional,
  cleanups,
}
use binance_futures_algo_bot.Common.{
  length, suc, not, leb, [], ◌==◌, true, if◌then◌else◌, ◌∷◌, ◌&&◌, select, false, Bool, Option,
  List, ℕ, String, none, some,
}

-- The dict that `sync_exit_orders` returns: without a synchronization, without an exit, after an exit of its own
-- with the id of the closing order, and after an exit of the exchange with the canceled sibling.
pub data Sync : Type 0 where
  not_synced : String → Sync
  no_triggered_exit : Sync
  local_exit : Trigger → ℕ → Sync
  exit : Text → Option Text → Sync

-- `trade_plan_id == i`
abbrev pub is_of_plan : ℕ → Option ℕ → Bool
is_of_plan i none = false
is_of_plan i (some j) = j == i

-- the stop and the take-profit that a local exit uses
pub record Levels (F : Type 0) : Type 0 where
  pub stop : F
  pub take_profit : F

module _ {F : Type 0} ⦃f : Float F⦄ where
  -- `context.get(key)`
  unfoldable pub value_of : String → List (String × Value F) → Option (Value F)
  value_of key [] = none
  value_of key ((k, v) ∷ items) =
      let rest = value_of key items in if text_eq (codes k) (codes key) then some v else rest

  -- `_to_float` of a value of an event's context
  unfoldable pub value_to_float : (Text → Option F) → Option (Value F) → F → F
  unfolding to_float
  value_to_float parse none fallback = fallback
  value_to_float parse (some (number x)) fallback = x
  value_to_float parse (some (text t)) fallback = or_else (parse t) fallback
  value_to_float parse (some (whole n)) fallback = dec n 0
  value_to_float parse (some (json j)) fallback = to_float parse j fallback
  value_to_float parse (some (cluster c)) fallback = fallback
  value_to_float parse (some (regime r)) fallback = fallback
  value_to_float parse (some (optional x)) fallback = or_else x fallback
  value_to_float parse (some (cleanups rs)) fallback = fallback

  -- the first row by `created_at` and `id`, both descending, as ids ascend in the table
  unfoldable pub newest : List (RiskEvent F) → Option (RiskEvent F)
  newest [] = none
  newest (e ∷ es) =
      from_option (newest es) (some e) λ r. some (if leb e.created_at r.created_at then r else e)

  unfoldable pub is_protection_failure : ℕ → RiskEvent F → Bool
  unfolding text_eq
  is_protection_failure i e =
      is_of_plan i e.trade_plan_id
      && text_eq (codes e.event_type) (codes "testnet_protection_orders_failed")

  unfoldable pub levels_of : (Text → Option F) → TradePlan F → Option (RiskEvent F) → Levels F
  unfolding value_of value_to_float
  levels_of parse plan none = record { stop = plan.stop_loss; take_profit = plan.take_profit }
  levels_of parse plan (some e) = record {
    stop = value_to_float parse (value_of "effective_stop_loss" e.context_json) plan.stop_loss;
    take_profit =
        value_to_float parse (value_of "effective_take_profit" e.context_json) plan.take_profit;
  }

  -- `_resolve_local_exit_levels`
  unfoldable pub resolve_local_exit_levels :
      (Text → Option F) → TradePlan F → List (RiskEvent F) → Levels F
  unfolding newest is_protection_failure levels_of
  resolve_local_exit_levels parse plan events =
      levels_of parse plan (newest (select (is_protection_failure plan.id) events))

  -- assignments to the attributes of one loaded row
  abbrev pub set_position : ℕ → (Position F → Position F) → Tables F → Tables F
  set_position i g t = record t { positions = update_row (λ p. p.id) i g t.positions }

  abbrev pub set_plan_status : ℕ → String → Tables F → Tables F
  set_plan_status i status t = record t {
    plans = update_row (λ p. p.id) i (λ p. record p { status = codes status }) t.plans;
  }

  module _ (service : TestnetService F) where
    -- an event, a commit, and a result without a synchronization
    unfoldable pub give_up :
        TradePlan F
        → String
        → Severity
        → Message F
        → List (String × Value F)
        → String
        → Act F (Reply Failure Sync)
    unfolding ◌>>=◌
    give_up plan event_type severity message context reason = do
      log_risk_event service.now plan.id event_type severity message context
      commit_tables
      pure (returned (not_synced reason))

    unfoldable pub close_order :
        TradePlan F → Position F → Trigger → Payload F → Text → F → F → Text → Order F
    unfolding external_order_id trigger_name
    close_order plan position trigger payload client_order_id price qty status = record {
      id = 0;
      trade_plan_id = plan.id;
      venue = codes "binance_futures_testnet";
      external_order_id = some (external_order_id payload client_order_id);
      symbol = plan.symbol;
      side = plan.side;
      order_type = trigger_name trigger;
      status = status;
      price = price;
      quantity = position.quantity;
      executed_quantity = qty;
      is_testnet = true;
      created_at = service.now;
    }

    -- position and plan are closed, the order is added, and all is committed
    unfoldable pub store_local_exit :
        TradePlan F → Position F → Trigger → Levels F → Order F → Act F (Reply Failure Sync)
    unfolding trigger_name ◌>>=◌
    store_local_exit plan position trigger levels order = do
      change_tables (
          set_position position.id λ p. record p {
            status = codes "closed";
            mark_price = order.price;
            unrealized_pnl = nought;
          })
      change_tables (set_plan_status plan.id "testnet_closed")
      t ← tables
      change_tables λ t. record t { orders = add_order order t.orders }
      log_risk_event service.now plan.id "testnet_local_exit_triggered" warning
          (new_message "Salida local sintética ejecutada por {} sin protección nativa disponible"
            (text (trigger_name trigger) ∷ []))
          (("symbol", text plan.symbol)
            ∷ ("triggered_order_type", text (trigger_name trigger))
            ∷ ("mark_price", number order.price)
            ∷ ("effective_stop_loss", number levels.stop)
            ∷ ("effective_take_profit", number levels.take_profit)
            ∷ ("external_order_id", id_value order.external_order_id)
            ∷ [])
      commit_tables
      pure (returned (local_exit trigger (suc (length t.orders))))

    unfoldable pub after_close :
        TradePlan F
        → Position F
        → Trigger
        → Levels F
        → Text
        → Payload F
        → Act F (Reply Failure Sync)
    unfolding confirm_exchange_order extract_fill_price to_float normalize_order_status get text_eq
        fmax give_up close_order store_local_exit trigger_name ◌>>=◌
    after_close plan position trigger levels client_order_id answer = do
      payload ← confirm_exchange_order service plan.id plan.symbol answer client_order_id
      let parse = service.float_text
      let price = extract_fill_price parse payload position.mark_price
      let qty = to_float parse (get (codes "executedQty") payload) nought
      let status = normalize_order_status (get (codes "status") payload) qty position.quantity
      let tolerance = fmax (dec 1 12) (position.quantity ⊗ dec 1 9)
      if not (text_eq status (codes "filled"))
            && (qty <? fmax nought (position.quantity ⊖ tolerance))
          then give_up plan "testnet_local_exit_not_filled" critical
              (new_message "La salida local sintética no quedó completamente ejecutada" [])
              (("symbol", text plan.symbol)
                ∷ ("triggered_order_type", text (trigger_name trigger))
                ∷ ("order_status", text status)
                ∷ ("executed_quantity", number qty)
                ∷ ("requested_quantity", number position.quantity)
                ∷ ("effective_stop_loss", number levels.stop)
                ∷ ("effective_take_profit", number levels.take_profit)
                ∷ [])
              "local_exit_not_filled"
          else store_local_exit plan position trigger levels
              (close_order plan position trigger payload client_order_id price qty status)

    unfoldable pub close_failed :
        TradePlan F → Position F → Trigger → Levels F → Failure → Act F (Reply Failure Sync)
    unfolding give_up trigger_name
    close_failed plan position trigger levels e =
        give_up plan "testnet_local_exit_execution_failed" critical
          (new_message "No fue posible ejecutar salida local sintética: " (text e.text ∷ []))
          (("symbol", text plan.symbol)
            ∷ ("triggered_order_type", text (trigger_name trigger))
            ∷ ("mark_price", number position.mark_price)
            ∷ ("effective_stop_loss", number levels.stop)
            ∷ ("effective_take_profit", number levels.take_profit)
            ∷ ("exception_type", text e.type_name)
            ∷ [])
          "local_exit_execution_failed"

    -- The return where the client cannot close a position comes without a commit.
    unfoldable pub close_locally :
        TradePlan F → Position F → Levels F → Trigger → Act F (Reply Failure Sync)
    unfolding close_failed after_close client_id get_exit_side ◌>>=◌
    close_locally plan position levels trigger =
        if not service.exchange.has_close_position_market
        then pure (returned (not_synced "local_exit_close_unavailable"))
        else let client_order_id = client_id service "lex" plan in
          do
            answer ← call service.exchange.dict (
                close_position_market plan.symbol (get_exit_side position.side) position.quantity
                  client_order_id)
            caught answer (close_failed plan position trigger levels)
                (after_close plan position trigger levels client_order_id)

    -- the exit that the position's mark triggers
    unfoldable pub exit_if_triggered : TradePlan F → Position F → Act F (Reply Failure Sync)
    unfolding resolve_local_exit_levels detect_local_exit_trigger close_locally ◌>>=◌
    exit_if_triggered plan position = do
      t ← tables
      let levels = resolve_local_exit_levels service.float_text plan t.events
      from_option
          (detect_local_exit_trigger plan.side position.mark_price levels.stop levels.take_profit)
          (do commit_tables; pure (returned no_triggered_exit)) (close_locally plan position levels)

    -- the new mark of the position, where the exchange gives one
    unfoldable pub watch :
        TradePlan F → Position F → Option (Payload F) → Act F (Reply Failure Sync)
    unfolding to_float get exit_if_triggered ◌>>=◌
    watch plan position risk =
        let mark =
          to_float service.float_text (from_option risk null (get (codes "markPrice")))
            position.mark_price in
        let current = if nought <? mark then mark else position.mark_price in
        do
          change_tables (set_position position.id λ p. record p { mark_price = current })
          exit_if_triggered plan (record position { mark_price = current })

    unfoldable pub mark_unavailable : TradePlan F → Failure → Act F (Reply Failure Sync)
    unfolding give_up
    mark_unavailable plan e =
        give_up plan "testnet_local_exit_mark_price_unavailable" warning
          (new_message "No fue posible evaluar salida local sin órdenes nativas: "
            (text e.text ∷ []))
          (("symbol", text plan.symbol) ∷ ("exception_type", text e.type_name) ∷ [])
          "local_exit_mark_price_unavailable"

    -- the branch of `sync_exit_orders` without protection orders
    unfoldable pub sync_locally : TradePlan F → Position F → Act F (Reply Failure Sync)
    unfolding mark_unavailable watch ◌>>=◌
    sync_locally plan position =
        if not service.exchange.has_get_position_risk
        then pure (returned (not_synced "no_protection_orders"))
        else do
          answer ← call service.exchange.risk (get_position_risk plan.symbol)
          caught answer (mark_unavailable plan) (watch plan position)

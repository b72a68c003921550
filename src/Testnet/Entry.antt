-- ===== src/Testnet/Entry.antt =====
-- apps/api/app/services/testnet_trading_service.py: `execute_trade_plan`, the entry of an approved plan on the
-- testnet, cut at its returns and at its calls of the exchange. The handler of an unexpected exception of
-- `_confirm_exchange_order` has no counterpart, as that method catches what it calls.
use binance_futures_algo_bot.Testnet.Rounding.{round_to_step}
use binance_futures_algo_bot.Testnet.Place.{place_protection_orders, client_id}
use binance_futures_algo_bot.Testnet.Confirm.{confirm_exchange_order}
use binance_futures_algo_bot.Testnet.Fills.{live_risk, read_fill, order_trades, Fill, Risked}
use binance_futures_algo_bot.Testnet.Payload.{Payload}
use binance_futures_algo_bot.Db.Rows.{first, update_row}
use binance_futures_algo_bot.Db.{
  find_plan, raised, returned, Reply, Message, Tables, TradePlan, Position, Order,
}
use binance_futures_algo_bot.Float.{round_to, ◌≤?◌, dec, ◌⊘◌, ◌⊗◌, nought, feq, ◌⊖◌, fabs, Float}
use binance_futures_algo_bot.Common.Texts.{text_in, codes, text_eq, Text}
use binance_futures_algo_bot.Testnet.Exchange.{
  place_market_order, get_symbol_step_size, change_tables, tables, FailureKind, runtime_error,
  value_error, other_error, caught, call, from_option, pure, new_message, commit_tables,
  log_risk_event, Act, TestnetService, Failure, ◌>>=◌, ◌>>◌,
}
use binance_futures_algo_bot.Risk.Schemas.{
  whole, info, critical, warning, Severity, Value, text, number,
}
use binance_futures_algo_bot.Common.{
  select, false, [], ◌∷◌, not, length, suc, if◌then◌else◌, ◌++◌, true, ◌&&◌, Option, List, ℕ, Bool,
  String, none, some,
}

-- The dict that `execute_trade_plan` returns. `executed` has the ids of the order, the position and the two
-- protection orders; without these two its reason is protection_orders_failed.
pub data Entry : Type 0 where
  not_executed : String → Entry
  executed : ℕ → ℕ → Text → Option (ℕ × ℕ) → Entry

-- `ValueError("Trade plan no encontrado")`
abbrev pub plan_not_found : Failure
plan_not_found = record {
  kind = value_error;
  type_name = codes "ValueError";
  text = codes "Trade plan no encontrado";
}

abbrev is_runtime_kind : FailureKind → Bool
is_runtime_kind runtime_error = true
is_runtime_kind value_error = false
is_runtime_kind other_error = false

-- `exc` is a `RuntimeError`
abbrev pub is_runtime : Failure → Bool
is_runtime e = is_runtime_kind e.kind

module _ {F : Type 0} where
  -- a testnet position of the symbol and side that is open
  unfoldable pub is_open_at : Text → Text → Position F → Bool
  unfolding text_eq
  is_open_at symbol side p =
      text_eq p.symbol symbol
      && text_eq p.side side
      && text_eq p.status (codes "open")
      && p.is_testnet

  -- a row of the session gets the next id
  abbrev pub add_order : Order F → List (Order F) → List (Order F)
  add_order o os = os ++ record o { id = suc (length os) } ∷ []

  abbrev pub add_position : Position F → List (Position F) → List (Position F)
  add_position p ps = ps ++ record p { id = suc (length ps) } ∷ []

  unfoldable pub add_orders : Order F → Option (Order F × Order F) → List (Order F) → List (Order F)
  add_orders order none os = add_order order os
  add_orders order (some (stop, take_profit)) os =
      add_order take_profit (add_order stop (add_order order os))

  -- the rows of an entry, and the plan's status
  unfoldable pub enter :
      TradePlan F → Order F → Position F → Option (Order F × Order F) → Tables F → Tables F
  unfolding add_orders update_row
  enter p order position protection t = record t {
    plans =
        update_row (λ q. q.id) p.id (λ q. record q { status = codes "testnet_executed" }) t.plans;
    orders = add_orders order protection t.orders;
    positions = add_position position t.positions;
  }

module _ {F : Type 0} ⦃f : Float F⦄ where
  -- `raw_quantity`
  unfoldable pub raw_quantity : TradePlan F → F
  unfolding fabs
  raw_quantity p =
      let stop_distance = fabs (p.entry_price ⊖ p.stop_loss) in
      if feq stop_distance nought
      then nought
      else p.capital_usdt ⊗ (p.applied_risk_pct ⊘ dec 100 0) ⊘ stop_distance

  unfoldable pub entry_order : ℕ → TradePlan F → F → Fill F → Order F
  entry_order now p quantity fill = record {
    id = 0;
    trade_plan_id = p.id;
    venue = codes "binance_futures_testnet";
    external_order_id = some fill.external_id;
    symbol = p.symbol;
    side = p.side;
    order_type = codes "market";
    status = fill.order_status;
    price = fill.exchange_price;
    quantity = quantity;
    executed_quantity = fill.executed_qty;
    is_testnet = true;
    created_at = now;
  }

  unfoldable pub entry_position : ℕ → TradePlan F → Fill F → Risked F → Position F
  entry_position now p fill risked = record {
    id = 0;
    trade_plan_id = some p.id;
    symbol = p.symbol;
    side = p.side;
    quantity = fill.executed_qty;
    entry_price = fill.exchange_price;
    mark_price = risked.mark_price;
    unrealized_pnl = risked.unrealized_pnl;
    leverage = risked.leverage;
    status = codes "open";
    is_testnet = true;
    opened_at = now;
  }

  module _ (service : TestnetService F) where
    -- an event, a commit, and a result without an execution
    unfoldable pub refuse :
        TradePlan F
        → String
        → Severity
        → Message F
        → List (String × Value F)
        → String
        → Act F (Reply Failure Entry)
    unfolding ◌>>=◌
    refuse p event_type severity message context reason = do
      log_risk_event service.now p.id event_type severity message context
      commit_tables
      pure (returned (not_executed reason))

    -- the three handlers of `place_market_order`
    unfoldable pub order_failed :
        TradePlan F → Text → F → Text → Failure → Act F (Reply Failure Entry)
    unfolding refuse text_eq
    order_failed p side quantity client_order_id e =
        let context =
          ("symbol", text p.symbol)
          ∷ ("side", text side)
          ∷ ("quantity", number quantity)
          ∷ ("client_order_id", text client_order_id)
          ∷ ("exception_type", text e.type_name)
          ∷ [] in
        if is_runtime e && text_eq e.text (codes "binance_credentials_missing")
        then refuse p "testnet_execution_missing_credentials" critical
            (new_message "Credenciales Binance faltantes para ejecución testnet" [])
            (("symbol", text p.symbol) ∷ ("side", text side) ∷ []) "testnet_credentials_missing"
        else if is_runtime e
        then refuse p "testnet_execution_runtime_error" critical
            (new_message "Error runtime en envío testnet: " (text e.text ∷ [])) context
            "testnet_api_error"
        else refuse p "testnet_execution_error" critical
            (new_message "Error en envío testnet: " (text e.text ∷ [])) context "testnet_api_error"

    unfoldable pub log_entry : TradePlan F → Text → F → Fill F → Act F Unit
    unfolding ◌>>=◌
    log_entry p side quantity fill =
        log_risk_event service.now p.id "testnet_execution_submitted" info
          (new_message "Orden testnet enviada: external_order_id=" (text fill.external_id ∷ []))
          (("symbol", text p.symbol)
            ∷ ("side", text p.side)
            ∷ ("quantity", number quantity)
            ∷ ("executed_quantity", number fill.executed_qty)
            ∷ ("external_order_id", text fill.external_id)
            ∷ ("order_status", text fill.order_status)
            ∷ ("binance_side", text side)
            ∷ [])

    -- the rows are added and committed, and the result has their ids
    unfoldable pub add_entry :
        TradePlan F
        → Order F
        → Position F
        → Text
        → Option (Order F × Order F)
        → Act F (Reply Failure Entry)
    unfolding enter ◌>>=◌
    add_entry p order position external_id protection = do
      t ← tables
      change_tables (enter p order position protection)
      commit_tables
      let id = suc (length t.orders)
      pure (
          returned (
            executed id (suc (length t.positions)) external_id
              (from_option protection none λ _. some (suc id, suc (suc id)))))

    unfoldable pub store_entry :
        TradePlan F
        → Text
        → F
        → Fill F
        → Risked F
        → Option (Order F × Order F)
        → Act F (Reply Failure Entry)
    unfolding log_entry entry_order entry_position add_entry ◌>>=◌
    store_entry p side quantity fill risked protection = do
      log_entry p side quantity fill
      add_entry p (entry_order service.now p quantity fill)
          (entry_position service.now p fill risked) fill.external_id protection

    -- the protection of the position, and the rows
    unfoldable pub protect :
        TradePlan F → Text → Text → F → Fill F → Risked F → Act F (Reply Failure Entry)
    unfolding place_protection_orders store_entry ◌>>=◌
    protect p side exit_side quantity fill risked = do
      protection ←
          place_protection_orders service p exit_side fill.external_id fill.exchange_price
            risked.mark_price
      store_entry p side quantity fill risked protection

    -- what follows an order that the exchange took
    unfoldable pub after_order :
        TradePlan F → Text → Text → F → Text → Payload F → Act F (Reply Failure Entry)
    unfolding confirm_exchange_order order_trades read_fill live_risk protect ◌>>=◌
    after_order p side exit_side quantity client_order_id answer = do
      order ← confirm_exchange_order service p.id p.symbol answer client_order_id
      trades ← order_trades service p order client_order_id
      let fill = read_fill service p quantity order trades client_order_id
      risked ← live_risk service p fill
      protect p side exit_side quantity fill risked

    -- the call of `place_market_order`
    unfoldable pub send_order : TradePlan F → F → Act F (Reply Failure Entry)
    unfolding client_id order_failed after_order text_eq ◌>>=◌
    send_order p quantity =
        let is_long = text_eq p.side (codes "long") in
        let side = if is_long then codes "BUY" else codes "SELL" in
        let exit_side = if is_long then codes "SELL" else codes "BUY" in
        let client_order_id = client_id service "tp" p in
        do
          answer ←
              call service.exchange.dict (place_market_order p.symbol side quantity client_order_id)
          caught answer (order_failed p side quantity client_order_id)
              (after_order p side exit_side quantity client_order_id)

    unfoldable pub step_size_failed : TradePlan F → Failure → Act F (Reply Failure Entry)
    unfolding refuse
    step_size_failed p e =
        refuse p "testnet_execution_step_size_unavailable" critical
          (new_message "No fue posible obtener stepSize para {}: {}"
            (text p.symbol ∷ text e.text ∷ []))
          (("symbol", text p.symbol) ∷ ("exception_type", text e.type_name) ∷ [])
          "symbol_step_size_unavailable"

    unfoldable pub sized : TradePlan F → F → Act F (Reply Failure Entry)
    unfolding raw_quantity round_to_step send_order refuse text_in
    sized p step_size =
        let raw = raw_quantity p in
        let quantity = round_to_step raw step_size in
        if quantity ≤? nought
        then refuse p "testnet_execution_invalid_quantity" critical
            (new_message "Cantidad inválida calculada para ejecución testnet (raw={}, step_size={})"
              (number raw ∷ number step_size ∷ []))
            (("symbol", text p.symbol)
              ∷ ("raw_quantity", number (round_to 12 raw))
              ∷ ("step_size", number step_size)
              ∷ ("rounded_quantity", number quantity)
              ∷ [])
            "invalid_quantity"
        else if not (text_in p.side (codes "long" ∷ codes "short" ∷ []))
        then refuse p "testnet_execution_invalid_side" critical
            (new_message "Valor de side inválido: " (text p.side ∷ []))
            (("symbol", text p.symbol) ∷ ("side", text p.side) ∷ []) "invalid_side"
        else send_order p quantity

    unfoldable pub enter_approved : TradePlan F → Option (Position F) → Act F (Reply Failure Entry)
    unfolding refuse step_size_failed sized ◌>>=◌
    enter_approved p (some position) =
        refuse p "testnet_execution_blocked_existing_open_position" warning
          (new_message
            "Existe una posición testnet abierta para el mismo símbolo/lado; se bloquea una nueva entrada"
            [])
          (("symbol", text p.symbol)
            ∷ ("side", text p.side)
            ∷ ("existing_position_id", whole position.id)
            ∷ [])
          "existing_open_position"
    enter_approved p none = do
      step ← call service.exchange.size (get_symbol_step_size p.symbol)
      caught step (step_size_failed p) (sized p)

    unfoldable pub execute_found_plan : Tables F → TradePlan F → Act F (Reply Failure Entry)
    unfolding refuse enter_approved is_open_at text_eq
    execute_found_plan t p =
        if not service.execution_enabled
        then refuse p "testnet_execution_disabled" warning
            (new_message "Ejecución testnet deshabilitada por configuración" [])
            (("symbol", text p.symbol) ∷ ("status", text p.status) ∷ [])
            "testnet_execution_disabled"
        else if not (text_eq p.status (codes "approved"))
        then refuse p "testnet_execution_blocked_not_approved" warning
            (new_message "Intento de ejecución testnet bloqueado para trade plan con estado "
              (text p.status ∷ []))
            (("symbol", text p.symbol) ∷ ("status", text p.status) ∷ []) "trade_plan_not_approved"
        else enter_approved p (first (select (is_open_at p.symbol p.side) t.positions))

    -- `BinanceTestnetTradingService.execute_trade_plan`
    unfoldable pub execute_on_testnet : ℕ → Act F (Reply Failure Entry)
    unfolding find_plan execute_found_plan ◌>>=◌
    execute_on_testnet i = do
      t ← tables
      from_option (find_plan i t.plans) (pure (raised plan_not_found)) (execute_found_plan t)

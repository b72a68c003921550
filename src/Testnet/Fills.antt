-- ===== src/Testnet/Fills.antt =====
-- apps/api/app/services/testnet_trading_service.py: what `execute_trade_plan` reads of the exchange after its
-- order: the fills, and the leverage, mark and profit of the position.
use binance_futures_algo_bot.Testnet.Confirm.{bad_int}
use binance_futures_algo_bot.Testnet.Refs.{external_order_id}
use binance_futures_algo_bot.Testnet.Status.{normalize_order_status}
use binance_futures_algo_bot.Common.Json.{Json}
use binance_futures_algo_bot.Testnet.Payload.{
  to_float, int_of, extract_executed_quantity_from_trades, Payload, is_null, extract_fill_price,
  get, extract_fill_price_from_trades,
}
use binance_futures_algo_bot.Db.{raised, TradePlan}
use binance_futures_algo_bot.Float.{◌<?◌, round_to, ◌≤?◌, dec, ◌⊗◌, nought, feq, ◌⊖◌, Float}
use binance_futures_algo_bot.Common.Texts.{text_in, codes, text_eq, Text}
use binance_futures_algo_bot.Common.Int.{pos, ℤ}
use binance_futures_algo_bot.Testnet.Exchange.{
  get_symbol_leverage, get_position_risk, caught, get_order_trades, call, from_option, pure,
  new_message, log_risk_event, Act, TestnetService, Failure, ◌>>=◌, ◌>>◌,
}
use binance_futures_algo_bot.Risk.Schemas.{warning, text, json}
use binance_futures_algo_bot.Common.{
  ◌||◌, [], ◌∷◌, not, if◌then◌else◌, ◌&&◌, Option, List, none, some,
}

-- what the exchange made of the entry order
pub record Fill (F : Type 0) : Type 0 where
  pub exchange_price : F
  pub executed_qty : F
  pub order_status : Text
  pub external_id : Text

-- `leverage`, `mark_price` and `unrealized_pnl`
pub record Risked (F : Type 0) : Type 0 where
  pub leverage : ℤ
  pub mark_price : F
  pub unrealized_pnl : F

module _ {F : Type 0} ⦃f : Float F⦄ (service : TestnetService F) where
  -- `order_trades`
  unfoldable pub trades_failed : TradePlan F → Json F → Text → Failure → Act F (List (Payload F))
  unfolding ◌>>=◌
  trades_failed p order_id client_order_id e = do
    log_risk_event service.now p.id "testnet_order_trades_lookup_failed" warning
        (new_message "No fue posible obtener fills reales de userTrades: " (text e.text ∷ []))
        (("symbol", text p.symbol)
          ∷ ("order_id", json order_id)
          ∷ ("client_order_id", text client_order_id)
          ∷ ("exception_type", text e.type_name)
          ∷ [])
    pure []

  unfoldable pub order_trades : TradePlan F → Payload F → Text → Act F (List (Payload F))
  unfolding trades_failed get is_null int_of ◌>>=◌
  order_trades p order client_order_id =
      let order_id = get (codes "orderId") order in
      if not service.exchange.has_get_order_trades || is_null order_id then pure [] else do
        trades ←
            from_option (int_of service.int_text order_id) (pure (raised bad_int))
              λ n. call service.exchange.trades (get_order_trades p.symbol n)
        caught trades (trades_failed p order_id client_order_id) pure

  -- what is read of the order and its trades
  unfoldable pub read_fill : TradePlan F → F → Payload F → List (Payload F) → Text → Fill F
  unfolding extract_fill_price_from_trades extract_fill_price extract_executed_quantity_from_trades
      to_float normalize_order_status text_in get external_order_id
  read_fill p quantity order trades client_order_id =
      let parse = service.float_text in
      let raw_qty =
        extract_executed_quantity_from_trades parse trades
          (to_float parse (get (codes "executedQty") order) nought) in
      let status = normalize_order_status (get (codes "status") order) raw_qty quantity in
      let assumed =
        (raw_qty ≤? nought)
        && text_in status (codes "filled" ∷ codes "partially_filled" ∷ codes "new" ∷ []) in
      record {
        exchange_price =
            extract_fill_price_from_trades parse trades
              (extract_fill_price parse order p.entry_price);
        executed_qty = if assumed then quantity else raw_qty;
        order_status = status;
        external_id = external_order_id order client_order_id;
      }

  unfoldable pub risk_failed : TradePlan F → Fill F → Failure → Act F (Risked F)
  unfolding ◌>>=◌
  risk_failed p fill e = do
    log_risk_event service.now p.id "testnet_position_risk_lookup_failed" warning
        (new_message "No fue posible obtener positionRisk real; fallback local ({})"
          (text e.text ∷ []))
        (("symbol", text p.symbol)
          ∷ ("external_order_id", text fill.external_id)
          ∷ ("exception_type", text e.type_name)
          ∷ [])
    pure (record { leverage = pos 1; mark_price = fill.exchange_price; unrealized_pnl = nought })

  unfoldable pub read_risk : TradePlan F → Fill F → Option (Payload F) → Risked F
  unfolding to_float get text_eq
  read_risk p fill none = record {
    leverage = pos 1;
    mark_price = fill.exchange_price;
    unrealized_pnl = nought;
  }
  read_risk p fill (some risk) =
      let leverage = to_float service.float_text (get (codes "leverage") risk) (dec 1 0) in
      let live = to_float service.float_text (get (codes "markPrice") risk) nought in
      let mark = if nought <? live then live else fill.exchange_price in
      let direction = if text_eq p.side (codes "long") then dec 1 0 else nought ⊖ dec 1 0 in
      record {
        leverage = if feq leverage nought then pos 1 else f.trunc leverage;
        mark_price = mark;
        unrealized_pnl = round_to 8 ((mark ⊖ fill.exchange_price) ⊗ fill.executed_qty ⊗ direction);
      }

  unfoldable pub leverage_failed : TradePlan F → Failure → Act F ℤ
  unfolding ◌>>=◌
  leverage_failed p e = do
    log_risk_event service.now p.id "testnet_execution_leverage_fallback" warning
        (new_message "No fue posible obtener leverage real; fallback a 1x ({})" (text e.text ∷ []))
        (("symbol", text p.symbol) ∷ ("exception_type", text e.type_name) ∷ [])
    pure (pos 1)

  -- `leverage`, `mark_price` and `unrealized_pnl`, live where the exchange gives them
  unfoldable pub live_risk : TradePlan F → Fill F → Act F (Risked F)
  unfolding risk_failed read_risk leverage_failed ◌>>=◌
  live_risk p fill =
      if service.exchange.has_get_position_risk
      then (do
        answer ← call service.exchange.risk (get_position_risk p.symbol)
        caught answer (risk_failed p fill) λ risk. pure (read_risk p fill risk))
      else do
        answer ← call service.exchange.leverage (get_symbol_leverage p.symbol)
        leverage ← caught answer (leverage_failed p) pure
        pure (record {
          leverage = leverage;
          mark_price = fill.exchange_price;
          unrealized_pnl = nought;
        })

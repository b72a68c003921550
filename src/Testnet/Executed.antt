-- ===== src/Testnet/Executed.antt =====
-- How `execute_trade_plan` of apps/api/app/services/testnet_trading_service.py ends: the proofs.
use binance_futures_algo_bot.Testnet.Protects.{place_protection_orders-Returns}
use binance_futures_algo_bot.Db.Rows.{first}
use binance_futures_algo_bot.Testnet.Entry.{sized}
use binance_futures_algo_bot.Testnet.Outcome.{entered, not_taken, missing, kept_out, EntryOutcome}
use binance_futures_algo_bot.Testnet.Quiet.{
  place_protection_orders-Logs, live_risk-Logs, order_trades-Logs, confirm_exchange_order-Logs,
}
use binance_futures_algo_bot.Testnet.Fills.{Risked, Fill}
use binance_futures_algo_bot.Testnet.Logs.{
  asked, Logs-call, market_orders-asked, IsLogged-refl, is_market, Logs-log, IsLogged-trans,
  market_orders, IsLogged,
}
use binance_futures_algo_bot.Risk.Schemas.{Value, Severity}
use binance_futures_algo_bot.Testnet.Outcome.{IsReady, IsEntered, IsRefused, AreProtections}
use binance_futures_algo_bot.Common.Texts.{codes, text_eq, Text}
use binance_futures_algo_bot.Db.{Position, raised, find_plan, Message, TradePlan, Order}
use binance_futures_algo_bot.Testnet.Payload.{Payload}
use binance_futures_algo_bot.Testnet.Place.{client_id, place_protection_orders}
use binance_futures_algo_bot.Testnet.Ends.{
  Ends-market, Ends-caught, Ends-bind, Ends-weaken, Ends-if, Ends-Logs-Returns, Ends-Logs, Ends,
}
use binance_futures_algo_bot.Testnet.Entry.{
  is_open_at, plan_not_found, step_size_failed, execute_on_testnet, execute_found_plan,
  enter_approved, protect, send_order, order_failed, after_order, add_entry, entry_position,
  entry_order, enter, log_entry, store_entry, refuse,
}
use binance_futures_algo_bot.Float.{Float}
use binance_futures_algo_bot.Testnet.Exchange.{
  caught, call, place_market_order, from_option, tables, pure, commit_tables, Failure, World,
  TestnetService, ◌>>=◌,
}
use binance_futures_algo_bot.Common.{
  arith, false, not, ◌∙◌, select, true, if◌then◌else◌, ℕ, Option, [], ◌∷◌, ◌≡◌, refl, Bool, String,
  List, none, some,
}

not-eq-false : (b : Bool) → not b ≡ false → b ≡ true
not-eq-false b h = ground arith

module _ {F : Type 0} ⦃f : Float F⦄ (service : TestnetService F) where
  refuse-IsRefused :
      (v : World F) (p : TradePlan F) (event_type : String) (severity : Severity) (m : Message F)
      (context : List (String × Value F)) (reason : String)
      → Ends
          (IsLogged v)
          (λ r w. IsRefused v.session r w × (market_orders w.calls ≡ market_orders v.calls))
          (refuse service p event_type severity m context reason)
  unfolding refuse commit_tables pure tables
  refuse-IsRefused v p event_type severity m context reason =
      Ends-Logs _ _ (IsLogged-trans v) (Logs-log _ _ _ _ _ _) λ _. record {
        at = λ w h. (
          record {
            reason = reason;
            is = refl;
            plans = h.plans;
            orders = h.orders;
            positions = h.positions;
            added = h.added;
            events = h.events;
            committed = refl;
          },
          h.sent,
        );
      }

  add_entry-IsEntered :
      (v : World F) (p : TradePlan F) (quantity : F) (fill : Fill F) (risked : Risked F)
      (protection : Option (Order F × Order F))
      → AreProtections p protection
      → Ends
          (IsLogged v)
          (λ r w. IsEntered v.session p r w × (market_orders w.calls ≡ market_orders v.calls))
          (add_entry service p
            (entry_order service.now p quantity fill)
            (entry_position service.now p fill risked)
            fill.external_id
            protection)
  unfolding add_entry enter entry_order entry_position ◌>>=◌
  add_entry-IsEntered v p quantity fill risked protection hp = record {
    at = λ w h. (
      record {
        order = entry_order service.now p quantity fill;
        order_of_plan = refl;
        order_type = refl;
        position = entry_position service.now p fill risked;
        position_of_plan = refl;
        at_symbol = refl;
        at_side = refl;
        is_open = refl;
        is_testnet = refl;
        protection = protection;
        protects = hp;
        added = h.added;
        rows = rw (h.plans, h.orders, h.positions, h.events) refl;
        committed = refl;
        id = fill.external_id;
        is = rw (h.orders, h.positions) refl;
      },
      h.sent,
    );
  }

  store_entry-IsEntered :
      (v : World F) (p : TradePlan F) (side : Text) (quantity : F) (fill : Fill F)
      (risked : Risked F) (protection : Option (Order F × Order F))
      → AreProtections p protection
      → Ends
          (IsLogged v)
          (λ r w. IsEntered v.session p r w × (market_orders w.calls ≡ market_orders v.calls))
          (store_entry service p side quantity fill risked protection)
  unfolding store_entry log_entry
  store_entry-IsEntered v p side quantity fill risked protection h =
      search (Ends-Logs, IsLogged-trans, Logs-log, add_entry-IsEntered)

  protect-IsEntered :
      (v : World F) (p : TradePlan F) (side exit_side : Text) (quantity : F) (fill : Fill F)
      (risked : Risked F)
      → Ends
          (IsLogged v)
          (λ r w. IsEntered v.session p r w × (market_orders w.calls ≡ market_orders v.calls))
          (protect service p side exit_side quantity fill risked)
  unfolding protect
  protect-IsEntered v p side exit_side quantity fill risked =
      Ends-Logs-Returns (AreProtections p)
        (place_protection_orders service p exit_side fill.external_id fill.exchange_price
          risked.mark_price)
        (store_entry service p side quantity fill risked) (IsLogged-trans v)
        (place_protection_orders-Logs service p exit_side fill.external_id fill.exchange_price
          risked.mark_price)
        (place_protection_orders-Returns service p exit_side fill.external_id fill.exchange_price
          risked.mark_price)
        (store_entry-IsEntered v p side quantity fill risked)

  after_order-IsEntered :
      (v : World F) (p : TradePlan F) (side exit_side : Text) (quantity : F) (id : Text)
      (answer : Payload F)
      → Ends
          (IsLogged v)
          (λ r w. IsEntered v.session p r w × (market_orders w.calls ≡ market_orders v.calls))
          (after_order service p side exit_side quantity id answer)
  unfolding after_order
  after_order-IsEntered v p side exit_side quantity id answer =
      search
        (
          Ends-Logs, IsLogged-trans, confirm_exchange_order-Logs, order_trades-Logs, live_risk-Logs,
          protect-IsEntered,
        )
        depth 9

  order_failed-IsRefused :
      (v : World F) (p : TradePlan F) (side : Text) (quantity : F) (id : Text) (e : Failure)
      → Ends
          (IsLogged v)
          (λ r w. IsRefused v.session r w × (market_orders w.calls ≡ market_orders v.calls))
          (order_failed service p side quantity id e)
  unfolding order_failed
  order_failed-IsRefused v p side quantity id e = search (Ends-if, refuse-IsRefused)

  send_order-Outcome :
      (v : World F) (i : ℕ) (p : TradePlan F) (quantity : F)
      → IsReady v.session i p
      → Ends (IsLogged v) (EntryOutcome i v) (send_order service p quantity)
  unfolding send_order is_market
  send_order-Outcome v i p quantity ready =
      let is_long = text_eq p.side (codes "long") in
      let side = if is_long then codes "BUY" else codes "SELL" in
      let exit_side = if is_long then codes "SELL" else codes "BUY" in
      let id = client_id service "tp" p in
      let c = place_market_order p.symbol side quantity id in
      let sent = market_orders-asked v.calls c refl in
      Ends-bind (λ _. IsLogged (asked v c)) (call service.exchange.dict c)
        (λ answer.
          caught answer (order_failed service p side quantity id)
            (after_order service p side exit_side quantity id))
        (Ends-market v service.exchange.dict c refl)
        λ answer.
          Ends-caught answer (order_failed service p side quantity id)
            (after_order service p side exit_side quantity id)
            (λ e.
              Ends-weaken _ _ (order_failed service p side quantity id e)
                (order_failed-IsRefused (asked v c) p side quantity id e)
                λ r w (refused, n). not_taken p ready refused (n ∙ sent))
            λ order _.
              Ends-weaken _ _ (after_order service p side exit_side quantity id order)
                (after_order-IsEntered (asked v c) p side exit_side quantity id order)
                λ r w (done, n). entered p ready done (n ∙ sent)

  refuse-Outcome :
      (v : World F) (i : ℕ) (p : TradePlan F) (event_type : String) (severity : Severity)
      (m : Message F) (context : List (String × Value F)) (reason : String)
      → Ends (IsLogged v) (EntryOutcome i v) (refuse service p event_type severity m context reason)
  refuse-Outcome v i p event_type severity m context reason =
      Ends-weaken _ _ (refuse service p event_type severity m context reason)
        (refuse-IsRefused v p event_type severity m context reason)
        λ r w (refused, n). kept_out refused n

  sized-Outcome :
      (v : World F) (i : ℕ) (p : TradePlan F) (step_size : F)
      → IsReady v.session i p
      → Ends (IsLogged v) (EntryOutcome i v) (sized service p step_size)
  unfolding sized
  sized-Outcome v i p step_size ready = search (Ends-if, refuse-Outcome, send_order-Outcome, ready)

  step_size_failed-Outcome :
      (v : World F) (i : ℕ) (p : TradePlan F) (e : Failure)
      → Ends (IsLogged v) (EntryOutcome i v) (step_size_failed service p e)
  unfolding step_size_failed
  step_size_failed-Outcome v i p e = search refuse-Outcome

  enter_approved-Outcome :
      (v : World F) (i : ℕ) (p : TradePlan F)
      → find_plan i v.session.live.plans ≡ some p
      → text_eq p.status (codes "approved") ≡ true
      → (open_ones : List (Position F))
      → select (is_open_at p.symbol p.side) v.session.live.positions ≡ open_ones
      → Ends (IsLogged v) (EntryOutcome i v) (enter_approved service p (first open_ones))
  unfolding enter_approved is_market
  enter_approved-Outcome v i p found approved (x ∷ xs) h = search refuse-Outcome
  enter_approved-Outcome v i p found approved [] h =
      let ready : IsReady v.session i p = record { found = found; approved = approved; free = h } in
      search (
        Ends-Logs, IsLogged-trans, Logs-call, Ends-caught, step_size_failed-Outcome, sized-Outcome,
        ready,
      )

  execute_found_plan-Outcome :
      (v : World F) (i : ℕ) (p : TradePlan F)
      → find_plan i v.session.live.plans ≡ some p
      → Ends (IsLogged v) (EntryOutcome i v) (execute_found_plan service v.session.live p)
  unfolding execute_found_plan
  execute_found_plan-Outcome v i p found =
      search (Ends-if, refuse-Outcome, enter_approved-Outcome, not-eq-false, found)

  execute_found-Outcome :
      (v : World F) (i : ℕ) (o : Option (TradePlan F))
      → find_plan i v.session.live.plans ≡ o
      → let (reply, w) =
          from_option o
            (pure (raised plan_not_found))
            (execute_found_plan service v.session.live)
            v in
        EntryOutcome i v reply w
  unfolding pure
  execute_found-Outcome v i none h = missing h refl refl
  execute_found-Outcome v i (some p) h = (execute_found_plan-Outcome v i p h).at v (IsLogged-refl v)

  pub execute_on_testnet-Outcome :
      (i : ℕ) (v : World F)
      → let (reply, w) = execute_on_testnet service i v in EntryOutcome i v reply w
  unfolding execute_on_testnet ◌>>=◌
  execute_on_testnet-Outcome i v = execute_found-Outcome v i (find_plan i v.session.live.plans) refl

-- ===== src/Testnet/Outcome.antt =====
-- How `execute_trade_plan` of apps/api/app/services/testnet_trading_service.py ends, on every branch.
use binance_futures_algo_bot.Testnet.Entry.{executed}
use binance_futures_algo_bot.Testnet.Logs.{market_orders}
use binance_futures_algo_bot.Testnet.Place.{trigger_name}
use binance_futures_algo_bot.Testnet.Entry.{enter, is_open_at, not_executed, plan_not_found, Entry}
use binance_futures_algo_bot.Common.Texts.{Text, codes, text_eq}
use binance_futures_algo_bot.Testnet.Prices.{take_profit_market, stop_market, Trigger}
use binance_futures_algo_bot.Db.{
  RiskEvent, returned, Position, raised, Order, find_plan, Reply, TradePlan, Session,
}
use binance_futures_algo_bot.Testnet.Exchange.{from_option, Failure, World}
use binance_futures_algo_bot.Common.{
  length, ◌++◌, [], suc, select, List, true, String, ◌≡◌, Option, ℕ, none, some,
}

module _ {F : Type 0} where
  -- a protection order of the plan
  pub record IsProtection (p : TradePlan F) (trigger : Trigger) (o : Order F) : Type 0 where
    pub of_plan : o.trade_plan_id ≡ p.id
    pub of_type : o.order_type ≡ trigger_name trigger

  -- the two protection orders, or none
  abbrev pub AreProtections : TradePlan F → Option (Order F × Order F) → Type 0
  AreProtections p none = Unit
  AreProtections p (some (stop, take_profit)) =
      IsProtection p stop_market stop × IsProtection p take_profit_market take_profit

  -- The plan is approved, and no testnet position of its symbol and side is open.
  pub record IsReady (s : Session F) (i : ℕ) (p : TradePlan F) : Type 0 where
    pub found : find_plan i s.live.plans ≡ some p
    pub approved : text_eq p.status (codes "approved") ≡ true
    pub free : select (is_open_at p.symbol p.side) s.live.positions ≡ []

  -- Nothing was executed: a reason was returned, and only events were added and committed.
  pub record IsRefused (s : Session F) (reply : Reply Failure Entry) (w : World F) : Type 0 where
    pub reason : String
    pub is : reply ≡ returned (not_executed reason)
    pub plans : w.session.live.plans ≡ s.live.plans
    pub orders : w.session.live.orders ≡ s.live.orders
    pub positions : w.session.live.positions ≡ s.live.positions
    pub added : List (RiskEvent F)
    pub events : w.session.live.events ≡ s.live.events ++ added
    pub committed : w.session.saved ≡ w.session.live

  -- The plan was executed: one market order and one open position of the plan are stored, with both protection
  -- orders or none, the plan's status says so, and all is committed.
  pub record IsEntered (s : Session F) (p : TradePlan F) (reply : Reply Failure Entry) (w : World F)
      : Type 0 where
    pub order : Order F
    pub order_of_plan : order.trade_plan_id ≡ p.id
    pub order_type : order.order_type ≡ codes "market"
    pub position : Position F
    pub position_of_plan : position.trade_plan_id ≡ some p.id
    pub at_symbol : position.symbol ≡ p.symbol
    pub at_side : position.side ≡ p.side
    pub is_open : position.status ≡ codes "open"
    pub is_testnet : position.is_testnet ≡ true
    pub protection : Option (Order F × Order F)
    pub protects : AreProtections p protection
    pub added : List (RiskEvent F)
    pub rows :
        w.session.live
        ≡ enter p order position protection (record s.live { events = s.live.events ++ added })
    pub committed : w.session.saved ≡ w.session.live
    pub id : Text
    pub is :
        reply
        ≡ returned (
            executed (suc (length s.live.orders)) (suc (length s.live.positions)) id (
              from_option protection none λ _.
                some (suc (suc (length s.live.orders)), suc (suc (suc (length s.live.orders))))))

  -- how the method ends from `v` in `w`
  pub data EntryOutcome (i : ℕ) (v : World F) (reply : Reply Failure Entry) (w : World F)
      : Type 0 where
    missing :
        find_plan i v.session.live.plans ≡ none
        → reply ≡ raised plan_not_found
        → w ≡ v
        → EntryOutcome i v reply w
    -- no market order was sent
    kept_out :
        IsRefused v.session reply w
        → market_orders w.calls ≡ market_orders v.calls
        → EntryOutcome i v reply w
    -- the exchange raised on the market order
    not_taken :
        (p : TradePlan F)
        → IsReady v.session i p
        → IsRefused v.session reply w
        → market_orders w.calls ≡ suc (market_orders v.calls)
        → EntryOutcome i v reply w
    entered :
        (p : TradePlan F)
        → IsReady v.session i p
        → IsEntered v.session p reply w
        → market_orders w.calls ≡ suc (market_orders v.calls)
        → EntryOutcome i v reply w

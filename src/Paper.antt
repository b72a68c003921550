-- ===== src/Paper.antt =====
-- apps/api/app/services/paper_trading_service.py: an approved plan is executed on paper: one filled
-- order and one open position.
pub mod Once
pub mod Runs
mod Tests
use binance_futures_algo_bot.Common.{
  zero, ◌%◌, none, ◌+◌, ◌∷◌, ltb, length, ◌/◌, ◌++◌, true, if◌then◌else◌, Option, suc, some, [],
  String, ℕ, Bool, List,
}
use binance_futures_algo_bot.Common.Int.{pos}
use binance_futures_algo_bot.Common.Texts.{Text, codes, text_eq}
use binance_futures_algo_bot.Float.{dec, ◌⊘◌, ◌⊗◌, feq, ◌⊖◌, Float, nought, fabs, round_to}
use binance_futures_algo_bot.Risk.Schemas.{text, warning}
use binance_futures_algo_bot.Db.{
  returned, raised, put_plan, add_event, TradePlan, Order, Position, RiskEvent, Session, Tables,
  Reply, commit, find_plan,
}

-- the dict that `execute_trade_plan` returns
pub data Execution : Type 0 where
  not_approved : Execution
  executed : ℕ → ℕ → Execution

-- `ValueError("Trade plan no encontrado")`
pub data PaperError : Type 0 where
  plan_not_found : PaperError

-- `f"{n}"` of a number, most significant digit first; `fuel` bounds the digits
unfoldable pub digits : ℕ → ℕ → Text
digits zero n = []
digits (suc fuel) n =
    let rest = digits fuel (n / 10) in
    if ltb n 10 then (b'0' + n) ∷ [] else rest ++ (b'0' + n % 10) ∷ []

unfoldable pub show : ℕ → Text
unfolding digits
show n = digits (suc n) n

module _ {F : Type 0} ⦃f : Float F⦄ where
  unfoldable pub with_status : String → TradePlan F → TradePlan F
  with_status status p = record p { status = codes status }

  -- the risked capital over the distance of the stop, and 0 where that is 0
  unfoldable pub paper_quantity : TradePlan F → F
  unfolding fabs
  paper_quantity p =
      let stop_distance = fabs (p.entry_price ⊖ p.stop_loss) in
      if feq stop_distance nought
      then nought
      else round_to 6 (p.capital_usdt ⊗ (p.applied_risk_pct ⊘ dec 100 0) ⊘ stop_distance)

  unfoldable pub paper_order : ℕ → TradePlan F → ℕ → Order F
  unfolding show paper_quantity
  paper_order now p id = record {
    id = id;
    trade_plan_id = p.id;
    venue = codes "binance_futures";
    external_order_id = some (codes "paper-" ++ show p.id);
    symbol = p.symbol;
    side = p.side;
    order_type = codes "market";
    status = codes "filled";
    price = p.entry_price;
    quantity = paper_quantity p;
    executed_quantity = paper_quantity p;
    is_testnet = true;
    created_at = now;
  }

  unfoldable pub paper_position : ℕ → TradePlan F → ℕ → Position F
  unfolding paper_quantity
  paper_position now p id = record {
    id = id;
    trade_plan_id = some p.id;
    symbol = p.symbol;
    side = p.side;
    quantity = paper_quantity p;
    entry_price = p.entry_price;
    mark_price = p.entry_price;
    unrealized_pnl = nought;
    leverage = pos 1;
    status = codes "open";
    is_testnet = true;
    opened_at = now;
  }

  unfoldable pub blocked_event : ℕ → TradePlan F → ℕ → RiskEvent F
  blocked_event now p id = record {
    id = id;
    trade_plan_id = some p.id;
    event_type = "paper_execution_blocked";
    severity = warning;
    message = record {
      literal = "Intento de ejecución bloqueado para trade plan con estado ";
      values = ("", text p.status) ∷ [];
    };
    context_json = [];
    created_at = now;
  }

  unfoldable pub fill : ℕ → TradePlan F → Tables F → Tables F
  unfolding put_plan with_status paper_order paper_position
  fill now p t = record {
    plans = put_plan (with_status "paper_executed" p) t.plans;
    orders = t.orders ++ paper_order now p (suc (length t.orders)) ∷ [];
    positions = t.positions ++ paper_position now p (suc (length t.positions)) ∷ [];
    events = t.events;
  }

  unfoldable pub execute_found :
      ℕ → Option (TradePlan F) → Session F → Reply PaperError Execution × Session F
  unfolding fill blocked_event add_event
  execute_found now none s = (raised plan_not_found, s)
  execute_found now (some p) s =
      if text_eq p.status (codes "approved")
      then (
        returned (executed (suc (length s.live.orders)) (suc (length s.live.positions))),
        commit (record { saved = s.saved; live = fill now p s.live }),
      )
      else (
        returned not_approved,
        commit (record {
          saved = s.saved;
          live = add_event (blocked_event now p (suc (length s.live.events))) s.live;
        }),
      )

  -- `PaperTradingService.execute_trade_plan`
  unfoldable pub execute_trade_plan : ℕ → ℕ → Session F → Reply PaperError Execution × Session F
  unfolding execute_found find_plan
  execute_trade_plan now i s = execute_found now (find_plan i s.live.plans) s

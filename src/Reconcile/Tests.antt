-- ===== src/Reconcile/Tests.antt =====
-- An executed plan whose position has no protection, and the theorem at this input.
use binance_futures_algo_bot.Common.Int.{pos}
use binance_futures_algo_bot.Reconcile.Rows.{
  reconcile_trade_plan-IsFound, found, own_row, other_row, no_row,
}
use binance_futures_algo_bot.Risk.Tests.{d, decided}
use binance_futures_algo_bot.Common.Texts.{codes}
use binance_futures_algo_bot.Plan.{new_trade_plan}
use binance_futures_algo_bot.Reconcile.{
  report_on, reconcile_trade_plan, is_rejected, is_protection, is_filled, is_executed, has_status,
  rejected_drift, multiple_drift, position_drift, missing_fill, drifts, reconcile_loaded_trade_plan,
}
use binance_futures_algo_bot.Paper.{with_status}
use binance_futures_algo_bot.Db.{Tables, Order, TradePlan, Position}
use binance_futures_algo_bot.Common.{
  arith, ◌⊎◌, false, any, ◌≤◌, select, length, true, [], ◌∷◌, some, String, List, ◌≡◌, ◌↔◌, refl,
  none,
}
use binance_futures_algo_bot.Float.Fixed.{Fixed, fixed_float}
use binance_futures_algo_bot.Plan.Tests.{payload, creation}
use binance_futures_algo_bot.Reconcile.Health.{IsSettled, healthy_iff}

order : String → String → Order Fixed
order order_type status = record {
  id = 1;
  trade_plan_id = 1;
  venue = codes "binance_futures_testnet";
  external_order_id = none;
  symbol = payload.symbol;
  side = codes "long";
  order_type = codes order_type;
  status = codes status;
  price = d 100 0;
  quantity = d 3 0;
  executed_quantity = d 3 0;
  is_testnet = true;
  created_at = 1;
}

position : Position Fixed
position = record {
  id = 1;
  trade_plan_id = some 1;
  symbol = payload.symbol;
  side = codes "long";
  quantity = d 3 0;
  entry_price = d 100 0;
  mark_price = d 100 0;
  unrealized_pnl = d 0 0;
  leverage = pos 1;
  status = codes "open";
  is_testnet = true;
  opened_at = 1;
}

plan : TradePlan Fixed
plan = with_status "testnet_executed" (new_trade_plan 1 payload decided 1)

abbrev orders : List (Order Fixed)
orders = order "market" "filled" ∷ order "stop_market" "new" ∷ []

-- One protection order is too few.
unprotected_run :
    (reconcile_loaded_trade_plan plan orders (position ∷ [])).recommended_actions
    ≡ "rebuild_exit_protection" ∷ []
unfolding order position plan creation with_status reconcile_loaded_trade_plan drifts missing_fill
    position_drift multiple_drift rejected_drift is_executed has_status is_filled is_protection
    is_rejected any
unprotected_run = refl

healthy_iff_example : ((reconcile_loaded_trade_plan plan orders (position ∷ [])).healthy ≡ true) ↔ (
    (length (select (has_status "open") (position ∷ [])) ≤ 1)
    × ((is_executed plan ≡ false) ⊎ IsSettled orders (position ∷ [])))
healthy_iff_example = healthy_iff plan orders (position ∷ [])

-- the rows of the plan 1 between an order of a plan 2 and a position of none
abbrev tables : Tables Fixed
tables = record {
  plans = plan ∷ [];
  orders = record (order "market" "filled") { trade_plan_id = 2 } ∷ orders;
  positions = position ∷ record position { trade_plan_id = none } ∷ [];
  events = [];
}

reconcile_trade_plan-IsFound_example :
    reconcile_trade_plan 1 tables ≡ report_on orders (position ∷ []) (some plan)
unfolding order position plan creation with_status
reconcile_trade_plan-IsFound_example =
    reconcile_trade_plan-IsFound 1 tables (some plan) orders
      (record (order "market" "filled") { trade_plan_id = 2 } ∷ []) (position ∷ [])
      (record position { trade_plan_id = none } ∷ []) (found [] [] plan refl tt refl)
      (other_row (own_row (own_row no_row))) (refl, (refl, tt)) ((λ e. ground arith), tt)
      (own_row (other_row no_row)) (refl, tt) ((λ e. ground arith), tt)

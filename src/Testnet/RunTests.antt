-- ===== src/Testnet/RunTests.antt =====
-- A plan that is executed on the testnet and closed by its stop, and the theorems on runs at this one.
use binance_futures_algo_bot.Testnet.Runs.{create}
use binance_futures_algo_bot.Testnet.Runs.{runs_hold_once, sync, empty_world}
use binance_futures_algo_bot.Testnet.Exits.{sync_exit_orders-Outcome}
use binance_futures_algo_bot.Testnet.Synced.{SyncOutcome}
use binance_futures_algo_bot.Testnet.LocalExit.{exit}
use binance_futures_algo_bot.Testnet.Runs.{execute, start, next, Runs}
use binance_futures_algo_bot.Db.Counts.{bit, count}
use binance_futures_algo_bot.Plan.{new_trade_plan}
use binance_futures_algo_bot.Testnet.Payload.{Payload}
use binance_futures_algo_bot.Risk.Tests.{decided, d}
use binance_futures_algo_bot.Plan.Tests.{payload, creation}
use binance_futures_algo_bot.Paper.{show, with_status}
use binance_futures_algo_bot.Testnet.Exit.{is_open_of, sync_exit_orders}
use binance_futures_algo_bot.Testnet.Exchange.{
  runtime_error, cancel_order, get_order, place_take_profit_market_order, place_stop_market_order,
  place_market_order, Failure, World, TestnetService, Exchange, Call,
}
use binance_futures_algo_bot.Testnet.Entry.{is_open_at, executed, execute_on_testnet}
use binance_futures_algo_bot.Float.Fixed.{fixed_float, Fixed}
use binance_futures_algo_bot.Db.{find_plan, raised, returned, Tables, Reply, TradePlan}
use binance_futures_algo_bot.Common.Texts.{text_eq, codes, Text}
use binance_futures_algo_bot.Common.{
  ◌≤◌, refl, ◌==◌, if◌then◌else◌, ◌++◌, ◌≡◌, [], ◌∷◌, false, true, none, some, ℕ,
}
use binance_futures_algo_bot.Common.Int.{pos}
use binance_futures_algo_bot.Common.Json.{Json, text, number}

abbrev number_of : ℕ → Json Fixed
number_of n = number (d n 0) (show n)

abbrev answer : Text → ℕ → Payload Fixed
answer status id = (codes "orderId", number_of id) ∷ (codes "status", text status) ∷ []

-- the market order is filled at 100, and order 12, the stop, is filled later
abbrev answer_to : Call Fixed → Reply Failure (Payload Fixed)
answer_to (place_market_order symbol side q id) = returned (
    answer (codes "FILLED") 11
    ++ (codes "avgPrice", number_of 100) ∷ (codes "executedQty", number q (codes "q")) ∷ [])
answer_to (place_stop_market_order symbol side q id) = returned (answer (codes "NEW") 12)
answer_to (place_take_profit_market_order symbol side q id) = returned (answer (codes "NEW") 13)
answer_to (get_order symbol (some (pos n)) id) =
    returned (answer (if n == 12 then codes "FILLED" else codes "NEW") n)
answer_to (cancel_order symbol ref) = returned []
answer_to _ = raised (record { kind = runtime_error; type_name = codes "RuntimeError"; text = [] })

abbrev exchange : Exchange Fixed
exchange = record {
  has_get_order = true;
  has_get_algo_order = false;
  has_get_order_trades = false;
  has_get_position_risk = true;
  has_cancel_order = true;
  has_cancel_algo_order = false;
  has_close_position_market = true;
  has_get_symbol_tick_size = false;
  has_place_stop_market_algo_order = false;
  has_place_take_profit_market_algo_order = false;
  dict = λ calls c. answer_to c;
  risk = λ calls c. returned (some ((codes "markPrice", number_of 101) ∷ []));
  trades = λ calls c. returned [];
  size = λ calls c. returned (d 1 3);
  leverage = λ calls c. returned (pos 1);
}

abbrev service : TestnetService Fixed
service = record {
  exchange = exchange;
  execution_enabled = true;
  now = 5_000;
  float_text = λ t. none;
  int_text = λ t. none;
}

approved_plan : TradePlan Fixed
approved_plan = with_status "approved" (new_trade_plan 1 payload decided 1)

abbrev planned : World Fixed
planned =
    let tables : Tables Fixed = record {
      plans = approved_plan ∷ [];
      orders = [];
      positions = [];
      events = [];
    } in
    record { session = record { saved = tables; live = tables }; calls = [] }

entered_world : World Fixed
unfolding execute_on_testnet
entered_world = (execute_on_testnet service 1 planned).1

closed_world : World Fixed
unfolding sync_exit_orders
closed_world = (sync_exit_orders service 1 entered_world).1

entry_run :
    (execute_on_testnet service 1 planned).0 ≡ returned (executed 1 1 (codes "11") (some (2, 3)))
unfolding execute_on_testnet approved_plan creation with_status fixed_float
entry_run = refl

exit_run :
    (sync_exit_orders service 1 entered_world).0
    ≡ returned (exit (codes "stop_market") (some (codes "13")))
unfolding execute_on_testnet sync_exit_orders approved_plan creation with_status fixed_float
    entered_world
exit_run = refl

sync_exit_orders-Outcome_example :
    let (reply, w) = sync_exit_orders service 1 entered_world in SyncOutcome 1 entered_world reply w
sync_exit_orders-Outcome_example = sync_exit_orders-Outcome service 1 entered_world

run : Runs empty_world closed_world
unfolding approved_plan with_status new_trade_plan text_eq sync_exit_orders closed_world
    execute_on_testnet entered_world
run =
    next
      (next
        (next start (
          create (record {
            plan = approved_plan;
            id = refl;
            status = refl;
            plans = refl;
            positions = refl;
            committed = refl;
          })))
        (execute service 1 _ refl))
      (sync service 1 _ refl)

runs_hold_once_example :
    ((symbol side : Text) → count (is_open_at symbol side) closed_world.session.saved.positions ≤ 1)
    × ((i : ℕ) (p : TradePlan Fixed)
        → find_plan i closed_world.session.saved.plans ≡ some p
        → count (is_open_of i) closed_world.session.saved.positions
          ≡ bit (text_eq p.status (codes "testnet_executed")))
runs_hold_once_example = runs_hold_once closed_world run

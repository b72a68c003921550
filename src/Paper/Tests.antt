-- ===== src/Paper/Tests.antt =====
-- A plan created and executed on paper twice, and the theorem on runs at this one.
use binance_futures_algo_bot.Common.Texts.{codes}
use binance_futures_algo_bot.Plan.{create_trade_plan}
use binance_futures_algo_bot.Paper.Runs.{
  is_waiting, runs_fill_once, execute, create, start, next, Runs,
}
use binance_futures_algo_bot.Paper.Once.{fills}
use binance_futures_algo_bot.Paper.{
  not_approved, executed, blocked_event, paper_quantity, with_status, paper_position, paper_order,
  fill, execute_found, digits, show, execute_trade_plan,
}
use binance_futures_algo_bot.Db.{returned, add_event, find_plan, Session}
use binance_futures_algo_bot.Common.{false, ◌⊎◌, ◌≤◌, ◌≡◌, refl, none}
use binance_futures_algo_bot.Plan.Tests.{creation, empty, outside, service, payload}
use binance_futures_algo_bot.Float.Fixed.{Fixed, fixed_float}

abbrev created : Session Fixed
created = (create_trade_plan (outside none) service payload empty).1

abbrev executed_once : Session Fixed
executed_once = (execute_trade_plan 8 1 created).1

abbrev executed_twice : Session Fixed
executed_twice = (execute_trade_plan 9 1 executed_once).1

abbrev run : Runs empty executed_twice
run =
    next (next (next start (create (outside none) service payload _ refl)) (execute 8 1 _ refl))
      (execute 9 1 _ refl)

twice_run :
    ((execute_trade_plan 8 1 created).0 ≡ returned (executed 1 1))
    × ((execute_trade_plan 9 1 executed_once).0 ≡ returned not_approved)
unfolding creation execute_trade_plan execute_found fill paper_order paper_position with_status show
    digits paper_quantity add_event blocked_event
twice_run = (refl, refl)

show_run : show 120 ≡ codes "120"
unfolding show digits
show_run = refl

runs_fill_once_example :
    (fills 1 executed_twice.saved.orders ≤ 1)
    × ((fills 1 executed_twice.saved.orders ≡ 0)
        ⊎ (is_waiting (find_plan 1 executed_twice.saved.plans) ≡ false))
runs_fill_once_example = runs_fill_once executed_twice run 1

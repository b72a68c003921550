-- ===== src/Lib.antt =====
-- A model of the decision and execution core of the Binance futures bot, and theorems on it.
--
-- The program judges a trade idea and executes it. A request carries scores, the market's state, prices,
-- and the positions that are open. The risk engine turns it into a decision: a regime and its confidence,
-- a score, a size, and a refusal where a limit of risk is exhausted. The final gate judges that decision
-- once more with circuit breakers and a composite score. The plan service calls both, stores the plan and
-- its risk events, and lets Outline publish it. The paper service executes an approved plan. Two
-- services audit afterwards: one compares a plan with its orders and positions, one pairs the
-- executions on paper with those on the testnet. The testnet service executes an approved plan on Binance's
-- testnet: one market order, a stop and a take-profit, and rows for all of them; later it closes the position and
-- the plan when one of the two is filled, or sells at the mark itself where there are none.
--
-- Which file models what (paths from the repository's root):
--   Common      lists, texts as code points, Boolean tests, integers
--   Float       Python's float as an interface: decimal literals, comparisons, the four operations,
--               round, floor, ceil; Float/Order has the laws that the proofs use, Float/Fixed a decimal
--               instance of both, on which the examples run
--   Risk        apps/api/app/services/risk_engine.py and apps/api/app/schemas/trading.py. Schemas has the
--               pydantic models and their bounds; Policy is RiskPolicy; Regime is
--               resolve_market_regime and estimate_regime_confidence; Exposure is the clusters,
--               _correlation_multiplier and _portfolio_metrics; Sizing is aggregate_score and
--               suggest_risk_pct; Evaluate is evaluate, cut at its returns (assess, decide,
--               size_position). The proofs stand in Approval, Limits, Refusal, Raises, Scale, Total
--   Gate        apps/api/app/services/final_decision_gate.py
--   Db          apps/api/app/db/models.py: the rows, and a session with what is flushed and what is saved
--   Plan        apps/api/app/services/trade_plan_service.py: create_trade_plan (effective_decision,
--               store_plan, attach_document). Judged, Asked and Events say what a plan and its events are,
--               Stored and Raised how a call ends, Limits that what is approved is within the limits
--   Paper       apps/api/app/services/paper_trading_service.py: execute_trade_plan; Runs has the runs of
--               both services over one session
--   Reconcile   apps/api/app/services/execution_state_machine_service.py: reconcile_loaded_trade_plan,
--               reconcile_trade_plan
--   Testnet     apps/api/app/services/testnet_trading_service.py. Payload reads the exchange's answers and the
--               fills, Refs names orders, Status normalizes and ranks statuses and merges a refreshed answer,
--               Prices is _derive_protection_prices, _get_exit_side and _detect_local_exit_trigger,
--               Rounding the rounding to steps. Exchange has the interface of the client, the calls it got,
--               and the actions on it and on the session; Confirm is _confirm_exchange_order and
--               _cancel_exchange_order_ref, Place _place_protection_orders, Fills and Entry
--               execute_trade_plan (execute_on_testnet), LocalExit, Refresh and Exit sync_exit_orders, and
--               Sweep sync_open_testnet_exits. Logs, Ends and Quiet have the rules for actions; the proofs
--               stand in Protects, Outcome, Executed (entries), Synced, Closes, Loops, Exits (exits),
--               Consistent and Runs (runs of all three over one session)
--   Shadow      apps/api/app/services/shadow_run_reporting_service.py: _pair_plans, _build_symbol_summary
--   Signals     apps/api/app/services/indicator_service.py and apps/api/app/services/signal_service.py: both
--               snapshots, over candles that are given oldest first
--   MarketRegime  apps/api/app/services/market_regime_service.py: snapshot, over the same candles
--   Backtest    apps/api/app/services/backtesting_service.py and its schemas: Series, Metrics, Simulate, Walk and
--               their run over rows that are given oldest first; proofs in Bounds, Solvent, Returns, Windows,
--               Run and Exclusive. A division by a price of 0 is an error of the simulation
--   Worker      apps/worker/main.py: process_symbol_cycle (Worker/Cycle), with the router of
--               apps/worker/trading_bot/services/binance_testnet_router.py; the signals are given, and the API is
--               any function of the calls before and the call. Proofs in Plans, Calls and Once
--   Parity      apps/api/app/services/execution_parity_service.py: build_report
--
-- State and errors. A function that touches the database takes a session and returns its reply with the
-- session after it; a reply is a value or what was raised. The engine returns a result that may be
-- pydantic's error or the RuntimeError of its invariant. Ids are row numbers, as no row is deleted.
--
-- Floats. The theorems hold of every interface with the laws of Float/Order, which say that the order is
-- total, that literals compare as numbers, that the operations and rounding are monotone, and that a
-- limit of four decimals at most comes back when what is left of it is added and rounded. NaN, and an
-- overflow that leads to it, are outside the model.
--
-- Texts. lower, upper and isdigit are those of ASCII, which covers symbols and regimes. The values inside a
-- message are kept as values and not printed, and the JSON text of triggered_breakers as its list.
--
-- Bounds. Loops are structural recursion over their lists. The one fuel in what models the program is in
-- Paper.digits, which prints a number as Python does: show gives it one more than the number, and a tenth of a
-- number that is not 0 is less.
--
-- Parameters. The clock, the database's constraints and Outline are fields of Plan.Outside; the
-- database may refuse any content, and Outline may raise. Times are microseconds. What float and int make of a
-- text is an argument of the functions that read numbers from the exchange's answers. The exchange of Testnet is
-- any function of the calls before and the call, and any of its optional methods may be missing; its answers are
-- dicts where the client's annotations say so, and an exception is its class, its type's name and its text. One
-- call of the testnet service reads the clock once. Waiting and cancellation of a coroutine are outside the model.
--
-- Not modelled: the bounds of a plan's request in apps/api/app/schemas/trade_plan.py, as the theorems hold of any
-- request; the shadow run's totals, the other reports and the dashboards;
-- the clients of Binance and Outline, the routes, metrics and the endless loop of the worker, which are
-- input and output; the worker's own scores of signals; the web pages and the scripts.
pub mod Common
pub mod Float
pub mod Risk
pub mod Gate
pub mod MarketRegime
pub mod Backtest
pub mod Worker
pub mod Db
pub mod Reconcile
pub mod Plan
pub mod Paper
pub mod Parity
pub mod Testnet
pub mod Signals
pub mod Shadow

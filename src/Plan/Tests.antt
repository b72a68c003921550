-- ===== src/Plan/Tests.antt =====
-- A plan created over an empty database, one whose document fails, and the theorems at these inputs.
use binance_futures_algo_bot.Db.Sorting.{sorted_items, put_key}
use binance_futures_algo_bot.Plan.Limits.{approved_plan_within_limits}
use binance_futures_algo_bot.Risk.Limits.{IsAtMost}
use binance_futures_algo_bot.Gate.{evaluate_gate}
use binance_futures_algo_bot.Float.{fmin}
use binance_futures_algo_bot.Plan.Stored.{create-IsStored, IsStored}
use binance_futures_algo_bot.Gate.Outcome.{IsClear}
use binance_futures_algo_bot.Risk.Policy.{default_policy}
use binance_futures_algo_bot.Risk.Evaluate.{evaluate}
use binance_futures_algo_bot.Common.Texts.{codes, Text}
use binance_futures_algo_bot.Risk.Schemas.{tendencia_alcista, ok, long, RiskDecision}
use binance_futures_algo_bot.Plan.Raised.{create-IsRaised, IsRaised}
use binance_futures_algo_bot.Plan.{
  Outcome, event_row, event_rows, add_events, add_plan, with_url, response, attach_document, finish,
  store_plan, side_text, new_trade_plan, effective_decision, after_engine, Outside, outline_error,
  engine_request, create_trade_plan, TradePlanService, TradePlanCreateResponse,
  TradePlanCreateRequest,
}
use binance_futures_algo_bot.Db.{put_plan, put_tables, returned, raised, Tables, Session}
use binance_futures_algo_bot.Common.{false, true, some, [], Option, ◌≡◌, refl, none}
use binance_futures_algo_bot.Risk.Tests.{engine, market, d, request, portfolio}
use binance_futures_algo_bot.Gate.Tests.{judged, gate}
use binance_futures_algo_bot.Float.Fixed.{Fixed, fixed_float, Fixed-IsFloat}

abbrev pub service : TradePlanService Fixed
service = record { risk_engine = default_policy; final_gate = gate }

abbrev pub payload : TradePlanCreateRequest Fixed
payload = record {
  symbol = codes "SOLUSDT";
  side = long;
  entry_price = d 100 0;
  stop_loss = d 98 0;
  take_profit = d 105 0;
  capital_usdt = d 1000 0;
  existing_risk_pct = d 5 1;
  thesis = codes "breakout of the range";
  signals = request.signals;
  market_state = market;
  portfolio_state = some portfolio;
}

abbrev pub outside : Option (Option Text) → Outside Fixed
outside answer = record { now = 7; accepts = λ _. true; document = λ _ _. answer }

abbrev pub empty : Session Fixed
empty =
    let none_yet : Tables Fixed = record { plans = []; orders = []; positions = []; events = [] } in
    record { saved = none_yet; live = none_yet }

unfoldable pub creation : Outside Fixed → Session Fixed → Outcome Fixed
unfolding engine judged create_trade_plan engine_request after_engine effective_decision
    new_trade_plan side_text store_plan finish attach_document response with_url add_plan add_events
    event_rows event_row put_tables put_plan put_key sorted_items
creation out s = create_trade_plan out service payload s

abbrev pub reported : TradePlanCreateResponse Fixed
reported = record {
  id = 1;
  status = codes "approved";
  outline_url = some (codes "url");
  market_regime = tendencia_alcista;
  aggregate_score = d 87 0;
  applied_risk_pct = d 6 1;
  max_position_notional = d 300 0;
  final_gate_score = some (d 8325 2);
  final_gate_passed = some true;
  final_gate_reason = some "Gate final aprobado";
  final_gate_pre_rejected_by_engine = some false;
  triggered_breakers = [];
}

abbrev answered : Option (Option Text)
answered = some (some (codes "url"))

created_run :
    create_trade_plan (outside answered) service payload empty
    ≡ (returned reported, (create_trade_plan (outside answered) service payload empty).1)
unfolding creation
created_run = refl

create-IsStored_example :
    (e : RiskDecision Fixed) × (evaluate default_policy (engine_request payload) ≡ ok e)
    × IsStored
        (outside answered)
        payload
        empty.live
        e
        (evaluate_gate gate e market)
        reported
        (create_trade_plan (outside answered) service payload empty).1
create-IsStored_example =
    create-IsStored (outside answered) service payload empty
      (create_trade_plan (outside answered) service payload empty).1 reported _ created_run

-- Outline fails once the plan is stored.
outline_run :
    create_trade_plan (outside none) service payload empty
    ≡ (raised outline_error, (create_trade_plan (outside none) service payload empty).1)
unfolding creation
outline_run = refl

create-IsRaised_example :
    IsRaised
      (outside none)
      empty
      outline_error
      (create_trade_plan (outside none) service payload empty).1
create-IsRaised_example =
    create-IsRaised (outside none) service payload empty
      (create_trade_plan (outside none) service payload empty).1 outline_error outline_run

approved_plan_within_limits_example :
    (e : RiskDecision Fixed) × (evaluate default_policy (engine_request payload) ≡ ok e)
    × (reported.applied_risk_pct ≡ e.suggested_risk_pct)
    × IsClear gate e market
    × (let top = fmin default_policy.max_account_risk_pct portfolio.max_portfolio_risk_pct in
        IsAtMost top e.portfolio_risk_pct_after
        × IsAtMost (fmin top portfolio.max_symbol_risk_pct) e.symbol_risk_pct_after
        × IsAtMost (fmin top portfolio.max_cluster_risk_pct) e.cluster_risk_pct_after)
unfolding creation
approved_plan_within_limits_example =
    approved_plan_within_limits Fixed-IsFloat (outside answered) service payload empty
      (create_trade_plan (outside answered) service payload empty).1 reported portfolio _ refl refl
      refl refl refl refl created_run refl

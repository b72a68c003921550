-- ===== src/Plan.antt =====
-- apps/api/app/services/trade_plan_service.py: a request is judged by the risk engine and the final
-- gate, and the plan is stored with its risk events. The database and Outline are parameters.
pub mod Events
pub mod Asked
pub mod Judged
pub mod Stored
pub mod Raised
pub mod Limits
pub mod Tests
use binance_futures_algo_bot.Db.Sorting.{sorted_items, put_key}
use binance_futures_algo_bot.Risk.Policy.{RiskPolicy}
use binance_futures_algo_bot.Gate.{evaluate_gate, FinalDecisionGate, FinalGateDecision}
use binance_futures_algo_bot.Common.{
  false, is_empty, true, [], String, ◌∷◌, ◌&&◌, none, length, ◌++◌, suc, some, if◌then◌else◌,
  Option, ℕ, Bool, List,
}
use binance_futures_algo_bot.Common.Texts.{Text, codes}
use binance_futures_algo_bot.Float.{Float, nought}
use binance_futures_algo_bot.Risk.Schemas.{
  regime, optional, ok, PortfolioState, err, Regime, MarketState, long, SignalSnapshot,
  RiskEventDetail, Result, Side, short, Error, RiskDecision,
}
use binance_futures_algo_bot.Risk.Evaluate.{evaluate, Request}
use binance_futures_algo_bot.Db.{
  rollback, commit, put_tables, returned, raised, RiskEvent, TradePlan, Session, Tables, Reply,
}

pub record TradePlanCreateRequest (F : Type 0) : Type 0 where
  pub symbol : Text
  pub side : Side
  pub entry_price : F
  pub stop_loss : F
  pub take_profit : F
  pub capital_usdt : F
  pub existing_risk_pct : F
  pub thesis : Text
  pub signals : SignalSnapshot F
  pub market_state : MarketState F
  pub portfolio_state : Option (PortfolioState F)

pub record TradePlanCreateResponse (F : Type 0) : Type 0 where
  pub id : ℕ
  pub status : Text
  pub outline_url : Option Text
  pub market_regime : Regime
  pub aggregate_score : F
  pub applied_risk_pct : F
  pub max_position_notional : F
  pub final_gate_score : Option F
  pub final_gate_passed : Option Bool
  pub final_gate_reason : Option String
  pub final_gate_pre_rejected_by_engine : Option Bool
  pub triggered_breakers : List String

-- what `create_trade_plan` may raise
pub data PlanError : Type 0 where
  engine_error : Error → PlanError
  database_error : PlanError
  outline_error : PlanError

-- The clock, the constraints of the database, which a flush or a commit checks, and Outline, which
-- raises or answers with the url of a document or without one.
pub record Outside (F : Type 0) : Type 0 where
  pub now : ℕ
  pub accepts : Tables F → Bool
  pub document : TradePlanCreateRequest F → RiskDecision F → Option (Option Text)

pub record TradePlanService (F : Type 0) : Type 0 where
  pub risk_engine : RiskPolicy F
  pub final_gate : FinalDecisionGate F

unfoldable pub side_text : Side → Text
side_text long = codes "long"
side_text short = codes "short"

abbrev pub Outcome : Type 0 → Type 0
Outcome F = Reply PlanError (TradePlanCreateResponse F) × Session F

module _ {F : Type 0} ⦃f : Float F⦄ where
  unfoldable pub engine_request : TradePlanCreateRequest F → Request F
  engine_request payload = record {
    capital_usdt = payload.capital_usdt;
    existing_risk_pct = payload.existing_risk_pct;
    signals = payload.signals;
    market_state = payload.market_state;
    entry_price = payload.entry_price;
    stop_loss = payload.stop_loss;
    symbol = some payload.symbol;
    side = some payload.side;
    portfolio_state = payload.portfolio_state;
  }

  -- the decision of the engine with what the gate makes of it
  unfoldable pub effective_decision : RiskDecision F → FinalGateDecision F → RiskDecision F
  effective_decision d g =
      let approved = d.approved && g.passed in
      record {
        approved = approved;
        max_position_notional = if approved then d.max_position_notional else nought;
        suggested_risk_pct = if approved then d.suggested_risk_pct else nought;
        reason = if approved then d.reason else if d.approved then g.reason else d.reason;
        market_regime = d.market_regime;
        score = d.score;
        regime_confidence = d.regime_confidence;
        portfolio_risk_pct_before = d.portfolio_risk_pct_before;
        portfolio_risk_pct_after = d.portfolio_risk_pct_after;
        cluster_key = d.cluster_key;
        cluster_risk_pct_before = d.cluster_risk_pct_before;
        cluster_risk_pct_after = d.cluster_risk_pct_after;
        symbol_risk_pct_before = d.symbol_risk_pct_before;
        symbol_risk_pct_after = d.symbol_risk_pct_after;
        correlation_multiplier = d.correlation_multiplier;
        final_gate_score = some g.final_score;
        final_gate_passed = some g.passed;
        final_gate_reason = some g.reason;
        final_gate_pre_rejected_by_engine = some g.pre_rejected_by_engine;
        triggered_breakers = g.triggered_breakers;
        risk_events = d.risk_events ++ g.events;
      }

  unfoldable pub new_trade_plan : ℕ → TradePlanCreateRequest F → RiskDecision F → ℕ → TradePlan F
  unfolding side_text
  new_trade_plan now payload d id = record {
    id = id;
    symbol = payload.symbol;
    side = side_text payload.side;
    timeframe = payload.market_state.timeframe;
    market_regime = d.market_regime;
    technical_score = payload.signals.technical;
    fundamental_score = payload.signals.fundamental;
    sentiment_score = payload.signals.sentiment;
    confidence_score = payload.signals.confidence;
    aggregate_score = d.score;
    entry_price = payload.entry_price;
    stop_loss = payload.stop_loss;
    take_profit = payload.take_profit;
    capital_usdt = payload.capital_usdt;
    applied_risk_pct = d.suggested_risk_pct;
    max_position_notional = d.max_position_notional;
    final_gate_score = d.final_gate_score;
    final_gate_passed = d.final_gate_passed;
    final_gate_reason = d.final_gate_reason;
    final_gate_pre_rejected_by_engine = d.final_gate_pre_rejected_by_engine;
    triggered_breakers = d.triggered_breakers;
    thesis = payload.thesis;
    status = if d.approved then codes "approved" else codes "blocked";
    outline_url = none;
    is_testnet = true;
    created_at = now;
  }

  -- `trade_plan.outline_url = outline_url`
  unfoldable pub with_url : Text → TradePlan F → TradePlan F
  with_url url p = record {
    id = p.id;
    symbol = p.symbol;
    side = p.side;
    timeframe = p.timeframe;
    market_regime = p.market_regime;
    technical_score = p.technical_score;
    fundamental_score = p.fundamental_score;
    sentiment_score = p.sentiment_score;
    confidence_score = p.confidence_score;
    aggregate_score = p.aggregate_score;
    entry_price = p.entry_price;
    stop_loss = p.stop_loss;
    take_profit = p.take_profit;
    capital_usdt = p.capital_usdt;
    applied_risk_pct = p.applied_risk_pct;
    max_position_notional = p.max_position_notional;
    final_gate_score = p.final_gate_score;
    final_gate_passed = p.final_gate_passed;
    final_gate_reason = p.final_gate_reason;
    final_gate_pre_rejected_by_engine = p.final_gate_pre_rejected_by_engine;
    triggered_breakers = p.triggered_breakers;
    thesis = p.thesis;
    status = p.status;
    outline_url = some url;
    is_testnet = p.is_testnet;
    created_at = p.created_at;
  }

  -- the row of one event of the decision
  unfoldable pub event_row : ℕ → RiskDecision F → ℕ → RiskEventDetail F → ℕ → RiskEvent F
  event_row now d plan_id e id =
      let context =
        put_key "regime_confidence" (optional d.regime_confidence)
          (put_key "market_regime" (regime d.market_regime) e.context) in
      record {
        id = id;
        trade_plan_id = some plan_id;
        event_type = e.event_type;
        severity = e.severity;
        message = record { literal = e.message; values = sorted_items context };
        context_json = context;
        created_at = now;
      }

  unfoldable pub event_rows :
      ℕ → RiskDecision F → ℕ → List (RiskEventDetail F) → ℕ → List (RiskEvent F)
  event_rows now d plan_id [] id = []
  event_rows now d plan_id (e ∷ es) id =
      event_row now d plan_id e id ∷ event_rows now d plan_id es (suc id)

  unfoldable pub add_plan : TradePlan F → Tables F → Tables F
  add_plan p t = record {
    plans = t.plans ++ p ∷ [];
    orders = t.orders;
    positions = t.positions;
    events = t.events;
  }

  unfoldable pub add_events : List (RiskEvent F) → Tables F → Tables F
  add_events rows t = record {
    plans = t.plans;
    orders = t.orders;
    positions = t.positions;
    events = t.events ++ rows;
  }

  -- the `try` block: flush, the events, commit; or rollback and raise
  unfoldable pub store_plan :
      Outside F → TradePlan F → RiskDecision F → Session F → Bool × Session F
  unfolding add_plan add_events event_rows
  store_plan out plan d s =
      let flushed = add_plan plan s.live in
      let rows = event_rows out.now d plan.id d.risk_events (suc (length s.live.events)) in
      let full = add_events rows flushed in
      if out.accepts flushed && out.accepts full
      then (true, commit (record { saved = s.saved; live = full }))
      else (false, rollback s)

  unfoldable pub response : TradePlan F → RiskDecision F → TradePlanCreateResponse F
  response p d = record {
    id = p.id;
    status = p.status;
    outline_url = p.outline_url;
    market_regime = p.market_regime;
    aggregate_score = p.aggregate_score;
    applied_risk_pct = p.applied_risk_pct;
    max_position_notional = p.max_position_notional;
    final_gate_score = d.final_gate_score;
    final_gate_passed = d.final_gate_passed;
    final_gate_reason = d.final_gate_reason;
    final_gate_pre_rejected_by_engine = d.final_gate_pre_rejected_by_engine;
    triggered_breakers = d.triggered_breakers;
  }

  -- the url of the document, if there is one, in the stored plan
  unfoldable pub attach_document :
      Outside F → TradePlan F → RiskDecision F → Session F → Option (Option Text) → Outcome F
  unfolding response with_url
  attach_document out plan d s none = (raised outline_error, s)
  attach_document out plan d s (some none) = (returned (response plan d), s)
  attach_document out plan d s (some (some url)) =
      let linked = with_url url plan in
      let live = put_tables linked s.live in
      if is_empty url
      then (returned (response plan d), s)
      else if out.accepts live
      then (returned (response linked d), commit (record { saved = s.saved; live = live }))
      else (raised database_error, rollback s)

  unfoldable pub finish :
      Outside F
      → TradePlanCreateRequest F
      → TradePlan F
      → RiskDecision F
      → Bool × Session F
      → Outcome F
  unfolding attach_document
  finish out payload plan d (true, s) = attach_document out plan d s (out.document payload d)
  finish out payload plan d (false, s) = (raised database_error, s)

  -- the rest of `create_trade_plan`, given what the engine answers
  unfoldable pub after_engine :
      Outside F
      → TradePlanService F
      → TradePlanCreateRequest F
      → Session F
      → Result (RiskDecision F)
      → Outcome F
  unfolding effective_decision new_trade_plan store_plan finish
  after_engine out service payload s (err e) = (raised (engine_error e), s)
  after_engine out service payload s (ok e) =
      let d = effective_decision e (evaluate_gate service.final_gate e payload.market_state) in
      let plan = new_trade_plan out.now payload d (suc (length s.live.plans)) in
      finish out payload plan d (store_plan out plan d s)

  unfoldable pub create_trade_plan :
      Outside F → TradePlanService F → TradePlanCreateRequest F → Session F → Outcome F
  unfolding engine_request after_engine
  create_trade_plan out service payload s =
      after_engine out service payload s (evaluate service.risk_engine (engine_request payload))

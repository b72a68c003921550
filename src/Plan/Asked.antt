-- ===== src/Plan/Asked.antt =====
-- What a plan takes from its request, from the engine and from the gate, and what the response repeats
-- (`create_trade_plan` of apps/api/app/services/trade_plan_service.py).
use binance_futures_algo_bot.Common.{
  ◌≡◌, ◌⊎◌, sym, refl, inl, inr, ℕ, true, Option, none, some, [], ◌∷◌,
}
use binance_futures_algo_bot.Common.Texts.{Text, codes}
use binance_futures_algo_bot.Float.{Float}
use binance_futures_algo_bot.Gate.{FinalGateDecision}
use binance_futures_algo_bot.Risk.Schemas.{RiskDecision, Side, long, short}
use binance_futures_algo_bot.Db.{TradePlan}
use binance_futures_algo_bot.Plan.{
  TradePlanCreateRequest, TradePlanCreateResponse, effective_decision, new_trade_plan, side_text,
  response, with_url,
}

side_text-cases :
    (side : Side)
    → ((side ≡ long) × (side_text side ≡ codes "long"))
      ⊎ ((side ≡ short) × (side_text side ≡ codes "short"))
unfolding side_text
side_text-cases long = inl (refl, refl)
side_text-cases short = inr (refl, refl)

module _ {F : Type 0} ⦃f : Float F⦄ where
  -- The columns that a plan takes from the request, the engine's decision `e` and the gate's `g`.
  pub record IsAsked (now : ℕ) (payload : TradePlanCreateRequest F) (e : RiskDecision F)
      (g : FinalGateDecision F) (plan : TradePlan F) : Type 0 where
    pub symbol : plan.symbol ≡ payload.symbol
    pub side :
        ((payload.side ≡ long) × (plan.side ≡ codes "long"))
        ⊎ ((payload.side ≡ short) × (plan.side ≡ codes "short"))
    pub timeframe : plan.timeframe ≡ payload.market_state.timeframe
    pub technical : plan.technical_score ≡ payload.signals.technical
    pub fundamental : plan.fundamental_score ≡ payload.signals.fundamental
    pub sentiment : plan.sentiment_score ≡ payload.signals.sentiment
    pub confidence : plan.confidence_score ≡ payload.signals.confidence
    pub entry : plan.entry_price ≡ payload.entry_price
    pub stop : plan.stop_loss ≡ payload.stop_loss
    pub profit : plan.take_profit ≡ payload.take_profit
    pub capital : plan.capital_usdt ≡ payload.capital_usdt
    pub thesis : plan.thesis ≡ payload.thesis
    pub market_regime : plan.market_regime ≡ e.market_regime
    pub score : plan.aggregate_score ≡ e.score
    pub gate_score : plan.final_gate_score ≡ some g.final_score
    pub gate_passed : plan.final_gate_passed ≡ some g.passed
    pub gate_reason : plan.final_gate_reason ≡ some g.reason
    pub gate_rejected : plan.final_gate_pre_rejected_by_engine ≡ some g.pre_rejected_by_engine
    pub breakers : plan.triggered_breakers ≡ g.triggered_breakers
    pub testnet : plan.is_testnet ≡ true
    pub time : plan.created_at ≡ now

  pub new_trade_plan-IsAsked :
      (now id : ℕ) (payload : TradePlanCreateRequest F) (e : RiskDecision F)
      (g : FinalGateDecision F)
      → IsAsked now payload e g (new_trade_plan now payload (effective_decision e g) id)
  unfolding new_trade_plan effective_decision
  new_trade_plan-IsAsked now id payload e g = record {
    symbol = refl;
    side = side_text-cases payload.side;
    timeframe = refl;
    technical = refl;
    fundamental = refl;
    sentiment = refl;
    confidence = refl;
    entry = refl;
    stop = refl;
    profit = refl;
    capital = refl;
    thesis = refl;
    market_regime = refl;
    score = refl;
    gate_score = refl;
    gate_passed = refl;
    gate_reason = refl;
    gate_rejected = refl;
    breakers = refl;
    testnet = refl;
    time = refl;
  }

  pub with_url-IsAsked :
      (now : ℕ) (payload : TradePlanCreateRequest F) (e : RiskDecision F) (g : FinalGateDecision F)
      (plan : TradePlan F) (url : Text)
      → IsAsked now payload e g plan
      → IsAsked now payload e g (with_url url plan)
  unfolding with_url
  with_url-IsAsked now payload e g plan url h = record {
    symbol = h.symbol;
    side = h.side;
    timeframe = h.timeframe;
    technical = h.technical;
    fundamental = h.fundamental;
    sentiment = h.sentiment;
    confidence = h.confidence;
    entry = h.entry;
    stop = h.stop;
    profit = h.profit;
    capital = h.capital;
    thesis = h.thesis;
    market_regime = h.market_regime;
    score = h.score;
    gate_score = h.gate_score;
    gate_passed = h.gate_passed;
    gate_reason = h.gate_reason;
    gate_rejected = h.gate_rejected;
    breakers = h.breakers;
    testnet = h.testnet;
    time = h.time;
  }

  -- The parts of a plan that a response repeats, which are all of its fields.
  pub record IsReported (r : TradePlanCreateResponse F) (plan : TradePlan F) : Type 0 where
    pub id : r.id ≡ plan.id
    pub status : r.status ≡ plan.status
    pub url : r.outline_url ≡ plan.outline_url
    pub market_regime : r.market_regime ≡ plan.market_regime
    pub score : r.aggregate_score ≡ plan.aggregate_score
    pub risk : r.applied_risk_pct ≡ plan.applied_risk_pct
    pub notional : r.max_position_notional ≡ plan.max_position_notional
    pub gate_score : r.final_gate_score ≡ plan.final_gate_score
    pub gate_passed : r.final_gate_passed ≡ plan.final_gate_passed
    pub gate_reason : r.final_gate_reason ≡ plan.final_gate_reason
    pub gate_rejected : r.final_gate_pre_rejected_by_engine ≡ plan.final_gate_pre_rejected_by_engine
    pub breakers : r.triggered_breakers ≡ plan.triggered_breakers

  pub response-IsReported :
      (now : ℕ) (payload : TradePlanCreateRequest F) (e : RiskDecision F) (g : FinalGateDecision F)
      (plan : TradePlan F)
      → IsAsked now payload e g plan
      → IsReported (response plan (effective_decision e g)) plan
  unfolding response effective_decision
  response-IsReported now payload e g plan h = record {
    id = refl;
    status = refl;
    url = refl;
    market_regime = refl;
    score = refl;
    risk = refl;
    notional = refl;
    gate_score = sym h.gate_score;
    gate_passed = sym h.gate_passed;
    gate_reason = sym h.gate_reason;
    gate_rejected = sym h.gate_rejected;
    breakers = sym h.breakers;
  }

-- The url of a plan by the answer of Outline: that of the document, or none where there is none or an
-- empty one.
abbrev pub IsLinked : Option (Option Text) → Option Text → Type 0
IsLinked none url = ⊥
IsLinked (some none) url = url ≡ none
IsLinked (some (some [])) url = url ≡ none
IsLinked (some (some (c ∷ cs))) url = url ≡ some (c ∷ cs)

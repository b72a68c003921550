-- ===== src/Risk/Evaluate.antt =====
-- `RiskEngine.evaluate`: what it reads off its inputs (an `Assessment`), and the decision.
use binance_futures_algo_bot.Common.{
  Bool, true, false, ◌&&◌, Option, none, some, List, [], ◌∷◌, ◌++◌, String, if◌then◌else◌,
}
use binance_futures_algo_bot.Common.Texts.{Text, upper}
use binance_futures_algo_bot.Float.{
  Float, ◌⊕◌, ◌⊖◌, ◌⊗◌, ◌⊘◌, ◌≤?◌, ◌<?◌, dec, nought, round_to, fmin, fmax, feq, fabs,
}
use binance_futures_algo_bot.Risk.Schemas.{
  Result, ok, err, invariant_error, ◌>>=◌, Side, info, warning, critical, Regime, Cluster,
  SignalSnapshot, MarketState, PortfolioState, Value, number, text, cluster, regime,
  RiskEventDetail, RiskDecision, new_portfolio_state, new_risk_decision,
}
use binance_futures_algo_bot.Risk.Policy.{RiskPolicy}
use binance_futures_algo_bot.Risk.Regime.{resolve_market_regime, estimate_regime_confidence}
use binance_futures_algo_bot.Risk.Exposure.{correlation_multiplier, portfolio_metrics}
use binance_futures_algo_bot.Risk.Sizing.{aggregate_score, suggest_risk_pct}

-- the keyword arguments of `evaluate`; `side` is reserved and not used
pub record Request (F : Type 0) : Type 0 where
  pub capital_usdt : F
  pub existing_risk_pct : F
  pub signals : SignalSnapshot F
  pub market_state : MarketState F
  pub entry_price : F
  pub stop_loss : F
  pub symbol : Option Text
  pub side : Option Side
  pub portfolio_state : Option (PortfolioState F)

-- the local variables of `evaluate` where the size is known and not yet limited
pub record Assessment (F : Type 0) : Type 0 where
  pub symbol : Text
  pub cluster_key : Cluster
  pub market_regime : Regime
  pub confidence : F
  pub score : F
  pub portfolio_before : F
  pub symbol_before : F
  pub cluster_before : F
  pub max_account : F
  pub max_portfolio : F
  pub max_cluster : F
  pub max_symbol : F
  pub multiplier : F
  pub suggested : F
  pub events : List (RiskEventDetail F)

-- `symbol or market_state.symbol`
abbrev pub or_symbol : Option Text → Text → Text
or_symbol none own = own
or_symbol (some []) own = own
or_symbol (some (c ∷ s)) own = c ∷ s

module _ {F : Type 0} ⦃f : Float F⦄ where
  -- `portfolio_state or PortfolioState(...)`
  unfoldable pub portfolio_or_default :
      RiskPolicy F → Option (PortfolioState F) → Result (PortfolioState F)
  portfolio_or_default policy (some p) = ok p
  portfolio_or_default policy none = new_portfolio_state (record {
    positions = [];
    max_portfolio_risk_pct = policy.max_account_risk_pct;
    max_cluster_risk_pct = policy.default_max_cluster_risk_pct;
    max_symbol_risk_pct = policy.default_max_symbol_risk_pct;
    correlation_guard_enabled = true;
  })

  unfoldable pub correlation_event : Text → Cluster → F → F → RiskEventDetail F
  correlation_event symbol key pressure multiplier = record {
    event_type = "correlation_pressure";
    severity = warning;
    message = "Sizing degradado por presión de correlación en portafolio";
    context =
        ("symbol", text symbol)
        ∷ ("cluster_key", cluster key)
        ∷ ("correlation_pressure", number (round_to 4 pressure))
        ∷ ("correlation_multiplier", number multiplier)
        ∷ [];
  }

  -- the block under `if portfolio_state.correlation_guard_enabled`
  unfoldable pub guard_correlation : Text → PortfolioState F → F → Assessment F → Assessment F
  unfolding correlation_event
  guard_correlation symbol portfolio max_portfolio a =
      let (multiplier, pressure) =
        correlation_multiplier symbol portfolio.positions max_portfolio in
      let degraded = (multiplier <? dec 10 1) && (nought <? a.suggested) in
      if portfolio.correlation_guard_enabled
      then (if degraded
          then record a {
            multiplier = multiplier;
            suggested = round_to 4 (a.suggested ⊗ multiplier);
            events = correlation_event symbol a.cluster_key pressure multiplier ∷ [];
          }
          else record a { multiplier = multiplier })
      else a

  unfoldable pub assess : RiskPolicy F → Request F → PortfolioState F → Assessment F
  unfolding guard_correlation
  assess policy r portfolio =
      let m = r.market_state in
      let own_regime = resolve_market_regime policy m in
      let confidence = estimate_regime_confidence m own_regime in
      let score = aggregate_score r.signals m in
      let symbol = upper (or_symbol r.symbol m.symbol) in
      let metrics = portfolio_metrics symbol r.existing_risk_pct portfolio.positions in
      let max_portfolio = fmin policy.max_account_risk_pct portfolio.max_portfolio_risk_pct in
      guard_correlation symbol portfolio max_portfolio (record {
        symbol = symbol;
        cluster_key = metrics.cluster_key;
        market_regime = own_regime;
        confidence = confidence;
        score = score;
        portfolio_before = metrics.portfolio_before;
        symbol_before = metrics.symbol_before;
        cluster_before = metrics.cluster_before;
        max_account = policy.max_account_risk_pct;
        max_portfolio = max_portfolio;
        max_cluster = fmin max_portfolio portfolio.max_cluster_risk_pct;
        max_symbol = fmin max_portfolio portfolio.max_symbol_risk_pct;
        multiplier = dec 10 1;
        suggested = suggest_risk_pct policy score own_regime confidence m.volatility_pct;
        events = [];
      })

  unfoldable pub available_portfolio : Assessment F → F
  available_portfolio a = fmax (a.max_portfolio ⊖ a.portfolio_before) nought

  unfoldable pub available_symbol : Assessment F → F
  available_symbol a = fmax (a.max_symbol ⊖ a.symbol_before) nought

  unfoldable pub available_cluster : Assessment F → F
  available_cluster a = fmax (a.max_cluster ⊖ a.cluster_before) nought

  -- `min(available_portfolio, available_symbol, available_cluster)`
  unfoldable pub available_risk_pct : Assessment F → F
  available_risk_pct a =
      fmin (fmin (available_portfolio a) (available_symbol a)) (available_cluster a)

  -- the decision of each `return`, over what differs between them; the gate's fields have their
  -- defaults
  unfoldable pub decision :
      Assessment F
      → Bool
      → F
      → F
      → String
      → F
      → F
      → F
      → List (RiskEventDetail F)
      → Result (RiskDecision F)
  decision a approved notional suggested reason portfolio_after symbol_after cluster_after events =
      new_risk_decision (record {
        approved = approved;
        max_position_notional = notional;
        suggested_risk_pct = suggested;
        reason = reason;
        market_regime = a.market_regime;
        score = a.score;
        regime_confidence = some a.confidence;
        portfolio_risk_pct_before = some a.portfolio_before;
        portfolio_risk_pct_after = some portfolio_after;
        cluster_key = some a.cluster_key;
        cluster_risk_pct_before = some a.cluster_before;
        cluster_risk_pct_after = some cluster_after;
        symbol_risk_pct_before = some a.symbol_before;
        symbol_risk_pct_after = some symbol_after;
        correlation_multiplier = some a.multiplier;
        final_gate_score = none;
        final_gate_passed = none;
        final_gate_reason = none;
        final_gate_pre_rejected_by_engine = none;
        triggered_breakers = [];
        risk_events = events;
      })

  -- a refusal leaves the portfolio as it was
  unfoldable pub refuse : Assessment F → String → List (RiskEventDetail F) → Result (RiskDecision F)
  unfolding decision
  refuse a reason events =
      decision a false nought nought reason a.portfolio_before a.symbol_before a.cluster_before
        events

  unfoldable pub critical_event : String → String → List (String × Value F) → RiskEventDetail F
  critical_event event_type message context = record {
    event_type = event_type;
    severity = critical;
    message = message;
    context = context;
  }

  unfoldable pub score_refused : Assessment F → RiskEventDetail F
  unfolding critical_event
  score_refused a =
      critical_event "risk_gate_score_or_regime" "Score/régimen insuficiente para abrir operación" (
        ("score", number a.score)
        ∷ ("market_regime", regime a.market_regime)
        ∷ ("regime_confidence", number a.confidence)
        ∷ [])

  unfoldable pub portfolio_breach : Assessment F → RiskEventDetail F
  unfolding critical_event
  portfolio_breach a =
      critical_event "portfolio_risk_limit_breached"
        "Sin margen de riesgo disponible dentro del límite global de portafolio"
        (("portfolio_risk_before", number a.portfolio_before)
          ∷ ("max_portfolio_risk_pct", number a.max_portfolio)
          ∷ (
            "available_policy_risk_pct",
            number (round_to 4 (fmax (a.max_account ⊖ a.portfolio_before) nought)),
          )
          ∷ [])

  unfoldable pub symbol_breach : Assessment F → RiskEventDetail F
  unfolding critical_event
  symbol_breach a =
      critical_event "symbol_risk_limit_breached" "Bloqueado por límite de riesgo por símbolo" (
        ("symbol", text a.symbol)
        ∷ ("symbol_risk_before", number a.symbol_before)
        ∷ ("max_symbol_risk_pct", number a.max_symbol)
        ∷ [])

  unfoldable pub cluster_breach : Assessment F → RiskEventDetail F
  unfolding critical_event
  cluster_breach a =
      critical_event "cluster_risk_limit_breached"
        "Bloqueado por límite de riesgo por clúster correlacionado"
        (("symbol", text a.symbol)
          ∷ ("cluster_key", cluster a.cluster_key)
          ∷ ("cluster_risk_before", number a.cluster_before)
          ∷ ("max_cluster_risk_pct", number a.max_cluster)
          ∷ [])

  abbrev pub event_if : Bool → RiskEventDetail F → List (RiskEventDetail F)
  event_if hit e = if hit then e ∷ [] else []

  -- the list `breached`, whose entries become events as they stand
  unfoldable pub breaches : Assessment F → List (RiskEventDetail F)
  unfolding portfolio_breach symbol_breach cluster_breach
  breaches a =
      event_if (available_portfolio a ≤? nought) (portfolio_breach a)
      ++ (event_if (available_symbol a ≤? nought) (symbol_breach a)
          ++ event_if (available_cluster a ≤? nought) (cluster_breach a))

  unfoldable pub refuse_breached : Assessment F → List (RiskEventDetail F) → Result (RiskDecision F)
  unfolding refuse
  refuse_breached a [] = err invariant_error
  refuse_breached a (first ∷ rest) = refuse a first.message (a.events ++ (first ∷ rest))

  unfoldable pub capped_event : Assessment F → F → RiskEventDetail F
  capped_event a applied = record {
    event_type = "risk_pct_capped_by_portfolio";
    severity = warning;
    message = "Sizing recortado por límites agregados de portafolio/correlación";
    context =
        ("suggested_risk_pct", number a.suggested)
        ∷ ("applied_risk_pct", number applied)
        ∷ ("cluster_key", cluster a.cluster_key)
        ∷ [];
  }

  unfoldable pub invalid_stop : Request F → RiskEventDetail F
  unfolding critical_event
  invalid_stop r =
      critical_event "invalid_stop_distance" "Stop loss inválido: distancia cero"
        (("entry_price", number r.entry_price) ∷ ("stop_loss", number r.stop_loss) ∷ [])

  unfoldable pub approved_event : Assessment F → F → F → F → RiskEventDetail F
  approved_event a portfolio_after symbol_after cluster_after = record {
    event_type = "portfolio_risk_approved";
    severity = info;
    message = "Operación aprobada respetando límites de riesgo de portafolio";
    context =
        ("cluster_key", cluster a.cluster_key)
        ∷ ("portfolio_risk_after", number portfolio_after)
        ∷ ("cluster_risk_after", number cluster_after)
        ∷ ("symbol_risk_after", number symbol_after)
        ∷ [];
  }

  -- from `applied_risk_pct` on
  unfoldable pub size_position : Request F → Assessment F → Result (RiskDecision F)
  unfolding refuse capped_event invalid_stop approved_event
  size_position r a =
      let applied = fmin a.suggested (available_risk_pct a) in
      let portfolio_after = round_to 4 (a.portfolio_before ⊕ applied) in
      let symbol_after = round_to 4 (a.symbol_before ⊕ applied) in
      let cluster_after = round_to 4 (a.cluster_before ⊕ applied) in
      let events = a.events ++ event_if (applied <? a.suggested) (capped_event a applied) in
      let stop_distance = fabs (r.entry_price ⊖ r.stop_loss) in
      let quantity = r.capital_usdt ⊗ (applied ⊘ dec 100 0) ⊘ stop_distance in
      if stop_distance ≤? nought
      then refuse a "Stop loss inválido: distancia cero" (events ++ invalid_stop r ∷ [])
      else decision a true (round_to 2 (quantity ⊗ r.entry_price)) applied
          "Operación aprobada por el motor de riesgo" portfolio_after symbol_after cluster_after
          (events ++ approved_event a portfolio_after symbol_after cluster_after ∷ [])

  unfoldable pub decide : Request F → Assessment F → Result (RiskDecision F)
  unfolding refuse score_refused refuse_breached size_position
  decide r a =
      if feq a.suggested nought
      then refuse a "Score/régimen insuficiente para abrir operación"
          (a.events ++ score_refused a ∷ [])
      else if available_risk_pct a ≤? nought
      then refuse_breached a (breaches a)
      else size_position r a

  unfoldable pub evaluate : RiskPolicy F → Request F → Result (RiskDecision F)
  unfolding portfolio_or_default assess decide
  evaluate policy r = do
    portfolio ← portfolio_or_default policy r.portfolio_state
    decide r (assess policy r portfolio)

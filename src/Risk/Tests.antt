-- ===== src/Risk/Tests.antt =====
-- Runs of the risk engine on decimals, and its theorems at concrete inputs.
use binance_futures_algo_bot.Risk.Sizing.{
  guarded_regime_multiplier, volatility_multiplier, regime_multiplier, score_multiplier,
  suggest_risk_pct, aggregate_score,
}
use binance_futures_algo_bot.Risk.Exposure.{
  aggregate_pressure, add_pressure, correlation_coefficient, correlation_multiplier, sum_risk,
  symbol_cluster, cluster_eq, portfolio_metrics,
}
use binance_futures_algo_bot.Risk.Regime.{
  clamp_pct, estimate_regime_confidence, normalize_regime_alias, resolve_market_regime,
}
use binance_futures_algo_bot.Risk.Limits.{approved_within_limits, IsAtMost}
use binance_futures_algo_bot.Float.{fabs, fmax, fmin}
use binance_futures_algo_bot.Common.Int.{pos}
use binance_futures_algo_bot.Common.{
  select, refl, ◌≡◌, ◌-◌, ◌^◌, true, ◌*◌, [], ◌∷◌, some, ℕ, none, String,
}
use binance_futures_algo_bot.Float.Fixed.{Fixed, fixed_float, Fixed-IsFloat}
use binance_futures_algo_bot.Common.Texts.{
  remove_suffix, starts_with, strip, upper, lower, text_in, text_eq, codes,
}
use binance_futures_algo_bot.Risk.Policy.{RiskPolicy, default_policy}
use binance_futures_algo_bot.Risk.Evaluate.{
  breaches, available_risk_pct, available_cluster, available_symbol, available_portfolio, evaluate,
  Request,
}
use binance_futures_algo_bot.Risk.Schemas.{
  risk_decision_valid, new_risk_decision, info, cluster, number, warning, ok, large_alt,
  tendencia_alcista, long, PositionExposure, RiskDecision, PortfolioState, MarketState, Result,
}

-- what a run of the engine computes with
unfoldable pub engine : RiskPolicy Fixed → Request Fixed → Result (RiskDecision Fixed)
unfolding fixed_float evaluate fmin fmax fabs text_eq text_in lower upper strip starts_with
    remove_suffix resolve_market_regime normalize_regime_alias estimate_regime_confidence
    portfolio_metrics cluster_eq symbol_cluster select sum_risk correlation_multiplier
    correlation_coefficient add_pressure aggregate_pressure aggregate_score suggest_risk_pct
    score_multiplier regime_multiplier volatility_multiplier guarded_regime_multiplier clamp_pct
    available_portfolio available_symbol available_cluster available_risk_pct breaches
    new_risk_decision risk_decision_valid
engine = evaluate

abbrev pub d : ℕ → ℕ → Fixed
d n k = pos (n * 10 ^ (8 - k))

abbrev pub market : MarketState Fixed
market = record {
  symbol = codes "SOLUSDT";
  timeframe = codes "15m";
  volatility_pct = d 15 1;
  trend_strength = d 80 0;
  liquidity_score = d 90 0;
  market_regime = none;
  regime_confidence = some (d 80 0);
}

abbrev pub position : String → ℕ → PositionExposure Fixed
position symbol tenths = record {
  symbol = codes symbol;
  side = long;
  notional_usdt = d 100 0;
  risk_pct = d tenths 1;
}

abbrev pub portfolio : PortfolioState Fixed
portfolio = record {
  positions = position "BTCUSDT" 10 ∷ position "solusdt" 9 ∷ [];
  max_portfolio_risk_pct = d 5 0;
  max_cluster_risk_pct = d 25 1;
  max_symbol_risk_pct = d 15 1;
  correlation_guard_enabled = true;
}

abbrev pub request : Request Fixed
request = record {
  capital_usdt = d 1000 0;
  existing_risk_pct = d 5 1;
  signals = record {
    technical = d 90 0;
    fundamental = d 80 0;
    sentiment = d 85 0;
    confidence = d 90 0;
  };
  market_state = market;
  entry_price = d 100 0;
  stop_loss = d 98 0;
  symbol = none;
  side = some long;
  portfolio_state = some portfolio;
}

-- 0.6 % is what the symbol has left of its limit of 1.5 %.
abbrev pub decided : RiskDecision Fixed
decided = record {
  approved = true;
  max_position_notional = d 300 0;
  suggested_risk_pct = d 6 1;
  reason = "Operación aprobada por el motor de riesgo";
  market_regime = tendencia_alcista;
  score = d 87 0;
  regime_confidence = some (d 80 0);
  portfolio_risk_pct_before = some (d 24 1);
  portfolio_risk_pct_after = some (d 3 0);
  cluster_key = some large_alt;
  cluster_risk_pct_before = some (d 9 1);
  cluster_risk_pct_after = some (d 15 1);
  symbol_risk_pct_before = some (d 9 1);
  symbol_risk_pct_after = some (d 15 1);
  correlation_multiplier = some (d 1 0);
  final_gate_score = none;
  final_gate_passed = none;
  final_gate_reason = none;
  final_gate_pre_rejected_by_engine = none;
  triggered_breakers = [];
  risk_events =
      record {
        event_type = "risk_pct_capped_by_portfolio";
        severity = warning;
        message = "Sizing recortado por límites agregados de portafolio/correlación";
        context =
            ("suggested_risk_pct", number (d 12075 4))
            ∷ ("applied_risk_pct", number (d 6 1))
            ∷ ("cluster_key", cluster large_alt)
            ∷ [];
      }
      ∷ record {
        event_type = "portfolio_risk_approved";
        severity = info;
        message = "Operación aprobada respetando límites de riesgo de portafolio";
        context =
            ("cluster_key", cluster large_alt)
            ∷ ("portfolio_risk_after", number (d 3 0))
            ∷ ("cluster_risk_after", number (d 15 1))
            ∷ ("symbol_risk_after", number (d 15 1))
            ∷ [];
      }
      ∷ [];
}

pub decided_run : evaluate default_policy request ≡ ok decided
unfolding engine
decided_run = refl

approved_within_limits_example :
    IsAtMost (d 5 0) decided.portfolio_risk_pct_after
    × IsAtMost (d 15 1) decided.symbol_risk_pct_after
    × IsAtMost (d 25 1) decided.cluster_risk_pct_after
unfolding engine
approved_within_limits_example =
    approved_within_limits Fixed-IsFloat default_policy request portfolio decided refl refl refl
      refl refl refl decided_run refl

-- ===== src/Risk/Examples.antt =====
-- The theorems on the risk engine at the inputs of Risk/Tests.antt.
use binance_futures_algo_bot.Risk.Approval.{evaluate-ne-invariant}
use binance_futures_algo_bot.Risk.Scale.{
  suggest_risk_pct_mono, volatility_multiplier_antitone, score_multiplier_mono,
}
use binance_futures_algo_bot.Risk.Regime.{estimate_regime_confidence}
use binance_futures_algo_bot.Risk.Refusal.{critical_iff_refused, is_critical, IsRefusal}
use binance_futures_algo_bot.Risk.Policy.{default_policy}
use binance_futures_algo_bot.Risk.Total.{estimate_regime_confidence-IsPct, IsPct}
use binance_futures_algo_bot.Risk.Sizing.{volatility_multiplier, suggest_risk_pct, score_multiplier}
use binance_futures_algo_bot.Risk.Schemas.{
  ok, RiskDecision, validation_error, long, invariant_error, tendencia_alcista, err, PortfolioState,
}
use binance_futures_algo_bot.Risk.Raises.{evaluate_raises_iff, IsOverfull}
use binance_futures_algo_bot.Risk.Evaluate.{assess, evaluate, Request}
use binance_futures_algo_bot.Common.{
  arith, ◌⊎◌, true, [], ◌∷◌, some, any, none, false, ◌≡◌, ◌≢◌, refl,
}
use binance_futures_algo_bot.Risk.Tests.{position, engine, request, decided, decided_run, market, d}
use binance_futures_algo_bot.Float.{◌≼◌}
use binance_futures_algo_bot.Float.Fixed.{Fixed, fixed_float, Fixed-IsFloat}

critical_iff_refused_example :
    ((decided.approved ≡ false) × IsRefusal decided × (any is_critical decided.risk_events ≡ true))
    ⊎ ((decided.approved ≡ true) × (any is_critical decided.risk_events ≡ false))
critical_iff_refused_example = critical_iff_refused default_policy request decided decided_run

evaluate-ne-invariant_example : evaluate default_policy request ≢ err invariant_error
evaluate-ne-invariant_example = evaluate-ne-invariant default_policy request

estimate_regime_confidence-IsPct_example :
    IsPct (estimate_regime_confidence market tendencia_alcista)
estimate_regime_confidence-IsPct_example =
    estimate_regime_confidence-IsPct Fixed-IsFloat market tendencia_alcista

score_multiplier_mono_example :
    score_multiplier (d 70 0) (d 60 0) ≼ score_multiplier (d 87 0) (d 60 0)
unfolding engine
score_multiplier_mono_example = score_multiplier_mono Fixed-IsFloat (d 70 0) (d 87 0) (d 60 0) refl

volatility_multiplier_antitone_example :
    volatility_multiplier default_policy (d 45 1) ≼ volatility_multiplier default_policy (d 15 1)
unfolding engine
volatility_multiplier_antitone_example =
    volatility_multiplier_antitone Fixed-IsFloat default_policy (d 15 1) (d 45 1) refl

suggest_risk_pct_mono_example :
    suggest_risk_pct default_policy (d 70 0) tendencia_alcista (d 80 0) (d 15 1)
    ≼ suggest_risk_pct default_policy (d 87 0) tendencia_alcista (d 80 0) (d 15 1)
unfolding engine
suggest_risk_pct_mono_example =
    suggest_risk_pct_mono Fixed-IsFloat default_policy tendencia_alcista (d 80 0) (d 15 1) (d 70 0)
      (d 87 0) refl refl refl

-- A symbol whose positions carry 101 % passes the bounds of `RiskDecision`.
abbrev overfull : PortfolioState Fixed
overfull = record {
  positions = position "SOLUSDT" 1010 ∷ [];
  max_portfolio_risk_pct = d 5 0;
  max_cluster_risk_pct = d 25 1;
  max_symbol_risk_pct = d 15 1;
  correlation_guard_enabled = true;
}

abbrev overfull_request : Request Fixed
overfull_request = record {
  capital_usdt = d 1000 0;
  existing_risk_pct = d 0 0;
  signals = request.signals;
  market_state = market;
  entry_price = d 100 0;
  stop_loss = d 98 0;
  symbol = none;
  side = some long;
  portfolio_state = some overfull;
}

overfull_run : evaluate default_policy overfull_request ≡ err validation_error
unfolding engine
overfull_run = refl

evaluate_raises_iff_example :
    (IsOverfull (assess default_policy overfull_request overfull)
      × (evaluate default_policy overfull_request ≡ err validation_error))
    ⊎ (¬ IsOverfull (assess default_policy overfull_request overfull)
        × ((x : RiskDecision Fixed) × (evaluate default_policy overfull_request ≡ ok x)))
unfolding engine
evaluate_raises_iff_example =
    evaluate_raises_iff Fixed-IsFloat default_policy overfull_request overfull
      (record {
        base = refl;
        single = refl;
        account = refl;
        account_short = refl;
        portfolio_short = refl;
        symbol_short = refl;
        cluster_short = refl;
        existing = refl;
        positions = ground arith;
      })
      refl

-- ===== src/Gate/Tests.antt =====
-- Runs of the final gate on decimals, and its theorem at a concrete input.
use binance_futures_algo_bot.Float.{fmax, fmin}
use binance_futures_algo_bot.Risk.Regime.{clamp_pct}
use binance_futures_algo_bot.Gate.Outcome.{passed_iff, IsClear}
use binance_futures_algo_bot.Gate.{
  FinalGateDecision, confidence_breakers, portfolio_breakers, conclude, breakers, score_components,
  final_score, default_gate_policy, new_gate, evaluate_gate, FinalDecisionGate,
}
use binance_futures_algo_bot.Common.{true, ◌≡◌, ◌↔◌, refl, none}
use binance_futures_algo_bot.Risk.Tests.{decided, market, d}
use binance_futures_algo_bot.Float.Fixed.{Fixed, fixed_float}

abbrev pub gate : FinalDecisionGate Fixed
gate = record { policy = default_gate_policy; liquidity_weight = d 5 2 }

new_gate_run : new_gate none none ≡ gate
unfolding new_gate fixed_float
new_gate_run = refl

-- the run of a gate
unfoldable pub judged : FinalGateDecision Fixed
unfolding fixed_float evaluate_gate final_score score_components breakers conclude clamp_pct fmin
    fmax portfolio_breakers confidence_breakers
judged = evaluate_gate gate decided market

judged_run : judged.passed ≡ true
unfolding judged
judged_run = refl

passed_iff_example :
    ((evaluate_gate gate decided market).passed ≡ true) ↔ IsClear gate decided market
passed_iff_example = passed_iff gate decided market

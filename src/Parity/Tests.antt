-- ===== src/Parity/Tests.antt =====
-- Two paper executions and two of testnet, and the theorems at these.
use binance_futures_algo_bot.Parity.Matching.{choose-nearest}
use binance_futures_algo_bot.Parity.Pairs.{pair_up-IsPairing, IsPairing}
use binance_futures_algo_bot.Risk.Tests.{d}
use binance_futures_algo_bot.Risk.Schemas.{tendencia_alcista}
use binance_futures_algo_bot.Common.Texts.{text_eq, codes}
use binance_futures_algo_bot.Db.{TradePlan}
use binance_futures_algo_bot.Parity.{
  delta, average, pct_diff, is_candidate, pop_at, new_pair, add_pair, remaining, least, by_time,
  executions, candidates, pair_up, choose, build_report,
}
use binance_futures_algo_bot.Common.{
  ◌⊎◌, false, ◌≤◌, some, true, All, [], ◌∷◌, ◌++◌, String, ℕ, List, ◌≡◌, refl, none,
}
use binance_futures_algo_bot.Float.Fixed.{Fixed, fixed_float}
use binance_futures_algo_bot.Plan.Tests.{payload, creation}
use mathlib.Core.List.{Perm}

-- a plan of status `status`, created at `time`
pub plan : ℕ → String → ℕ → TradePlan Fixed
plan id status time = record {
  id = id;
  symbol = payload.symbol;
  side = codes "long";
  timeframe = codes "15m";
  market_regime = tendencia_alcista;
  technical_score = d 90 0;
  fundamental_score = d 80 0;
  sentiment_score = d 85 0;
  confidence_score = d 90 0;
  aggregate_score = d 87 0;
  entry_price = d 100 0;
  stop_loss = d 98 0;
  take_profit = d 105 0;
  capital_usdt = d 1000 0;
  applied_risk_pct = d id 1;
  max_position_notional = d 300 0;
  final_gate_score = none;
  final_gate_passed = none;
  final_gate_reason = none;
  final_gate_pre_rejected_by_engine = none;
  triggered_breakers = [];
  thesis = payload.thesis;
  status = codes status;
  outline_url = none;
  is_testnet = true;
  created_at = time;
}

abbrev pub papers : List (TradePlan Fixed)
papers = plan 1 "paper_executed" 1000 ∷ plan 2 "paper_executed" 200000000000 ∷ []

abbrev pub queue : List (TradePlan Fixed)
queue = plan 3 "testnet_executed" 5000 ∷ plan 4 "testnet_executed" 900 ∷ []

-- The first takes the nearer of the two, and the second is more than a day away from both.
paired_run : pair_up papers queue ≡ record {
  pairs = (plan 1 "paper_executed" 1000, plan 4 "testnet_executed" 900) ∷ [];
  unmatched_paper = 1;
  queue = plan 3 "testnet_executed" 5000 ∷ [];
}
unfolding plan pair_up choose candidates remaining add_pair least pop_at is_candidate text_eq
paired_run = refl

-- The report has one pair and one unmatched execution on each side.
report_run :
    let r = build_report payload.symbol none 50 (papers ++ queue) in
    (r.compared_pairs ≡ 1)
    × (r.unmatched_paper ≡ 1)
    × (r.unmatched_testnet ≡ 1)
    × (r.avg_applied_risk_diff_pct ≡ some (d 300 0))
unfolding creation plan build_report executions by_time pair_up new_pair pct_diff average choose
    candidates remaining add_pair least pop_at is_candidate
report_run = (refl, refl, refl, refl)

pair_up-IsPairing_example : IsPairing papers queue (pair_up papers queue)
pair_up-IsPairing_example = pair_up-IsPairing papers queue

choose-nearest_example :
    (is_candidate (plan 1 "paper_executed" 1000) (plan 4 "testnet_executed" 900) ≡ true)
    × All
        (λ q.
          (is_candidate (plan 1 "paper_executed" 1000) q ≡ false)
          ⊎ (delta (plan 1 "paper_executed" 1000) (plan 4 "testnet_executed" 900)
              ≤ delta (plan 1 "paper_executed" 1000) q))
        queue
    × Perm queue (plan 4 "testnet_executed" 900 ∷ plan 3 "testnet_executed" 5000 ∷ [])
unfolding plan choose candidates least pop_at is_candidate text_eq
choose-nearest_example =
    choose-nearest (plan 1 "paper_executed" 1000) (plan 4 "testnet_executed" 900) queue
      (plan 3 "testnet_executed" 5000 ∷ []) refl

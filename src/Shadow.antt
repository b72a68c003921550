-- ===== src/Shadow.antt =====
-- apps/api/app/services/shadow_run_reporting_service.py: the pairing of one symbol and timeframe, and
-- its summary.
pub mod Counts
mod Tests
use binance_futures_algo_bot.Common.{map, length, ℕ, Bool, List, Option, none, some}
use binance_futures_algo_bot.Common.Texts.{Text, codes, text_eq}
use binance_futures_algo_bot.Float.{Float, nought, round_to}
use binance_futures_algo_bot.Db.{TradePlan}
use binance_futures_algo_bot.Parity.{average?, pair_up, of_status, pct_diff, average}

-- the dict that `_pair_plans` returns
pub record PairedPlans (F : Type 0) : Type 0 where
  pub paper_executed_trade_plans : ℕ
  pub testnet_executed_trade_plans : ℕ
  pub compared_pairs : ℕ
  pub unmatched_paper : ℕ
  pub unmatched_testnet : ℕ
  pub entry_diffs : List F
  pub risk_diffs : List F
  pub notional_diffs : List F

pub record ShadowRunSymbolSummary (F : Type 0) : Type 0 where
  pub symbol : Text
  pub timeframe : Text
  pub paper_executed_trade_plans : ℕ
  pub testnet_executed_trade_plans : ℕ
  pub compared_pairs : ℕ
  pub unmatched_paper : ℕ
  pub unmatched_testnet : ℕ
  pub avg_entry_price_diff_pct : Option F
  pub avg_applied_risk_diff_pct : Option F
  pub avg_max_notional_diff_pct : Option F

module _ {F : Type 0} ⦃f : Float F⦄ where
  -- `_pair_plans`, whose loop is that of the parity report
  unfoldable pub pair_plans : List (TradePlan F) → PairedPlans F
  unfolding pair_up pct_diff
  pair_plans plans =
      let papers = of_status "paper_executed" plans in
      let testnets = of_status "testnet_executed" plans in
      let m = pair_up papers testnets in
      record {
        paper_executed_trade_plans = length papers;
        testnet_executed_trade_plans = length testnets;
        compared_pairs = length m.pairs;
        unmatched_paper = m.unmatched_paper;
        unmatched_testnet = length m.queue;
        entry_diffs = map (λ x. pct_diff x.0.entry_price x.1.entry_price) m.pairs;
        risk_diffs = map (λ x. pct_diff x.0.applied_risk_pct x.1.applied_risk_pct) m.pairs;
        notional_diffs =
            map (λ x. pct_diff x.0.max_position_notional x.1.max_position_notional) m.pairs;
      }

  -- `_build_symbol_summary`
  unfoldable pub build_symbol_summary : Text → Text → List (TradePlan F) → ShadowRunSymbolSummary F
  unfolding pair_plans
  build_symbol_summary symbol timeframe plans =
      let paired = pair_plans plans in
      record {
        symbol = symbol;
        timeframe = timeframe;
        paper_executed_trade_plans = paired.paper_executed_trade_plans;
        testnet_executed_trade_plans = paired.testnet_executed_trade_plans;
        compared_pairs = paired.compared_pairs;
        unmatched_paper = paired.unmatched_paper;
        unmatched_testnet = paired.unmatched_testnet;
        avg_entry_price_diff_pct = average? paired.entry_diffs;
        avg_applied_risk_diff_pct = average? paired.risk_diffs;
        avg_max_notional_diff_pct = average? paired.notional_diffs;
      }

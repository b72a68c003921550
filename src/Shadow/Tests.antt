-- ===== src/Shadow/Tests.antt =====
-- The summary of the plans of Parity/Tests.antt, and the theorem at these.
use binance_futures_algo_bot.Common.Texts.{codes}
use binance_futures_algo_bot.Common.{◌++◌, ◌+◌, ◌≡◌, ◌↔◌, none}
use binance_futures_algo_bot.Float.Fixed.{Fixed, fixed_float}
use binance_futures_algo_bot.Plan.Tests.{payload}
use binance_futures_algo_bot.Parity.Tests.{papers, queue}
use binance_futures_algo_bot.Shadow.{ShadowRunSymbolSummary, build_symbol_summary}
use binance_futures_algo_bot.Shadow.Counts.{build_symbol_summary-counts}

abbrev summary : ShadowRunSymbolSummary Fixed
summary = build_symbol_summary payload.symbol (codes "15m") (papers ++ queue)

build_symbol_summary-counts_example :
    (summary.paper_executed_trade_plans ≡ summary.compared_pairs + summary.unmatched_paper)
    × (summary.testnet_executed_trade_plans ≡ summary.compared_pairs + summary.unmatched_testnet)
    × ((summary.avg_entry_price_diff_pct ≡ none) ↔ (summary.compared_pairs ≡ 0))
build_symbol_summary-counts_example =
    build_symbol_summary-counts payload.symbol (codes "15m") (papers ++ queue)

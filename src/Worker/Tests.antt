-- ===== src/Worker/Tests.antt =====
-- The theorems on a cycle of the worker at concrete inputs.
use binance_futures_algo_bot.Common.{[], ◌≡◌, refl, List, none, some, true, false}
use binance_futures_algo_bot.Common.Texts.{text_eq, codes}
use binance_futures_algo_bot.Float.Fixed.{Fixed, fixed_float}
use binance_futures_algo_bot.Risk.Tests.{d, market}
use binance_futures_algo_bot.Worker.{
  Api, Built, Call, Created, Router, WorkerSettings, TestnetAnswer, execute_testnet_trade,
}
use binance_futures_algo_bot.Worker.Cycle.{
  candle_at, process_symbol_cycle, Candles, run_result, result,
}
use binance_futures_algo_bot.Worker.Once.{process_symbol_cycle-once, IsTracked}

abbrev api : Api Fixed
api = record {
  create = λ calls payload. some (record { status = some (codes "approved"); id = some 7 });
  paper = λ calls id. true;
  testnet = λ calls id. some (record { executed = true; reason = none });
}

abbrev settings : WorkerSettings Fixed
settings = record {
  seed_capital_usdt = d 1000 0;
  paper_trading = false;
  testnet_fallback_to_paper = true;
}

abbrev router : Router
router = record { execution_enabled = true; global_kill_switch = false; kill_switch_symbols = [] }

abbrev built : Built Fixed
built = record {
  signals = record {
    technical = d 78 0;
    fundamental = d 50 0;
    sentiment = d 50 0;
    confidence = d 69 0;
  };
  context = market;
  last_candle_close_ms = some 900_000;
  thesis = codes "Baseline";
  entry = d 100 0;
  stop = d 98 0;
  take_profit = d 104 0;
  source = binance_futures_algo_bot.Worker.market;
  side = codes "long";
}

process_symbol_cycle-once_example :
    IsTracked settings router (codes "SOLUSDT") (codes "15m") built [] 900_000 (
      process_symbol_cycle api settings router
        (codes "SOLUSDT")
        (codes "15m")
        (some built)
        (some [], []))
    × ((kept : Candles) (more : List (Call Fixed))
        → candle_at (codes "SOLUSDT", codes "15m") kept ≡ some 900_000
        → process_symbol_cycle api settings router
            (codes "SOLUSDT")
            (codes "15m")
            (some built)
            (some kept, more)
          ≡ (result (run_result (codes "SOLUSDT") built true), (some kept, more)))
unfolding text_eq
process_symbol_cycle-once_example =
    process_symbol_cycle-once settings router (codes "SOLUSDT") (codes "15m") built api api []
      900_000 [] refl refl

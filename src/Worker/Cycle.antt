-- ===== src/Worker/Cycle.antt =====
-- The worker's cycle for a symbol (`process_symbol_cycle` of apps/worker/main.py) and the execution of
-- its plan (`execute_trade_plan` of apps/worker/trading_bot/services/binance_testnet_router.py).
use binance_futures_algo_bot.Common.{
  ◌&&◌, ◌++◌, ◌==◌, if◌then◌else◌, not, [], ◌∷◌, ℕ, Bool, true, false, List, Option, none, some,
  select,
}
use binance_futures_algo_bot.Common.Texts.{Text, codes, text_eq, text_in}
use binance_futures_algo_bot.Float.{Float, nought}
use binance_futures_algo_bot.Worker.{
  Source, market, demo, Built, Payload, Created, TestnetAnswer, Call, create_trade_plan,
  execute_paper_trade, execute_testnet_trade, Api, WorkerSettings, Router, plan_id, has_status,
  preflight,
}

-- the result of a cycle, or that it raised
pub record SymbolRunResult : Type 0 where
  pub symbol : Text
  pub timeframe : Text
  pub success : Bool
  pub last_candle_close_ms : Option ℕ
  pub skipped_duplicate : Bool

pub data Reply : Type 0 where
  result : SymbolRunResult → Reply
  raised : Reply

-- a map from symbol and timeframe to the candle that was processed last
abbrev pub Candles : Type 0
Candles = List ((Text × Text) × ℕ)

unfoldable pub key_eq : Text × Text → Text × Text → Bool
unfolding text_eq
key_eq a b = text_eq a.0 b.0 && text_eq a.1 b.1

-- `processed_candles.get(key)`
unfoldable pub candle_at : Text × Text → Candles → Option ℕ
unfolding key_eq
candle_at key [] = none
candle_at key (entry ∷ rest) =
    let found = candle_at key rest in if key_eq entry.0 key then some entry.1 else found

-- `processed_candles.pop(key, None)`
unfoldable pub forget : Text × Text → Candles → Candles
unfolding key_eq select
forget key candles = select (λ entry. not (key_eq entry.0 key)) candles

-- `processed_candles[key] = candle`
unfoldable pub remember : Text × Text → ℕ → Candles → Candles
unfolding forget
remember key candle candles = (key, candle) ∷ forget key candles

-- the map as it was for the key
unfoldable pub restore : Text × Text → Option ℕ → Candles → Candles
unfolding forget remember
restore key none candles = forget key candles
restore key (some candle) candles = remember key candle candles

-- the reason of an answer of the router that means no failure
unfoldable pub is_expected : Option Text → Bool
unfolding text_in
is_expected none = false
is_expected (some reason) = text_in reason (
    codes "testnet_execution_disabled"
    ∷ codes "global_kill_switch_enabled"
    ∷ codes "symbol_kill_switch_enabled"
    ∷ codes "trade_plan_not_approved"
    ∷ codes "trade_plan_missing_id"
    ∷ [])

abbrev pub or_api_error : Option TestnetAnswer → TestnetAnswer
or_api_error (some answer) = answer
or_api_error none = record { executed = false; reason = some (codes "testnet_router_api_error") }

abbrev with_success : Bool → SymbolRunResult → SymbolRunResult
with_success success done = record done { success = success }

-- what a cycle changes: the candles, where the worker keeps them, and the calls so far
abbrev pub State : Type 0 → Type 0
State F = Option Candles × List (Call F)

abbrev pub same_candle : Option ℕ → ℕ → Bool
same_candle none candle = false
same_candle (some last) candle = last == candle

module _ {F : Type 0} ⦃f : Float F⦄ where
  -- `BinanceTestnetRouter.execute_trade_plan`, of a plan whose id is `id`
  unfoldable pub route :
      Api F → Router → Text → Created → ℕ → List (Call F) → TestnetAnswer × List (Call F)
  unfolding preflight
  route api r symbol created id calls =
      let decision = preflight r symbol created in
      if decision.allowed
      then (or_api_error (api.testnet calls id), calls ++ (execute_testnet_trade id ∷ []))
      else (record { executed = false; reason = decision.reason }, calls)

  -- `await api_client.execute_paper_trade(id)`, and then the result
  unfoldable pub trade_on_paper :
      Api F → ℕ → SymbolRunResult → List (Call F) → Reply × List (Call F)
  trade_on_paper api id done calls =
      (if api.paper calls id then result done else raised, calls ++ (execute_paper_trade id ∷ []))

  -- what follows the answer of the router
  unfoldable pub after_route :
      Api F
      → WorkerSettings F
      → ℕ
      → SymbolRunResult
      → TestnetAnswer
      → List (Call F)
      → Reply × List (Call F)
  unfolding trade_on_paper is_expected
  after_route api settings id done answer calls =
      if answer.executed
      then (result done, calls)
      else if settings.testnet_fallback_to_paper
      then trade_on_paper api id done calls
      else (result (with_success (is_expected answer.reason) done), calls)

  -- a plan with an id that was approved, on paper or on the testnet
  unfoldable pub execute_plan :
      Api F
      → WorkerSettings F
      → Router
      → Text
      → Source
      → Created
      → ℕ
      → SymbolRunResult
      → List (Call F)
      → Reply × List (Call F)
  unfolding trade_on_paper route after_route
  execute_plan api settings r symbol market created id done calls =
      let routed = route api r symbol created id calls in
      if settings.paper_trading
      then trade_on_paper api id done calls
      else after_route api settings id done routed.0 routed.1
  execute_plan api settings r symbol demo created id done calls =
      if settings.paper_trading
      then trade_on_paper api id done calls
      else if settings.testnet_fallback_to_paper
      then trade_on_paper api id done calls
      else (result done, calls)

  abbrev with_id :
      Api F
      → WorkerSettings F
      → Router
      → Text
      → Source
      → Created
      → Option ℕ
      → SymbolRunResult
      → List (Call F)
      → Reply × List (Call F)
  with_id api settings r symbol source created none done calls =
      (result (with_success false done), calls)
  with_id api settings r symbol source created (some id) done calls =
      execute_plan api settings r symbol source created id done calls

  -- what follows the creation of a plan
  unfoldable pub after_creation :
      Api F
      → WorkerSettings F
      → Router
      → Text
      → Source
      → Created
      → SymbolRunResult
      → List (Call F)
      → Reply × List (Call F)
  unfolding has_status plan_id execute_plan
  after_creation api settings r symbol source created done calls =
      if has_status (codes "approved") created
      then with_id api settings r symbol source created (plan_id created) done calls
      else (result done, calls)

  -- the request for a plan
  unfoldable pub payload_of : WorkerSettings F → Text → Built F → Payload F
  payload_of settings symbol b = record {
    symbol = symbol;
    side = b.side;
    entry_price = b.entry;
    stop_loss = b.stop;
    take_profit = b.take_profit;
    capital_usdt = settings.seed_capital_usdt;
    existing_risk_pct = nought;
    thesis = b.thesis;
    signals = b.signals;
    market_state = b.context;
  }

  unfoldable pub run_result : Text → Built F → Bool → SymbolRunResult
  run_result symbol b skipped = record {
    symbol = symbol;
    timeframe = b.context.timeframe;
    success = true;
    last_candle_close_ms = b.last_candle_close_ms;
    skipped_duplicate = skipped;
  }

  -- The answer to the creation of a plan and what follows it, where `tracked` are the candles with
  -- this one entered, and `earlier` the candles for the case that the creation raises.
  unfoldable pub after_answer :
      Api F
      → WorkerSettings F
      → Router
      → Text
      → Built F
      → Option Candles
      → Option Candles
      → Option Created
      → List (Call F)
      → Reply × State F
  unfolding run_result after_creation
  after_answer api settings r symbol b tracked earlier none calls = (raised, (earlier, calls))
  after_answer api settings r symbol b tracked earlier (some created) calls =
      let ended =
        after_creation api settings r symbol b.source created (run_result symbol b false) calls in
      (ended.0, (tracked, ended.1))

  unfoldable pub create_and_execute :
      Api F
      → WorkerSettings F
      → Router
      → Text
      → Built F
      → Option Candles
      → Option Candles
      → List (Call F)
      → Reply × State F
  unfolding payload_of after_answer
  create_and_execute api settings r symbol b tracked earlier calls =
      let payload = payload_of settings symbol b in
      after_answer api settings r symbol b tracked earlier (api.create calls payload)
        (calls ++ (create_trade_plan payload ∷ []))

  -- a cycle on a candle that is tracked
  unfoldable pub track_and_create :
      Api F
      → WorkerSettings F
      → Router
      → Text
      → Text
      → Built F
      → Candles
      → ℕ
      → List (Call F)
      → Reply × State F
  unfolding candle_at remember restore create_and_execute run_result
  track_and_create api settings r symbol timeframe b candles candle calls =
      let key : Text × Text = (symbol, timeframe) in
      let previous = candle_at key candles in
      let tracked = remember key candle candles in
      if same_candle previous candle
      then (result (run_result symbol b true), (some candles, calls))
      else create_and_execute api settings r symbol b (some tracked)
          (some (restore key previous tracked)) calls

  -- a cycle on signals of the right timeframe
  unfoldable pub process_built :
      Api F
      → WorkerSettings F
      → Router
      → Text
      → Text
      → Built F
      → Option ℕ
      → State F
      → Reply × State F
  unfolding track_and_create create_and_execute
  process_built api settings r symbol timeframe b (some candle) (some candles, calls) =
      track_and_create api settings r symbol timeframe b candles candle calls
  process_built api settings r symbol timeframe b none (candles, calls) =
      create_and_execute api settings r symbol b candles candles calls
  process_built api settings r symbol timeframe b (some candle) (none, calls) =
      create_and_execute api settings r symbol b none none calls

  -- `process_symbol_cycle`, with what `build_signal_pack` returns, none where it raises
  unfoldable pub process_symbol_cycle :
      Api F → WorkerSettings F → Router → Text → Text → Option (Built F) → State F → Reply × State F
  unfolding text_eq process_built
  process_symbol_cycle api settings r symbol timeframe none s = (raised, s)
  process_symbol_cycle api settings r symbol timeframe (some b) s =
      if text_eq b.context.timeframe timeframe
      then process_built api settings r symbol timeframe b b.last_candle_close_ms s
      else (raised, s)

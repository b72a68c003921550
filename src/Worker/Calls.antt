-- ===== src/Worker/Calls.antt =====
-- The calls of a cycle for a symbol (`process_symbol_cycle` of apps/worker/main.py).
use binance_futures_algo_bot.Common.{◌≡◌, ◌++◌, ◌⊎◌, [], ◌∷◌, true, false, List, Option, none, some}
use binance_futures_algo_bot.Common.Texts.{Text, text_in, upper}
use binance_futures_algo_bot.Float.{Float}
use binance_futures_algo_bot.Worker.{
  Source, market, demo, Built, Created, Call, create_trade_plan, execute_paper_trade,
  execute_testnet_trade, Api, WorkerSettings, Router,
}
use binance_futures_algo_bot.Worker.Plans.{IsPlan, IsUnfit}
use binance_futures_algo_bot.Worker.Cycle.{payload_of}

module _ {F : Type 0} ⦃f : Float F⦄ (settings : WorkerSettings F) (r : Router) (symbol : Text) where
  -- no switch is off for the symbol, or one is
  abbrev MayRoute : Type 0
  MayRoute =
      (r.execution_enabled ≡ true)
      × (r.global_kill_switch ≡ false)
      × (text_in (upper symbol) r.kill_switch_symbols ≡ false)

  abbrev IsStopped : Type 0
  IsStopped =
      (r.execution_enabled ≡ false)
      ⊎ ((r.global_kill_switch ≡ true) ⊎ (text_in (upper symbol) r.kill_switch_symbols ≡ true))

  -- the plan may not go to the testnet
  abbrev IsKept : Source → Type 0
  IsKept source = (source ≡ demo) ⊎ IsStopped

  -- The calls that execute the plan of an answer: none, only where there is no plan to execute or
  -- nowhere to do it; one on paper; one on the testnet; or one on paper after one on the testnet.
  pub AreExecutions : Option Created → Source → List (Call F) → Type 0
  AreExecutions answer source [] =
      IsUnfit answer
      ⊎ ((settings.paper_trading ≡ false)
          × (settings.testnet_fallback_to_paper ≡ false)
          × IsKept source)
  AreExecutions answer source (execute_paper_trade n ∷ []) =
      IsPlan answer n
      × ((settings.paper_trading ≡ true)
          ⊎ ((settings.testnet_fallback_to_paper ≡ true) × IsKept source))
  AreExecutions answer source (execute_testnet_trade n ∷ []) =
      IsPlan answer n × (settings.paper_trading ≡ false) × (source ≡ market) × MayRoute
  AreExecutions answer source (execute_testnet_trade n ∷ execute_paper_trade m ∷ []) =
      IsPlan answer n
      × (settings.paper_trading ≡ false)
      × (source ≡ market)
      × MayRoute
      × (settings.testnet_fallback_to_paper ≡ true)
      × (n ≡ m)
  AreExecutions answer source (execute_paper_trade n ∷ c ∷ cs) = ⊥
  AreExecutions answer source (execute_testnet_trade n ∷ execute_testnet_trade m ∷ cs) = ⊥
  AreExecutions answer source (execute_testnet_trade n ∷ create_trade_plan p ∷ cs) = ⊥
  AreExecutions answer source (execute_testnet_trade n ∷ execute_paper_trade m ∷ c ∷ cs) = ⊥
  AreExecutions answer source (create_trade_plan p ∷ cs) = ⊥

  -- the calls after a step are those before it and some more
  abbrev Adds : (List (Call F) → Type 0) → List (Call F) → List (Call F) → Type 0
  Adds P before after = (new : List (Call F)) × (after ≡ before ++ new) × P new

  -- The calls of a cycle, after those before it: none, or the creation of a plan for these signals and
  -- then the execution of the plan that the API answers.
  pub AreCalls : Api F → List (Call F) → Option (Built F) → List (Call F) → Type 0
  AreCalls api before built [] = Unit
  AreCalls api before (some b) (create_trade_plan p ∷ cs) =
      (p ≡ payload_of settings symbol b) × AreExecutions (api.create before p) b.source cs
  AreCalls api before none (c ∷ cs) = ⊥
  AreCalls api before (some b) (execute_paper_trade n ∷ cs) = ⊥
  AreCalls api before (some b) (execute_testnet_trade n ∷ cs) = ⊥

-- ===== src/Worker.antt =====
-- The worker (apps/worker/main.py): the data of a cycle, the calls of its API, and the routing to the
-- testnet (apps/worker/trading_bot/services/binance_testnet_router.py).
pub mod Cycle
pub mod Plans
pub mod Calls
pub mod Once
mod Tests
use binance_futures_algo_bot.Common.{
  ◌&&◌, ◌++◌, ◌==◌, if◌then◌else◌, not, map, [], ◌∷◌, ℕ, zero, suc, Bool, true, false, List, Option,
  none, some, select, String,
}
use binance_futures_algo_bot.Common.Texts.{Text, codes, text_eq, text_in, upper}
use binance_futures_algo_bot.Float.{Float, nought}
use binance_futures_algo_bot.Risk.Schemas.{SignalSnapshot, MarketState}

pub data Source : Type 0 where
  market demo : Source

-- what `build_signal_pack` returns: the signals, the context, the thesis, the levels and the result
pub record Built (F : Type 0) : Type 0 where
  pub signals : SignalSnapshot F
  pub context : MarketState F
  pub last_candle_close_ms : Option ℕ
  pub thesis : Text
  pub entry : F
  pub stop : F
  pub take_profit : F
  pub source : Source
  pub side : Text

pub record Payload (F : Type 0) : Type 0 where
  pub symbol : Text
  pub side : Text
  pub entry_price : F
  pub stop_loss : F
  pub take_profit : F
  pub capital_usdt : F
  pub existing_risk_pct : F
  pub thesis : Text
  pub signals : SignalSnapshot F
  pub market_state : MarketState F

-- the keys of a created plan that the worker reads
pub record Created : Type 0 where
  pub status : Option Text
  pub id : Option ℕ

pub record TestnetAnswer : Type 0 where
  pub executed : Bool
  pub reason : Option Text

pub record RouteDecision : Type 0 where
  pub allowed : Bool
  pub reason : Option Text

pub data Call (F : Type 0) : Type 0 where
  create_trade_plan : Payload F → Call F
  execute_paper_trade execute_testnet_trade : ℕ → Call F

-- The API: what it answers to a call after the calls before it, none where the client raises.
pub record Api (F : Type 0) : Type 0 where
  pub create : List (Call F) → Payload F → Option Created
  pub paper : List (Call F) → ℕ → Bool
  pub testnet : List (Call F) → ℕ → Option TestnetAnswer

pub record WorkerSettings (F : Type 0) : Type 0 where
  pub seed_capital_usdt : F
  pub paper_trading : Bool
  pub testnet_fallback_to_paper : Bool

pub record Router : Type 0 where
  pub execution_enabled : Bool
  pub global_kill_switch : Bool
  pub kill_switch_symbols : List Text

-- `BinanceTestnetRouter(...)`
unfoldable pub new_router : Bool → Bool → List Text → Router
unfolding upper
new_router execution_enabled global_kill_switch symbols = record {
  execution_enabled = execution_enabled;
  global_kill_switch = global_kill_switch;
  kill_switch_symbols = map upper symbols;
}

-- the id of a plan, where it is neither missing nor 0
unfoldable pub plan_id : Created → Option ℕ
plan_id c = elim c.id [ none ↦ none | some zero ↦ none | some (suc n) ↦ some (suc n) ]

unfoldable pub has_status : Text → Created → Bool
unfolding text_eq
has_status status c = elim c.status [ none ↦ false | some s ↦ text_eq s status ]

abbrev no : String → RouteDecision
no reason = record { allowed = false; reason = some (codes reason) }

abbrev is_missing_id : Option ℕ → Bool
is_missing_id none = true
is_missing_id (some n) = false

-- `preflight`
unfoldable pub preflight : Router → Text → Created → RouteDecision
unfolding text_in upper has_status plan_id
preflight r symbol created =
    if not r.execution_enabled
    then no "testnet_execution_disabled"
    else if r.global_kill_switch
    then no "global_kill_switch_enabled"
    else if text_in (upper symbol) r.kill_switch_symbols
    then no "symbol_kill_switch_enabled"
    else if not (has_status (codes "approved") created)
    then no "trade_plan_not_approved"
    else if is_missing_id (plan_id created)
    then no "trade_plan_missing_id"
    else record { allowed = true; reason = none }

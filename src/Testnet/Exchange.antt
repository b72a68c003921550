-- ===== src/Testnet/Exchange.antt =====
-- apps/api/app/services/testnet_trading_service.py: the exchange that the service calls, what a call
-- raises, and the service's actions on its session and on the exchange.
use binance_futures_algo_bot.Testnet.Refs.{ExchangeRef}
use binance_futures_algo_bot.Testnet.Payload.{Payload}
use binance_futures_algo_bot.Risk.Schemas.{Value, Severity}
use binance_futures_algo_bot.Common.Int.{ℤ}
use binance_futures_algo_bot.Db.{
  RiskEvent, raised, Message, returned, commit, add_event, Tables, Session, Reply,
}
use binance_futures_algo_bot.Common.Texts.{Text}
use binance_futures_algo_bot.Common.{
  length, suc, map, [], ◌∷◌, none, ◌++◌, some, String, Option, List, Bool, ℕ,
}

pub data FailureKind : Type 0 where
  runtime_error value_error other_error : FailureKind

-- An exception of a call: its class, the name of its type, and its text.
pub record Failure : Type 0 where
  pub kind : FailureKind
  pub type_name : Text
  pub text : Text

-- The calls of the exchange's client, with the arguments that the service gives.
pub data Call (F : Type 0) : Type 0 where
  get_symbol_step_size get_symbol_tick_size get_symbol_leverage get_position_risk : Text → Call F
  get_order : Text → Option ℤ → Option Text → Call F
  get_order_trades : Text → ℤ → Call F
  get_algo_order cancel_algo_order : ExchangeRef → Call F
  cancel_order : Text → ExchangeRef → Call F
  place_market_order close_position_market : Text → Text → F → Text → Call F
  place_stop_market_order place_take_profit_market_order : Text → Text → F → Text → Call F
  place_stop_market_algo_order place_take_profit_market_algo_order : Text → Text → F → Text → Call F

-- The client: which optional methods it has (`callable(getattr(client, name, None))`), and what it
-- answers to a call after the calls before it. Its annotations say which calls answer a dict.
pub record Exchange (F : Type 0) : Type 0 where
  pub has_get_order : Bool
  pub has_get_algo_order : Bool
  pub has_get_order_trades : Bool
  pub has_get_position_risk : Bool
  pub has_cancel_order : Bool
  pub has_cancel_algo_order : Bool
  pub has_close_position_market : Bool
  pub has_get_symbol_tick_size : Bool
  pub has_place_stop_market_algo_order : Bool
  pub has_place_take_profit_market_algo_order : Bool
  pub dict : List (Call F) → Call F → Reply Failure (Payload F)
  pub risk : List (Call F) → Call F → Reply Failure (Option (Payload F))
  pub trades : List (Call F) → Call F → Reply Failure (List (Payload F))
  pub size : List (Call F) → Call F → Reply Failure F
  pub leverage : List (Call F) → Call F → Reply Failure ℤ

-- The service with what it runs in: its exchange, its switch, one reading of the clock, and what `float`
-- and `int` make of a text.
pub record TestnetService (F : Type 0) : Type 0 where
  pub exchange : Exchange F
  pub execution_enabled : Bool
  pub now : ℕ
  pub float_text : Text → Option F
  pub int_text : Text → Option ℤ

-- the session, and the calls that the exchange has had
pub record World (F : Type 0) : Type 0 where
  pub session : Session F
  pub calls : List (Call F)

abbrev pub Act : Type 0 → Type 0 → Type 0
Act F A = World F → A × World F

module _ {F A : Type 0} where
  unfoldable pub pure : A → Act F A
  pure a w = (a, w)

module _ {A B : Type 0} where
  -- `try: a = m / except Exception as exc: return bad(exc) / return ok(a)`
  abbrev pub caught : Reply Failure A → (Failure → B) → (A → B) → B
  caught (returned a) bad ok = ok a
  caught (raised e) bad ok = bad e

  abbrev pub from_option : Option A → B → (A → B) → B
  from_option none bad ok = bad
  from_option (some a) bad ok = ok a

module _ {F A : Type 0} where
  -- `await client.method(...)`
  unfoldable pub call :
      (List (Call F) → Call F → Reply Failure A) → Call F → Act F (Reply Failure A)
  call answer c w = (answer w.calls c, record w { calls = w.calls ++ c ∷ [] })

module _ {F : Type 0} where
  -- what the session has in its tables
  unfoldable pub tables : Act F (Tables F)
  tables w = (w.session.live, w)

  unfoldable pub change_tables : (Tables F → Tables F) → Act F Unit
  change_tables g w = (tt, record w { session = record w.session { live = g w.session.live } })

  -- `db.commit()`
  unfoldable pub commit_tables : Act F Unit
  commit_tables w = (tt, record w { session = commit w.session })

  -- `_log_risk_event`
  unfoldable pub risk_event :
      ℕ → ℕ → String → Severity → Message F → List (String × Value F) → ℕ → RiskEvent F
  risk_event now plan_id event_type severity message context id = record {
    id = id;
    trade_plan_id = some plan_id;
    event_type = event_type;
    severity = severity;
    message = message;
    context_json = context;
    created_at = now;
  }

  unfoldable pub log_risk_event :
      ℕ → ℕ → String → Severity → Message F → List (String × Value F) → Act F Unit
  unfolding add_event risk_event change_tables
  log_risk_event now plan_id event_type severity message context = change_tables λ t.
      add_event (risk_event now plan_id event_type severity message context (suc (length t.events)))
        t

  abbrev pub new_message : String → List (Value F) → Message F
  new_message literal values = record { literal = literal; values = map (λ v. ("", v)) values }

module _ {F A B : Type 0} where
  infixl 10 ◌>>=◌ ◌>>◌
  -- opening this opens the actions above too
  unfoldable pub ◌>>=◌ : Act F A → (A → Act F B) → Act F B
  unfolding pure call tables change_tables commit_tables log_risk_event
  ◌>>=◌ m k w = let (a, w') = m w in k a w'

  abbrev pub ◌>>◌ : Act F A → Act F B → Act F B
  m >> n = m >>= λ _. n

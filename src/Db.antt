-- ===== src/Db.antt =====
-- apps/api/app/db/models.py: the rows of the tables, and a SQLAlchemy session over them: what it has
-- flushed (`live`) and what the last commit left (`saved`). A row's id is its number in the table, as
-- rows are never deleted; times are microseconds.
pub mod Sorting
pub mod Rows
pub mod Counts
use binance_futures_algo_bot.Common.{
  ◌≤◌, ◌<◌, All, inr, inl, Bool-cases, ◌==◌, arith, some, if◌then◌else◌, [], ◌≡◌, ◌∷◌, ◌++◌, none,
  String, ℕ, Bool, Option, List,
}
use binance_futures_algo_bot.Common.Int.{ℤ}
use binance_futures_algo_bot.Common.Texts.{Text, text_eq}
use binance_futures_algo_bot.Risk.Schemas.{Regime, Severity, Value}

pub record TradePlan (F : Type 0) : Type 0 where
  pub id : ℕ
  pub symbol : Text
  pub side : Text
  pub timeframe : Text
  pub market_regime : Regime
  pub technical_score : F
  pub fundamental_score : F
  pub sentiment_score : F
  pub confidence_score : F
  pub aggregate_score : F
  pub entry_price : F
  pub stop_loss : F
  pub take_profit : F
  pub capital_usdt : F
  pub applied_risk_pct : F
  pub max_position_notional : F
  pub final_gate_score : Option F
  pub final_gate_passed : Option Bool
  pub final_gate_reason : Option String
  pub final_gate_pre_rejected_by_engine : Option Bool
  pub triggered_breakers : List String
  pub thesis : Text
  pub status : Text
  pub outline_url : Option Text
  pub is_testnet : Bool
  pub created_at : ℕ

pub record Order (F : Type 0) : Type 0 where
  pub id : ℕ
  pub trade_plan_id : ℕ
  pub venue : Text
  pub external_order_id : Option Text
  pub symbol : Text
  pub side : Text
  pub order_type : Text
  pub status : Text
  pub price : F
  pub quantity : F
  pub executed_quantity : F
  pub is_testnet : Bool
  pub created_at : ℕ

pub record Position (F : Type 0) : Type 0 where
  pub id : ℕ
  pub trade_plan_id : Option ℕ
  pub symbol : Text
  pub side : Text
  pub quantity : F
  pub entry_price : F
  pub mark_price : F
  pub unrealized_pnl : F
  pub leverage : ℤ
  pub status : Text
  pub is_testnet : Bool
  pub opened_at : ℕ

-- A message is its literal text with the values that an f-string puts into it: at its end, or at the {}
-- of the text.
pub record Message (F : Type 0) : Type 0 where
  pub literal : String
  pub values : List (String × Value F)

pub record RiskEvent (F : Type 0) : Type 0 where
  pub id : ℕ
  pub trade_plan_id : Option ℕ
  pub event_type : String
  pub severity : Severity
  pub message : Message F
  pub context_json : List (String × Value F)
  pub created_at : ℕ

pub record Tables (F : Type 0) : Type 0 where
  pub plans : List (TradePlan F)
  pub orders : List (Order F)
  pub positions : List (Position F)
  pub events : List (RiskEvent F)

pub record Session (F : Type 0) : Type 0 where
  pub saved : Tables F
  pub live : Tables F

-- how a call ends
pub data Reply (E A : Type 0) : Type 0 where
  returned : A → Reply E A
  raised : E → Reply E A

module _ {F : Type 0} where
  -- `Session.commit` and `Session.rollback`, where the database refuses nothing
  abbrev pub commit : Session F → Session F
  commit s = record { saved = s.live; live = s.live }

  abbrev pub rollback : Session F → Session F
  rollback s = record { saved = s.saved; live = s.saved }

  -- `Session.get(TradePlan, id)`
  unfoldable pub find_plan : ℕ → List (TradePlan F) → Option (TradePlan F)
  find_plan i [] = none
  find_plan i (p ∷ ps) = let rest = find_plan i ps in if p.id == i then some p else rest

  -- an assignment to attributes of a loaded plan
  unfoldable pub put_plan : TradePlan F → List (TradePlan F) → List (TradePlan F)
  put_plan q [] = []
  put_plan q (p ∷ ps) = let rest = put_plan q ps in if p.id == q.id then q ∷ rest else p ∷ rest

  unfoldable pub put_tables : TradePlan F → Tables F → Tables F
  unfolding put_plan
  put_tables q t = record {
    plans = put_plan q t.plans;
    orders = t.orders;
    positions = t.positions;
    events = t.events;
  }

  unfoldable pub add_event : RiskEvent F → Tables F → Tables F
  add_event e t = record {
    plans = t.plans;
    orders = t.orders;
    positions = t.positions;
    events = t.events ++ e ∷ [];
  }

  -- What is read back of a plan that was written.
  pub find_plan-put_plan :
      (p q : TradePlan F) (ps : List (TradePlan F))
      → find_plan q.id ps ≡ some p
      → find_plan q.id (put_plan q ps) ≡ some q
  unfolding find_plan put_plan
  find_plan-put_plan p q [] h = ground arith
  find_plan-put_plan p q (r ∷ ps) h =
      ground (arith, find_plan-put_plan p q ps, Bool-cases (r.id == q.id))

  pub find_plan_id :
      (i : ℕ) (p : TradePlan F) (ps : List (TradePlan F)) → find_plan i ps ≡ some p → p.id ≡ i
  unfolding find_plan
  find_plan_id i p [] h = ground arith
  find_plan_id i p (q ∷ ps) h = ground (arith, find_plan_id i p ps)

  -- The rows' ids are numbers up to `n`.
  abbrev pub IsNumbered : ℕ → List (TradePlan F) → Type 0
  IsNumbered n = All (λ p. p.id ≤ n)

  -- A plan that was just added is the only one that an update of it changes.
  pub put_plan-append :
      (n : ℕ) (p q : TradePlan F) (ps : List (TradePlan F))
      → IsNumbered n ps
      → n < q.id
      → p.id ≡ q.id
      → put_plan q (ps ++ p ∷ []) ≡ ps ++ q ∷ []
  unfolding put_plan
  put_plan-append n p q [] h below e = ground arith
  put_plan-append n p q (r ∷ ps) (hr, h) below e =
      ground (arith, put_plan-append n p q ps h below e)

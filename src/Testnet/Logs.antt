-- ===== src/Testnet/Logs.antt =====
-- Actions of the service (apps/api/app/services/testnet_trading_service.py) that change no row: they ask the
-- exchange, and add risk events that are not committed yet.
use binance_futures_algo_bot.Risk.Schemas.{Value, Severity}
use binance_futures_algo_bot.Db.{raised, Message, returned, RiskEvent, Reply}
use mathlib.Core.List.{append-nil, append_assoc}
use binance_futures_algo_bot.Testnet.Exchange.{
  tables, risk_event, caught, place_market_order, from_option, Failure, pure, log_risk_event, call,
  World, Call, Act, ◌>>=◌,
}
use binance_futures_algo_bot.Common.{
  suc, refl, arith, ◌∷◌, if◌then◌else◌, ◌++◌, true, sym, length, false, String, ◌≡◌, ◌∙◌, ℕ, [],
  select, Option, List, Bool, none, some,
}

module _ {F : Type 0} where
  unfoldable pub is_market : Call F → Bool
  is_market (place_market_order s side q id) = true
  is_market _ = false

  -- the market orders that the exchange was asked for
  unfoldable pub market_orders : List (Call F) → ℕ
  unfolding is_market
  market_orders cs = length (select is_market cs)

  market_orders-append :
      (cs : List (Call F)) (c : Call F)
      → is_market c ≡ false
      → market_orders (cs ++ c ∷ []) ≡ market_orders cs
  unfolding market_orders select
  market_orders-append [] c h = ground arith
  market_orders-append (d ∷ cs) c h = ground (arith, market_orders-append cs c h)

  -- the world after a call
  abbrev pub asked : World F → Call F → World F
  asked w c = record w { calls = w.calls ++ c ∷ [] }

  pub market_orders-asked :
      (cs : List (Call F)) (c : Call F)
      → is_market c ≡ true
      → market_orders (cs ++ c ∷ []) ≡ suc (market_orders cs)
  unfolding market_orders select
  market_orders-asked [] c h = ground arith
  market_orders-asked (d ∷ cs) c h = ground (arith, market_orders-asked cs c h)

  -- Only events were added, nothing was committed, and no market order was sent.
  pub record IsLogged (v w : World F) : Type 0 where
    pub plans : w.session.live.plans ≡ v.session.live.plans
    pub orders : w.session.live.orders ≡ v.session.live.orders
    pub positions : w.session.live.positions ≡ v.session.live.positions
    pub saved : w.session.saved ≡ v.session.saved
    pub added : List (RiskEvent F)
    pub events : w.session.live.events ≡ v.session.live.events ++ added
    pub sent : market_orders w.calls ≡ market_orders v.calls

  pub IsLogged-refl : (w : World F) → IsLogged w w
  IsLogged-refl w = record {
    plans = refl;
    orders = refl;
    positions = refl;
    saved = refl;
    added = [];
    events = sym (append-nil w.session.live.events);
    sent = refl;
  }

  pub IsLogged-trans : (u v w : World F) → IsLogged u v → IsLogged v w → IsLogged u w
  IsLogged-trans u v w h k = record {
    plans = k.plans ∙ h.plans;
    orders = k.orders ∙ h.orders;
    positions = k.positions ∙ h.positions;
    saved = k.saved ∙ h.saved;
    added = h.added ++ k.added;
    events = rw (k.events, h.events) (append_assoc u.session.live.events h.added k.added);
    sent = k.sent ∙ h.sent;
  }

module _ {F A : Type 0} where
  pub record Logs (m : Act F A) : Type 0 where
    pub at : (w : World F) → IsLogged w (m w).1

  pub Logs-pure : (a : A) → Logs (pure {F = F} a)
  unfolding pure
  Logs-pure a = record { at = IsLogged-refl }

  pub Logs-if :
      (b : Bool) (m n : Act F A)
      → (b ≡ true → Logs m)
      → (b ≡ false → Logs n)
      → Logs (if b then m else n)
  Logs-if true m n hm hn = hm refl
  Logs-if false m n hm hn = hn refl

module _ {F A : Type 0} where
  pub Logs-call :
      (answer : List (Call F) → Call F → Reply Failure A) (c : Call F)
      → is_market c ≡ false
      → Logs (call answer c)
  unfolding call
  Logs-call answer c h = record {
    at = λ w. record {
      plans = refl;
      orders = refl;
      positions = refl;
      saved = refl;
      added = [];
      events = sym (append-nil w.session.live.events);
      sent = market_orders-append w.calls c h;
    };
  }

module _ {F A B : Type 0} where
  pub Logs-bind : (m : Act F A) (k : A → Act F B) → Logs m → ((a : A) → Logs (k a)) → Logs (m >>= k)
  unfolding ◌>>=◌
  Logs-bind m k hm hk = record {
    at = λ w. let (a, v) = m w in IsLogged-trans w v (k a v).1 (hm.at w) ((hk a).at v);
  }

  pub Logs-caught :
      (r : Reply Failure A) (bad : Failure → Act F B) (ok : A → Act F B)
      → ((e : Failure) → Logs (bad e))
      → ((a : A) → Logs (ok a))
      → Logs (caught r bad ok)
  Logs-caught (returned a) bad ok hbad hok = hok a
  Logs-caught (raised e) bad ok hbad hok = hbad e

  pub Logs-from_option :
      (o : Option A) (bad : Act F B) (ok : A → Act F B)
      → Logs bad
      → ((a : A) → Logs (ok a))
      → Logs (from_option o bad ok)
  Logs-from_option none bad ok hbad hok = hbad
  Logs-from_option (some a) bad ok hbad hok = hok a

module _ {F : Type 0} where
  pub Logs-log :
      (now i : ℕ) (event_type : String) (severity : Severity) (m : Message F)
      (context : List (String × Value F))
      → Logs (log_risk_event now i event_type severity m context)
  unfolding log_risk_event
  Logs-log now i event_type severity m context = record {
    at = λ w. record {
      plans = refl;
      orders = refl;
      positions = refl;
      saved = refl;
      added =
          risk_event now i event_type severity m context (suc (length w.session.live.events)) ∷ [];
      events = refl;
      sent = refl;
    };
  }

module _ {F : Type 0} where
  pub Logs-tables : Logs (tables {F = F})
  unfolding tables
  Logs-tables = record { at = IsLogged-refl }

pub ruleset logs_rules =
    (Logs-pure, Logs-if, Logs-call, Logs-bind, Logs-caught, Logs-from_option, Logs-log, Logs-tables)

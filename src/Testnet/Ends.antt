-- ===== src/Testnet/Ends.antt =====
-- Rules for how an action of the service (apps/api/app/services/testnet_trading_service.py) ends: from a world
-- with one property, with a result and a world that have another.
use binance_futures_algo_bot.Testnet.Logs.{market_orders-asked, asked, is_market, Logs, IsLogged}
use binance_futures_algo_bot.Db.{raised, returned, Reply}
use binance_futures_algo_bot.Testnet.Exchange.{
  Call, call, caught, from_option, Failure, pure, World, Act, ◌>>=◌,
}
use binance_futures_algo_bot.Common.{
  sym, suc, ap, ◌∙◌, List, refl, false, true, ◌≡◌, if◌then◌else◌, Option, Bool, none, some,
}

module _ {F A : Type 0} where
  pub record Ends (P : World F → Type 0) (Q : A → World F → Type 0) (m : Act F A) : Type 0 where
    pub at : (w : World F) → P w → Q (m w).0 (m w).1

  -- what is returned has a property
  pub record Returns (Q : A → Type 0) (m : Act F A) : Type 0 where
    pub at : (w : World F) → Q (m w).0

  module _ {P : World F → Type 0} {Q : A → World F → Type 0} where
    pub Ends-pure : (a : A) → ((w : World F) → P w → Q a w) → Ends P Q (pure a)
    unfolding pure
    Ends-pure a h = record { at = h }

    pub Ends-if :
        (b : Bool) (m n : Act F A)
        → (b ≡ true → Ends P Q m)
        → (b ≡ false → Ends P Q n)
        → Ends P Q (if b then m else n)
    Ends-if true m n hm hn = hm refl
    Ends-if false m n hm hn = hn refl

  module _ {Q : A → Type 0} where
    pub Returns-pure : (a : A) → Q a → Returns Q (pure a)
    unfolding pure
    Returns-pure a h = record { at = λ w. h }

    pub Returns-if :
        (b : Bool) (m n : Act F A) → Returns Q m → Returns Q n → Returns Q (if b then m else n)
    Returns-if true m n hm hn = hm
    Returns-if false m n hm hn = hn

module _ {F A : Type 0} {P : World F → Type 0} where
  pub Ends-weaken :
      (Q R : A → World F → Type 0) (m : Act F A)
      → Ends P Q m
      → ((a : A) (w : World F) → Q a w → R a w)
      → Ends P R m
  Ends-weaken Q R m hm h = record { at = λ w p. let (a, v) = m w in h a v (hm.at w p) }

module _ {F A : Type 0} where
  -- a call for a market order
  pub Ends-market :
      (v : World F) (answer : List (Call F) → Call F → Reply Failure A) (c : Call F)
      → is_market c ≡ true
      → Ends (IsLogged v) (λ _. IsLogged (asked v c)) (call answer c)
  unfolding call
  Ends-market v answer c h = record {
    at = λ w l. record {
      plans = l.plans;
      orders = l.orders;
      positions = l.positions;
      saved = l.saved;
      added = l.added;
      events = l.events;
      sent =
          market_orders-asked w.calls c h ∙ ap suc l.sent ∙ sym (market_orders-asked v.calls c h);
    };
  }

module _ {F A B : Type 0} {P : World F → Type 0} {Q : B → World F → Type 0} where
  pub Ends-bind :
      (R : A → World F → Type 0) (m : Act F A) (k : A → Act F B)
      → Ends P R m
      → ((a : A) → Ends (R a) Q (k a))
      → Ends P Q (m >>= k)
  unfolding ◌>>=◌
  Ends-bind R m k hm hk = record { at = λ w h. let (a, v) = m w in (hk a).at v (hm.at w h) }

  pub Ends-keeps :
      (m : Act F A) (k : A → Act F B)
      → Ends P (λ _. P) m
      → ((a : A) → Ends P Q (k a))
      → Ends P Q (m >>= k)
  unfolding ◌>>=◌
  Ends-keeps m k hm hk = record { at = λ w h. let (a, v) = m w in (hk a).at v (hm.at w h) }

  pub Ends-Logs :
      (m : Act F A) (k : A → Act F B)
      → ((v w : World F) → P v → IsLogged v w → P w)
      → Logs m
      → ((a : A) → Ends P Q (k a))
      → Ends P Q (m >>= k)
  unfolding ◌>>=◌
  Ends-Logs m k stable hm hk = record {
    at = λ w h. let (a, v) = m w in (hk a).at v (stable w v h (hm.at w));
  }

  pub Ends-Logs-Returns :
      (R : A → Type 0) (m : Act F A) (k : A → Act F B)
      → ((v w : World F) → P v → IsLogged v w → P w)
      → Logs m
      → Returns R m
      → ((a : A) → R a → Ends P Q (k a))
      → Ends P Q (m >>= k)
  unfolding ◌>>=◌
  Ends-Logs-Returns R m k stable hm hr hk = record {
    at = λ w h. let (a, v) = m w in (hk a (hr.at w)).at v (stable w v h (hm.at w));
  }

  pub Ends-caught :
      (r : Reply Failure A) (bad : Failure → Act F B) (ok : A → Act F B)
      → ((e : Failure) → Ends P Q (bad e))
      → ((a : A) → r ≡ returned a → Ends P Q (ok a))
      → Ends P Q (caught r bad ok)
  Ends-caught (returned a) bad ok hbad hok = hok a refl
  Ends-caught (raised e) bad ok hbad hok = hbad e

  pub Ends-from_option :
      (o : Option A) (bad : Act F B) (ok : A → Act F B)
      → (o ≡ none → Ends P Q bad)
      → ((a : A) → o ≡ some a → Ends P Q (ok a))
      → Ends P Q (from_option o bad ok)
  Ends-from_option none bad ok hbad hok = hbad refl
  Ends-from_option (some a) bad ok hbad hok = hok a refl

module _ {F A B : Type 0} {Q : B → Type 0} where
  pub Returns-bind :
      (m : Act F A) (k : A → Act F B) → ((a : A) → Returns Q (k a)) → Returns Q (m >>= k)
  unfolding ◌>>=◌
  Returns-bind m k hk = record { at = λ w. let (a, v) = m w in (hk a).at v }

pub ruleset returns_rules = (Returns-pure, Returns-if, Returns-bind)

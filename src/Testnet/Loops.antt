-- ===== src/Testnet/Loops.antt =====
-- How the first loop of `sync_exit_orders` in apps/api/app/services/testnet_trading_service.py ends: with the statuses of
-- orders whose references can be read, or without an exit.
use binance_futures_algo_bot.Common.Texts.{Text}
use binance_futures_algo_bot.Testnet.Closes.{give_up-IsKept}
use binance_futures_algo_bot.Common.Int.{ℤ}
use binance_futures_algo_bot.Testnet.Payload.{Payload}
use binance_futures_algo_bot.Testnet.LocalExit.{Sync}
use binance_futures_algo_bot.Testnet.Ends.{Ends-bind, Ends-from_option, Ends}
use binance_futures_algo_bot.Testnet.Synced.{IsCurrent-IsKept, IsKept, unmarked, IsCurrent}
use binance_futures_algo_bot.Testnet.Refs.{
  client_order_id, order_id, client_algo_id, algo_id, resolve_exchange_order_ref, ExchangeRef,
}
use binance_futures_algo_bot.Testnet.Refresh.{
  refresh_orders, unresolved, unless_left, unavailable, go_on, failed, settle, refresh_ref,
  refresh_order, refresh_failure, now_is, look_up_legacy, legacy_refreshed, leave, algo_refreshed,
  algo_looked_up, actual_status, Refreshed, Loop,
}
use binance_futures_algo_bot.Testnet.Logs.{logs_rules, Logs, is_market, market_orders, IsLogged}
use binance_futures_algo_bot.Float.{Float}
use binance_futures_algo_bot.Db.{TradePlan, Reply, Order}
use binance_futures_algo_bot.Testnet.Exchange.{pure, Failure, Act, TestnetService, World}
use binance_futures_algo_bot.Common.{[], ◌∷◌, All, List, refl, Option, ◌∙◌, ◌≡◌, some}

module _ {F : Type 0} where
  -- Plans and positions are as before, nothing was committed, and no market order was sent.
  pub record IsSame (v w : World F) : Type 0 where
    pub plans : w.session.live.plans ≡ v.session.live.plans
    pub positions : w.session.live.positions ≡ v.session.live.positions
    pub saved : w.session.saved ≡ v.session.saved
    pub sent : market_orders w.calls ≡ market_orders v.calls

  pub IsSame-IsLogged : (u v w : World F) → IsSame u v → IsLogged v w → IsSame u w
  IsSame-IsLogged u v w h l = record {
    plans = l.plans ∙ h.plans;
    positions = l.positions ∙ h.positions;
    saved = l.saved ∙ h.saved;
    sent = l.sent ∙ h.sent;
  }

  pub IsSame-IsCurrent : (v w : World F) → IsSame v w → IsCurrent v w
  IsSame-IsCurrent v w h = record {
    plans = h.plans;
    positions = unmarked h.positions;
    saved = h.saved;
    sent = h.sent;
  }

  -- the order's reference can be read
  abbrev pub Named : Order F → Type 0
  Named o = (ref : ExchangeRef) × (resolve_exchange_order_ref o.external_order_id ≡ some ref)

  abbrev pub AllNamed : List (Order F × Text) → Type 0
  AllNamed = All λ x. Named x.0

  abbrev Known : Order F → Refreshed → Type 0
  Known o (now_is status) = Named o
  Known o unavailable = Unit
  Known o (failed e) = Unit
  Known o unresolved = Unit

  Named-Known : (o : Order F) (r : Refreshed) → Named o → Known o r
  Named-Known o (now_is status) h = h
  Named-Known o unavailable h = tt
  Named-Known o (failed e) h = tt
  Named-Known o unresolved h = tt

  -- the loop goes on with a good result, or has left the method without an exit
  abbrev pub Looped : {A : Type 0} → (A → Type 0) → World F → Loop A → World F → Type 0
  Looped Q v (leave reply) w = IsKept v reply w
  Looped Q v (go_on a) w = Q a × IsSame v w

  pub Ends-unless_left :
      {A B : Type 0} {Q : A → Type 0} {R : B → World F → Type 0} (v : World F) (l : Loop A)
      (left : Reply Failure Sync → Act F B) (next : A → Act F B)
      → ((reply : Reply Failure Sync) → Ends (IsKept v reply) R (left reply))
      → ((a : A) → Q a → Ends (IsSame v) R (next a))
      → Ends (Looped Q v l) R (unless_left l left next)
  Ends-unless_left v (leave reply) left next hl hn = hl reply
  Ends-unless_left v (go_on a) left next hl hn = record { at = λ w (q, h). (hn a q).at w h }

module _ {F : Type 0} ⦃f : Float F⦄ (service : TestnetService F) where
  actual_status-Logs :
      (p : TradePlan F) (refreshed : Payload F) → Logs (actual_status service p refreshed)
  unfolding actual_status is_market
  actual_status-Logs p refreshed = search logs_rules

  algo_refreshed-Logs :
      (p : TradePlan F) (refreshed : Payload F) → Logs (algo_refreshed service p refreshed)
  unfolding algo_refreshed
  algo_refreshed-Logs p refreshed = search (logs_rules, actual_status-Logs)

  look_up_legacy-Logs :
      (p : TradePlan F) (id : Option ℤ) (client_id : Option Text)
      → Logs (look_up_legacy service p id client_id)
  unfolding look_up_legacy is_market
  look_up_legacy-Logs p id client_id = search logs_rules

  legacy_refreshed-Logs :
      (o : Order F) (m : Act F (Reply Failure (Payload F)))
      → Logs m
      → Logs (legacy_refreshed service o m)
  unfolding legacy_refreshed
  legacy_refreshed-Logs o m h = search logs_rules

  algo_looked_up-Logs : (p : TradePlan F) (ref : ExchangeRef) → Logs (algo_looked_up service p ref)
  unfolding algo_looked_up is_market
  algo_looked_up-Logs p ref = search (logs_rules, algo_refreshed-Logs)

  ruleset ref_rules = (look_up_legacy-Logs, legacy_refreshed-Logs, algo_looked_up-Logs)

  refresh_ref-Logs :
      (p : TradePlan F) (o : Order F) (ref : ExchangeRef) → Logs (refresh_ref service p o ref)
  unfolding refresh_ref
  refresh_ref-Logs p o (algo_id n) = search ref_rules
  refresh_ref-Logs p o (client_algo_id t) = search ref_rules
  refresh_ref-Logs p o (order_id n) = search ref_rules
  refresh_ref-Logs p o (client_order_id t) = search ref_rules

  refresh_order-Known :
      (v : World F) (p : TradePlan F) (o : Order F)
      → Ends (IsSame v) (λ r w. Known o r × IsSame v w) (refresh_order service p o)
  unfolding refresh_order pure
  refresh_order-Known v p o =
      Ends-from_option (resolve_exchange_order_ref o.external_order_id) (pure unresolved)
        (refresh_ref service p o) (λ _. record { at = λ w h. (tt, h) })
        λ ref e. record {
          at = λ w h.
              let (r, u) = refresh_ref service p o ref w in
              (Named-Known o r (ref, e), IsSame-IsLogged v w u h ((refresh_ref-Logs p o ref).at w));
        }

  refresh_failure-IsKept :
      (v : World F) (p : TradePlan F) (o : Order F) (e : Failure)
      → Ends (IsSame v) (IsKept v) (refresh_failure service p o e)
  unfolding refresh_failure
  refresh_failure-IsKept v p o e = record {
    at = λ w h. (give_up-IsKept service v p _ _ _ _ _).at w (IsSame-IsCurrent v w h);
  }

  settle-Looped :
      (v : World F) (p : TradePlan F) (o : Order F) (r : Refreshed)
      → Ends (λ w. Known o r × IsSame v w) (Looped (λ _. Named o) v) (settle service p o r)
  unfolding settle pure
  settle-Looped v p o (now_is status) = record { at = λ w h. h }
  settle-Looped v p o unavailable = record {
    at = λ w (_, h). IsCurrent-IsKept v w _ refl (IsSame-IsCurrent v w h);
  }
  settle-Looped v p o unresolved = record {
    at = λ w (_, h). IsCurrent-IsKept v w _ refl (IsSame-IsCurrent v w h);
  }
  settle-Looped v p o (failed e) =
      Ends-bind (λ reply. IsKept v reply) (refresh_failure service p o e)
        (λ reply. pure (leave reply))
        (record { at = λ w (_, h). (refresh_failure-IsKept v p o e).at w h })
        λ reply. record { at = λ w h. h }

  left-Looped :
      {A : Type 0} (Q : A → Type 0) (v : World F) (reply : Reply Failure Sync)
      → Ends (IsKept v reply) (Looped Q v) (pure (leave reply))
  unfolding pure
  left-Looped Q v reply = record { at = λ w h. h }

  gone_on-Looped :
      {A : Type 0} (Q : A → Type 0) (v : World F) (a : A)
      → Q a
      → Ends (IsSame v) (Looped Q v) (pure (go_on a))
  unfolding pure
  gone_on-Looped Q v a q = record { at = λ w h. (q, h) }

  pub refresh_orders-Looped :
      (v : World F) (p : TradePlan F) (os : List (Order F))
      → Ends (IsSame v) (Looped AllNamed v) (refresh_orders service p os)
  unfolding refresh_orders
  refresh_orders-Looped v p [] = gone_on-Looped AllNamed v [] tt
  refresh_orders-Looped v p (o ∷ os) =
      Ends-bind (λ r w. Known o r × IsSame v w) (refresh_order service p o) _
        (refresh_order-Known v p o)
        λ r.
          Ends-bind (Looped (λ _. Named o) v) (settle service p o r) _ (settle-Looped v p o r)
            λ one. Ends-unless_left v one _ _ (left-Looped AllNamed v) λ status named.
              Ends-bind (Looped AllNamed v) (refresh_orders service p os) _
                (refresh_orders-Looped v p os)
                λ rest.
                  Ends-unless_left v rest _ _ (left-Looped AllNamed v)
                    λ pairs all. gone_on-Looped AllNamed v ((o, status) ∷ pairs) (named, all)

-- ===== src/Testnet/Exits.antt =====
-- How `sync_exit_orders` of apps/api/app/services/testnet_trading_service.py ends on a plan with protection orders, and
-- on any plan.
use binance_futures_algo_bot.Testnet.Entry.{plan_not_found}
use binance_futures_algo_bot.Testnet.Refresh.{unless_left, refresh_orders}
use binance_futures_algo_bot.Testnet.Closes.{sync_locally-Ended, Ended}
use binance_futures_algo_bot.Testnet.Confirm.{empty_ref}
use binance_futures_algo_bot.Testnet.LocalExit.{not_synced, no_triggered_exit, Sync, exit}
use binance_futures_algo_bot.Testnet.Synced.{
  closed, kept, SyncOutcome, IsCurrent-refl, IsCurrent-IsLogged, IsCurrent-IsKept, unmarked,
  is_exit, IsKept, IsClosed,
}
use binance_futures_algo_bot.Testnet.Quiet.{cancel_exchange_order_ref-Logs}
use binance_futures_algo_bot.Testnet.Refs.{resolve_exchange_order_ref, ExchangeRef}
use binance_futures_algo_bot.Testnet.Ends.{
  Ends-weaken, Ends-from_option, Ends-keeps, Ends-bind, Ends-Logs, Ends-if, Ends,
}
use binance_futures_algo_bot.Db.Rows.{last_row, update_row}
use binance_futures_algo_bot.Testnet.Loops.{
  refresh_orders-Looped, Ends-unless_left, Looped, IsSame, Named, AllNamed,
}
use binance_futures_algo_bot.Testnet.Logs.{IsLogged-refl, market_orders, logs_rules, Logs, IsLogged}
use binance_futures_algo_bot.Common.Texts.{text_eq, codes, Text}
use binance_futures_algo_bot.Db.{find_plan, Reply, raised, returned, Position, TradePlan, Order}
use binance_futures_algo_bot.Testnet.Exit.{
  sync_plan, sync_exit_orders, is_open_of, triggered_order, sync_position, sync_orders,
  set_statuses, is_live, apply_statuses, store_exit, shut, cancel_siblings,
  cancel_unavailable_event, cancel_sibling, sibling_orders,
}
use binance_futures_algo_bot.Float.{Float}
use binance_futures_algo_bot.Testnet.Exchange.{
  tables, from_option, caught, Failure, commit_tables, pure, change_tables, TestnetService, World,
  ◌>>=◌, ◌>>◌,
}
use binance_futures_algo_bot.Common.{
  ◌&&◌, not, false, ap, sym, arith, ◌≢◌, ℕ, refl, inr, inl, [], Bool-cases, ◌∷◌, map, ◌∙◌, Option,
  ◌≡◌, All, Bool, select, List, none, some,
}

module _ {F : Type 0} where
  -- The position and the plan are closed; nothing is committed yet.
  record IsShut (v : World F) (p : TradePlan F) (x : Position F) (w : World F) : Type 0 where
    plans :
        w.session.live.plans
        ≡ update_row
            (λ p. p.id)
            p.id
            (λ p. record p { status = codes "testnet_closed" })
            v.session.live.plans
    positions :
        w.session.live.positions
        ≡ update_row
            (λ p. p.id)
            x.id
            (λ p. record p { status = codes "closed" })
            v.session.live.positions
    sent : market_orders w.calls ≡ market_orders v.calls

  IsShut-IsLogged :
      (v : World F) (p : TradePlan F) (x : Position F) (u w : World F)
      → IsShut v p x u
      → IsLogged u w
      → IsShut v p x w
  IsShut-IsLogged v p x u w h l = record {
    plans = l.plans ∙ h.plans;
    positions = l.positions ∙ h.positions;
    sent = l.sent ∙ h.sent;
  }

  All-select : (q : Order F → Bool) (os : List (Order F)) → All Named os → All Named (select q os)
  unfolding select
  All-select q [] h = tt
  All-select q (o ∷ os) (h, hs) = elim (Bool-cases (q o)) [
    | inl e ↦ rw e (h, All-select q os hs)
    | inr e ↦ rw e (All-select q os hs)
  ]

  All-map :
      (pairs : List (Order F × Text))
      → AllNamed pairs
      → All Named (map (λ x. record x.0 { status = x.1 }) pairs)
  All-map [] h = tt
  All-map (x ∷ pairs) (h, hs) = (h, All-map pairs hs)

  sibling_orders-Named :
      (pairs : List (Order F × Text)) → AllNamed pairs → All Named (sibling_orders pairs)
  unfolding sibling_orders
  sibling_orders-Named [] h = tt
  sibling_orders-Named ((o, status) ∷ pairs) (h, hs) =
      elim (Bool-cases (text_eq status (codes "filled"))) [
        | inl e ↦ rw e (All-map pairs hs)
        | inr e ↦ rw e (h, sibling_orders-Named pairs hs)
      ]

none-ne-some : {A : Type 0} (a : A) → none ≢ some a
none-ne-some a h = ground arith

raised-ne-returned : {A : Type 0} (e : Failure) (a : A) → raised e ≢ returned a
raised-ne-returned e a h = ground arith

module _ {F : Type 0} ⦃f : Float F⦄ (service : TestnetService F) where
  module _ (v : World F) (p : TradePlan F) (x : Position F) where
    -- orders are not looked at
    set_order-IsShut :
        (id : ℕ) (g : Order F → Order F)
        → Ends
            (IsShut v p x)
            (λ _. IsShut v p x)
            (change_tables λ t. record t { orders = update_row (λ o. o.id) id g t.orders })
    unfolding change_tables
    set_order-IsShut id g = record {
      at = λ w h. record { plans = h.plans; positions = h.positions; sent = h.sent };
    }

    pure-IsShut : {A : Type 0} (a : A) → Ends (IsShut v p x) (λ _. IsShut v p x) (pure a)
    unfolding pure
    pure-IsShut a = record { at = λ w h. h }

    cancel_unavailable_event-Logs : (o : Order F) → Logs (cancel_unavailable_event service p o)
    unfolding cancel_unavailable_event
    cancel_unavailable_event-Logs o = search logs_rules

    cancel_sibling-IsShut :
        (o : Order F) (canceled : Option Text) (ref : ExchangeRef)
        → Ends (IsShut v p x) (λ _. IsShut v p x) (cancel_sibling service p o canceled ref)
    unfolding cancel_sibling
    cancel_sibling-IsShut o canceled ref =
        search
          (
            Ends-if, Ends-Logs, IsShut-IsLogged, cancel_unavailable_event-Logs, pure-IsShut,
            cancel_exchange_order_ref-Logs, Ends-keeps, set_order-IsShut,
          )
          depth 8

    cancel_siblings-IsShut :
        (os : List (Order F)) (canceled : Option Text)
        → All Named os
        → Ends
            (IsShut v p x)
            (λ r w. ((c : Option Text) × (r ≡ returned c)) × IsShut v p x w)
            (cancel_siblings service p os canceled)
    unfolding cancel_siblings pure
    cancel_siblings-IsShut [] canceled h = record { at = λ w shut. ((canceled, refl), shut) }
    cancel_siblings-IsShut (o ∷ os) canceled ((ref, e), hs) =
        Ends-from_option (resolve_exchange_order_ref o.external_order_id) (pure (raised empty_ref))
          (λ ref. cancel_sibling service p o canceled ref >>= cancel_siblings service p os)
          (λ missing. absurd (none-ne-some ref (sym missing ∙ e)))
          λ ref _.
            Ends-keeps (cancel_sibling service p o canceled ref) (cancel_siblings service p os)
              (cancel_sibling-IsShut o canceled ref) λ c. cancel_siblings-IsShut os c hs

    committed-IsClosed :
        (order_type : Text) (sibling : Option Text)
        → Ends
            (IsShut v p x)
            (IsClosed v p x)
            (commit_tables >> pure (returned (exit order_type sibling)))
    unfolding ◌>>=◌
    committed-IsClosed order_type sibling = record {
      at = λ w h. record {
        is = refl;
        plans = h.plans;
        close = λ q. record q { status = codes "closed" };
        closes = record {
          closed = λ q. refl;
          id = λ q. refl;
          of_plan = λ q. refl;
          quantity = λ q. refl;
        };
        positions = h.positions;
        committed = refl;
        sent = h.sent;
      };
    }

    after_siblings-IsClosed :
        (order_type : Text) (r : Reply Failure (Option Text))
        → Ends
            (λ w. ((c : Option Text) × (r ≡ returned c)) × IsShut v p x w)
            (IsClosed v p x)
            (caught r
              (λ e. pure (raised e))
              λ c. commit_tables >> pure (returned (exit order_type c)))
    after_siblings-IsClosed order_type (returned c) = record {
      at = λ w (_, h). (committed-IsClosed order_type c).at w h;
    }
    after_siblings-IsClosed order_type (raised e) = record {
      at = λ w ((c, h), _). absurd (raised-ne-returned e c h);
    }

  shut-IsShut :
      (v : World F) (p : TradePlan F) (x : Position F) (o : Order F)
      → Ends (IsSame v) (λ _. IsShut v p x) (shut service p x o)
  unfolding shut ◌>>=◌
  shut-IsShut v p x o = record {
    at = λ w h. record {
      plans = ap (update_row _ p.id _) h.plans;
      positions = ap (update_row _ x.id _) h.positions;
      sent = h.sent;
    };
  }

  store_exit-IsClosed :
      (v : World F) (p : TradePlan F) (x : Position F) (o : Order F) (os : List (Order F))
      → All Named os
      → Ends (IsSame v) (IsClosed v p x) (store_exit service p x o os)
  unfolding store_exit
  store_exit-IsClosed v p x o os named =
      Ends-bind (λ _. IsShut v p x) (shut service p x o) _ (shut-IsShut v p x o)
        λ _.
          Ends-bind (λ r w. ((c : Option Text) × (r ≡ returned c)) × IsShut v p x w)
            (cancel_siblings service p (select is_live os) none) _
            (cancel_siblings-IsShut v p x (select is_live os) none (All-select is_live os named))
            (after_siblings-IsClosed v p x o.order_type)

  set_statuses-IsSame :
      (v : World F) (pairs : List (Order F × Text))
      → Ends
          (IsSame v)
          (λ _. IsSame v)
          (change_tables λ t. record t { orders = set_statuses pairs t.orders })
  unfolding change_tables
  set_statuses-IsSame v pairs = record {
    at = λ w h. record { plans = h.plans; positions = h.positions; saved = h.saved; sent = h.sent };
  }

  untriggered-IsKept :
      (v : World F)
      → Ends (IsSame v) (IsKept v) (commit_tables >> pure (returned no_triggered_exit))
  unfolding ◌>>=◌
  untriggered-IsKept v = record {
    at = λ w h. record {
      is = refl;
      plans = h.plans;
      positions = unmarked h.positions;
      saved = inr refl;
      sent = h.sent;
    };
  }

  apply_statuses-Ended :
      (v : World F) (p : TradePlan F) (x : Position F) (pairs : List (Order F × Text))
      → AllNamed pairs
      → Ends (IsSame v) (Ended v p x) (apply_statuses service p x pairs)
  unfolding apply_statuses
  apply_statuses-Ended v p x pairs named =
      Ends-keeps (change_tables λ t. record t { orders = set_statuses pairs t.orders }) _
        (set_statuses-IsSame v pairs)
        λ _.
          Ends-from_option (triggered_order pairs)
            (commit_tables >> pure (returned no_triggered_exit))
            (λ o. store_exit service p x o (sibling_orders pairs))
            (λ _. Ends-weaken _ _ _ (untriggered-IsKept v) λ r w h. inl h)
            λ o _.
              Ends-weaken _ _ _
                (store_exit-IsClosed v p x o (sibling_orders pairs)
                  (sibling_orders-Named pairs named))
                λ r w h. inr h

  left-Ended :
      (v : World F) (p : TradePlan F) (x : Position F) (reply : Reply Failure Sync)
      → Ends (IsKept v reply) (Ended v p x) (pure reply)
  unfolding pure
  left-Ended v p x reply = record { at = λ w h. inl h }

  quiet-IsKept :
      (v : World F) (reply : Reply Failure Sync)
      → is_exit reply ≡ false
      → Ends (IsLogged v) (IsKept v) (pure reply)
  unfolding pure
  quiet-IsKept v reply e = record {
    at = λ w h. IsCurrent-IsKept v w reply e (IsCurrent-IsLogged v v w (IsCurrent-refl v) h);
  }

  sync_orders-Ended :
      (v : World F) (p : TradePlan F) (x : Position F) (os : List (Order F))
      → Ends (IsLogged v) (Ended v p x) (sync_orders service p x os)
  unfolding sync_orders
  sync_orders-Ended v p x os =
      Ends-if (not service.exchange.has_get_order && not service.exchange.has_get_algo_order)
        (pure (returned (not_synced "binance_get_order_unavailable")))
        (refresh_orders service p os >>= λ l. unless_left l pure (apply_statuses service p x))
        (λ _.
          Ends-weaken _ _ _
            (quiet-IsKept v (returned (not_synced "binance_get_order_unavailable")) refl)
            λ r w h. inl h)
        λ _.
          Ends-bind (Looped AllNamed v) (refresh_orders service p os) _
            (record {
              at = λ w h. (refresh_orders-Looped service v p os).at w (record {
                plans = h.plans;
                positions = h.positions;
                saved = h.saved;
                sent = h.sent;
              });
            })
            λ l.
              Ends-unless_left v l pure (apply_statuses service p x) (left-Ended v p x)
                (apply_statuses-Ended v p x)

  sync_position-Outcome :
      (v : World F) (i : ℕ) (p : TradePlan F) (o : Option (Position F))
      → find_plan i v.session.live.plans ≡ some p
      → text_eq p.status (codes "testnet_closed") ≡ false
      → last_row (select (is_open_of p.id) v.session.live.positions) ≡ o
      → Ends (IsLogged v) (SyncOutcome i v) (sync_position service v.session.live p o)
  unfolding sync_position
  sync_position-Outcome v i p none found unclosed h =
      Ends-weaken _ _ _ (quiet-IsKept v (returned (not_synced "no_open_position")) refl)
        λ r w k. kept k
  sync_position-Outcome v i p (some x) found unclosed h =
      Ends-weaken (Ended v p x) _ _ (search (Ends-if, sync_locally-Ended, sync_orders-Ended))
        λ r w k. ended r w k
    where
      ended : (r : Reply Failure Sync) (w : World F) → Ended v p x r w → SyncOutcome i v r w
      ended r w (inl k) = kept k
      ended r w (inr k) = closed p x found unclosed h k

  sync_plan-Outcome :
      (v : World F) (i : ℕ) (p : TradePlan F)
      → find_plan i v.session.live.plans ≡ some p
      → Ends (IsLogged v) (SyncOutcome i v) (sync_plan service v.session.live p)
  unfolding sync_plan
  sync_plan-Outcome v i p found =
      Ends-if (text_eq p.status (codes "testnet_closed")) _ _
        (λ _.
          Ends-weaken _ _ _
            (quiet-IsKept v (returned (not_synced "trade_plan_already_closed")) refl)
            λ r w k. kept k)
        λ unclosed. sync_position-Outcome v i p _ found unclosed refl

  sync_found-Outcome :
      (v : World F) (i : ℕ) (o : Option (TradePlan F))
      → find_plan i v.session.live.plans ≡ o
      → Ends
          (IsLogged v)
          (SyncOutcome i v)
          (from_option o (pure (raised plan_not_found)) (sync_plan service v.session.live))
  sync_found-Outcome v i none h =
      Ends-weaken _ _ _ (quiet-IsKept v (raised plan_not_found) refl) λ r w k. kept k
  sync_found-Outcome v i (some p) h = sync_plan-Outcome v i p h

  -- However the exchange answers, a synchronization leaves every plan and position as it was, except that it may
  -- set the mark of one position; or, exactly when its result is an exit, it closes the newest open testnet position
  -- of the plan together with the plan, which was not closed, and has committed that. It never sends a market order
  -- for an entry.
  pub sync_exit_orders-Outcome :
      (i : ℕ) (v : World F)
      → let (reply, w) = sync_exit_orders service i v in SyncOutcome i v reply w
  unfolding sync_exit_orders ◌>>=◌
  sync_exit_orders-Outcome i v =
      (Ends-if {P = λ w. w ≡ v} {Q = SyncOutcome i v} (not service.execution_enabled)
          (pure (returned (not_synced "testnet_execution_disabled")))
          (tables >>= λ t.
            from_option (find_plan i t.plans) (pure (raised plan_not_found)) (sync_plan service t))
          (λ _. record { at = λ w e. rw e (kept (IsCurrent-IsKept v v _ refl (IsCurrent-refl v))) })
          λ _. record {
            at = λ w e. rw e ((sync_found-Outcome v i _ refl).at v (IsLogged-refl v));
          }).at
        v refl

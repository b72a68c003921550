-- ===== src/Testnet/Closes.antt =====
-- How the local exit of `sync_exit_orders` in apps/api/app/services/testnet_trading_service.py ends.
use binance_futures_algo_bot.Testnet.Quiet.{confirm_exchange_order-Logs}
use binance_futures_algo_bot.Testnet.Payload.{Payload}
use binance_futures_algo_bot.Testnet.Ends.{Ends-from_option, Ends-caught, Ends-if, Ends-Logs, Ends}
use binance_futures_algo_bot.Common.Texts.{codes, Text}
use binance_futures_algo_bot.Testnet.Synced.{
  IsCurrent-IsKept, IsCurrent-refl, marked, IsCurrent-IsLogged, IsCurrent, IsClosed, IsKept,
  set_mark,
}
use binance_futures_algo_bot.Testnet.Prices.{Trigger}
use binance_futures_algo_bot.Risk.Schemas.{Value, Severity}
use binance_futures_algo_bot.Db.Rows.{update_row-update_row, update_row}
use binance_futures_algo_bot.Testnet.Logs.{
  IsLogged-trans, Logs-tables, Logs-call, market_orders, is_market, IsLogged,
}
use binance_futures_algo_bot.Testnet.LocalExit.{
  not_synced, no_triggered_exit, watch, sync_locally, mark_unavailable, exit_if_triggered, Sync,
  Levels, store_local_exit, close_locally, close_failed, after_close, give_up,
}
use binance_futures_algo_bot.Db.{returned, Order, Message, Reply, TradePlan, Position}
use binance_futures_algo_bot.Float.{nought, Float}
use binance_futures_algo_bot.Testnet.Exchange.{
  pure, Failure, commit_tables, TestnetService, World, ◌>>=◌, ◌>>◌,
}
use binance_futures_algo_bot.Common.{Option, refl, inl, ap, ◌⊎◌, inr, List, ◌∙◌, String, ◌≡◌}

module _ {F : Type 0} where
  -- Position `x` has got the mark `m`, and otherwise plans and positions are as before.
  record IsWatched (v : World F) (x : Position F) (m : F) (w : World F) : Type 0 where
    plans : w.session.live.plans ≡ v.session.live.plans
    positions :
        w.session.live.positions ≡ update_row (λ p. p.id) x.id (set_mark m) v.session.live.positions
    saved : w.session.saved ≡ v.session.saved
    sent : market_orders w.calls ≡ market_orders v.calls

  IsWatched-IsLogged :
      (v : World F) (x : Position F) (m : F) (u w : World F)
      → IsWatched v x m u
      → IsLogged u w
      → IsWatched v x m w
  IsWatched-IsLogged v x m u w h l = record {
    plans = l.plans ∙ h.plans;
    positions = l.positions ∙ h.positions;
    saved = l.saved ∙ h.saved;
    sent = l.sent ∙ h.sent;
  }

module _ {F : Type 0} where
  -- the end without an exit, or with one
  abbrev pub Ended : World F → TradePlan F → Position F → Reply Failure Sync → World F → Type 0
  Ended v p x reply w = IsKept v reply w ⊎ IsClosed v p x reply w

module _ {F : Type 0} ⦃f : Float F⦄ (service : TestnetService F) where
  pub give_up-IsKept :
      (v : World F) (p : TradePlan F) (event_type : String) (severity : Severity) (m : Message F)
      (context : List (String × Value F)) (reason : String)
      → Ends (IsCurrent v) (IsKept v) (give_up service p event_type severity m context reason)
  unfolding give_up ◌>>=◌
  give_up-IsKept v p event_type severity m context reason = record {
    at = λ w h. record {
      is = refl;
      plans = h.plans;
      positions = h.positions;
      saved = inr refl;
      sent = h.sent;
    };
  }

  module _ (v : World F) (p : TradePlan F) (x : Position F) (m : F) where
    give_up-Ended :
        (event_type : String) (severity : Severity) (said : Message F)
        (context : List (String × Value F)) (reason : String)
        → Ends
            (IsWatched v x m)
            (Ended v p x)
            (give_up service p event_type severity said context reason)
    give_up-Ended event_type severity said context reason = record {
      at = λ w h. inl (
          (give_up-IsKept v p event_type severity said context reason).at w (record {
            plans = h.plans;
            positions = marked x.id m h.positions;
            saved = h.saved;
            sent = h.sent;
          }));
    }

    store_local_exit-IsClosed :
        (trigger : Trigger) (levels : Levels F) (order : Order F)
        → Ends
            (IsWatched v x m)
            (Ended v p x)
            (store_local_exit service p (record x { mark_price = m }) trigger levels order)
    unfolding store_local_exit ◌>>=◌
    store_local_exit-IsClosed trigger levels order = record {
      at = λ w h. inr (record {
        is = refl;
        plans =
            ap (update_row (λ p. p.id) p.id λ p. record p { status = codes "testnet_closed" })
              h.plans;
        close = λ q. record q {
          status = codes "closed";
          mark_price = order.price;
          unrealized_pnl = nought;
        };
        closes = record {
          closed = λ q. refl;
          id = λ q. refl;
          of_plan = λ q. refl;
          quantity = λ q. refl;
        };
        positions = rw h.positions (
            update_row-update_row (λ p. p.id) x.id (set_mark m) _ v.session.live.positions
              λ q. refl);
        committed = refl;
        sent = h.sent;
      });
    }

    after_close-Ended :
        (trigger : Trigger) (levels : Levels F) (id : Text) (answer : Payload F)
        → Ends
            (IsWatched v x m)
            (Ended v p x)
            (after_close service p (record x { mark_price = m }) trigger levels id answer)
    unfolding after_close
    after_close-Ended trigger levels id answer =
        search
          (
            Ends-Logs, IsWatched-IsLogged, confirm_exchange_order-Logs, Ends-if, give_up-Ended,
            store_local_exit-IsClosed,
          )
          depth 8

    close_failed-Ended :
        (trigger : Trigger) (levels : Levels F) (e : Failure)
        → Ends
            (IsWatched v x m)
            (Ended v p x)
            (close_failed service p (record x { mark_price = m }) trigger levels e)
    unfolding close_failed
    close_failed-Ended trigger levels e = search give_up-Ended

    unavailable-Ended :
        (reason : String)
        → Ends (IsWatched v x m) (Ended v p x) (pure (returned (not_synced reason)))
    unfolding pure
    unavailable-Ended reason = record {
      at = λ w h. inl (
          IsCurrent-IsKept v w (returned (not_synced reason)) refl (record {
            plans = h.plans;
            positions = marked x.id m h.positions;
            saved = h.saved;
            sent = h.sent;
          }));
    }

    close_locally-Ended :
        (levels : Levels F) (trigger : Trigger)
        → Ends
            (IsWatched v x m)
            (Ended v p x)
            (close_locally service p (record x { mark_price = m }) levels trigger)
    unfolding close_locally is_market
    close_locally-Ended levels trigger =
        search
          (
            Ends-if, Ends-Logs, IsWatched-IsLogged, Logs-call, Ends-caught, close_failed-Ended,
            after_close-Ended, unavailable-Ended,
          )
          depth 8

    commit-Ended :
        Ends (IsWatched v x m) (Ended v p x) (commit_tables >> pure (returned no_triggered_exit))
    unfolding ◌>>=◌
    commit-Ended = record {
      at = λ w h. inl (record {
        is = refl;
        plans = h.plans;
        positions = marked x.id m h.positions;
        saved = inr refl;
        sent = h.sent;
      });
    }

    exit_if_triggered-Ended :
        Ends
          (IsWatched v x m)
          (Ended v p x)
          (exit_if_triggered service p (record x { mark_price = m }))
    unfolding exit_if_triggered
    exit_if_triggered-Ended =
        search
          (
            Ends-Logs, IsWatched-IsLogged, Logs-tables, Ends-from_option, commit-Ended,
            close_locally-Ended,
          )
          depth 8

  module _ (v : World F) (p : TradePlan F) (x : Position F) where
    watch-Ended :
        (risk : Option (Payload F)) → Ends (IsLogged v) (Ended v p x) (watch service p x risk)
    unfolding watch ◌>>=◌
    watch-Ended risk = record {
      at = λ w h. (exit_if_triggered-Ended v p x _).at _ (record {
        plans = h.plans;
        positions = ap (update_row (λ p. p.id) x.id _) h.positions;
        saved = h.saved;
        sent = h.sent;
      });
    }

    silent-Ended :
        (reason : String) → Ends (IsLogged v) (Ended v p x) (pure (returned (not_synced reason)))
    unfolding pure
    silent-Ended reason = record {
      at = λ w h. inl (
          IsCurrent-IsKept v w (returned (not_synced reason)) refl
            (IsCurrent-IsLogged v v w (IsCurrent-refl v) h));
    }

    mark_unavailable-Ended :
        (e : Failure) → Ends (IsLogged v) (Ended v p x) (mark_unavailable service p e)
    unfolding mark_unavailable
    mark_unavailable-Ended e = record {
      at = λ w h.
          inl ((give_up-IsKept v p _ _ _ _ _).at w (IsCurrent-IsLogged v v w (IsCurrent-refl v) h));
    }

    pub sync_locally-Ended : Ends (IsLogged v) (Ended v p x) (sync_locally service p x)
    unfolding sync_locally is_market
    sync_locally-Ended =
        search
          (
            Ends-if, Ends-Logs, IsLogged-trans, Logs-call, Ends-caught, mark_unavailable-Ended,
            watch-Ended, silent-Ended,
          )
          depth 8

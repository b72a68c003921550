-- ===== src/Testnet/Synced.antt =====
-- How `sync_exit_orders` of apps/api/app/services/testnet_trading_service.py ends: with every plan and position as
-- before but for a mark, or with one position and its plan closed.
use binance_futures_algo_bot.Testnet.Exit.{is_open_of}
use binance_futures_algo_bot.Db.Rows.{last_row, update_row}
use binance_futures_algo_bot.Common.Texts.{text_eq, codes}
use binance_futures_algo_bot.Testnet.Logs.{market_orders, IsLogged}
use binance_futures_algo_bot.Testnet.LocalExit.{
  no_triggered_exit, exit, local_exit, not_synced, Sync,
}
use binance_futures_algo_bot.Db.{raised, returned, find_plan, TradePlan, Reply, Position}
use binance_futures_algo_bot.Testnet.Exchange.{Failure, World}
use binance_futures_algo_bot.Common.{
  select, ◌⊎◌, refl, inl, ◌∙◌, true, false, ◌≡◌, Bool, ℕ, List, some,
}

-- the reply is an exit, of the service's own or of the exchange
abbrev pub is_exit_result : Sync → Bool
is_exit_result (not_synced reason) = false
is_exit_result no_triggered_exit = false
is_exit_result (local_exit trigger id) = true
is_exit_result (exit order_type sibling) = true

abbrev pub is_exit : Reply Failure Sync → Bool
is_exit (returned result) = is_exit_result result
is_exit (raised e) = false

module _ {F : Type 0} where
  abbrev pub set_mark : F → Position F → Position F
  set_mark m p = record p { mark_price = m }

  -- the positions, one of them with another mark or none
  pub data Marks (ps qs : List (Position F)) : Type 0 where
    unmarked : qs ≡ ps → Marks ps qs
    marked : (id : ℕ) (m : F) → qs ≡ update_row (λ p. p.id) id (set_mark m) ps → Marks ps qs

  -- Plans and positions are as before but for a mark, nothing was committed, and no market order was sent.
  pub record IsCurrent (v w : World F) : Type 0 where
    pub plans : w.session.live.plans ≡ v.session.live.plans
    pub positions : Marks v.session.live.positions w.session.live.positions
    pub saved : w.session.saved ≡ v.session.saved
    pub sent : market_orders w.calls ≡ market_orders v.calls

  pub IsCurrent-refl : (v : World F) → IsCurrent v v
  IsCurrent-refl v = record { plans = refl; positions = unmarked refl; saved = refl; sent = refl }

  Marks-same : (ps qs rs : List (Position F)) → Marks ps qs → rs ≡ qs → Marks ps rs
  Marks-same ps qs rs (unmarked h) e = unmarked (e ∙ h)
  Marks-same ps qs rs (marked id m h) e = marked id m (e ∙ h)

  pub IsCurrent-IsLogged : (u v w : World F) → IsCurrent u v → IsLogged v w → IsCurrent u w
  IsCurrent-IsLogged u v w h l = record {
    plans = l.plans ∙ h.plans;
    positions = Marks-same _ _ _ h.positions l.positions;
    saved = l.saved ∙ h.saved;
    sent = l.sent ∙ h.sent;
  }

  -- The end without an exit: at most a mark was changed, and it is committed or not.
  pub record IsKept (v : World F) (reply : Reply Failure Sync) (w : World F) : Type 0 where
    pub is : is_exit reply ≡ false
    pub plans : w.session.live.plans ≡ v.session.live.plans
    pub positions : Marks v.session.live.positions w.session.live.positions
    pub saved : (w.session.saved ≡ v.session.saved) ⊎ (w.session.saved ≡ w.session.live)
    pub sent : market_orders w.calls ≡ market_orders v.calls

  pub IsCurrent-IsKept :
      (v w : World F) (reply : Reply Failure Sync)
      → is_exit reply ≡ false
      → IsCurrent v w
      → IsKept v reply w
  IsCurrent-IsKept v w reply e h = record {
    is = e;
    plans = h.plans;
    positions = h.positions;
    saved = inl h.saved;
    sent = h.sent;
  }

  -- what closing a position changes of it
  pub record IsClosing (g : Position F → Position F) : Type 0 where
    pub closed : (p : Position F) → (g p).status ≡ codes "closed"
    pub id : (p : Position F) → (g p).id ≡ p.id
    pub of_plan : (p : Position F) → (g p).trade_plan_id ≡ p.trade_plan_id
    pub quantity : (p : Position F) → (g p).quantity ≡ p.quantity

  -- The end with an exit: the newest open position of the plan and the plan itself are closed, and committed.
  pub record IsClosed (v : World F) (p : TradePlan F) (x : Position F) (reply : Reply Failure Sync)
      (w : World F) : Type 0 where
    pub is : is_exit reply ≡ true
    pub plans :
        w.session.live.plans
        ≡ update_row
            (λ p. p.id)
            p.id
            (λ p. record p { status = codes "testnet_closed" })
            v.session.live.plans
    pub close : Position F → Position F
    pub closes : IsClosing close
    pub positions :
        w.session.live.positions ≡ update_row (λ p. p.id) x.id close v.session.live.positions
    pub committed : w.session.saved ≡ w.session.live
    pub sent : market_orders w.calls ≡ market_orders v.calls

  -- how the method ends from `v` in `w`
  pub data SyncOutcome (i : ℕ) (v : World F) (reply : Reply Failure Sync) (w : World F)
      : Type 0 where
    kept : IsKept v reply w → SyncOutcome i v reply w
    closed :
        (p : TradePlan F) (x : Position F)
        → find_plan i v.session.live.plans ≡ some p
        → text_eq p.status (codes "testnet_closed") ≡ false
        → last_row (select (is_open_of p.id) v.session.live.positions) ≡ some x
        → IsClosed v p x reply w
        → SyncOutcome i v reply w

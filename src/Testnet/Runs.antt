-- ===== src/Testnet/Runs.antt =====
-- Runs of the testnet service (apps/api/app/services/testnet_trading_service.py), in any order and whatever the
-- exchange answers.
use binance_futures_algo_bot.Db.Counts.{bit, count}
use binance_futures_algo_bot.Testnet.Consistent.{
  enter-IsConsistent, close-IsConsistent, Marks-IsConsistent, same-IsConsistent,
}
use binance_futures_algo_bot.Testnet.Exit.{is_open_of, sync_exit_orders}
use binance_futures_algo_bot.Testnet.Synced.{closed, kept, SyncOutcome}
use binance_futures_algo_bot.Testnet.Outcome.{entered, not_taken, kept_out, missing, IsRefused}
use binance_futures_algo_bot.Testnet.Outcome.{EntryOutcome}
use binance_futures_algo_bot.Paper.Once.{find_plan-append, append-IsNumbered}
use binance_futures_algo_bot.Common.Texts.{Text, codes, text_eq}
use binance_futures_algo_bot.Testnet.LocalExit.{Sync}
use binance_futures_algo_bot.Testnet.Exits.{sync_exit_orders-Outcome}
use binance_futures_algo_bot.Testnet.Entry.{is_open_at, execute_on_testnet, Entry}
use binance_futures_algo_bot.Testnet.Ends.{Ends-caught, Ends-keeps, Ends-if, Ends}
use binance_futures_algo_bot.Testnet.Sweep.{
  sync_failed, synced, plan_ids, Sweep, distinct, sync_raised, sync_open_testnet_exits, sync_items,
  sync_item,
}
use binance_futures_algo_bot.Testnet.Executed.{execute_on_testnet-Outcome}
use binance_futures_algo_bot.Testnet.Consistent.{IsConsistent}
use binance_futures_algo_bot.Paper.Runs.{empty_session}
use binance_futures_algo_bot.Db.{find_plan, rollback, TradePlan, Reply}
use binance_futures_algo_bot.Float.{Float}
use binance_futures_algo_bot.Testnet.Exchange.{
  from_option, pure, Failure, TestnetService, World, ◌>>=◌,
}
use binance_futures_algo_bot.Common.{
  ◌≤◌, refl, sym, ◌++◌, inr, inl, false, List, ◌∷◌, length, suc, length-append, arith, [], ◌≡◌,
  select, ap, some, ℕ,
}

module _ {F : Type 0} where
  -- What is in the session and what is saved are sound.
  pub record IsSafe (w : World F) : Type 0 where
    pub live : IsConsistent w.session.live
    pub saved : IsConsistent w.session.saved

  -- another service has added a plan, with the next id
  pub record IsPlanned (v w : World F) : Type 0 where
    pub plan : TradePlan F
    pub id : plan.id ≡ suc (length v.session.live.plans)
    pub status : text_eq plan.status (codes "testnet_executed") ≡ false
    pub plans : w.session.live.plans ≡ v.session.live.plans ++ plan ∷ []
    pub positions : w.session.live.positions ≡ v.session.live.positions
    pub committed : w.session.saved ≡ w.session.live

  planned-IsConsistent :
      (v w : World F) → IsPlanned v w → IsConsistent v.session.live → IsConsistent w.session.live
  planned-IsConsistent v w e h =
      let plans = v.session.live.plans in
      let size = length-append plans (e.plan ∷ []) in
      record {
        numbered = rw e.plans (append-IsNumbered plans e.plan h.numbered e.id);
        known = λ i above. rw e.positions (h.known i (omega (arith, size, rw e.plans at above)));
        rowed = rw e.positions h.rowed;
        once = rw e.positions h.once;
        held = λ i p found.
            rw e.positions (elim (find_plan-append i p e.plan plans (rw e.plans at found)) [
              | inl old ↦ h.held i p old
              | inr (own, is) ↦ rw (sym is, e.status) (h.known i (omega (arith, e.id)))
            ]);
      }

  committed-IsSafe :
      (w : World F) → w.session.saved ≡ w.session.live → IsConsistent w.session.live → IsSafe w
  committed-IsSafe w e h = record { live = h; saved = rw e h }

  refused-IsSafe :
      (v w : World F) (reply : Reply Failure Entry)
      → IsSafe v
      → IsRefused v.session reply w
      → IsSafe w
  refused-IsSafe v w reply h r =
      committed-IsSafe w r.committed
        (same-IsConsistent v.session.live w.session.live r.plans r.positions h.live)

module _ {F : Type 0} ⦃f : Float F⦄ where
  execute-IsSafe :
      (i : ℕ) (v w : World F) (reply : Reply Failure Entry)
      → IsSafe v
      → EntryOutcome i v reply w
      → IsSafe w
  execute-IsSafe i v w reply h (missing found is same) = rw same h
  execute-IsSafe i v w reply h (kept_out r n) = refused-IsSafe v w reply h r
  execute-IsSafe i v w reply h (not_taken p ready r n) = refused-IsSafe v w reply h r
  execute-IsSafe i v w reply h (entered p ready e n) =
      committed-IsSafe w e.committed (enter-IsConsistent v w i p reply h.live ready e)

  sync-IsSafe :
      (i : ℕ) (v w : World F) (reply : Reply Failure Sync)
      → IsSafe v
      → SyncOutcome i v reply w
      → IsSafe w
  sync-IsSafe i v w reply h (kept k) =
      let live = Marks-IsConsistent v.session.live w.session.live h.live k.plans k.positions in
      elim k.saved [
        | inl e ↦ record { live = live; saved = rw e h.saved }
        | inr e ↦ committed-IsSafe w e live
      ]
  sync-IsSafe i v w reply h (closed p x found unclosed last c) =
      committed-IsSafe w c.committed (close-IsConsistent v w p x reply h.live last c)

  module _ (service : TestnetService F) where
    pure-IsSafe : {A : Type 0} (a : A) → Ends (IsSafe {F = F}) (λ _. IsSafe) (pure a)
    unfolding pure
    pure-IsSafe a = record { at = λ w h. h }

    sync_failed-IsSafe : (i : ℕ) (e : Failure) → Ends IsSafe (λ _. IsSafe) (sync_failed service i e)
    unfolding sync_failed ◌>>=◌
    sync_failed-IsSafe i e = record {
      at = λ w h. committed-IsSafe (sync_failed service i e w).1 refl (
          same-IsConsistent w.session.live (sync_failed service i e w).1.session.live refl refl
            h.live);
    }

    sync_raised-IsSafe : (i : ℕ) (e : Failure) → Ends IsSafe (λ _. IsSafe) (sync_raised service i e)
    unfolding sync_raised
    sync_raised-IsSafe i e = search (Ends-if, pure-IsSafe, sync_failed-IsSafe)

    sync_item-IsSafe : (i : ℕ) → Ends IsSafe (λ _. IsSafe) (sync_item service i)
    unfolding sync_item pure
    sync_item-IsSafe i =
        Ends-keeps (sync_exit_orders service i) _
          (record { at = λ v h. sync-IsSafe i v _ _ h (sync_exit_orders-Outcome service i v) })
          λ reply.
            Ends-caught reply (sync_raised service i) (λ r. pure (some (synced i r)))
              (sync_raised-IsSafe i) λ r _. record { at = λ w h. h }

    sync_items-IsSafe : (is : List ℕ) → Ends IsSafe (λ _. IsSafe) (sync_items service is)
    unfolding sync_items
    sync_items-IsSafe [] = pure-IsSafe []
    sync_items-IsSafe (i ∷ is) = Ends-keeps (sync_item service i) _ (sync_item-IsSafe i) λ item.
        Ends-keeps (sync_items service is) (λ rest. pure (from_option item rest λ x. x ∷ rest))
          (sync_items-IsSafe is) λ rest. pure-IsSafe _

    sweep-IsSafe : Ends IsSafe (λ _. IsSafe) (sync_open_testnet_exits service)
    unfolding sync_open_testnet_exits ◌>>=◌
    sweep-IsSafe = record {
      at = λ w h. (sync_items-IsSafe (distinct (plan_ids w.session.live.positions))).at w h;
    }

  -- A call of the service, a plan of another service, or the end of a session without a commit.
  pub data Step (v w : World F) : Type 0 where
    execute :
        (service : TestnetService F) (i : ℕ) (reply : Reply Failure Entry)
        → execute_on_testnet service i v ≡ (reply, w)
        → Step v w
    sync :
        (service : TestnetService F) (i : ℕ) (reply : Reply Failure Sync)
        → sync_exit_orders service i v ≡ (reply, w)
        → Step v w
    sweep :
        (service : TestnetService F) (result : Sweep)
        → sync_open_testnet_exits service v ≡ (result, w)
        → Step v w
    create : IsPlanned v w → Step v w
    discard : w ≡ record v { session = rollback v.session } → Step v w

  pub data Runs (v : World F) : World F → Type 0 where
    start : Runs v v
    next : {w u : World F} → Runs v w → Step w u → Runs v u

  Step-IsSafe : (v w : World F) → IsSafe v → Step v w → IsSafe w
  Step-IsSafe v w h (execute service i reply e) =
      rw (ap (λ x. x.1) e) at (execute-IsSafe i v _ _ h (execute_on_testnet-Outcome service i v))
  Step-IsSafe v w h (sync service i reply e) =
      rw (ap (λ x. x.1) e) at (sync-IsSafe i v _ _ h (sync_exit_orders-Outcome service i v))
  Step-IsSafe v w h (sweep service result e) =
      rw (ap (λ x. x.1) e) at ((sweep-IsSafe service).at v h)
  Step-IsSafe v w h (create e) = committed-IsSafe w e.committed (planned-IsConsistent v w e h.live)
  Step-IsSafe v w h (discard e) = rw e (record { live = h.saved; saved = h.saved })

  runs-IsSafe : (v w : World F) → IsSafe v → Runs v w → IsSafe w
  runs-IsSafe v w h start = h
  runs-IsSafe v w h (next {w = u} run step) = Step-IsSafe u w (runs-IsSafe v u h run) step

  -- the empty database, before any call
  abbrev pub empty_world : World F
  empty_world = record { session = empty_session; calls = [] }

  empty-IsConsistent : IsConsistent empty_world.session.live
  unfolding find_plan select
  empty-IsConsistent = record {
    numbered = tt;
    known = λ i above. refl;
    rowed = tt;
    once = λ symbol side. omega arith;
    held = λ i p found. ground arith;
  }

  -- After any run from an empty database, whatever the exchange answers, no symbol and side has two open testnet
  -- positions in the database, and a plan there has exactly one open testnet position if its status is
  -- testnet_executed and none otherwise.
  pub runs_hold_once :
      (w : World F)
      → Runs empty_world w
      → ((symbol side : Text) → count (is_open_at symbol side) w.session.saved.positions ≤ 1)
        × ((i : ℕ) (p : TradePlan F)
            → find_plan i w.session.saved.plans ≡ some p
            → count (is_open_of i) w.session.saved.positions
              ≡ bit (text_eq p.status (codes "testnet_executed")))
  runs_hold_once w run =
      let safe =
        runs-IsSafe empty_world w (record { live = empty-IsConsistent; saved = empty-IsConsistent })
          run in
      (safe.saved.once, safe.saved.held)

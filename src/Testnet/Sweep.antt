-- ===== src/Testnet/Sweep.antt =====
-- apps/api/app/services/testnet_trading_service.py: `sync_open_testnet_exits`, which synchronizes every plan with
-- an open testnet position, whatever one of them raises.
use binance_futures_algo_bot.Testnet.Exit.{sync_exit_orders}
use binance_futures_algo_bot.Db.{Position}
use binance_futures_algo_bot.Testnet.LocalExit.{
  no_triggered_exit, exit, local_exit, not_synced, Sync,
}
use binance_futures_algo_bot.Float.{Float}
use binance_futures_algo_bot.Common.Texts.{codes, text_eq}
use binance_futures_algo_bot.Testnet.Exchange.{
  commit_tables, new_message, value_error, other_error, log_risk_event, caught, tables,
  runtime_error, pure, from_option, Act, TestnetService, FailureKind, Failure, ◌>>=◌, ◌>>◌,
}
use binance_futures_algo_bot.Risk.Schemas.{warning, text, whole}
use binance_futures_algo_bot.Common.{
  ◌==◌, length, is_empty, [], ◌&&◌, not, Option, true, select, if◌then◌else◌, ◌∷◌, false, ℕ, List,
  Bool, none, some,
}

-- an item of `results`: a plan with the result of its synchronization, or with the reason sync_item_failed
pub data SweepItem : Type 0 where
  synced : ℕ → Sync → SweepItem
  sync_item_failed : ℕ → SweepItem

-- the dict that `sync_open_testnet_exits` returns
pub record Sweep : Type 0 where
  pub open_trade_plan_count : ℕ
  pub checked_count : ℕ
  pub triggered_count : ℕ
  pub results : List SweepItem

-- `item.get("triggered_order_type")`
unfoldable pub is_triggered : Sync → Bool
is_triggered (not_synced reason) = false
is_triggered no_triggered_exit = false
is_triggered (local_exit trigger id) = true
is_triggered (exit order_type sibling) = not (is_empty order_type)

unfoldable pub is_triggered_item : SweepItem → Bool
unfolding is_triggered
is_triggered_item (synced i result) = is_triggered result
is_triggered_item (sync_item_failed i) = false

-- `exc` is a `ValueError`
abbrev is_value_kind : FailureKind → Bool
is_value_kind runtime_error = false
is_value_kind value_error = true
is_value_kind other_error = false

abbrev pub is_value_error : Failure → Bool
is_value_error e = is_value_kind e.kind

-- `.distinct()` of the ids that are there, in the order of their first rows
unfoldable pub distinct : List ℕ → List ℕ
distinct [] = []
distinct (i ∷ is) = i ∷ select (λ j. not (j == i)) (distinct is)

module _ {F : Type 0} where
  unfoldable pub is_open : Position F → Bool
  unfolding text_eq
  is_open p = text_eq p.status (codes "open") && p.is_testnet

  -- the plans of the open testnet positions that have one
  unfoldable pub plan_ids : List (Position F) → List ℕ
  unfolding is_open
  plan_ids [] = []
  plan_ids (p ∷ ps) =
      let rest = plan_ids ps in
      if is_open p then from_option p.trade_plan_id rest (λ i. i ∷ rest) else rest

module _ {F : Type 0} ⦃f : Float F⦄ (service : TestnetService F) where
  unfoldable pub sync_failed : ℕ → Failure → Act F (Option SweepItem)
  unfolding ◌>>=◌
  sync_failed i e = do
    log_risk_event service.now i "testnet_open_exits_sync_item_failed" warning
        (new_message "Falló la sincronización de exits para trade plan {}: {}"
          (whole i ∷ text e.text ∷ []))
        (("trade_plan_id", whole i) ∷ ("exception_type", text e.type_name) ∷ [])
    commit_tables
    pure (some (sync_item_failed i))

  -- the two handlers of the loop: `none` is `continue` without a result
  unfoldable pub sync_raised : ℕ → Failure → Act F (Option SweepItem)
  unfolding sync_failed ◌>>=◌
  sync_raised i e = if is_value_error e then pure none else sync_failed i e

  unfoldable pub sync_item : ℕ → Act F (Option SweepItem)
  unfolding sync_exit_orders sync_raised ◌>>=◌
  sync_item i = do
    reply ← sync_exit_orders service i
    caught reply (sync_raised i) λ result. pure (some (synced i result))

  unfoldable pub sync_items : List ℕ → Act F (List SweepItem)
  unfolding sync_item ◌>>=◌
  sync_items [] = pure []
  sync_items (i ∷ is) = do
    item ← sync_item i
    rest ← sync_items is
    pure (from_option item rest λ x. x ∷ rest)

  -- `BinanceTestnetTradingService.sync_open_testnet_exits`
  unfoldable pub sync_open_testnet_exits : Act F Sweep
  unfolding distinct plan_ids sync_items is_triggered_item ◌>>=◌
  sync_open_testnet_exits = do
    t ← tables
    let ids = distinct (plan_ids t.positions)
    results ← sync_items ids
    pure (record {
      open_trade_plan_count = length ids;
      checked_count = length results;
      triggered_count = length (select is_triggered_item results);
      results = results;
    })

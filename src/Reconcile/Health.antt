-- ===== src/Reconcile/Health.antt =====
-- When a plan is reported healthy.
use binance_futures_algo_bot.Common.{
  [], if◌then◌else◌, ◌++◌, is_empty-append, ◌||◌, ◌&&◌, is_empty-length, refl, not, is_empty-select,
  arith, ◌⊎◌, ◌≤◌, select, length, false, ◌↔◌, is_empty, true, ◌≡◌, any, Bool, List,
}
use binance_futures_algo_bot.Float.{Float}
use binance_futures_algo_bot.Db.{TradePlan, Order, Position}
use binance_futures_algo_bot.Reconcile.{
  rejected_drift, multiple_drift, drifts, drift_if, position_drift, missing_fill, Drift,
  is_rejected, is_protection, is_executed, has_status, is_filled, reconcile_loaded_trade_plan,
}

drift_if-empty : (b : Bool) (d : Drift) → is_empty (drift_if b d) ≡ not b
drift_if-empty true d = refl
drift_if-empty false d = refl

guarded-empty :
    (b : Bool) (fill own multiple rejected : List Drift)
    → is_empty ((if b then fill ++ own else []) ++ multiple ++ rejected)
      ≡ ((not b || is_empty fill && is_empty own) && is_empty multiple && is_empty rejected)
guarded-empty true fill own multiple rejected = ground (
  arith,
  is_empty-append (fill ++ own) (multiple ++ rejected),
  is_empty-append fill own,
  is_empty-append multiple rejected,
)
guarded-empty false fill own multiple rejected = is_empty-append multiple rejected

module _ {F : Type 0} ⦃f : Float F⦄ where
  -- What an executed plan must have.
  pub record IsSettled (orders : List (Order F)) (positions : List (Position F)) : Type 0 where
    pub filled : any is_filled orders ≡ true
    pub associated : is_empty positions ≡ false
    pub followed :
        (length (select (has_status "open") positions) ≡ 0)
          × (any (has_status "closed") positions ≡ false)
        ⊎ (1 ≤ length (select (has_status "open") positions))
          × (2 ≤ length (select is_protection orders))
    pub unrejected : any is_rejected orders ≡ false

  missing_fill-empty :
      (orders : List (Order F))
      → is_empty (missing_fill (select is_filled orders)) ≡ any is_filled orders
  unfolding missing_fill
  missing_fill-empty orders =
      ground (
        arith,
        drift_if-empty (is_empty (select is_filled orders)),
        is_empty-select is_filled orders,
      )

  position_drift-empty :
      (protection : List (Order F)) (positions : List (Position F))
      → (is_empty (position_drift protection positions) ≡ true) ↔ (
          (is_empty positions ≡ false)
          × ((length (select (has_status "open") positions) ≡ 0)
                × (any (has_status "closed") positions ≡ false)
              ⊎ (1 ≤ length (select (has_status "open") positions)) × (2 ≤ length protection)))
  unfolding position_drift
  position_drift-empty protection positions = ground (
    arith,
    is_empty-length (select (has_status "open") positions),
    is_empty-select (has_status "closed") positions,
  )

  multiple_drift-empty :
      (open_positions : List (Position F))
      → (is_empty (multiple_drift open_positions) ≡ true) ↔ (length open_positions ≤ 1)
  unfolding multiple_drift
  multiple_drift-empty open_positions = ground arith

  rejected_drift-empty :
      (plan : TradePlan F) (orders : List (Order F))
      → is_empty (rejected_drift plan orders) ≡ not (any is_rejected orders && is_executed plan)
  unfolding rejected_drift
  rejected_drift-empty plan orders = drift_if-empty (any is_rejected orders && is_executed plan) _

  drifts-empty :
      (plan : TradePlan F) (orders : List (Order F)) (positions : List (Position F))
      → is_empty (drifts plan orders positions) ≡ (
          (not (is_executed plan)
            || is_empty (missing_fill (select is_filled orders))
              && is_empty (position_drift (select is_protection orders) positions))
          && is_empty (multiple_drift (select (has_status "open") positions))
          && is_empty (rejected_drift plan orders))
  unfolding drifts
  drifts-empty plan orders positions =
      guarded-empty (is_executed plan) (missing_fill (select is_filled orders))
        (position_drift (select is_protection orders) positions)
        (multiple_drift (select (has_status "open") positions)) (rejected_drift plan orders)

  -- A report is healthy exactly if the plan has at most one open position and, when its status is one
  -- of the executed ones, it has a filled order, a position, no rejected order, and either an open
  -- position with two protection orders or more, or neither an open nor a closed position.
  pub healthy_iff :
      (plan : TradePlan F) (orders : List (Order F)) (positions : List (Position F))
      → ((reconcile_loaded_trade_plan plan orders positions).healthy ≡ true) ↔ (
          (length (select (has_status "open") positions) ≤ 1)
          × ((is_executed plan ≡ false) ⊎ IsSettled orders positions))
  unfolding reconcile_loaded_trade_plan
  healthy_iff plan orders positions = ground (
    arith,
    drifts-empty plan orders positions,
    missing_fill-empty orders,
    position_drift-empty (select is_protection orders) positions,
    multiple_drift-empty (select (has_status "open") positions),
    rejected_drift-empty plan orders,
  )

-- ===== src/Reconcile.antt =====
-- apps/api/app/services/execution_state_machine_service.py: how the status of a trade plan drifts from
-- its orders and positions.
pub mod Health
pub mod Rows
mod Tests
use binance_futures_algo_bot.Common.{
  false, none, some, Option, ◌==◌, leb, ◌||◌, not, map, ◌++◌, ◌&&◌, length, [], ◌∷◌, select, ltb,
  is_empty, if◌then◌else◌, any, String, ℕ, Bool, List,
}
use binance_futures_algo_bot.Common.Texts.{Text, codes, text_eq, text_in}
use binance_futures_algo_bot.Risk.Schemas.{warning, critical, Severity}
use binance_futures_algo_bot.Float.{nought, Float, ◌<?◌}
use binance_futures_algo_bot.Db.{find_plan, Tables, TradePlan, Order, Position, Session}

pub data ExecutionDriftType : Type 0 where
  missing_filled_order : ExecutionDriftType
  missing_position_association : ExecutionDriftType
  position_closed_but_plan_still_executed : ExecutionDriftType
  multiple_open_positions : ExecutionDriftType
  executed_with_rejected_orders : ExecutionDriftType
  missing_exit_protection : ExecutionDriftType

pub record ExecutionDriftEvent : Type 0 where
  pub event_type : ExecutionDriftType
  pub severity : Severity
  pub message : String

pub record ReconciliationReport : Type 0 where
  pub trade_plan_id : ℕ
  pub trade_plan_status : Text
  pub healthy : Bool
  pub order_count : ℕ
  pub open_position_count : ℕ
  pub filled_order_count : ℕ
  pub drift_events : List ExecutionDriftEvent
  pub recommended_actions : List String

-- An event and the action that is recommended with it.
abbrev pub Drift : Type 0
Drift = ExecutionDriftEvent × String

abbrev drift : ExecutionDriftType → Severity → String → String → Drift
drift event_type severity message action =
    (record { event_type = event_type; severity = severity; message = message }, action)

-- a drift that is found if the condition holds
abbrev pub drift_if : Bool → Drift → List Drift
drift_if b d = if b then d ∷ [] else []

abbrev pub is_of : ℕ → Option ℕ → Bool
is_of i none = false
is_of i (some j) = j == i

abbrev executed_statuses : List Text
executed_statuses = codes "testnet_executed" ∷ codes "executed" ∷ codes "paper_executed" ∷ []

module _ {F : Type 0} ⦃f : Float F⦄ where
  unfoldable pub is_executed : TradePlan F → Bool
  is_executed p = text_in p.status executed_statuses

  unfoldable pub has_status : String → Position F → Bool
  has_status status p = text_eq p.status (codes status)

  unfoldable pub is_filled : Order F → Bool
  is_filled o =
      text_in o.status (codes "filled" ∷ codes "partially_filled" ∷ [])
      || not (text_eq o.status (codes "rejected")) && (nought <? o.executed_quantity)

  unfoldable pub is_protection : Order F → Bool
  is_protection o = text_in o.order_type (codes "stop_market" ∷ codes "take_profit_market" ∷ [])

  unfoldable pub is_rejected : Order F → Bool
  is_rejected o = text_eq o.status (codes "rejected")

  unfoldable pub missing_fill : List (Order F) → List Drift
  missing_fill filled = drift_if (is_empty filled) (
      drift missing_filled_order critical "Trade plan ejecutado sin órdenes fill registradas"
        "replay_execution_audit")

  -- the `if`, `elif`, `elif` on the positions of an executed plan
  unfoldable pub position_drift : List (Order F) → List (Position F) → List Drift
  position_drift protection positions =
      let open_positions = select (has_status "open") positions in
      let closed_positions = select (has_status "closed") positions in
      if is_empty positions
      then drift missing_position_association critical
          "Trade plan ejecutado sin posición asociada registrada" "rebuild_position_state"
        ∷ []
      else if is_empty open_positions && not (is_empty closed_positions)
      then drift position_closed_but_plan_still_executed warning
          "La posición fue cerrada pero el trade plan sigue en estado ejecutado"
          "sync_trade_plan_terminal_status"
        ∷ []
      else drift_if (not (is_empty open_positions) && ltb (length protection) 2) (
          drift missing_exit_protection critical
            "La posición sigue abierta sin órdenes de protección completas (SL/TP)"
            "rebuild_exit_protection")

  unfoldable pub multiple_drift : List (Position F) → List Drift
  multiple_drift open_positions = drift_if (ltb 1 (length open_positions)) (
      drift multiple_open_positions warning
        "Hay múltiples posiciones abiertas para un mismo trade plan" "consolidate_positions")

  unfoldable pub rejected_drift : TradePlan F → List (Order F) → List Drift
  rejected_drift plan orders = drift_if (any is_rejected orders && is_executed plan) (
      drift executed_with_rejected_orders warning
        "Trade plan marcado ejecutado con órdenes rechazadas en el historial"
        "review_order_rejections")

  unfoldable pub drifts : TradePlan F → List (Order F) → List (Position F) → List Drift
  unfolding missing_fill position_drift multiple_drift rejected_drift
  drifts plan orders positions =
      (if is_executed plan
        then missing_fill (select is_filled orders)
          ++ position_drift (select is_protection orders) positions
        else [])
      ++ multiple_drift (select (has_status "open") positions)
      ++ rejected_drift plan orders

  unfoldable pub reconcile_loaded_trade_plan :
      TradePlan F → List (Order F) → List (Position F) → ReconciliationReport
  reconcile_loaded_trade_plan plan orders positions =
      let found = drifts plan orders positions in
      record {
        trade_plan_id = plan.id;
        trade_plan_status = plan.status;
        healthy = is_empty found;
        order_count = length orders;
        open_position_count = length (select (has_status "open") positions);
        filled_order_count = length (select is_filled orders);
        drift_events = map (λ d. d.0) found;
        recommended_actions = map (λ d. d.1) found;
      }

  insert_by_creation : Order F → List (Order F) → List (Order F)
  insert_by_creation o [] = o ∷ []
  insert_by_creation o (q ∷ qs) =
      let rest = insert_by_creation o qs in
      if leb o.created_at q.created_at then o ∷ q ∷ qs else q ∷ rest

  -- `order_by(Order.created_at.asc())`; orders of one time stay in the table's order
  by_creation : List (Order F) → List (Order F)
  unfolding insert_by_creation
  by_creation [] = []
  by_creation (o ∷ os) = insert_by_creation o (by_creation os)

  unfoldable pub orders_of : ℕ → Tables F → List (Order F)
  orders_of i t = select (λ o. o.trade_plan_id == i) t.orders

  -- the positions of the plan, which the table has in the order of their ids
  unfoldable pub positions_of : ℕ → Tables F → List (Position F)
  positions_of i t = select (λ p. is_of i p.trade_plan_id) t.positions

  -- the report on the plan that was found; `none` is the `ValueError`
  abbrev pub report_on :
      List (Order F) → List (Position F) → Option (TradePlan F) → Option ReconciliationReport
  report_on orders positions none = none
  report_on orders positions (some plan) = some (reconcile_loaded_trade_plan plan orders positions)

  unfoldable pub reconcile_trade_plan : ℕ → Tables F → Option ReconciliationReport
  unfolding find_plan by_creation orders_of positions_of
  reconcile_trade_plan i t =
      report_on (by_creation (orders_of i t)) (positions_of i t) (find_plan i t.plans)

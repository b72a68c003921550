-- ===== src/Reconcile/Rows.antt =====
-- A reconciliation reads the rows of its plan, and does not depend on the order of the orders.
use binance_futures_algo_bot.Common.{
  ◌≢◌, ◌∙◌, ◌++◌, ◌==◌, All, true, false, none, ap, some, Option, is_empty-length, suc,
  is_empty-select, is_empty, refl, arith, [], ◌∷◌, length, ◌≡◌, select, any, ℕ, Bool, List,
}
use binance_futures_algo_bot.Float.{Float}
use binance_futures_algo_bot.Db.{find_plan, Tables, TradePlan, Order, Position}
use binance_futures_algo_bot.Reconcile.{
  is_of, is_rejected, positions_of, is_protection, rejected_drift, orders_of, report_on,
  position_drift, missing_fill, reconcile_trade_plan, is_filled, drifts, insert_by_creation,
  by_creation, reconcile_loaded_trade_plan,
}

-- The rows of a table, in its order, are some of the own ones and some of the others.
pub data IsMixed {A : Type 0} : List A → List A → List A → Type 0 where
  no_row : IsMixed [] [] []
  own_row : {x : A} {xs ys zs : List A} → IsMixed xs ys zs → IsMixed (x ∷ xs) ys (x ∷ zs)
  other_row : {y : A} {xs ys zs : List A} → IsMixed xs ys zs → IsMixed xs (y ∷ ys) (y ∷ zs)

select-IsMixed :
    {A : Type 0} (p : A → Bool) {xs ys zs : List A}
    → IsMixed xs ys zs
    → All (λ x. p x ≡ true) xs
    → All (λ y. p y ≡ false) ys
    → select p zs ≡ xs
unfolding select
select-IsMixed p no_row h k = refl
select-IsMixed p (own_row {x} m) (h, hs) k = rw h (ap (λ l. x ∷ l) (select-IsMixed p m hs k))
select-IsMixed p (other_row {y} m) h (k, ks) = rw k (select-IsMixed p m h ks)

All-map :
    {A : Type 0} (P Q : A → Type 0) (g : (x : A) → P x → Q x) (xs : List A) → All P xs → All Q xs
All-map P Q g [] h = tt
All-map P Q g (x ∷ xs) (h, hs) = (g x h, All-map P Q g xs hs)

is_of-own : (i : ℕ) (o : Option ℕ) → o ≡ some i → is_of i o ≡ true
is_of-own i o e = ground arith

is_of-other : (i : ℕ) (o : Option ℕ) → o ≢ some i → is_of i o ≡ false
is_of-other i none e = refl
is_of-other i (some j) e = ground arith

module _ {F : Type 0} ⦃f : Float F⦄ where
  insert-length :
      (p : Order F → Bool) (o : Order F) (os : List (Order F))
      → length (select p (insert_by_creation o os)) ≡ length (select p (o ∷ os))
  unfolding insert_by_creation select
  insert-length p o [] = refl
  insert-length p o (q ∷ qs) = ground (arith, insert-length p o qs)

  sorted-length :
      (p : Order F → Bool) (os : List (Order F))
      → length (select p (by_creation os)) ≡ length (select p os)
  unfolding by_creation select
  sorted-length p [] = refl
  sorted-length p (o ∷ os) = ground (arith, insert-length p o (by_creation os), sorted-length p os)

  sorted-empty :
      (p : Order F → Bool) (os : List (Order F))
      → is_empty (select p (by_creation os)) ≡ is_empty (select p os)
  sorted-empty p os = ground (
    arith,
    sorted-length p os,
    is_empty-length (select p (by_creation os)),
    is_empty-length (select p os),
  )

  sorted-any : (p : Order F → Bool) (os : List (Order F)) → any p (by_creation os) ≡ any p os
  sorted-any p os =
      ground (arith, sorted-empty p os, is_empty-select p (by_creation os), is_empty-select p os)

  insert-total :
      (o : Order F) (os : List (Order F)) → length (insert_by_creation o os) ≡ suc (length os)
  unfolding insert_by_creation
  insert-total o [] = refl
  insert-total o (q ∷ qs) = ground (arith, insert-total o qs)

  sorted-total : (os : List (Order F)) → length (by_creation os) ≡ length os
  unfolding by_creation
  sorted-total [] = refl
  sorted-total (o ∷ os) = ground (arith, insert-total o (by_creation os), sorted-total os)

  drifts-sorted :
      (plan : TradePlan F) (os : List (Order F)) (positions : List (Position F))
      → drifts plan (by_creation os) positions ≡ drifts plan os positions
  unfolding drifts missing_fill position_drift rejected_drift
  drifts-sorted plan os positions =
      rw (sorted-empty is_filled os, sorted-length is_protection os, sorted-any is_rejected os) refl

  report-sorted :
      (plan : TradePlan F) (os : List (Order F)) (positions : List (Position F))
      → reconcile_loaded_trade_plan plan (by_creation os) positions
        ≡ reconcile_loaded_trade_plan plan os positions
  unfolding reconcile_loaded_trade_plan
  report-sorted plan os positions =
      rw (drifts-sorted plan os positions, sorted-total os, sorted-length is_filled os) refl

  -- The plan with the id `i`: the first of the table with it, or none where no row has it.
  pub data IsFound (i : ℕ) (plans : List (TradePlan F)) : Option (TradePlan F) → Type 0 where
    found :
        (before after : List (TradePlan F)) (plan : TradePlan F)
        → plans ≡ before ++ plan ∷ after
        → All (λ p. p.id ≢ i) before
        → plan.id ≡ i
        → IsFound i plans (some plan)
    missing : All (λ p. p.id ≢ i) plans → IsFound i plans none

  find_plan-after :
      (i : ℕ) (before after : List (TradePlan F)) (plan : TradePlan F)
      → All (λ p. p.id ≢ i) before
      → plan.id ≡ i
      → find_plan i (before ++ plan ∷ after) ≡ some plan
  unfolding find_plan
  find_plan-after i [] after plan h e = ground arith
  find_plan-after i (p ∷ before) after plan (h, hs) e =
      ground (arith, find_plan-after i before after plan hs e)

  find_plan-missing :
      (i : ℕ) (plans : List (TradePlan F)) → All (λ p. p.id ≢ i) plans → find_plan i plans ≡ none
  unfolding find_plan
  find_plan-missing i [] h = refl
  find_plan-missing i (p ∷ plans) (h, hs) = ground (arith, find_plan-missing i plans hs)

  find_plan-IsFound :
      (i : ℕ) (plans : List (TradePlan F)) (o : Option (TradePlan F))
      → IsFound i plans o
      → find_plan i plans ≡ o
  find_plan-IsFound i plans _ (found before after plan e h own) =
      ap (find_plan i) e ∙ find_plan-after i before after plan h own
  find_plan-IsFound i plans _ (missing h) = find_plan-missing i plans h

  orders_of-IsMixed :
      (i : ℕ) (t : Tables F) (own others : List (Order F))
      → IsMixed own others t.orders
      → All (λ o. o.trade_plan_id ≡ i) own
      → All (λ o. o.trade_plan_id ≢ i) others
      → orders_of i t ≡ own
  unfolding orders_of
  orders_of-IsMixed i t own others m h k =
      select-IsMixed (λ o. o.trade_plan_id == i) m
        (All-map (λ o. o.trade_plan_id ≡ i) _ (λ o e. ground arith) own h)
        (All-map (λ o. o.trade_plan_id ≢ i) _ (λ o e. ground arith) others k)

  positions_of-IsMixed :
      (i : ℕ) (t : Tables F) (own others : List (Position F))
      → IsMixed own others t.positions
      → All (λ p. p.trade_plan_id ≡ some i) own
      → All (λ p. p.trade_plan_id ≢ some i) others
      → positions_of i t ≡ own
  unfolding positions_of
  positions_of-IsMixed i t own others m h k =
      select-IsMixed (λ p. is_of i p.trade_plan_id) m
        (All-map (λ p. p.trade_plan_id ≡ some i) _ (λ p e. is_of-own i p.trade_plan_id e) own h)
        (All-map (λ p. p.trade_plan_id ≢ some i) _ (λ p e. is_of-other i p.trade_plan_id e) others
          k)

  report_on-sorted :
      (own : List (Order F)) (mine : List (Position F)) (o : Option (TradePlan F))
      → report_on (by_creation own) mine o ≡ report_on own mine o
  report_on-sorted own mine none = refl
  report_on-sorted own mine (some plan) = ap some (report-sorted plan own mine)

  -- The report on the plan `i` is that on its row, its own orders and its own positions, however the
  -- tables mix these with the rows of other plans and with positions of no plan, and whatever the times
  -- of the orders are, by which they are read. There is none if no plan has the id.
  pub reconcile_trade_plan-IsFound :
      (i : ℕ) (t : Tables F) (plan : Option (TradePlan F)) (own others : List (Order F))
      (mine theirs : List (Position F))
      → IsFound i t.plans plan
      → IsMixed own others t.orders
      → All (λ o. o.trade_plan_id ≡ i) own
      → All (λ o. o.trade_plan_id ≢ i) others
      → IsMixed mine theirs t.positions
      → All (λ p. p.trade_plan_id ≡ some i) mine
      → All (λ p. p.trade_plan_id ≢ some i) theirs
      → reconcile_trade_plan i t ≡ report_on own mine plan
  unfolding reconcile_trade_plan
  reconcile_trade_plan-IsFound i t plan own others mine theirs f mo ho ko mp hp kp =
      rw
        (
          find_plan-IsFound i t.plans plan f,
          orders_of-IsMixed i t own others mo ho ko,
          positions_of-IsMixed i t mine theirs mp hp kp,
        )
        (report_on-sorted own mine plan)

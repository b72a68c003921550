-- ===== src/Testnet/Protects.antt =====
-- What `_place_protection_orders` of apps/api/app/services/testnet_trading_service.py returns.
use binance_futures_algo_bot.Risk.Schemas.{Value}
use binance_futures_algo_bot.Testnet.Outcome.{AreProtections}
use binance_futures_algo_bot.Common.Texts.{Text}
use binance_futures_algo_bot.Db.{TradePlan, Order}
use binance_futures_algo_bot.Testnet.Payload.{Payload}
use binance_futures_algo_bot.Testnet.Place.{
  tick_size, neither, stop_only, both, of_attempt, protection_order, protection_of, Protection,
  submit_legacy, submit_algo, place_protection_orders, place_legacy, place_algo, log_submitted,
  log_orders_failed, fall_back, Attempt,
}
use binance_futures_algo_bot.Testnet.Ends.{Returns-if, Returns, returns_rules}
use binance_futures_algo_bot.Float.{Float}
use binance_futures_algo_bot.Testnet.Exchange.{Failure, Act, TestnetService, ◌>>=◌}
use binance_futures_algo_bot.Common.{◌&&◌, refl, Bool, String, List, some}

module _ {F : Type 0} ⦃f : Float F⦄ (service : TestnetService F) where
  log_submitted-Returns :
      (p : Protection F) (stop take_profit : Order F)
      → AreProtections p.plan (some (stop, take_profit))
      → Returns (AreProtections p.plan) (log_submitted service p stop take_profit)
  unfolding log_submitted
  log_submitted-Returns p stop take_profit h = search returns_rules

  log_orders_failed-Returns :
      (p : Protection F) (e : Failure) (more : List (String × Value F))
      → Returns (AreProtections p.plan) (log_orders_failed service p e more)
  unfolding log_orders_failed ◌>>=◌
  log_orders_failed-Returns p e more = record { at = λ w. tt }

  submit_algo-Returns :
      (p : Protection F) (stop take_profit : Payload F)
      → Returns (AreProtections p.plan) (submit_algo service p stop take_profit)
  unfolding submit_algo protection_order
  submit_algo-Returns p stop take_profit =
      log_submitted-Returns p _ _
        (record { of_plan = refl; of_type = refl }, record { of_plan = refl; of_type = refl })

  submit_legacy-Returns :
      (p : Protection F) (stop take_profit : Payload F)
      → Returns (AreProtections p.plan) (submit_legacy service p stop take_profit)
  unfolding submit_legacy protection_order
  submit_legacy-Returns p stop take_profit =
      log_submitted-Returns p _ _
        (record { of_plan = refl; of_type = refl }, record { of_plan = refl; of_type = refl })

  of_attempt-Returns :
      {B : Type 0} (Q : B → Type 0) (a : Attempt F) (ok : Payload F → Payload F → Act F B)
      (bad : Failure → Act F B)
      → ((p q : Payload F) → Returns Q (ok p q))
      → ((e : Failure) → Returns Q (bad e))
      → Returns Q (of_attempt a ok bad)
  of_attempt-Returns Q (both p q) ok bad hok hbad = hok p q
  of_attempt-Returns Q (stop_only p e) ok bad hok hbad = hbad e
  of_attempt-Returns Q (neither e) ok bad hok hbad = hbad e

  ruleset protection_rules = (
    returns_rules, log_orders_failed-Returns, submit_algo-Returns, submit_legacy-Returns,
    of_attempt-Returns,
  )

  fall_back-Returns :
      (p : Protection F) (e : Failure) (results : List (Text × Bool))
      → Returns (AreProtections p.plan) (fall_back service p e results)
  unfolding fall_back
  fall_back-Returns p e results = search protection_rules

  place_algo-Returns : (p : Protection F) → Returns (AreProtections p.plan) (place_algo service p)
  unfolding place_algo
  place_algo-Returns p = search (protection_rules, fall_back-Returns)

  place_legacy-Returns :
      (p : Protection F) → Returns (AreProtections p.plan) (place_legacy service p)
  unfolding place_legacy
  place_legacy-Returns p = search protection_rules

  -- Both protection orders are the plan's, or there are none.
  pub place_protection_orders-Returns :
      (plan : TradePlan F) (exit_side id : Text) (price mark : F)
      → Returns (AreProtections plan) (place_protection_orders service plan exit_side id price mark)
  unfolding place_protection_orders protection_of ◌>>=◌
  place_protection_orders-Returns plan exit_side id price mark = record {
    at = λ w.
        let (tick, v) = tick_size service plan.symbol w in
        let p = protection_of service plan exit_side id price mark tick in
        (Returns-if
            (service.exchange.has_place_stop_market_algo_order
              && service.exchange.has_place_take_profit_market_algo_order)
            (place_algo service p) (place_legacy service p) (place_algo-Returns p)
            (place_legacy-Returns p)).at
          v;
  }

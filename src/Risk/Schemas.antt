-- ===== src/Risk/Schemas.antt =====
-- apps/api/app/schemas/trading.py: the inputs and results of the risk engine, and the bounds that
-- pydantic checks when a portfolio state or a decision is built.
use binance_futures_algo_bot.Common.{
  ◌≡◌, refl, ◌⊎◌, inl, inr, arith, Bool, true, ◌&&◌, Option, none, some, List, String, not, ℕ,
  if◌then◌else◌,
}
use binance_futures_algo_bot.Common.Texts.{Text}
use binance_futures_algo_bot.Common.Json.{Json}
use binance_futures_algo_bot.Float.{Float, ◌≤?◌, ◌<?◌, dec, nought}

-- The exceptions that an evaluation may raise: pydantic's, and the `RuntimeError` of the engine.
pub data Error : Type 0 where
  validation_error : Error
  invariant_error : Error

pub data Result (A : Type 0) : Type 0 where
  ok : A → Result A
  err : Error → Result A

infixl 5 ◌>>=◌
abbrev pub ◌>>=◌ : {A B : Type 0} → Result A → (A → Result B) → Result B
ok a >>= k = k a
err e >>= k = err e

-- Where a chain of fallible steps ends.
pub >>=-eq-ok :
    {A B : Type 0} (m : Result A) (k : A → Result B) {b : B}
    → (m >>= k) ≡ ok b
    → (a : A) × (m ≡ ok a) × (k a ≡ ok b)
>>=-eq-ok (ok a) k h = (a, refl, h)
>>=-eq-ok (err e) k h = cc

pub >>=-cases :
    {A B : Type 0} (m : Result A) (k : A → Result B) {e : Error}
    → (m >>= k) ≡ err e
    → (m ≡ err e) ⊎ ((a : A) × (m ≡ ok a) × (k a ≡ err e))
>>=-cases (ok a) k h = inr (a, refl, h)
>>=-cases (err e) k h = inl (ground arith)

pub data Side : Type 0 where
  long short : Side

pub data Severity : Type 0 where
  info warning critical : Severity

-- The six names that the engine gives to a market regime.
pub data Regime : Type 0 where
  tendencia_alcista tendencia_bajista rango_lateral transicion alta_volatilidad unknown : Regime

pub data Cluster : Type 0 where
  btc_core eth_core large_alt alts : Cluster

pub record SignalSnapshot (F : Type 0) : Type 0 where
  pub technical : F
  pub fundamental : F
  pub sentiment : F
  pub confidence : F

pub record MarketState (F : Type 0) : Type 0 where
  pub symbol : Text
  pub timeframe : Text
  pub volatility_pct : F
  pub trend_strength : F
  pub liquidity_score : F
  pub market_regime : Option Text
  pub regime_confidence : Option F

pub record PositionExposure (F : Type 0) : Type 0 where
  pub symbol : Text
  pub side : Side
  pub notional_usdt : F
  pub risk_pct : F

pub record PortfolioState (F : Type 0) : Type 0 where
  pub positions : List (PositionExposure F)
  pub max_portfolio_risk_pct : F
  pub max_cluster_risk_pct : F
  pub max_symbol_risk_pct : F
  pub correlation_guard_enabled : Bool

-- A value in the `context` dict of an event.
pub data Value (F : Type 0) : Type 0 where
  number : F → Value F
  text : Text → Value F
  cluster : Cluster → Value F
  regime : Regime → Value F
  optional : Option F → Value F
  whole : ℕ → Value F
  json : Json F → Value F
  -- the list of dicts of an order's `external_order_id` and whether it was `canceled`
  cleanups : List (Text × Bool) → Value F

pub record RiskEventDetail (F : Type 0) : Type 0 where
  pub event_type : String
  pub severity : Severity
  pub message : String
  pub context : List (String × Value F)

pub record RiskDecision (F : Type 0) : Type 0 where
  pub approved : Bool
  pub max_position_notional : F
  pub suggested_risk_pct : F
  pub reason : String
  pub market_regime : Regime
  pub score : F
  pub regime_confidence : Option F
  pub portfolio_risk_pct_before : Option F
  pub portfolio_risk_pct_after : Option F
  pub cluster_key : Option Cluster
  pub cluster_risk_pct_before : Option F
  pub cluster_risk_pct_after : Option F
  pub symbol_risk_pct_before : Option F
  pub symbol_risk_pct_after : Option F
  pub correlation_multiplier : Option F
  pub final_gate_score : Option F
  pub final_gate_passed : Option Bool
  pub final_gate_reason : Option String
  pub final_gate_pre_rejected_by_engine : Option Bool
  pub triggered_breakers : List String
  pub risk_events : List (RiskEventDetail F)

module _ {F : Type 0} ⦃f : Float F⦄ where
  -- `Field(ge=0, le=hi)`
  abbrev pub within : F → F → Bool
  within hi x = (nought ≤? x) && (x ≤? hi)

  -- the same for `float | None`
  abbrev pub within? : F → Option F → Bool
  within? hi none = true
  within? hi (some x) = within hi x

  -- `Field(gt=0, le=100)`
  abbrev is_limit : F → Bool
  is_limit x = (nought <? x) && (x ≤? dec 100 0)

  -- the fields' bounds and `validate_risk_limit_hierarchy`
  unfoldable pub portfolio_state_valid : PortfolioState F → Bool
  portfolio_state_valid p =
      is_limit p.max_portfolio_risk_pct
      && is_limit p.max_cluster_risk_pct
      && is_limit p.max_symbol_risk_pct
      && not (p.max_cluster_risk_pct <? p.max_symbol_risk_pct)
      && not (p.max_portfolio_risk_pct <? p.max_cluster_risk_pct)

  unfoldable pub new_portfolio_state : PortfolioState F → Result (PortfolioState F)
  unfolding portfolio_state_valid
  new_portfolio_state p = if portfolio_state_valid p then ok p else err validation_error

  unfoldable pub risk_decision_valid : RiskDecision F → Bool
  risk_decision_valid d =
      within? (dec 100 0) d.regime_confidence
      && within? (dec 100 0) d.portfolio_risk_pct_before
      && within? (dec 100 0) d.portfolio_risk_pct_after
      && within? (dec 100 0) d.cluster_risk_pct_before
      && within? (dec 100 0) d.cluster_risk_pct_after
      && within? (dec 100 0) d.symbol_risk_pct_before
      && within? (dec 100 0) d.symbol_risk_pct_after
      && within? (dec 1 0) d.correlation_multiplier

  unfoldable pub new_risk_decision : RiskDecision F → Result (RiskDecision F)
  new_risk_decision d = if risk_decision_valid d then ok d else err validation_error

-- ===== src/Gate.antt =====
-- The final gate (apps/api/app/services/final_decision_gate.py): circuit breakers and a composite
-- score over the decision of the risk engine.
pub mod Outcome
pub mod Tests
use binance_futures_algo_bot.Risk.Sizing.{liquidity_weight}
use binance_futures_algo_bot.Risk.Regime.{clamp_pct}
use binance_futures_algo_bot.Risk.Schemas.{
  critical, Value, warning, number, info, MarketState, RiskEventDetail, RiskDecision,
}
use binance_futures_algo_bot.Common.{
  ◌∷◌, [], ◌++◌, if◌then◌else◌, Bool, true, false, Option, none, some, List, String, map,
}
use binance_futures_algo_bot.Float.{◌⊗◌, ◌⊕◌, ◌≤?◌, round_to, dec, Float, ◌⊖◌, ◌<?◌, nought}

pub record FinalGatePolicy (F : Type 0) : Type 0 where
  pub min_final_score : F
  pub extreme_volatility_pct : F
  pub min_liquidity_score : F
  pub max_portfolio_risk_pct : F
  pub min_regime_confidence : F

pub record FinalGateDecision (F : Type 0) : Type 0 where
  pub passed : Bool
  pub final_score : F
  pub reason : String
  pub triggered_breakers : List String
  pub events : List (RiskEventDetail F)
  pub pre_rejected_by_engine : Bool

-- A gate holds its policy and the weight that the engine gives to liquidity.
pub record FinalDecisionGate (F : Type 0) : Type 0 where
  pub policy : FinalGatePolicy F
  pub liquidity_weight : F

abbrev or_default {ℓ} : {A : Type ℓ} → Option A → A → A
or_default none own = own
or_default (some given) own = given

module _ {F : Type 0} ⦃f : Float F⦄ where
  abbrev pub default_gate_policy : FinalGatePolicy F
  default_gate_policy = record {
    min_final_score = dec 650 1;
    extreme_volatility_pct = dec 60 1;
    min_liquidity_score = dec 200 1;
    max_portfolio_risk_pct = dec 48 1;
    min_regime_confidence = dec 300 1;
  }

  -- `__init__`: the weight given, or that of the engine, which is one constant of its class
  unfoldable pub new_gate : Option (FinalGatePolicy F) → Option F → FinalDecisionGate F
  new_gate policy weight = record {
    policy = or_default policy default_gate_policy;
    liquidity_weight = or_default weight liquidity_weight;
  }

  -- the three summands of the final score
  unfoldable pub score_components : FinalDecisionGate F → RiskDecision F → MarketState F → F × F × F
  score_components gate d m =
      let base = clamp_pct (d.score ⊖ m.liquidity_score ⊗ gate.liquidity_weight) in
      (base ⊗ dec 5 1, or_default d.regime_confidence nought ⊗ dec 3 1, m.liquidity_score ⊗ dec 2 1)

  unfoldable pub final_score : FinalDecisionGate F → RiskDecision F → MarketState F → F
  unfolding score_components
  final_score gate d m =
      let (score, regime, liquidity) = score_components gate d m in
      round_to 2 (score ⊕ regime ⊕ liquidity)

  -- a name for `triggered_breakers`, and the event that goes with it
  breaker : String → String → String → List (String × Value F) → String × RiskEventDetail F
  breaker name event_type message context = (
    name,
    record { event_type = event_type; severity = critical; message = message; context = context },
  )

  volatility_breaker : F → F → String × RiskEventDetail F
  unfolding breaker
  volatility_breaker volatility threshold =
      breaker "extreme_volatility" "circuit_breaker_extreme_volatility"
        "Circuit breaker activado por volatilidad extrema"
        (("volatility_pct", number volatility) ∷ ("threshold", number threshold) ∷ [])

  liquidity_breaker : F → F → String × RiskEventDetail F
  unfolding breaker
  liquidity_breaker liquidity threshold =
      breaker "low_liquidity" "circuit_breaker_low_liquidity"
        "Circuit breaker activado por liquidez crítica"
        (("liquidity_score", number liquidity) ∷ ("threshold", number threshold) ∷ [])

  portfolio_breakers : F → Option F → List (String × RiskEventDetail F)
  unfolding breaker
  portfolio_breakers threshold none =
      breaker "portfolio_risk_unknown" "circuit_breaker_portfolio_risk_unknown"
        "Circuit breaker activado por riesgo de portafolio desconocido"
        (("threshold", number threshold) ∷ [])
      ∷ []
  portfolio_breakers threshold (some after) =
      if threshold ≤? after
      then breaker "portfolio_overheat" "circuit_breaker_portfolio_overheat"
          "Circuit breaker activado por sobrecalentamiento de portafolio"
          (("portfolio_risk_pct_after", number after) ∷ ("threshold", number threshold) ∷ [])
        ∷ []
      else []

  confidence_breakers : F → Option F → List (String × RiskEventDetail F)
  unfolding breaker
  confidence_breakers threshold none =
      breaker "regime_confidence_unknown" "circuit_breaker_regime_confidence_unknown"
        "Circuit breaker activado por confianza de régimen desconocida"
        (("threshold", number threshold) ∷ [])
      ∷ []
  confidence_breakers threshold (some confidence) =
      if confidence ≤? threshold
      then breaker "regime_uncertainty" "circuit_breaker_regime_uncertainty"
          "Circuit breaker activado por incertidumbre de régimen"
          (("regime_confidence", number confidence) ∷ ("threshold", number threshold) ∷ [])
        ∷ []
      else []

  -- the breakers that trip, in the order of the code
  unfoldable pub breakers :
      FinalGatePolicy F → RiskDecision F → MarketState F → List (String × RiskEventDetail F)
  unfolding volatility_breaker liquidity_breaker portfolio_breakers confidence_breakers
  breakers policy d m =
      (if policy.extreme_volatility_pct ≤? m.volatility_pct
        then volatility_breaker m.volatility_pct policy.extreme_volatility_pct ∷ []
        else [])
      ++ ((if m.liquidity_score ≤? policy.min_liquidity_score
            then liquidity_breaker m.liquidity_score policy.min_liquidity_score ∷ []
            else [])
          ++ (portfolio_breakers policy.max_portfolio_risk_pct d.portfolio_risk_pct_after
              ++ confidence_breakers policy.min_regime_confidence d.regime_confidence))

  low_score_event : F → F → RiskEventDetail F
  low_score_event score threshold = record {
    event_type = "final_gate_low_score";
    severity = warning;
    message = "Gate final rechazó por score compuesto insuficiente";
    context = ("final_score", number score) ∷ ("threshold", number threshold) ∷ [];
  }

  pass_event : F → F → RiskEventDetail F
  pass_event score threshold = record {
    event_type = "final_gate_pass";
    severity = info;
    message = "Gate final aprobado";
    context = ("final_score", number score) ∷ ("threshold", number threshold) ∷ [];
  }

  -- the returns of `evaluate`, once the breakers are known
  unfoldable pub conclude :
      FinalGatePolicy F → Bool → F → List (String × RiskEventDetail F) → FinalGateDecision F
  unfolding low_score_event pass_event
  conclude policy false score tripped = record {
    passed = false;
    final_score = score;
    reason = "Pre-rechazado por el motor de riesgo";
    triggered_breakers = map (λ b. b.0) tripped;
    events = map (λ b. b.1) tripped;
    pre_rejected_by_engine = true;
  }
  conclude policy true score (b ∷ bs) = record {
    passed = false;
    final_score = score;
    reason = "Bloqueado por circuit breaker del gate final";
    triggered_breakers = map (λ b. b.0) (b ∷ bs);
    events = map (λ b. b.1) (b ∷ bs);
    pre_rejected_by_engine = false;
  }
  conclude policy true score [] =
      if score <? policy.min_final_score
      then record {
        passed = false;
        final_score = score;
        reason = "Bloqueado por gate final: score compuesto insuficiente";
        triggered_breakers = [];
        events = low_score_event score policy.min_final_score ∷ [];
        pre_rejected_by_engine = false;
      }
      else record {
        passed = true;
        final_score = score;
        reason = "Gate final aprobado";
        triggered_breakers = [];
        events = pass_event score policy.min_final_score ∷ [];
        pre_rejected_by_engine = false;
      }

  unfoldable pub evaluate_gate :
      FinalDecisionGate F → RiskDecision F → MarketState F → FinalGateDecision F
  unfolding final_score breakers conclude
  evaluate_gate gate d m =
      conclude gate.policy d.approved (final_score gate d m) (breakers gate.policy d m)

-- ===== src/Risk/Total.antt =====
-- When `RiskEngine.evaluate` returns: on sound inputs it does so unless the risk that the symbol or the
-- cluster carries already passes 100, which the bounds of `RiskDecision` refuse.
use binance_futures_algo_bot.Risk.Limits.{HasFourDecimals}
use binance_futures_algo_bot.Risk.Schemas.{
  transicion, rango_lateral, tendencia_bajista, tendencia_alcista, alta_volatilidad, Regime,
  PortfolioState, PositionExposure, MarketState,
}
use binance_futures_algo_bot.Risk.Scale.{literal_le, round_nonneg, dec-nonneg}
use binance_futures_algo_bot.Risk.Evaluate.{Request}
use binance_futures_algo_bot.Common.Texts.{Text}
use binance_futures_algo_bot.Risk.Regime.{estimate_regime_confidence, derived_confidence, clamp_pct}
use binance_futures_algo_bot.Risk.Policy.{RiskPolicy}
use binance_futures_algo_bot.Risk.Exposure.{
  sum_risk, pressure_multiplier, portfolio_metrics, correlation_multiplier,
}
use binance_futures_algo_bot.Common.{
  map, inr, inl, [], ◌∷◌, Option-cases, refl, Bool, All, List, select, arith,
}
use binance_futures_algo_bot.Float.{fmin, ◌⊕◌, dec, round_to, nought, Float, ◌≼◌}
use binance_futures_algo_bot.Float.Order.{fmin-le_left, le-fmin, clamp_bounds, IsFloat}

module _ {F : Type 0} ⦃f : Float F⦄ where
  -- What the schemas and a sensible policy give: no negative risk, limits of four decimals at most
  -- and no more than 100.
  pub record IsSound (policy : RiskPolicy F) (r : Request F) (p : PortfolioState F) : Type 0 where
    pub base : nought ≼ policy.base_risk_per_trade_pct
    pub single : nought ≼ policy.max_single_trade_pct
    pub account : policy.max_account_risk_pct ≼ dec 100 0
    pub account_short : HasFourDecimals policy.max_account_risk_pct
    pub portfolio_short : HasFourDecimals p.max_portfolio_risk_pct
    pub symbol_short : HasFourDecimals p.max_symbol_risk_pct
    pub cluster_short : HasFourDecimals p.max_cluster_risk_pct
    pub existing : nought ≼ r.existing_risk_pct
    pub positions : All (λ q. nought ≼ q.risk_pct) p.positions

  -- a percentage
  abbrev pub IsPct : F → Type 0
  IsPct x = (nought ≼ x) × (x ≼ dec 100 0)

  module _ (laws : IsFloat F) where
    open laws use {le_refl, le_trans}

    pub round-IsPct : (x : F) → IsPct x → IsPct (round_to 4 x)
    round-IsPct x (low, high) = (
      round_nonneg laws 4 x (omega arith) low,
      rw (laws.round_whole 4 100 (omega arith) (omega arith)) at
          (laws.round_mono 4 x (dec 100 0) high),
    )

    pub clamp_pct-IsPct : (x : F) → IsPct (clamp_pct x)
    unfolding clamp_pct
    clamp_pct-IsPct x =
        let (low, high) = clamp_bounds laws nought (dec 1000 1) x (dec-nonneg laws 1000 1 refl) in
        (low, le_trans _ _ _ high (literal_le laws 1000 1 100 0 refl))

    pub nought-IsPct : IsPct nought
    nought-IsPct = (le_refl nought, dec-nonneg laws 100 0 refl)

    derived_confidence-IsPct :
        (m : MarketState F) (regime : Regime) → IsPct (derived_confidence m regime)
    unfolding derived_confidence
    derived_confidence-IsPct m alta_volatilidad = round-IsPct _ (clamp_pct-IsPct _)
    derived_confidence-IsPct m tendencia_alcista = round-IsPct _ (clamp_pct-IsPct _)
    derived_confidence-IsPct m tendencia_bajista = round-IsPct _ (clamp_pct-IsPct _)
    derived_confidence-IsPct m rango_lateral = round-IsPct _ (clamp_pct-IsPct _)
    derived_confidence-IsPct m transicion = round-IsPct _ (clamp_pct-IsPct _)
    derived_confidence-IsPct m Regime.unknown = nought-IsPct

    -- The confidence in a regime is a percentage, given or derived.
    pub estimate_regime_confidence-IsPct :
        (m : MarketState F) (regime : Regime)
        → (nought ≼ estimate_regime_confidence m regime)
          × (estimate_regime_confidence m regime ≼ dec 100 0)
    unfolding estimate_regime_confidence
    estimate_regime_confidence-IsPct m regime = elim (Option-cases m.regime_confidence) [
      | inl e ↦ rw e (derived_confidence-IsPct m regime)
      | inr (x, e) ↦ rw e (clamp_pct-IsPct x)
    ]

    risks_nonneg :
        (ps : List (PositionExposure F))
        → All (λ q. nought ≼ q.risk_pct) ps
        → All (λ x. nought ≼ x) (map (λ p. p.risk_pct) ps)
    risks_nonneg [] h = tt
    risks_nonneg (p ∷ ps) (h, hs) = (h, risks_nonneg ps hs)

    sum_risk_nonneg :
        (ps : List (PositionExposure F)) → All (λ q. nought ≼ q.risk_pct) ps → nought ≼ sum_risk ps
    unfolding sum_risk
    sum_risk_nonneg ps hs = laws.sum_nonneg (map (λ p. p.risk_pct) ps) (risks_nonneg ps hs)

    select_nonneg :
        (test : PositionExposure F → Bool) (ps : List (PositionExposure F))
        → All (λ q. nought ≼ q.risk_pct) ps
        → All (λ q. nought ≼ q.risk_pct) (select test ps)
    unfolding select
    select_nonneg test [] h = tt
    select_nonneg test (p ∷ ps) (q, hs) = ground (arith, select_nonneg test ps hs)

    pub portfolio_metrics-bounds :
        (symbol : Text) (existing : F) (ps : List (PositionExposure F))
        → nought ≼ existing
        → All (λ q. nought ≼ q.risk_pct) ps
        → let met = portfolio_metrics symbol existing ps in
          IsPct met.portfolio_before × (nought ≼ met.symbol_before) × (nought ≼ met.cluster_before)
    unfolding portfolio_metrics
    portfolio_metrics-bounds symbol existing ps h hs =
        let rounded : (qs : List (PositionExposure F))
            → All (λ q. nought ≼ q.risk_pct) qs
            → nought ≼ round_to 4 (sum_risk qs) =
          λ qs hq. round_nonneg laws 4 _ (omega arith) (sum_risk_nonneg qs hq) in
        let sum = existing ⊕ round_to 4 (sum_risk ps) in
        (
          round-IsPct (fmin (dec 1000 1) sum) (
            le-fmin laws (dec 1000 1) sum nought (dec-nonneg laws 1000 1 refl)
                (laws.plus_nonneg existing _ h (rounded ps hs)),
            le_trans _ _ _ (fmin-le_left laws (dec 1000 1) sum) (literal_le laws 1000 1 100 0 refl),
          ),
          rounded (select _ ps) (select_nonneg _ ps hs),
          rounded (select _ ps) (select_nonneg _ ps hs),
        )

    pressure_multiplier-bounds :
        (x : F) → (nought ≼ pressure_multiplier x) × (pressure_multiplier x ≼ dec 1 0)
    unfolding pressure_multiplier
    pressure_multiplier-bounds x = ground (
      arith,
      dec-nonneg laws 72 2 refl,
      dec-nonneg laws 84 2 refl,
      dec-nonneg laws 92 2 refl,
      dec-nonneg laws 10 1 refl,
      literal_le laws 72 2 1 0 refl,
      literal_le laws 84 2 1 0 refl,
      literal_le laws 92 2 1 0 refl,
      literal_le laws 10 1 1 0 refl,
    )

    pub correlation_multiplier-bounds :
        (symbol : Text) (ps : List (PositionExposure F)) (top : F)
        → let x = (correlation_multiplier symbol ps top).0 in (nought ≼ x) × (x ≼ dec 1 0)
    unfolding correlation_multiplier
    correlation_multiplier-bounds symbol [] top =
        (dec-nonneg laws 10 1 refl, literal_le laws 10 1 1 0 refl)
    correlation_multiplier-bounds symbol (p ∷ ps) top = pressure_multiplier-bounds _

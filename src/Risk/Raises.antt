-- ===== src/Risk/Raises.antt =====
-- Exactly when `RiskEngine.evaluate` raises a pydantic error on sound inputs.
use binance_futures_algo_bot.Risk.Limits.{assess-HasLimits, afters-le, HasLimits}
use binance_futures_algo_bot.Risk.Approval.{evaluate-eq-decide, breaches-ne-nil}
use binance_futures_algo_bot.Risk.Scale.{
  literal_le, dec-nonneg, round_nonneg, suggest_risk_pct_nonneg,
}
use binance_futures_algo_bot.Risk.Sizing.{aggregate_score, suggest_risk_pct}
use binance_futures_algo_bot.Risk.Exposure.{correlation_multiplier}
use binance_futures_algo_bot.Common.Texts.{upper}
use binance_futures_algo_bot.Risk.Regime.{estimate_regime_confidence, resolve_market_regime}
use binance_futures_algo_bot.Risk.Policy.{RiskPolicy}
use binance_futures_algo_bot.Risk.Schemas.{
  within, validation_error, ok, err, RiskEventDetail, PortfolioState, RiskDecision,
  risk_decision_valid, new_risk_decision,
}
use binance_futures_algo_bot.Risk.Evaluate.{
  evaluate, portfolio_or_default, breaches, available_risk_pct, or_symbol, decision, size_position,
  Request, refuse_breached, refuse, decide, assess, Assessment,
}
use binance_futures_algo_bot.Common.{
  ◌∙◌, Bool, Bool-cases, inr, inl, true, ◌∷◌, [], ◌≢◌, refl, ◌⊎◌, some, false, List, String, arith,
  ◌≡◌,
}
use binance_futures_algo_bot.Float.{
  ◌⊕◌, round_to, ◌⊗◌, feq, ◌⊖◌, fmin, fabs, dec, ◌≤?◌, nought, Float, ◌≼◌,
}
use binance_futures_algo_bot.Float.Order.{fmin-le_right, not_le-le, le-fmin, IsFloat}
use binance_futures_algo_bot.Risk.Total.{
  estimate_regime_confidence-IsPct, portfolio_metrics-bounds, correlation_multiplier-bounds,
  IsSound, IsPct,
}

module _ {F : Type 0} ⦃f : Float F⦄ where
  -- What every decision reports of its assessment is in range.
  record InRange (a : Assessment F) : Type 0 where
    confidence : IsPct a.confidence
    portfolio : IsPct a.portfolio_before
    symbol : nought ≼ a.symbol_before
    cluster : nought ≼ a.cluster_before
    multiplier : (nought ≼ a.multiplier) × (a.multiplier ≼ dec 1 0)
    suggested : nought ≼ a.suggested

  -- The carried risk of the symbol or of the cluster is out of the bounds of `RiskDecision`.
  abbrev pub IsOverfull : Assessment F → Type 0
  IsOverfull a =
      ((a.symbol_before ≤? dec 100 0) ≡ false) ⊎ ((a.cluster_before ≤? dec 100 0) ≡ false)

  new_risk_decision-overfull :
      (a : Assessment F) (d : RiskDecision F)
      → d.symbol_risk_pct_before ≡ some a.symbol_before
      → d.cluster_risk_pct_before ≡ some a.cluster_before
      → IsOverfull a
      → new_risk_decision d ≡ err validation_error
  unfolding new_risk_decision risk_decision_valid
  new_risk_decision-overfull a d p q h = ground arith

  new_risk_decision-exists :
      (x : RiskDecision F)
      → risk_decision_valid x ≡ true
      → (d : RiskDecision F) × (new_risk_decision x ≡ ok d)
  unfolding new_risk_decision
  new_risk_decision-exists x h = (x, rw h)

  refuse-overfull :
      (a : Assessment F) (reason : String) (events : List (RiskEventDetail F))
      → IsOverfull a
      → refuse a reason events ≡ err validation_error
  unfolding refuse
  refuse-overfull a reason events = new_risk_decision-overfull a _ refl refl

  decide-overfull :
      (r : Request F) (a : Assessment F) → IsOverfull a → decide r a ≡ err validation_error
  unfolding decide
  decide-overfull r a h = elim (Bool-cases (feq a.suggested nought)) [
    | inl s ↦ rw s (refuse-overfull a _ _ h)
    | inr s ↦ elim (Bool-cases (available_risk_pct a ≤? nought)) [
      | inl t ↦ rw (s, t) (breached (breaches a) (breaches-ne-nil a t))
      | inr t ↦ rw (s, t) (sized (Bool-cases (fabs (r.entry_price ⊖ r.stop_loss) ≤? nought)))
    ]
  ]
    where
      breached :
          (bs : List (RiskEventDetail F)) → bs ≢ [] → refuse_breached a bs ≡ err validation_error
      breached [] n = absurd (n refl)
      breached (b ∷ bs) n = refuse-overfull a _ _ h

      sized :
          ((fabs (r.entry_price ⊖ r.stop_loss) ≤? nought) ≡ true)
            ⊎ ((fabs (r.entry_price ⊖ r.stop_loss) ≤? nought) ≡ false)
          → size_position r a ≡ err validation_error
      sized (inl e) = rw e (refuse-overfull a _ _ h)
      sized (inr e) = rw e (new_risk_decision-overfull a _ refl refl h)

  module _ (laws : IsFloat F) where
    open laws use {le_trans}

    assess-InRange :
        (policy : RiskPolicy F) (r : Request F) (p : PortfolioState F)
        → IsSound policy r p
        → InRange (assess policy r p)
    unfolding assess
    assess-InRange policy r p h =
        let m = r.market_state in
        let own = resolve_market_regime policy m in
        let symbol = upper (or_symbol r.symbol m.symbol) in
        let confidence = estimate_regime_confidence m own in
        let top = fmin policy.max_account_risk_pct p.max_portfolio_risk_pct in
        let pair = correlation_multiplier symbol p.positions top in
        let size =
          suggest_risk_pct policy (aggregate_score r.signals m) own confidence m.volatility_pct in
        let size0 =
          suggest_risk_pct_nonneg laws policy own confidence m.volatility_pct
            (aggregate_score r.signals m) h.base h.single in
        let (x0, x1) = correlation_multiplier-bounds laws symbol p.positions top in
        let less =
          round_nonneg laws 4 (size ⊗ pair.0) (omega arith)
            (laws.times_nonneg size pair.0 size0 x0) in
        let (pb, sb, cb) =
          portfolio_metrics-bounds laws symbol r.existing_risk_pct p.positions h.existing
            h.positions in
        let cp = estimate_regime_confidence-IsPct laws m own in
        let one0 = dec-nonneg laws 10 1 refl in
        let one1 = literal_le laws 10 1 1 0 refl in ground arith

    within_of_IsPct : (x : F) → IsPct x → within (dec 100 0) x ≡ true
    within_of_IsPct x h = ground arith

    decision-ok :
        (a : Assessment F) (approved : Bool) (notional suggested : F) (reason : String)
        (pa sa ca : F) (events : List (RiskEventDetail F))
        → InRange a
        → a.symbol_before ≼ dec 100 0
        → a.cluster_before ≼ dec 100 0
        → IsPct pa
        → IsPct sa
        → IsPct ca
        → (d : RiskDecision F) × (decision a approved notional suggested reason pa sa ca events
            ≡ ok d)
    unfolding decision risk_decision_valid
    decision-ok a approved notional suggested reason pa sa ca events h s c hp hs hc =
        new_risk_decision-exists _ (
          rw
            (
              within_of_IsPct a.confidence h.confidence,
              within_of_IsPct a.portfolio_before h.portfolio,
              within_of_IsPct pa hp,
              within_of_IsPct a.cluster_before (h.cluster, c),
              within_of_IsPct ca hc,
              within_of_IsPct a.symbol_before (h.symbol, s),
              within_of_IsPct sa hs,
            )
            (ground (arith, h.multiplier)))

    applied-nonneg :
        (a : Assessment F)
        → nought ≼ a.suggested
        → (available_risk_pct a ≤? nought) ≡ false
        → nought ≼ fmin a.suggested (available_risk_pct a)
    applied-nonneg a h room =
        le-fmin laws a.suggested (available_risk_pct a) nought h
          (not_le-le laws (available_risk_pct a) nought room)

    after-IsPct :
        (before limit size : F)
        → nought ≼ before
        → nought ≼ size
        → limit ≼ dec 100 0
        → round_to 4 (before ⊕ size) ≼ limit
        → IsPct (round_to 4 (before ⊕ size))
    after-IsPct before limit size b s l h = (
      round_nonneg laws 4 (before ⊕ size) (omega arith) (laws.plus_nonneg before size b s),
      le_trans (round_to 4 (before ⊕ size)) limit (dec 100 0) h l,
    )

    module _ (r : Request F) (a : Assessment F) (h : InRange a) (l : HasLimits laws a)
        (s : a.symbol_before ≼ dec 100 0) (c : a.cluster_before ≼ dec 100 0) where
      refuse-ok :
          (reason : String) (events : List (RiskEventDetail F))
          → (d : RiskDecision F) × (refuse a reason events ≡ ok d)
      unfolding refuse
      refuse-ok reason events =
          decision-ok a false nought nought reason a.portfolio_before a.symbol_before
            a.cluster_before events h s c h.portfolio (h.symbol, s) (h.cluster, c)

      size_position-ok :
          (available_risk_pct a ≤? nought) ≡ false
          → (d : RiskDecision F) × (size_position r a ≡ ok d)
      unfolding size_position
      size_position-ok room =
          let size = fmin a.suggested (available_risk_pct a) in
          let low = applied-nonneg a h.suggested room in
          let (np, ns, nc) =
            afters-le laws a size l (h.portfolio.0, h.symbol, h.cluster) room
              (fmin-le_right laws a.suggested (available_risk_pct a)) in
          elim (Bool-cases (fabs (r.entry_price ⊖ r.stop_loss) ≤? nought)) [
            | inl e ↦ rw e (refuse-ok _ _)
            | inr e ↦ rw e (
                decision-ok a true _ size _ _ _ _ _ h s c
                  (after-IsPct a.portfolio_before a.max_portfolio size h.portfolio.0 low l.portfolio
                    np)
                  (after-IsPct a.symbol_before a.max_symbol size h.symbol low l.symbol ns)
                  (after-IsPct a.cluster_before a.max_cluster size h.cluster low l.cluster nc))
          ]

      refuse_breached-ok :
          (bs : List (RiskEventDetail F))
          → bs ≢ []
          → (d : RiskDecision F) × (refuse_breached a bs ≡ ok d)
      unfolding refuse_breached
      refuse_breached-ok [] n = absurd (n refl)
      refuse_breached-ok (b ∷ bs) n = refuse-ok _ _

      decide-ok : (d : RiskDecision F) × (decide r a ≡ ok d)
      unfolding decide
      decide-ok = elim (Bool-cases (feq a.suggested nought)) [
        | inl z ↦ rw z (refuse-ok _ _)
        | inr z ↦ elim (Bool-cases (available_risk_pct a ≤? nought)) [
          | inl t ↦ rw (z, t) (refuse_breached-ok (breaches a) (breaches-ne-nil a t))
          | inr t ↦ rw (z, t) (size_position-ok t)
        ]
      ]

    -- On sound inputs with the portfolio state `p`, `evaluate` raises a validation error exactly if the
    -- risk that the symbol's or the cluster's positions already carry is above 100; otherwise it
    -- returns a decision.
    pub evaluate_raises_iff :
        (policy : RiskPolicy F) (r : Request F) (p : PortfolioState F)
        → IsSound policy r p
        → portfolio_or_default policy r.portfolio_state ≡ ok p
        → (IsOverfull (assess policy r p) × (evaluate policy r ≡ err validation_error))
          ⊎ (¬ IsOverfull (assess policy r p) × ((d : RiskDecision F) × (evaluate policy r ≡ ok d)))
    evaluate_raises_iff policy r p h given =
        let a = assess policy r p in
        let range = assess-InRange policy r p h in
        let limits =
          assess-HasLimits laws policy r p h.account h.account_short h.portfolio_short
            h.symbol_short h.cluster_short in
        let step = evaluate-eq-decide policy r given in
        elim (Bool-cases (a.symbol_before ≤? dec 100 0)) [
          | inr s ↦ inl (inl s, step ∙ decide-overfull r a (inl s))
          | inl s ↦ elim (Bool-cases (a.cluster_before ≤? dec 100 0)) [
            | inr c ↦ inl (inr c, step ∙ decide-overfull r a (inr c))
            | inl c ↦
                let (d, e) = decide-ok r a range limits s c in
                inr (λ full. ground arith, (d, step ∙ e))
          ]
        ]

-- ===== src/Risk/Approval.antt =====
-- What an approval by `RiskEngine.evaluate` says of the assessment that it was made from, and why its
-- `RuntimeError` is never raised.
use binance_futures_algo_bot.Risk.Policy.{RiskPolicy}
use binance_futures_algo_bot.Common.{
  Option, ◌≡◌, refl, ◌≢◌, true, false, some, List, [], ◌∷◌, String, arith, inl, inr, Bool-cases,
}
use mathlib.Core.Path.{subst}
use binance_futures_algo_bot.Common.{none}
use binance_futures_algo_bot.Float.{Float, ◌⊕◌, ◌⊖◌, ◌≤?◌, nought, round_to, fmin, feq, fabs}
use binance_futures_algo_bot.Risk.Schemas.{
  PortfolioState, >>=-cases, new_portfolio_state, invariant_error, err, ok, RiskDecision,
  risk_decision_valid, new_risk_decision, RiskEventDetail,
}
use binance_futures_algo_bot.Risk.Evaluate.{
  assess, portfolio_or_default, evaluate, Request, Assessment, available_risk_pct, decision, refuse,
  breaches, refuse_breached, size_position, decide,
}

module _ {F : Type 0} ⦃f : Float F⦄ where
  pub record IsApproval (r : Request F) (a : Assessment F) (d : RiskDecision F) : Type 0 where
    pub sized : feq a.suggested nought ≡ false
    pub room : (available_risk_pct a ≤? nought) ≡ false
    pub stop : (fabs (r.entry_price ⊖ r.stop_loss) ≤? nought) ≡ false
    pub applied : d.suggested_risk_pct ≡ fmin a.suggested (available_risk_pct a)
    pub portfolio_after :
        d.portfolio_risk_pct_after
        ≡ some (round_to 4 (a.portfolio_before ⊕ fmin a.suggested (available_risk_pct a)))
    pub symbol_after :
        d.symbol_risk_pct_after
        ≡ some (round_to 4 (a.symbol_before ⊕ fmin a.suggested (available_risk_pct a)))
    pub cluster_after :
        d.cluster_risk_pct_after
        ≡ some (round_to 4 (a.cluster_before ⊕ fmin a.suggested (available_risk_pct a)))
    pub portfolio_before : d.portfolio_risk_pct_before ≡ some a.portfolio_before
    pub symbol_before : d.symbol_risk_pct_before ≡ some a.symbol_before
    pub cluster_before : d.cluster_risk_pct_before ≡ some a.cluster_before
    pub valid : risk_decision_valid d ≡ true

  pub new_risk_decision-ok :
      (x : RiskDecision F) {d : RiskDecision F}
      → new_risk_decision x ≡ ok d
      → (x ≡ d) × (risk_decision_valid x ≡ true)
  unfolding new_risk_decision
  new_risk_decision-ok x h = ground arith

  refuse-not_approved :
      (a : Assessment F) (reason : String) (events : List (RiskEventDetail F)) {d : RiskDecision F}
      → refuse a reason events ≡ ok d
      → d.approved ≡ false
  unfolding refuse
  refuse-not_approved a reason events h = ground (arith, new_risk_decision-ok _ h)

  refuse_breached-not_approved :
      (a : Assessment F) (breached : List (RiskEventDetail F)) {d : RiskDecision F}
      → refuse_breached a breached ≡ ok d
      → d.approved ≡ false
  unfolding refuse_breached
  refuse_breached-not_approved a [] h = ground arith
  refuse_breached-not_approved a (first ∷ rest) h = refuse-not_approved a _ _ h

  size_position-IsApproval :
      (r : Request F) (a : Assessment F) {d : RiskDecision F}
      → feq a.suggested nought ≡ false
      → (available_risk_pct a ≤? nought) ≡ false
      → size_position r a ≡ ok d
      → d.approved ≡ true
      → IsApproval r a d
  unfolding size_position decision
  size_position-IsApproval r a s t h p =
      elim (Bool-cases (fabs (r.entry_price ⊖ r.stop_loss) ≤? nought)) [
        | inl e ↦ cc (p, refuse-not_approved a _ _ (rw e at h))
        | inr e ↦
            let (same, valid) = new_risk_decision-ok _ (rw e at h) in
            subst (λ x. IsApproval r a x) same
              (record {
                sized = s;
                room = t;
                stop = e;
                applied = refl;
                portfolio_after = refl;
                symbol_after = refl;
                cluster_after = refl;
                portfolio_before = refl;
                symbol_before = refl;
                cluster_before = refl;
                valid = valid;
              })
      ]

  pub decide-IsApproval :
      (r : Request F) (a : Assessment F) {d : RiskDecision F}
      → decide r a ≡ ok d
      → d.approved ≡ true
      → IsApproval r a d
  unfolding decide
  decide-IsApproval r a h p = elim (Bool-cases (feq a.suggested nought)) [
    | inl s ↦ cc (p, refuse-not_approved a _ _ (rw s at h))
    | inr s ↦ elim (Bool-cases (available_risk_pct a ≤? nought)) [
      | inl t ↦ cc (p, refuse_breached-not_approved a (breaches a) (rw (s, t) at h))
      | inr t ↦ size_position-IsApproval r a s t (rw (s, t) at h) p
    ]
  ]

  pub breaches-ne-nil :
      (a : Assessment F) → (available_risk_pct a ≤? nought) ≡ true → breaches a ≢ []
  unfolding breaches available_risk_pct fmin
  breaches-ne-nil a h = ground arith

  refuse_breached-ne-invariant :
      (a : Assessment F) (breached : List (RiskEventDetail F))
      → breached ≢ []
      → refuse_breached a breached ≢ err invariant_error
  unfolding refuse_breached refuse decision new_risk_decision
  refuse_breached-ne-invariant a [] n = absurd (n refl)
  refuse_breached-ne-invariant a (first ∷ rest) n = ground arith

  decide-ne-invariant : (r : Request F) (a : Assessment F) → decide r a ≢ err invariant_error
  unfolding decide refuse size_position decision new_risk_decision
  decide-ne-invariant r a =
      ground (arith, breaches-ne-nil a, refuse_breached-ne-invariant a (breaches a))

  portfolio-ne-invariant :
      (policy : RiskPolicy F) (given : Option (PortfolioState F))
      → portfolio_or_default policy given ≢ err invariant_error
  unfolding portfolio_or_default new_portfolio_state
  portfolio-ne-invariant policy none = ground arith
  portfolio-ne-invariant policy (some p) = ground arith

  pub evaluate-eq-decide :
      (policy : RiskPolicy F) (r : Request F) {p : PortfolioState F}
      → portfolio_or_default policy r.portfolio_state ≡ ok p
      → evaluate policy r ≡ decide r (assess policy r p)
  unfolding evaluate
  evaluate-eq-decide policy r given = rw given

  -- `evaluate` never raises the `RuntimeError` that guards its invariant: when no risk is available
  -- some limit is exhausted, and the list of breached limits is not empty.
  pub evaluate-ne-invariant :
      (policy : RiskPolicy F) (r : Request F) → evaluate policy r ≢ err invariant_error
  unfolding evaluate
  evaluate-ne-invariant policy r h =
      elim (>>=-cases (portfolio_or_default policy r.portfolio_state) _ h) [
        | inl raised ↦ portfolio-ne-invariant policy r.portfolio_state raised
        | inr (p, _, e) ↦ decide-ne-invariant r (assess policy r p) e
      ]

-- ===== src/Risk/Refusal.antt =====
-- What a refusal by `RiskEngine.evaluate` returns, and how the events tell it from an approval.
use mathlib.Core.Path.{subst}
use binance_futures_algo_bot.Risk.Approval.{new_risk_decision-ok}
use binance_futures_algo_bot.Risk.Policy.{RiskPolicy}
use binance_futures_algo_bot.Risk.Schemas.{
  >>=-eq-ok, ok, critical, PortfolioState, Severity, RiskEventDetail, RiskDecision,
}
use binance_futures_algo_bot.Risk.Evaluate.{
  approved_event, portfolio_or_default, event_if, score_refused, invalid_stop, evaluate,
  capped_event, decision, available_risk_pct, Request, Assessment, size_position, refuse_breached,
  refuse, decide, breaches, assess,
}
use binance_futures_algo_bot.Common.{
  any-append_neither, inr, ◌++◌, any-append_right, Bool-cases, refl, inl, [], any-append, ◌∷◌, ◌⊎◌,
  true, false, String, List, ◌≡◌, any, Bool, arith,
}
use binance_futures_algo_bot.Float.{◌⊖◌, fabs, ◌<?◌, feq, ◌≤?◌, nought, fmin, Float}

abbrev critical? : Severity → Bool
critical? critical = true
critical? _ = false

module _ {F : Type 0} ⦃f : Float F⦄ where
  abbrev pub is_critical : RiskEventDetail F → Bool
  is_critical e = critical? e.severity

  -- No size, and the portfolio as it was.
  pub record IsRefusal (d : RiskDecision F) : Type 0 where
    pub no_notional : d.max_position_notional ≡ nought
    pub no_risk : d.suggested_risk_pct ≡ nought
    pub portfolio_kept : d.portfolio_risk_pct_after ≡ d.portfolio_risk_pct_before
    pub symbol_kept : d.symbol_risk_pct_after ≡ d.symbol_risk_pct_before
    pub cluster_kept : d.cluster_risk_pct_after ≡ d.cluster_risk_pct_before

  -- A decision is a refusal with a critical event, or an approval without one.
  abbrev IsMarked : RiskDecision F → Type 0
  IsMarked d =
      ((d.approved ≡ false) × IsRefusal d × (any is_critical d.risk_events ≡ true))
      ⊎ ((d.approved ≡ true) × (any is_critical d.risk_events ≡ false))

  refuse-IsMarked :
      (a : Assessment F) (reason : String) (events : List (RiskEventDetail F)) {d : RiskDecision F}
      → refuse a reason events ≡ ok d
      → any is_critical events ≡ true
      → IsMarked d
  unfolding refuse
  refuse-IsMarked a reason events h c =
      let (same, _) = new_risk_decision-ok _ h in
      subst IsMarked same (
        inl (
          refl,
          record {
            no_notional = refl;
            no_risk = refl;
            portfolio_kept = refl;
            symbol_kept = refl;
            cluster_kept = refl;
          },
          c,
        ))

  breaches-critical :
      (a : Assessment F)
      → (available_risk_pct a ≤? nought) ≡ true
      → any is_critical (breaches a) ≡ true
  unfolding breaches available_risk_pct fmin any
  breaches-critical a h = ground arith

  invalid_stop-critical : (r : Request F) → any is_critical (invalid_stop r ∷ []) ≡ true
  unfolding any invalid_stop
  invalid_stop-critical r = refl

  approved_event-no_critical :
      (a : Assessment F) (x y z : F) → any is_critical (approved_event a x y z ∷ []) ≡ false
  unfolding any approved_event
  approved_event-no_critical a x y z = refl

  score_refused-critical : (a : Assessment F) → any is_critical (score_refused a ∷ []) ≡ true
  unfolding any score_refused
  score_refused-critical a = refl

  refuse_breached-IsMarked :
      (a : Assessment F) (breached : List (RiskEventDetail F)) {d : RiskDecision F}
      → refuse_breached a breached ≡ ok d
      → any is_critical breached ≡ true
      → IsMarked d
  unfolding refuse_breached
  refuse_breached-IsMarked a [] h c = ground arith
  refuse_breached-IsMarked a (first ∷ rest) h c =
      refuse-IsMarked a _ _ h (any-append_right is_critical a.events (first ∷ rest) c)

  -- the events of `size_position` before its last one
  sized_no_critical :
      (a : Assessment F) (applied : F)
      → any is_critical a.events ≡ false
      → any is_critical (a.events ++ event_if (applied <? a.suggested) (capped_event a applied))
        ≡ false
  unfolding any capped_event
  sized_no_critical a applied c = ground (
    arith,
    any-append is_critical a.events (event_if (applied <? a.suggested) (capped_event a applied)),
  )

  size_position-IsMarked :
      (r : Request F) (a : Assessment F) {d : RiskDecision F}
      → any is_critical a.events ≡ false
      → size_position r a ≡ ok d
      → IsMarked d
  unfolding size_position decision
  size_position-IsMarked r a c h =
      let applied = fmin a.suggested (available_risk_pct a) in
      let events = a.events ++ event_if (applied <? a.suggested) (capped_event a applied) in
      let clean = sized_no_critical a applied c in
      elim (Bool-cases (fabs (r.entry_price ⊖ r.stop_loss) ≤? nought)) [
        | inl e ↦
            refuse-IsMarked a _ _ (rw e at h)
              (any-append_right is_critical events (invalid_stop r ∷ []) (invalid_stop-critical r))
        | inr e ↦
            let (same, _) = new_risk_decision-ok _ (rw e at h) in
            subst IsMarked same (
              inr (
                refl,
                any-append_neither is_critical events _ clean (approved_event-no_critical a _ _ _),
              ))
      ]

  decide-IsMarked :
      (r : Request F) (a : Assessment F) {d : RiskDecision F}
      → any is_critical a.events ≡ false
      → decide r a ≡ ok d
      → IsMarked d
  unfolding decide
  decide-IsMarked r a c h = elim (Bool-cases (feq a.suggested nought)) [
    | inl s ↦
        refuse-IsMarked a _ _ (rw s at h)
          (any-append_right is_critical a.events (score_refused a ∷ []) (score_refused-critical a))
    | inr s ↦ elim (Bool-cases (available_risk_pct a ≤? nought)) [
      | inl t ↦ refuse_breached-IsMarked a (breaches a) (rw (s, t) at h) (breaches-critical a t)
      | inr t ↦ size_position-IsMarked r a c (rw (s, t) at h)
    ]
  ]

  assess-no_critical :
      (policy : RiskPolicy F) (r : Request F) (p : PortfolioState F)
      → any is_critical (assess policy r p).events ≡ false
  unfolding assess any
  assess-no_critical policy r p = ground arith

  -- Every decision is told by its events: a refusal has a critical event, suggests no risk and no
  -- notional, and leaves the three risks after as before; an approval has no critical event.
  pub critical_iff_refused :
      (policy : RiskPolicy F) (r : Request F) (d : RiskDecision F)
      → evaluate policy r ≡ ok d
      → ((d.approved ≡ false) × IsRefusal d × (any is_critical d.risk_events ≡ true))
        ⊎ ((d.approved ≡ true) × (any is_critical d.risk_events ≡ false))
  unfolding evaluate
  critical_iff_refused policy r d h =
      let (p, _, e) = >>=-eq-ok (portfolio_or_default policy r.portfolio_state) _ h in
      decide-IsMarked r (assess policy r p) (assess-no_critical policy r p) e

-- ===== src/Risk/Scale.antt =====
-- How the suggested size moves with the score and the volatility, and the range of each multiplier.
use binance_futures_algo_bot.Risk.Regime.{clamp_pct}
use binance_futures_algo_bot.Risk.Schemas.{alta_volatilidad, Regime}
use binance_futures_algo_bot.Risk.Policy.{RiskPolicy}
use binance_futures_algo_bot.Risk.Sizing.{
  suggest_risk_pct, volatility_multiplier, score_multiplier, regime_multiplier,
  guarded_regime_multiplier,
}
use binance_futures_algo_bot.Common.{refl, ◌&&◌, true, leb, ◌^◌, ◌*◌, ◌≤◌, ℕ, arith, ◌≡◌}
use binance_futures_algo_bot.Float.{◌⊖◌, fmax, ◌⊕◌, dec, ◌⊗◌, round_to, nought, fmin, Float, ◌≼◌}
use binance_futures_algo_bot.Float.Order.{le-fmin, fmin-le_right, fmin_mono, IsFloat}

module _ {F : Type 0} ⦃f : Float F⦄ (laws : IsFloat F) where
  open laws use {le_refl, le_trans, le_total}

  -- The order of two literals, by evaluation.
  pub literal_le :
      (n k m j : ℕ)
      → (leb k 4 && (leb j 4 && leb (n * 10 ^ j) (m * 10 ^ k))) ≡ true
      → f.dec n k ≼ f.dec m j
  literal_le n k m j h = laws.dec_le n k m j (ground arith) (ground arith) (ground arith)

  pub dec-nonneg : (n k : ℕ) → leb k 4 ≡ true → nought ≼ f.dec n k
  dec-nonneg n k h = laws.dec_le 0 0 n k (omega arith) (ground arith) (omega arith)

  pub round_nonneg : (k : ℕ) (x : F) → k ≤ 4 → nought ≼ x → nought ≼ round_to k x
  round_nonneg k x hk h =
      rw (laws.round_whole k 0 (omega (arith, hk)) (omega arith)) at (laws.round_mono k nought x h)

  pub score_multiplier_nonneg : (score min_score : F) → nought ≼ score_multiplier score min_score
  unfolding score_multiplier
  score_multiplier_nonneg score min_score = ground (
    arith,
    le_refl nought,
    dec-nonneg 115 2 refl,
    dec-nonneg 10 1 refl,
    dec-nonneg 8 1 refl,
    dec-nonneg 65 2 refl,
  )

  pub regime_multiplier_nonneg : (regime : Regime) (c : F) → nought ≼ regime_multiplier regime c
  unfolding regime_multiplier
  regime_multiplier_nonneg regime c = ground (
    arith,
    le_refl nought,
    dec-nonneg 45 2 refl,
    dec-nonneg 6 1 refl,
    dec-nonneg 75 2 refl,
    dec-nonneg 85 2 refl,
    dec-nonneg 8 1 refl,
    dec-nonneg 105 2 refl,
    dec-nonneg 95 2 refl,
    dec-nonneg 10 1 refl,
  )

  pub volatility_multiplier_nonneg :
      (policy : RiskPolicy F) (v : F) → nought ≼ volatility_multiplier policy v
  unfolding volatility_multiplier
  volatility_multiplier_nonneg policy v = ground (
    arith,
    dec-nonneg 45 2 refl,
    dec-nonneg 6 1 refl,
    dec-nonneg 75 2 refl,
    dec-nonneg 9 1 refl,
    dec-nonneg 10 1 refl,
  )

  pub guarded_nonneg :
      (policy : RiskPolicy F) (regime : Regime) (c v : F)
      → nought ≼ guarded_regime_multiplier policy regime c v
  unfolding guarded_regime_multiplier fmin
  guarded_nonneg policy regime c v = ground (
    arith,
    regime_multiplier_nonneg regime c,
    regime_multiplier_nonneg alta_volatilidad (clamp_pct (v ⊗ dec 180 1)),
  )

  -- A higher score never has a smaller multiplier.
  pub score_multiplier_mono :
      (x y min_score : F) → x ≼ y → score_multiplier x min_score ≼ score_multiplier y min_score
  unfolding score_multiplier
  score_multiplier_mono x y min_score h = ground (
    arith,
    le_trans min_score x y,
    le_trans (min_score ⊕ dec 25 0) x y,
    le_trans (min_score ⊕ dec 15 0) x y,
    le_trans (min_score ⊕ dec 5 0) x y,
    le_refl (f.dec 0 0),
    le_refl (f.dec 115 2),
    le_refl (f.dec 10 1),
    le_refl (f.dec 8 1),
    le_refl (f.dec 65 2),
    dec-nonneg 115 2 refl,
    dec-nonneg 10 1 refl,
    dec-nonneg 8 1 refl,
    dec-nonneg 65 2 refl,
    literal_le 65 2 8 1 refl,
    literal_le 65 2 10 1 refl,
    literal_le 65 2 115 2 refl,
    literal_le 8 1 10 1 refl,
    literal_le 8 1 115 2 refl,
    literal_le 10 1 115 2 refl,
  )

  -- A higher volatility never has a larger multiplier.
  pub volatility_multiplier_antitone :
      (policy : RiskPolicy F) (x y : F)
      → x ≼ y
      → volatility_multiplier policy y ≼ volatility_multiplier policy x
  unfolding volatility_multiplier
  volatility_multiplier_antitone policy x y h =
      let high = policy.high_volatility_threshold_pct in
      let elevated = fmax (dec 20 1) (high ⊖ dec 10 1) in
      let mild = fmax (dec 5 1) (fmin (dec 20 1) (elevated ⊖ dec 5 1)) in
      ground (
        arith,
        le_trans (high ⊕ dec 10 1) x y,
        le_trans high x y,
        le_trans elevated x y,
        le_trans mild x y,
        le_refl (f.dec 45 2),
        le_refl (f.dec 6 1),
        le_refl (f.dec 75 2),
        le_refl (f.dec 9 1),
        le_refl (f.dec 10 1),
        literal_le 45 2 6 1 refl,
        literal_le 45 2 75 2 refl,
        literal_le 45 2 9 1 refl,
        literal_le 45 2 10 1 refl,
        literal_le 6 1 75 2 refl,
        literal_le 6 1 9 1 refl,
        literal_le 6 1 10 1 refl,
        literal_le 75 2 9 1 refl,
        literal_le 75 2 10 1 refl,
        literal_le 9 1 10 1 refl,
      )

  product_nonneg :
      (a b c d : F) → nought ≼ a → nought ≼ b → nought ≼ c → nought ≼ d → nought ≼ a ⊗ b ⊗ c ⊗ d
  product_nonneg a b c d p q r t =
      laws.times_nonneg (a ⊗ b ⊗ c) d (laws.times_nonneg (a ⊗ b) c (laws.times_nonneg a b p q) r) t

  product_mono :
      (a b b' c d : F)
      → nought ≼ a
      → nought ≼ b
      → b ≼ b'
      → nought ≼ c
      → nought ≼ d
      → a ⊗ b ⊗ c ⊗ d ≼ a ⊗ b' ⊗ c ⊗ d
  product_mono a b b' c d p q h r t =
      let ab = laws.times_nonneg a b p q in
      let first = laws.times_mono a a b b' p (le_refl a) q h in
      let second = laws.times_mono (a ⊗ b) (a ⊗ b') c c ab first r (le_refl c) in
      laws.times_mono (a ⊗ b ⊗ c) (a ⊗ b' ⊗ c) d d (laws.times_nonneg (a ⊗ b) c ab r) second t
        (le_refl d)

  module _ (policy : RiskPolicy F) (regime : Regime) (confidence volatility : F) where
    -- the size of a score before the two tests of `suggest_risk_pct`
    abbrev product : F → F
    product x =
        policy.base_risk_per_trade_pct
        ⊗ score_multiplier x policy.min_score_to_trade
        ⊗ guarded_regime_multiplier policy regime confidence volatility
        ⊗ volatility_multiplier policy volatility

    abbrev rounded : F → F
    rounded x = round_to 4 (fmin (product x) policy.max_single_trade_pct)

    rounded_nonneg :
        (x : F)
        → nought ≼ policy.base_risk_per_trade_pct
        → nought ≼ policy.max_single_trade_pct
        → nought ≼ rounded x
    rounded_nonneg x hb hs =
        round_nonneg 4 (fmin (product x) policy.max_single_trade_pct) (omega arith) (
          le-fmin laws (product x) policy.max_single_trade_pct nought
            (product_nonneg _ _ _ _ hb (score_multiplier_nonneg x policy.min_score_to_trade)
              (guarded_nonneg policy regime confidence volatility)
              (volatility_multiplier_nonneg policy volatility))
            hs)

    -- With a base risk and a cap that are not negative, neither is the suggestion.
    pub suggest_risk_pct_nonneg :
        (x : F)
        → nought ≼ policy.base_risk_per_trade_pct
        → nought ≼ policy.max_single_trade_pct
        → nought ≼ suggest_risk_pct policy x regime confidence volatility
    unfolding suggest_risk_pct
    suggest_risk_pct_nonneg x hb hs = ground (arith, le_refl nought, rounded_nonneg x hb hs)

    -- The suggestion is nothing, or at most the rounded cap of a single trade.
    pub suggest_risk_pct-le :
        (x : F)
        → nought ≼ policy.max_single_trade_pct
        → suggest_risk_pct policy x regime confidence volatility
          ≼ round_to 4 policy.max_single_trade_pct
    unfolding suggest_risk_pct
    suggest_risk_pct-le x hs = ground (
      arith,
      round_nonneg 4 policy.max_single_trade_pct (omega arith) hs,
      laws.round_mono 4 (fmin (product x) policy.max_single_trade_pct) policy.max_single_trade_pct
          (fmin-le_right laws (product x) policy.max_single_trade_pct),
    )

    -- For the same regime and volatility and a base risk and a cap that are not negative, a higher
    -- score never suggests less risk.
    pub suggest_risk_pct_mono :
        (x y : F)
        → nought ≼ policy.base_risk_per_trade_pct
        → nought ≼ policy.max_single_trade_pct
        → x ≼ y
        → suggest_risk_pct policy x regime confidence volatility
          ≼ suggest_risk_pct policy y regime confidence volatility
    unfolding suggest_risk_pct
    suggest_risk_pct_mono x y hb hs h =
        let sx = score_multiplier x policy.min_score_to_trade in
        let sy = score_multiplier y policy.min_score_to_trade in
        let top = policy.max_single_trade_pct in
        let step : product x ≼ product y =
          product_mono policy.base_risk_per_trade_pct sx sy _ _ hb
            (score_multiplier_nonneg x policy.min_score_to_trade)
            (score_multiplier_mono x y policy.min_score_to_trade h)
            (guarded_nonneg policy regime confidence volatility)
            (volatility_multiplier_nonneg policy volatility) in
        let capped = fmin_mono laws (product x) top (product y) top step (le_refl top) in
        ground (
          arith,
          le_trans sx sy nought (score_multiplier_mono x y policy.min_score_to_trade h),
          le_refl nought,
          laws.round_mono 4 (fmin (product x) top) (fmin (product y) top) capped,
          rounded_nonneg y hb hs,
        )

-- ===== src/Signals/Bounds.antt =====
-- The bounds of the relative strength index (`_rsi` of apps/api/app/services/indicator_service.py).
use binance_futures_algo_bot.Risk.Scale.{literal_le}
use binance_futures_algo_bot.Risk.Total.{IsPct}
use binance_futures_algo_bot.Common.{
  All-take, ◌-◌, zero, refl, All-drop, suc, inr, drop, [], ◌≤◌, ◌∷◌, take, leb, inl, ◌^◌, map,
  length, Bool-cases, arith, false, ◌<◌, All, ℕ, List, some, ◌≡◌,
}
use binance_futures_algo_bot.Float.{
  ◌⊕◌, ◌⊘◌, ◌⊗◌, ◌⊖◌, round_to, ◌≤?◌, ◌≼◌, dec, Float, nought, fmin, fmax, fabs,
}
use binance_futures_algo_bot.Float.Order.{le-fmax_right, IsFloat}
use binance_futures_algo_bot.Signals.{deltas, strength, running, fmean, average_of, rsi}

module _ {F : Type 0} ⦃f : Float F⦄ (laws : IsFloat F) where
  open laws use {le_refl, le_trans, le_total}

  -- no element is negative
  abbrev AreNonneg : List F → Type 0
  AreNonneg = All λ x. nought ≼ x

  pub above_nought : (x : F) → dec 1 0 ≼ x → (x ≤? nought) ≡ false
  above_nought x h = elim (Bool-cases (x ≤? nought)) [
    | inl e ↦
        let below = le_trans (dec 1 0) x nought h e in
        let one =
          laws.dec_lt 0 0 1 0 (omega arith) (omega arith) (omega arith) (omega arith)
            (omega arith) in
        ground arith
    | inr e ↦ e
  ]

  length-take_le : (n : ℕ) (xs : List F) → length (take n xs) ≤ n
  length-take_le n [] = omega arith
  length-take_le zero (x ∷ xs) = omega arith
  length-take_le (suc n) (x ∷ xs) = omega (arith, length-take_le n xs)

  length-take_pos : (n : ℕ) (xs : List F) → 0 < n → 0 < length xs → 0 < length (take n xs)
  length-take_pos n [] h k = k
  length-take_pos zero (x ∷ xs) h k = h
  length-take_pos (suc n) (x ∷ xs) h k = omega arith

  dec_pos : (n : ℕ) → 0 < n → n < 10 ^ 11 → f.le (f.dec n 0) (f.dec 0 0) ≡ false
  dec_pos n h k = laws.dec_lt 0 0 n 0 (omega arith) (omega arith) (omega arith) k (omega arith)

  running-nonneg :
      (period : ℕ) (xs : List F) (avg : F)
      → 0 < period
      → period < 10 ^ 11
      → AreNonneg xs
      → nought ≼ avg
      → nought ≼ running period xs avg
  unfolding running
  running-nonneg period [] avg h k hs a = a
  running-nonneg period (x ∷ xs) avg h k (hx, hs) a = running-nonneg period xs _ h k hs (
      laws.over_nonneg _ (dec period 0)
        (laws.plus_nonneg (avg ⊗ dec (period - 1) 0) x
          (laws.times_nonneg avg (dec (period - 1) 0) a (laws.dec_nonneg (period - 1) 0)) hx)
        (dec_pos period h k))

  fmean-nonneg :
      (xs : List F) → 0 < length xs → length xs < 10 ^ 11 → AreNonneg xs → nought ≼ fmean xs
  unfolding fmean
  fmean-nonneg xs h k hs =
      laws.over_nonneg (f.fsum xs) (dec (length xs) 0) (laws.fsum_nonneg xs hs)
        (dec_pos (length xs) h k)

  average_of-nonneg :
      (period : ℕ) (xs : List F)
      → 0 < period
      → period < 10 ^ 11
      → 0 < length xs
      → AreNonneg xs
      → nought ≼ average_of period xs
  unfolding average_of
  average_of-nonneg period xs h k some_x hs =
      running-nonneg period (drop period xs) (fmean (take period xs)) h k
        (All-drop (λ x. nought ≼ x) period xs hs)
        (fmean-nonneg (take period xs) (length-take_pos period xs h some_x)
          (below (length (take period xs)) period (length-take_le period xs) k)
          (All-take (λ x. nought ≼ x) period xs hs))
    where
      below : (a b : ℕ) → a ≤ b → b < 10 ^ 11 → a < 10 ^ 11
      below a b p q = omega arith

  fabs_nonneg : (x : F) → nought ≼ fabs x
  unfolding fabs
  fabs_nonneg x = ground (arith, laws.minus_nonneg nought x, le_total nought x)

  gains-nonneg : (ds : List F) → AreNonneg (map (λ delta. fmax delta nought) ds)
  gains-nonneg [] = _
  gains-nonneg (x ∷ ds) = (le-fmax_right laws x nought, gains-nonneg ds)

  losses-nonneg : (ds : List F) → AreNonneg (map (λ delta. fabs (fmin delta nought)) ds)
  losses-nonneg [] = _
  losses-nonneg (x ∷ ds) = (fabs_nonneg (fmin x nought), losses-nonneg ds)

  relative-IsPct :
      (rs : F) → nought ≼ rs → IsPct (round_to 6 (dec 100 0 ⊖ dec 100 0 ⊘ (dec 1 0 ⊕ rs)))
  relative-IsPct rs h =
      let up = laws.le_plus (dec 1 0) rs h in
      let hundred = laws.dec_nonneg 100 0 in
      let q = dec 100 0 ⊘ (dec 1 0 ⊕ rs) in
      let small = laws.over_le (dec 100 0) (dec 1 0 ⊕ rs) hundred up in
      let pos = above_nought (dec 1 0 ⊕ rs) up in
      let q0 = laws.over_nonneg (dec 100 0) (dec 1 0 ⊕ rs) hundred pos in
      (
        rw (laws.round_whole 6 0 (omega arith) (omega arith)) at
            (laws.round_mono 6 nought (dec 100 0 ⊖ q) (laws.minus_nonneg (dec 100 0) q small)),
        rw (laws.round_whole 6 100 (omega arith) (omega arith)) at
            (laws.round_mono 6 (dec 100 0 ⊖ q) (dec 100 0) (laws.minus_le (dec 100 0) q q0)),
      )

  strength-IsPct :
      (avg_gain avg_loss : F)
      → nought ≼ avg_gain
      → nought ≼ avg_loss
      → IsPct (strength avg_gain avg_loss)
  unfolding strength
  strength-IsPct g l hg hl = elim (Bool-cases (l ≤? nought)) [
    | inl e ↦ ground (
      arith,
      laws.dec_nonneg 500 1,
      laws.dec_nonneg 1000 1,
      literal_le laws 500 1 100 0 refl,
      literal_le laws 1000 1 100 0 refl,
    )
    | inr e ↦ rw e (relative-IsPct (g ⊘ l) (laws.over_nonneg g l hg e))
  ]

  -- The relative strength index of any prices is a percentage, where there is one: for a period that
  -- is not 0 and below 10 ** 11.
  pub rsi-IsPct :
      (values : List F) (period : ℕ) (x : F)
      → 0 < period
      → period < 10 ^ 11
      → rsi values period ≡ some x
      → (nought ≼ x) × (x ≼ dec 100 0)
  unfolding rsi
  rsi-IsPct values period x h k e = elim (Bool-cases (leb (length values) period)) [
    | inl b ↦ let gone = rw b at e in ground arith
    | inr b ↦
        let ds = deltas values in
        let found = rw b at e in
        let same : strength (average_of period (map (λ delta. fmax delta nought) ds))
              (average_of period (map (λ delta. fabs (fmin delta nought)) ds))
            ≡ x =
          ground arith in
        let long : 0 < length ds = deltas_pos values (omega_long (length values) period h b) in
        rw same at (
          strength-IsPct _ _
            (average_of-nonneg period _ h k (map_pos (λ delta. fmax delta nought) ds long)
              (gains-nonneg ds))
            (average_of-nonneg period _ h k (map_pos (λ delta. fabs (fmin delta nought)) ds long)
              (losses-nonneg ds)))
  ]
    where
      omega_long : (n m : ℕ) → 0 < m → leb n m ≡ false → 2 ≤ n
      omega_long n m p q = ground arith

      map_pos : (g : F → F) (xs : List F) → 0 < length xs → 0 < length (map g xs)
      map_pos g [] p = p
      map_pos g (x ∷ xs) p = omega arith

      deltas_pos : (xs : List F) → 2 ≤ length xs → 0 < length (deltas xs)
      deltas_pos [] p = omega (arith, p)
      deltas_pos (x ∷ []) p = omega (arith, p)
      deltas_pos (x ∷ y ∷ xs) p = omega arith

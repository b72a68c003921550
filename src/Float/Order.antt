-- ===== src/Float/Order.antt =====
-- The laws of IEEE 754 arithmetic that the proofs use, for doubles that are not NaN: the order is
-- total, rounding is monotone, and short decimals survive it.
use binance_futures_algo_bot.Common.{
  List, All, ℕ, ◌+◌, ◌*◌, ◌^◌, ◌≤◌, ◌<◌, ◌≡◌, ◌⊎◌, true, false, arith,
}
use binance_futures_algo_bot.Float.{
  Float, ◌⊘◌, ◌⊕◌, ◌⊖◌, ◌⊗◌, ◌≤?◌, ◌<?◌, ◌≼◌, dec, nought, round_to, fmin, fmax,
}

pub record IsFloat (F : Type 0) ⦃f : Float F⦄ : Type 0 where
  pub le_refl : (x : F) → x ≼ x
  pub le_trans : (x y z : F) → x ≼ y → y ≼ z → x ≼ z
  pub le_total : (x y : F) → (x ≼ y) ⊎ (y ≼ x)
  -- the literal nearest to a decimal keeps the order, strictly so up to 15 digits
  pub dec_le : (n k m j : ℕ) → k ≤ 4 → j ≤ 4 → n * 10 ^ j ≤ m * 10 ^ k → f.dec n k ≼ f.dec m j
  pub dec_lt :
      (n k m j : ℕ)
      → k ≤ 4
      → j ≤ 4
      → n < 10 ^ 11
      → m < 10 ^ 11
      → n * 10 ^ j < m * 10 ^ k
      → f.le (f.dec m j) (f.dec n k) ≡ false
  pub dec_nonneg : (n k : ℕ) → nought ≼ f.dec n k
  pub plus_mono : (a b c d : F) → a ≼ b → c ≼ d → a ⊕ c ≼ b ⊕ d
  pub minus_mono : (a b c d : F) → a ≼ b → d ≼ c → a ⊖ c ≼ b ⊖ d
  pub times_mono : (a b c d : F) → nought ≼ a → a ≼ b → nought ≼ c → c ≼ d → a ⊗ c ≼ b ⊗ d
  pub plus_nonneg : (a b : F) → nought ≼ a → nought ≼ b → nought ≼ a ⊕ b
  pub minus_nonneg : (a b : F) → b ≼ a → nought ≼ a ⊖ b
  pub minus_nonpos : (a b : F) → a ≼ b → a ⊖ b ≼ nought
  -- a difference or sum with what is not negative, which rounding may leave unchanged
  pub minus_le : (a b : F) → nought ≼ b → a ⊖ b ≼ a
  pub le_plus : (a b : F) → nought ≼ b → a ≼ a ⊕ b
  pub times_nonneg : (a b : F) → nought ≼ a → nought ≼ b → nought ≼ a ⊗ b
  pub round_mono : (k : ℕ) (a b : F) → a ≼ b → round_to k a ≼ round_to k b
  pub round_whole : (k n : ℕ) → k ≤ 6 → n < 10 ^ 11 → f.round_to k (f.dec n 0) ≡ f.dec n 0
  pub over_nonneg : (a b : F) → nought ≼ a → (b ≤? nought) ≡ false → nought ≼ a ⊘ b
  pub over_le : (a b : F) → nought ≼ a → dec 1 0 ≼ b → a ⊘ b ≼ a
  pub over_le_one : (a b : F) → nought ≼ a → a ≼ b → (b ≤? nought) ≡ false → a ⊘ b ≼ dec 1 0
  pub one_times_le : (n : ℕ) → dec 1 0 ⊗ f.dec n 0 ≼ f.dec n 0
  pub fsum_nonneg : (xs : List F) → All (λ x. nought ≼ x) xs → nought ≼ f.fsum xs
  pub sum_nonneg : (xs : List F) → All (λ x. nought ≼ x) xs → nought ≼ f.sum xs
  -- an error of one rounding in 0 to 100 is far below half of 0.0001
  pub round_cancel :
      (b l : F)
      → nought ≼ b
      → b ≼ l
      → l ≼ dec 100 0
      → round_to 4 l ≡ l
      → round_to 4 (b ⊕ (l ⊖ b)) ≡ l
  -- two shares of 100 in hundredths that make up the whole, each product and the sum rounded
  pub share_le : (n m : ℕ) → n + m ≡ 100 → dec 100 0 ⊗ f.dec n 2 ⊕ dec 100 0 ⊗ f.dec m 2 ≼ dec 100 0

module _ {F : Type 0} ⦃f : Float F⦄ (laws : IsFloat F) where
  open laws use {le_refl, le_trans, le_total}

  pub lt_le : (a b : F) → (a <? b) ≡ true → a ≼ b
  lt_le a b h = ground (arith, le_total a b)

  pub fmin-le_left : (a b : F) → fmin a b ≼ a
  unfolding fmin
  fmin-le_left a b = ground (arith, le_total a b, le_refl a)

  pub fmin-le_right : (a b : F) → fmin a b ≼ b
  unfolding fmin
  fmin-le_right a b = ground (arith, le_total a b, le_refl b)

  pub le-fmin : (a b c : F) → c ≼ a → c ≼ b → c ≼ fmin a b
  unfolding fmin
  le-fmin a b c p q = ground arith

  pub le-fmax_left : (a b : F) → a ≼ fmax a b
  unfolding fmax
  le-fmax_left a b = ground (arith, le_total a b, le_refl a)

  pub le-fmax_right : (a b : F) → b ≼ fmax a b
  unfolding fmax
  le-fmax_right a b = ground (arith, le_total a b, le_refl b)

  pub fmax-le : (a b c : F) → a ≼ c → b ≼ c → fmax a b ≼ c
  unfolding fmax
  fmax-le a b c p q = ground arith

  pub fmin_mono : (a b c d : F) → a ≼ c → b ≼ d → fmin a b ≼ fmin c d
  fmin_mono a b c d p q =
      le-fmin c d (fmin a b) (le_trans _ _ _ (fmin-le_left a b) p)
        (le_trans _ _ _ (fmin-le_right a b) q)

  -- the clamp `max(0.0, min(100.0, x))`
  pub clamp_bounds :
      (lo hi x : F) → lo ≼ hi → (lo ≼ fmax lo (fmin hi x)) × (fmax lo (fmin hi x) ≼ hi)
  clamp_bounds lo hi x h =
      (le-fmax_left lo (fmin hi x), fmax-le lo (fmin hi x) hi h (fmin-le_left hi x))

  pub not_le-le : (a b : F) → (a ≤? b) ≡ false → b ≼ a
  not_le-le a b h = ground (arith, le_total a b)

  -- what is left under a limit is positive only below the limit
  pub le_of_minus_pos : (l b : F) → ((l ⊖ b) ≤? nought) ≡ false → b ≼ l
  le_of_minus_pos l b h = ground (arith, le_total l b, laws.minus_nonpos l b)

  -- what lies above a number that exceeds `z` exceeds it too
  pub above_mono : (x y z : F) → x ≼ y → (x ≤? z) ≡ false → (y ≤? z) ≡ false
  above_mono x y z p h = ground (arith, le_trans x y z p)

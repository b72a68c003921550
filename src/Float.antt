-- ===== src/Float.antt =====
-- Python's `float`, as far as the program uses it: decimal literals, `<=` and `<`, the four
-- operations, `round(x, k)`, `math.floor`, `math.ceil`, `math.fsum`, `sum`, `abs`, `min`, `max`,
-- `int` and `math.log10`. The type stands for the
-- doubles that are not NaN, so that `x < y` is the negation of `y <= x`.
pub mod Order
pub mod Fixed
use binance_futures_algo_bot.Common.Int.{ℤ}
use binance_futures_algo_bot.Common.{List, ℕ, ◌≡◌, Bool, true, not, ◌&&◌, if◌then◌else◌}

pub record Float (F : Type 0) : Type 0 where
  -- `dec n k` is the literal n / 10 ** k
  pub dec : ℕ → ℕ → F
  pub le : F → F → Bool
  pub plus : F → F → F
  pub minus : F → F → F
  pub times : F → F → F
  pub over : F → F → F
  -- `round_to k x` is `round(x, k)`
  pub round_to : ℕ → F → F
  pub floor : F → F
  pub ceil : F → F
  -- `math.log10` of what is above 0, and `int(x)`
  pub log10 : F → F
  pub trunc : F → ℤ
  -- the sum of `statistics.fmean`, which is rounded once
  pub fsum : List F → F
  -- the built-in `sum` of a list
  pub sum : List F → F

module _ {F : Type 0} ⦃f : Float F⦄ where
  infixl 65 ◌⊕◌ ◌⊖◌
  infixl 70 ◌⊗◌ ◌⊘◌
  infix 50 ◌≤?◌ ◌<?◌
  infix 4 ◌≼◌
  abbrev pub ◌⊕◌ : F → F → F
  a ⊕ b = f.plus a b

  abbrev pub ◌⊖◌ : F → F → F
  a ⊖ b = f.minus a b

  abbrev pub ◌⊗◌ : F → F → F
  a ⊗ b = f.times a b

  abbrev pub ◌⊘◌ : F → F → F
  a ⊘ b = f.over a b

  abbrev pub ◌≤?◌ : F → F → Bool
  a ≤? b = f.le a b

  abbrev pub ◌<?◌ : F → F → Bool
  a <? b = not (f.le b a)

  abbrev pub ◌≼◌ : F → F → Type 0
  a ≼ b = f.le a b ≡ true

  abbrev pub dec : ℕ → ℕ → F
  dec = f.dec

  abbrev pub nought : F
  nought = f.dec 0 0

  abbrev pub round_to : ℕ → F → F
  round_to = f.round_to

  -- `min(a, b)` and `max(a, b)` keep the first of two equal arguments
  unfoldable pub fmin : F → F → F
  fmin a b = if b <? a then b else a

  unfoldable pub fmax : F → F → F
  fmax a b = if a <? b then b else a

  -- `a == b`
  abbrev pub feq : F → F → Bool
  feq a b = (a ≤? b) && (b ≤? a)

  unfoldable pub fabs : F → F
  fabs a = if a <? nought then nought ⊖ a else a

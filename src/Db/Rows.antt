-- ===== src/Db/Rows.antt =====
-- Rows that are changed by their id: an assignment to attributes of a loaded object, and the first
-- or last row of a query.
use binance_futures_algo_bot.Common.{
  length, refl, arith, ◌≡◌, [], ◌==◌, some, none, if◌then◌else◌, ◌∷◌, Option, List, ℕ,
}

module _ {A : Type 0} where
  -- an assignment to attributes of the object with this id
  unfoldable pub update_row : (A → ℕ) → ℕ → (A → A) → List A → List A
  update_row key i g [] = []
  update_row key i g (x ∷ xs) =
      let rest = update_row key i g xs in if key x == i then g x ∷ rest else x ∷ rest

  -- `.first()`
  abbrev pub first : List A → Option A
  first [] = none
  first (x ∷ xs) = some x

  -- the last row, which is the first of a descending order
  unfoldable pub last_row : List A → Option A
  last_row [] = none
  last_row (x ∷ []) = some x
  last_row (x ∷ y ∷ xs) = last_row (y ∷ xs)

  -- two assignments to the same row
  pub update_row-update_row :
      (key : A → ℕ) (i : ℕ) (g h : A → A) (xs : List A)
      → ((x : A) → key (g x) ≡ key x)
      → update_row key i h (update_row key i g xs) ≡ update_row key i (λ x. h (g x)) xs
  unfolding update_row
  update_row-update_row key i g h [] same = refl
  update_row-update_row key i g h (x ∷ xs) same =
      ground (arith, update_row-update_row key i g h xs same, same x)

  pub length-update_row :
      (key : A → ℕ) (i : ℕ) (g : A → A) (xs : List A) → length (update_row key i g xs) ≡ length xs
  unfolding update_row
  length-update_row key i g [] = refl
  length-update_row key i g (x ∷ xs) = ground (arith, length-update_row key i g xs)

-- ===== src/Db/Counts.antt =====
-- How many rows of a table have a property, after rows are added and changed by their id.
use binance_futures_algo_bot.Common.{
  ◌∙◌, sym, ◌==◌, refl, inr, ap, ◌⊎◌, suc, inl, false, arith, [], Bool-cases, ◌≤◌, ◌≡◌, ◌∷◌, ◌<◌,
  ◌+◌, ◌++◌, true, length, select, List, Bool, some, ℕ,
}
use binance_futures_algo_bot.Db.Rows.{update_row, last_row}

abbrev pub bit : Bool → ℕ
bit true = 1
bit false = 0

module _ {A : Type 0} where
  abbrev pub count : (A → Bool) → List A → ℕ
  count p xs = length (select p xs)

  pub count-append :
      (p : A → Bool) (xs : List A) (y : A) → count p (xs ++ y ∷ []) ≡ count p xs + bit (p y)
  unfolding select
  count-append p [] y = ground arith
  count-append p (x ∷ xs) y = ground (arith, count-append p xs y)

  pub count-update_row_same :
      (p : A → Bool) (key : A → ℕ) (i : ℕ) (g : A → A) (xs : List A)
      → ((x : A) → p (g x) ≡ p x)
      → count p (update_row key i g xs) ≡ count p xs
  unfolding select update_row
  count-update_row_same p key i g [] h = refl
  count-update_row_same p key i g (x ∷ xs) h =
      ground (arith, count-update_row_same p key i g xs h, h x)

  pub count-update_row_le :
      (p : A → Bool) (key : A → ℕ) (i : ℕ) (g : A → A) (xs : List A)
      → ((x : A) → p (g x) ≡ false)
      → count p (update_row key i g xs) ≤ count p xs
  unfolding select update_row
  count-update_row_le p key i g [] h = omega arith
  count-update_row_le p key i g (x ∷ xs) h = ground (arith, count-update_row_le p key i g xs h, h x)

  last_row-cons :
      (y x : A) (ys : List A) → last_row (y ∷ ys) ≡ some x → (y ≡ x) ⊎ (last_row ys ≡ some x)
  unfolding last_row
  last_row-cons y x [] h = inl (ground arith)
  last_row-cons y x (z ∷ zs) h = inr h

  module _ (key : A → ℕ) where
    -- The ids are the rows' numbers, after the first `n`.
    abbrev pub IsRowed : ℕ → List A → Type 0
    IsRowed n [] = Unit
    IsRowed n (x ∷ xs) = (key x ≡ suc n) × IsRowed (suc n) xs

    pub IsRowed-append :
        (n : ℕ) (xs : List A) (y : A)
        → IsRowed n xs
        → key y ≡ suc (n + length xs)
        → IsRowed n (xs ++ y ∷ [])
    IsRowed-append n [] y h e = (omega arith, tt)
    IsRowed-append n (x ∷ xs) y (hx, h) e = (hx, IsRowed-append (suc n) xs y h (omega arith))

    pub IsRowed-update_row :
        (n i : ℕ) (g : A → A) (xs : List A)
        → ((x : A) → key (g x) ≡ key x)
        → IsRowed n xs
        → IsRowed n (update_row key i g xs)
    unfolding update_row
    IsRowed-update_row n i g [] same h = h
    IsRowed-update_row n i g (x ∷ xs) same (hx, h) = elim (Bool-cases (key x == i)) [
      | inl e ↦ rw e (same x ∙ hx, IsRowed-update_row (suc n) i g xs same h)
      | inr e ↦ rw e (hx, IsRowed-update_row (suc n) i g xs same h)
    ]

    update_row-below :
        (n i : ℕ) (g : A → A) (xs : List A) → IsRowed n xs → i ≤ n → update_row key i g xs ≡ xs
    unfolding update_row
    update_row-below n i g [] h below = refl
    update_row-below n i g (x ∷ xs) (hx, h) below =
        ground (arith, update_row-below (suc n) i g xs h)

    -- `x` is one of the rows
    abbrev pub Among : A → List A → Type 0
    Among x [] = ⊥
    Among x (y ∷ ys) = (y ≡ x) ⊎ Among x ys

    Among-key : (n : ℕ) (x : A) (xs : List A) → IsRowed n xs → Among x xs → n < key x
    Among-key n x [] h a = absurd a
    Among-key n x (y ∷ ys) (hy, h) (inl e) =
        let k : key x ≡ suc n = ap key (sym e) ∙ hy in omega arith
    Among-key n x (y ∷ ys) (hy, h) (inr a) = let k = Among-key (suc n) x ys h a in omega arith

    pub last_row-Among :
        (q : A → Bool) (x : A) (xs : List A)
        → last_row (select q xs) ≡ some x
        → Among x xs × (q x ≡ true)
    unfolding last_row select
    last_row-Among q x [] h = ground arith
    last_row-Among q x (y ∷ ys) h = elim (Bool-cases (q y)) [
      | inl e ↦ elim (last_row-cons y x (select q ys) (rw e at h)) [
        | inl here ↦ (inl here, ap q (sym here) ∙ e)
        | inr later ↦ let (a, qx) = last_row-Among q x ys later in (inr a, qx)
      ]
      | inr e ↦ let (a, qx) = last_row-Among q x ys (rw e at h) in (inr a, qx)
    ]

    -- The change of one row.
    pub count-update_row :
        (p : A → Bool) (n : ℕ) (g : A → A) (x : A) (xs : List A)
        → IsRowed n xs
        → Among x xs
        → count p (update_row key (key x) g xs) + bit (p x) ≡ count p xs + bit (p (g x))
    unfolding select update_row
    count-update_row p n g x [] h a = absurd a
    count-update_row p n g x (y ∷ ys) (hy, h) (inl e) =
        let own : key x ≡ suc n = ap key (sym e) ∙ hy in
        ground (arith, update_row-below (suc n) (key x) g ys h)
    count-update_row p n g x (y ∷ ys) (hy, h) (inr a) =
        let k = Among-key (suc n) x ys h a in ground (arith, count-update_row p (suc n) g x ys h a)

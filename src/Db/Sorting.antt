-- ===== src/Db/Sorting.antt =====
-- A dict as a list of its items: assignment to a key, and `sorted` by the keys.
use binance_futures_algo_bot.Common.{
  ◌&&◌, ◌==◌, ◌||◌, ltb, if◌then◌else◌, false, [], ◌∷◌, true, String, Bool, List,
}
use binance_futures_algo_bot.Common.Texts.{Text, codes, text_eq}

-- `<=` on texts
unfoldable pub text_leb : Text → Text → Bool
text_leb [] t = true
text_leb (c ∷ s) [] = false
text_leb (c ∷ s) (d ∷ t) = ltb c d || c == d && text_leb s t

module _ {V : Type 0} where
  -- `items[key] = value`
  unfoldable pub put_key : String → V → List (String × V) → List (String × V)
  put_key key value [] = (key, value) ∷ []
  put_key key value ((k, v) ∷ items) =
      let rest = put_key key value items in
      if text_eq (codes k) (codes key) then (k, value) ∷ items else (k, v) ∷ rest

  insert_key : String × V → List (String × V) → List (String × V)
  unfolding text_leb
  insert_key x [] = x ∷ []
  insert_key x (y ∷ ys) =
      let rest = insert_key x ys in
      if text_leb (codes x.0) (codes y.0) then x ∷ y ∷ ys else y ∷ rest

  -- `sorted(items)`, where no key occurs twice
  unfoldable pub sorted_items : List (String × V) → List (String × V)
  unfolding insert_key
  sorted_items [] = []
  sorted_items (x ∷ xs) = insert_key x (sorted_items xs)

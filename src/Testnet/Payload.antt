-- ===== src/Testnet/Payload.antt =====
-- The JSON dicts that the exchange answers, and what the service reads of them
-- (apps/api/app/services/testnet_trading_service.py).
use binance_futures_algo_bot.Common.{Option, none, some}
use binance_futures_algo_bot.Common.{
  refl, inr, inl, ◌&&◌, some, Bool-cases, not, none, is_empty, arith, [], ◌≡◌, ◌∷◌, true,
  if◌then◌else◌, false, Option, Bool, List,
}
use binance_futures_algo_bot.Common.Texts.{
  text_eq-eq, text_eq_refl, Text, codes, text_eq, text_in, lower, strip,
}
use binance_futures_algo_bot.Common.Int.{ℤ, pos}
use binance_futures_algo_bot.Common.Json.{Json, null, text, number, flag, nested}
use binance_futures_algo_bot.Float.{◌⊘◌, ◌≤?◌, dec, ◌⊗◌, feq, ◌⊕◌, ◌<?◌, Float, nought}

-- what is read, or the value that the caller falls back on
abbrev pub or_else {ℓ} : {A : Type ℓ} → Option A → A → A
or_else none fallback = fallback
or_else (some x) fallback = x

abbrev pub Payload : Type 0 → Type 0
Payload F = List (Text × Json F)

module _ {F : Type 0} where
  -- `payload.get(key)`
  unfoldable pub get : Text → Payload F → Json F
  get key [] = null
  get key ((k, v) ∷ items) = let rest = get key items in if text_eq k key then v else rest

  -- `payload[key] = value`
  unfoldable pub put : Text → Json F → Payload F → Payload F
  put key value [] = (key, value) ∷ []
  put key value ((k, v) ∷ items) =
      let rest = put key value items in if text_eq k key then (k, value) ∷ items else (k, v) ∷ rest

  pub get-put : (key : Text) (v : Json F) (p : Payload F) → get key (put key v p) ≡ v
  unfolding get put
  get-put key v [] = ground (arith, text_eq_refl key)
  get-put key v ((k, u) ∷ p) = ground (arith, get-put key v p)

  pub get-put_other :
      (key other : Text) (v : Json F) (p : Payload F)
      → text_eq key other ≡ false
      → get other (put key v p) ≡ get other p
  unfolding get put
  get-put_other key other v [] h = ground arith
  get-put_other key other v ((k, u) ∷ p) h = elim (Bool-cases (text_eq k key)) [
    | inl e ↦
        let same = text_eq-eq k key e in
        let apart : text_eq k other ≡ false = rw same h in rw (e, apart) refl
    | inr e ↦ ground (arith, get-put_other key other v p h)
  ]

  -- `value in (None, "")`
  unfoldable pub is_blank : Json F → Bool
  is_blank null = true
  is_blank (text t) = is_empty t
  is_blank (number x t) = false
  is_blank (flag b) = false
  is_blank (nested b t) = false

  -- `value == "0"`
  unfoldable pub is_zero_text : Json F → Bool
  unfolding text_eq
  is_zero_text null = false
  is_zero_text (text t) = text_eq t (codes "0")
  is_zero_text (number x t) = false
  is_zero_text (flag b) = false
  is_zero_text (nested b t) = false

  -- `value is None`
  unfoldable pub is_null : Json F → Bool
  is_null null = true
  is_null (text t) = false
  is_null (number x t) = false
  is_null (flag b) = false
  is_null (nested b t) = false

  -- `str(value)`
  unfoldable pub str : Json F → Text
  str null = codes "None"
  str (text t) = t
  str (number x t) = t
  str (flag b) = if b then codes "True" else codes "False"
  str (nested b t) = t

module _ {F : Type 0} ⦃f : Float F⦄ where
  -- `int(value)`, where `parse` is `int` of a text, and `none` a `ValueError` or `TypeError`
  unfoldable pub int_of : (Text → Option ℤ) → Json F → Option ℤ
  int_of parse null = none
  int_of parse (text t) = parse t
  int_of parse (number x t) = some (f.trunc x)
  int_of parse (flag b) = some (if b then pos 1 else pos 0)
  int_of parse (nested b t) = none

  -- `value or other` holds the value if this is true
  unfoldable pub is_truthy : Json F → Bool
  is_truthy null = false
  is_truthy (text t) = not (is_empty t)
  is_truthy (number x t) = not (feq x nought)
  is_truthy (flag b) = b
  is_truthy (nested b t) = b

  -- `str(value or other)`
  unfoldable pub str_or : Json F → Text → Text
  unfolding is_truthy str
  str_or v other = if is_truthy v then str v else other

  -- `str(value or other).strip().lower()`
  unfoldable pub word : Json F → Text → Text
  unfolding str_or
  word v other = lower (strip (str_or v other))

  -- `float(value)`, where `parse` is `float` of a text, and `none` an exception
  module _ (parse : Text → Option F) where
    unfoldable pub float_of : Json F → Option F
    float_of null = none
    float_of (text t) = parse t
    float_of (number x t) = some x
    float_of (flag b) = some (if b then dec 1 0 else nought)
    float_of (nested b t) = none

    unfoldable pub to_float : Json F → F → F
    unfolding float_of
    to_float v fallback = or_else (float_of v) fallback

    -- `_extract_fill_price`
    unfoldable pub extract_fill_price : Payload F → F → F
    unfolding to_float get word
    extract_fill_price order fallback =
        let avg_price = to_float (get (codes "avgPrice") order) nought in
        let status = word (get (codes "status") order) [] in
        let price = to_float (get (codes "price") order) nought in
        let executed_qty = to_float (get (codes "executedQty") order) nought in
        let cum_quote = to_float (get (codes "cumQuote") order) nought in
        if nought <? avg_price
        then avg_price
        else if (nought <? price) && text_in status (codes "filled" ∷ codes "partially_filled" ∷ [])
        then price
        else if (nought <? executed_qty) && (nought <? cum_quote)
        then cum_quote ⊘ executed_qty
        else fallback

    -- `total_qty` and `total_quote` of the loop over the trades
    unfoldable pub sum_trades : List (Payload F) → F → F → F × F
    unfolding to_float get
    sum_trades [] total_qty total_quote = (total_qty, total_quote)
    sum_trades (trade ∷ trades) total_qty total_quote =
        let qty = to_float (get (codes "qty") trade) nought in
        let price = to_float (get (codes "price") trade) nought in
        let quote_qty = to_float (get (codes "quoteQty") trade) nought in
        let quote = if nought <? quote_qty then quote_qty else price ⊗ qty in
        if qty ≤? nought
        then sum_trades trades total_qty total_quote
        else sum_trades trades (total_qty ⊕ qty) (total_quote ⊕ quote)

    -- `_extract_fill_price_from_trades`
    unfoldable pub extract_fill_price_from_trades : List (Payload F) → F → F
    unfolding sum_trades
    extract_fill_price_from_trades trades fallback =
        let (total_qty, total_quote) = sum_trades trades nought nought in
        if (nought <? total_qty) && (nought <? total_quote)
        then total_quote ⊘ total_qty
        else fallback

    unfoldable pub sum_quantities : List (Payload F) → F → F
    unfolding to_float get
    sum_quantities [] total_qty = total_qty
    sum_quantities (trade ∷ trades) total_qty =
        sum_quantities trades (total_qty ⊕ to_float (get (codes "qty") trade) nought)

    -- `_extract_executed_quantity_from_trades`
    unfoldable pub extract_executed_quantity_from_trades : List (Payload F) → F → F
    unfolding sum_quantities
    extract_executed_quantity_from_trades trades fallback =
        let total_qty = sum_quantities trades nought in
        if nought <? total_qty then total_qty else fallback

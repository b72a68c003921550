-- ===== src/Testnet/Merge.antt =====
-- What a refreshed answer of the exchange can change in an order (`_confirm_exchange_order` of
-- apps/api/app/services/testnet_trading_service.py).
use binance_futures_algo_bot.Common.Json.{Json, null, text, number, flag, nested}
use binance_futures_algo_bot.Common.{
  refl, leb, ◌∷◌, false, ◌&&◌, inr, inl, ◌==◌, Bool-cases, true, [], if◌then◌else◌, arith, ℕ, ◌≡◌,
  ◌≤◌, Option, none, some,
}
use binance_futures_algo_bot.Common.Texts.{strip, lower, text_eq-eq, text_in, Text, codes, text_eq}
use binance_futures_algo_bot.Float.{◌<?◌, Float, nought}
use binance_futures_algo_bot.Float.Order.{IsFloat}
use binance_futures_algo_bot.Testnet.Payload.{
  or_else, to_float, get-put_other, get-put, Payload, get, put, word, is_blank, float_of,
}
use binance_futures_algo_bot.Testnet.Status.{
  prefer_number, prefer_status, rank, prefer_refresh_value, merge_refreshed,
}

le_trans : (a b c : ℕ) → a ≤ b → b ≤ c → a ≤ c
le_trans a b c p q = omega arith

preferred-le : (a b : ℕ) → (if a == 0 && b == 0 then false else leb a b) ≡ true → a ≤ b
preferred-le a b h = ground arith

module _ {F : Type 0} ⦃f : Float F⦄ where
  -- the rank of an order's status
  abbrev pub status_rank : Payload F → ℕ
  status_rank order = rank (word (get (codes "status") order) [])

module _ {F : Type 0} ⦃f : Float F⦄ (parse : Text → Option F) where
  prefer_status-rank :
      (original refreshed : Text)
      → prefer_status original refreshed ≡ true
      → rank original ≤ rank refreshed
  unfolding prefer_status
  prefer_status-rank original refreshed = preferred-le (rank original) (rank refreshed)

  is_blank-rank : (v : Json F) → is_blank v ≡ true → rank (word v []) ≡ 0
  unfolding is_blank rank word text_in text_eq lower strip
  is_blank-rank null h = refl
  is_blank-rank (text []) h = refl
  is_blank-rank (text (c ∷ t)) h = ground arith
  is_blank-rank (number x t) h = ground arith
  is_blank-rank (flag b) h = ground arith
  is_blank-rank (nested b t) h = ground arith

  prefer_refresh_value-rank :
      (original refreshed : Json F)
      → prefer_refresh_value parse (codes "status") original refreshed ≡ true
      → rank (word original []) ≤ rank (word refreshed [])
  unfolding prefer_refresh_value
  prefer_refresh_value-rank original refreshed h = elim (Bool-cases (is_blank refreshed)) [
    | inl b ↦ let refused = rw b at h in ground arith
    | inr b ↦ elim (Bool-cases (is_blank original)) [
      | inl c ↦ omega (arith, is_blank-rank original c)
      | inr c ↦ prefer_status-rank (word original []) (word refreshed []) (rw (b, c) at h)
    ]
  ]

  -- one item of the refreshed answer
  merge_item : Text → Json F → Payload F → Payload F
  merge_item key value merged =
      if prefer_refresh_value parse key (get key merged) value then put key value merged else merged

  merge_item-rank :
      (key : Text) (value : Json F) (merged : Payload F)
      → status_rank merged ≤ status_rank (merge_item key value merged)
  unfolding merge_item
  merge_item-rank key value merged =
      elim (Bool-cases (prefer_refresh_value parse key (get key merged) value)) [
        | inr b ↦ rw b (omega arith)
        | inl b ↦ elim (Bool-cases (text_eq key (codes "status"))) [
          | inl c ↦
              let same = text_eq-eq key (codes "status") c in
              let preferred = rw same at b in
              rw (same, preferred, get-put (codes "status") value merged)
                (prefer_refresh_value-rank (get (codes "status") merged) value preferred)
          | inr c ↦ rw (b, get-put_other key (codes "status") value merged c) (omega arith)
        ]
      ]

  -- Merging a refreshed answer into an order never lowers the rank of the order's status.
  pub merge_refreshed-rank :
      (order refreshed : Payload F)
      → status_rank order ≤ status_rank (merge_refreshed parse order refreshed)
  unfolding merge_refreshed merge_item
  merge_refreshed-rank order [] = omega arith
  merge_refreshed-rank order ((key, value) ∷ refreshed) =
      le_trans (status_rank order) (status_rank (merge_item key value order)) _
        (merge_item-rank key value order)
        (merge_refreshed-rank (merge_item key value order) refreshed)

  -- a number of the order is positive
  abbrev pub IsPositive : Text → Payload F → Type 0
  IsPositive key order = (nought <? to_float parse (get key order) nought) ≡ true

  module _ (laws : IsFloat F) (no_empty : parse [] ≡ none) where
    prefer_number-positive :
        (a b : Option F)
        → prefer_number a b ≡ true
        → (nought <? or_else a nought) ≡ true
        → (nought <? or_else b nought) ≡ true
    unfolding prefer_number
    prefer_number-positive none b h k = ground arith
    prefer_number-positive (some a) none h k = ground arith
    prefer_number-positive (some a) (some b) h k = ground arith

    is_blank-positive :
        (v : Json F) → is_blank v ≡ true → (nought <? to_float parse v nought) ≡ false
    unfolding is_blank to_float float_of
    is_blank-positive null h = ground (arith, laws.le_refl nought)
    is_blank-positive (text []) h = rw no_empty (ground (arith, laws.le_refl nought))
    is_blank-positive (text (c ∷ t)) h = ground arith
    is_blank-positive (number x t) h = ground arith
    is_blank-positive (flag b) h = ground arith
    is_blank-positive (nested b t) h = ground arith

    prefer_refresh_value-IsPositive :
        (key : Text) (original refreshed : Json F)
        → text_eq key (codes "status") ≡ false
        → prefer_refresh_value parse key original refreshed ≡ true
        → (nought <? to_float parse original nought) ≡ true
        → (nought <? to_float parse refreshed nought) ≡ true
    unfolding prefer_refresh_value to_float
    prefer_refresh_value-IsPositive key original refreshed other h k =
        elim (Bool-cases (is_blank refreshed)) [
          | inl b ↦ let refused = rw b at h in ground arith
          | inr b ↦ elim (Bool-cases (is_blank original)) [
            | inl c ↦ let nothing = is_blank-positive original c in ground arith
            | inr c ↦
                prefer_number-positive (float_of parse original) (float_of parse refreshed)
                  (rw (b, c, other) at h) k
          ]
        ]

    merge_item-IsPositive :
        (key item : Text) (value : Json F) (merged : Payload F)
        → text_eq key (codes "status") ≡ false
        → IsPositive key merged
        → IsPositive key (merge_item item value merged)
    unfolding merge_item
    merge_item-IsPositive key item value merged other h =
        elim (Bool-cases (prefer_refresh_value parse item (get item merged) value)) [
          | inr b ↦ rw b h
          | inl b ↦ elim (Bool-cases (text_eq item key)) [
            | inl c ↦
                let same = text_eq-eq item key c in
                let preferred = rw same at b in
                rw (same, preferred, get-put key value merged)
                  (prefer_refresh_value-IsPositive key (get key merged) value other preferred h)
            | inr c ↦ rw (b, get-put_other item key value merged c) h
          ]
        ]

    -- A number of the order that was positive, as the executed quantity or the average price, is
    -- positive after the refresh as well, for every key but the status; `float` of the empty text
    -- raises.
    pub merge_refreshed-IsPositive :
        (key : Text) (order refreshed : Payload F)
        → text_eq key (codes "status") ≡ false
        → IsPositive key order
        → IsPositive key (merge_refreshed parse order refreshed)
    unfolding merge_refreshed merge_item
    merge_refreshed-IsPositive key order [] other h = h
    merge_refreshed-IsPositive key order ((item, value) ∷ refreshed) other h =
        merge_refreshed-IsPositive key (merge_item item value order) refreshed other
          (merge_item-IsPositive key item value order other h)

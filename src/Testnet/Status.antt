-- ===== src/Testnet/Status.antt =====
-- The statuses of orders: their normal forms, and which of two answers is kept
-- (apps/api/app/services/testnet_trading_service.py).
use binance_futures_algo_bot.Common.{not, Option, none, some}
use binance_futures_algo_bot.Common.{
  leb, ◌&&◌, true, ◌∷◌, ◌==◌, false, [], if◌then◌else◌, Option, ℕ, Bool,
}
use binance_futures_algo_bot.Common.Texts.{text_in, Text, codes, text_eq}
use binance_futures_algo_bot.Float.{◌<?◌, ◌⊖◌, ◌≤?◌, ◌⊗◌, dec, fmax, Float, nought}
use binance_futures_algo_bot.Common.Json.{Json}
use binance_futures_algo_bot.Testnet.Payload.{
  is_truthy, Payload, get, put, word, is_blank, float_of,
}

-- `_normalize_algo_status` of the lowered text
unfoldable pub algo_status : Text → Text
unfolding text_eq
algo_status raw =
    if text_eq raw (codes "pending_new")
    then codes "new"
    else if text_eq raw (codes "success")
    then codes "filled"
    else raw

-- One more than the rank of a status, and 0 where the source takes -1.
unfoldable pub rank : Text → ℕ
unfolding text_in
rank status =
    if text_in status (codes "pending_new" ∷ codes "new" ∷ [])
    then 1
    else if text_eq status (codes "partially_filled")
    then 2
    else if text_in status (codes "canceled" ∷ codes "expired" ∷ codes "rejected" ∷ [])
    then 3
    else if text_eq status (codes "filled")
    then 4
    else 0

-- the branch of `_prefer_refresh_value` on statuses
unfoldable pub prefer_status : Text → Text → Bool
unfolding rank
prefer_status original refreshed =
    if rank original == 0 && rank refreshed == 0
    then false
    else leb (rank original) (rank refreshed)

module _ {F : Type 0} ⦃f : Float F⦄ where
  -- `_normalize_algo_status`
  unfoldable pub normalize_algo_status : Payload F → Text
  unfolding algo_status get is_truthy word
  normalize_algo_status payload =
      let own = get (codes "algoStatus") payload in
      algo_status
        (if is_truthy own then word own [] else word (get (codes "status") payload) (codes "new"))

  -- `_normalize_order_status`
  unfoldable pub normalize_order_status : Json F → F → F → Text
  unfolding word text_in fmax
  normalize_order_status raw_status executed_qty requested_qty =
      let status = word raw_status (codes "new") in
      let tolerance = fmax (dec 1 12) (requested_qty ⊗ dec 1 9) in
      if executed_qty ≤? nought
      then status
      else if text_in status (codes "filled" ∷ codes "partially_filled" ∷ [])
      then status
      else if fmax nought (requested_qty ⊖ tolerance) ≤? executed_qty
      then codes "filled"
      else codes "partially_filled"

  -- the branch on numbers
  unfoldable pub prefer_number : Option F → Option F → Bool
  prefer_number (some original) (some refreshed) =
      not ((refreshed ≤? nought) && (nought <? original))
  prefer_number none refreshed = false
  prefer_number (some original) none = false

  module _ (parse : Text → Option F) where
    -- `_prefer_refresh_value`
    unfoldable pub prefer_refresh_value : Text → Json F → Json F → Bool
    unfolding is_blank word prefer_status prefer_number float_of text_eq
    prefer_refresh_value key original refreshed =
        if is_blank refreshed
        then false
        else if is_blank original
        then true
        else if text_eq key (codes "status")
        then prefer_status (word original []) (word refreshed [])
        else prefer_number (float_of parse original) (float_of parse refreshed)

    -- the loop of `_confirm_exchange_order` over the refreshed items
    unfoldable pub merge_refreshed : Payload F → Payload F → Payload F
    unfolding prefer_refresh_value get put
    merge_refreshed merged [] = merged
    merge_refreshed merged ((key, value) ∷ refreshed) =
        merge_refreshed
          (if prefer_refresh_value key (get key merged) value then put key value merged else merged)
          refreshed

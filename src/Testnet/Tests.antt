-- ===== src/Testnet/Tests.antt =====
-- Answers of the exchange, and the theorems at these.
use binance_futures_algo_bot.Testnet.Protection.{
  derive_protection_prices-Encloses, Encloses, reference,
}
use binance_futures_algo_bot.Testnet.Refs.{
  client_algo_id, algo_id, build_algo_external_order_id, resolve_exchange_order_ref,
}
use binance_futures_algo_bot.Testnet.Prices.{derive_protection_prices}
use binance_futures_algo_bot.Testnet.Merge.{
  merge_refreshed-rank, merge_refreshed-IsPositive, IsPositive, status_rank,
}
use binance_futures_algo_bot.Common.{
  false, ◌⊎◌, true, ◌≤◌, [], ◌∷◌, if◌then◌else◌, ◌≡◌, Option, none, some, refl,
}
use binance_futures_algo_bot.Common.Texts.{strip, lower, Text, codes, text_eq, is_digit, to_int}
use binance_futures_algo_bot.Float.Fixed.{Fixed, fixed_float, Fixed-IsFloat}
use binance_futures_algo_bot.Risk.Tests.{d}
use binance_futures_algo_bot.Testnet.Payload.{str_or, is_blank, to_float, str, Payload, get, word}
use binance_futures_algo_bot.Common.Json.{text, number}
use binance_futures_algo_bot.Testnet.Status.{merge_refreshed}
use binance_futures_algo_bot.Testnet.Names.{resolve-build_algo, strip_right}

-- `float` of a text of digits
parse : Text → Option Fixed
unfolding is_digit to_int
parse t = if is_digit t then some (d (to_int t) 0) else none

abbrev order : Payload Fixed
order =
    (codes "status", text (codes "FILLED"))
    ∷ (codes "executedQty", text (codes "3"))
    ∷ (codes "avgPrice", text (codes "0"))
    ∷ []

-- An answer that is older than the order, but knows the price.
abbrev refreshed : Payload Fixed
refreshed =
    (codes "status", text (codes "NEW"))
    ∷ (codes "executedQty", text (codes "0"))
    ∷ (codes "avgPrice", text (codes "101"))
    ∷ []

merge_run :
    merge_refreshed parse order refreshed
    ≡ (codes "status", text (codes "FILLED"))
      ∷ (codes "executedQty", text (codes "3"))
      ∷ (codes "avgPrice", text (codes "101"))
      ∷ []
unfolding parse fixed_float merge_refreshed word lower strip
merge_run = refl

merge_refreshed-rank_example :
    status_rank order ≤ status_rank (merge_refreshed parse order refreshed)
merge_refreshed-rank_example = merge_refreshed-rank parse order refreshed

merge_refreshed-IsPositive_example :
    IsPositive parse (codes "executedQty") (merge_refreshed parse order refreshed)
unfolding parse fixed_float to_float text_eq get
merge_refreshed-IsPositive_example =
    merge_refreshed-IsPositive parse Fixed-IsFloat refl (codes "executedQty") order refreshed refl
      refl

abbrev algo : Payload Fixed
algo = (codes "algoId", number (d 77 0) (codes "77")) ∷ []

resolve-build_algo_example :
    let id = get (codes "algoId") algo in
    let shown = strip_right (str id) in
    let named =
      resolve_exchange_order_ref (some (build_algo_external_order_id algo (codes "sl"))) in
    ((is_blank id ≡ true)
      × (named
          ≡ some (client_algo_id (strip (str_or (get (codes "clientAlgoId") algo) (codes "sl"))))))
    ⊎ ((is_blank id ≡ false)
        × (named ≡ some (if is_digit shown then algo_id (to_int shown) else client_algo_id shown)))
resolve-build_algo_example = resolve-build_algo algo (codes "sl")

resolve_run :
    resolve_exchange_order_ref (some (build_algo_external_order_id algo (codes "sl")))
    ≡ some (algo_id 77)
unfolding resolve_exchange_order_ref build_algo_external_order_id text_eq
resolve_run = refl

-- an answer without an `algoId` resolves by the client's id
abbrev by_client : Payload Fixed
by_client = (codes "clientAlgoId", text (codes " x1 ")) ∷ []

client_run :
    resolve_exchange_order_ref (some (build_algo_external_order_id by_client (codes "sl")))
    ≡ some (client_algo_id (codes "x1"))
unfolding resolve_exchange_order_ref build_algo_external_order_id text_eq
client_run = refl

derive_protection_prices-Encloses_example :
    let (stop, take_profit) =
      derive_protection_prices (codes "long") (d 100 0) (d 98 0) (d 105 0) (d 101 0) (d 1005 1) in
    let mark = reference (d 101 0) (d 1005 1) in
    ((text_eq (codes "long") (codes "long") ≡ true) × Encloses stop take_profit (d 101 0) mark)
    ⊎ ((text_eq (codes "long") (codes "long") ≡ false) × Encloses take_profit stop (d 101 0) mark)
derive_protection_prices-Encloses_example =
    derive_protection_prices-Encloses Fixed-IsFloat (codes "long") (d 100 0) (d 98 0) (d 105 0)
      (d 101 0) (d 1005 1)

prices_run :
    derive_protection_prices (codes "long") (d 100 0) (d 98 0) (d 105 0) (d 101 0) (d 1005 1)
    ≡ (d 985 1, d 106 0)
unfolding derive_protection_prices fixed_float
prices_run = refl

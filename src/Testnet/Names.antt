-- ===== src/Testnet/Names.antt =====
-- The name that the service gives to an algo order is read back as one
-- (apps/api/app/services/testnet_trading_service.py).
use binance_futures_algo_bot.Common.{
  ◌⊎◌, inr, inl, Bool-cases, if◌then◌else◌, refl, ap, ◌∙◌, arith, [], ◌∷◌, true, false, ◌++◌,
  reverse, All, ℕ, ◌≡◌, some,
}
use binance_futures_algo_bot.Common.Texts.{
  to_int, is_digit, strip, remove_prefix, drop_all, strip_left, starts_with, is_space, Text, codes,
}
use binance_futures_algo_bot.Float.{Float}
use binance_futures_algo_bot.Testnet.Payload.{str_or, str, is_blank, Payload, get}
use binance_futures_algo_bot.Testnet.Refs.{
  build_algo_external_order_id, algo_id, client_algo_id, resolve_exchange_order_ref, ExchangeRef,
}
use mathlib.Core.List.{reverse-cons, reverse-append, reverse-reverse}

-- `rstrip`
pub strip_right : Text → Text
strip_right s = reverse (strip_left (reverse s))

strip_left-append :
    (s : Text) (c : ℕ) → is_space c ≡ false → strip_left (s ++ c ∷ []) ≡ strip_left s ++ c ∷ []
unfolding strip_left
strip_left-append [] c h = ground arith
strip_left-append (d ∷ s) c h = ground (arith, strip_left-append s c h)

strip_right-cons : (c : ℕ) (s : Text) → is_space c ≡ false → strip_right (c ∷ s) ≡ c ∷ strip_right s
unfolding strip_right
strip_right-cons c s h =
    rw (reverse-cons c s, strip_left-append (reverse s) c h)
      (reverse-append (strip_left (reverse s)) (c ∷ []))

-- no character of the text is a space
abbrev IsSolid : Text → Type 0
IsSolid = All λ c. is_space c ≡ false

strip_right-append : (p s : Text) → IsSolid p → strip_right (p ++ s) ≡ p ++ strip_right s
strip_right-append [] s h = refl
strip_right-append (c ∷ p) s (hc, h) =
    strip_right-cons c (p ++ s) hc ∙ ap (λ t. c ∷ t) (strip_right-append p s h)

starts_with-append : (p s : Text) → starts_with (p ++ s) p ≡ true
unfolding starts_with
starts_with-append [] s = refl
starts_with-append (c ∷ p) s = ground (arith, starts_with-append p s)

drop_all-append : (p s : Text) → drop_all (p ++ s) p ≡ s
drop_all-append [] [] = refl
drop_all-append [] (c ∷ s) = refl
drop_all-append (c ∷ p) s = drop_all-append p s

remove_prefix-append : (p s : Text) → remove_prefix (p ++ s) p ≡ s
unfolding remove_prefix
remove_prefix-append p s = rw (starts_with-append p s) (drop_all-append p s)

strip-append : (c : ℕ) (p s : Text) → IsSolid (c ∷ p) → strip (c ∷ p ++ s) ≡ c ∷ p ++ strip_right s
unfolding strip strip_left strip_right
strip-append c p s (hc, h) = rw hc (strip_right-append (c ∷ p) s (hc, h))

algo-IsSolid : IsSolid (codes "algo:")
unfolding is_space
algo-IsSolid = (refl, (refl, (refl, (refl, (refl, _)))))

algo_client-IsSolid : IsSolid (codes "algo_client:")
unfolding is_space
algo_client-IsSolid = (
  refl,
  (refl, (refl, (refl, (refl, (refl, (refl, (refl, (refl, (refl, (refl, (refl, _))))))))))),
)

-- what a name with the prefix `algo:` stands for
algo_ref : Text → ExchangeRef
algo_ref t = if is_digit t then algo_id (to_int t) else client_algo_id t

resolve-algo :
    (x : Text)
    → resolve_exchange_order_ref (some (codes "algo:" ++ x)) ≡ some (algo_ref (strip_right x))
unfolding resolve_exchange_order_ref algo_ref starts_with
resolve-algo x =
    rw
      (
        strip-append b'a' (codes "lgo:") x algo-IsSolid,
        remove_prefix-append (codes "algo:") (strip_right x),
      )
      refl

resolve-client :
    (x : Text)
    → resolve_exchange_order_ref (some (codes "algo_client:" ++ x))
      ≡ some (client_algo_id (strip_right x))
unfolding resolve_exchange_order_ref starts_with
resolve-client x =
    rw
      (
        strip-append b'a' (codes "lgo_client:") x algo_client-IsSolid,
        remove_prefix-append (codes "algo_client:") (strip_right x),
      )
      refl

strip_left_twice : (s : Text) → strip_left (strip_left s) ≡ strip_left s
unfolding strip_left
strip_left_twice [] = refl
strip_left_twice (c ∷ s) = elim (Bool-cases (is_space c)) [
  | inl e ↦ rw e (strip_left_twice s)
  | inr e ↦ rw (e, e) refl
]

strip_right_twice : (s : Text) → strip_right (strip_right s) ≡ strip_right s
unfolding strip_right
strip_right_twice s =
    rw (reverse-reverse (strip_left (reverse s)), strip_left_twice (reverse s)) refl

strip_right-strip : (s : Text) → strip_right (strip s) ≡ strip s
unfolding strip strip_right
strip_right-strip s = strip_right_twice (strip_left s)

module _ {F : Type 0} ⦃f : Float F⦄ where
  -- The name that is built for an algo order resolves to that order. Where the exchange answered an
  -- `algoId`, that is the algo order of this number, or of this text as a client's id, without the
  -- spaces after it; where it answered none, it is that of its `clientAlgoId`, or else of the id that
  -- the service chose, without the spaces around it.
  pub resolve-build_algo :
      (payload : Payload F) (fallback : Text)
      → let id = get (codes "algoId") payload in
        let shown = strip_right (str id) in
        let named =
          resolve_exchange_order_ref (some (build_algo_external_order_id payload fallback)) in
        ((is_blank id ≡ true)
          × (named
              ≡ some
                  (client_algo_id (strip (str_or (get (codes "clientAlgoId") payload) fallback)))))
        ⊎ ((is_blank id ≡ false)
            × (named
                ≡ some (if is_digit shown then algo_id (to_int shown) else client_algo_id shown)))
  unfolding build_algo_external_order_id algo_ref
  resolve-build_algo payload fallback =
      let id = get (codes "algoId") payload in
      let own = str_or (get (codes "clientAlgoId") payload) fallback in
      elim (Bool-cases (is_blank id)) [
        | inl e ↦ inl (
          e,
          rw e (
              resolve-client (strip own)
              ∙ ap (λ t. some (client_algo_id t)) (strip_right-strip own)),
        )
        | inr e ↦ inr (e, rw e (resolve-algo (str id)))
      ]

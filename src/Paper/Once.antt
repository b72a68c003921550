-- ===== src/Paper/Once.antt =====
-- A plan is executed on paper at most once, however plans are created and executed.
use binance_futures_algo_bot.Common.Texts.{codes, text_eq}
use binance_futures_algo_bot.Common.{
  ◌+◌, All-append, length-append, false, true, inr, suc, inl, ◌⊎◌, ◌==◌, refl, ◌<◌, if◌then◌else◌,
  arith, [], Bool-cases, ◌≤◌, ◌≢◌, ◌∷◌, some, length, ◌++◌, ℕ, List, ◌≡◌,
}
use binance_futures_algo_bot.Db.{
  find_plan-put_plan, put_plan, Order, IsNumbered, TradePlan, find_plan,
}

module _ {F : Type 0} where
  -- the number of orders of plan `i`
  unfoldable pub fills : ℕ → List (Order F) → ℕ
  fills i [] = 0
  fills i (o ∷ os) = let rest = fills i os in if o.trade_plan_id == i then suc rest else rest

  fills-append :
      (i : ℕ) (os : List (Order F)) (o : Order F)
      → fills i (os ++ o ∷ []) ≡ (if o.trade_plan_id == i then suc (fills i os) else fills i os)
  unfolding fills
  fills-append i [] o = refl
  fills-append i (q ∷ os) o = ground (arith, fills-append i os o)

  pub find_plan-numbered :
      (n i : ℕ) (p : TradePlan F) (ps : List (TradePlan F))
      → IsNumbered n ps
      → find_plan i ps ≡ some p
      → i ≤ n
  unfolding find_plan
  find_plan-numbered n i p [] numbered h = ground arith
  find_plan-numbered n i p (q ∷ ps) (hq, hs) h = ground (arith, find_plan-numbered n i p ps hs)

  find_plan-put_other :
      (i : ℕ) (q : TradePlan F) (ps : List (TradePlan F))
      → i ≢ q.id
      → find_plan i (put_plan q ps) ≡ find_plan i ps
  unfolding find_plan put_plan
  find_plan-put_other i q [] h = refl
  find_plan-put_other i q (p ∷ ps) h = ground (arith, find_plan-put_other i q ps h)

  pub find_plan-append :
      (i : ℕ) (p q : TradePlan F) (ps : List (TradePlan F))
      → find_plan i (ps ++ q ∷ []) ≡ some p
      → (find_plan i ps ≡ some p) ⊎ ((q.id ≡ i) × (q ≡ p))
  unfolding find_plan
  find_plan-append i p q [] h = ground arith
  find_plan-append i p q (r ∷ ps) h = ground (arith, find_plan-append i p q ps)

  length-put_plan : (q : TradePlan F) (ps : List (TradePlan F)) → length (put_plan q ps) ≡ length ps
  unfolding put_plan
  length-put_plan q [] = refl
  length-put_plan q (p ∷ ps) = ground (arith, length-put_plan q ps)

  put_plan-IsNumbered :
      (n : ℕ) (q : TradePlan F) (ps : List (TradePlan F))
      → q.id ≤ n
      → IsNumbered n ps
      → IsNumbered n (put_plan q ps)
  unfolding put_plan
  put_plan-IsNumbered n q [] h hs = hs
  put_plan-IsNumbered n q (p ∷ ps) h (hp, hs) = elim (Bool-cases (p.id == q.id)) [
    | inl e ↦ rw e (h, put_plan-IsNumbered n q ps h hs)
    | inr e ↦ rw e (hp, put_plan-IsNumbered n q ps h hs)
  ]

  -- No plan has two orders, and a plan that is approved has none yet.
  pub record IsFilledOnce (ps : List (TradePlan F)) (os : List (Order F)) : Type 0 where
    pub numbered : IsNumbered (length ps) ps
    pub unknown : (i : ℕ) → length ps < i → fills i os ≡ 0
    pub once : (i : ℕ) → fills i os ≤ 1
    pub unfilled :
        (i : ℕ) (p : TradePlan F)
        → find_plan i ps ≡ some p
        → text_eq p.status (codes "approved") ≡ true
        → fills i os ≡ 0

  IsNumbered-up : (n m : ℕ) (ps : List (TradePlan F)) → n ≤ m → IsNumbered n ps → IsNumbered m ps
  IsNumbered-up n m [] below h = h
  IsNumbered-up n m (p ∷ ps) below (h, hs) = (omega arith, IsNumbered-up n m ps below hs)

  pub append-IsNumbered :
      (ps : List (TradePlan F)) (q : TradePlan F)
      → IsNumbered (length ps) ps
      → q.id ≡ suc (length ps)
      → IsNumbered (length (ps ++ q ∷ [])) (ps ++ q ∷ [])
  append-IsNumbered ps q h e = rw (length-append ps (q ∷ [])) (
      All-append (λ p. p.id ≤ length ps + 1) ps (q ∷ [])
        (IsNumbered-up (length ps) (length ps + 1) ps (omega arith) h) (omega arith, _))

  -- A new plan with the next id keeps it.
  pub IsFilledOnce-append :
      (ps : List (TradePlan F)) (os : List (Order F)) (q : TradePlan F)
      → q.id ≡ suc (length ps)
      → IsFilledOnce ps os
      → IsFilledOnce (ps ++ q ∷ []) os
  IsFilledOnce-append ps os q e h = record {
    numbered = append-IsNumbered ps q h.numbered e;
    unknown = λ i below. h.unknown i (omega (arith, length-append ps (q ∷ [])));
    once = h.once;
    unfilled = λ i p found approved. elim (find_plan-append i p q ps found) [
      | inl old ↦ h.unfilled i p old approved
      | inr (own, _) ↦ h.unknown i (omega arith)
    ];
  }

  -- The order of an approved plan whose status then is another one keeps it.
  pub IsFilledOnce-fill :
      (ps : List (TradePlan F)) (os : List (Order F)) (p q : TradePlan F) (o : Order F)
      → find_plan q.id ps ≡ some p
      → text_eq p.status (codes "approved") ≡ true
      → text_eq q.status (codes "approved") ≡ false
      → o.trade_plan_id ≡ q.id
      → IsFilledOnce ps os
      → IsFilledOnce (put_plan q ps) (os ++ o ∷ [])
  IsFilledOnce-fill ps os p q o found before after own h =
      let known = find_plan-numbered (length ps) q.id p ps h.numbered found in
      let none_yet = h.unfilled q.id p found before in
      record {
        numbered =
            rw (length-put_plan q ps) (put_plan-IsNumbered (length ps) q ps known h.numbered);
        unknown = λ i below. ground (arith, fills-append i os o, h.unknown i, length-put_plan q ps);
        once = λ i. ground (arith, fills-append i os o, h.once i, none_yet);
        unfilled = λ i r got approved. elim (Bool-cases (i == q.id)) [
          | inl same ↦
              let e : i ≡ q.id = ground arith in
              let written = find_plan-put_plan p q ps found in
              let read = rw e at got in ground arith
          | inr other ↦
              let old = rw (find_plan-put_other i q ps (ground arith)) at got in
              ground (arith, fills-append i os o, h.unfilled i r old approved)
        ];
      }

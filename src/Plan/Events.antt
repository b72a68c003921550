-- ===== src/Plan/Events.antt =====
-- The rows of the risk events of a plan (`create_trade_plan` of
-- apps/api/app/services/trade_plan_service.py).
use mathlib.Core.Path.{subst}
use binance_futures_algo_bot.Common.{
  Bool, ◌&&◌, and-true, sym, ◌∙◌, ◌≡◌, refl, inl, inr, arith, Bool-cases, if◌then◌else◌, suc, [],
  ◌∷◌, ℕ, true, false, String, List, Option, none, some,
}
use binance_futures_algo_bot.Common.Texts.{codes, text_eq, text_eq-eq, text_eq_refl, Text}
use binance_futures_algo_bot.Float.{Float}
use binance_futures_algo_bot.Risk.Schemas.{RiskDecision, RiskEventDetail, regime, optional}
use binance_futures_algo_bot.Db.{RiskEvent}
use binance_futures_algo_bot.Db.Sorting.{put_key, sorted_items}
use binance_futures_algo_bot.Plan.{event_row, event_rows}

once :
    {A : Type 0} (b : Bool) (x y z : A)
    → (if b then x else z) ≡ (if b then x else (if b then y else z))
once true x y z = refl
once false x y z = refl

swapped :
    {A : Type 0} (a b : Bool) (x y z : A)
    → (a && b) ≡ false
    → (if a then x else (if b then y else z)) ≡ (if b then y else (if a then x else z))
swapped true true x y z h = ground arith
swapped true false x y z h = refl
swapped false true x y z h = refl
swapped false false x y z h = refl

apart : (s t u : Text) → text_eq s t ≡ false → (text_eq s u && text_eq t u) ≡ false
apart s t u h = elim (Bool-cases (text_eq s u && text_eq t u)) [
  | inl e ↦
      let (a, b) = and-true (text_eq s u) (text_eq t u) e in
      let same : s ≡ t = text_eq-eq s u a ∙ sym (text_eq-eq t u b) in
      let met : text_eq t t ≡ false = subst (λ x. text_eq x t ≡ false) same h in
      ground (arith, text_eq_refl t)
  | inr e ↦ e
]

module _ {V : Type 0} where
  -- the value of a key
  abbrev pub value_of : String → List (String × V) → Option V
  value_of key [] = none
  value_of key ((k, v) ∷ items) =
      let rest = value_of key items in if text_eq (codes k) (codes key) then some v else rest

  value_of-put_key :
      (key k : String) (v : V) (items : List (String × V))
      → value_of key (put_key k v items)
        ≡ (if text_eq (codes k) (codes key) then some v else value_of key items)
  unfolding put_key
  value_of-put_key key k v [] = refl
  value_of-put_key key k v ((j, w) ∷ items) = elim (Bool-cases (text_eq (codes j) (codes k))) [
    | inl e ↦
        let same : codes j ≡ codes k = text_eq-eq (codes j) (codes k) e in
        rw (e, same) (once (text_eq (codes k) (codes key)) (some v) (some w) (value_of key items))
    | inr e ↦
        rw (e, value_of-put_key key k v items)
          (swapped (text_eq (codes j) (codes key)) (text_eq (codes k) (codes key)) (some w) (some v)
            (value_of key items) (apart (codes j) (codes k) (codes key) e))
  ]

module _ {F : Type 0} ⦃f : Float F⦄ where
  -- The row `id` of an event `e` of the plan: the event's type, severity and message, and its context,
  -- in which the regime and its confidence are those of the decision; the message shows the context.
  pub record IsEventRow (now plan_id : ℕ) (d : RiskDecision F) (id : ℕ) (e : RiskEventDetail F)
      (row : RiskEvent F) : Type 0 where
    pub own : row.id ≡ id
    pub plan : row.trade_plan_id ≡ some plan_id
    pub event_type : row.event_type ≡ e.event_type
    pub severity : row.severity ≡ e.severity
    pub literal : row.message.literal ≡ e.message
    pub values : row.message.values ≡ sorted_items row.context_json
    pub context :
        (key : String)
        → value_of key row.context_json ≡ (
            if text_eq (codes "regime_confidence") (codes key)
            then some (optional d.regime_confidence)
            else (if text_eq (codes "market_regime") (codes key)
                then some (regime d.market_regime)
                else value_of key e.context))
    pub time : row.created_at ≡ now

  -- one row for each event, in their order, with the ids from `id` on
  abbrev pub AreEventRows :
      ℕ → ℕ → RiskDecision F → ℕ → List (RiskEventDetail F) → List (RiskEvent F) → Type 0
  AreEventRows now plan_id d id [] [] = Unit {0}
  AreEventRows now plan_id d id [] (row ∷ rows) = ⊥
  AreEventRows now plan_id d id (e ∷ es) [] = ⊥
  AreEventRows now plan_id d id (e ∷ es) (row ∷ rows) =
      IsEventRow now plan_id d id e row × AreEventRows now plan_id d (suc id) es rows

  event_row-IsEventRow :
      (now plan_id : ℕ) (d e : RiskDecision F) (id : ℕ) (x : RiskEventDetail F)
      → d.market_regime ≡ e.market_regime
      → d.regime_confidence ≡ e.regime_confidence
      → IsEventRow now plan_id e id x (event_row now d plan_id x id)
  unfolding event_row
  event_row-IsEventRow now plan_id d e id x same_regime same_confidence = record {
    own = refl;
    plan = refl;
    event_type = refl;
    severity = refl;
    literal = refl;
    values = refl;
    context = λ key.
        rw
          (
            value_of-put_key key "regime_confidence" (optional d.regime_confidence)
                (put_key "market_regime" (regime d.market_regime) x.context),
            value_of-put_key key "market_regime" (regime d.market_regime) x.context,
            same_regime,
            same_confidence,
          )
          refl;
    time = refl;
  }

  -- the rows of a decision with the regime and the confidence of `e`
  pub event_rows-AreEventRows :
      (now plan_id : ℕ) (d e : RiskDecision F) (id : ℕ) (es : List (RiskEventDetail F))
      → d.market_regime ≡ e.market_regime
      → d.regime_confidence ≡ e.regime_confidence
      → AreEventRows now plan_id e id es (event_rows now d plan_id es id)
  unfolding event_rows
  event_rows-AreEventRows now plan_id d e id [] a b = tt
  event_rows-AreEventRows now plan_id d e id (x ∷ xs) a b = (
    event_row-IsEventRow now plan_id d e id x a b,
    event_rows-AreEventRows now plan_id d e (suc id) xs a b,
  )

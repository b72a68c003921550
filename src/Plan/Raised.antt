-- ===== src/Plan/Raised.antt =====
-- What a call of `create_trade_plan` that raises leaves in the database.
use binance_futures_algo_bot.Risk.Evaluate.{evaluate}
use binance_futures_algo_bot.Plan.Stored.{store_plan-IsAppended, IsAppended}
use binance_futures_algo_bot.Common.Texts.{Text}
use binance_futures_algo_bot.Common.{
  length, suc, refl, none, inr, is_empty, Bool-cases, some, true, inl, false, Option, ◌⊎◌, arith,
  Bool, ◌≡◌,
}
use binance_futures_algo_bot.Float.{Float}
use binance_futures_algo_bot.Risk.Schemas.{Error, RiskDecision, Result}
use binance_futures_algo_bot.Db.{put_tables, rollback, raised, TradePlan, Session}
use binance_futures_algo_bot.Plan.{
  new_trade_plan, with_url, ok, engine_request, err, TradePlanCreateRequest, store_plan, finish,
  attach_document, after_engine, TradePlanService, outline_error, database_error, engine_error,
  Outcome, PlanError, Outside, create_trade_plan,
}

module _ {F : Type 0} ⦃f : Float F⦄ where
  -- How a call ends that raises `x`: before the session is touched, by a rollback of what was stored,
  -- or once the plan is in the database, when Outline fails or its url cannot be written.
  pub data IsRaised (out : Outside F) (s : Session F) : PlanError → Session F → Type 0 where
    unjudged : (y : Error) → IsRaised out s (engine_error y) s
    refused : IsRaised out s database_error (rollback s)
    stored :
        (x : PlanError) (plan : TradePlan F) (s' : Session F)
        → (x ≡ outline_error) ⊎ (x ≡ database_error)
        → IsAppended s.live plan s'
        → IsRaised out s x s'

  pub IsRaised-of_eq :
      (out : Outside F) (s : Session F) {x x' : PlanError} {t t' : Session F}
      → IsRaised out s x t
      → Path (Outcome F) (raised x, t) (raised x', t')
      → IsRaised out s x' t'
  IsRaised-of_eq out s {x = x} {x' = x'} {t = t} {t' = t'} h e =
      let same : x ≡ x' = ground arith in let kept : t ≡ t' = ground arith in rw (same, kept) at h

  attach_document-IsRaised :
      (out : Outside F) (plan : TradePlan F) (d : RiskDecision F) (s t t' : Session F)
      (o : Option (Option Text)) (x : PlanError)
      → IsAppended s.live plan t
      → attach_document out plan d t o ≡ (raised x, t')
      → IsRaised out s x t'
  unfolding attach_document
  attach_document-IsRaised out plan d s t t' none x kept h =
      IsRaised-of_eq out s (stored outline_error plan t (inl refl) kept) h
  attach_document-IsRaised out plan d s t t' (some none) x kept h = ground arith
  attach_document-IsRaised out plan d s t t' (some (some url)) x kept h =
      elim (Bool-cases (is_empty url)) [
        | inl b ↦ let ended = rw b at h in ground arith
        | inr b ↦ elim (Bool-cases (out.accepts (put_tables (with_url url plan) t.live))) [
          | inl c ↦ let ended = rw (b, c) at h in ground arith
          | inr c ↦
              let (own, plans, orders, positions, _) = kept in
              IsRaised-of_eq out s
                (stored database_error plan (rollback t) (inr refl)
                  (own, plans, orders, positions, refl))
                (rw (b, c) at h)
        ]
      ]

  store_plan-refused :
      (out : Outside F) (plan : TradePlan F) (d : RiskDecision F) (s t : Session F)
      → store_plan out plan d s ≡ (false, t)
      → rollback s ≡ t
  unfolding store_plan
  store_plan-refused out plan d s t h = ground arith

  finish-IsRaised :
      (out : Outside F) (payload : TradePlanCreateRequest F) (plan : TradePlan F)
      (d : RiskDecision F) (s t' : Session F) (step : Bool × Session F) (x : PlanError)
      → store_plan out plan d s ≡ step
      → plan.id ≡ suc (length s.live.plans)
      → finish out payload plan d step ≡ (raised x, t')
      → IsRaised out s x t'
  unfolding finish
  finish-IsRaised out payload plan d s t' (true, t) x q own h =
      let kept = store_plan-IsAppended out plan d s t own q in
      attach_document-IsRaised out plan d s t t' (out.document payload d) x kept h
  finish-IsRaised out payload plan d s t' (false, t) x q own h =
      let gone : IsRaised out s database_error (rollback s) = refused in
      IsRaised-of_eq out s (rw (store_plan-refused out plan d s t q) at gone) h

  after_engine-IsRaised :
      (out : Outside F) (service : TradePlanService F) (payload : TradePlanCreateRequest F)
      (s t' : Session F) (o : Result (RiskDecision F)) (x : PlanError)
      → after_engine out service payload s o ≡ (raised x, t')
      → IsRaised out s x t'
  unfolding after_engine new_trade_plan
  after_engine-IsRaised out service payload s t' (err y) x h = IsRaised-of_eq out s (unjudged y) h
  after_engine-IsRaised out service payload s t' (ok e) x h =
      finish-IsRaised out payload _ _ s t' _ x refl refl h

  -- A call that raises leaves the session as it was, when the engine raises; or rolls it back to what
  -- was saved, when the database refuses the plan or its events; or has stored the plan all the same,
  -- when Outline raises or the database refuses the url of its document.
  pub create-IsRaised :
      (out : Outside F) (service : TradePlanService F) (payload : TradePlanCreateRequest F)
      (s t : Session F) (x : PlanError)
      → create_trade_plan out service payload s ≡ (raised x, t)
      → IsRaised out s x t
  unfolding create_trade_plan
  create-IsRaised out service payload s t x =
      after_engine-IsRaised out service payload s t
        (evaluate service.risk_engine (engine_request payload)) x

-- ===== src/Plan/Stored.antt =====
-- What a call of `create_trade_plan` leaves in the database.
use binance_futures_algo_bot.Risk.Evaluate.{evaluate}
use binance_futures_algo_bot.Gate.{evaluate_gate, FinalGateDecision}
use binance_futures_algo_bot.Common.{
  List, is_empty, arith, none, some, refl, suc, inr, length, inl, Option, false, [], Bool-cases,
  ◌∷◌, ◌++◌, true, ℕ, Bool, ◌≡◌,
}
use binance_futures_algo_bot.Common.Texts.{Text}
use binance_futures_algo_bot.Float.{Float}
use binance_futures_algo_bot.Risk.Schemas.{ok, RiskDecision, Result}
use binance_futures_algo_bot.Db.{
  RiskEvent, commit, put_plan-append, Tables, put_tables, returned, TradePlan, Session, IsNumbered,
}
use mathlib.Core.Path.{subst}
use binance_futures_algo_bot.Plan.Asked.{
  IsAsked, new_trade_plan-IsAsked, with_url-IsAsked, IsReported, response-IsReported, IsLinked,
}
use binance_futures_algo_bot.Plan.Events.{AreEventRows, event_rows-AreEventRows}
use binance_futures_algo_bot.Plan.{
  event_rows, err, engine_request, store_plan, finish, after_engine, TradePlanService, Outcome,
  Outside, response, TradePlanCreateRequest, effective_decision, attach_document, with_url,
  new_trade_plan, TradePlanCreateResponse, create_trade_plan,
}
use binance_futures_algo_bot.Plan.Judged.{IsJudged, new_trade_plan-IsJudged, with_url-IsJudged}

-- the document of a text that is not empty
IsLinked-url : (url : Text) → is_empty url ≡ false → IsLinked (some (some url)) (some url)
IsLinked-url [] h = ground arith
IsLinked-url (c ∷ cs) h = refl

IsLinked-empty : (url : Text) → is_empty url ≡ true → IsLinked (some (some url)) none
IsLinked-empty [] h = refl
IsLinked-empty (c ∷ cs) h = ground arith

module _ {F : Type 0} ⦃f : Float F⦄ where
  -- In the database and in the session, `plan` is one more row of the plans in `t`, with the next id,
  -- and the orders and positions are those of `t`.
  abbrev pub IsAppended : Tables F → TradePlan F → Session F → Type 0
  IsAppended t plan s =
      (plan.id ≡ suc (length t.plans))
      × (s.saved.plans ≡ t.plans ++ plan ∷ [])
      × (s.saved.orders ≡ t.orders)
      × (s.saved.positions ≡ t.positions)
      × (s.live ≡ s.saved)

  -- What a call that returns leaves, given the tables before it: one more plan, as it was asked for
  -- and judged, and one row for each event of the engine and of the gate; and what it reports.
  pub record IsStored (out : Outside F) (payload : TradePlanCreateRequest F) (t : Tables F)
      (e : RiskDecision F) (g : FinalGateDecision F) (r : TradePlanCreateResponse F) (s : Session F)
      : Type 0 where
    pub plan : TradePlan F
    pub rows : List (RiskEvent F)
    pub appended : IsAppended t plan s
    pub events : s.saved.events ≡ t.events ++ rows
    pub logged :
        AreEventRows out.now plan.id e (suc (length t.events)) (e.risk_events ++ g.events) rows
    pub judged : IsJudged e g plan
    pub asked : IsAsked out.now payload e g plan
    pub linked : IsLinked (out.document payload (effective_decision e g)) plan.outline_url
    pub reported : IsReported r plan

  -- the plan is made, but for its url
  abbrev IsMade :
      Outside F
      → TradePlanCreateRequest F
      → RiskDecision F
      → FinalGateDecision F
      → TradePlan F
      → Type 0
  IsMade out payload e g plan = IsJudged e g plan × IsAsked out.now payload e g plan

  -- the plan and its events are there, in the database and in the session
  abbrev IsWritten :
      Outside F → Tables F → RiskDecision F → FinalGateDecision F → TradePlan F → Session F → Type 0
  IsWritten out t e g plan s =
      IsAppended t plan s
      × ((rows : List (RiskEvent F)) × (s.saved.events ≡ t.events ++ rows)
          × AreEventRows out.now plan.id e (suc (length t.events)) (e.risk_events ++ g.events) rows)

  with_url-IsMade :
      (out : Outside F) (payload : TradePlanCreateRequest F) (e : RiskDecision F)
      (g : FinalGateDecision F) (plan : TradePlan F) (url : Text)
      → IsMade out payload e g plan
      → IsMade out payload e g (with_url url plan)
  with_url-IsMade out payload e g plan url (judged, asked) =
      (with_url-IsJudged e g plan url judged, with_url-IsAsked out.now payload e g plan url asked)

  returned-IsStored :
      (out : Outside F) (payload : TradePlanCreateRequest F) (t : Tables F) (e : RiskDecision F)
      (g : FinalGateDecision F) (plan : TradePlan F) (s s' : Session F)
      (r : TradePlanCreateResponse F)
      → IsMade out payload e g plan
      → IsWritten out t e g plan s
      → IsLinked (out.document payload (effective_decision e g)) plan.outline_url
      → Path (Outcome F) (returned (response plan (effective_decision e g)), s) (returned r, s')
      → IsStored out payload t e g r s'
  returned-IsStored out payload t e g plan s s' r (judged, asked) (appended, (rows, events, logged))
        linked h =
      let kept : s ≡ s' = ground arith in
      let same : response plan (effective_decision e g) ≡ r = ground arith in
      record {
        plan = plan;
        rows = rows;
        appended = rw kept at appended;
        events = rw kept at events;
        logged = logged;
        judged = judged;
        asked = asked;
        linked = linked;
        reported =
            subst (λ x. IsReported x plan) same
              (response-IsReported out.now payload e g plan asked);
      }

  linked-IsWritten :
      (out : Outside F) (t : Tables F) (e : RiskDecision F) (g : FinalGateDecision F)
      (plan : TradePlan F) (url : Text) (s : Session F)
      → IsNumbered (length t.plans) t.plans
      → IsWritten out t e g plan s
      → IsWritten out t e g
          (with_url url plan)
          (commit (record { saved = s.saved; live = put_tables (with_url url plan) s.live }))
  unfolding put_tables with_url
  linked-IsWritten out t e g plan url s numbered
        ((own, stored, orders, positions, same), (rows, events, logged)) =
      (
        (
          own,
          rw (same, stored)
              (put_plan-append (length t.plans) plan (with_url url plan) t.plans numbered
                (omega arith) refl),
          rw same orders,
          rw same positions,
          refl,
        ),
        (rows, rw same events, logged),
      )

  url-with_url : (url : Text) (plan : TradePlan F) → (with_url url plan).outline_url ≡ some url
  unfolding with_url
  url-with_url url plan = refl

  attach_document-IsStored :
      (out : Outside F) (payload : TradePlanCreateRequest F) (t : Tables F) (e : RiskDecision F)
      (g : FinalGateDecision F) (plan : TradePlan F) (s s' : Session F) (o : Option (Option Text))
      (r : TradePlanCreateResponse F)
      → out.document payload (effective_decision e g) ≡ o
      → IsNumbered (length t.plans) t.plans
      → IsMade out payload e g plan
      → plan.outline_url ≡ none
      → IsWritten out t e g plan s
      → attach_document out plan (effective_decision e g) s o ≡ (returned r, s')
      → IsStored out payload t e g r s'
  unfolding attach_document
  attach_document-IsStored out payload t e g plan s s' none r q numbered made bare written h =
      ground arith
  attach_document-IsStored out payload t e g plan s s' (some none) r q numbered made bare written
        h =
      returned-IsStored out payload t e g plan s s' r made written (simp q bare) h
  attach_document-IsStored out payload t e g plan s s' (some (some url)) r q numbered made bare
        written h =
      elim (Bool-cases (is_empty url)) [
        | inl b ↦
            returned-IsStored out payload t e g plan s s' r made written
              (simp (q, bare) (IsLinked-empty url b)) (rw b at h)
        | inr b ↦ elim (Bool-cases (out.accepts (put_tables (with_url url plan) s.live))) [
          | inl c ↦
              returned-IsStored out payload t e g (with_url url plan) _ s' r
                (with_url-IsMade out payload e g plan url made)
                (linked-IsWritten out t e g plan url s numbered written)
                (simp (q, url-with_url url plan) (IsLinked-url url b)) (rw (b, c) at h)
          | inr c ↦ let refused = rw (b, c) at h in ground arith
        ]
      ]

  pub store_plan-IsAppended :
      (out : Outside F) (plan : TradePlan F) (d : RiskDecision F) (s s1 : Session F)
      → plan.id ≡ suc (length s.live.plans)
      → store_plan out plan d s ≡ (true, s1)
      → IsAppended s.live plan s1
  unfolding store_plan
  store_plan-IsAppended out plan d s s1 own h = ground arith

  store_plan-events :
      (out : Outside F) (plan : TradePlan F) (d : RiskDecision F) (s s1 : Session F)
      → store_plan out plan d s ≡ (true, s1)
      → s1.saved.events
        ≡ s.live.events ++ event_rows out.now d plan.id d.risk_events (suc (length s.live.events))
  unfolding store_plan
  store_plan-events out plan d s s1 h = ground arith

  -- the rows are those of the events of the engine and of the gate
  rows-logged :
      (out : Outside F) (e : RiskDecision F) (g : FinalGateDecision F) (plan_id id : ℕ)
      → AreEventRows out.now plan_id e id (e.risk_events ++ g.events) (
          event_rows out.now
            (effective_decision e g)
            plan_id
            (effective_decision e g).risk_events
            id)
  unfolding effective_decision
  rows-logged out e g plan_id id =
      event_rows-AreEventRows out.now plan_id (effective_decision e g) e id
        (e.risk_events ++ g.events) refl refl

  finish-IsStored :
      (out : Outside F) (payload : TradePlanCreateRequest F) (e : RiskDecision F)
      (g : FinalGateDecision F) (plan : TradePlan F) (s s' : Session F) (step : Bool × Session F)
      (r : TradePlanCreateResponse F)
      → IsNumbered (length s.live.plans) s.live.plans
      → store_plan out plan (effective_decision e g) s ≡ step
      → plan.id ≡ suc (length s.live.plans)
      → IsMade out payload e g plan
      → plan.outline_url ≡ none
      → finish out payload plan (effective_decision e g) step ≡ (returned r, s')
      → IsStored out payload s.live e g r s'
  unfolding finish
  finish-IsStored out payload e g plan s s' (true, s1) r numbered q own made bare h =
      let d = effective_decision e g in
      attach_document-IsStored out payload s.live e g plan s1 s' (out.document payload d) r refl
        numbered made bare
        (
          store_plan-IsAppended out plan d s s1 own q,
          (_, store_plan-events out plan d s s1 q, rows-logged out e g plan.id _),
        )
        h
  finish-IsStored out payload e g plan s s' (false, s1) r numbered q own made bare h = ground arith

  after_engine-IsStored :
      (out : Outside F) (service : TradePlanService F) (payload : TradePlanCreateRequest F)
      (s s' : Session F) (o : Result (RiskDecision F)) (r : TradePlanCreateResponse F)
      → IsNumbered (length s.live.plans) s.live.plans
      → after_engine out service payload s o ≡ (returned r, s')
      → (e : RiskDecision F) × (o ≡ ok e)
        × IsStored out payload s.live e
            (evaluate_gate service.final_gate e payload.market_state)
            r
            s'
  unfolding after_engine new_trade_plan
  after_engine-IsStored out service payload s s' (err x) r numbered h = ground arith
  after_engine-IsStored out service payload s s' (ok e) r numbered h =
      let g = evaluate_gate service.final_gate e payload.market_state in
      let id : ℕ = suc (length s.live.plans) in
      let plan = new_trade_plan out.now payload (effective_decision e g) id in
      let made : IsMade out payload e g plan = (
        new_trade_plan-IsJudged out.now id payload e g,
        new_trade_plan-IsAsked out.now id payload e g,
      ) in
      (e, refl, finish-IsStored out payload e g plan s s' _ r numbered refl refl made refl h)

  -- A call that returns, on a session whose plans are numbered, has stored exactly one more plan, whose
  -- columns are those of the request, of the engine's decision and of the gate's: approved, with the
  -- risk and the notional of the engine, if the engine and the gate both approve, and blocked with no
  -- risk and no notional otherwise. Its url is that of the document that Outline answers, if there is
  -- one. After the events it has stored one for each event of the engine and then of the gate, with its
  -- type, severity, message and context, to which the regime and its confidence are added. The other
  -- plans and events, the orders and the positions are kept, nothing is left uncommitted, and the
  -- response reports the plan.
  pub create-IsStored :
      (out : Outside F) (service : TradePlanService F) (payload : TradePlanCreateRequest F)
      (s s' : Session F) (r : TradePlanCreateResponse F)
      → IsNumbered (length s.live.plans) s.live.plans
      → create_trade_plan out service payload s ≡ (returned r, s')
      → (e : RiskDecision F) × (evaluate service.risk_engine (engine_request payload) ≡ ok e)
        × IsStored out payload s.live e
            (evaluate_gate service.final_gate e payload.market_state)
            r
            s'
  unfolding create_trade_plan
  create-IsStored out service payload s s' r =
      after_engine-IsStored out service payload s s'
        (evaluate service.risk_engine (engine_request payload)) r

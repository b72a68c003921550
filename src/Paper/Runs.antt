-- ===== src/Paper/Runs.antt =====
-- Runs that create plans and execute them on paper, in any order, over one session.
use binance_futures_algo_bot.Common.Texts.{codes, text_eq}
use binance_futures_algo_bot.Plan.Raised.{create-IsRaised, refused, stored, unjudged, IsRaised}
use binance_futures_algo_bot.Plan.Stored.{create-IsStored, IsAppended}
use binance_futures_algo_bot.Common.{
  false, ◌⊎◌, Bool, sym, length, suc, refl, inr, true, inl, Bool-cases, ap, [], ◌≤◌, none, some,
  arith, Option, ℕ, ◌≡◌,
}
use binance_futures_algo_bot.Float.{Float}
use binance_futures_algo_bot.Db.{
  find_plan_id, commit, returned, add_event, Tables, raised, Reply, TradePlan, Session, find_plan,
}
use binance_futures_algo_bot.Plan.{
  TradePlanCreateResponse, TradePlanCreateRequest, PlanError, Outside, create_trade_plan,
  TradePlanService,
}
use binance_futures_algo_bot.Paper.{
  with_status, paper_order, fill, Execution, PaperError, execute_found, execute_trade_plan,
}
use binance_futures_algo_bot.Paper.Once.{
  IsFilledOnce-fill, IsFilledOnce-append, IsFilledOnce, fills,
}

module _ {F : Type 0} ⦃f : Float F⦄ where
  -- One call of either service, however it ends.
  pub data Step (s t : Session F) : Type 0 where
    create :
        (out : Outside F) (service : TradePlanService F) (payload : TradePlanCreateRequest F)
        (reply : Reply PlanError (TradePlanCreateResponse F))
        → create_trade_plan out service payload s ≡ (reply, t)
        → Step s t
    execute :
        (now i : ℕ) (reply : Reply PaperError Execution)
        → execute_trade_plan now i s ≡ (reply, t)
        → Step s t

  pub data Runs (s : Session F) : Session F → Type 0 where
    start : Runs s s
    next : {t u : Session F} → Runs s t → Step t u → Runs s u

  -- What is saved and what is flushed both have at most one order for each plan.
  unfoldable IsOnce : Session F → Type 0
  IsOnce s = IsFilledOnce s.saved.plans s.saved.orders × IsFilledOnce s.live.plans s.live.orders

  appended-IsOnce :
      (s t : Session F) (plan : TradePlan F) → IsOnce s → IsAppended s.live plan t → IsOnce t
  unfolding IsOnce
  appended-IsOnce s t plan (_, h) (own, plans, orders, _, same) =
      let kept : IsFilledOnce t.saved.plans t.saved.orders =
        rw (plans, orders) (IsFilledOnce-append s.live.plans s.live.orders plan own h) in
      (kept, rw same kept)

  raised-IsOnce :
      (out : Outside F) (s t : Session F) (x : PlanError) → IsOnce s → IsRaised out s x t → IsOnce t
  unfolding IsOnce
  raised-IsOnce out s t x h (unjudged y) = h
  raised-IsOnce out s t x h refused = (h.0, h.0)
  raised-IsOnce out s t x h (stored _ plan _ _ appended) = appended-IsOnce s t plan h appended

  fill-IsOnce :
      (now i : ℕ) (s : Session F) (p : TradePlan F)
      → find_plan i s.live.plans ≡ some p
      → text_eq p.status (codes "approved") ≡ true
      → IsOnce s
      → IsOnce (commit (record { saved = s.saved; live = fill now p s.live }))
  unfolding IsOnce fill paper_order with_status text_eq
  fill-IsOnce now i s p found approved (_, h) =
      let own = find_plan_id i p s.live.plans found in
      let kept =
        IsFilledOnce-fill s.live.plans s.live.orders p (with_status "paper_executed" p)
          (paper_order now p (suc (length s.live.orders))) (rw (sym own) at found) approved refl
          refl h in
      (kept, kept)

  execute-IsOnce :
      (now i : ℕ) (s t : Session F) (o : Option (TradePlan F)) (reply : Reply PaperError Execution)
      → find_plan i s.live.plans ≡ o
      → IsOnce s
      → execute_found now o s ≡ (reply, t)
      → IsOnce t
  unfolding IsOnce execute_found add_event
  execute-IsOnce now i s t none reply q h e = let kept : s ≡ t = ap (λ x. x.1) e in rw kept at h
  execute-IsOnce now i s t (some p) reply q h e =
      elim (Bool-cases (text_eq p.status (codes "approved"))) [
        | inl b ↦
            let filled : IsOnce (execute_found now (some p) s).1 =
              rw b (fill-IsOnce now i s p q b h) in
            rw (ap (λ x. x.1) e) at filled
        | inr b ↦
            let noted : IsOnce (execute_found now (some p) s).1 = rw b (h.1, h.1) in
            rw (ap (λ x. x.1) e) at noted
      ]

  Step-IsOnce : (s t : Session F) → IsOnce s → Step s t → IsOnce t
  unfolding execute_trade_plan IsOnce
  Step-IsOnce s t h (create out service payload (returned r) e) =
      let (_, _, made) = create-IsStored out service payload s t r h.1.numbered e in
      appended-IsOnce s t made.plan h made.appended
  Step-IsOnce s t h (create out service payload (raised x) e) =
      raised-IsOnce out s t x h (create-IsRaised out service payload s t x e)
  Step-IsOnce s t h (execute now i reply e) =
      execute-IsOnce now i s t (find_plan i s.live.plans) reply refl h e

  runs-IsOnce : (s t : Session F) → IsOnce s → Runs s t → IsOnce t
  runs-IsOnce s t h start = h
  runs-IsOnce s t h (next {t = u} run step) = Step-IsOnce u t (runs-IsOnce s u h run) step

  abbrev pub empty_session : Session F
  empty_session =
      let none_yet : Tables F = record { plans = []; orders = []; positions = []; events = [] } in
      record { saved = none_yet; live = none_yet }

  -- the plan is there and approved
  abbrev pub is_waiting : Option (TradePlan F) → Bool
  is_waiting none = false
  is_waiting (some p) = text_eq p.status (codes "approved")

  -- After any run from an empty database, each plan has at most one order in the database, and a plan
  -- that has one is not approved any more.
  pub runs_fill_once :
      (t : Session F)
      → Runs empty_session t
      → (i : ℕ)
      → (fills i t.saved.orders ≤ 1)
        × ((fills i t.saved.orders ≡ 0) ⊎ (is_waiting (find_plan i t.saved.plans) ≡ false))
  unfolding IsOnce fills
  runs_fill_once t run i =
      let nothing : IsFilledOnce [] [] = record {
        numbered = _;
        unknown = λ i below. refl;
        once = λ i. omega arith;
        unfilled = λ i p found approved. refl;
      } in
      let (h, _) = runs-IsOnce empty_session t (nothing, nothing) run in
      (h.once i, settled (find_plan i t.saved.plans) (h.unfilled i))
    where
      settled :
          (o : Option (TradePlan F))
          → ((p : TradePlan F)
              → o ≡ some p
              → text_eq p.status (codes "approved") ≡ true
              → fills i t.saved.orders ≡ 0)
          → (fills i t.saved.orders ≡ 0) ⊎ (is_waiting o ≡ false)
      settled none k = inr refl
      settled (some p) k = elim (Bool-cases (text_eq p.status (codes "approved"))) [
        | inl e ↦ inl (k p refl e)
        | inr e ↦ inr e
      ]

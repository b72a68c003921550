-- ===== src/Parity.antt =====
-- apps/api/app/services/execution_parity_service.py: paper executions are paired with testnet
-- executions of the same side and timeframe, nearest in time first, and their figures are compared.
pub mod Matching
pub mod Pairs
pub mod Tests
use binance_futures_algo_bot.Common.{
  zero, ◌||◌, some, ◌+◌, true, suc, select, none, map, ltb, length, leb, is_empty, [], ◌∷◌, ◌-◌,
  ◌&&◌, if◌then◌else◌, String, Option, ℕ, Bool, List,
}
use binance_futures_algo_bot.Common.Texts.{Text, codes, text_eq, text_in}
use binance_futures_algo_bot.Float.{◌⊗◌, ◌⊖◌, ◌⊕◌, feq, dec, ◌⊘◌, Float, nought, fabs, round_to}
use binance_futures_algo_bot.Db.{TradePlan}

pub record ParityPairDiff (F : Type 0) : Type 0 where
  pub paper_trade_plan_id : ℕ
  pub testnet_trade_plan_id : ℕ
  pub side : Text
  pub entry_price_diff_pct : F
  pub applied_risk_diff_pct : F
  pub max_notional_diff_pct : F

pub record ExecutionParityReport (F : Type 0) : Type 0 where
  pub symbol : Text
  pub timeframe : Option Text
  pub compared_pairs : ℕ
  pub unmatched_paper : ℕ
  pub unmatched_testnet : ℕ
  pub avg_entry_price_diff_pct : Option F
  pub avg_applied_risk_diff_pct : Option F
  pub avg_max_notional_diff_pct : Option F
  pub pairs : List (ParityPairDiff F)

-- `MAX_PAIRING_DELTA_SECONDS`, in microseconds
abbrev pub max_pairing_delta : ℕ
max_pairing_delta = 86400000000

-- an element of the queue by its index, and the queue without it
unfoldable pub pop_at {ℓ} : {A : Type ℓ} → ℕ → List A → Option (A × List A)
pop_at n [] = none
pop_at zero (x ∷ xs) = some (x, xs)
pop_at (suc n) (x ∷ xs) = elim (pop_at n xs) [ none ↦ none | some (y, rest) ↦ some (y, x ∷ rest) ]

-- `min(candidates, key=lambda item: item[1])`, which keeps the first of the least
unfoldable pub least : ℕ × ℕ → List (ℕ × ℕ) → ℕ × ℕ
least c [] = c
least c (d ∷ ds) = least (if ltb d.1 c.1 then d else c) ds

-- the pairs with the plans they are of, the paper plans without one, and what is left of the queue
pub record Pairing (F : Type 0) : Type 0 where
  pub pairs : List (TradePlan F × TradePlan F)
  pub unmatched_paper : ℕ
  pub queue : List (TradePlan F)

-- the last `n` elements
abbrev pub last_of {ℓ} : {A : Type ℓ} → ℕ → List A → List A
last_of n [] = []
last_of n (x ∷ xs) = let rest = last_of n xs in if leb (suc (length xs)) n then x ∷ xs else rest

module _ {F : Type 0} ⦃f : Float F⦄ where
  unfoldable pub pct_diff : F → F → F
  unfolding fabs
  pct_diff lhs rhs =
      if feq lhs nought && feq rhs nought
      then nought
      else if feq lhs nought || feq rhs nought
      then dec 1000 1
      else round_to 4 (fabs (lhs ⊖ rhs) ⊘ fabs lhs ⊗ dec 100 0)

  -- `abs((candidate.created_at - paper.created_at).total_seconds())`, in microseconds
  abbrev pub delta : TradePlan F → TradePlan F → ℕ
  delta paper candidate =
      (candidate.created_at - paper.created_at) + (paper.created_at - candidate.created_at)

  -- the candidates that the loop does not skip
  unfoldable pub is_candidate : TradePlan F → TradePlan F → Bool
  is_candidate paper candidate =
      text_eq candidate.side paper.side
      && text_eq candidate.timeframe paper.timeframe
      && leb (delta paper candidate) max_pairing_delta

  unfoldable pub candidates : TradePlan F → ℕ → List (TradePlan F) → List (ℕ × ℕ)
  candidates paper i [] = []
  candidates paper i (q ∷ queue) =
      let rest = candidates paper (suc i) queue in
      if is_candidate paper q then (i, delta paper q) ∷ rest else rest

  unfoldable pub choose :
      List (TradePlan F) → List (ℕ × ℕ) → Option (TradePlan F × List (TradePlan F))
  unfolding least pop_at
  choose queue [] = none
  choose queue (c ∷ cs) = pop_at (least c cs).0 queue

  unfoldable pub new_pair : TradePlan F → TradePlan F → ParityPairDiff F
  unfolding pct_diff
  new_pair paper testnet = record {
    paper_trade_plan_id = paper.id;
    testnet_trade_plan_id = testnet.id;
    side = paper.side;
    entry_price_diff_pct = pct_diff paper.entry_price testnet.entry_price;
    applied_risk_diff_pct = pct_diff paper.applied_risk_pct testnet.applied_risk_pct;
    max_notional_diff_pct = pct_diff paper.max_position_notional testnet.max_position_notional;
  }

  -- what is left of the queue, and what the iteration adds, with the plan that was chosen or without
  unfoldable pub remaining :
      List (TradePlan F) → Option (TradePlan F × List (TradePlan F)) → List (TradePlan F)
  remaining queue none = queue
  remaining queue (some (t, rest)) = rest

  unfoldable pub add_pair :
      TradePlan F → Option (TradePlan F × List (TradePlan F)) → Pairing F → Pairing F
  add_pair p none m = record {
    pairs = m.pairs;
    unmatched_paper = suc m.unmatched_paper;
    queue = m.queue;
  }
  add_pair p (some (t, rest)) m = record {
    pairs = (p, t) ∷ m.pairs;
    unmatched_paper = m.unmatched_paper;
    queue = m.queue;
  }

  -- the `while` loop, and what is added to `unmatched_paper` after it
  unfoldable pub pair_up : List (TradePlan F) → List (TradePlan F) → Pairing F
  unfolding choose candidates remaining add_pair
  pair_up [] queue = record { pairs = []; unmatched_paper = 0; queue = queue }
  pair_up (p ∷ ps) [] = record { pairs = []; unmatched_paper = length (p ∷ ps); queue = [] }
  pair_up (p ∷ ps) (q ∷ qs) =
      let chosen = choose (q ∷ qs) (candidates p 0 (q ∷ qs)) in
      add_pair p chosen (pair_up ps (remaining (q ∷ qs) chosen))

  unfoldable pub average : List F → F
  average xs = round_to 4 (f.sum xs ⊘ dec (length xs) 0)

  insert_by_time : TradePlan F → List (TradePlan F) → List (TradePlan F)
  insert_by_time p [] = p ∷ []
  insert_by_time p (q ∷ qs) =
      let rest = insert_by_time p qs in
      if leb p.created_at q.created_at then p ∷ q ∷ qs else q ∷ rest

  -- `order_by(TradePlan.created_at.asc())`; the order of plans of one time is the table's
  unfoldable by_time : List (TradePlan F) → List (TradePlan F)
  unfolding insert_by_time
  by_time [] = []
  by_time (p ∷ ps) = insert_by_time p (by_time ps)

  abbrev same_timeframe : Option Text → TradePlan F → Bool
  same_timeframe none p = true
  same_timeframe (some timeframe) p = text_eq p.timeframe timeframe

  -- the newest `limit` executions of the symbol, the oldest of them first
  unfoldable pub executions : Text → Option Text → ℕ → List (TradePlan F) → List (TradePlan F)
  unfolding by_time
  executions symbol timeframe limit table = last_of limit (
      by_time (
        select
          (λ p.
            text_eq p.symbol symbol
            && text_in p.status (codes "paper_executed" ∷ codes "testnet_executed" ∷ [])
            && same_timeframe timeframe p)
          table))

  abbrev pub of_status : String → List (TradePlan F) → List (TradePlan F)
  of_status status = select λ p. text_eq p.status (codes status)

  -- an average, and `None` where there is no pair
  abbrev pub average? : List F → Option F
  average? xs = if is_empty xs then none else some (average xs)

  unfoldable pub build_report :
      Text → Option Text → ℕ → List (TradePlan F) → ExecutionParityReport F
  unfolding average executions pair_up new_pair
  build_report symbol timeframe limit table =
      let plans = executions symbol timeframe limit table in
      let m = pair_up (of_status "paper_executed" plans) (of_status "testnet_executed" plans) in
      let pairs = map (λ x. new_pair x.0 x.1) m.pairs in
      record {
        symbol = symbol;
        timeframe = timeframe;
        compared_pairs = length pairs;
        unmatched_paper = m.unmatched_paper;
        unmatched_testnet = length m.queue;
        avg_entry_price_diff_pct = average? (map (λ d. d.entry_price_diff_pct) pairs);
        avg_applied_risk_diff_pct = average? (map (λ d. d.applied_risk_diff_pct) pairs);
        avg_max_notional_diff_pct = average? (map (λ d. d.max_notional_diff_pct) pairs);
        pairs = pairs;
      }

-- ===== src/Shadow/Counts.antt =====
-- The counts of a summary add up.
use binance_futures_algo_bot.Common.Texts.{Text}
use binance_futures_algo_bot.Common.{
  ◌∙◌, zero, ap, refl, inr, inl, [], map, Option-cases, ◌∷◌, ◌↔◌, arith, ◌+◌, suc, length, ℕ, List,
  Option, none, some, ◌≡◌,
}
use binance_futures_algo_bot.Float.{Float}
use binance_futures_algo_bot.Db.{TradePlan}
use binance_futures_algo_bot.Parity.{
  of_status, pct_diff, least, candidates, average?, Pairing, pair_up, pop_at, choose, add_pair,
  remaining,
}
use binance_futures_algo_bot.Shadow.{build_symbol_summary}

pop_at-length {ℓ} :
    {A : Type ℓ} (n : ℕ) (xs : List A) (y : A) (rest : List A)
    → pop_at n xs ≡ some (y, rest)
    → length xs ≡ suc (length rest)
unfolding pop_at
pop_at-length n [] y rest h = ground arith
pop_at-length zero (x ∷ xs) y rest h = let last : xs ≡ rest = ground arith in rw last refl
pop_at-length (suc n) (x ∷ xs) y rest h = elim (Option-cases (pop_at n xs)) [
  | inl e ↦ let gone = rw e at h in ground arith
  | inr ((z, zs), e) ↦
      let both = rw e at h in
      let last : x ∷ zs ≡ rest = ground arith in
      ap suc (pop_at-length n xs z zs e) ∙ ap (λ t. suc (length t)) last
]

module _ {F : Type 0} ⦃f : Float F⦄ where
  choose-length :
      (queue : List (TradePlan F)) (cs : List (ℕ × ℕ)) (t : TradePlan F) (rest : List (TradePlan F))
      → choose queue cs ≡ some (t, rest)
      → length queue ≡ suc (length rest)
  unfolding choose
  choose-length queue [] t rest h = ground arith
  choose-length queue (c ∷ cs) t rest h = pop_at-length (least c cs).0 queue t rest h

  add_pair-length :
      (p : TradePlan F) (queue : List (TradePlan F)) (cs : List (ℕ × ℕ))
      (o : Option (TradePlan F × List (TradePlan F))) (m : Pairing F)
      → choose queue cs ≡ o
      → length (remaining queue o) ≡ length m.pairs + length m.queue
      → length queue ≡ length (add_pair p o m).pairs + length (add_pair p o m).queue
  unfolding remaining add_pair
  add_pair-length p queue cs none m h e = e
  add_pair-length p queue cs (some (t, rest)) m h e = omega (arith, choose-length queue cs t rest h)

  pair_up-length :
      (papers queue : List (TradePlan F))
      → length queue ≡ length (pair_up papers queue).pairs + length (pair_up papers queue).queue
  unfolding pair_up
  pair_up-length [] queue = omega arith
  pair_up-length (p ∷ ps) [] = omega arith
  pair_up-length (p ∷ ps) (q ∷ qs) =
      let cs = candidates p 0 (q ∷ qs) in
      let chosen = choose (q ∷ qs) cs in
      add_pair-length p (q ∷ qs) cs chosen (pair_up ps (remaining (q ∷ qs) chosen)) refl
        (pair_up-length ps (remaining (q ∷ qs) chosen))

  add_pair-papers :
      (p : TradePlan F) (o : Option (TradePlan F × List (TradePlan F))) (m : Pairing F) (n : ℕ)
      → n ≡ length m.pairs + m.unmatched_paper
      → suc n ≡ length (add_pair p o m).pairs + (add_pair p o m).unmatched_paper
  unfolding add_pair
  add_pair-papers p none m n h = omega arith
  add_pair-papers p (some (t, rest)) m n h = omega arith

  pair_up-papers :
      (papers queue : List (TradePlan F))
      → let m = pair_up papers queue in length papers ≡ length m.pairs + m.unmatched_paper
  unfolding pair_up
  pair_up-papers [] queue = omega arith
  pair_up-papers (p ∷ ps) [] = omega arith
  pair_up-papers (p ∷ ps) (q ∷ qs) =
      let chosen = choose (q ∷ qs) (candidates p 0 (q ∷ qs)) in
      add_pair-papers p chosen (pair_up ps (remaining (q ∷ qs) chosen)) (length ps)
        (pair_up-papers ps (remaining (q ∷ qs) chosen))

  -- On either side the executions of a summary are as many as the compared and the unmatched ones, and
  -- the average of the entry prices is missing exactly if no pair was compared.
  pub build_symbol_summary-counts :
      (symbol timeframe : Text) (plans : List (TradePlan F))
      → let s = build_symbol_summary symbol timeframe plans in
        (s.paper_executed_trade_plans ≡ s.compared_pairs + s.unmatched_paper)
        × (s.testnet_executed_trade_plans ≡ s.compared_pairs + s.unmatched_testnet)
        × ((s.avg_entry_price_diff_pct ≡ none) ↔ (s.compared_pairs ≡ 0))
  unfolding build_symbol_summary
  build_symbol_summary-counts symbol timeframe plans =
      let papers = of_status "paper_executed" plans in
      let queue = of_status "testnet_executed" plans in
      (
        pair_up-papers papers queue,
        pair_up-length papers queue,
        averaged (pair_up papers queue).pairs,
      )
    where
      averaged :
          (ps : List (TradePlan F × TradePlan F))
          → (average? (map (λ x. pct_diff x.0.entry_price x.1.entry_price) ps) ≡ none)
            ↔ (length ps ≡ 0)
      averaged [] = ground arith
      averaged (p ∷ ps) = ground arith

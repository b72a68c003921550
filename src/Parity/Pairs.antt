-- ===== src/Parity/Pairs.antt =====
-- The pairing of a whole queue: what becomes of every execution on either side.
use binance_futures_algo_bot.Common.Texts.{text_eq-eq, text_eq}
use binance_futures_algo_bot.Common.{
  ◌^◌, leb, ◌*◌, ◌&&◌, ◌≤◌, and-true, false, length, ◌++◌, map, Option, none, refl, zero, inr, true,
  inl, [], Option-cases, ◌∷◌, suc, arith, some, All, ℕ, List, ◌≡◌,
}
use binance_futures_algo_bot.Float.{Float}
use binance_futures_algo_bot.Db.{TradePlan}
use mathlib.Core.List.{Perm, perm_middle}
use mathlib.Core.List.Perm
use mathlib.Core.Path.{subst}
use binance_futures_algo_bot.Parity.{
  max_pairing_delta, delta, add_pair, remaining, Pairing, choose, is_candidate, candidates, pair_up,
  pop_at, least,
}
use binance_futures_algo_bot.Parity.Matching.{
  candidates-IsAt, choose-nearest, no_candidates, unchosen,
}

pop_at-All :
    {A : Type 0} (P : A → Type 0) (n : ℕ) (xs : List A) (y : A) (rest : List A)
    → pop_at n xs ≡ some (y, rest)
    → All P xs
    → All P rest
unfolding pop_at
pop_at-All P n [] y rest h hs = ground arith
pop_at-All P zero (x ∷ xs) y rest h (hx, hs) = let last : xs ≡ rest = ground arith in rw last at hs
pop_at-All P (suc n) (x ∷ xs) y rest h (hx, hs) = elim (Option-cases (pop_at n xs)) [
  | inl e ↦ let gone = rw e at h in ground arith
  | inr ((z, zs), e) ↦
      let both = rw e at h in
      let last : x ∷ zs ≡ rest = ground arith in
      let all : All P (x ∷ zs) = (hx, pop_at-All P n xs z zs e hs) in subst (All P) last all
]

module _ {F : Type 0} ⦃f : Float F⦄ where
  -- the two have the same side and timeframe, and are at most a day apart
  abbrev pub IsFit : TradePlan F → TradePlan F → Type 0
  IsFit paper testnet =
      (testnet.side ≡ paper.side)
      × (testnet.timeframe ≡ paper.timeframe)
      × (delta paper testnet ≤ 24 * 3600 * 10 ^ 6)

  is_candidate-IsFit :
      (paper testnet : TradePlan F) → is_candidate paper testnet ≡ true → IsFit paper testnet
  unfolding is_candidate
  is_candidate-IsFit paper testnet h =
      let same = text_eq testnet.side paper.side && text_eq testnet.timeframe paper.timeframe in
      let (both, near) = and-true same (leb (delta paper testnet) max_pairing_delta) h in
      let (side, timeframe) =
        and-true (text_eq testnet.side paper.side) (text_eq testnet.timeframe paper.timeframe)
          both in
      (
        text_eq-eq testnet.side paper.side side,
        text_eq-eq testnet.timeframe paper.timeframe timeframe,
        ground (arith, near),
      )

  -- `left` are the paper executions without a pair, none of which has a candidate in what is left of
  -- the queue.
  pub record IsPairing (papers queue : List (TradePlan F)) (m : Pairing F) : Type 0 where
    pub left : List (TradePlan F)
    pub paper : Perm papers (map (λ x. x.0) m.pairs ++ left)
    pub unmatched : length left ≡ m.unmatched_paper
    pub testnet : Perm queue (map (λ x. x.1) m.pairs ++ m.queue)
    pub fit : All (λ x. IsFit x.0 x.1) m.pairs
    pub none_free : All (λ p. All (λ q. is_candidate p q ≡ false) m.queue) left

  choose-All :
      (P : TradePlan F → Type 0) (queue : List (TradePlan F)) (cs : List (ℕ × ℕ)) (t : TradePlan F)
      (rest : List (TradePlan F))
      → choose queue cs ≡ some (t, rest)
      → All P queue
      → All P rest
  unfolding choose
  choose-All P queue [] t rest h hs = ground arith
  choose-All P queue (c ∷ cs) t rest h hs = pop_at-All P (least c cs).0 queue t rest h hs

  remaining-All :
      (P : TradePlan F → Type 0) (queue : List (TradePlan F)) (cs : List (ℕ × ℕ))
      (o : Option (TradePlan F × List (TradePlan F)))
      → choose queue cs ≡ o
      → All P queue
      → All P (remaining queue o)
  unfolding remaining
  remaining-All P queue cs none h hs = hs
  remaining-All P queue cs (some (t, rest)) h hs = choose-All P queue cs t rest h hs

  queue-add_pair :
      (p : TradePlan F) (o : Option (TradePlan F × List (TradePlan F))) (m : Pairing F)
      → (add_pair p o m).queue ≡ m.queue
  unfolding add_pair
  queue-add_pair p none m = refl
  queue-add_pair p (some (t, rest)) m = refl

  pair_up-All :
      (P : TradePlan F → Type 0) (papers queue : List (TradePlan F))
      → All P queue
      → All P (pair_up papers queue).queue
  unfolding pair_up
  pair_up-All P [] queue h = h
  pair_up-All P (p ∷ ps) [] h = tt
  pair_up-All P (p ∷ ps) (q ∷ qs) h =
      let cs = candidates p 0 (q ∷ qs) in
      let chosen = choose (q ∷ qs) cs in
      let rest = remaining (q ∷ qs) chosen in
      rw (queue-add_pair p chosen (pair_up ps rest))
        (pair_up-All P ps rest (remaining-All P (q ∷ qs) cs chosen refl h))

  add_pair-IsPairing :
      (p : TradePlan F) (ps queue : List (TradePlan F))
      (o : Option (TradePlan F × List (TradePlan F))) (m : Pairing F)
      → choose queue (candidates p 0 queue) ≡ o
      → ((P : TradePlan F → Type 0) → All P (remaining queue o) → All P m.queue)
      → IsPairing ps (remaining queue o) m
      → IsPairing (p ∷ ps) queue (add_pair p o m)
  unfolding remaining add_pair
  add_pair-IsPairing p ps queue none m h kept k =
      let alone =
        no_candidates p 0 queue
          (unchosen p queue (candidates p 0 queue) (candidates-IsAt p 0 queue) h) in
      record {
        left = p ∷ k.left;
        paper =
            Perm.trans (Perm.cons p k.paper)
              (Perm.symm (perm_middle {a = p} (map (λ x. x.0) m.pairs) k.left));
        unmatched = omega (arith, k.unmatched);
        testnet = k.testnet;
        fit = k.fit;
        none_free = (kept (λ q. is_candidate p q ≡ false) alone, k.none_free);
      }
  add_pair-IsPairing p ps queue (some (t, rest)) m h kept k =
      let (ok, _, taken) = choose-nearest p t queue rest h in
      record {
        left = k.left;
        paper = Perm.cons p k.paper;
        unmatched = k.unmatched;
        testnet = Perm.trans taken (Perm.cons t k.testnet);
        fit = (is_candidate-IsFit p t ok, k.fit);
        none_free = k.none_free;
      }

  none_left : (ps : List (TradePlan F)) → All (λ p. All (λ q. is_candidate p q ≡ false) []) ps
  none_left [] = tt
  none_left (p ∷ ps) = (tt, none_left ps)

  -- Pairing loses no execution and uses none twice: the paper executions are the first halves of the
  -- pairs and some that are left, as many as are counted as unmatched, and the testnet executions are
  -- the second halves of the pairs and those that stay in the queue. The two of a pair have the same
  -- side and timeframe and are at most a day apart, and no paper execution that is left could be paired
  -- with one that stays.
  pub pair_up-IsPairing :
      (papers queue : List (TradePlan F)) → IsPairing papers queue (pair_up papers queue)
  unfolding pair_up
  pair_up-IsPairing [] queue = record {
    left = [];
    paper = Perm.refl [];
    unmatched = refl;
    testnet = Perm.refl queue;
    fit = tt;
    none_free = tt;
  }
  pair_up-IsPairing (p ∷ ps) [] = record {
    left = p ∷ ps;
    paper = Perm.refl (p ∷ ps);
    unmatched = refl;
    testnet = Perm.refl [];
    fit = tt;
    none_free = none_left (p ∷ ps);
  }
  pair_up-IsPairing (p ∷ ps) (q ∷ qs) =
      let chosen = choose (q ∷ qs) (candidates p 0 (q ∷ qs)) in
      add_pair-IsPairing p ps (q ∷ qs) chosen (pair_up ps (remaining (q ∷ qs) chosen)) refl
        (λ P h. pair_up-All P ps (remaining (q ∷ qs) chosen) h)
        (pair_up-IsPairing ps (remaining (q ∷ qs) chosen))

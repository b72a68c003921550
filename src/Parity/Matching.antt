-- ===== src/Parity/Matching.antt =====
-- The choice among the candidates of an execution: the nearest one of the queue.
use binance_futures_algo_bot.Common.{
  ◌⊎◌, false, ◌∙◌, sym, if◌then◌else◌, Option, none, refl, zero, inr, true, ltb, inl, [],
  Option-cases, Bool-cases, ◌∷◌, ◌-◌, suc, arith, ◌≤◌, some, All, ℕ, List, ◌≡◌,
}
use binance_futures_algo_bot.Float.{Float}
use binance_futures_algo_bot.Db.{TradePlan}
use mathlib.Core.List.{Perm}
use mathlib.Core.List.Perm
use binance_futures_algo_bot.Parity.{choose, delta, is_candidate, candidates, pop_at, least}

pop_at-Perm {ℓ} :
    {A : Type ℓ} (n : ℕ) (xs : List A) (y : A) (rest : List A)
    → pop_at n xs ≡ some (y, rest)
    → Perm xs (y ∷ rest)
unfolding pop_at
pop_at-Perm n [] y rest h = ground arith
pop_at-Perm zero (x ∷ xs) y rest h =
    let first : x ≡ y = ground arith in
    let last : xs ≡ rest = ground arith in rw (first, last) (Perm.refl (y ∷ rest))
pop_at-Perm (suc n) (x ∷ xs) y rest h = elim (Option-cases (pop_at n xs)) [
  | inl e ↦ let gone = rw e at h in ground arith
  | inr ((z, zs), e) ↦
      let both = rw e at h in
      let first : z ≡ y = ground arith in
      let last : x ∷ zs ≡ rest = ground arith in
      let moved : Perm (x ∷ xs) (z ∷ x ∷ zs) =
        Perm.trans (Perm.cons x (pop_at-Perm n xs z zs e)) (Perm.swap z x zs) in
      rw (first, last) at moved
]

-- The least candidate is one of them, and none is less.
least-All : (P : ℕ × ℕ → Type 0) (c : ℕ × ℕ) (cs : List (ℕ × ℕ)) → P c → All P cs → P (least c cs)
unfolding least
least-All P c [] h hs = h
least-All P c (d ∷ ds) h (hd, hs) = elim (Bool-cases (ltb d.1 c.1)) [
  | inl e ↦ rw e (least-All P d ds hd hs)
  | inr e ↦ rw e (least-All P c ds h hs)
]

least-le :
    (c : ℕ × ℕ) (cs : List (ℕ × ℕ)) → ((least c cs).1 ≤ c.1) × All (λ d. (least c cs).1 ≤ d.1) cs
unfolding least
least-le c [] = ground arith
least-le c (d ∷ ds) =
    let x = if ltb d.1 c.1 then d else c in
    let both : (x.1 ≤ c.1) × (x.1 ≤ d.1) = ground arith in
    let (h, hs) = least-le x ds in (omega (arith, h, both.0), (omega (arith, h, both.1), hs))

minus_nothing : (n : ℕ) → n - 0 ≡ n
minus_nothing n = omega arith

nothing_left : (i : ℕ) → i - i ≡ 0
nothing_left i = omega arith

module _ {F : Type 0} ⦃f : Float F⦄ where
  -- What stands at the index of a candidate.
  abbrev pub IsAt : TradePlan F → List (TradePlan F) → ℕ → ℕ × ℕ → Type 0
  IsAt paper queue i c =
      (i ≤ c.0)
      × ((q : TradePlan F) × (rest : List (TradePlan F)) × (pop_at (c.0 - i) queue ≡ some (q, rest))
          × (is_candidate paper q ≡ true)
          × (c.1 ≡ delta paper q))

  IsAt-tail :
      (paper q : TradePlan F) (queue : List (TradePlan F)) (i : ℕ) (cs : List (ℕ × ℕ))
      → All (IsAt paper queue (suc i)) cs
      → All (IsAt paper (q ∷ queue) i) cs
  unfolding pop_at
  IsAt-tail paper q queue i [] h = h
  IsAt-tail paper q queue i (c ∷ cs) ((low, (t, rest, found, fit, far)), hs) =
      let here : c.0 - i ≡ suc (c.0 - suc i) = omega arith in
      (
        (omega arith, (t, q ∷ rest, rw (here, found) refl, fit, far)),
        IsAt-tail paper q queue i cs hs,
      )

  pub candidates-IsAt :
      (paper : TradePlan F) (i : ℕ) (queue : List (TradePlan F))
      → All (IsAt paper queue i) (candidates paper i queue)
  unfolding candidates pop_at
  candidates-IsAt paper i [] = _
  candidates-IsAt paper i (q ∷ queue) =
      let rest =
        IsAt-tail paper q queue i (candidates paper (suc i) queue)
          (candidates-IsAt paper (suc i) queue) in
      elim (Bool-cases (is_candidate paper q)) [
        | inl e ↦ rw e ((omega arith, (q, queue, rw (nothing_left i) refl, e, refl)), rest)
        | inr e ↦ rw e rest
      ]

  candidates-le :
      (paper : TradePlan F) (m i : ℕ) (queue : List (TradePlan F))
      → All (λ c. m ≤ c.1) (candidates paper i queue)
      → All (λ q. (is_candidate paper q ≡ false) ⊎ (m ≤ delta paper q)) queue
  unfolding candidates
  candidates-le paper m i [] h = _
  candidates-le paper m i (q ∷ queue) h = elim (Bool-cases (is_candidate paper q)) [
    | inl e ↦ let (low, hs) = rw e at h in (inr low, candidates-le paper m (suc i) queue hs)
    | inr e ↦ let hs = rw e at h in (inl e, candidates-le paper m (suc i) queue hs)
  ]

  choose-at :
      (paper t : TradePlan F) (queue rest : List (TradePlan F)) (cs : List (ℕ × ℕ))
      → All (IsAt paper queue 0) cs
      → choose queue cs ≡ some (t, rest)
      → (is_candidate paper t ≡ true) × All (λ c. delta paper t ≤ c.1) cs × Perm queue (t ∷ rest)
  unfolding choose
  choose-at paper t queue rest [] hs h = ground arith
  choose-at paper t queue rest (c ∷ cs) (hc, hs) h =
      let (_, (q, left, found, fit, far)) = least-All (IsAt paper queue 0) c cs hc hs in
      let same : Path (Option (TradePlan F × List (TradePlan F))) (some (q, left))
          (some (t, rest)) =
        sym (rw (minus_nothing (least c cs).0) at found) ∙ h in
      let e : q ≡ t = ground arith in
      let near = rw far at (least-le c cs) in
      (rw e at fit, rw e at near, pop_at-Perm (least c cs).0 queue t rest h)

  -- The plan that is chosen for `paper` is a candidate, none of the queue's candidates is nearer, and
  -- the queue holds that plan and the rest.
  pub choose-nearest :
      (paper t : TradePlan F) (queue rest : List (TradePlan F))
      → choose queue (candidates paper 0 queue) ≡ some (t, rest)
      → (is_candidate paper t ≡ true)
        × All (λ q. (is_candidate paper q ≡ false) ⊎ (delta paper t ≤ delta paper q)) queue
        × Perm queue (t ∷ rest)
  choose-nearest paper t queue rest h =
      let (fit, near, moved) =
        choose-at paper t queue rest (candidates paper 0 queue) (candidates-IsAt paper 0 queue) h in
      (fit, candidates-le paper (delta paper t) 0 queue near, moved)

  pub no_candidates :
      (paper : TradePlan F) (i : ℕ) (queue : List (TradePlan F))
      → candidates paper i queue ≡ []
      → All (λ q. is_candidate paper q ≡ false) queue
  unfolding candidates
  no_candidates paper i [] h = tt
  no_candidates paper i (q ∷ queue) h = elim (Bool-cases (is_candidate paper q)) [
    | inl e ↦ let found = rw e at h in ground arith
    | inr e ↦ (e, no_candidates paper (suc i) queue (rw e at h))
  ]

  pub unchosen :
      (paper : TradePlan F) (queue : List (TradePlan F)) (cs : List (ℕ × ℕ))
      → All (IsAt paper queue 0) cs
      → choose queue cs ≡ none
      → cs ≡ []
  unfolding choose
  unchosen paper queue [] hs h = refl
  unchosen paper queue (c ∷ cs) (hc, hs) h =
      let (_, (q, left, found, fit, far)) = least-All (IsAt paper queue 0) c cs hc hs in
      let there = rw (minus_nothing (least c cs).0) at found in ground arith

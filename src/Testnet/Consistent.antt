-- ===== src/Testnet/Consistent.antt =====
-- What every call of the testnet service keeps of the tables
-- (apps/api/app/services/testnet_trading_service.py).
use binance_futures_algo_bot.Testnet.LocalExit.{Sync}
use binance_futures_algo_bot.Paper.Once.{find_plan-numbered}
use binance_futures_algo_bot.Testnet.Outcome.{IsEntered, IsReady}
use binance_futures_algo_bot.Testnet.Exchange.{Failure, World}
use binance_futures_algo_bot.Testnet.Synced.{set_mark, marked, unmarked, IsClosed, Marks, IsClosing}
use binance_futures_algo_bot.Testnet.Exit.{is_open_of}
use binance_futures_algo_bot.Testnet.Entry.{Entry, enter, is_open_at}
use binance_futures_algo_bot.Common.Texts.{text_eq-eq, text_eq, codes, Text}
use binance_futures_algo_bot.Db.Rows.{length-update_row, last_row, update_row}
use binance_futures_algo_bot.Db.Counts.{
  count-update_row_same, count-update_row_le, IsRowed-update_row, IsRowed-append, count-update_row,
  last_row-Among, count-append, bit, count, IsRowed,
}
use binance_futures_algo_bot.Db.{
  Reply, IsNumbered, find_plan_id, find_plan, TradePlan, Tables, Position,
}
use binance_futures_algo_bot.Common.{
  suc, ◌<◌, length, Option, ap, ◌∙◌, false, sym, refl, inr, inl, Bool-cases, ◌∷◌, ◌++◌, ◌≤◌, arith,
  [], ◌==◌, select, true, if◌then◌else◌, List, ◌≡◌, none, some, ℕ,
}

approved-ne-executed :
    (status : Text)
    → text_eq status (codes "approved") ≡ true
    → text_eq status (codes "testnet_executed") ≡ false
unfolding text_eq
approved-ne-executed status h = rw (text_eq-eq status (codes "approved") h) refl

some_inj : {A : Type 0} (a b : A) → some a ≡ some b → a ≡ b
some_inj a b h = ground arith

module _ {F : Type 0} where
  abbrev position_id : Position F → ℕ
  position_id p = p.id

  -- Plans and positions are numbered; no symbol and side has two open testnet positions; and a plan has one
  -- open testnet position if its status is testnet_executed, and none otherwise.
  pub record IsConsistent (t : Tables F) : Type 0 where
    pub numbered : IsNumbered (length t.plans) t.plans
    pub known : (i : ℕ) → length t.plans < i → count (is_open_of i) t.positions ≡ 0
    pub rowed : IsRowed (λ p. p.id) 0 t.positions
    pub once : (symbol side : Text) → count (is_open_at symbol side) t.positions ≤ 1
    pub held :
        (i : ℕ) (p : TradePlan F)
        → find_plan i t.plans ≡ some p
        → count (is_open_of i) t.positions ≡ bit (text_eq p.status (codes "testnet_executed"))

  -- what is found after an update of a plan
  find_plan-update_row :
      (i j : ℕ) (g : TradePlan F → TradePlan F) (ps : List (TradePlan F)) (q : TradePlan F)
      → ((p : TradePlan F) → (g p).id ≡ p.id)
      → find_plan j (update_row (λ p. p.id) i g ps) ≡ some q
      → (p : TradePlan F) × (find_plan j ps ≡ some p) × (q ≡ (if j == i then g p else p))
  unfolding find_plan update_row
  find_plan-update_row i j g [] q same h = ground arith
  find_plan-update_row i j g (p ∷ ps) q same h = elim (Bool-cases (p.id == j)) [
    | inl e ↦
        let here : q ≡ (if j == i then g p else p) = ground (arith, same p) in (p, rw e refl, here)
    | inr e ↦
        let later : find_plan j (update_row (λ p. p.id) i g ps) ≡ some q = ground (arith, same p) in
        let (r, found, is) = find_plan-update_row i j g ps q same later in (r, rw e found, is)
  ]

  same_plan :
      (j i : ℕ) (r p : TradePlan F) (plans : List (TradePlan F))
      → j ≡ i
      → find_plan j plans ≡ some r
      → find_plan i plans ≡ some p
      → r ≡ p
  same_plan j i r p plans e hr hp = some_inj r p (sym hr ∙ ap (λ k. find_plan k plans) e ∙ hp)

  is_open_at-keys :
      (symbol side : Text) (x : Position F)
      → is_open_at symbol side x ≡ true
      → (x.symbol ≡ symbol) × (x.side ≡ side)
  unfolding is_open_at
  is_open_at-keys symbol side x h =
      (text_eq-eq x.symbol symbol (ground arith), text_eq-eq x.side side (ground arith))

  module _ (p : TradePlan F) (x : Position F) (of_plan : x.trade_plan_id ≡ some p.id)
      (at_symbol : x.symbol ≡ p.symbol) (at_side : x.side ≡ p.side)
      (is_open : x.status ≡ codes "open") (is_testnet : x.is_testnet ≡ true) where
    opened-once :
        (ps : List (Position F)) (symbol side : Text)
        → select (is_open_at p.symbol p.side) ps ≡ []
        → count (is_open_at symbol side) ps ≤ 1
        → count (is_open_at symbol side) (ps ++ x ∷ []) ≤ 1
    opened-once ps symbol side free h = elim (Bool-cases (is_open_at symbol side x)) [
      | inl e ↦
          let (own_symbol, own_side) = is_open_at-keys symbol side x e in
          let none_yet : select (is_open_at symbol side) ps ≡ [] =
            rw (sym own_symbol, sym own_side, at_symbol, at_side) free in
          ground (arith, count-append (is_open_at symbol side) ps x, none_yet)
      | inr e ↦ ground (arith, count-append (is_open_at symbol side) ps x)
    ]

    is_open_of-opened : (j : ℕ) → is_open_of j x ≡ (p.id == j)
    unfolding is_open_of text_eq
    is_open_of-opened j = rw (of_plan, is_open, is_testnet) (ground arith)

    executed : TradePlan F → TradePlan F
    executed q = record q { status = codes "testnet_executed" }

    opened-held :
        (ps : List (Position F)) (plans : List (TradePlan F)) (i : ℕ)
        → find_plan i plans ≡ some p
        → text_eq p.status (codes "approved") ≡ true
        → ((j : ℕ) (q : TradePlan F)
            → find_plan j plans ≡ some q
            → count (is_open_of j) ps ≡ bit (text_eq q.status (codes "testnet_executed")))
        → (j : ℕ) (q : TradePlan F)
        → find_plan j (update_row (λ p. p.id) p.id executed plans) ≡ some q
        → count (is_open_of j) (ps ++ x ∷ []) ≡ bit (text_eq q.status (codes "testnet_executed"))
    unfolding executed text_eq
    opened-held ps plans i found approved h j q got =
        let (r, old, is) = find_plan-update_row p.id j executed plans q (λ p. refl) got in
        elim (Bool-cases (p.id == j)) [
          | inl e ↦
              let here : j ≡ i = ground (arith, find_plan_id i p plans found) in
              let own : r ≡ p = same_plan j i r p plans here old found in
              let before = approved-ne-executed r.status (rw own approved) in
              let after : q ≡ executed r = ground arith in
              rw after (
                ground
                  (arith, count-append (is_open_of j) ps x, is_open_of-opened j, h j r old, before))
          | inr e ↦ ground (arith, count-append (is_open_of j) ps x, is_open_of-opened j, h j r old)
        ]

  is_open_of-plan :
      (i j : ℕ) (x : Position F) → is_open_of i x ≡ true → (i == j) ≡ false → is_open_of j x ≡ false
  unfolding is_open_of
  is_open_of-plan i j x h apart = elim_plan x.trade_plan_id refl
    where
      elim_plan : (o : Option ℕ) → x.trade_plan_id ≡ o → is_open_of j x ≡ false
      elim_plan none e = rw e refl
      elim_plan (some k) e = rw e (let own = rw e at h in ground arith)

  module _ (close : Position F → Position F) (closes : IsClosing close) where
    closed-not_open : (i : ℕ) (x : Position F) → is_open_of i (close x) ≡ false
    unfolding is_open_of text_eq
    closed-not_open i x = rw (closes.closed x) (ground arith)

    closed-not_open_at :
        (symbol side : Text) (x : Position F) → is_open_at symbol side (close x) ≡ false
    unfolding is_open_at text_eq
    closed-not_open_at symbol side x = rw (closes.closed x) (ground arith)

    closed-held :
        (ps : List (Position F)) (plans : List (TradePlan F)) (i : ℕ) (x : Position F)
        → IsRowed (λ p. p.id) 0 ps
        → last_row (select (is_open_of i) ps) ≡ some x
        → ((j : ℕ) (q : TradePlan F)
            → find_plan j plans ≡ some q
            → count (is_open_of j) ps ≡ bit (text_eq q.status (codes "testnet_executed")))
        → (j : ℕ) (q : TradePlan F)
        → find_plan j
            (update_row (λ p. p.id) i (λ p. record p { status = codes "testnet_closed" }) plans)
          ≡ some q
        → count (is_open_of j) (update_row (λ p. p.id) x.id close ps)
          ≡ bit (text_eq q.status (codes "testnet_executed"))
    unfolding text_eq
    closed-held ps plans i x rowed last h j q got =
        let (r, old, is) = find_plan-update_row i j _ plans q (λ p. refl) got in
        let (among, own) = last_row-Among (λ p. p.id) (is_open_of i) x ps last in
        let moved = count-update_row (λ p. p.id) (is_open_of j) 0 close x ps rowed among in
        elim (Bool-cases (i == j)) [
          | inl e ↦
              let here : q ≡ record r { status = codes "testnet_closed" } = ground arith in
              let own_j : is_open_of j x ≡ true = ground arith in
              rw here (ground (arith, moved, own_j, closed-not_open j x, h j r old))
          | inr e ↦
              let apart : q ≡ r = ground arith in
              rw apart
                (ground (arith, moved, is_open_of-plan i j x own e, closed-not_open j x, h j r old))
        ]

  update_row-IsNumbered :
      (n i : ℕ) (g : TradePlan F → TradePlan F) (ps : List (TradePlan F))
      → ((p : TradePlan F) → (g p).id ≡ p.id)
      → IsNumbered n ps
      → IsNumbered n (update_row (λ p. p.id) i g ps)
  unfolding update_row
  update_row-IsNumbered n i g [] same h = h
  update_row-IsNumbered n i g (p ∷ ps) same (hp, h) = elim (Bool-cases (p.id == i)) [
    | inl e ↦ rw e (omega (arith, same p), update_row-IsNumbered n i g ps same h)
    | inr e ↦ rw e (hp, update_row-IsNumbered n i g ps same h)
  ]

  -- what the status of one plan and the positions make of sound tables
  retold-IsConsistent :
      (t u : Tables F) (i : ℕ) (status : Text)
      → IsConsistent t
      → u.plans ≡ update_row (λ p. p.id) i (λ p. record p { status = status }) t.plans
      → IsRowed (λ p. p.id) 0 u.positions
      → ((j : ℕ) → length t.plans < j → count (is_open_of j) u.positions ≡ 0)
      → ((symbol side : Text) → count (is_open_at symbol side) u.positions ≤ 1)
      → ((j : ℕ) (q : TradePlan F)
          → find_plan j (update_row (λ p. p.id) i (λ p. record p { status = status }) t.plans)
            ≡ some q
          → count (is_open_of j) u.positions ≡ bit (text_eq q.status (codes "testnet_executed")))
      → IsConsistent u
  retold-IsConsistent t u i status h plans rowed known once held =
      let size = length-update_row (λ p. p.id) i (λ p. record p { status = status }) t.plans in
      record {
        numbered = rw (plans, size) (update_row-IsNumbered _ i _ t.plans (λ p. refl) h.numbered);
        known = λ j below. known j (rw (plans, size) at below);
        rowed = rowed;
        once = once;
        held = λ j q got. held j q (rw plans at got);
      }

  pub enter-IsConsistent :
      (v w : World F) (i : ℕ) (p : TradePlan F) (reply : Reply Failure Entry)
      → IsConsistent v.session.live
      → IsReady v.session i p
      → IsEntered v.session p reply w
      → IsConsistent w.session.live
  unfolding enter executed
  enter-IsConsistent v w i p reply h ready e =
      let x = record e.position { id = suc (length v.session.live.positions) } in
      let ps = v.session.live.positions in
      let below =
        find_plan-numbered (length v.session.live.plans) i p v.session.live.plans h.numbered
          ready.found in
      let own = find_plan_id i p v.session.live.plans ready.found in
      rw e.rows (
        retold-IsConsistent v.session.live _ p.id (codes "testnet_executed") h refl
          (IsRowed-append (λ p. p.id) 0 ps x h.rowed (omega arith))
          (λ j above. ground (
            arith,
            count-append (is_open_of j) ps x,
            h.known j,
            is_open_of-opened p x e.position_of_plan e.at_symbol e.at_side e.is_open e.is_testnet j,
          ))
          (λ symbol side.
            opened-once p x e.position_of_plan e.at_symbol e.at_side e.is_open e.is_testnet ps
              symbol side ready.free (h.once symbol side))
          (opened-held p x e.position_of_plan e.at_symbol e.at_side e.is_open e.is_testnet ps
            v.session.live.plans i ready.found ready.approved h.held))

  pub close-IsConsistent :
      (v w : World F) (p : TradePlan F) (x : Position F) (reply : Reply Failure Sync)
      → IsConsistent v.session.live
      → last_row (select (is_open_of p.id) v.session.live.positions) ≡ some x
      → IsClosed v p x reply w
      → IsConsistent w.session.live
  close-IsConsistent v w p x reply h last c =
      let ps = v.session.live.positions in
      retold-IsConsistent v.session.live w.session.live p.id (codes "testnet_closed") h c.plans
        (rw c.positions (IsRowed-update_row (λ p. p.id) 0 x.id c.close ps c.closes.id h.rowed))
        (λ j above.
          let fewer =
            count-update_row_le (is_open_of j) (λ p. p.id) x.id c.close ps
              (closed-not_open c.close c.closes j) in
          rw c.positions (omega (arith, fewer, h.known j above)))
        (λ symbol side.
          let fewer =
            count-update_row_le (is_open_at symbol side) (λ p. p.id) x.id c.close ps
              (closed-not_open_at c.close c.closes symbol side) in
          rw c.positions (omega (arith, fewer, h.once symbol side)))
        (λ j q got.
          rw c.positions (
            closed-held c.close c.closes ps v.session.live.plans p.id x h.rowed last h.held j q
              got))

  -- the same plans and positions
  pub same-IsConsistent :
      (t u : Tables F)
      → u.plans ≡ t.plans
      → u.positions ≡ t.positions
      → IsConsistent t
      → IsConsistent u
  same-IsConsistent t u plans positions h = record {
    numbered = rw plans h.numbered;
    known = rw (plans, positions) h.known;
    rowed = rw positions h.rowed;
    once = rw positions h.once;
    held = rw (plans, positions) h.held;
  }

  pub Marks-IsConsistent :
      (t u : Tables F)
      → IsConsistent t
      → u.plans ≡ t.plans
      → Marks t.positions u.positions
      → IsConsistent u
  unfolding is_open_of is_open_at
  Marks-IsConsistent t u h plans (unmarked e) = same-IsConsistent t u plans e h
  Marks-IsConsistent t u h plans (marked id m e) =
      let ps = t.positions in
      record {
        numbered = rw plans h.numbered;
        known = λ j above. rw e (
            count-update_row_same (is_open_of j) (λ p. p.id) id (set_mark m) ps (λ p. refl)
            ∙ h.known j (rw plans at above));
        rowed = rw e (IsRowed-update_row (λ p. p.id) 0 id (set_mark m) ps (λ p. refl) h.rowed);
        once = λ symbol side.
            let n =
              count-update_row_same (is_open_at symbol side) (λ p. p.id) id (set_mark m) ps
                λ p. refl in
            rw e (omega (arith, n, h.once symbol side));
        held = λ j q got. rw e (
            count-update_row_same (is_open_of j) (λ p. p.id) id (set_mark m) ps (λ p. refl)
            ∙ h.held j q (rw plans at got));
      }

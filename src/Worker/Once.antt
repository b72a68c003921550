-- ===== src/Worker/Once.antt =====
-- A candle is planned once (`processed_candles` in `process_symbol_cycle` of apps/worker/main.py).
use mathlib.Core.Path.{subst}
use binance_futures_algo_bot.Common.{
  ◌∙◌, sym, ap, ◌≡◌, ◌⊎◌, refl, inl, inr, arith, [], ◌∷◌, ℕ, true, List, Option, none, some,
  Bool-cases, Option-cases, select,
}
use binance_futures_algo_bot.Common.Texts.{Text, text_eq, text_eq_refl}
use binance_futures_algo_bot.Float.{Float}
use binance_futures_algo_bot.Worker.{Built, Call, Api, WorkerSettings, Router}
use binance_futures_algo_bot.Worker.Cycle.{
  payload_of, Candles, State, Reply, result, raised, run_result, key_eq, candle_at, forget,
  remember, restore, same_candle, after_answer, create_and_execute, track_and_create, process_built,
  process_symbol_cycle,
}

key_eq_refl : (key : Text × Text) → key_eq key key ≡ true
unfolding key_eq
key_eq_refl key = ground (arith, text_eq_refl key.0, text_eq_refl key.1)

candle_at-remember :
    (key : Text × Text) (candle : ℕ) (candles : Candles)
    → candle_at key (remember key candle candles) ≡ some candle
unfolding candle_at remember
candle_at-remember key candle candles = rw (key_eq_refl key) refl

candle_at-forget :
    (key : Text × Text) (candles : Candles) → candle_at key (forget key candles) ≡ none
unfolding candle_at forget select
candle_at-forget key [] = refl
candle_at-forget key (entry ∷ rest) = elim (Bool-cases (key_eq entry.0 key)) [
  | inl e ↦ rw e (candle_at-forget key rest)
  | inr e ↦ rw (e, e) (candle_at-forget key rest)
]

candle_at-restore :
    (key : Text × Text) (previous : Option ℕ) (candles : Candles)
    → candle_at key (restore key previous candles) ≡ previous
unfolding restore
candle_at-restore key none candles = candle_at-forget key candles
candle_at-restore key (some candle) candles = candle_at-remember key candle candles

same_candle-eq :
    (last : Option ℕ) (candle : ℕ) → same_candle last candle ≡ true → last ≡ some candle
same_candle-eq none candle h = ground arith
same_candle-eq (some last) candle h = ap some (ground arith)

same_candle_refl : (candle : ℕ) → same_candle (some candle) candle ≡ true
same_candle_refl candle = ground arith

module _ {F : Type 0} ⦃f : Float F⦄ (settings : WorkerSettings F) (r : Router)
    (symbol timeframe : Text) (b : Built F) where
  -- What a cycle on a candle leaves: the candle is the last of the symbol and timeframe, or the cycle
  -- raised and the last candle is what it was.
  pub IsTracked : Candles → ℕ → Reply × State F → Type 0
  IsTracked candles candle after =
      (kept : Candles) × (after.1.0 ≡ some kept)
      × ((candle_at (symbol, timeframe) kept ≡ some candle)
          ⊎ ((after.0 ≡ raised)
              × (candle_at (symbol, timeframe) kept ≡ candle_at (symbol, timeframe) candles)))

  track_and_create-IsTracked :
      (api : Api F) (candles : Candles) (candle : ℕ) (calls : List (Call F))
      → IsTracked candles candle
          (track_and_create api settings r symbol timeframe b candles candle calls)
  unfolding track_and_create IsTracked create_and_execute after_answer
  track_and_create-IsTracked api candles candle calls =
      let key : Text × Text = (symbol, timeframe) in
      elim (Bool-cases (same_candle (candle_at key candles) candle)) [
        | inl e ↦ rw e (candles, refl, inl (same_candle-eq (candle_at key candles) candle e))
        | inr e ↦ elim (Option-cases (api.create calls (payload_of settings symbol b))) [
          | inl n ↦ rw (e, n) (_, refl, inr (refl, candle_at-restore key (candle_at key candles) _))
          | inr (created, n) ↦ rw (e, n) (_, refl, inl (candle_at-remember key candle candles))
        ]
      ]

  again :
      (api : Api F) (kept : Candles) (candle : ℕ) (calls : List (Call F))
      → candle_at (symbol, timeframe) kept ≡ some candle
      → track_and_create api settings r symbol timeframe b kept candle calls
        ≡ (result (run_result symbol b true), (some kept, calls))
  unfolding track_and_create
  again api kept candle calls h = rw (h, same_candle_refl candle) refl

  built-tracked :
      (api : Api F) (found : Option ℕ) (candles : Candles) (candle : ℕ) (calls : List (Call F))
      → found ≡ some candle
      → process_built api settings r symbol timeframe b found (some candles, calls)
        ≡ track_and_create api settings r symbol timeframe b candles candle calls
  unfolding process_built
  built-tracked api found candles candle calls e = rw e refl

  cycle-tracked :
      (api : Api F) (candles : Candles) (candle : ℕ) (calls : List (Call F))
      → b.last_candle_close_ms ≡ some candle
      → text_eq b.context.timeframe timeframe ≡ true
      → process_symbol_cycle api settings r symbol timeframe (some b) (some candles, calls)
        ≡ track_and_create api settings r symbol timeframe b candles candle calls
  unfolding process_symbol_cycle
  cycle-tracked api candles candle calls c t =
      simp t (built-tracked api b.last_candle_close_ms candles candle calls c)

  -- A worker that keeps the candles plans a candle once, on signals of the right timeframe that have
  -- one: after a cycle, either it raised and the last candle of the symbol and timeframe is what it
  -- was, or that is the candle of the signals; and from then on a cycle on the same signals is skipped
  -- as a duplicate, with no call and the candles as they are, whatever the API answers.
  pub process_symbol_cycle-once :
      (api later : Api F) (candles : Candles) (candle : ℕ) (calls : List (Call F))
      → b.last_candle_close_ms ≡ some candle
      → text_eq b.context.timeframe timeframe ≡ true
      → IsTracked candles candle
          (process_symbol_cycle api settings r symbol timeframe (some b) (some candles, calls))
        × ((kept : Candles) (more : List (Call F))
            → candle_at (symbol, timeframe) kept ≡ some candle
            → process_symbol_cycle later settings r symbol timeframe (some b) (some kept, more)
              ≡ (result (run_result symbol b true), (some kept, more)))
  process_symbol_cycle-once api later candles candle calls c t = (
    subst (IsTracked candles candle) (sym (cycle-tracked api candles candle calls c t))
        (track_and_create-IsTracked api candles candle calls),
    λ kept more h. cycle-tracked later kept candle more c t ∙ again later kept candle more h,
  )

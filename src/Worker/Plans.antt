-- ===== src/Worker/Plans.antt =====
-- The plan that the API answers to a cycle, and whether it is one to execute (`process_symbol_cycle` of
-- apps/worker/main.py).
use binance_futures_algo_bot.Common.{
  ◌≡◌, ◌≢◌, ◌<◌, Bool, ap, ◌⊎◌, arith, ℕ, true, false, Option, none, some,
}
use binance_futures_algo_bot.Common.Texts.{Text, codes, text_eq, text_eq-eq, text_eq_refl}
use mathlib.Core.Path.{subst}
use binance_futures_algo_bot.Worker.{Created, plan_id, has_status}

-- The API answered with an approved plan, whose id is `n`.
abbrev pub IsPlan : Option Created → ℕ → Type 0
IsPlan answer n =
    (created : Created) × (answer ≡ some created)
    × (created.status ≡ some (codes "approved"))
    × (created.id ≡ some n)
    × (0 < n)

-- The API raised, or the plan is not approved, or has no id.
pub data IsUnfit (answer : Option Created) : Type 0 where
  no_answer : answer ≡ none → IsUnfit answer
  not_approved :
      (created : Created)
      → answer ≡ some created
      → created.status ≢ some (codes "approved")
      → IsUnfit answer
  no_id :
      (created : Created)
      → answer ≡ some created
      → (created.id ≡ none) ⊎ (created.id ≡ some 0)
      → IsUnfit answer

-- the test of `has_status` on a status
abbrev is_status : Text → Option Text → Bool
is_status s none = false
is_status s (some t) = text_eq t s

is_status-eq : (s : Text) (o : Option Text) → is_status s o ≡ true → o ≡ some s
is_status-eq s none h = ground arith
is_status-eq s (some t) h = ap some (text_eq-eq t s h)

is_status-ne : (s : Text) (o : Option Text) → is_status s o ≡ false → o ≢ some s
is_status-ne s o h e =
    let same : is_status s (some s) ≡ false = subst (λ x. is_status s x ≡ false) e h in
    ground (arith, text_eq_refl s)

pub has_status-eq : (c : Created) (s : Text) → has_status s c ≡ true → c.status ≡ some s
unfolding has_status
has_status-eq c s h = is_status-eq s c.status h

pub has_status-ne : (c : Created) (s : Text) → has_status s c ≡ false → c.status ≢ some s
unfolding has_status
has_status-ne c s h = is_status-ne s c.status h

pub plan_id-eq : (c : Created) (n : ℕ) → plan_id c ≡ some n → (c.id ≡ some n) × (0 < n)
unfolding plan_id
plan_id-eq c n h = ground arith

pub plan_id-none : (c : Created) → plan_id c ≡ none → (c.id ≡ none) ⊎ (c.id ≡ some 0)
unfolding plan_id
plan_id-none c h = ground arith

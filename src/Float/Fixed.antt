-- ===== src/Float/Fixed.antt =====
-- A number type that meets the laws, for runs on concrete inputs: decimals with eight places.
use mathlib.Core.Path.{ap}
use native.Mathlib.Nat.{
  mul-le-mul, mul-le-mul_right, le_of_mul-le-mul_right, le_refl, pow-suc, le-div_iff_mul-le,
  mul-div-le,
}
use binance_futures_algo_bot.Common.{
  List, [], ◌∷◌, All, true, ℕ, zero, suc, ◌+◌, ◌-◌, ◌*◌, ◌/◌, ◌^◌, ◌≤◌, ◌<◌, ◌≡◌, refl, ◌∙◌, false,
  arith, ◌==◌, leb, if◌then◌else◌,
}
use binance_futures_algo_bot.Common.Int.{
  ℤ, pos, negsuc, pos_part, neg_part, sub_ℕ, ◌+ℤ◌, ◌-ℤ◌, ◌≤ℤ◌, leb_ℤ, eq_of_parts, int_laws,
  leb_ℤ-le, le-leb_ℤ,
}
use binance_futures_algo_bot.Float.{Float}
use binance_futures_algo_bot.Float.Order.{IsFloat}

-- a count of units of 10 ** -8
abbrev pub Fixed : Type 0
Fixed = ℤ

abbrev pub scale : ℕ
scale = 100_000_000

fixed_dec : ℕ → ℕ → Fixed
fixed_dec n k = pos (n * scale / 10 ^ k)

fixed_times : Fixed → Fixed → Fixed
fixed_times a b =
    sub_ℕ ((pos_part a * pos_part b + neg_part a * neg_part b) / scale)
      ((pos_part a * neg_part b + neg_part a * pos_part b) / scale)

fixed_over : Fixed → Fixed → Fixed
fixed_over a b =
    let d = pos_part b + neg_part b in
    if neg_part b == 0
    then sub_ℕ (pos_part a * scale / d) (neg_part a * scale / d)
    else sub_ℕ (neg_part a * scale / d) (pos_part a * scale / d)

-- to the nearest multiple, ties away from zero
snap : ℕ → ℕ → ℕ
snap unit n = (n + unit / 2) / unit * unit

fixed_round : ℕ → Fixed → Fixed
unfolding snap
fixed_round k a = sub_ℕ (snap (10 ^ (8 - k)) (pos_part a)) (snap (10 ^ (8 - k)) (neg_part a))

fixed_floor : Fixed → Fixed
fixed_floor a = sub_ℕ (pos_part a / scale * scale) ((neg_part a + (scale - 1)) / scale * scale)

fixed_ceil : Fixed → Fixed
fixed_ceil a = sub_ℕ ((pos_part a + (scale - 1)) / scale * scale) (neg_part a / scale * scale)

-- the number of times that `n` can be divided by ten before it is below ten; `fuel` bounds them
tens : ℕ → ℕ → ℕ
tens zero n = 0
tens (suc fuel) n = let rest = tens fuel (n / 10) in if leb 10 n then suc rest else 0

-- rounded down to a whole number
fixed_log10 : Fixed → Fixed
unfolding tens
fixed_log10 a = let n = pos_part a in sub_ℕ (tens n n * scale) (8 * scale)

fixed_trunc : Fixed → ℤ
fixed_trunc a = sub_ℕ (pos_part a / scale) (neg_part a / scale)

fixed_sum : List Fixed → Fixed
fixed_sum [] = pos 0
fixed_sum (x ∷ xs) = x +ℤ fixed_sum xs

instance unfoldable pub fixed_float : Float Fixed
unfolding ◌+ℤ◌ ◌-ℤ◌ fixed_dec fixed_times fixed_over fixed_round fixed_floor fixed_ceil fixed_sum
    fixed_log10 fixed_trunc
fixed_float = record {
  dec = fixed_dec;
  le = leb_ℤ;
  plus = ◌+ℤ◌;
  minus = ◌-ℤ◌;
  times = fixed_times;
  over = fixed_over;
  round_to = fixed_round;
  floor = fixed_floor;
  ceil = fixed_ceil;
  log10 = fixed_log10;
  trunc = fixed_trunc;
  fsum = fixed_sum;
  sum = fixed_sum;
}

div_mono : (k a b : ℕ) → a ≤ b → a / k ≤ b / k
div_mono zero a b h = omega arith
div_mono (suc k) a b h = grind arith

snap_mono : (unit a b : ℕ) → a ≤ b → snap unit a ≤ snap unit b
unfolding snap
snap_mono unit a b h =
    mul-le-mul (div_mono unit (a + unit / 2) (b + unit / 2) (omega arith)) (le_refl unit)

pow_pos : (k : ℕ) → 0 < 10 ^ k
pow_pos zero = omega arith
pow_pos (suc k) = rw pow-suc (omega (arith, pow_pos k))

-- n / a ≤ m / b, cross-multiplied
quotients_le : (n m a b s : ℕ) → 0 < a → 0 < b → n * b ≤ m * a → n * s / a ≤ m * s / b
quotients_le n m a b s pa pb h =
    let below = mul-le-mul_right b (mul-div-le (n * s) a) in
    let scaled = mul-le-mul_right s h in
    let product : n * s / a * b * a ≤ m * s * a = omega arith in
    (le-div_iff_mul-le pb).1 (le_of_mul-le-mul_right product pa)

dec_le : (n k m j : ℕ) → n * 10 ^ j ≤ m * 10 ^ k → fixed_dec n k ≤ℤ fixed_dec m j
unfolding fixed_dec
dec_le n k m j h = omega (arith, quotients_le n m (10 ^ k) (10 ^ j) scale (pow_pos k) (pow_pos j) h)

abbrev unit : ℕ → ℕ
unit zero = 100_000_000
unit (suc zero) = 10_000_000
unit (suc (suc zero)) = 1_000_000
unit (suc (suc (suc zero))) = 100_000
unit (suc (suc (suc (suc k)))) = 10_000

fixed_dec-unit : (n k : ℕ) → k ≤ 4 → fixed_dec n k ≡ pos (n * unit k)
unfolding fixed_dec
fixed_dec-unit n zero h = ground arith
fixed_dec-unit n (suc zero) h = ground arith
fixed_dec-unit n (suc (suc zero)) h = ground arith
fixed_dec-unit n (suc (suc (suc zero))) h = ground arith
fixed_dec-unit n (suc (suc (suc (suc zero)))) h = ground arith
fixed_dec-unit n (suc (suc (suc (suc (suc k))))) h = absurd (omega arith)

unit-pow : (k : ℕ) → k ≤ 4 → unit k * 10 ^ k ≡ scale
unit-pow zero h = refl
unit-pow (suc zero) h = refl
unit-pow (suc (suc zero)) h = refl
unit-pow (suc (suc (suc zero))) h = refl
unit-pow (suc (suc (suc (suc zero)))) h = refl
unit-pow (suc (suc (suc (suc (suc k))))) h = absurd (omega arith)

times_pos : (a b : ℕ) → fixed_times (pos a) (pos b) ≡ pos (a * b / scale)
unfolding fixed_times
times_pos a b = ground arith

times_mono :
    (a b c d : Fixed)
    → pos 0 ≤ℤ a
    → a ≤ℤ b
    → pos 0 ≤ℤ c
    → c ≤ℤ d
    → fixed_times a c ≤ℤ fixed_times b d
times_mono (pos a) (pos b) (pos c) (pos d) ha hb hc hd =
    let le : a * c / scale ≤ b * d / scale =
      div_mono scale (a * c) (b * d) (mul-le-mul (omega arith) (omega arith)) in
    rw (times_pos a c, times_pos b d) (omega arith)
times_mono a b c d ha hb hc hd = absurd (omega arith)

times_nonneg : (a b : Fixed) → pos 0 ≤ℤ a → pos 0 ≤ℤ b → pos 0 ≤ℤ fixed_times a b
times_nonneg (pos a) (pos b) ha hb = rw (times_pos a b) (omega arith)
times_nonneg a b ha hb = absurd (omega arith)

sub_ℕ_mono : (a b c d : ℕ) → a ≤ c → d ≤ b → sub_ℕ a b ≤ℤ sub_ℕ c d
sub_ℕ_mono a b c d p q = ground arith

round_mono : (k : ℕ) (a b : Fixed) → a ≤ℤ b → fixed_round k a ≤ℤ fixed_round k b
unfolding fixed_round
round_mono k a b h =
    sub_ℕ_mono (snap u (pos_part a)) (snap u (neg_part a)) (snap u (pos_part b))
      (snap u (neg_part b)) (snap_mono u (pos_part a) (pos_part b) (pos_le a b h))
      (snap_mono u (neg_part b) (neg_part a) (neg_le a b h))
  where
    u : ℕ
    u = 10 ^ (8 - k)

    pos_le : (x y : Fixed) → x ≤ℤ y → pos_part x ≤ pos_part y
    pos_le (pos m) (pos n) e = omega arith
    pos_le (pos m) (negsuc n) e = absurd (omega arith)
    pos_le (negsuc m) y e = omega arith

    neg_le : (x y : Fixed) → x ≤ℤ y → neg_part y ≤ neg_part x
    neg_le x (pos n) e = omega arith
    neg_le (pos m) (negsuc n) e = absurd (omega arith)
    neg_le (negsuc m) (negsuc n) e = omega arith

round_whole : (k n : ℕ) → k ≤ 6 → fixed_round k (fixed_dec n 0) ≡ fixed_dec n 0
unfolding fixed_round fixed_dec
round_whole zero n h = ground arith
round_whole (suc zero) n h = ground arith
round_whole (suc (suc zero)) n h = ground arith
round_whole (suc (suc (suc zero))) n h = ground arith
round_whole (suc (suc (suc (suc zero)))) n h = ground arith
round_whole (suc (suc (suc (suc (suc zero))))) n h = ground arith
round_whole (suc (suc (suc (suc (suc (suc zero)))))) n h = ground arith
round_whole (suc (suc (suc (suc (suc (suc (suc k))))))) n h = absurd (omega arith)

over_pos : (a b : ℕ) → fixed_over (pos a) (pos b) ≡ pos (a * scale / b)
unfolding fixed_over
over_pos a zero = ground arith
over_pos a (suc b) = ground arith

over_nonneg : (a b : Fixed) → pos 0 ≤ℤ a → pos 0 ≤ℤ b → pos 0 ≤ℤ fixed_over a b
over_nonneg (pos a) (pos b) ha hb = rw (over_pos a b) (omega arith)
over_nonneg (negsuc a) b ha hb = absurd (omega arith)
over_nonneg a (negsuc b) ha hb = absurd (omega arith)

quotient_le : (a b : ℕ) → scale ≤ b → a * scale / b ≤ a
quotient_le a b h =
    let q = a * scale / b in
    le_of_mul-le-mul_right {k = scale}
      (omega (arith, mul-le-mul (le_refl q) h, mul-div-le (a * scale) b)) (omega arith)

over_le : (a b : Fixed) → pos 0 ≤ℤ a → pos scale ≤ℤ b → fixed_over a b ≤ℤ a
over_le (pos a) (pos b) ha hb = rw (over_pos a b) (omega (arith, quotient_le a b (omega arith)))
over_le (negsuc a) b ha hb = absurd (omega arith)
over_le a (negsuc b) ha hb = absurd (omega arith)

share_quotient : (a b : ℕ) → a ≤ b → 0 < b → a * scale / b ≤ scale
share_quotient a b h k =
    le_of_mul-le-mul_right {k = b}
      (omega (arith, mul-le-mul_right scale h, mul-div-le (a * scale) b)) k

over_le_one :
    (a b : Fixed) → pos 0 ≤ℤ a → a ≤ℤ b → leb_ℤ b (pos 0) ≡ false → fixed_over a b ≤ℤ fixed_dec 1 0
unfolding fixed_dec
over_le_one (pos a) (pos b) ha hb hp =
    rw (over_pos a b) (omega (arith, share_quotient a b (omega arith) (ground arith)))
over_le_one (negsuc a) b ha hb hp = absurd (omega arith)
over_le_one (pos a) (negsuc b) ha hb hp = absurd (omega arith)

one_times_le : (n : ℕ) → fixed_times (fixed_dec 1 0) (fixed_dec n 0) ≤ℤ fixed_dec n 0
unfolding fixed_dec
one_times_le n =
    rw (fixed_dec-unit 1 0 (omega arith), fixed_dec-unit n 0 (omega arith), times_pos _ _)
      (omega arith)

sum_nonneg : (xs : List Fixed) → All (λ x. leb_ℤ (pos 0) x ≡ true) xs → pos 0 ≤ℤ fixed_sum xs
unfolding fixed_sum
sum_nonneg [] h = omega arith
sum_nonneg (x ∷ xs) (h, hs) = omega (int_laws, leb_ℤ-le (pos 0) x h, sum_nonneg xs hs)

dec_lt :
    (n k m j : ℕ)
    → k ≤ 4
    → j ≤ 4
    → n * 10 ^ j < m * 10 ^ k
    → leb_ℤ (fixed_dec m j) (fixed_dec n k) ≡ false
dec_lt n k m j hk hj h = rw (fixed_dec-unit m j hj, fixed_dec-unit n k hk) (ground (arith, lt))
  where
    lt : ¬ (m * unit j ≤ n * unit k)
    lt le = omega (
      arith,
      mul-le-mul_right (10 ^ j * 10 ^ k) le,
      ap (λ t. m * 10 ^ k * t) (unit-pow j hj),
      ap (λ t. n * 10 ^ j * t) (unit-pow k hk),
    )

share_le :
    (n m : ℕ)
    → n + m ≡ 100
    → fixed_times (fixed_dec 100 0) (fixed_dec n 2) +ℤ fixed_times (fixed_dec 100 0) (fixed_dec m 2)
      ≤ℤ fixed_dec 100 0
unfolding fixed_dec
share_le n m h =
    rw (times_pos (100 * scale) (n * scale / 100), times_pos (100 * scale) (m * scale / 100))
      (omega int_laws)

pub Fixed-IsFloat : IsFloat Fixed
unfolding fixed_float
Fixed-IsFloat = record {
  le_refl = λ x. le-leb_ℤ x x (omega arith);
  le_trans = λ x y z p q. ground arith;
  le_total = λ x y. ground arith;
  dec_le = λ n k m j _ _ h. le-leb_ℤ (fixed_dec n k) (fixed_dec m j) (dec_le n k m j h);
  dec_lt = λ n k m j hk hj _ _ h. dec_lt n k m j hk hj h;
  plus_mono =
      λ a b c d p q. le-leb_ℤ (a +ℤ c) (b +ℤ d) (omega (int_laws, leb_ℤ-le a b p, leb_ℤ-le c d q));
  minus_mono =
      λ a b c d p q. le-leb_ℤ (a -ℤ c) (b -ℤ d) (omega (int_laws, leb_ℤ-le a b p, leb_ℤ-le d c q));
  times_mono = λ a b c d p q r s. le-leb_ℤ (fixed_times a c) (fixed_times b d) (
      times_mono a b c d (leb_ℤ-le (pos 0) a p) (leb_ℤ-le a b q) (leb_ℤ-le (pos 0) c r)
        (leb_ℤ-le c d s));
  plus_nonneg = λ a b p q.
      le-leb_ℤ (pos 0) (a +ℤ b) (omega (int_laws, leb_ℤ-le (pos 0) a p, leb_ℤ-le (pos 0) b q));
  minus_nonneg = λ a b p. le-leb_ℤ (pos 0) (a -ℤ b) (omega (int_laws, leb_ℤ-le b a p));
  minus_nonpos = λ a b p. le-leb_ℤ (a -ℤ b) (pos 0) (omega (int_laws, leb_ℤ-le a b p));
  minus_le = λ a b p. le-leb_ℤ (a -ℤ b) a (omega (int_laws, leb_ℤ-le (pos 0) b p));
  le_plus = λ a b p. le-leb_ℤ a (a +ℤ b) (omega (int_laws, leb_ℤ-le (pos 0) b p));
  dec_nonneg = λ n k. le-leb_ℤ (pos 0) (fixed_float.dec n k) (omega int_laws);
  times_nonneg = λ a b p q.
      le-leb_ℤ (pos 0) (fixed_times a b)
        (times_nonneg a b (leb_ℤ-le (pos 0) a p) (leb_ℤ-le (pos 0) b q));
  over_nonneg = λ a b p q.
      le-leb_ℤ (pos 0) (fixed_over a b) (over_nonneg a b (leb_ℤ-le (pos 0) a p) (ground arith));
  over_le = λ a b p q.
      le-leb_ℤ (fixed_over a b) a (over_le a b (leb_ℤ-le (pos 0) a p) (leb_ℤ-le (pos scale) b q));
  over_le_one = λ a b p q r.
      le-leb_ℤ (fixed_over a b) (fixed_dec 1 0)
        (over_le_one a b (leb_ℤ-le (pos 0) a p) (leb_ℤ-le a b q) r);
  one_times_le =
      λ n. le-leb_ℤ (fixed_times (fixed_dec 1 0) (fixed_dec n 0)) (fixed_dec n 0) (one_times_le n);
  fsum_nonneg = λ xs h. le-leb_ℤ (pos 0) (fixed_sum xs) (sum_nonneg xs h);
  sum_nonneg = λ xs h. le-leb_ℤ (pos 0) (fixed_sum xs) (sum_nonneg xs h);
  round_mono =
      λ k a b p. le-leb_ℤ (fixed_round k a) (fixed_round k b) (round_mono k a b (leb_ℤ-le a b p));
  round_whole = λ k n h _. round_whole k n h;
  round_cancel =
      λ b l p q r e. ap (fixed_round 4) (eq_of_parts (b +ℤ (l -ℤ b)) l (omega int_laws)) ∙ e;
  share_le = λ n m h.
      le-leb_ℤ
        (fixed_times (fixed_dec 100 0) (fixed_dec n 2)
          +ℤ fixed_times (fixed_dec 100 0) (fixed_dec m 2))
        (fixed_dec 100 0) (share_le n m h);
}

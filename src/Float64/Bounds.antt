-- ===== src/Float64/Bounds.antt =====
-- How far a rounded value can lie above the exact one: by one part in 2 ^ 53 for each operation.
use native.Mathlib.Nat.{
  pow-suc, one-le-pow, div-add-mod', add-mul, mul-le-mul, mul-le-mul_right, le_of_mul-le-mul_left,
  le_of_mul-le-mul_right, lt_of_mul-lt-mul_left, div-mul-le_self,
}
use subnet_benchmark.Prelude.{
  ℕ, zero, suc, ◌+◌, ◌*◌, ◌/◌, ◌%◌, ◌^◌, ◌≤◌, ◌<◌, ◌≡◌, refl, ap, arith, leb, ◌==◌, leb→le, lt→ltb,
  ==_iff, Bool-cases, inl, inr,
}
use subnet_benchmark.Model.{Fraction}
use subnet_benchmark.Float64.{
  round_even, scale_up, round, of_int, of_numeric, times, divided, plus, truncate,
}

parity_step : (q b : ℕ) → (q + q % 2) * b ≤ q * b + b
parity_step q b =
    let one_more : (q + q % 2) * b ≤ (q + 1) * b = mul-le-mul_right b (omega arith) in
    omega (arith, one_more, add-mul q 1 b)

round_even-le : (a b : ℕ) → 0 < b → 2 * (round_even a b * b) ≤ 2 * a + b
unfolding round_even
round_even-le a b h =
    let parts = div-add-mod' a b in
    let up = add-mul (a / b) 1 b in
    let tie = parity_step (a / b) b in ground (arith, parts, up, tie)

le_pow_two : (n : ℕ) → n ≤ 2 ^ n
le_pow_two zero = omega arith
le_pow_two (suc n) = omega (arith, le_pow_two n, pow-suc 2 n, one-le-pow n 2)

scale_up_pos : (k n d f : ℕ) → 0 < f → 0 < scale_up k n d f
unfolding scale_up
scale_up_pos zero n d f h = h
scale_up_pos (suc k) n d f h = ground (arith, scale_up_pos k n d (2 * f))

-- With enough rounds the scaled value has 53 bits.
scale_up_reaches : (k n d f : ℕ) → d * 2 ^ 52 ≤ n * f * 2 ^ k → d * 2 ^ 52 ≤ n * scale_up k n d f
unfolding scale_up
scale_up_reaches zero n d f h = omega (arith, h)
scale_up_reaches (suc k) n d f h = elim (Bool-cases (leb (d * 2 ^ 52) (n * f))) [
  | inl there ↦ rw there (leb→le _ _ there)
  | inr short ↦
      rw short
        (scale_up_reaches k n d (2 * f) (omega (arith, h, ap (λ (t : ℕ). n * f * t) (pow-suc 2 k))))
]

-- The numeral 2 ^ 53 and the one after it.
abbrev pub B : ℕ
B = 9007199254740992

scaled-le :
    (n d f : ℕ) → 0 < d → d * 2 ^ 52 ≤ n * f → round_even (n * f) d * d * B ≤ n * f * (B + 1)
scaled-le n d f h big = let near = round_even-le (n * f) d h in omega (arith, near, big)

round_pos : (n d : ℕ) → 0 < (round n d).den
unfolding round
round_pos n d = ground (arith, scale_up_pos (d + 52) n d 1)

pow_plus : (d : ℕ) → 2 ^ (d + 52) ≡ 2 ^ d * 2 ^ 52
pow_plus zero = refl
pow_plus (suc d) =
    let shift : suc d + 52 ≡ suc (d + 52) = omega arith in
    rw shift (omega (arith, pow-suc 2 (d + 52), pow-suc 2 d, pow_plus d))

enough : (n d : ℕ) → 0 < n → d * 2 ^ 52 ≤ n * 1 * 2 ^ (d + 52)
enough n d h =
    let wide : d ≤ n * 2 ^ d = omega (arith, le_pow_two d, mul-le-mul_right (2 ^ d) h) in
    omega (arith, wide, ap (λ (t : ℕ). n * t) (pow_plus d))

cross :
    (d m f n C K : ℕ)
    → 0 < d
    → m * d * B ≤ n * f * (B + 1)
    → n * C ≤ K * d
    → m * (B * C) ≤ K * (B + 1) * f
cross d m f n C K h near bound =
    let left = mul-le-mul_right C near in
    let right = mul-le-mul_right (f * (B + 1)) bound in
    le_of_mul-le-mul_left {k = d} (omega (arith, left, right)) h

-- Rounding a value that is at most K / C gives one that is at most K / C · (1 + 2 ^ -53).
pub round-le :
    (n d C K : ℕ)
    → 0 < d
    → n < d * 2 ^ 53
    → n * C ≤ K * d
    → (round n d).num * (B * C) ≤ K * (B + 1) * (round n d).den
unfolding round
round-le n d C K h small bound = elim (Bool-cases (n == 0)) [
  | inl empty ↦ rw empty (omega arith)
  | inr some_value ↦
      let f = scale_up (d + 52) n d 1 in
      let m = round_even (n * f) d in
      let positive : 0 < n = ground (arith, some_value) in
      let near = scaled-le n d f h (scale_up_reaches (d + 52) n d 1 (enough n d positive)) in
      rw (some_value, lt→ltb n (d * 2 ^ 53) small) (cross d m f n C K h near bound)
]

-- A float whose value is at most K / C.
pub record AtMost (C K : ℕ) (x : Fraction) : Type 0 where
  pub positive : 0 < x.den
  pub bounded : x.num * C ≤ K * x.den

round_even-one : (a : ℕ) → round_even a 1 ≡ a
unfolding round_even
round_even-one a = ground arith

-- An integer below 2 ^ 53 is converted exactly.
pub of_int-exact : (n : ℕ) → n < 2 ^ 53 → (of_int n).num ≡ n * (of_int n).den
unfolding of_int round
of_int-exact n h = elim (Bool-cases (n == 0)) [
  | inl empty ↦ let e = (==_iff n 0).0 empty in rw (empty, e) (omega arith)
  | inr some_value ↦
      rw (some_value, lt→ltb n (1 * 2 ^ 53) (omega (arith, h)))
        (round_even-one (n * scale_up 53 n 1 1))
]

pub of_int-AtMost : (n : ℕ) → n < 2 ^ 53 → AtMost 1 n (of_int n)
of_int-AtMost n h = record {
  positive = unfold of_int in round_pos n 1;
  bounded = omega (arith, of_int-exact n h);
}

pub round-AtMost :
    (n d C K : ℕ)
    → 0 < d
    → 0 < C
    → K < C * 2 ^ 53
    → n * C ≤ K * d
    → AtMost (B * C) (K * (B + 1)) (round n d)
round-AtMost n d C K h c small bound =
    let below = mul-le-mul_right d small in
    record {
      positive = round_pos n d;
      bounded = round-le n d C K h (lt_of_mul-lt-mul_left C (omega (arith, bound, below, h))) bound;
    }

pub of_numeric-AtMost : (k : ℕ) → k ≤ 10000 → AtMost (B * 10000) (k * (B + 1)) (of_numeric k)
unfolding of_numeric
of_numeric-AtMost k h =
    round-AtMost k 10000 10000 k (omega arith) (omega arith) (omega (arith, h)) (omega arith)

module _ (C C' K K' : ℕ) (x y : Fraction) (hx : AtMost C K x) (hy : AtMost C' K' y) where
  pub times-AtMost :
      0 < C * C' → K * K' < C * C' * 2 ^ 53 → AtMost (B * (C * C')) (K * K' * (B + 1)) (times x y)
  unfolding times
  times-AtMost c small =
      let both = mul-le-mul hx.bounded hy.bounded in
      let dens = mul-le-mul hx.positive hy.positive in
      round-AtMost (x.num * y.num) (x.den * y.den) (C * C') (K * K') (omega (arith, dens)) c small
        (omega (arith, both))

pub plus-AtMost :
    (C K : ℕ) (x y : Fraction)
    → AtMost C K x
    → AtMost C K y
    → 0 < C
    → K + K < C * 2 ^ 53
    → AtMost (B * C) ((K + K) * (B + 1)) (plus x y)
unfolding plus
plus-AtMost C K x y hx hy c small =
    let dens = mul-le-mul hx.positive hy.positive in
    let left = mul-le-mul_right y.den hx.bounded in
    let right = mul-le-mul_right x.den hy.bounded in
    round-AtMost (x.num * y.den + y.num * x.den) (x.den * y.den) C (K + K) (omega (arith, dens)) c
      small (omega (arith, left, right))

-- An average of whole numbers.
pub average-AtMost :
    (most total count : ℕ)
    → 0 < count
    → count < 2 ^ 53
    → most < 2 ^ 53
    → total < 2 ^ 53
    → total ≤ most * count
    → AtMost B (most * (B + 1)) (divided (of_int total) (of_int count))
unfolding divided
average-AtMost most total count some_ c m t h =
    let x = of_int total in
    let y = of_int count in
    let ex = ap (λ (k : ℕ). k * y.den) (of_int-exact total t) in
    let ey = ap (λ (k : ℕ). x.den * k) (of_int-exact count c) in
    let dens = mul-le-mul (of_int-AtMost total t).positive (of_int-AtMost count c).positive in
    let some_den = mul-le-mul dens some_ in
    let scaled = mul-le-mul_right (x.den * y.den) h in
    round-AtMost (x.num * y.den) (x.den * y.num) 1 most (omega (arith, ey, some_den)) (omega arith)
      (omega (arith, m)) (omega (arith, ex, ap (λ (k : ℕ). most * k) ey, scaled))

-- The value of an integer conversion.
pub truncate-le : (C K : ℕ) (x : Fraction) → AtMost C K x → truncate x * C ≤ K
unfolding truncate
truncate-le C K x h =
    let floor = mul-le-mul_right C (div-mul-le_self x.num x.den) in
    le_of_mul-le-mul_right {k = x.den} (omega (arith, floor, h.bounded)) h.positive

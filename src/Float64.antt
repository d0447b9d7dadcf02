-- ===== src/Float64.antt =====
-- The float64 arithmetic of internal/service/settlement.go: IEEE 754 doubles that are not negative, as
-- a numerator over a power of 2. Rounding is to 53 bits, to the nearest, ties to even. The values of
-- a settlement are far from overflow and from subnormal numbers, which are left out.
pub mod Bounds
use subnet_benchmark.Prelude.{
  ℕ, zero, suc, ◌+◌, ◌*◌, ◌/◌, ◌%◌, ◌^◌, Bool, ltb, leb, ◌==◌, if◌then◌else◌,
}
use subnet_benchmark.Model.{Fraction}

-- The integer nearest to a / b.
unfoldable pub round_even : ℕ → ℕ → ℕ
round_even a b =
    if ltb (2 * (a % b)) b
    then a / b
    else if ltb b (2 * (a % b))
    then a / b + 1
    else a / b + a / b % 2

-- The least factor f · 2 ^ e by which n / d reaches 2 ^ 52, in at most `rounds` doublings.
unfoldable pub scale_up : ℕ → ℕ → ℕ → ℕ → ℕ
scale_up zero n d f = f
scale_up (suc rounds) n d f =
    let more = scale_up rounds n d (2 * f) in if leb (d * 2 ^ 52) (n * f) then f else more

-- The least factor by which n / d must be divided to come below 2 ^ 53.
unfoldable pub scale_down : ℕ → ℕ → ℕ → ℕ → ℕ
scale_down zero n d f = f
scale_down (suc rounds) n d f =
    let more = scale_down rounds n d (2 * f) in if ltb n (d * f * 2 ^ 53) then f else more

-- The double nearest to n / d.
unfoldable pub round : ℕ → ℕ → Fraction
unfolding round_even scale_up scale_down
round n d =
    if n == 0
    then record { num = 0; den = 1 }
    else if ltb n (d * 2 ^ 53)
    then record { num = round_even (n * scale_up (d + 52) n d 1) d; den = scale_up (d + 52) n d 1 }
    else record { num = round_even n (d * scale_down n n d 1) * scale_down n n d 1; den = 1 }

-- float64(n)
unfoldable pub of_int : ℕ → Fraction
unfolding round
of_int n = round n 1

-- The double read from a NUMERIC(5,4) column.
unfoldable pub of_numeric : ℕ → Fraction
unfolding round
of_numeric k = round k 10000

unfoldable pub times : Fraction → Fraction → Fraction
unfolding round
times x y = round (x.num * y.num) (x.den * y.den)

unfoldable pub divided : Fraction → Fraction → Fraction
unfolding round
divided x y = round (x.num * y.den) (x.den * y.num)

unfoldable pub plus : Fraction → Fraction → Fraction
unfolding round
plus x y = round (x.num * y.den + y.num * x.den) (x.den * y.den)

-- x < y
unfoldable pub is_less : Fraction → Fraction → Bool
is_less x y = ltb (x.num * y.den) (y.num * x.den)

-- int64(x)
unfoldable pub truncate : Fraction → ℕ
truncate x = x.num / x.den

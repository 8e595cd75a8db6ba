-- ===== src/Golang/Float64.antt =====
-- `float64` as its 64 bits (IEEE 754 binary64): `math.Float64bits` and `Float64frombits` are the
-- identity here, and the comparisons and tests are computed on the bits.
use the_500mb_club_challenge.Prelude.{
  ℕ, zero, suc, ◌/◌, ◌%◌, ◌^◌, ◌<◌, ◌≡◌, refl, Bool, true, not, ◌&&◌, ◌==◌, if◌then◌else◌,
}
use the_500mb_club_challenge.Prelude.Int.{ℤ, pos, negsuc, ltb_ℤ}

abbrev pub Float64 : Type 0
Float64 = ℕ

abbrev pub IsFloat64 : Float64 → Type 0
IsFloat64 f = f < 2 ^ 64

unfoldable pub sign_bit : Float64 → Bool
sign_bit f = f / 2 ^ 63 % 2 == 1

unfoldable pub exponent : Float64 → ℕ
exponent f = f / 2 ^ 52 % 2 ^ 11

unfoldable pub fraction : Float64 → ℕ
fraction f = f % 2 ^ 52

unfoldable pub is_nan : Float64 → Bool
unfolding exponent fraction
is_nan f = exponent f == 2047 && not (fraction f == 0)

unfoldable pub is_inf : Float64 → Bool
unfolding exponent fraction
is_inf f = exponent f == 2047 && fraction f == 0

abbrev negated : ℕ → ℤ
negated zero = pos 0
negated (suc n) = negsuc n

-- The bits below the sign grow with the magnitude, so with the sign they order the values; both
-- zeros are 0.
unfoldable pub order_key : Float64 → ℤ
unfolding sign_bit
order_key f = if sign_bit f then negated (f % 2 ^ 63) else pos (f % 2 ^ 63)

-- `a < b`, which is false if either is NaN.
unfoldable pub float_lt : Float64 → Float64 → Bool
unfolding is_nan order_key
float_lt a b = not (is_nan a) && not (is_nan b) && ltb_ℤ (order_key a) (order_key b)

-- `math.Abs` clears the sign bit.
unfoldable pub abs_float : Float64 → Float64
abs_float f = f % 2 ^ 63

-- The literals that the program compares with.
abbrev pub f_0 : Float64
f_0 = 0

abbrev pub f_1 : Float64
f_1 = 0x3FF0000000000000

abbrev pub f_3 : Float64
f_3 = 0x4008000000000000

abbrev pub f_90 : Float64
f_90 = 0x4056800000000000

abbrev pub f_neg_90 : Float64
f_neg_90 = 0xC056800000000000

abbrev pub f_180 : Float64
f_180 = 0x4066800000000000

abbrev pub f_neg_180 : Float64
f_neg_180 = 0xC066800000000000

literal_order :
    float_lt f_neg_180 f_neg_90 && float_lt f_neg_90 f_0 && float_lt f_0 f_1 && float_lt f_90 f_180
    ≡ true
unfolding float_lt
literal_order = refl

-- ===== src/Golang/Arith.antt =====
-- Arithmetic on `float64`: each operation is the exact result rounded to the nearest value, ties to
-- even (IEEE 754). Every NaN result is one NaN, as the program does not look at its bits. Go may
-- fuse a product and a sum on some machines; here every operation is rounded.
use the_500mb_club_challenge.Prelude.Int.{eqb_ℤ}
use the_500mb_club_challenge.Prelude.{
  ◌&&◌, ◌||◌, not, true, false, leb, ltb, ◌%◌, ◌==◌, ◌^◌, ◌*◌, if◌then◌else◌, Bool, ◌≡◌, ◌-◌, ◌/◌,
  ℕ, zero, suc, ◌+◌,
}
use mathlib.Core.Path.{◌≡◌, refl}
use the_500mb_club_challenge.Golang.Float64.{
  is_inf, order_key, f_1, is_nan, f_3, sign_bit, Float64, exponent, fraction,
}

-- The number of bits of `n`, for `n` below 2 ^ fuel.
bit_length : ℕ → ℕ → ℕ
bit_length zero n = 0
bit_length (suc fuel) n = let rest = bit_length fuel (n / 2) in if n == 0 then 0 else suc rest

-- `w` bits hold n and d. With q * 2 ^ (k - 1074) for n / d, q of 53 bits or k = 0, the bits are k * 2 ^ 52 + q: the hidden
-- bit of q carries into the exponent.
unfoldable pub round_ratio : ℕ → ℕ → ℕ → ℕ
unfolding bit_length
round_ratio w n d =
    let k0 = bit_length w n + 1021 - bit_length w d in
    let k = if ltb (n * 2 ^ 1074 / (d * 2 ^ k0)) (2 ^ 53) then k0 else k0 + 1 in
    let q = n * 2 ^ 1074 / (d * 2 ^ k) in
    let r = n * 2 ^ 1074 % (d * 2 ^ k) in
    let up = ltb (d * 2 ^ k) (2 * r) || (2 * r == d * 2 ^ k && q % 2 == 1) in
    k * 2 ^ 52 + q + (if up then 1 else 0)

-- The bits of +Inf.
abbrev pub inf_bits : Float64
inf_bits = 2047 * 2 ^ 52

abbrev pub nan_bits : Float64
nan_bits = 2047 * 2 ^ 52 + 2 ^ 51

abbrev differ : Bool → Bool → Bool
differ true b = not b
differ false b = b

unfoldable pub with_sign : Bool → ℕ → Float64
with_sign neg bits = bits + (if neg then 2 ^ 63 else 0)

-- The magnitude n / d, or an infinity where it is too large.
unfoldable pub of_ratio : Bool → ℕ → ℕ → ℕ → Float64
unfolding round_ratio with_sign
of_ratio neg w n d =
    let bits = if n == 0 then 0 else round_ratio w n d in
    with_sign neg (if ltb bits inf_bits then bits else inf_bits)

-- The magnitude of a finite value, in units of 2 ^ -1074.
unfoldable pub units : Float64 → ℕ
unfolding exponent fraction
units f = if exponent f == 0 then fraction f else (2 ^ 52 + fraction f) * 2 ^ (exponent f - 1)

unfoldable pub float_neg : Float64 → Float64
unfolding sign_bit
float_neg f = if sign_bit f then f - 2 ^ 63 else f + 2 ^ 63

-- Two zeros are equal, and NaN is not equal to itself.
unfoldable pub float_eq : Float64 → Float64 → Bool
unfolding is_nan order_key
float_eq a b = not (is_nan a) && not (is_nan b) && eqb_ℤ (order_key a) (order_key b)

-- Sums of opposite signs are zero with the sign +.
add_finite : Float64 → Float64 → Float64
unfolding of_ratio units sign_bit
add_finite a b =
    let m = units a in
    let n = units b in
    if not (differ (sign_bit a) (sign_bit b))
    then of_ratio (sign_bit a) 2100 (m + n) (2 ^ 1074)
    else if ltb n m
    then of_ratio (sign_bit a) 2100 (m - n) (2 ^ 1074)
    else if ltb m n
    then of_ratio (sign_bit b) 2100 (n - m) (2 ^ 1074)
    else 0

unfoldable pub float_add : Float64 → Float64 → Float64
unfolding add_finite is_nan is_inf sign_bit
float_add a b =
    if is_nan a || is_nan b
    then nan_bits
    else if is_inf a
    then if is_inf b && differ (sign_bit a) (sign_bit b) then nan_bits else a
    else if is_inf b
    then b
    else add_finite a b

unfoldable pub float_sub : Float64 → Float64 → Float64
unfolding float_add float_neg
float_sub a b = float_add a (float_neg b)

is_zero : Float64 → Bool
is_zero f = f % 2 ^ 63 == 0

unfoldable pub float_mul : Float64 → Float64 → Float64
unfolding of_ratio units is_nan is_inf sign_bit is_zero with_sign
float_mul a b =
    let neg = differ (sign_bit a) (sign_bit b) in
    if is_nan a || is_nan b
    then nan_bits
    else if is_inf a || is_inf b
    then if is_zero a || is_zero b then nan_bits else with_sign neg inf_bits
    else of_ratio neg 4300 (units a * units b) (2 ^ 2148)

unfoldable pub float_div : Float64 → Float64 → Float64
unfolding of_ratio units is_nan is_inf sign_bit is_zero with_sign
float_div a b =
    let neg = differ (sign_bit a) (sign_bit b) in
    if is_nan a || is_nan b
    then nan_bits
    else if is_inf a
    then if is_inf b then nan_bits else with_sign neg inf_bits
    else if is_inf b
    then with_sign neg 0
    else if is_zero b
    then if is_zero a then nan_bits else with_sign neg inf_bits
    else of_ratio neg 2100 (units a) (units b)

-- The root of `n`, rounded down, for `n` below 4 ^ fuel.
root : ℕ → ℕ → ℕ
root zero n = 0
root (suc fuel) n = let r = 2 * root fuel (n / 4) in if leb ((r + 1) * (r + 1)) n then r + 1 else r

-- 64 bits and more of the root, and one that says whether it is exact.
root_ratio : ℕ → Float64
unfolding root of_ratio
root_ratio m =
    let r = root 1150 (m * 2 ^ 128) in
    of_ratio false 1300 (2 * r + (if r * r == m * 2 ^ 128 then 0 else 1)) (2 ^ 602)

-- `math.Sqrt`
unfoldable pub float_sqrt : Float64 → Float64
unfolding root_ratio units is_nan is_inf sign_bit is_zero
float_sqrt f =
    if is_zero f
    then f
    else if is_nan f || sign_bit f
    then nan_bits
    else if is_inf f
    then f
    else root_ratio (units f)

-- `float64(n)`
unfoldable pub float_of_nat : ℕ → Float64
unfolding of_ratio
float_of_nat n = of_ratio false 64 n 1

sum : float_add 0x3FB999999999999A 0x3FC999999999999A ≡ 0x3FD3333333333334
unfolding float_add
sum = refl

difference : float_sub f_1 0x3FB999999999999A ≡ 0x3FECCCCCCCCCCCCD
unfolding float_sub
difference = refl

product : float_mul 0x3FB999999999999A 0x3FB999999999999A ≡ 0x3F847AE147AE147C
unfolding float_mul
product = refl

quotient : float_div f_1 f_3 ≡ 0x3FD5555555555555
unfolding float_div
quotient = refl

root_of_three : float_sqrt f_3 ≡ 0x3FFBB67AE8584CAA
unfolding float_sqrt
root_of_three = refl

too_large : float_mul 0x7FE0000000000000 f_3 ≡ inf_bits
unfolding float_mul
too_large = refl

opposite : float_sub inf_bits inf_bits ≡ nan_bits
unfolding float_sub
opposite = refl

three : float_of_nat 3 ≡ f_3
unfolding float_of_nat
three = refl

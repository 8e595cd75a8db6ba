-- ===== src/Golang/ParseFloat.antt =====
-- strconv.ParseFloat(s, 64) on decimal literals of the JSON grammar: the nearest `float64`, ties to
-- even. A value that rounds beyond the largest finite number is an error, `none`.
use the_500mb_club_challenge.Golang.Arith.{inf_bits, round_ratio}
use the_500mb_club_challenge.Prelude.{
  Bool-cases, inl, inr, arith, ℕ, ◌+◌, ◌-◌, ◌*◌, ◌^◌, ◌≡◌, refl, Bool, true, false, Option, none,
  some, [], ◌∷◌, ltb, leb, ◌==◌, if◌then◌else◌, Bytes, codes, length,
}
use the_500mb_club_challenge.Golang.Strconv.{is_digit}
use the_500mb_club_challenge.Golang.Float64.{Float64, IsFloat64}
use mathlib.Core.Path.{subst}

-- The digits at the front, and what follows them.
unfoldable pub span_digits : Bytes → Bytes × Bytes
span_digits [] = ([], [])
span_digits (c ∷ s) = let (a, b) = span_digits s in if is_digit c then (c ∷ a, b) else ([], c ∷ s)

-- The number that digits spell behind `n`.
abbrev pub digits_value : ℕ → Bytes → ℕ
digits_value n [] = n
digits_value n (c ∷ s) = digits_value (n * 10 + (c - b'0')) s

signed : Bool → ℕ → Option Float64
signed neg bits = if ltb bits inf_bits then some (if neg then bits + 2 ^ 63 else bits) else none

-- The value m * 10 ^ (e - f) for m of `l` digits, where `e_neg` says that e stands for -e.
from_decimal : Bool → ℕ → ℕ → ℕ → Bool → ℕ → Option Float64
unfolding round_ratio signed
from_decimal neg l m f e_neg e =
    let w = 4 * (l + f + e) + 4 in
    if m == 0
    then signed neg 0
    else if e_neg
    then signed neg (round_ratio w m (10 ^ (f + e)))
    else if leb f e
    then signed neg (round_ratio w (m * 10 ^ (e - f)) 1)
    else signed neg (round_ratio w m (10 ^ (f - e)))

-- What stands behind the mantissa.
parse_exponent : Bool → ℕ → ℕ → ℕ → Bytes → Option Float64
unfolding from_decimal
parse_exponent neg l m f [] = from_decimal neg l m f false 0
parse_exponent neg l m f (c ∷ []) = none
parse_exponent neg l m f (c ∷ d ∷ s) =
    if d == b'-'
    then from_decimal neg l m f true (digits_value 0 s)
    else if d == b'+'
    then from_decimal neg l m f false (digits_value 0 s)
    else from_decimal neg l m f false (digits_value 0 (d ∷ s))

parse_fraction : Bool → ℕ → ℕ → Bytes → Option Float64
unfolding parse_exponent
parse_fraction neg l m [] = parse_exponent neg l m 0 []
parse_fraction neg l m (c ∷ s) =
    let (a, b) = span_digits s in
    if c == b'.'
    then parse_exponent neg (l + length a) (digits_value m a) (length a) b
    else parse_exponent neg l m 0 (c ∷ s)

parse_magnitude : Bool → Bytes → Option Float64
unfolding span_digits parse_fraction
parse_magnitude neg s =
    let (a, b) = span_digits s in parse_fraction neg (length a) (digits_value 0 a) b

unfoldable pub parse_float : Bytes → Option Float64
unfolding parse_magnitude
parse_float [] = none
parse_float (c ∷ s) = if c == b'-' then parse_magnitude true s else parse_magnitude false (c ∷ s)

abbrev IsFloat : Option Float64 → Type 0
IsFloat none = Unit {0}
IsFloat (some f) = IsFloat64 f

signed-IsFloat : (neg : Bool) (bits : ℕ) → IsFloat (signed neg bits)
unfolding signed
signed-IsFloat neg bits = elim (Bool-cases (ltb bits inf_bits)) [
  | inl e ↦ rw (signed, e) (ground (arith, e))
  | inr e ↦ rw (signed, e) tt
]

from_decimal-IsFloat :
    (neg : Bool) (l m f : ℕ) (e_neg : Bool) (e : ℕ) → IsFloat (from_decimal neg l m f e_neg e)
unfolding from_decimal
from_decimal-IsFloat neg l m f true e = elim (Bool-cases (m == 0)) [
  | inl z ↦ rw (from_decimal, z) (signed-IsFloat neg 0)
  | inr z ↦
      rw (from_decimal, z) (signed-IsFloat neg (round_ratio (4 * (l + f + e) + 4) m (10 ^ (f + e))))
]
from_decimal-IsFloat neg l m f false e = elim (Bool-cases (m == 0)) [
  | inl z ↦ rw (from_decimal, z) (signed-IsFloat neg 0)
  | inr z ↦ elim (Bool-cases (leb f e)) [
    | inl k ↦
        rw (from_decimal, z, k)
          (signed-IsFloat neg (round_ratio (4 * (l + f + e) + 4) (m * 10 ^ (e - f)) 1))
    | inr k ↦
        rw (from_decimal, z, k)
          (signed-IsFloat neg (round_ratio (4 * (l + f + e) + 4) m (10 ^ (f - e))))
  ]
]

parse_exponent-IsFloat : (neg : Bool) (l m f : ℕ) (s : Bytes) → IsFloat (parse_exponent neg l m f s)
unfolding parse_exponent
parse_exponent-IsFloat neg l m f [] = from_decimal-IsFloat neg l m f false 0
parse_exponent-IsFloat neg l m f (c ∷ []) = tt
parse_exponent-IsFloat neg l m f (c ∷ d ∷ s) = elim (Bool-cases (d == b'-')) [
  | inl e ↦ rw (parse_exponent, e) (from_decimal-IsFloat neg l m f true (digits_value 0 s))
  | inr e ↦ elim (Bool-cases (d == b'+')) [
    | inl k ↦ rw (parse_exponent, e, k) (from_decimal-IsFloat neg l m f false (digits_value 0 s))
    | inr k ↦
        rw (parse_exponent, e, k) (from_decimal-IsFloat neg l m f false (digits_value 0 (d ∷ s)))
  ]
]

parse_fraction-IsFloat : (neg : Bool) (l m : ℕ) (s : Bytes) → IsFloat (parse_fraction neg l m s)
unfolding parse_fraction
parse_fraction-IsFloat neg l m [] = parse_exponent-IsFloat neg l m 0 []
parse_fraction-IsFloat neg l m (c ∷ s) = elim (Bool-cases (c == b'.')) [
  | inl e ↦
      rw (parse_fraction, e)
        (parse_exponent-IsFloat neg (l + length (span_digits s).0)
          (digits_value m (span_digits s).0) (length (span_digits s).0) (span_digits s).1)
  | inr e ↦ rw (parse_fraction, e) (parse_exponent-IsFloat neg l m 0 (c ∷ s))
]

parse_magnitude-IsFloat : (neg : Bool) (s : Bytes) → IsFloat (parse_magnitude neg s)
unfolding parse_magnitude
parse_magnitude-IsFloat neg s =
    parse_fraction-IsFloat neg (length (span_digits s).0) (digits_value 0 (span_digits s).0)
      (span_digits s).1

-- What is read has 64 bits.
pub parse_float-IsFloat64 : (s : Bytes) {v : Float64} → parse_float s ≡ some v → IsFloat64 v
unfolding parse_float
parse_float-IsFloat64 [] h = absurd (cc h)
parse_float-IsFloat64 (c ∷ s) h = elim (Bool-cases (c == b'-')) [
  | inl e ↦ subst IsFloat (rw (parse_float, e) at h) (parse_magnitude-IsFloat true s)
  | inr e ↦ subst IsFloat (rw (parse_float, e) at h) (parse_magnitude-IsFloat false (c ∷ s))
]

tenth : parse_float (codes "0.1") ≡ some 0x3FB999999999999A
unfolding parse_float
tenth = refl

latitude : parse_float (codes "-23.5") ≡ some 0xC037800000000000
unfolding parse_float
latitude = refl

largest : parse_float (codes "1.7976931348623157e308") ≡ some 0x7FEFFFFFFFFFFFFF
unfolding parse_float
largest = refl

too_large : parse_float (codes "1e999") ≡ none
unfolding parse_float
too_large = refl

smallest : parse_float (codes "4.9E-324") ≡ some 1
unfolding parse_float
smallest = refl

tie : parse_float (codes "9007199254740993") ≡ some 0x4340000000000000
unfolding parse_float
tie = refl

-- ===== src/Model/Scan.antt =====
-- internal/model/fastjson.go: the scanner of a flat JSON object, and `ParsePoint` of point.go.
-- A function that takes the text `b` and an index `i` takes the bytes `b[i:]` here, and what it
-- returns as the next index is the rest of the text; an error is `none`.
pub mod Object
pub mod Fuel
pub mod Literal
pub mod Shrink
pub mod Consumed
pub mod Members
pub mod Stop
pub mod Numeral
pub mod Number
pub mod Spelled
pub mod Typed
use the_500mb_club_challenge.Prelude.{
  ℕ, zero, suc, ◌+◌, ◌-◌, ◌≡◌, refl, Bool, true, false, ◌&&◌, ◌||◌, Option, none, some, List, [],
  ◌∷◌, ◌++◌, leb, ◌==◌, if◌then◌else◌, Bytes, bytes_eq, codes, length,
}
use the_500mb_club_challenge.Prelude.Int.{ℤ}
use the_500mb_club_challenge.Golang.Strconv.{is_digit, parse_int}
use the_500mb_club_challenge.Golang.ParseFloat.{parse_float, span_digits}
use the_500mb_club_challenge.Golang.Float64.{Float64}
use the_500mb_club_challenge.Model.Point.{Point, PointJson, to_point, ◌>>=◌}

abbrev is_space : ℕ → Bool
is_space c = c == b' ' || (c == 9 || (c == 10 || c == 13))

unfoldable pub skip_ws : Bytes → Bytes
skip_ws [] = []
skip_ws (c ∷ s) = if is_space c then skip_ws s else c ∷ s

-- `trailingOnlyWS`: the object that was read, if nothing but space follows.
unfoldable pub trailing_only_ws : PointJson → Bytes → Option PointJson
trailing_only_ws pj s = elim (skip_ws s) [ [] ↦ some pj | c ∷ r ↦ none ]

pub prepend : ℕ → Option (Bytes × Bytes) → Option (Bytes × Bytes)
prepend c none = none
prepend c (some (a, b)) = some (c ∷ a, b)

-- The loops of `readKey` and `skipString` behind the opening quote: the bytes inside the string,
-- escapes left as they are, and what follows the closing quote.
unfoldable pub string_loop : Bytes → Option (Bytes × Bytes)
unfolding prepend
string_loop [] = none
string_loop (c ∷ []) = if c == b'\\' then none else if c == b'"' then some ([], []) else none
string_loop (c ∷ d ∷ s) =
    let escaped = prepend c (prepend d (string_loop s)) in
    let plain = prepend c (string_loop (d ∷ s)) in
    if c == b'\\' then escaped else if c == b'"' then some ([], d ∷ s) else plain

unfoldable pub read_key : Bytes → Option (Bytes × Bytes)
unfolding string_loop
read_key [] = none
read_key (c ∷ s) = if c == b'"' then string_loop s else none

-- `string(b[i:i+len(lit)]) == lit`
unfoldable pub consume : Bytes → Bytes → Option Bytes
consume [] s = some s
consume (l ∷ lit) [] = none
consume (l ∷ lit) (c ∷ s) = if c == l then consume lit s else none

-- One digit at least, and all that follow.
digits1 : Bytes → Option (Bytes × Bytes)
unfolding span_digits
digits1 [] = none
digits1 (c ∷ s) = if is_digit c then some (span_digits (c ∷ s)) else none

sign_part : Bytes → Bytes × Bytes
sign_part [] = ([], [])
sign_part (c ∷ s) = if c == b'-' then (c ∷ [], s) else ([], c ∷ s)

-- A leading zero must stand alone.
integer_part : Bytes → Option (Bytes × Bytes)
unfolding digits1
integer_part [] = none
integer_part (c ∷ s) = if c == b'0' then some (c ∷ [], s) else digits1 (c ∷ s)

fraction_part : Bytes → Option (Bytes × Bytes)
unfolding digits1 prepend
fraction_part [] = some ([], [])
fraction_part (c ∷ s) = if c == b'.' then prepend c (digits1 s) else some ([], c ∷ s)

exponent_sign : Bytes → Bytes × Bytes
exponent_sign [] = ([], [])
exponent_sign (c ∷ s) = if c == b'+' || c == b'-' then (c ∷ [], s) else ([], c ∷ s)

signed_exponent : ℕ → Bytes × Bytes → Option (Bytes × Bytes)
unfolding digits1
signed_exponent e (sign, s) = elim (digits1 s) [
  | none ↦ none
  | some (ds, rest) ↦ some (e ∷ (sign ++ ds), rest)
]

exponent_part : Bytes → Option (Bytes × Bytes)
unfolding exponent_sign signed_exponent
exponent_part [] = some ([], [])
exponent_part (c ∷ s) =
    if c == b'e' || c == b'E' then signed_exponent c (exponent_sign s) else some ([], c ∷ s)

-- The literal `b[start:i]` and the rest.
unfoldable pub scan_number_literal : Bytes → Option (Bytes × Bytes)
unfolding sign_part integer_part fraction_part exponent_part
scan_number_literal s = do
  let (sign, s1) = sign_part s
  (int, s2) ← integer_part s1
  (frac, s3) ← fraction_part s2
  (exp, s4) ← exponent_part s3
  some (sign ++ (int ++ (frac ++ exp)), s4)

pub int_literal : Bytes → Option (ℤ × Bytes)
unfolding scan_number_literal
int_literal s = do (lit, rest) ← scan_number_literal s; v ← parse_int lit; some (v, rest)

pub float_literal : Bytes → Option (Float64 × Bytes)
unfolding scan_number_literal
float_literal s = do (lit, rest) ← scan_number_literal s; v ← parse_float lit; some (v, rest)

-- `readInt` and `readFloat` store into `dst`; a null leaves it as it was.
unfoldable pub read_int : Option ℤ → Bytes → Option (Option ℤ × Bytes)
unfolding consume int_literal
read_int dst s = elim (consume (codes "null") s) [
  | some rest ↦ some (dst, rest)
  | none ↦ int_literal s >>= λ r. some (some r.0, r.1)
]

unfoldable pub read_float : Option Float64 → Bytes → Option (Option Float64 × Bytes)
unfolding consume float_literal
read_float dst s = elim (consume (codes "null") s) [
  | some rest ↦ some (dst, rest)
  | none ↦ float_literal s >>= λ r. some (some r.0, r.1)
]

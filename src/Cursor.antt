-- ===== src/Cursor.antt =====
-- internal/cursor/cursor.go: opaque pagination cursors, base64url of "ts:skip".
pub mod Laws
use the_500mb_club_challenge.Prelude.{
  ℕ, ◌≡◌, Option, none, some, [], ◌∷◌, ◌++◌, ◌==◌, if◌then◌else◌, Bytes, Result, ok, err,
}
use the_500mb_club_challenge.Prelude.Int.{ℤ, pos, negsuc}
use the_500mb_club_challenge.Golang.Base64
use the_500mb_club_challenge.Golang.Strconv.{format_int, parse_int}

-- `ErrInvalid`
pub data Error : Type 0 where
  invalid : Error

pub encode : ℤ → ℤ → Bytes
encode ts skip = Base64.encode (format_int ts ++ b':' ∷ format_int skip)

prepend : ℕ → Option (Bytes × Bytes) → Option (Bytes × Bytes)
prepend d none = none
prepend d (some (a, b)) = some (d ∷ a, b)

-- `strings.SplitN(s, ":", 2)`; one part alone is `none`.
split_colon : Bytes → Option (Bytes × Bytes)
unfolding prepend
split_colon [] = none
split_colon (c ∷ s) = if c == b':' then some ([], s) else prepend c (split_colon s)

-- The skip must not be negative.
check_skip : ℤ → Option ℤ → Result Error (ℤ × ℕ)
check_skip ts none = err invalid
check_skip ts (some (negsuc n)) = err invalid
check_skip ts (some (pos n)) = ok (ts, n)

parse_parts : Bytes × Bytes → Result Error (ℤ × ℕ)
unfolding check_skip
parse_parts (first, second) = elim (parse_int first) [
  | none ↦ err invalid
  | some ts ↦ check_skip ts (parse_int second)
]

parse_raw : Option Bytes → Result Error (ℤ × ℕ)
unfolding split_colon parse_parts
parse_raw none = err invalid
parse_raw (some raw) = elim (split_colon raw) [
  | none ↦ err invalid
  | some parts ↦ parse_parts parts
]

-- A decoded skip is not negative, so it is a natural number.
pub decode : Bytes → Result Error (ℤ × ℕ)
unfolding parse_raw
decode [] = err invalid
decode (c ∷ s) = parse_raw (Base64.decode (c ∷ s))

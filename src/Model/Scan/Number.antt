-- ===== src/Model/Scan/Number.antt =====
-- On internal/model/fastjson.go: number literals as values of members.
use the_500mb_club_challenge.Prelude.{
  ℕ, ◌≡◌, refl, ap, ◌∙◌, ◌||◌, true, Option, none, some, [], ◌∷◌, ◌++◌, ◌==◌, Bytes, codes, arith,
}
use the_500mb_club_challenge.Prelude.Int.{ℤ}
use the_500mb_club_challenge.Golang.Strconv.{is_digit, parse_int}
use the_500mb_club_challenge.Golang.ParseFloat.{parse_float}
use the_500mb_club_challenge.Golang.Float64.{Float64}
use the_500mb_club_challenge.Model.Scan.{
  float_literal, int_literal, skip_ws, scan_number_literal, consume, read_int, read_float,
  sign_part, integer_part, digits1,
}
use the_500mb_club_challenge.Model.Scan.Stop.{IsStop, scan_number_literal-IsLocal}

-- The whole text is a number literal, and a float.
pub record IsNumber (lit : Bytes) (v : Float64) : Type 0 where
  pub literal : scan_number_literal lit ≡ some (lit, [])
  pub value : parse_float lit ≡ some v

-- The first byte of a literal.
abbrev IsHead : ℕ → Type 0
IsHead c = (is_digit c || c == b'-') ≡ true

head_lem : (c : ℕ) (t a r : Bytes) → scan_number_literal (c ∷ t) ≡ some (a, r) → IsHead c
unfolding scan_number_literal sign_part integer_part digits1
head_lem c t a r h = ground (arith, h)

literal-IsHead :
    (s a r : Bytes)
    → scan_number_literal s ≡ some (a, r)
    → (c : ℕ) × (t : Bytes) × (s ≡ c ∷ t) × IsHead c
unfolding scan_number_literal
literal-IsHead [] a r h = absurd (cc h)
literal-IsHead (c ∷ t) a r h = (c, t, refl, head_lem c t a r h)

pub comma-IsStop : IsStop b','
comma-IsStop = record { digit = refl; point = refl; exponent = refl }

pub brace-IsStop : IsStop b'}'
brace-IsStop = record { digit = refl; point = refl; exponent = refl }

skip_ws-head : (c : ℕ) (t : Bytes) → IsHead c → skip_ws (c ∷ t) ≡ c ∷ t
unfolding skip_ws
skip_ws-head c t h = ground (arith, h)

consume-head : (c : ℕ) (t : Bytes) → IsHead c → consume (codes "null") (c ∷ t) ≡ none
unfolding consume
consume-head c t h = ground (arith, h)

-- A literal is neither space nor a null, whatever follows.
literal_start :
    (lit a r more : Bytes)
    → scan_number_literal lit ≡ some (a, r)
    → (skip_ws (lit ++ more) ≡ lit ++ more) × (consume (codes "null") (lit ++ more) ≡ none)
literal_start lit a r more h =
    let (d, t, e, head) = literal-IsHead lit a r h in
    rw e (skip_ws-head d (t ++ more) head, consume-head d (t ++ more) head)

module _ (c : ℕ) (rest : Bytes) (stop : IsStop c) where
  pub read_float-stop :
      (dst : Option Float64) (lit : Bytes) (v : Float64)
      → IsNumber lit v
      → read_float dst (skip_ws (lit ++ c ∷ rest)) ≡ some (some v, c ∷ rest)
  unfolding read_float float_literal
  read_float-stop dst lit v h =
      let (spaces, null) = literal_start lit lit [] (c ∷ rest) h.literal in
      ap (read_float dst) spaces
      ∙ rw
          (
            read_float,
            null,
            float_literal,
            scan_number_literal-IsLocal c rest stop lit lit [] h.literal,
            h.value,
          )
          refl

  pub read_int-stop :
      (dst : Option ℤ) (lit : Bytes) (v : ℤ)
      → scan_number_literal lit ≡ some (lit, [])
      → parse_int lit ≡ some v
      → read_int dst (skip_ws (lit ++ c ∷ rest)) ≡ some (some v, c ∷ rest)
  unfolding read_int int_literal
  read_int-stop dst lit v h q =
      let (spaces, null) = literal_start lit lit [] (c ∷ rest) h in
      ap (read_int dst) spaces
      ∙ rw (read_int, null, int_literal, scan_number_literal-IsLocal c rest stop lit lit [] h, q)
          refl

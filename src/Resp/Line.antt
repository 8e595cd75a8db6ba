-- ===== src/Resp/Line.antt =====
-- On internal/resp/resp.go: reading lines and byte counts.
use the_500mb_club_challenge.Prelude.{
  ℕ, ◌+◌, ◌<◌, ◌^◌, ◌≡◌, ◌≢◌, refl, true, some, [], ◌∷◌, ◌++◌, append_assoc, le→leb, Bytes, ok,
  length, length-append, take-append, drop-append, All, All-append, All-imp, arith,
}
use the_500mb_club_challenge.Prelude.Int.{pos}
use the_500mb_club_challenge.Golang.Strconv.{
  format_uint, format_int, parse_int, format_int-All, is_numeral, parse_int-format_int,
}
use the_500mb_club_challenge.Resp.{crlf, read_full, read_line, read_until, chop_cr, parse_line}

read_until-append :
    (a rest : Bytes) → All (λ c. c ≢ 10) a → read_until (a ++ 10 ∷ rest) ≡ some (a, rest)
unfolding read_until
read_until-append [] rest h = refl
read_until-append (c ∷ a) rest (hc, h) = ground (arith, read_until-append a rest h)

chop_cr-append : (a : Bytes) → chop_cr (a ++ 13 ∷ []) ≡ some a
unfolding chop_cr
chop_cr-append [] = refl
chop_cr-append (c ∷ []) = refl
chop_cr-append (c ∷ d ∷ a) = rw (chop_cr, chop_cr-append (d ∷ a))

-- A line with no line feed in it is read up to its CRLF.
pub read_line-append :
    (a rest : Bytes) → All (λ c. c ≢ 10) a → read_line (a ++ (crlf ++ rest)) ≡ ok (a, rest)
unfolding read_line
read_line-append a rest h =
    let whole : a ++ (crlf ++ rest) ≡ (a ++ 13 ∷ []) ++ 10 ∷ rest = simp append_assoc in
    rw (
      read_line,
      whole,
      read_until-append (a ++ 13 ∷ []) rest (All-append _ a _ h ((λ e. cc e), tt)),
      chop_cr-append a,
    )

numeral-ne-lf : (s : Bytes) → All (λ c. is_numeral c ≡ true) s → All (λ c. c ≢ 10) s
numeral-ne-lf s = All-imp _ _ (λ c h e. ground arith) s

-- The line of a count.
pub read_line-format :
    (n : ℕ) (rest : Bytes) → read_line (format_uint n ++ (crlf ++ rest)) ≡ ok (format_uint n, rest)
unfolding format_int
read_line-format n rest =
    read_line-append (format_uint n) rest (numeral-ne-lf _ (format_int-All (pos n)))

format_uint-pos : (n : ℕ) → format_int (pos n) ≡ format_uint n
unfolding format_int
format_uint-pos n = refl

pub parse_line-format : (n : ℕ) → n < 2 ^ 63 → parse_line (format_uint n) ≡ ok (pos n)
unfolding parse_line
parse_line-format n h =
    let read : parse_int (format_uint n) ≡ some (pos n) =
      rw (format_uint-pos n) at (parse_int-format_int (pos n) (h, omega arith)) in
    rw (parse_line, read)

-- Exactly the bytes that are asked for are taken.
pub read_full-append :
    (a rest : Bytes) (n : ℕ) → length a ≡ n → read_full n (a ++ rest) ≡ ok (a, rest)
unfolding read_full
read_full-append a rest n h = rw (
  ← h,
  length-append,
  le→leb (length a) (length a + length rest) (omega arith),
  take-append,
  drop-append,
)

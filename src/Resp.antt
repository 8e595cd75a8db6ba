-- ===== src/Resp.antt =====
-- internal/resp/resp.go: the RESP2 codec. A `bufio.Reader` is the bytes that are still to come, and
-- the end of these is the end of the stream; where a function fails its caller drops the connection.
pub mod Line
pub mod Reader
pub mod Fixed
use the_500mb_club_challenge.Prelude.{
  ℕ, zero, suc, ◌+◌, ◌-◌, ◌*◌, ◌%◌, ◌^◌, Bool, true, false, not, ◌&&◌, Option, none, some, List, [],
  ◌∷◌, ◌++◌, ltb, leb, ◌==◌, if◌then◌else◌, Bytes, Result, ok, err, panic, length, take, drop,
}
use the_500mb_club_challenge.Prelude.Int.{ℤ, pos, negsuc, to_int64, eqb_ℤ}
use the_500mb_club_challenge.Golang.Strconv.{format_uint, parse_int, is_digit}

-- `redis` is `*Error`; `out_of_fuel` is no Go value.
pub data Error : Type 0 where
  eof unknown_type malformed_line bad_integer expected_array expected_bulk member_size : Error
  empty_integer invalid_integer out_of_fuel : Error
  redis : Bytes → Error

-- What `ReadReply` returns as `any`, and the elements of an array.
mutual
  pub data Reply : Type 0 where
    simple : Bytes → Reply
    integer : ℤ → Reply
    bulk : Bytes → Reply
    null : Reply
    array : Replies → Reply

  pub data Replies : Type 0 where
    done : Replies
    next : Reply → Replies → Replies

infixl 5 ◌>>=◌
abbrev pub ◌>>=◌ : {A B : Type 0} → Result Error A → (A → Result Error B) → Result Error B
ok a >>= f = f a
err e >>= f = err e
panic >>= f = panic

infixl 5 ◌>>◌
abbrev pub ◌>>◌ : {B : Type 0} → Result Error (Unit {0}) → Result Error B → Result Error B
m >> k = m >>= λ _. k

-- An error unless the test holds.
abbrev pub require : Bool → Error → Result Error (Unit {0})
require true e = ok tt
require false e = err e

abbrev pub crlf : Bytes
crlf = 13 ∷ 10 ∷ []

-- One argument as a bulk string, and a command as an array of them.
unfoldable pub encode_bulk : Bytes → Bytes
encode_bulk a = b'$' ∷ (format_uint (length a) ++ (crlf ++ (a ++ crlf)))

unfoldable pub encode_bulks : List Bytes → Bytes
unfolding encode_bulk
encode_bulks [] = []
encode_bulks (a ∷ as') = encode_bulk a ++ encode_bulks as'

unfoldable pub encode_command : List Bytes → Bytes
unfolding encode_bulks
encode_command args = b'*' ∷ (format_uint (length args) ++ (crlf ++ encode_bulks args))

unfoldable pub read_byte : Bytes → Result Error (ℕ × Bytes)
read_byte [] = err eof
read_byte (c ∷ s) = ok (c, s)

-- `io.ReadFull` of `n` bytes.
unfoldable pub read_full : ℕ → Bytes → Result Error (Bytes × Bytes)
read_full n s = if leb n (length s) then ok (take n s, drop n s) else err eof

prepend : ℕ → Option (Bytes × Bytes) → Option (Bytes × Bytes)
prepend c none = none
prepend c (some (a, b)) = some (c ∷ a, b)

-- `ReadBytes('\n')`: what comes before the line feed, and what comes behind it.
read_until : Bytes → Option (Bytes × Bytes)
unfolding prepend
read_until [] = none
read_until (c ∷ s) = if c == 10 then some ([], s) else prepend c (read_until s)

-- A line must end with a carriage return, which is cut off.
chop_cr : Bytes → Option Bytes
chop_cr [] = none
chop_cr (c ∷ []) = if c == 13 then some [] else none
chop_cr (c ∷ d ∷ s) = elim (chop_cr (d ∷ s)) [ none ↦ none | some a ↦ some (c ∷ a) ]

unfoldable pub read_line : Bytes → Result Error (Bytes × Bytes)
unfolding read_until chop_cr
read_line s = elim (read_until s) [
  | none ↦ err eof
  | some (line, rest) ↦ elim (chop_cr line) [
    | none ↦ err malformed_line
    | some content ↦ ok (content, rest)
  ]
]

unfoldable pub parse_line : Bytes → Result Error ℤ
parse_line line = elim (parse_int line) [ none ↦ err bad_integer | some v ↦ ok v ]

-- `make` panics on a length beyond the 2 ^ 48 bytes that the runtime can address.
abbrev pub max_alloc : ℕ
max_alloc = 2 ^ 48

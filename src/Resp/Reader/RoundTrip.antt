-- ===== src/Resp/Reader/RoundTrip.antt =====
-- On internal/resp/resp.go: `ReadReply` on an encoded command.
use the_500mb_club_challenge.Prelude.{
  ◌≢◌, ap, ℕ, suc, ◌+◌, ◌*◌, ◌≤◌, ◌<◌, ◌^◌, ◌≡◌, refl, List, [], ◌∷◌, ◌++◌, append_assoc, ltb,
  Bytes, Result, ok, length, length-append, take-append, All, arith, Bool-cases, inl, inr,
}
use the_500mb_club_challenge.Prelude.Int.{pos}
use the_500mb_club_challenge.Golang.Strconv.{format_uint}
use the_500mb_club_challenge.Resp.{
  simple, integer, Error, Reply, bulk, array, Replies, done, next, crlf, max_alloc, encode_bulk,
  encode_bulks, encode_command,
}
use the_500mb_club_challenge.Resp.Line.{
  read_line-append, read_line-format, parse_line-format, read_full-append,
}
use the_500mb_club_challenge.Resp.Reader.{
  read_bulk, read_items, read_array, dispatch, read_reply_loop, read_reply,
}

pub bulks : List Bytes → Replies
bulks [] = done
bulks (a ∷ as') = next (bulk a) (bulks as')

read_bulk-append :
    (a rest : Bytes)
    → length a + 2 ≤ max_alloc
    → read_bulk (pos (length a)) (a ++ (crlf ++ rest)) ≡ ok (bulk a, rest)
unfolding read_bulk
read_bulk-append a rest h = elim (Bool-cases (ltb max_alloc (length a + 2))) [
  | inl e ↦ absurd (ground arith)
  | inr e ↦ rw (
    e,
    ← append_assoc a crlf rest,
    read_full-append (a ++ crlf) rest (length a + 2) (omega (arith, length-append a crlf)),
    take-append a crlf,
  )
]

dispatch_bulk :
    (read : Bytes → Result Error (Reply × Bytes)) (n : ℕ) (s : Bytes)
    → n < 2 ^ 63
    → dispatch read b'$' (format_uint n) s ≡ read_bulk (pos n) s
unfolding dispatch
dispatch_bulk read n s h = rw (parse_line-format n h)

dispatch_array :
    (read : Bytes → Result Error (Reply × Bytes)) (n : ℕ) (s : Bytes)
    → n < 2 ^ 63
    → dispatch read b'*' (format_uint n) s ≡ read_array read (pos n) s
unfolding dispatch
dispatch_array read n s h = rw (parse_line-format n h)

read_reply_line :
    (fuel prefix n : ℕ) (s : Bytes)
    → read_reply_loop (suc fuel) (prefix ∷ (format_uint n ++ (crlf ++ s)))
      ≡ dispatch (read_reply_loop fuel) prefix (format_uint n) s
unfolding read_reply_loop
read_reply_line fuel prefix n s = rw (read_line-format n s)

pub encode_bulk-append :
    (a rest : Bytes)
    → encode_bulk a ++ rest ≡ b'$' ∷ (format_uint (length a) ++ (crlf ++ (a ++ (crlf ++ rest))))
unfolding encode_bulk
encode_bulk-append a rest = simp append_assoc

read_reply_bulk :
    (fuel : ℕ) (a rest : Bytes)
    → length a + 2 ≤ max_alloc
    → read_reply_loop (suc fuel) (encode_bulk a ++ rest) ≡ ok (bulk a, rest)
read_reply_bulk fuel a rest h =
    rw
      (
        encode_bulk-append,
        read_reply_line,
        dispatch_bulk (read_reply_loop fuel) (length a) _ (omega arith),
      )
      (read_bulk-append a rest h)

read_items-bulks :
    (fuel : ℕ) (args : List Bytes) (rest : Bytes)
    → All (λ a. length a + 2 ≤ max_alloc) args
    → read_items (read_reply_loop (suc fuel)) (length args) (encode_bulks args ++ rest)
      ≡ ok (bulks args, rest)
unfolding read_items encode_bulks bulks
read_items-bulks fuel [] rest h = refl
read_items-bulks fuel (a ∷ as') rest (ha, h) = rw (
  append_assoc,
  read_reply_bulk fuel a (encode_bulks as' ++ rest) ha,
  read_items-bulks fuel as' rest h,
)

pub encode_command-append :
    (args : List Bytes) (rest : Bytes)
    → encode_command args ++ rest
      ≡ b'*' ∷ (format_uint (length args) ++ (crlf ++ (encode_bulks args ++ rest)))
unfolding encode_command
encode_command-append args rest = simp append_assoc

read_array-bulks :
    (fuel : ℕ) (args : List Bytes) (rest : Bytes)
    → length args * 16 ≤ max_alloc
    → All (λ a. length a + 2 ≤ max_alloc) args
    → read_array (read_reply_loop (suc fuel)) (pos (length args)) (encode_bulks args ++ rest)
      ≡ ok (array (bulks args), rest)
unfolding read_array
read_array-bulks fuel args rest hn h = elim (Bool-cases (ltb max_alloc (length args * 16))) [
  | inl e ↦ absurd (ground arith)
  | inr e ↦ rw (e, read_items-bulks fuel args rest h)
]

-- ReadReply reads an encoded command back as the array of its arguments, whatever bytes they hold,
-- and leaves what follows the command unread, if the arguments and their number fit the memory
-- limit of the reader.
pub read_reply-encode_command :
    (args : List Bytes) (rest : Bytes)
    → length args * 16 ≤ max_alloc
    → All (λ a. length a + 2 ≤ max_alloc) args
    → read_reply (encode_command args ++ rest) ≡ ok (array (bulks args), rest)
unfolding read_reply
read_reply-encode_command args rest hn h =
    rw (encode_command-append, read_reply_line)
      (rw (dispatch_array _ (length args) (encode_bulks args ++ rest) (omega arith))
        (read_array-bulks _ args rest hn h))

-- An integer reply, with what follows it.
pub read_reply-integer :
    (n : ℕ) (rest : Bytes)
    → n < 2 ^ 63
    → read_reply ((b':' ∷ (format_uint n ++ crlf)) ++ rest) ≡ ok (integer (pos n), rest)
unfolding read_reply dispatch
read_reply-integer n rest h =
    let whole : (b':' ∷ (format_uint n ++ crlf)) ++ rest
        ≡ b':' ∷ (format_uint n ++ (crlf ++ rest)) =
      ap (λ t. b':' ∷ t) (append_assoc (format_uint n) crlf rest) in
    rw (whole, read_reply, read_reply_line, dispatch, parse_line-format n h) refl

-- A simple string, with what follows it.
pub read_reply-simple :
    (a rest : Bytes)
    → All (λ c. c ≢ 10) a
    → read_reply (b'+' ∷ (a ++ (crlf ++ rest))) ≡ ok (simple a, rest)
unfolding read_reply read_reply_loop dispatch
read_reply-simple a rest h =
    rw (read_reply, read_reply_loop, read_line-append a rest h, dispatch) refl

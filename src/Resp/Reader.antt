-- ===== src/Resp/Reader.antt =====
-- internal/resp/resp.go: `ReadReply` and its helpers.
pub mod RoundTrip
pub mod Total
use the_500mb_club_challenge.Prelude.{
  ℕ, zero, suc, ◌+◌, ◌*◌, ltb, ◌==◌, if◌then◌else◌, Bytes, Result, ok, err, panic, length, take,
}
use the_500mb_club_challenge.Prelude.Int.{ℤ, pos, negsuc}
use the_500mb_club_challenge.Resp.{
  Error, unknown_type, out_of_fuel, redis, Reply, simple, integer, bulk, null, array, Replies, done,
  next, ◌>>=◌, max_alloc, read_byte, read_full, read_line, parse_line,
}

pub read_bulk : ℤ → Bytes → Result Error (Reply × Bytes)
read_bulk (negsuc n) s = ok (null, s)
read_bulk (pos n) s =
    if ltb max_alloc (n + 2)
    then panic
    else read_full (n + 2) s >>= λ r. ok (bulk (take n r.0), r.1)

-- The loop over the elements, with the reader of one element.
pub read_items : (Bytes → Result Error (Reply × Bytes)) → ℕ → Bytes → Result Error (Replies × Bytes)
read_items read zero s = ok (done, s)
read_items read (suc n) s = do (v, s1) ← read s; (vs, s2) ← read_items read n s1; ok (next v vs, s2)

pub read_array : (Bytes → Result Error (Reply × Bytes)) → ℤ → Bytes → Result Error (Reply × Bytes)
read_array read (negsuc n) s = ok (null, s)
read_array read (pos n) s =
    if ltb max_alloc (n * 16) then panic else read_items read n s >>= λ r. ok (array r.0, r.1)

-- What follows the prefix and its line.
pub dispatch :
    (Bytes → Result Error (Reply × Bytes)) → ℕ → Bytes → Bytes → Result Error (Reply × Bytes)
dispatch read prefix line s =
    if prefix == b'+'
    then ok (simple line, s)
    else if prefix == b'-'
    then err (redis line)
    else if prefix == b':'
    then parse_line line >>= (λ v. ok (integer v, s))
    else if prefix == b'$'
    then parse_line line >>= (λ n. read_bulk n s)
    else if prefix == b'*'
    then parse_line line >>= (λ n. read_array read n s)
    else err unknown_type

pub read_reply_loop : ℕ → Bytes → Result Error (Reply × Bytes)
unfolding read_byte
read_reply_loop zero s = err out_of_fuel
read_reply_loop (suc fuel) s = do
  (prefix, s1) ← read_byte s
  (line, s2) ← read_line s1
  dispatch (read_reply_loop fuel) prefix line s2

-- Every nested reply takes a byte at least, so this fuel is enough.
pub read_reply : Bytes → Result Error (Reply × Bytes)
read_reply s = read_reply_loop (suc (length s)) s

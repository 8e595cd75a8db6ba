-- ===== src/Resp/Fixed/Laws.antt =====
-- On internal/resp/resp.go: the fast array reader on what the writer prints.
use the_500mb_club_challenge.Prelude.{
  err, ℕ, zero, suc, ◌+◌, ◌-◌, ◌*◌, ◌/◌, ◌%◌, ◌≤◌, ◌<◌, ◌^◌, ◌≡◌, refl, Bool, true, false, List, [],
  ◌∷◌, ◌++◌, append_assoc, if◌then◌else◌, ltb, Bytes, ok, length, All, arith, Bool-cases, inl, inr,
}
use the_500mb_club_challenge.Prelude.Int.{ℤ, pos, negsuc, IsInt64, to_int64, eqb_ℤ}
use the_500mb_club_challenge.Golang.Strconv.{digits, format_uint, format_int}
use the_500mb_club_challenge.Resp.{
  eof, crlf, max_alloc, ◌>>=◌, encode_bulk, encode_bulks, encode_command,
}
use the_500mb_club_challenge.Resp.Line.{read_full-append}
use the_500mb_club_challenge.Resp.Reader.RoundTrip.{encode_bulk-append, encode_command-append}
use the_500mb_club_challenge.Resp.Fixed.{
  parse_int_loop, parse_int_line, read_members, read_backing, read_fixed_body,
  read_fixed_bulk_array,
}

loop_digit :
    (d n : ℕ) (s : Bytes) (neg seen : Bool)
    → d < 10
    → parse_int_loop ((b'0' + d) ∷ s) n neg seen ≡ parse_int_loop s ((n * 10 + d) % 2 ^ 64) neg true
unfolding parse_int_loop
loop_digit d n s neg seen hd = ground arith

loop_digits :
    (f n : ℕ) (s : Bytes) (neg seen : Bool)
    → n < 10 ^ suc f
    → n < 2 ^ 64
    → parse_int_loop (digits f n ++ s) 0 neg seen ≡ parse_int_loop s n neg true
unfolding digits
loop_digits zero n s neg seen h b = ground (arith, loop_digit (n % 10) 0 s neg seen)
loop_digits (suc f) n s neg seen h b = elim (Bool-cases (ltb n 10)) [
  | inl e ↦ rw e (ground (arith, loop_digit n 0 s neg seen))
  | inr e ↦
      rw (e, append_assoc)
        (ground (
          arith,
          loop_digits f (n / 10) ((b'0' + n % 10) ∷ s) neg seen,
          loop_digit (n % 10) (n / 10) s neg true,
        ))
]

loop_format :
    (n : ℕ) (s : Bytes) (neg seen : Bool)
    → n < 2 ^ 64
    → parse_int_loop (format_uint n ++ s) 0 neg seen ≡ parse_int_loop s n neg true
unfolding format_uint
loop_format n s neg seen h = loop_digits 19 n s neg seen (omega arith) h

loop_end :
    (n : ℕ) (neg : Bool) (s : Bytes)
    → parse_int_loop (crlf ++ s) n neg true ≡ ok (to_int64 (if neg then 2 ^ 64 - n else n), s)
unfolding parse_int_loop
loop_end n neg s = refl

loop_minus : (s : Bytes) → parse_int_loop (b'-' ∷ s) 0 false false ≡ parse_int_loop s 0 true false
unfolding parse_int_loop
loop_minus s = refl

-- parseIntLine reads the printed form of an int64 and the line end back as that number and leaves
-- what follows unread.
pub parse_int_line-format_int :
    (v : ℤ) (rest : Bytes)
    → IsInt64 v
    → parse_int_line (format_int v ++ (crlf ++ rest)) ≡ ok (v, rest)
unfolding parse_int_line format_int
parse_int_line-format_int (pos n) rest h =
    rw (loop_format n (crlf ++ rest) false false (omega arith), loop_end) (ground arith)
parse_int_line-format_int (negsuc n) rest h =
    rw (loop_minus, loop_format (suc n) (crlf ++ rest) true false (omega arith), loop_end)
      (ground arith)

pub parse_int_line-format :
    (n : ℕ) (rest : Bytes)
    → n < 2 ^ 63
    → parse_int_line (format_uint n ++ (crlf ++ rest)) ≡ ok (pos n, rest)
unfolding format_int
parse_int_line-format n rest h = parse_int_line-format_int (pos n) rest (h, omega arith)

-- The members, one after the other.
unfoldable pub concat : List Bytes → Bytes
concat [] = []
concat (m ∷ ms) = m ++ concat ms

eqb_self : (n : ℕ) → eqb_ℤ (pos n) (pos n) ≡ true
eqb_self n = ground arith

room_left : (room size : ℕ) → size ≤ room → ltb room size ≡ false
room_left room size h = ground arith

read_member :
    (size count room : ℕ) (m t : Bytes)
    → length m ≡ size
    → size < 2 ^ 63
    → size ≤ room
    → read_members size (suc count) room (encode_bulk m ++ t)
      ≡ (read_members size count (room - size) t >>= λ r. ok (m ++ r.0, r.1))
unfolding read_members
read_member size count room m t hm hs hr = rw (
  encode_bulk-append,
  parse_int_line-format (length m) (m ++ (crlf ++ t)) (omega arith),
  hm,
  eqb_self,
  room_left room size hr,
  read_full-append m (crlf ++ t) size hm,
  read_full-append crlf t 2 refl,
)

read_members_bulks :
    (size room : ℕ) (ms : List Bytes) (rest : Bytes)
    → size < 2 ^ 63
    → length ms * size ≤ room
    → All (λ m. length m ≡ size) ms
    → read_members size (length ms) room (encode_bulks ms ++ rest) ≡ ok (concat ms, rest)
unfolding concat encode_bulks
read_members_bulks size room [] rest hs hr h = unfold read_members in refl
read_members_bulks size room (m ∷ ms) rest hs hr (hm, h) = rw (
  append_assoc,
  read_member size (length ms) room m (encode_bulks ms ++ rest) hm hs (grind arith),
  read_members_bulks size (room - size) ms rest hs (grind arith) h,
)

le-mul : (n size : ℕ) → 0 < size → n ≤ n * size
le-mul n size h = grind arith

backing_fits : (room : ℕ) → room ≤ max_alloc → to_int64 (room % 2 ^ 64) ≡ pos room
backing_fits room h = ground arith

read_fixed_body-bulks :
    (size : ℕ) (ms : List Bytes) (rest : Bytes)
    → size < 2 ^ 63
    → length ms * size ≤ max_alloc
    → All (λ m. length m ≡ size) ms
    → read_fixed_body size (pos (length ms)) (encode_bulks ms ++ rest)
      ≡ ok ((concat ms, length ms), rest)
unfolding read_fixed_body read_backing
read_fixed_body-bulks size [] rest hs hr h = unfold concat encode_bulks in refl
read_fixed_body-bulks size (m ∷ ms) rest hs hr h = rw (
  backing_fits (length (m ∷ ms) * size) hr,
  room_left max_alloc (length (m ∷ ms) * size) hr,
  read_members_bulks size (length (m ∷ ms) * size) (m ∷ ms) rest hs (omega arith) h,
)

-- An array of members of one size from 1 to below 2^63, in the form in which EncodeCommand writes
-- it, is read by ReadFixedBulkArray into the members joined and their number, and what follows
-- stays unread, if the joined members fit the memory limit of the reader.
pub read_fixed-encode_command :
    (size : ℕ) (ms : List Bytes) (rest : Bytes)
    → 0 < size
    → size < 2 ^ 63
    → length ms * size ≤ max_alloc
    → All (λ m. length m ≡ size) ms
    → read_fixed_bulk_array size (encode_command ms ++ rest) ≡ ok ((concat ms, length ms), rest)
unfolding read_fixed_bulk_array
read_fixed-encode_command size ms rest h0 hs hr h =
    let few : length ms < 2 ^ 63 = omega (arith, le-mul (length ms) size h0) in
    rw (
      encode_command-append,
      parse_int_line-format (length ms) (encode_bulks ms ++ rest) few,
      read_fixed_body-bulks size ms rest hs hr h,
    )

-- A stream that is at its end.
pub read_fixed_end : (size : ℕ) → read_fixed_bulk_array size [] ≡ err eof
unfolding read_fixed_bulk_array
read_fixed_end size = refl

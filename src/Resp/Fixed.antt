-- ===== src/Resp/Fixed.antt =====
-- internal/resp/resp.go: `parseIntLine` and `ReadFixedBulkArray`.
pub mod Laws
pub mod Size
use the_500mb_club_challenge.Prelude.{
  ℕ, zero, suc, ◌+◌, ◌-◌, ◌*◌, ◌%◌, ◌^◌, Bool, true, false, not, ◌&&◌, [], ◌∷◌, ◌++◌, ltb, ◌==◌,
  if◌then◌else◌, Bytes, Result, ok, err, panic,
}
use the_500mb_club_challenge.Prelude.Int.{ℤ, pos, negsuc, to_int64, eqb_ℤ}
use the_500mb_club_challenge.Golang.Strconv.{is_digit}
use the_500mb_club_challenge.Resp.{
  Error, eof, malformed_line, expected_array, expected_bulk, member_size, empty_integer,
  invalid_integer, redis, ◌>>=◌, ◌>>◌, require, max_alloc, read_byte, read_full, read_line,
}

-- The end of an integer line, behind its carriage return; `n` is the bit pattern of an `int64`.
line_end : Bytes → ℕ → Bool → Bool → Result Error (ℤ × Bytes)
line_end [] n neg seen = err eof
line_end (c ∷ s) n neg seen =
    if not (c == 10)
    then err malformed_line
    else if not seen
    then err empty_integer
    else ok (to_int64 (if neg then 2 ^ 64 - n else n), s)

-- `n = n*10 + int64(c-'0')` wraps around.
parse_int_loop : Bytes → ℕ → Bool → Bool → Result Error (ℤ × Bytes)
unfolding line_end
parse_int_loop [] n neg seen = err eof
parse_int_loop (c ∷ s) n neg seen =
    let minus = parse_int_loop s n true seen in
    let digit = parse_int_loop s ((n * 10 + (c - b'0')) % 2 ^ 64) neg true in
    if c == 13
    then line_end s n neg seen
    else if c == b'-' && (not seen && not neg)
    then minus
    else if is_digit c
    then digit
    else err invalid_integer

unfoldable pub parse_int_line : Bytes → Result Error (ℤ × Bytes)
unfolding parse_int_loop
parse_int_line s = parse_int_loop s 0 false false

-- The loop over the members: `count` are left, and `room` is what is left of the backing array.
read_members : ℕ → ℕ → ℕ → Bytes → Result Error (Bytes × Bytes)
unfolding read_byte
read_members size zero room s = ok ([], s)
read_members size (suc count) room s = do
  (bp, s1) ← read_byte s
  require (bp == b'$') expected_bulk
  (ln, s2) ← parse_int_line s1
  require (eqb_ℤ ln (pos size)) member_size
  (if ltb room size then panic else ok tt)
  (m, s3) ← read_full size s2
  (skipped, s4) ← read_full 2 s3
  (ms, s5) ← read_members size count (room - size) s4
  ok (m ++ ms, s5)

-- `make([]byte, int(n)*size)`, whose length is computed in `int`.
read_backing : ℕ → ℤ → ℕ → Bytes → Result Error ((Bytes × ℕ) × Bytes)
read_backing n (negsuc k) size s = panic
read_backing n (pos room) size s =
    if ltb max_alloc room then panic else read_members size n room s >>= λ r. ok ((r.0, n), r.1)

read_fixed_body : ℕ → ℤ → Bytes → Result Error ((Bytes × ℕ) × Bytes)
read_fixed_body size (negsuc k) s = ok (([], 0), s)
read_fixed_body size (pos zero) s = ok (([], 0), s)
read_fixed_body size (pos (suc n)) s =
    read_backing (suc n) (to_int64 (suc n * size % 2 ^ 64)) size s

-- The backing array and the member count.
pub read_fixed_bulk_array : ℕ → Bytes → Result Error ((Bytes × ℕ) × Bytes)
unfolding read_byte
read_fixed_bulk_array size s = do
  (prefix, s1) ← read_byte s
  let minus = read_line s1 >>= λ r. err (redis r.0)
  let items = do (n, s2) ← parse_int_line s1; read_fixed_body size n s2
  if prefix == b'-' then minus else if prefix == b'*' then items else err expected_array

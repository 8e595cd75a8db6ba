-- ===== src/Tests/RespRuns.antt =====
-- Runs of the RESP codec.
use the_500mb_club_challenge.Prelude.{
  ◌*◌, ◌≡◌, refl, List, [], ◌∷◌, ◌++◌, codes, Bytes, ok, length, arith,
}
use the_500mb_club_challenge.Prelude.Int.{pos}
use the_500mb_club_challenge.Resp.{array, encode_command}
use the_500mb_club_challenge.Resp.Reader.{read_reply}
use the_500mb_club_challenge.Resp.Reader.RoundTrip.{bulks, read_reply-encode_command}
use the_500mb_club_challenge.Resp.Reader.Total.{Ends, read_reply-Ends}
use the_500mb_club_challenge.Resp.{Reply}
use the_500mb_club_challenge.Resp.Fixed.{parse_int_line, read_fixed_bulk_array}
use the_500mb_club_challenge.Resp.Fixed.Laws.{concat, read_fixed-encode_command}
use the_500mb_club_challenge.Resp.Fixed.Size.{read_fixed-length}

abbrev ping : List Bytes
ping = codes "PING" ∷ codes "a\r\nb" ∷ []

read_reply-encode_command_example :
    read_reply (encode_command ping ++ codes "+OK") ≡ ok (array (bulks ping), codes "+OK")
read_reply-encode_command_example =
    read_reply-encode_command ping (codes "+OK") (omega arith) (omega arith)

read_reply-Ends_example : Ends Reply 5 (read_reply (codes "*9\r\n:"))
read_reply-Ends_example = read_reply-Ends (codes "*9\r\n:")

abbrev members : List Bytes
members = codes "abc" ∷ codes "def" ∷ []

read_fixed-encode_command_example :
    read_fixed_bulk_array 3 (encode_command members ++ []) ≡ ok ((concat members, 2), [])
read_fixed-encode_command_example =
    read_fixed-encode_command 3 members [] (omega arith) (omega arith) (omega arith) (omega arith)

read_fixed-length_example : length (concat members) ≡ 2 * 3
read_fixed-length_example =
    read_fixed-length 3 (encode_command members ++ []) read_fixed-encode_command_example

-- The fast path does not notice that a number exceeds an `int64`.
overflow_wraps : parse_int_line (codes "18446744073709551617\r\n") ≡ ok (pos 1, [])
unfolding parse_int_line
overflow_wraps = refl

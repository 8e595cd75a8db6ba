-- ===== src/Tests/ModelRuns.antt =====
-- Runs of the point codec, the cursor and the scanner.
use the_500mb_club_challenge.Prelude.{◌<◌, ◌≡◌, refl, true, false, none, some, codes, ok, arith}
use the_500mb_club_challenge.Prelude.Int.{pos, to_uint64}
use the_500mb_club_challenge.Cursor
use the_500mb_club_challenge.Cursor.Laws.{decode-encode}
use the_500mb_club_challenge.Golang.Binary.{bytes_lt}
use the_500mb_club_challenge.Model.Codec.{encode, decode, decode-encode_member}
use the_500mb_club_challenge.Model.Order.{encode_order}
use the_500mb_club_challenge.Model.Point.{Point, IsTyped, IsValid}
use the_500mb_club_challenge.Golang.Strconv.{parse_int, parse_uint}
use the_500mb_club_challenge.Golang.ParseFloat.{parse_float, span_digits}
use the_500mb_club_challenge.Golang.Float64.{float_lt, is_inf, is_nan}
use the_500mb_club_challenge.Model.Point.{to_point, finite}
use the_500mb_club_challenge.Model.Scan.{
  skip_ws, read_key, trailing_only_ws, read_int, read_float, string_loop, consume,
  scan_number_literal,
}
use the_500mb_club_challenge.Model.Scan.Object.{
  parse_point, scan_point_json, member_loop, read_member, read_field, store_field, field_name,
  eq_fold_ascii, skip_value, skip_container,
}

abbrev sample : Point
sample = record {
  ts = pos 1715800000000;
  lat = 0xC037800000000000;
  lon = 0xC0474CCCCCCCCCCD;
  battery = 0x3FE999999999999A;
  has_battery = true;
  ax = 0x3FB999999999999A;
  ay = 0xBFA47AE147AE147B;
  az = 0x40239EB851EB851F;
}

-- A line that opens the scanner for the runs below.
scanner : Unit {0}
unfolding parse_point skip_ws read_key trailing_only_ws read_int read_float read_member read_field
    store_field field_name skip_value skip_container string_loop consume scan_number_literal
    parse_int parse_float to_point finite float_lt is_inf span_digits scan_point_json member_loop
    is_nan eq_fold_ascii parse_uint
scanner = tt

-- The example request of the README.
parse_sample :
    parse_point (
      codes
        "{\"ts\":1715800000000,\"lat\":-23.5,\"lon\":-46.6,\"battery\":0.8,\"ax\":0.1,\"ay\":-0.04,\"az\":9.81}")
    ≡ some sample
unfolding scanner
parse_sample = refl

parse_unknown_fields :
    parse_point (
      codes
        " {\"x\":{\"a\":[1,\"}\"]},\"TS\":1,\"lat\":0,\"lon\":0,\"ax\":0,\"ay\":0,\"az\":0 , \"battery\":null} ")
    ≡ some (record {
      ts = pos 1;
      lat = 0;
      lon = 0;
      battery = 0;
      has_battery = false;
      ax = 0;
      ay = 0;
      az = 0;
    })
unfolding scanner
parse_unknown_fields = refl

parse_leading_zero :
    parse_point (codes "{\"ts\":01,\"lat\":0,\"lon\":0,\"ax\":0,\"ay\":0,\"az\":0}") ≡ none
unfolding scanner
parse_leading_zero = refl

sample-IsTyped : IsTyped sample
sample-IsTyped = omega arith

sample-IsValid : IsValid sample
unfolding float_lt finite is_inf is_nan
sample-IsValid = record {
  ts = omega arith;
  lat = (refl, refl);
  lon = (refl, refl);
  ax = refl;
  ay = refl;
  az = refl;
  battery = (refl, refl);
  absent = λ e. cc e;
}

decode-encode_example :
    Cursor.decode (Cursor.encode (pos 1715800000000) (pos 3)) ≡ ok (pos 1715800000000, 3)
decode-encode_example = decode-encode (pos 1715800000000) 3 (omega arith) (omega arith)

decode-encode_member_example : decode (encode sample 5) ≡ some sample
decode-encode_member_example = decode-encode_member sample 5 sample-IsTyped

abbrev later : Point
later = record sample { ts = pos 1715800000001 }

encode_order_example :
    (to_uint64 sample.ts < to_uint64 later.ts → bytes_lt (encode sample 9) (encode later 1) ≡ true)
    × (to_uint64 sample.ts ≡ to_uint64 later.ts
        → 9 < 1
        → bytes_lt (encode sample 9) (encode later 1) ≡ true)
encode_order_example = encode_order sample later 9 1 (omega arith) (omega arith)

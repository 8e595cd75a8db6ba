-- ===== src/Tests/JsonRuns.antt =====
-- Runs of what is printed and read back.
use the_500mb_club_challenge.Prelude.{
  false, ℕ, ◌≡◌, refl, true, some, ◌==◌, if◌then◌else◌, Bytes, codes, arith,
}
use the_500mb_club_challenge.Prelude.Int.{pos}
use the_500mb_club_challenge.Golang.Float64.{Float64, f_0, f_1, abs_float, float_lt, is_nan, is_inf}
use the_500mb_club_challenge.Golang.ParseFloat.{parse_float}
use the_500mb_club_challenge.Model.Point.{Point, IsValid, IsTyped, finite}
use the_500mb_club_challenge.Model.Codec.{decode, encode}
use the_500mb_club_challenge.Model.Scan.{scan_number_literal}
use the_500mb_club_challenge.Model.Scan.Object.{parse_point}
use the_500mb_club_challenge.Model.Scan.Number.{IsNumber}
use the_500mb_club_challenge.Model.Scan.Typed.{parse_point-IsTyped}
use the_500mb_club_challenge.Http.Json.{append_point_json, float_format}
use the_500mb_club_challenge.Http.Json.RoundTrip.{IsPrinted, parse_point-append_point_json}
use the_500mb_club_challenge.Prelude.{inr}
use the_500mb_club_challenge.Golang.Strconv.{format_int}
use the_500mb_club_challenge.Store.Mem.Invariant.{IsValid as IsValidStore}
use the_500mb_club_challenge.Http.Validate.{valid_id, id_char}
use the_500mb_club_challenge.Http.Writer.{fresh}
use the_500mb_club_challenge.Http.Handler.{serve_http}
use the_500mb_club_challenge.Http.Anomaly.{anomaly}
use the_500mb_club_challenge.Http.Query.Mem.{mem_store}
use the_500mb_club_challenge.Http.Ingest.{Body, read_body, ingest_single}
use the_500mb_club_challenge.Http.Ingest.Mem.{IsTaken, ingest_single-IsTaken}
use the_500mb_club_challenge.Http.Instance.{Reach-IsValid, here, next, single, scored}
use the_500mb_club_challenge.Tests.StoreRuns.{device, filled-IsValid}
use the_500mb_club_challenge.Tests.HttpRuns.{config, initial, no_header, print_zero, one_raw}
use the_500mb_club_challenge.Load.Payload.{Draw, append_draw}
use the_500mb_club_challenge.Load.Payload.Accepted.{parse_point-append_draw}

-- A point at rest, whose values are 0 and 1.
abbrev resting : Point
resting = record {
  ts = pos 1715800000000;
  lat = f_0;
  lon = f_0;
  battery = f_1;
  has_battery = true;
  ax = f_0;
  ay = f_0;
  az = f_1;
}

resting-IsValid : IsValid resting
unfolding float_lt finite is_inf is_nan
resting-IsValid = record {
  ts = omega arith;
  lat = (refl, refl);
  lon = (refl, refl);
  ax = refl;
  ay = refl;
  az = refl;
  battery = (refl, refl);
  absent = λ e. cc e;
}

-- Enough to print 0 and 1.
abbrev shortest : Float64 → ℕ → Bytes
shortest f format = if f == f_1 then codes "1" else codes "0"

zero-IsPrinted : IsPrinted shortest f_0
unfolding float_format float_lt abs_float scan_number_literal parse_float
zero-IsPrinted = record { plain = refl; reads = record { literal = refl; value = refl } }

one-IsPrinted : IsPrinted shortest f_1
unfolding float_format float_lt abs_float scan_number_literal parse_float
one-IsPrinted = record { plain = refl; reads = record { literal = refl; value = refl } }

parse_point-append_point_json_example :
    parse_point (append_point_json shortest (codes "") resting) ≡ some resting
parse_point-append_point_json_example =
    parse_point-append_point_json shortest resting resting-IsValid (omega arith) (record {
      lat = zero-IsPrinted;
      lon = zero-IsPrinted;
      battery = λ _. one-IsPrinted;
      ax = zero-IsPrinted;
      ay = zero-IsPrinted;
      az = one-IsPrinted;
    })

abbrev six_digits : Float64 → Bytes
six_digits f = if f == f_1 then codes "1.000000" else codes "0.000000"

zero_read : IsNumber (six_digits f_0) f_0
unfolding scan_number_literal parse_float
zero_read = record { literal = refl; value = refl }

one_read : IsNumber (six_digits f_1) f_1
unfolding scan_number_literal parse_float
one_read = record { literal = refl; value = refl }

abbrev drawn : Draw
drawn = record {
  ts = pos 1715800000000;
  lat = f_0;
  lon = f_0;
  ax = f_0;
  ay = f_0;
  az = f_1;
  battery = some f_1;
}

parse_point-append_draw_example :
    parse_point (append_draw six_digits (codes "") drawn) ≡ some resting
parse_point-append_draw_example =
    parse_point-append_draw six_digits drawn resting resting-IsValid (omega arith)
      (record {
        ts = refl;
        lat = zero_read;
        lon = zero_read;
        ax = zero_read;
        ay = zero_read;
        az = one_read;
      })
      (refl, one_read)

parse_point-IsTyped_example :
    IsTyped resting × IsValid resting × (decode (encode resting 3) ≡ some resting)
parse_point-IsTyped_example =
    parse_point-IsTyped (append_draw six_digits (codes "") drawn) resting 3
      parse_point-append_draw_example

-- The drawn point as a body.
abbrev drawn_body : Body
drawn_body = record { bytes = append_draw six_digits (codes "") drawn; broken = false }

drawn_small : read_body drawn_body config.single_max_bytes ≡ inr drawn_body.bytes
unfolding read_body append_draw format_int
drawn_small = refl

device-IsId : valid_id device ≡ true
unfolding valid_id id_char
device-IsId = refl

ingest_single-IsTaken_example :
    IsTaken device initial
      (ingest_single mem_store config device drawn_body initial (fresh no_header))
      resting
ingest_single-IsTaken_example =
    ingest_single-IsTaken device initial config drawn_body no_header drawn_body.bytes resting
      filled-IsValid device-IsId drawn_small parse_point-append_draw_example

-- The point is posted, and then the score is asked for.
Reach-IsValid_example :
    IsValidStore
      (serve_http config
        (anomaly mem_store print_zero device)
        (serve_http config (ingest_single mem_store config device drawn_body) initial no_header).0
        no_header).0.store
Reach-IsValid_example =
    Reach-IsValid config one_raw print_zero filled-IsValid
      (next (next here (single device drawn_body) no_header) (scored device) no_header)

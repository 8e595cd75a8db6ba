-- ===== src/Tests/ScanRuns.antt =====
-- Runs of the scanner's parts.
use the_500mb_club_challenge.Model.Scan.Fuel.{IsSkip}
use the_500mb_club_challenge.Model.Point.{PointJson}
use the_500mb_club_challenge.Model.Scan.Members.{scan_point_json-Ends, IsObject}
use the_500mb_club_challenge.Prelude.{Option, Bytes, ◌≡◌, refl, some, codes}
use the_500mb_club_challenge.Golang.ParseFloat.{span_digits}
use the_500mb_club_challenge.Model.Scan.{string_loop, scan_number_literal}
use the_500mb_club_challenge.Model.Scan.Object.{scan_point_json, skip_container}

literal_run : scan_number_literal (codes "-12.5e3,") ≡ some (codes "-12.5e3", codes ",")
unfolding scan_number_literal span_digits
literal_run = refl

abbrev object : Bytes
object = codes " {\"ts\":1,\"x\":[2]}"

abbrev nested : Bytes
nested = codes "[2,[\"]\"]],"

scan_point_json-Ends_example :
    IsObject object (scan_point_json object)
    × ((o : Option PointJson) → IsObject object o → o ≡ scan_point_json object)
    × IsSkip b'[' b']' 0 nested (skip_container b'[' b']' nested)
    × ((o : Option Bytes) → IsSkip b'[' b']' 0 nested o → o ≡ skip_container b'[' b']' nested)
scan_point_json-Ends_example = scan_point_json-Ends object nested b'[' b']'

nested_run : skip_container b'[' b']' nested ≡ some (codes ",")
unfolding skip_container string_loop
nested_run = refl

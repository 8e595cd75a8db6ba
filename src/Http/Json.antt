-- ===== src/Http/Json.antt =====
-- internal/httpapi/fastresp.go: the JSON of a range response. `format_float f format` is
-- `strconv.AppendFloat(nil, f, format, -1, 64)`, which the definitions take as an argument.
pub mod RoundTrip
use the_500mb_club_challenge.Prelude.{
  ℕ, suc, ◌-◌, not, ◌&&◌, ◌||◌, List, [], ◌∷◌, ◌++◌, ltb, leb, ◌==◌, if◌then◌else◌, Bytes, codes,
  length, take, get_or,
}
use the_500mb_club_challenge.Golang.Strconv.{format_int}
use the_500mb_club_challenge.Golang.Float64.{abs_float, Float64, float_lt, f_0}
use the_500mb_club_challenge.Model.Point.{Point}

-- 1e-6 and 1e21
abbrev f_micro : Float64
f_micro = 0x3EB0C6F7A0B5ED8D

abbrev f_zetta : Float64
f_zetta = 0x444B1AE4D6E2EF50

-- 'f', or 'e' for small and large magnitudes other than 0.
unfoldable pub float_format : Float64 → ℕ
float_format a =
    if (float_lt a f_0 || float_lt f_0 a) && (float_lt a f_micro || not (float_lt a f_zetta))
    then b'e'
    else b'f'

-- The exponent "e-0X" at the end becomes "e-X".
unfoldable pub trim_exponent : Bytes → Bytes
trim_exponent dst =
    let n = length dst in
    if leb 4 n
      && (get_or dst (n - 4) 0 == b'e')
      && (get_or dst (n - 3) 0 == b'-')
      && (get_or dst (n - 2) 0 == b'0')
    then take (n - 2) dst ++ get_or dst (n - 1) 0 ∷ []
    else dst

unfoldable pub append_json_float : (Float64 → ℕ → Bytes) → Bytes → Float64 → Bytes
append_json_float format_float dst f =
    let format = float_format (abs_float f) in
    let out = dst ++ format_float f format in if format == b'e' then trim_exponent out else out

append_battery : (Float64 → ℕ → Bytes) → Bytes → Point → Bytes
append_battery format_float dst p =
    if p.has_battery
    then append_json_float format_float (dst ++ codes ",\"battery\":") p.battery
    else dst

unfoldable pub append_point_json : (Float64 → ℕ → Bytes) → Bytes → Point → Bytes
unfolding append_battery
append_point_json format_float dst p =
    let ts = (dst ++ codes "{\"ts\":") ++ format_int p.ts in
    let lat = append_json_float format_float (ts ++ codes ",\"lat\":") p.lat in
    let lon = append_json_float format_float (lat ++ codes ",\"lon\":") p.lon in
    let battery = append_battery format_float lon p in
    let ax = append_json_float format_float (battery ++ codes ",\"ax\":") p.ax in
    let ay = append_json_float format_float (ax ++ codes ",\"ay\":") p.ay in
    let az = append_json_float format_float (ay ++ codes ",\"az\":") p.az in az ++ b'}' ∷ []

-- The loop over the points, from index `i` on.
append_points_json : (Float64 → ℕ → Bytes) → ℕ → Bytes → List Point → Bytes
append_points_json format_float i dst [] = dst
append_points_json format_float i dst (p ∷ ps) =
    append_points_json format_float (suc i)
      (append_point_json format_float (if ltb 0 i then dst ++ b',' ∷ [] else dst) p) ps

unfoldable pub append_cursor : Bytes → Bytes → Bytes
append_cursor dst cur = (dst ++ b'"' ∷ []) ++ cur ++ b'"' ∷ []

append_next : Bytes → Bytes → Bytes
append_next dst [] = dst ++ codes "null"
append_next dst (c ∷ cur) = append_cursor dst (c ∷ cur)

unfoldable pub append_range_json : (Float64 → ℕ → Bytes) → Bytes → List Point → Bytes → Bytes
unfolding append_points_json append_next
append_range_json format_float dst pts next =
    append_next
      (append_points_json format_float 0 (dst ++ codes "{\"points\":[") pts
        ++ codes "],\"next_cursor\":")
      next
    ++ b'}' ∷ []

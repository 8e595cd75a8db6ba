-- ===== src/Model/Scan/Object.antt =====
-- internal/model/fastjson.go: skipping a value, the fields of an object, the object, and
-- `ParsePoint` of point.go.
use the_500mb_club_challenge.Prelude.{
  ℕ, zero, suc, ◌+◌, ◌-◌, Bool, true, false, ◌&&◌, Option, none, some, [], ◌∷◌, leb, ◌==◌,
  if◌then◌else◌, Bytes, codes, length,
}
use the_500mb_club_challenge.Model.Point.{Point, PointJson, to_point, ◌>>=◌}
use the_500mb_club_challenge.Model.Scan.{
  skip_ws, trailing_only_ws, string_loop, read_key, consume, scan_number_literal, read_int,
  read_float,
}

-- The loop of `skipContainer`. Each round takes a byte at least, so the length of the text is fuel
-- enough. The first byte is `open`, so `depth` is 1 or more when `close` is met.
unfoldable pub container_loop : ℕ → ℕ → ℕ → ℕ → Bytes → Option Bytes
container_loop zero open' close depth s = none
container_loop (suc fuel) open' close depth [] = none
container_loop (suc fuel) open' close depth (c ∷ s) =
    let inside = string_loop s >>= λ r. container_loop fuel open' close depth r.1 in
    let deeper = container_loop fuel open' close (depth + 1) s in
    let outer = container_loop fuel open' close (depth - 1) s in
    let next = container_loop fuel open' close depth s in
    if c == b'"'
    then inside
    else if c == open'
    then deeper
    else if c == close
    then if depth == 1 then some s else outer
    else next

unfoldable pub skip_container : ℕ → ℕ → Bytes → Option Bytes
unfolding container_loop
skip_container open' close s = container_loop (length s) open' close 0 s

unfoldable pub skip_value : Bytes → Option Bytes
skip_value [] = none
skip_value (c ∷ s) =
    if c == b'"'
    then string_loop s >>= (λ r. some r.1)
    else if c == b'{'
    then skip_container b'{' b'}' (c ∷ s)
    else if c == b'['
    then skip_container b'[' b']' (c ∷ s)
    else if c == b't'
    then consume (codes "true") (c ∷ s)
    else if c == b'f'
    then consume (codes "false") (c ∷ s)
    else if c == b'n'
    then consume (codes "null") (c ∷ s)
    else scan_number_literal (c ∷ s) >>= (λ r. some r.1)

-- The canonical field name of a key; "" is `unknown`.
pub data Field : Type 0 where
  ts lat lon battery ax ay az unknown : Field

lower_case : ℕ → ℕ
lower_case c = if leb b'A' c && leb c b'Z' then c + (b'a' - b'A') else c

unfoldable pub eq_fold_ascii : Bytes → Bytes → Bool
unfolding lower_case
eq_fold_ascii [] [] = true
eq_fold_ascii [] (d ∷ t) = false
eq_fold_ascii (c ∷ s) [] = false
eq_fold_ascii (c ∷ s) (d ∷ t) = lower_case c == d && eq_fold_ascii s t

unfoldable pub field_name : Bytes → Field
unfolding eq_fold_ascii
field_name key =
    if length key == 2
    then if eq_fold_ascii key (codes "ts")
      then ts
      else if eq_fold_ascii key (codes "ax")
      then ax
      else if eq_fold_ascii key (codes "ay")
      then ay
      else if eq_fold_ascii key (codes "az")
      then az
      else unknown
    else if length key == 3
    then if eq_fold_ascii key (codes "lat")
      then lat
      else if eq_fold_ascii key (codes "lon")
      then lon
      else unknown
    else if length key == 7
    then if eq_fold_ascii key (codes "battery") then battery else unknown
    else unknown

-- The value of a field is stored; that of an unknown one is skipped.
unfoldable pub store_field : Field → Bytes → PointJson → Option (PointJson × Bytes)
store_field ts s pj = do (v, rest) ← read_int pj.ts s; some (record pj { ts = v }, rest)
store_field lat s pj = do (v, rest) ← read_float pj.lat s; some (record pj { lat = v }, rest)
store_field lon s pj = do (v, rest) ← read_float pj.lon s; some (record pj { lon = v }, rest)
store_field battery s pj = do
  (v, rest) ← read_float pj.battery s
  some (record pj { battery = v }, rest)
store_field ax s pj = do (v, rest) ← read_float pj.ax s; some (record pj { ax = v }, rest)
store_field ay s pj = do (v, rest) ← read_float pj.ay s; some (record pj { ay = v }, rest)
store_field az s pj = do (v, rest) ← read_float pj.az s; some (record pj { az = v }, rest)
store_field unknown s pj = do rest ← skip_value s; some (pj, rest)

unfoldable pub read_field : Bytes → Bytes → PointJson → Option (PointJson × Bytes)
read_field s key pj = store_field (field_name key) s pj

-- The byte `c`, and what follows it.
unfoldable pub expect : ℕ → Bytes → Option Bytes
expect c [] = none
expect c (d ∷ s) = if d == c then some s else none

-- A key, a colon and a value.
unfoldable pub read_member : Bytes → PointJson → Option (PointJson × Bytes)
unfolding expect
read_member s pj = do
  (key, s1) ← read_key (skip_ws s)
  s2 ← expect b':' (skip_ws s1)
  read_field (skip_ws s2) key pj

-- The loop over the members; each takes a byte at least.
unfoldable pub member_loop : ℕ → PointJson → Bytes → Option PointJson
member_loop zero pj s = none
member_loop (suc fuel) pj s = read_member s pj >>= λ r. elim (skip_ws r.1) [
  | [] ↦ none
  | c ∷ rest ↦
      let more = member_loop fuel r.0 rest in
      if c == b',' then more else if c == b'}' then trailing_only_ws r.0 rest else none
]

abbrev pub no_fields : PointJson
no_fields = record {
  ts = none;
  lat = none;
  lon = none;
  battery = none;
  ax = none;
  ay = none;
  az = none;
}

unfoldable pub after_brace : Bytes → Option PointJson
unfolding member_loop
after_brace [] = none
after_brace (c ∷ s) =
    if c == b'}'
    then trailing_only_ws no_fields s
    else member_loop (suc (length s)) no_fields (c ∷ s)

unfoldable pub scan_point_json : Bytes → Option PointJson
unfolding expect after_brace
scan_point_json b = do s ← expect b'{' (skip_ws b); after_brace (skip_ws s)

-- `ParsePoint`
unfoldable pub parse_point : Bytes → Option Point
unfolding scan_point_json
parse_point raw = do pj ← scan_point_json raw; to_point pj

-- ===== src/Model/Scan/Typed.antt =====
-- On internal/model/fastjson.go and point.go: the values that are read are values of their Go types.
pub mod Fields
use the_500mb_club_challenge.Prelude.{
  sym, length, ◌==◌, if◌then◌else◌, codes, ℕ, zero, suc, ◌≡◌, Option, none, some, [], ◌∷◌, Bytes,
  Bool-cases, Option-cases, inl, inr, arith,
}
use the_500mb_club_challenge.Prelude.Int.{ℤ, IsInt64}
use the_500mb_club_challenge.Golang.Strconv.{parse_int, parse_int-IsInt64}
use the_500mb_club_challenge.Golang.ParseFloat.{parse_float, parse_float-IsFloat64}
use the_500mb_club_challenge.Golang.Float64.{Float64, IsFloat64}
use the_500mb_club_challenge.Model.Point.{
  Point, PointJson, IsTyped, IsValid, to_point, to_point_sound, fields, ◌>>=◌,
}
use mathlib.Core.Path.{subst}
use the_500mb_club_challenge.Model.Codec.{decode, encode, decode-encode_member}
use the_500mb_club_challenge.Model.Scan.{
  skip_ws, scan_number_literal, consume, read_int, read_float, trailing_only_ws, read_key,
  int_literal, float_literal,
}
use the_500mb_club_challenge.Model.Scan.Object.{
  after_brace, Field, ts, lat, lon, battery, ax, ay, az, unknown, store_field, field_name,
  read_field, expect, read_member, member_loop, no_fields, scan_point_json, parse_point, skip_value,
}
use the_500mb_club_challenge.Model.Scan.Typed.Fields.{
  IsSome, IsRead, IsTypedJson, read_member-IsRead,
}

trailing_only_ws-IsSome :
    (s : Bytes) (pj : PointJson) → IsTypedJson pj → IsSome IsTypedJson (trailing_only_ws pj s)
unfolding trailing_only_ws
trailing_only_ws-IsSome s pj h = go (skip_ws s)
  where
    go :
        (r : Bytes)
        → IsSome IsTypedJson (elim r as (λ _. Option PointJson) [ [] ↦ some pj | c ∷ t ↦ none ])
    go [] = h
    go (c ∷ t) = tt

-- The end of a round of the loop, whatever the rounds behind it give.
round_end-IsSome :
    (more : Bytes → Option PointJson) (pj : PointJson) (s : Bytes)
    → IsTypedJson pj
    → ((rest : Bytes) → IsSome IsTypedJson (more rest))
    → IsSome IsTypedJson (elim s as (λ _. Option PointJson) [
      | [] ↦ none
      | c ∷ rest ↦
          if c == b',' then more rest else if c == b'}' then trailing_only_ws pj rest else none
    ])
round_end-IsSome more pj [] h k = tt
round_end-IsSome more pj (c ∷ rest) h k = elim (Bool-cases (c == b',')) [
  | inl e ↦ rw e (k rest)
  | inr e ↦ elim (Bool-cases (c == b'}')) [
    | inl q ↦ rw (e, q) (trailing_only_ws-IsSome rest pj h)
    | inr q ↦ rw (e, q) tt
  ]
]

member_loop-IsSome :
    (fuel : ℕ) (pj : PointJson) (s : Bytes)
    → IsTypedJson pj
    → IsSome IsTypedJson (member_loop fuel pj s)
unfolding member_loop
member_loop-IsSome zero pj s h = tt
member_loop-IsSome (suc fuel) pj s h = elim (Option-cases (read_member s pj)) [
  | inl e ↦ rw (member_loop, e) tt
  | inr ((pj', s'), e) ↦
      let typed : IsTypedJson pj' = rw e at (read_member-IsRead s pj h) in
      rw (member_loop, e)
        (round_end-IsSome (λ rest. member_loop fuel pj' rest) pj' (skip_ws s') typed
          (λ rest. member_loop-IsSome fuel pj' rest typed))
]

no_fields-IsTypedJson : IsTypedJson no_fields
no_fields-IsTypedJson = record {
  ts = tt;
  lat = tt;
  lon = tt;
  battery = tt;
  ax = tt;
  ay = tt;
  az = tt;
}

after_brace-IsSome : (s : Bytes) → IsSome IsTypedJson (after_brace s)
unfolding after_brace
after_brace-IsSome [] = tt
after_brace-IsSome (c ∷ s) = elim (Bool-cases (c == b'}')) [
  | inl e ↦ rw (after_brace, e) (trailing_only_ws-IsSome s no_fields no_fields-IsTypedJson)
  | inr e ↦
      rw (after_brace, e)
        (member_loop-IsSome (suc (length s)) no_fields (c ∷ s) no_fields-IsTypedJson)
]

scan_point_json-IsSome : (b : Bytes) → IsSome IsTypedJson (scan_point_json b)
unfolding scan_point_json
scan_point_json-IsSome b = elim (Option-cases (expect b'{' (skip_ws b))) [
  | inl e ↦ rw (scan_point_json, e) tt
  | inr (s, e) ↦ rw (scan_point_json, e) (after_brace-IsSome (skip_ws s))
]

fields-IsTyped : (p : Point) → IsValid p → IsTypedJson (fields p) → IsTyped p
unfolding fields
fields-IsTyped p v h = record {
  ts = h.ts;
  lat = h.lat;
  lon = h.lon;
  battery = elim (Bool-cases p.has_battery) [
    | inl e ↦ rw e at h.battery
    | inr e ↦ rw (v.absent e) (omega arith)
  ];
  ax = h.ax;
  ay = h.ay;
  az = h.az;
}

-- Every point that ParsePoint accepts has values of their Go types (an int64 timestamp, 64-bit
-- floats) and is valid, so under any sequence number its member decodes back to it.
pub parse_point-IsTyped :
    (raw : Bytes) (p : Point) (seq : ℕ)
    → parse_point raw ≡ some p
    → IsTyped p × IsValid p × (decode (encode p seq) ≡ some p)
unfolding parse_point
parse_point-IsTyped raw p seq h = elim (Option-cases (scan_point_json raw)) [
  | inl e ↦ absurd (cc (rw (parse_point, e) at h))
  | inr (pj, e) ↦
      let typed : IsTypedJson pj = rw e at (scan_point_json-IsSome raw) in
      let found : to_point pj ≡ some p = rw (parse_point, e) at h in
      let (valid, same) = to_point_sound pj found in
      let fits = fields-IsTyped p valid (subst IsTypedJson (sym same) typed) in
      (fits, valid, decode-encode_member p seq fits)
]

-- ===== src/Model/Scan/Consumed.antt =====
-- On internal/model/fastjson.go: how much of the text a member leaves.
use the_500mb_club_challenge.Prelude.{
  ℕ, ◌≤◌, ◌≡◌, some, [], ◌∷◌, ◌==◌, Bytes, length, arith, Bool-cases, Option-cases, inl, inr,
}
use the_500mb_club_challenge.Model.Point.{PointJson}
use the_500mb_club_challenge.Model.Scan.{skip_ws, read_key, read_int, read_float}
use the_500mb_club_challenge.Model.Scan.Object.{
  Field, ts, lat, lon, battery, ax, ay, az, unknown, skip_value, store_field, read_field,
  field_name, expect, read_member,
}
use the_500mb_club_challenge.Model.Scan.Fuel.{string_loop_rest}
use the_500mb_club_challenge.Model.Scan.Shrink.{
  Within, skip_ws_le, skip_value-Left, read_int-Within, read_float-Within,
}

store_field-Within :
    (k : Field) (s : Bytes) (pj : PointJson) → Within (length s) (store_field k s pj)
unfolding store_field
store_field-Within ts s pj = elim (Option-cases (read_int pj.ts s)) [
  | inl q ↦ rw (store_field, q) tt
  | inr ((v, r), q) ↦ rw (store_field, q) (rw q at (read_int-Within pj.ts s))
]
store_field-Within lat s pj = elim (Option-cases (read_float pj.lat s)) [
  | inl q ↦ rw (store_field, q) tt
  | inr ((v, r), q) ↦ rw (store_field, q) (rw q at (read_float-Within pj.lat s))
]
store_field-Within lon s pj = elim (Option-cases (read_float pj.lon s)) [
  | inl q ↦ rw (store_field, q) tt
  | inr ((v, r), q) ↦ rw (store_field, q) (rw q at (read_float-Within pj.lon s))
]
store_field-Within battery s pj = elim (Option-cases (read_float pj.battery s)) [
  | inl q ↦ rw (store_field, q) tt
  | inr ((v, r), q) ↦ rw (store_field, q) (rw q at (read_float-Within pj.battery s))
]
store_field-Within ax s pj = elim (Option-cases (read_float pj.ax s)) [
  | inl q ↦ rw (store_field, q) tt
  | inr ((v, r), q) ↦ rw (store_field, q) (rw q at (read_float-Within pj.ax s))
]
store_field-Within ay s pj = elim (Option-cases (read_float pj.ay s)) [
  | inl q ↦ rw (store_field, q) tt
  | inr ((v, r), q) ↦ rw (store_field, q) (rw q at (read_float-Within pj.ay s))
]
store_field-Within az s pj = elim (Option-cases (read_float pj.az s)) [
  | inl q ↦ rw (store_field, q) tt
  | inr ((v, r), q) ↦ rw (store_field, q) (rw q at (read_float-Within pj.az s))
]
store_field-Within unknown s pj = elim (Option-cases (skip_value s)) [
  | inl q ↦ rw (store_field, q) tt
  | inr (r, q) ↦ rw (store_field, q) (rw q at (skip_value-Left s))
]

read_key_rest : (s key r : Bytes) → read_key s ≡ some (key, r) → length r ≤ length s
unfolding read_key
read_key_rest [] key r h = cc h
read_key_rest (c ∷ s) key r h = elim (Bool-cases (c == b'"')) [
  | inl e ↦ omega (arith, string_loop_rest s key r (rw (read_key, e) at h))
  | inr e ↦ absurd (cc (rw (read_key, e) at h))
]

expect_rest : (c : ℕ) (s r : Bytes) → expect c s ≡ some r → length r ≤ length s
unfolding expect
expect_rest c [] r h = cc h
expect_rest c (d ∷ s) r h = ground (arith, h)

pub read_member-Within : (s : Bytes) (pj : PointJson) → Within (length s) (read_member s pj)
unfolding read_member read_field
read_member-Within s pj = elim (Option-cases (read_key (skip_ws s))) [
  | inl q ↦ rw (read_member, q) tt
  | inr ((key, s1), q) ↦ elim (Option-cases (expect b':' (skip_ws s1))) [
    | inl k ↦ rw (read_member, q, k) tt
    | inr (s2, k) ↦ elim (Option-cases (store_field (field_name key) (skip_ws s2) pj)) [
      | inl m ↦ rw (read_member, q, k, read_field, m) tt
      | inr ((v, r), m) ↦
          let last : length r ≤ length (skip_ws s2) =
            rw m at (store_field-Within (field_name key) (skip_ws s2) pj) in
          rw (read_member, q, k, read_field, m)
            (omega (
              arith,
              skip_ws_le s,
              read_key_rest (skip_ws s) key s1 q,
              skip_ws_le s1,
              expect_rest b':' (skip_ws s1) s2 k,
              skip_ws_le s2,
              last,
            ))
    ]
  ]
]

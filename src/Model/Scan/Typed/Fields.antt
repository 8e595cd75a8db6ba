-- ===== src/Model/Scan/Typed/Fields.antt =====
-- On internal/model/fastjson.go and point.go: the values of members are values of their Go types.
use the_500mb_club_challenge.Prelude.{codes, Option, none, some, Bytes, Option-cases, inl, inr}
use the_500mb_club_challenge.Prelude.Int.{ℤ, IsInt64}
use the_500mb_club_challenge.Golang.Strconv.{parse_int, parse_int-IsInt64}
use the_500mb_club_challenge.Golang.ParseFloat.{parse_float, parse_float-IsFloat64}
use the_500mb_club_challenge.Golang.Float64.{Float64, IsFloat64}
use the_500mb_club_challenge.Model.Point.{PointJson, ◌>>=◌}
use the_500mb_club_challenge.Model.Scan.{
  skip_ws, scan_number_literal, consume, read_int, read_float, read_key, int_literal, float_literal,
}
use the_500mb_club_challenge.Model.Scan.Object.{
  Field, ts, lat, lon, battery, ax, ay, az, unknown, store_field, field_name, read_field, expect,
  read_member, skip_value,
}

-- Of a value that is there.
abbrev pub IsSome : {A : Type 0} → (A → Type 0) → Option A → Type 0
IsSome P none = Unit {0}
IsSome P (some a) = P a

pub record IsTypedJson (pj : PointJson) : Type 0 where
  pub ts : IsSome IsInt64 pj.ts
  pub lat : IsSome IsFloat64 pj.lat
  pub lon : IsSome IsFloat64 pj.lon
  pub battery : IsSome IsFloat64 pj.battery
  pub ax : IsSome IsFloat64 pj.ax
  pub ay : IsSome IsFloat64 pj.ay
  pub az : IsSome IsFloat64 pj.az

-- Of the value that is read, if one is.
abbrev pub IsRead : {A : Type 0} → (A → Type 0) → Option (A × Bytes) → Type 0
IsRead P none = Unit {0}
IsRead P (some (a, rest)) = P a

read_int-IsRead :
    (dst : Option ℤ) (s : Bytes) → IsSome IsInt64 dst → IsRead (IsSome IsInt64) (read_int dst s)
unfolding read_int int_literal
read_int-IsRead dst s h = elim (Option-cases (consume (codes "null") s)) [
  | inr (rest, e) ↦ rw (read_int, e) h
  | inl e ↦ elim (Option-cases (scan_number_literal s)) [
    | inl k ↦ rw (read_int, e, int_literal, k) tt
    | inr ((lit, rest), k) ↦ elim (Option-cases (parse_int lit)) [
      | inl q ↦ rw (read_int, e, int_literal, k, q) tt
      | inr (v, q) ↦ rw (read_int, e, int_literal, k, q) (parse_int-IsInt64 lit q)
    ]
  ]
]

read_float-IsRead :
    (dst : Option Float64) (s : Bytes)
    → IsSome IsFloat64 dst
    → IsRead (IsSome IsFloat64) (read_float dst s)
unfolding read_float float_literal
read_float-IsRead dst s h = elim (Option-cases (consume (codes "null") s)) [
  | inr (rest, e) ↦ rw (read_float, e) h
  | inl e ↦ elim (Option-cases (scan_number_literal s)) [
    | inl k ↦ rw (read_float, e, float_literal, k) tt
    | inr ((lit, rest), k) ↦ elim (Option-cases (parse_float lit)) [
      | inl q ↦ rw (read_float, e, float_literal, k, q) tt
      | inr (v, q) ↦ rw (read_float, e, float_literal, k, q) (parse_float-IsFloat64 lit q)
    ]
  ]
]

-- What is read is put into the object.
IsRead-bind :
    {A B : Type 0} (P : A → Type 0) (Q : B → Type 0) (f : A → B) (o : Option (A × Bytes))
    → IsRead P o
    → ((a : A) → P a → Q (f a))
    → IsRead Q (o >>= λ r. some (f r.0, r.1))
IsRead-bind P Q f none h k = tt
IsRead-bind P Q f (some (a, rest)) h k = k a h

store_field-IsRead :
    (f : Field) (s : Bytes) (pj : PointJson)
    → IsTypedJson pj
    → IsRead IsTypedJson (store_field f s pj)
unfolding store_field
store_field-IsRead ts s pj h =
    IsRead-bind (IsSome IsInt64) IsTypedJson (λ v. record pj { ts = v }) (read_int pj.ts s)
      (read_int-IsRead pj.ts s h.ts)
      λ v k. record {
        ts = k;
        lat = h.lat;
        lon = h.lon;
        battery = h.battery;
        ax = h.ax;
        ay = h.ay;
        az = h.az;
      }
store_field-IsRead unknown s pj h = elim (Option-cases (skip_value s)) [
  | inl e ↦ rw (store_field, e) tt
  | inr (rest, e) ↦ rw (store_field, e) h
]
store_field-IsRead lat s pj h =
    IsRead-bind (IsSome IsFloat64) IsTypedJson (λ v. record pj { lat = v }) (read_float pj.lat s)
      (read_float-IsRead pj.lat s h.lat)
      λ v k. record {
        ts = h.ts;
        lat = k;
        lon = h.lon;
        battery = h.battery;
        ax = h.ax;
        ay = h.ay;
        az = h.az;
      }
store_field-IsRead lon s pj h =
    IsRead-bind (IsSome IsFloat64) IsTypedJson (λ v. record pj { lon = v }) (read_float pj.lon s)
      (read_float-IsRead pj.lon s h.lon)
      λ v k. record {
        ts = h.ts;
        lat = h.lat;
        lon = k;
        battery = h.battery;
        ax = h.ax;
        ay = h.ay;
        az = h.az;
      }
store_field-IsRead battery s pj h =
    IsRead-bind (IsSome IsFloat64) IsTypedJson (λ v. record pj { battery = v })
      (read_float pj.battery s) (read_float-IsRead pj.battery s h.battery)
      λ v k. record {
        ts = h.ts;
        lat = h.lat;
        lon = h.lon;
        battery = k;
        ax = h.ax;
        ay = h.ay;
        az = h.az;
      }
store_field-IsRead ax s pj h =
    IsRead-bind (IsSome IsFloat64) IsTypedJson (λ v. record pj { ax = v }) (read_float pj.ax s)
      (read_float-IsRead pj.ax s h.ax)
      λ v k. record {
        ts = h.ts;
        lat = h.lat;
        lon = h.lon;
        battery = h.battery;
        ax = k;
        ay = h.ay;
        az = h.az;
      }
store_field-IsRead ay s pj h =
    IsRead-bind (IsSome IsFloat64) IsTypedJson (λ v. record pj { ay = v }) (read_float pj.ay s)
      (read_float-IsRead pj.ay s h.ay)
      λ v k. record {
        ts = h.ts;
        lat = h.lat;
        lon = h.lon;
        battery = h.battery;
        ax = h.ax;
        ay = k;
        az = h.az;
      }
store_field-IsRead az s pj h =
    IsRead-bind (IsSome IsFloat64) IsTypedJson (λ v. record pj { az = v }) (read_float pj.az s)
      (read_float-IsRead pj.az s h.az)
      λ v k. record {
        ts = h.ts;
        lat = h.lat;
        lon = h.lon;
        battery = h.battery;
        ax = h.ax;
        ay = h.ay;
        az = k;
      }

pub read_member-IsRead :
    (s : Bytes) (pj : PointJson) → IsTypedJson pj → IsRead IsTypedJson (read_member s pj)
unfolding read_member read_field
read_member-IsRead s pj h = elim (Option-cases (read_key (skip_ws s))) [
  | inl e ↦ rw (read_member, e) tt
  | inr ((key, s1), e) ↦ elim (Option-cases (expect b':' (skip_ws s1))) [
    | inl k ↦ rw (read_member, e, k) tt
    | inr (s2, k) ↦ rw (read_member, e, k) (store_field-IsRead (field_name key) (skip_ws s2) pj h)
  ]
]

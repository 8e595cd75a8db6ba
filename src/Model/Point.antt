-- ===== src/Model/Point.antt =====
-- internal/model/point.go: `Point`, `pointJSON` and `toPoint`.
use the_500mb_club_challenge.Prelude.{
  ◌≡◌, refl, Bool, true, false, not, ◌&&◌, ◌||◌, Option, none, some, if◌then◌else◌, arith,
}
use the_500mb_club_challenge.Prelude.Int.{ℤ, pos, leb_ℤ, IsInt64, ◌<ℤ◌}
use the_500mb_club_challenge.Golang.Float64.{
  Float64, IsFloat64, is_nan, is_inf, float_lt, f_0, f_1, f_90, f_neg_90, f_180, f_neg_180,
}

infixl 5 ◌>>=◌
abbrev pub ◌>>=◌ {ℓ κ} : {A : Type ℓ} {B : Type κ} → Option A → (A → Option B) → Option B
none >>= f = none
some a >>= f = f a

pub record Point : Type 0 where
  pub ts : ℤ
  pub lat : Float64
  pub lon : Float64
  pub battery : Float64
  pub has_battery : Bool
  pub ax : Float64
  pub ay : Float64
  pub az : Float64

-- The fields are values of their Go types.
pub record IsTyped (p : Point) : Type 0 where
  pub ts : IsInt64 p.ts
  pub lat : IsFloat64 p.lat
  pub lon : IsFloat64 p.lon
  pub battery : IsFloat64 p.battery
  pub ax : IsFloat64 p.ax
  pub ay : IsFloat64 p.ay
  pub az : IsFloat64 p.az

-- A nil pointer is `none`.
pub record PointJson : Type 0 where
  pub ts : Option ℤ
  pub lat : Option Float64
  pub lon : Option Float64
  pub battery : Option Float64
  pub ax : Option Float64
  pub ay : Option Float64
  pub az : Option Float64

unfoldable pub finite : Float64 → Bool
finite v = not (is_nan v) && not (is_inf v)

-- The optional battery, at a point that has passed the other checks.
set_battery : Point → Option Float64 → Option Point
set_battery p none = some p
set_battery p (some b) =
    if float_lt b f_0 || float_lt f_1 b
    then none
    else some (record p { battery = b; has_battery = true })

check : ℤ → Float64 → Float64 → Float64 → Float64 → Float64 → Option Float64 → Option Point
unfolding set_battery
check ts lat lon ax ay az battery =
    if leb_ℤ ts (pos 0)
    then none
    else if float_lt lat f_neg_90 || float_lt f_90 lat
    then none
    else if float_lt lon f_neg_180 || float_lt f_180 lon
    then none
    else if not (finite ax) || not (finite ay) || not (finite az)
    then none
    else set_battery
        (record {
          ts = ts;
          lat = lat;
          lon = lon;
          battery = f_0;
          has_battery = false;
          ax = ax;
          ay = ay;
          az = az;
        })
        battery

-- `none` is `ErrInvalidPoint`, here and below.
unfoldable pub to_point : PointJson → Option Point
unfolding check
to_point pj = do
  ts ← pj.ts
  lat ← pj.lat
  lon ← pj.lon
  ax ← pj.ax
  ay ← pj.ay
  az ← pj.az
  check ts lat lon ax ay az pj.battery

-- The contract of a valid point.
pub record IsValid (p : Point) : Type 0 where
  pub ts : pos 0 <ℤ p.ts
  pub lat : (float_lt p.lat f_neg_90 ≡ false) × (float_lt f_90 p.lat ≡ false)
  pub lon : (float_lt p.lon f_neg_180 ≡ false) × (float_lt f_180 p.lon ≡ false)
  pub ax : finite p.ax ≡ true
  pub ay : finite p.ay ≡ true
  pub az : finite p.az ≡ true
  pub battery : (float_lt p.battery f_0 ≡ false) × (float_lt f_1 p.battery ≡ false)
  pub absent : p.has_battery ≡ false → p.battery ≡ f_0

-- The JSON fields of a point.
unfoldable pub fields : Point → PointJson
fields p = record {
  ts = some p.ts;
  lat = some p.lat;
  lon = some p.lon;
  battery = if p.has_battery then some p.battery else none;
  ax = some p.ax;
  ay = some p.ay;
  az = some p.az;
}

set_battery_valid :
    (p : Point)
    → IsValid p
    → set_battery
        (record p { battery = f_0; has_battery = false })
        (if p.has_battery then some p.battery else none)
      ≡ some p
unfolding set_battery
set_battery_valid p v = ground arith

-- toPoint accepts the fields of every valid point and returns that point.
pub to_point-fields : (p : Point) → IsValid p → to_point (fields p) ≡ some p
unfolding to_point fields
to_point-fields p v = ground (arith, set_battery_valid p v)

zero_in_range : (float_lt f_0 f_0 ≡ false) × (float_lt f_1 f_0 ≡ false)
unfolding float_lt
zero_in_range = (refl, refl)

check_sound :
    (ts : ℤ) (lat lon ax ay az : Float64) (battery : Option Float64) {p : Point}
    → check ts lat lon ax ay az battery ≡ some p
    → IsValid p
      × (fields p ≡ record {
        ts = some ts;
        lat = some lat;
        lon = some lon;
        battery = battery;
        ax = some ax;
        ay = some ay;
        az = some az;
      })
unfolding check fields
check_sound ts lat lon ax ay az none h = ground (arith, zero_in_range)
check_sound ts lat lon ax ay az (some b) h = ground arith

parts_sound :
    (ts : Option ℤ) (lat lon ax ay az battery : Option Float64) {p : Point}
    → to_point
        (record { ts = ts; lat = lat; lon = lon; battery = battery; ax = ax; ay = ay; az = az })
      ≡ some p
    → IsValid p
      × (fields p
          ≡ record { ts = ts; lat = lat; lon = lon; battery = battery; ax = ax; ay = ay; az = az })
unfolding to_point
parts_sound none lat lon ax ay az battery h = cc
parts_sound (some ts) none lon ax ay az battery h = cc
parts_sound (some ts) (some lat) none ax ay az battery h = cc
parts_sound (some ts) (some lat) (some lon) none ay az battery h = cc
parts_sound (some ts) (some lat) (some lon) (some ax) none az battery h = cc
parts_sound (some ts) (some lat) (some lon) (some ax) (some ay) none battery h = cc
parts_sound (some ts) (some lat) (some lon) (some ax) (some ay) (some az) battery h =
    check_sound ts lat lon ax ay az battery h

-- When toPoint accepts decoded fields, the point it returns is valid (its timestamp positive, its
-- coordinates and battery in range, its accelerations finite), and the fields are exactly the
-- fields of that point.
pub to_point_sound :
    (pj : PointJson) {p : Point} → to_point pj ≡ some p → IsValid p × (fields p ≡ pj)
to_point_sound pj h = parts_sound pj.ts pj.lat pj.lon pj.ax pj.ay pj.az pj.battery h

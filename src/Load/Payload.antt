-- ===== src/Load/Payload.antt =====
-- stress/load/payload.go: random points as JSON. The random numbers and the clock are arguments;
-- `format_six f` is `strconv.AppendFloat(nil, f, 'f', 6, 64)`.
pub mod Accepted
use the_500mb_club_challenge.Prelude.{
  none, some, ltb, ◌+◌, Option, ℕ, zero, suc, [], ◌++◌, if◌then◌else◌, ◌==◌, Bytes, codes,
}
use the_500mb_club_challenge.Prelude.Int.{ℤ, pos}
use the_500mb_club_challenge.Golang.Strconv.{format_int}
use the_500mb_club_challenge.Golang.Float64.{Float64}
use the_500mb_club_challenge.Golang.Arith.{float_add, float_sub, float_mul, float_of_nat}

-- `rand.Rand`, with its state passed on.
pub record Rand (R : Type 0) : Type 0 where
  pub intn : ℕ → R → ℕ × R
  pub int63n : ℕ → R → ℕ × R
  pub float64 : R → Float64 × R
  pub norm_float64 : R → Float64 × R

-- 9.81
abbrev f_9_81 : Float64
f_9_81 = 0x40239EB851EB851F

unfoldable pub append_field : (Float64 → Bytes) → Bytes → Bytes → Float64 → Bytes
append_field format_six b name v = b ++ (codes ",\"" ++ (name ++ (codes "\":" ++ format_six v)))

-- The values of a point, drawn in this order.
pub record Draw : Type 0 where
  pub ts : ℤ
  pub lat : Float64
  pub lon : Float64
  pub ax : Float64
  pub ay : Float64
  pub az : Float64
  pub battery : Option Float64

-- The point that they spell.
unfoldable pub append_draw : (Float64 → Bytes) → Bytes → Draw → Bytes
unfolding append_field
append_draw format_six b p =
    let ts = b ++ (codes "{\"ts\":" ++ format_int p.ts) in
    let lat = append_field format_six ts (codes "lat") p.lat in
    let lon = append_field format_six lat (codes "lon") p.lon in
    let ax = append_field format_six lon (codes "ax") p.ax in
    let ay = append_field format_six ax (codes "ay") p.ay in
    let az = append_field format_six ay (codes "az") p.az in
    let battery : Bytes = elim p.battery [
      | none ↦ az
      | some v ↦ append_field format_six az (codes "battery") v
    ] in
    battery ++ codes "}"

module _ {R : Type 0} (rng : Rand R) (format_six : Float64 → Bytes) (now : ℕ) where
  -- Battery is there about half the time.
  unfoldable pub draw_battery : R → Option Float64 × R
  draw_battery r =
      let (coin, r') = rng.intn 2 r in
      let (v, r'') = rng.float64 r' in if coin == 0 then (some v, r'') else (none, r')

  unfoldable pub draw : R → Draw × R
  unfolding draw_battery
  draw r0 =
      let (jitter, r1) = rng.int63n 1000 r0 in
      let (u, r2) = rng.float64 r1 in
      let (v, r3) = rng.float64 r2 in
      let (x, r4) = rng.norm_float64 r3 in
      let (y, r5) = rng.norm_float64 r4 in
      let (z, r6) = rng.norm_float64 r5 in
      let (battery, r7) = draw_battery r6 in
      (
        record {
          ts = pos (now + jitter);
          lat = float_sub (float_mul u (float_of_nat 180)) (float_of_nat 90);
          lon = float_sub (float_mul v (float_of_nat 360)) (float_of_nat 180);
          ax = x;
          ay = y;
          az = float_add f_9_81 z;
          battery = battery;
        },
        r7,
      )

  -- `appendPoint`
  unfoldable pub append_point : Bytes → R → Bytes × R
  unfolding draw append_draw
  append_point b r = let (p, r') = draw r in (append_draw format_six b p, r')

  unfoldable pub random_point : R → Bytes × R
  unfolding append_point
  random_point r = append_point [] r

  -- The loop from index `i` on, with the turns that are left.
  unfoldable pub append_points : ℕ → ℕ → Bytes → R → Bytes × R
  unfolding append_point
  append_points zero i b r = (b, r)
  append_points (suc n) i b r =
      let (b', r') = append_point (if ltb 0 i then b ++ codes "," else b) r in
      append_points n (i + 1) b' r'

  unfoldable pub random_batch : ℕ → R → Bytes × R
  unfolding append_points
  random_batch n r =
      let (b, r') = append_points n 0 (codes "{\"points\":[") r in (b ++ codes "]}", r')

-- ===== src/Anomaly.antt =====
-- internal/anomaly/anomaly.go: the z-score of the newest acceleration against the points before it.
pub mod Laws
use the_500mb_club_challenge.Prelude.{
  [], ◌∷◌, some, take, none, not, length, ◌+◌, Bool, if◌then◌else◌, ◌∷◌, ℕ, List, Option, ltb,
}
use the_500mb_club_challenge.Golang.Float64.{abs_float, Float64, float_lt, f_0, f_3}
use the_500mb_club_challenge.Golang.Arith.{
  float_add, float_sub, float_mul, float_div, float_sqrt, float_of_nat, float_eq,
}
use the_500mb_club_challenge.Model.Point.{Point}

abbrev pub window : ℕ
window = 256

abbrev pub min_samples : ℕ
min_samples = 8

-- `Result`
pub record Score : Type 0 where
  pub z_score : Float64
  pub mean : Float64
  pub stddev : Float64
  pub samples : ℕ
  pub anomalous : Bool

unfoldable pub magnitude : Point → Float64
magnitude p =
    float_sqrt
      (float_add (float_add (float_mul p.ax p.ax) (float_mul p.ay p.ay)) (float_mul p.az p.az))

-- The mean and the sum of squared deviations after a magnitude, the `i`th from 0.
unfoldable pub welford : ℕ → Float64 → Float64 × Float64 → Float64 × Float64
welford i mag (mean, m2) =
    let delta = float_sub mag mean in
    let mean' = float_add mean (float_div delta (float_of_nat (i + 1))) in
    (mean', float_add m2 (float_mul delta (float_sub mag mean')))

-- The loop over the points from index `i` on.
unfoldable pub accumulate : ℕ → List Point → Float64 × Float64 → Float64 × Float64
unfolding welford magnitude
accumulate i [] acc = acc
accumulate i (p ∷ ps) acc = accumulate (i + 1) ps (welford i (magnitude p) acc)

-- `stddev != 0` holds of NaN.
unfoldable pub z_of : Float64 → Float64 → Float64 → Float64
z_of newest mean stddev =
    if not (float_eq stddev f_0) then float_div (float_sub newest mean) stddev else f_0

-- What is returned for points of which there are enough and not too many.
unfoldable pub score : List Point → Float64 → Float64 × Float64 → Score
unfolding z_of abs_float
score points newest (mean, m2) =
    let stddev = float_sqrt (float_div m2 (float_of_nat (length points))) in
    let z = z_of newest mean stddev in
    record {
      z_score = z;
      mean = mean;
      stddev = stddev;
      samples = length points;
      anomalous = float_lt f_3 (abs_float z);
    }

-- The magnitude at index 0.
unfoldable pub newest_magnitude : List Point → Float64
unfolding magnitude
newest_magnitude [] = f_0
newest_magnitude (p ∷ ps) = magnitude p

-- `points[:window]`, if there are more.
unfoldable pub newest_window : List Point → List Point
newest_window points = if ltb window (length points) then take window points else points

unfoldable pub score_of : List Point → Score
unfolding score accumulate newest_magnitude
score_of points = score points (newest_magnitude points) (accumulate 0 points (f_0, f_0))

-- `none` is `ErrInsufficient`.
unfoldable pub compute : List Point → Option Score
unfolding score_of newest_window
compute points =
    if ltb (length points) min_samples then none else some (score_of (newest_window points))

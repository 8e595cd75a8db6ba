-- ===== src/Load/Mix/Bands.antt =====
-- On stress/load/mix.go: the bands of the default mix.
use the_500mb_club_challenge.Prelude.{
  arith, ◌≡◌, refl, none, some, [], ◌∷◌, codes, if◌then◌else◌, Bool-cases,
}
use the_500mb_club_challenge.Golang.Float64.{Float64, float_lt, f_1}
use the_500mb_club_challenge.Golang.Arith.{float_div, float_of_nat}
use the_500mb_club_challenge.Load.Mix.{default_mix, pick, pick_from}

abbrev pub f_0_6 : Float64
f_0_6 = 0x3FE3333333333333

abbrev pub f_0_7 : Float64
f_0_7 = 0x3FE6666666666666

abbrev pub f_0_9 : Float64
f_0_9 = 0x3FECCCCCCCCCCCCD

default_bands :
    default_mix.bands
    ≡ (codes "post", f_0_6)
      ∷ (codes "batch", f_0_7)
      ∷ (codes "range", f_0_9)
      ∷ (codes "anomaly", f_1)
      ∷ []
unfolding default_mix float_div float_of_nat
default_bands = refl

bands_lem :
    (r : Float64)
    → pick_from none
        ((codes "post", f_0_6)
          ∷ (codes "batch", f_0_7)
          ∷ (codes "range", f_0_9)
          ∷ (codes "anomaly", f_1)
          ∷ [])
        r
      ≡ some (
          if float_lt r f_0_6
          then codes "post"
          else if float_lt r f_0_7
          then codes "batch"
          else if float_lt r f_0_9
          then codes "range"
          else codes "anomaly")
unfolding pick_from
bands_lem r = ground (
  arith,
  Bool-cases (float_lt r f_0_6),
  Bool-cases (float_lt r f_0_7),
  Bool-cases (float_lt r f_0_9),
  Bool-cases (float_lt r f_1),
)

-- In the default mix the cumulative bounds round to the doubles nearest 0.6, 0.7, 0.9 and 1: every
-- draw below the first picks post, below the second batch, below the third range, and every other
-- anomaly.
pub pick-default_mix :
    (r : Float64)
    → pick default_mix r
      ≡ some (
          if float_lt r f_0_6
          then codes "post"
          else if float_lt r f_0_7
          then codes "batch"
          else if float_lt r f_0_9
          then codes "range"
          else codes "anomaly")
unfolding pick
pick-default_mix r = rw (pick, default_bands) (bands_lem r)

-- ===== src/Load/Mix.antt =====
-- stress/load/mix.go: the weighted mix of operations. A weight is an int that is not negative.
pub mod Bands
use the_500mb_club_challenge.Prelude.{
  map, ℕ, ◌+◌, Option, none, some, List, [], ◌∷◌, if◌then◌else◌, Bytes, codes,
}
use the_500mb_club_challenge.Golang.Float64.{Float64, float_lt}
use the_500mb_club_challenge.Golang.Arith.{float_div, float_of_nat}

pub record WeightedOp : Type 0 where
  pub name : Bytes
  pub weight : ℕ

-- Each name with its bound: `names` and `cum` side by side.
pub record Mix : Type 0 where
  pub bands : List (Bytes × Float64)

unfoldable pub total_weight : List WeightedOp → ℕ
total_weight [] = 0
total_weight (o ∷ ops) = o.weight + total_weight ops

unfoldable pub cumulate : ℕ → ℕ → List WeightedOp → List (Bytes × Float64)
cumulate total run [] = []
cumulate total run (o ∷ ops) =
    (o.name, float_div (float_of_nat (run + o.weight)) (float_of_nat total))
    ∷ cumulate total (run + o.weight) ops

unfoldable pub new_mix : List WeightedOp → Mix
unfolding total_weight cumulate
new_mix ops = record { bands = cumulate (total_weight ops) 0 ops }

unfoldable pub default_mix : Mix
unfolding new_mix
default_mix = new_mix (
    record { name = codes "post"; weight = 60 }
    ∷ record { name = codes "batch"; weight = 10 }
    ∷ record { name = codes "range"; weight = 20 }
    ∷ record { name = codes "anomaly"; weight = 10 }
    ∷ [])

unfoldable pub names : Mix → List Bytes
names m = map (λ b. b.0) m.bands

-- The loop; `last` is the name before, which is `m.names[len(m.names)-1]` at the end. `none` is the
-- panic of an empty mix.
unfoldable pub pick_from : Option Bytes → List (Bytes × Float64) → Float64 → Option Bytes
pick_from last [] r = last
pick_from last ((name, c) ∷ bands) r =
    let rest = pick_from (some name) bands r in if float_lt r c then some name else rest

unfoldable pub pick : Mix → Float64 → Option Bytes
unfolding pick_from
pick m r = pick_from none m.bands r

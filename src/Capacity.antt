-- ===== src/Capacity.antt =====
-- stress/cmd/capacity/main.go: the sweep over arrival rates, and the schedules of the other commands
-- under stress/cmd. `run` is `load.Run`, which takes time and talks to a service.
pub mod Knee
use mathlib.Core.List.{reverse}
use the_500mb_club_challenge.Prelude.{
  leb, ◌||◌, ℕ, ◌+◌, Bool, ◌&&◌, Option, none, some, List, [], ◌∷◌, ◌++◌, ◌==◌, if◌then◌else◌,
  Bytes, codes,
}
use the_500mb_club_challenge.Prelude.Int.{ℤ, pos, negsuc, ltb_ℤ}
use the_500mb_club_challenge.Golang.Strconv.{parse_int}
use the_500mb_club_challenge.Golang.Float64.{Float64, float_lt}
use the_500mb_club_challenge.Load.Stats.{Stats, op_result, error_percent}
use the_500mb_club_challenge.Load.Mix.{default_mix, names}
use the_500mb_club_challenge.Load.Driver.{Config, Segment}

-- `strings.Split(s, ",")`
unfoldable pub split_comma : Bytes → List Bytes
split_comma [] = [] ∷ []
split_comma (c ∷ s) =
    let parts = split_comma s in
    if c == b','
    then [] ∷ parts
    else elim parts [ [] ↦ (c ∷ []) ∷ [] | part ∷ rest ↦ (c ∷ part) ∷ rest ]

-- `strings.TrimSpace` of ASCII text.
abbrev is_space : ℕ → Bool
is_space c = c == b' ' || (leb 9 c && leb c 13)

unfoldable pub trim_left : Bytes → Bytes
trim_left [] = []
trim_left (c ∷ s) = let rest = trim_left s in if is_space c then rest else c ∷ s

unfoldable pub trim_space : Bytes → Bytes
unfolding trim_left
trim_space s = reverse (trim_left (reverse (trim_left s)))

-- A part that is no number above 0 is left out.
unfoldable pub keep_rate : Option ℤ → List ℕ → List ℕ
keep_rate none out = out
keep_rate (some (pos n)) out = if n == 0 then out else n ∷ out
keep_rate (some (negsuc n)) out = out

unfoldable pub parse_parts : List Bytes → List ℕ
unfolding keep_rate
parse_parts [] = []
parse_parts (part ∷ parts) = keep_rate (parse_int (trim_space part)) (parse_parts parts)

unfoldable pub parse_rates : Bytes → List ℕ
unfolding split_comma trim_space parse_parts
parse_rates s = parse_parts (split_comma s)

-- What `load.Run` returns of a step.
pub record Outcome : Type 0 where
  pub stats : Stats
  pub dropped : ℕ

-- The totals of a step over its operations.
pub record Totals : Type 0 where
  pub total : ℕ
  pub fails : ℕ
  pub worst : ℤ

unfoldable pub add_op : Stats → Bytes → Totals → Totals
unfolding op_result
add_op s op t =
    let r = op_result op s in
    record {
      total = t.total + r.count;
      fails = t.fails + r.fails;
      worst = if ltb_ℤ t.worst r.p99 then r.p99 else t.worst;
    }

unfoldable pub totals_from : Stats → List Bytes → Totals → Totals
unfolding add_op
totals_from s [] t = t
totals_from s (op ∷ ops) t = totals_from s ops (add_op s op t)

unfoldable pub totals : Stats → Totals
unfolding totals_from
totals s = totals_from s (names default_mix) (record { total = 0; fails = 0; worst = pos 0 })

-- 0.5
abbrev f_half : Float64
f_half = 0x3FE0000000000000

-- Fewer errors than 0.5%, and nothing dropped.
unfoldable pub passes : Outcome → Bool
unfolding totals
passes o =
    let t = totals o.stats in float_lt (error_percent t.fails t.total) f_half && (o.dropped == 0)

-- The steps of the sweep in order: what each rate comes to.
unfoldable pub sweep : {W : Type 0} → (W → ℕ → Outcome × W) → List ℕ → W → List (ℕ × Outcome)
sweep run [] w = []
sweep run (rate ∷ rates) w = let (o, w') = run w rate in (rate, o) ∷ sweep run rates w'

-- The loop over the steps, with the knee so far.
unfoldable pub knee_from : ℕ → List (ℕ × Outcome) → ℕ
unfolding passes
knee_from knee [] = knee
knee_from knee ((rate, o) ∷ steps) = knee_from (if passes o then rate else knee) steps

unfoldable pub knee : {W : Type 0} → (W → ℕ → Outcome × W) → Bytes → W → ℕ
unfolding sweep knee_from
knee run rates w = knee_from 0 (sweep run (parse_rates rates) w)

-- One rate for one duration: a step of the sweep, and the whole of steady and endurance.
unfoldable pub constant_rate : ℤ → ℤ → List Segment
constant_rate rate dur = record { rate = rate; dur = dur } ∷ []

-- stress/cmd/spike/main.go
unfoldable pub spike_segments : ℤ → ℤ → ℤ → List Segment
spike_segments base spike seg =
    record { rate = base; dur = seg }
    ∷ record { rate = spike; dur = seg }
    ∷ record { rate = base; dur = seg }
    ∷ []

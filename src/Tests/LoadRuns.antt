-- ===== src/Tests/LoadRuns.antt =====
-- Runs of the load harness and of the start-up.
use mathlib.Core.List.Perm
use the_500mb_club_challenge.Prelude.{
  ℕ, ◌+◌, ◌≡◌, refl, true, false, some, [], ◌∷◌, Bytes, codes, ltb, if◌then◌else◌, arith, ◌%◌, ◌^◌,
}
use the_500mb_club_challenge.Prelude.Int.{pos}
use the_500mb_club_challenge.Golang.Float64.{Float64, float_lt}
use the_500mb_club_challenge.Golang.Arith.{float_mul, float_div, float_of_nat}
use the_500mb_club_challenge.Load.Stats.{
  OpSamples, new_stats, summarize, op_result, rank_of, f_99_9,
}
use the_500mb_club_challenge.Load.Stats.Rank.{IsSummary, summarize-IsSummary}
use the_500mb_club_challenge.Load.Stats.Merge.{Sample, record_all, op_result-Perm}
use the_500mb_club_challenge.Load.Mix.{default_mix, pick}
use the_500mb_club_challenge.Load.Driver.Pacer.{
  Load, emit, idle_load, Reach, ticked, received, here, next,
}
use the_500mb_club_challenge.Load.Driver.Pacer.Counted.{IsCounted, samples, run-counts}
use the_500mb_club_challenge.Golang.Strconv.{parse_int, parse_uint}
use the_500mb_club_challenge.Load.Stats.{error_percent}
use the_500mb_club_challenge.Load.Mix.{names}
use the_500mb_club_challenge.Capacity.{Outcome, parse_rates, sweep, knee}
use the_500mb_club_challenge.Capacity.Knee.{IsAscending, IsKnee, knee-IsKnee}
use the_500mb_club_challenge.Api.{warm_pool}
use the_500mb_club_challenge.Api.WarmUp.{IsWarmed, warm_pool-IsWarmed}
use the_500mb_club_challenge.Store.Redis.{new_redis}
use the_500mb_club_challenge.Tests.RedisRuns.{constant}

-- Three samples, of which one failed.
abbrev few : OpSamples
few = record { durs = pos 3 ∷ pos 1 ∷ pos 2 ∷ []; fails = 1 }

summarize-IsSummary_example : IsSummary few.durs few.fails (summarize (some few))
summarize-IsSummary_example = summarize-IsSummary few (omega arith)

-- The double of 99.9 over 100, times 1000, is more than 999.
last_of_thousand : rank_of f_99_9 1000 ≡ 1000
unfolding rank_of float_mul float_div float_of_nat
last_of_thousand = refl

abbrev quick : Bytes × Sample
quick = (codes "post", (pos 5, true))

abbrev failed : Bytes × Sample
failed = (codes "post", (pos 9, false))

op_result-Perm_example :
    op_result (codes "post") (record_all (quick ∷ failed ∷ []) new_stats)
    ≡ op_result (codes "post") (record_all (failed ∷ quick ∷ []) new_stats)
op_result-Perm_example = op_result-Perm (codes "post") new_stats (Perm.swap failed quick [])

-- 0.65
abbrev f_0_65 : Float64
f_0_65 = 0x3FE4CCCCCCCCCCCD

picks_batch : pick default_mix f_0_65 ≡ some (codes "batch")
unfolding pick default_mix float_div float_of_nat float_lt
picks_batch = refl

abbrev post : Bytes
post = codes "post"

-- With one worker: the first tick is sent and received, the second waits, and the third is dropped.
abbrev full_load : Load
full_load = emit 1 post (
    emit 1 post (record { jobs = []; busy = post ∷ []; stats = new_stats; dropped = 0; ticks = 1 }))

full-Reach : Reach 1 idle_load full_load
unfolding emit
full-Reach =
    next
      (next (next (next here (ticked post)) (received post [] refl (omega arith) refl))
        (ticked post))
      (ticked post)

run-counts_example :
    IsCounted 1 full_load
    × (full_load.jobs ≡ []
        → full_load.busy ≡ []
        → (full_load.dropped + samples full_load.stats.ops) % 2 ^ 64 ≡ full_load.ticks % 2 ^ 64)
run-counts_example = run-counts 1 full-Reach

-- Every step up to 500 requests a second keeps up.
abbrev up_to_500 : ℕ → ℕ → Outcome × ℕ
up_to_500 w rate = (record { stats = new_stats; dropped = if ltb 500 rate then 1 else 0 }, w + 1)

abbrev some_rates : Bytes
some_rates = codes "200, 400,x,600"

parsed : parse_rates some_rates ≡ 200 ∷ 400 ∷ 600 ∷ []
unfolding parse_rates parse_int parse_uint
parsed = refl

rates-IsAscending : IsAscending 0 (parse_rates some_rates)
rates-IsAscending = rw parsed (omega arith, (omega arith, (omega arith, tt)))

knee_of_rates : knee up_to_500 some_rates 0 ≡ 400
unfolding knee parse_rates parse_int parse_uint float_lt error_percent names default_mix
knee_of_rates = refl

knee-IsKnee_example :
    IsKnee 0 (sweep up_to_500 (parse_rates some_rates) 0) (knee up_to_500 some_rates 0)
knee-IsKnee_example = knee-IsKnee up_to_500 some_rates 0 rates-IsAscending

warm_pool-IsWarmed_example :
    IsWarmed
      (new_redis 2 100)
      (warm_pool (constant (codes "+PONG\r\n")) (λ w. w) (λ w. w + 1) (new_redis 2 100) 0)
unfolding new_redis
warm_pool-IsWarmed_example =
    warm_pool-IsWarmed (constant (codes "+PONG\r\n")) (λ w. w) (λ w. w + 1) (new_redis 2 100) 0
      (omega arith)

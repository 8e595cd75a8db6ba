-- ===== src/Tests/MetricsRuns.antt =====
-- Runs of the metrics.
use the_500mb_club_challenge.Golang.Arith.{inf_bits, float_of_nat, float_div, float_mul, float_add}
use the_500mb_club_challenge.Golang.Float64.{sign_bit, is_inf, float_lt, f_3, f_1, f_0}
use the_500mb_club_challenge.Metrics.Sample.{
  Histogram, Samples, Value, bad, uint64, histogram, HasKinds, gc_cycles_name, gc_pauses_name,
  sched_latency_name, heap_objects_name, heap_goal_name, goroutines_name,
}
use the_500mb_club_challenge.Metrics.Runtime.{
  runtime_collector_total, samples_in, runtime_lines, runtime_collector, Stats, hist_stats,
}
use the_500mb_club_challenge.Metrics.Commute.{render_vec-counted_comm}
use the_500mb_club_challenge.Golang.Strconv.{format_int}
use the_500mb_club_challenge.Golang.Binary.{bytes_lt}
use the_500mb_club_challenge.Metrics.Series.{counted}
use the_500mb_club_challenge.Metrics.Order.{render_vec-Perm}
use mathlib.Core.List.Perm
use the_500mb_club_challenge.Prelude.{
  if◌then◌else◌, ◌^◌, ◌%◌, none, inr, bytes_eq_sound, inl, bytes_eq, Bool-cases, ◌∷◌, some, [],
  Bytes, codes, ◌≡◌, refl,
}
use the_500mb_club_challenge.Metrics.{CounterVec, Series, find, render_vec}

abbrev requests : CounterVec
requests = record {
  name = codes "requests_total";
  help = codes "Requests";
  label = codes "code";
  series = (codes "503", 1) ∷ (codes "200", 7) ∷ [];
}

abbrev turned : Series
turned = (codes "200", 7) ∷ (codes "503", 1) ∷ []

page :
    render_vec requests
    ≡ codes
        "# HELP requests_total Requests\n# TYPE requests_total counter\nrequests_total{code=\"200\"} 7\nrequests_total{code=\"503\"} 1\n"
unfolding render_vec bytes_lt find format_int
page = refl

same_cells : (k : Bytes) → find k requests.series ≡ find k turned
unfolding find
same_cells k = elim (Bool-cases (bytes_eq k (codes "503"))) [
  | inl e ↦ rw (bytes_eq_sound k (codes "503") e) refl
  | inr e ↦ rw e refl
]

render_vec-Perm_example : render_vec requests ≡ render_vec (record requests { series = turned })
render_vec-Perm_example =
    render_vec-Perm requests turned (Perm.swap (codes "200") (codes "503") []) same_cells

render_vec-counted_comm_example :
    render_vec (record requests {
      series = counted (codes "404") 1 (counted (codes "202") 2 requests.series);
    })
    ≡ render_vec (record requests {
      series = counted (codes "202") 2 (counted (codes "404") 1 requests.series);
    })
render_vec-counted_comm_example = render_vec-counted_comm requests (codes "404") (codes "202") 1 2

-- Three short pauses, and one without a bound.
abbrev pauses : Histogram
pauses = record { counts = 3 ∷ 0 ∷ 1 ∷ []; buckets = f_0 ∷ f_1 ∷ f_3 ∷ inf_bits ∷ [] }

abbrev sampled : Samples
sampled = record {
  gc_cycles = 4;
  gc_pauses = some pauses;
  sched_latency = none;
  heap_objects = 100;
  heap_goal = 200;
  goroutines = 7;
  gomaxprocs = 1;
}

-- (3 * 1 + 1 * 6) / 2, and the last finite bound.
reduced :
    hist_stats (some pauses) ≡ some (record { sum = 0x4012000000000000; max = f_3; count = 4 })
unfolding hist_stats float_add float_mul float_div float_of_nat float_lt is_inf sign_bit
reduced = refl

-- What `rmetrics.Read` puts into a sample.
abbrev given : Bytes → Value
given name =
    if bytes_eq name gc_cycles_name
    then uint64 4
    else if bytes_eq name gc_pauses_name
    then histogram (some pauses)
    else if bytes_eq name sched_latency_name
    then histogram none
    else if bytes_eq name heap_objects_name
    then uint64 100
    else if bytes_eq name heap_goal_name
    then uint64 200
    else if bytes_eq name goroutines_name
    then uint64 7
    else bad

given-HasKinds : HasKinds given sampled
given-HasKinds = record {
  gc_cycles = refl;
  gc_pauses = refl;
  sched_latency = refl;
  heap_objects = refl;
  heap_goal = refl;
  goroutines = refl;
}

runtime_collector_total_example :
    (pause sched : Stats) × (runtime_collector (λ f format. codes "0") given 1
      ≡ some (runtime_lines (λ f format. codes "0") sampled pause sched))
    × (hist_stats sampled.gc_pauses ≡ some pause)
    × (hist_stats sampled.sched_latency ≡ some sched)
    × (pause.count % 2 ^ 64 ≡ samples_in sampled.gc_pauses % 2 ^ 64)
    × (sched.count % 2 ^ 64 ≡ samples_in sampled.sched_latency % 2 ^ 64)
runtime_collector_total_example =
    runtime_collector_total (λ f format. codes "0") given sampled given-HasKinds refl tt

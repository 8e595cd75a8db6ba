-- ===== src/Metrics/Runtime.antt =====
-- internal/metrics/runtime.go: the gauges of the Go runtime. What runtime/metrics reads is an
-- argument, and so is `format_float f format`, which is `strconv.FormatFloat(f, format, -1, 64)`.
use the_500mb_club_challenge.Metrics.Sample.{
  read_samples_lem, HasKinds, Histogram, Samples, Value, read_samples,
}
use the_500mb_club_challenge.Prelude.{
  ◌∙◌, inr, ==_iff, inl, Bool-cases, arith, ◌^◌, not, ◌==◌, ◌%◌, ◌&&◌, length, ◌+◌, ◌++◌,
  if◌then◌else◌, ℕ, List, [], ◌∷◌, Option, some, none, Bytes, codes, ◌≡◌, refl,
}
use the_500mb_club_challenge.Golang.Strconv.{format_uint}
use the_500mb_club_challenge.Golang.Float64.{Float64, is_inf, sign_bit, float_lt, f_0}
use the_500mb_club_challenge.Golang.Arith.{float_add, float_mul, float_div, float_of_nat}

pub record Stats : Type 0 where
  pub sum : Float64
  pub max : Float64
  pub count : ℕ

abbrev f_2 : Float64
f_2 = 0x4000000000000000

-- A bucket that is not empty; infinite bounds become their neighbours.
unfoldable pub add_bucket : ℕ → Float64 → Float64 → Stats → Stats
add_bucket c lo hi s =
    let lo' = if is_inf lo && sign_bit lo then hi else lo in
    let hi' = if is_inf hi && not (sign_bit hi) then lo' else hi in
    record {
      sum = float_add s.sum (float_div (float_mul (float_of_nat c) (float_add lo' hi')) f_2);
      max = if float_lt s.max hi' then hi' else s.max;
      count = (s.count + c) % 2 ^ 64;
    }

-- The loop over the buckets that are left; `none` is the panic of an index out of range.
unfoldable pub stats_loop : List ℕ → List Float64 → Stats → Option Stats
unfolding add_bucket
stats_loop [] bs s = some s
stats_loop (c ∷ cs) [] s = if c == 0 then stats_loop cs [] s else none
stats_loop (c ∷ cs) (lo ∷ []) s = if c == 0 then stats_loop cs [] s else none
stats_loop (c ∷ cs) (lo ∷ hi ∷ bs) s =
    stats_loop cs (hi ∷ bs) (if c == 0 then s else add_bucket c lo hi s)

unfoldable pub hist_stats : Option Histogram → Option Stats
unfolding stats_loop
hist_stats none = some (record { sum = f_0; max = f_0; count = 0 })
hist_stats (some h) = stats_loop h.counts h.buckets (record { sum = f_0; max = f_0; count = 0 })

write_help : Bytes → Bytes → Bytes → Bytes
write_help name help typ =
    codes "# HELP "
    ++ (name
        ++ (codes " "
            ++ (help
                ++ (codes "\n"
                    ++ (codes "# TYPE " ++ (name ++ (codes " " ++ (typ ++ codes "\n"))))))))

line : Bytes → Bytes → Bytes
line name value = name ++ (codes " " ++ (value ++ codes "\n"))

unfoldable pub gauge : Bytes → Bytes → Bytes → Bytes
unfolding write_help line
gauge name help value = write_help name help (codes "gauge") ++ line name value

-- The lines, once the two histograms are reduced.
unfoldable pub runtime_lines : (Float64 → ℕ → Bytes) → Samples → Stats → Stats → Bytes
unfolding gauge write_help line
runtime_lines format_float v pause sched =
    gauge (codes "pibench_go_goroutines") (codes "Current goroutine count")
      (format_uint v.goroutines)
    ++ gauge (codes "pibench_go_gomaxprocs") (codes "GOMAXPROCS setting") (format_uint v.gomaxprocs)
    ++ write_help (codes "pibench_go_gc_cycles_total") (codes "Completed GC cycles")
        (codes "counter")
    ++ line (codes "pibench_go_gc_cycles_total") (format_uint v.gc_cycles)
    ++ gauge (codes "pibench_go_gc_pause_seconds_total")
        (codes "Cumulative GC stop-the-world pause time") (format_float pause.sum b'g')
    ++ gauge (codes "pibench_go_gc_pause_seconds_max")
        (codes "Upper bound of the worst observed GC pause") (format_float pause.max b'g')
    ++ gauge (codes "pibench_go_sched_latency_seconds_total")
        (codes "Cumulative goroutine scheduling wait time") (format_float sched.sum b'g')
    ++ gauge (codes "pibench_go_sched_latency_seconds_max")
        (codes "Upper bound of the worst observed scheduling wait") (format_float sched.max b'g')
    ++ gauge (codes "pibench_go_heap_objects_bytes") (codes "Live heap object bytes")
        (format_uint v.heap_objects)
    ++ gauge (codes "pibench_go_heap_goal_bytes") (codes "Heap size target for the next GC")
        (format_uint v.heap_goal)

collect : (Float64 → ℕ → Bytes) → Samples → Option Bytes
unfolding hist_stats runtime_lines
collect format_float v = elim (hist_stats v.gc_pauses) [
  | none ↦ none
  | some pause ↦ elim (hist_stats v.sched_latency) [
    | none ↦ none
    | some sched ↦ some (runtime_lines format_float v pause sched)
  ]
]

-- `RuntimeCollector`: `none` is a panic, of a value of another kind or in histStats.
unfoldable pub runtime_collector : (Float64 → ℕ → Bytes) → (Bytes → Value) → ℕ → Option Bytes
unfolding read_samples collect
runtime_collector format_float read gomaxprocs = elim (read_samples read gomaxprocs) [
  | none ↦ none
  | some v ↦ collect format_float v
]

-- The number of samples in a histogram.
abbrev pub sum_counts : List ℕ → ℕ
sum_counts [] = 0
sum_counts (c ∷ cs) = c + sum_counts cs

stats_loop_total :
    (cs : List ℕ) (bs : List Float64) (s : Stats)
    → length bs ≡ length cs + 1
    → (r : Stats) × (stats_loop cs bs s ≡ some r)
      × (r.count % 2 ^ 64 ≡ (s.count + sum_counts cs) % 2 ^ 64)
unfolding stats_loop
stats_loop_total [] bs s h = (s, refl, omega arith)
stats_loop_total (c ∷ cs) [] s h = absurd (omega (arith, h))
stats_loop_total (c ∷ cs) (lo ∷ []) s h = absurd (omega (arith, h))
stats_loop_total (c ∷ cs) (lo ∷ hi ∷ bs) s h = elim (Bool-cases (c == 0)) [
  | inl e ↦
      let (r, q, k) = stats_loop_total cs (hi ∷ bs) s (omega (arith, h)) in
      (r, rw e q, omega (arith, k, (==_iff c 0).0 e))
  | inr e ↦
      let (r, q, k) = stats_loop_total cs (hi ∷ bs) (add_bucket c lo hi s) (omega (arith, h)) in
      (r, rw e q, k ∙ omega arith)
]

-- Where there are buckets, one more boundary than counts.
abbrev pub IsWhole : Option Histogram → Type 0
IsWhole none = Unit {0}
IsWhole (some h) = length h.buckets ≡ length h.counts + 1

abbrev pub samples_in : Option Histogram → ℕ
samples_in none = 0
samples_in (some h) = sum_counts h.counts

hist_stats_total :
    (h : Option Histogram)
    → IsWhole h
    → (r : Stats) × (hist_stats h ≡ some r) × (r.count % 2 ^ 64 ≡ samples_in h % 2 ^ 64)
unfolding hist_stats
hist_stats_total none w = (_, refl, refl)
hist_stats_total (some h) w =
    let (r, q, k) =
      stats_loop_total h.counts h.buckets (record { sum = f_0; max = f_0; count = 0 }) w in
    (r, q, k ∙ omega arith)

-- If the runtime gives each of the six metrics a value of its documented kind, and each histogram
-- that it gives has one boundary more than counts, RuntimeCollector does not panic: it writes the
-- lines of these values and of the reduced histograms, and each reduction counts all the samples
-- of its histogram, up to the wrap of 64 bits.
pub runtime_collector_total :
    (format_float : Float64 → ℕ → Bytes) (read : Bytes → Value) (v : Samples)
    → HasKinds read v
    → IsWhole v.gc_pauses
    → IsWhole v.sched_latency
    → (pause sched : Stats) × (runtime_collector format_float read v.gomaxprocs
        ≡ some (runtime_lines format_float v pause sched))
      × (hist_stats v.gc_pauses ≡ some pause)
      × (hist_stats v.sched_latency ≡ some sched)
      × (pause.count % 2 ^ 64 ≡ samples_in v.gc_pauses % 2 ^ 64)
      × (sched.count % 2 ^ 64 ≡ samples_in v.sched_latency % 2 ^ 64)
unfolding runtime_collector collect
runtime_collector_total format_float read v h a b =
    let (pause, p, m) = hist_stats_total v.gc_pauses a in
    let (sched, q, n) = hist_stats_total v.sched_latency b in
    (
      pause,
      sched,
      rw (runtime_collector, read_samples_lem read v h, collect, p, q) refl,
      p,
      q,
      m,
      n,
    )

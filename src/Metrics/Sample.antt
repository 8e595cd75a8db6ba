-- ===== src/Metrics/Sample.antt =====
-- internal/metrics/runtime.go: the samples that `RuntimeCollector` reads. `read` is what
-- `rmetrics.Read` puts into the sample of a name.
use the_500mb_club_challenge.Prelude.{
  ℕ, List, [], ◌∷◌, map, Option, some, none, Bytes, bytes_eq, codes, if◌then◌else◌, ◌≡◌, refl,
}
use the_500mb_club_challenge.Golang.Float64.{Float64}
use the_500mb_club_challenge.Model.Point.{◌>>=◌}

-- `rmetrics.Float64Histogram`: bucket `i` goes from boundary `i` to the next.
pub record Histogram : Type 0 where
  pub counts : List ℕ
  pub buckets : List Float64

-- `rmetrics.Value` by its kind; a histogram is a pointer, which may be nil.
pub data Value : Type 0 where
  bad : Value
  uint64 : ℕ → Value
  float64 : Float64 → Value
  histogram : Option Histogram → Value

-- `Value.Uint64` and `Value.Float64Histogram`: `none` is their panic on another kind.
unfoldable pub as_uint64 : Value → Option ℕ
as_uint64 bad = none
as_uint64 (uint64 n) = some n
as_uint64 (float64 f) = none
as_uint64 (histogram h) = none

unfoldable pub as_histogram : Value → Option (Option Histogram)
as_histogram bad = none
as_histogram (uint64 n) = none
as_histogram (float64 f) = none
as_histogram (histogram h) = some h

abbrev pub gc_cycles_name : Bytes
gc_cycles_name = codes "/gc/cycles/total:gc-cycles"

abbrev pub gc_pauses_name : Bytes
gc_pauses_name = codes "/gc/pauses:seconds"

abbrev pub sched_latency_name : Bytes
sched_latency_name = codes "/sched/latencies:seconds"

abbrev pub heap_objects_name : Bytes
heap_objects_name = codes "/memory/classes/heap/objects:bytes"

abbrev pub heap_goal_name : Bytes
heap_goal_name = codes "/gc/heap/goal:bytes"

abbrev pub goroutines_name : Bytes
goroutines_name = codes "/sched/goroutines:goroutines"

abbrev pub runtime_samples : List Bytes
runtime_samples =
    gc_cycles_name ∷ gc_pauses_name ∷ sched_latency_name ∷ heap_objects_name ∷ heap_goal_name
    ∷ goroutines_name ∷ []

-- The function `v` of `RuntimeCollector`: the value of the first sample with the name.
unfoldable pub value_of : List (Bytes × Value) → Bytes → Value
value_of [] name = bad
value_of ((n, v) ∷ samples) name =
    let rest = value_of samples name in if bytes_eq n name then v else rest

-- What the samples say, and GOMAXPROCS.
pub record Samples : Type 0 where
  pub gc_cycles : ℕ
  pub gc_pauses : Option Histogram
  pub sched_latency : Option Histogram
  pub heap_objects : ℕ
  pub heap_goal : ℕ
  pub goroutines : ℕ
  pub gomaxprocs : ℕ

unfoldable pub read_samples : (Bytes → Value) → ℕ → Option Samples
unfolding value_of as_uint64 as_histogram
read_samples read gomaxprocs =
    let samples = map (λ name. (name, read name)) runtime_samples in
    do
      goroutines ← as_uint64 (value_of samples goroutines_name)
      gc_cycles ← as_uint64 (value_of samples gc_cycles_name)
      gc_pauses ← as_histogram (value_of samples gc_pauses_name)
      sched_latency ← as_histogram (value_of samples sched_latency_name)
      heap_objects ← as_uint64 (value_of samples heap_objects_name)
      heap_goal ← as_uint64 (value_of samples heap_goal_name)
      some (record {
        gc_cycles = gc_cycles;
        gc_pauses = gc_pauses;
        sched_latency = sched_latency;
        heap_objects = heap_objects;
        heap_goal = heap_goal;
        goroutines = goroutines;
        gomaxprocs = gomaxprocs;
      })

-- The runtime gives each of the six metrics with its documented kind.
pub record HasKinds (read : Bytes → Value) (v : Samples) : Type 0 where
  pub gc_cycles : read gc_cycles_name ≡ uint64 v.gc_cycles
  pub gc_pauses : read gc_pauses_name ≡ histogram v.gc_pauses
  pub sched_latency : read sched_latency_name ≡ histogram v.sched_latency
  pub heap_objects : read heap_objects_name ≡ uint64 v.heap_objects
  pub heap_goal : read heap_goal_name ≡ uint64 v.heap_goal
  pub goroutines : read goroutines_name ≡ uint64 v.goroutines

pub read_samples_lem :
    (read : Bytes → Value) (v : Samples) → HasKinds read v → read_samples read v.gomaxprocs ≡ some v
unfolding read_samples value_of as_uint64 as_histogram
read_samples_lem read v h =
    rw (h.goroutines, h.gc_cycles, h.gc_pauses, h.sched_latency, h.heap_objects, h.heap_goal) refl

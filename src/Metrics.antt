-- ===== src/Metrics.antt =====
-- internal/metrics/metrics.go: counters, counters by label, and their text exposition.
pub mod Order
pub mod Series
pub mod Commute
pub mod Sample
pub mod Runtime
use the_500mb_club_challenge.Golang.Sort.{sort_by}
use the_500mb_club_challenge.Prelude.{
  ℕ, ◌+◌, ◌%◌, ◌^◌, Option, none, some, List, [], ◌∷◌, ◌++◌, map, if◌then◌else◌, Bytes, bytes_eq,
  codes,
}
use the_500mb_club_challenge.Prelude.Int.{to_int64}
use the_500mb_club_challenge.Golang.Strconv.{format_int}
use the_500mb_club_challenge.Golang.Binary.{bytes_lt}

-- The value is the bit pattern of an `atomic.Int64`, which `Add` wraps around.
pub record Counter : Type 0 where
  pub name : Bytes
  pub help : Bytes
  pub value : ℕ

abbrev pub add_counter : ℕ → ℕ → ℕ
add_counter v n = (v + n) % 2 ^ 64

-- The map from label values to cells, in the order in which Go's `range` comes upon them.
abbrev pub Series : Type 0
Series = List (Bytes × ℕ)

pub record CounterVec : Type 0 where
  pub name : Bytes
  pub help : Bytes
  pub label : Bytes
  pub series : Series

-- A collector is what it writes at the time of a scrape.
pub record Registry : Type 0 where
  pub counters : List Counter
  pub vecs : List CounterVec
  pub collectors : List Bytes

abbrev pub empty_registry : Registry
empty_registry = record { counters = []; vecs = []; collectors = [] }

unfoldable pub add_collector : Bytes → Registry → Registry
add_collector c r = record r { collectors = r.collectors ++ c ∷ [] }

unfoldable pub new_counter : Bytes → Bytes → Registry → Registry
new_counter name help r = record r {
  counters = r.counters ++ record { name = name; help = help; value = 0 } ∷ [];
}

unfoldable pub new_counter_vec : Bytes → Bytes → Bytes → Registry → Registry
new_counter_vec name help label r = record r {
  vecs = r.vecs ++ record { name = name; help = help; label = label; series = [] } ∷ [];
}

-- `cv.series[value]`
unfoldable pub find : Bytes → Series → Option ℕ
find k [] = none
find k ((j, v) ∷ s) = if bytes_eq k j then some v else find k s

-- `With` makes the cell on first use.
unfoldable pub with_value : Bytes → Series → Series
unfolding find
with_value k s = elim (find k s) [ some v ↦ s | none ↦ s ++ (k, 0) ∷ [] ]

-- `Sample.Add` on the cell of a label value.
unfoldable pub add_sample : Bytes → ℕ → Series → Series
add_sample k n [] = []
add_sample k n ((j, v) ∷ s) =
    let rest = add_sample k n s in if bytes_eq k j then (j, add_counter v n) ∷ s else (j, v) ∷ rest

unfoldable pub write_help_type : Bytes → Bytes → Bytes
write_help_type name help =
    codes "# HELP "
    ++ (name
        ++ (codes " "
            ++ (help ++ (codes "\n" ++ (codes "# TYPE " ++ (name ++ codes " counter\n"))))))

unfoldable pub render_counter : Counter → Bytes
unfolding write_help_type
render_counter c =
    write_help_type c.name c.help
    ++ (c.name ++ (codes " " ++ (format_int (to_int64 c.value) ++ codes "\n")))

-- The line of a label value.
unfoldable pub render_sample : CounterVec → Bytes → Bytes
render_sample cv k = elim (find k cv.series) [
  | none ↦ []
  | some v ↦
      cv.name
      ++ (codes "{"
          ++ (cv.label
              ++ (codes "=\"" ++ (k ++ (codes "\"} " ++ (format_int (to_int64 v) ++ codes "\n"))))))
]

unfoldable pub render_samples : CounterVec → List Bytes → Bytes
unfolding render_sample
render_samples cv [] = []
render_samples cv (k ∷ ks) = render_sample cv k ++ render_samples cv ks

unfoldable pub render_vec : CounterVec → Bytes
unfolding render_samples sort_by write_help_type
render_vec cv =
    write_help_type cv.name cv.help
    ++ render_samples cv (sort_by bytes_lt (map (λ kv. kv.0) cv.series))

render_counters : List Counter → Bytes
unfolding render_counter
render_counters [] = []
render_counters (c ∷ cs) = render_counter c ++ render_counters cs

render_vecs : List CounterVec → Bytes
unfolding render_vec
render_vecs [] = []
render_vecs (cv ∷ cvs) = render_vec cv ++ render_vecs cvs

run_collectors : List Bytes → Bytes
run_collectors [] = []
run_collectors (c ∷ cs) = c ++ run_collectors cs

unfoldable pub render : Registry → Bytes
unfolding render_counters render_vecs run_collectors
render r = render_counters r.counters ++ (render_vecs r.vecs ++ run_collectors r.collectors)

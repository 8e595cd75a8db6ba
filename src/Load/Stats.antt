-- ===== src/Load/Stats.antt =====
-- stress/load/stats.go and format.go: latencies by operation, and their summaries. A `time.Duration`
-- is an int64 of nanoseconds; `format_fixed f` is `strconv.FormatFloat(f, 'f', 2, 64)`.
pub mod Rank
pub mod Merge
use the_500mb_club_challenge.Prelude.{
  ℕ, ◌+◌, ◌-◌, ◌*◌, ◌/◌, ◌^◌, Bool, Option, none, some, List, [], ◌∷◌, ◌++◌, map, if◌then◌else◌,
  ltb, Bytes, bytes_eq, codes, length, get_or,
}
use the_500mb_club_challenge.Prelude.Int.{ℤ, pos, negsuc, ltb_ℤ}
use the_500mb_club_challenge.Golang.Strconv.{format_uint}
use the_500mb_club_challenge.Golang.Float64.{Float64}
use the_500mb_club_challenge.Golang.Arith.{float_mul, float_div, float_of_nat, float_neg, units}
use the_500mb_club_challenge.Golang.Sort.{sort_by}

pub record OpSamples : Type 0 where
  pub durs : List ℤ
  pub fails : ℕ

-- `ops` is a map; `order` has its keys as they came first.
pub record Stats : Type 0 where
  pub ops : List (Bytes × OpSamples)
  pub order : List Bytes

pub record OpResult : Type 0 where
  pub p50 : ℤ
  pub p95 : ℤ
  pub p99 : ℤ
  pub p999 : ℤ
  pub min : ℤ
  pub max : ℤ
  pub count : ℕ
  pub fails : ℕ

abbrev pub new_stats : Stats
new_stats = record { ops = []; order = [] }

abbrev pub no_samples : OpSamples
no_samples = record { durs = []; fails = 0 }

unfoldable pub add_sample : ℤ → Bool → OpSamples → OpSamples
add_sample d ok o = record { durs = o.durs ++ d ∷ []; fails = if ok then o.fails else o.fails + 1 }

-- `s.ops[op]`
unfoldable pub lookup_op : Bytes → List (Bytes × OpSamples) → Option OpSamples
lookup_op op [] = none
lookup_op op ((k, o) ∷ ops) = if bytes_eq op k then some o else lookup_op op ops

-- The samples of an operation that has some are changed in place.
unfoldable pub update_op : Bytes → ℤ → Bool → List (Bytes × OpSamples) → List (Bytes × OpSamples)
unfolding add_sample
update_op op d ok [] = []
update_op op d ok ((k, o) ∷ ops) =
    let rest = update_op op d ok ops in
    if bytes_eq op k then (k, add_sample d ok o) ∷ ops else (k, o) ∷ rest

unfoldable pub record_op : Bytes → ℤ → Bool → Stats → Stats
unfolding lookup_op update_op add_sample
record_op op d ok s = elim (lookup_op op s.ops) [
  | none ↦ record {
    ops = s.ops ++ (op, add_sample d ok no_samples) ∷ [];
    order = s.order ++ op ∷ [];
  }
  | some o ↦ record s { ops = update_op op d ok s.ops }
]

-- `int(math.Ceil(f))` of a finite value that is not negative.
unfoldable pub int_ceil : Float64 → ℕ
unfolding units
int_ceil f = (units f + (2 ^ 1074 - 1)) / 2 ^ 1074

-- From 1 to `n`.
unfoldable pub clamp_rank : ℕ → ℕ → ℕ
clamp_rank rank n = let low = if ltb rank 1 then 1 else rank in if ltb n low then n else low

-- The rank of a percentile among `n` values.
unfoldable pub rank_of : Float64 → ℕ → ℕ
unfolding int_ceil clamp_rank
rank_of p n = clamp_rank (int_ceil (float_mul (float_div p (float_of_nat 100)) (float_of_nat n))) n

unfoldable pub percentile : List ℤ → Float64 → ℤ
unfolding rank_of
percentile sorted p =
    if ltb 0 (length sorted) then get_or sorted (rank_of p (length sorted) - 1) (pos 0) else pos 0

abbrev pub f_99_9 : Float64
f_99_9 = 0x4058F9999999999A

abbrev pub no_result : OpResult
no_result = record {
  p50 = pos 0;
  p95 = pos 0;
  p99 = pos 0;
  p999 = pos 0;
  min = pos 0;
  max = pos 0;
  count = 0;
  fails = 0;
}

-- The summary of samples in order.
unfoldable pub summarize_sorted : List ℤ → ℕ → OpResult
unfolding percentile
summarize_sorted sorted fails = record {
  p50 = percentile sorted (float_of_nat 50);
  p95 = percentile sorted (float_of_nat 95);
  p99 = percentile sorted (float_of_nat 99);
  p999 = percentile sorted f_99_9;
  min = get_or sorted 0 (pos 0);
  max = get_or sorted (length sorted - 1) (pos 0);
  count = length sorted;
  fails = fails;
}

unfoldable pub summarize : Option OpSamples → OpResult
unfolding summarize_sorted sort_by
summarize none = no_result
summarize (some o) =
    if ltb 0 (length o.durs) then summarize_sorted (sort_by ltb_ℤ o.durs) o.fails else no_result

-- `Op`
unfoldable pub op_result : Bytes → Stats → OpResult
unfolding summarize lookup_op
op_result op s = summarize (lookup_op op s.ops)

-- `float64(d)`
unfoldable pub float_of_int : ℤ → Float64
float_of_int (pos n) = float_of_nat n
float_of_int (negsuc n) = float_neg (float_of_nat (n + 1))

unfoldable pub ms : (Float64 → Bytes) → ℤ → Bytes
unfolding float_of_int
ms format_fixed d = format_fixed (float_div (float_of_int d) (float_of_nat 1000000)) ++ codes "ms"

-- The share of failures, in percent.
unfoldable pub error_percent : ℕ → ℕ → Float64
error_percent fails count =
    if ltb 0 count
    then float_div (float_mul (float_of_nat 100) (float_of_nat fails)) (float_of_nat count)
    else 0

unfoldable pub write_row : (Float64 → Bytes) → Bytes → OpResult → Bytes
unfolding ms error_percent
write_row format_fixed op r =
    op
    ++ (codes "\t"
        ++ (format_uint r.count
            ++ (codes "\t"
                ++ (ms format_fixed r.p50
                    ++ (codes "\t"
                        ++ (ms format_fixed r.p95
                            ++ (codes "\t"
                                ++ (ms format_fixed r.p99
                                    ++ (codes "\t"
                                        ++ (ms format_fixed r.p999
                                            ++ (codes "\t"
                                                ++ (ms format_fixed r.max
                                                    ++ (codes "\t"
                                                        ++ (format_fixed
                                                            (error_percent r.fails r.count)
                                                            ++ codes "\n"))))))))))))))

-- The rows, and the totals of the results.
unfoldable pub write_rows : (Float64 → Bytes) → Stats → List Bytes → ℕ → ℕ → Bytes × (ℕ × ℕ)
unfolding write_row op_result
write_rows format_fixed s [] count fails = ([], (count, fails))
write_rows format_fixed s (op ∷ ops) count fails =
    let r = op_result op s in
    let rest = write_rows format_fixed s ops (count + r.count) (fails + r.fails) in
    (write_row format_fixed op r ++ rest.0, rest.1)

total_row : (Float64 → Bytes) → ℕ → ℕ → Bytes
unfolding error_percent
total_row format_fixed count fails =
    codes "TOTAL\t"
    ++ (format_uint count
        ++ (codes "\t\t\t\t\t\t" ++ (format_fixed (error_percent fails count) ++ codes "\n")))

-- The text that `Report` gives to the tabwriter.
unfoldable pub report : (Float64 → Bytes) → Stats → Bytes
unfolding write_rows total_row
report format_fixed s =
    let (rows, (count, fails)) = write_rows format_fixed s s.order 0 0 in
    codes "op\tcount\tp50\tp95\tp99\tp99.9\tmax\terror%\n"
    ++ (rows ++ (if ltb 0 (length s.order) then total_row format_fixed count fails else []))

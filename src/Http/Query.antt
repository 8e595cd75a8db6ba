-- ===== src/Http/Query.antt =====
-- internal/httpapi/query.go: range queries.
pub mod Mem
pub mod Redis
use the_500mb_club_challenge.Prelude.{
  ℕ, Bool, false, not, Option, none, some, [], if◌then◌else◌, Bytes, codes, ok, err, panic,
}
use the_500mb_club_challenge.Prelude.Int.{ℤ, ltb_ℤ}
use the_500mb_club_challenge.Golang.Float64.{Float64}
use the_500mb_club_challenge.Http.Validate.{valid_id, parse_int64, parse_limit}
use the_500mb_club_challenge.Http.Writer.{Writer, write_json}
use the_500mb_club_challenge.Http.Json.{append_range_json}
use the_500mb_club_challenge.Http.Handler.{Store, State, Outcome, reply, crash, read_status}

-- `query` is `r.URL.Query().Get`, "" for a parameter that is not there.
pub record Request : Type 0 where
  pub id : Bytes
  pub query : Bytes → Bytes

-- An error of a read, with the counter that it raises.
unfoldable pub refuse : {S : Type 0} → State S → Writer → ℕ × State S → Outcome S
refuse st w (code, st') = reply st' w code

-- The query, once its parameters are read. The body is written as `writeJSON` writes it.
unfoldable pub run_query :
    {S : Type 0}
    → Store S
    → (Float64 → ℕ → Bytes)
    → Bytes
    → ℤ
    → ℤ
    → ℕ
    → Bytes
    → State S
    → Writer
    → Outcome S
unfolding refuse
run_query ops format_float id from to limit cur st w =
    let (s, r) = ops.range st.store id from to limit cur in
    let st' = record st { store = s } in
    elim r [
      | ok (pts, next) ↦ record {
        state = st';
        writer = write_json 200 (append_range_json format_float [] pts next) w;
        panicked = false;
      }
      | err e ↦ refuse st' w (read_status e st')
      | panic ↦ crash st' w
    ]

-- The limit is read after the two timestamps.
unfoldable pub query_window :
    {S : Type 0}
    → Store S
    → (Float64 → ℕ → Bytes)
    → Request
    → Option ℤ
    → Option ℤ
    → State S
    → Writer
    → Outcome S
unfolding run_query
query_window ops format_float r none to st w = reply st w 400
query_window ops format_float r (some from) none st w = reply st w 400
query_window ops format_float r (some from) (some to) st w =
    if ltb_ℤ to from then reply st w 400 else elim (parse_limit (r.query (codes "limit"))) [
      | none ↦ reply st w 400
      | some limit ↦ run_query ops format_float r.id from to limit (r.query (codes "cursor")) st w
    ]

unfoldable pub query :
    {S : Type 0} → Store S → (Float64 → ℕ → Bytes) → Request → State S → Writer → Outcome S
unfolding query_window
query ops format_float r st w =
    if not (valid_id r.id)
    then reply st w 400
    else query_window ops format_float r (parse_int64 (r.query (codes "from")))
        (parse_int64 (r.query (codes "to"))) st w

-- ===== src/Http/Handler.antt =====
-- internal/httpapi/handler.go, config.go, health.go, and the interface of internal/store/store.go.
pub mod Cells
pub mod Serve
use the_500mb_club_challenge.Golang.Strconv.{format_uint}
use the_500mb_club_challenge.Metrics.{with_value, render, add_counter, Series, Registry, add_sample}
use the_500mb_club_challenge.Prelude.{
  ◌++◌, [], ◌∷◌, ℕ, ◌+◌, ◌%◌, ◌^◌, Bool, true, false, not, ◌&&◌, Option, List, ◌==◌, if◌then◌else◌,
  Bytes, codes, Result, ok, err, panic,
}
use the_500mb_club_challenge.Prelude.Int.{ℤ}
use the_500mb_club_challenge.Model.Point.{Point}
use the_500mb_club_challenge.Store.{Error}
use the_500mb_club_challenge.Http.Writer.{Writer, set_header, write_header, write_body, fresh}

-- `store.Store`, with the state of the store passed on, which a read may change too: a client of a
-- server has connections. The error of a read may be that of the deadline that the handler sets.
-- `Close` is not called by a handler.
pub record Store (S : Type 0) : Type 0 where
  pub ping : S → S × Result Error (Unit {0})
  pub append : S → Bytes → List Point → S × Result Error ℕ
  pub range : S → Bytes → ℤ → ℤ → ℕ → Bytes → S × Result Error (List Point × Bytes)
  pub recent : S → Bytes → ℕ → S × Result Error (List Point)

-- `ReadTimeout` is not kept: that it passes is an error that the store returns.
pub record Config : Type 0 where
  pub instance_id : Bytes
  pub single_max_bytes : ℕ
  pub batch_max_bytes : ℕ

-- What the handlers change: the store, and the values of the counters; `requests` are the cells of
-- `reqs` by status code.
pub record State (S : Type 0) : Type 0 where
  pub store : S
  pub points : ℕ
  pub read_timeouts : ℕ
  pub requests : Series

-- The state and the response after a handler, and whether it ended in a panic.
pub record Outcome (S : Type 0) : Type 0 where
  pub state : State S
  pub writer : Writer
  pub panicked : Bool

-- `statusCodes`, whose cells are cached.
abbrev pub statuses : List ℕ
statuses = 200 ∷ 202 ∷ 400 ∷ 404 ∷ 413 ∷ 500 ∷ 503 ∷ []

unfoldable pub has_status : ℕ → List ℕ → Bool
has_status code [] = false
has_status code (c ∷ cs) = let rest = has_status code cs in if c == code then true else rest

-- The loop that fills the cache: each `With` makes a cell.
unfoldable pub make_cells : List ℕ → Series → Series
make_cells [] s = s
make_cells (c ∷ cs) s = make_cells cs (with_value (format_uint c) s)

-- The state that `New` leaves.
unfoldable pub new_state : {S : Type 0} → S → State S
unfolding make_cells
new_state store = record {
  store = store;
  points = 0;
  read_timeouts = 0;
  requests = make_cells statuses [];
}

-- The registry, with what was in it before `New` and the families that `New` adds.
unfoldable pub registry : {S : Type 0} → Registry → State S → Registry
registry base st = record base {
  counters =
      base.counters
      ++ record {
        name = codes "pibench_points_ingested_total";
        help = codes "Telemetry points ingested";
        value = st.points;
      }
        ∷ record {
          name = codes "pibench_redis_read_timeout_total";
          help = codes "Read requests aborted by the per-request Redis deadline";
          value = st.read_timeouts;
        }
        ∷ [];
  vecs =
      base.vecs
      ++ record {
        name = codes "pibench_http_requests_total";
        help = codes "HTTP requests by status code";
        label = codes "code";
        series = st.requests;
      }
        ∷ [];
}

-- `status(w, code)` and `return`
abbrev pub reply : {S : Type 0} → State S → Writer → ℕ → Outcome S
reply st w code = record { state = st; writer = write_header code w; panicked = false }

abbrev pub crash : {S : Type 0} → State S → Writer → Outcome S
crash st w = record { state = st; writer = w; panicked = true }

unfoldable pub read_status : {S : Type 0} → Error → State S → ℕ × State S
read_status (Error.cursor e) st = (400, st)
read_status Error.deadline st = (503, record st { read_timeouts = add_counter st.read_timeouts 1 })
read_status Error.point st = (503, st)
read_status Error.backend st = (503, st)

-- A cached cell is there; another is found by `With`.
unfoldable pub count_status : {S : Type 0} → ℕ → State S → State S
unfolding has_status
count_status code st = record st {
  requests =
      if has_status code statuses
      then add_sample (format_uint code) 1 st.requests
      else add_sample (format_uint code) 1 (with_value (format_uint code) st.requests);
}

-- A panic before the first write becomes a 500.
unfoldable pub last_writer : {S : Type 0} → Outcome S → Writer
last_writer o = if o.panicked && not o.writer.wrote then write_header 500 o.writer else o.writer

-- The deferred function.
unfoldable pub finish : {S : Type 0} → Outcome S → State S × Writer
unfolding count_status last_writer
finish o = (count_status (last_writer o).status o.state, last_writer o)

-- The response that the mux is given; `header` is the header map of the `http.ResponseWriter`.
unfoldable pub begin : Config → (Bytes → Bytes) → Writer
begin cfg header = set_header (codes "X-Instance-Id") cfg.instance_id (fresh header)

-- `ServeHTTP`, with the handler that the mux runs.
unfoldable pub serve_http :
    {S : Type 0}
    → Config
    → (State S → Writer → Outcome S)
    → State S
    → (Bytes → Bytes)
    → State S × Writer
unfolding finish begin
serve_http cfg mux st header = finish (mux st (begin cfg header))

unfoldable pub healthz : {S : Type 0} → State S → Writer → Outcome S
healthz st w = record {
  state = st;
  writer = write_body (codes "ok") (write_header 200 w);
  panicked = false;
}

unfoldable pub readyz : {S : Type 0} → Store S → State S → Writer → Outcome S
readyz ops st w =
    let (s, r) = ops.ping st.store in
    let st' = record st { store = s } in
    elim r [ ok u ↦ reply st' w 200 | err e ↦ reply st' w 503 | panic ↦ crash st' w ]

-- The registry is rendered as it is at the time.
unfoldable pub metrics : {S : Type 0} → Registry → State S → Writer → Outcome S
metrics base st w = record {
  state = st;
  writer = write_body (render (registry base st)) (
      write_header 200
        (set_header (codes "Content-Type") (codes "text/plain; version=0.0.4; charset=utf-8") w));
  panicked = false;
}

-- ===== src/Http/Handler/Serve.antt =====
-- On internal/httpapi/handler.go: what `ServeHTTP` counts.
use the_500mb_club_challenge.Metrics.Series.{find-counted, counted, value}
use the_500mb_club_challenge.Golang.Strconv.{format_uint}
use the_500mb_club_challenge.Metrics.{add_counter, find}
use the_500mb_club_challenge.Http.Handler.Cells.{counted-HasCells, count_status_lem, HasCells}
use mathlib.Core.Path.{subst}
use the_500mb_club_challenge.Prelude.{
  ap, ◌∙◌, sym, bytes_eq, ℕ, ◌≡◌, true, false, none, some, not, ◌&&◌, Bytes, arith, Bool-cases, inl,
  inr,
}
use the_500mb_club_challenge.Http.Writer.{Writer, write_header, IsCoherent, write_header-IsCoherent}
use the_500mb_club_challenge.Http.Handler.{
  Config, State, Outcome, count_status, last_writer, finish, begin, serve_http,
}

-- The status of a response as the client sees it: `net/http` sends 200 if a handler sends none.
unfoldable pub seen_status : Writer → ℕ
seen_status w = elim w.sent [ none ↦ 200 | some code ↦ code ]

seen_status_lem : (w : Writer) → IsCoherent w → seen_status w ≡ w.status
unfolding seen_status
seen_status_lem w h = ground (arith, h.sent, h.unsent)

last_writer-IsCoherent :
    {S : Type 0} (o : Outcome S) → IsCoherent o.writer → IsCoherent (last_writer o)
unfolding last_writer
last_writer-IsCoherent o h = elim (Bool-cases (o.panicked && not o.writer.wrote)) [
  | inl e ↦ rw (last_writer, e) (write_header-IsCoherent 500 o.writer h)
  | inr e ↦ rw (last_writer, e) h
]

last_writer-panicked :
    {S : Type 0} (o : Outcome S)
    → o.panicked ≡ true
    → o.writer.wrote ≡ false
    → (last_writer o).status ≡ 500
unfolding last_writer write_header
last_writer-panicked o p n = ground (arith, p, n)

-- If every cached status has a cell, and the handler that the mux runs leaves the counter by
-- status as it was and the response coherent (the wrapper knows the status line that is sent, and
-- claims 200 before), ServeHTTP counts the response once, under the status that the client sees;
-- every other cell is as it was and every cached status still has a cell; a handler that panics
-- before it writes gives a 500.
pub serve_http-counts :
    {S : Type 0} (cfg : Config) (mux : State S → Writer → Outcome S) (st : State S)
    (header : Bytes → Bytes) (code : ℕ)
    → HasCells st.requests
    → (mux st (begin cfg header)).state.requests ≡ st.requests
    → IsCoherent (mux st (begin cfg header)).writer
    → seen_status (serve_http cfg mux st header).1 ≡ code
    → (find (format_uint code) (serve_http cfg mux st header).0.requests
        ≡ some (add_counter (value (format_uint code) st.requests) 1))
      × ((j : Bytes)
          → bytes_eq j (format_uint code) ≡ false
          → find j (serve_http cfg mux st header).0.requests ≡ find j st.requests)
      × HasCells (serve_http cfg mux st header).0.requests
      × ((mux st (begin cfg header)).panicked ≡ true
          → (mux st (begin cfg header)).writer.wrote ≡ false
          → code ≡ 500)
unfolding serve_http finish
serve_http-counts cfg mux st header code cells same h q =
    let o = mux st (begin cfg header) in
    let k : (last_writer o).status ≡ code =
      cc (seen_status_lem (last_writer o) (last_writer-IsCoherent o h), q) in
    let counts : (count_status (last_writer o).status o.state).requests
        ≡ counted (format_uint code) 1 st.requests =
      count_status_lem (last_writer o).status o.state (subst HasCells (sym same) cells)
      ∙ ap (λ c. counted (format_uint c) 1 o.state.requests) k
      ∙ ap (counted (format_uint code) 1) same in
    (
      ap (find (format_uint code)) counts ∙ (find-counted (format_uint code) 1 st.requests).0,
      (λ j d. ap (find j) counts ∙ (find-counted (format_uint code) 1 st.requests).1 j d),
      subst HasCells (sym counts) (counted-HasCells (format_uint code) 1 st.requests cells),
      (λ p n. cc (k, last_writer-panicked o p n)),
    )

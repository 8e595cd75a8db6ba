-- ===== src/Tests/HttpRuns.antt =====
-- Runs of the HTTP layer.
use the_500mb_club_challenge.Http.Handler.Cells.{new_state-HasCells, HasCells}
use the_500mb_club_challenge.Metrics.Series.{value}
use the_500mb_club_challenge.Golang.Strconv.{format_uint}
use the_500mb_club_challenge.Metrics.{add_counter, find}
use the_500mb_club_challenge.Prelude.{
  ℕ, ◌≡◌, refl, true, false, Option, some, List, [], ◌∷◌, Bytes, bytes_eq, codes, if◌then◌else◌,
}
use the_500mb_club_challenge.Golang.Float64.{Float64}
use the_500mb_club_challenge.Store.Mem.{MemStore}
use the_500mb_club_challenge.Http.Writer.{
  set_header, fresh, fresh-IsCoherent, set_header-IsCoherent, write_header-IsCoherent,
  write_body-IsCoherent, IsCoherent, write_body,
}
use the_500mb_club_challenge.Http.Handler.{new_state, Config, State, begin, serve_http, healthz}
use the_500mb_club_challenge.Http.Handler.Serve.{seen_status, serve_http-counts}
use the_500mb_club_challenge.Http.Query.{Request, query}
use the_500mb_club_challenge.Http.Query.Mem
use the_500mb_club_challenge.Http.Ingest.{Body, ingest_single, ingest_batch}
use the_500mb_club_challenge.Http.Ingest.Batch
use the_500mb_club_challenge.Http.Ingest.Single
use the_500mb_club_challenge.Tests.StoreRuns.{device, filled, filled-IsValid}

abbrev pub config : Config
config = record { instance_id = codes "pi-1"; single_max_bytes = 4096; batch_max_bytes = 131072 }

abbrev pub initial : State MemStore
initial = record {
  store = filled;
  points = 3;
  read_timeouts = 0;
  requests = (new_state filled).requests;
}

abbrev pub no_header : Bytes → Bytes
no_header j = []

-- Each value prints as "0" here.
abbrev pub print_zero : Float64 → ℕ → Bytes
print_zero f format = codes "0"

abbrev pub window_request : Request
window_request = record {
  id = device;
  query = λ key.
      if bytes_eq key (codes "from")
      then codes "5"
      else if bytes_eq key (codes "to")
      then codes "25"
      else [];
}

abbrev point_body : Body
point_body = record {
  bytes = codes "{\"ts\":1,\"lat\":0,\"lon\":0,\"ax\":0,\"ay\":0,\"az\":0}";
  broken = false;
}

-- A decoder that takes the whole body as the one raw point.
abbrev pub one_raw : Bytes → Option (List Bytes)
one_raw body = some (body ∷ [])

query-IsReply_example :
    Mem.IsReply print_zero window_request initial
      (query Mem.mem_store print_zero window_request initial (fresh no_header))
query-IsReply_example =
    Mem.query-IsReply print_zero window_request initial no_header (filled-IsValid.holds device)

ingest_batch-IsReply_example :
    Batch.IsReply Mem.mem_store config one_raw device point_body initial
      (ingest_batch Mem.mem_store config one_raw device point_body initial (fresh no_header))
ingest_batch-IsReply_example =
    Batch.ingest_batch-IsReply Mem.mem_store config one_raw device point_body initial no_header

healthz-IsCoherent : IsCoherent (healthz initial (begin config no_header)).writer
unfolding healthz begin
healthz-IsCoherent = write_body-IsCoherent (codes "ok") _ (
    write_header-IsCoherent 200 _ (
      set_header-IsCoherent (codes "X-Instance-Id") config.instance_id _
        (fresh-IsCoherent no_header)))

healthz_status : seen_status (serve_http config healthz initial no_header).1 ≡ 200
unfolding seen_status serve_http healthz write_body set_header fresh
healthz_status = refl

serve_http-counts_example :
    (find (format_uint 200) (serve_http config healthz initial no_header).0.requests
      ≡ some (add_counter (value (format_uint 200) initial.requests) 1))
    × ((j : Bytes)
        → bytes_eq j (format_uint 200) ≡ false
        → find j (serve_http config healthz initial no_header).0.requests ≡ find j initial.requests)
    × HasCells (serve_http config healthz initial no_header).0.requests
    × ((healthz initial (begin config no_header)).panicked ≡ true
        → (healthz initial (begin config no_header)).writer.wrote ≡ false
        → ◌≡◌ {A = ℕ} 200 500)
unfolding healthz
serve_http-counts_example =
    serve_http-counts config healthz initial no_header 200 (new_state-HasCells filled) refl
      healthz-IsCoherent healthz_status

ingest_single-IsReply_example :
    Single.IsReply Mem.mem_store config device point_body initial
      (ingest_single Mem.mem_store config device point_body initial (fresh no_header))
ingest_single-IsReply_example =
    Single.ingest_single-IsReply Mem.mem_store config device point_body initial no_header

-- ===== src/Http/Anomaly.antt =====
-- internal/httpapi/anomaly.go: the anomaly score of a device.
pub mod Reply
pub mod Overflow
pub mod Mem
pub mod Redis
use the_500mb_club_challenge.Prelude.{
  ◌||◌, false, ◌&&◌, ◌++◌, not, List, ℕ, Bool, Option, none, some, if◌then◌else◌, Bytes, codes, ok,
  err, panic,
}
use the_500mb_club_challenge.Golang.Strconv.{format_uint}
use the_500mb_club_challenge.Golang.Float64.{Float64, is_nan, is_inf}
use the_500mb_club_challenge.Model.Point.{Point}
use the_500mb_club_challenge.Anomaly.{Score, window, compute}
use the_500mb_club_challenge.Http.Validate.{valid_id}
use the_500mb_club_challenge.Http.Writer.{Writer, write_encoded}
use the_500mb_club_challenge.Http.Json.{append_json_float}
use the_500mb_club_challenge.Http.Query.{refuse}
use the_500mb_club_challenge.Http.Handler.{Store, State, Outcome, reply, crash, read_status}

-- `encoding/json` has no encoding of NaN or an infinity; other numbers are encoded as in a range
-- response.
abbrev pub is_encodable : Float64 → Bool
is_encodable f = not (is_nan f || is_inf f)

abbrev pub json_bool : Bool → Bytes
json_bool b = if b then codes "true" else codes "false"

-- `anomalyOut`, encoded by a `json.Encoder`, which ends the value with a newline.
unfoldable pub encode_score : (Float64 → ℕ → Bytes) → Score → Option Bytes
encode_score format_float r =
    let z = append_json_float format_float (codes "{\"z_score\":") r.z_score in
    let samples = (z ++ codes ",\"samples\":") ++ format_uint r.samples in
    let anomalous = (samples ++ codes ",\"anomalous\":") ++ json_bool r.anomalous in
    let mean = append_json_float format_float (anomalous ++ codes ",\"mean\":") r.mean in
    let stddev = append_json_float format_float (mean ++ codes ",\"stddev\":") r.stddev in
    if is_encodable r.z_score && is_encodable r.mean && is_encodable r.stddev
    then some (stddev ++ codes "}\n")
    else none

-- The score of the points, or 404 where they are too few.
unfoldable pub reply_score :
    {S : Type 0} → (Float64 → ℕ → Bytes) → State S → Writer → List Point → Outcome S
unfolding encode_score
reply_score format_float st w pts = elim (compute pts) [
  | none ↦ reply st w 404
  | some r ↦ record {
    state = st;
    writer = write_encoded 200 (encode_score format_float r) w;
    panicked = false;
  }
]

unfoldable pub run_anomaly :
    {S : Type 0} → Store S → (Float64 → ℕ → Bytes) → Bytes → State S → Writer → Outcome S
unfolding reply_score
run_anomaly ops format_float id st w =
    let (s, r) = ops.recent st.store id 256 in
    let st' = record st { store = s } in
    elim r [
      | ok pts ↦ reply_score format_float st' w pts
      | err e ↦ refuse st' w (read_status e st')
      | panic ↦ crash st' w
    ]

unfoldable pub anomaly :
    {S : Type 0} → Store S → (Float64 → ℕ → Bytes) → Bytes → State S → Writer → Outcome S
unfolding run_anomaly
anomaly ops format_float id st w =
    if not (valid_id id) then reply st w 400 else run_anomaly ops format_float id st w

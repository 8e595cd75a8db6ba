-- ===== src/Http/Ingest.antt =====
-- internal/httpapi/telemetry.go: ingest of one point and of a batch.
pub mod Batch
pub mod Single
pub mod Mem
use the_500mb_club_challenge.Metrics.{add_counter}
use the_500mb_club_challenge.Prelude.{
  ℕ, Bool, true, false, not, Option, none, some, List, [], ◌∷◌, ◌++◌, ◌⊎◌, inl, inr, ltb, ◌==◌,
  if◌then◌else◌, Bytes, codes, ok, err, panic, length,
}
use the_500mb_club_challenge.Golang.Strconv.{format_uint}
use the_500mb_club_challenge.Model.Point.{Point}
use the_500mb_club_challenge.Model.Scan.Object.{parse_point}
use the_500mb_club_challenge.Http.Validate.{valid_id}
use the_500mb_club_challenge.Http.Writer.{Writer, write_json}
use the_500mb_club_challenge.Http.Handler.{Store, Config, State, Outcome, reply, crash}

-- The body of a request: the bytes that arrive, and whether reading fails behind them.
pub record Body : Type 0 where
  pub bytes : Bytes
  pub broken : Bool

-- `readBody`: the status to send, or the body. `http.MaxBytesReader` fails as soon as more than
-- `max` bytes arrive.
unfoldable pub read_body : Body → ℕ → ℕ ⊎ Bytes
read_body b max =
    if ltb max (length b.bytes) then inl 413 else if b.broken then inl 400 else inr b.bytes

unfoldable pub store_single : {S : Type 0} → Store S → Bytes → Point → State S → Writer → Outcome S
store_single ops id p st w =
    let (s, r) = ops.append st.store id (p ∷ []) in
    elim r [
      | ok n ↦ reply (record st { store = s; points = add_counter st.points 1 }) w 202
      | err e ↦ reply (record st { store = s }) w 503
      | panic ↦ crash (record st { store = s }) w
    ]

unfoldable pub ingest_single :
    {S : Type 0} → Store S → Config → Bytes → Body → State S → Writer → Outcome S
unfolding store_single
ingest_single ops cfg id b st w =
    if not (valid_id id) then reply st w 400 else elim (read_body b cfg.single_max_bytes) [
      | inl code ↦ reply st w code
      | inr body ↦ elim (parse_point body) [
        | none ↦ reply st w 400
        | some p ↦ store_single ops id p st w
      ]
    ]

-- The loop over the raw points: all of them, or `none` at the first that is invalid.
unfoldable pub parse_points : List Bytes → Option (List Point)
parse_points [] = some []
parse_points (raw ∷ raws) =
    let rest = parse_points raws in
    elim (parse_point raw) [
      | none ↦ none
      | some p ↦ elim rest [ none ↦ none | some ps ↦ some (p ∷ ps) ]
    ]

-- `json.NewEncoder(w).Encode(map[string]int{"accepted": n})`
unfoldable pub accepted : ℕ → Bytes
accepted n = codes "{\"accepted\":" ++ (format_uint n ++ codes "}\n")

unfoldable pub store_batch :
    {S : Type 0} → Store S → Bytes → List Point → State S → Writer → Outcome S
unfolding accepted
store_batch ops id pts st w =
    let (s, r) = ops.append st.store id pts in
    elim r [
      | ok n ↦ record {
        state = record st { store = s; points = add_counter st.points n };
        writer = write_json 202 (accepted n) w;
        panicked = false;
      }
      | err e ↦ reply (record st { store = s }) w 503
      | panic ↦ crash (record st { store = s }) w
    ]

-- The raw points of a body that is a batch: not none, and at most 100.
unfoldable pub check_batch :
    {S : Type 0} → Store S → Bytes → List Bytes → State S → Writer → Outcome S
unfolding store_batch parse_points
check_batch ops id raws st w =
    if length raws == 0
    then reply st w 400
    else if ltb 100 (length raws)
    then reply st w 413
    else elim (parse_points raws) [ none ↦ reply st w 400 | some pts ↦ store_batch ops id pts st w ]

-- `unmarshal` is `json.Unmarshal` into a `batchIn`, of which it gives the raw points.
unfoldable pub ingest_batch :
    {S : Type 0}
    → Store S
    → Config
    → (Bytes → Option (List Bytes))
    → Bytes
    → Body
    → State S
    → Writer
    → Outcome S
unfolding check_batch
ingest_batch ops cfg unmarshal id b st w =
    if not (valid_id id) then reply st w 400 else elim (read_body b cfg.batch_max_bytes) [
      | inl code ↦ reply st w code
      | inr body ↦ elim (unmarshal body) [
        | none ↦ reply st w 400
        | some raws ↦ check_batch ops id raws st w
      ]
    ]

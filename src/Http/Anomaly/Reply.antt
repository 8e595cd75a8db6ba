-- ===== src/Http/Anomaly/Reply.antt =====
-- On internal/httpapi/anomaly.go: the responses.
use the_500mb_club_challenge.Metrics.{add_counter}
use the_500mb_club_challenge.Store.{Error}
use the_500mb_club_challenge.Http.Anomaly.{run_anomaly, reply_score, anomaly, encode_score}
use the_500mb_club_challenge.Anomaly.{newest_window, score_of, compute, Score, min_samples}
use the_500mb_club_challenge.Model.Point.{Point}
use the_500mb_club_challenge.Http.Validate.{valid_id}
use the_500mb_club_challenge.Http.Writer.{
  write_encoded-IsCoherent, write_body, set_header, fresh-IsCoherent, write_json,
  write_header-IsCoherent, write_encoded, IsCoherent, write_header, fresh,
}
use the_500mb_club_challenge.Golang.Float64.{Float64}
use the_500mb_club_challenge.Http.Handler.{reply, read_status, Outcome, State, Store}
use the_500mb_club_challenge.Prelude.{
  Result-cases, arith, inr, ltb, Bool-cases, true, some, none, [], ok, err, panic, ◌≤◌, inl, ◌<◌,
  length, ok, false, ◌⊎◌, List, Result, some, [], Bytes, Option, ℕ, ◌≡◌, refl,
}
use the_500mb_club_challenge.Http.Query.{refuse}

-- What is written of an encoding that may fail.
abbrev pub written : Option Bytes → Bytes
written none = []
written (some b) = b

-- The status of a failed read, and how many timeouts it counts.
abbrev pub failure_status : Error → ℕ
failure_status (Error.cursor e) = 400
failure_status Error.deadline = 503
failure_status Error.point = 503
failure_status Error.backend = 503

abbrev pub timeouts_after : Error → ℕ → ℕ
timeouts_after (Error.cursor e) n = n
timeouts_after Error.deadline n = add_counter n 1
timeouts_after Error.point n = n
timeouts_after Error.backend n = n

-- A status alone.
sent_once : (header : Bytes → Bytes) (code : ℕ) → IsCoherent (write_header code (fresh header))
sent_once header code = write_header-IsCoherent code (fresh header) (fresh-IsCoherent header)

module _ {S : Type 0} (ops : Store S) (format_float : Float64 → ℕ → Bytes) (id : Bytes)
    (st : State S) where
  -- A good id; the store is left as the read of the newest 256 points leaves it.
  pub record IsRead (o : Outcome S) (r : Result Error (List Point)) : Type 0 where
    pub valid : valid_id id ≡ true
    pub found : (ops.recent st.store id 256).1 ≡ r
    pub store : o.state.store ≡ (ops.recent st.store id 256).0
    pub points : o.state.points ≡ st.points
    pub requests : o.state.requests ≡ st.requests
    pub coherent : IsCoherent o.writer

  -- A 404 for fewer than 8 points, else the score.
  pub record IsScored (o : Outcome S) (pts : List Point) : Type 0 where
    pub calm : o.panicked ≡ false
    pub timeouts : o.state.read_timeouts ≡ st.read_timeouts
    pub answer :
        ((length pts < min_samples) × (o.writer.status ≡ 404) × (o.writer.body ≡ []))
        ⊎ ((r : Score) × (compute pts ≡ some r)
            × (min_samples ≤ length pts)
            × (o.writer.status ≡ 200)
            × (o.writer.body ≡ written (encode_score format_float r)))

  pub record IsFailed (o : Outcome S) (e : Error) : Type 0 where
    pub calm : o.panicked ≡ false
    pub timeouts : o.state.read_timeouts ≡ timeouts_after e st.read_timeouts
    pub status : o.writer.status ≡ failure_status e
    pub body : o.writer.body ≡ []

  pub record IsRefused (o : Outcome S) : Type 0 where
    pub invalid : valid_id id ≡ false
    pub state : o.state ≡ st
    pub calm : o.panicked ≡ false
    pub coherent : IsCoherent o.writer
    pub status : o.writer.status ≡ 400
    pub body : o.writer.body ≡ []

  abbrev pub IsReply : Outcome S → Type 0
  IsReply o =
      IsRefused o
      ⊎ ((pts : List Point) × IsRead o (ok pts) × IsScored o pts)
      ⊎ ((e : Error) × IsRead o (err e) × IsFailed o e)
      ⊎ (IsRead o panic × (o.panicked ≡ true))

  bad-IsReply :
      (header : Bytes → Bytes) → valid_id id ≡ false → IsRefused (reply st (fresh header) 400)
  unfolding fresh write_header
  bad-IsReply header h = record {
    invalid = h;
    state = refl;
    calm = refl;
    coherent = sent_once header 400;
    status = refl;
    body = refl;
  }

  -- The state after the read.
  abbrev after : State S
  after = record st { store = (ops.recent st.store id 256).0 }

  error-IsReply :
      (header : Bytes → Bytes) (e : Error)
      → valid_id id ≡ true
      → (ops.recent st.store id 256).1 ≡ err e
      → IsRead (refuse after (fresh header) (read_status e after)) (err e)
        × IsFailed (refuse after (fresh header) (read_status e after)) e
  unfolding fresh write_header refuse read_status
  error-IsReply header (Error.cursor e) v h = (
    record {
      valid = v;
      found = h;
      store = refl;
      points = refl;
      requests = refl;
      coherent = sent_once header 400;
    },
    record { calm = refl; timeouts = refl; status = refl; body = refl },
  )
  error-IsReply header Error.deadline v h = (
    record {
      valid = v;
      found = h;
      store = refl;
      points = refl;
      requests = refl;
      coherent = sent_once header 503;
    },
    record { calm = refl; timeouts = refl; status = refl; body = refl },
  )
  error-IsReply header Error.point v h = (
    record {
      valid = v;
      found = h;
      store = refl;
      points = refl;
      requests = refl;
      coherent = sent_once header 503;
    },
    record { calm = refl; timeouts = refl; status = refl; body = refl },
  )
  error-IsReply header Error.backend v h = (
    record {
      valid = v;
      found = h;
      store = refl;
      points = refl;
      requests = refl;
      coherent = sent_once header 503;
    },
    record { calm = refl; timeouts = refl; status = refl; body = refl },
  )

  few-IsScored :
      (header : Bytes → Bytes) (pts : List Point)
      → length pts < min_samples
      → IsScored (reply after (fresh header) 404) pts
  unfolding fresh write_header
  few-IsScored header pts h = record { calm = refl; timeouts = refl; answer = inl (h, refl, refl) }

  pub encoded_writer :
      (b : Option Bytes) (header : Bytes → Bytes)
      → ((write_encoded 200 b (fresh header)).status ≡ 200)
        × ((write_encoded 200 b (fresh header)).body ≡ written b)
  unfolding write_encoded write_json set_header write_header write_body fresh
  encoded_writer none header = (refl, refl)
  encoded_writer (some b) header = (refl, refl)

  score-IsReply :
      (header : Bytes → Bytes) (pts : List Point)
      → valid_id id ≡ true
      → (ops.recent st.store id 256).1 ≡ ok pts
      → IsReply (reply_score format_float after (fresh header) pts)
  unfolding reply_score compute
  score-IsReply header pts v h = elim (Bool-cases (ltb (length pts) min_samples)) [
    | inl e ↦
        rw (reply_score, e)
          (inr (
            inl (
              pts,
              record {
                valid = v;
                found = h;
                store = refl;
                points = refl;
                requests = refl;
                coherent = sent_once header 404;
              },
              few-IsScored header pts (ground (arith, e)),
            )))
    | inr e ↦
        rw (reply_score, e)
          (let r : Score = score_of (newest_window pts) in
            let (status, body) = encoded_writer (encode_score format_float r) header in
            inr (
              inl (
                pts,
                record {
                  valid = v;
                  found = h;
                  store = refl;
                  points = refl;
                  requests = refl;
                  coherent =
                      write_encoded-IsCoherent 200 (encode_score format_float r) (fresh header)
                        (fresh-IsCoherent header);
                },
                record {
                  calm = refl;
                  timeouts = refl;
                  answer = inr (r, rw e refl, ground (arith, e), status, body);
                },
              )))
  ]

  -- For every store, an anomaly request leaves the response coherent (the wrapper knows the status
  -- line that is sent) and the counters of points and responses as they were, and is one of these:
  -- a refused id, 400 with nothing changed; the newest 256 points read, 404 for fewer than 8 of
  -- them, else 200 with the JSON of their score, or no body if that has no encoding; a failed
  -- read, 400 for a cursor and else 503, with a deadline counted as a read timeout; or the panic
  -- of the store.
  pub anomaly-IsReply :
      (header : Bytes → Bytes) → IsReply (anomaly ops format_float id st (fresh header))
  unfolding anomaly run_anomaly
  anomaly-IsReply header = elim (Bool-cases (valid_id id)) [
    | inr e ↦ rw (anomaly, e) (inl (bad-IsReply header e))
    | inl e ↦ elim (Result-cases (ops.recent st.store id 256).1) [
      | inl (pts, h) ↦ rw (anomaly, e, run_anomaly, h) (score-IsReply header pts e h)
      | inr (inl (x, h)) ↦
          rw (anomaly, e, run_anomaly, h)
            (let (read, failed) = error-IsReply header x e h in inr (inr (inl (x, read, failed))))
      | inr (inr h) ↦
          rw (anomaly, e, run_anomaly, h)
            (inr (
              inr (
                inr (
                  record {
                    valid = e;
                    found = h;
                    store = refl;
                    points = refl;
                    requests = refl;
                    coherent = fresh-IsCoherent header;
                  },
                  refl,
                ))))
    ]
  ]

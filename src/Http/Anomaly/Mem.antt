-- ===== src/Http/Anomaly/Mem.antt =====
-- On internal/httpapi/anomaly.go over internal/store/mem.go.
use the_500mb_club_challenge.Prelude.{length-reverse}
use the_500mb_club_challenge.Anomaly.Laws.{compute_enough}
use the_500mb_club_challenge.Store.Mem.View.{point_of}
use the_500mb_club_challenge.Model.Point.{Point}
use the_500mb_club_challenge.Http.Writer.{write_encoded, write_header, Writer, fresh}
use the_500mb_club_challenge.Anomaly.{newest_window, score_of, compute, Score, min_samples}
use the_500mb_club_challenge.Http.Query.Mem.{mem_store}
use the_500mb_club_challenge.Http.Anomaly.{encode_score, run_anomaly, reply_score, anomaly}
use the_500mb_club_challenge.Store.Mem.Invariant.{HoldsMembers}
use the_500mb_club_challenge.Http.Validate.{valid_id}
use the_500mb_club_challenge.Http.Handler.{reply, Outcome, State}
use the_500mb_club_challenge.Golang.Float64.{Float64}
use mathlib.Core.List.{reverse}
use the_500mb_club_challenge.Store.Mem.Contents.{recent_lem}
use the_500mb_club_challenge.Prelude.{
  Option-cases, inr, ◌∙◌, inl, length-map, ltb, Bool-cases, some, map, drop, length-drop, ap, arith,
  List, ◌≤◌, ◌-◌, [], ◌<◌, length, false, true, Bytes, ℕ, ◌≡◌, refl,
}
use the_500mb_club_challenge.Store.Mem.{MemStore}
use the_500mb_club_challenge.Http.Anomaly.Reply.{encoded_writer, written}

score_few :
    {S : Type 0} (format_float : Float64 → ℕ → Bytes) (st : State S) (w : Writer) (ps : List Point)
    → length ps < min_samples
    → reply_score format_float st w ps ≡ reply st w 404
unfolding reply_score compute
score_few format_float st w ps h = elim (Bool-cases (ltb (length ps) min_samples)) [
  | inl e ↦ rw (reply_score, e) refl
  | inr e ↦ absurd (ground (arith, e, h))
]

score_enough :
    {S : Type 0} (format_float : Float64 → ℕ → Bytes) (st : State S) (w : Writer) (ps : List Point)
    → min_samples ≤ length ps
    → (r : Score) × (compute ps ≡ some r)
      × (reply_score format_float st w ps ≡ record {
        state = st;
        writer = write_encoded 200 (encode_score format_float r) w;
        panicked = false;
      })
unfolding reply_score
score_enough format_float st w ps h =
    let r : Score = score_of (newest_window ps) in
    let scored : compute ps ≡ some r = compute_enough ps h in
    (r, scored, rw (reply_score, scored) refl)

score_keeps :
    {S : Type 0} (format_float : Float64 → ℕ → Bytes) (st : State S) (w : Writer) (ps : List Point)
    → ((reply_score format_float st w ps).state ≡ st)
      × ((reply_score format_float st w ps).panicked ≡ false)
unfolding reply_score
score_keeps format_float st w ps = elim (Option-cases (compute ps)) [
  | inl e ↦ rw (reply_score, e) (refl, refl)
  | inr (r, e) ↦ rw (reply_score, e) (refl, refl)
]

module _ (format_float : Float64 → ℕ → Bytes) (id : Bytes) (st : State MemStore) where
  -- The 404 of a device with fewer than 8 members, or the score of its newest 256.
  pub record IsAnswer (o : Outcome MemStore) : Type 0 where
    pub state : o.state ≡ st
    pub calm : o.panicked ≡ false
    pub few :
        length (st.store.dev id) < min_samples → (o.writer.status ≡ 404) × (o.writer.body ≡ [])
    pub enough :
        min_samples ≤ length (st.store.dev id)
        → (ps : List Point) × (r : Score) × (reverse ps
            ≡ drop (length (st.store.dev id) - 256) (map point_of (st.store.dev id)))
          × (compute ps ≡ some r)
          × (o.writer.status ≡ 200)
          × (o.writer.body ≡ written (encode_score format_float r))

  -- Over an in-memory store whose members of the device are in order, an anomaly request for a
  -- valid id changes nothing and does not panic: a device with fewer than 8 members gets a 404
  -- without a body; another gets a 200 with the score of the points of its last 256 members, the
  -- newest first.
  pub anomaly-Mem :
      (header : Bytes → Bytes)
      → valid_id id ≡ true
      → HoldsMembers (st.store.dev id)
      → IsAnswer (anomaly mem_store format_float id st (fresh header))
  unfolding anomaly run_anomaly write_header fresh
  anomaly-Mem header v h =
      let (ps, found, newest, ascending) = recent_lem st.store id 256 h in
      let size : length ps ≡ length (st.store.dev id) - (length (st.store.dev id) - 256) = omega (
        arith,
        ap length newest,
        length-reverse ps,
        length-drop (length (st.store.dev id) - 256) (map point_of (st.store.dev id)),
        length-map (st.store.dev id) point_of,
      ) in
      let ran : anomaly mem_store format_float id st (fresh header)
          ≡ reply_score format_float st (fresh header) ps =
        rw (anomaly, v, run_anomaly, found) refl in
      rw ran (record {
        state = (score_keeps format_float st (fresh header) ps).0;
        calm = (score_keeps format_float st (fresh header) ps).1;
        few = λ k.
            let e = score_few format_float st (fresh header) ps (omega (arith, size, k)) in
            (ap (λ o. o.writer.status) e, ap (λ o. o.writer.body) e);
        enough = λ k.
            let (r, scored, e) =
              score_enough format_float st (fresh header) ps (omega (arith, size, k)) in
            let (status, body) =
              encoded_writer mem_store format_float id st (encode_score format_float r) header in
            (
              ps,
              r,
              newest,
              scored,
              ap (λ o. o.writer.status) e ∙ status,
              ap (λ o. o.writer.body) e ∙ body,
            );
      })

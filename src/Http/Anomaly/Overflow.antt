-- ===== src/Http/Anomaly/Overflow.antt =====
-- On internal/httpapi/anomaly.go: a magnitude that is too large.
use the_500mb_club_challenge.Anomaly.Laws.{compute_overflow}
use the_500mb_club_challenge.Golang.Arith.{inf_bits}
use the_500mb_club_challenge.Http.Anomaly.{run_anomaly, reply_score, anomaly, encode_score}
use the_500mb_club_challenge.Anomaly.{magnitude, Score, min_samples}
use the_500mb_club_challenge.Model.Point.{Point}
use the_500mb_club_challenge.Http.Validate.{valid_id}
use the_500mb_club_challenge.Http.Writer.{fresh}
use the_500mb_club_challenge.Golang.Float64.{is_nan, Float64}
use the_500mb_club_challenge.Http.Handler.{State, Store}
use the_500mb_club_challenge.Prelude.{
  ap, ◌∙◌, ◌∷◌, true, none, [], ok, ◌≤◌, length, ok, List, [], Bytes, ℕ, ◌≡◌, refl,
}
use the_500mb_club_challenge.Http.Anomaly.Reply.{written, encoded_writer}

module _ {S : Type 0} (ops : Store S) (format_float : Float64 → ℕ → Bytes) (id : Bytes)
    (st : State S) where
  encode_nan : (r : Score) → is_nan r.z_score ≡ true → encode_score format_float r ≡ none
  unfolding encode_score
  encode_nan r h = rw h refl

  -- If the magnitude of the newest acceleration overflows to +Inf, which finite components can do,
  -- and there are 8 points or more, a valid anomaly request is answered with 200 and an empty
  -- body.
  pub anomaly_overflow :
      (header : Bytes → Bytes) (p : Point) (ps : List Point)
      → valid_id id ≡ true
      → (ops.recent st.store id 256).1 ≡ ok (p ∷ ps)
      → magnitude p ≡ inf_bits
      → min_samples ≤ length (p ∷ ps)
      → ((anomaly ops format_float id st (fresh header)).writer.status ≡ 200)
        × ((anomaly ops format_float id st (fresh header)).writer.body ≡ [])
  unfolding anomaly run_anomaly reply_score
  anomaly_overflow header p ps v h i n =
      let (r, scored, nan) = compute_overflow p ps i n in
      let (status, body) =
        encoded_writer ops format_float id st (encode_score format_float r) header in
      rw (anomaly, v, run_anomaly, h, reply_score, scored)
        (status, body ∙ ap written (encode_nan r nan))

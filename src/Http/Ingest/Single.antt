-- ===== src/Http/Ingest/Single.antt =====
-- On internal/httpapi/telemetry.go: the replies to one point.
use the_500mb_club_challenge.Metrics.{add_counter}
use the_500mb_club_challenge.Prelude.{
  Result-cases, ℕ, ◌≡◌, refl, ◌⊎◌, inl, inr, true, false, none, some, [], ◌∷◌, Bytes, ok, err,
  panic, Bool-cases, Option-cases,
}
use the_500mb_club_challenge.Model.Point.{Point}
use the_500mb_club_challenge.Model.Scan.Object.{parse_point}
use the_500mb_club_challenge.Store.{Error}
use the_500mb_club_challenge.Http.Validate.{valid_id}
use the_500mb_club_challenge.Http.Writer.{IsCoherent, write_header, fresh}
use the_500mb_club_challenge.Http.Handler.{Store, Config, State, Outcome}
use the_500mb_club_challenge.Http.Ingest.{Body, read_body, store_single, ingest_single}
use the_500mb_club_challenge.Http.Ingest.Batch.{read_body_cases}

module _ {S : Type 0} (ops : Store S) (cfg : Config) (id : Bytes) (b : Body) (st : State S) where
  -- The point was handed to the store, which accepted it, failed or panicked.
  pub record IsHanded (o : Outcome S) (p : Point) : Type 0 where
    pub valid : valid_id id ≡ true
    pub read :
        (body : Bytes) × (read_body b cfg.single_max_bytes ≡ inr body) × (parse_point body ≡ some p)
    pub store : o.state.store ≡ (ops.append st.store id (p ∷ [])).0
    pub coherent : IsCoherent o.writer
    pub answer :
        ((n : ℕ) × ((ops.append st.store id (p ∷ [])).1 ≡ ok n)
          × (o.writer.status ≡ 202)
          × (o.state.points ≡ add_counter st.points 1))
        ⊎ ((e : Error) × ((ops.append st.store id (p ∷ [])).1 ≡ err e)
            × (o.writer.status ≡ 503)
            × (o.state.points ≡ st.points))
        ⊎ (((ops.append st.store id (p ∷ [])).1 ≡ panic)
            × (o.panicked ≡ true)
            × (o.state.points ≡ st.points))

  -- The request was refused for its id, its body or its point, and nothing changed.
  pub record IsRefused (o : Outcome S) : Type 0 where
    pub state : o.state ≡ st
    pub calm : o.panicked ≡ false
    pub coherent : IsCoherent o.writer
    pub answer :
        ((o.writer.status ≡ 400) × (valid_id id ≡ false))
        ⊎ ((o.writer.status ≡ 413) × (read_body b cfg.single_max_bytes ≡ inl 413))
        ⊎ ((o.writer.status ≡ 400) × (read_body b cfg.single_max_bytes ≡ inl 400))
        ⊎ ((o.writer.status ≡ 400)
            × (body : Bytes) × (read_body b cfg.single_max_bytes ≡ inr body)
            × (parse_point body ≡ none))

  abbrev pub IsReply : Outcome S → Type 0
  IsReply o = IsRefused o ⊎ ((p : Point) × IsHanded o p)

  single-IsHanded :
      (header : Bytes → Bytes) (p : Point) (body : Bytes)
      → valid_id id ≡ true
      → read_body b cfg.single_max_bytes ≡ inr body
      → parse_point body ≡ some p
      → IsHanded (store_single ops id p st (fresh header)) p
  unfolding store_single write_header fresh
  single-IsHanded header p body v q u = elim (Result-cases (ops.append st.store id (p ∷ [])).1) [
    | inl (n, e) ↦
        rw (store_single, e)
          (record {
            valid = v;
            read = (body, q, u);
            store = refl;
            coherent = record { sent = refl; unsent = λ e. cc e };
            answer = inl (n, e, refl, refl);
          })
    | inr (inl (d, e)) ↦
        rw (store_single, e)
          (record {
            valid = v;
            read = (body, q, u);
            store = refl;
            coherent = record { sent = refl; unsent = λ e. cc e };
            answer = inr (inl (d, e, refl, refl));
          })
    | inr (inr e) ↦
        rw (store_single, e)
          (record {
            valid = v;
            read = (body, q, u);
            store = refl;
            coherent = record { sent = refl; unsent = λ e. refl };
            answer = inr (inr (e, refl, refl));
          })
  ]

  -- For every store, a request to ingest one point leaves the response coherent (the wrapper knows
  -- the status line that is sent) and is refused, with nothing changed and no panic, for its id
  -- with 400, for its size with 413, for a failed read with 400, or for a body that is no valid
  -- point with 400; or else the id and the body are good and the point read from the body is
  -- appended: then the response is 202 and the counter of points is raised by one, or 503 if the
  -- store fails, or a panic if it panics, with the counter as it was.
  pub ingest_single-IsReply :
      (header : Bytes → Bytes) → IsReply (ingest_single ops cfg id b st (fresh header))
  unfolding ingest_single write_header fresh
  ingest_single-IsReply header = elim (Bool-cases (valid_id id)) [
    | inr v ↦
        rw (ingest_single, v)
          (inl (record {
            state = refl;
            calm = refl;
            coherent = record { sent = refl; unsent = λ e. cc e };
            answer = inl (refl, v);
          }))
    | inl v ↦ elim (read_body_cases b cfg.single_max_bytes) [
      | inl q ↦
          rw (ingest_single, v, q)
            (inl (record {
              state = refl;
              calm = refl;
              coherent = record { sent = refl; unsent = λ e. cc e };
              answer = inr (inl (refl, q));
            }))
      | inr (inl q) ↦
          rw (ingest_single, v, q)
            (inl (record {
              state = refl;
              calm = refl;
              coherent = record { sent = refl; unsent = λ e. cc e };
              answer = inr (inr (inl (refl, q)));
            }))
      | inr (inr (body, q)) ↦ elim (Option-cases (parse_point body)) [
        | inl u ↦
            rw (ingest_single, v, q, u)
              (inl (record {
                state = refl;
                calm = refl;
                coherent = record { sent = refl; unsent = λ e. cc e };
                answer = inr (inr (inr (refl, body, q, u)));
              }))
        | inr (p, u) ↦ rw (ingest_single, v, q, u) (inr (p, single-IsHanded header p body v q u))
      ]
    ]
  ]

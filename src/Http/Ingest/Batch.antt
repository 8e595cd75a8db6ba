-- ===== src/Http/Ingest/Batch.antt =====
-- On internal/httpapi/telemetry.go: the replies to a batch.
use the_500mb_club_challenge.Metrics.{add_counter}
use the_500mb_club_challenge.Prelude.{
  Result-cases, ℕ, ◌≤◌, ◌≡◌, refl, ap, ◌⊎◌, inl, inr, true, false, Option, some, List, [], ◌∷◌, map,
  ltb, ◌==◌, Bytes, ok, err, panic, length, length-map, arith, Bool-cases, Option-cases,
}
use the_500mb_club_challenge.Model.Point.{Point}
use the_500mb_club_challenge.Model.Scan.Object.{parse_point}
use the_500mb_club_challenge.Store.{Error}
use the_500mb_club_challenge.Http.Validate.{valid_id}
use the_500mb_club_challenge.Http.Writer.{
  IsCoherent, write_header, write_body, write_json, fresh, set_header,
}
use the_500mb_club_challenge.Http.Handler.{Store, Config, State, Outcome, reply}
use the_500mb_club_challenge.Http.Ingest.{
  Body, read_body, parse_points, accepted, store_batch, check_batch, ingest_batch,
}

parse_points-map :
    (raws : List Bytes) (pts : List Point)
    → parse_points raws ≡ some pts
    → map parse_point raws ≡ map some pts
unfolding parse_points
parse_points-map [] [] h = refl
parse_points-map [] (p ∷ ps) h = cc h
parse_points-map (raw ∷ raws) pts h = elim (Option-cases (parse_point raw)) [
  | inl e ↦ absurd (cc (rw (e, parse_points) at h))
  | inr (p, e) ↦ elim (Option-cases (parse_points raws)) [
    | inl d ↦ absurd (cc (rw (parse_points, e, d) at h))
    | inr (ps, d) ↦ cc (rw (parse_points, e, d) at h, e, parse_points-map raws ps d)
  ]
]

pub read_body_cases :
    (b : Body) (max : ℕ)
    → (read_body b max ≡ inl 413)
      ⊎ (read_body b max ≡ inl 400)
      ⊎ ((body : Bytes) × (read_body b max ≡ inr body))
unfolding read_body
read_body_cases b max = elim (Bool-cases (ltb max (length b.bytes))) [
  | inl e ↦ inl (rw (read_body, e) refl)
  | inr e ↦ elim (Bool-cases b.broken) [
    | inl d ↦ inr (inl (rw (read_body, e, d) refl))
    | inr d ↦ inr (inr (b.bytes, rw (read_body, e, d) refl))
  ]
]

module _ {S : Type 0} (ops : Store S) (cfg : Config) (unmarshal : Bytes → Option (List Bytes))
    (id : Bytes) (b : Body) (st : State S) where
  -- The batch was handed to the store: `pts` are its points, each read from its raw form.
  pub record IsStored (o : Outcome S) (raws : List Bytes) (pts : List Point) : Type 0 where
    pub valid : valid_id id ≡ true
    pub raw :
        (body : Bytes) × (read_body b cfg.batch_max_bytes ≡ inr body) × (unmarshal body ≡ some raws)
    pub read : map parse_point raws ≡ map some pts
    pub size : (1 ≤ length pts) × (length pts ≤ 100)
    pub coherent : IsCoherent o.writer
    pub store : o.state.store ≡ (ops.append st.store id pts).0
    pub answer :
        ((n : ℕ) × ((ops.append st.store id pts).1 ≡ ok n)
          × (o.writer.status ≡ 202)
          × (o.writer.body ≡ accepted n)
          × (o.state.points ≡ add_counter st.points n))
        ⊎ ((e : Error) × ((ops.append st.store id pts).1 ≡ err e)
            × (o.writer.status ≡ 503)
            × (o.state.points ≡ st.points))
        ⊎ (((ops.append st.store id pts).1 ≡ panic)
            × (o.panicked ≡ true)
            × (o.state.points ≡ st.points))

  -- The request was refused, and nothing changed.
  pub record IsRefused (o : Outcome S) : Type 0 where
    pub state : o.state ≡ st
    pub calm : o.panicked ≡ false
    pub coherent : IsCoherent o.writer
    pub status : (o.writer.status ≡ 400) ⊎ (o.writer.status ≡ 413)
    pub body : o.writer.body ≡ []

  abbrev pub IsReply : Outcome S → Type 0
  IsReply o = IsRefused o ⊎ ((raws : List Bytes) × (pts : List Point) × IsStored o raws pts)

  bad-IsRefused : (header : Bytes → Bytes) → IsRefused (reply st (fresh header) 400)
  unfolding fresh write_header
  bad-IsRefused header = record {
    state = refl;
    calm = refl;
    coherent = record { sent = refl; unsent = λ e. cc e };
    status = inl refl;
    body = refl;
  }

  large-IsRefused : (header : Bytes → Bytes) → IsRefused (reply st (fresh header) 413)
  unfolding fresh write_header
  large-IsRefused header = record {
    state = refl;
    calm = refl;
    coherent = record { sent = refl; unsent = λ e. cc e };
    status = inr refl;
    body = refl;
  }

  batch-IsStored :
      (header : Bytes → Bytes) (raws : List Bytes) (pts : List Point) (body : Bytes)
      → valid_id id ≡ true
      → read_body b cfg.batch_max_bytes ≡ inr body
      → unmarshal body ≡ some raws
      → map parse_point raws ≡ map some pts
      → (1 ≤ length pts) × (length pts ≤ 100)
      → IsStored (store_batch ops id pts st (fresh header)) raws pts
  unfolding store_batch write_json write_body write_header fresh set_header
  batch-IsStored header raws pts body v q u p s =
      elim (Result-cases (ops.append st.store id pts).1) [
        | inl (n, e) ↦
            rw (store_batch, e)
              (record {
                valid = v;
                raw = (body, q, u);
                read = p;
                size = s;
                store = refl;
                coherent = record { sent = refl; unsent = λ e. cc e };
                answer = inl (n, e, refl, refl, refl);
              })
        | inr (inl (d, e)) ↦
            rw (store_batch, e)
              (record {
                valid = v;
                raw = (body, q, u);
                read = p;
                size = s;
                store = refl;
                coherent = record { sent = refl; unsent = λ e. cc e };
                answer = inr (inl (d, e, refl, refl));
              })
        | inr (inr e) ↦
            rw (store_batch, e)
              (record {
                valid = v;
                raw = (body, q, u);
                read = p;
                size = s;
                store = refl;
                coherent = record { sent = refl; unsent = λ e. refl };
                answer = inr (inr (e, refl, refl));
              })
      ]

  check-IsReply :
      (header : Bytes → Bytes) (raws : List Bytes) (body : Bytes)
      → valid_id id ≡ true
      → read_body b cfg.batch_max_bytes ≡ inr body
      → unmarshal body ≡ some raws
      → IsReply (check_batch ops id raws st (fresh header))
  unfolding check_batch
  check-IsReply header raws body v q u = elim (Bool-cases (length raws == 0)) [
    | inl e ↦ rw (check_batch, e) (inl (bad-IsRefused header))
    | inr e ↦ elim (Bool-cases (ltb 100 (length raws))) [
      | inl d ↦ rw (check_batch, e, d) (inl (large-IsRefused header))
      | inr d ↦ elim (Option-cases (parse_points raws)) [
        | inl k ↦ rw (check_batch, e, d, k) (inl (bad-IsRefused header))
        | inr (pts, k) ↦
            let p = parse_points-map raws pts k in
            let same : length raws ≡ length pts =
              omega
                (arith, length-map raws parse_point, ap length p, length-map pts (λ x. some x)) in
            rw (check_batch, e, d, k)
              (inr (
                raws,
                pts,
                batch-IsStored header raws pts body v q u p
                    (ground (arith, e, same), ground (arith, d, same)),
              ))
      ]
    ]
  ]

  -- For every store and every decoder of the batch object, a batch request leaves the response
  -- coherent (the wrapper knows the status line that is sent). It is refused with 400 or 413, no
  -- panic, no body and no change of the state, or its 1 to 100 points, each read from its raw
  -- form, are appended as one call. Then the response is 202 with the number that the store
  -- accepted, which is added to the counter of points; or 503 if the store fails, or a panic if it
  -- panics, and the counter stays.
  pub ingest_batch-IsReply :
      (header : Bytes → Bytes) → IsReply (ingest_batch ops cfg unmarshal id b st (fresh header))
  unfolding ingest_batch
  ingest_batch-IsReply header = elim (Bool-cases (valid_id id)) [
    | inl e ↦ elim (read_body_cases b cfg.batch_max_bytes) [
      | inl q ↦ rw (ingest_batch, e, q) (inl (large-IsRefused header))
      | inr (inl q) ↦ rw (ingest_batch, e, q) (inl (bad-IsRefused header))
      | inr (inr (body, q)) ↦ elim (Option-cases (unmarshal body)) [
        | inl u ↦ rw (ingest_batch, e, q, u) (inl (bad-IsRefused header))
        | inr (raws, u) ↦ rw (ingest_batch, e, q, u) (check-IsReply header raws body e q u)
      ]
    ]
    | inr e ↦ rw (ingest_batch, e) (inl (bad-IsRefused header))
  ]

-- ===== src/Http/Instance.antt =====
-- On internal/httpapi over internal/store/mem.go: an instance that serves requests in any order.
use mathlib.Core.Path.{subst}
use the_500mb_club_challenge.Prelude.{
  ℕ, ◌≡◌, sym, ap, Option, some, List, [], ◌∷◌, map, Bytes, All, inl, inr, arith,
}
use the_500mb_club_challenge.Golang.Float64.{Float64}
use the_500mb_club_challenge.Metrics.{Registry}
use the_500mb_club_challenge.Model.Point.{Point}
use the_500mb_club_challenge.Model.Scan.Object.{parse_point}
use the_500mb_club_challenge.Model.Scan.Typed.{parse_point-IsTyped}
use the_500mb_club_challenge.Store.Mem.{MemStore}
use the_500mb_club_challenge.Store.Mem.Invariant.{IsStorable, append-IsValid, IsValid}
use the_500mb_club_challenge.Http.Writer.{Writer, fresh, set_header}
use the_500mb_club_challenge.Http.Handler.{
  Config, State, Outcome, reply, serve_http, finish, begin, count_status, healthz, readyz, metrics,
}
use the_500mb_club_challenge.Http.Query.{Request, query}
use the_500mb_club_challenge.Http.Query.Mem.{mem_store, query-IsReply}
use the_500mb_club_challenge.Http.Anomaly.{anomaly}
use the_500mb_club_challenge.Http.Anomaly.Reply.{anomaly-IsReply}
use the_500mb_club_challenge.Http.Ingest.{Body, ingest_single, ingest_batch}
use the_500mb_club_challenge.Http.Ingest.Single.{ingest_single-IsReply}
use the_500mb_club_challenge.Http.Ingest.Batch.{ingest_batch-IsReply}

-- What is read from a body can be stored.
pub parsed-IsStorable : (raw : Bytes) (p : Point) → parse_point raw ≡ some p → IsStorable p
parsed-IsStorable raw p h =
    let (typed, valid, decoded) = parse_point-IsTyped raw p 0 h in
    let positive = valid.ts in (typed, omega (arith, positive))

-- What the routes lead to, and the answer of the mux itself where no route fits.
module _ (cfg : Config) (unmarshal : Bytes → Option (List Bytes))
    (format_float : Float64 → ℕ → Bytes) where
  pub data IsServed : (State MemStore → Writer → Outcome MemStore) → Type 0 where
    single : (id : Bytes) (b : Body) → IsServed (ingest_single mem_store cfg id b)
    batch : (id : Bytes) (b : Body) → IsServed (ingest_batch mem_store cfg unmarshal id b)
    window : (r : Request) → IsServed (query mem_store format_float r)
    scored : (id : Bytes) → IsServed (anomaly mem_store format_float id)
    health : IsServed healthz
    ready : IsServed (readyz mem_store)
    scrape : (base : Registry) → IsServed (metrics base)
    unrouted : (code : ℕ) → IsServed (λ st w. reply st w code)

  -- A request is served, its response counted.
  pub data Reach (st : State MemStore) : State MemStore → Type 0 where
    here : Reach st st
    next :
        {t : State MemStore} {h : State MemStore → Writer → Outcome MemStore}
        → Reach st t
        → IsServed h
        → (header : Bytes → Bytes) → Reach st (serve_http cfg h t header).0

  batch-IsStorable :
      (raws : List Bytes) (pts : List Point)
      → map parse_point raws ≡ map some pts
      → All IsStorable pts
  batch-IsStorable raws [] h = tt
  batch-IsStorable [] (p ∷ pts) h = absurd (cc h)
  batch-IsStorable (raw ∷ raws) (p ∷ pts) h =
      let first : parse_point raw ≡ some p = cc h in
      let others : map parse_point raws ≡ map some pts = cc h in
      (parsed-IsStorable raw p first, batch-IsStorable raws pts others)

  served-IsValid :
      {h : State MemStore → Writer → Outcome MemStore}
      → IsServed h
      → (st : State MemStore) (header : Bytes → Bytes) → IsValid st.store
      → IsValid (h st (fresh header)).state.store
  unfolding healthz readyz metrics
  served-IsValid (single id b) st header v =
      elim (ingest_single-IsReply mem_store cfg id b st header) [
        | inl r ↦ subst IsValid (sym (ap (λ s. s.store) r.state)) v
        | inr (p, r) ↦
            let (body, q, u) = r.read in
            subst IsValid (sym r.store)
              (append-IsValid st.store id (p ∷ []) (parsed-IsStorable body p u, tt) v)
      ]
  served-IsValid (batch id b) st header v =
      elim (ingest_batch-IsReply mem_store cfg unmarshal id b st header) [
        | inl r ↦ subst IsValid (sym (ap (λ s. s.store) r.state)) v
        | inr (raws, pts, r) ↦
            subst IsValid (sym r.store)
              (append-IsValid st.store id pts (batch-IsStorable raws pts r.read) v)
      ]
  served-IsValid (window r) st header v =
      let q = query-IsReply format_float r st header (v.holds r.id) in
      subst IsValid (sym (ap (λ s. s.store) q.state)) v
  served-IsValid (scored id) st header v =
      elim (anomaly-IsReply mem_store format_float id st header) [
        | inl r ↦ subst IsValid (sym (ap (λ s. s.store) r.state)) v
        | inr (inl (pts, r, s)) ↦ subst IsValid (sym r.store) v
        | inr (inr (inl (e, r, s))) ↦ subst IsValid (sym r.store) v
        | inr (inr (inr (r, s))) ↦ subst IsValid (sym r.store) v
      ]
  served-IsValid health st header v = v
  served-IsValid ready st header v = v
  served-IsValid (scrape base) st header v = v
  served-IsValid (unrouted code) st header v = v

  -- Whatever requests an instance over the in-memory store serves, in whatever order and with
  -- whatever bodies, a valid store stays valid: every device holds well-formed members in byte
  -- order, no more than cap of them.
  pub Reach-IsValid : {st t : State MemStore} → IsValid st.store → Reach st t → IsValid t.store
  unfolding serve_http finish begin count_status set_header fresh
  Reach-IsValid v here = v
  Reach-IsValid v (next {t} {h} r s header) =
      served-IsValid s t (begin_header header) (Reach-IsValid v r)
    where
      begin_header : (Bytes → Bytes) → (Bytes → Bytes)
      begin_header hd = (begin cfg hd).header

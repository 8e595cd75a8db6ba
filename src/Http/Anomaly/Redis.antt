-- ===== src/Http/Anomaly/Redis.antt =====
-- On internal/httpapi/anomaly.go over internal/store/redis.go, beside the in-memory store.
use the_500mb_club_challenge.Prelude.{
  arith, [], ℕ, ◌<◌, ◌≡◌, refl, sym, ap, ◌∙◌, false, List, ◌∷◌, map, Bytes, ok, length, Bool-cases,
  Option-cases, inl, inr,
}
use the_500mb_club_challenge.Golang.Float64.{Float64}
use the_500mb_club_challenge.Model.Point.{Point}
use the_500mb_club_challenge.Anomaly.{compute}
use the_500mb_club_challenge.Store.Mem.{MemStore}
use the_500mb_club_challenge.Store.Mem.Contents.{recent_lem}
use the_500mb_club_challenge.Store.Mem.Invariant.{HoldsMembers}
use the_500mb_club_challenge.Store.Redis.{Network, Conn, Client}
use the_500mb_club_challenge.Store.Redis.Conns.{idle}
use the_500mb_club_challenge.Store.Redis.Ops.{key, recent}
use the_500mb_club_challenge.Store.Redis.Range.{member}
use the_500mb_club_challenge.Store.Redis.Recent.{recent-Mem}
use the_500mb_club_challenge.Store.Redis.Server.{Runs, zrevrange, Sets}
use the_500mb_club_challenge.Http.Validate.{valid_id}
use the_500mb_club_challenge.Http.Writer.{Writer}
use the_500mb_club_challenge.Http.Handler.{State, Store}
use the_500mb_club_challenge.Http.Query.Mem.{mem_store}
use the_500mb_club_challenge.Http.Query.Redis.{redis_store}
use the_500mb_club_challenge.Http.Anomaly.{anomaly, run_anomaly, reply_score}

-- What a score is answered with does not depend on the store, which stays as it is.
score_alike :
    {S T : Type 0} (format_float : Float64 → ℕ → Bytes) (st : State S) (st' : State T) (w : Writer)
    (ps : List Point)
    → ((reply_score format_float st w ps).writer ≡ (reply_score format_float st' w ps).writer)
      × ((reply_score format_float st w ps).panicked ≡ false)
      × ((reply_score format_float st w ps).state ≡ st)
unfolding reply_score
score_alike format_float st st' w ps = elim (Option-cases (compute ps)) [
  | inl e ↦ rw (reply_score, e) (refl, refl, refl)
  | inr (r, e) ↦ rw (reply_score, e) (refl, refl, refl)
]

run_scored :
    {S : Type 0} (ops : Store S) (format_float : Float64 → ℕ → Bytes) (id : Bytes) (st : State S)
    (w : Writer) (ps : List Point)
    → (ops.recent st.store id 256).1 ≡ ok ps
    → run_anomaly ops format_float id st w
      ≡ reply_score format_float (record st { store = (ops.recent st.store id 256).0 }) w ps
unfolding run_anomaly
run_scored ops format_float id st w ps h = rw (run_anomaly, h) refl

-- When the first pooled connection is idle, the members held for the device are well formed (65
-- bytes, a timestamp that is not negative) and in byte order, and the server runs the ZREVRANGE
-- command (as documented: so many members from the end, the last first), an anomaly request over
-- Redis does not panic, changes no set on the server, and gets the response that it gets over an
-- in-memory store with the same members.
pub anomaly-Redis :
    {W C : Type 0} (net : Network W C) (sets : W → Sets) (format_float : Float64 → ℕ → Bytes)
    (s : Client C) (w : W) (c : C) (rest : List (Conn C)) (st : State (Client C × W))
    (mem : State MemStore) (id : Bytes) (wr : Writer)
    → s.pool ≡ idle c ∷ rest
    → length rest < s.pool_size
    → mem.store.dev id ≡ map member (sets w (key id))
    → HoldsMembers (mem.store.dev id)
    → Runs net sets w c (zrevrange (key id) 255 ∷ [])
    → ((anomaly (redis_store net) format_float id (record st { store = (s, w) }) wr).writer
        ≡ (anomaly mem_store format_float id mem wr).writer)
      × ((anomaly (redis_store net) format_float id (record st { store = (s, w) }) wr).panicked
          ≡ false)
      × (sets
            (anomaly
              (redis_store net)
              format_float
              id
              (record st { store = (s, w) })
              wr).state.store.1
          ≡ sets w)
unfolding anomaly run_anomaly
anomaly-Redis net sets format_float s w c rest st mem id wr hp hs same holds runs =
    elim (Bool-cases (valid_id id)) [
      | inr v ↦ rw (anomaly, v) (refl, refl, refl)
      | inl v ↦
          let (ps, found, newest, ascending) = recent_lem mem.store id 256 holds in
          let (alike, kept) =
            recent-Mem net sets s w c rest mem.store id 255 hp hs same holds (omega arith) runs in
          let read : (recent net s w id 256).0 ≡ ok ps = alike ∙ found in
          let after : State (Client _ × _) = record st { store = (recent net s w id 256).1 } in
          let (writer, calm, state) = score_alike format_float after mem wr ps in
          let ran : anomaly (redis_store net) format_float id (record st { store = (s, w) }) wr
              ≡ reply_score format_float after wr ps =
            rw v (
              run_scored (redis_store net) format_float id (record st { store = (s, w) }) wr ps
                read) in
          let ran_mem : anomaly mem_store format_float id mem wr
              ≡ reply_score format_float mem wr ps =
            rw v (run_scored mem_store format_float id mem wr ps found) in
          (
            ap (λ o. o.writer) ran ∙ writer ∙ sym (ap (λ o. o.writer) ran_mem),
            ap (λ o. o.panicked) ran ∙ calm,
            ap (λ o. sets o.state.store.1) ran
                ∙ ap (λ (x : State (Client _ × _)). sets x.store.1) state
                ∙ kept,
          )
    ]

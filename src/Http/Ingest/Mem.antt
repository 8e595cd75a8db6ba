-- ===== src/Http/Ingest/Mem.antt =====
-- On internal/httpapi/telemetry.go over internal/store/mem.go: one point, from its JSON to the device.
use mathlib.Core.List.{Perm}
use the_500mb_club_challenge.Prelude.{
  ◌+◌, ◌-◌, ◌%◌, ◌^◌, ◌≡◌, refl, true, false, some, List, [], ◌∷◌, Bytes, bytes_eq, inr, length,
  drop,
}
use the_500mb_club_challenge.Metrics.{add_counter}
use the_500mb_club_challenge.Model.Point.{Point}
use the_500mb_club_challenge.Model.Codec.{encode}
use the_500mb_club_challenge.Model.Scan.Object.{parse_point}
use the_500mb_club_challenge.Store.Mem.{MemStore}
use the_500mb_club_challenge.Store.Mem.Contents.{append_contents}
use the_500mb_club_challenge.Store.Mem.Invariant.{IsValid, HoldsMembers, encodings}
use the_500mb_club_challenge.Http.Validate.{valid_id}
use the_500mb_club_challenge.Http.Writer.{fresh, write_header}
use the_500mb_club_challenge.Http.Handler.{Config, State, Outcome}
use the_500mb_club_challenge.Http.Query.Mem.{mem_store}
use the_500mb_club_challenge.Http.Ingest.{Body, read_body, store_single, ingest_single}
use the_500mb_club_challenge.Http.Instance.{parsed-IsStorable}

module _ (id : Bytes) (st : State MemStore) where
  -- The device has the last members, up to the cap, of its old ones and the new one in their order.
  pub record IsTaken (o : Outcome MemStore) (p : Point) : Type 0 where
    pub status : o.writer.status ≡ 202
    pub calm : o.panicked ≡ false
    pub points : o.state.points ≡ add_counter st.points 1
    pub all : List Bytes
    pub perm : Perm all (encode p ((st.store.seq + 1) % 2 ^ 64) ∷ st.store.dev id)
    pub ordered : HoldsMembers all
    pub kept : o.state.store.dev id ≡ drop (length all - st.store.cap) all
    pub others : (j : Bytes) → bytes_eq id j ≡ false → o.state.store.dev j ≡ st.store.dev j

  -- Over a valid in-memory store, a POST to a valid id whose body is read and is the JSON of a
  -- point is answered with 202 and counted; the device then holds the last cap members, in byte
  -- order, of a rearrangement of its old members and the encoding of that point under the next
  -- sequence number, and every other device holds what it held.
  pub ingest_single-IsTaken :
      (cfg : Config) (b : Body) (header : Bytes → Bytes) (body : Bytes) (p : Point)
      → IsValid st.store
      → valid_id id ≡ true
      → read_body b cfg.single_max_bytes ≡ inr body
      → parse_point body ≡ some p
      → IsTaken (ingest_single mem_store cfg id b st (fresh header)) p
  unfolding ingest_single store_single write_header fresh encodings
  ingest_single-IsTaken cfg b header body p v hid q u =
      let (all, perm, ordered, kept, others, stored) =
        append_contents st.store id (p ∷ []) (parsed-IsStorable body p u, tt) v in
      rw (ingest_single, hid, q, u, store_single, stored)
        (record {
          status = refl;
          calm = refl;
          points = refl;
          all = all;
          perm = perm;
          ordered = ordered;
          kept = kept;
          others = others;
        })

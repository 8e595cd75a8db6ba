-- ===== src/Http/Query/Redis.antt =====
-- On internal/httpapi/query.go over internal/store/redis.go: a query that the server does not answer.
use the_500mb_club_challenge.Metrics.{add_counter}
use the_500mb_club_challenge.Http.Writer.{write_header, fresh}
use the_500mb_club_challenge.Model.Codec.{encoded_len}
use the_500mb_club_challenge.Resp.Fixed.{read_fixed_bulk_array}
use the_500mb_club_challenge.Resp.{encode_command}
use the_500mb_club_challenge.Store.Redis.Conns.{use_conn_fail, idle}
use the_500mb_club_challenge.Http.Validate.{parse_limit, parse_int64, valid_id}
use the_500mb_club_challenge.Resp
use the_500mb_club_challenge.Store.{Error}
use the_500mb_club_challenge.Prelude.Int.{ltb_ℤ, ℤ}
use the_500mb_club_challenge.Golang.Float64.{Float64}
use the_500mb_club_challenge.Http.Query.{Request, refuse, run_query, query_window, query}
use the_500mb_club_challenge.Http.Handler.{reply, State, read_status, Store}
use the_500mb_club_challenge.Prelude.{
  ℕ, ◌≡◌, refl, ap, true, false, some, List, ◌∷◌, Bytes, codes, Result, ok, err,
}
use the_500mb_club_challenge.Store.Redis.{Network, Conn, Client, Answer, ctx_or}
use the_500mb_club_challenge.Store.Redis.Ops.{
  range_command, query_start, run_range, read_points, ping, append, range, recent,
}

-- The state first, as the interface has it.
abbrev swap : {W C A : Type 0} → Answer W C A → (Client C × W) × Result Error A
swap (r, sw) = (sw, r)

-- `redisStore` as a `Store`.
abbrev pub redis_store : {W C : Type 0} → Network W C → Store (Client C × W)
redis_store net = record {
  ping = λ (s, w). swap (ping net s w);
  append = λ (s, w) id pts. swap (append net s w id pts);
  range = λ (s, w) id from to limit cur. swap (range net s w id from to limit cur);
  recent = λ (s, w) id n. swap (recent net s w id n);
}

module _ {W C : Type 0} (net : Network W C) (s : Client C) (w after : W) (c : C)
    (rest : List (Conn C)) where
  read_points_fail :
      (cmd : List Bytes) (answer : Bytes) (e : Resp.Error)
      → s.pool ≡ idle c ∷ rest
      → net.exchange w c (encode_command cmd) ≡ (after, some answer)
      → read_fixed_bulk_array encoded_len answer ≡ err e
      → net.done (net.close after c) ≡ some Error.deadline
      → read_points net cmd s w
        ≡ (err Error.deadline, (record s { pool = rest }, net.close after c))
  unfolding read_points ctx_or
  read_points_fail cmd answer e hp he hr hd =
      rw
        (
          use_conn_fail net (read_fixed_bulk_array encoded_len) (encode_command cmd) s w after c
              rest answer e hp he hr,
          ctx_or,
          hd,
        )
        refl

  range_fail :
      (id : Bytes) (from to : ℤ) (limit : ℕ) (cur : Bytes) (ts : ℤ) (skip : ℕ) (answer : Bytes)
      (e : Resp.Error)
      → query_start from cur ≡ ok (ts, skip)
      → s.pool ≡ idle c ∷ rest
      → net.exchange w c (encode_command (range_command id ts to skip limit)) ≡ (after, some answer)
      → read_fixed_bulk_array encoded_len answer ≡ err e
      → net.done (net.close after c) ≡ some Error.deadline
      → range net s w id from to limit cur
        ≡ (err Error.deadline, (record s { pool = rest }, net.close after c))
  unfolding range run_range
  range_fail id from to limit cur ts skip answer e hc hp he hr hd =
      rw
        (
          range,
          hc,
          run_range,
          read_points_fail (range_command id ts to skip limit) answer e hp he hr hd,
        )
        refl

  -- A good range query over Redis whose answer cannot be read, with the deadline over once its
  -- connection is closed: the connection is closed and not pooled again, the response is a 503
  -- without a body, and the counter of read timeouts goes up by one.
  pub query-Redis_timeout :
      (format_float : Float64 → ℕ → Bytes) (r : Request) (st : State (Client C × W))
      (header : Bytes → Bytes) (from to : ℤ) (limit : ℕ) (ts : ℤ) (skip : ℕ) (answer : Bytes)
      (e : Resp.Error)
      → valid_id r.id ≡ true
      → parse_int64 (r.query (codes "from")) ≡ some from
      → parse_int64 (r.query (codes "to")) ≡ some to
      → ltb_ℤ to from ≡ false
      → parse_limit (r.query (codes "limit")) ≡ some limit
      → query_start from (r.query (codes "cursor")) ≡ ok (ts, skip)
      → s.pool ≡ idle c ∷ rest
      → net.exchange w c (encode_command (range_command r.id ts to skip limit))
        ≡ (after, some answer)
      → read_fixed_bulk_array encoded_len answer ≡ err e
      → net.done (net.close after c) ≡ some Error.deadline
      → query (redis_store net) format_float r (record st { store = (s, w) }) (fresh header)
        ≡ record {
          state = record st {
            store = (record s { pool = rest }, net.close after c);
            read_timeouts = add_counter st.read_timeouts 1;
          };
          writer = write_header 503 (fresh header);
          panicked = false;
        }
  unfolding query query_window run_query refuse read_status
  query-Redis_timeout format_float r st header from to limit ts skip answer e hv ha hb ho hl hc hp
        he hr hd =
      let failed =
        range_fail r.id from to limit (r.query (codes "cursor")) ts skip answer e hc hp he hr hd in
      rw (query, hv, ha, hb, query_window, ho, hl, run_query, failed)
        (ap
          (λ v.
            reply (record st { store = v; read_timeouts = add_counter st.read_timeouts 1 })
              (fresh header) 503)
          (ap (λ z. z.1) failed))

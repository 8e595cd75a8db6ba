-- ===== src/Http/Query/Mem.antt =====
-- On internal/httpapi/query.go: range queries over the in-memory store.
use the_500mb_club_challenge.Prelude.{
  ℕ, zero, suc, ◌≤◌, ◌≡◌, refl, ◌⊎◌, inl, inr, true, false, Option, none, some, List, [], Bytes,
  codes, ok, length, arith, Bool-cases, Option-cases,
}
use the_500mb_club_challenge.Prelude.Int.{ℤ, ltb_ℤ, ◌≤ℤ◌}
use the_500mb_club_challenge.Golang.Float64.{Float64}
use the_500mb_club_challenge.Model.Point.{Point}
use the_500mb_club_challenge.Store.Mem.{MemStore, append, range, recent}
use the_500mb_club_challenge.Store.Mem.Invariant.{HoldsMembers}
use the_500mb_club_challenge.Store.Mem.Answers.{range-IsAnswer}
use the_500mb_club_challenge.Http.Validate.{
  valid_id, parse_int64, parse_limit, parse_limit_range, max_limit,
}
use the_500mb_club_challenge.Http.Writer.{
  IsCoherent, write_header, write_body, write_json, fresh, set_header,
}
use the_500mb_club_challenge.Http.Json.{append_range_json}
use the_500mb_club_challenge.Http.Handler.{Store, State, Outcome, read_status, reply}
use the_500mb_club_challenge.Http.Query.{Request, refuse, run_query, query_window, query}

-- `NewMem` as a `Store`; its `Ping` never fails.
abbrev pub mem_store : Store MemStore
mem_store = record {
  ping = λ m. (m, ok tt);
  append = append;
  range = λ m id from to limit cur. (m, range m id from to limit cur);
  recent = λ m id n. (m, recent m id n);
}

module _ (format_float : Float64 → ℕ → Bytes) (r : Request) (st : State MemStore) where
  -- The page of a query whose parameters are all good.
  pub record IsPage (o : Outcome MemStore) (from to : ℤ) (limit : ℕ) (page : List Point)
      (next : Bytes) : Type 0 where
    pub valid : valid_id r.id ≡ true
    pub lower : parse_int64 (r.query (codes "from")) ≡ some from
    pub upper : parse_int64 (r.query (codes "to")) ≡ some to
    pub ordered : from ≤ℤ to
    pub limited : parse_limit (r.query (codes "limit")) ≡ some limit
    pub small : (length page ≤ limit) × (limit ≤ max_limit)
    pub found : range st.store r.id from to limit (r.query (codes "cursor")) ≡ ok (page, next)
    pub status : o.writer.status ≡ 200
    pub body : o.writer.body ≡ append_range_json format_float [] page next

  -- Nothing but the response changes; it is a 400 without a body, or a page.
  pub record IsReply (o : Outcome MemStore) : Type 0 where
    pub state : o.state ≡ st
    pub calm : o.panicked ≡ false
    pub coherent : IsCoherent o.writer
    pub answer :
        ((o.writer.status ≡ 400) × (o.writer.body ≡ []))
        ⊎ ((from to : ℤ) × (limit : ℕ) × (page : List Point) × (next : Bytes) × IsPage o from to
              limit page next)

  bad-IsReply : (header : Bytes → Bytes) → IsReply (reply st (fresh header) 400)
  unfolding fresh write_header
  bad-IsReply header = record {
    state = refl;
    calm = refl;
    coherent = record { sent = refl; unsent = λ e. cc e };
    answer = inl (refl, refl);
  }

  run-IsReply :
      (from to : ℤ) (limit : ℕ) (header : Bytes → Bytes)
      → valid_id r.id ≡ true
      → parse_int64 (r.query (codes "from")) ≡ some from
      → parse_int64 (r.query (codes "to")) ≡ some to
      → from ≤ℤ to
      → parse_limit (r.query (codes "limit")) ≡ some limit
      → HoldsMembers (st.store.dev r.id)
      → IsReply (
          run_query mem_store format_float r.id from to limit
            (r.query (codes "cursor"))
            st
            (fresh header))
  unfolding run_query write_json write_body write_header fresh set_header refuse read_status
  run-IsReply from to zero header v a b o l h = absurd (omega (arith, (parse_limit_range _ l).0))
  run-IsReply from to (suc n) header v a b o l h =
      elim (range-IsAnswer st.store r.id from to n (r.query (codes "cursor")) h
        (omega (arith, (parse_limit_range _ l).1))) [
          | inl (page, next, q, small) ↦
              rw (run_query, q)
                (record {
                  state = refl;
                  calm = refl;
                  coherent = record { sent = refl; unsent = λ e. cc e };
                  answer = inr (
                    from,
                    to,
                    suc n,
                    page,
                    next,
                    record {
                      valid = v;
                      lower = a;
                      upper = b;
                      ordered = o;
                      limited = l;
                      small = (small, (parse_limit_range _ l).1);
                      found = q;
                      status = refl;
                      body = refl;
                    },
                  );
                })
          | inr (e, q) ↦ rw (run_query, q) (bad-IsReply header)
        ]

  window-IsReply :
      (header : Bytes → Bytes) (from to : Option ℤ)
      → valid_id r.id ≡ true
      → parse_int64 (r.query (codes "from")) ≡ from
      → parse_int64 (r.query (codes "to")) ≡ to
      → HoldsMembers (st.store.dev r.id)
      → IsReply (query_window mem_store format_float r from to st (fresh header))
  unfolding query_window
  window-IsReply header none to v a b h = bad-IsReply header
  window-IsReply header (some from) none v a b h = bad-IsReply header
  window-IsReply header (some from) (some to) v a b h = elim (Bool-cases (ltb_ℤ to from)) [
    | inl e ↦ rw (query_window, e) (bad-IsReply header)
    | inr e ↦ elim (Option-cases (parse_limit (r.query (codes "limit")))) [
      | inl d ↦ rw (query_window, e, d) (bad-IsReply header)
      | inr (limit, d) ↦
          rw (query_window, e, d) (run-IsReply from to limit header v a b (ground arith) d h)
    ]
  ]

  -- Over an in-memory store whose members of the queried device are in order, a range query
  -- changes neither the store nor a counter, never panics, and leaves the response coherent (the
  -- wrapper knows the status line that is sent). Its response is a 400 without a body, or a 200
  -- whose body is the JSON of the page and cursor that Range returns, where the id is valid, from
  -- and to are read with from <= to, the limit is read and at most 500, and the page keeps the
  -- limit.
  pub query-IsReply :
      (header : Bytes → Bytes)
      → HoldsMembers (st.store.dev r.id)
      → IsReply (query mem_store format_float r st (fresh header))
  unfolding query
  query-IsReply header h = elim (Bool-cases (valid_id r.id)) [
    | inl e ↦ rw (query, e) (window-IsReply header _ _ e refl refl h)
    | inr e ↦ rw (query, e) (bad-IsReply header)
  ]

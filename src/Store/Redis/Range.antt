-- ===== src/Store/Redis/Range.antt =====
-- On internal/store/redis.go: queries, beside those of the in-memory store on the same members.
use the_500mb_club_challenge.Cursor
use the_500mb_club_challenge.Store.Mem.Answers.{lower_bound_cases}
use the_500mb_club_challenge.Store.Mem.View.{fetch-map}
use the_500mb_club_challenge.Store.Mem.{point_size, MemStore}
use the_500mb_club_challenge.Prelude.{
  le→ltb, length-take, All-filter, All-drop, All-take, drop-map, take-map, err, ◌+◌, ℕ, suc, ◌*◌,
  ◌≤◌, ◌<◌, ◌≡◌, refl, sym, ap, ◌∙◌, some, List, [], ◌∷◌, ◌++◌, append-nil, map, Bytes, ok, All-imp,
  length, take, take-append, drop, drop-append, filter, All, arith, Bool-cases, inl, inr,
}
use the_500mb_club_challenge.Prelude.Int.{ℤ}
use the_500mb_club_challenge.Model.Point.{Point}
use the_500mb_club_challenge.Model.Codec.{encoded_len, decode}
use the_500mb_club_challenge.Resp.{encode_command, max_alloc}
use the_500mb_club_challenge.Resp.Fixed.{read_fixed_bulk_array}
use the_500mb_club_challenge.Resp.Fixed.Laws.{concat, read_fixed-encode_command}
use the_500mb_club_challenge.Store.Mem.{
  MemStore, range as mem_range, range_from, lower_bound, mem_ts, in_window,
}
use the_500mb_club_challenge.Store.Mem.Invariant.{HoldsMembers, IsMember}
use the_500mb_club_challenge.Store.Mem.View.{point_of, decode-point_of}
use the_500mb_club_challenge.Store.Redis.{encode_commands, Network, Conn, Client}
use the_500mb_club_challenge.Store.Redis.Conns.{idle, use_conn_hit}
use the_500mb_club_challenge.Store.Redis.Ops.{
  range, run_range, key, itoa, range_command, query_start, decode_backing, read_points,
}
use the_500mb_club_challenge.Store.{Error}
use the_500mb_club_challenge.Store.Redis.Server.{
  none_left, ranged, one_more, Runs, zrangebyscore, AreAnswers, Sets, args, after_command, Entry,
  scored_in,
}

-- The score of an entry is the timestamp in its member.
abbrev pub IsScored : List Entry → Type 0
IsScored es = All (λ e. e.0 ≡ mem_ts e.1) es

abbrev pub member : Entry → Bytes
member e = e.1

decode_backing_step :
    (count : ℕ) (b : Bytes) (p : Point) (ps : List Point)
    → decode (take encoded_len b) ≡ some p
    → decode_backing count (drop encoded_len b) ≡ ok ps
    → decode_backing (suc count) b ≡ ok (p ∷ ps)
unfolding decode_backing
decode_backing_step count b p ps h k = rw (decode_backing, h, k) refl

decode_backing-concat :
    (ms : List Bytes)
    → All IsMember ms
    → decode_backing (length ms) (concat ms) ≡ ok (map point_of ms)
unfolding decode_backing concat
decode_backing-concat [] h = refl
decode_backing-concat (m ∷ ms) (hm, h) =
    let front : take encoded_len (m ++ concat ms) ≡ m =
      ap (λ k. take k (m ++ concat ms)) (sym hm.size) ∙ take-append m (concat ms) in
    let back : drop encoded_len (m ++ concat ms) ≡ concat ms =
      ap (λ k. drop k (m ++ concat ms)) (sym hm.size) ∙ drop-append m (concat ms) in
    decode_backing_step (length ms) (m ++ concat ms) (point_of m) (map point_of ms)
      (ap decode front ∙ (decode-point_of m hm).0)
      (ap (decode_backing (length ms)) back ∙ decode_backing-concat ms h)

-- On scores that are timestamps, the server's range is the window of the members.
scored_filter :
    (lo hi : ℤ) (es : List Entry)
    → IsScored es
    → map member (filter (scored_in lo hi) es) ≡ filter (in_window lo hi) (map member es)
unfolding scored_in in_window
scored_filter lo hi [] h = refl
scored_filter lo hi (e ∷ es) (he, h) = elim (Bool-cases (in_window lo hi e.1)) [
  | inl k ↦ rw (scored_in, he, k) (ap (λ t. e.1 ∷ t) (scored_filter lo hi es h))
  | inr k ↦ rw (scored_in, he, k) (scored_filter lo hi es h)
]

module _ {W C : Type 0} (net : Network W C) where
  -- A command on a connection of the pool, answered with members.
  pub read_points_hit :
      (cmd : List Bytes) (s : Client C) (w w' : W) (c : C) (rest : List (Conn C)) (ms : List Bytes)
      → s.pool ≡ idle c ∷ rest
      → length rest < s.pool_size
      → net.exchange w c (encode_command cmd) ≡ (w', some (encode_command ms))
      → All IsMember ms
      → length ms * encoded_len ≤ max_alloc
      → read_points net cmd s w
        ≡ (ok (map point_of ms), (record s { pool = rest ++ idle c ∷ [] }, w'))
  unfolding read_points
  read_points_hit cmd s w w' c rest ms hp hs he hm hr =
      let sized : All (λ m. length m ≡ encoded_len) ms = All-imp IsMember _ (λ m h. h.size) ms hm in
      let got : read_fixed_bulk_array encoded_len (encode_command ms)
          ≡ ok ((concat ms, length ms), []) =
        ap (read_fixed_bulk_array encoded_len) (sym (append-nil (encode_command ms)))
        ∙ read_fixed-encode_command encoded_len ms [] (omega arith) (omega arith) hr sized in
      rw
        (
          use_conn_hit net (read_fixed_bulk_array encoded_len) (encode_command cmd) s w w' c rest
              (encode_command ms) (concat ms, length ms) hp hs he got,
          decode_backing-concat ms hm,
        )
        refl

  -- The server's answer to a range is what it lists.
  ranged_answer :
      {sets end : Sets} {k : Bytes} {lo hi : ℤ} {skip count : ℕ} {a : Bytes}
      → AreAnswers sets (zrangebyscore k lo hi skip count ∷ []) a end
      → (a
          ≡ encode_command
              (map member (take count (drop skip (filter (scored_in lo hi) (sets k))))))
        × (end ≡ sets)
  unfolding after_command
  ranged_answer (one_more (ranged k lo hi skip count) none_left) = (append-nil _, refl)

  range_sent :
      (sets : W → Sets) (s : Client C) (w : W) (c : C) (rest : List (Conn C)) (id : Bytes)
      (ts to : ℤ) (skip limit : ℕ)
      → s.pool ≡ idle c ∷ rest
      → length rest < s.pool_size
      → IsScored (sets w (key id))
      → HoldsMembers (map member (sets w (key id)))
      → (limit + 1) * encoded_len ≤ max_alloc
      → Runs net sets w c (zrangebyscore (key id) ts to skip (limit + 1) ∷ [])
      → (after : W) × (read_points net (range_command id ts to skip limit) s w ≡ (
        ok (
            map point_of (
              take
                (limit + 1)
                (drop skip (filter (in_window ts to) (map member (sets w (key id))))))),
        (record s { pool = rest ++ idle c ∷ [] }, after),
      ))
        × (sets after ≡ sets w)
  unfolding args range_command itoa encode_commands
  range_sent sets s w c rest id ts to skip limit hp hs hscore holds hr runs =
      let ms : List Bytes =
        take (limit + 1) (drop skip (filter (in_window ts to) (map member (sets w (key id))))) in
      let (q, same) = ranged_answer runs.ran in
      let listed : map member
            (take (limit + 1) (drop skip (filter (scored_in ts to) (sets w (key id)))))
          ≡ ms =
        sym (take-map member (limit + 1) _)
        ∙ ap (take (limit + 1)) (sym (drop-map member skip _))
        ∙ ap (λ l. take (limit + 1) (drop skip l)) (scored_filter ts to (sets w (key id)) hscore) in
      let sent : net.exchange w c (encode_command (range_command id ts to skip limit))
          ≡ (runs.after, some (encode_command ms)) =
        ap (net.exchange w c) (sym (append-nil _))
        ∙ runs.sent
        ∙ ap (λ a. (runs.after, some a)) (q ∙ ap encode_command listed) in
      (
        runs.after,
        read_points_hit (range_command id ts to skip limit) s w runs.after c rest ms hp hs sent
            (All-take IsMember (limit + 1) _
              (All-drop IsMember skip _ (All-filter IsMember (in_window ts to) _ holds.members)))
            (omega (
              arith,
              length-take (limit + 1)
                  (drop skip (filter (in_window ts to) (map member (sets w (key id))))),
            )),
        same,
      )

query_start_ok :
    (from : ℤ) (cur : Bytes) (start : ℤ × ℕ)
    → lower_bound from cur ≡ ok start
    → query_start from cur ≡ ok start
unfolding query_start lower_bound
query_start_ok from [] start h = cc h
query_start_ok from (c ∷ cur) start h = rw (query_start, h) refl

query_start_err :
    (from : ℤ) (cur : Bytes) (e : Cursor.Error)
    → lower_bound from cur ≡ err e
    → query_start from cur ≡ err (Error.cursor e)
unfolding query_start lower_bound
query_start_err from [] e h = cc h
query_start_err from (c ∷ cur) e h = rw (query_start, h) refl

-- When the first pooled connection is idle, the server runs the range command (as documented: the
-- members with a score in the range, in order, from an offset, so many at most), the members held
-- for the device are well formed (65 bytes, a timestamp that is not negative) and in byte order,
-- their scores are their timestamps, and limit + 1 members fit the largest allocation, a range
-- query over Redis returns what the in-memory store returns on the same members, bad cursors
-- included, and changes no set on the server.
pub range-Mem :
    {W C : Type 0} (net : Network W C) (sets : W → Sets) (s : Client C) (w : W) (c : C)
    (rest : List (Conn C)) (m : MemStore) (id : Bytes) (from to : ℤ) (limit : ℕ) (cur : Bytes)
    → s.pool ≡ idle c ∷ rest
    → length rest < s.pool_size
    → IsScored (sets w (key id))
    → m.dev id ≡ map member (sets w (key id))
    → HoldsMembers (m.dev id)
    → (limit + 1) * encoded_len ≤ max_alloc
    → ((ts : ℤ) (skip : ℕ)
        → lower_bound from cur ≡ ok (ts, skip)
        → Runs net sets w c (zrangebyscore (key id) ts to skip (limit + 1) ∷ []))
    → ((range net s w id from to limit cur).0 ≡ mem_range m id from to limit cur)
      × (sets (range net s w id from to limit cur).1.1 ≡ sets w)
unfolding range run_range mem_range range_from
range-Mem net sets s w c rest m id from to limit cur hp hs hscore same holds hr runs =
    elim (lower_bound_cases from cur) [
      | inr e ↦ rw (range, mem_range, e, query_start_err from cur _ e) (refl, refl)
      | inl ((ts, skip), e) ↦
          let (after, q, kept) =
            range_sent net sets s w c rest id ts to skip limit hp hs hscore (rw same at holds) hr
              (runs ts skip e) in
          let fetched =
            fetch-map (drop skip (filter (in_window ts to) (m.dev id))) (limit + 1)
              (All-drop IsMember skip _ (All-filter IsMember (in_window ts to) _ holds.members)) in
          rw
            (
              range,
              mem_range,
              e,
              query_start_ok from cur (ts, skip) e,
              run_range,
              q,
              range_from,
              le→ltb max_alloc ((limit + 1) * point_size) (omega (arith, hr)),
              fetched,
              same,
            )
            (refl, kept)
    ]

-- ===== src/Store/Redis/Ops.antt =====
-- internal/store/redis.go: the operations of the store and the warm-up of its pool.
use the_500mb_club_challenge.Prelude.{
  ℕ, zero, suc, ◌+◌, ◌%◌, ◌^◌, Bool, false, none, some, List, [], ◌∷◌, ◌++◌, ◌==◌, if◌then◌else◌,
  Bytes, bytes_eq, codes, Result, ok, err, panic, length, take, drop,
}
use the_500mb_club_challenge.Prelude.Int.{ℤ, pos, negsuc}
use the_500mb_club_challenge.Golang.Strconv.{format_int}
use the_500mb_club_challenge.Cursor
use the_500mb_club_challenge.Model.Point.{Point}
use the_500mb_club_challenge.Model.Codec.{encoded_len, encode, decode}
use the_500mb_club_challenge.Resp.{Reply, simple, encode_command}
use the_500mb_club_challenge.Resp.Fixed.{read_fixed_bulk_array}
use the_500mb_club_challenge.Store.{Error}
use the_500mb_club_challenge.Store.Page.{build_page}
use the_500mb_club_challenge.Store.Redis.{
  Network, Conn, Client, Answer, dial, get, put, ask, roundtrip, use_conn, do_commands,
}

unfoldable pub key : Bytes → Bytes
key id = codes "t:" ++ id

-- `itoa`
unfoldable pub itoa : ℤ → Bytes
itoa v = format_int v

-- The command, and the counter after it. Each member is a slice of the batch's backing array.
unfoldable pub encode_members : List Bytes → List Point → ℕ → List Bytes × ℕ
unfolding itoa
encode_members args [] seq = (args, seq)
encode_members args (p ∷ ps) seq =
    let seq' = (seq + 1) % 2 ^ 64 in encode_members (args ++ itoa p.ts ∷ encode p seq' ∷ []) ps seq'

-- `0` and `-(cap + 1)` as ranks.
unfoldable pub trim_command : Bytes → ℕ → List Bytes
trim_command id cap = codes "ZREMRANGEBYRANK" ∷ key id ∷ codes "0" ∷ itoa (negsuc cap) ∷ []

unfoldable pub append_commands : ℕ → Bytes → List Bytes → ℕ → ℕ → List (List Bytes)
append_commands cap id zadd writes trim_every =
    if writes % trim_every == 0 then zadd ∷ trim_command id cap ∷ [] else zadd ∷ []

-- The range of a query, or the error of its cursor.
unfoldable pub query_start : ℤ → Bytes → Result Error (ℤ × ℕ)
query_start from [] = ok (from, 0)
query_start from (c ∷ cur) = elim (Cursor.decode (c ∷ cur)) [
  | ok start ↦ ok start
  | err e ↦ err (Error.cursor e)
  | panic ↦ panic
]

unfoldable pub range_command : Bytes → ℤ → ℤ → ℕ → ℕ → List Bytes
range_command id cur_ts to skip limit =
    codes "ZRANGEBYSCORE"
    ∷ key id
    ∷ itoa cur_ts
    ∷ itoa to
    ∷ codes "LIMIT"
    ∷ itoa (pos skip)
    ∷ itoa (pos (limit + 1))
    ∷ []

-- `n - 1`
last_rank : ℕ → ℤ
last_rank zero = negsuc 0
last_rank (suc n) = pos n

unfoldable pub recent_command : Bytes → ℕ → List Bytes
unfolding last_rank
recent_command id n = codes "ZREVRANGE" ∷ key id ∷ codes "0" ∷ itoa (last_rank n) ∷ []

-- The loop over the members of the backing array, from the one at its front on.
unfoldable pub decode_backing : ℕ → Bytes → Result Error (List Point)
decode_backing zero backing = ok []
decode_backing (suc count) backing =
    let rest = decode_backing count (drop encoded_len backing) in
    elim (decode (take encoded_len backing)) [
      | none ↦ err Error.point
      | some p ↦ elim rest [ ok ps ↦ ok (p ∷ ps) | err e ↦ err e | panic ↦ panic ]
    ]

-- `replies[0].(string)`
unfoldable pub is_pong : List Reply → Bool
is_pong [] = false
is_pong (simple s ∷ rs) = bytes_eq s (codes "PONG")
is_pong (r ∷ rs) = false

-- A computation on the result of an operation.
abbrev pub then_result : {W C A B : Type 0} → Answer W C A → (A → Result Error B) → Answer W C B
then_result (ok a, sw) f = (f a, sw)
then_result (err e, sw) f = (err e, sw)
then_result (panic, sw) f = (panic, sw)

module _ {W C : Type 0} (net : Network W C) where
  unfoldable pub ping : Client C → W → Answer W C (Unit {0})
  ping s w =
      then_result (do_commands net ((codes "PING" ∷ []) ∷ []) s w)
        λ rs. if is_pong rs then ok tt else err Error.backend

  unfoldable pub append : Client C → W → Bytes → List Point → Answer W C ℕ
  unfolding encode_members
  append s w id pts =
      let (zadd, seq) = encode_members (codes "ZADD" ∷ key id ∷ []) pts s.seq in
      let s' = record s { seq = seq; writes = (s.writes + 1) % 2 ^ 64 } in
      then_result (do_commands net (append_commands s'.cap id zadd s'.writes s'.trim_every) s' w)
        λ rs. ok (length pts)

  unfoldable pub read_points : List Bytes → Client C → W → Answer W C (List Point)
  unfolding decode_backing
  read_points cmd s w =
      then_result
        (use_conn net
          (λ cn v. ask net cn (encode_command cmd) (read_fixed_bulk_array encoded_len) v)
          (get net s w))
        (λ r. decode_backing r.1 r.0)

  unfoldable pub run_range :
      Client C → W → Bytes → ℤ → ℕ → Result Error (ℤ × ℕ) → Answer W C (List Point × Bytes)
  run_range s w id to limit (ok (cur_ts, skip)) =
      then_result (read_points (range_command id cur_ts to skip limit) s w)
        λ pts. build_page pts limit cur_ts skip
  run_range s w id to limit (err e) = (err e, (s, w))
  run_range s w id to limit panic = (panic, (s, w))

  unfoldable pub range : Client C → W → Bytes → ℤ → ℤ → ℕ → Bytes → Answer W C (List Point × Bytes)
  unfolding run_range query_start
  range s w id from to limit cur = run_range s w id to limit (query_start from cur)

  unfoldable pub recent : Client C → W → Bytes → ℕ → Answer W C (List Point)
  recent s w id n = read_points (recent_command id n) s w

  -- One connection of the warm-up, once it is dialled. Errors are not passed through `ctxOr`.
  unfoldable pub warmed :
      Conn C → Client C → Result Error (List Reply × Conn C) × W → Answer W C (Unit {0})
  warmed cn s (err e, w) = (err e, (s, net.close w cn.sock))
  warmed cn s (panic, w) = (panic, (s, w))
  warmed cn s (ok (rs, cn'), w) =
      if is_pong rs then (ok tt, put net cn' s w) else (err Error.backend, (s, net.close w cn.sock))

  unfoldable pub warm_dialled : Client C → Result Error (Conn C) × W → Answer W C (Unit {0})
  unfolding warmed
  warm_dialled s (ok cn, w) = warmed cn s (roundtrip net cn ((codes "PING" ∷ []) ∷ []) w)
  warm_dialled s (err e, w) = (err e, (s, w))
  warm_dialled s (panic, w) = (panic, (s, w))

  -- A turn of the loop, which first asks whether the context is done.
  unfoldable pub warm_one : Client C → W → Answer W C (Unit {0})
  unfolding warm_dialled
  warm_one s w = elim (net.done w) [ some e ↦ (err e, (s, w)) | none ↦ warm_dialled s (dial net w) ]

  -- The next turn, or the return on an error.
  unfoldable pub next_turn :
      (Client C → W → Answer W C (Unit {0})) → Answer W C (Unit {0}) → Answer W C (Unit {0})
  next_turn turn (ok u, (s, w)) = turn s w
  next_turn turn (err e, sw) = (err e, sw)
  next_turn turn (panic, sw) = (panic, sw)

  -- The loop, with the turns that are left.
  unfoldable pub warm_loop : ℕ → Client C → W → Answer W C (Unit {0})
  unfolding next_turn
  warm_loop zero s w = (ok tt, (s, w))
  warm_loop (suc n) s w = next_turn (warm_loop n) (warm_one s w)

  unfoldable pub warm : Client C → W → Answer W C (Unit {0})
  unfolding warm_loop
  warm s w = warm_loop s.pool_size s w

  close_all : List (Conn C) → W → W
  close_all [] w = w
  close_all (cn ∷ pool) w = close_all pool (net.close w cn.sock)

  unfoldable pub close : Client C → W → Client C × W
  unfolding close_all
  close s w = (record s { pool = [] }, close_all s.pool w)

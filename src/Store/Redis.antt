-- ===== src/Store/Redis.antt =====
-- internal/store/redis.go: the store on a Redis server. The network and the server behind it are a
-- parameter; the state is the client and that world, which every operation passes on.
pub mod Ops
pub mod Server
pub mod Conns
pub mod Range
pub mod Recent
pub mod Append
pub mod Pool
pub mod Warm
use the_500mb_club_challenge.Prelude.{
  Bool, ◌⊎◌, inl, inr, ℕ, zero, suc, ◌+◌, ◌%◌, ◌^◌, Option, none, some, List, [], ◌∷◌, ◌++◌, ltb,
  if◌then◌else◌, Bytes, codes, Result, ok, err, panic, length,
}
use the_500mb_club_challenge.Resp
use the_500mb_club_challenge.Resp.{Reply, encode_command}
use the_500mb_club_challenge.Resp.Reader.{read_reply}
use the_500mb_club_challenge.Store.{Error}

-- `dial` is `net.DialTimeout`: a connection, or whether its error is that of a deadline, as
-- `errors.Is(err, context.DeadlineExceeded)` says of a dial that timed out. `exchange` writes and flushes bytes: `none` if that fails, else what
-- the peer answers until the stream ends, fails or passes its deadline. `done` is `ctx.Err()`.
pub record Network (W C : Type 0) : Type 0 where
  pub dial : W → W × (Bool ⊎ C)
  pub exchange : W → C → Bytes → W × Option Bytes
  pub close : W → C → W
  pub done : W → Option Error

-- `conn`: its `bufio.Reader` may hold bytes that are not read yet.
pub record Conn (C : Type 0) : Type 0 where
  pub sock : C
  pub unread : Bytes

-- `redisStore`; the channel `pool` of `pool_size` places is a list, its head the next to receive.
-- `cap` is an `int` that is not negative, `seq` and `writes` are 64-bit words.
pub record Client (C : Type 0) : Type 0 where
  pub cap : ℕ
  pub trim_every : ℕ
  pub seq : ℕ
  pub writes : ℕ
  pub pool : List (Conn C)
  pub pool_size : ℕ

unfoldable pub new_redis : {C : Type 0} → ℕ → ℕ → Client C
new_redis pool_size cap = record {
  cap = cap;
  trim_every = 16;
  seq = 0;
  writes = 0;
  pool = [];
  pool_size = pool_size;
}

-- A result, and the state that an operation leaves.
abbrev pub Answer : Type 0 → Type 0 → Type 0 → Type 0
Answer W C A = Result Error A × (Client C × W)

-- Every failure of an exchange or of the protocol counts as one of the backend.
abbrev pub lift : {A : Type 0} → Result Resp.Error A → Result Error A
lift (ok a) = ok a
lift (err e) = err Error.backend
lift panic = panic

-- The bytes of pipelined commands, and one reply for each.
unfoldable pub encode_commands : List (List Bytes) → Bytes
encode_commands [] = []
encode_commands (args ∷ cmds) = encode_command args ++ encode_commands cmds

unfoldable pub read_replies : List (List Bytes) → Bytes → Result Resp.Error (List Reply × Bytes)
read_replies [] s = ok ([], s)
read_replies (args ∷ cmds) s =
    Resp.◌>>=◌ (read_reply s) λ r. Resp.◌>>=◌ (read_replies cmds r.1) λ rs. ok (r.0 ∷ rs.0, rs.1)

-- A connection after a read, with what it has left unread.
unfoldable pub answered :
    {A C : Type 0} → C → Result Resp.Error (A × Bytes) → Result Error (A × Conn C)
answered c (ok (a, rest)) = ok (a, record { sock = c; unread = rest })
answered c (err e) = err Error.backend
answered c panic = panic

module _ {W C : Type 0} (net : Network W C) where
  dialled : W × (Bool ⊎ C) → Result Error (Conn C) × W
  dialled (w, inl timed_out) = (err (if timed_out then Error.deadline else Error.backend), w)
  dialled (w, inr c) = (ok (record { sock = c; unread = [] }), w)

  unfoldable pub dial : W → Result Error (Conn C) × W
  unfolding dialled
  dial w = dialled (net.dial w)

  unfoldable pub get : Client C → W → Answer W C (Conn C)
  unfolding dial
  get s w = elim s.pool [
    | [] ↦ let (r, w') = dial w in (r, (s, w'))
    | cn ∷ rest ↦ (ok cn, (record s { pool = rest }, w))
  ]

  unfoldable pub put : Conn C → Client C → W → Client C × W
  put cn s w =
      if ltb (length s.pool) s.pool_size
      then (record s { pool = s.pool ++ cn ∷ [] }, w)
      else (s, net.close w cn.sock)

  -- `ctxOr`
  unfoldable pub ctx_or : W → Error → Error
  ctx_or w e = elim (net.done w) [ none ↦ e | some d ↦ d ]

  -- Bytes are written, and the answer is read by `read`.
  unfoldable pub ask :
      {A : Type 0}
      → Conn C
      → Bytes
      → (Bytes → Result Resp.Error (A × Bytes))
      → W
      → Result Error (A × Conn C) × W
  unfolding answered
  ask cn b read w =
      let (w', r) = net.exchange w cn.sock b in
      elim r [
        | none ↦ (err Error.backend, w')
        | some answer ↦ (answered cn.sock (read (cn.unread ++ answer)), w')
      ]

  unfoldable pub roundtrip : Conn C → List (List Bytes) → W → Result Error (List Reply × Conn C) × W
  unfolding ask encode_commands read_replies
  roundtrip cn cmds w = ask cn (encode_commands cmds) (read_replies cmds) w

  -- How `do` and `readPoints` end: a connection that failed is closed, another goes back.
  unfoldable pub settle :
      {A : Type 0} → Conn C → Client C → Result Error (A × Conn C) × W → Answer W C A
  unfolding put ctx_or
  settle cn s (ok (a, cn'), w) = (ok a, put cn' s w)
  settle cn s (err e, w) = let w' = net.close w cn.sock in (err (ctx_or w' e), (s, w'))
  settle cn s (panic, w) = (panic, (s, w))

  -- A request on a connection from the pool, or on a new one.
  unfoldable pub use_conn :
      {A : Type 0}
      → (Conn C → W → Result Error (A × Conn C) × W)
      → Answer W C (Conn C)
      → Answer W C A
  unfolding settle
  use_conn f (ok cn, (s, w)) = settle cn s (f cn w)
  use_conn f (err e, sw) = (err e, sw)
  use_conn f (panic, sw) = (panic, sw)

  -- `do`
  unfoldable pub do_commands : List (List Bytes) → Client C → W → Answer W C (List Reply)
  unfolding get roundtrip use_conn
  do_commands cmds s w = use_conn (λ cn v. roundtrip cn cmds v) (get s w)

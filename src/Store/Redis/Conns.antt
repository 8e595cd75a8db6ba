-- ===== src/Store/Redis/Conns.antt =====
-- On internal/store/redis.go: a request on a connection of the pool.
use the_500mb_club_challenge.Resp
use the_500mb_club_challenge.Store.{Error}
use the_500mb_club_challenge.Prelude.{
  err, ◌<◌, ◌≡◌, refl, ap, some, List, [], ◌∷◌, ◌++◌, lt→ltb, Bytes, Result, ok, length,
}
use the_500mb_club_challenge.Resp
use the_500mb_club_challenge.Store.Redis.{
  ctx_or, Network, Conn, Client, get, put, ask, answered, settle, use_conn,
}

-- A connection with nothing left to read.
abbrev pub idle : {C : Type 0} → C → Conn C
idle c = record { sock = c; unread = [] }

module _ {W C : Type 0} (net : Network W C) where
  pub get_hit :
      (s : Client C) (w : W) (cn : Conn C) (rest : List (Conn C))
      → s.pool ≡ cn ∷ rest
      → get net s w ≡ (ok cn, (record s { pool = rest }, w))
  unfolding get
  get_hit s w cn rest h = rw (get, h) refl

  pub put_room :
      (s : Client C) (w : W) (cn : Conn C)
      → length s.pool < s.pool_size
      → put net cn s w ≡ (record s { pool = s.pool ++ cn ∷ [] }, w)
  unfolding put
  put_room s w cn h = rw (put, lt→ltb (length s.pool) s.pool_size h) refl

  module _ {A : Type 0} (read : Bytes → Result Resp.Error (A × Bytes)) (b : Bytes) where
    pub ask_lem :
        (cn : Conn C) (w w' : W) (answer rest : Bytes) (a : A)
        → net.exchange w cn.sock b ≡ (w', some answer)
        → read (cn.unread ++ answer) ≡ ok (a, rest)
        → ask net cn b read w ≡ (ok (a, record { sock = cn.sock; unread = rest }), w')
    unfolding ask answered
    ask_lem cn w w' answer rest a h k =
        rw (ask, h, k)
          (ap (λ v. (ok (a, record { sock = cn.sock; unread = rest }), v)) (ap (λ z. z.0) h))

    -- A request that succeeds on the first connection of the pool, which goes back behind the others.
    pub use_conn_hit :
        (s : Client C) (w w' : W) (c : C) (rest : List (Conn C)) (answer : Bytes) (a : A)
        → s.pool ≡ idle c ∷ rest
        → length rest < s.pool_size
        → net.exchange w c b ≡ (w', some answer)
        → read answer ≡ ok (a, [])
        → use_conn net (λ cn v. ask net cn b read v) (get net s w)
          ≡ (ok a, (record s { pool = rest ++ idle c ∷ [] }, w'))
    unfolding use_conn settle
    use_conn_hit s w w' c rest answer a hp hs he hr =
        rw
          (
            get_hit s w (idle c) rest hp,
            ask_lem (idle c) w w' answer [] a he hr,
            put_room (record s { pool = rest }) w' (idle c) hs,
          )
          refl

    -- A request whose answer cannot be read: the connection is closed, and the error is that of the
    -- context if it is done.
    pub use_conn_fail :
        (s : Client C) (w w' : W) (c : C) (rest : List (Conn C)) (answer : Bytes) (e : Resp.Error)
        → s.pool ≡ idle c ∷ rest
        → net.exchange w c b ≡ (w', some answer)
        → read answer ≡ err e
        → use_conn net (λ cn v. ask net cn b read v) (get net s w) ≡ (
          err (ctx_or net (net.close w' c) Error.backend),
          (record s { pool = rest }, net.close w' c),
        )
    unfolding use_conn settle ask answered
    use_conn_fail s w w' c rest answer e hp he hr =
        rw (get_hit s w (idle c) rest hp, use_conn, ask, he, hr)
          (ap
            (λ v. (
              err (ctx_or net (net.close v c) Error.backend),
              (record s { pool = rest }, net.close v c),
            ))
            (ap (λ z. z.0) he))

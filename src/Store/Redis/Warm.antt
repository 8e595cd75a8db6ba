-- ===== src/Store/Redis/Warm.antt =====
-- On internal/store/redis.go: the warm-up of the pool, and its end.
use the_500mb_club_challenge.Resp.Reader.RoundTrip.{read_reply-simple}
use Prim.Native.Nat.{min}
use the_500mb_club_challenge.Prelude.{
  ltb, Bool-cases, inr, inl, ◌⊎◌, ℕ, zero, suc, ◌+◌, ◌≤◌, ◌≡◌, refl, ap, ◌∙◌, none, some, [], ◌∷◌,
  codes, ok, length, length-append, arith, append-nil,
}
use the_500mb_club_challenge.Resp.{simple, encode_command}
use the_500mb_club_challenge.Store.Redis.{
  Network, Conn, Client, dial, put, encode_commands, read_replies, roundtrip,
}
use the_500mb_club_challenge.Store.Redis.Conns.{idle, ask_lem}
use the_500mb_club_challenge.Store.Redis.Ops.{
  next_turn, warm_one, warm_dialled, warmed, warm_loop, warm, is_pong,
}

-- A network that is up: the context is not done, a server accepts connections, and answers a ping
-- on a new one.
pub record IsUp {W C : Type 0} (net : Network W C) : Type 0 where
  pub timely : (w : W) → net.done w ≡ none
  pub accepts : (w : W) → (c : C) × (w' : W) × (net.dial w ≡ (w', inr c))
  pub answers :
      (w : W) (c : C)
      → (w' : W) × (net.exchange w c (encode_command (codes "PING" ∷ []))
          ≡ (w', some (codes "+PONG\r\n")))

pong_read :
    read_replies ((codes "PING" ∷ []) ∷ []) (codes "+PONG\r\n")
    ≡ ok (simple (codes "PONG") ∷ [], [])
unfolding read_replies
pong_read =
    rw
      (read_reply-simple (codes "PONG") []
        ((λ e. cc e), ((λ e. cc e), ((λ e. cc e), ((λ e. cc e), tt)))))
      refl

pub put_room_or_full :
    {W C : Type 0} (net : Network W C) (s : Client C) (w : W) (cn : Conn C)
    → ((put net cn s w).0.pool_size ≡ s.pool_size)
      × (length (put net cn s w).0.pool ≡ min s.pool_size (length s.pool + 1)
          ⊎ (s.pool_size ≤ length s.pool) × (length (put net cn s w).0.pool ≡ length s.pool))
unfolding put
put_room_or_full net s w cn = elim (Bool-cases (ltb (length s.pool) s.pool_size)) [
  | inl e ↦ rw (put, e) (refl, inl (ground (arith, e, length-append s.pool (cn ∷ []))))
  | inr e ↦ rw (put, e) (refl, inr (ground (arith, e), refl))
]

module _ {W C : Type 0} (net : Network W C) (up : IsUp net) where
  -- A turn of the warm-up dials, pings, and puts the connection into the pool.
  warm_one_up :
      (s : Client C) (w : W)
      → (c : C) × (w' : W) × (warm_one net s w ≡ (ok tt, put net (idle c) s w'))
  unfolding warm_one warm_dialled warmed dial roundtrip encode_commands is_pong
  warm_one_up s w =
      let (c, w1, d) = up.accepts w in
      let (w2, e) = up.answers w1 c in
      let asked =
        ask_lem net (read_replies ((codes "PING" ∷ []) ∷ []))
          (encode_commands ((codes "PING" ∷ []) ∷ [])) (idle c) w1 w2 (codes "+PONG\r\n") []
          (simple (codes "PONG") ∷ []) (ap (net.exchange w1 c) (append-nil _) ∙ e) pong_read in
      (c, w2, rw (warm_one, up.timely w, d, asked) refl)

  -- After `n` turns the pool holds `n` connections more, or is full.
  warm_loop_up :
      (n : ℕ) (s : Client C) (w : W)
      → length s.pool ≤ s.pool_size
      → ((warm_loop net n s w).0 ≡ ok tt)
        × ((warm_loop net n s w).1.0.pool_size ≡ s.pool_size)
        × (length (warm_loop net n s w).1.0.pool ≡ min s.pool_size (length s.pool + n))
  unfolding warm_loop next_turn
  warm_loop_up zero s w h = (refl, refl, omega (arith, h))
  warm_loop_up (suc n) s w h =
      let (c, w1, e) = warm_one_up s w in
      let next : Client C = (put net (idle c) s w1).0 in
      let (size, sizes) = put_room_or_full net s w1 (idle c) in
      let fits : length next.pool ≤ next.pool_size = elim sizes [
        | inl k ↦ omega (arith, k, size)
        | inr (a, k) ↦ omega (arith, k, size, h)
      ] in
      let (r, q, l) = warm_loop_up n next (put net (idle c) s w1).1 fits in
      rw (warm_loop, e)
        (
          r,
          q ∙ size,
          elim sizes [
            | inl k ↦ omega (arith, l, k, size)
            | inr (a, k) ↦ omega (arith, l, k, size, h, a)
          ],
        )

  -- If the context is not done, the server accepts every connection, and answers a PING on it,
  -- then Warm succeeds and leaves the pool full, from any number of pooled connections up to its
  -- size.
  pub warm-fills :
      (s : Client C) (w : W)
      → length s.pool ≤ s.pool_size
      → ((warm net s w).0 ≡ ok tt) × (length (warm net s w).1.0.pool ≡ s.pool_size)
  unfolding warm
  warm-fills s w h = let (r, q, l) = warm_loop_up s.pool_size s w h in (r, omega (arith, l))

-- ===== src/Store/Redis/Recent.antt =====
-- On internal/store/redis.go: the newest points, beside those of the in-memory store on the same members.
use mathlib.Core.List.{reverse}
use the_500mb_club_challenge.Prelude.{
  length-reverse, take-reverse, map-reverse, ℕ, suc, ◌-◌, ◌*◌, ◌≤◌, ◌<◌, ◌≡◌, refl, sym, ap, ◌∙◌,
  some, List, [], ◌∷◌, append-nil, map, Bytes, length, take, drop, take-map, length-drop, All,
  All-drop, arith,
}
use the_500mb_club_challenge.Model.Codec.{encoded_len}
use the_500mb_club_challenge.Resp.{encode_command, max_alloc}
use the_500mb_club_challenge.Store.Mem.{MemStore, recent as mem_recent}
use the_500mb_club_challenge.Store.Mem.Contents.{All-reverse, decode_all_lem}
use the_500mb_club_challenge.Store.Mem.Invariant.{HoldsMembers, IsMember}
use the_500mb_club_challenge.Store.Redis.{Network, Conn, Client, encode_commands}
use the_500mb_club_challenge.Store.Redis.Conns.{idle}
use the_500mb_club_challenge.Store.Redis.Ops.{recent, recent_command, key, itoa}
use the_500mb_club_challenge.Store.Redis.Range.{member, read_points_hit}
use the_500mb_club_challenge.Store.Redis.Server.{
  none_left, reversed, one_more, Runs, zrevrange, AreAnswers, Sets, args, after_command,
}

-- The server's answer is the last members, from the end.
reversed_answer :
    {sets end : Sets} {k : Bytes} {n : ℕ} {a : Bytes}
    → AreAnswers sets (zrevrange k n ∷ []) a end
    → (a ≡ encode_command (map member (take (suc n) (reverse (sets k))))) × (end ≡ sets)
unfolding after_command
reversed_answer (one_more (reversed k n) none_left) = (append-nil _, refl)

-- When the first pooled connection is idle, the server runs the ZREVRANGE command (as documented:
-- so many members from the end, the last first), the members held for the device are well formed
-- (65 bytes, a timestamp that is not negative) and in byte order, and n members, for n of 1 or
-- more, fit the largest allocation, the newest n points over Redis are what the in-memory store
-- returns on the same members, and no set on the server changes.
pub recent-Mem :
    {W C : Type 0} (net : Network W C) (sets : W → Sets) (s : Client C) (w : W) (c : C)
    (rest : List (Conn C)) (m : MemStore) (id : Bytes) (n : ℕ)
    → s.pool ≡ idle c ∷ rest
    → length rest < s.pool_size
    → m.dev id ≡ map member (sets w (key id))
    → HoldsMembers (m.dev id)
    → suc n * encoded_len ≤ max_alloc
    → Runs net sets w c (zrevrange (key id) n ∷ [])
    → ((recent net s w id (suc n)).0 ≡ mem_recent m id (suc n))
      × (sets (recent net s w id (suc n)).1.1 ≡ sets w)
unfolding recent mem_recent recent_command args itoa encode_commands
recent-Mem net sets s w c rest m id n hp hs same holds hr runs =
    let ms : List Bytes = reverse (drop (length (m.dev id) - suc n) (m.dev id)) in
    let (q, kept) = reversed_answer runs.ran in
    let listed : map member (take (suc n) (reverse (sets w (key id)))) ≡ ms =
      sym (take-map member (suc n) (reverse (sets w (key id))))
      ∙ ap (take (suc n)) (map-reverse member (sets w (key id)) ∙ ap reverse (sym same))
      ∙ take-reverse (suc n) (m.dev id) in
    let sent : net.exchange w c (encode_command (recent_command id (suc n)))
        ≡ (runs.after, some (encode_command ms)) =
      ap (net.exchange w c) (sym (append-nil _))
      ∙ runs.sent
      ∙ ap (λ a. (runs.after, some a)) (q ∙ ap encode_command listed) in
    let last : List Bytes = drop (length (m.dev id) - suc n) (m.dev id) in
    let members : All IsMember ms =
      All-reverse last (All-drop IsMember (length (m.dev id) - suc n) (m.dev id) holds.members) in
    let few : length ms * encoded_len ≤ max_alloc = omega (
      arith,
      length-reverse (drop (length (m.dev id) - suc n) (m.dev id)),
      length-drop (length (m.dev id) - suc n) (m.dev id),
      hr,
    ) in
    rw
      (
        recent,
        read_points_hit net (recent_command id (suc n)) s w runs.after c rest ms hp hs sent members
            few,
      )
      (sym (decode_all_lem ms members), kept)

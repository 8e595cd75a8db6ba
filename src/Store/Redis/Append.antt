-- ===== src/Store/Redis/Append.antt =====
-- On internal/store/redis.go: what `Append` makes of a device's sorted set.
use the_500mb_club_challenge.Prelude.{
  map, ℕ, ◌+◌, ◌-◌, ◌%◌, ◌^◌, ◌<◌, ◌≤◌, ◌≡◌, refl, sym, ap, ◌∙◌, Bool, true, false, List, [], ◌∷◌,
  ◌++◌, append-nil, append_assoc, ◌==◌, Bytes, bytes_eq, bytes_eq_refl, codes, ok, length, drop,
  length-drop, arith, Bool-cases, inl, inr,
}
use the_500mb_club_challenge.Prelude.Int.{pos}
use the_500mb_club_challenge.Model.Point.{Point}
use the_500mb_club_challenge.Model.Codec.{encode}
use the_500mb_club_challenge.Resp.{Reply, integer}
use the_500mb_club_challenge.Resp.Reader.RoundTrip.{read_reply-integer}
use the_500mb_club_challenge.Store.Redis.{
  Network, Conn, Client, encode_commands, read_replies, roundtrip, do_commands,
}
use the_500mb_club_challenge.Store.Redis.Conns.{idle, use_conn_hit}
use the_500mb_club_challenge.Store.Redis.Ops.{
  key, itoa, encode_members, trim_command, append_commands, append,
}
use the_500mb_club_challenge.Store.Redis.Server.{
  Entry, Sets, Command, zadd, zremrangebyrank, entry_args, args, add_entries, set_entries,
  after_command, added, removed, AreAnswers, none_left, one_more, Runs,
}

-- The entries that a batch adds, under the sequence numbers that follow `seq`.
unfoldable pub scored : ℕ → List Point → List Entry
scored seq [] = []
scored seq (p ∷ ps) = (p.ts, encode p ((seq + 1) % 2 ^ 64)) ∷ scored ((seq + 1) % 2 ^ 64) ps

encode_members-scored :
    (front : List Bytes) (ps : List Point) (seq : ℕ)
    → (encode_members front ps seq).0 ≡ front ++ entry_args (scored seq ps)
unfolding encode_members scored entry_args itoa
encode_members-scored front [] seq = sym (append-nil front)
encode_members-scored front (p ∷ ps) seq =
    encode_members-scored (front ++ itoa p.ts ∷ encode p ((seq + 1) % 2 ^ 64) ∷ []) ps
      ((seq + 1) % 2 ^ 64)
    ∙ append_assoc front (itoa p.ts ∷ encode p ((seq + 1) % 2 ^ 64) ∷ [])
        (entry_args (scored ((seq + 1) % 2 ^ 64) ps))

-- The commands of a batch, with the trim where it is due.
unfoldable pub commands : Bytes → ℕ → Bool → List Entry → List Command
commands id cap true es = zadd (key id) es ∷ zremrangebyrank (key id) cap ∷ []
commands id cap false es = zadd (key id) es ∷ []

-- The write counter is at a multiple of `trim_every`.
abbrev pub due : {C : Type 0} → Client C → Bool
due s = (s.writes + 1) % 2 ^ 64 % s.trim_every == 0

-- The newest `cap` entries, where a trim is due.
unfoldable pub trimmed : ℕ → Bool → List Entry → List Entry
trimmed cap true xs = drop (length xs - cap) xs
trimmed cap false xs = xs

module _ (id : Bytes) (cap : ℕ) (es : List Entry) where
  answers_read :
      {sets end : Sets} (b : Bool) {a : Bytes}
      → AreAnswers sets (commands id cap b es) a end
      → (rs : List Reply) × (read_replies (map args (commands id cap b es)) a ≡ ok (rs, []))
        × (end (key id) ≡ trimmed cap b (add_entries es (sets (key id))))
        × ((j : Bytes) → bytes_eq (key id) j ≡ false → end j ≡ sets j)
  unfolding commands read_replies after_command set_entries trimmed
  answers_read {sets} {end} true
        (one_more (added k1 es1 n h) (one_more (removed k2 cap2 m h2) none_left)) =
      (
        integer (pos n) ∷ integer (pos m) ∷ [],
        rw (read_replies, read_reply-integer n _ h, read_reply-integer m [] h2) refl,
        rw (bytes_eq_refl (key id)) refl,
        λ j d. rw d refl,
      )
  answers_read {sets} {end} false (one_more (added k1 es1 n h) none_left) = (
    integer (pos n) ∷ [],
    rw (read_replies, read_reply-integer n [] h) refl,
    rw (bytes_eq_refl (key id)) refl,
    λ j d. rw d refl,
  )

sent_commands :
    (id : Bytes) (cap writes every : ℕ) (ps : List Point) (seq : ℕ)
    → append_commands cap id (encode_members (codes "ZADD" ∷ key id ∷ []) ps seq).0 writes every
      ≡ map args (commands id cap (writes % every == 0) (scored seq ps))
unfolding append_commands commands args trim_command itoa
sent_commands id cap writes every ps seq = elim (Bool-cases (writes % every == 0)) [
  | inl e ↦ rw (append_commands, e, encode_members-scored) refl
  | inr e ↦ rw (append_commands, e, encode_members-scored) refl
]

-- When the first pooled connection is idle and the server runs the pipelined commands as
-- documented, an append over Redis returns the number of its points and gives the connection back;
-- the device has its entries and those of the batch under the next sequence numbers, and where the
-- write counter comes to a multiple of trim_every only the last cap of them; every other key is as
-- it was.
pub append-Runs :
    {W C : Type 0} (net : Network W C) (sets : W → Sets) (s : Client C) (w : W) (c : C)
    (rest : List (Conn C)) (id : Bytes) (ps : List Point)
    → s.pool ≡ idle c ∷ rest
    → length rest < s.pool_size
    → Runs net sets w c (commands id s.cap (due s) (scored s.seq ps))
    → (after : W) × ((append net s w id ps).1.1 ≡ after)
      × ((append net s w id ps).0 ≡ ok (length ps))
      × ((append net s w id ps).1.0.pool ≡ rest ++ idle c ∷ [])
      × (sets after (key id)
          ≡ trimmed s.cap (due s) (add_entries (scored s.seq ps) (sets w (key id))))
      × ((j : Bytes) → bytes_eq (key id) j ≡ false → sets after j ≡ sets w j)
unfolding append do_commands roundtrip
append-Runs {W} {C} net sets s w c rest id ps hp hs runs =
    let (rs, read, here, others) = answers_read id s.cap (scored s.seq ps) (due s) runs.ran in
    let cmds : List (List Bytes) = map args (commands id s.cap (due s) (scored s.seq ps)) in
    let s' : Client C = record s {
      seq = (encode_members (codes "ZADD" ∷ key id ∷ []) ps s.seq).1;
      writes = (s.writes + 1) % 2 ^ 64;
    } in
    let done : do_commands net cmds s' w
        ≡ (ok rs, (record s' { pool = rest ++ idle c ∷ [] }, runs.after)) =
      use_conn_hit net (read_replies cmds) (encode_commands cmds) s' w runs.after c rest runs.answer
        rs hp hs runs.sent read in
    let ran : append net s w id ps
        ≡ (ok (length ps), (record s' { pool = rest ++ idle c ∷ [] }, runs.after)) =
      rw (append, sent_commands id s.cap ((s.writes + 1) % 2 ^ 64) s.trim_every ps s.seq, done)
        refl in
    (runs.after, ap (λ z. z.1.1) ran, ap (λ z. z.0) ran, ap (λ z. z.1.0.pool) ran, here, others)

-- A trim leaves no more than the cap.
pub length-trimmed : (cap : ℕ) (xs : List Entry) → length (trimmed cap true xs) ≤ cap
unfolding trimmed
length-trimmed cap xs = omega (arith, length-drop (length xs - cap) xs)

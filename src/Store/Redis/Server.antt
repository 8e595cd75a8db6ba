-- ===== src/Store/Redis/Server.antt =====
-- On internal/store/redis.go: what the Redis documentation says of the commands that the store sends.
use the_500mb_club_challenge.Prelude.{
  ℕ, suc, ◌-◌, ◌<◌, ◌^◌, ◌≡◌, Bool, true, not, ◌&&◌, List, [], ◌∷◌, ◌++◌, map, some, Bytes,
  bytes_eq, codes, if◌then◌else◌, length, take, drop, filter,
}
use the_500mb_club_challenge.Prelude.Int.{ℤ, pos, negsuc, leb_ℤ, ltb_ℤ, eqb_ℤ}
use the_500mb_club_challenge.Golang.Strconv.{format_int, format_uint}
use the_500mb_club_challenge.Golang.Binary.{bytes_lt}
use the_500mb_club_challenge.Resp.{encode_command, crlf}
use the_500mb_club_challenge.Store.Redis.{Network, encode_commands}
use mathlib.Core.List.{reverse}

-- A member of a sorted set, with its score. Redis keeps scores as `float64`, which hold the integers
-- up to 2 ^ 53.
abbrev pub Entry : Type 0
Entry = ℤ × Bytes

-- The sorted sets by key, each in order: by score, and by bytes where scores are equal.
abbrev pub Sets : Type 0
Sets = Bytes → List Entry

abbrev pub entry_lt : Entry → Entry → Bool
entry_lt (s, m) (t, n) = if ltb_ℤ s t then true else eqb_ℤ s t && bytes_lt m n

unfoldable pub place : Entry → List Entry → List Entry
place e [] = e ∷ []
place e (x ∷ xs) = if entry_lt x e then x ∷ place e xs else e ∷ x ∷ xs

-- A member has one place in a set: adding it again moves it.
unfoldable pub add_entry : Entry → List Entry → List Entry
unfolding place
add_entry e xs = place e (filter (λ x. not (bytes_eq x.1 e.1)) xs)

unfoldable pub add_entries : List Entry → List Entry → List Entry
unfolding add_entry
add_entries [] xs = xs
add_entries (e ∷ es) xs = add_entries es (add_entry e xs)

-- The commands that the store sends; ranks start at 0, and negative ones count from the end.
pub data Command : Type 0 where
  zadd : Bytes → List Entry → Command
  zremrangebyrank : Bytes → ℕ → Command
  zrangebyscore : Bytes → ℤ → ℤ → ℕ → ℕ → Command
  zrevrange : Bytes → ℕ → Command

unfoldable pub entry_args : List Entry → List Bytes
entry_args [] = []
entry_args ((score, member) ∷ es) = format_int score ∷ member ∷ entry_args es

-- `zremrangebyrank k cap` is `ZREMRANGEBYRANK k 0 -(cap + 1)`, `zrevrange k n` is `ZREVRANGE k 0 n`.
unfoldable pub args : Command → List Bytes
unfolding entry_args
args (zadd k es) = codes "ZADD" ∷ k ∷ entry_args es
args (zremrangebyrank k cap) =
    codes "ZREMRANGEBYRANK" ∷ k ∷ codes "0" ∷ format_int (negsuc cap) ∷ []
args (zrangebyscore k lo hi skip count) =
    codes "ZRANGEBYSCORE"
    ∷ k
    ∷ format_int lo
    ∷ format_int hi
    ∷ codes "LIMIT"
    ∷ format_int (pos skip)
    ∷ format_int (pos count)
    ∷ []
args (zrevrange k n) = codes "ZREVRANGE" ∷ k ∷ codes "0" ∷ format_int (pos n) ∷ []

unfoldable pub set_entries : Sets → Bytes → List Entry → Sets
set_entries sets k es j = if bytes_eq k j then es else sets j

unfoldable pub scored_in : ℤ → ℤ → Entry → Bool
scored_in lo hi e = leb_ℤ lo e.0 && leb_ℤ e.0 hi

-- The sets after a command.
unfoldable pub after_command : Command → Sets → Sets
unfolding add_entries set_entries
after_command (zadd k es) sets = set_entries sets k (add_entries es (sets k))
after_command (zremrangebyrank k cap) sets =
    set_entries sets k (drop (length (sets k) - cap) (sets k))
after_command (zrangebyscore k lo hi skip count) sets = sets
after_command (zrevrange k n) sets = sets

-- An integer reply, or an array of members; how many entries an update counts is left open.
pub data IsAnswer (sets : Sets) : Command → Bytes → Type 0 where
  added :
      (k : Bytes) (es : List Entry) (n : ℕ)
      → n < 2 ^ 63
      → IsAnswer sets (zadd k es) (b':' ∷ (format_uint n ++ crlf))
  removed :
      (k : Bytes) (cap n : ℕ)
      → n < 2 ^ 63
      → IsAnswer sets (zremrangebyrank k cap) (b':' ∷ (format_uint n ++ crlf))
  ranged :
      (k : Bytes) (lo hi : ℤ) (skip count : ℕ)
      → IsAnswer sets (zrangebyscore k lo hi skip count) (
          encode_command
            (map (λ e. e.1) (take count (drop skip (filter (scored_in lo hi) (sets k))))))
  reversed :
      (k : Bytes) (n : ℕ)
      → IsAnswer sets
          (zrevrange k n)
          (encode_command (map (λ e. e.1) (take (suc n) (reverse (sets k)))))

-- Pipelined commands run in order, and are answered in order.
pub data AreAnswers : Sets → List Command → Bytes → Sets → Type 0 where
  none_left : {sets : Sets} → AreAnswers sets [] [] sets
  one_more :
      {sets end : Sets} {c : Command} {cs : List Command} {a b : Bytes}
      → IsAnswer sets c a
      → AreAnswers (after_command c sets) cs b end
      → AreAnswers sets (c ∷ cs) (a ++ b) end

-- The server runs these commands, and the whole answer arrives.
pub record Runs {W C : Type 0} (net : Network W C) (sets : W → Sets) (w : W) (c : C)
    (cs : List Command) : Type 0 where
  pub after : W
  pub answer : Bytes
  pub sent : net.exchange w c (encode_commands (map args cs)) ≡ (after, some answer)
  pub ran : AreAnswers (sets w) cs answer (sets after)

-- ===== src/Tests/RedisRuns.antt =====
-- Runs of the Redis store.
use the_500mb_club_challenge.Metrics.{add_counter}
use the_500mb_club_challenge.Resp.Fixed.Laws.{read_fixed_end}
use the_500mb_club_challenge.Http.Writer.{write_header, fresh}
use the_500mb_club_challenge.Tests.HttpRuns.{no_header, window_request, print_zero}
use the_500mb_club_challenge.Prelude.Int.{pos, ℤ}
use the_500mb_club_challenge.Golang.Strconv.{format_uint, parse_uint, parse_int}
use the_500mb_club_challenge.Http.Query.Redis.{query-Redis_timeout, redis_store}
use the_500mb_club_challenge.Tests.StoreRuns.{filled-IsValid, batch, filled, device}
use the_500mb_club_challenge.Resp.{eof, crlf, encode_command}
use the_500mb_club_challenge.Store.{deadline}
use the_500mb_club_challenge.Store.Mem.{lower_bound, mem_ts, range as mem_range}
use the_500mb_club_challenge.Store.Redis.Append.{append-Runs, scored, trimmed, due, commands}
use the_500mb_club_challenge.Http.Handler.{State}
use the_500mb_club_challenge.Store.Redis.Server.{
  none_left, added, ranged, scored_in, one_more, add_entries, zrangebyscore, zadd, after_command,
  Runs, Entry, Sets,
}
use the_500mb_club_challenge.Store.Redis.Conns.{idle}
use the_500mb_club_challenge.Http.Query.{query}
use the_500mb_club_challenge.Store.Redis.Range.{range-Mem, member, IsScored}
use the_500mb_club_challenge.Http.Validate.{id_char, id_chars, parse_int64, valid_id, parse_limit}
use the_500mb_club_challenge.Prelude.{
  inl, inr, false, filter, true, drop, bytes_eq_refl, take, ap, bytes_eq, if◌then◌else◌, ◌++◌, map,
  ℕ, ◌+◌, ◌≡◌, refl, none, some, List, [], ◌∷◌, Bytes, codes, ok, length, arith,
}
use the_500mb_club_challenge.Store.Redis.{Network, Conn, Client, get, put, dial}
use the_500mb_club_challenge.Store.Redis.Ops.{append, key, query_start, range, warm}
use the_500mb_club_challenge.Store.Redis.Pool.{
  System, Step, Reach, IsSafe, count, Reach-IsSafe, takes, puts,
}
use the_500mb_club_challenge.Http.Query.Redis.{redis_store}
use the_500mb_club_challenge.Http.Writer.{fresh}
use the_500mb_club_challenge.Http.Handler.{State}
use the_500mb_club_challenge.Tests.HttpRuns.{no_header, print_zero}
use the_500mb_club_challenge.Store.Redis.Warm.{IsUp, warm-fills}

-- A server that always says the same, on sockets that are counted up.
abbrev pub constant : Bytes → Network ℕ ℕ
constant answer = record {
  dial = λ w. (w + 1, inr w);
  exchange = λ w c b. (w, some answer);
  close = λ w c. w;
  done = λ w. none;
}

abbrev client : ℕ → List (Conn ℕ) → Client ℕ
client size pool = record {
  cap = 4;
  trim_every = 16;
  seq = 0;
  writes = 0;
  pool = pool;
  pool_size = size;
}

pong-IsUp : IsUp (constant (codes "+PONG\r\n"))
pong-IsUp = record {
  timely = λ w. refl;
  accepts = λ w. (w, w + 1, refl);
  answers = λ w c. (w, refl);
}

warm-fills_example :
    ((warm (constant (codes "+PONG\r\n")) (client 3 []) 0).0 ≡ ok tt)
    × (length (warm (constant (codes "+PONG\r\n")) (client 3 []) 0).1.0.pool ≡ 3)
warm-fills_example =
    warm-fills (constant (codes "+PONG\r\n")) pong-IsUp (client 3 []) 0 (omega arith)

abbrev quiet : System ℕ
quiet = record { client = client 1 []; world = 5; lent = [] }

abbrev cn5 : Conn ℕ
cn5 = record { sock = 5; unread = [] }

-- A request dials; then its connection goes into the pool.
abbrev busy : System ℕ
busy = record { client = client 1 []; world = 6; lent = cn5 ∷ [] }

abbrev pooled : System ℕ
pooled = record { client = client 1 (cn5 ∷ []); world = 6; lent = [] }

dials_first : Step (constant []) quiet busy
unfolding get dial count
dials_first = takes refl (λ e. refl)

puts_back : Step (constant []) busy pooled
unfolding put
puts_back = puts [] [] cn5 refl

quiet-IsSafe : IsSafe quiet
unfolding count
quiet-IsSafe = record { single = λ k. omega arith; small = omega arith }

Reach-IsSafe_example : IsSafe pooled
Reach-IsSafe_example =
    Reach-IsSafe (constant []) quiet-IsSafe
      (Reach.next (Reach.next Reach.here dials_first) puts_back)

-- The members of the in-memory store under their key, with their scores.
abbrev pub held : Bytes → List Entry
held k = if bytes_eq k (key device) then map (λ m. (mem_ts m, m)) (filled.dev device) else []

self-IsScored : (ms : List Bytes) → IsScored (map (λ m. (mem_ts m, m)) ms)
self-IsScored [] = tt
self-IsScored (m ∷ ms) = (refl, self-IsScored ms)

pub self_members : (ms : List Bytes) → map member (map (λ m. (mem_ts m, m)) ms) ≡ ms
self_members [] = refl
self_members (m ∷ ms) = ap (λ t. m ∷ t) (self_members ms)

pub held_here : held (key device) ≡ map (λ m. (mem_ts m, m)) (filled.dev device)
held_here = rw (bytes_eq_refl (key device)) refl

-- The server's answer to the query of one point from 5 to 25.
abbrev listed : Bytes
listed =
    encode_command
      (map member (take 2 (drop 0 (filter (scored_in (pos 5) (pos 25)) (held (key device))))))

abbrev listing : Network ℕ ℕ
listing = constant (listed ++ [])

listing-Runs :
    (ts : ℤ) (skip : ℕ)
    → lower_bound (pos 5) [] ≡ ok (ts, skip)
    → Runs listing (λ w. held) 0 7 (zrangebyscore (key device) ts (pos 25) skip (1 + 1) ∷ [])
unfolding lower_bound after_command
listing-Runs ts skip h =
    let same_ts : pos 5 ≡ ts = cc h in
    let same_skip : 0 ≡ skip = cc h in
    rw (← same_ts, ← same_skip)
      (record {
        after = 0;
        answer = listed ++ [];
        sent = refl;
        ran = one_more (ranged (key device) (pos 5) (pos 25) 0 2) none_left;
      })

abbrev pub idle_client : Client ℕ
idle_client = client 2 (idle 7 ∷ [])

range-Mem_example :
    ((range listing idle_client 0 device (pos 5) (pos 25) 1 []).0
      ≡ mem_range filled device (pos 5) (pos 25) 1 [])
    × ((λ (w : ℕ). held) (range listing idle_client 0 device (pos 5) (pos 25) 1 []).1.1 ≡ held)
range-Mem_example =
    range-Mem listing (λ w. held) idle_client 0 7 [] filled device (pos 5) (pos 25) 1 [] refl
      (omega arith) (rw held_here (self-IsScored (filled.dev device)))
      (rw (held_here, self_members) refl) (filled-IsValid.holds device) (omega arith) listing-Runs

-- A server whose world is its sets, and which adds the batch to them.
abbrev adding : Network Sets ℕ
adding = record {
  dial = λ w. (w, inr 0);
  exchange = λ w c b. (
    after_command (zadd (key device) (scored 0 batch)) w,
    some ((b':' ∷ (format_uint 3 ++ crlf)) ++ []),
  );
  close = λ w c. w;
  done = λ w. none;
}

adding-Runs :
    Runs adding (λ w. w) (λ k. []) 7 (commands device 4 (due idle_client) (scored 0 batch))
unfolding commands
adding-Runs = record {
  after = after_command (zadd (key device) (scored 0 batch)) (λ k. []);
  answer = (b':' ∷ (format_uint 3 ++ crlf)) ++ [];
  sent = refl;
  ran = one_more (added (key device) (scored 0 batch) 3 (omega arith)) none_left;
}

append-Runs_example :
    (after : Sets) × ((append adding idle_client (λ k. []) device batch).1.1 ≡ after)
    × ((append adding idle_client (λ k. []) device batch).0 ≡ ok (length batch))
    × ((append adding idle_client (λ k. []) device batch).1.0.pool ≡ idle 7 ∷ [])
    × (after (key device) ≡ trimmed 4 (due idle_client) (add_entries (scored 0 batch) []))
    × ((j : Bytes) → bytes_eq (key device) j ≡ false → after j ≡ [])
append-Runs_example =
    append-Runs adding (λ w. w) idle_client (λ k. []) 7 [] device batch refl (omega arith)
      adding-Runs

-- A server that hangs up, once the deadline is over.
abbrev stalled : Network ℕ ℕ
stalled = record {
  dial = λ w. (w, inl false);
  exchange = λ w c b. (w, some []);
  close = λ w c. w + 1;
  done = λ w. some deadline;
}

abbrev redis_state : State (Client ℕ × ℕ)
redis_state = record { store = (idle_client, 0); points = 0; read_timeouts = 2; requests = [] }

pub device_valid : valid_id window_request.id ≡ true
unfolding valid_id id_chars id_char
device_valid = refl

from_read : parse_int64 (window_request.query (codes "from")) ≡ some (pos 5)
unfolding parse_int64 parse_int parse_uint
from_read = refl

to_read : parse_int64 (window_request.query (codes "to")) ≡ some (pos 25)
unfolding parse_int64 parse_int parse_uint
to_read = refl

limit_read : parse_limit (window_request.query (codes "limit")) ≡ some 100
unfolding parse_limit
limit_read = refl

start_read : query_start (pos 5) (window_request.query (codes "cursor")) ≡ ok (pos 5, 0)
unfolding query_start
start_read = refl

query-Redis_timeout_example :
    query (redis_store stalled) print_zero window_request redis_state (fresh no_header) ≡ record {
      state = record redis_state { store = (client 2 [], 1); read_timeouts = add_counter 2 1 };
      writer = write_header 503 (fresh no_header);
      panicked = false;
    }
query-Redis_timeout_example =
    query-Redis_timeout stalled idle_client 0 0 7 [] print_zero window_request redis_state no_header
      (pos 5) (pos 25) 100 (pos 5) 0 [] eof device_valid from_read to_read refl limit_read
      start_read refl refl (read_fixed_end 65) refl

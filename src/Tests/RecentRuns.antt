-- ===== src/Tests/RecentRuns.antt =====
-- Runs of the newest points and their score over Redis.
use the_500mb_club_challenge.Http.Writer.{fresh}
use the_500mb_club_challenge.Http.Query.Redis.{redis_store}
use the_500mb_club_challenge.Tests.StoreRuns.{filled-IsValid, filled, device}
use the_500mb_club_challenge.Resp.{encode_command}
use the_500mb_club_challenge.Http.Handler.{State}
use the_500mb_club_challenge.Store.Redis.Server.{none_left, one_more, after_command, Runs}
use the_500mb_club_challenge.Store.Redis.Range.{member}
use the_500mb_club_challenge.Prelude.{false, take, ◌++◌, map, ℕ, ◌≡◌, refl, [], ◌∷◌, Bytes, arith}
use the_500mb_club_challenge.Store.Redis.{Network, Client}
use the_500mb_club_challenge.Store.Redis.Ops.{key}
use mathlib.Core.List.{reverse}
use the_500mb_club_challenge.Http.Anomaly.{anomaly}
use the_500mb_club_challenge.Http.Anomaly.Redis.{anomaly-Redis}
use the_500mb_club_challenge.Http.Query.Mem.{mem_store}
use the_500mb_club_challenge.Tests.HttpRuns.{initial, no_header, print_zero}
use the_500mb_club_challenge.Store.Mem.{recent as mem_recent}
use the_500mb_club_challenge.Store.Redis.Ops.{recent}
use the_500mb_club_challenge.Store.Redis.Server.{zrevrange, reversed}
use the_500mb_club_challenge.Store.Redis.Recent.{recent-Mem}
use the_500mb_club_challenge.Tests.RedisRuns.{constant, held, self_members, held_here, idle_client}

-- The server's answer to the query of the two newest points.
abbrev newest : Bytes
newest = encode_command (map member (take 2 (reverse (held (key device)))))

newest-Runs : Runs (constant (newest ++ [])) (λ w. held) 0 7 (zrevrange (key device) 1 ∷ [])
unfolding after_command
newest-Runs = record {
  after = 0;
  answer = newest ++ [];
  sent = refl;
  ran = one_more (reversed (key device) 1) none_left;
}

recent-Mem_example :
    ((recent (constant (newest ++ [])) idle_client 0 device 2).0 ≡ mem_recent filled device 2)
    × ((λ (w : ℕ). held) (recent (constant (newest ++ [])) idle_client 0 device 2).1.1 ≡ held)
recent-Mem_example =
    recent-Mem (constant (newest ++ [])) (λ w. held) idle_client 0 7 [] filled device 1 refl
      (omega arith) (rw (held_here, self_members) refl) (filled-IsValid.holds device) (omega arith)
      newest-Runs

-- The server's answer to the query of the 256 newest points.
abbrev newest_answer : Bytes
newest_answer = encode_command (map member (take 256 (reverse (held (key device)))))

abbrev answering : Network ℕ ℕ
answering = constant (newest_answer ++ [])

newest_answer-Runs : Runs answering (λ w. held) 0 7 (zrevrange (key device) 255 ∷ [])
unfolding after_command
newest_answer-Runs = record {
  after = 0;
  answer = newest_answer ++ [];
  sent = refl;
  ran = one_more (reversed (key device) 255) none_left;
}

abbrev scored_state : State (Client ℕ × ℕ)
scored_state = record { store = (idle_client, 0); points = 0; read_timeouts = 0; requests = [] }

anomaly-Redis_example :
    ((anomaly (redis_store answering) print_zero device scored_state (fresh no_header)).writer
      ≡ (anomaly mem_store print_zero device initial (fresh no_header)).writer)
    × ((anomaly (redis_store answering) print_zero device scored_state (fresh no_header)).panicked
        ≡ false)
    × ((λ (w : ℕ). held)
          (anomaly
            (redis_store answering)
            print_zero
            device
            scored_state
            (fresh no_header)).state.store.1
        ≡ held)
anomaly-Redis_example =
    anomaly-Redis answering (λ w. held) print_zero idle_client 0 7 [] scored_state initial device
      (fresh no_header) refl (omega arith) (rw (held_here, self_members) refl)
      (filled-IsValid.holds device) newest_answer-Runs

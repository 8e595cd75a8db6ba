-- ===== src/Tests/AnomalyRuns.antt =====
-- Runs of the anomaly score.
use the_500mb_club_challenge.Http.Anomaly.Overflow.{anomaly_overflow}
use the_500mb_club_challenge.Http.Anomaly.Mem.{anomaly-Mem, IsAnswer}
use the_500mb_club_challenge.Tests.RedisRuns.{device_valid}
use the_500mb_club_challenge.Model.Point.{Point}
use the_500mb_club_challenge.Http.Anomaly.{anomaly}
use the_500mb_club_challenge.Golang.Float64.{Float64}
use the_500mb_club_challenge.Golang.Arith.{inf_bits, float_sqrt, float_mul, float_add}
use the_500mb_club_challenge.Tests.StoreRuns.{filled-IsValid, device}
use the_500mb_club_challenge.Prelude.{
  arith, ◌∷◌, false, replicate, List, [], ℕ, ◌≡◌, refl, ok, panic,
}
use the_500mb_club_challenge.Prelude.Int.{pos}
use the_500mb_club_challenge.Anomaly.{magnitude}
use the_500mb_club_challenge.Http.Handler.{State, Store}
use the_500mb_club_challenge.Http.Query.Mem.{mem_store}
use the_500mb_club_challenge.Http.Writer.{fresh}
use the_500mb_club_challenge.Http.Anomaly.Reply.{IsReply, anomaly-IsReply}
use the_500mb_club_challenge.Tests.HttpRuns.{initial, print_zero, no_header}

-- A point with the acceleration `az`.
abbrev pub along_z : Float64 → Point
along_z az = record {
  ts = pos 7;
  lat = 0;
  lon = 0;
  battery = 0;
  has_battery = false;
  ax = 0;
  ay = 0;
  az = az;
}

-- 1e200, whose square is too large.
abbrev huge : Point
huge = along_z 0x6974E718D7D7625A

huge-magnitude : magnitude huge ≡ inf_bits
unfolding magnitude float_add float_mul float_sqrt
huge-magnitude = refl

-- 9.81, eight times, and twice nine times.
abbrev still : List Point
still = replicate 8 (along_z 0x40239EB851EB851F)

anomaly-IsReply_example :
    IsReply mem_store print_zero device initial
      (anomaly mem_store print_zero device initial (fresh no_header))
anomaly-IsReply_example = anomaly-IsReply mem_store print_zero device initial no_header

-- A store that always has these points.
abbrev has : List Point → Store ℕ
has ps = record {
  ping = λ s. (s, ok tt);
  append = λ s id pts. (s, ok 0);
  range = λ s id from to limit cur. (s, panic);
  recent = λ s id n. (s, ok ps);
}

abbrev empty_state : State ℕ
empty_state = record { store = 0; points = 0; read_timeouts = 0; requests = [] }

anomaly_overflow_example :
    ((anomaly (has (huge ∷ still)) print_zero device empty_state (fresh no_header)).writer.status
      ≡ 200)
    × ((anomaly (has (huge ∷ still)) print_zero device empty_state (fresh no_header)).writer.body
        ≡ [])
anomaly_overflow_example =
    anomaly_overflow (has (huge ∷ still)) print_zero device empty_state no_header huge still
      device_valid refl huge-magnitude (omega arith)

anomaly-Mem_example :
    IsAnswer print_zero device initial
      (anomaly mem_store print_zero device initial (fresh no_header))
anomaly-Mem_example =
    anomaly-Mem print_zero device initial no_header device_valid (filled-IsValid.holds device)

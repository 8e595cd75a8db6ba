-- ===== src/Api.antt =====
-- cmd/api/main.go: the parts of an instance, and the warm-up of its pool. Sockets and signals are
-- not modelled.
pub mod WarmUp
use the_500mb_club_challenge.Prelude.{
  ℕ, zero, suc, Bool, true, false, Option, none, some, [], Bytes, Result, ok, err, panic,
}
use the_500mb_club_challenge.Prelude.Int.{ℤ, pos, negsuc, pos_part}
use the_500mb_club_challenge.Config
use the_500mb_club_challenge.Config.{load}
use the_500mb_club_challenge.Metrics.{Registry, empty_registry, add_collector}
use the_500mb_club_challenge.Store.Redis.{Network, Client, Answer, new_redis}
use the_500mb_club_challenge.Store.Redis.Ops.{warm}
use the_500mb_club_challenge.Http.Handler
use the_500mb_club_challenge.Http.Handler.{State, new_state}

-- What `main` sets up; `redis_addr` is what the network dials. A limit on a body below 0 counts as 0
-- for net/http.
pub record Instance (C : Type 0) : Type 0 where
  pub addr : Bytes
  pub redis_addr : Bytes
  pub state : State (Client C)
  pub limits : Handler.Config
  pub read_timeout : ℤ
  pub shutdown_timeout : ℤ

-- `none` for a negative pool, with which `make` panics, and for a negative cap.
unfoldable pub open_store : {C : Type 0} → ℤ → ℤ → Option (Client C)
open_store (pos size) (pos cap) = some (new_redis size cap)
open_store (pos size) (negsuc cap) = none
open_store (negsuc size) cap = none

unfoldable pub start : {C : Type 0} → (Bytes → Bytes) → Option Bytes → Option (Instance C)
unfolding open_store
start getenv host =
    let cfg = load getenv host in
    elim (open_store cfg.pool_size cfg.device_cap) [
      | none ↦ none
      | some st ↦ some (record {
        addr = cfg.addr;
        redis_addr = cfg.redis_addr;
        state = new_state st;
        limits = record {
          instance_id = cfg.instance_id;
          single_max_bytes = pos_part cfg.single_max_bytes;
          batch_max_bytes = pos_part cfg.batch_max_bytes;
        };
        read_timeout = cfg.read_timeout;
        shutdown_timeout = cfg.shutdown_timeout;
      })
    ]

-- The registry at a scrape, before `New`; `runtime` is what `RuntimeCollector` writes then.
unfoldable pub base_registry : Bytes → Registry
base_registry runtime = add_collector runtime empty_registry

-- `begin` makes a context of three seconds, and `sleep` waits for half a second.
module _ {W C : Type 0} (net : Network W C) (begin sleep : W → W) where
  -- The turns that are left are taken after a failure.
  unfoldable pub after_attempt :
      (Client C → W → Answer W C Bool) → Answer W C (Unit {0}) → Answer W C Bool
  after_attempt retry (ok u, sw) = (ok true, sw)
  after_attempt retry (err e, (s, w)) = retry s (sleep w)
  after_attempt retry (panic, sw) = (panic, sw)

  -- Whether the pool was warmed, after so many attempts at most.
  unfoldable pub attempt_loop : ℕ → Client C → W → Answer W C Bool
  unfolding after_attempt
  attempt_loop zero s w = (ok false, (s, w))
  attempt_loop (suc n) s w = after_attempt (attempt_loop n) (warm net s (begin w))

  unfoldable pub warm_pool : Client C → W → Answer W C Bool
  unfolding attempt_loop
  warm_pool s w = attempt_loop 20 s w

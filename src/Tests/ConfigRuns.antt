-- ===== src/Tests/ConfigRuns.antt =====
-- Runs of the configuration.
use the_500mb_club_challenge.Prelude.{
  ◌≡◌, refl, inl, inr, none, [], Bytes, bytes_eq, codes, if◌then◌else◌, arith,
}
use the_500mb_club_challenge.Prelude.Int.{pos}
use the_500mb_club_challenge.Golang.Strconv.{format_int}
use the_500mb_club_challenge.Config.{Config, load}
use the_500mb_club_challenge.Config.Laws.{Describes, load_lem}

-- The instance and the capacity are set, nothing else.
abbrev environment : Bytes → Bytes
environment key =
    if bytes_eq key (codes "INSTANCE_ID")
    then codes "pi-1"
    else if bytes_eq key (codes "DEVICE_CAP")
    then codes "2048"
    else []

abbrev expected : Config
expected = record {
  addr = codes ":8080";
  redis_addr = codes "127.0.0.1:6379";
  instance_id = codes "pi-1";
  pool_size = pos 64;
  device_cap = pos 2048;
  single_max_bytes = pos 4096;
  batch_max_bytes = pos 131072;
  read_timeout = pos 250000000;
  shutdown_timeout = pos 10000000000;
}

environment-Describes : Describes environment expected 250
unfolding format_int
environment-Describes = record {
  addr = inl (refl, refl);
  redis_addr = inl (refl, refl);
  instance_id = (refl, λ e. cc e);
  pool_size = inl (refl, refl);
  device_cap = inr (refl, omega arith);
  single_max_bytes = inl (refl, refl);
  batch_max_bytes = inl (refl, refl);
  timeout = inl (refl, refl);
  read_timeout = (refl, omega arith);
  shutdown_timeout = refl;
}

load_lem_example : load environment none ≡ expected
load_lem_example = load_lem environment none expected 250 environment-Describes

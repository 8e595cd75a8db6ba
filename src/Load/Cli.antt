-- ===== src/Load/Cli.antt =====
-- stress/load/cli.go: the options that the commands under stress/cmd share. The parser of the flags is
-- the `flag` package, so the options are at their defaults here.
use the_500mb_club_challenge.Prelude.{ℕ, some, List, [], ◌∷◌, Bytes, codes}
use the_500mb_club_challenge.Prelude.Int.{pos}
use the_500mb_club_challenge.Load.Mix.{default_mix}
use the_500mb_club_challenge.Load.Driver.{Config, Segment}

pub record CommonOpts : Type 0 where
  pub url : Bytes
  pub devices : ℕ
  pub workers : ℕ
  pub batch : ℕ

-- `os.Getenv` gives no bytes for a variable that is not set.
unfoldable pub env_or : (Bytes → Bytes) → Bytes → Bytes → Bytes
env_or getenv key def = elim (getenv key) [ [] ↦ def | c ∷ v ↦ c ∷ v ]

unfoldable pub register_common : (Bytes → Bytes) → CommonOpts
unfolding env_or
register_common getenv = record {
  url = env_or getenv (codes "BASE_URL") (codes "http://localhost:8080");
  devices = 50;
  workers = 200;
  batch = 50;
}

unfoldable pub config : CommonOpts → List Segment → Config
config o segments = record {
  base_url = o.url;
  mix = some default_mix;
  segments = segments;
  devices = o.devices;
  batch_size = o.batch;
  workers = o.workers;
  warmup = pos 0;
}

-- ===== src/Config.antt =====
-- internal/config/config.go: the configuration, read from the environment.
pub mod Laws
use the_500mb_club_challenge.Prelude.{ℕ, ◌*◌, ◌%◌, ◌^◌, Option, none, some, [], ◌∷◌, Bytes, codes}
use the_500mb_club_challenge.Prelude.Int.{ℤ, pos, to_uint64, to_int64}
use the_500mb_club_challenge.Golang.Strconv.{parse_int}

-- A `time.Duration` is an `int64` of nanoseconds.
pub record Config : Type 0 where
  pub addr : Bytes
  pub redis_addr : Bytes
  pub instance_id : Bytes
  pub pool_size : ℤ
  pub device_cap : ℤ
  pub single_max_bytes : ℤ
  pub batch_max_bytes : ℤ
  pub read_timeout : ℤ
  pub shutdown_timeout : ℤ

str_or : Bytes → Bytes → Bytes
str_or [] def = def
str_or (c ∷ s) def = c ∷ s

unfoldable pub str : (Bytes → Bytes) → Bytes → Bytes → Bytes
unfolding str_or
str getenv key def = str_or (getenv key) def

-- `strconv.Atoi` is `ParseInt` with base 10 for a 64-bit `int`.
int_or : Bytes → ℤ → ℤ
int_or [] def = def
int_or (c ∷ s) def = elim (parse_int (c ∷ s)) [ none ↦ def | some n ↦ n ]

unfoldable pub int_val : (Bytes → Bytes) → Bytes → ℤ → ℤ
unfolding int_or
int_val getenv key def = int_or (getenv key) def

-- `time.Duration(n) * time.Millisecond`
unfoldable pub milliseconds : ℤ → ℤ
milliseconds n = to_int64 ((to_uint64 n * 1000000) % 2 ^ 64)

-- `os.Hostname`, `none` for an error, where no instance is named.
instance_or : Bytes → Option Bytes → Bytes
instance_or (c ∷ s) host = c ∷ s
instance_or [] none = codes "unknown"
instance_or [] (some []) = codes "unknown"
instance_or [] (some (c ∷ h)) = c ∷ h

pub load : (Bytes → Bytes) → Option Bytes → Config
unfolding str int_val milliseconds instance_or
load getenv host = record {
  addr = str getenv (codes "LISTEN_ADDR") (codes ":8080");
  redis_addr = str getenv (codes "REDIS_ADDR") (codes "127.0.0.1:6379");
  instance_id = instance_or (getenv (codes "INSTANCE_ID")) host;
  pool_size = int_val getenv (codes "REDIS_POOL") (pos 64);
  device_cap = int_val getenv (codes "DEVICE_CAP") (pos 1024);
  single_max_bytes = int_val getenv (codes "SINGLE_MAX_BYTES") (pos 4096);
  batch_max_bytes = int_val getenv (codes "BATCH_MAX_BYTES") (pos 131072);
  read_timeout = milliseconds (int_val getenv (codes "READ_TIMEOUT_MS") (pos 250));
  shutdown_timeout = pos 10000000000;
}

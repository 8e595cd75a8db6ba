-- ===== src/Config/Laws.antt =====
-- On internal/config/config.go: an environment that describes a configuration.
use the_500mb_club_challenge.Prelude.{
  ℕ, ◌*◌, ◌^◌, ◌≡◌, ◌≢◌, refl, sym, ◌<◌, ◌⊎◌, inl, inr, Option, some, [], ◌∷◌, Bytes, codes, arith,
}
use the_500mb_club_challenge.Prelude.Int.{ℤ, pos, IsInt64}
use the_500mb_club_challenge.Golang.Strconv.{parse_int, format_int, parse_int-format_int}
use the_500mb_club_challenge.Config.{
  Config, str, str_or, int_val, int_or, milliseconds, instance_or, load,
}

-- The variable is unset and the value is the default, or it holds the value.
abbrev pub IsText : (Bytes → Bytes) → Bytes → Bytes → Bytes → Type 0
IsText getenv key def v = ((getenv key ≡ []) × (v ≡ def)) ⊎ ((getenv key ≡ v) × (v ≢ []))

abbrev pub IsNumber : (Bytes → Bytes) → Bytes → ℤ → ℤ → Type 0
IsNumber getenv key def v =
    ((getenv key ≡ []) × (v ≡ def)) ⊎ ((getenv key ≡ format_int v) × IsInt64 v)

-- `ms` is the read timeout in milliseconds.
pub record Describes (getenv : Bytes → Bytes) (c : Config) (ms : ℕ) : Type 0 where
  pub addr : IsText getenv (codes "LISTEN_ADDR") (codes ":8080") c.addr
  pub redis_addr : IsText getenv (codes "REDIS_ADDR") (codes "127.0.0.1:6379") c.redis_addr
  pub instance_id : (getenv (codes "INSTANCE_ID") ≡ c.instance_id) × (c.instance_id ≢ [])
  pub pool_size : IsNumber getenv (codes "REDIS_POOL") (pos 64) c.pool_size
  pub device_cap : IsNumber getenv (codes "DEVICE_CAP") (pos 1024) c.device_cap
  pub single_max_bytes : IsNumber getenv (codes "SINGLE_MAX_BYTES") (pos 4096) c.single_max_bytes
  pub batch_max_bytes : IsNumber getenv (codes "BATCH_MAX_BYTES") (pos 131072) c.batch_max_bytes
  pub timeout : IsNumber getenv (codes "READ_TIMEOUT_MS") (pos 250) (pos ms)
  pub read_timeout : (c.read_timeout ≡ pos (ms * 1000000)) × (ms * 1000000 < 2 ^ 63)
  pub shutdown_timeout : c.shutdown_timeout ≡ pos 10000000000

str_or_set : (s def : Bytes) → s ≢ [] → str_or s def ≡ s
unfolding str_or
str_or_set [] def h = absurd (h refl)
str_or_set (c ∷ s) def h = refl

str_lem :
    (getenv : Bytes → Bytes) (key def v : Bytes) → IsText getenv key def v → str getenv key def ≡ v
unfolding str
str_lem getenv key def v (inl (e, q)) = rw (e, str_or) (sym q)
str_lem getenv key def v (inr (e, n)) = rw e (str_or_set v def n)

int_or-parse : (s : Bytes) (def v : ℤ) → parse_int s ≡ some v → int_or s def ≡ v
unfolding int_or parse_int
int_or-parse [] def v h = cc h
int_or-parse (c ∷ s) def v h = rw (int_or, h) refl

int_val_lem :
    (getenv : Bytes → Bytes) (key : Bytes) (def v : ℤ)
    → IsNumber getenv key def v
    → int_val getenv key def ≡ v
unfolding int_val
int_val_lem getenv key def v (inl (e, q)) = rw (e, int_or) (sym q)
int_val_lem getenv key def v (inr (e, t)) =
    rw e (int_or-parse (format_int v) def v (parse_int-format_int v t))

instance_lem : (s : Bytes) (host : Option Bytes) → s ≢ [] → instance_or s host ≡ s
unfolding instance_or
instance_lem [] host h = absurd (h refl)
instance_lem (c ∷ s) host h = refl

milliseconds_lem : (ms : ℕ) → ms * 1000000 < 2 ^ 63 → milliseconds (pos ms) ≡ pos (ms * 1000000)
unfolding milliseconds
milliseconds_lem ms h = ground arith

-- An environment that names the instance, and in which every other variable is unset, with its
-- default in the configuration, or holds the printed value of the configuration, is loaded as that
-- configuration, whatever the host name; the read timeout is given in milliseconds and its
-- nanoseconds fit an int64.
pub load_lem :
    (getenv : Bytes → Bytes) (host : Option Bytes) (c : Config) (ms : ℕ)
    → Describes getenv c ms
    → load getenv host ≡ c
unfolding load
load_lem getenv host c ms d = rw (
  load,
  str_lem getenv _ _ c.addr d.addr,
  str_lem getenv _ _ c.redis_addr d.redis_addr,
  d.instance_id.0,
  instance_lem c.instance_id host d.instance_id.1,
  int_val_lem getenv _ _ c.pool_size d.pool_size,
  int_val_lem getenv _ _ c.device_cap d.device_cap,
  int_val_lem getenv _ _ c.single_max_bytes d.single_max_bytes,
  int_val_lem getenv _ _ c.batch_max_bytes d.batch_max_bytes,
  int_val_lem getenv _ _ (pos ms) d.timeout,
  milliseconds_lem ms d.read_timeout.1,
  ← d.read_timeout.0,
  ← d.shutdown_timeout,
)

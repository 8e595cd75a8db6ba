-- ===== src/Load/Driver.antt =====
-- stress/load/driver.go: a run of the load generator. The HTTP client, the clock and the random
-- numbers are arguments.
pub mod Pacer
use the_500mb_club_challenge.Golang.Float64.{Float64}
use the_500mb_club_challenge.Prelude.{
  ltb, ◌+◌, false, Bool, ◌/◌, ℕ, zero, suc, List, [], ◌∷◌, ◌++◌, if◌then◌else◌, ◌==◌, Option, none,
  some, Bytes, bytes_eq, codes,
}
use the_500mb_club_challenge.Prelude.Int.{negsuc, ℤ, pos, ltb_ℤ, eqb_ℤ}
use the_500mb_club_challenge.Golang.Strconv.{format_uint, format_int}
use the_500mb_club_challenge.Load.Mix.{Mix, default_mix}
use the_500mb_club_challenge.Load.Payload.{Rand, random_point, random_batch}

pub record Segment : Type 0 where
  pub rate : ℤ
  pub dur : ℤ

-- Devices, batch size and workers are ints that are not negative.
pub record Config : Type 0 where
  pub base_url : Bytes
  pub mix : Option Mix
  pub segments : List Segment
  pub devices : ℕ
  pub batch_size : ℕ
  pub workers : ℕ
  pub warmup : ℤ

-- A negative warm-up is none; 0 is the default.
unfoldable pub warmup_or : ℤ → ℤ
warmup_or n = if eqb_ℤ n (pos 0) then pos 16 else if ltb_ℤ n (pos 0) then pos 0 else n

unfoldable pub with_defaults : Config → Config
unfolding warmup_or
with_defaults cfg = record cfg {
  batch_size = if cfg.batch_size == 0 then 50 else cfg.batch_size;
  workers = if cfg.workers == 0 then 200 else cfg.workers;
  devices = if cfg.devices == 0 then 50 else cfg.devices;
  warmup = warmup_or cfg.warmup;
  mix = elim cfg.mix [ none ↦ some default_mix | some m ↦ some m ];
}

-- `none` for a segment without a rate, which is skipped; else nanoseconds between ticks.
unfoldable pub interval : Segment → Option ℕ
interval seg = elim seg.rate [
  | pos n ↦ if n == 0 then none else some (1000000000 / n)
  | negsuc n ↦ none
]

pub record Call : Type 0 where
  pub method : Bytes
  pub url : Bytes
  pub body : Option Bytes

abbrev device_name : ℕ → Bytes
device_name d = codes "dev" ++ format_uint d

-- `Do` and the reading of the body: how long it took, and the status, or `none` for an error.
-- `parses` is whether a URL can be made a request.
pub record Client (W : Type 0) : Type 0 where
  pub parses : Bytes → Bool
  pub send : W → Call → W × (ℤ × Option ℕ)

module _ {R : Type 0} (rng : Rand R) (format_six : Float64 → Bytes) (now : ℕ) where
  unfoldable pub request : Config → Bytes → Bytes → R → Call × R
  request cfg op dev r =
      let base = cfg.base_url ++ (codes "/devices/" ++ dev) in
      let (batch, r1) = random_batch rng format_six now cfg.batch_size r in
      let (point, r2) = random_point rng format_six now r in
      if bytes_eq op (codes "batch")
      then (
        record { method = codes "POST"; url = base ++ codes "/telemetry/batch"; body = some batch },
        r1,
      )
      else if bytes_eq op (codes "range")
      then (
        record {
          method = codes "GET";
          url =
              base
              ++ (codes "/telemetry?from=0&to=" ++ (format_uint (now + 1) ++ codes "&limit=100"));
          body = none;
        },
        r,
      )
      else if bytes_eq op (codes "anomaly")
      then (record { method = codes "GET"; url = base ++ codes "/anomaly"; body = none }, r)
      else (
        record { method = codes "POST"; url = base ++ codes "/telemetry"; body = some point },
        r2,
      )

  module _ {W : Type 0} (client : Client W) where
    abbrev succeeded : Option ℕ → Bool
    succeeded none = false
    succeeded (some status) = ltb status 400

    -- The latency, and whether the response was a success.
    unfoldable pub fire : Config → Bytes → R → W → (ℤ × Bool) × (R × W)
    unfolding request
    fire cfg op r w =
        let (d, r1) = rng.intn cfg.devices r in
        let (call, r2) = request cfg op (device_name d) r1 in
        let (w', (took, status)) = client.send w call in
        if client.parses call.url
        then ((took, succeeded status), (r2, w'))
        else ((pos 0, false), (r2, w))

    -- The loop over the devices from `d` on, with the turns that are left. What the service answers
    -- is not looked at.
    unfoldable pub seed_from : ℕ → ℕ → ℕ → Bytes → R → W → R × W
    seed_from zero d warmup base r w = (r, w)
    seed_from (suc n) d warmup base r w =
        let (body, r') = random_batch rng format_six now warmup r in
        let url = base ++ (codes "/devices/" ++ (device_name d ++ codes "/telemetry/batch")) in
        let (w', answer) =
          client.send w (record { method = codes "POST"; url = url; body = some body }) in
        seed_from n (d + 1) warmup base r' (if client.parses url then w' else w)

    unfoldable pub seed : Config → R → W → R × W
    unfolding seed_from
    seed cfg r w = elim cfg.warmup [
      | pos n ↦ if ltb 0 n then seed_from cfg.devices 0 n cfg.base_url r w else (r, w)
      | negsuc n ↦ (r, w)
    ]

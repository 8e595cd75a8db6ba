-- ===== src/Model/Codec.antt =====
-- internal/model/point.go: the fixed 65-byte member that is stored.
use the_500mb_club_challenge.Prelude.{
  ℕ, ◌≡◌, refl, Bool, true, false, Option, none, some, [], ◌∷◌, ◌++◌, Bytes, ltb, ◌==◌,
  if◌then◌else◌, length, take, drop, get_or, replicate, arith, append-nil,
}
use the_500mb_club_challenge.Prelude.Int.{to_uint64, to_int64, to_int64-to_uint64, to_uint64-lt}
use the_500mb_club_challenge.Golang.Binary.{
  put_be, get_be, put_le, get_le, get_be-put_be, get_le-put_le,
}
use the_500mb_club_challenge.Model.Point.{Point, IsTyped}

abbrev pub encoded_len : ℕ
encoded_len = 65

-- The bytes written at 0, 8, 16, … 64.
unfoldable pub layout : Point → ℕ → Bytes
layout p seq =
    put_be 8 (to_uint64 p.ts)
    ++ (put_be 8 seq
        ++ (put_le 8 p.lat
            ++ (put_le 8 p.lon
                ++ (put_le 8 p.ax
                    ++ (put_le 8 p.ay
                        ++ (put_le 8 p.az
                            ++ (put_le 8 p.battery ++ ((if p.has_battery then 1 else 0) ∷ []))))))))

-- `none` is the panic of the bounds check on a short buffer; bytes behind the member are kept.
unfoldable pub encode_into : Point → Bytes → ℕ → Option Bytes
unfolding layout
encode_into p dst seq =
    if ltb (length dst) encoded_len then none else some (layout p seq ++ drop encoded_len dst)

unfoldable pub encode : Point → ℕ → Bytes
unfolding encode_into
encode p seq = elim (encode_into p (replicate encoded_len 0) seq) [ none ↦ [] | some b ↦ b ]

unfoldable pub decode : Bytes → Option Point
decode b =
    if length b == encoded_len
    then some (record {
      ts = to_int64 (get_be (take 8 b));
      lat = get_le (take 8 (drop 16 b));
      lon = get_le (take 8 (drop 24 b));
      battery = get_le (take 8 (drop 56 b));
      has_battery = get_or b 64 0 == 1;
      ax = get_le (take 8 (drop 32 b));
      ay = get_le (take 8 (drop 40 b));
      az = get_le (take 8 (drop 48 b));
    })
    else none

pub encode-layout : (p : Point) (seq : ℕ) → encode p seq ≡ layout p seq
unfolding encode
encode-layout p seq = append-nil (layout p seq)

pub length-encode : (p : Point) (seq : ℕ) → length (encode p seq) ≡ encoded_len
unfolding encode put_be put_le
length-encode p seq = refl

module _ (p : Point) (seq : ℕ) where
  pub take_ts : take 8 (layout p seq) ≡ put_be 8 (to_uint64 p.ts)
  unfolding layout put_be
  take_ts = refl

  pub take_seq : take 8 (drop 8 (layout p seq)) ≡ put_be 8 seq
  unfolding layout put_be
  take_seq = refl

  take_floats :
      (take 8 (drop 16 (layout p seq)) ≡ put_le 8 p.lat)
      × (take 8 (drop 24 (layout p seq)) ≡ put_le 8 p.lon)
      × (take 8 (drop 32 (layout p seq)) ≡ put_le 8 p.ax)
      × (take 8 (drop 40 (layout p seq)) ≡ put_le 8 p.ay)
      × (take 8 (drop 48 (layout p seq)) ≡ put_le 8 p.az)
      × (take 8 (drop 56 (layout p seq)) ≡ put_le 8 p.battery)
  unfolding layout put_be put_le
  take_floats = (refl, refl, refl, refl, refl, refl)

  flag_byte : get_or (layout p seq) 64 0 ≡ (if p.has_battery then 1 else 0)
  unfolding layout put_be put_le
  flag_byte = refl

  length-layout : length (layout p seq) ≡ 65
  unfolding layout put_be put_le
  length-layout = refl

flag_test : (b : Bool) → ((if b then 1 else 0) == 1) ≡ b
flag_test true = refl
flag_test false = refl

-- Decode gives back the point that Encode wrote, whatever sequence number the member carries, for
-- every point whose fields fit their machine types.
pub decode-encode_member : (p : Point) (seq : ℕ) → IsTyped p → decode (encode p seq) ≡ some p
unfolding decode
decode-encode_member p seq t =
    let (lat, lon, ax, ay, az, battery) = take_floats p seq in
    rw (
      encode-layout,
      length-layout,
      take_ts,
      lat,
      lon,
      ax,
      ay,
      az,
      battery,
      flag_byte,
      flag_test,
      get_be-put_be 8 (to_uint64 p.ts) (omega (arith, to_uint64-lt p.ts)),
      get_le-put_le 8 p.lat (omega arith),
      get_le-put_le 8 p.lon (omega arith),
      get_le-put_le 8 p.ax (omega arith),
      get_le-put_le 8 p.ay (omega arith),
      get_le-put_le 8 p.az (omega arith),
      get_le-put_le 8 p.battery (omega arith),
      to_int64-to_uint64 p.ts t.ts,
    )

-- ===== src/Store/Mem/View.antt =====
-- On internal/store/mem.go: a device's members as the points that they hold.
use the_500mb_club_challenge.Prelude.{
  ℕ, zero, suc, ◌≤◌, ◌≡◌, refl, sym, ap, ◌∙◌, Bool, false, none, some, List, [], ◌∷◌, map, Bytes,
  length, length-take, take, drop, take-append-drop, filter, All, All-take, All-filter, arith,
  Bool-cases, inl, inr,
}
use the_500mb_club_challenge.Prelude.Int.{ℤ, pos, ◌≤ℤ◌, leb_ℤ}
use the_500mb_club_challenge.Golang.Binary.{get_be, bytes_lt, get_be_le}
use the_500mb_club_challenge.Model.Point.{Point}
use the_500mb_club_challenge.Model.Codec.{decode}
use the_500mb_club_challenge.Store.Page.Resume.{Ascending, from_ts}
use the_500mb_club_challenge.Store.Mem.{mem_ts, fetch, in_window}
use the_500mb_club_challenge.Store.Mem.Insert.{IsSorted}
use the_500mb_club_challenge.Store.Mem.Invariant.{IsMember}

abbrev blank : Point
blank = record {
  ts = pos 0;
  lat = 0;
  lon = 0;
  battery = 0;
  has_battery = false;
  ax = 0;
  ay = 0;
  az = 0;
}

-- The point of a member.
pub point_of : Bytes → Point
point_of m = elim (decode m) [ none ↦ blank | some p ↦ p ]

decode_size : (m : Bytes) → length m ≡ 65 → (p : Point) × (decode m ≡ some p) × (p.ts ≡ mem_ts m)
unfolding decode mem_ts
decode_size m h = rw h (_, refl, refl)

pub decode-point_of :
    (m : Bytes) → IsMember m → (decode m ≡ some (point_of m)) × ((point_of m).ts ≡ mem_ts m)
unfolding point_of
decode-point_of m h =
    let (p, e, t) = decode_size m h.size in
    let same : point_of m ≡ p = rw (point_of, e) in
    (e ∙ ap some (sym same), ap (λ (q : Point). q.ts) same ∙ t)

stamp_order : (m n : Bytes) → IsMember m → IsMember n → bytes_lt n m ≡ false → mem_ts m ≤ℤ mem_ts n
unfolding mem_ts
stamp_order m n hm hn h =
    let below : get_be (take 8 m) ≤ get_be (take 8 n) =
      get_be_le (take 8 m) (take 8 n) (drop 8 m) (drop 8 n)
        (omega (arith, length-take 8 m, length-take 8 n, hm.size, hn.size))
        (All-take _ 8 m hm.bytes) (All-take _ 8 n hn.bytes)
        (rw (take-append-drop 8 m, take-append-drop 8 n) h) in
    ground (arith, hm.stamp, hn.stamp)

sorted_above :
    (m : Bytes) (ms : List Bytes)
    → IsMember m
    → All IsMember ms
    → All (λ n. bytes_lt n m ≡ false) ms
    → All (λ q. (point_of m).ts ≤ℤ q.ts) (map point_of ms)
sorted_above m [] hm hs h = tt
sorted_above m (n ∷ ms) hm (hn, hs) (h, k) = (
  rw ((decode-point_of m hm).1, (decode-point_of n hn).1) (stamp_order m n hm hn h),
  sorted_above m ms hm hs k,
)

-- Members in byte order hold points in ascending order.
pub map-Ascending : (ms : List Bytes) → IsSorted ms → All IsMember ms → Ascending (map point_of ms)
map-Ascending [] s h = tt
map-Ascending (m ∷ ms) (a, s) (hm, h) = (sorted_above m ms hm h a, map-Ascending ms s h)

pub filter-IsSorted : (f : Bytes → Bool) (ms : List Bytes) → IsSorted ms → IsSorted (filter f ms)
filter-IsSorted f [] s = tt
filter-IsSorted f (m ∷ ms) (a, s) = elim (Bool-cases (f m)) [
  | inl e ↦ rw e (All-filter _ f ms a, filter-IsSorted f ms s)
  | inr e ↦ rw e (filter-IsSorted f ms s)
]

-- Decoding the members of a fetch never fails.
pub fetch-map :
    (ms : List Bytes) (room : ℕ)
    → All IsMember ms
    → fetch ms room ≡ some (map point_of (take room ms))
unfolding fetch
fetch-map [] zero h = refl
fetch-map [] (suc room) h = refl
fetch-map (m ∷ ms) zero h = refl
fetch-map (m ∷ ms) (suc room) (hm, h) = rw (fetch, (decode-point_of m hm).0, fetch-map ms room h)

-- The points of a device up to the timestamp `to`.
unfoldable pub upto : ℤ → List Bytes → List Point
upto to ms = map point_of (filter (λ m. leb_ℤ (mem_ts m) to) ms)

-- A window from `t` is what a fetch from `t` on keeps of the points up to `to`.
pub window-upto :
    (t to : ℤ) (ms : List Bytes)
    → All IsMember ms
    → map point_of (filter (in_window t to) ms) ≡ filter (from_ts t) (upto to ms)
unfolding upto in_window
window-upto t to [] h = refl
window-upto t to (m ∷ ms) (hm, h) =
    let stamp : from_ts t (point_of m) ≡ leb_ℤ t (mem_ts m) =
      ap (leb_ℤ t) (decode-point_of m hm).1 in
    elim (Bool-cases (leb_ℤ (mem_ts m) to)) [
      | inl e ↦ elim (Bool-cases (leb_ℤ t (mem_ts m))) [
        | inl d ↦ rw (in_window, d, e, stamp, d) (ap (λ s. point_of m ∷ s) (window-upto t to ms h))
        | inr d ↦ rw (in_window, d, e, stamp, d) (window-upto t to ms h)
      ]
      | inr e ↦ elim (Bool-cases (leb_ℤ t (mem_ts m))) [
        | inl d ↦ rw (in_window, d, e) (window-upto t to ms h)
        | inr d ↦ rw (in_window, d, e) (window-upto t to ms h)
      ]
    ]

-- ===== src/Store/Mem/Invariant.antt =====
-- On internal/store/mem.go: the members of a device and what `Append` does to them.
use the_500mb_club_challenge.Prelude.{
  ℕ, ◌+◌, ◌-◌, ◌%◌, ◌^◌, ◌≤◌, ◌<◌, ◌≡◌, refl, Bool, true, false, List, [], ◌∷◌, ◌++◌, if◌then◌else◌,
  ltb, Bytes, bytes_eq, IsByte, length, take, drop, length-drop, All, All-drop, All-append, arith,
  Bool-cases, inl, inr,
}
use the_500mb_club_challenge.Prelude.Int.{ℤ, pos, negsuc, IsInt64, ◌≤ℤ◌, to_uint64, to_uint64-lt}
use the_500mb_club_challenge.Golang.Binary.{
  put_be, put_le, get_be, get_be-put_be, put_be-All, put_le-All,
}
use the_500mb_club_challenge.Model.Point.{Point, IsTyped}
use the_500mb_club_challenge.Model.Codec.{encode, layout, encode-layout, length-encode, take_ts}
use the_500mb_club_challenge.Store.Mem.{MemStore, insert_member, append_points, trim, append}
use the_500mb_club_challenge.Store.Mem.Insert.{
  IsSorted, insert_member-ordered, insert_ordered-IsSorted, insert_ordered-All, insert_ordered-perm,
  drop-IsSorted,
}
use mathlib.Core.List.{Perm, perm_middle}
use mathlib.Core.List.Perm

-- A stored member has 65 bytes, and its timestamp is not negative.
pub record IsMember (m : Bytes) : Type 0 where
  pub size : length m ≡ 65
  pub bytes : All IsByte m
  pub stamp : get_be (take 8 m) < 2 ^ 63

abbrev pub IsStorable : Point → Type 0
IsStorable p = IsTyped p × (pos 0 ≤ℤ p.ts)

pub record HoldsMembers (ms : List Bytes) : Type 0 where
  pub sorted : IsSorted ms
  pub members : All IsMember ms

layout-All : (p : Point) (seq : ℕ) → All IsByte (layout p seq)
unfolding layout
layout-All p seq = All-append _ (put_be 8 (to_uint64 p.ts)) _ (put_be-All 8 _) (
    All-append _ (put_be 8 seq) _ (put_be-All 8 _) (
      All-append _ (put_le 8 p.lat) _ (put_le-All 8 _) (
        All-append _ (put_le 8 p.lon) _ (put_le-All 8 _) (
          All-append _ (put_le 8 p.ax) _ (put_le-All 8 _) (
            All-append _ (put_le 8 p.ay) _ (put_le-All 8 _) (
              All-append _ (put_le 8 p.az) _ (put_le-All 8 _) (
                All-append _ (put_le 8 p.battery) _ (put_le-All 8 _) (flag p.has_battery, tt))))))))
  where
    flag : (b : Bool) → IsByte (if b then 1 else 0)
    flag true = omega arith
    flag false = omega arith

stamp_small : (ts : ℤ) → IsInt64 ts → pos 0 ≤ℤ ts → to_uint64 ts < 2 ^ 63
stamp_small (pos n) t h = omega arith
stamp_small (negsuc n) t h = absurd (omega arith)

pub encode-IsMember : (p : Point) (seq : ℕ) → IsStorable p → IsMember (encode p seq)
encode-IsMember p seq h = record {
  size = length-encode p seq;
  bytes = rw encode-layout (layout-All p seq);
  stamp =
      rw
        (
          encode-layout,
          take_ts,
          get_be-put_be 8 (to_uint64 p.ts) (omega (arith, to_uint64-lt p.ts)),
        )
        (stamp_small p.ts h.0.ts h.1);
}

-- Members that a batch adds, newest last, under the sequence numbers that follow `seq`.
unfoldable pub encodings : ℕ → List Point → List Bytes
encodings seq [] = []
encodings seq (p ∷ ps) = encode p ((seq + 1) % 2 ^ 64) ∷ encodings ((seq + 1) % 2 ^ 64) ps

insert_member-holds :
    (e : Bytes) (ms : List Bytes) → IsMember e → HoldsMembers ms → HoldsMembers (insert_member e ms)
insert_member-holds e ms he h = rw (insert_member-ordered e ms h.sorted) (record {
  sorted = insert_ordered-IsSorted e ms h.sorted;
  members = insert_ordered-All IsMember e ms he h.members;
})

-- The loop keeps the order, and its members are the old ones and the encodings of the batch.
pub append_points_lem :
    (ms : List Bytes) (seq : ℕ) (ps : List Point)
    → All IsStorable ps
    → HoldsMembers ms
    → HoldsMembers (append_points ms seq ps).0
      × Perm (append_points ms seq ps).0 (encodings seq ps ++ ms)
unfolding append_points encodings
append_points_lem ms seq [] hp h = (h, Perm.refl ms)
append_points_lem ms seq (p ∷ ps) (hp, hps) h =
    let s = (seq + 1) % 2 ^ 64 in
    let e = encode p s in
    let (holds, perm) =
      append_points_lem (insert_member e ms) s ps hps
        (insert_member-holds e ms (encode-IsMember p s hp) h) in
    (
      holds,
      Perm.trans perm (
          Perm.trans
            (Perm.append_left (encodings s ps)
              (rw (insert_member-ordered e ms h.sorted) (insert_ordered-perm e ms)))
            (perm_middle (encodings s ps) ms)),
    )

trim-holds : (cap : ℕ) (ms : List Bytes) → HoldsMembers ms → HoldsMembers (trim cap ms)
unfolding trim
trim-holds cap ms h = elim (Bool-cases (ltb cap (length ms))) [
  | inl e ↦
      rw e (record { sorted = drop-IsSorted _ ms h.sorted; members = All-drop _ _ ms h.members })
  | inr e ↦ rw e h
]

-- Trimming leaves the newest members, `cap` of them if there are more.
pub trim_lem :
    (cap : ℕ) (ms : List Bytes)
    → (trim cap ms ≡ drop (length ms - cap) ms) × (length (trim cap ms) ≤ cap)
unfolding trim
trim_lem cap ms = elim (Bool-cases (ltb cap (length ms))) [
  | inl e ↦ rw e (refl, omega (arith, length-drop (length ms - cap) ms))
  | inr e ↦ rw e (let z : length ms - cap ≡ 0 = ground arith in rw z (refl, ground arith))
]

-- The state invariant: no device holds more than `cap` members, and all are in order.
pub record IsValid (m : MemStore) : Type 0 where
  pub holds : (id : Bytes) → HoldsMembers (m.dev id)
  pub capped : (id : Bytes) → length (m.dev id) ≤ m.cap

-- Append of storable points keeps the state invariant: every device holds well-formed members in
-- byte order, and no more than cap of them.
pub append-IsValid :
    (m : MemStore) (id : Bytes) (ps : List Point)
    → All IsStorable ps
    → IsValid m
    → IsValid (append m id ps).0
unfolding append
append-IsValid m id ps hp v = record {
  holds = λ j. elim (Bool-cases (bytes_eq id j)) [
    | inl e ↦ rw e (trim-holds m.cap _ (append_points_lem (m.dev id) m.seq ps hp (v.holds id)).0)
    | inr e ↦ rw e (v.holds j)
  ];
  capped = λ j. elim (Bool-cases (bytes_eq id j)) [
    | inl e ↦ rw e (trim_lem m.cap (append_points (m.dev id) m.seq ps).0).1
    | inr e ↦ rw e (v.capped j)
  ];
}

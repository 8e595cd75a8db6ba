-- ===== src/Store/Mem/Contents.antt =====
-- On internal/store/mem.go: what `Append` stores and what `Recent` reads.
use the_500mb_club_challenge.Prelude.{
  map-reverse, ℕ, zero, suc, ◌-◌, ◌≡◌, refl, sym, ap, ◌∙◌, false, List, [], ◌∷◌, ◌++◌, map, Bytes,
  bytes_eq, bytes_eq_refl, ok, length, drop, drop-map, take_all, All, All-append, All-drop, arith,
}
use the_500mb_club_challenge.Model.Point.{Point}
use the_500mb_club_challenge.Store.Page.Resume.{Ascending}
use the_500mb_club_challenge.Store.Mem.{MemStore, append_points, append, decode_all, recent}
use the_500mb_club_challenge.Store.Mem.Invariant.{
  IsMember, IsStorable, HoldsMembers, encodings, append_points_lem, trim_lem,
}
use the_500mb_club_challenge.Store.Mem.Invariant
use the_500mb_club_challenge.Store.Mem.View.{point_of, fetch-map, map-Ascending}
use mathlib.Core.List.{Perm, reverse, reverse-reverse, reverse-cons}

-- On a valid state and for storable points, Append reports every point of the batch as accepted;
-- the device then holds the last cap members, in byte order, of a rearrangement of its old members
-- and the encodings of the batch; every other device holds what it held.
pub append_contents :
    (m : MemStore) (id : Bytes) (ps : List Point)
    → All IsStorable ps
    → Invariant.IsValid m
    → (all : List Bytes) × Perm all (encodings m.seq ps ++ m.dev id)
      × HoldsMembers all
      × ((append m id ps).0.dev id ≡ drop (length all - m.cap) all)
      × ((j : Bytes) → bytes_eq id j ≡ false → (append m id ps).0.dev j ≡ m.dev j)
      × ((append m id ps).1 ≡ ok (length ps))
unfolding append
append_contents m id ps hp v =
    let (holds, perm) = append_points_lem (m.dev id) m.seq ps hp (v.holds id) in
    (
      (append_points (m.dev id) m.seq ps).0,
      perm,
      holds,
      rw bytes_eq_refl (trim_lem m.cap (append_points (m.dev id) m.seq ps).0).0,
      λ j e. rw e,
      refl,
    )

pub All-reverse : (ms : List Bytes) → All IsMember ms → All IsMember (reverse ms)
All-reverse [] h = tt
All-reverse (m ∷ ms) (hm, h) =
    rw (reverse-cons m ms) (All-append _ (reverse ms) (m ∷ []) (All-reverse ms h) (hm, tt))

drop-Ascending : (n : ℕ) (ps : List Point) → Ascending ps → Ascending (drop n ps)
drop-Ascending zero ps a = a
drop-Ascending (suc n) [] a = a
drop-Ascending (suc n) (p ∷ ps) (_, a) = drop-Ascending n ps a

pub decode_all_lem : (ms : List Bytes) → All IsMember ms → decode_all ms ≡ ok (map point_of ms)
unfolding decode_all
decode_all_lem ms h =
    rw (decode_all, fetch-map ms (length ms) h, take_all (length ms) ms (omega arith))

-- On a device whose members are in order, Recent succeeds, its result reversed is the points of
-- the last n members in their order, and these are in order of timestamp.
pub recent_lem :
    (m : MemStore) (id : Bytes) (n : ℕ)
    → HoldsMembers (m.dev id)
    → (ps : List Point) × (recent m id n ≡ ok ps)
      × (reverse ps ≡ drop (length (m.dev id) - n) (map point_of (m.dev id)))
      × Ascending (reverse ps)
unfolding recent
recent_lem m id n h =
    let last : List Bytes = drop (length (m.dev id) - n) (m.dev id) in
    let back : reverse (map point_of (reverse last)) ≡ map point_of last =
      ap reverse (map-reverse point_of last) ∙ reverse-reverse (map point_of last) in
    let same : reverse (map point_of (reverse last))
        ≡ drop (length (m.dev id) - n) (map point_of (m.dev id)) =
      back ∙ sym (drop-map point_of (length (m.dev id) - n) (m.dev id)) in
    (
      map point_of (reverse last),
      decode_all_lem (reverse last) (All-reverse last (All-drop _ _ (m.dev id) h.members)),
      same,
      rw same (
          drop-Ascending _ (map point_of (m.dev id)) (map-Ascending (m.dev id) h.sorted h.members)),
    )

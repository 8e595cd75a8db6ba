-- ===== src/Store/Mem.antt =====
-- internal/store/mem.go: the in-memory store. Each method holds the lock for its whole access to the
-- state, so a method is one step from state to state. `cap` is a Go `int` that is not negative.
pub mod Insert
pub mod Invariant
pub mod View
pub mod Pages
pub mod Contents
pub mod Answers
use the_500mb_club_challenge.Prelude.{
  ℕ, zero, suc, ◌+◌, ◌-◌, ◌%◌, ◌^◌, Bool, true, false, not, ◌&&◌, Option, none, some, List, [], ◌∷◌,
  ◌++◌, ltb, if◌then◌else◌, Bytes, bytes_eq, Result, ok, err, panic, length, take, drop, get_or,
  filter, ◌*◌,
}
use the_500mb_club_challenge.Resp.{max_alloc}
use the_500mb_club_challenge.Prelude.Int.{ℤ, to_int64, leb_ℤ}
use the_500mb_club_challenge.Golang.Binary.{get_be, bytes_lt}
use the_500mb_club_challenge.Golang.Search.{search}
use the_500mb_club_challenge.Cursor
use the_500mb_club_challenge.Model.Point.{Point}
use the_500mb_club_challenge.Model.Codec.{encode, decode}
use the_500mb_club_challenge.Store.{Error}
use the_500mb_club_challenge.Store.Page.{build_page}
use mathlib.Core.List.{reverse}

-- `dev` answers `[]` for a device that the Go map does not hold, as reading the map does.
pub record MemStore : Type 0 where
  pub cap : ℕ
  pub seq : ℕ
  pub dev : Bytes → List Bytes

unfoldable pub new_mem : ℕ → MemStore
new_mem cap = record { cap = cap; seq = 0; dev = λ id. [] }

-- `m.dev[id] = members`
unfoldable pub set_dev : (Bytes → List Bytes) → Bytes → List Bytes → Bytes → List Bytes
set_dev dev id members j = if bytes_eq id j then members else dev j

unfoldable pub mem_ts : Bytes → ℤ
mem_ts member = to_int64 (get_be (take 8 member))

-- `append(members, nil)`, the shift by `copy`, and the assignment at `i`.
unfoldable pub insert_at : ℕ → Bytes → List Bytes → List Bytes
insert_at i enc members = take i members ++ enc ∷ drop i members

unfoldable pub insert_member : Bytes → List Bytes → List Bytes
unfolding insert_at
insert_member enc members =
    insert_at (search (length members) (λ i. not (bytes_lt (get_or members i []) enc))) enc members

-- The loop over the points of a batch, with the members and the counter so far.
unfoldable pub append_points : List Bytes → ℕ → List Point → List Bytes × ℕ
append_points members seq [] = (members, seq)
append_points members seq (p ∷ ps) =
    append_points (insert_member (encode p ((seq + 1) % 2 ^ 64)) members) ((seq + 1) % 2 ^ 64) ps

-- Only the newest `cap` members are kept.
unfoldable pub trim : ℕ → List Bytes → List Bytes
trim cap members = if ltb cap (length members) then drop (length members - cap) members else members

unfoldable pub append : MemStore → Bytes → List Point → MemStore × Result Error ℕ
unfolding append_points trim set_dev
append m id pts =
    let (members, seq) = append_points (m.dev id) m.seq pts in
    (record m { seq = seq; dev = set_dev m.dev id (trim m.cap members) }, ok (length pts))

-- The loop over a window that has skipped its first members: at most `room` are decoded.
unfoldable pub fetch : List Bytes → ℕ → Option (List Point)
fetch [] room = some []
fetch (m ∷ ms) zero = some []
fetch (m ∷ ms) (suc room) =
    let rest = fetch ms room in
    elim (decode m) [ none ↦ none | some p ↦ elim rest [ none ↦ none | some ps ↦ some (p ∷ ps) ] ]

-- Where a query starts: at `from`, or at its cursor.
unfoldable pub lower_bound : ℤ → Bytes → Result Cursor.Error (ℤ × ℕ)
lower_bound from [] = ok (from, 0)
lower_bound from (c ∷ cur) = Cursor.decode (c ∷ cur)

unfoldable pub in_window : ℤ → ℤ → Bytes → Bool
in_window cur_ts to m = leb_ℤ cur_ts (mem_ts m) && leb_ℤ (mem_ts m) to

-- The bytes of a `model.Point` on a 64-bit machine.
abbrev pub point_size : ℕ
point_size = 64

-- `make([]model.Point, 0, limit+1)` panics when that many points do not fit an allocation.
unfoldable pub range_from : List Bytes → ℤ → ℕ → ℤ × ℕ → Result Error (List Point × Bytes)
range_from members to limit (cur_ts, cur_skip) =
    if ltb max_alloc ((limit + 1) * point_size)
    then panic
    else elim (fetch (drop cur_skip (filter (in_window cur_ts to) members)) (limit + 1)) [
      | none ↦ err Error.point
      | some fetched ↦ build_page fetched limit cur_ts cur_skip
    ]

unfoldable pub range : MemStore → Bytes → ℤ → ℤ → ℕ → Bytes → Result Error (List Point × Bytes)
range m id from to limit cur = elim (lower_bound from cur) [
  | ok start ↦ range_from (m.dev id) to limit start
  | err e ↦ err (Error.cursor e)
  | panic ↦ panic
]

unfoldable pub decode_all : List Bytes → Result Error (List Point)
decode_all ms = elim (fetch ms (length ms)) [ none ↦ err Error.point | some ps ↦ ok ps ]

-- `start` is `len(members) - n`, and 0 where that is negative.
unfoldable pub recent : MemStore → Bytes → ℕ → Result Error (List Point)
recent m id n = let members = m.dev id in decode_all (reverse (drop (length members - n) members))

-- ===== src/Store/Mem/Pages.antt =====
-- On internal/store/mem.go: following the cursors of `Range` through a window.
use the_500mb_club_challenge.Resp.{max_alloc}
use the_500mb_club_challenge.Prelude.{
  le→ltb, ◌*◌, ℕ, zero, suc, ◌+◌, ◌≤◌, ◌<◌, ◌^◌, ◌≡◌, refl, sym, ap, ◌∙◌, Option, none, some, List,
  [], ◌∷◌, ◌++◌, map, append_assoc, Bytes, ok, err, panic, leb, length, length-map, length-append,
  length-take, length-filter, take, drop, drop-map, take-map, take_all, filter, All, All-get_elem?,
  All-right, All-left, All-drop, All-filter, arith, Bool-cases, inl, inr, get_elem?,
  get_elem?_below, take-suc, split_at,
}
use mathlib.Core.Path.{subst}
use native.Mathlib.Numerals.{add-one}
use the_500mb_club_challenge.Prelude.Int.{ℤ, pos, leb_ℤ, to_int64-IsInt64, IsInt64}
use the_500mb_club_challenge.Cursor
use the_500mb_club_challenge.Cursor.Laws.{decode-encode, encode_nonempty}
use the_500mb_club_challenge.Model.Point.{Point}
use the_500mb_club_challenge.Store.Page.{build_page}
use the_500mb_club_challenge.Store.Page.Resume.{
  Ascending, from_ts, Resumes, Resumes-fetch, Resumes-start, build_page-Resumes, build_page_last,
}
use the_500mb_club_challenge.Store.Mem.{
  point_size, MemStore, mem_ts, in_window, lower_bound, range_from, range,
}
use the_500mb_club_challenge.Store.Mem.Invariant.{IsMember, HoldsMembers}
use the_500mb_club_challenge.Store.Mem.View.{
  point_of, decode-point_of, map-Ascending, filter-IsSorted, fetch-map, upto, window-upto,
}

-- A client that queries a device and follows the cursors, at most `fuel` pages; `none` is a failed
-- query, or a walk that did not end.
unfoldable pub walk : ℕ → MemStore → Bytes → ℤ → ℤ → ℕ → Bytes → Option (List Point)
walk zero m id from to limit cur = none
walk (suc fuel) m id from to limit cur = elim (range m id from to limit cur) [
  | ok (page, []) ↦ some page
  | ok (page, c ∷ next) ↦ elim (walk fuel m id from to limit (c ∷ next)) [
    | none ↦ none
    | some ps ↦ some (page ++ ps)
  ]
  | err e ↦ none
  | panic ↦ none
]

-- The points of a device with timestamps in the window.
unfoldable pub window : MemStore → Bytes → ℤ → ℤ → List Point
window m id from to = map point_of (filter (in_window from to) (m.dev id))

-- A query from a lower bound is a page of the points up to `to`.
range_from_lem :
    (ms : List Bytes) (to : ℤ) (limit : ℕ) (ts : ℤ) (skip : ℕ)
    → All IsMember ms
    → (limit + 1) * point_size ≤ max_alloc
    → range_from ms to limit (ts, skip)
      ≡ build_page (take (limit + 1) (drop skip (filter (from_ts ts) (upto to ms)))) limit ts skip
unfolding range_from
range_from_lem ms to limit ts skip h fits = rw (
  range_from,
  le→ltb max_alloc ((limit + 1) * point_size) fits,
  fetch-map (drop skip (filter (in_window ts to) ms)) (limit + 1)
      (All-drop _ skip _ (All-filter _ (in_window ts to) ms h)),
  ← take-map point_of (limit + 1) (drop skip (filter (in_window ts to) ms)),
  ← drop-map point_of skip (filter (in_window ts to) ms),
  window-upto ts to ms h,
)

upto-IsInt64 : (to : ℤ) (ms : List Bytes) → All IsMember ms → All (λ p. IsInt64 p.ts) (upto to ms)
unfolding upto mem_ts
upto-IsInt64 to [] h = tt
upto-IsInt64 to (m ∷ ms) (hm, h) = elim (Bool-cases (leb_ℤ (mem_ts m) to)) [
  | inl e ↦ rw e (rw (decode-point_of m hm).1 (to_int64-IsInt64 _), upto-IsInt64 to ms h)
  | inr e ↦ rw e (upto-IsInt64 to ms h)
]

upto-Ascending : (to : ℤ) (ms : List Bytes) → HoldsMembers ms → Ascending (upto to ms)
unfolding upto
upto-Ascending to ms h =
    map-Ascending _ (filter-IsSorted _ ms h.sorted) (All-filter _ _ ms h.members)

-- A list longer than `n + 1` is a full page, a point, and more.
full_split :
    (rest : List Point) (n : ℕ)
    → suc n < length rest
    → (page : List Point) × (x : Point) × (more : List Point) × (rest ≡ page ++ x ∷ more)
      × (length page ≡ suc n)
      × (take (suc n + 1) rest ≡ page ++ x ∷ [])
full_split rest n h =
    let (x, q) = get_elem?_below rest (suc n) h in
    (
      take (suc n) rest,
      x,
      drop (suc (suc n)) rest,
      split_at (suc n) rest q,
      omega (arith, length-take (suc n) rest),
      ap (λ k. take k rest) (add-one (suc n)) ∙ take-suc (suc n) rest q,
    )

module _ (m : MemStore) (id : Bytes) (from to : ℤ) (n : ℕ) (holds : HoldsMembers (m.dev id))
    (bounded : length (m.dev id) < 2 ^ 63) (fits : (suc n + 1) * point_size ≤ max_alloc) where
  -- One query, at a cursor from which `rest` is still to be read.
  range_at :
      (cur : Bytes) (before rest : List Point) (ts : ℤ) (skip : ℕ)
      → lower_bound from cur ≡ ok (ts, skip)
      → before ++ rest ≡ upto to (m.dev id)
      → Resumes before rest ts skip
      → range m id from to (suc n) cur ≡ build_page (take (suc n + 1) rest) (suc n) ts skip
  unfolding range
  range_at cur before rest ts skip start whole r = rw (
    range,
    start,
    range_from_lem (m.dev id) to (suc n) ts skip holds.members fits,
    ← whole,
    Resumes-fetch before rest r,
  )

  length-upto : length (upto to (m.dev id)) ≤ length (m.dev id)
  unfolding upto
  length-upto = omega (
    arith,
    length-map (filter (λ e. leb_ℤ (mem_ts e) to) (m.dev id)) point_of,
    length-filter (λ e. leb_ℤ (mem_ts e) to) (m.dev id),
  )

  walk_step :
      (fuel : ℕ) (cur : Bytes) (c : ℕ) (t : Bytes) (page ps : List Point)
      → range m id from to (suc n) cur ≡ ok (page, c ∷ t)
      → walk fuel m id from to (suc n) (c ∷ t) ≡ some ps
      → walk (suc fuel) m id from to (suc n) cur ≡ some (page ++ ps)
  unfolding walk
  walk_step fuel cur c t page ps e h = rw (walk, e, h)

  cursor_start :
      (c : ℕ) (t : Bytes) (ts : ℤ) (skip : ℕ)
      → Cursor.encode ts (pos skip) ≡ c ∷ t
      → IsInt64 ts
      → skip < 2 ^ 63
      → lower_bound from (c ∷ t) ≡ ok (ts, skip)
  unfolding lower_bound
  cursor_start c t ts skip q h k = rw (← q) (decode-encode ts skip h k)

  -- The cursor at the end of a page is where the rest starts.
  next_start :
      (before page : List Point) (x : Point) (more : List Point) (k : ℕ) (last : Point) (next : ℕ)
      → (before ++ page) ++ x ∷ more ≡ upto to (m.dev id)
      → get_elem? page k ≡ some last
      → Resumes (before ++ page) (x ∷ more) last.ts next
      → (c : ℕ) × (t : Bytes) × (Cursor.encode last.ts (pos next) ≡ c ∷ t)
        × (lower_bound from (c ∷ t) ≡ ok (last.ts, next))
  next_start before page x more k last next whole at_last r =
      let (c, t, q) = encode_nonempty last.ts (pos next) in
      let ints =
        subst (All (λ p. IsInt64 p.ts)) (sym whole) (upto-IsInt64 to (m.dev id) holds.members) in
      let int =
        All-get_elem? _ page k
          (All-right _ before page (All-left _ (before ++ page) (x ∷ more) ints)) at_last in
      let small : next < 2 ^ 63 = omega (
        arith,
        r.skipped,
        length-filter (from_ts last.ts) (before ++ page),
        length-append (before ++ page) (x ∷ more),
        ap length whole,
        length-upto,
      ) in
      (c, t, q, cursor_start c t last.ts next q int small)

  page_at :
      (cur : Bytes) (before page : List Point) (x : Point) (more : List Point) {rest : List Point}
      (ts : ℤ) (skip c : ℕ) (t : Bytes)
      → lower_bound from cur ≡ ok (ts, skip)
      → before ++ rest ≡ upto to (m.dev id)
      → rest ≡ page ++ x ∷ more
      → Resumes before rest ts skip
      → take (suc n + 1) rest ≡ page ++ x ∷ []
      → build_page (page ++ x ∷ []) (suc n) ts skip ≡ ok (page, c ∷ t)
      → range m id from to (suc n) cur ≡ ok (page, c ∷ t)
  page_at cur before page x more {rest} ts skip c t start whole parts r fetched built =
      range_at cur before rest ts skip start whole r
      ∙ ap (λ z. build_page z (suc n) ts skip) fetched
      ∙ built

  walk_from :
      (fuel : ℕ) (cur : Bytes) (before rest : List Point) (ts : ℤ) (skip : ℕ)
      → length rest < fuel
      → lower_bound from cur ≡ ok (ts, skip)
      → before ++ rest ≡ upto to (m.dev id)
      → Resumes before rest ts skip
      → walk fuel m id from to (suc n) cur ≡ some rest
  unfolding walk
  walk_from zero cur before rest ts skip h start whole r = absurd (omega arith)
  walk_from (suc fuel) cur before rest ts skip h start whole r =
      elim (Bool-cases (leb (length rest) (suc n))) [
        | inl e ↦ rw (
          walk,
          range_at cur before rest ts skip start whole r,
          take_all (suc n + 1) rest (ground arith),
          build_page_last rest (suc n) ts skip (ground arith),
        )
        | inr e ↦
            let (page, x, more, parts, size, fetched) = full_split rest n (ground arith) in
            let (last, next, built, at_last, r') =
              build_page-Resumes before page x more n ts skip size
                (subst (λ t. Resumes before t ts skip) parts r) in
            let whole' =
              append_assoc before page (x ∷ more) ∙ ap (λ z. before ++ z) (sym parts) ∙ whole in
            let (c, t, q, start') = next_start before page x more n last next whole' at_last r' in
            let shorter : length (x ∷ more) < fuel =
              omega (arith, ap length parts, length-append page (x ∷ more)) in
            let ih =
              walk_from fuel (c ∷ t) (before ++ page) (x ∷ more) last.ts next shorter start' whole'
                r' in
            rw parts (
              walk_step fuel cur c t page (x ∷ more)
                (page_at cur before page x more ts skip c t start whole parts r fetched
                  (built ∙ ap (λ z. ok (page, z)) q))
                ih)
      ]

-- For a device whose members are in order and whose number fits an int64, and for every page size
-- from 1 for which one point more than a page fits the largest allocation: following the cursors
-- of Range from the first query of a window, one page for each member of the device and one more
-- are enough to reach the end, and the pages joined are exactly the points of the window, each
-- once and in order.
pub walk-window :
    (m : MemStore) (id : Bytes) (from to : ℤ) (n : ℕ)
    → HoldsMembers (m.dev id)
    → length (m.dev id) < 2 ^ 63
    → (suc n + 1) * point_size ≤ max_alloc
    → walk (suc (length (m.dev id))) m id from to (suc n) [] ≡ some (window m id from to)
unfolding window
walk-window m id from to n holds bounded fits =
    let (before, whole, r) =
      Resumes-start (upto to (m.dev id)) from (upto-Ascending to (m.dev id) holds) in
    let few : length (filter (from_ts from) (upto to (m.dev id))) < suc (length (m.dev id)) =
      omega (
        arith,
        length-filter (from_ts from) (upto to (m.dev id)),
        length-upto m id from to n holds bounded fits,
      ) in
    walk_from m id from to n holds bounded fits (suc (length (m.dev id))) [] before
      (filter (from_ts from) (upto to (m.dev id))) from 0 few (unfold lower_bound in refl) whole r
    ∙ ap some (sym (window-upto from to (m.dev id) holds.members))

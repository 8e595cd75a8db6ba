-- ===== src/Store/Mem/Answers.antt =====
-- What `Range` answers on a device whose members are well formed.
use the_500mb_club_challenge.Resp.{max_alloc}
use the_500mb_club_challenge.Prelude.{
  le→ltb, ◌*◌, ℕ, suc, ◌+◌, ◌≤◌, ◌≡◌, refl, ◌⊎◌, inl, inr, List, [], ◌∷◌, Bytes, Result, ok, err,
  length, take, drop, filter, All-drop, All-filter,
}
use the_500mb_club_challenge.Prelude.Int.{ℤ}
use the_500mb_club_challenge.Cursor
use the_500mb_club_challenge.Cursor.Laws.{decode_cases}
use the_500mb_club_challenge.Model.Point.{Point}
use the_500mb_club_challenge.Store.{Error}
use the_500mb_club_challenge.Store.Page.Size.{build_page-length}
use the_500mb_club_challenge.Store.Mem.{
  point_size, MemStore, range, range_from, lower_bound, in_window,
}
use the_500mb_club_challenge.Store.Mem.Invariant.{IsMember, HoldsMembers}
use the_500mb_club_challenge.Store.Mem.View.{point_of, fetch-map}
use mathlib.Core.List.{map}

-- A page that keeps the limit, or the error of the cursor.
abbrev pub IsAnswer : ℕ → Result Error (List Point × Bytes) → Type 0
IsAnswer limit r =
    ((page : List Point) × (next : Bytes) × (r ≡ ok (page, next)) × (length page ≤ limit))
    ⊎ ((e : Cursor.Error) × (r ≡ err (Error.cursor e)))

range_from-IsAnswer :
    (ms : List Bytes) (to : ℤ) (n : ℕ) (start : ℤ × ℕ)
    → HoldsMembers ms
    → (suc n + 1) * point_size ≤ max_alloc
    → IsAnswer (suc n) (range_from ms to (suc n) start)
unfolding range_from
range_from-IsAnswer ms to n (ts, skip) h fits =
    let fetched = map point_of (take (suc n + 1) (drop skip (filter (in_window ts to) ms))) in
    let (page, next, q, small) = build_page-length fetched n ts skip in
    rw
      (
        range_from,
        le→ltb max_alloc ((suc n + 1) * point_size) fits,
        fetch-map (drop skip (filter (in_window ts to) ms)) (suc n + 1)
            (All-drop IsMember skip _ (All-filter IsMember (in_window ts to) ms h.members)),
      )
      (inl (page, next, q, small))

pub lower_bound_cases :
    (from : ℤ) (cur : Bytes)
    → ((start : ℤ × ℕ) × (lower_bound from cur ≡ ok start))
      ⊎ (lower_bound from cur ≡ err Cursor.invalid)
unfolding lower_bound
lower_bound_cases from [] = inl ((from, 0), refl)
lower_bound_cases from (c ∷ cur) = decode_cases (c ∷ cur)

pub range-IsAnswer :
    (m : MemStore) (id : Bytes) (from to : ℤ) (n : ℕ) (cur : Bytes)
    → HoldsMembers (m.dev id)
    → (suc n + 1) * point_size ≤ max_alloc
    → IsAnswer (suc n) (range m id from to (suc n) cur)
unfolding range
range-IsAnswer m id from to n cur h fits = elim (lower_bound_cases from cur) [
  | inl (start, q) ↦ rw (range, q) (range_from-IsAnswer (m.dev id) to n start h fits)
  | inr q ↦ rw (range, q) (inr (Cursor.invalid, refl))
]

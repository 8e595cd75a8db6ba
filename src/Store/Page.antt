-- ===== src/Store/Page.antt =====
-- internal/store/paginate.go: `BuildPage`.
pub mod Resume
pub mod Size
use the_500mb_club_challenge.Prelude.{
  ℕ, zero, suc, ◌+◌, ◌-◌, Bool, true, false, Option, none, some, List, [], ◌∷◌, leb, if◌then◌else◌,
  Bytes, Result, ok, panic, length, take, get_elem?,
}
use the_500mb_club_challenge.Prelude.Int.{ℤ, pos, eqb_ℤ}
use the_500mb_club_challenge.Cursor
use the_500mb_club_challenge.Model.Point.{Point}
use the_500mb_club_challenge.Store.{Error}

-- The loop `for i := limit - 1; i >= 0 && page[i].TS == lastTs; i--`: how many points it counts
-- from the index below `n` downwards.
unfoldable pub trailing_run : List Point → ℤ → ℕ → ℕ
trailing_run page last zero = 0
trailing_run page last (suc i) =
    let rest = trailing_run page last i in
    elim (get_elem? page i) [ none ↦ 0 | some p ↦ if eqb_ℤ p.ts last then suc rest else 0 ]

-- In the code `skip` is an `int`. A full page was fetched behind `cur_skip` members of a list, so the
-- sum is at most the length of that list, which an `int` holds.
full_page : List Point → ℕ → ℤ → ℕ → Option Point → Result Error (List Point × Bytes)
unfolding trailing_run
full_page page limit cur_ts cur_skip none = panic
full_page page limit cur_ts cur_skip (some last) =
    let run = trailing_run page last.ts limit in
    let skip = if eqb_ℤ last.ts cur_ts then run + cur_skip else run in
    ok (page, Cursor.encode last.ts (pos skip))

-- An empty cursor is "". With limit 0 and a point fetched the program panics at `page[-1]`.
unfoldable pub build_page : List Point → ℕ → ℤ → ℕ → Result Error (List Point × Bytes)
unfolding full_page
build_page fetched zero cur_ts cur_skip = if leb (length fetched) 0 then ok (fetched, []) else panic
build_page fetched (suc below) cur_ts cur_skip =
    if leb (length fetched) (suc below)
    then ok (fetched, [])
    else full_page (take (suc below) fetched) (suc below) cur_ts cur_skip
        (get_elem? (take (suc below) fetched) below)

-- ===== src/Tests/StoreRuns.antt =====
-- Runs of the in-memory store and of the paging.
use the_500mb_club_challenge.Prelude.{
  ℕ, suc, ◌-◌, ◌^◌, ◌<◌, ◌≡◌, refl, false, some, List, [], ◌∷◌, ◌++◌, codes, Bytes, bytes_eq, ok,
  length, drop, All, get_elem?, arith,
}
use the_500mb_club_challenge.Prelude.Int.{pos}
use the_500mb_club_challenge.Cursor
use the_500mb_club_challenge.Golang.Binary.{bytes_lt}
use the_500mb_club_challenge.Model.Point.{Point}
use the_500mb_club_challenge.Store.Page.{build_page}
use the_500mb_club_challenge.Store.Page.Resume.{Resumes, build_page-Resumes}
use the_500mb_club_challenge.Store.Mem.{MemStore, new_mem, append}
use the_500mb_club_challenge.Store.Mem.Insert.{IsSorted}
use the_500mb_club_challenge.Store.Mem.Invariant.{
  IsValid, IsStorable, HoldsMembers, encodings, append-IsValid,
}
use the_500mb_club_challenge.Store.Mem.Pages.{walk, window, walk-window}
use the_500mb_club_challenge.Store.Mem.Contents.{append_contents}
use mathlib.Core.List.{Perm}

abbrev pub at : ℕ → Point
at ts = record {
  ts = pos ts;
  lat = 0;
  lon = 0;
  battery = 0;
  has_battery = false;
  ax = 0;
  ay = 0;
  az = 0;
}

abbrev pub device : Bytes
device = codes "dev1"

-- Three points arrive out of order, two with one timestamp.
abbrev pub batch : List Point
batch = at 20 ∷ at 10 ∷ at 20 ∷ []

batch-IsStorable : All IsStorable batch
batch-IsStorable = omega arith

empty-IsValid : IsValid (new_mem 4)
unfolding new_mem
empty-IsValid = record {
  holds = λ id. record { sorted = tt; members = tt };
  capped = λ id. omega arith;
}

abbrev pub filled : MemStore
filled = (append (new_mem 4) device batch).0

pub filled-IsValid : IsValid filled
filled-IsValid = append-IsValid (new_mem 4) device batch batch-IsStorable empty-IsValid

cap_filled : filled.cap ≡ 4
unfolding append new_mem
cap_filled = refl

filled_small : length (filled.dev device) < 2 ^ 63
filled_small = omega (arith, filled-IsValid.capped device, cap_filled)

append-IsValid_example : IsValid (append (new_mem 4) device batch).0
append-IsValid_example = append-IsValid (new_mem 4) device batch batch-IsStorable empty-IsValid

append_contents_example :
    (all : List Bytes) × Perm all (encodings (new_mem 4).seq batch ++ (new_mem 4).dev device)
    × HoldsMembers all
    × (filled.dev device ≡ drop (length all - (new_mem 4).cap) all)
    × ((j : Bytes) → bytes_eq device j ≡ false → filled.dev j ≡ (new_mem 4).dev j)
    × ((append (new_mem 4) device batch).1 ≡ ok (length batch))
append_contents_example = append_contents (new_mem 4) device batch batch-IsStorable empty-IsValid

letters-IsSorted : IsSorted (codes "a" ∷ codes "c" ∷ [])
unfolding bytes_lt
letters-IsSorted = ((refl, tt), (tt, tt))

walk-window_example :
    walk (suc (length (filled.dev device))) filled device (pos 5) (pos 25) 1 []
    ≡ some (window filled device (pos 5) (pos 25))
walk-window_example =
    walk-window filled device (pos 5) (pos 25) 0 (filled-IsValid.holds device) filled_small
      (omega arith)

two_pages : Resumes [] ((at 10 ∷ []) ++ at 20 ∷ at 20 ∷ []) (pos 5) 0
two_pages = record { ordered = omega arith; behind = tt; ahead = omega arith; skipped = refl }

build_page-Resumes_example :
    (last : Point) × (next : ℕ) × (build_page ((at 10 ∷ []) ++ at 20 ∷ []) 1 (pos 5) 0
      ≡ ok (at 10 ∷ [], Cursor.encode last.ts (pos next)))
    × (get_elem? (at 10 ∷ []) 0 ≡ some last)
    × Resumes ([] ++ at 10 ∷ []) (at 20 ∷ at 20 ∷ []) last.ts next
build_page-Resumes_example =
    build_page-Resumes [] (at 10 ∷ []) (at 20) (at 20 ∷ []) 0 (pos 5) 0 refl two_pages

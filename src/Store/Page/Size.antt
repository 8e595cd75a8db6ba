-- ===== src/Store/Page/Size.antt =====
-- On internal/store/paginate.go: the length of a page.
use the_500mb_club_challenge.Prelude.{
  ℕ, suc, ◌≤◌, ◌≡◌, refl, List, [], some, Bytes, ok, leb, length, take, length-take,
  get_elem?_below, arith, Bool-cases, inl, inr,
}
use the_500mb_club_challenge.Prelude.Int.{ℤ}
use the_500mb_club_challenge.Model.Point.{Point}
use the_500mb_club_challenge.Store.Page.{build_page, full_page}

full_page-some :
    (page : List Point) (limit : ℕ) (ts : ℤ) (skip : ℕ) (last : Point)
    → (next : Bytes) × (full_page page limit ts skip (some last) ≡ ok (page, next))
unfolding full_page
full_page-some page limit ts skip last = (_, refl)

pub build_page-length :
    (fetched : List Point) (n : ℕ) (ts : ℤ) (skip : ℕ)
    → (page : List Point) × (next : Bytes) × (build_page fetched (suc n) ts skip ≡ ok (page, next))
      × (length page ≤ suc n)
unfolding build_page
build_page-length fetched n ts skip = elim (Bool-cases (leb (length fetched) (suc n))) [
  | inl e ↦ (fetched, [], rw (build_page, e) refl, ground (arith, e))
  | inr e ↦
      let (last, q) =
        get_elem?_below (take (suc n) fetched) n (ground (arith, e, length-take (suc n) fetched)) in
      let (next, built) = full_page-some (take (suc n) fetched) (suc n) ts skip last in
      (
        take (suc n) fetched,
        next,
        rw (build_page, e, q) built,
        omega (arith, length-take (suc n) fetched),
      )
]

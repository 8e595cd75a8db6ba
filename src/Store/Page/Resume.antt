-- ===== src/Store/Page/Resume.antt =====
-- On internal/store/paginate.go: where the next page starts.
use the_500mb_club_challenge.Prelude.{
  ℕ, zero, suc, ◌+◌, ◌≤◌, ◌≡◌, refl, sym, ap, ◌∙◌, Bool, true, false, some, List, [], ◌∷◌, ◌++◌,
  leb, if◌then◌else◌, ok, length, take, drop, get_elem?, filter, All, arith, le→leb, Bool-cases,
  inl, inr, filter-append, filter_all, filter_none, length-append, take-append, take-suc, take_all,
  get_elem?_below, All-imp, All-left, All-right, All-append, append_assoc, split_at, drop_all,
  drop-append,
}
use mathlib.Core.Path.{subst}
use the_500mb_club_challenge.Prelude.Int.{ℤ, pos, eqb_ℤ, leb_ℤ, ◌≤ℤ◌, eqb_ℤ_iff}
use the_500mb_club_challenge.Cursor
use the_500mb_club_challenge.Model.Point.{Point}
use the_500mb_club_challenge.Store.Page.{trailing_run, full_page, build_page}

-- Ascending timestamps.
abbrev pub Ascending : List Point → Type 0
Ascending [] = Unit
Ascending (p ∷ ps) = All (λ q. p.ts ≤ℤ q.ts) ps × Ascending ps

-- The points that a fetch from timestamp `t` on reads.
abbrev pub from_ts : ℤ → Point → Bool
from_ts t p = leb_ℤ t p.ts

pub Ascending-left : (xs ys : List Point) → Ascending (xs ++ ys) → Ascending xs
Ascending-left [] ys h = tt
Ascending-left (x ∷ xs) ys (p, h) = (All-left _ xs ys p, Ascending-left xs ys h)

pub Ascending-right : (xs ys : List Point) → Ascending (xs ++ ys) → Ascending ys
Ascending-right [] ys h = h
Ascending-right (x ∷ xs) ys (p, h) = Ascending-right xs ys h

-- Everything in front of a point is at most that point.
Ascending-before :
    (xs : List Point) (y : Point) (ys : List Point)
    → Ascending (xs ++ y ∷ ys)
    → All (λ q. q.ts ≤ℤ y.ts) xs
Ascending-before [] y ys h = tt
Ascending-before (x ∷ xs) y ys (p, h) = ((All-right _ xs (y ∷ ys) p).0, Ascending-before xs y ys h)

last_counts : (p : Point) (last : ℤ) → eqb_ℤ p.ts last ≡ true → from_ts last p ≡ true
last_counts p last e = ground arith

last_skipped :
    (p : Point) (last : ℤ) → p.ts ≤ℤ last → eqb_ℤ p.ts last ≡ false → from_ts last p ≡ false
last_skipped p last h e = ground arith

all_below :
    (xs : List Point) (t last : ℤ)
    → t ≤ℤ last
    → eqb_ℤ t last ≡ false
    → All (λ q. q.ts ≤ℤ t) xs
    → All (λ q. from_ts last q ≡ false) xs
all_below xs t last h e = All-imp _ _ (λ q k. ground arith) xs

-- The run that the loop counts is the part of the page that a fetch from `last` would read again.
trailing_run-filter :
    (page : List Point) (last : ℤ) (n : ℕ)
    → n ≤ length page
    → Ascending page
    → All (λ q. q.ts ≤ℤ last) page
    → trailing_run page last n ≡ length (filter (from_ts last) (take n page))
unfolding trailing_run
trailing_run-filter page last zero h a b = refl
trailing_run-filter page last (suc n) h a b =
    let (p, q) = get_elem?_below page n (omega arith) in
    let front : List Point = take n page in
    let rest : List Point = drop (suc n) page in
    let parts = split_at n page q in
    let before = Ascending-before front p rest (subst Ascending parts a) in
    let at_most : p.ts ≤ℤ last =
      (All-right _ front (p ∷ rest) (subst (All (λ q. q.ts ≤ℤ last)) parts b)).0 in
    rw (trailing_run, q, take-suc n page q, filter-append)
      (elim (Bool-cases (eqb_ℤ p.ts last)) [
        | inl e ↦
            rw (e, last_counts p last e, length-append)
              (omega (arith, trailing_run-filter page last n (omega arith) a b))
        | inr e ↦ rw (
          e,
          last_skipped p last at_most e,
          filter_none (from_ts last) front (all_below front p.ts last at_most e before),
        )
      ])

-- `before` is what the pages so far held and `rest` what is still to be read, when the next fetch
-- starts at timestamp `ts` and skips `skip` points.
pub record Resumes (before rest : List Point) (ts : ℤ) (skip : ℕ) : Type 0 where
  pub ordered : Ascending (before ++ rest)
  pub behind : All (λ q. q.ts ≤ℤ ts) before
  pub ahead : All (λ q. ts ≤ℤ q.ts) rest
  pub skipped : length (filter (from_ts ts) before) ≡ skip

-- Such a fetch reads exactly what is still to be read.
pub Resumes-fetch :
    (before rest : List Point) {ts : ℤ} {skip : ℕ}
    → Resumes before rest ts skip
    → drop skip (filter (from_ts ts) (before ++ rest)) ≡ rest
Resumes-fetch before rest {ts} {skip} r =
    let all : filter (from_ts ts) rest ≡ rest =
      filter_all (from_ts ts) rest (All-imp _ _ (λ q k. ground arith) rest r.ahead) in
    rw (filter-append, all, ← r.skipped) (drop-append (filter (from_ts ts) before) rest)

page_last :
    (page : List Point) (n : ℕ)
    → length page ≡ suc n
    → (p : Point) × (get_elem? page n ≡ some p) × (page ≡ take n page ++ p ∷ [])
page_last page n h =
    let (p, q) = get_elem?_below page n (omega arith) in
    (p, q, split_at n page q ∙ rw (drop_all (suc n) page (omega arith)))

-- The cursor's skip counts every point so far that a fetch from the last timestamp reads again.
next_skip :
    (before page : List Point) (last : Point) (ts : ℤ) (skip : ℕ)
    → All (λ q. q.ts ≤ℤ ts) before
    → ts ≤ℤ last.ts
    → length (filter (from_ts ts) before) ≡ skip
    → (let run = length (filter (from_ts last.ts) page) in
        if eqb_ℤ last.ts ts then run + skip else run)
      ≡ length (filter (from_ts last.ts) (before ++ page))
next_skip before page last ts skip behind h s =
    rw (filter-append, length-append)
      (elim (Bool-cases (eqb_ℤ last.ts ts)) [
        | inl e ↦
            let same = eqb_ℤ_iff last.ts ts e in
            rw e (omega (arith, s, ap (λ t. length (filter (from_ts t) before)) same))
        | inr e ↦
            rw
              (
                e,
                filter_none (from_ts last.ts) before
                    (all_below before ts last.ts h (ground arith) behind),
              )
              (omega arith)
      ])

full_page_lem :
    (page : List Point) (n : ℕ) (last : Point) (ts : ℤ) (skip next : ℕ)
    → (if eqb_ℤ last.ts ts then trailing_run page last.ts n + skip else trailing_run page last.ts n)
      ≡ next
    → full_page page n ts skip (some last) ≡ ok (page, Cursor.encode last.ts (pos next))
full_page_lem page n last ts skip next e = unfold full_page in rw e

take_page :
    (page : List Point) (x : Point) (n : ℕ) → length page ≡ n → take n (page ++ x ∷ []) ≡ page
take_page page x n h = rw (← h) (take-append page (x ∷ []))

build_page_full :
    (page : List Point) (x last : Point) (n : ℕ) (ts : ℤ) (skip : ℕ)
    → length page ≡ suc n
    → get_elem? page n ≡ some last
    → build_page (page ++ x ∷ []) (suc n) ts skip ≡ full_page page (suc n) ts skip (some last)
unfolding build_page full_page
build_page_full page x last n ts skip h q =
    rw (build_page, length-append, take_page page x (suc n) h, h, q)
      (elim (Bool-cases (leb (suc n + 1) (suc n))) [ inl e ↦ absurd (ground arith) | inr e ↦ rw e ])

-- If a timestamp and a skip resume after the points `before`, and a full page of one point or more
-- follows and one more point after it, then BuildPage on the page and that point returns the page
-- and the cursor made of the timestamp of its last point and of a skip, and these two resume after
-- `before` and the page.
pub build_page-Resumes :
    (before page : List Point) (x : Point) (more : List Point) (n : ℕ) (ts : ℤ) (skip : ℕ)
    → length page ≡ suc n
    → Resumes before (page ++ x ∷ more) ts skip
    → (last : Point) × (next : ℕ) × (build_page (page ++ x ∷ []) (suc n) ts skip
        ≡ ok (page, Cursor.encode last.ts (pos next)))
      × (get_elem? page n ≡ some last)
      × Resumes (before ++ page) (x ∷ more) last.ts next
build_page-Resumes before page x more n ts skip h r =
    let (last, q, parts) = page_last page n h in
    let front : List Point = take n page in
    let whole : before ++ (page ++ x ∷ more) ≡ (before ++ front) ++ last ∷ x ∷ more =
      ap (λ t. before ++ (t ++ x ∷ more)) parts ∙ simp append_assoc in
    let ordered = subst Ascending whole r.ordered in
    let at_most = Ascending-before (before ++ front) last (x ∷ more) ordered in
    let upto : All (λ q. q.ts ≤ℤ last.ts) page =
      subst (All (λ q. q.ts ≤ℤ last.ts)) (sym parts)
        (All-append _ front (last ∷ []) (All-right _ before front at_most) (omega arith, tt)) in
    let page_ordered = Ascending-left page (x ∷ more) (Ascending-right before _ r.ordered) in
    let run =
      trailing_run-filter page last.ts (suc n) (omega arith) page_ordered upto
      ∙ ap (λ t. length (filter (from_ts last.ts) t)) (take_all (suc n) page (omega arith)) in
    let after_ts : All (λ q. ts ≤ℤ q.ts) (front ++ last ∷ []) =
      subst (All (λ q. ts ≤ℤ q.ts)) parts (All-left _ page (x ∷ more) r.ahead) in
    let counted =
      next_skip before page last ts skip r.behind (All-right _ front (last ∷ []) after_ts).0
        r.skipped in
    (
      last,
      length (filter (from_ts last.ts) (before ++ page)),
      build_page_full page x last n ts skip h q
          ∙ full_page_lem page (suc n) last ts skip _ (rw run counted),
      q,
      record {
        ordered = rw append_assoc r.ordered;
        behind = All-append _ before page (All-left _ before front at_most) upto;
        ahead = (Ascending-right (before ++ front) (last ∷ x ∷ more) ordered).0;
        skipped = refl;
      },
    )

-- Where all that is left fits the page, it is the page, with no cursor.
pub build_page_last :
    (rest : List Point) (limit : ℕ) (ts : ℤ) (skip : ℕ)
    → length rest ≤ limit
    → build_page rest limit ts skip ≡ ok (rest, [])
unfolding build_page
build_page_last rest zero ts skip h = rw (le→leb (length rest) 0 h)
build_page_last rest (suc n) ts skip h = rw (le→leb (length rest) (suc n) h)

-- The start of a walk: the points in front of `from` count as read.
pub Resumes-start :
    (ps : List Point) (from : ℤ)
    → Ascending ps
    → (before : List Point) × (before ++ filter (from_ts from) ps ≡ ps)
      × Resumes before (filter (from_ts from) ps) from 0
Resumes-start [] from a =
    ([], refl, record { ordered = tt; behind = tt; ahead = tt; skipped = refl })
Resumes-start (p ∷ ps) from (ap', a) = elim (Bool-cases (from_ts from p)) [
  | inl e ↦
      let above : All (λ q. from ≤ℤ q.ts) ps = All-imp _ _ (λ q k. ground arith) ps ap' in
      rw (e, filter_all (from_ts from) ps (All-imp _ _ (λ q k. ground arith) ps above))
        (
          [],
          refl,
          record { ordered = (ap', a); behind = tt; ahead = (ground arith, above); skipped = refl },
        )
  | inr e ↦
      let (before, parts, r) = Resumes-start ps from a in
      rw e (
        p ∷ before,
        ap (λ t. p ∷ t) parts,
        record {
          ordered = (rw parts ap', r.ordered);
          behind = (ground arith, r.behind);
          ahead = r.ahead;
          skipped = rw e r.skipped;
        },
      )
]

-- ===== src/Load/Stats/Rank.antt =====
-- On stress/load/stats.go: the nearest rank.
use mathlib.Core.Path.{subst}
use the_500mb_club_challenge.Golang.Sort.{sort_by}
use the_500mb_club_challenge.Golang.Arith.{float_div, float_mul, float_of_nat}
use the_500mb_club_challenge.Golang.Float64.{Float64}
use the_500mb_club_challenge.Prelude.Int.{eq_of_parts, ℤ, ltb_ℤ}
use the_500mb_club_challenge.Load.Stats.{
  int_ceil, clamp_rank, pos, f_99_9, OpResult, OpSamples, summarize_sorted, rank_of, summarize,
  percentile,
}
use mathlib.Core.List.{Perm}
use the_500mb_club_challenge.Prelude.{
  true, ltb, [], ◌∷◌, zero, suc, some, drop, ◌∙◌, take, false, ap, ◌∷◌, All, get_or, ◌-◌, some, suc,
  get_elem?, length, ◌<◌, ◌≤◌, arith, List, ℕ, ◌≡◌, refl,
}
use the_500mb_club_challenge.Golang.Sort.Laws.{
  from_on, sort_by-perm, up_to, sort_by-length, sort_by-IsSorted, IsSorted, IsOrder,
}

pub duration_order : IsOrder ltb_ℤ
duration_order = record {
  asym = λ a b h. ground (arith, h);
  antisym = λ a b h k. ground (arith, h, k, eq_of_parts a b);
  neg_trans = λ a b c h k. ground (arith, h, k);
}

-- `v` stands at `rank`, from 1: no value up to there is larger, and none from there on is smaller.
pub record IsNearest (sorted : List ℤ) (rank : ℕ) (v : ℤ) : Type 0 where
  pub in_range : (1 ≤ rank) × (rank ≤ length sorted)
  pub value : get_elem? sorted (rank - 1) ≡ some v
  pub no_larger : All (λ x. ltb_ℤ v x ≡ false) (take rank sorted)
  pub no_smaller : All (λ x. ltb_ℤ x v ≡ false) (drop (rank - 1) sorted)

clamp_rank_range : (r n : ℕ) → 1 ≤ n → (1 ≤ clamp_rank r n) × (clamp_rank r n ≤ n)
unfolding clamp_rank
clamp_rank_range r n h = ground (arith, h)

rank_of_range : (p : Float64) (n : ℕ) → 1 ≤ n → (1 ≤ rank_of p n) × (rank_of p n ≤ n)
unfolding rank_of
rank_of_range p n h =
    clamp_rank_range (int_ceil (float_mul (float_div p (float_of_nat 100)) (float_of_nat n))) n h

not_empty : {A : Type 0} (l : List A) → 1 ≤ length l → ltb 0 (length l) ≡ true
not_empty [] h = absurd (omega (arith, h))
not_empty (x ∷ l) h = ground arith

get_elem?-get_or : (l : List ℤ) (i : ℕ) (d : ℤ) → i < length l → get_elem? l i ≡ some (get_or l i d)
get_elem?-get_or [] i d h = absurd (omega (arith, h))
get_elem?-get_or (a ∷ l) zero d h = refl
get_elem?-get_or (a ∷ l) (suc i) d h = get_elem?-get_or l i d (omega (arith, h))

-- In the order of the values, at any index.
at_index :
    (l : List ℤ) (i : ℕ)
    → IsSorted ltb_ℤ duration_order l
    → i < length l
    → IsNearest l (suc i) (get_or l i (pos 0))
at_index l i s h = record {
  in_range = omega (arith, h);
  value = ap (get_elem? l) (omega arith) ∙ get_elem?-get_or l i (pos 0) h;
  no_larger = up_to ltb_ℤ duration_order l i (pos 0) s h;
  no_smaller =
      subst (λ j. All (λ x. ltb_ℤ x (get_or l i (pos 0)) ≡ false) (drop j l)) (omega arith)
        (from_on ltb_ℤ duration_order l i (pos 0) s h);
}

pub percentile-IsNearest :
    (l : List ℤ) (p : Float64)
    → IsSorted ltb_ℤ duration_order l
    → 1 ≤ length l
    → IsNearest l (rank_of p (length l)) (percentile l p)
unfolding percentile
percentile-IsNearest l p s h =
    let rank = rank_of p (length l) in
    let (low, high) = rank_of_range p (length l) h in
    let shift : suc (rank - 1) ≡ rank = omega (arith, low) in
    let here : percentile l p ≡ get_or l (rank - 1) (pos 0) = rw (percentile, not_empty l h) refl in
    rw here (
      subst (λ k. IsNearest l k (get_or l (rank - 1) (pos 0))) shift
        (at_index l (rank - 1) s (omega (arith, low, high))))

-- What a summary says of the samples `ds`, of which `fails` failed.
pub record IsSummary (ds : List ℤ) (fails : ℕ) (r : OpResult) : Type 0 where
  pub sorted : List ℤ
  pub same : Perm sorted ds
  pub p50 : IsNearest sorted (rank_of (float_of_nat 50) (length ds)) r.p50
  pub p95 : IsNearest sorted (rank_of (float_of_nat 95) (length ds)) r.p95
  pub p99 : IsNearest sorted (rank_of (float_of_nat 99) (length ds)) r.p99
  pub p999 : IsNearest sorted (rank_of f_99_9 (length ds)) r.p999
  pub min : IsNearest sorted 1 r.min
  pub max : IsNearest sorted (length ds) r.max
  pub count : r.count ≡ length ds
  pub failed : r.fails ≡ fails

-- For an operation with a sample, each percentile of the summary stands in a rearrangement of the
-- samples at the rank that the code computes, which is from 1 to their number, with no larger
-- value up to there and no smaller one from there on; the minimum stands so at rank 1 and the
-- maximum at the last; the count is the number of samples, and the failures are those recorded.
pub summarize-IsSummary :
    (o : OpSamples) → 1 ≤ length o.durs → IsSummary o.durs o.fails (summarize (some o))
unfolding summarize summarize_sorted
summarize-IsSummary o h =
    let sorted = sort_by ltb_ℤ o.durs in
    let s = sort_by-IsSorted ltb_ℤ duration_order o.durs in
    let size : length sorted ≡ length o.durs = sort_by-length ltb_ℤ duration_order o.durs in
    let some_sorted : 1 ≤ length sorted = omega (arith, h, size) in
    let nearest : (p : Float64)
        → IsNearest sorted (rank_of p (length o.durs)) (percentile sorted p) =
      λ p.
        subst (λ n. IsNearest sorted (rank_of p n) (percentile sorted p)) size
          (percentile-IsNearest sorted p s some_sorted) in
    rw (summarize, not_empty o.durs h)
      (record {
        sorted = sorted;
        same = sort_by-perm ltb_ℤ duration_order o.durs;
        p50 = nearest (float_of_nat 50);
        p95 = nearest (float_of_nat 95);
        p99 = nearest (float_of_nat 99);
        p999 = nearest f_99_9;
        min = at_index sorted 0 s some_sorted;
        max =
            subst (λ n. IsNearest sorted n (get_or sorted (length sorted - 1) (pos 0)))
              (omega (arith, size, h))
              (at_index sorted (length sorted - 1) s (omega (arith, some_sorted)));
        count = size;
        failed = refl;
      })

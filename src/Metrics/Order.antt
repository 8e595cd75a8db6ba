-- ===== src/Metrics/Order.antt =====
-- On internal/metrics/metrics.go: the page of a counter by label, and the order of its cells.
use the_500mb_club_challenge.Golang.Sort.{sort_by}
use the_500mb_club_challenge.Golang.Sort.Laws.{sort_by-Perm, IsOrder}
use native.Mathlib.Nat.{ℕ_set}
use the_500mb_club_challenge.Golang.Binary.{
  bytes_lt_neg_trans, bytes_lt_step, bytes_lt_asym, bytes_lt,
}
use the_500mb_club_challenge.Metrics.{
  write_help_type, render_sample, CounterVec, find, Series, render_samples, render_vec,
}
use mathlib.Core.List.{Perm}
use the_500mb_club_challenge.Prelude.{
  ◌++◌, arith, ap, false, ◌∷◌, ◌∙◌, map, [], Bytes, List, ◌≡◌, refl,
}

-- The text order is total.
bytes_lt_antisym : (a b : Bytes) → bytes_lt a b ≡ false → bytes_lt b a ≡ false → a ≡ b
bytes_lt_antisym [] [] p q = refl
bytes_lt_antisym [] (b ∷ bs) p q = unfold bytes_lt in cc p
bytes_lt_antisym (a ∷ as') [] p q = unfold bytes_lt in cc q
bytes_lt_antisym (a ∷ as') (b ∷ bs) p q =
    ground
      (arith, bytes_lt_step a b as' bs, bytes_lt_step b a bs as', bytes_lt_antisym as' bs, p, q)

bytes_order : IsOrder bytes_lt
bytes_order = record {
  asym = bytes_lt_asym;
  antisym = bytes_lt_antisym;
  neg_trans = bytes_lt_neg_trans;
}

abbrev pub keys : Series → List Bytes
keys s = map (λ kv. kv.0) s

render_samples_lem :
    (cv : CounterVec) (s : Series) (ks : List Bytes)
    → ((k : Bytes) → find k cv.series ≡ find k s)
    → render_samples cv ks ≡ render_samples (record cv { series = s }) ks
unfolding render_samples render_sample
render_samples_lem cv s [] h = refl
render_samples_lem cv s (k ∷ ks) h =
    rw (render_samples, render_samples_lem cv s ks h, render_sample, h k) refl

-- The text of a counter by label does not depend on the order in which Go ranges over the map of
-- its cells: two maps with the same keys in another order, and the same counts, are rendered
-- alike.
pub render_vec-Perm :
    (cv : CounterVec) (s : Series)
    → Perm (keys cv.series) (keys s)
    → ((k : Bytes) → find k cv.series ≡ find k s)
    → render_vec cv ≡ render_vec (record cv { series = s })
unfolding render_vec
render_vec-Perm cv s p h =
    ap (λ t. write_help_type cv.name cv.help ++ t)
      (ap (render_samples cv) (sort_by-Perm bytes_lt bytes_order (hlevel ℕ_set) p)
        ∙ render_samples_lem cv s (sort_by bytes_lt (keys s)) h)

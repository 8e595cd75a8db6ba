-- ===== src/Metrics/Commute.antt =====
-- On internal/metrics/metrics.go: counts in either order.
use the_500mb_club_challenge.Metrics.Order.{keys, render_vec-Perm}
use mathlib.Core.Path.{subst}
use the_500mb_club_challenge.Metrics.{with_value, add_sample, CounterVec, find, Series, render_vec}
use mathlib.Core.List.{map-append, Perm}
use mathlib.Core.List.Perm
use the_500mb_club_challenge.Prelude.{
  Option, append_assoc, bytes_eq_sound, Option-cases, bytes_eq_refl, some, bytes_eq, none, ◌++◌,
  inr, inl, Bool-cases, ap, false, sym, ◌∷◌, ◌∙◌, [], Bytes, ℕ, ◌≡◌, refl,
}
use the_500mb_club_challenge.Metrics.Series.{find-count_comm, counted, find-counted}

-- The keys, one more where `k` is new.
keys-add_sample : (k : Bytes) (n : ℕ) (s : Series) → keys (add_sample k n s) ≡ keys s
unfolding add_sample
keys-add_sample k n [] = refl
keys-add_sample k n ((j, v) ∷ s) = elim (Bool-cases (bytes_eq k j)) [
  | inl e ↦ rw e refl
  | inr e ↦ rw e (ap (λ t. j ∷ t) (keys-add_sample k n s))
]

keys_found : (k : Bytes) (n v : ℕ) (s : Series) → find k s ≡ some v → keys (counted k n s) ≡ keys s
unfolding counted with_value
keys_found k n v s h = rw (counted, with_value, h) (keys-add_sample k n s)

keys_missing :
    (k : Bytes) (n : ℕ) (s : Series) → find k s ≡ none → keys (counted k n s) ≡ keys s ++ k ∷ []
unfolding counted with_value
keys_missing k n s h =
    rw (counted, with_value, h)
      (keys-add_sample k n (s ++ (k, 0) ∷ [])
        ∙ map-append (λ (kv : Bytes × ℕ). kv.0) s ((k, 0) ∷ []))

-- A key that is not counted stays missing, or found.
find-count_other :
    (k j : Bytes) (n : ℕ) (s : Series) (r : Option ℕ)
    → bytes_eq j k ≡ false
    → find j s ≡ r
    → find j (counted k n s) ≡ r
find-count_other k j n s r d h = (find-counted k n s).1 j d ∙ h

bytes_eq_sym : (a b : Bytes) → bytes_eq a b ≡ false → bytes_eq b a ≡ false
bytes_eq_sym a b h = elim (Bool-cases (bytes_eq b a)) [
  | inl e ↦
      absurd
        (cc (subst (λ t. bytes_eq t b ≡ false) (sym (bytes_eq_sound b a e)) h, bytes_eq_refl b))
  | inr e ↦ e
]

-- Counts of two keys, in either order, have the same keys.
keys-count_comm :
    (a b : Bytes) (m n : ℕ) (s : Series)
    → bytes_eq a b ≡ false
    → Perm (keys (counted a m (counted b n s))) (keys (counted b n (counted a m s)))
keys-count_comm a b m n s d =
    let d' = bytes_eq_sym a b d in
    elim (Option-cases (find a s)) [
      | inl p ↦ elim (Option-cases (find b s)) [
        | inl q ↦
            rw
              (
                keys_missing a m (counted b n s) (find-count_other b a n s none d p),
                keys_missing b n s q,
                keys_missing b n (counted a m s) (find-count_other a b m s none d' q),
                keys_missing a m s p,
                append_assoc (keys s) (b ∷ []) (a ∷ []),
                append_assoc (keys s) (a ∷ []) (b ∷ []),
              )
              (Perm.append_left (keys s) (Perm.swap a b []))
        | inr (v, q) ↦
            rw
              (
                keys_missing a m (counted b n s) (find-count_other b a n s none d p),
                keys_found b n v s q,
                keys_found b n v (counted a m s) (find-count_other a b m s (some v) d' q),
                keys_missing a m s p,
              )
              Perm.rfl
      ]
      | inr (u, p) ↦ elim (Option-cases (find b s)) [
        | inl q ↦
            rw
              (
                keys_found a m u (counted b n s) (find-count_other b a n s (some u) d p),
                keys_missing b n s q,
                keys_missing b n (counted a m s) (find-count_other a b m s none d' q),
                keys_found a m u s p,
              )
              Perm.rfl
        | inr (v, q) ↦
            rw
              (
                keys_found a m u (counted b n s) (find-count_other b a n s (some u) d p),
                keys_found b n v s q,
                keys_found b n v (counted a m s) (find-count_other a b m s (some v) d' q),
                keys_found a m u s p,
              )
              Perm.rfl
      ]
    ]

-- Counts of one key are found there.
keys-count_again :
    (k : Bytes) (m n : ℕ) (s : Series) → keys (counted k m (counted k n s)) ≡ keys (counted k n s)
keys-count_again k m n s = keys_found k m _ (counted k n s) (find-counted k n s).0

keys-count_same : (k : Bytes) (m n : ℕ) (s : Series) → keys (counted k n s) ≡ keys (counted k m s)
keys-count_same k m n s = elim (Option-cases (find k s)) [
  | inl p ↦ keys_missing k n s p ∙ sym (keys_missing k m s p)
  | inr (v, p) ↦ keys_found k n v s p ∙ sym (keys_found k m v s p)
]

keys-count_twice :
    (k : Bytes) (m n : ℕ) (s : Series)
    → Perm (keys (counted k m (counted k n s))) (keys (counted k n (counted k m s)))
keys-count_twice k m n s =
    rw (keys-count_again k m n s, keys-count_again k n m s, keys-count_same k m n s) Perm.rfl

-- Two counts, of the same label value or of different ones, leave the same rendered text whichever
-- comes first, also where they make their cells.
pub render_vec-counted_comm :
    (cv : CounterVec) (a b : Bytes) (m n : ℕ)
    → render_vec (record cv { series = counted a m (counted b n cv.series) })
      ≡ render_vec (record cv { series = counted b n (counted a m cv.series) })
render_vec-counted_comm cv a b m n =
    render_vec-Perm (record cv { series = counted a m (counted b n cv.series) })
      (counted b n (counted a m cv.series))
      (elim (Bool-cases (bytes_eq a b)) [
        | inl e ↦
            subst
              (λ t.
                Perm (keys (counted a m (counted t n cv.series)))
                  (keys (counted t n (counted a m cv.series))))
              (bytes_eq_sound a b e) (keys-count_twice a m n cv.series)
        | inr e ↦ keys-count_comm a b m n cv.series e
      ])
      (λ k. find-count_comm a b k m n cv.series)

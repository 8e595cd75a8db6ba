-- ===== src/Metrics/Series.antt =====
-- On internal/metrics/metrics.go: the cells of a counter by label.
use mathlib.Core.Path.{subst}
use the_500mb_club_challenge.Metrics.{add_counter, with_value, add_sample, find, Series}
use the_500mb_club_challenge.Prelude.{
  bytes_eq_sound, Option-cases, bytes_eq_refl, some, bytes_eq, none, ◌++◌, inr, true, arith, inl,
  Bool-cases, ap, false, sym, if◌then◌else◌, ◌∷◌, ◌∙◌, [], Bytes, ℕ, ◌≡◌, refl,
}

-- The value of a cell, which is 0 before `With` makes it.
unfoldable pub value : Bytes → Series → ℕ
value k s = elim (find k s) [ none ↦ 0 | some v ↦ v ]

-- `With(k).Add(n)`
unfoldable pub counted : Bytes → ℕ → Series → Series
unfolding with_value add_sample
counted k n s = add_sample k n (with_value k s)

pub find_new : (k : Bytes) (s : Series) → find k s ≡ none → find k (s ++ (k, 0) ∷ []) ≡ some 0
unfolding find
find_new k [] h = rw (bytes_eq_refl k) refl
find_new k ((j, v) ∷ s) h = elim (Bool-cases (bytes_eq k j)) [
  | inl e ↦ absurd (cc (rw e at h))
  | inr e ↦ rw e (find_new k s (rw e at h))
]

find_new_other :
    (k j : Bytes) (s : Series) → bytes_eq j k ≡ false → find j (s ++ (k, 0) ∷ []) ≡ find j s
unfolding find
find_new_other k j [] h = rw h refl
find_new_other k j ((l, v) ∷ s) h = rw (find_new_other k j s h) refl

find-add_sample :
    (k : Bytes) (n v : ℕ) (s : Series)
    → find k s ≡ some v
    → find k (add_sample k n s) ≡ some (add_counter v n)
unfolding find add_sample
find-add_sample k n v [] h = cc h
find-add_sample k n v ((j, u) ∷ s) h = elim (Bool-cases (bytes_eq k j)) [
  | inl e ↦ rw (e, e) (ap (λ t. some (add_counter t n)) (cc (rw e at h)))
  | inr e ↦ rw (e, e) (find-add_sample k n v s (rw e at h))
]

-- A key that differs is not touched.
find-add_sample_other :
    (k j : Bytes) (n : ℕ) (s : Series) → bytes_eq j k ≡ false → find j (add_sample k n s) ≡ find j s
unfolding find add_sample
find-add_sample_other k j n [] h = refl
find-add_sample_other k j n ((l, v) ∷ s) h = elim (Bool-cases (bytes_eq k l)) [
  | inl e ↦
      let differs : bytes_eq j l ≡ false =
        subst (λ t. bytes_eq j t ≡ false) (bytes_eq_sound k l e) h in
      rw (e, differs) refl
  | inr e ↦ rw (e, find-add_sample_other k j n s h) refl
]

-- With(k).Add(n) leaves in the cell of k what it had (0 if there was no cell) and n more, as a
-- 64-bit word; every other cell is as it was, and none is made.
pub find-counted :
    (k : Bytes) (n : ℕ) (s : Series)
    → (find k (counted k n s) ≡ some (add_counter (value k s) n))
      × ((j : Bytes) → bytes_eq j k ≡ false → find j (counted k n s) ≡ find j s)
unfolding counted with_value value
find-counted k n s = elim (Option-cases (find k s)) [
  | inl e ↦
      rw (counted, with_value, e, value)
        (
          find-add_sample k n 0 (s ++ (k, 0) ∷ []) (find_new k s e),
          λ j d. find-add_sample_other k j n (s ++ (k, 0) ∷ []) d ∙ find_new_other k j s d,
        )
  | inr (v, e) ↦
      rw (counted, with_value, e, value)
        (find-add_sample k n v s e, λ j d. find-add_sample_other k j n s d)
]

-- The count of a key.
pub counted_here :
    (k j : Bytes) (n : ℕ) (s : Series)
    → bytes_eq j k ≡ true
    → find j (counted k n s) ≡ some (add_counter (value j s) n)
counted_here k j n s e =
    subst (λ t. find t (counted k n s) ≡ some (add_counter (value t s) n))
      (sym (bytes_eq_sound j k e)) (find-counted k n s).0

pub value-counted :
    (k j : Bytes) (n : ℕ) (s : Series)
    → value j (counted k n s) ≡ (if bytes_eq j k then add_counter (value j s) n else value j s)
unfolding value
value-counted k j n s = elim (Bool-cases (bytes_eq j k)) [
  | inl e ↦ rw (e, value, counted_here k j n s e) refl
  | inr e ↦ rw (e, value, (find-counted k n s).1 j e) refl
]

pub find-count_comm :
    (a b j : Bytes) (m n : ℕ) (s : Series)
    → find j (counted a m (counted b n s)) ≡ find j (counted b n (counted a m s))
find-count_comm a b j m n s = elim (Bool-cases (bytes_eq j a)) [
  | inl p ↦ elim (Bool-cases (bytes_eq j b)) [
    | inl q ↦
        counted_here a j m (counted b n s) p
        ∙ ap some (rw (value-counted b j n s, q, value-counted a j m s, p) (omega arith))
        ∙ sym (counted_here b j n (counted a m s) q)
    | inr q ↦
        counted_here a j m (counted b n s) p
        ∙ ap (λ v. some (add_counter v m)) (rw (value-counted b j n s, q) refl)
        ∙ sym (counted_here a j m s p)
        ∙ sym ((find-counted b n (counted a m s)).1 j q)
  ]
  | inr p ↦ elim (Bool-cases (bytes_eq j b)) [
    | inl q ↦
        (find-counted a m (counted b n s)).1 j p
        ∙ counted_here b j n s q
        ∙ ap (λ v. some (add_counter v n)) (rw (value-counted a j m s, p) refl)
        ∙ sym (counted_here b j n (counted a m s) q)
    | inr q ↦
        (find-counted a m (counted b n s)).1 j p
        ∙ (find-counted b n s).1 j q
        ∙ sym ((find-counted a m s).1 j p)
        ∙ sym ((find-counted b n (counted a m s)).1 j q)
  ]
]

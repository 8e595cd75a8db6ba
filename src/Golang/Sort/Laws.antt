-- ===== src/Golang/Sort/Laws.antt =====
-- On sorting: the result does not depend on the order of the input, and is in order.
use mathlib.Core.List.{Perm, foldr}
use mathlib.Core.List.Perm
use the_500mb_club_challenge.Prelude.{
  All-get_or, zero, suc, arith, drop, take, get_or, suc, ◌<◌, ℕ, length, All-imp, inr, sym, inl,
  ◌∙◌, ap, Bool-cases, All, false, true, Bool, List, [], ◌∷◌, ◌≡◌, refl,
}
use the_500mb_club_challenge.Golang.Sort.{insert_by, sort_by}

-- An order in which any two values are apart, by its Boolean test.
pub record IsOrder {A : Type 0} (lt : A → A → Bool) : Type 0 where
  pub asym : (a b : A) → lt a b ≡ true → lt b a ≡ false
  pub antisym : (a b : A) → lt a b ≡ false → lt b a ≡ false → a ≡ b
  pub neg_trans : (a b c : A) → lt b a ≡ false → lt c b ≡ false → lt c a ≡ false

module _ {A : Type 0} (lt : A → A → Bool) (order : IsOrder lt) where
  -- What is not after `j` is before what is.
  lt_between : (a b j : A) → lt j b ≡ false → lt j a ≡ true → lt b a ≡ true
  lt_between a b j p q = elim (Bool-cases (lt b a)) [
    | inl e ↦ e
    | inr e ↦ absurd (cc (order.neg_trans a b j e p, q))
  ]

  insert_later :
      (k j : A) (l : List A) → lt j k ≡ true → insert_by lt k (j ∷ l) ≡ j ∷ insert_by lt k l
  unfolding insert_by
  insert_later k j l h = rw h refl

  insert_here : (k j : A) (l : List A) → lt j k ≡ false → insert_by lt k (j ∷ l) ≡ k ∷ j ∷ l
  unfolding insert_by
  insert_here k j l h = rw h refl

  -- Where neither comes after what follows.
  insert_top :
      (a b : A) (l : List A)
      → insert_by lt a l ≡ a ∷ l
      → insert_by lt b l ≡ b ∷ l
      → insert_by lt a (b ∷ l) ≡ insert_by lt b (a ∷ l)
  insert_top a b l p q = elim (Bool-cases (lt b a)) [
    | inl e ↦ insert_later a b l e ∙ ap (λ t. b ∷ t) p ∙ sym (insert_here b a l (order.asym b a e))
    | inr e ↦ elim (Bool-cases (lt a b)) [
      | inl k ↦ insert_here a b l e ∙ sym (insert_later b a l k ∙ ap (λ t. a ∷ t) q)
      | inr k ↦ rw (order.antisym a b k e) refl
    ]
  ]

  -- What `b` comes before stays behind it.
  insert_past :
      (a b j : A) (l : List A)
      → lt j a ≡ true
      → lt j b ≡ false
      → insert_by lt a (insert_by lt b (j ∷ l)) ≡ insert_by lt b (insert_by lt a (j ∷ l))
  insert_past a b j l p q =
      ap (insert_by lt a) (insert_here b j l q)
      ∙ insert_later a b (j ∷ l) (lt_between a b j q p)
      ∙ ap (λ t. b ∷ t) (insert_later a j l p)
      ∙ sym (ap (insert_by lt b) (insert_later a j l p) ∙ insert_here b j (insert_by lt a l) q)

  -- Two keys are inserted in either order.
  insert_comm :
      (a b : A) (l : List A) → insert_by lt a (insert_by lt b l) ≡ insert_by lt b (insert_by lt a l)
  insert_comm a b [] = unfold insert_by in insert_top a b [] refl refl
  insert_comm a b (j ∷ l) = elim (Bool-cases (lt j a)) [
    | inl p ↦ elim (Bool-cases (lt j b)) [
      | inl q ↦
          ap (insert_by lt a) (insert_later b j l q)
          ∙ insert_later a j (insert_by lt b l) p
          ∙ ap (λ t. j ∷ t) (insert_comm a b l)
          ∙ sym (ap (insert_by lt b) (insert_later a j l p) ∙ insert_later b j (insert_by lt a l) q)
      | inr q ↦ insert_past a b j l p q
    ]
    | inr p ↦ elim (Bool-cases (lt j b)) [
      | inl q ↦ sym (insert_past b a j l q p)
      | inr q ↦
          ap (insert_by lt a) (insert_here b j l q)
          ∙ insert_top a b (j ∷ l) (insert_here a j l p) (insert_here b j l q)
          ∙ sym (ap (insert_by lt b) (insert_here a j l p))
    ]
  ]

  sort_by-foldr : (l : List A) → sort_by lt l ≡ foldr (insert_by lt) [] l
  unfolding sort_by
  sort_by-foldr [] = refl
  sort_by-foldr (a ∷ l) = ap (insert_by lt a) (sort_by-foldr l)

  pub sort_by-Perm : {l k : List A} → IsSet (List A) → Perm l k → sort_by lt l ≡ sort_by lt k
  sort_by-Perm {l} {k} set p =
      sort_by-foldr l ∙ Perm.foldr-eq set (insert_by lt) insert_comm p [] ∙ sym (sort_by-foldr k)

  -- No element is before one that stands in front of it.
  abbrev pub IsSorted : List A → Type 0
  IsSorted [] = Unit {0}
  IsSorted (a ∷ l) = All (λ b. lt b a ≡ false) l × IsSorted l

  insert_by-All : (P : A → Type 0) (a : A) (l : List A) → P a → All P l → All P (insert_by lt a l)
  unfolding insert_by
  insert_by-All P a [] h k = (h, tt)
  insert_by-All P a (b ∷ l) h (kb, k) = elim (Bool-cases (lt b a)) [
    | inl e ↦ rw e (kb, insert_by-All P a l h k)
    | inr e ↦ rw e (h, (kb, k))
  ]

  insert_by-IsSorted : (a : A) (l : List A) → IsSorted l → IsSorted (insert_by lt a l)
  unfolding insert_by
  insert_by-IsSorted a [] h = (tt, tt)
  insert_by-IsSorted a (b ∷ l) (below, h) = elim (Bool-cases (lt b a)) [
    | inl e ↦
        rw e (
          insert_by-All (λ c. lt c b ≡ false) a l (order.asym b a e) below,
          insert_by-IsSorted a l h,
        )
    | inr e ↦ rw e ((e, All-imp _ _ (λ c k. order.neg_trans a b c e k) l below), (below, h))
  ]

  pub sort_by-IsSorted : (l : List A) → IsSorted (sort_by lt l)
  unfolding sort_by
  sort_by-IsSorted [] = tt
  sort_by-IsSorted (a ∷ l) = insert_by-IsSorted a (sort_by lt l) (sort_by-IsSorted l)

  insert_by-perm : (a : A) (l : List A) → Perm (insert_by lt a l) (a ∷ l)
  unfolding insert_by
  insert_by-perm a [] = Perm.rfl
  insert_by-perm a (b ∷ l) = elim (Bool-cases (lt b a)) [
    | inl e ↦ rw e (Perm.trans (Perm.cons b (insert_by-perm a l)) (Perm.swap a b l))
    | inr e ↦ rw e Perm.rfl
  ]

  pub sort_by-perm : (l : List A) → Perm (sort_by lt l) l
  unfolding sort_by
  sort_by-perm [] = Perm.rfl
  sort_by-perm (a ∷ l) = Perm.trans (insert_by-perm a (sort_by lt l)) (Perm.cons a (sort_by-perm l))

  insert_by-length : (a : A) (l : List A) → length (insert_by lt a l) ≡ suc (length l)
  unfolding insert_by
  insert_by-length a [] = refl
  insert_by-length a (b ∷ l) = elim (Bool-cases (lt b a)) [
    | inl e ↦ rw e (ap suc (insert_by-length a l))
    | inr e ↦ rw e refl
  ]

  pub sort_by-length : (l : List A) → length (sort_by lt l) ≡ length l
  unfolding sort_by
  sort_by-length [] = refl
  sort_by-length (a ∷ l) = insert_by-length a (sort_by lt l) ∙ ap suc (sort_by-length l)

  irrefl : (a : A) → lt a a ≡ false
  irrefl a = elim (Bool-cases (lt a a)) [ inl e ↦ absurd (cc (e, order.asym a a e)) | inr e ↦ e ]

  -- In an ordered list, what stands up to an index is no larger, what stands from it on no smaller.
  pub up_to :
      (l : List A) (i : ℕ) (d : A)
      → IsSorted l
      → i < length l
      → All (λ x. lt (get_or l i d) x ≡ false) (take (suc i) l)
  up_to [] i d s h = tt
  up_to (a ∷ l) zero d s h = (irrefl a, tt)
  up_to (a ∷ l) (suc i) d (below, s) h =
      let h' : i < length l = omega (arith, h) in
      (All-get_or (λ b. lt b a ≡ false) l i d below h', up_to l i d s h')

  pub from_on :
      (l : List A) (i : ℕ) (d : A)
      → IsSorted l
      → i < length l
      → All (λ x. lt x (get_or l i d) ≡ false) (drop i l)
  from_on [] i d s h = absurd (omega (arith, h))
  from_on (a ∷ l) zero d (below, s) h = (irrefl a, below)
  from_on (a ∷ l) (suc i) d (below, s) h = from_on l i d s (omega (arith, h))

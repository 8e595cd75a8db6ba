-- ===== src/Prelude/Reverse.antt =====
-- Lists from their end.
use Prim.Native.Nat.{ℕ, ◌-◌, ◌≤◌, ◌<◌}
use mathlib.Core.Path.{◌≡◌, refl, sym, ap, ◌∙◌}
use mathlib.Core.List.{List, [], ◌∷◌, ◌++◌, map, map-append, reverse, reverse-cons, reverse-append}
use mathlib.Core.Logic.{◌⊎◌, inl, inr}
use native.Mathlib.Omega.{arith}
use the_500mb_club_challenge.Prelude.Tests.{leb, Bool-cases}
use the_500mb_club_challenge.Prelude.Lists.{
  length, take, drop, length-append, length-drop, take-append, take-append-drop, take_all,
}

pub map-reverse {ℓ κ} :
    {A : Type ℓ} {B : Type κ} (f : A → B) (xs : List A) → map f (reverse xs) ≡ reverse (map f xs)
map-reverse f [] = refl
map-reverse f (x ∷ xs) =
    ap (map f) (reverse-cons x xs)
    ∙ map-append f (reverse xs) (x ∷ [])
    ∙ ap (λ t. t ++ f x ∷ []) (map-reverse f xs)
    ∙ sym (reverse-cons (f x) (map f xs))

≤-cases : (m n : ℕ) → (m ≤ n) ⊎ (n < m)
≤-cases m n = elim (Bool-cases (leb m n)) [
  | inl e ↦ inl (ground (arith, e))
  | inr e ↦ inr (ground (arith, e))
]

module _ {ℓ} {A : Type ℓ} where
  pub length-reverse : (xs : List A) → length (reverse xs) ≡ length xs
  length-reverse [] = refl
  length-reverse (x ∷ xs) =
      rw (reverse-cons x xs) (omega (arith, length-append (reverse xs) (x ∷ []), length-reverse xs))

  -- The last of a list, from its end.
  pub take-reverse : (n : ℕ) (xs : List A) → take n (reverse xs) ≡ reverse (drop (length xs - n) xs)
  take-reverse n xs =
      let k : ℕ = length xs - n in
      let front : List A = take k xs in
      let back : List A = drop k xs in
      let split : reverse xs ≡ reverse back ++ reverse front =
        ap reverse (sym (take-append-drop k xs)) ∙ reverse-append front back in
      let size : length (reverse back) ≡ length xs - k = length-reverse back ∙ length-drop k xs in
      elim (≤-cases (length xs) n) [
        | inl all ↦
            let none_dropped : 0 ≡ k = omega (arith, all) in
            take_all n (reverse xs) (omega (arith, length-reverse xs, all))
            ∙ ap (λ j. reverse (drop j xs)) none_dropped
        | inr some_left ↦
            let same : length (reverse back) ≡ n = omega (arith, size, some_left) in
            ap (take n) split
            ∙ ap (λ j. take j (reverse back ++ reverse front)) (sym same)
            ∙ take-append (reverse back) (reverse front)
      ]

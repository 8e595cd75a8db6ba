-- ===== src/Golang/Sort.antt =====
-- `sort.Strings` and `sort.Slice`, by insertion: the orders that the program sorts by tell any two
-- values apart, so that every way to sort ends in the same list.
pub mod Laws
use the_500mb_club_challenge.Prelude.{Bool, List, [], ◌∷◌, if◌then◌else◌}

module _ {A : Type 0} (lt : A → A → Bool) where
  unfoldable pub insert_by : A → List A → List A
  insert_by a [] = a ∷ []
  insert_by a (b ∷ l) = let rest = insert_by a l in if lt b a then b ∷ rest else a ∷ b ∷ l

  unfoldable pub sort_by : List A → List A
  unfolding insert_by
  sort_by [] = []
  sort_by (a ∷ l) = insert_by a (sort_by l)

-- ===== src/Store/Mem/Insert.antt =====
-- On internal/store/mem.go: the binary search and shift of `Append`, beside an ordered insertion.
use the_500mb_club_challenge.Prelude.{
  ℕ, zero, suc, ◌≤◌, ◌<◌, ◌≡◌, refl, Bool, true, false, not, List, [], ◌∷◌, if◌then◌else◌, Bytes,
  length, drop, get_or, All, All-imp, arith, Bool-cases, inl, inr,
}
use the_500mb_club_challenge.Golang.Binary.{
  bytes_lt, bytes_lt_asym, bytes_lt_neg_trans, bytes_lt_irrefl,
}
use the_500mb_club_challenge.Golang.Search.{search, search_lem}
use the_500mb_club_challenge.Store.Mem.{insert_at, insert_member}
use mathlib.Core.List.{Perm}
use mathlib.Core.List.Perm

-- Members in byte order: no member is below one in front of it.
abbrev pub IsSorted : List Bytes → Type 0
IsSorted [] = Unit
IsSorted (m ∷ ms) = All (λ n. bytes_lt n m ≡ false) ms × IsSorted ms

-- The specification: in front of the first member that is not below `e`.
unfoldable pub insert_ordered : Bytes → List Bytes → List Bytes
insert_ordered e [] = e ∷ []
insert_ordered e (m ∷ ms) = if bytes_lt m e then m ∷ insert_ordered e ms else e ∷ m ∷ ms

get_or-All :
    (m : Bytes) (ms : List Bytes) (i : ℕ)
    → i < length ms
    → All (λ n. bytes_lt n m ≡ false) ms
    → bytes_lt (get_or ms i []) m ≡ false
get_or-All m [] i h a = absurd (omega arith)
get_or-All m (n ∷ ms) zero h (a, _) = a
get_or-All m (n ∷ ms) (suc i) h (_, a) = get_or-All m ms i (omega arith) a

sorted_indices :
    (ms : List Bytes) (i j : ℕ)
    → IsSorted ms
    → i ≤ j
    → j < length ms
    → bytes_lt (get_or ms j []) (get_or ms i []) ≡ false
sorted_indices [] i j s h k = absurd (omega arith)
sorted_indices (m ∷ ms) zero zero s h k = bytes_lt_irrefl m
sorted_indices (m ∷ ms) zero (suc j) (a, s) h k = get_or-All m ms j (omega arith) a
sorted_indices (m ∷ ms) (suc i) zero s h k = absurd (omega arith)
sorted_indices (m ∷ ms) (suc i) (suc j) (a, s) h k =
    sorted_indices ms i j s (omega arith) (omega arith)

insert_at-ordered :
    (e : Bytes) (ms : List Bytes) (r : ℕ)
    → r ≤ length ms
    → ((k : ℕ) → k < r → not (bytes_lt (get_or ms k []) e) ≡ false)
    → ((k : ℕ) → r ≤ k → k < length ms → not (bytes_lt (get_or ms k []) e) ≡ true)
    → insert_at r e ms ≡ insert_ordered e ms
unfolding insert_at insert_ordered
insert_at-ordered e [] zero h lo hi = refl
insert_at-ordered e [] (suc r) h lo hi = absurd (omega arith)
insert_at-ordered e (m ∷ ms) zero h lo hi = ground (arith, hi 0 (omega arith) (omega arith))
insert_at-ordered e (m ∷ ms) (suc r) h lo hi = ground (
  arith,
  lo 0 (omega arith),
  insert_at-ordered e ms r (omega arith) (λ k p. lo (suc k) (omega arith))
      (λ k p q. hi (suc k) (omega arith) (omega arith)),
)

-- On members in byte order, the insertion at the index found by binary search gives the same list
-- as the ordered insertion that walks the list.
pub insert_member-ordered :
    (e : Bytes) (ms : List Bytes) → IsSorted ms → insert_member e ms ≡ insert_ordered e ms
unfolding insert_member
insert_member-ordered e ms s =
    let test : ℕ → Bool = λ i. not (bytes_lt (get_or ms i []) e) in
    let (within, below, above) = search_lem test (length ms) (λ a b h k t. rw (
      bytes_lt_neg_trans e (get_or ms a []) (get_or ms b []) (ground arith)
        (sorted_indices ms a b s h k))) in
    insert_at-ordered e ms (search (length ms) test) within below above

pub insert_ordered-All {κ} :
    (P : Bytes → Type κ) (e : Bytes) (ms : List Bytes)
    → P e
    → All P ms
    → All P (insert_ordered e ms)
unfolding insert_ordered
insert_ordered-All P e [] p h = (p, tt)
insert_ordered-All P e (m ∷ ms) p (pm, h) = elim (Bool-cases (bytes_lt m e)) [
  | inl t ↦ rw t (pm, insert_ordered-All P e ms p h)
  | inr t ↦ rw t (p, (pm, h))
]

-- Ordered insertion keeps the order.
pub insert_ordered-IsSorted :
    (e : Bytes) (ms : List Bytes) → IsSorted ms → IsSorted (insert_ordered e ms)
unfolding insert_ordered
insert_ordered-IsSorted e [] s = (tt, tt)
insert_ordered-IsSorted e (m ∷ ms) (a, s) = elim (Bool-cases (bytes_lt m e)) [
  | inl t ↦ rw t (insert_ordered-All _ e ms (bytes_lt_asym m e t) a, insert_ordered-IsSorted e ms s)
  | inr t ↦ rw t ((t, All-imp _ _ (λ n h. bytes_lt_neg_trans e m n t h) ms a), (a, s))
]

-- The members are the old ones and the new one.
pub insert_ordered-perm : (e : Bytes) (ms : List Bytes) → Perm (insert_ordered e ms) (e ∷ ms)
unfolding insert_ordered
insert_ordered-perm e [] = Perm.refl (e ∷ [])
insert_ordered-perm e (m ∷ ms) = elim (Bool-cases (bytes_lt m e)) [
  | inl t ↦ rw t (Perm.trans (Perm.cons m (insert_ordered-perm e ms)) (Perm.swap e m ms))
  | inr t ↦ rw t (Perm.refl (e ∷ m ∷ ms))
]

pub drop-IsSorted : (n : ℕ) (ms : List Bytes) → IsSorted ms → IsSorted (drop n ms)
drop-IsSorted zero ms s = s
drop-IsSorted (suc n) [] s = s
drop-IsSorted (suc n) (m ∷ ms) (_, s) = drop-IsSorted n ms s

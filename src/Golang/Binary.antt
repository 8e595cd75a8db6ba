-- ===== src/Golang/Binary.antt =====
-- encoding/binary's `PutUint64` and `Uint64` in both byte orders, and `bytes.Compare`.
use Prim.Native.Nat.{compare, Ordering}
use the_500mb_club_challenge.Prelude.{
  ℕ, zero, suc, ◌+◌, ◌*◌, ◌/◌, ◌%◌, ◌^◌, ◌≤◌, ◌<◌, ◌≡◌, refl, ap, Bool, true, false, [], ◌∷◌, ◌++◌,
  arith, Bytes, Bool-cases, inl, inr, All, All-append, IsByte, length, length-append,
}

-- `k` bytes of `v`, highest first: `BigEndian.PutUint64` for k = 8.
unfoldable pub put_be : ℕ → ℕ → Bytes
put_be zero v = []
put_be (suc k) v = put_be k (v / 256) ++ (v % 256) ∷ []

unfoldable pub be_from : ℕ → Bytes → ℕ
be_from acc [] = acc
be_from acc (b ∷ bs) = be_from (acc * 256 + b) bs

-- `BigEndian.Uint64` of eight bytes.
unfoldable pub get_be : Bytes → ℕ
unfolding be_from
get_be bs = be_from 0 bs

-- `k` bytes of `v`, lowest first: `LittleEndian.PutUint64` for k = 8.
unfoldable pub put_le : ℕ → ℕ → Bytes
put_le zero v = []
put_le (suc k) v = (v % 256) ∷ put_le k (v / 256)

unfoldable pub get_le : Bytes → ℕ
get_le [] = 0
get_le (b ∷ bs) = b + 256 * get_le bs

be_from-append :
    (acc : ℕ) (xs : Bytes) (b : ℕ) → be_from acc (xs ++ b ∷ []) ≡ be_from acc xs * 256 + b
unfolding be_from
be_from-append acc [] b = refl
be_from-append acc (x ∷ xs) b = be_from-append (acc * 256 + x) xs b

pub get_be-put_be : (k v : ℕ) → v < 256 ^ k → get_be (put_be k v) ≡ v
unfolding get_be put_be
get_be-put_be zero v h = omega arith
get_be-put_be (suc k) v h = omega (
  arith,
  be_from-append 0 (put_be k (v / 256)) (v % 256),
  get_be-put_be k (v / 256) (omega arith),
)

pub get_le-put_le : (k v : ℕ) → v < 256 ^ k → get_le (put_le k v) ≡ v
unfolding get_le put_le
get_le-put_le zero v h = omega arith
get_le-put_le (suc k) v h = omega (arith, get_le-put_le k (v / 256) (omega arith))

pub length-put_be : (k v : ℕ) → length (put_be k v) ≡ k
unfolding put_be
length-put_be zero v = refl
length-put_be (suc k) v =
    omega (arith, length-append (put_be k (v / 256)) ((v % 256) ∷ []), length-put_be k (v / 256))

pub length-put_le : (k v : ℕ) → length (put_le k v) ≡ k
unfolding put_le
length-put_le zero v = refl
length-put_le (suc k) v = ap suc (length-put_le k (v / 256))

pub put_be-All : (k v : ℕ) → All IsByte (put_be k v)
unfolding put_be
put_be-All zero v = tt
put_be-All (suc k) v =
    All-append _ (put_be k (v / 256)) _ (put_be-All k (v / 256)) (omega arith, tt)

pub put_le-All : (k v : ℕ) → All IsByte (put_le k v)
unfolding put_le
put_le-All zero v = tt
put_le-All (suc k) v = (omega arith, put_le-All k (v / 256))

-- `bytes.Compare`, as an ordering in place of -1, 0 and 1.
unfoldable pub compare_bytes : Bytes → Bytes → Ordering
compare_bytes [] [] = Ordering.eq
compare_bytes [] (b ∷ bs) = Ordering.lt
compare_bytes (a ∷ as') [] = Ordering.gt
compare_bytes (a ∷ as') (b ∷ bs) =
    let rest = compare_bytes as' bs in
    elim (compare a b) [
      | Ordering.lt ↦ Ordering.lt
      | Ordering.gt ↦ Ordering.gt
      | Ordering.eq ↦ rest
    ]

-- `bytes.Compare(a, b) < 0`
unfoldable pub bytes_lt : Bytes → Bytes → Bool
unfolding compare_bytes
bytes_lt a b = elim (compare_bytes a b) [ Ordering.lt ↦ true | _ ↦ false ]

pub bytes_lt_step :
    (a b : ℕ) (as' bs : Bytes)
    → bytes_lt (a ∷ as') (b ∷ bs) ≡ elim (compare a b) [
      | Ordering.lt ↦ true
      | Ordering.gt ↦ false
      | Ordering.eq ↦ bytes_lt as' bs
    ]
unfolding bytes_lt
bytes_lt_step a b as' bs = ground arith

pub bytes_lt_irrefl : (a : Bytes) → bytes_lt a a ≡ false
unfolding bytes_lt
bytes_lt_irrefl [] = refl
bytes_lt_irrefl (a ∷ as') = ground (arith, bytes_lt_irrefl as')

pub bytes_lt_trans :
    (a b c : Bytes) → bytes_lt a b ≡ true → bytes_lt b c ≡ true → bytes_lt a c ≡ true
bytes_lt_trans [] [] c p q = q
bytes_lt_trans [] (b ∷ bs) [] p q = unfold bytes_lt in cc
bytes_lt_trans [] (b ∷ bs) (c ∷ cs) p q = unfold bytes_lt in refl
bytes_lt_trans (a ∷ as') [] c p q = unfold bytes_lt in cc
bytes_lt_trans (a ∷ as') (b ∷ bs) [] p q = unfold bytes_lt in cc
bytes_lt_trans (a ∷ as') (b ∷ bs) (c ∷ cs) p q = ground (
  arith,
  bytes_lt_step a b as' bs,
  bytes_lt_step b c bs cs,
  bytes_lt_step a c as' cs,
  bytes_lt_trans as' bs cs,
)

-- Not below is a total preorder: if `b` is not below `a`, whatever is below `a` is below `b`.
pub bytes_lt_neg_trans :
    (a b c : Bytes) → bytes_lt b a ≡ false → bytes_lt c b ≡ false → bytes_lt c a ≡ false
bytes_lt_neg_trans [] [] [] p q = q
bytes_lt_neg_trans [] [] (c ∷ cs) p q = q
bytes_lt_neg_trans [] (b ∷ bs) [] p q = unfold bytes_lt in refl
bytes_lt_neg_trans [] (b ∷ bs) (c ∷ cs) p q = unfold bytes_lt in refl
bytes_lt_neg_trans (a ∷ as') [] c p q = unfold bytes_lt in cc
bytes_lt_neg_trans (a ∷ as') (b ∷ bs) [] p q = unfold bytes_lt in cc
bytes_lt_neg_trans (a ∷ as') (b ∷ bs) (c ∷ cs) p q = ground (
  arith,
  bytes_lt_step b a bs as',
  bytes_lt_step c b cs bs,
  bytes_lt_step c a cs as',
  bytes_lt_neg_trans as' bs cs,
)

be_from_mono :
    (m n : ℕ) (as' bs : Bytes)
    → m < n
    → length as' ≡ length bs
    → All IsByte as'
    → be_from m as' < be_from n bs
unfolding be_from
be_from_mono m n [] [] h l p = h
be_from_mono m n [] (b ∷ bs) h l p = absurd (omega arith)
be_from_mono m n (a ∷ as') [] h l p = absurd (omega arith)
be_from_mono m n (a ∷ as') (b ∷ bs) h l (pa, ps) =
    be_from_mono (m * 256 + a) (n * 256 + b) as' bs (omega arith) (omega arith) ps

be_from_le :
    (m : ℕ) (as' bs x y : Bytes)
    → length as' ≡ length bs
    → All IsByte as'
    → All IsByte bs
    → bytes_lt (bs ++ y) (as' ++ x) ≡ false
    → be_from m as' ≤ be_from m bs
unfolding be_from
be_from_le m [] [] x y l p q h = omega arith
be_from_le m [] (b ∷ bs) x y l p q h = absurd (omega arith)
be_from_le m (a ∷ as') [] x y l p q h = absurd (omega arith)
be_from_le m (a ∷ as') (b ∷ bs) x y l (pa, ps) (qb, qs) h = ground (
  arith,
  bytes_lt_step b a (bs ++ y) (as' ++ x),
  be_from_le (m * 256 + a) as' bs x y,
  be_from_mono (m * 256 + a) (m * 256 + b) as' bs,
)

-- Byte order is the order of the leading big-endian number.
pub get_be_le :
    (as' bs x y : Bytes)
    → length as' ≡ length bs
    → All IsByte as'
    → All IsByte bs
    → bytes_lt (bs ++ y) (as' ++ x) ≡ false
    → get_be as' ≤ get_be bs
unfolding get_be
get_be_le = be_from_le 0

pub bytes_lt_asym : (a b : Bytes) → bytes_lt a b ≡ true → bytes_lt b a ≡ false
bytes_lt_asym a b h = elim (Bool-cases (bytes_lt b a)) [
  | inl e ↦ absurd (cc (bytes_lt_trans a b a h e, bytes_lt_irrefl a))
  | inr e ↦ e
]

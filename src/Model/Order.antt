-- ===== src/Model/Order.antt =====
-- On internal/model/point.go: the byte order of members.
use the_500mb_club_challenge.Prelude.{
  ℕ, ◌^◌, ◌<◌, ◌≡◌, refl, sym, ◌∙◌, ap, true, [], ◌∷◌, ◌++◌, Bytes, take, drop, arith, Bool-cases,
  inl, inr,
}
use the_500mb_club_challenge.Prelude.Int.{to_uint64, to_uint64-lt}
use the_500mb_club_challenge.Golang.Binary.{
  put_be, get_be, get_be-put_be, length-put_be, put_be-All, bytes_lt, bytes_lt_step, get_be_le,
}
use the_500mb_club_challenge.Model.Point.{Point, IsTyped}
use the_500mb_club_challenge.Model.Codec.{
  layout, encode, decode, encode-layout, decode-encode_member, take_seq,
}

bytes_lt_prefix : (c x y : Bytes) → bytes_lt (c ++ x) (c ++ y) ≡ bytes_lt x y
bytes_lt_prefix [] x y = refl
bytes_lt_prefix (a ∷ c) x y =
    ground (arith, bytes_lt_step a a (c ++ x) (c ++ y), bytes_lt_prefix c x y)

bytes_lt_of_be :
    (m n : ℕ) (x y : Bytes)
    → m < n
    → n < 2 ^ 64
    → bytes_lt (put_be 8 m ++ x) (put_be 8 n ++ y) ≡ true
bytes_lt_of_be m n x y h b = elim (Bool-cases (bytes_lt (put_be 8 m ++ x) (put_be 8 n ++ y))) [
  | inl e ↦ e
  | inr e ↦ absurd (
      omega (
        arith,
        get_be_le (put_be 8 n) (put_be 8 m) y x (length-put_be 8 n ∙ sym (length-put_be 8 m))
            (put_be-All 8 n) (put_be-All 8 m) e,
        get_be-put_be 8 m (omega arith),
        get_be-put_be 8 n (omega arith),
      ))
]

-- For 64-bit sequence numbers, of two encoded members the one whose timestamp is lower as an
-- unsigned word comes first in byte order, and of two with one timestamp the one with the lower
-- sequence number.
pub encode_order :
    (p q : Point) (s t : ℕ)
    → s < 2 ^ 64
    → t < 2 ^ 64
    → (to_uint64 p.ts < to_uint64 q.ts → bytes_lt (encode p s) (encode q t) ≡ true)
      × (to_uint64 p.ts ≡ to_uint64 q.ts → s < t → bytes_lt (encode p s) (encode q t) ≡ true)
unfolding layout
encode_order p q s t hs ht = (
  (λ h. rw (encode-layout p s, encode-layout q t) (bytes_lt_of_be _ _ _ _ h (to_uint64-lt q.ts))),
  (λ e h.
      rw (encode-layout p s, encode-layout q t, e, bytes_lt_prefix) (bytes_lt_of_be s t _ _ h ht)),
)

-- If the members of two typed points with 64-bit sequence numbers are equal, the points are equal
-- and so are the sequence numbers.
pub encode_injective :
    (p q : Point) (s t : ℕ)
    → IsTyped p
    → IsTyped q
    → s < 2 ^ 64
    → t < 2 ^ 64
    → encode p s ≡ encode q t
    → (p ≡ q) × (s ≡ t)
encode_injective p q s t hp hq hs ht e = (
  cc (decode-encode_member p s hp, decode-encode_member q t hq, ap decode e),
  omega (
    arith,
    ap (λ b. get_be (take 8 (drop 8 b))) (sym (encode-layout p s) ∙ e ∙ encode-layout q t),
    ap get_be (take_seq p s),
    ap get_be (take_seq q t),
    get_be-put_be 8 s (omega arith),
    get_be-put_be 8 t (omega arith),
  ),
)

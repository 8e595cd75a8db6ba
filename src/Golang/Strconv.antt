-- ===== src/Golang/Strconv.antt =====
-- strconv: `FormatInt(v, 10)`, `Itoa` and `AppendInt`, and `ParseInt(s, 10, 64)` and `Atoi`, which
-- agree where `int` has 64 bits. The program asks only whether a parse failed, so a failure is `none`.
use the_500mb_club_challenge.Prelude.{
  ℕ, zero, suc, ◌+◌, ◌-◌, ◌*◌, ◌/◌, ◌%◌, ◌^◌, ◌<◌, ◌≡◌, refl, ap, Bool, true, false, ◌&&◌, ◌||◌,
  Option, none, some, [], ◌∷◌, ◌++◌, append-nil, append_assoc, arith, ltb, leb, ◌==◌, if◌then◌else◌,
  Bytes, All, All-append, Bool-cases, inl, inr,
}
use the_500mb_club_challenge.Prelude.Int.{ℤ, pos, negsuc, IsInt64}

abbrev pub is_digit : ℕ → Bool
is_digit c = leb b'0' c && leb c b'9'

-- The decimal digits of `n` for `n` below 10 ^ (f + 1), highest first.
unfoldable pub digits : ℕ → ℕ → Bytes
digits zero n = (b'0' + n % 10) ∷ []
digits (suc f) n =
    let more = digits f (n / 10) in
    if ltb n 10 then (b'0' + n) ∷ [] else more ++ (b'0' + n % 10) ∷ []

-- 20 digits hold every magnitude up to 2 ^ 64.
unfoldable pub format_uint : ℕ → Bytes
unfolding digits
format_uint n = digits 19 n

unfoldable pub format_int : ℤ → Bytes
unfolding format_uint
format_int (pos n) = format_uint n
format_int (negsuc n) = b'-' ∷ format_uint (suc n)

-- `ParseUint(s, 10, 64)` on the digits that are left, with the value of those before them.
pub scan_uint : Bytes → ℕ → Option ℕ
scan_uint [] n = some n
scan_uint (c ∷ s) n =
    let rest = scan_uint s (n * 10 + (c - b'0')) in
    if is_digit c then if ltb (n * 10 + (c - b'0')) (2 ^ 64) then rest else none else none

unfoldable pub parse_uint : Bytes → Option ℕ
unfolding scan_uint
parse_uint [] = none
parse_uint (c ∷ s) = scan_uint (c ∷ s) 0

-- The sign is put to the magnitude, which `int64` must hold.
pub with_sign : Bool → Option ℕ → Option ℤ
with_sign neg none = none
with_sign true (some zero) = some (pos 0)
with_sign true (some (suc n)) = if ltb n (2 ^ 63) then some (negsuc n) else none
with_sign false (some n) = if ltb n (2 ^ 63) then some (pos n) else none

unfoldable pub parse_int : Bytes → Option ℤ
unfolding with_sign
parse_int [] = none
parse_int (c ∷ s) =
    if c == b'+'
    then with_sign false (parse_uint s)
    else if c == b'-'
    then with_sign true (parse_uint s)
    else with_sign false (parse_uint (c ∷ s))

scan_uint_digit :
    (d n : ℕ) (s : Bytes)
    → d < 10
    → n * 10 + d < 2 ^ 64
    → scan_uint ((b'0' + d) ∷ s) n ≡ scan_uint s (n * 10 + d)
unfolding scan_uint
scan_uint_digit d n s hd h = ground arith

scan_uint-digits :
    (f n : ℕ) (s : Bytes)
    → n < 10 ^ suc f
    → n < 2 ^ 64
    → scan_uint (digits f n ++ s) 0 ≡ scan_uint s n
unfolding digits
scan_uint-digits zero n s h b = ground (arith, scan_uint_digit (n % 10) 0 s)
scan_uint-digits (suc f) n s h b = elim (Bool-cases (ltb n 10)) [
  | inl e ↦ rw e (ground (arith, scan_uint_digit n 0 s))
  | inr e ↦
      rw (e, append_assoc)
        (ground (
          arith,
          scan_uint-digits f (n / 10) ((b'0' + n % 10) ∷ s),
          scan_uint_digit (n % 10) (n / 10) s,
        ))
]

digits-cons : (f n : ℕ) → (c : ℕ) × (s : Bytes) × (digits f n ≡ c ∷ s) × (is_digit c ≡ true)
unfolding digits
digits-cons zero n = (b'0' + n % 10, [], refl, ground arith)
digits-cons (suc f) n = elim (Bool-cases (ltb n 10)) [
  | inl e ↦ rw e (b'0' + n, [], refl, ground arith)
  | inr e ↦
      let (c, s, q, d) = digits-cons f (n / 10) in
      rw e (c, s ++ (b'0' + n % 10) ∷ [], ap (λ t. t ++ (b'0' + n % 10) ∷ []) q, d)
]

pub digits-All : (f n : ℕ) → All (λ c. is_digit c ≡ true) (digits f n)
unfolding digits
digits-All zero n = (ground arith, tt)
digits-All (suc f) n = elim (Bool-cases (ltb n 10)) [
  | inl e ↦ rw e (ground arith, tt)
  | inr e ↦ rw e (All-append _ (digits f (n / 10)) _ (digits-All f (n / 10)) (ground arith, tt))
]

pub parse_uint-format_uint : (n : ℕ) → n < 2 ^ 64 → parse_uint (format_uint n) ≡ some n
unfolding format_uint parse_uint
parse_uint-format_uint n h =
    let (c, s, q, d) = digits-cons 19 n in
    let scanned : scan_uint (digits 19 n) 0 ≡ some n =
      rw (append-nil) at (scan_uint-digits 19 n [] (omega arith) h) in
    rw q (rw q at scanned)

format_uint-cons : (n : ℕ) → (c : ℕ) × (s : Bytes) × (format_uint n ≡ c ∷ s) × (is_digit c ≡ true)
unfolding format_uint
format_uint-cons n = digits-cons 19 n

parse_int_unsigned :
    (c : ℕ) (s : Bytes) (n : ℕ)
    → is_digit c ≡ true
    → parse_uint (c ∷ s) ≡ some n
    → n < 2 ^ 63
    → parse_int (c ∷ s) ≡ some (pos n)
unfolding parse_int
parse_int_unsigned c s n d e h = ground arith

-- Every `int64` is read back from its decimal print.
pub parse_int-format_int : (v : ℤ) → IsInt64 v → parse_int (format_int v) ≡ some v
unfolding parse_int format_int
parse_int-format_int (pos n) h =
    let (c, s, q, d) = format_uint-cons n in
    let read : parse_uint (c ∷ s) ≡ some n = rw q at (parse_uint-format_uint n (omega arith)) in
    rw q (parse_int_unsigned c s n d read (omega arith))
parse_int-format_int (negsuc n) h = ground (arith, parse_uint-format_uint (suc n))

-- The bytes of a printed integer.
abbrev pub is_numeral : ℕ → Bool
is_numeral c = is_digit c || c == b'-'

digit-All : (s : Bytes) → All (λ c. is_digit c ≡ true) s → All (λ c. is_numeral c ≡ true) s
digit-All [] h = tt
digit-All (c ∷ s) (hc, hs) = (rw hc, digit-All s hs)

pub format_int-All : (v : ℤ) → All (λ c. is_numeral c ≡ true) (format_int v)
unfolding format_int
format_int-All (pos n) = digit-All (digits 19 n) (digits-All 19 n)
format_int-All (negsuc n) = (refl, digit-All (digits 19 (suc n)) (digits-All 19 (suc n)))

with_sign-IsInt64 : (b : Bool) (o : Option ℕ) {v : ℤ} → with_sign b o ≡ some v → IsInt64 v
unfolding with_sign
with_sign-IsInt64 true none h = cc
with_sign-IsInt64 true (some zero) h = ground arith
with_sign-IsInt64 true (some (suc n)) h = ground arith
with_sign-IsInt64 false none h = cc
with_sign-IsInt64 false (some n) h = ground arith

-- What `parse_int` returns fits an `int64`.
pub parse_int-IsInt64 : (s : Bytes) {v : ℤ} → parse_int s ≡ some v → IsInt64 v
unfolding parse_int
parse_int-IsInt64 [] h = cc
parse_int-IsInt64 (c ∷ s) {v} h = elim (Bool-cases (c == b'+')) [
  | inl e ↦ with_sign-IsInt64 false (parse_uint s) (rw e at h)
  | inr e ↦ elim (Bool-cases (c == b'-')) [
    | inl d ↦ with_sign-IsInt64 true (parse_uint s) (rw (e, d) at h)
    | inr d ↦ with_sign-IsInt64 false (parse_uint (c ∷ s)) (rw (e, d) at h)
  ]
]

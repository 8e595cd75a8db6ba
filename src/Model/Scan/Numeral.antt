-- ===== src/Model/Scan/Numeral.antt =====
-- On internal/model/fastjson.go: printed integers as number literals.
use the_500mb_club_challenge.Prelude.{
  ℕ, zero, suc, ◌+◌, ◌≤◌, ◌<◌, ◌^◌, ◌%◌, ◌/◌, ltb, ◌≡◌, refl, ap, true, false, some, [], ◌∷◌, ◌++◌,
  append-nil, ◌==◌, Bytes, Bool-cases, inl, inr, arith, All,
}
use the_500mb_club_challenge.Prelude.Int.{negsuc, ◌<ℤ◌, ℤ, pos}
use the_500mb_club_challenge.Golang.Strconv.{is_digit, digits, digits-All, format_int}
use the_500mb_club_challenge.Golang.ParseFloat.{span_digits}
use the_500mb_club_challenge.Model.Scan.{
  scan_number_literal, sign_part, integer_part, fraction_part, exponent_part, digits1,
}

span_digits-All : (s : Bytes) → All (λ c. is_digit c ≡ true) s → span_digits s ≡ (s, [])
unfolding span_digits
span_digits-All [] h = refl
span_digits-All (c ∷ s) (h, hs) = rw (span_digits, h, span_digits-All s hs) refl

-- The first digit of a number above 0 is not 0.
digits_head :
    (f n : ℕ)
    → 1 ≤ n
    → n < 10 ^ suc f
    → (c : ℕ) × (s : Bytes) × (digits f n ≡ c ∷ s) × (is_digit c ≡ true) × ((c == b'0') ≡ false)
unfolding digits
digits_head zero n l h = (b'0' + n % 10, [], refl, ground arith, ground (arith, l, h))
digits_head (suc f) n l h = elim (Bool-cases (ltb n 10)) [
  | inl e ↦ rw e (b'0' + n, [], refl, ground arith, ground (arith, l))
  | inr e ↦
      let (c, s, q, d, z) = digits_head f (n / 10) (ground (arith, e)) (omega (arith, h)) in
      rw e (c, s ++ (b'0' + n % 10) ∷ [], ap (λ t. t ++ (b'0' + n % 10) ∷ []) q, d, z)
]

unsigned_literal :
    (c : ℕ) (s : Bytes)
    → All (λ d. is_digit d ≡ true) (c ∷ s)
    → (c == b'0') ≡ false
    → scan_number_literal (c ∷ s) ≡ some (c ∷ s, [])
unfolding scan_number_literal sign_part integer_part fraction_part exponent_part digits1
unsigned_literal c s h z =
    let minus : (c == b'-') ≡ false = ground (arith, h.0) in
    rw (scan_number_literal, minus, z, h.0, span_digits-All s h.1)
      (ap (λ t. some (c ∷ t, [])) (append-nil s))

-- A printed number above 0 is a literal.
pub scan_number_literal-format_int :
    (n : ℕ)
    → 1 ≤ n
    → n < 2 ^ 64
    → scan_number_literal (format_int (pos n)) ≡ some (format_int (pos n), [])
unfolding format_int
scan_number_literal-format_int n l h =
    let (c, s, q, d, z) = digits_head 19 n l (omega (arith, h)) in
    let all : All (λ x. is_digit x ≡ true) (digits 19 n) = digits-All 19 n in
    rw q (unsigned_literal c s (rw q at all) z)

-- A positive int64 as a native number.
pub positive_cases :
    (t : ℤ) → pos 0 <ℤ t → t <ℤ pos (2 ^ 63) → (n : ℕ) × (t ≡ pos n) × (1 ≤ n) × (n < 2 ^ 63)
positive_cases (pos n) h k = (n, refl, omega (arith, h), omega (arith, k))
positive_cases (negsuc n) h k = absurd (omega (arith, h))

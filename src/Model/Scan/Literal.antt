-- ===== src/Model/Scan/Literal.antt =====
-- On internal/model/fastjson.go: what a number literal takes from the text.
use the_500mb_club_challenge.Prelude.{
  ℕ, ◌≡◌, refl, ap, ◌∙◌, ◌||◌, Option, none, some, [], ◌∷◌, ◌++◌, append_assoc, ◌==◌, Bytes,
  Bool-cases, Option-cases, inl, inr,
}
use the_500mb_club_challenge.Golang.Strconv.{is_digit}
use the_500mb_club_challenge.Golang.ParseFloat.{span_digits}
use the_500mb_club_challenge.Model.Scan.{
  prepend, digits1, sign_part, integer_part, fraction_part, exponent_sign, signed_exponent,
  exponent_part, scan_number_literal,
}

-- A part of the text and what follows it.
abbrev IsSplit : Bytes → Option (Bytes × Bytes) → Type 0
IsSplit s none = Unit {0}
IsSplit s (some (a, r)) = a ++ r ≡ s

span_digits-append : (s : Bytes) → (span_digits s).0 ++ (span_digits s).1 ≡ s
unfolding span_digits
span_digits-append [] = refl
span_digits-append (c ∷ s) = elim (Bool-cases (is_digit c)) [
  | inl e ↦ rw (span_digits, e) (ap (λ t. c ∷ t) (span_digits-append s))
  | inr e ↦ rw (span_digits, e) refl
]

prepend-IsSplit :
    (c : ℕ) (s : Bytes) (o : Option (Bytes × Bytes)) → IsSplit s o → IsSplit (c ∷ s) (prepend c o)
unfolding prepend
prepend-IsSplit c s none h = tt
prepend-IsSplit c s (some (a, r)) h = ap (λ t. c ∷ t) h

digits1-IsSplit : (s : Bytes) → IsSplit s (digits1 s)
unfolding digits1
digits1-IsSplit [] = tt
digits1-IsSplit (c ∷ s) = elim (Bool-cases (is_digit c)) [
  | inl e ↦ rw (digits1, e) (ap (λ t. c ∷ t) (span_digits-append s))
  | inr e ↦ rw (digits1, e) tt
]

sign_part-append : (s : Bytes) → (sign_part s).0 ++ (sign_part s).1 ≡ s
unfolding sign_part
sign_part-append [] = refl
sign_part-append (c ∷ s) = elim (Bool-cases (c == b'-')) [
  | inl e ↦ rw (sign_part, e) refl
  | inr e ↦ rw (sign_part, e) refl
]

integer_part-IsSplit : (s : Bytes) → IsSplit s (integer_part s)
unfolding integer_part
integer_part-IsSplit [] = tt
integer_part-IsSplit (c ∷ s) = elim (Bool-cases (c == b'0')) [
  | inl e ↦ rw (integer_part, e) refl
  | inr e ↦ rw (integer_part, e) (digits1-IsSplit (c ∷ s))
]

fraction_part-IsSplit : (s : Bytes) → IsSplit s (fraction_part s)
unfolding fraction_part
fraction_part-IsSplit [] = refl
fraction_part-IsSplit (c ∷ s) = elim (Bool-cases (c == b'.')) [
  | inl e ↦ rw (fraction_part, e) (prepend-IsSplit c s (digits1 s) (digits1-IsSplit s))
  | inr e ↦ rw (fraction_part, e) refl
]

exponent_sign-append : (s : Bytes) → (exponent_sign s).0 ++ (exponent_sign s).1 ≡ s
unfolding exponent_sign
exponent_sign-append [] = refl
exponent_sign-append (c ∷ s) = elim (Bool-cases (c == b'+' || c == b'-')) [
  | inl e ↦ rw (exponent_sign, e) refl
  | inr e ↦ rw (exponent_sign, e) refl
]

signed_exponent-IsSplit :
    (e : ℕ) (sign s : Bytes) → IsSplit (e ∷ (sign ++ s)) (signed_exponent e (sign, s))
unfolding signed_exponent
signed_exponent-IsSplit e sign s = elim (Option-cases (digits1 s)) [
  | inl q ↦ rw (signed_exponent, q) tt
  | inr ((ds, rest), q) ↦
      let parts : ds ++ rest ≡ s = rw q at (digits1-IsSplit s) in
      rw (signed_exponent, q)
        (ap (λ t. e ∷ t) (append_assoc sign ds rest ∙ ap (λ t. sign ++ t) parts))
]

exponent_part-IsSplit : (s : Bytes) → IsSplit s (exponent_part s)
unfolding exponent_part
exponent_part-IsSplit [] = refl
exponent_part-IsSplit (c ∷ s) = elim (Bool-cases (c == b'e' || c == b'E')) [
  | inl e ↦
      let whole = signed_exponent-IsSplit c (exponent_sign s).0 (exponent_sign s).1 in
      rw (exponent_part, e) (rw exponent_sign-append at whole)
  | inr e ↦ rw (exponent_part, e) refl
]

join_parts : (a b c d e : Bytes) → (a ++ (b ++ (c ++ d))) ++ e ≡ a ++ (b ++ (c ++ (d ++ e)))
join_parts a b c d e =
    rw (append_assoc a (b ++ (c ++ d)) e, append_assoc b (c ++ d) e, append_assoc c d e) refl

-- When a number literal is scanned, the literal and the rest joined are the text: the scanner
-- takes exactly the bytes of the literal.
pub scan_number_literal-append :
    (s lit rest : Bytes) → scan_number_literal s ≡ some (lit, rest) → lit ++ rest ≡ s
unfolding scan_number_literal
scan_number_literal-append s lit rest h = elim (Option-cases (integer_part (sign_part s).1)) [
  | inl q ↦ absurd (cc (rw (scan_number_literal, q) at h))
  | inr ((int, s2), q) ↦ elim (Option-cases (fraction_part s2)) [
    | inl k ↦ absurd (cc (rw (scan_number_literal, q, k) at h))
    | inr ((frac, s3), k) ↦ elim (Option-cases (exponent_part s3)) [
      | inl m ↦ absurd (cc (rw (scan_number_literal, q, k, m) at h))
      | inr ((exp, s4), m) ↦
          let sign : Bytes = (sign_part s).0 in
          let found : some (sign ++ (int ++ (frac ++ exp)), s4) ≡ some (lit, rest) =
            rw (scan_number_literal, q, k, m) at h in
          let same : sign ++ (int ++ (frac ++ exp)) ≡ lit = cc found in
          let left : s4 ≡ rest = cc found in
          let p2 : int ++ s2 ≡ (sign_part s).1 = rw q at (integer_part-IsSplit (sign_part s).1) in
          let p3 : frac ++ s3 ≡ s2 = rw k at (fraction_part-IsSplit s2) in
          let p4 : exp ++ s4 ≡ s3 = rw m at (exponent_part-IsSplit s3) in
          rw (← same, ← left, join_parts, p4, p3, p2) (sign_part-append s)
    ]
  ]
]

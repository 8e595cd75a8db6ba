-- ===== src/Model/Scan/Stop.antt =====
-- On internal/model/fastjson.go: number literals in front of what ends a member.
use the_500mb_club_challenge.Prelude.{
  ℕ, ◌≡◌, refl, ◌||◌, false, Option, none, some, [], ◌∷◌, ◌++◌, ◌==◌, Bytes, Bool-cases,
  Option-cases, inl, inr,
}
use the_500mb_club_challenge.Golang.Strconv.{is_digit}
use the_500mb_club_challenge.Golang.ParseFloat.{span_digits}
use the_500mb_club_challenge.Model.Scan.{
  prepend, digits1, sign_part, integer_part, fraction_part, exponent_sign, signed_exponent,
  exponent_part, scan_number_literal,
}

-- A byte that goes on with no number.
pub record IsStop (c : ℕ) : Type 0 where
  pub digit : is_digit c ≡ false
  pub point : (c == b'.') ≡ false
  pub exponent : (c == b'e' || c == b'E') ≡ false

-- What a part leaves of a text `s`, it leaves of a longer one with the rest behind it.
abbrev IsLocal : (Bytes → Option (Bytes × Bytes)) → Bytes → Bytes → Type 0
IsLocal part s more = (a r : Bytes) → part s ≡ some (a, r) → part (s ++ more) ≡ some (a, r ++ more)

module _ (c : ℕ) (rest : Bytes) (stop : IsStop c) where
  span_digits-stop :
      (s : Bytes) → span_digits (s ++ c ∷ rest) ≡ ((span_digits s).0, (span_digits s).1 ++ c ∷ rest)
  unfolding span_digits
  span_digits-stop [] = rw (span_digits, stop.digit) refl
  span_digits-stop (d ∷ s) = elim (Bool-cases (is_digit d)) [
    | inl e ↦ rw (span_digits, e, span_digits-stop s) refl
    | inr e ↦ rw (span_digits, e) refl
  ]

  digits1-IsLocal : (s : Bytes) → IsLocal digits1 s (c ∷ rest)
  unfolding digits1
  digits1-IsLocal [] a r h = absurd (cc h)
  digits1-IsLocal (d ∷ s) a r h = elim (Bool-cases (is_digit d)) [
    | inl e ↦ let whole = rw (digits1, e) at h in rw (digits1, e, span_digits-stop s) (cc whole)
    | inr e ↦ absurd (cc (rw (digits1, e) at h))
  ]

  prepend-IsLocal :
      (d : ℕ) (a r : Bytes) (o o' : Option (Bytes × Bytes))
      → ((x y : Bytes) → o ≡ some (x, y) → o' ≡ some (x, y ++ c ∷ rest))
      → prepend d o ≡ some (a, r)
      → prepend d o' ≡ some (a, r ++ c ∷ rest)
  unfolding prepend
  prepend-IsLocal d a r none o' h e = absurd (cc e)
  prepend-IsLocal d a r (some (x, y)) o' h e = rw (h x y refl) (cc e)

  integer_part-IsLocal : (s : Bytes) → IsLocal integer_part s (c ∷ rest)
  unfolding integer_part
  integer_part-IsLocal [] a r h = absurd (cc h)
  integer_part-IsLocal (d ∷ s) a r h = elim (Bool-cases (d == b'0')) [
    | inl e ↦ let whole = rw (integer_part, e) at h in rw (integer_part, e) (cc whole)
    | inr e ↦ rw (integer_part, e) (digits1-IsLocal (d ∷ s) a r (rw (integer_part, e) at h))
  ]

  fraction_part-IsLocal : (s : Bytes) → IsLocal fraction_part s (c ∷ rest)
  unfolding fraction_part
  fraction_part-IsLocal [] a r h = rw (fraction_part, stop.point) (cc h)
  fraction_part-IsLocal (d ∷ s) a r h = elim (Bool-cases (d == b'.')) [
    | inl e ↦
        rw (fraction_part, e)
          (prepend-IsLocal d a r (digits1 s) (digits1 (s ++ c ∷ rest)) (digits1-IsLocal s)
            (rw (fraction_part, e) at h))
    | inr e ↦ let whole = rw (fraction_part, e) at h in rw (fraction_part, e) (cc whole)
  ]

  signed_exponent-IsLocal :
      (e : ℕ) (sign s a r : Bytes)
      → signed_exponent e (sign, s) ≡ some (a, r)
      → signed_exponent e (sign, s ++ c ∷ rest) ≡ some (a, r ++ c ∷ rest)
  unfolding signed_exponent
  signed_exponent-IsLocal e sign s a r h = elim (Option-cases (digits1 s)) [
    | inl q ↦ absurd (cc (rw (signed_exponent, q) at h))
    | inr ((ds, y), q) ↦
        let whole = rw (signed_exponent, q) at h in
        rw (signed_exponent, digits1-IsLocal s ds y q) (cc whole)
  ]

  exponent_part-IsLocal : (s : Bytes) → IsLocal exponent_part s (c ∷ rest)
  unfolding exponent_part exponent_sign
  exponent_part-IsLocal [] a r h = rw (exponent_part, stop.exponent) (cc h)
  exponent_part-IsLocal (d ∷ []) a r h = elim (Bool-cases (d == b'e' || d == b'E')) [
    | inl e ↦ absurd (cc (rw (exponent_part, e) at h))
    | inr e ↦ let whole = rw (exponent_part, e) at h in rw (exponent_part, e) (cc whole)
  ]
  exponent_part-IsLocal (d ∷ f ∷ s) a r h = elim (Bool-cases (d == b'e' || d == b'E')) [
    | inr e ↦ let whole = rw (exponent_part, e) at h in rw (exponent_part, e) (cc whole)
    | inl e ↦ elim (Bool-cases (f == b'+' || f == b'-')) [
      | inl g ↦
          rw (exponent_part, e, exponent_sign, g)
            (signed_exponent-IsLocal d (f ∷ []) s a r
              (rw (exponent_part, e, exponent_sign, g) at h))
      | inr g ↦
          rw (exponent_part, e, exponent_sign, g)
            (signed_exponent-IsLocal d [] (f ∷ s) a r
              (rw (exponent_part, e, exponent_sign, g) at h))
    ]
  ]

  sign_part-stop :
      (d : ℕ) (s : Bytes)
      → sign_part (d ∷ (s ++ c ∷ rest)) ≡ ((sign_part (d ∷ s)).0, (sign_part (d ∷ s)).1 ++ c ∷ rest)
  unfolding sign_part
  sign_part-stop d s = elim (Bool-cases (d == b'-')) [
    | inl e ↦ rw (sign_part, e) refl
    | inr e ↦ rw (sign_part, e) refl
  ]

  -- A literal is scanned alike in front of a stop.
  pub scan_number_literal-IsLocal : (s : Bytes) → IsLocal scan_number_literal s (c ∷ rest)
  unfolding scan_number_literal
  scan_number_literal-IsLocal [] a r h = absurd (cc h)
  scan_number_literal-IsLocal (d ∷ s) a r h =
      elim (Option-cases (integer_part (sign_part (d ∷ s)).1)) [
        | inl q ↦ absurd (cc (rw (scan_number_literal, q) at h))
        | inr ((int, s2), q) ↦ elim (Option-cases (fraction_part s2)) [
          | inl k ↦ absurd (cc (rw (scan_number_literal, q, k) at h))
          | inr ((frac, s3), k) ↦ elim (Option-cases (exponent_part s3)) [
            | inl m ↦ absurd (cc (rw (scan_number_literal, q, k, m) at h))
            | inr ((exp, s4), m) ↦
                let whole = rw (scan_number_literal, q, k, m) at h in
                rw
                  (
                    scan_number_literal,
                    sign_part-stop d s,
                    integer_part-IsLocal (sign_part (d ∷ s)).1 int s2 q,
                    fraction_part-IsLocal s2 frac s3 k,
                    exponent_part-IsLocal s3 exp s4 m,
                  )
                  (cc whole)
          ]
        ]
      ]

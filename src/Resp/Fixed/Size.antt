-- ===== src/Resp/Fixed/Size.antt =====
-- The size of what the fast array reader returns.
use the_500mb_club_challenge.Prelude.{
  ℕ, zero, suc, ◌-◌, ◌*◌, ◌%◌, ◌^◌, ◌≡◌, refl, ap, if◌then◌else◌, leb, ltb, ◌==◌, Bytes, Result, ok,
  err, panic, length, length-append, length-take, take, drop, arith, Bool-cases, inl, inr,
}
use mathlib.Core.Path.{subst}
use the_500mb_club_challenge.Prelude.Int.{ℤ, pos, negsuc, to_int64, eqb_ℤ}
use the_500mb_club_challenge.Resp.{
  Error, expected_bulk, member_size, max_alloc, require, ◌>>=◌, read_byte, read_full, read_line,
}
use the_500mb_club_challenge.Resp.Fixed.{
  parse_int_line, read_members, read_backing, read_fixed_body, read_fixed_bulk_array,
}

-- The postcondition `P` of a result, if there is one.
abbrev Yields : (A : Type 0) → (A → Type 0) → Result Error A → Type 0
Yields A P (ok a) = P a
Yields A P (err e) = Unit
Yields A P panic = Unit

Yields-bind :
    (A B : Type 0) (P : B → Type 0) (r : Result Error A) (f : A → Result Error B)
    → ((a : A) → r ≡ ok a → Yields B P (f a))
    → Yields B P (r >>= f)
Yields-bind A B P (ok a) f h = h a refl
Yields-bind A B P (err e) f h = tt
Yields-bind A B P panic f h = tt

read_full-length : (n : ℕ) (s : Bytes) {a t : Bytes} → read_full n s ≡ ok (a, t) → length a ≡ n
unfolding read_full
read_full-length n s {a} {t} h = elim (Bool-cases (leb n (length s))) [
  | inl e ↦
      let same : ◌≡◌ {A = Result Error (Bytes × Bytes)} (ok (take n s, drop n s)) (ok (a, t)) =
        rw e at h in
      let first : take n s ≡ a = cc same in ground (arith, length-take n s, ap length first)
  | inr e ↦ absurd (cc (rw e at h))
]

read_members-Yields :
    (size count room : ℕ) (s : Bytes)
    → Yields (Bytes × Bytes) (λ r. length r.0 ≡ count * size) (read_members size count room s)
unfolding read_members
read_members-Yields size zero room s = omega arith
read_members-Yields size (suc count) room s =
    Yields-bind (ℕ × Bytes) (Bytes × Bytes) _ (read_byte s) _ λ (bp, s1) _.
      Yields-bind (Unit {0}) (Bytes × Bytes) _ (require (bp == b'$') expected_bulk) _ λ _ _.
        Yields-bind (ℤ × Bytes) (Bytes × Bytes) _ (parse_int_line s1) _ λ (ln, s2) _.
          Yields-bind (Unit {0}) (Bytes × Bytes) _ (require (eqb_ℤ ln (pos size)) member_size) _
            λ _ _.
              Yields-bind (Unit {0}) (Bytes × Bytes) _ (if ltb room size then panic else ok tt) _
                λ _ _.
                  Yields-bind (Bytes × Bytes) (Bytes × Bytes) _ (read_full size s2) _ λ (m, s3) e.
                    Yields-bind (Bytes × Bytes) (Bytes × Bytes) _ (read_full 2 s3) _
                      λ (skipped, s4) _.
                        Yields-bind (Bytes × Bytes) (Bytes × Bytes) _
                          (read_members size count (room - size) s4) _
                          λ (ms, s5) d. omega (
                            arith,
                            length-append m ms,
                            read_full-length size s2 e,
                            subst (Yields (Bytes × Bytes) (λ r. length r.0 ≡ count * size)) d
                                (read_members-Yields size count (room - size) s4),
                          )

read_fixed_body-Yields :
    (size : ℕ) (v : ℤ) (s : Bytes)
    → Yields ((Bytes × ℕ) × Bytes) (λ r. length r.0.0 ≡ r.0.1 * size) (read_fixed_body size v s)
unfolding read_fixed_body read_backing
read_fixed_body-Yields size (negsuc k) s = omega arith
read_fixed_body-Yields size (pos zero) s = omega arith
read_fixed_body-Yields size (pos (suc n)) s = backing (to_int64 (suc n * size % 2 ^ 64))
  where
    backing :
        (v : ℤ)
        → Yields
            ((Bytes × ℕ) × Bytes)
            (λ r. length r.0.0 ≡ r.0.1 * size)
            (read_backing (suc n) v size s)
    backing (negsuc k) = tt
    backing (pos room) = elim (Bool-cases (ltb max_alloc room)) [
      | inl e ↦ rw e tt
      | inr e ↦ rw e (
          Yields-bind (Bytes × Bytes) ((Bytes × ℕ) × Bytes) _ (read_members size (suc n) room s) _
            λ a d.
              subst (Yields (Bytes × Bytes) (λ r. length r.0 ≡ suc n * size)) d
                (read_members-Yields size (suc n) room s))
    ]

read_fixed-Yields :
    (size : ℕ) (s : Bytes)
    → Yields ((Bytes × ℕ) × Bytes) (λ r. length r.0.0 ≡ r.0.1 * size) (read_fixed_bulk_array size s)
unfolding read_fixed_bulk_array
read_fixed-Yields size s =
    Yields-bind (ℕ × Bytes) ((Bytes × ℕ) × Bytes) _ (read_byte s) _ λ (prefix, s1) _.
      elim (Bool-cases (prefix == b'-')) [
        | inl e ↦
            rw e (Yields-bind (Bytes × Bytes) ((Bytes × ℕ) × Bytes) _ (read_line s1) _ (λ r _. tt))
        | inr e ↦ rw e (elim (Bool-cases (prefix == b'*')) [
          | inl d ↦ rw d (
              Yields-bind (ℤ × Bytes) ((Bytes × ℕ) × Bytes) _ (parse_int_line s1) _
                λ (n, s2) _. read_fixed_body-Yields size n s2)
          | inr d ↦ rw d tt
        ])
      ]

-- When ReadFixedBulkArray succeeds, the number of bytes it returns is the number of members times
-- their size.
pub read_fixed-length :
    (size : ℕ) (s : Bytes) {b t : Bytes} {n : ℕ}
    → read_fixed_bulk_array size s ≡ ok ((b, n), t)
    → length b ≡ n * size
read_fixed-length size s e =
    subst (Yields ((Bytes × ℕ) × Bytes) (λ r. length r.0.0 ≡ r.0.1 * size)) e
      (read_fixed-Yields size s)

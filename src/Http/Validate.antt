-- ===== src/Http/Validate.antt =====
-- internal/httpapi/validate.go and the checks of query.go: device ids, timestamps and limits.
use the_500mb_club_challenge.Prelude.{
  ℕ, ◌≤◌, ◌≡◌, refl, Bool, true, false, ◌&&◌, ◌||◌, Option, none, some, [], ◌∷◌, ltb, leb, ◌==◌,
  if◌then◌else◌, Bytes, length, All, Bool-cases, inl, inr, ◌↔◌, arith,
}
use the_500mb_club_challenge.Prelude.Int.{ℤ, pos, negsuc}
use the_500mb_club_challenge.Golang.Strconv.{parse_int}

abbrev between : ℕ → ℕ → ℕ → Bool
between lo hi c = leb lo c && leb c hi

-- The cases of the `switch`.
unfoldable pub id_char : ℕ → Bool
id_char c =
    between b'a' b'z' c || between b'A' b'Z' c || between b'0' b'9' c || (c == b'_') || (c == b'-')

unfoldable pub id_chars : Bytes → Bool
id_chars [] = true
id_chars (c ∷ s) = if id_char c then id_chars s else false

unfoldable pub valid_id : Bytes → Bool
unfolding id_chars
valid_id id = if (length id == 0) || ltb 64 (length id) then false else id_chars id

-- The empty string stands for a missing parameter.
unfoldable pub parse_int64 : Bytes → Option ℤ
parse_int64 [] = none
parse_int64 (c ∷ s) = parse_int (c ∷ s)

abbrev pub default_limit : ℕ
default_limit = 100

abbrev pub max_limit : ℕ
max_limit = 500

check_limit : Option ℤ → Option ℕ
check_limit none = none
check_limit (some (negsuc n)) = none
check_limit (some (pos n)) = if ltb n 1 || ltb max_limit n then none else some n

-- The `limit` parameter. `strconv.Atoi` is `ParseInt` with base 10 for a 64-bit `int`.
unfoldable pub parse_limit : Bytes → Option ℕ
unfolding check_limit
parse_limit [] = some default_limit
parse_limit (c ∷ s) = check_limit (parse_int (c ∷ s))

id_chars_lem : (s : Bytes) → (id_chars s ≡ true) ↔ All (λ c. id_char c ≡ true) s
unfolding id_chars
id_chars_lem [] = ((λ h. tt), λ h. refl)
id_chars_lem (c ∷ s) = elim (Bool-cases (id_char c)) [
  | inl e ↦ (
    (λ h. (e, (id_chars_lem s).0 (rw (id_chars, e) at h))),
    λ h. rw (id_chars, e) ((id_chars_lem s).1 h.1),
  )
  | inr e ↦ ((λ h. absurd (cc (rw (id_chars, e) at h))), λ h. absurd (cc (e, h.0)))
]

-- validID accepts exactly the strings of 1 to 64 bytes whose bytes all are among those of the
-- switch.
pub valid_id_iff :
    (id : Bytes)
    → (valid_id id ≡ true) ↔ ((1 ≤ length id) × (length id ≤ 64) × All (λ c. id_char c ≡ true) id)
unfolding valid_id
valid_id_iff id = elim (Bool-cases ((length id == 0) || ltb 64 (length id))) [
  | inl e ↦ ((λ h. absurd (cc (rw (valid_id, e) at h))), λ h. absurd (ground (arith, e, h.0, h.1)))
  | inr e ↦ (
    (λ h. (ground (arith, e), ground (arith, e), (id_chars_lem id).0 (rw (valid_id, e) at h))),
    λ h. rw (valid_id, e) ((id_chars_lem id).1 h.2),
  )
]

check_limit_range : (o : Option ℤ) {n : ℕ} → check_limit o ≡ some n → (1 ≤ n) × (n ≤ max_limit)
unfolding check_limit
check_limit_range none h = cc
check_limit_range (some (negsuc k)) h = cc
check_limit_range (some (pos k)) h = ground arith

-- An accepted limit is from 1 to 500.
pub parse_limit_range : (s : Bytes) {n : ℕ} → parse_limit s ≡ some n → (1 ≤ n) × (n ≤ max_limit)
unfolding parse_limit
parse_limit_range [] h = ground arith
parse_limit_range (c ∷ s) h = check_limit_range (parse_int (c ∷ s)) h

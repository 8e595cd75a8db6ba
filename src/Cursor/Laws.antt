-- ===== src/Cursor/Laws.antt =====
-- On internal/cursor/cursor.go: what `decode` makes of a cursor.
use the_500mb_club_challenge.Prelude.{
  ℕ, ◌^◌, ◌<◌, ◌≡◌, ◌≢◌, ◌⊎◌, refl, true, err, Option, none, some, [], ◌∷◌, ◌++◌, Bytes, Result, ok,
  All, All-append, IsByte, arith, inl, inr, Option-cases,
}
use the_500mb_club_challenge.Prelude.Int.{ℤ, pos, negsuc, IsInt64}
use the_500mb_club_challenge.Golang.Base64
use the_500mb_club_challenge.Golang.Strconv.{
  format_int, parse_int, format_int-All, is_numeral, parse_int-format_int, parse_int-IsInt64,
}
use the_500mb_club_challenge.Cursor.{
  Error, invalid, encode, decode, split_colon, parse_parts, check_skip, parse_raw,
}

numeral-IsByte : (s : Bytes) → All (λ c. is_numeral c ≡ true) s → All IsByte s
numeral-IsByte [] h = tt
numeral-IsByte (c ∷ s) (hc, hs) = (ground arith, numeral-IsByte s hs)

split_colon-append :
    (a b : Bytes) → All (λ c. is_numeral c ≡ true) a → split_colon (a ++ b':' ∷ b) ≡ some (a, b)
unfolding split_colon
split_colon-append [] b h = refl
split_colon-append (c ∷ a) b (hc, ha) = ground (arith, split_colon-append a b ha)

encode-cons : (s : Bytes) → s ≢ [] → (c : ℕ) × (t : Bytes) × (Base64.encode s ≡ c ∷ t)
unfolding Base64.encode
encode-cons [] h = absurd (h refl)
encode-cons (a ∷ []) h = (_, _, refl)
encode-cons (a ∷ b ∷ []) h = (_, _, refl)
encode-cons (a ∷ b ∷ c ∷ r) h = (_, _, refl)

decode-cons : (c : ℕ) (t : Bytes) → decode (c ∷ t) ≡ parse_raw (Base64.decode (c ∷ t))
unfolding decode
decode-cons c t = refl

append-ne-nil : (a : Bytes) (c : ℕ) (b : Bytes) → a ++ c ∷ b ≢ []
append-ne-nil [] c b e = cc
append-ne-nil (x ∷ a) c b e = cc

parse_raw_lem :
    (raw : Bytes) (ts : ℤ) (skip : ℕ)
    → IsInt64 ts
    → skip < 2 ^ 63
    → split_colon raw ≡ some (format_int ts, format_int (pos skip))
    → parse_raw (some raw) ≡ ok (ts, skip)
unfolding parse_raw
parse_raw_lem raw ts skip ht hs cut = rw (
  cut,
  parse_raw,
  parse_int-format_int ts ht,
  parse_int-format_int (pos skip) (hs, omega arith),
  parse_parts,
)

-- Decode reads back the timestamp and the skip of the cursor that Encode made of them, if the
-- timestamp is an int64 and the skip is not negative and fits int.
pub decode-encode :
    (ts : ℤ) (skip : ℕ) → IsInt64 ts → skip < 2 ^ 63 → decode (encode ts (pos skip)) ≡ ok (ts, skip)
unfolding encode
decode-encode ts skip ht hs =
    let raw : Bytes = format_int ts ++ b':' ∷ format_int (pos skip) in
    let bytes : All IsByte raw =
      All-append IsByte (format_int ts) _ (numeral-IsByte _ (format_int-All ts))
        (omega arith, numeral-IsByte _ (format_int-All (pos skip))) in
    let (c, t, q) = encode-cons raw (append-ne-nil (format_int ts) _ _) in
    let cut = split_colon-append (format_int ts) (format_int (pos skip)) (format_int-All ts) in
    rw (q, decode-cons, ← q, Base64.decode-encode raw bytes) (parse_raw_lem raw ts skip ht hs cut)

check_skip_range :
    (ts : ℤ) (s : Bytes) {r : ℤ × ℕ}
    → IsInt64 ts
    → check_skip ts (parse_int s) ≡ ok r
    → IsInt64 r.0 × (r.1 < 2 ^ 63)
check_skip_range ts s {r} ht h = elim (Option-cases (parse_int s)) [
  | inl e ↦ unfold check_skip in cc e
  | inr (pos n, e) ↦
      let range = parse_int-IsInt64 s e in
      let same : ◌≡◌ {A = Result Error (ℤ × ℕ)} (ok (ts, n)) (ok r) =
        unfold check_skip in rw e at h in
      ground arith
  | inr (negsuc n, e) ↦ unfold check_skip in cc e
]

parse_parts_range :
    (a b : Bytes) {r : ℤ × ℕ} → parse_parts (a, b) ≡ ok r → IsInt64 r.0 × (r.1 < 2 ^ 63)
parse_parts_range a b {r} h = elim (Option-cases (parse_int a)) [
  | inl e ↦ unfold parse_parts in cc (e, h)
  | inr (ts, e) ↦
      check_skip_range ts b (parse_int-IsInt64 a e) (unfold parse_parts in rw (e, parse_parts) at h)
]

parse_raw_range : (o : Option Bytes) {r : ℤ × ℕ} → parse_raw o ≡ ok r → IsInt64 r.0 × (r.1 < 2 ^ 63)
unfolding parse_raw
parse_raw_range none h = cc
parse_raw_range (some raw) h = elim (Option-cases (split_colon raw)) [
  | inl d ↦ absurd (cc (rw (d, parse_raw) at h))
  | inr ((a, b), d) ↦ parse_parts_range a b (rw (d, parse_raw) at h)
]

-- When Decode accepts a cursor, its timestamp is an int64 and its skip fits int.
pub decode_range :
    (s : Bytes) {ts : ℤ} {skip : ℕ} → decode s ≡ ok (ts, skip) → IsInt64 ts × (skip < 2 ^ 63)
unfolding decode
decode_range [] h = cc
decode_range (c ∷ s) h = parse_raw_range (Base64.decode (c ∷ s)) h

-- A cursor is never the empty string, which stands for "no cursor".
pub encode_nonempty : (ts skip : ℤ) → (c : ℕ) × (t : Bytes) × (encode ts skip ≡ c ∷ t)
unfolding encode
encode_nonempty ts skip = encode-cons _ (append-ne-nil (format_int ts) b':' (format_int skip))

check_skip_cases :
    (ts : ℤ) (o : Option ℤ)
    → ((p : ℤ × ℕ) × (check_skip ts o ≡ ok p)) ⊎ (check_skip ts o ≡ err invalid)
unfolding check_skip
check_skip_cases ts none = inr refl
check_skip_cases ts (some (negsuc n)) = inr refl
check_skip_cases ts (some (pos n)) = inl ((ts, n), refl)

parse_raw_cases :
    (o : Option Bytes) → ((p : ℤ × ℕ) × (parse_raw o ≡ ok p)) ⊎ (parse_raw o ≡ err invalid)
unfolding parse_raw parse_parts
parse_raw_cases none = inr refl
parse_raw_cases (some raw) = elim (Option-cases (split_colon raw)) [
  | inl d ↦ rw (parse_raw, d) (inr refl)
  | inr ((a, b), d) ↦ elim (Option-cases (parse_int a)) [
    | inl e ↦ rw (parse_raw, d, parse_parts, e) (inr refl)
    | inr (ts, e) ↦ rw (parse_raw, d, parse_parts, e) (check_skip_cases ts (parse_int b))
  ]
]

-- A cursor is accepted or invalid.
pub decode_cases : (s : Bytes) → ((p : ℤ × ℕ) × (decode s ≡ ok p)) ⊎ (decode s ≡ err invalid)
unfolding decode
decode_cases [] = inr refl
decode_cases (c ∷ s) = parse_raw_cases (Base64.decode (c ∷ s))

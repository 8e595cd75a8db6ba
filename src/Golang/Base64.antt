-- ===== src/Golang/Base64.antt =====
-- encoding/base64's `RawURLEncoding`: the URL alphabet, no padding. Like Go, decoding skips line
-- breaks and does not look at the unused bits of the last character.
use the_500mb_club_challenge.Prelude.{
  ℕ, ◌+◌, ◌-◌, ◌*◌, ◌/◌, ◌%◌, ◌<◌, ◌≡◌, refl, ap, Bool, true, ◌&&◌, ◌||◌, Option, none, some, [],
  ◌∷◌, arith, ltb, leb, ◌==◌, if◌then◌else◌, Bytes, All, IsByte,
}

infixl 5 ◌>>=◌
abbrev ◌>>=◌ {ℓ κ} : {A : Type ℓ} {B : Type κ} → Option A → (A → Option B) → Option B
none >>= f = none
some a >>= f = f a

-- The character of a 6-bit group, and the group of a character.
letter : ℕ → ℕ
letter i =
    if ltb i 26
    then b'A' + i
    else if ltb i 52
    then b'a' + (i - 26)
    else if ltb i 62
    then b'0' + (i - 52)
    else if i == 62
    then b'-'
    else b'_'

index : ℕ → Option ℕ
index c =
    if leb b'A' c && leb c b'Z'
    then some (c - b'A')
    else if leb b'a' c && leb c b'z'
    then some (c - b'a' + 26)
    else if leb b'0' c && leb c b'9'
    then some (c - b'0' + 52)
    else if c == b'-'
    then some 62
    else if c == b'_'
    then some 63
    else none

unfoldable pub encode : Bytes → Bytes
unfolding letter
encode [] = []
encode (a ∷ []) = letter (a / 4) ∷ letter (a % 4 * 16) ∷ []
encode (a ∷ b ∷ []) = letter (a / 4) ∷ letter (a % 4 * 16 + b / 16) ∷ letter (b % 16 * 4) ∷ []
encode (a ∷ b ∷ c ∷ r) =
    letter (a / 4)
    ∷ letter (a % 4 * 16 + b / 16)
    ∷ letter (b % 16 * 4 + c / 64)
    ∷ letter (c % 64)
    ∷ encode r

strip : Bytes → Bytes
strip [] = []
strip (c ∷ s) = if c == 10 || c == 13 then strip s else c ∷ strip s

quanta : Bytes → Option Bytes
unfolding index
quanta [] = some []
quanta (w ∷ []) = none
quanta (w ∷ x ∷ []) = do i ← index w; j ← index x; some ((i * 4 + j / 16) ∷ [])
quanta (w ∷ x ∷ y ∷ []) = do
  i ← index w
  j ← index x
  k ← index y
  some ((i * 4 + j / 16) ∷ (j % 16 * 16 + k / 4) ∷ [])
quanta (w ∷ x ∷ y ∷ z ∷ r) = do
  i ← index w
  j ← index x
  k ← index y
  l ← index z
  rest ← quanta r
  some ((i * 4 + j / 16) ∷ (j % 16 * 16 + k / 4) ∷ (k % 4 * 64 + l) ∷ rest)

-- `DecodeString`; a `CorruptInputError` is `none`.
unfoldable pub decode : Bytes → Option Bytes
unfolding strip quanta
decode s = quanta (strip s)

-- The characters of a token: letters, digits, `-` and `_`.
abbrev pub is_token : ℕ → Bool
is_token c =
    (leb b'A' c && leb c b'Z')
    || (leb b'a' c && leb c b'z')
    || (leb b'0' c && leb c b'9')
    || c == b'-'
    || c == b'_'

index-letter : (i : ℕ) → i < 64 → index (letter i) ≡ some i
unfolding index letter
index-letter i h = ground arith

letter-is_token : (i : ℕ) → is_token (letter i) ≡ true
unfolding letter
letter-is_token i = ground arith

strip-token : (s : Bytes) → All (λ c. is_token c ≡ true) s → strip s ≡ s
unfolding strip
strip-token [] h = refl
strip-token (c ∷ s) (hc, hs) = ground (arith, strip-token s hs)

-- What `encode` writes needs no escape in a URL or a JSON string.
pub encode-All : (s : Bytes) → All (λ c. is_token c ≡ true) (encode s)
unfolding encode
encode-All [] = tt
encode-All (a ∷ []) = (letter-is_token (a / 4), (letter-is_token (a % 4 * 16), tt))
encode-All (a ∷ b ∷ []) = (
  letter-is_token (a / 4),
  (letter-is_token (a % 4 * 16 + b / 16), (letter-is_token (b % 16 * 4), tt)),
)
encode-All (a ∷ b ∷ c ∷ r) = (
  letter-is_token (a / 4),
  (
    letter-is_token (a % 4 * 16 + b / 16),
    (letter-is_token (b % 16 * 4 + c / 64), (letter-is_token (c % 64), encode-All r)),
  ),
)

quanta-encode : (s : Bytes) → All IsByte s → quanta (encode s) ≡ some s
unfolding quanta encode
quanta-encode [] h = refl
quanta-encode (a ∷ []) (ha, _) =
    rw (index-letter (a / 4) (omega arith), index-letter (a % 4 * 16) (omega arith))
      (ap (λ t. some (t ∷ [])) (omega arith))
quanta-encode (a ∷ b ∷ []) (ha, (hb, _)) =
    rw
      (
        index-letter (a / 4) (omega arith),
        index-letter (a % 4 * 16 + b / 16) (omega arith),
        index-letter (b % 16 * 4) (omega arith),
      )
      (ground arith)
quanta-encode (a ∷ b ∷ c ∷ r) (ha, (hb, (hc, hr))) =
    rw
      (
        index-letter (a / 4) (omega arith),
        index-letter (a % 4 * 16 + b / 16) (omega arith),
        index-letter (b % 16 * 4 + c / 64) (omega arith),
        index-letter (c % 64) (omega arith),
        quanta-encode r hr,
      )
      (ground arith)

-- Bytes are read back from their token.
pub decode-encode : (s : Bytes) → All IsByte s → decode (encode s) ≡ some s
unfolding decode
decode-encode s h = rw (strip-token _ (encode-All s)) (quanta-encode s h)

-- ===== src/Resp/Reader/Total.antt =====
-- On internal/resp/resp.go: the fuel of `ReadReply`.
use the_500mb_club_challenge.Prelude.{
  ℕ, zero, suc, ◌+◌, ◌*◌, ◌≤◌, ◌<◌, ◌≡◌, ◌≢◌, ap, Option, none, some, Option-cases, [], ◌∷◌, leb,
  ltb, ◌==◌, Bytes, Result, ok, err, panic, length, length-drop, arith, Bool-cases, inl, inr,
}
use the_500mb_club_challenge.Prelude.Int.{ℤ, pos, negsuc}
use the_500mb_club_challenge.Golang.Strconv.{parse_int}
use the_500mb_club_challenge.Resp.{
  Error, out_of_fuel, max_alloc, Reply, Replies, ◌>>=◌, read_full, read_line, read_until, chop_cr,
  prepend, parse_line,
}
use the_500mb_club_challenge.Resp.Reader.{
  read_bulk, read_items, read_array, dispatch, read_reply_loop, read_reply,
}

-- A result that is no lack of fuel, and leaves at most `n` bytes.
abbrev pub Ends : (A : Type 0) → ℕ → Result Error (A × Bytes) → Type 0
Ends A n (ok (a, s)) = length s ≤ n
Ends A n (err e) = e ≢ out_of_fuel
Ends A n panic = Unit

Ends-le : (A : Type 0) (m n : ℕ) (r : Result Error (A × Bytes)) → m ≤ n → Ends A m r → Ends A n r
Ends-le A m n (ok (a, s)) h k = omega arith
Ends-le A m n (err e) h k = k
Ends-le A m n panic h k = tt

Ends-bind :
    (A B : Type 0) (n : ℕ) (r : Result Error (A × Bytes)) (f : A × Bytes → Result Error (B × Bytes))
    → Ends A n r
    → ((a : A) (s : Bytes) → length s ≤ n → Ends B n (f (a, s)))
    → Ends B n (r >>= f)
Ends-bind A B n (ok (a, s)) f h k = k a s h
Ends-bind A B n (err e) f h k = h
Ends-bind A B n panic f h k = tt

read_full-Ends : (n : ℕ) (s : Bytes) → Ends Bytes (length s) (read_full n s)
unfolding read_full
read_full-Ends n s = elim (Bool-cases (leb n (length s))) [
  | inl e ↦ rw e (omega (arith, length-drop n s))
  | inr e ↦ rw e (λ q. cc)
]

prepend_shorter :
    (c : ℕ) (o : Option (Bytes × Bytes)) {a b : Bytes}
    → prepend c o ≡ some (a, b)
    → (a' : Bytes) × (o ≡ some (a', b))
unfolding prepend
prepend_shorter c none h = cc
prepend_shorter c (some (a', b')) h = (a', cc)

second_eq :
    {a c : Bytes} {b d : Bytes}
    → ◌≡◌ {A = Option (Bytes × Bytes)} (some (a, b)) (some (c, d))
    → b ≡ d
second_eq h = cc

read_until_shorter : (s : Bytes) {a b : Bytes} → read_until s ≡ some (a, b) → length b ≤ length s
unfolding read_until
read_until_shorter [] h = cc
read_until_shorter (c ∷ s) {a} {b} h = elim (Bool-cases (c == 10)) [
  | inl e ↦
      let same : ◌≡◌ {A = Option (Bytes × Bytes)} (some ([], s)) (some (a, b)) = rw e at h in
      omega (arith, ap length (second_eq same))
  | inr e ↦
      let (a', q) = prepend_shorter c (read_until s) (rw e at h) in
      omega (arith, read_until_shorter s q)
]

read_line-Ends : (s : Bytes) → Ends Bytes (length s) (read_line s)
unfolding read_line
read_line-Ends s = elim (Option-cases (read_until s)) [
  | inl e ↦ rw (read_line, e) (λ q. cc)
  | inr ((line, rest), e) ↦ elim (Option-cases (chop_cr line)) [
    | inl d ↦ rw (read_line, e, d) (λ q. cc)
    | inr (a, d) ↦ rw (read_line, e, d) (read_until_shorter s e)
  ]
]

-- The rest of a branch that first parses its line.
parse_line_then :
    (n : ℕ) (line : Bytes) (f : ℤ → Result Error (Reply × Bytes))
    → ((v : ℤ) → Ends Reply n (f v))
    → Ends Reply n (parse_line line >>= f)
unfolding parse_line
parse_line_then n line f h = elim (Option-cases (parse_int line)) [
  | inl e ↦ rw (parse_line, e) (λ q. cc)
  | inr (v, e) ↦ rw (parse_line, e) (h v)
]

read_bulk-Ends : (v : ℤ) (s : Bytes) → Ends Reply (length s) (read_bulk v s)
unfolding read_bulk
read_bulk-Ends (negsuc n) s = omega arith
read_bulk-Ends (pos n) s = elim (Bool-cases (ltb max_alloc (n + 2))) [
  | inl e ↦ rw e tt
  | inr e ↦ rw e (
      Ends-bind Bytes Reply (length s) (read_full (n + 2) s) _ (read_full-Ends (n + 2) s)
        (λ a t h. h))
]

module _ (k : ℕ) (read : Bytes → Result Error (Reply × Bytes))
    (ends : (s : Bytes) → length s ≤ k → Ends Reply k (read s)) where
  read_items-Ends : (n : ℕ) (s : Bytes) → length s ≤ k → Ends Replies k (read_items read n s)
  unfolding read_items
  read_items-Ends zero s h = h
  read_items-Ends (suc n) s h = Ends-bind Reply Replies k (read s) _ (ends s h) (λ v s1 h1.
      Ends-bind Replies Replies k (read_items read n s1) _ (read_items-Ends n s1 h1)
        (λ vs s2 h2. h2))

  read_array-Ends : (v : ℤ) (s : Bytes) → length s ≤ k → Ends Reply k (read_array read v s)
  unfolding read_array
  read_array-Ends (negsuc n) s h = h
  read_array-Ends (pos n) s h = elim (Bool-cases (ltb max_alloc (n * 16))) [
    | inl e ↦ rw e tt
    | inr e ↦
        rw e
          (Ends-bind Replies Reply k (read_items read n s) _ (read_items-Ends n s h) (λ a t g. g))
  ]

  dispatch-Ends :
      (prefix : ℕ) (line s : Bytes) → length s ≤ k → Ends Reply k (dispatch read prefix line s)
  unfolding dispatch
  dispatch-Ends prefix line s h = elim (Bool-cases (prefix == b'+')) [
    | inl e ↦ rw e h
    | inr e ↦ rw e (elim (Bool-cases (prefix == b'-')) [
      | inl d ↦ rw d (λ q. cc)
      | inr d ↦ rw d (elim (Bool-cases (prefix == b':')) [
        | inl c ↦ rw c (parse_line_then k line _ (λ v. h))
        | inr c ↦ rw c (elim (Bool-cases (prefix == b'$')) [
          | inl b ↦ rw b (
              parse_line_then k line _
                (λ v. Ends-le Reply (length s) k (read_bulk v s) h (read_bulk-Ends v s)))
          | inr b ↦ rw b (elim (Bool-cases (prefix == b'*')) [
            | inl a ↦ rw a (parse_line_then k line _ (λ v. read_array-Ends v s h))
            | inr a ↦ rw a (λ q. cc)
          ])
        ])
      ])
    ])
  ]

read_reply_loop-Ends :
    (fuel : ℕ) (s : Bytes) → length s < fuel → Ends Reply (length s) (read_reply_loop fuel s)
unfolding read_reply_loop
read_reply_loop-Ends zero s h = absurd (omega arith)
read_reply_loop-Ends (suc fuel) [] h = λ q. cc
read_reply_loop-Ends (suc fuel) (c ∷ s) h =
    let deeper : (t : Bytes)
        → length t ≤ length s
        → Ends Reply (length s) (read_reply_loop fuel t) =
      λ t ht.
        Ends-le Reply (length t) (length s) (read_reply_loop fuel t) ht
          (read_reply_loop-Ends fuel t (omega arith)) in
    Ends-le Reply (length s) (suc (length s)) _ (omega arith) (
      Ends-bind Bytes Reply (length s) (read_line s) _ (read_line-Ends s)
        (λ line t ht. dispatch-Ends (length s) (read_reply_loop fuel) deeper c line t ht))

-- On every input ReadReply returns a reply and leaves no more than it was given, or fails, or
-- panics, and never uses up its fuel of one step for each byte and one more.
pub read_reply-Ends : (s : Bytes) → Ends Reply (length s) (read_reply s)
unfolding read_reply
read_reply-Ends s = read_reply_loop-Ends (suc (length s)) s (omega arith)

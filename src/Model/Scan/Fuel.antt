-- ===== src/Model/Scan/Fuel.antt =====
-- On internal/model/fastjson.go: how the loop of `skipContainer` ends.
use the_500mb_club_challenge.Prelude.{
  ◌∙◌, false, true, sym, ℕ, zero, suc, ◌+◌, ◌-◌, ◌≤◌, ◌<◌, ◌≡◌, refl, ap, Option, none, some, [],
  ◌∷◌, ◌==◌, Bytes, length, arith, Bool-cases, Option-cases, inl, inr,
}
use the_500mb_club_challenge.Model.Scan.{prepend, string_loop}
use the_500mb_club_challenge.Model.Scan.Object.{container_loop, skip_container}

prepend_lem :
    (c : ℕ) (o : Option (Bytes × Bytes)) {a r : Bytes}
    → prepend c o ≡ some (a, r)
    → (b : Bytes) × (o ≡ some (b, r))
unfolding prepend
prepend_lem c none h = cc h
prepend_lem c (some (b, r')) h = (b, cc h)

-- A string ends behind its closing quote.
pub string_loop_rest : (s : Bytes) (a r : Bytes) → string_loop s ≡ some (a, r) → length r < length s
unfolding string_loop
string_loop_rest [] a r h = cc h
string_loop_rest (c ∷ []) a r h = ground arith
string_loop_rest (c ∷ d ∷ s) a r h = elim (Bool-cases (c == b'\\')) [
  | inl e ↦
      let (b, q) = prepend_lem c _ (rw (string_loop, e) at h) in
      let (b', q') = prepend_lem d _ q in omega (arith, string_loop_rest s b' r q')
  | inr e ↦ elim (Bool-cases (c == b'"')) [
    | inl k ↦
        let same : d ∷ s ≡ r = cc (rw (string_loop, e, k) at h) in omega (arith, ap length same)
    | inr k ↦
        let (b, q) = prepend_lem c _ (rw (string_loop, e, k) at h) in
        omega (arith, string_loop_rest (d ∷ s) b r q)
  ]
]

-- The loop of `skipContainer` as it runs, with no fuel: the depth, the text, and how it ends.
pub data IsSkip (open' close : ℕ) : ℕ → Bytes → Option Bytes → Type 0 where
  unclosed : {depth : ℕ} → IsSkip open' close depth [] none
  broken :
      {depth c : ℕ} {s : Bytes}
      → c == b'"' ≡ true
      → string_loop s ≡ none
      → IsSkip open' close depth (c ∷ s) none
  quoted :
      {depth c : ℕ} {s a r : Bytes} {o : Option Bytes}
      → c == b'"' ≡ true
      → string_loop s ≡ some (a, r)
      → IsSkip open' close depth r o
      → IsSkip open' close depth (c ∷ s) o
  deeper :
      {depth c : ℕ} {s : Bytes} {o : Option Bytes}
      → c == b'"' ≡ false
      → c == open' ≡ true
      → IsSkip open' close (depth + 1) s o
      → IsSkip open' close depth (c ∷ s) o
  closed :
      {depth c : ℕ} {s : Bytes}
      → c == b'"' ≡ false
      → c == open' ≡ false
      → c == close ≡ true
      → depth == 1 ≡ true
      → IsSkip open' close depth (c ∷ s) (some s)
  outer :
      {depth c : ℕ} {s : Bytes} {o : Option Bytes}
      → c == b'"' ≡ false
      → c == open' ≡ false
      → c == close ≡ true
      → depth == 1 ≡ false
      → IsSkip open' close (depth - 1) s o
      → IsSkip open' close depth (c ∷ s) o
  passed :
      {depth c : ℕ} {s : Bytes} {o : Option Bytes}
      → c == b'"' ≡ false
      → c == open' ≡ false
      → c == close ≡ false
      → IsSkip open' close depth s o
      → IsSkip open' close depth (c ∷ s) o

module _ (open' close : ℕ) where
  container_loop-IsSkip :
      (fuel depth : ℕ) (s : Bytes)
      → length s ≤ fuel
      → IsSkip open' close depth s (container_loop fuel open' close depth s)
  unfolding container_loop
  container_loop-IsSkip zero depth [] h = unclosed
  container_loop-IsSkip zero depth (c ∷ s) h = absurd (omega arith)
  container_loop-IsSkip (suc fuel) depth [] h = unclosed
  container_loop-IsSkip (suc fuel) depth (c ∷ s) h = elim (Bool-cases (c == b'"')) [
    | inl e ↦ elim (Option-cases (string_loop s)) [
      | inl q ↦ rw (container_loop, e, q) (broken e q)
      | inr ((a, r), q) ↦
          let shorter = string_loop_rest s a r q in
          rw (container_loop, e, q) (quoted e q (container_loop-IsSkip fuel depth r (omega arith)))
    ]
    | inr e ↦ elim (Bool-cases (c == open')) [
      | inl k ↦
          rw (container_loop, e, k)
            (deeper e k (container_loop-IsSkip fuel (depth + 1) s (omega arith)))
      | inr k ↦ elim (Bool-cases (c == close)) [
        | inl m ↦ elim (Bool-cases (depth == 1)) [
          | inl n ↦ rw (container_loop, e, k, m, n) (closed e k m n)
          | inr n ↦
              rw (container_loop, e, k, m, n)
                (outer e k m n (container_loop-IsSkip fuel (depth - 1) s (omega arith)))
        ]
        | inr m ↦
            rw (container_loop, e, k, m)
              (passed e k m (container_loop-IsSkip fuel depth s (omega arith)))
      ]
    ]
  ]

  -- With a step to spare, the loop on fuel ends as the loop does.
  IsSkip-container_loop :
      (fuel : ℕ) {depth : ℕ} {s : Bytes} {o : Option Bytes}
      → IsSkip open' close depth s o
      → length s < fuel
      → container_loop fuel open' close depth s ≡ o
  unfolding container_loop
  IsSkip-container_loop zero p h = absurd (omega arith)
  IsSkip-container_loop (suc fuel) unclosed h = refl
  IsSkip-container_loop (suc fuel) (broken e q) h = rw (container_loop, e, q) refl
  IsSkip-container_loop (suc fuel) (quoted {s = s} {a = a} {r = r} e q p) h =
      rw (container_loop, e, q)
        (IsSkip-container_loop fuel p (omega (arith, string_loop_rest s a r q)))
  IsSkip-container_loop (suc fuel) (deeper e k p) h =
      rw (container_loop, e, k) (IsSkip-container_loop fuel p (omega arith))
  IsSkip-container_loop (suc fuel) (closed e k m n) h = rw (container_loop, e, k, m, n) refl
  IsSkip-container_loop (suc fuel) (outer e k m n p) h =
      rw (container_loop, e, k, m, n) (IsSkip-container_loop fuel p (omega arith))
  IsSkip-container_loop (suc fuel) (passed e k m p) h =
      rw (container_loop, e, k, m) (IsSkip-container_loop fuel p (omega arith))

  pub skip_container-IsSkip : (s : Bytes) → IsSkip open' close 0 s (skip_container open' close s)
  unfolding skip_container
  skip_container-IsSkip s = container_loop-IsSkip (length s) 0 s (omega arith)

  pub IsSkip-unique :
      {depth : ℕ} {s : Bytes} {o o' : Option Bytes}
      → IsSkip open' close depth s o
      → IsSkip open' close depth s o'
      → o ≡ o'
  IsSkip-unique {s = s} p q =
      sym (IsSkip-container_loop (suc (length s)) p (omega arith))
      ∙ IsSkip-container_loop (suc (length s)) q (omega arith)

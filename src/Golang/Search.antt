-- ===== src/Golang/Search.antt =====
-- sort.Search: the binary search for the first index at which a monotone test holds.
use the_500mb_club_challenge.Prelude.{
  ℕ, zero, suc, ◌+◌, ◌/◌, ◌≤◌, ◌<◌, ◌≡◌, Bool, true, false, ltb, if◌then◌else◌, arith, Bool-cases,
  inl, inr,
}

-- `for i < j { h := (i+j)/2; if !f(h) { i = h + 1 } else { j = h } }`
pub search_loop : ℕ → (ℕ → Bool) → ℕ → ℕ → ℕ
search_loop zero f i j = i
search_loop (suc fuel) f i j =
    let h = (i + j) / 2 in
    let right = search_loop fuel f (h + 1) j in
    let left = search_loop fuel f i h in if ltb i j then if f h then left else right else i

-- The interval shrinks in each round, so `n` rounds are enough.
unfoldable pub search : ℕ → (ℕ → Bool) → ℕ
unfolding search_loop
search n f = search_loop n f 0 n

module _ (f : ℕ → Bool) (n : ℕ) (mono : (a b : ℕ) → a ≤ b → b < n → f a ≡ true → f b ≡ true) where
  -- What is known of an interval, and at the end of the only index that is left.
  abbrev Below : ℕ → Type 0
  Below i = (k : ℕ) → k < i → f k ≡ false

  abbrev Above : ℕ → Type 0
  Above j = (k : ℕ) → j ≤ k → k < n → f k ≡ true

  mono_false : (a b : ℕ) → a ≤ b → b < n → f b ≡ false → f a ≡ false
  mono_false a b h k e = elim (Bool-cases (f a)) [
    | inl d ↦ absurd (cc (e, mono a b h k d))
    | inr d ↦ d
  ]

  search_loop_lem :
      (fuel i j : ℕ)
      → i ≤ j
      → j ≤ n
      → j ≤ i + fuel
      → Below i
      → Above j
      → (search_loop fuel f i j ≤ n)
        × Below (search_loop fuel f i j)
        × Above (search_loop fuel f i j)
  unfolding search_loop
  search_loop_lem zero i j h hn hf lo hi = (omega arith, lo, λ k p q. hi k (omega arith) q)
  search_loop_lem (suc fuel) i j h hn hf lo hi = elim (Bool-cases (ltb i j)) [
    | inr e ↦ rw e (omega arith, lo, λ k p q. hi k (ground arith) q)
    | inl e ↦ elim (Bool-cases (f ((i + j) / 2))) [
      | inl t ↦
          rw (e, t)
            (search_loop_lem fuel i ((i + j) / 2) (ground arith) (ground arith) (ground arith) lo
              (λ k p q. mono ((i + j) / 2) k p q t))
      | inr t ↦
          rw (e, t)
            (search_loop_lem fuel ((i + j) / 2 + 1) j (ground arith) hn (ground arith)
              (λ k p. mono_false k ((i + j) / 2) (omega arith) (ground arith) t) hi)
    ]
  ]

  -- The result splits the indices: the test fails below it and holds from it on.
  pub search_lem :
      (search n f ≤ n)
      × ((k : ℕ) → k < search n f → f k ≡ false)
      × ((k : ℕ) → search n f ≤ k → k < n → f k ≡ true)
  unfolding search
  search_lem =
      search_loop_lem n 0 n (omega arith) (omega arith) (omega arith) (λ k p. absurd (omega arith))
        (λ k p q. absurd (omega arith))

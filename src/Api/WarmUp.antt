-- ===== src/Api/WarmUp.antt =====
-- On cmd/api/main.go and Warm of internal/store/redis.go: a pool while it is warmed up.
use the_500mb_club_challenge.Resp.{Reply}
use the_500mb_club_challenge.Store.Redis.Warm.{put_room_or_full}
use Prim.Native.Nat.{min}
use the_500mb_club_challenge.Prelude.{
  append_assoc, ap, append-nil, sym, ◌++◌, ltb, ◌∙◌, ℕ, zero, suc, ◌+◌, ◌≤◌, ◌≡◌, refl, Bool, true,
  Bool-cases, inl, inr, [], ◌∷◌, codes, length, arith, ok, err, panic, Result, Option-cases, List,
}
use the_500mb_club_challenge.Store.{Error}
use the_500mb_club_challenge.Store.Redis.{Network, Conn, Client, Answer, dial, put, roundtrip}
use the_500mb_club_challenge.Store.Redis.Ops.{
  warm_one, warm_dialled, warmed, next_turn, warm_loop, warm, is_pong,
}
use the_500mb_club_challenge.Api.{after_attempt, attempt_loop, warm_pool}

-- The pool `p'` has the connections of `p` at its front, in their order.
abbrev pub IsExtended : {C : Type 0} → List (Conn C) → List (Conn C) → Type 0
IsExtended {C = C} p p' = (more : List (Conn C)) × (p' ≡ p ++ more)

IsExtended-refl : {C : Type 0} (p : List (Conn C)) → IsExtended p p
IsExtended-refl p = ([], sym (append-nil p))

IsExtended-trans :
    {C : Type 0} (p q r : List (Conn C)) → IsExtended p q → IsExtended q r → IsExtended p r
IsExtended-trans p q r (a, e) (b, f) = (a ++ b, f ∙ ap (λ l. l ++ b) e ∙ append_assoc p a b)

-- `n` turns take `s` to `s'`: the pool keeps its connections and its bound, and after a success it
-- has `n` more or is full.
record IsGrown {C : Type 0} (n : ℕ) (s s' : Client C) (succeeded : Type 0) : Type 0 where
  pub size : s'.pool_size ≡ s.pool_size
  pub keeps : IsExtended s.pool s'.pool
  pub bound : length s'.pool ≤ s.pool_size
  pub grows : succeeded → length s'.pool ≡ min s.pool_size (length s.pool + n)

module _ {W C : Type 0} where
  abbrev IsTurns : (n : ℕ) (s : Client C) → Answer W C (Unit {0}) → Type 0
  IsTurns n s (ok u, (s', w)) = IsGrown n s s' (Unit {0})
  IsTurns n s (err e, (s', w)) = IsGrown n s s' ⊥
  IsTurns n s (panic, (s', w)) = IsGrown n s s' ⊥

  -- An answer of the warm-up: `true` only with a full pool.
  abbrev pub IsWarmed : Client C → Answer W C Bool → Type 0
  IsWarmed s (r, (s', w)) =
      (s'.pool_size ≡ s.pool_size)
      × IsExtended s.pool s'.pool
      × (length s'.pool ≤ s.pool_size)
      × (r ≡ ok true → length s'.pool ≡ s.pool_size)

  module _ (net : Network W C) where
    IsGrown-same : (n : ℕ) (s : Client C) → length s.pool ≤ s.pool_size → IsGrown n s s ⊥
    IsGrown-same n s fits = record {
      size = refl;
      keeps = IsExtended-refl s.pool;
      bound = fits;
      grows = λ b. absurd b;
    }

    put-IsExtended :
        (s : Client C) (w : W) (cn : Conn C) → IsExtended s.pool (put net cn s w).0.pool
    unfolding put
    put-IsExtended s w cn = elim (Bool-cases (ltb (length s.pool) s.pool_size)) [
      | inl e ↦ rw (put, e) (cn ∷ [], refl)
      | inr e ↦ rw (put, e) (IsExtended-refl s.pool)
    ]

    put-IsGrown :
        (s : Client C) (w : W) (cn : Conn C)
        → length s.pool ≤ s.pool_size
        → IsGrown 1 s (put net cn s w).0 (Unit {0})
    put-IsGrown s w cn fits =
        let (size, sizes) = put_room_or_full net s w cn in
        elim sizes [
          | inl k ↦ record {
            size = size;
            keeps = put-IsExtended s w cn;
            bound = omega (arith, k, fits);
            grows = λ _. k;
          }
          | inr (full, k) ↦ record {
            size = size;
            keeps = put-IsExtended s w cn;
            bound = omega (arith, k, fits);
            grows = λ _. omega (arith, k, full, fits);
          }
        ]

    warmed-IsTurns :
        (cn : Conn C) (s : Client C) (r : Result Error (List Reply × Conn C) × W)
        → length s.pool ≤ s.pool_size
        → IsTurns 1 s (warmed net cn s r)
    unfolding warmed
    warmed-IsTurns cn s (err e, w) fits = IsGrown-same 1 s fits
    warmed-IsTurns cn s (panic, w) fits = IsGrown-same 1 s fits
    warmed-IsTurns cn s (ok (rs, cn'), w) fits = elim (Bool-cases (is_pong rs)) [
      | inl e ↦ rw (warmed, e) (put-IsGrown s w cn' fits)
      | inr e ↦ rw (warmed, e) (IsGrown-same 1 s fits)
    ]

    warm_dialled-IsTurns :
        (s : Client C) (d : Result Error (Conn C) × W)
        → length s.pool ≤ s.pool_size
        → IsTurns 1 s (warm_dialled net s d)
    unfolding warm_dialled
    warm_dialled-IsTurns s (ok cn, w) fits =
        warmed-IsTurns cn s (roundtrip net cn ((codes "PING" ∷ []) ∷ []) w) fits
    warm_dialled-IsTurns s (err e, w) fits = IsGrown-same 1 s fits
    warm_dialled-IsTurns s (panic, w) fits = IsGrown-same 1 s fits

    warm_one-IsTurns :
        (s : Client C) (w : W) → length s.pool ≤ s.pool_size → IsTurns 1 s (warm_one net s w)
    unfolding warm_one
    warm_one-IsTurns s w fits = elim (Option-cases (net.done w)) [
      | inl e ↦ rw (warm_one, e) (warm_dialled-IsTurns s (dial net w) fits)
      | inr (d, e) ↦ rw (warm_one, e) (IsGrown-same 1 s fits)
    ]

    -- Turns after turns.
    IsGrown-trans :
        {P Q : Type 0} (n : ℕ) (s t u : Client C)
        → IsGrown 1 s t P
        → P
        → IsGrown n t u Q
        → IsGrown (suc n) s u Q
    IsGrown-trans n s t u g p h = record {
      size = h.size ∙ g.size;
      keeps = IsExtended-trans s.pool t.pool u.pool g.keeps h.keeps;
      bound = omega (arith, g.size, h.bound);
      grows =
          λ q. let a = h.grows q in let b = g.grows p in let c = g.size in omega (arith, a, b, c);
    }

    IsTurns-shift :
        (n : ℕ) (s t : Client C) (a : Answer W C (Unit {0}))
        → IsGrown 1 s t (Unit {0})
        → IsTurns n t a
        → IsTurns (suc n) s a
    IsTurns-shift n s t (ok u, (s', w)) g h = IsGrown-trans n s t s' g tt h
    IsTurns-shift n s t (err e, (s', w)) g h = IsGrown-trans n s t s' g tt h
    IsTurns-shift n s t (panic, (s', w)) g h = IsGrown-trans n s t s' g tt h

    IsGrown-failed : {m : ℕ} (n : ℕ) (s t : Client C) → IsGrown m s t ⊥ → IsGrown n s t ⊥
    IsGrown-failed n s t g = record {
      size = g.size;
      keeps = g.keeps;
      bound = g.bound;
      grows = λ b. absurd b;
    }

    next_turn-IsTurns :
        (n : ℕ) (s : Client C) (turn : Client C → W → Answer W C (Unit {0}))
        → ((t : Client C) (w : W) → length t.pool ≤ t.pool_size → IsTurns n t (turn t w))
        → (a : Answer W C (Unit {0})) → IsTurns 1 s a
        → IsTurns (suc n) s (next_turn net turn a)
    unfolding next_turn
    next_turn-IsTurns n s turn h (ok u, (t, w)) g =
        IsTurns-shift n s t (turn t w) g (h t w (omega (arith, g.bound, g.size)))
    next_turn-IsTurns n s turn h (err e, (t, w)) g = IsGrown-failed (suc n) s t g
    next_turn-IsTurns n s turn h (panic, (t, w)) g = IsGrown-failed (suc n) s t g

    warm_loop-IsTurns :
        (n : ℕ) (s : Client C) (w : W)
        → length s.pool ≤ s.pool_size
        → IsTurns n s (warm_loop net n s w)
    unfolding warm_loop
    warm_loop-IsTurns zero s w fits = record {
      size = refl;
      keeps = IsExtended-refl s.pool;
      bound = fits;
      grows = λ _. omega (arith, fits);
    }
    warm_loop-IsTurns (suc n) s w fits =
        next_turn-IsTurns n s (warm_loop net n) (warm_loop-IsTurns n) (warm_one net s w)
          (warm_one-IsTurns s w fits)

    after_attempt-IsWarmed :
        (begin sleep : W → W) (s : Client C) (retry : Client C → W → Answer W C Bool)
        → ((t : Client C) (w : W) → length t.pool ≤ t.pool_size → IsWarmed t (retry t w))
        → (a : Answer W C (Unit {0})) → IsTurns s.pool_size s a
        → IsWarmed s (after_attempt net begin sleep retry a)
    unfolding after_attempt
    after_attempt-IsWarmed begin sleep s retry h (ok u, (t, w)) g =
        (g.size, g.keeps, g.bound, λ _. let e = g.grows tt in omega (arith, e))
    after_attempt-IsWarmed begin sleep s retry h (panic, (t, w)) g =
        (g.size, g.keeps, g.bound, λ e. absurd (cc e))
    after_attempt-IsWarmed begin sleep s retry h (err e, (t, w)) g =
        let (size, keeps, bound, full) = h t (sleep w) (omega (arith, g.bound, g.size)) in
        let same = g.size in
        (
          size ∙ same,
          IsExtended-trans s.pool t.pool _ g.keeps keeps,
          omega (arith, same, bound),
          λ q. full q ∙ same,
        )

    attempt_loop-IsWarmed :
        (begin sleep : W → W) (n : ℕ) (s : Client C) (w : W)
        → length s.pool ≤ s.pool_size
        → IsWarmed s (attempt_loop net begin sleep n s w)
    unfolding attempt_loop warm
    attempt_loop-IsWarmed begin sleep zero s w fits =
        (refl, IsExtended-refl s.pool, fits, λ e. absurd (cc e))
    attempt_loop-IsWarmed begin sleep (suc n) s w fits =
        after_attempt-IsWarmed begin sleep s (attempt_loop net begin sleep n)
          (attempt_loop-IsWarmed begin sleep n) (warm net s (begin w))
          (warm_loop-IsTurns s.pool_size s (begin w) fits)

    -- Whatever the network does, the warm-up at the start, run by itself with all its attempts on
    -- a pool that holds no more than its size, keeps every pooled connection, in the order they
    -- had, at the front of the pool, keeps the size of the pool and never fills it beyond that,
    -- and reports success only when it is full.
    pub warm_pool-IsWarmed :
        (begin sleep : W → W) (s : Client C) (w : W)
        → length s.pool ≤ s.pool_size
        → IsWarmed s (warm_pool net begin sleep s w)
    unfolding warm_pool
    warm_pool-IsWarmed begin sleep s w fits = attempt_loop-IsWarmed begin sleep 20 s w fits

-- ===== src/Store/Redis/Pool.antt =====
-- On internal/store/redis.go: the pool of connections under requests that run at the same time.
use the_500mb_club_challenge.Prelude.{
  ==_iff, ℕ, ◌+◌, ◌≤◌, ◌≡◌, refl, ap, List, [], ◌∷◌, ◌++◌, ltb, ◌==◌, if◌then◌else◌, Bytes, Result,
  ok, err, panic, length, length-append, arith, Bool-cases, Option-cases, inl, inr,
}
use mathlib.Core.Path.{subst}
use the_500mb_club_challenge.Resp
use the_500mb_club_challenge.Store.{Error}
use the_500mb_club_challenge.Store.Redis.{
  Network, Conn, Client, dial, get, put, ask, answered, settle,
}
use the_500mb_club_challenge.Store.Redis.Ops.{close}

-- How many of the connections are the socket `k`.
unfoldable pub count : ℕ → List (Conn ℕ) → ℕ
count k [] = 0
count k (cn ∷ cns) = (if cn.sock == k then 1 else 0) + count k cns

count-append : (k : ℕ) (xs ys : List (Conn ℕ)) → count k (xs ++ ys) ≡ count k xs + count k ys
unfolding count
count-append k [] ys = omega arith
count-append k (x ∷ xs) ys = omega (arith, count-append k xs ys)

-- The client, the world, and the connections that requests hold.
pub record System (W : Type 0) : Type 0 where
  pub client : Client ℕ
  pub world : W
  pub lent : List (Conn ℕ)

module _ {W : Type 0} (net : Network W ℕ) where
  -- A request takes a connection (a new one is none of those in use), and later its exchange ends:
  -- the connection goes back or is closed. The warm-up dials, and puts or closes.
  pub data Step : System W → System W → Type 1 where
    takes :
        {s s' : Client ℕ} {w w' : W} {lent : List (Conn ℕ)} {cn : Conn ℕ}
        → get net s w ≡ (ok cn, (s', w'))
        → (s.pool ≡ [] → count cn.sock lent ≡ 0)
        → Step
            (record { client = s; world = w; lent = lent })
            (record { client = s'; world = w'; lent = cn ∷ lent })
    dials :
        {s : Client ℕ} {w w' : W} {lent : List (Conn ℕ)} {cn : Conn ℕ}
        → dial net w ≡ (ok cn, w')
        → count cn.sock s.pool + count cn.sock lent ≡ 0
        → Step
            (record { client = s; world = w; lent = lent })
            (record { client = s; world = w'; lent = cn ∷ lent })
    ends :
        {s s' : Client ℕ} {w w' : W} {A : Type 0} {r : Result Error A}
        → (front back : List (Conn ℕ)) (cn : Conn ℕ) (b : Bytes)
          (read : Bytes → Result Resp.Error (A × Bytes))
        → settle net cn s (ask net cn b read w) ≡ (r, (s', w'))
        → Step
            (record { client = s; world = w; lent = front ++ cn ∷ back })
            (record { client = s'; world = w'; lent = front ++ back })
    puts :
        {s s' : Client ℕ} {w w' : W}
        → (front back : List (Conn ℕ)) (cn : Conn ℕ) → put net cn s w ≡ (s', w')
        → Step
            (record { client = s; world = w; lent = front ++ cn ∷ back })
            (record { client = s'; world = w'; lent = front ++ back })
    drops :
        {s : Client ℕ} {w : W}
        → (front back : List (Conn ℕ)) (cn : Conn ℕ)
        → Step
            (record { client = s; world = w; lent = front ++ cn ∷ back })
            (record { client = s; world = net.close w cn.sock; lent = front ++ back })
    closes :
        {s s' : Client ℕ} {w w' : W} {lent : List (Conn ℕ)}
        → close net s w ≡ (s', w')
        → Step
            (record { client = s; world = w; lent = lent })
            (record { client = s'; world = w'; lent = lent })

  pub data Reach (s : System W) : System W → Type 1 where
    here : Reach s s
    next : {t u : System W} → Reach s t → Step t u → Reach s u

-- No connection is held twice, whether by the pool or by requests, and the pool keeps its size.
pub record IsSafe {W : Type 0} (sys : System W) : Type 0 where
  pub single : (k : ℕ) → count k sys.client.pool + count k sys.lent ≤ 1
  pub small : length sys.client.pool ≤ sys.client.pool_size

-- The pool of `s'` is that of `s`, or that and a connection with the socket of `cn`, in its size.
record Returns (cn : Conn ℕ) (s s' : Client ℕ) : Type 0 where
  pub counts : (k : ℕ) → count k s'.pool ≤ count k s.pool + count k (cn ∷ [])
  pub small : length s.pool ≤ s.pool_size → length s'.pool ≤ s'.pool_size

module _ {W : Type 0} (net : Network W ℕ) where
  put-Returns : (cn : Conn ℕ) (s : Client ℕ) (w : W) → Returns cn s (put net cn s w).0
  unfolding put
  put-Returns cn s w = elim (Bool-cases (ltb (length s.pool) s.pool_size)) [
    | inl e ↦
        rw (put, e)
          (record {
            counts = λ k. omega (arith, count-append k s.pool (cn ∷ []));
            small = λ h. ground (arith, e, length-append s.pool (cn ∷ []));
          })
    | inr e ↦ rw (put, e) (record { counts = λ k. omega arith; small = λ h. h })
  ]

  keeps-Returns : (cn : Conn ℕ) (s : Client ℕ) → Returns cn s s
  keeps-Returns cn s = record { counts = λ k. omega arith; small = λ h. h }

  -- What a request returns is the connection that it took.
  abbrev IsSame : {A : Type 0} → Conn ℕ → Result Error (A × Conn ℕ) → Type 0
  IsSame cn (ok (a, cn')) = cn'.sock ≡ cn.sock
  IsSame cn (err e) = Unit {0}
  IsSame cn panic = Unit {0}

  answered-IsSame :
      {A : Type 0} (cn : Conn ℕ) (r : Result Resp.Error (A × Bytes))
      → IsSame cn (answered cn.sock r)
  unfolding answered
  answered-IsSame cn (ok (a, rest)) = refl
  answered-IsSame cn (err e) = tt
  answered-IsSame cn panic = tt

  ask-IsSame :
      {A : Type 0} (cn : Conn ℕ) (w : W) (b : Bytes) (read : Bytes → Result Resp.Error (A × Bytes))
      → IsSame cn (ask net cn b read w).0
  unfolding ask
  ask-IsSame cn w b read = elim (Option-cases (net.exchange w cn.sock b).1) [
    | inl e ↦ rw (ask, e) tt
    | inr (a, e) ↦ rw (ask, e) (answered-IsSame cn (read (cn.unread ++ a)))
  ]

  settle-Returns :
      {A : Type 0} (cn : Conn ℕ) (s : Client ℕ) (r : Result Error (A × Conn ℕ)) (w : W)
      → IsSame cn r
      → Returns cn s (settle net cn s (r, w)).1.0
  unfolding settle count
  settle-Returns cn s (ok (a, cn')) w h =
      let p = put-Returns cn' s w in record { counts = λ k. rw (← h) (p.counts k); small = p.small }
  settle-Returns cn s (err e) w h = keeps-Returns cn s
  settle-Returns cn s panic w h = keeps-Returns cn s

  -- A connection that goes back was lent, once.
  back-IsSafe :
      {s s' : Client ℕ} {w w' : W} (front back : List (Conn ℕ)) (cn : Conn ℕ)
      → Returns cn s s'
      → IsSafe {W = W} (record { client = s; world = w; lent = front ++ cn ∷ back })
      → IsSafe {W = W} (record { client = s'; world = w'; lent = front ++ back })
  unfolding count
  back-IsSafe front back cn r safe = record {
    single = λ k. omega (
      arith,
      r.counts k,
      safe.single k,
      count-append k front (cn ∷ back),
      count-append k front back,
    );
    small = r.small safe.small;
  }

  -- A new connection is lent.
  fresh_single :
      (cn : Conn ℕ) (pool lent : List (Conn ℕ))
      → count cn.sock pool + count cn.sock lent ≡ 0
      → ((k : ℕ) → count k pool + count k lent ≤ 1)
      → (k : ℕ) → count k pool + count k (cn ∷ lent) ≤ 1
  unfolding count
  fresh_single cn pool lent fresh safe k = elim (Bool-cases (cn.sock == k)) [
    | inl e ↦
        let same : cn.sock ≡ k = (==_iff cn.sock k).0 e in
        rw e (omega (arith, subst (λ j. count j pool + count j lent ≡ 0) same fresh))
    | inr e ↦ rw e (omega (arith, safe k))
  ]

  takes-IsSafe :
      {s s' : Client ℕ} {w w' : W} {lent : List (Conn ℕ)} {cn : Conn ℕ} (pool : List (Conn ℕ))
      → s.pool ≡ pool
      → get net s w ≡ (ok cn, (s', w'))
      → (s.pool ≡ [] → count cn.sock lent ≡ 0)
      → IsSafe {W = W} (record { client = s; world = w; lent = lent })
      → IsSafe {W = W} (record { client = s'; world = w'; lent = cn ∷ lent })
  unfolding get count
  takes-IsSafe {s} {s'} {w} {w'} {lent} {cn} [] h e fresh safe =
      let same : s ≡ s' = ap (λ z. z.1.0) (rw (get, h) at e) in
      subst (λ c. IsSafe {W = W} (record { client = c; world = w'; lent = cn ∷ lent })) same
        (record {
          single = fresh_single cn s.pool lent (rw h (omega (arith, fresh h))) safe.single;
          small = safe.small;
        })
  takes-IsSafe {s} {s'} {w} {w'} {lent} {cn} (c ∷ rest) h e fresh safe =
      let hit : (ok c, (record s { pool = rest }, w)) ≡ (ok cn, (s', w')) = rw (get, h) at e in
      let same : record s { pool = rest } ≡ s' = ap (λ z. z.1.0) hit in
      let first : c ≡ cn = cc (ap (λ z. z.0) hit) in
      subst (λ c. IsSafe {W = W} (record { client = c; world = w'; lent = cn ∷ lent })) same
        (record {
          single = λ k.
              omega
                (arith, safe.single k, ap (count k) h, ap (λ (x : Conn ℕ). count k (x ∷ [])) first);
          small = omega (arith, safe.small, ap length h);
        })

  closed-IsSafe :
      (s : Client ℕ) (w w' : W) (lent : List (Conn ℕ))
      → IsSafe {W = W} (record { client = s; world = w; lent = lent })
      → IsSafe {W = W} (record { client = (close net s w).0; world = w'; lent = lent })
  unfolding close count
  closed-IsSafe s w w' lent safe = record {
    single = λ k. omega (arith, safe.single k);
    small = omega arith;
  }

  -- x
  pub Step-IsSafe : {s t : System W} → Step net s t → IsSafe s → IsSafe t
  Step-IsSafe (takes {s} e fresh) safe = takes-IsSafe s.pool refl e fresh safe
  Step-IsSafe (dials {s = s} {lent = lent} {cn = cn} e fresh) safe = record {
    single = fresh_single cn s.pool lent fresh safe.single;
    small = safe.small;
  }
  Step-IsSafe (ends {s} {s'} {w} {w'} front back cn b read e) safe =
      back-IsSafe front back cn
        (subst (λ c. Returns cn s c) (ap (λ z. z.1.0) e)
          (settle-Returns cn s (ask net cn b read w).0 (ask net cn b read w).1
            (ask-IsSame cn w b read)))
        safe
  Step-IsSafe (puts {s} {s'} {w} {w'} front back cn e) safe =
      back-IsSafe front back cn (subst (λ c. Returns cn s c) (ap (λ z. z.0) e) (put-Returns cn s w))
        safe
  Step-IsSafe (drops front back cn) safe = back-IsSafe front back cn (keeps-Returns cn _) safe
  Step-IsSafe (closes {s} {s'} {w} {w'} {lent} e) safe =
      subst (λ c. IsSafe {W = W} (record { client = c; world = w'; lent = lent })) (ap (λ z. z.0) e)
        (closed-IsSafe s w w' lent safe)

  -- In every sequence of steps of requests that take connections, end their exchange, or warm,
  -- put, close them, where a dialled socket is none of those in use, from a state where no
  -- connection is held twice and the pool keeps its size: no connection is ever held twice,
  -- whether by the pool or by requests, and the pool never has more than its size.
  pub Reach-IsSafe : {s t : System W} → IsSafe s → Reach net s t → IsSafe t
  Reach-IsSafe h here = h
  Reach-IsSafe h (next r st) = Step-IsSafe st (Reach-IsSafe h r)

-- ===== src/Capacity/Knee.antt =====
-- On stress/cmd/capacity/main.go: what the knee is.
use mathlib.Core.Path.{subst, sym}
use mathlib.Core.Bool.{false≢true}
use the_500mb_club_challenge.Prelude.{
  some, get_elem?, inr, Bool-cases, ◌⊎◌, ◌≤◌, arith, true, All, inl, [], ◌∷◌, List, Bytes, ℕ, ◌≡◌,
  refl, ap, ◌∙◌, suc, map,
}
use the_500mb_club_challenge.Capacity.{Outcome, passes, knee_from, knee, parse_rates, sweep}

-- From one to the next the rates grow, from `low` on.
abbrev pub IsAscending : ℕ → List ℕ → Type 0
IsAscending low [] = Unit {0}
IsAscending low (r ∷ rs) = (low ≤ r) × IsAscending r rs

IsAscending-weaken :
    (low high : ℕ) (rs : List ℕ) → low ≤ high → IsAscending high rs → IsAscending low rs
IsAscending-weaken low high [] h hs = tt
IsAscending-weaken low high (r ∷ rs) h (k, hs) = (omega (arith, h, k), hs)

-- `k` is no smaller than the rates of the steps that pass, and is the rate of one, or `old`.
pub record IsKnee (old : ℕ) (steps : List (ℕ × Outcome)) (k : ℕ) : Type 0 where
  pub highest : All (λ t. passes t.1 ≡ true → t.0 ≤ k) steps
  pub reached :
      (k ≡ old) ⊎ ((i : ℕ) × (o : Outcome) × (get_elem? steps i ≡ some (k, o)) × (passes o ≡ true))
  pub no_less : old ≤ k

-- What is known of the later steps, said of all.
IsKnee-cons :
    (old new r : ℕ) (o : Outcome) (ts : List (ℕ × Outcome)) (k : ℕ)
    → (passes o ≡ true → r ≤ k)
    → (new ≡ old) ⊎ (new ≡ r) × (passes o ≡ true)
    → old ≤ new
    → IsKnee new ts k
    → IsKnee old ((r, o) ∷ ts) k
IsKnee-cons old new r o ts k bound origin le t = record {
  highest = (bound, t.highest);
  no_less = ground (arith, le, t.no_less);
  reached = elim t.reached [
    | inr (i, o', at, ok) ↦ inr (suc i, o', at, ok)
    | inl same ↦ elim origin [
      | inl e ↦ inl (same ∙ e)
      | inr (e, ok) ↦ inr (0, o, ap (λ x. some (x, o)) (sym (same ∙ e)), ok)
    ]
  ];
}

knee_from-IsKnee :
    (old : ℕ) (steps : List (ℕ × Outcome))
    → IsAscending old (map (λ t. t.0) steps)
    → IsKnee old steps (knee_from old steps)
unfolding knee_from
knee_from-IsKnee old [] h = record { highest = tt; reached = inl refl; no_less = omega arith }
knee_from-IsKnee old ((r, o) ∷ ts) (h, hs) = elim (Bool-cases (passes o)) [
  | inl e ↦
      let t = knee_from-IsKnee r ts hs in
      rw (knee_from, e)
        (IsKnee-cons old r r o ts (knee_from r ts) (λ _. t.no_less) (inr (refl, e)) h t)
  | inr e ↦
      let t = knee_from-IsKnee old ts (IsAscending-weaken old r (map (λ t. t.0) ts) h hs) in
      rw (knee_from, e)
        (IsKnee-cons old old r o ts (knee_from old ts) (λ q. absurd (false≢true (sym e ∙ q)))
          (inl refl) (omega arith) t)
]

sweep-rates :
    {W : Type 0} (run : W → ℕ → Outcome × W) (rates : List ℕ) (w : W)
    → map (λ t. t.0) (sweep run rates w) ≡ rates
unfolding sweep
sweep-rates run [] w = refl
sweep-rates run (r ∷ rs) w = ap (λ l. r ∷ l) (sweep-rates run rs (run w r).1)

-- If the rates that are parsed do not decrease, the knee of a sweep is no smaller than the rate of
-- any step that passes, and is 0 or the rate of a step that passes, whatever the runs come to.
pub knee-IsKnee :
    {W : Type 0} (run : W → ℕ → Outcome × W) (rates : Bytes) (w : W)
    → IsAscending 0 (parse_rates rates)
    → IsKnee 0 (sweep run (parse_rates rates) w) (knee run rates w)
unfolding knee
knee-IsKnee run rates w h =
    knee_from-IsKnee 0 (sweep run (parse_rates rates) w)
      (subst (IsAscending 0) (sym (sweep-rates run (parse_rates rates) w)) h)

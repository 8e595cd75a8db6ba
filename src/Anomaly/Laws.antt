-- ===== src/Anomaly/Laws.antt =====
-- On internal/anomaly/anomaly.go: the window of points, and a magnitude that is too large.
use the_500mb_club_challenge.Golang.Float64.{is_nan, f_0, Float64}
use the_500mb_club_challenge.Model.Point.{Point}
use the_500mb_club_challenge.Golang.Arith.{
  float_of_nat, float_eq, nan_bits, float_sqrt, inf_bits, float_mul, float_sub, float_div,
  float_add,
}
use the_500mb_club_challenge.Anomaly.{
  newest_magnitude, min_samples, newest_window, score_of, Score, window, magnitude, z_of,
  accumulate, welford, score, compute,
}
use the_500mb_club_challenge.Prelude.{
  inr, inl, ltb, [], Bool-cases, append-nil, take-append, sym, take, ap, ◌∙◌, arith, false, some,
  length-append, true, ◌+◌, ◌≤◌, ◌∷◌, ◌++◌, length, List, ℕ, ◌≡◌, refl,
}

empty_of_length : (l : List Point) → length l ≡ 0 → l ≡ []
empty_of_length [] h = refl
empty_of_length (p ∷ l) h = absurd (omega (arith, h))

not_ltb : (m n : ℕ) → n ≤ m → ltb m n ≡ false
not_ltb m n h = ground (arith, h)

not_ltb_le : (m n : ℕ) → ltb m n ≡ false → n ≤ m
not_ltb_le m n h = ground (arith, h)

newest_window-append :
    (points older : List Point) → length points ≡ window → newest_window (points ++ older) ≡ points
unfolding newest_window
newest_window-append points older h =
    let front : take window (points ++ older) ≡ points =
      ap (λ n. take n (points ++ older)) (sym h) ∙ take-append points older in
    elim (Bool-cases (ltb window (length (points ++ older)))) [
      | inl e ↦ rw (newest_window, e) front
      | inr e ↦
          let none_older : older ≡ [] = empty_of_length older (
            omega (
              arith,
              not_ltb_le window (length (points ++ older)) e,
              h,
              length-append points older,
            )) in
          rw (newest_window, e) (ap (λ l. points ++ l) none_older ∙ append-nil points)
    ]

pub compute_enough :
    (points : List Point)
    → min_samples ≤ length points
    → compute points ≡ some (score_of (newest_window points))
unfolding compute
compute_enough points h = rw (not_ltb (length points) min_samples h) refl

-- Compute on 256 points, newest first, and any older ones behind them gives what it gives on the
-- 256: older points have no influence on the score.
pub compute-append :
    (points older : List Point)
    → length points ≡ window
    → compute (points ++ older) ≡ compute points
compute-append points older h =
    compute_enough (points ++ older) (omega (arith, h, length-append points older))
    ∙ ap (λ l. some (score_of l))
        (newest_window-append points older h
          ∙ sym (newest_window-append points [] h)
          ∙ ap newest_window (append-nil points))
    ∙ sym (compute_enough points (omega (arith, h)))

nan_add : (a : Float64) → float_add nan_bits a ≡ nan_bits
unfolding float_add
nan_add a = refl

-- A sum of squares that is NaN stays so.
welford_nan :
    (i : ℕ) (mag : Float64) (acc : Float64 × Float64)
    → acc.1 ≡ nan_bits
    → (welford i mag acc).1 ≡ nan_bits
unfolding welford
welford_nan i mag acc h =
    let mean : Float64 = (welford i mag acc).0 in
    let square : Float64 = float_mul (float_sub mag acc.0) (float_sub mag mean) in
    ap (λ m2. float_add m2 square) h ∙ nan_add square

accumulate_nan :
    (i : ℕ) (points : List Point) (acc : Float64 × Float64)
    → acc.1 ≡ nan_bits
    → (accumulate i points acc).1 ≡ nan_bits
unfolding accumulate
accumulate_nan i [] acc h = h
accumulate_nan i (p ∷ ps) acc h =
    accumulate_nan (i + 1) ps (welford i (magnitude p) acc) (welford_nan i (magnitude p) acc h)

-- The first magnitude is +Inf.
welford_inf : (welford 0 inf_bits (f_0, f_0)).1 ≡ nan_bits
unfolding welford float_add float_sub float_mul float_div float_of_nat
welford_inf = refl

div_nan : (a : Float64) → float_div a nan_bits ≡ nan_bits
unfolding float_div
div_nan a = elim (Bool-cases (is_nan a)) [ inl e ↦ rw e refl | inr e ↦ rw e refl ]

nan_div : (a : Float64) → float_sqrt (float_div nan_bits a) ≡ nan_bits
unfolding float_div float_sqrt
nan_div a = refl

z_of_nan : (newest mean : Float64) → z_of newest mean nan_bits ≡ nan_bits
unfolding z_of float_eq
z_of_nan newest mean = div_nan (float_sub newest mean)

nan_is_nan : is_nan nan_bits ≡ true
unfolding is_nan
nan_is_nan = refl

score_nan :
    (points : List Point) (newest : Float64) (acc : Float64 × Float64)
    → acc.1 ≡ nan_bits
    → is_nan (score points newest acc).z_score ≡ true
unfolding score
score_nan points newest acc h =
    let deviation : float_sqrt (float_div acc.1 (float_of_nat (length points))) ≡ nan_bits =
      ap (λ m. float_sqrt (float_div m (float_of_nat (length points)))) h
      ∙ nan_div (float_of_nat (length points)) in
    ap (λ s. is_nan (z_of newest acc.0 s)) deviation
    ∙ ap is_nan (z_of_nan newest acc.0)
    ∙ nan_is_nan

-- The window begins with the newest point.
newest_window-cons :
    (p : Point) (ps : List Point) → (qs : List Point) × (newest_window (p ∷ ps) ≡ p ∷ qs)
unfolding newest_window
newest_window-cons p ps = elim (Bool-cases (ltb window (length (p ∷ ps)))) [
  | inl e ↦ (take 255 ps, rw (newest_window, e) refl)
  | inr e ↦ (ps, rw (newest_window, e) refl)
]

score_of_overflow :
    (p : Point) (ps : List Point)
    → magnitude p ≡ inf_bits
    → is_nan (score_of (p ∷ ps)).z_score ≡ true
unfolding score_of accumulate newest_magnitude
score_of_overflow p ps h = score_nan (p ∷ ps) (magnitude p) (accumulate 0 (p ∷ ps) (f_0, f_0)) (
    accumulate_nan 1 ps (welford 0 (magnitude p) (f_0, f_0))
      (ap (λ m. (welford 0 m (f_0, f_0)).1) h ∙ welford_inf))

-- Where the newest magnitude is +Inf, the score is NaN.
pub compute_overflow :
    (p : Point) (ps : List Point)
    → magnitude p ≡ inf_bits
    → min_samples ≤ length (p ∷ ps)
    → (r : Score) × (compute (p ∷ ps) ≡ some r) × (is_nan r.z_score ≡ true)
compute_overflow p ps h n =
    let (qs, e) = newest_window-cons p ps in
    (
      score_of (newest_window (p ∷ ps)),
      compute_enough (p ∷ ps) n,
      ap (λ l. is_nan (score_of l).z_score) e ∙ score_of_overflow p qs h,
    )

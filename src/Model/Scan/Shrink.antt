-- ===== src/Model/Scan/Shrink.antt =====
-- On internal/model/fastjson.go: how much of the text a step of the scanner leaves.
use the_500mb_club_challenge.Prelude.{
  ℕ, zero, suc, ◌+◌, ◌-◌, ◌≤◌, ◌≡◌, ap, Option, none, some, [], ◌∷◌, ◌==◌, Bytes, codes, length,
  length-append, arith, Bool-cases, Option-cases, inl, inr,
}
use the_500mb_club_challenge.Prelude.Int.{ℤ}
use the_500mb_club_challenge.Golang.Strconv.{parse_int}
use the_500mb_club_challenge.Golang.ParseFloat.{parse_float}
use the_500mb_club_challenge.Golang.Float64.{Float64}
use the_500mb_club_challenge.Model.Scan.{
  skip_ws, string_loop, consume, scan_number_literal, int_literal, float_literal, read_int,
  read_float,
}
use the_500mb_club_challenge.Model.Scan.Object.{container_loop, skip_container, skip_value}
use the_500mb_club_challenge.Model.Scan.Fuel.{string_loop_rest}
use the_500mb_club_challenge.Model.Scan.Literal.{scan_number_literal-append}

-- What a step leaves is no longer than `n`.
abbrev pub Within : {A : Type 0} → ℕ → Option (A × Bytes) → Type 0
Within n none = Unit {0}
Within n (some (a, r)) = length r ≤ n

abbrev pub Left : ℕ → Option Bytes → Type 0
Left n none = Unit {0}
Left n (some r) = length r ≤ n

pub skip_ws_le : (s : Bytes) → length (skip_ws s) ≤ length s
unfolding skip_ws
skip_ws_le [] = omega arith
skip_ws_le (c ∷ s) = ground (arith, skip_ws_le s)

consume-Left : (lit s : Bytes) → Left (length s) (consume lit s)
unfolding consume
consume-Left [] s = omega arith
consume-Left (l ∷ lit) [] = tt
consume-Left (l ∷ lit) (c ∷ s) = elim (Bool-cases (c == l)) [
  | inl e ↦ elim (Option-cases (consume lit s)) [
    | inl q ↦ rw (consume, e, q) tt
    | inr (r, q) ↦ rw (consume, e, q) (omega (arith, rw q at (consume-Left lit s)))
  ]
  | inr e ↦ rw (consume, e) tt
]

number_rest : (s lit r : Bytes) → scan_number_literal s ≡ some (lit, r) → length r ≤ length s
number_rest s lit r h =
    omega (arith, ap length (scan_number_literal-append s lit r h), length-append lit r)

Left-le : (n m : ℕ) (o : Option Bytes) → n ≤ m → Left n o → Left m o
Left-le n m none h k = tt
Left-le n m (some r) h k = omega arith

container_loop-Left :
    (f open' close depth : ℕ) (s : Bytes) → Left (length s) (container_loop f open' close depth s)
unfolding container_loop
container_loop-Left zero open' close depth s = tt
container_loop-Left (suc f) open' close depth [] = tt
container_loop-Left (suc f) open' close depth (c ∷ s) =
    let step : (d : ℕ) → Left (suc (length s)) (container_loop f open' close d s) = λ d.
      Left-le (length s) (suc (length s)) _ (omega arith) (container_loop-Left f open' close d s) in
    elim (Bool-cases (c == b'"')) [
      | inl e ↦ elim (Option-cases (string_loop s)) [
        | inl q ↦ rw (container_loop, e, q) tt
        | inr ((a, r), q) ↦
            rw (container_loop, e, q)
              (Left-le (length r) (suc (length s)) _ (omega (arith, string_loop_rest s a r q))
                (container_loop-Left f open' close depth r))
      ]
      | inr e ↦ elim (Bool-cases (c == open')) [
        | inl k ↦ rw (container_loop, e, k) (step (depth + 1))
        | inr k ↦ elim (Bool-cases (c == close)) [
          | inl m ↦ elim (Bool-cases (depth == 1)) [
            | inl d ↦ rw (container_loop, e, k, m, d) (omega arith)
            | inr d ↦ rw (container_loop, e, k, m, d) (step (depth - 1))
          ]
          | inr m ↦ rw (container_loop, e, k, m) (step depth)
        ]
      ]
    ]

skip_container-Left : (open' close : ℕ) (s : Bytes) → Left (length s) (skip_container open' close s)
unfolding skip_container
skip_container-Left open' close s = container_loop-Left (length s) open' close 0 s

pub skip_value-Left : (s : Bytes) → Left (length s) (skip_value s)
unfolding skip_value
skip_value-Left [] = tt
skip_value-Left (c ∷ s) = elim (Bool-cases (c == b'"')) [
  | inl e ↦ elim (Option-cases (string_loop s)) [
    | inl q ↦ rw (skip_value, e, q) tt
    | inr ((a, r), q) ↦ rw (skip_value, e, q) (omega (arith, string_loop_rest s a r q))
  ]
  | inr e ↦ elim (Bool-cases (c == b'{')) [
    | inl k ↦ rw (skip_value, e, k) (skip_container-Left b'{' b'}' (c ∷ s))
    | inr k ↦ elim (Bool-cases (c == b'[')) [
      | inl k2 ↦ rw (skip_value, e, k, k2) (skip_container-Left b'[' b']' (c ∷ s))
      | inr k2 ↦ elim (Bool-cases (c == b't')) [
        | inl k3 ↦ rw (skip_value, e, k, k2, k3) (consume-Left (codes "true") (c ∷ s))
        | inr k3 ↦ elim (Bool-cases (c == b'f')) [
          | inl k4 ↦ rw (skip_value, e, k, k2, k3, k4) (consume-Left (codes "false") (c ∷ s))
          | inr k4 ↦ elim (Bool-cases (c == b'n')) [
            | inl k5 ↦ rw (skip_value, e, k, k2, k3, k4, k5) (consume-Left (codes "null") (c ∷ s))
            | inr k5 ↦ elim (Option-cases (scan_number_literal (c ∷ s))) [
              | inl q ↦ rw (skip_value, e, k, k2, k3, k4, k5, q) tt
              | inr ((lit, r), q) ↦
                  rw (skip_value, e, k, k2, k3, k4, k5, q) (number_rest (c ∷ s) lit r q)
            ]
          ]
        ]
      ]
    ]
  ]
]

int_literal-Within : (s : Bytes) → Within (length s) (int_literal s)
unfolding int_literal
int_literal-Within s = elim (Option-cases (scan_number_literal s)) [
  | inl q ↦ rw (int_literal, q) tt
  | inr ((lit, r), q) ↦ elim (Option-cases (parse_int lit)) [
    | inl k ↦ rw (int_literal, q, k) tt
    | inr (v, k) ↦ rw (int_literal, q, k) (number_rest s lit r q)
  ]
]

float_literal-Within : (s : Bytes) → Within (length s) (float_literal s)
unfolding float_literal
float_literal-Within s = elim (Option-cases (scan_number_literal s)) [
  | inl q ↦ rw (float_literal, q) tt
  | inr ((lit, r), q) ↦ elim (Option-cases (parse_float lit)) [
    | inl k ↦ rw (float_literal, q, k) tt
    | inr (v, k) ↦ rw (float_literal, q, k) (number_rest s lit r q)
  ]
]

pub read_int-Within : (dst : Option ℤ) (s : Bytes) → Within (length s) (read_int dst s)
unfolding read_int
read_int-Within dst s = elim (Option-cases (consume (codes "null") s)) [
  | inl q ↦ elim (Option-cases (int_literal s)) [
    | inl k ↦ rw (read_int, q, k) tt
    | inr ((v, r), k) ↦ rw (read_int, q, k) (rw k at (int_literal-Within s))
  ]
  | inr (r, q) ↦ rw (read_int, q) (rw q at (consume-Left (codes "null") s))
]

pub read_float-Within : (dst : Option Float64) (s : Bytes) → Within (length s) (read_float dst s)
unfolding read_float
read_float-Within dst s = elim (Option-cases (consume (codes "null") s)) [
  | inl q ↦ elim (Option-cases (float_literal s)) [
    | inl k ↦ rw (read_float, q, k) tt
    | inr ((v, r), k) ↦ rw (read_float, q, k) (rw k at (float_literal-Within s))
  ]
  | inr (r, q) ↦ rw (read_float, q) (rw q at (consume-Left (codes "null") s))
]

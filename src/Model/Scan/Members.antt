-- ===== src/Model/Scan/Members.antt =====
-- On internal/model/fastjson.go: how the loop over the members of an object ends.
use the_500mb_club_challenge.Model.Scan.Consumed.{read_member-Within}
use the_500mb_club_challenge.Prelude.{
  List-cases, ◌∙◌, false, true, sym, ℕ, zero, suc, ◌≤◌, ◌<◌, ◌≡◌, refl, ap, Option, none, some, [],
  ◌∷◌, ◌==◌, Bytes, length, arith, Bool-cases, Option-cases, inl, inr,
}
use the_500mb_club_challenge.Model.Point.{◌>>=◌, PointJson}
use the_500mb_club_challenge.Model.Scan.{skip_ws, trailing_only_ws, read_key}
use the_500mb_club_challenge.Model.Scan.Object.{
  skip_container, after_brace, no_fields, scan_point_json, expect, read_member, member_loop,
}
use the_500mb_club_challenge.Model.Scan.Fuel.{IsSkip-unique, skip_container-IsSkip, IsSkip}
use the_500mb_club_challenge.Model.Scan.Shrink.{skip_ws_le}

-- The loop over the members as it runs, with no fuel: the fields so far, the text, and how it ends.
pub data IsScan : PointJson → Bytes → Option PointJson → Type 0 where
  refused : {pj : PointJson} {s : Bytes} → read_member s pj ≡ none → IsScan pj s none
  cut_off :
      {pj v : PointJson} {s r : Bytes}
      → read_member s pj ≡ some (v, r)
      → skip_ws r ≡ []
      → IsScan pj s none
  comma :
      {pj v : PointJson} {s r rest : Bytes} {c : ℕ} {o : Option PointJson}
      → read_member s pj ≡ some (v, r)
      → skip_ws r ≡ c ∷ rest
      → c == b',' ≡ true
      → IsScan v rest o
      → IsScan pj s o
  brace :
      {pj v : PointJson} {s r rest : Bytes} {c : ℕ}
      → read_member s pj ≡ some (v, r)
      → skip_ws r ≡ c ∷ rest
      → c == b',' ≡ false
      → c == b'}' ≡ true
      → IsScan pj s (trailing_only_ws v rest)
  other :
      {pj v : PointJson} {s r rest : Bytes} {c : ℕ}
      → read_member s pj ≡ some (v, r)
      → skip_ws r ≡ c ∷ rest
      → c == b',' ≡ false
      → c == b'}' ≡ false
      → IsScan pj s none

-- `scanPointJSON` with that loop.
pub data IsObject : Bytes → Option PointJson → Type 0 where
  no_brace : {b : Bytes} → expect b'{' (skip_ws b) ≡ none → IsObject b none
  unfinished :
      {b s : Bytes} {o : Option PointJson}
      → expect b'{' (skip_ws b) ≡ some s
      → skip_ws s ≡ []
      → IsScan no_fields [] o
      → IsObject b o
  empty :
      {b s rest : Bytes} {c : ℕ}
      → expect b'{' (skip_ws b) ≡ some s
      → skip_ws s ≡ c ∷ rest
      → c == b'}' ≡ true
      → IsObject b (trailing_only_ws no_fields rest)
  members :
      {b s rest : Bytes} {c : ℕ} {o : Option PointJson}
      → expect b'{' (skip_ws b) ≡ some s
      → skip_ws s ≡ c ∷ rest
      → c == b'}' ≡ false
      → IsScan no_fields (c ∷ rest) o
      → IsObject b o

read_member_nil : (pj : PointJson) → read_member [] pj ≡ none
unfolding read_member skip_ws read_key
read_member_nil pj = refl

-- What stands behind a member is shorter than what stood there before.
rest_shorter :
    (pj : PointJson) (s : Bytes) {v : PointJson} {r rest : Bytes} {c : ℕ}
    → read_member s pj ≡ some (v, r)
    → skip_ws r ≡ c ∷ rest
    → length rest < length s
rest_shorter pj s {r = r} q k =
    let bound : length r ≤ length s = rw q at (read_member-Within s pj) in
    omega (arith, bound, skip_ws_le r, ap length k)

member_loop-IsScan :
    (fuel : ℕ) (pj : PointJson) (s : Bytes) → length s ≤ fuel → IsScan pj s (member_loop fuel pj s)
unfolding member_loop
member_loop-IsScan zero pj [] h = refused (read_member_nil pj)
member_loop-IsScan zero pj (c ∷ s) h = absurd (omega arith)
member_loop-IsScan (suc fuel) pj s h = elim (Option-cases (read_member s pj)) [
  | inl q ↦ rw (member_loop, q) (refused q)
  | inr ((v, r), q) ↦ elim (List-cases (skip_ws r)) [
    | inl k ↦ rw (member_loop, q, ◌>>=◌, k) (cut_off q k)
    | inr (c, rest, k) ↦ elim (Bool-cases (c == b',')) [
      | inl e ↦
          rw (member_loop, q, ◌>>=◌, k, e)
            (comma q k e (member_loop-IsScan fuel v rest (omega (arith, rest_shorter pj s q k))))
      | inr e ↦ elim (Bool-cases (c == b'}')) [
        | inl m ↦ rw (member_loop, q, ◌>>=◌, k, e, m) (brace q k e m)
        | inr m ↦ rw (member_loop, q, ◌>>=◌, k, e, m) (other q k e m)
      ]
    ]
  ]
]

-- With a step to spare, the loop on fuel ends as the loop does.
IsScan-member_loop :
    (fuel : ℕ) {pj : PointJson} {s : Bytes} {o : Option PointJson}
    → IsScan pj s o
    → length s < fuel
    → member_loop fuel pj s ≡ o
unfolding member_loop
IsScan-member_loop zero p h = absurd (omega arith)
IsScan-member_loop (suc fuel) (refused q) h = rw (member_loop, q) refl
IsScan-member_loop (suc fuel) (cut_off q k) h = rw (member_loop, q, ◌>>=◌, k) refl
IsScan-member_loop (suc fuel) (comma {pj = pj} {s = s} q k e p) h =
    rw (member_loop, q, ◌>>=◌, k, e)
      (IsScan-member_loop fuel p (omega (arith, rest_shorter pj s q k)))
IsScan-member_loop (suc fuel) (brace q k e m) h = rw (member_loop, q, ◌>>=◌, k, e, m) refl
IsScan-member_loop (suc fuel) (other q k e m) h = rw (member_loop, q, ◌>>=◌, k, e, m) refl

-- The fuel of `after_brace` is enough, and the loop has one way to end.
IsScan-unique :
    (fuel : ℕ) {pj : PointJson} {s : Bytes} {o : Option PointJson}
    → length s ≤ fuel
    → IsScan pj s o
    → o ≡ member_loop fuel pj s
IsScan-unique fuel {pj = pj} {s = s} h p =
    sym (IsScan-member_loop (suc (length s)) p (omega arith))
    ∙ IsScan-member_loop (suc (length s)) (member_loop-IsScan fuel pj s h) (omega arith)

scan_point_json-IsObject : (b : Bytes) → IsObject b (scan_point_json b)
unfolding scan_point_json after_brace
scan_point_json-IsObject b = elim (Option-cases (expect b'{' (skip_ws b))) [
  | inl e ↦ rw (scan_point_json, e) (no_brace e)
  | inr (s, e) ↦ elim (List-cases (skip_ws s)) [
    | inl k ↦
        rw (scan_point_json, e, ◌>>=◌, k) (unfinished e k (refused (read_member_nil no_fields)))
    | inr (c, rest, k) ↦ elim (Bool-cases (c == b'}')) [
      | inl m ↦ rw (scan_point_json, e, ◌>>=◌, k, m) (empty e k m)
      | inr m ↦
          rw (scan_point_json, e, ◌>>=◌, k, m)
            (members e k m
              (member_loop-IsScan (suc (length rest)) no_fields (c ∷ rest) (omega arith)))
    ]
  ]
]

IsObject-scan_point_json : (b : Bytes) (o : Option PointJson) → IsObject b o → o ≡ scan_point_json b
unfolding scan_point_json after_brace member_loop
IsObject-scan_point_json b _ (no_brace e) = rw (scan_point_json, e) refl
IsObject-scan_point_json b o (unfinished e k p) =
    rw (scan_point_json, e, ◌>>=◌, k) (IsScan-unique 0 (omega arith) p)
IsObject-scan_point_json b _ (empty e k m) = rw (scan_point_json, e, ◌>>=◌, k, m) refl
IsObject-scan_point_json b o (members {rest = rest} e k m p) =
    rw (scan_point_json, e, ◌>>=◌, k, m) (IsScan-unique (suc (length rest)) (omega arith) p)

-- The scanner of an object and skipContainer end on every input, and as the loops of the code do:
-- the loop over the members and the loop of skipContainer, told without fuel by the rounds they
-- take, have exactly one result from where the code enters them, and it is the one that
-- scanPointJSON and skipContainer return; no error is for want of fuel.
pub scan_point_json-Ends :
    (b s : Bytes) (open' close : ℕ)
    → (IsObject b (scan_point_json b))
      × ((o : Option PointJson) → IsObject b o → o ≡ scan_point_json b)
      × (IsSkip open' close 0 s (skip_container open' close s))
      × ((o : Option Bytes) → IsSkip open' close 0 s o → o ≡ skip_container open' close s)
scan_point_json-Ends b s open' close = (
  scan_point_json-IsObject b,
  IsObject-scan_point_json b,
  skip_container-IsSkip open' close s,
  λ o p. IsSkip-unique open' close p (skip_container-IsSkip open' close s),
)

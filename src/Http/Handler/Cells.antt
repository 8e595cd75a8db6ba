-- ===== src/Http/Handler/Cells.antt =====
-- On internal/httpapi/handler.go: the cached cells of the counter by status.
use mathlib.Core.Path.{subst}
use the_500mb_club_challenge.Metrics.Series.{counted, find-counted, value, find_new}
use the_500mb_club_challenge.Golang.Strconv.{format_uint}
use the_500mb_club_challenge.Http.Handler.{
  State, statuses, make_cells, has_status, new_state, count_status,
}
use the_500mb_club_challenge.Prelude.{
  false, ◌∙◌, bytes_eq_sound, sym, ==_iff, inr, ◌==◌, bytes_eq, inl, ◌∷◌, [], Bool-cases, true,
  Option-cases, ◌++◌, List, some, Bytes, ℕ, ◌≡◌, refl,
}
use the_500mb_club_challenge.Metrics.{add_counter, with_value, find, Series}

-- A cell for every status that is cached.
pub record HasCells (s : Series) : Type 0 where
  pub cell :
      (code : ℕ) → has_status code statuses ≡ true → (v : ℕ) × (find (format_uint code) s ≡ some v)

find_old :
    (j k : Bytes) (v : ℕ) (s : Series) → find j s ≡ some v → find j (s ++ (k, 0) ∷ []) ≡ some v
unfolding find
find_old j k v [] h = absurd (cc h)
find_old j k v ((l, u) ∷ s) h = elim (Bool-cases (bytes_eq j l)) [
  | inl e ↦ rw e (rw e at h)
  | inr e ↦ rw e (find_old j k v s (rw e at h))
]

-- `With` keeps the cells, and makes its own.
with_value_old :
    (j k : Bytes) (v : ℕ) (s : Series) → find j s ≡ some v → find j (with_value k s) ≡ some v
unfolding with_value
with_value_old j k v s h = elim (Option-cases (find k s)) [
  | inl e ↦ rw (with_value, e) (find_old j k v s h)
  | inr (u, e) ↦ rw (with_value, e) h
]

with_value_new : (k : Bytes) (s : Series) → (v : ℕ) × (find k (with_value k s) ≡ some v)
unfolding with_value
with_value_new k s = elim (Option-cases (find k s)) [
  | inl e ↦ (0, rw (with_value, e) (find_new k s e))
  | inr (v, e) ↦ (v, rw (with_value, e) e)
]

make_cells_old :
    (j : Bytes) (v : ℕ) (cs : List ℕ) (s : Series)
    → find j s ≡ some v
    → find j (make_cells cs s) ≡ some v
unfolding make_cells
make_cells_old j v [] s h = h
make_cells_old j v (c ∷ cs) s h =
    make_cells_old j v cs (with_value (format_uint c) s) (with_value_old j (format_uint c) v s h)

has_status_later :
    (code c : ℕ) (cs : List ℕ) → (c == code) ≡ false → has_status code (c ∷ cs) ≡ has_status code cs
unfolding has_status
has_status_later code c cs h = rw h refl

make_cells_new :
    (code : ℕ) (cs : List ℕ) (s : Series)
    → has_status code cs ≡ true
    → (v : ℕ) × (find (format_uint code) (make_cells cs s) ≡ some v)
unfolding make_cells has_status
make_cells_new code [] s h = absurd (cc h)
make_cells_new code (c ∷ cs) s h = elim (Bool-cases (c == code)) [
  | inl e ↦
      let (v, q) = with_value_new (format_uint c) s in
      (
        v,
        make_cells_old (format_uint code) v cs (with_value (format_uint c) s) (
            subst (λ t. find (format_uint t) (with_value (format_uint c) s) ≡ some v)
              ((==_iff c code).0 e) q),
      )
  | inr e ↦
      make_cells_new code cs (with_value (format_uint c) s) (sym (has_status_later code c cs e) ∙ h)
]

pub new_state-HasCells : {S : Type 0} (store : S) → HasCells (new_state store).requests
unfolding new_state
new_state-HasCells store = record { cell = λ code h. make_cells_new code statuses [] h }

-- A response is counted in the cell of its status, be it cached or not.
pub count_status_lem :
    {S : Type 0} (code : ℕ) (st : State S)
    → HasCells st.requests
    → (count_status code st).requests ≡ counted (format_uint code) 1 st.requests
unfolding count_status counted with_value
count_status_lem code st h = elim (Bool-cases (has_status code statuses)) [
  | inl e ↦ let (v, q) = h.cell code e in rw (count_status, e, counted, with_value, q) refl
  | inr e ↦ rw (count_status, e, counted) refl
]

pub counted-HasCells : (k : Bytes) (n : ℕ) (s : Series) → HasCells s → HasCells (counted k n s)
counted-HasCells k n s h = record {
  cell = λ code e.
      let (v, q) = h.cell code e in
      elim (Bool-cases (bytes_eq (format_uint code) k)) [
        | inl p ↦ (
          _,
          subst (λ t. find t (counted k n s) ≡ some (add_counter (value k s) n))
              (sym (bytes_eq_sound _ k p)) (find-counted k n s).0,
        )
        | inr p ↦ (v, (find-counted k n s).1 (format_uint code) p ∙ q)
      ];
}

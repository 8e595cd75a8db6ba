-- ===== src/Load/Stats/Merge.antt =====
-- On stress/load/stats.go: samples that workers record at the same time.
use the_500mb_club_challenge.Load.Stats.Rank.{duration_order}
use the_500mb_club_challenge.Golang.Sort.Laws.{sort_by-length, sort_by-Perm}
use the_500mb_club_challenge.Golang.Sort.{sort_by}
use the_500mb_club_challenge.Prelude.Int.{ltb_ℤ, ℤ}
use mathlib.Core.List.{Perm, foldr, filter_map}
use mathlib.Core.List.Perm
use mathlib.Core.Path.{subst}
use native.Mathlib.Nat.{ℕ_set}
use the_500mb_club_challenge.Load.Stats.{
  no_samples, update_op, record_op, op_result, summarize, OpSamples, Stats, add_sample, lookup_op,
}
use the_500mb_club_challenge.Prelude.{
  Option-cases, true, false, bytes_eq_sound, append_assoc, ap, length, inr, append-nil, sym, inl,
  ◌∙◌, Bool-cases, map, ◌+◌, ◌++◌, Bool, bytes_eq, List, Bytes, if◌then◌else◌, Option, arith, [],
  ◌∷◌, some, none, ℕ, ◌≡◌, refl,
}

-- A sample of an operation: its latency, and whether it succeeded.
abbrev pub Sample : Type 0
Sample = ℤ × Bool

-- Samples, recorded in this order under the lock.
unfoldable pub record_all : List (Bytes × Sample) → Stats → Stats
unfolding record_op
record_all [] s = s
record_all ((op, (d, ok)) ∷ xs) s = record_all xs (record_op op d ok s)

abbrev or_none : Option OpSamples → OpSamples
or_none none = no_samples
or_none (some o) = o

-- What an operation's samples become under samples of its own.
absorb : Option OpSamples → List Sample → Option OpSamples
absorb o [] = o
absorb o ((d, ok) ∷ xs) = absorb (some (add_sample d ok (or_none o))) xs

abbrev mine : Bytes → Bytes × Sample → Option Sample
mine op (k, x) = if bytes_eq op k then some x else none

lookup_new :
    (op k : Bytes) (o : OpSamples) (ops : List (Bytes × OpSamples))
    → lookup_op k ops ≡ none
    → lookup_op op (ops ++ (k, o) ∷ []) ≡ (if bytes_eq op k then some o else lookup_op op ops)
unfolding lookup_op
lookup_new op k o [] h = refl
lookup_new op k o ((j, v) ∷ ops) h = elim (Bool-cases (bytes_eq k j)) [
  | inl e ↦ absurd (cc (rw e at h))
  | inr e ↦ elim (Bool-cases (bytes_eq op j)) [
    | inl p ↦ elim (Bool-cases (bytes_eq op k)) [
      | inl q ↦ absurd (cc (e, p, ap (λ t. bytes_eq t j) (bytes_eq_sound op k q)))
      | inr q ↦ rw (p, q) refl
    ]
    | inr p ↦ rw p (lookup_new op k o ops (rw e at h))
  ]
]

lookup_update :
    (op k : Bytes) (d : ℤ) (ok : Bool) (o : OpSamples) (ops : List (Bytes × OpSamples))
    → lookup_op k ops ≡ some o
    → lookup_op op (update_op k d ok ops)
      ≡ (if bytes_eq op k then some (add_sample d ok o) else lookup_op op ops)
unfolding lookup_op update_op
lookup_update op k d ok o [] h = absurd (cc h)
lookup_update op k d ok o ((j, v) ∷ ops) h = elim (Bool-cases (bytes_eq k j)) [
  | inl e ↦
      let same : j ≡ k = sym (bytes_eq_sound k j e) in
      let found : v ≡ o = cc (rw e at h) in
      elim (Bool-cases (bytes_eq op j)) [
        | inl p ↦
            rw (e, p, subst (λ t. bytes_eq op t ≡ true) same p)
              (ap (λ t. some (add_sample d ok t)) found)
        | inr p ↦ rw (e, p, subst (λ t. bytes_eq op t ≡ false) same p) refl
      ]
  | inr e ↦ elim (Bool-cases (bytes_eq op j)) [
    | inl p ↦ elim (Bool-cases (bytes_eq op k)) [
      | inl q ↦ absurd (cc (e, p, ap (λ t. bytes_eq t j) (bytes_eq_sound op k q)))
      | inr q ↦ rw (e, p, q) refl
    ]
    | inr p ↦ rw (e, p) (lookup_update op k d ok o ops (rw e at h))
  ]
]

lookup_record :
    (op k : Bytes) (d : ℤ) (ok : Bool) (s : Stats)
    → lookup_op op (record_op k d ok s).ops ≡ (
        if bytes_eq op k
        then some (add_sample d ok (or_none (lookup_op op s.ops)))
        else lookup_op op s.ops)
unfolding record_op
lookup_record op k d ok s = elim (Option-cases (lookup_op k s.ops)) [
  | inl e ↦ elim (Bool-cases (bytes_eq op k)) [
    | inl q ↦
        let missing : lookup_op op s.ops ≡ none =
          ap (λ t. lookup_op t s.ops) (bytes_eq_sound op k q) ∙ e in
        rw (record_op, e, q, missing)
          (lookup_new op k (add_sample d ok no_samples) s.ops e ∙ rw q refl)
    | inr q ↦
        rw (record_op, e, q) (lookup_new op k (add_sample d ok no_samples) s.ops e ∙ rw q refl)
  ]
  | inr (o, e) ↦ elim (Bool-cases (bytes_eq op k)) [
    | inl q ↦
        let found : lookup_op op s.ops ≡ some o =
          ap (λ t. lookup_op t s.ops) (bytes_eq_sound op k q) ∙ e in
        rw (record_op, e, q, found) (lookup_update op k d ok o s.ops e ∙ rw q refl)
    | inr q ↦ rw (record_op, e, q) (lookup_update op k d ok o s.ops e ∙ rw q refl)
  ]
]

-- Only an operation's own samples count for it.
lookup_record_all :
    (op : Bytes) (xs : List (Bytes × Sample)) (s : Stats)
    → lookup_op op (record_all xs s).ops ≡ absorb (lookup_op op s.ops) (filter_map (mine op) xs)
unfolding record_all absorb filter_map
lookup_record_all op [] s = refl
lookup_record_all op ((k, (d, ok)) ∷ xs) s =
    let rest = lookup_record_all op xs (record_op k d ok s) in
    elim (Bool-cases (bytes_eq op k)) [
      | inl e ↦
          let step : lookup_op op (record_op k d ok s).ops
              ≡ some (add_sample d ok (or_none (lookup_op op s.ops))) =
            rw e at (lookup_record op k d ok s) in
          rw e (rest ∙ ap (λ o. absorb o (filter_map (mine op) xs)) step)
      | inr e ↦
          let step : lookup_op op (record_op k d ok s).ops ≡ lookup_op op s.ops =
            rw e at (lookup_record op k d ok s) in
          rw e (rest ∙ ap (λ o. absorb o (filter_map (mine op) xs)) step)
    ]

-- The failures among samples.
abbrev failure : Sample → ℕ → ℕ
failure (d, ok) n = if ok then n else n + 1

absorb-durs :
    (xs : List Sample) (o : Option OpSamples)
    → (or_none (absorb o xs)).durs ≡ (or_none o).durs ++ map (λ x. x.0) xs
unfolding absorb add_sample
absorb-durs [] o = sym (append-nil (or_none o).durs)
absorb-durs ((d, ok) ∷ xs) o =
    absorb-durs xs (some (add_sample d ok (or_none o)))
    ∙ append_assoc (or_none o).durs (d ∷ []) (map (λ (x : Sample). x.0) xs)

absorb-fails :
    (xs : List Sample) (o : Option OpSamples)
    → (or_none (absorb o xs)).fails ≡ (or_none o).fails + foldr failure 0 xs
unfolding absorb add_sample
absorb-fails [] o = omega arith
absorb-fails ((d, true) ∷ xs) o = absorb-fails xs (some (add_sample d true (or_none o)))
absorb-fails ((d, false) ∷ xs) o =
    absorb-fails xs (some (add_sample d false (or_none o))) ∙ omega arith

failure_comm : (x y : Sample) (n : ℕ) → failure x (failure y n) ≡ failure y (failure x n)
failure_comm x y n = ground arith

-- A summary sees only the samples, and no samples are like no operation.
summarize-or_none : (o : Option OpSamples) → summarize o ≡ summarize (some (or_none o))
unfolding summarize
summarize-or_none none = refl
summarize-or_none (some o) = refl

summarize-Perm :
    (o o' : OpSamples)
    → Perm o.durs o'.durs
    → o.fails ≡ o'.fails
    → summarize (some o) ≡ summarize (some o')
unfolding summarize
summarize-Perm o o' p h =
    let sorted : sort_by ltb_ℤ o.durs ≡ sort_by ltb_ℤ o'.durs =
      sort_by-Perm ltb_ℤ duration_order (hlevel ℕ_set) p in
    let size : length o.durs ≡ length o'.durs =
      sym (sort_by-length ltb_ℤ duration_order o.durs)
      ∙ ap length sorted
      ∙ sort_by-length ltb_ℤ duration_order o'.durs in
    rw (summarize, sorted, size, h) refl

-- The summary of an operation does not depend on the order in which workers record their samples:
-- two sequences of samples, of any operations, that are a rearrangement of each other leave the
-- same result of Op, whatever was recorded before.
pub op_result-Perm :
    (op : Bytes) (s : Stats) {xs ys : List (Bytes × Sample)}
    → Perm xs ys
    → op_result op (record_all xs s) ≡ op_result op (record_all ys s)
unfolding op_result
op_result-Perm op s {xs} {ys} p =
    let before = lookup_op op s.ops in
    let own = Perm.filter_map (mine op) p in
    let durs : Perm (or_none (absorb before (filter_map (mine op) xs))).durs
        (or_none (absorb before (filter_map (mine op) ys))).durs =
      rw
        (absorb-durs (filter_map (mine op) xs) before, absorb-durs (filter_map (mine op) ys) before)
        (Perm.append_left (or_none before).durs (Perm.map (λ (x : Sample). x.0) own)) in
    let fails : (or_none (absorb before (filter_map (mine op) xs))).fails
        ≡ (or_none (absorb before (filter_map (mine op) ys))).fails =
      absorb-fails (filter_map (mine op) xs) before
      ∙ ap (λ n. (or_none before).fails + n) (Perm.foldr-eq ℕ_set failure failure_comm own 0)
      ∙ sym (absorb-fails (filter_map (mine op) ys) before) in
    ap summarize (lookup_record_all op xs s)
    ∙ summarize-or_none (absorb before (filter_map (mine op) xs))
    ∙ summarize-Perm (or_none (absorb before (filter_map (mine op) xs)))
        (or_none (absorb before (filter_map (mine op) ys))) durs fails
    ∙ sym (summarize-or_none (absorb before (filter_map (mine op) ys)))
    ∙ sym (ap summarize (lookup_record_all op ys s))

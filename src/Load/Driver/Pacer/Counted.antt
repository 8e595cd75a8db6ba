-- ===== src/Load/Driver/Pacer/Counted.antt =====
-- On stress/load/driver.go: every tick of a run is accounted for.
use the_500mb_club_challenge.Prelude.Int.{ℤ}
use mathlib.Core.Path.{subst}
use the_500mb_club_challenge.Prelude.{
  bytes_eq, inr, ◌∷◌, ◌≤◌, Option-cases, inl, ◌^◌, suc, length-append, some, ◌%◌, ap, Bool, ltb,
  length, [], ◌++◌, Bool-cases, arith, sym, Bytes, ◌+◌, List, ℕ, ◌≡◌, refl,
}
use the_500mb_club_challenge.Load.Stats.{
  no_samples, Stats, OpSamples, record_op, lookup_op, update_op, add_sample,
}
use the_500mb_club_challenge.Load.Driver.Pacer.{
  idle_load, emit, Load, Step, Reach, ticked, received, recorded, here, next,
}

-- How many samples all operations have.
abbrev pub samples : List (Bytes × OpSamples) → ℕ
samples [] = 0
samples ((op, o) ∷ ops) = length o.durs + samples ops

samples-append : (xs ys : List (Bytes × OpSamples)) → samples (xs ++ ys) ≡ samples xs + samples ys
samples-append [] ys = omega arith
samples-append ((op, o) ∷ xs) ys = omega (arith, samples-append xs ys)

samples-update_op :
    (op : Bytes) (d : ℤ) (ok : Bool) (o : OpSamples) (ops : List (Bytes × OpSamples))
    → lookup_op op ops ≡ some o
    → samples (update_op op d ok ops) ≡ suc (samples ops)
unfolding lookup_op update_op add_sample
samples-update_op op d ok o [] h = absurd (cc h)
samples-update_op op d ok o ((k, v) ∷ ops) h = elim (Bool-cases (bytes_eq op k)) [
  | inl e ↦ rw e (omega (arith, length-append v.durs (d ∷ [])))
  | inr e ↦ rw e (omega (arith, samples-update_op op d ok o ops (rw e at h)))
]

samples-record_op :
    (op : Bytes) (d : ℤ) (ok : Bool) (s : Stats)
    → samples (record_op op d ok s).ops ≡ suc (samples s.ops)
unfolding record_op add_sample
samples-record_op op d ok s = elim (Option-cases (lookup_op op s.ops)) [
  | inl e ↦
      rw (record_op, e)
        (omega (arith, samples-append s.ops ((op, add_sample d ok no_samples) ∷ [])))
  | inr (o, e) ↦ rw (record_op, e) (samples-update_op op d ok o s.ops e)
]

-- Every tick is dropped, waits, is worked on, or has a sample.
pub record IsCounted (workers : ℕ) (s : Load) : Type 0 where
  pub all :
      (s.dropped + length s.jobs + length s.busy + samples s.stats.ops) % 2 ^ 64 ≡ s.ticks % 2 ^ 64
  pub waiting : length s.jobs ≤ workers
  pub working : length s.busy ≤ workers

idle-IsCounted : (workers : ℕ) → IsCounted workers idle_load
idle-IsCounted workers = record { all = refl; waiting = omega arith; working = omega arith }

emit-IsCounted :
    (workers : ℕ) (op : Bytes) (s : Load)
    → IsCounted workers s
    → IsCounted workers (emit workers op s)
unfolding emit
emit-IsCounted workers op s h = elim (Bool-cases (ltb (length s.jobs) workers)) [
  | inl e ↦
      rw (emit, e)
        (record {
          all = omega (arith, h.all, length-append s.jobs (op ∷ []));
          waiting = ground (arith, e, length-append s.jobs (op ∷ []));
          working = h.working;
        })
  | inr e ↦
      rw (emit, e) (record { all = omega (arith, h.all); waiting = h.waiting; working = h.working })
]

Step-IsCounted :
    (workers : ℕ) {s t : Load} → Step workers s t → IsCounted workers s → IsCounted workers t
Step-IsCounted workers (ticked {s} op) h = emit-IsCounted workers op s h
Step-IsCounted workers (received {s} {t} op rest e b q) h =
    subst (IsCounted workers) (sym q) (record {
      all = omega (arith, h.all, ap length e);
      waiting = omega (arith, h.waiting, ap length e);
      working = omega (arith, b);
    })
Step-IsCounted workers (recorded {s} {t} op front back d ok e q) h =
    subst (IsCounted workers) (sym q) (record {
      all = omega (
        arith,
        h.all,
        ap length e,
        length-append front (op ∷ back),
        length-append front back,
        samples-record_op op d ok s.stats,
      );
      waiting = h.waiting;
      working = omega (
        arith,
        h.working,
        ap length e,
        length-append front (op ∷ back),
        length-append front back,
      );
    })

Reach-IsCounted :
    (workers : ℕ) {s t : Load} → IsCounted workers s → Reach workers s t → IsCounted workers t
Reach-IsCounted workers h here = h
Reach-IsCounted workers h (next r st) = Step-IsCounted workers st (Reach-IsCounted workers h r)

-- In every interleaving of the ticks of the pacer with workers that receive jobs and record what
-- came of them, each tick is counted as dropped, waits in the channel, is with a worker or has a
-- sample (modulo 2^64); at most so many jobs wait, and so many are with workers, as there are
-- workers; and when none waits or is with a worker, the drops and the samples are the ticks.
pub run-counts :
    (workers : ℕ) {s : Load}
    → Reach workers idle_load s
    → IsCounted workers s
      × (s.jobs ≡ [] → s.busy ≡ [] → (s.dropped + samples s.stats.ops) % 2 ^ 64 ≡ s.ticks % 2 ^ 64)
run-counts workers {s} r =
    let h = Reach-IsCounted workers (idle-IsCounted workers) r in
    (h, λ j b. omega (arith, h.all, ap length j, ap length b))

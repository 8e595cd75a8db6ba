-- ===== src/Load/Driver/Pacer.antt =====
-- On stress/load/driver.go: `pace` and the workers of `Run`, as steps of one system.
pub mod Counted
use the_500mb_club_challenge.Prelude.{
  Bool, ℕ, suc, List, [], ◌∷◌, ◌++◌, if◌then◌else◌, ltb, length, Bytes, ◌≡◌, ◌<◌,
}
use the_500mb_club_challenge.Prelude.Int.{ℤ}
use the_500mb_club_challenge.Metrics.{add_counter}
use the_500mb_club_challenge.Load.Stats.{Stats, record_op, new_stats}

-- `jobs` is the channel of `workers` places, `busy` the operations that workers are at, `ticks` how
-- often the ticker fired.
pub record Load : Type 0 where
  pub jobs : List Bytes
  pub busy : List Bytes
  pub stats : Stats
  pub dropped : ℕ
  pub ticks : ℕ

-- What `pace` does at a tick: the operation is sent, or dropped if the channel is full.
unfoldable pub emit : ℕ → Bytes → Load → Load
emit workers op s =
    if ltb (length s.jobs) workers
    then record s { jobs = s.jobs ++ op ∷ []; ticks = suc s.ticks }
    else record s { dropped = add_counter s.dropped 1; ticks = suc s.ticks }

abbrev pub idle_load : Load
idle_load = record { jobs = []; busy = []; stats = new_stats; dropped = 0; ticks = 0 }

-- A tick; a worker that is free receives a job; a worker records what `fire` returned.
pub data Step (workers : ℕ) : Load → Load → Type 0 where
  ticked : {s : Load} → (op : Bytes) → Step workers s (emit workers op s)
  received :
      {s t : Load}
      → (op : Bytes) (rest : List Bytes) → s.jobs ≡ op ∷ rest
      → length s.busy < workers
      → t ≡ record s { jobs = rest; busy = op ∷ s.busy }
      → Step workers s t
  recorded :
      {s t : Load}
      → (op : Bytes) (front back : List Bytes) (d : ℤ) (ok : Bool) → s.busy ≡ front ++ op ∷ back
      → t ≡ record s { busy = front ++ back; stats = record_op op d ok s.stats }
      → Step workers s t

pub data Reach (workers : ℕ) (s : Load) : Load → Type 0 where
  here : Reach workers s s
  next : {t u : Load} → Reach workers s t → Step workers t u → Reach workers s u

-- ===== src/Collector/Submit/Steps.antt =====
-- The interleavings of the collector's callers and goroutines, as steps that do not panic, and what
-- the states they lead to keep. A call of Submit is the step behind its test of `stopped`; Stop may come
-- between the two, so that the flag it has read may be older than the state.
use radstorm.Prelude.{
  ℕ, zero, suc, ◌+◌, ◌≤◌, ◌≡◌, refl, ap, ◌∙◌, Bool, true, false, none, some, List, [], ◌∷◌, ◌++◌,
  inl, inr, ltb, leb, if◌then◌else◌, length, get_elem?, set, replicate, Bool-cases, List-cases,
  arith,
}
use radstorm.Events.{Event}
use radstorm.Collector.Observe.{observe}
use radstorm.Collector.Observe.Tally.{
  Counter, field, hit, tally, field-observe, field-record_write_error,
}
use radstorm.Collector.Submit.{
  Opts, Shard, Collector, fresh, new_shard, submit_seen, submit_outcome_seen, stop, flush,
  run_shard, run_outcome, flush_outcomes, take_event, shard_of,
}

-- The event that an offer puts on a channel: none, where the channel is full.
abbrev pub room : {O : Type 0} → Collector O → Event → List Event
room c e = elim (get_elem? c.shards (shard_of c e)) [
  | none ↦ []
  | some sh ↦ if ltb (length sh.queue) c.per_shard_buffer then e ∷ [] else []
]

-- The event that a call of Submit puts on a channel, by the flag that it has read.
abbrev pub put_on : {O : Type 0} → Bool → Collector O → Event → List Event
put_on true c e = []
put_on false c e = room c e

-- A step, the events it puts on a channel, and how many calls it is of Submit and SubmitOutcome.
pub data Step (O : Type 0) (c : Collector O) : List Event → ℕ → Collector O → Type 0 where
  submits :
      (seen : Bool) (now : ℕ) (e : Event) (d : Collector O)
      → (seen ≡ true → c.stopped ≡ true)
      → submit_seen seen now e c ≡ some d
      → Step O c (put_on seen c e) 1 d
  submits_outcome :
      (seen : Bool) (now : ℕ) (o : O) (d : Collector O)
      → (seen ≡ true → c.stopped ≡ true)
      → submit_outcome_seen seen now o c ≡ some d
      → Step O c [] 1 d
  stops : Step O c [] 0 (stop c)
  receives :
      (i : ℕ) (fails : Bool) (sh next : Shard)
      → get_elem? c.shards i ≡ some sh
      → run_shard c.batch_size fails sh ≡ some next
      → Step O c [] 0 (record c { shards = set c.shards i next })
  flushes :
      (i : ℕ) (fails : Bool) (sh : Shard)
      → get_elem? c.shards i ≡ some sh
      → Step O c [] 0 (record c { shards = set c.shards i (flush fails sh) })
  receives_outcome : (d : Collector O) → run_outcome c ≡ some d → Step O c [] 0 d
  flushes_outcomes : Step O c [] 0 (flush_outcomes c)

-- The states of a collector after New, with the events put on its channels and the calls so far.
pub data Reach (O : Type 0) : Collector O → List Event → ℕ → Type 0 where
  start : (num_cpu : ℕ) (opts : Opts) → 1 ≤ num_cpu → Reach O (fresh num_cpu opts) [] 0
  more :
      (c d : Collector O) (es fs : List Event) (j k : ℕ)
      → Reach O c es k
      → Step O c fs j d
      → Reach O d (es ++ fs) (k + j)

-- What the shards hold of a measure that each has.
abbrev pub total : (Shard → ℕ) → List Shard → ℕ
total w [] = 0
total w (sh ∷ shards) = w sh + total w shards

pub total-set :
    (w : Shard → ℕ) (shards : List Shard) (i : ℕ) (sh next : Shard)
    → get_elem? shards i ≡ some sh
    → total w (set shards i next) + w sh ≡ total w shards + w next
total-set w [] i sh next h = cc
total-set w (x ∷ shards) zero sh next h = let same : x ≡ sh = cc h in omega (arith, ap w same)
total-set w (x ∷ shards) (suc i) sh next h = omega (arith, total-set w shards i sh next h)

pub total_new : (w : Shard → ℕ) → w new_shard ≡ 0 → (n : ℕ) → total w (replicate n new_shard) ≡ 0
total_new w h zero = refl
total_new w h (suc n) = omega (arith, h, total_new w h n)

-- What a counter has of a shard's events: those observed and those that wait.
abbrev pub weight : Counter → Shard → ℕ
weight q sh = field q sh.aggregation + tally q sh.queue

-- A flush moves no event into or out of what is counted, and a receive counts what it takes.
pub weight-flush :
    (q : Counter) (fails : Bool) (sh : Shard) → weight q (flush fails sh) ≡ weight q sh
unfolding flush
weight-flush q fails sh = ground (arith, field-record_write_error q sh.aggregation)

weight-take_event :
    (q : Counter) (batch_size : ℕ) (fails : Bool) (e : Event) (sh : Shard)
    → weight q (take_event batch_size fails e sh) ≡ weight q sh + hit q e
unfolding take_event
weight-take_event q batch_size fails e sh =
    let next : Shard = record sh {
      aggregation = observe e sh.aggregation;
      batch = sh.batch ++ e ∷ [];
    } in
    let observed : weight q next ≡ weight q sh + hit q e =
      omega (arith, field-observe q e sh.aggregation) in
    elim (Bool-cases (leb batch_size (length next.batch))) [
      | inl full ↦ rw full (weight-flush q fails next ∙ observed)
      | inr room ↦ rw room observed
    ]

pub weight-run_shard :
    (q : Counter) (batch_size : ℕ) (fails : Bool) (sh next : Shard)
    → run_shard batch_size fails sh ≡ some next
    → weight q next ≡ weight q sh
unfolding run_shard
weight-run_shard q batch_size fails sh next h = elim (List-cases sh.queue) [
  | inl empty ↦ cc (rw empty at h)
  | inr (e, rest, waiting) ↦
      let taken = weight-take_event q batch_size fails e (record sh { queue = rest }) in
      let same : take_event batch_size fails e (record sh { queue = rest }) ≡ next =
        cc (rw waiting at h) in
      omega (arith, ap (weight q) same, taken, ap (tally q) waiting)
]

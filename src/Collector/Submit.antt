-- ===== src/Collector/Submit.antt =====
-- The collector of pkg/collector/collector.go: New, Submit, SubmitOutcome, recordFullDrop, Stop and
-- the loop bodies of runShard and of runOutcome. A channel is its buffer and the flag that it is closed; `none` is a
-- panic. The writer of the files is a parameter: a flag at each write says whether it failed.
pub mod Steps
pub mod Drained
pub mod Kept
pub mod Conserved
pub mod Halted
use radstorm.Prelude.{
  ℕ, zero, suc, ◌+◌, ◌%◌, Bool, true, false, ◌&&◌, Option, none, some, List, [], ◌∷◌, ◌++◌, ◌⊎◌,
  inl, inr, ltb, leb, ◌==◌, if◌then◌else◌, length, get_elem?, set, replicate,
}
use radstorm.Prelude.Int.{ℤ, pos, above}
use radstorm.Events.{Event}
use radstorm.Collector.Observe.{
  ShardAggregation, new_shard_aggregation, observe, record_write_error,
}

-- Opts, but for the interval of the ticker and the size at which a file is rotated.
pub record Opts : Type 0 where
  pub dir : List ℕ
  pub shard_count : ℤ
  pub per_shard_buffer : ℤ
  pub batch_size : ℤ
  pub outcome_buffer : ℤ

-- A shard: its channel, its counters, and what runShard has batched and written.
pub record Shard : Type 0 where
  pub queue : List Event
  pub aggregation : ShardAggregation
  pub batch : List Event
  pub written : List Event

-- O is the type of SubscriberOutcome, which Submit and Stop only pass on.
pub record Collector (O : Type 0) : Type 0 where
  pub shard_count : ℕ
  pub per_shard_buffer : ℕ
  pub batch_size : ℕ
  pub outcome_buffer : ℕ
  pub shards : List Shard
  pub outcome_queue : List O
  pub outcome_batch : List O
  pub outcomes : List O
  pub stopped : Bool
  pub closed : Bool
  pub dropped : ℕ
  pub events_dropped_full : ℕ
  pub outcomes_dropped_full : ℕ
  pub first_full_drop_ns : ℕ
  pub last_full_drop_ns : ℕ
  pub total_submitted : ℕ

pub data NewError : Type 0 where
  dir_required : NewError
  mkdir_failed : NewError

abbrev pub new_shard : Shard
new_shard = record { queue = []; aggregation = new_shard_aggregation; batch = []; written = [] }

abbrev default_to : ℕ → ℤ → ℕ
default_to n opt = if above opt == 0 then n else above opt

abbrev empty_dir : List ℕ → Bool
empty_dir [] = true
empty_dir (c ∷ dir) = false

module _ {O : Type 0} where
  -- The collector that New makes where it makes one: its defaults, and a channel for each shard.
  abbrev pub fresh : ℕ → Opts → Collector O
  fresh num_cpu opts = record {
    shard_count = default_to num_cpu opts.shard_count;
    per_shard_buffer = default_to 16384 opts.per_shard_buffer;
    batch_size = default_to 4096 opts.batch_size;
    outcome_buffer = default_to 4096 opts.outcome_buffer;
    shards = replicate (default_to num_cpu opts.shard_count) new_shard;
    outcome_queue = [];
    outcome_batch = [];
    outcomes = [];
    stopped = false;
    closed = false;
    dropped = 0;
    events_dropped_full = 0;
    outcomes_dropped_full = 0;
    first_full_drop_ns = 0;
    last_full_drop_ns = 0;
    total_submitted = 0;
  }

  -- New, given the number of processors and whether MkdirAll fails.
  unfoldable pub new_collector : ℕ → Bool → Opts → NewError ⊎ Collector O
  new_collector num_cpu mkdir_fails opts =
      if empty_dir opts.dir
      then inl dir_required
      else if mkdir_fails
      then inl mkdir_failed
      else inr (fresh num_cpu opts)

  -- recordFullDrop, behind the counter that its caller raises
  abbrev pub record_full_drop : ℕ → Collector O → Collector O
  record_full_drop now c = record c {
    first_full_drop_ns = if c.first_full_drop_ns == 0 then now else c.first_full_drop_ns;
    last_full_drop_ns = now;
  }

  -- The shard that Submit picks.
  abbrev pub shard_of : Collector O → Event → ℕ
  shard_of c e = e.subscriber_id % c.shard_count

  -- The select of Submit, behind its test of `stopped`. The send and the count in totalSubmitted are
  -- one step: the counter is read where no call of Submit is between the two.
  unfoldable pub offer : ℕ → Event → Collector O → Option (Collector O)
  offer now e c = if c.closed then none else elim (get_elem? c.shards (shard_of c e)) [
    | none ↦ none
    | some sh ↦ some (
        if ltb (length sh.queue) c.per_shard_buffer
        then record c {
          shards = set c.shards (shard_of c e) (record sh { queue = sh.queue ++ e ∷ [] });
          total_submitted = suc c.total_submitted;
        }
        else record_full_drop now (record c { events_dropped_full = suc c.events_dropped_full }))
  ]

  -- Submit behind its test of `stopped`, which has read `seen`.
  unfoldable pub submit_seen : (seen : Bool) → ℕ → Event → Collector O → Option (Collector O)
  submit_seen seen now e c =
      if seen then some (record c { dropped = suc c.dropped }) else offer now e c

  -- Submit, where nothing comes behind its test
  unfoldable pub submit : ℕ → Event → Collector O → Option (Collector O)
  unfolding submit_seen
  submit now e c = submit_seen c.stopped now e c

  -- The select of SubmitOutcome, behind its test of `stopped`.
  unfoldable pub offer_outcome : ℕ → O → Collector O → Option (Collector O)
  offer_outcome now o c =
      if c.closed
      then none
      else some (
          if ltb (length c.outcome_queue) c.outcome_buffer
          then record c { outcome_queue = c.outcome_queue ++ o ∷ [] }
          else record_full_drop now
              (record c { outcomes_dropped_full = suc c.outcomes_dropped_full }))

  -- SubmitOutcome behind its test of `stopped`, which has read `seen`.
  unfoldable pub submit_outcome_seen : (seen : Bool) → ℕ → O → Collector O → Option (Collector O)
  submit_outcome_seen seen now o c =
      if seen then some (record c { dropped = suc c.dropped }) else offer_outcome now o c

  -- SubmitOutcome, where nothing comes behind its test
  unfoldable pub submit_outcome : ℕ → O → Collector O → Option (Collector O)
  unfolding submit_outcome_seen
  submit_outcome now o c = submit_outcome_seen c.stopped now o c

  -- Stop up to its wait for the shards: the flag, then the channels, and only once.
  unfoldable pub stop : Collector O → Collector O
  stop c = if c.stopped then c else record c { stopped = true; closed = true }

  -- flush of runOutcome; a failed write is noted with the first shard, and changes nothing here.
  abbrev pub flush_outcomes : Collector O → Collector O
  flush_outcomes c = record c { outcomes = c.outcomes ++ c.outcome_batch; outcome_batch = [] }

  -- The loop body of runOutcome, where the channel holds an outcome.
  unfoldable pub run_outcome : Collector O → Option (Collector O)
  run_outcome c = elim (c.outcome_queue) [
    | [] ↦ none
    | o ∷ os ↦
        let next = record c { outcome_queue = os; outcome_batch = c.outcome_batch ++ o ∷ [] } in
        some (if leb c.batch_size (length next.outcome_batch) then flush_outcomes next else next)
  ]

-- flush of runShard
unfoldable pub flush : Bool → Shard → Shard
flush fails sh = elim (sh.batch) [
  | [] ↦ sh
  | e ∷ es ↦
      if fails
      then record sh { aggregation = record_write_error sh.aggregation; batch = [] }
      else record sh { batch = []; written = sh.written ++ sh.batch }
]

-- What runShard does with one event it has received.
unfoldable pub take_event : ℕ → Bool → Event → Shard → Shard
unfolding flush
take_event batch_size fails e sh =
    let next = record sh { aggregation = observe e sh.aggregation; batch = sh.batch ++ e ∷ [] } in
    let flushed = flush fails next in if leb batch_size (length next.batch) then flushed else next

-- The receive of runShard, where the channel holds an event.
unfoldable pub run_shard : ℕ → Bool → Shard → Option Shard
unfolding take_event
run_shard batch_size fails sh = elim (sh.queue) [
  | [] ↦ none
  | e ∷ es ↦ some (take_event batch_size fails e (record sh { queue = es }))
]

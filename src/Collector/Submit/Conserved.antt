-- ===== src/Collector/Submit/Conserved.antt =====
-- What the collector promises: nothing that Submit takes is lost or counted twice, and Submit does
-- not panic, but for one that Stop overtakes.
use radstorm.Prelude.{
  ℕ, zero, suc, ◌+◌, ◌%◌, ◌≤◌, ◌<◌, ◌≡◌, refl, ap, ◌∙◌, some, List, [], ◌∷◌, inl, inr, length,
  get_elem?, map, All, Bool-cases, Option-cases, arith,
}
use radstorm.Events.{Event}
use radstorm.Collector.Observe.{ShardAggregation}
use radstorm.Collector.Observe.Tally.{Counter, tally}
use radstorm.Collector.Aggregate.{
  Totals, no_totals, add_shard, merge_counters, merged, merged-add_shard, merged_none,
}
use radstorm.Collector.Submit.{Shard, Collector, offer, submit, submit_seen, shard_of}
use radstorm.Collector.Submit.Steps.{Reach, total, weight}
use radstorm.Collector.Submit.Drained.{taken_outcomes}
use radstorm.Collector.Submit.Kept.{Reach-Inv}

-- The channel of every shard is empty, as it is once the goroutines have ended.
abbrev pub IsDrained : List Shard → Type 0
IsDrained shards = All (λ sh. sh.queue ≡ []) shards

abbrev pub aggregations : List Shard → List ShardAggregation
aggregations shards = map (λ sh. sh.aggregation) shards

merged-total :
    (q : Counter) (t : Totals) (shards : List Shard)
    → IsDrained shards
    → merged q (merge_counters t (aggregations shards)) ≡ merged q t + total (weight q) shards
merged-total q t [] h = omega arith
merged-total q t (sh ∷ shards) h = omega (
  arith,
  merged-total q (add_shard t sh.aggregation) shards h.1,
  merged-add_shard q t sh.aggregation,
  ap (tally q) (h.0),
)

shard_found :
    (shards : List Shard) (i : ℕ)
    → i < length shards
    → (sh : Shard) × (get_elem? shards i ≡ some sh)
shard_found [] i h = absurd (omega arith)
shard_found (sh ∷ shards) zero h = (sh, refl)
shard_found (sh ∷ shards) (suc i) h = shard_found shards i (omega arith)

inside_shards : (id n m : ℕ) → 1 ≤ n → m ≡ n → id % n < m
inside_shards id n m h same = omega arith

module _ {O : Type 0} where
  -- Once the channels of the shards are empty, whatever the interleaving of the calls, the drops
  -- on full channels, the batches and the failed writes, the merge of the counters gives for each
  -- counter exactly the number of events put on a channel that it is to count.
  pub aggregate_counts :
      {c : Collector O} {es : List Event} {k : ℕ}
      → Reach O c es k
      → IsDrained c.shards
      → (q : Counter) → merged q (merge_counters no_totals (aggregations c.shards)) ≡ tally q es
  aggregate_counts {c} r h q =
      omega (arith, merged-total q no_totals c.shards h, merged_none q, (Reach-Inv r).held q)

  -- In every state of a collector, the number of events on its account is the number put on its
  -- channels, and every call of Submit and SubmitOutcome, also one whose test of `stopped` is
  -- older than the state that it then finds, is on exactly one account: submitted, dropped on a
  -- full channel, dropped after Stop, or taken as an outcome.
  pub calls_conserved :
      {c : Collector O} {es : List Event} {k : ℕ}
      → Reach O c es k
      → (c.total_submitted ≡ length es)
        × (c.total_submitted
              + c.events_dropped_full
              + c.dropped
              + c.outcomes_dropped_full
              + taken_outcomes c
            ≡ k)
  calls_conserved r =
      let inv = Reach-Inv r in (inv.submitted, omega (arith, inv.submitted, inv.made))

  -- In every state that the calls of a collector lead to, a call of Submit that Stop does not come
  -- into returns and does not panic, also after Stop.
  pub submit_total :
      {c : Collector O} {es : List Event} {k : ℕ} (now : ℕ) (e : Event)
      → Reach O c es k
      → (d : Collector O) × (submit now e c ≡ some d)
  unfolding submit submit_seen offer
  submit_total {c} now e r =
      let inv = Reach-Inv r in
      let inside : shard_of c e < length c.shards =
        inside_shards e.subscriber_id c.shard_count (length c.shards) inv.some_shard inv.sized in
      let (sh, found) = shard_found c.shards (shard_of c e) inside in
      elim (Option-cases (submit now e c)) [
        | inr taken ↦ taken
        | inl panics ↦ elim (Bool-cases c.stopped) [
          | inl halted ↦ cc (rw halted at panics)
          | inr running ↦ cc (rw (running, inv.closes ∙ running, found) at panics)
        ]
      ]

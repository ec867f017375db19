-- ===== src/Collector/Examples.antt =====
-- Runs of the collector on small inputs.
use radstorm.Prelude.{
  ℕ, suc, ◌+◌, ◌*◌, ◌/◌, ◌≤◌, zero, ◌≡◌, refl, false, Option, none, some, [], ◌∷◌, get_elem?, set,
  map, arith,
}
use radstorm.Prelude.Int.{ℤ}
use radstorm.Events.{Event, new_coa_event, coa_acked}
use radstorm.Collector.Observe.Tally.{coa_ack, tally}
use radstorm.Collector.Aggregate.{no_totals, merge_counters, merged}
use radstorm.Collector.Submit.{
  Opts, Shard, Collector, fresh, offer, submit, submit_seen, stop, flush, run_shard, take_event,
  new_shard,
}
use radstorm.Collector.Submit.Steps.{submits, receives, Reach, start, more}
use radstorm.Collector.Submit.Halted.{at_once, late_send_panics}
use radstorm.Collector.Submit.Conserved.{
  aggregate_counts, calls_conserved, submit_total, aggregations, IsDrained,
}
use radstorm.Collector.Submit.Drained.{taken_outcomes}
use radstorm.Collector.Distribution.{compute_distribution}
use radstorm.Collector.Distribution.Ordered.{compute_distribution-IsOrdered, IsOrdered}
use radstorm.Collector.Curve.{SubAgg, build_establishment_curve, buckets, max_off}
use radstorm.Collector.Curve.Cumulative.{build_establishment_curve_counts, point, count_reached}

abbrev two_shards : Opts
two_shards = record {
  dir = 47 ∷ [];
  shard_count = ℤ.pos 2;
  per_shard_buffer = ℤ.pos 1;
  batch_size = ℤ.pos 1;
  outcome_buffer = ℤ.pos 1;
}

abbrev or_else : {A : Type 0} → A → Option A → A
or_else a none = a
or_else a (some b) = b

abbrev acked : Event
unfolding new_coa_event
acked = new_coa_event 3 (ℤ.pos 20) coa_acked (some 5) [] [] 20 (ℤ.pos 120) 0

abbrev idle : Collector (Unit {0})
idle = fresh 1 two_shards

abbrev offered : Collector (Unit {0})
unfolding offer
offered = or_else idle (offer 7 acked idle)

abbrev full_shard : Shard
unfolding offer
full_shard = or_else new_shard (get_elem? offered.shards 1)

abbrev served_shard : Shard
unfolding run_shard take_event flush
served_shard = or_else new_shard (run_shard 1 false full_shard)

abbrev served : Collector (Unit {0})
served = record offered { shards = set offered.shards 1 served_shard }

offered_reached : Reach (Unit {0}) offered (acked ∷ []) 1
unfolding offer acked submit_seen
offered_reached =
    more idle offered [] (acked ∷ []) 1 0 (start 1 two_shards (omega arith))
      (submits false 7 acked offered (λ e. cc e) refl)

served_reached : Reach (Unit {0}) served (acked ∷ []) 1
unfolding offer run_shard take_event flush acked
served_reached =
    more offered served (acked ∷ []) [] 0 1 offered_reached
      (receives 1 false full_shard served_shard refl refl)

served-IsDrained : IsDrained served.shards
unfolding offered served_shard full_shard acked offer run_shard take_event flush
served-IsDrained = (refl, (refl, tt))

-- Its batch is full at once, so that the event is in the file.
served_written : map (λ (sh : Shard). sh.written) served.shards ≡ [] ∷ (acked ∷ []) ∷ []
unfolding offered served_shard full_shard acked offer run_shard take_event flush
served_written = refl

aggregate_counts_example :
    merged coa_ack (merge_counters no_totals (aggregations served.shards))
    ≡ tally coa_ack (acked ∷ [])
aggregate_counts_example = aggregate_counts served_reached served-IsDrained coa_ack

calls_conserved_example :
    (served.total_submitted ≡ 1)
    × (served.total_submitted
          + served.events_dropped_full
          + served.dropped
          + served.outcomes_dropped_full
          + taken_outcomes served
        ≡ 1)
calls_conserved_example = calls_conserved served_reached

-- The channel of the shard is full: the event is dropped.
submit_total_example : (d : Collector (Unit {0})) × (submit 9 acked offered ≡ some d)
submit_total_example = submit_total 9 acked offered_reached

-- The collector is stopped behind the test of a call.
late_send_panics_example :
    ((x : Collector (Unit {0})) × (submit_seen offered.stopped 9 acked offered ≡ some x))
    × (submit_seen offered.stopped 9 acked (stop offered) ≡ none)
    × (submit 9 acked (stop offered)
        ≡ some (record (stop offered) { dropped = suc (stop offered).dropped }))
unfolding offered acked
late_send_panics_example = late_send_panics 9 acked offered_reached refl at_once

abbrev early : SubAgg
early = record { activated_offset_ms = ℤ.pos 400; established_offset_ms = ℤ.pos 2500 }

abbrev stuck : SubAgg
stuck = record { activated_offset_ms = ℤ.pos 1100; established_offset_ms = ℤ.negsuc 0 }

build_establishment_curve_counts_example :
    get_elem? (build_establishment_curve (early ∷ stuck ∷ []) (ℤ.pos 1000)) 2
    ≡ some (
        point 2000
          (count_reached (λ s. s.activated_offset_ms) 1000 2 (early ∷ stuck ∷ []))
          (count_reached (λ s. s.established_offset_ms) 1000 2 (early ∷ stuck ∷ [])))
unfolding buckets max_off
build_establishment_curve_counts_example =
    build_establishment_curve_counts early (stuck ∷ []) 1000 1 (omega arith) (omega arith)

-- The ceiling of the exact product, which the product of floats is near to.
abbrev exact_rank : ℕ → ℕ → ℕ
exact_rank q n = (q * n + 999) / 1000

times_mono : (q r n : ℕ) → q ≤ r → q * n ≤ r * n
times_mono zero r n h = grind arith
times_mono (suc q) zero n h = absurd (omega arith)
times_mono (suc q) (suc r) n h = let rest = times_mono q r n (omega arith) in grind (arith, rest)

exact_rank_mono : (q r n : ℕ) → q ≤ r → exact_rank q n ≤ exact_rank r n
exact_rank_mono q r n h = omega (arith, times_mono q r n h)

compute_distribution-IsOrdered_example :
    IsOrdered
      (ℤ.pos 7 ∷ ℤ.negsuc 2 ∷ ℤ.pos 1 ∷ [])
      (compute_distribution exact_rank (ℤ.pos 7 ∷ ℤ.negsuc 2 ∷ ℤ.pos 1 ∷ []))
compute_distribution-IsOrdered_example =
    compute_distribution-IsOrdered exact_rank exact_rank_mono (ℤ.pos 7 ∷ ℤ.negsuc 2 ∷ ℤ.pos 1 ∷ [])
      (λ e. cc e)

-- ===== src/Collector/Aggregate.antt =====
-- Aggregate of pkg/collector/aggregate.go: the merge of the shards' counters, the rollup of the
-- thresholds (evalThresholdsOverall), and the label of measurementIntegrity. The label's division of
-- floats is a parameter: the test that a rate of dropped events is at least a hundredth.
use radstorm.Prelude.{ℕ, ◌+◌, Bool, ◌&&◌, ◌||◌, List, [], ◌∷◌, ◌++◌, ltb, if◌then◌else◌, ◌≡◌, refl}
use radstorm.Prelude.Int.{ℤ}
use radstorm.Collector.Observe.{ShardAggregation}
use radstorm.Collector.Observe.Tally.{
  Counter, field, event_counter, retransmit_counter, coa_rx, coa_ack, coa_nak, coa_drop, disc_rx,
  disc_ack, disc_nak,
}

pub record Totals : Type 0 where
  pub total_events : ℕ
  pub total_retransmits : ℕ
  pub coas_received : ℕ
  pub coas_acked : ℕ
  pub coas_naked : ℕ
  pub coas_dropped : ℕ
  pub coa_lat_us : List ℤ
  pub disconnects_received : ℕ
  pub disconnects_acked : ℕ
  pub disconnects_naked : ℕ
  pub disc_lat_us : List ℤ
  pub write_errs : ℕ

abbrev pub no_totals : Totals
no_totals = record {
  total_events = 0;
  total_retransmits = 0;
  coas_received = 0;
  coas_acked = 0;
  coas_naked = 0;
  coas_dropped = 0;
  coa_lat_us = [];
  disconnects_received = 0;
  disconnects_acked = 0;
  disconnects_naked = 0;
  disc_lat_us = [];
  write_errs = 0;
}

unfoldable pub add_shard : Totals → ShardAggregation → Totals
add_shard t agg = record {
  total_events = t.total_events + agg.total_events;
  total_retransmits = t.total_retransmits + agg.total_retransmits;
  coas_received = t.coas_received + agg.coas_received;
  coas_acked = t.coas_acked + agg.coas_acked;
  coas_naked = t.coas_naked + agg.coas_naked;
  coas_dropped = t.coas_dropped + agg.coas_dropped;
  coa_lat_us = t.coa_lat_us ++ agg.coa_response_latencies;
  disconnects_received = t.disconnects_received + agg.disconnects_received;
  disconnects_acked = t.disconnects_acked + agg.disconnects_acked;
  disconnects_naked = t.disconnects_naked + agg.disconnects_naked;
  disc_lat_us = t.disc_lat_us ++ agg.disconnect_response_latencies;
  write_errs = t.write_errs + agg.write_errors;
}

-- The loop of Aggregate over c.aggregations, as to the counters.
abbrev pub merge_counters : Totals → List ShardAggregation → Totals
merge_counters t [] = t
merge_counters t (agg ∷ aggs) = merge_counters (add_shard t agg) aggs

-- The total that a counter of the shards goes into.
abbrev pub merged : Counter → Totals → ℕ
merged event_counter t = t.total_events
merged retransmit_counter t = t.total_retransmits
merged coa_rx t = t.coas_received
merged coa_ack t = t.coas_acked
merged coa_nak t = t.coas_naked
merged coa_drop t = t.coas_dropped
merged disc_rx t = t.disconnects_received
merged disc_ack t = t.disconnects_acked
merged disc_nak t = t.disconnects_naked

pub merged-add_shard :
    (q : Counter) (t : Totals) (agg : ShardAggregation)
    → merged q (add_shard t agg) ≡ merged q t + field q agg
unfolding add_shard
merged-add_shard event_counter t agg = refl
merged-add_shard retransmit_counter t agg = refl
merged-add_shard coa_rx t agg = refl
merged-add_shard coa_ack t agg = refl
merged-add_shard coa_nak t agg = refl
merged-add_shard coa_drop t agg = refl
merged-add_shard disc_rx t agg = refl
merged-add_shard disc_ack t agg = refl
merged-add_shard disc_nak t agg = refl

pub merged_none : (q : Counter) → merged q no_totals ≡ 0
merged_none event_counter = refl
merged_none retransmit_counter = refl
merged_none coa_rx = refl
merged_none coa_ack = refl
merged_none coa_nak = refl
merged_none coa_drop = refl
merged_none disc_rx = refl
merged_none disc_ack = refl
merged_none disc_nak = refl

pub data Overall : Type 0 where
  overall_none : Overall
  overall_pass : Overall
  overall_fail : Overall

fails_some : List Bool → Overall
fails_some [] = overall_pass
fails_some (passes ∷ ts) = let rest = fails_some ts in if passes then rest else overall_fail

-- evalThresholdsOverall, on what each threshold's Pass is
unfoldable pub eval_thresholds_overall : List Bool → Overall
unfolding fails_some
eval_thresholds_overall [] = overall_none
eval_thresholds_overall (passes ∷ ts) = fails_some (passes ∷ ts)

pub data Trust : Type 0 where
  trust_high : Trust
  trust_medium : Trust
  trust_low : Trust

-- The label of measurementIntegrity: `hundredth d n` is that d / n as floats is 0.01 at least.
unfoldable pub trust_label : (ℕ → ℕ → Bool) → ℕ → ℕ → ℕ → Trust
trust_label hundredth submitted dropped_full dropped_outcomes =
    let denom = submitted + dropped_full in
    if ltb 0 dropped_full || ltb 0 dropped_outcomes
    then (if ltb 0 denom && hundredth dropped_full denom then trust_low else trust_medium)
    else trust_high

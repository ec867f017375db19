-- ===== src/Collector/Observe.antt =====
-- shardAggregation and observe of pkg/collector/aggregate.go: the counters of one shard. The
-- counters are numbers without a bound, since no run comes near 2 ^ 63 events.
pub mod Tally
use radstorm.Prelude.{
  ℕ, suc, ◌+◌, ◌%◌, Bool, true, false, ◌&&◌, Option, none, some, List, [], ◌∷◌, ◌++◌, ltb, ◌==◌,
  if◌then◌else◌, length,
}
use radstorm.Prelude.Int.{ℤ, pos, above}
use radstorm.Prelude.Maps.{Map, lookup, put, number_key}
use radstorm.Subscriber.Fsm.{State, established, same_state}
use radstorm.Events.{
  Event, EventType, category_number, type_number, subscriber_lifecycle, packet_outbound,
  coa_inbound, disconnect_inbound, Category, activated, terminal, request_retransmitted,
  coa_received, coa_acked, coa_naked, coa_dropped, disconnect_received, disconnect_acked,
  disconnect_naked,
}

pub record ShardAggregation : Type 0 where
  pub total_events : ℕ
  pub seen_subs : Map ℕ (Unit {0})
  pub activated_offset_ms : Map ℕ ℤ
  pub established_offset_ms : Map ℕ ℤ
  pub terminal_state : Map ℕ (Option State)
  pub auth_retransmits : Map ℕ ℕ
  pub acct_retransmits : Map ℕ ℕ
  pub coa_received_per_sub : Map ℕ ℕ
  pub disconnect_received_at : Map ℕ ℤ
  pub total_retransmits : ℕ
  pub coas_received : ℕ
  pub coas_acked : ℕ
  pub coas_naked : ℕ
  pub coas_dropped : ℕ
  pub coa_response_latencies : List ℤ
  pub disconnects_received : ℕ
  pub disconnects_acked : ℕ
  pub disconnects_naked : ℕ
  pub disconnect_response_latencies : List ℤ
  pub write_errors : ℕ

-- newShardAggregation
unfoldable pub new_shard_aggregation : ShardAggregation
new_shard_aggregation = record {
  total_events = 0;
  seen_subs = [];
  activated_offset_ms = [];
  established_offset_ms = [];
  terminal_state = [];
  auth_retransmits = [];
  acct_retransmits = [];
  coa_received_per_sub = [];
  disconnect_received_at = [];
  total_retransmits = 0;
  coas_received = 0;
  coas_acked = 0;
  coas_naked = 0;
  coas_dropped = 0;
  coa_response_latencies = [];
  disconnects_received = 0;
  disconnects_acked = 0;
  disconnects_naked = 0;
  disconnect_response_latencies = [];
  write_errors = 0;
}

-- recordWriteError
abbrev pub record_write_error : ShardAggregation → ShardAggregation
record_write_error a = record a { write_errors = suc a.write_errors }

abbrev pub is_category : Category → Event → Bool
is_category c e = category_number e.category == category_number c

abbrev pub is_type : EventType → Event → Bool
is_type t e = type_number e.event_type == type_number t

-- if _, ok := m[k]; !ok { m[k] = v }
put_first : ℕ → ℤ → Map ℕ ℤ → Map ℕ ℤ
put_first k v m = elim (lookup k m) [ none ↦ put k v m | some w ↦ m ]

-- m[k]++
increment : ℕ → Map ℕ ℕ → Map ℕ ℕ
increment k m = elim (lookup k m) [ none ↦ put k 1 m | some n ↦ put k (suc n) m ]

-- if e.LatencyUs > 0 { latencies = append(latencies, e.LatencyUs) }
abbrev pub note_latency : Event → List ℤ → List ℤ
note_latency e latencies =
    if ltb 0 (above e.latency_us) then latencies ++ e.latency_us ∷ [] else latencies

is_established : Option State → Bool
is_established none = false
is_established (some s) = same_state s established

seen : Event → ShardAggregation → ShardAggregation
seen e a =
    if e.subscriber_id == 0 then a else record a { seen_subs = put e.subscriber_id tt a.seen_subs }

observe_lifecycle : Event → ShardAggregation → ShardAggregation
unfolding put_first is_established
observe_lifecycle e a =
    if is_type activated e
    then record a {
      activated_offset_ms = put_first e.subscriber_id e.offset_ms a.activated_offset_ms;
    }
    else if is_type terminal e
    then record a {
      terminal_state = put e.subscriber_id e.state a.terminal_state;
      established_offset_ms =
          if is_established e.state
          then put_first e.subscriber_id e.offset_ms a.established_offset_ms
          else a.established_offset_ms;
    }
    else a

observe_outbound : Event → ShardAggregation → ShardAggregation
unfolding increment
observe_outbound e a =
    if is_type request_retransmitted e
    then record a {
      total_retransmits = suc a.total_retransmits;
      auth_retransmits =
          if e.radius_code == 1
          then increment e.subscriber_id a.auth_retransmits
          else a.auth_retransmits;
      acct_retransmits =
          if e.radius_code == 4
          then increment e.subscriber_id a.acct_retransmits
          else a.acct_retransmits;
    }
    else a

observe_coa : Event → ShardAggregation → ShardAggregation
unfolding increment
observe_coa e a =
    if is_type coa_received e
    then record a {
      coas_received = suc a.coas_received;
      coa_received_per_sub = increment e.subscriber_id a.coa_received_per_sub;
    }
    else if is_type coa_acked e
    then record a {
      coas_acked = suc a.coas_acked;
      coa_response_latencies = note_latency e a.coa_response_latencies;
    }
    else if is_type coa_naked e
    then record a {
      coas_naked = suc a.coas_naked;
      coa_response_latencies = note_latency e a.coa_response_latencies;
    }
    else if is_type coa_dropped e
    then record a { coas_dropped = suc a.coas_dropped }
    else a

observe_disconnect : Event → ShardAggregation → ShardAggregation
observe_disconnect e a =
    if is_type disconnect_received e
    then record a {
      disconnects_received = suc a.disconnects_received;
      disconnect_received_at = put e.subscriber_id e.offset_ms a.disconnect_received_at;
    }
    else if is_type disconnect_acked e
    then record a {
      disconnects_acked = suc a.disconnects_acked;
      disconnect_response_latencies = note_latency e a.disconnect_response_latencies;
    }
    else if is_type disconnect_naked e
    then record a {
      disconnects_naked = suc a.disconnects_naked;
      disconnect_response_latencies = note_latency e a.disconnect_response_latencies;
    }
    else a

dispatch : Event → ShardAggregation → ShardAggregation
unfolding observe_lifecycle observe_outbound observe_coa observe_disconnect
dispatch e a =
    if is_category subscriber_lifecycle e
    then observe_lifecycle e a
    else if is_category packet_outbound e
    then observe_outbound e a
    else if is_category coa_inbound e
    then observe_coa e a
    else if is_category disconnect_inbound e
    then observe_disconnect e a
    else a

-- observe
unfoldable pub observe : Event → ShardAggregation → ShardAggregation
unfolding seen dispatch
observe e a = dispatch e (seen e (record a { total_events = suc a.total_events }))

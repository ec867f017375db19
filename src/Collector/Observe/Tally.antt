-- ===== src/Collector/Observe/Tally.antt =====
-- The counters of observe (pkg/collector/aggregate.go), each named with the events it stands for.
use radstorm.Prelude.{
  ℕ, suc, ◌+◌, Bool, true, false, ◌&&◌, List, [], ◌∷◌, ◌++◌, ◌≡◌, refl, ◌∙◌, if◌then◌else◌, arith,
}
use radstorm.Events.{
  Event, Category, EventType, subscriber_lifecycle, packet_outbound, coa_inbound,
  disconnect_inbound, request_retransmitted, coa_received, coa_acked, coa_naked, coa_dropped,
  disconnect_received, disconnect_acked, disconnect_naked,
}
use radstorm.Collector.Observe.{
  ShardAggregation, new_shard_aggregation, record_write_error, observe, is_category, is_type,
  dispatch, seen, observe_lifecycle, observe_outbound, observe_coa, observe_disconnect,
}

pub data Counter : Type 0 where
  event_counter : Counter
  retransmit_counter : Counter
  coa_rx : Counter
  coa_ack : Counter
  coa_nak : Counter
  coa_drop : Counter
  disc_rx : Counter
  disc_ack : Counter
  disc_nak : Counter

-- The field of a shard that a counter is.
abbrev pub field : Counter → ShardAggregation → ℕ
field event_counter a = a.total_events
field retransmit_counter a = a.total_retransmits
field coa_rx a = a.coas_received
field coa_ack a = a.coas_acked
field coa_nak a = a.coas_naked
field coa_drop a = a.coas_dropped
field disc_rx a = a.disconnects_received
field disc_ack a = a.disconnects_acked
field disc_nak a = a.disconnects_naked

abbrev is_event : Category → EventType → Event → Bool
is_event c t e = is_category c e && is_type t e

-- The events that a counter is to count.
abbrev pub counted : Counter → Event → Bool
counted event_counter e = true
counted retransmit_counter e = is_event packet_outbound request_retransmitted e
counted coa_rx e = is_event coa_inbound coa_received e
counted coa_ack e = is_event coa_inbound coa_acked e
counted coa_nak e = is_event coa_inbound coa_naked e
counted coa_drop e = is_event coa_inbound coa_dropped e
counted disc_rx e = is_event disconnect_inbound disconnect_received e
counted disc_ack e = is_event disconnect_inbound disconnect_acked e
counted disc_nak e = is_event disconnect_inbound disconnect_naked e

abbrev pub hit : Counter → Event → ℕ
hit q e = if counted q e then 1 else 0

-- How many events of a list a counter is to count.
abbrev pub tally : Counter → List Event → ℕ
tally q [] = 0
tally q (e ∷ es) = hit q e + tally q es

pub tally-append : (q : Counter) (es fs : List Event) → tally q (es ++ fs) ≡ tally q es + tally q fs
tally-append q [] fs = omega arith
tally-append q (e ∷ es) fs = omega (arith, tally-append q es fs)

-- What the handler of an event's category adds, the count of all events left to observe.
abbrev part : Counter → Event → ℕ
part event_counter e = 0
part q e = hit q e

field-lifecycle :
    (q : Counter) (e : Event) (a : ShardAggregation)
    → is_category subscriber_lifecycle e ≡ true
    → field q (observe_lifecycle e a) ≡ field q a + part q e
unfolding observe_lifecycle
field-lifecycle event_counter e a h = ground arith
field-lifecycle retransmit_counter e a h = ground arith
field-lifecycle coa_rx e a h = ground arith
field-lifecycle coa_ack e a h = ground arith
field-lifecycle coa_nak e a h = ground arith
field-lifecycle coa_drop e a h = ground arith
field-lifecycle disc_rx e a h = ground arith
field-lifecycle disc_ack e a h = ground arith
field-lifecycle disc_nak e a h = ground arith

field-outbound :
    (q : Counter) (e : Event) (a : ShardAggregation)
    → is_category packet_outbound e ≡ true
    → field q (observe_outbound e a) ≡ field q a + part q e
unfolding observe_outbound
field-outbound event_counter e a h = ground arith
field-outbound retransmit_counter e a h = ground arith
field-outbound coa_rx e a h = ground arith
field-outbound coa_ack e a h = ground arith
field-outbound coa_nak e a h = ground arith
field-outbound coa_drop e a h = ground arith
field-outbound disc_rx e a h = ground arith
field-outbound disc_ack e a h = ground arith
field-outbound disc_nak e a h = ground arith

field-coa :
    (q : Counter) (e : Event) (a : ShardAggregation)
    → is_category coa_inbound e ≡ true
    → field q (observe_coa e a) ≡ field q a + part q e
unfolding observe_coa
field-coa event_counter e a h = ground arith
field-coa retransmit_counter e a h = ground arith
field-coa coa_rx e a h = ground arith
field-coa coa_ack e a h = ground arith
field-coa coa_nak e a h = ground arith
field-coa coa_drop e a h = ground arith
field-coa disc_rx e a h = ground arith
field-coa disc_ack e a h = ground arith
field-coa disc_nak e a h = ground arith

field-disconnect :
    (q : Counter) (e : Event) (a : ShardAggregation)
    → is_category disconnect_inbound e ≡ true
    → field q (observe_disconnect e a) ≡ field q a + part q e
unfolding observe_disconnect
field-disconnect event_counter e a h = ground arith
field-disconnect retransmit_counter e a h = ground arith
field-disconnect coa_rx e a h = ground arith
field-disconnect coa_ack e a h = ground arith
field-disconnect coa_nak e a h = ground arith
field-disconnect coa_drop e a h = ground arith
field-disconnect disc_rx e a h = ground arith
field-disconnect disc_ack e a h = ground arith
field-disconnect disc_nak e a h = ground arith

-- An event of another category is in no counter but that of all events.
part_other :
    (q : Counter) (e : Event)
    → is_category packet_outbound e ≡ false
    → is_category coa_inbound e ≡ false
    → is_category disconnect_inbound e ≡ false
    → part q e ≡ 0
part_other event_counter e o c d = ground arith
part_other retransmit_counter e o c d = ground arith
part_other coa_rx e o c d = ground arith
part_other coa_ack e o c d = ground arith
part_other coa_nak e o c d = ground arith
part_other coa_drop e o c d = ground arith
part_other disc_rx e o c d = ground arith
part_other disc_ack e o c d = ground arith
part_other disc_nak e o c d = ground arith

field-dispatch :
    (q : Counter) (e : Event) (a : ShardAggregation) → field q (dispatch e a) ≡ field q a + part q e
unfolding dispatch
field-dispatch q e a = ground (
  arith,
  field-lifecycle q e a,
  field-outbound q e a,
  field-coa q e a,
  field-disconnect q e a,
  part_other q e,
)

-- What observe does to a counter before it looks at the category.
field-seen :
    (q : Counter) (e : Event) (a : ShardAggregation)
    → field q (seen e (record a { total_events = suc a.total_events })) + part q e
      ≡ field q a + hit q e
unfolding seen
field-seen event_counter e a = ground arith
field-seen retransmit_counter e a = ground arith
field-seen coa_rx e a = ground arith
field-seen coa_ack e a = ground arith
field-seen coa_nak e a = ground arith
field-seen coa_drop e a = ground arith
field-seen disc_rx e a = ground arith
field-seen disc_ack e a = ground arith
field-seen disc_nak e a = ground arith

-- One event raises each counter that is to count it by one, and no other.
pub field-observe :
    (q : Counter) (e : Event) (a : ShardAggregation) → field q (observe e a) ≡ field q a + hit q e
unfolding observe
field-observe q e a =
    field-dispatch q e (seen e (record a { total_events = suc a.total_events })) ∙ field-seen q e a

pub field_new : (q : Counter) → field q new_shard_aggregation ≡ 0
unfolding new_shard_aggregation
field_new event_counter = refl
field_new retransmit_counter = refl
field_new coa_rx = refl
field_new coa_ack = refl
field_new coa_nak = refl
field_new coa_drop = refl
field_new disc_rx = refl
field_new disc_ack = refl
field_new disc_nak = refl

pub field-record_write_error :
    (q : Counter) (a : ShardAggregation) → field q (record_write_error a) ≡ field q a
field-record_write_error event_counter a = refl
field-record_write_error retransmit_counter a = refl
field-record_write_error coa_rx a = refl
field-record_write_error coa_ack a = refl
field-record_write_error coa_nak a = refl
field-record_write_error coa_drop a = refl
field-record_write_error disc_rx a = refl
field-record_write_error disc_ack a = refl
field-record_write_error disc_nak a = refl

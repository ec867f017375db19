-- ===== src/Events.antt =====
-- pkg/events: the record of an event (event.go), its categories and types (category.go), and the
-- constructors. The wall clock and the monotonic stamp are not modelled; `none` as an identifier
-- stands for NoIdentifier and as a state for the empty text. A code is the byte that int8 keeps.
use radstorm.Prelude.{ℕ, Option, none, some, List, [], ltb, if◌then◌else◌}
use radstorm.Prelude.Int.{ℤ}
use radstorm.Subscriber.Fsm.{State}

pub data Category : Type 0 where
  subscriber_lifecycle : Category
  packet_outbound : Category
  packet_inbound : Category
  coa_inbound : Category
  disconnect_inbound : Category
  error_category : Category

abbrev pub category_number : Category → ℕ
category_number subscriber_lifecycle = 0
category_number packet_outbound = 1
category_number packet_inbound = 2
category_number coa_inbound = 3
category_number disconnect_inbound = 4
category_number error_category = 5

pub data EventType : Type 0 where
  created : EventType
  activated : EventType
  state_changed : EventType
  terminal : EventType
  request_sent : EventType
  request_retransmitted : EventType
  reply_received : EventType
  duplicate_reply : EventType
  unmatched_reply : EventType
  coa_received : EventType
  coa_acked : EventType
  coa_naked : EventType
  coa_dropped : EventType
  disconnect_received : EventType
  disconnect_acked : EventType
  disconnect_naked : EventType
  validation_failed : EventType
  internal_error : EventType

abbrev pub type_number : EventType → ℕ
type_number created = 0
type_number activated = 1
type_number state_changed = 2
type_number terminal = 3
type_number request_sent = 4
type_number request_retransmitted = 5
type_number reply_received = 6
type_number duplicate_reply = 7
type_number unmatched_reply = 8
type_number coa_received = 9
type_number coa_acked = 10
type_number coa_naked = 11
type_number coa_dropped = 12
type_number disconnect_received = 13
type_number disconnect_acked = 14
type_number disconnect_naked = 15
type_number validation_failed = 16
type_number internal_error = 17

pub record Event : Type 0 where
  pub offset_ms : ℤ
  pub subscriber_id : ℕ  -- uint32
  pub category : Category
  pub event_type : EventType
  pub state : Option State
  pub radius_code : ℕ
  pub identifier : Option ℕ
  pub local_addr : List ℕ
  pub remote_addr : List ℕ
  pub packet_bytes : ℕ
  pub latency_us : ℤ
  pub retransmit_n : ℕ
  pub error_cause : ℕ
  pub error_message : List ℕ

-- What the constructors leave at its zero value.
abbrev pub blank_event : ℕ → ℤ → Category → EventType → Event
blank_event sub_id offset_ms category event_type = record {
  offset_ms = offset_ms;
  subscriber_id = sub_id;
  category = category;
  event_type = event_type;
  state = none;
  radius_code = 0;
  identifier = none;
  local_addr = [];
  remote_addr = [];
  packet_bytes = 0;
  latency_us = ℤ.pos 0;
  retransmit_n = 0;
  error_cause = 0;
  error_message = [];
}

-- NewSubscriberCreated
unfoldable pub new_subscriber_created : ℕ → ℤ → Option State → Event
new_subscriber_created sub_id offset_ms state =
    record (blank_event sub_id offset_ms subscriber_lifecycle created) { state = state }

-- NewSubscriberActivated
unfoldable pub new_subscriber_activated : ℕ → ℤ → Option State → Event
new_subscriber_activated sub_id offset_ms state =
    record (blank_event sub_id offset_ms subscriber_lifecycle activated) { state = state }

-- NewStateChanged
unfoldable pub new_state_changed : ℕ → ℤ → State → Event
new_state_changed sub_id offset_ms new_state =
    record (blank_event sub_id offset_ms subscriber_lifecycle state_changed) {
      state = some new_state;
    }

-- NewTerminal
unfoldable pub new_terminal : ℕ → ℤ → State → Event
new_terminal sub_id offset_ms terminal_state =
    record (blank_event sub_id offset_ms subscriber_lifecycle terminal) {
      state = some terminal_state;
    }

-- NewRequestSent
unfoldable pub new_request_sent : ℕ → ℤ → Option State → ℕ → ℕ → List ℕ → List ℕ → ℕ → ℕ → Event
new_request_sent sub_id offset_ms state code identifier local remote bytes retry_n =
    let et = if ltb 0 retry_n then request_retransmitted else request_sent in
    record (blank_event sub_id offset_ms packet_outbound et) {
      state = state;
      radius_code = code;
      identifier = some identifier;
      local_addr = local;
      remote_addr = remote;
      packet_bytes = bytes;
      retransmit_n = retry_n;
    }

-- NewReplyReceived
unfoldable pub new_reply_received : ℕ → ℤ → Option State → ℕ → ℕ → List ℕ → List ℕ → ℕ → ℤ → Event
new_reply_received sub_id offset_ms state code identifier local remote bytes latency_us =
    record (blank_event sub_id offset_ms packet_inbound reply_received) {
      state = state;
      radius_code = code;
      identifier = some identifier;
      local_addr = local;
      remote_addr = remote;
      packet_bytes = bytes;
      latency_us = latency_us;
    }

-- NewDuplicateReply
unfoldable pub new_duplicate_reply : ℕ → ℤ → ℕ → ℕ → List ℕ → List ℕ → ℕ → Event
new_duplicate_reply sub_id offset_ms code identifier local remote bytes =
    record (blank_event sub_id offset_ms packet_inbound duplicate_reply) {
      radius_code = code;
      identifier = some identifier;
      local_addr = local;
      remote_addr = remote;
      packet_bytes = bytes;
    }

-- NewUnmatchedReply
unfoldable pub new_unmatched_reply : ℤ → ℕ → ℕ → List ℕ → List ℕ → ℕ → Event
new_unmatched_reply offset_ms code identifier local remote bytes =
    record (blank_event 0 offset_ms packet_inbound unmatched_reply) {
      radius_code = code;
      identifier = some identifier;
      local_addr = local;
      remote_addr = remote;
      packet_bytes = bytes;
    }

-- NewCoAEvent
unfoldable pub new_coa_event : ℕ → ℤ → EventType → Option ℕ → List ℕ → List ℕ → ℕ → ℤ → ℕ → Event
new_coa_event sub_id offset_ms event_type identifier local remote bytes latency_us error_cause =
    record (blank_event sub_id offset_ms coa_inbound event_type) {
      identifier = identifier;
      local_addr = local;
      remote_addr = remote;
      packet_bytes = bytes;
      latency_us = latency_us;
      error_cause = error_cause;
    }

-- NewDisconnectEvent
unfoldable pub new_disconnect_event :
    ℕ → ℤ → EventType → Option ℕ → List ℕ → List ℕ → ℕ → ℤ → ℕ → Event
new_disconnect_event sub_id offset_ms event_type identifier local remote bytes latency_us
      error_cause =
    record (blank_event sub_id offset_ms disconnect_inbound event_type) {
      identifier = identifier;
      local_addr = local;
      remote_addr = remote;
      packet_bytes = bytes;
      latency_us = latency_us;
      error_cause = error_cause;
    }

-- NewError, for a type that is not the empty text
unfoldable pub new_error : ℕ → ℤ → EventType → ℕ → List ℕ → Event
new_error sub_id offset_ms event_type cause text =
    record (blank_event sub_id offset_ms error_category event_type) {
      error_cause = cause;
      error_message = text;
    }

-- ===== src/Subscriber/Fsm/Data.antt =====
-- The states of pkg/subscriber/state.go, and the data of the state machine: the subscriber with its
-- log, what Sender.Send returns, and the outcome (pkg/events/outcome.go).
use radstorm.Prelude.{ℕ, Bool, true, false, Option, List, [], ◌==◌}
use radstorm.Prelude.Int.{ℤ}

pub data State : Type 0 where
  idle : State
  auth_sent : State
  auth_retry : State
  auth_failed : State
  acct_sent : State
  acct_retry : State
  acct_failed : State
  established : State
  terminated : State

-- State.IsTerminal
unfoldable pub is_terminal : State → Bool
is_terminal auth_failed = true
is_terminal acct_failed = true
is_terminal established = true
is_terminal terminated = true
is_terminal s = false

-- State.IsFailure
unfoldable pub is_failure : State → Bool
is_failure auth_failed = true
is_failure acct_failed = true
is_failure s = false

abbrev pub state_number : State → ℕ
state_number idle = 0
state_number auth_sent = 1
state_number auth_retry = 2
state_number auth_failed = 3
state_number acct_sent = 4
state_number acct_retry = 5
state_number acct_failed = 6
state_number established = 7
state_number terminated = 8

abbrev pub same_state : State → State → Bool
same_state s t = state_number s == state_number t

-- The texts of FailureReason; `message` is the text of an error.
pub data Reason : Type 0 where
  no_reason : Reason
  message : List ℕ → Reason
  auth_send_error : Reason
  auth_nil_reply : Reason
  access_rejected : Reason
  unexpected_auth_code : ℕ → Reason
  acct_send_error : Reason
  acct_nil_reply : Reason
  unexpected_acct_code : ℕ → Reason
  disconnect_received : Reason

-- failureReason == ""; the text of an error may be empty
abbrev pub is_empty : Reason → Bool
is_empty no_reason = true
is_empty (message []) = true
is_empty why = false

-- events.SubscriberOutcome; a figure of milliseconds may be events.NotApplicableMs
pub record Outcome : Type 0 where
  pub final_state : State
  pub activated_offset : ℤ
  pub established_offset : ℤ
  pub establishment_latency : ℤ
  pub auth_retransmits : ℕ
  pub acct_retransmits : ℕ
  pub coa_received_count : ℕ
  pub disconnect_offset : ℤ
  pub failure_reason : Reason

pub data Entry : Type 0 where
  activated : State → Entry
  state_changed : State → Entry
  reply_received : State → ℕ → ℕ → Entry  -- state, code, identifier
  terminal : State → Entry
  coa_received : Option ℕ → Entry  -- the identifier, `none` for NoIdentifier
  disconnect_event : Option ℕ → Entry
  outcome : Outcome → Entry

-- A reply: its code and its identifier. `reply` is `none` for a nil Reply.
pub record SendResult : Type 0 where
  pub reply : Option (ℕ × ℕ)
  pub retransmit_n : ℕ

-- An error of Send: whether it is io.ErrFinalTimeout, and its text.
pub record SendError : Type 0 where
  pub is_final_timeout : Bool
  pub text : List ℕ

-- What Sender.Send returns.
pub record Sent : Type 0 where
  pub result : Option SendResult
  pub error : Option SendError

-- Subscriber and its log; `has_deps` says that Run has stored the dependencies, and `reads` counts
-- the readings of the clock.
pub record World : Type 0 where
  pub state : State
  pub activated_at : Option ℕ
  pub established_at : Option ℕ
  pub disconnected_at : Option ℕ
  pub auth_retransmits : ℕ
  pub acct_retransmits : ℕ
  pub coa_count : ℕ
  pub failure_reason : Reason
  pub has_deps : Bool
  pub reads : ℕ
  pub log : List Entry

-- A request that the listener delivers, with its identifier: a call of OnCoA or OnDisconnect.
pub data Inbound : Type 0 where
  coa : Option ℕ → Inbound
  disconnect : Option ℕ → Inbound

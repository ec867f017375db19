-- ===== src/Subscriber/Fsm.antt =====
-- pkg/subscriber/state.go and the state machine of pkg/subscriber/subscriber.go: Run, transition,
-- terminate, OnCoA and OnDisconnect. What Sender.Send returns is an argument of Run, with the
-- requests that the listener delivers while Send is waiting; they are the interleavings modelled.
-- Times are readings of the monotonic clock in nanoseconds. Each submission to the collector is
-- an entry of the log; of an event its type, its state, and a reply's code and identifier are
-- modelled, not its addresses, sizes and offsets.
mod Data
unfoldable pub use Data.*
pub mod Calls
pub mod Runs
pub mod Established
use radstorm.Prelude.{
  ℕ, zero, suc, ◌+◌, ◌-◌, ◌*◌, ◌/◌, Bool, true, false, ◌&&◌, ◌||◌, not, Option, none, some, List,
  [], ◌∷◌, ◌++◌, ◌==◌, ltb, if◌then◌else◌,
}
use radstorm.Prelude.Int.{ℤ, pos, negsuc, opposite}
use radstorm.Radius.Code.{access_accept, access_reject, accounting_response}

abbrev pub submit : Entry → World → World
submit e w = record w { log = w.log ++ e ∷ [] }

-- "timeout" in ASCII stands at the front of the text.
starts_with_timeout : List ℕ → Bool
starts_with_timeout (a ∷ b ∷ c ∷ d ∷ e ∷ f ∷ g ∷ rest) =
    a == 116 && b == 105 && c == 109 && d == 101 && e == 111 && f == 117 && g == 116
starts_with_timeout s = false

mentions_timeout : List ℕ → Bool
unfolding starts_with_timeout
mentions_timeout [] = false
mentions_timeout (c ∷ rest) = starts_with_timeout (c ∷ rest) || mentions_timeout rest

-- isFinalTimeoutErr
unfoldable pub is_final_timeout_err : Option SendError → Bool
unfolding mentions_timeout
is_final_timeout_err none = false
is_final_timeout_err (some e) = e.is_final_timeout || mentions_timeout e.text

-- The clock, T0 (`none` for the zero time), IncludeAcctStart and policy.MaxRetries.
pub record Deps : Type 0 where
  pub clock : ℕ → ℕ
  pub t0 : Option ℕ
  pub include_acct_start : Bool
  pub max_retries : ℕ

-- events.NotApplicableMs
abbrev pub not_applicable_ms : ℤ
not_applicable_ms = negsuc 0

-- Sub and Milliseconds: the whole milliseconds from one time to another, towards zero.
abbrev milliseconds_between : (from to : ℕ) → ℤ
milliseconds_between from to =
    if ltb to from then opposite ((from - to) / 1000000) else pos ((to - from) / 1000000)

-- toOffsetMs
unfoldable pub to_offset_ms : Option ℕ → Option ℕ → ℤ
to_offset_ms none t = not_applicable_ms
to_offset_ms (some t0) none = not_applicable_ms
to_offset_ms (some t0) (some t) = milliseconds_between t0 t

latency : Option ℕ → Option ℕ → ℤ
latency none a = not_applicable_ms
latency (some e) none = not_applicable_ms
latency (some e) (some a) = milliseconds_between a e

module _ (deps : Deps) where
  -- buildOutcome
  unfoldable pub build_outcome : World → State → Reason → Outcome
  unfolding to_offset_ms latency
  build_outcome w s why = record {
    final_state = s;
    activated_offset = to_offset_ms deps.t0 w.activated_at;
    established_offset = to_offset_ms deps.t0 w.established_at;
    establishment_latency = latency w.established_at w.activated_at;
    auth_retransmits = w.auth_retransmits;
    acct_retransmits = w.acct_retransmits;
    coa_received_count = w.coa_count;
    disconnect_offset = to_offset_ms deps.t0 w.disconnected_at;
    failure_reason = why;
  }

  -- deps.Now()
  abbrev pub now : World → ℕ
  now w = deps.clock w.reads

  abbrev pub tick : World → World
  tick w = record w { reads = suc w.reads }

  -- transition
  unfoldable pub transition : State → World → World
  transition next w =
      if same_state w.state next
      then w
      else submit (state_changed next) (tick (record w { state = next }))

  establish : State → World → World
  establish s w =
      if same_state s established then tick (record w { established_at = some (now w) }) else w

  fail_with : Reason → World → World
  fail_with why w = if is_empty why then w else record w { failure_reason = why }

  changed : Bool → State → World → World
  changed true s w = w
  changed false s w = submit (state_changed s) (tick w)

  -- terminate
  unfoldable pub terminate : State → Reason → World → World
  unfolding establish fail_with changed build_outcome
  terminate s why w =
      let ended = fail_with why (establish s (record w { state = s })) in
      let logged = tick (submit (terminal s) (changed (same_state w.state s) s ended)) in
      submit (outcome (build_outcome logged s why)) logged

  -- OnCoA
  unfoldable pub on_coa : Option ℕ → World → World
  on_coa id w =
      let counted = record w { coa_count = suc w.coa_count } in
      if w.has_deps then submit (coa_received id) (tick counted) else counted

  -- OnDisconnect
  unfoldable pub on_disconnect : Option ℕ → World → World
  unfolding build_outcome
  on_disconnect id w =
      if not w.has_deps || same_state w.state terminated
      then w
      else (let ended = tick (record w { state = terminated; disconnected_at = some (now w) }) in
          let logged =
            submit (state_changed terminated) (submit (disconnect_event id) (tick ended)) in
          submit (outcome (build_outcome logged terminated disconnect_received)) logged)

  -- The calls of the listener, in their order.
  unfoldable pub deliver : List Inbound → World → World
  unfolding on_coa on_disconnect
  deliver [] w = w
  deliver (coa id ∷ rest) w = deliver rest (on_coa id w)
  deliver (disconnect id ∷ rest) w = deliver rest (on_disconnect id w)

  -- recordAuthRetransmits, recordAcctRetransmits
  record_auth_retransmits : Option SendResult → World → World
  record_auth_retransmits none w = w
  record_auth_retransmits (some r) w = record w { auth_retransmits = r.retransmit_n }

  record_acct_retransmits : Option SendResult → World → World
  record_acct_retransmits none w = w
  record_acct_retransmits (some r) w = record w { acct_retransmits = r.retransmit_n }

  error_reason : Reason → Option SendError → Reason
  error_reason default none = default
  error_reason default (some e) = message e.text

  -- The branch of Run where the Access-Request got no result.
  auth_unsent : Option SendResult → Option SendError → World → World
  unfolding is_final_timeout_err terminate error_reason
  auth_unsent result error w =
      let counted : World = elim result [
        | none ↦
            if is_final_timeout_err error
            then record w { auth_retransmits = deps.max_retries }
            else w
        | some r ↦ w
      ] in
      terminate auth_failed (error_reason auth_send_error error) counted

  acct_unsent : Option SendResult → Option SendError → World → World
  unfolding is_final_timeout_err terminate error_reason
  acct_unsent result error w =
      let counted : World = elim result [
        | none ↦
            if is_final_timeout_err error
            then record w { acct_retransmits = deps.max_retries }
            else w
        | some r ↦ w
      ] in
      terminate acct_failed (error_reason acct_send_error error) counted

  -- The rest of Run from the result of the Accounting-Request on.
  after_acct : Option SendResult → Option SendError → World → State × World
  unfolding terminate acct_unsent
  after_acct result (some e) w = (acct_failed, acct_unsent result (some e) w)
  after_acct none none w = (acct_failed, acct_unsent none none w)
  after_acct (some r) none w = elim r.reply [
    | none ↦ (acct_failed, terminate acct_failed acct_nil_reply w)
    | some reply ↦
        let seen = submit (reply_received acct_sent reply.0 reply.1) (tick w) in
        if reply.0 == accounting_response
        then (established, terminate established no_reason seen)
        else (acct_failed, terminate acct_failed (unexpected_acct_code reply.0) seen)
  ]

  -- The accounting phase of Run; `during` is delivered while Send is waiting.
  acct_phase : Sent → List Inbound → World → State × World
  unfolding transition deliver record_acct_retransmits after_acct
  acct_phase acct during w =
      after_acct acct.result acct.error
        (record_acct_retransmits acct.result (deliver during (transition acct_sent w)))

  -- Run from an Access-Accept on, by IncludeAcctStart.
  accepted : Bool → Sent → List Inbound → World → State × World
  unfolding acct_phase terminate
  accepted true acct during w = acct_phase acct during w
  accepted false acct during w = (established, terminate established no_reason w)

  -- Run from the result of the Access-Request on.
  after_auth : Option SendResult → Option SendError → Sent → List Inbound → World → State × World
  unfolding auth_unsent accepted terminate
  after_auth result (some e) acct during w = (auth_failed, auth_unsent result (some e) w)
  after_auth none none acct during w = (auth_failed, auth_unsent none none w)
  after_auth (some r) none acct during w = elim r.reply [
    | none ↦ (auth_failed, terminate auth_failed auth_nil_reply w)
    | some reply ↦
        let seen = submit (reply_received auth_sent reply.0 reply.1) (tick w) in
        if reply.0 == access_accept
        then accepted deps.include_acct_start acct during seen
        else if reply.0 == access_reject
        then (auth_failed, terminate auth_failed access_rejected seen)
        else (auth_failed, terminate auth_failed (unexpected_auth_code reply.0) seen)
  ]

  -- Run, with dependencies that it does not refuse: the state returned and the world left.
  unfoldable pub run : Sent → List Inbound → Sent → List Inbound → World → State × World
  unfolding transition deliver record_auth_retransmits after_auth
  run auth during_auth acct during_acct w =
      let started = tick (record w { has_deps = true; activated_at = some (now w) }) in
      let sent = transition auth_sent (submit (activated idle) started) in
      after_auth auth.result auth.error acct during_acct
        (record_auth_retransmits auth.result (deliver during_auth sent))

-- ===== src/Scenario/Components.antt =====
-- pkg/scenario/runner.go: the state of a run, what it is given, and constructComponents. What the
-- packages, the network, the files and the context do is a World; the calls are a trace.
pub mod Kept
use radstorm.Prelude.{
  ℕ, Bool, true, false, not, ◌&&◌, ◌||◌, Option, none, some, List, [], ◌∷◌, if◌then◌else◌,
}
use radstorm.Prelude.Int.{ℤ}
use radstorm.Scenario.Lifecycle.{Phase, warmup, TransitionError}
use radstorm.Subscriber.Pool.{Pool}

-- What Run reads of Opts and of the configuration, after New.
pub record Setup : Type 0 where
  pub include_acct_start : Bool
  pub collector_override : Bool
  pub engine_override : Bool
  pub skip_server_listener : Bool
  pub has_bind_address : Bool
  pub has_shared_secret : Bool
  pub hard_timeout_sec : ℤ
  pub drain_timeout : ℕ
  pub warmup_delay : ℕ
  pub offsets : List ℕ  -- the schedule's
  pub pool : Pool  -- NewPool of the credentials

-- What each call from outside of the package answers: true where it gives no error.
pub record World : Type 0 where
  pub resolve_auth : Bool
  pub resolve_acct : Bool
  pub new_collector : Bool
  pub parse_source_ips : Bool
  pub new_engine : Bool
  pub new_listener : Bool
  pub new_progress : Bool
  pub start_engine : Bool
  pub start_listener : Bool
  pub cancelled_in_warmup : Bool  -- the context ends before the delay does
  pub now : ℕ → ℕ  -- the time since t0 when an index of the ramp is reached
  pub cancelled_at : ℕ → Bool  -- the context ends before the timer of that index does
  pub aggregate : Bool
  pub write_summary : Bool

pub data RunError : Type 0 where
  resolve_auth_failed : RunError
  resolve_acct_failed : RunError
  collector_failed : RunError
  source_ips_failed : RunError
  engine_failed : RunError
  progress_failed : RunError
  engine_start_failed : RunError
  context_ended : RunError
  aggregate_failed : RunError
  write_summary_failed : RunError

pub data Call : Type 0 where
  collector_made : Call
  engine_made : Call
  listener_made : Call
  lifecycle : Phase → Call  -- Submit of the event that marks a phase
  engine_started : Call
  listener_started : Call
  progress_started : Call
  launched : (idx at : ℕ) → Call  -- sub.Run, and when
  held : ℕ → Call  -- the wait of drain without subscribers, in seconds or as drain_timeout
  awaited : ℕ → Call  -- the wait of drain for the subscribers
  progress_stopped : Call
  collector_stopped : Call
  summary_written : Call
  listener_stopped : Call
  engine_stopped : Call

pub record Runner : Type 0 where
  pub current_phase : Phase
  pub has_listener : Bool
  pub owns_engine : Bool
  pub active : Bool  -- activeWG is not nil
  pub activated : ℕ  -- counters.activated
  pub calls : List Call  -- the latest first

abbrev pub new_state : Runner
new_state = record {
  current_phase = warmup;
  has_listener = false;
  owns_engine = false;
  active = false;
  activated = 0;
  calls = [];
}

-- How a part of Run ends: with an answer, or in a panic.
pub data Ended (A : Type 0) : Type 0 where
  went : A → Runner → Ended A
  panicked : TransitionError → Runner → Ended A

abbrev pub called : Call → Runner → Runner
called c r = record r { calls = c ∷ r.calls }

module _ (setup : Setup) (w : World) where
  -- constructComponents: the first error, with what has been made by then
  make_progress : Runner → Option RunError × Runner
  make_progress r = if w.new_progress then (none, r) else (some progress_failed, r)

  make_listener : Runner → Option RunError × Runner
  unfolding make_progress
  make_listener r =
      let wanted =
        not setup.skip_server_listener && (setup.has_bind_address && setup.has_shared_secret) in
      if wanted && w.new_listener
      then make_progress (called listener_made (record r { has_listener = true }))
      else make_progress r

  make_engine : Runner → Option RunError × Runner
  unfolding make_listener
  make_engine r =
      if setup.engine_override
      then make_listener r
      else if not w.parse_source_ips
      then (some source_ips_failed, r)
      else if not w.new_engine
      then (some engine_failed, r)
      else make_listener (called engine_made (record r { owns_engine = true }))

  make_collector : Runner → Option RunError × Runner
  unfolding make_engine
  make_collector r =
      if setup.collector_override
      then make_engine r
      else if w.new_collector
      then make_engine (called collector_made r)
      else (some collector_failed, r)

  pub construct_components : Runner → Option RunError × Runner
  unfolding make_collector
  construct_components r =
      if not w.resolve_auth
      then (some resolve_auth_failed, r)
      else if setup.include_acct_start && not w.resolve_acct
      then (some resolve_acct_failed, r)
      else make_collector r

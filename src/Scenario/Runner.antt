-- ===== src/Scenario/Runner.antt =====
-- pkg/scenario/runner.go: Run and the phases it is made of. A panic is a way a step ends.
pub mod Phases
pub mod Ramp
pub mod Ending
use radstorm.Prelude.{
  ℕ, zero, suc, ◌+◌, ◌-◌, ◌*◌, ◌%◌, Bool, true, false, not, ◌&&◌, Option, none, some, List, [], ◌∷◌,
  ◌++◌, ltb, if◌then◌else◌,
}
use radstorm.Prelude.Int.{above}
use radstorm.Scenario.Lifecycle.{
  Phase, warmup, ramp, drain, finalize, finished, same_phase, TransitionError, validate_transition,
}
use radstorm.Scenario.Components.{
  Setup, World, RunError, engine_start_failed, context_ended, aggregate_failed,
  write_summary_failed, Call, lifecycle, engine_started, listener_started, progress_started,
  launched, held, awaited, progress_stopped, collector_stopped, summary_written, listener_stopped,
  engine_stopped, Runner, new_state, Ended, went, panicked, called, construct_components,
}
use radstorm.Subscriber.Pool.{Subscriber, get}

on_validated : Option TransitionError → Phase → Runner → Ended (List RunError)
on_validated none next r = went [] (record r { current_phase = next })
on_validated (some error) next r = panicked error r

-- transition
pub transition : Phase → Runner → Ended (List RunError)
unfolding on_validated
transition next r =
    if same_phase r.current_phase next
    then went [] r
    else on_validated (validate_transition r.current_phase next) next r

-- The rest of a part behind its transition.
entering : Ended (List RunError) → (Runner → Ended (List RunError)) → Ended (List RunError)
entering (panicked error r) rest = panicked error r
entering (went errors r) rest = rest r

module _ (setup : Setup) (w : World) where
  -- warmup, behind its transition
  after_listener : Runner → Ended (List RunError)
  after_listener r =
      if ltb 0 setup.warmup_delay && w.cancelled_in_warmup
      then went (context_ended ∷ []) (called progress_started r)
      else went [] (called progress_started r)

  on_engine : Bool → Runner → Ended (List RunError)
  unfolding after_listener
  on_engine false r = went (engine_start_failed ∷ []) r
  on_engine true r =
      if r.has_listener && w.start_listener
      then after_listener (called listener_started (called engine_started r))
      else after_listener (called engine_started r)

  pub warmup_step : Runner → Ended (List RunError)
  unfolding on_engine
  warmup_step r =
      entering (transition warmup r) (λ s. on_engine w.start_engine (called (lifecycle warmup) s))

  on_sub : Option Subscriber → (idx at : ℕ) → Runner → Runner
  on_sub none idx at r = r
  on_sub (some sub) idx at r = called (launched idx at) (record r { activated = suc r.activated })

  -- The loop of ramp, from an index on. The timer of an index runs for `d`, from `now` on.
  launch_from : List ℕ → (idx : ℕ) → Runner → Runner
  unfolding on_sub
  launch_from [] idx r = r
  launch_from (offset ∷ offsets) idx r =
      let now = w.now idx in
      let d = if ltb now offset then offset - now else 0 in
      let rest =
        launch_from offsets (suc idx)
          (on_sub (get setup.pool (idx % 4294967296)) idx (now + d) r) in
      if w.cancelled_at idx then r else rest

  launch_all : List ℕ → Runner → Runner
  launch_all [] r = r
  launch_all (offset ∷ offsets) r = launch_from (offset ∷ offsets) 0 (record r { active = true })

  pub ramp_step : Runner → Ended (List RunError)
  ramp_step r =
      entering (transition ramp r)
        (λ s. went [] (launch_all setup.offsets (called (lifecycle ramp) s)))

  -- The wait of drain; how it ends makes no difference.
  wait_for_subscribers : Runner → Runner
  wait_for_subscribers r =
      if r.active
      then called (awaited setup.drain_timeout) r
      else if ltb 0 (above setup.hard_timeout_sec)
      then called (held (above setup.hard_timeout_sec * 1000000000)) r
      else called (held setup.drain_timeout) r

  pub drain_step : Runner → Ended (List RunError)
  unfolding wait_for_subscribers
  drain_step r =
      entering (transition drain r)
        (λ s. went [] (wait_for_subscribers (called (lifecycle drain) s)))

  on_stopped : Runner → Ended (List RunError)
  on_stopped r =
      if not w.aggregate
      then went (aggregate_failed ∷ []) r
      else if not w.write_summary
      then went (write_summary_failed ∷ []) r
      else went [] (called summary_written r)

  pub finalize_step : Runner → Ended (List RunError)
  unfolding on_stopped
  finalize_step r = entering (transition finalize r) (λ s.
      on_stopped
        (called collector_stopped (called progress_stopped (called (lifecycle finalize) s))))

  -- shutdown
  shutdown : Runner → Runner
  shutdown r =
      let s = if r.has_listener then called listener_stopped r else r in
      if r.owns_engine then called engine_stopped s else s

  -- defer r.shutdown
  shut_down : Ended (List RunError) → Ended (List RunError)
  unfolding shutdown
  shut_down (went errors r) = went errors (shutdown r)
  shut_down (panicked error r) = panicked error (shutdown r)

  -- Run from a part on, with the errors so far.
  and_then :
      Ended (List RunError)
      → (List RunError → Runner → Ended (List RunError))
      → Ended (List RunError)
  and_then (panicked error r) rest = panicked error r
  and_then (went errors r) rest = rest errors r

  -- errors.Join
  joined : List RunError → Ended (List RunError) → Ended (List RunError)
  joined errors (went more r) = went (errors ++ more) r
  joined errors (panicked error r) = panicked error r

  from_finalize : List RunError → Runner → Ended (List RunError)
  unfolding and_then joined
  from_finalize errors r =
      and_then (joined errors (finalize_step r)) (λ all s. joined all (transition finished s))

  from_drain : List RunError → Runner → Ended (List RunError)
  unfolding from_finalize
  from_drain errors r = and_then (drain_step r) (λ _ s. from_finalize errors s)

  after_warmup : List RunError → Runner → Ended (List RunError)
  unfolding from_drain
  after_warmup [] r = and_then (ramp_step r) (λ _ s. from_drain [] s)
  after_warmup (error ∷ errors) r = from_drain (error ∷ errors) r

  on_constructed : Option RunError × Runner → Ended (List RunError)
  unfolding after_warmup shut_down
  on_constructed (some error, r) = went (error ∷ []) r
  on_constructed (none, r) = shut_down (and_then (warmup_step r) after_warmup)

  -- Run, of a Runner that New has made
  pub run : Ended (List RunError)
  unfolding on_constructed
  run = on_constructed (construct_components setup w new_state)

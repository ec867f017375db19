-- ===== src/Scenario/Runner/Phases.antt =====
-- How Run ends, and the phases it goes through.
use radstorm.Prelude.{
  ℕ, suc, ◌≡◌, refl, ap, ◌∙◌, Bool, true, false, not, ◌&&◌, Option, none, some, List, [], ◌∷◌, ◌%◌,
  inl, inr, ltb, if◌then◌else◌, Bool-cases,
}
use radstorm.Prelude.Int.{above}
use radstorm.Prelude.Maps.{same_text}
use radstorm.Scenario.Lifecycle.{
  Phase, warmup, ramp, drain, finalize, same_phase, validate_transition,
}
use radstorm.Scenario.Components.{
  Setup, World, RunError, engine_start_failed, launched, held, awaited, engine_started,
  listener_started, progress_started, progress_stopped, collector_stopped, summary_written,
  context_ended, aggregate_failed, write_summary_failed, Call, lifecycle, Runner, Ended, went,
  called,
}
use radstorm.Scenario.Runner.{
  transition, entering, warmup_step, ramp_step, drain_step, finalize_step, on_engine,
  after_listener, launch_from, launch_all, on_sub, wait_for_subscribers, on_stopped,
}
use radstorm.Subscriber.Pool.{Subscriber, get}

-- The calls that mark a phase, or make or stop a component, the latest first.
abbrev pub marks : List Call → List Call
marks [] = []
marks (launched idx at ∷ calls) = marks calls
marks (held d ∷ calls) = marks calls
marks (awaited d ∷ calls) = marks calls
marks (engine_started ∷ calls) = marks calls
marks (listener_started ∷ calls) = marks calls
marks (progress_started ∷ calls) = marks calls
marks (progress_stopped ∷ calls) = marks calls
marks (collector_stopped ∷ calls) = marks calls
marks (summary_written ∷ calls) = marks calls
marks (c ∷ calls) = c ∷ marks calls

abbrev pub View : Type 0
View = List Call × Bool × Bool

abbrev pub view : Runner → View
view r = (marks r.calls, r.has_listener, r.owns_engine)

abbrev pub entered : Phase → View → View
entered p v = (lifecycle p ∷ v.0, v.1, v.2)

abbrev pub IsIn : Phase → View → Runner → Type 0
IsIn p before r = (r.current_phase ≡ p) × (view r ≡ before)

-- The errors of warmup, and of finalize.
abbrev pub warmup_errors : Setup → World → List RunError
warmup_errors setup w =
    if w.start_engine
    then if ltb 0 setup.warmup_delay && w.cancelled_in_warmup then context_ended ∷ [] else []
    else engine_start_failed ∷ []

abbrev pub finalize_errors : World → List RunError
finalize_errors w =
    if not w.aggregate
    then aggregate_failed ∷ []
    else if not w.write_summary
    then write_summary_failed ∷ []
    else []

abbrev pub Goes : Ended (List RunError) → List RunError → Phase → View → Type 0
Goes ended errors p before = (r : Runner) × (ended ≡ went errors r) × IsIn p before r

pub transition_step :
    (p q : Phase) (r : Runner)
    → r.current_phase ≡ p
    → same_phase p q ≡ false
    → validate_transition p q ≡ none
    → transition q r ≡ went [] (record r { current_phase = q })
unfolding transition
transition_step p q r e differ valid = rw (e, differ, valid) refl

transition_none :
    (p : Phase) (r : Runner)
    → r.current_phase ≡ p
    → same_phase p p ≡ true
    → transition p r ≡ went [] r
unfolding transition
transition_none p r e same = rw (ap (λ q. same_phase q p) e ∙ same) refl

module _ (setup : Setup) (w : World) where
  after_listener-Goes :
      (r : Runner) (before : View)
      → IsIn warmup before r
      → Goes
          (after_listener setup w r)
          (if ltb 0 setup.warmup_delay && w.cancelled_in_warmup then context_ended ∷ [] else [])
          warmup
          before
  unfolding after_listener
  after_listener-Goes r before h =
      elim (Bool-cases (ltb 0 setup.warmup_delay && w.cancelled_in_warmup)) [
        | inl e ↦ (called progress_started r, rw e refl, h)
        | inr e ↦ (called progress_started r, rw e refl, h)
      ]

  started-Goes :
      (r : Runner) (before : View)
      → IsIn warmup before r
      → Goes
          (on_engine setup w true r)
          (if ltb 0 setup.warmup_delay && w.cancelled_in_warmup then context_ended ∷ [] else [])
          warmup
          before
  unfolding on_engine
  started-Goes r before h = elim (Bool-cases (r.has_listener && w.start_listener)) [
    | inl e ↦
        rw e (after_listener-Goes (called listener_started (called engine_started r)) before h)
    | inr e ↦ rw e (after_listener-Goes (called engine_started r) before h)
  ]

  on_engine-Goes :
      (r : Runner) (before : View)
      → IsIn warmup before r
      → Goes (on_engine setup w w.start_engine r) (warmup_errors setup w) warmup before
  unfolding on_engine
  on_engine-Goes r before h = elim (Bool-cases w.start_engine) [
    | inl e ↦ rw e (started-Goes r before h)
    | inr e ↦ (r, rw e refl, h)
  ]

  pub warmup_step-Goes :
      (r : Runner) (before : View)
      → IsIn warmup before r
      → Goes (warmup_step setup w r) (warmup_errors setup w) warmup (entered warmup before)
  unfolding warmup_step entering same_text
  warmup_step-Goes r before (e, h) =
      let (s, ended, at) =
        on_engine-Goes (called (lifecycle warmup) r) (entered warmup before)
          (e, ap (entered warmup) h) in
      (s, rw (transition_none warmup r e refl) ended, at)

  on_sub-IsIn :
      (o : Option Subscriber) (idx at : ℕ) (r : Runner) (p : Phase) (before : View)
      → IsIn p before r
      → IsIn p before (on_sub setup w o idx at r)
  unfolding on_sub
  on_sub-IsIn none idx at r p before h = h
  on_sub-IsIn (some sub) idx at r p before h = h

  launch_from-IsIn :
      (offsets : List ℕ) (idx : ℕ) (r : Runner) (p : Phase) (before : View)
      → IsIn p before r
      → IsIn p before (launch_from setup w offsets idx r)
  unfolding launch_from
  launch_from-IsIn [] idx r p before h = h
  launch_from-IsIn (offset ∷ offsets) idx r p before h = elim (Bool-cases (w.cancelled_at idx)) [
    | inl e ↦ rw e h
    | inr e ↦ rw e (
        launch_from-IsIn offsets (suc idx) _ p before
          (on_sub-IsIn (get setup.pool (idx % 4294967296)) idx _ r p before h))
  ]

  launch_all-IsIn :
      (offsets : List ℕ) (r : Runner) (p : Phase) (before : View)
      → IsIn p before r
      → IsIn p before (launch_all setup w offsets r)
  unfolding launch_all
  launch_all-IsIn [] r p before h = h
  launch_all-IsIn (offset ∷ offsets) r p before h =
      launch_from-IsIn (offset ∷ offsets) 0 (record r { active = true }) p before h

  pub ramp_step-Goes :
      (r : Runner) (before : View)
      → IsIn warmup before r
      → Goes (ramp_step setup w r) [] ramp (entered ramp before)
  unfolding ramp_step validate_transition same_text entering
  ramp_step-Goes r before (e, h) =
      let s = called (lifecycle ramp) (record r { current_phase = ramp }) in
      (
        launch_all setup w setup.offsets s,
        rw (transition_step warmup ramp r e refl refl) refl,
        launch_all-IsIn setup.offsets s ramp (entered ramp before) (refl, ap (entered ramp) h),
      )

  wait_for_subscribers-IsIn :
      (r : Runner) (p : Phase) (before : View)
      → IsIn p before r
      → IsIn p before (wait_for_subscribers setup w r)
  unfolding wait_for_subscribers
  wait_for_subscribers-IsIn r p before h = elim (Bool-cases r.active) [
    | inl e ↦ rw e h
    | inr e ↦ elim (Bool-cases (ltb 0 (above setup.hard_timeout_sec))) [
      | inl f ↦ rw (e, f) h
      | inr f ↦ rw (e, f) h
    ]
  ]

  pub drain_step-Goes :
      (r : Runner) (before : View)
      → IsIn ramp before r
      → Goes (drain_step setup w r) [] drain (entered drain before)
  unfolding drain_step validate_transition same_text entering
  drain_step-Goes r before (e, h) =
      let s = called (lifecycle drain) (record r { current_phase = drain }) in
      (
        wait_for_subscribers setup w s,
        rw (transition_step ramp drain r e refl refl) refl,
        wait_for_subscribers-IsIn s drain (entered drain before) (refl, ap (entered drain) h),
      )

  on_stopped-Goes :
      (r : Runner) (p : Phase) (before : View)
      → IsIn p before r
      → Goes (on_stopped setup w r) (finalize_errors w) p before
  unfolding on_stopped
  on_stopped-Goes r p before h = elim (Bool-cases w.aggregate) [
    | inr e ↦ (r, rw e refl, h)
    | inl e ↦ elim (Bool-cases w.write_summary) [
      | inl f ↦ (called summary_written r, rw (e, f) refl, h)
      | inr f ↦ (r, rw (e, f) refl, h)
    ]
  ]

  pub finalize_step-Goes :
      (r : Runner) (before : View)
      → IsIn drain before r
      → Goes (finalize_step setup w r) (finalize_errors w) finalize (entered finalize before)
  unfolding finalize_step validate_transition same_text entering
  finalize_step-Goes r before (e, h) =
      let s = called (lifecycle finalize) (record r { current_phase = finalize }) in
      let (t, ended, at) =
        on_stopped-Goes (called collector_stopped (called progress_stopped s)) finalize
          (entered finalize before) (refl, ap (entered finalize) h) in
      (t, rw (transition_step drain finalize r e refl refl) ended, at)

-- ===== src/Scenario/Runner/Ending.antt =====
-- How Run ends, for each way its parts do.
use radstorm.Prelude.{
  ◌≡◌, refl, ap, ◌∙◌, Option, none, some, List, [], ◌∷◌, append-nil, inl, inr, if◌then◌else◌,
  Bool-cases,
}
use radstorm.Prelude.Maps.{same_text}
use radstorm.Scenario.Lifecycle.{
  warmup, ramp, drain, finalize, finished, validate_transition, invalid_phase_transition,
}
use radstorm.Scenario.Components.{
  Setup, World, RunError, Call, engine_stopped, listener_stopped, Runner, new_state, Ended, went,
  panicked, construct_components,
}
use radstorm.Scenario.Components.Kept.{construct_components-keeps}
use radstorm.Scenario.Runner.{
  run, on_constructed, after_warmup, from_drain, from_finalize, shut_down, shutdown, transition,
  entering, on_validated, drain_step,
}
use radstorm.Scenario.Runner.Phases.{
  marks, View, view, entered, IsIn, warmup_errors, finalize_errors, transition_step,
  warmup_step-Goes, ramp_step-Goes, drain_step-Goes, finalize_step-Goes,
}

-- The calls behind shutdown.
abbrev pub released : View → List Call
released v =
    let calls = if v.1 then listener_stopped ∷ v.0 else v.0 in
    if v.2 then engine_stopped ∷ calls else calls

abbrev pub all_phases : View → View
all_phases v = entered finalize (entered drain (entered ramp (entered warmup v)))

abbrev pub EndsAs :
    World → Option RunError × Runner → List RunError → Ended (List RunError) → Type 0
EndsAs w (some error, r) errors ended = ended ≡ went (error ∷ []) r
EndsAs w (none, r) [] ended =
    (s : Runner) × (ended ≡ went (finalize_errors w) s)
    × (s.current_phase ≡ finished)
    × (marks s.calls ≡ released (all_phases (view r)))
EndsAs w (none, r) (error ∷ errors) ended =
    (s : Runner) × (ended ≡ panicked (invalid_phase_transition warmup drain) s)
    × (s.current_phase ≡ warmup)
    × (marks s.calls ≡ released (entered warmup (view r)))

module _ (setup : Setup) (w : World) where
  shutdown-marks : (r : Runner) → marks (shutdown setup w r).calls ≡ released (view r)
  unfolding shutdown
  shutdown-marks r = elim (Bool-cases r.has_listener) [
    | inl e ↦ elim (Bool-cases r.owns_engine) [ inl f ↦ rw (e, f) refl | inr f ↦ rw (e, f) refl ]
    | inr e ↦ elim (Bool-cases r.owns_engine) [ inl f ↦ rw (e, f) refl | inr f ↦ rw (e, f) refl ]
  ]

  shutdown-phase : (r : Runner) → (shutdown setup w r).current_phase ≡ r.current_phase
  unfolding shutdown
  shutdown-phase r = elim (Bool-cases r.has_listener) [
    | inl e ↦ elim (Bool-cases r.owns_engine) [ inl f ↦ rw (e, f) refl | inr f ↦ rw (e, f) refl ]
    | inr e ↦ elim (Bool-cases r.owns_engine) [ inl f ↦ rw (e, f) refl | inr f ↦ rw (e, f) refl ]
  ]

  drain_step-panics :
      (r : Runner)
      → r.current_phase ≡ warmup
      → drain_step setup w r ≡ panicked (invalid_phase_transition warmup drain) r
  unfolding drain_step entering transition on_validated validate_transition same_text
  drain_step-panics r e = rw e refl

  from_finalize-step :
      (r : Runner) (before : View)
      → IsIn drain before r
      → (s : Runner) × (from_finalize setup w [] r ≡ went (finalize_errors w) s)
        × IsIn finished (entered finalize before) s
  unfolding from_finalize validate_transition same_text
  from_finalize-step r before h =
      let (s, ended, at) = finalize_step-Goes setup w r before h in
      (
        record s { current_phase = finished },
        rw
            (
              ended,
              transition_step finalize finished s at.0 refl refl,
              append-nil (finalize_errors w),
            )
            refl,
        (refl, at.1),
      )

  after_warmup-step :
      (r : Runner) (before : View)
      → IsIn warmup before r
      → (s : Runner) × (after_warmup setup w [] r ≡ went (finalize_errors w) s)
        × IsIn finished (entered finalize (entered drain (entered ramp before))) s
  unfolding after_warmup from_drain
  after_warmup-step r before h =
      let (s, ramped, at_s) = ramp_step-Goes setup w r before h in
      let (t, drained, at_t) = drain_step-Goes setup w s (entered ramp before) at_s in
      let (u, ended, at_u) = from_finalize-step t (entered drain (entered ramp before)) at_t in
      (u, rw (ramped, drained) ended, at_u)

  shut-marks :
      (r : Runner) (before : View)
      → view r ≡ before
      → marks (shutdown setup w r).calls ≡ released before
  shut-marks r before h = shutdown-marks r ∙ ap released h

  on_constructed-EndsAs :
      (made : Option RunError × Runner) (errors : List RunError)
      → made.1.current_phase ≡ warmup
      → warmup_errors setup w ≡ errors
      → EndsAs w made errors (on_constructed setup w made)
  unfolding on_constructed shut_down
  on_constructed-EndsAs (some error, r) errors h e = refl
  on_constructed-EndsAs (none, r) [] h e =
      let (s, warmed, at_s) = warmup_step-Goes setup w r (view r) (h, refl) in
      let (t, ended, at_t) = after_warmup-step s (entered warmup (view r)) at_s in
      (
        shutdown setup w t,
        rw (warmed, e, ended) refl,
        shutdown-phase t ∙ at_t.0,
        shut-marks t (all_phases (view r)) at_t.1,
      )
  on_constructed-EndsAs (none, r) (error ∷ errors) h e =
      let (s, warmed, at_s) = warmup_step-Goes setup w r (view r) (h, refl) in
      (
        shutdown setup w s,
        rw (warmed, e, drain_step-panics s at_s.0) refl,
        shutdown-phase s ∙ at_s.0,
        shut-marks s (entered warmup (view r)) at_s.1,
      )

-- Run returns the first error of constructComponents and stops nothing; where warmup has an error,
-- Run panics on the transition from warmup to drain, behind shutdown; else it submits the events
-- of the four phases in order, stops exactly the listener that it has and the engine that it owns,
-- and returns in the last phase with the errors of finalize.
pub run-EndsAs :
    (setup : Setup) (w : World)
    → EndsAs w (construct_components setup w new_state) (warmup_errors setup w) (run setup w)
unfolding run
run-EndsAs setup w =
    on_constructed-EndsAs setup w (construct_components setup w new_state) (warmup_errors setup w)
      (construct_components-keeps setup w (λ r. r.current_phase ≡ warmup) (λ r h. h) (λ r h. h)
        (λ r h. h) new_state refl)
      refl

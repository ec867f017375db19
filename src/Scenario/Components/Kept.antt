-- ===== src/Scenario/Components/Kept.antt =====
-- What constructComponents leaves as it was: whatever the three calls that make a component keep.
use radstorm.Prelude.{true, not, ◌&&◌, inl, inr, Bool-cases}
use radstorm.Scenario.Components.{
  Setup, World, Runner, called, collector_made, engine_made, listener_made, construct_components,
  make_progress, make_listener, make_engine, make_collector,
}

module _ (setup : Setup) (w : World) (P : Runner → Type 0)
    (keeps_collector : (r : Runner) → P r → P (called collector_made r))
    (keeps_engine : (r : Runner) → P r → P (called engine_made (record r { owns_engine = true })))
    (keeps_listener : (r : Runner)
      → P r
      → P (called listener_made (record r { has_listener = true }))) where
  make_progress-keeps : (r : Runner) → P r → P (make_progress setup w r).1
  unfolding make_progress
  make_progress-keeps r h = elim (Bool-cases w.new_progress) [ inl e ↦ rw e h | inr e ↦ rw e h ]

  make_listener-keeps : (r : Runner) → P r → P (make_listener setup w r).1
  unfolding make_listener
  make_listener-keeps r h =
      elim (Bool-cases (
        (not setup.skip_server_listener && (setup.has_bind_address && setup.has_shared_secret))
        && w.new_listener)) [
          | inl e ↦ rw e (make_progress-keeps _ (keeps_listener r h))
          | inr e ↦ rw e (make_progress-keeps r h)
        ]

  make_engine-keeps : (r : Runner) → P r → P (make_engine setup w r).1
  unfolding make_engine
  make_engine-keeps r h = elim (Bool-cases setup.engine_override) [
    | inl e ↦ rw e (make_listener-keeps r h)
    | inr e ↦ elim (Bool-cases w.parse_source_ips) [
      | inr f ↦ rw (e, f) h
      | inl f ↦ elim (Bool-cases w.new_engine) [
        | inl g ↦ rw (e, f, g) (make_listener-keeps _ (keeps_engine r h))
        | inr g ↦ rw (e, f, g) h
      ]
    ]
  ]

  make_collector-keeps : (r : Runner) → P r → P (make_collector setup w r).1
  unfolding make_collector
  make_collector-keeps r h = elim (Bool-cases setup.collector_override) [
    | inl e ↦ rw e (make_engine-keeps r h)
    | inr e ↦ elim (Bool-cases w.new_collector) [
      | inl f ↦ rw (e, f) (make_engine-keeps _ (keeps_collector r h))
      | inr f ↦ rw (e, f) h
    ]
  ]

  pub construct_components-keeps : (r : Runner) → P r → P (construct_components setup w r).1
  unfolding construct_components
  construct_components-keeps r h = elim (Bool-cases w.resolve_auth) [
    | inr e ↦ rw e h
    | inl e ↦ elim (Bool-cases (setup.include_acct_start && not w.resolve_acct)) [
      | inl f ↦ rw (e, f) h
      | inr f ↦ rw (e, f) (make_collector-keeps r h)
    ]
  ]

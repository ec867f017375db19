-- ===== src/Collector/Submit/Halted.antt =====
-- What a call of Submit does that Stop has come into.
use radstorm.Prelude.{
  ℕ, suc, ◌≡◌, refl, ◌∙◌, true, false, none, some, List, [], ◌∷◌, ◌++◌, inl, inr, leb, length,
  Bool-cases, List-cases, if_true, if_false,
}
use radstorm.Events.{Event}
use radstorm.Collector.Submit.{
  Collector, offer, offer_outcome, submit, submit_seen, submit_outcome_seen, stop, run_outcome,
  flush_outcomes,
}
use radstorm.Collector.Submit.Steps.{
  Step, submits, submits_outcome, stops, receives, flushes, receives_outcome, flushes_outcomes,
  Reach,
}
use radstorm.Collector.Submit.Conserved.{submit_total}

-- The states that steps lead to from one.
pub data Later (O : Type 0) (c : Collector O) : Collector O → Type 0 where
  at_once : Later O c c
  later :
      {d e : Collector O} (es : List Event) (j : ℕ) → Later O c d → Step O d es j e → Later O c e

module _ {O : Type 0} where
  abbrev IsHalted : Collector O → Type 0
  IsHalted c = (c.closed ≡ true) × (c.stopped ≡ true)

  offer_halted : (now : ℕ) (e : Event) (c : Collector O) → c.closed ≡ true → offer now e c ≡ none
  unfolding offer
  offer_halted now e c h = rw h refl

  offer_outcome_halted :
      (now : ℕ) (o : O) (c : Collector O) → c.closed ≡ true → offer_outcome now o c ≡ none
  unfolding offer_outcome
  offer_outcome_halted now o c h = rw h refl

  run_outcome-flags :
      (c d : Collector O) → run_outcome c ≡ some d → (d.closed ≡ c.closed) × (d.stopped ≡ c.stopped)
  unfolding run_outcome
  run_outcome-flags c d h = elim (List-cases c.outcome_queue) [
    | inl empty ↦ cc (rw empty at h)
    | inr (o, rest, waiting) ↦
        let next : Collector O = record c {
          outcome_queue = rest;
          outcome_batch = c.outcome_batch ++ o ∷ [];
        } in
        elim (Bool-cases (leb c.batch_size (length next.outcome_batch))) [
          | inl full ↦
              let same : flush_outcomes next ≡ d = cc (rw (waiting, full) at h) in
              rw⁻¹ same (refl, refl)
          | inr fits ↦ let same : next ≡ d = cc (rw (waiting, fits) at h) in rw⁻¹ same (refl, refl)
        ]
  ]

  stop-IsHalted : (c : Collector O) → (c.stopped ≡ true → c.closed ≡ true) → IsHalted (stop c)
  unfolding stop
  stop-IsHalted c known = elim (Bool-cases c.stopped) [
    | inl e ↦ rw (if_true c.stopped c (record c { stopped = true; closed = true }) e) (known e, e)
    | inr e ↦ rw (if_false c.stopped c (record c { stopped = true; closed = true }) e) (refl, refl)
  ]

  dropped-IsHalted :
      (c d : Collector O) → record c { dropped = suc c.dropped } ≡ d → IsHalted c → IsHalted d
  dropped-IsHalted c d same h = rw⁻¹ same h

  Step-IsHalted :
      {c d : Collector O} {es : List Event} {j : ℕ} → Step O c es j d → IsHalted c → IsHalted d
  unfolding submit_seen submit_outcome_seen
  Step-IsHalted {c} (submits true now e d known done) h = dropped-IsHalted c d (cc done) h
  Step-IsHalted {c} (submits false now e d known done) h = cc (offer_halted now e c h.0, done)
  Step-IsHalted {c} (submits_outcome true now o d known done) h = dropped-IsHalted c d (cc done) h
  Step-IsHalted {c} (submits_outcome false now o d known done) h =
      cc (offer_outcome_halted now o c h.0, done)
  Step-IsHalted {c} stops h = stop-IsHalted c (λ e. h.0)
  Step-IsHalted (receives i fails sh next found done) h = h
  Step-IsHalted (flushes i fails sh found) h = h
  Step-IsHalted {c} (receives_outcome d done) h =
      let (shut, set) = run_outcome-flags c d done in (shut ∙ h.0, set ∙ h.1)
  Step-IsHalted flushes_outcomes h = h

  Later-IsHalted : {c d : Collector O} → Later O c d → IsHalted c → IsHalted d
  Later-IsHalted at_once h = h
  Later-IsHalted (later es j before step) h = Step-IsHalted step (Later-IsHalted before h)

  -- In a state that the calls of a collector lead to and in which it is not stopped, a call of
  -- Submit returns if nothing comes behind its test; if Stop and then any steps come between its
  -- test and its send, the send panics, while a call that begins then returns and is counted as
  -- dropped.
  pub late_send_panics :
      {c d : Collector O} {es : List Event} {k : ℕ} (now : ℕ) (e : Event)
      → Reach O c es k
      → c.stopped ≡ false
      → Later O (stop c) d
      → ((x : Collector O) × (submit_seen c.stopped now e c ≡ some x))
        × (submit_seen c.stopped now e d ≡ none)
        × (submit now e d ≡ some (record d { dropped = suc d.dropped }))
  unfolding submit submit_seen
  late_send_panics {c} {d} now e r running after =
      let (x, returns) = submit_total now e r in
      let (shut, halted) = Later-IsHalted after (stop-IsHalted c (λ set. cc (set, running))) in
      (
        (x, returns),
        if_false c.stopped _ _ running ∙ offer_halted now e d shut,
        if_true d.stopped _ _ halted,
      )

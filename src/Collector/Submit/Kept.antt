-- ===== src/Collector/Submit/Kept.antt =====
-- Each step of the collector keeps what Drained states of its states, and so does every run.
use radstorm.Prelude.{
  ℕ, suc, ◌+◌, ◌≤◌, ◌≡◌, refl, ap, true, false, some, List, [], ◌∷◌, ◌++◌, inl, inr, ltb, leb,
  length, length-append, length-replicate, Bool-cases, List-cases, if_true, if_false, arith,
}
use radstorm.Events.{Event}
use radstorm.Collector.Observe.Tally.{field_new}
use radstorm.Collector.Submit.{
  Opts, Collector, fresh, new_shard, offer_outcome, submit_seen, submit_outcome_seen,
  record_full_drop, stop, flush, run_outcome, flush_outcomes,
}
use radstorm.Collector.Submit.Steps.{
  Step, submits, submits_outcome, stops, receives, flushes, receives_outcome, flushes_outcomes,
  Reach, start, more, total_new, weight, weight-flush, weight-run_shard,
}
use radstorm.Collector.Submit.Drained.{Inv, Inv-same, set-Inv, offers-Inv, outcomes-Inv}

module _ {O : Type 0} where
  abbrev outcome_taken : O → Collector O → Collector O
  outcome_taken o c = record c { outcome_queue = c.outcome_queue ++ o ∷ [] }

  abbrev outcome_refused : ℕ → Collector O → Collector O
  outcome_refused now c =
      record_full_drop now (record c { outcomes_dropped_full = suc c.outcomes_dropped_full })

  offers_outcome-Inv :
      (now : ℕ) (o : O) (c d : Collector O) (es : List Event) (k : ℕ)
      → Inv c es k
      → offer_outcome now o c ≡ some d
      → Inv d (es ++ []) (k + 1)
  unfolding offer_outcome
  offers_outcome-Inv now o c d es k inv h =
      let longer = length-append c.outcome_queue (o ∷ []) in
      elim (Bool-cases c.closed) [
        | inl shut ↦ cc (rw shut at h)
        | inr opened ↦ elim (Bool-cases (ltb (length c.outcome_queue) c.outcome_buffer)) [
          | inl fits ↦
              let same : outcome_taken o c ≡ d = cc (rw (opened, fits) at h) in
              rw⁻¹ same (
                outcomes-Inv c (outcome_taken o c) es 1 k refl refl refl inv.closes
                  (omega (arith, inv.made, longer)) inv)
          | inr full ↦
              let same : outcome_refused now c ≡ d = cc (rw (opened, full) at h) in
              rw⁻¹ same (
                outcomes-Inv c (outcome_refused now c) es 1 k refl refl refl inv.closes
                  (omega (arith, inv.made)) inv)
        ]
      ]

  abbrev outcome_batched : O → List O → Collector O → Collector O
  outcome_batched o rest c = record c {
    outcome_queue = rest;
    outcome_batch = c.outcome_batch ++ o ∷ [];
  }

  receives_outcome-Inv :
      (c d : Collector O) (es : List Event) (k : ℕ)
      → Inv c es k
      → run_outcome c ≡ some d
      → Inv d (es ++ []) (k + 0)
  unfolding run_outcome
  receives_outcome-Inv c d es k inv h = elim (List-cases c.outcome_queue) [
    | inl empty ↦ cc (rw empty at h)
    | inr (o, rest, waiting) ↦
        let next : Collector O = outcome_batched o rest c in
        let longer = length-append c.outcome_batch (o ∷ []) in
        let batched = length-append c.outcomes (c.outcome_batch ++ o ∷ []) in
        elim (Bool-cases (leb c.batch_size (length next.outcome_batch))) [
          | inl full ↦
              let same : flush_outcomes next ≡ d = cc (rw (waiting, full) at h) in
              rw⁻¹ same (
                outcomes-Inv c (flush_outcomes next) es 0 k refl refl refl inv.closes
                  (omega (arith, inv.made, longer, batched, ap length waiting)) inv)
          | inr fits ↦
              let same : next ≡ d = cc (rw (waiting, fits) at h) in
              rw⁻¹ same (
                outcomes-Inv c next es 0 k refl refl refl inv.closes
                  (omega (arith, inv.made, longer, ap length waiting)) inv)
        ]
  ]

  -- A call that has read that the collector is stopped.
  dropped-Inv :
      (c d : Collector O) (es : List Event) (k : ℕ)
      → Inv c es k
      → record c { dropped = suc c.dropped } ≡ d
      → Inv d (es ++ []) (k + 1)
  dropped-Inv c d es k inv same =
      rw⁻¹ same (outcomes-Inv c _ es 1 k refl refl refl inv.closes (omega (arith, inv.made)) inv)

  pub Step-Inv :
      {c d : Collector O} {fs : List Event} {j : ℕ} (es : List Event) (k : ℕ)
      → Inv c es k
      → Step O c fs j d
      → Inv d (es ++ fs) (k + j)
  unfolding stop submit_seen submit_outcome_seen
  Step-Inv {c} es k inv (submits true now e next known done) = dropped-Inv c next es k inv (cc done)
  Step-Inv {c} es k inv (submits false now e next known done) =
      offers-Inv now e c next es k inv done
  Step-Inv {c} es k inv (submits_outcome true now o next known done) =
      dropped-Inv c next es k inv (cc done)
  Step-Inv {c} es k inv (submits_outcome false now o next known done) =
      offers_outcome-Inv now o c next es k inv done
  Step-Inv {c} es k inv stops = elim (Bool-cases c.stopped) [
    | inl already ↦ rw (if_true c.stopped _ _ already) (Inv-same c es k (k + 0) (omega arith) inv)
    | inr running ↦
        rw (if_false c.stopped _ _ running)
          (outcomes-Inv c _ es 0 k refl refl refl refl (omega (arith, inv.made)) inv)
  ]
  Step-Inv {c} es k inv (receives i fails sh next found done) =
      set-Inv c es k i sh next found (λ q. weight-run_shard q c.batch_size fails sh next done) inv
  Step-Inv {c} es k inv (flushes i fails sh found) =
      set-Inv c es k i sh (flush fails sh) found (λ q. weight-flush q fails sh) inv
  Step-Inv {c} es k inv (receives_outcome next done) = receives_outcome-Inv c next es k inv done
  Step-Inv {c} es k inv flushes_outcomes =
      outcomes-Inv c (flush_outcomes c) es 0 k refl refl refl inv.closes
        (omega (arith, inv.made, length-append c.outcomes c.outcome_batch)) inv

module _ {O : Type 0} where
  fresh-Inv : (num_cpu : ℕ) (opts : Opts) → 1 ≤ num_cpu → Inv (fresh {O = O} num_cpu opts) [] 0
  fresh-Inv num_cpu opts h = record {
    held = λ q. total_new (weight q) (omega (arith, field_new q)) _;
    submitted = refl;
    made = refl;
    sized = length-replicate _ new_shard;
    some_shard = ground arith;
    closes = refl;
  }

  pub Reach-Inv : {c : Collector O} {es : List Event} {k : ℕ} → Reach O c es k → Inv c es k
  Reach-Inv (start num_cpu opts h) = fresh-Inv num_cpu opts h
  Reach-Inv (more c d es fs j k before step) = Step-Inv es k (Reach-Inv before) step

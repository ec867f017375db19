-- ===== src/Collector/Submit/Drained.antt =====
-- What every state of the collector keeps: the counters, with what still waits, are those of the
-- events put on the channels, and no call is lost.
use radstorm.Prelude.{
  ℕ, suc, ◌+◌, ◌≤◌, ◌≡◌, refl, sym, ap, ◌∙◌, some, List, [], ◌∷◌, ◌++◌, append-nil, ◌⊎◌, inl, inr,
  ltb, length, length-set, length-append, get_elem?, set, Bool-cases, Option-cases, arith,
}
use radstorm.Events.{Event}
use radstorm.Collector.Observe.Tally.{Counter, tally, tally-append}
use radstorm.Collector.Submit.{Shard, Collector, offer, record_full_drop, shard_of}
use radstorm.Collector.Submit.Steps.{room, total, total-set, weight}

-- The outcomes a collector has taken.
abbrev pub taken_outcomes : {O : Type 0} → Collector O → ℕ
taken_outcomes c = length c.outcomes + length c.outcome_batch + length c.outcome_queue

pub record Inv {O : Type 0} (c : Collector O) (es : List Event) (k : ℕ) : Type 0 where
  pub held : (q : Counter) → total (weight q) c.shards ≡ tally q es
  pub submitted : c.total_submitted ≡ length es
  pub made :
      length es + c.events_dropped_full + c.dropped + c.outcomes_dropped_full + taken_outcomes c ≡ k
  pub sized : length c.shards ≡ c.shard_count
  pub some_shard : 1 ≤ c.shard_count
  pub closes : c.closed ≡ c.stopped

module _ {O : Type 0} where
  -- The state an offer makes, with room on the channel and without.
  abbrev accepted : Event → Shard → Collector O → Collector O
  accepted e sh c = record c {
    shards = set c.shards (shard_of c e) (record sh { queue = sh.queue ++ e ∷ [] });
    total_submitted = suc c.total_submitted;
  }

  abbrev refused : ℕ → Collector O → Collector O
  refused now c =
      record_full_drop now (record c { events_dropped_full = suc c.events_dropped_full })

  pub offer-cases :
      (now : ℕ) (e : Event) (c d : Collector O)
      → offer now e c ≡ some d
      → (sh : Shard) × (get_elem? c.shards (shard_of c e) ≡ some sh)
        × (((room c e ≡ e ∷ []) × (accepted e sh c ≡ d)) ⊎ ((room c e ≡ []) × (refused now c ≡ d)))
  unfolding offer
  offer-cases now e c d h = elim (Bool-cases c.closed) [
    | inl shut ↦ cc (rw shut at h)
    | inr opened ↦ elim (Option-cases (get_elem? c.shards (shard_of c e))) [
      | inl missing ↦ cc (rw (opened, missing) at h)
      | inr (sh, found) ↦ (
        sh,
        found,
        elim (Bool-cases (ltb (length sh.queue) c.per_shard_buffer)) [
          | inl fits ↦
              let took : room c e ≡ e ∷ [] = ground (arith, found, fits) in
              inl (took, cc (rw (opened, found, fits) at h))
          | inr full ↦
              let took : room c e ≡ [] = ground (arith, found, full) in
              inr (took, cc (rw (opened, found, full) at h))
        ],
      )
    ]
  ]

  -- With no event put on a channel.
  pub Inv-same :
      (c : Collector O) (es : List Event) (j k : ℕ) → j ≡ k → Inv c es j → Inv c (es ++ []) k
  Inv-same c es j k same inv = rw (append-nil es, sym same) inv

  -- One shard changed that keeps what is counted.
  pub set-Inv :
      (c : Collector O) (es : List Event) (k i : ℕ) (sh next : Shard)
      → get_elem? c.shards i ≡ some sh
      → ((q : Counter) → weight q next ≡ weight q sh)
      → Inv c es k
      → Inv (record c { shards = set c.shards i next }) (es ++ []) (k + 0)
  set-Inv c es k i sh next found same inv = Inv-same _ es k (k + 0) (omega arith) (record {
    held = λ q. omega (arith, inv.held q, same q, total-set (weight q) c.shards i sh next found);
    submitted = inv.submitted;
    made = inv.made;
    sized = length-set c.shards i next ∙ inv.sized;
    some_shard = inv.some_shard;
    closes = inv.closes;
  })

  accepted-Inv :
      (e : Event) (sh : Shard) (c : Collector O) (es : List Event) (k : ℕ)
      → get_elem? c.shards (shard_of c e) ≡ some sh
      → Inv c es k
      → Inv (accepted e sh c) (es ++ e ∷ []) (k + 1)
  accepted-Inv e sh c es k found inv =
      let next : Shard = record sh { queue = sh.queue ++ e ∷ [] } in
      record {
        held = λ q. omega (
          arith,
          inv.held q,
          tally-append q sh.queue (e ∷ []),
          tally-append q es (e ∷ []),
          total-set (weight q) c.shards (shard_of c e) sh next found,
        );
        submitted = omega (arith, inv.submitted, length-append es (e ∷ []));
        made = omega (arith, inv.made, length-append es (e ∷ []));
        sized = length-set c.shards (shard_of c e) next ∙ inv.sized;
        some_shard = inv.some_shard;
        closes = inv.closes;
      }

  pub offers-Inv :
      (now : ℕ) (e : Event) (c d : Collector O) (es : List Event) (k : ℕ)
      → Inv c es k
      → offer now e c ≡ some d
      → Inv d (es ++ room c e) (k + 1)
  offers-Inv now e c d es k inv h =
      let (sh, found, after) = offer-cases now e c d h in
      elim after [
        | inl (took, same) ↦ rw (took, sym same) (accepted-Inv e sh c es k found inv)
        | inr (took, same) ↦
            rw (took, sym same)
              (Inv-same (refused now c) es (k + 1) (k + 1) refl (record {
                held = inv.held;
                submitted = inv.submitted;
                made = omega (arith, inv.made);
                sized = inv.sized;
                some_shard = inv.some_shard;
                closes = inv.closes;
              }))
      ]

  -- A step of the outcomes or of Stop, which touches no shard and takes no event.
  pub outcomes-Inv :
      (c d : Collector O) (es : List Event) (j k : ℕ)
      → c.shards ≡ d.shards
      → c.shard_count ≡ d.shard_count
      → c.total_submitted ≡ d.total_submitted
      → d.closed ≡ d.stopped
      → (length es + d.events_dropped_full + d.dropped + d.outcomes_dropped_full + taken_outcomes d
          ≡ k + j)
      → Inv c es k
      → Inv d (es ++ []) (k + j)
  outcomes-Inv c d es j k shards count sent closes made inv =
      Inv-same d es (k + j) (k + j) refl (record {
        held = λ q. ap (total (weight q)) (sym shards) ∙ inv.held q;
        submitted = sym sent ∙ inv.submitted;
        made = made;
        sized = ap length (sym shards) ∙ inv.sized ∙ count;
        some_shard = omega (arith, count, inv.some_shard);
        closes = closes;
      })

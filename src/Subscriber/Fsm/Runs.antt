-- ===== src/Subscriber/Fsm/Runs.antt =====
-- How Run ends: the state, the terminal event and the outcome.
use radstorm.Prelude.{
  ℕ, zero, suc, ◌-◌, ◌*◌, ◌/◌, ◌≤◌, ◌<◌, ltb, ltb→lt, ◌≡◌, refl, ap, ◌∙◌, Bool, true, false, Option,
  none, some, List, [], ◌∷◌, ◌++◌, ◌==◌, Bool-cases, inl, inr, arith, Option-cases,
}
use radstorm.Prelude.Int.{ℤ, negsuc, above, under, opposite}
use radstorm.Radius.Code.{access_accept, access_reject, accounting_response}
use radstorm.Subscriber.Fsm.{
  State, idle, established, auth_sent, acct_sent, auth_failed, acct_failed, same_state, Reason,
  no_reason, Outcome, milliseconds_between, to_offset_ms, latency, Entry, terminal, outcome,
  state_changed, reply_received, acct_send_error, auth_send_error, acct_nil_reply, auth_nil_reply,
  access_rejected, unexpected_acct_code, unexpected_auth_code, World, Sent, SendResult, SendError,
  Inbound, Deps, submit, tick, now, activated, is_final_timeout_err, build_outcome, transition,
  changed, establish, is_empty, fail_with, terminate, deliver, record_auth_retransmits,
  record_acct_retransmits, error_reason, auth_unsent, acct_unsent, after_acct, acct_phase, accepted,
  after_auth, run,
}
use radstorm.Subscriber.Fsm.Calls.{
  terminal_weight, terminals, terminals_append, quiet, deliver-terminals,
}

-- A figure is the whole milliseconds from one time to another, towards zero, and -1 where one of the
-- two times is not set. A subtraction stops at 0, so that the bounds hold in both directions.
abbrev pub IsMs : (from to : Option ℕ) → ℤ → Type 0
IsMs none to x = x ≡ negsuc 0
IsMs (some a) none x = x ≡ negsuc 0
IsMs (some a) (some b) x =
    (above x * 1000000 ≤ b - a)
    × (b - a < suc (above x) * 1000000)
    × (under x * 1000000 ≤ a - b)
    × (a - b < suc (under x) * 1000000)

-- The outcome has the state and the reason, and the figures of the subscriber.
abbrev pub HasFigures : Option ℕ → World → State → Reason → Outcome → Type 0
HasFigures t0 w s why o =
    (o.final_state ≡ s)
    × IsMs t0 w.activated_at o.activated_offset
    × IsMs t0 w.established_at o.established_offset
    × IsMs w.activated_at w.established_at o.establishment_latency
    × (o.auth_retransmits ≡ w.auth_retransmits)
    × (o.acct_retransmits ≡ w.acct_retransmits)
    × (o.coa_received_count ≡ w.coa_count)
    × IsMs t0 w.disconnected_at o.disconnect_offset
    × (o.failure_reason ≡ why)

opposite_parts : (n : ℕ) → (above (opposite n) ≡ 0) × (under (opposite n) ≡ n)
opposite_parts zero = (refl, refl)
opposite_parts (suc n) = (refl, refl)

milliseconds_between-IsMs : (a b : ℕ) → IsMs (some a) (some b) (milliseconds_between a b)
milliseconds_between-IsMs a b = elim (Bool-cases (ltb b a)) [
  | inl e ↦
      let (up, down) = opposite_parts ((a - b) / 1000000) in
      let less : b < a = ltb→lt b a e in
      rw (e, up, down) (omega arith, omega arith, omega arith, omega arith)
  | inr e ↦
      let less : a ≤ b = ground arith in rw e (omega arith, omega arith, omega arith, omega arith)
]

to_offset_ms-IsMs : (t0 t : Option ℕ) → IsMs t0 t (to_offset_ms t0 t)
unfolding to_offset_ms
to_offset_ms-IsMs none t = refl
to_offset_ms-IsMs (some a) none = refl
to_offset_ms-IsMs (some a) (some b) = milliseconds_between-IsMs a b

latency-IsMs : (e a : Option ℕ) → IsMs a e (latency e a)
unfolding latency
latency-IsMs none none = refl
latency-IsMs none (some a) = refl
latency-IsMs (some e) none = refl
latency-IsMs (some e) (some a) = milliseconds_between-IsMs a e

module _ (deps : Deps) where
  -- terminate leaves the state given, one terminal event more, and as the last entry of the log
  -- the outcome, with the figures of the subscriber as they are then.
  abbrev pub Ends : World → State × World → Type 0
  Ends w r =
      (r.1.state ≡ r.0)
      × (terminals r.1.log ≡ suc (terminals w.log))
      × ((log : List Entry) × (why : Reason) × (o : Outcome) × (r.1.log ≡ log ++ outcome o ∷ [])
          × HasFigures deps.t0 r.1 r.0 why o)

  build_outcome-HasFigures :
      (w : World) (s : State) (why : Reason)
      → HasFigures deps.t0 w s why (build_outcome deps w s why)
  unfolding build_outcome
  build_outcome-HasFigures w s why = (
    refl,
    to_offset_ms-IsMs deps.t0 w.activated_at,
    to_offset_ms-IsMs deps.t0 w.established_at,
    latency-IsMs w.established_at w.activated_at,
    refl,
    refl,
    refl,
    to_offset_ms-IsMs deps.t0 w.disconnected_at,
    refl,
  )

  establish-log : (s : State) (w : World) → (establish deps s w).log ≡ w.log
  unfolding establish
  establish-log s w = elim (Bool-cases (same_state s established)) [
    | inl e ↦ rw e refl
    | inr e ↦ rw e refl
  ]

  establish-state : (s : State) (w : World) → (establish deps s w).state ≡ w.state
  unfolding establish
  establish-state s w = elim (Bool-cases (same_state s established)) [
    | inl e ↦ rw e refl
    | inr e ↦ rw e refl
  ]

  fail_with-log : (why : Reason) (w : World) → (fail_with deps why w).log ≡ w.log
  unfolding fail_with
  fail_with-log why w = elim (Bool-cases (is_empty why)) [ inl e ↦ rw e refl | inr e ↦ rw e refl ]

  fail_with-state : (why : Reason) (w : World) → (fail_with deps why w).state ≡ w.state
  unfolding fail_with
  fail_with-state why w = elim (Bool-cases (is_empty why)) [ inl e ↦ rw e refl | inr e ↦ rw e refl ]

  changed-terminals :
      (b : Bool) (s : State) (w : World) → terminals (changed deps b s w).log ≡ terminals w.log
  unfolding changed terminal_weight
  changed-terminals true s w = refl
  changed-terminals false s w = quiet w.log (state_changed s) refl

  changed-state : (b : Bool) (s : State) (w : World) → (changed deps b s w).state ≡ w.state
  unfolding changed
  changed-state true s w = refl
  changed-state false s w = refl

  terminate-Ends : (s : State) (why : Reason) (w : World) → Ends w (s, terminate deps s why w)
  unfolding terminate build_outcome terminal_weight
  terminate-Ends s why w =
      let set : World = record w { state = s } in
      let b = same_state w.state s in
      let est = establish deps s set in
      let ended = fail_with deps why est in
      let logged = changed deps b s ended in
      (
        changed-state b s ended ∙ (fail_with-state why est ∙ establish-state s set),
        quiet (logged.log ++ terminal s ∷ []) (outcome _) refl
            ∙ (terminals_append logged.log (terminal s)
                ∙ omega (
                  arith,
                  changed-terminals b s ended,
                  ap terminals (fail_with-log why est ∙ establish-log s set),
                )),
        (
          logged.log ++ terminal s ∷ [],
          why,
          build_outcome deps logged s why,
          refl,
          build_outcome-HasFigures logged s why,
        ),
      )

  Ends-from :
      (v w : World) (r : State × World) → terminals v.log ≡ terminals w.log → Ends v r → Ends w r
  Ends-from v w r e (a, b, c) = (a, b ∙ ap (λ n. suc n) e, c)

  terminate_from :
      (v w : World) (s : State) (why : Reason)
      → terminals v.log ≡ terminals w.log
      → Ends w (s, terminate deps s why v)
  terminate_from v w s why e = Ends-from v w (s, terminate deps s why v) e (terminate-Ends s why v)

  transition-terminals :
      (s : State) (w : World) → terminals (transition deps s w).log ≡ terminals w.log
  unfolding transition terminal_weight
  transition-terminals s w = elim (Bool-cases (same_state w.state s)) [
    | inl e ↦ rw e refl
    | inr e ↦ rw e (quiet w.log (state_changed s) refl)
  ]

  seen-terminals :
      (s : State) (code id : ℕ) (w : World)
      → terminals (w.log ++ reply_received s code id ∷ []) ≡ terminals w.log
  unfolding terminal_weight
  seen-terminals s code id w = quiet w.log (reply_received s code id) refl

  acct_recorded :
      (r : Option SendResult) (w : World) → (record_acct_retransmits deps r w).log ≡ w.log
  unfolding record_acct_retransmits
  acct_recorded none w = refl
  acct_recorded (some r) w = refl

  auth_recorded :
      (r : Option SendResult) (w : World) → (record_auth_retransmits deps r w).log ≡ w.log
  unfolding record_auth_retransmits
  auth_recorded none w = refl
  auth_recorded (some r) w = refl

  acct_unsent-Ends :
      (r : Option SendResult) (e : Option SendError) (w : World)
      → Ends w (acct_failed, acct_unsent deps r e w)
  unfolding acct_unsent
  acct_unsent-Ends (some r) e w = terminate-Ends acct_failed (error_reason deps acct_send_error e) w
  acct_unsent-Ends none e w = elim (Bool-cases (is_final_timeout_err e)) [
    | inl h ↦ rw h (
        let v : World = record w { acct_retransmits = deps.max_retries } in
        terminate_from v w acct_failed (error_reason deps acct_send_error e) refl)
    | inr h ↦ rw h (terminate-Ends acct_failed (error_reason deps acct_send_error e) w)
  ]

  auth_unsent-Ends :
      (r : Option SendResult) (e : Option SendError) (w : World)
      → Ends w (auth_failed, auth_unsent deps r e w)
  unfolding auth_unsent
  auth_unsent-Ends (some r) e w = terminate-Ends auth_failed (error_reason deps auth_send_error e) w
  auth_unsent-Ends none e w = elim (Bool-cases (is_final_timeout_err e)) [
    | inl h ↦ rw h (
        let v : World = record w { auth_retransmits = deps.max_retries } in
        terminate_from v w auth_failed (error_reason deps auth_send_error e) refl)
    | inr h ↦ rw h (terminate-Ends auth_failed (error_reason deps auth_send_error e) w)
  ]

  after_acct-Ends :
      (r : Option SendResult) (e : Option SendError) (w : World) → Ends w (after_acct deps r e w)
  unfolding after_acct
  after_acct-Ends r (some e) w = acct_unsent-Ends r (some e) w
  after_acct-Ends none none w = acct_unsent-Ends none none w
  after_acct-Ends (some r) none w = elim (Option-cases r.reply) [
    | inl e ↦ rw e (terminate-Ends acct_failed acct_nil_reply w)
    | inr (reply, e) ↦ rw e (
        let v : World = submit (reply_received acct_sent reply.0 reply.1) (tick deps w) in
        let logged = seen-terminals acct_sent reply.0 reply.1 w in
        elim (Bool-cases (reply.0 == accounting_response)) [
          | inl c ↦ rw c (terminate_from v w established no_reason logged)
          | inr c ↦ rw c (terminate_from v w acct_failed (unexpected_acct_code reply.0) logged)
        ])
  ]

  accepted-Ends :
      (b : Bool) (acct : Sent) (during : List Inbound) (w : World)
      → Ends w (accepted deps b acct during w)
  unfolding accepted acct_phase
  accepted-Ends false acct during w = terminate-Ends established no_reason w
  accepted-Ends true acct during w =
      let sent = transition deps acct_sent w in
      let waited = deliver deps during sent in
      let v = record_acct_retransmits deps acct.result waited in
      Ends-from v w (after_acct deps acct.result acct.error v)
        (ap terminals (acct_recorded acct.result waited)
          ∙ (deliver-terminals deps during sent ∙ transition-terminals acct_sent w))
        (after_acct-Ends acct.result acct.error v)

  after_auth-Ends :
      (r : Option SendResult) (e : Option SendError) (acct : Sent) (during : List Inbound)
      (w : World)
      → Ends w (after_auth deps r e acct during w)
  unfolding after_auth
  after_auth-Ends r (some e) acct during w = auth_unsent-Ends r (some e) w
  after_auth-Ends none none acct during w = auth_unsent-Ends none none w
  after_auth-Ends (some r) none acct during w = elim (Option-cases r.reply) [
    | inl e ↦ rw e (terminate-Ends auth_failed auth_nil_reply w)
    | inr (reply, e) ↦ rw e (
        let v : World = submit (reply_received auth_sent reply.0 reply.1) (tick deps w) in
        let logged = seen-terminals auth_sent reply.0 reply.1 w in
        elim (Bool-cases (reply.0 == access_accept)) [
          | inl c ↦ rw c (
              Ends-from v w (accepted deps deps.include_acct_start acct during v) logged
                (accepted-Ends deps.include_acct_start acct during v))
          | inr c ↦ rw c (elim (Bool-cases (reply.0 == access_reject)) [
            | inl d ↦ rw d (terminate_from v w auth_failed access_rejected logged)
            | inr d ↦ rw d (terminate_from v w auth_failed (unexpected_auth_code reply.0) logged)
          ])
        ])
  ]

  -- Whatever Send returns and the listener delivers meanwhile, Run leaves the subscriber in the
  -- state that it returns, with exactly one terminal event more in the log, and ends the log with
  -- the outcome of that state, which has the counts of the subscriber and, for activation,
  -- establishment and disconnection, the whole milliseconds since T0, towards zero and also
  -- negative, and between activation and establishment those between the two, or -1 where either
  -- time is not set.
  pub run-Ends :
      (auth acct : Sent) (during_auth during_acct : List Inbound) (w : World)
      → Ends w (run deps auth during_auth acct during_acct w)
  unfolding run terminal_weight
  run-Ends auth acct during_auth during_acct w =
      let started : World = record w {
        has_deps = true;
        activated_at = some (now deps w);
        reads = suc w.reads;
      } in
      let first : World = submit (activated idle) started in
      let sent = transition deps auth_sent first in
      let waited = deliver deps during_auth sent in
      Ends-from (record_auth_retransmits deps auth.result waited) w
        (after_auth deps auth.result auth.error acct during_acct
          (record_auth_retransmits deps auth.result waited))
        (ap terminals (auth_recorded auth.result waited)
          ∙ (deliver-terminals deps during_auth sent
              ∙ (transition-terminals auth_sent first ∙ quiet w.log (activated idle) refl)))
        (after_auth-Ends auth.result auth.error acct during_acct _)

-- ===== src/Subscriber/Fsm/Calls.antt =====
-- The log, and what the listener's calls of OnCoA and OnDisconnect add to it.
use radstorm.Prelude.{
  ℕ, suc, ◌+◌, ◌≡◌, refl, ap, ◌∙◌, not, ◌||◌, Option, List, [], ◌∷◌, ◌++◌, Bool-cases, inl, inr,
  arith,
}
use radstorm.Subscriber.Fsm.{
  terminated, same_state, Entry, terminal, outcome, coa_received, disconnect_event, state_changed,
  World, Inbound, coa, disconnect, Deps, on_coa, on_disconnect, deliver,
}

-- The terminal events of a log, and its outcomes.
unfoldable pub terminal_weight : Entry → ℕ
terminal_weight (terminal s) = 1
terminal_weight e = 0

unfoldable pub terminals : List Entry → ℕ
unfolding terminal_weight
terminals [] = 0
terminals (e ∷ log) = terminal_weight e + terminals log

outcome_weight : Entry → ℕ
outcome_weight (outcome o) = 1
outcome_weight e = 0

unfoldable pub outcomes : List Entry → ℕ
unfolding outcome_weight
outcomes [] = 0
outcomes (e ∷ log) = outcome_weight e + outcomes log

-- The listener's calls of OnCoA.
unfoldable pub coas : List Inbound → ℕ
coas [] = 0
coas (coa id ∷ rest) = suc (coas rest)
coas (disconnect id ∷ rest) = coas rest

pub terminals_append :
    (log : List Entry) (e : Entry) → terminals (log ++ e ∷ []) ≡ terminal_weight e + terminals log
unfolding terminals
terminals_append [] e = refl
terminals_append (e' ∷ log) e = omega (arith, terminals_append log e)

outcomes_append :
    (log : List Entry) (e : Entry) → outcomes (log ++ e ∷ []) ≡ outcome_weight e + outcomes log
unfolding outcomes
outcomes_append [] e = refl
outcomes_append (e' ∷ log) e = omega (arith, outcomes_append log e)

-- Submitting an event that is no terminal event.
pub quiet :
    (log : List Entry) (e : Entry)
    → terminal_weight e ≡ 0
    → terminals (log ++ e ∷ []) ≡ terminals log
quiet log e h = terminals_append log e ∙ ap (λ n. n + terminals log) h ∙ omega arith

silent :
    (log : List Entry) (e : Entry) → outcome_weight e ≡ 0 → outcomes (log ++ e ∷ []) ≡ outcomes log
silent log e h = outcomes_append log e ∙ ap (λ n. n + outcomes log) h ∙ omega arith

module _ (deps : Deps) where
  on_coa-terminals :
      (id : Option ℕ) (w : World) → terminals (on_coa deps id w).log ≡ terminals w.log
  unfolding on_coa terminal_weight
  on_coa-terminals id w = elim (Bool-cases w.has_deps) [
    | inl e ↦ rw e (quiet w.log (coa_received id) refl)
    | inr e ↦ rw e refl
  ]

  on_coa-outcomes : (id : Option ℕ) (w : World) → outcomes (on_coa deps id w).log ≡ outcomes w.log
  unfolding on_coa outcome_weight
  on_coa-outcomes id w = elim (Bool-cases w.has_deps) [
    | inl e ↦ rw e (silent w.log (coa_received id) refl)
    | inr e ↦ rw e refl
  ]

  on_coa-coa_count : (id : Option ℕ) (w : World) → (on_coa deps id w).coa_count ≡ suc w.coa_count
  unfolding on_coa
  on_coa-coa_count id w = elim (Bool-cases w.has_deps) [ inl e ↦ rw e refl | inr e ↦ rw e refl ]

  on_coa-state : (id : Option ℕ) (w : World) → (on_coa deps id w).state ≡ w.state
  unfolding on_coa
  on_coa-state id w = elim (Bool-cases w.has_deps) [ inl e ↦ rw e refl | inr e ↦ rw e refl ]

  on_disconnect-terminals :
      (id : Option ℕ) (w : World) → terminals (on_disconnect deps id w).log ≡ terminals w.log
  unfolding on_disconnect terminal_weight
  on_disconnect-terminals id w =
      let first = w.log ++ disconnect_event id ∷ [] in
      let second = first ++ state_changed terminated ∷ [] in
      elim (Bool-cases (not w.has_deps || same_state w.state terminated)) [
        | inl e ↦ rw e refl
        | inr e ↦ rw e (
            quiet second (outcome _) refl
            ∙ (quiet first (state_changed terminated) refl
                ∙ quiet w.log (disconnect_event id) refl))
      ]

  on_disconnect-coa_count :
      (id : Option ℕ) (w : World) → (on_disconnect deps id w).coa_count ≡ w.coa_count
  unfolding on_disconnect
  on_disconnect-coa_count id w =
      elim (Bool-cases (not w.has_deps || same_state w.state terminated)) [
        | inl e ↦ rw e refl
        | inr e ↦ rw e refl
      ]

  pub deliver-terminals :
      (calls : List Inbound) (w : World) → terminals (deliver deps calls w).log ≡ terminals w.log
  unfolding deliver
  deliver-terminals [] w = refl
  deliver-terminals (coa id ∷ rest) w =
      deliver-terminals rest (on_coa deps id w) ∙ on_coa-terminals id w
  deliver-terminals (disconnect id ∷ rest) w =
      deliver-terminals rest (on_disconnect deps id w) ∙ on_disconnect-terminals id w

  -- A sequence of calls of OnCoA and OnDisconnect raises the CoA count by the number of calls of
  -- OnCoA in it.
  pub deliver-coa_count :
      (calls : List Inbound) (w : World)
      → (deliver deps calls w).coa_count ≡ coas calls + w.coa_count
  unfolding deliver coas
  deliver-coa_count [] w = omega arith
  deliver-coa_count (coa id ∷ rest) w =
      omega (arith, deliver-coa_count rest (on_coa deps id w), on_coa-coa_count id w)
  deliver-coa_count (disconnect id ∷ rest) w =
      omega (arith, deliver-coa_count rest (on_disconnect deps id w), on_disconnect-coa_count id w)

  on_disconnect_terminated :
      (id : Option ℕ) (w : World) → w.state ≡ terminated → on_disconnect deps id w ≡ w
  unfolding on_disconnect
  on_disconnect_terminated id w h =
      rw h (elim (Bool-cases w.has_deps) [ inl e ↦ rw e refl | inr e ↦ rw e refl ])

  -- Once a subscriber is terminated, no sequence of calls of OnCoA and OnDisconnect submits
  -- another outcome.
  pub deliver_terminated :
      (calls : List Inbound) (w : World)
      → w.state ≡ terminated
      → outcomes (deliver deps calls w).log ≡ outcomes w.log
  unfolding deliver
  deliver_terminated [] w h = refl
  deliver_terminated (coa id ∷ rest) w h =
      deliver_terminated rest (on_coa deps id w) (on_coa-state id w ∙ h) ∙ on_coa-outcomes id w
  deliver_terminated (disconnect id ∷ rest) w h =
      ap (λ v. outcomes (deliver deps rest v).log) (on_disconnect_terminated id w h)
      ∙ deliver_terminated rest w h

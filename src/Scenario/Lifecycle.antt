-- ===== src/Scenario/Lifecycle.antt =====
-- pkg/scenario/lifecycle.go: the phases of a run and the transitions that are allowed.
use radstorm.Prelude.Maps.{same_text, same_text_iff}
use radstorm.Prelude.{
  ℕ, suc, ◌≡◌, ◌≢◌, ◌↔◌, ◌⊎◌, inl, inr, refl, subst, Bool-cases, Bool, true, false, sym, Option,
  none, some, List, [], ◌∷◌, ◌==◌, if◌then◌else◌,
}

-- A text; PhaseDone is `finished`.
abbrev pub Phase : Type 0
Phase = List ℕ

abbrev pub warmup : Phase
warmup = 119 ∷ 97 ∷ 114 ∷ 109 ∷ 117 ∷ 112 ∷ []

abbrev pub ramp : Phase
ramp = 114 ∷ 97 ∷ 109 ∷ 112 ∷ []

abbrev pub drain : Phase
drain = 100 ∷ 114 ∷ 97 ∷ 105 ∷ 110 ∷ []

abbrev pub finalize : Phase
finalize = 102 ∷ 105 ∷ 110 ∷ 97 ∷ 108 ∷ 105 ∷ 122 ∷ 101 ∷ []

abbrev pub finished : Phase
finished = 100 ∷ 111 ∷ 110 ∷ 101 ∷ []

abbrev pub same_phase : Phase → Phase → Bool
same_phase p q = same_text p q

abbrev phase_order : List Phase
phase_order = warmup ∷ ramp ∷ drain ∷ finalize ∷ finished ∷ []

-- The loop of nextPhase.
abbrev next_in : List Phase → Phase → Phase
next_in [] p = finished
next_in (q ∷ []) p = finished
next_in (q ∷ r ∷ rest) p = if same_phase q p then r else next_in (r ∷ rest) p

abbrev pub next_phase : Phase → Phase
next_phase p = next_in phase_order p

-- The loop of validateTransition, for one of its two phases; `none` is the index -1.
abbrev index_in : List Phase → Phase → (i : ℕ) → Option ℕ → Option ℕ
index_in [] p i found = found
index_in (q ∷ rest) p i found = index_in rest p (suc i) (if same_phase q p then some i else found)

pub data TransitionError : Type 0 where
  unknown_old_phase : Phase → TransitionError
  unknown_new_phase : Phase → TransitionError
  invalid_phase_transition : Phase → Phase → TransitionError

abbrev compare_indices : Phase → Phase → Option ℕ → Option ℕ → Option TransitionError
compare_indices old_p new_p none new_idx = some (unknown_old_phase old_p)
compare_indices old_p new_p (some i) none = some (unknown_new_phase new_p)
compare_indices old_p new_p (some i) (some j) =
    if j == suc i then none else some (invalid_phase_transition old_p new_p)

unfoldable pub validate_transition : Phase → Phase → Option TransitionError
validate_transition old_p new_p =
    if same_phase old_p new_p
    then none
    else compare_indices old_p new_p (index_in phase_order old_p 0 none)
        (index_in phase_order new_p 0 none)

-- The loops of nextPhase and validateTransition compare with these five.
data Named : Phase → Type 0 where
  named_warmup : Named warmup
  named_ramp : Named ramp
  named_drain : Named drain
  named_finalize : Named finalize
  named_finished : Named finished
  unnamed :
      (p : Phase)
      → same_phase warmup p ≡ false
      → same_phase ramp p ≡ false
      → same_phase drain p ≡ false
      → same_phase finalize p ≡ false
      → same_phase finished p ≡ false
      → Named p

named_at : (c p : Phase) → Named c → (same_phase c p ≡ false → Named p) → Named p
named_at c p named other = elim (Bool-cases (same_phase c p)) [
  | inl e ↦ subst Named ((same_text_iff c p).0 e) named
  | inr e ↦ other e
]

named : (p : Phase) → Named p
named p = named_at warmup p named_warmup (λ a. named_at ramp p named_ramp (λ b.
    named_at drain p named_drain (λ c.
      named_at finalize p named_finalize
        (λ d. named_at finished p named_finished (λ e. unnamed p a b c d e)))))

-- The canonical order.
pub data Precedes : Phase → Phase → Type 0 where
  warmup_ramp : Precedes warmup ramp
  ramp_drain : Precedes ramp drain
  drain_finalize : Precedes drain finalize
  finalize_finished : Precedes finalize finished

abbrev pub IsAllowedExactly : Phase → Phase → Type 0
IsAllowedExactly p q =
    (validate_transition p q ≡ none) ↔ ((p ≡ q) ⊎ (Precedes p q × (q ≡ next_phase p)))

same_phase_refl : (p : Phase) → same_phase p p ≡ true
same_phase_refl p = (same_text_iff p p).1 refl

apart : (p q : Phase) → same_phase p q ≡ false → p ≢ q
apart p q h e = cc ((same_text_iff p q).1 e, h)

Precedes-named :
    {p q : Phase}
    → Precedes p q
    → same_phase warmup p ≡ false
    → same_phase ramp p ≡ false
    → same_phase drain p ≡ false
    → same_phase finalize p ≢ false
Precedes-named warmup_ramp a b c d = cc (same_phase_refl warmup, a)
Precedes-named ramp_drain a b c d = cc (same_phase_refl ramp, b)
Precedes-named drain_finalize a b c d = cc (same_phase_refl drain, c)
Precedes-named finalize_finished a b c d = cc (same_phase_refl finalize, d)

-- Two phases of the order that are neither the same nor next to each other.
refused :
    (p q : Phase)
    → validate_transition p q ≢ none
    → same_phase p q ≡ false
    → same_phase q (next_phase p) ≡ false
    → IsAllowedExactly p q
refused p q rejects other skips = (
  λ e. absurd (rejects e),
  λ h. elim h [
    | inl s ↦ absurd (apart p q other s)
    | inr s ↦ absurd (apart q (next_phase p) skips s.1)
  ],
)

to_unnamed :
    (c q : Phase) (i : ℕ)
    → index_in phase_order c 0 none ≡ some i
    → index_in phase_order q 0 none ≡ none
    → same_phase c q ≡ false
    → same_phase (next_phase c) q ≡ false
    → IsAllowedExactly c q
unfolding validate_transition
to_unnamed c q i at off other skips = (
  rw (other, at, off) (λ e. cc e),
  λ h. elim h [
    | inl s ↦ absurd (apart c q other s)
    | inr s ↦ absurd (apart (next_phase c) q skips (sym s.1))
  ],
)

from_unnamed :
    (p q : Phase)
    → same_phase warmup p ≡ false
    → same_phase ramp p ≡ false
    → same_phase drain p ≡ false
    → same_phase finalize p ≡ false
    → index_in phase_order p 0 none ≡ none
    → IsAllowedExactly p q
unfolding validate_transition
from_unnamed p q a b c d off = elim (Bool-cases (same_phase p q)) [
  | inl e ↦ (λ h. inl ((same_text_iff p q).0 e), λ h. rw e refl)
  | inr e ↦ (
    rw (e, off) (λ h. cc h),
    λ h. elim h [ inl s ↦ absurd (apart p q e s) | inr s ↦ absurd (Precedes-named (s.0) a b c d) ],
  )
]

cases_allowed : {p q : Phase} → Named p → Named q → IsAllowedExactly p q
unfolding validate_transition same_text
cases_allowed (unnamed p a b c d e) n = from_unnamed p _ a b c d (rw (a, b, c, d, e) refl)
cases_allowed named_warmup (unnamed q a b c d e) =
    to_unnamed warmup q 0 refl (rw (a, b, c, d, e) refl) a b
cases_allowed named_warmup named_warmup = (λ e. inl refl, λ h. refl)
cases_allowed named_warmup named_ramp = (λ e. inr (warmup_ramp, refl), λ h. refl)
cases_allowed named_warmup named_drain = refused warmup drain (λ e. cc e) refl refl
cases_allowed named_warmup named_finalize = refused warmup finalize (λ e. cc e) refl refl
cases_allowed named_warmup named_finished = refused warmup finished (λ e. cc e) refl refl
cases_allowed named_ramp (unnamed q a b c d e) =
    to_unnamed ramp q 1 refl (rw (a, b, c, d, e) refl) b c
cases_allowed named_ramp named_warmup = refused ramp warmup (λ e. cc e) refl refl
cases_allowed named_ramp named_ramp = (λ e. inl refl, λ h. refl)
cases_allowed named_ramp named_drain = (λ e. inr (ramp_drain, refl), λ h. refl)
cases_allowed named_ramp named_finalize = refused ramp finalize (λ e. cc e) refl refl
cases_allowed named_ramp named_finished = refused ramp finished (λ e. cc e) refl refl
cases_allowed named_drain (unnamed q a b c d e) =
    to_unnamed drain q 2 refl (rw (a, b, c, d, e) refl) c d
cases_allowed named_drain named_warmup = refused drain warmup (λ e. cc e) refl refl
cases_allowed named_drain named_ramp = refused drain ramp (λ e. cc e) refl refl
cases_allowed named_drain named_drain = (λ e. inl refl, λ h. refl)
cases_allowed named_drain named_finalize = (λ e. inr (drain_finalize, refl), λ h. refl)
cases_allowed named_drain named_finished = refused drain finished (λ e. cc e) refl refl
cases_allowed named_finalize (unnamed q a b c d e) =
    to_unnamed finalize q 3 refl (rw (a, b, c, d, e) refl) d e
cases_allowed named_finalize named_warmup = refused finalize warmup (λ e. cc e) refl refl
cases_allowed named_finalize named_ramp = refused finalize ramp (λ e. cc e) refl refl
cases_allowed named_finalize named_drain = refused finalize drain (λ e. cc e) refl refl
cases_allowed named_finalize named_finalize = (λ e. inl refl, λ h. refl)
cases_allowed named_finalize named_finished = (λ e. inr (finalize_finished, refl), λ h. refl)
cases_allowed named_finished (unnamed q a b c d e) =
    to_unnamed finished q 4 refl (rw (a, b, c, d, e) refl) e e
cases_allowed named_finished named_warmup = refused finished warmup (λ e. cc e) refl refl
cases_allowed named_finished named_ramp = refused finished ramp (λ e. cc e) refl refl
cases_allowed named_finished named_drain = refused finished drain (λ e. cc e) refl refl
cases_allowed named_finished named_finalize = refused finished finalize (λ e. cc e) refl refl
cases_allowed named_finished named_finished = (λ e. inl refl, λ h. refl)

-- validateTransition allows, for any two texts, exactly the transition from one to itself and from
-- each of the four phases before the last to the next in the order warmup, ramp, drain, finalize,
-- done, which is the one that nextPhase gives.
pub validate_transition_iff :
    (p q : Phase)
    → (validate_transition p q ≡ none) ↔ ((p ≡ q) ⊎ (Precedes p q × (q ≡ next_phase p)))
validate_transition_iff p q = cases_allowed (named p) (named q)

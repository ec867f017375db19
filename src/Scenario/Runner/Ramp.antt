-- ===== src/Scenario/Runner/Ramp.antt =====
-- The subscribers that ramp launches, of a pool that NewPool has made.
use radstorm.Prelude.{
  ℕ, zero, suc, ◌+◌, ◌-◌, ◌%◌, ◌<◌, ◌≤◌, ◌≡◌, refl, sym, subst, ap, ◌∙◌, ◌⊎◌, true, false, some,
  List, [], ◌∷◌, ◌++◌, inl, inr, arith, ltb, if◌then◌else◌, Bool-cases, length, get_or,
}
use radstorm.Prelude.Int.{ℤ, above}
use radstorm.Scenario.Components.{Setup, World, Call, launched, lifecycle, Runner, went, called}
use radstorm.Scenario.Runner.{launch_from, launch_all, on_sub, ramp_step, entering}
use radstorm.Subscriber.Pool.{Subscriber, Texts, Credential, get, new_pool, subscriber_at}
use radstorm.Subscriber.Pool.Found.{new_pool-get}
use radstorm.Scenario.Runner.Phases.{transition_step}
use radstorm.Prelude.Maps.{same_text}
use radstorm.Scenario.Lifecycle.{warmup, ramp, validate_transition}

abbrev pub launches : List Call → List ℕ
launches [] = []
launches (launched idx at ∷ calls) = idx ∷ launches calls
launches (c ∷ calls) = launches calls

-- m indices from idx on, the latest first
abbrev pub down : (idx m : ℕ) → List ℕ
down idx zero = []
down idx (suc m) = (idx + m) ∷ down idx m

-- Every launch is at its offset or behind it.
abbrev pub InTime : List ℕ → List Call → Type 0
InTime offsets [] = Unit {0}
InTime offsets (launched idx at ∷ calls) = (get_or offsets idx 0 ≤ at) × InTime offsets calls
InTime offsets (c ∷ calls) = InTime offsets calls

down-append : (idx m : ℕ) (l : List ℕ) → down (suc idx) m ++ idx ∷ l ≡ down idx (suc m) ++ l
down-append idx zero l = ap (λ i. i ∷ l) (omega arith)
down-append idx (suc m) l =
    let first : suc idx + m ≡ idx + suc m = omega arith in cc (first, down-append idx m l)

module _ (setup : Setup) (w : World) where
  -- What the loop has done to r, from idx on.
  abbrev pub IsRamped : (all offsets : List ℕ) → (idx : ℕ) → (r s : Runner) → Type 0
  IsRamped all offsets idx r s =
      (m : ℕ) × (m ≤ length offsets)
      × (s.activated ≡ r.activated + m)
      × (launches s.calls ≡ down idx m ++ launches r.calls)
      × InTime all s.calls
      × ((j : ℕ) → j < m → w.cancelled_at (idx + j) ≡ false)
      × ((m ≡ length offsets) ⊎ (w.cancelled_at (idx + m) ≡ true))

  abbrev Found : ℕ → Type 0
  Found i = (sub : Subscriber) × (get setup.pool (i % 4294967296) ≡ some sub)

  same_index : (i j : ℕ) → j ≡ i → Found j → Found i
  same_index i j e found = subst Found e found

  free_from :
      (idx m : ℕ)
      → w.cancelled_at idx ≡ false
      → ((j : ℕ) → j < m → w.cancelled_at (suc idx + j) ≡ false)
      → (j : ℕ) → j < suc m
      → w.cancelled_at (idx + j) ≡ false
  free_from idx m e free zero h = ap w.cancelled_at (omega arith) ∙ e
  free_from idx m e free (suc j) h = ap w.cancelled_at (omega arith) ∙ free j (omega arith)

  ends_at :
      (idx m n : ℕ)
      → (m ≡ n) ⊎ (w.cancelled_at (suc idx + m) ≡ true)
      → (suc m ≡ suc n) ⊎ (w.cancelled_at (idx + suc m) ≡ true)
  ends_at idx m n (inl e) = inl (ap suc e)
  ends_at idx m n (inr e) = inr (ap w.cancelled_at (omega arith) ∙ e)

  launch_from-IsRamped :
      (all offsets : List ℕ) (idx : ℕ) (r : Runner)
      → ((k : ℕ) → get_or offsets k 0 ≡ get_or all (idx + k) 0)
      → ((k : ℕ) → k < length offsets → Found (idx + k))
      → InTime all r.calls
      → IsRamped all offsets idx r (launch_from setup w offsets idx r)
  unfolding launch_from on_sub
  launch_from-IsRamped all [] idx r same found due =
      (0, omega arith, omega arith, refl, due, λ j h. absurd (omega (arith, h)), inl refl)
  launch_from-IsRamped all (offset ∷ offsets) idx r same found due =
      elim (Bool-cases (w.cancelled_at idx)) [
        | inl e ↦
            let here : w.cancelled_at (idx + 0) ≡ true = ap w.cancelled_at (omega arith) ∙ e in
            rw e
              (0, omega arith, omega arith, refl, due, λ j h. absurd (omega (arith, h)), inr here)
        | inr e ↦
            let (sub, is_sub) = same_index idx (idx + 0) (omega arith) (found 0 (omega arith)) in
            let now = w.now idx in
            let at = now + (if ltb now offset then offset - now else 0) in
            let in_time : offset ≤ at = ground arith in
            let own : get_or all idx 0 ≡ offset =
              ap (λ i. get_or all i 0) (omega arith) ∙ sym (same 0) in
            let r2 = called (launched idx at) (record r { activated = suc r.activated }) in
            let (m, le, count, order, all_due, free, ends) =
              launch_from-IsRamped all offsets (suc idx) r2
                (λ k. same (suc k) ∙ ap (λ i. get_or all i 0) (omega arith))
                (λ k h.
                  same_index (suc idx + k) (idx + suc k) (omega arith)
                    (found (suc k) (omega arith)))
                (omega (arith, own, in_time), due) in
            rw (e, is_sub)
              (
                suc m,
                omega arith,
                omega (arith, count),
                order ∙ down-append idx m (launches r.calls),
                all_due,
                free_from idx m e free,
                ends_at idx m (length offsets) ends,
              )
      ]

  launch_all-IsRamped :
      (offsets : List ℕ) (r : Runner)
      → ((k : ℕ) → k < length offsets → Found k)
      → InTime offsets r.calls
      → IsRamped offsets offsets 0 r (launch_all setup w offsets r)
  unfolding launch_all launch_from
  launch_all-IsRamped [] r found due =
      (0, omega arith, omega arith, refl, due, λ j h. absurd (omega (arith, h)), inl refl)
  launch_all-IsRamped (offset ∷ offsets) r found due =
      launch_from-IsRamped (offset ∷ offsets) (offset ∷ offsets) 0 (record r { active = true })
        (λ k. ap (λ i. get_or (offset ∷ offsets) i 0) (omega arith))
        (λ k h. same_index (0 + k) k (omega arith) (found k h)) due

-- For a schedule not longer than the pool that NewPool has made, ramp launches the subscribers 0,
-- 1, 2, ... in order, each once and not before its offset, counts each, and ends with the last or
-- at the first index at which the context has ended.
pub ramp_step-IsRamped :
    (setup : Setup) (w : World) (texts : Texts) (cred : Credential) (creds : List Credential)
    (count pap_pct pppoe_pct : ℤ) (r : Runner)
    → setup.pool ≡ new_pool texts (cred ∷ creds) count pap_pct pppoe_pct
    → length setup.offsets ≤ above count
    → above count ≤ 4294967296
    → r.current_phase ≡ warmup
    → InTime setup.offsets r.calls
    → (s : Runner) × (ramp_step setup w r ≡ went [] s)
      × IsRamped setup w setup.offsets setup.offsets 0 r s
unfolding ramp_step entering validate_transition same_text
ramp_step-IsRamped setup w texts cred creds count pap_pct pppoe_pct r made enough small at due =
    let entered = called (lifecycle ramp) (record r { current_phase = ramp }) in
    (
      launch_all setup w setup.offsets entered,
      rw (transition_step warmup ramp r at refl refl) refl,
      launch_all-IsRamped setup w setup.offsets entered
          (λ k h. (
            subscriber_at texts cred creds pap_pct pppoe_pct k,
            ap (λ p. get p (k % 4294967296)) made
                ∙ new_pool-get texts cred creds pap_pct pppoe_pct count k small (omega arith),
          ))
          due,
    )

-- ===== src/Api/Runs/Wedged.antt =====
-- A request to cancel whose write comes behind the end of the run.
use radstorm.Prelude.{
  ◌≡◌, ◌≢◌, refl, ap, ◌∙◌, Bool, Option, none, some, List, [], ◌∷◌, ℕ, inl, inr, All, Bool-cases,
}
use radstorm.Prelude.Int.{ℤ}
use radstorm.Prelude.Maps.{lookup, lookup-remove_other, text_key}
use radstorm.Api.Store.{
  cancelling, Run, MemoryStore, create, get, is_active, update_status, set_summary,
}
use radstorm.Api.Store.Held.{
  has_active-lookup, create-has_active, change_run_self, change_run_other, same_or_other,
}
use radstorm.Api.Runs.{
  Api, Event, asked_create, read_cancel, wrote_cancel, exited, Answer, created, on_created, on_read,
  on_cancel, on_exit, on_current, attached, step, steps,
}

-- The run is to be cancelled, and no process is left whose end would record that it is.
abbrev pub Wedged : List ℕ → Api → Type 0
Wedged id api =
    (r : Run) × (lookup id api.store.runs ≡ some r)
    × (r.status ≡ cancelling)
    × (lookup id api.active ≡ none)

create-Wedged :
    (id name j : List ℕ) (api : Api) (count : ℤ) (now : ℕ)
    → Wedged id api
    → create name j count now api.store ≡ none
create-Wedged id name j api count now (r, e, at, idle) =
    create-has_active name j count now api.store
      (has_active-lookup api.store id r e (ap is_active at))

on_read-Wedged :
    (id j : List ℕ) (o : Option Run) (api : Api) → Wedged id api → Wedged id (on_read o j api).1
unfolding on_read
on_read-Wedged id j none api h = h
on_read-Wedged id j (some r) api h = elim (Bool-cases (is_active r.status)) [
  | inl e ↦ rw e h
  | inr e ↦ rw e h
]

on_cancel-Wedged :
    (id j : List ℕ) (now : ℕ) (o : Option Bool) (api : Api)
    → Wedged id api
    → Wedged id (on_cancel o j now api).1
unfolding on_cancel update_status
on_cancel-Wedged id j now none api h = h
on_cancel-Wedged id j now (some pending) api (r, e, at, idle) = elim (same_or_other j id) [
  | inl same ↦
      (record r { status = cancelling }, rw same (change_run_self _ id api.store r e), refl, idle)
  | inr differs ↦ (r, change_run_other _ j id api.store differs ∙ e, at, idle)
]

attached-other :
    (summary : Option (List ℕ)) (j id : List ℕ) (s : MemoryStore)
    → ¬ (j ≡ id)
    → lookup id (attached summary j s).runs ≡ lookup id s.runs
unfolding set_summary
attached-other none j id s differs = refl
attached-other (some summary) j id s differs = change_run_other _ j id s differs

on_current-other :
    (o : Option Run) (j id : List ℕ) (now : ℕ) (ok : Bool) (s : MemoryStore)
    → ¬ (j ≡ id)
    → lookup id (on_current o j now ok s).runs ≡ lookup id s.runs
unfolding on_current update_status
on_current-other none j id now ok s differs = refl
on_current-other (some r) j id now ok s differs = change_run_other _ j id s differs

on_exit-Wedged :
    (id j : List ℕ) (now : ℕ) (ok : Bool) (summary : Option (List ℕ)) (o : Option Bool) (api : Api)
    → lookup j api.active ≡ o
    → Wedged id api
    → Wedged id (on_exit o j now ok summary api).1
unfolding on_exit
on_exit-Wedged id j now ok summary none api found h = h
on_exit-Wedged id j now ok summary (some flying) api found (r, e, at, idle) =
    let differs : ¬ (j ≡ id) = λ same. cc (ap (λ i. lookup i api.active) same, found, idle) in
    (
      r,
      on_current-other _ j id now ok _ differs ∙ attached-other summary j id api.store differs ∙ e,
      at,
      lookup-remove_other id j api.active differs ∙ idle,
    )

on_read-refused : (j : List ℕ) (o : Option Run) (api : Api) → (on_read o j api).0 ≢ created
unfolding on_read
on_read-refused j none api = λ e. cc e
on_read-refused j (some r) api = elim (Bool-cases (is_active r.status)) [
  | inl e ↦ rw e (λ same. cc same)
  | inr e ↦ rw e (λ same. cc same)
]

on_cancel-refused :
    (j : List ℕ) (now : ℕ) (o : Option Bool) (api : Api) → (on_cancel o j now api).0 ≢ created
unfolding on_cancel
on_cancel-refused j now none api = λ e. cc e
on_cancel-refused j now (some pending) api = λ e. cc e

on_exit-refused :
    (j : List ℕ) (now : ℕ) (ok : Bool) (summary : Option (List ℕ)) (o : Option Bool) (api : Api)
    → (on_exit o j now ok summary api).0 ≢ created
unfolding on_exit
on_exit-refused j now ok summary none api = λ e. cc e
on_exit-refused j now ok summary (some flying) api = λ e. cc e

step-Wedged :
    (id : List ℕ) (e : Event) (api : Api)
    → Wedged id api
    → ((step e api).0 ≢ created) × Wedged id (step e api).1
unfolding step on_created
step-Wedged id (asked_create name j count now starts) api h =
    rw (create-Wedged id name j api count now h) (λ same. cc same, h)
step-Wedged id (read_cancel j) api h =
    (on_read-refused j (get j api.store) api, on_read-Wedged id j (get j api.store) api h)
step-Wedged id (wrote_cancel j now) api h = (
  on_cancel-refused j now (lookup j api.cancels) api,
  on_cancel-Wedged id j now (lookup j api.cancels) api h,
)
step-Wedged id (exited j now ok summary) api h = (
  on_exit-refused j now ok summary (lookup j api.active) api,
  on_exit-Wedged id j now ok summary (lookup j api.active) api refl h,
)

abbrev pub NoneCreated : List Answer → Type 0
NoneCreated answers = All (λ a. a ≢ created) answers

steps-Wedged :
    (id : List ℕ) (events : List Event) (api : Api)
    → Wedged id api
    → NoneCreated (steps events api).0 × Wedged id (steps events api).1
unfolding steps
steps-Wedged id [] api h = (tt, h)
steps-Wedged id (e ∷ events) api h =
    let (refused, next) = step-Wedged id e api h in
    let (none_later, last) = steps-Wedged id events (step e api).1 next in
    ((refused, none_later), last)

-- If a request to cancel has read the status of a run and writes after its process has ended, then
-- whatever steps follow, no run is created any more, and that run stays in cancelling with no
-- process in flight.
pub late_cancel-Wedged :
    (id : List ℕ) (now : ℕ) (pending : Bool) (events : List Event) (r : Run) (api : Api)
    → lookup id api.store.runs ≡ some r
    → lookup id api.active ≡ none
    → lookup id api.cancels ≡ some pending
    → let after = steps (wrote_cancel id now ∷ events) api in
      NoneCreated after.0 × Wedged id after.1
unfolding steps step on_cancel update_status
late_cancel-Wedged id now pending events r api e idle asked = rw asked (
    let (none_later, last) =
      steps-Wedged id events (on_cancel (some pending) id now api).1
        (record r { status = cancelling }, change_run_self _ id api.store r e, refl, idle) in
    ((λ same. cc same, none_later), last))

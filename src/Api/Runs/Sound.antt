-- ===== src/Api/Runs/Sound.antt =====
-- Requests that are answered one after another: at most one run is active at a time.
use radstorm.Prelude.{
  ◌≡◌, ◌≢◌, refl, sym, subst, ap, ◌∙◌, Bool, true, false, Option, none, some, List, [], ◌∷◌, ℕ, inl,
  inr, Bool-cases, Option-cases,
}
use radstorm.Prelude.Int.{ℤ}
use radstorm.Prelude.Maps.{
  Map, lookup, put, remove, lookup-put_self, lookup-put_other, lookup-put_cases, lookup-remove-some,
  text_key,
}
use radstorm.Api.Store.{
  Status, queued, running, succeeded, failed, cancelling, cancelled, Run, MemoryStore,
  new_memory_store, dropped, create, get, is_active, has_active, new_run, with_status,
  update_status, set_summary, change_run,
}
use radstorm.Api.Store.Held.{has_active-lookup, change_run-some, change_run_other, same_or_other}
use radstorm.Api.Runs.{
  Api, Event, asked_create, read_cancel, wrote_cancel, exited, start, on_created, on_read,
  on_cancel, on_exit, on_current, attached, final_status, step, steps,
}

pub record IsSound (api : Api) : Type 0 where
  pub flying :
      (id : List ℕ) (r : Run)
      → lookup id api.store.runs ≡ some r
      → is_active r.status ≡ true
      → (b : Bool) × (lookup id api.active ≡ some b)
  pub alive :
      (id : List ℕ) (b : Bool)
      → lookup id api.active ≡ some b
      → (r : Run) × (lookup id api.store.runs ≡ some r) × (is_active r.status ≡ true)
  pub single :
      (i j : List ℕ) (b c : Bool)
      → lookup i api.active ≡ some b
      → lookup j api.active ≡ some c
      → i ≡ j
  pub settled : (id : List ℕ) → lookup id api.cancels ≡ none

abbrev IsIdle : Map (List ℕ) Run → Type 0
IsIdle runs = (j : List ℕ) (r : Run) → lookup j runs ≡ some r → is_active r.status ≢ true

put_twice :
    (runs : Map (List ℕ) Run) (id j : List ℕ) (u v r : Run)
    → IsIdle runs
    → lookup j (put id v (put id u runs)) ≡ some r
    → is_active r.status ≡ true
    → (id ≡ j) × (v ≡ r)
put_twice runs id j u v r idle e a = elim (lookup-put_cases j id v r (put id u runs) e) [
  | inl h ↦ h
  | inr (differs, old) ↦ elim (lookup-put_cases j id u r runs old) [
    | inl h ↦ absurd (differs h.0)
    | inr (apart, older) ↦ absurd (idle j r older a)
  ]
]

has_active-IsIdle : (s : MemoryStore) → has_active s ≡ false → IsIdle s.runs
has_active-IsIdle s h j r e a = cc (has_active-lookup s j r e a, h)

start-IsSound :
    (starts : Bool) (id : List ℕ) (now : ℕ) (u : Run) (api : Api) (order : List (List ℕ))
    → IsIdle api.store.runs
    → IsSound api
    → IsSound
        (start starts id now
          (record api { store = record { runs = put id u api.store.runs; order = order } })).1
unfolding start update_status
start-IsSound false id now u api order idle h =
    let s : MemoryStore = record { runs = put id u api.store.runs; order = order } in
    rw (change_run-some (with_status failed now) id s u (lookup-put_self id u api.store.runs))
      (record {
        flying = λ j r e a.
            let (same, made) =
              put_twice api.store.runs id j u (with_status failed now u) r idle e a in
            cc (ap (λ x. is_active x.status) made, a);
        alive = λ j b e. let (r, old, a) = h.alive j b e in absurd (idle j r old a);
        single = h.single;
        settled = h.settled;
      })
start-IsSound true id now u api order idle h =
    let s : MemoryStore = record { runs = put id u api.store.runs; order = order } in
    let v = with_status running now u in
    let own : (j : List ℕ) (b : Bool) → lookup j (put id true api.active) ≡ some b → id ≡ j =
      λ j b e. elim (lookup-put_cases j id true b api.active e) [
        | inl k ↦ k.0
        | inr (differs, old) ↦ let (r, older, a) = h.alive j b old in absurd (idle j r older a)
      ] in
    rw (change_run-some (with_status running now) id s u (lookup-put_self id u api.store.runs))
      (record {
        flying = λ j r e a.
            let (same, made) = put_twice api.store.runs id j u v r idle e a in
            (
              true,
              subst (λ k. lookup k (put id true api.active) ≡ some true) same
                  (lookup-put_self id true api.active),
            );
        alive = λ j b e. (
          v,
          subst (λ k. lookup k (put id v s.runs) ≡ some v) (own j b e)
              (lookup-put_self id v s.runs),
          refl,
        );
        single = λ i j b c e f. sym (own i b e) ∙ own j c f;
        settled = h.settled;
      })

create-IsSound :
    (name id : List ℕ) (count : ℤ) (now : ℕ) (starts : Bool) (api : Api)
    → IsSound api
    → IsSound (step (asked_create name id count now starts) api).1
unfolding step on_created create
create-IsSound name id count now starts api h = elim (Bool-cases (has_active api.store)) [
  | inl e ↦ rw e h
  | inr e ↦ rw e (
      start-IsSound starts id now (new_run name id count now) api _ (has_active-IsIdle api.store e)
        h)
]

-- The write of a request to cancel a run that is active.
write-IsSound :
    (id : List ℕ) (now : ℕ) (r : Run) (api : Api)
    → lookup id api.store.runs ≡ some r
    → is_active r.status ≡ true
    → IsSound api
    → IsSound (on_cancel (some true) id now (record api { cancels = put id true api.cancels })).1
unfolding on_cancel update_status
write-IsSound id now r api e a h =
    let v = with_status cancelling now r in
    rw (change_run-some (with_status cancelling now) id api.store r e) (record {
      flying = λ j q f k. elim (lookup-put_cases j id v q api.store.runs f) [
        | inl (same, made) ↦
            subst (λ i. (b : Bool) × (lookup i api.active ≡ some b)) same (h.flying id r e a)
        | inr (differs, old) ↦ h.flying j q old k
      ];
      alive = λ j b f. elim (same_or_other id j) [
        | inl same ↦ (
          v,
          subst (λ k. lookup k (put id v api.store.runs) ≡ some v) same
              (lookup-put_self id v api.store.runs),
          refl,
        )
        | inr differs ↦
            let (q, old, k) = h.alive j b f in
            (q, lookup-put_other j id v api.store.runs differs ∙ old, k)
      ];
      single = h.single;
      settled = λ j. elim (Option-cases (lookup j (remove id (put id true api.cancels)))) [
        | inl none_left ↦ none_left
        | inr (b, f) ↦
            let (differs, old) = lookup-remove-some j id b (put id true api.cancels) f in
            cc (lookup-put_other j id true api.cancels differs, h.settled j, old)
      ];
    })

cancel-IsSound :
    (id : List ℕ) (now : ℕ) (o : Option Run) (api : Api)
    → lookup id api.store.runs ≡ o
    → IsSound api
    → IsSound (step (wrote_cancel id now) (on_read o id api).1).1
unfolding step on_read on_cancel
cancel-IsSound id now none api e h = rw (h.settled id) h
cancel-IsSound id now (some r) api e h = elim (Bool-cases (is_active r.status)) [
  | inr k ↦ rw (k, h.settled id) h
  | inl k ↦ rw (k, lookup-put_self id true api.cancels) (write-IsSound id now r api e k h)
]

final_inactive :
    (st : Status) (ok : Bool) (now : ℕ) (r : Run)
    → is_active (with_status (final_status st ok) now r).status ≡ false
final_inactive cancelling ok now r = refl
final_inactive cancelled ok now r = refl
final_inactive queued true now r = refl
final_inactive queued false now r = refl
final_inactive running true now r = refl
final_inactive running false now r = refl
final_inactive succeeded true now r = refl
final_inactive succeeded false now r = refl
final_inactive failed true now r = refl
final_inactive failed false now r = refl

-- The store behind the end of the only process.
abbrev IsOnly : List ℕ → MemoryStore → Type 0
IsOnly id s = (j : List ℕ) (r : Run) → lookup j s.runs ≡ some r → is_active r.status ≡ true → id ≡ j

change_run-IsOnly :
    (change : Run → Run) (id : List ℕ) (s : MemoryStore)
    → IsOnly id s
    → IsOnly id (dropped (change_run change id s) s)
change_run-IsOnly change id s only j r e a = elim (same_or_other id j) [
  | inl same ↦ same
  | inr differs ↦ only j r (sym (change_run_other change id j s differs) ∙ e) a
]

attached-IsOnly :
    (summary : Option (List ℕ)) (id : List ℕ) (s : MemoryStore)
    → IsOnly id s
    → IsOnly id (attached summary id s)
unfolding set_summary
attached-IsOnly none id s only = only
attached-IsOnly (some summary) id s only = change_run-IsOnly _ id s only

on_current-IsIdle :
    (o : Option Run) (id : List ℕ) (now : ℕ) (ok : Bool) (s : MemoryStore)
    → lookup id s.runs ≡ o
    → IsOnly id s
    → IsIdle (on_current o id now ok s).runs
unfolding on_current update_status
on_current-IsIdle none id now ok s e only =
    λ j r f a. cc (ap (λ i. lookup i s.runs) (only j r f a), e, f)
on_current-IsIdle (some r) id now ok s e only =
    rw (change_run-some (with_status (final_status r.status ok) now) id s r e) (λ j q f a.
      elim (lookup-put_cases j id (with_status (final_status r.status ok) now r) q s.runs f) [
        | inl (same, made) ↦
            cc (final_inactive r.status ok now r, ap (λ x. is_active x.status) made, a)
        | inr (differs, old) ↦ differs (only j q old a)
      ])

on_exit-IsSound :
    (id : List ℕ) (now : ℕ) (ok : Bool) (summary : Option (List ℕ)) (o : Option Bool) (api : Api)
    → lookup id api.active ≡ o
    → IsSound api
    → IsSound (on_exit o id now ok summary api).1
unfolding on_exit get
on_exit-IsSound id now ok summary none api e h = h
on_exit-IsSound id now ok summary (some flying) api e h =
    let s = attached summary id api.store in
    let only : IsOnly id api.store =
      λ j r f a. let (b, found) = h.flying j r f a in h.single id j flying b e found in
    let idle =
      on_current-IsIdle (lookup id s.runs) id now ok s refl
        (attached-IsOnly summary id api.store only) in
    let landed : (j : List ℕ) (b : Bool) → lookup j (remove id api.active) ≢ some b = λ j b f.
      let (differs, old) = lookup-remove-some j id b api.active f in
      differs (h.single id j flying b e old) in
    record {
      flying = λ j r f a. absurd (idle j r f a);
      alive = λ j b f. absurd (landed j b f);
      single = λ i j b c f g. absurd (landed i b f);
      settled = h.settled;
    }

-- A request that is answered before the next one, or the end of a process.
pub data Request : Type 0 where
  creates : (name id : List ℕ) (count : ℤ) (now : ℕ) (starts : Bool) → Request
  asks_cancel : (id : List ℕ) (now : ℕ) → Request
  exits : (id : List ℕ) (now : ℕ) (ok : Bool) (summary : Option (List ℕ)) → Request

abbrev pub events_of : Request → List Event
events_of (creates name id count now starts) = asked_create name id count now starts ∷ []
events_of (asks_cancel id now) = read_cancel id ∷ wrote_cancel id now ∷ []
events_of (exits id now ok summary) = exited id now ok summary ∷ []

abbrev pub handled : List Request → Api → Api
handled [] api = api
handled (q ∷ requests) api = handled requests (steps (events_of q) api).1

request-IsSound : (q : Request) (api : Api) → IsSound api → IsSound (steps (events_of q) api).1
unfolding steps step get
request-IsSound (creates name id count now starts) api h =
    create-IsSound name id count now starts api h
request-IsSound (asks_cancel id now) api h = cancel-IsSound id now (get id api.store) api refl h
request-IsSound (exits id now ok summary) api h =
    on_exit-IsSound id now ok summary (lookup id api.active) api refl h

handled-IsSound :
    (requests : List Request) (api : Api) → IsSound api → IsSound (handled requests api)
handled-IsSound [] api h = h
handled-IsSound (q ∷ requests) api h =
    handled-IsSound requests (steps (events_of q) api).1 (request-IsSound q api h)

abbrev pub new_api : Api
new_api = record { store = new_memory_store; active = []; cancels = [] }

new_api-IsSound : IsSound new_api
unfolding lookup
new_api-IsSound = record {
  flying = λ id r e a. cc e;
  alive = λ id b e. cc e;
  single = λ i j b c e f. cc e;
  settled = λ id. refl;
}

-- After any requests to create and to cancel runs, each answered before the next, and ends of
-- processes between them, any two runs that are active are the same, and its process is in flight.
pub handled_one_active :
    (requests : List Request) (i j : List ℕ) (r q : Run)
    → lookup i (handled requests new_api).store.runs ≡ some r
    → lookup j (handled requests new_api).store.runs ≡ some q
    → is_active r.status ≡ true
    → is_active q.status ≡ true
    → (i ≡ j) × ((b : Bool) × (lookup i (handled requests new_api).active ≡ some b))
handled_one_active requests i j r q e f a k =
    let h = handled-IsSound requests new_api new_api-IsSound in
    let (b, flies) = h.flying i r e a in
    let (c, flies_too) = h.flying j q f k in (h.single i j b c flies flies_too, (b, flies))

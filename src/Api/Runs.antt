-- ===== src/Api/Runs.antt =====
-- What the API does to the store, one change at a time: the handlers Create and Cancel of
-- apps/api/internal/server/handlers/runs.go, and Start, Cancel and watch of
-- apps/api/internal/runs/runner.go. The handler Cancel is two steps, since it reads the status and
-- writes it in two calls of the store; other steps may come between.
pub mod Wedged
pub mod Sound
pub mod Examples
use radstorm.Prelude.{
  ℕ, Bool, true, false, ◌&&◌, Option, none, some, List, [], ◌∷◌, ◌==◌, if◌then◌else◌, get_or,
}
use radstorm.Prelude.Int.{ℤ}
use radstorm.Prelude.Maps.{Map, lookup, put, remove, text_key}
use radstorm.Api.Store.{
  Status, running, succeeded, failed, cancelling, cancelled, Run, MemoryStore, create, get,
  is_active, dropped, update_status, set_summary,
}

-- The store, the processes in flight (Runner.active), and the requests to cancel that have read a
-- status and not yet written theirs.
pub record Api : Type 0 where
  pub store : MemoryStore
  pub active : Map (List ℕ) Bool
  pub cancels : Map (List ℕ) Bool

-- A step: a request or the end of a process.
pub data Event : Type 0 where
  asked_create : (name id : List ℕ) (count : ℤ) (now : ℕ) (starts : Bool) → Event
  read_cancel : (id : List ℕ) → Event
  wrote_cancel : (id : List ℕ) (now : ℕ) → Event
  exited : (id : List ℕ) (now : ℕ) (ok : Bool) (summary : Option (List ℕ)) → Event

pub data Answer : Type 0 where
  created : Answer  -- 201
  conflict : Answer  -- 409
  not_started : Answer  -- 500
  not_found : Answer  -- 404
  finished_already : Answer  -- 409
  in_progress : Answer  -- no answer yet
  accepted : Answer  -- 200
  ended : Answer  -- no request

-- Start of a run that has been created: whether the process starts, and what the store then records.
start : Bool → List ℕ → ℕ → Api → Answer × Api
start false id now api =
    (not_started, record api { store = dropped (update_status id failed now api.store) api.store })
start true id now api = (
  created,
  record api {
    store = dropped (update_status id running now api.store) api.store;
    active = put id true api.active;
  },
)

-- Create
on_created : Option MemoryStore → Bool → List ℕ → ℕ → Api → Answer × Api
unfolding start
on_created none starts id now api = (conflict, api)
on_created (some s) starts id now api = start starts id now (record api { store = s })

-- Cancel, up to its test of the status
on_read : Option Run → List ℕ → Api → Answer × Api
on_read none id api = (not_found, api)
on_read (some r) id api =
    if is_active r.status
    then (in_progress, record api { cancels = put id true api.cancels })
    else (finished_already, api)

-- Cancel, from its write on: no run is ever removed, so the write finds its run. The process that
-- the request stops ends by a step of its own.
on_cancel : Option Bool → List ℕ → ℕ → Api → Answer × Api
on_cancel none id now api = (ended, api)
on_cancel (some pending) id now api = (
  accepted,
  record api {
    store = dropped (update_status id cancelling now api.store) api.store;
    cancels = remove id api.cancels;
  },
)

abbrev attached : Option (List ℕ) → List ℕ → MemoryStore → MemoryStore
attached none id s = s
attached (some summary) id s = dropped (set_summary id summary s) s

-- The status that watch ends a run with.
abbrev pub final_status : Status → Bool → Status
final_status cancelling ok = cancelled
final_status cancelled ok = cancelled
final_status st ok = if ok then succeeded else failed

on_current : Option Run → List ℕ → ℕ → Bool → MemoryStore → MemoryStore
on_current none id now ok s = s
on_current (some r) id now ok s = dropped (update_status id (final_status r.status ok) now s) s

-- watch, for a process that is in flight
on_exit : Option Bool → List ℕ → ℕ → Bool → Option (List ℕ) → Api → Answer × Api
unfolding on_current
on_exit none id now ok summary api = (ended, api)
on_exit (some flying) id now ok summary api =
    let s = attached summary id api.store in
    (ended, record api { store = on_current (get id s) id now ok s; active = remove id api.active })

pub step : Event → Api → Answer × Api
unfolding on_created on_read on_cancel on_exit
step (asked_create name id count now starts) api =
    on_created (create name id count now api.store) starts id now api
step (read_cancel id) api = on_read (get id api.store) id api
step (wrote_cancel id now) api = on_cancel (lookup id api.cancels) id now api
step (exited id now ok summary) api = on_exit (lookup id api.active) id now ok summary api

-- The steps in a row, and their answers.
pub steps : List Event → Api → List Answer × Api
unfolding step
steps [] api = ([], api)
steps (e ∷ events) api =
    let (answer, next) = step e api in
    let (answers, last) = steps events next in (answer ∷ answers, last)

-- ===== src/Api/Runs/Examples.antt =====
-- One run that is created and started.
use radstorm.Prelude.{ℕ, ◌≡◌, refl, ap, ◌∙◌, Bool, true, some, List, [], ◌∷◌}
use radstorm.Prelude.Int.{pos}
use radstorm.Prelude.Maps.{lookup, put, lookup-put_self, text_key}
use radstorm.Api.Store.{
  Run, MemoryStore, new_memory_store, running, dropped, with_status, new_run, create, update_status,
}
use radstorm.Api.Store.Held.{change_run-some, has_active_new}
use radstorm.Api.Runs.{step, steps, on_created, start}
use radstorm.Api.Runs.Sound.{Request, creates, handled, new_api, handled_one_active}

abbrev id : List ℕ
id = 114 ∷ []

abbrev requests : List Request
requests = creates [] id (pos 2) 10 true ∷ []

abbrev made : Run
made = new_run [] id (pos 2) 10

abbrev store : MemoryStore
store = record { runs = put id made []; order = id ∷ [] }

abbrev started : Run
started = with_status running 10 made

created_store : create [] id (pos 2) 10 new_memory_store ≡ some store
unfolding create
created_store = rw has_active_new refl

-- The change of the status to running.
run_store :
    update_status id running 10 store
    ≡ some (record { runs = put id started store.runs; order = id ∷ [] })
unfolding update_status
run_store = change_run-some (with_status running 10) id store made (lookup-put_self id made [])

is_started : lookup id (handled requests new_api).store.runs ≡ some started
unfolding steps step on_created start
is_started =
    ap (λ o. lookup id (on_created o true id 10 new_api).1.store.runs) created_store
    ∙ ap (λ o. lookup id (dropped o store).runs) run_store
    ∙ lookup-put_self id started store.runs

handled_one_active_example :
    (id ≡ id) × ((b : Bool) × (lookup id (handled requests new_api).active ≡ some b))
handled_one_active_example =
    handled_one_active requests id id started started is_started is_started refl refl

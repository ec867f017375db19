-- ===== src/Api/Store.antt =====
-- apps/api/internal/runs/store.go: MemoryStore. The time and the identifier that generateID makes are
-- arguments. List is left out.
pub mod Held
use radstorm.Prelude.{
  ℕ, zero, suc, ◌-◌, Bool, true, false, ◌||◌, ◌&&◌, not, Option, none, some, List, [], ◌∷◌, ◌++◌,
  ltb, leb, ◌==◌, if◌then◌else◌, length,
}
use radstorm.Prelude.Int.{ℤ, above}
use radstorm.Prelude.Maps.{Map, lookup, put, text_key}

pub data Status : Type 0 where
  queued : Status
  running : Status
  succeeded : Status
  failed : Status
  cancelling : Status
  cancelled : Status

pub record Progress : Type 0 where
  pub elapsed_ms : ℤ
  pub subscribers_total : ℤ
  pub subscribers_activated : ℤ
  pub subscribers_established : ℤ
  pub subscribers_failed : ℤ

pub record Run : Type 0 where
  pub id : List ℕ
  pub name : List ℕ
  pub status : Status
  pub created_at : ℕ
  pub started_at : Option ℕ
  pub finished_at : Option ℕ
  pub progress : Progress
  pub summary : Option (List ℕ)  -- the text of the summary

pub record MemoryStore : Type 0 where
  pub runs : Map (List ℕ) Run
  pub order : List (List ℕ)

abbrev pub new_memory_store : MemoryStore
new_memory_store = record { runs = []; order = [] }

-- The cases of hasActiveLocked.
abbrev pub is_active : Status → Bool
is_active queued = true
is_active running = true
is_active cancelling = true
is_active st = false

pub any_active : Map (List ℕ) Run → Bool
any_active [] = false
any_active ((id, r) ∷ runs) =
    let rest = any_active runs in if is_active r.status then true else rest

-- HasActive
pub has_active : MemoryStore → Bool
unfolding any_active
has_active s = any_active s.runs

abbrev pub named_or : List ℕ → List ℕ → List ℕ
named_or [] id = id
named_or (c ∷ name) id = c ∷ name

-- The run of Create; subscriberCount is the count of the configuration.
abbrev pub new_run : (name id : List ℕ) (count : ℤ) (now : ℕ) → Run
new_run name id count now = record {
  id = id;
  name = named_or name id;
  status = queued;
  created_at = now;
  started_at = none;
  finished_at = none;
  progress = record {
    elapsed_ms = ℤ.pos 0;
    subscribers_total = count;
    subscribers_activated = ℤ.pos 0;
    subscribers_established = ℤ.pos 0;
    subscribers_failed = ℤ.pos 0;
  };
  summary = none;
}

-- Create; `none` is ErrConflict.
unfoldable pub create : (name id : List ℕ) (count : ℤ) (now : ℕ) → MemoryStore → Option MemoryStore
create name id count now s =
    if has_active s
    then none
    else some
        (record { runs = put id (new_run name id count now) s.runs; order = s.order ++ id ∷ [] })

-- Get; `none` is ErrNotFound, as in the operations below.
unfoldable pub get : List ℕ → MemoryStore → Option Run
get id s = lookup id s.runs

-- A stamp, set where there is none.
abbrev pub stamped : Option ℕ → ℕ → Option ℕ
stamped none now = some now
stamped (some t) now = some t

abbrev pub with_status : Status → ℕ → Run → Run
with_status running now r = record r { status = running; started_at = stamped r.started_at now }
with_status succeeded now r = record r {
  status = succeeded;
  finished_at = stamped r.finished_at now;
}
with_status failed now r = record r { status = failed; finished_at = stamped r.finished_at now }
with_status cancelled now r = record r {
  status = cancelled;
  finished_at = stamped r.finished_at now;
}
with_status st now r = record r { status = st }

on_run : Option Run → (Run → Run) → List ℕ → MemoryStore → Option MemoryStore
on_run none change id s = none
on_run (some r) change id s = some (record s { runs = put id (change r) s.runs })

-- A change of the run that an identifier names.
pub change_run : (Run → Run) → List ℕ → MemoryStore → Option MemoryStore
unfolding on_run
change_run change id s = on_run (lookup id s.runs) change id s

unfoldable pub update_status : List ℕ → Status → ℕ → MemoryStore → Option MemoryStore
update_status id st now s = change_run (with_status st now) id s

unfoldable pub update_progress : List ℕ → Progress → MemoryStore → Option MemoryStore
update_progress id p s = change_run (λ r. record r { progress = p }) id s

unfoldable pub set_summary : List ℕ → List ℕ → MemoryStore → Option MemoryStore
set_summary id summary s = change_run (λ r. record r { summary = some summary }) id s

-- The store behind a call whose error is dropped.
abbrev pub dropped : Option MemoryStore → MemoryStore → MemoryStore
dropped none s = s
dropped (some t) s = t

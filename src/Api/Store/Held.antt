-- ===== src/Api/Store/Held.antt =====
-- The runs that the operations of MemoryStore leave, and whether one of them is active.
use radstorm.Prelude.{
  ◌≡◌, ◌⊎◌, refl, ap, true, false, none, some, List, [], ◌∷◌, ℕ, inl, inr, Bool-cases, Option-cases,
}
use radstorm.Prelude.Int.{ℤ}
use radstorm.Prelude.Maps.{Map, lookup, put, lookup-put_self, lookup-put_other, text_key}
use radstorm.Api.Store.{
  Run, MemoryStore, new_memory_store, any_active, has_active, is_active, create, change_run, on_run,
  dropped,
}

any_active-lookup :
    (runs : Map (List ℕ) Run) (id : List ℕ) (r : Run)
    → lookup id runs ≡ some r
    → is_active r.status ≡ true
    → any_active runs ≡ true
unfolding any_active lookup
any_active-lookup [] id r e h = cc e
any_active-lookup ((j, q) ∷ runs) id r e h = elim (Bool-cases (text_key.same j id)) [
  | inl f ↦ let same : q ≡ r = cc (rw f at e) in rw (ap (λ x. is_active x.status) same, h) refl
  | inr f ↦ elim (Bool-cases (is_active q.status)) [
    | inl g ↦ rw g refl
    | inr g ↦ rw g (any_active-lookup runs id r (rw f at e) h)
  ]
]

-- A run that is active is seen by HasActive.
pub has_active-lookup :
    (s : MemoryStore) (id : List ℕ) (r : Run)
    → lookup id s.runs ≡ some r
    → is_active r.status ≡ true
    → has_active s ≡ true
unfolding has_active
has_active-lookup s id r e h = any_active-lookup s.runs id r e h

pub create-has_active :
    (name id : List ℕ) (count : ℤ) (now : ℕ) (s : MemoryStore)
    → has_active s ≡ true
    → create name id count now s ≡ none
unfolding create
create-has_active name id count now s h = rw h refl

pub change_run-some :
    (change : Run → Run) (id : List ℕ) (s : MemoryStore) (r : Run)
    → lookup id s.runs ≡ some r
    → change_run change id s ≡ some (record s { runs = put id (change r) s.runs })
unfolding change_run
change_run-some change id s r e = rw e refl

-- What a change leaves of the run that it names, and of the others.
pub change_run_self :
    (change : Run → Run) (id : List ℕ) (s : MemoryStore) (r : Run)
    → lookup id s.runs ≡ some r
    → lookup id (dropped (change_run change id s) s).runs ≡ some (change r)
change_run_self change id s r e =
    rw (change_run-some change id s r e) (lookup-put_self id (change r) s.runs)

pub change_run_other :
    (change : Run → Run) (j id : List ℕ) (s : MemoryStore)
    → ¬ (j ≡ id)
    → lookup id (dropped (change_run change j s) s).runs ≡ lookup id s.runs
unfolding change_run on_run
change_run_other change j id s differs = elim (Option-cases (lookup j s.runs)) [
  | inl e ↦ rw e refl
  | inr (r, e) ↦ rw e (lookup-put_other id j (change r) s.runs differs)
]

-- Two identifiers are the same or not.
pub same_or_other : (j id : List ℕ) → (j ≡ id) ⊎ (¬ (j ≡ id))
same_or_other j id = elim (Bool-cases (text_key.same j id)) [
  | inl e ↦ inl ((text_key.same_iff j id).0 e)
  | inr e ↦ inr (λ same. cc ((text_key.same_iff j id).1 same, e))
]

pub has_active_new : has_active new_memory_store ≡ false
unfolding has_active any_active
has_active_new = refl

-- ===== src/Io/Sender/Restored.antt =====
-- What allocateOnAnyTuple does to the identifiers in flight, where no other sender is at work.
use radstorm.Prelude.{
  ℕ, zero, suc, ◌<◌, ◌≡◌, ◌≢◌, refl, sym, subst, ◌∙◌, true, false, Option, none, some, List, [],
  ◌∷◌, ◌==◌, ==_iff, inl, inr, length, Bool-cases,
}
use radstorm.Prelude.Maps.{Key, text_key, number_key, pair_key}
use radstorm.Io.IdAlloc.Tuples.{
  Tuple, IdAllocator, allocate_for, allocates, held, IsChanged, IsCall, AllValid, perform-IsCall,
}
use radstorm.Io.Sender.{
  on_tried, on_picked, retry, Address, Engine, Turn, Allocated, got, exhausted, alloc_cancelled,
  taken_or, pick_at, scan_sockets, scan_once, allocate_on_any_tuple,
}

-- The same identifiers are in flight.
abbrev pub SameHeld : (a b : IdAllocator) → Type 0
SameHeld a b = (u : Tuple) (j : ℕ) → held b u j ≡ held a u j

-- The allocators of two states, both valid, the second with one identifier more in flight.
abbrev pub IsMore : (a b : IdAllocator) → Tuple → ℕ → Type 0
IsMore a b t id = (id < 256) × (held a t id ≡ false) × IsChanged (held a) (held b) t id true

-- What others do does not touch the allocator.
abbrev pub IsQuietly : (Engine → Engine) → Type 0
IsQuietly f = (e : Engine) → (f e).id_alloc ≡ e.id_alloc

abbrev pub IsQuietWait : List (Option (Engine → Engine)) → Type 0
IsQuietWait [] = Unit {0}
IsQuietWait (none ∷ rest) = IsQuietWait rest
IsQuietWait (some f ∷ rest) = IsQuietly f × IsQuietWait rest

abbrev pub IsQuiet : Turn → Type 0
IsQuiet t = IsQuietly t.others × IsQuietWait t.backoffs

pub taken_back :
    (a b c : IdAllocator) (t : Tuple) (id : ℕ)
    → held a t id ≡ false
    → IsChanged (held a) (held b) t id true
    → IsChanged (held b) (held c) t id false
    → SameHeld a c
taken_back a b c t id free (on, others_on, rest_on) (off, others_off, rest_off) u j =
    let key : Key Tuple = pair_key in
    elim (Bool-cases (key.same t u)) [
      | inr apart ↦
          let differ : ¬ (t ≡ u) = λ same. cc ((key.same_iff t u).1 same, apart) in
          rest_off u j differ ∙ rest_on u j differ
      | inl alike ↦
          let same : t ≡ u = (key.same_iff t u).0 alike in
          rw⁻¹ same (elim (Bool-cases (j == id)) [
            | inl here ↦ let there : j ≡ id = (==_iff j id).0 here in rw there (off ∙ sym free)
            | inr other ↦
                let differ : j ≢ id = λ e. cc ((==_iff j id).1 e, other) in
                others_off j differ ∙ others_on j differ
          ])
    ]

-- What a search of the sockets has found, from one allocator to another.
abbrev pub IsFound : (a b : IdAllocator) → Address → Option (Address × ℕ) → Type 0
IsFound a b dst none = SameHeld a b
IsFound a b dst (some (sock, id)) = IsMore a b (sock, dst) id

-- As much from a state with the same identifiers in flight.
IsFound-same :
    (a b c : IdAllocator) (dst : Address) (o : Option (Address × ℕ))
    → SameHeld a b
    → IsFound b c dst o
    → IsFound a c dst o
IsFound-same a b c dst none s h = λ u j. h u j ∙ s u j
IsFound-same a b c dst (some (sock, id)) s (small, free, changed) =
    let (on, others, rest) = changed in
    (
      small,
      sym (s (sock, dst) id) ∙ free,
      (on, λ j h. others j h ∙ s (sock, dst) j, λ u j h. rest u j h ∙ s u j),
    )

abbrev SearchedFrom : Address → Engine → Engine × Option (Address × ℕ) → Type 0
SearchedFrom dst e r = IsFound e.id_alloc (r.0).id_alloc dst r.1 × AllValid (r.0).id_alloc

on_tried-SearchedFrom :
    (dst sock : Address) (next : Engine → Engine × Option (Address × ℕ)) (e e' : Engine)
    (o : Option ℕ)
    → AllValid e'.id_alloc
    → IsCall (allocates (sock, dst)) (held e.id_alloc) (held e'.id_alloc) o
    → (AllValid e'.id_alloc → SearchedFrom dst e' (next e'))
    → SearchedFrom dst e (on_tried sock next e' o)
unfolding on_tried
on_tried-SearchedFrom dst sock next e e' none v (full, same) later =
    let (found, valid) = later v in
    (IsFound-same e.id_alloc e'.id_alloc _ dst (next e').1 same found, valid)
on_tried-SearchedFrom dst sock next e e' (some id) v (small, free, changed) later =
    ((small, free, changed), v)

on_picked-SearchedFrom :
    (dst : Address) (next : Engine → Engine × Option (Address × ℕ)) (e : Engine)
    (o : Option Address)
    → AllValid e.id_alloc
    → ((e' : Engine) → AllValid e'.id_alloc → SearchedFrom dst e' (next e'))
    → SearchedFrom dst e (on_picked dst next e o)
unfolding on_picked
on_picked-SearchedFrom dst next e none v later = later e v
on_picked-SearchedFrom dst next e (some sock) v later =
    let r = allocate_for (sock, dst) e.id_alloc in
    let (call, valid) = perform-IsCall (allocates (sock, dst)) e.id_alloc v in
    on_tried-SearchedFrom dst sock next e (record e { id_alloc = r.0 }) r.1 valid call
      (later (record e { id_alloc = r.0 }))

scan_sockets-SearchedFrom :
    (dst : Address) (left start : ℕ) (e : Engine)
    → AllValid e.id_alloc
    → SearchedFrom dst e (scan_sockets dst left start e)
unfolding scan_sockets
scan_sockets-SearchedFrom dst zero start e v = (λ u j. refl, v)
scan_sockets-SearchedFrom dst (suc left) start e v =
    on_picked-SearchedFrom dst (scan_sockets dst left (suc start)) e (pick_at start e.sockets) v
      (λ e' v'. scan_sockets-SearchedFrom dst left (suc start) e' v')

-- What allocateOnAnyTuple has found.
abbrev pub found_by : Allocated → Option (Address × ℕ)
found_by (got sock id) = some (sock, id)
found_by exhausted = none
found_by alloc_cancelled = none

abbrev pub AllocatedFrom : Address → Engine → Engine × Allocated → Type 0
AllocatedFrom dst e r =
    IsFound e.id_alloc (r.0).id_alloc dst (found_by r.1) × AllValid (r.0).id_alloc

taken_or-AllocatedFrom :
    (dst : Address) (e e' : Engine) (o : Option (Address × ℕ)) (otherwise : Allocated)
    → found_by otherwise ≡ none
    → SearchedFrom dst e (e', o)
    → AllocatedFrom dst e (e', taken_or o otherwise)
taken_or-AllocatedFrom dst e e' none otherwise h s = rw h s
taken_or-AllocatedFrom dst e e' (some (sock, id)) otherwise h s = s

retry-AllocatedFrom :
    (dst : Address) (next : Engine → Engine × Allocated) (e e' : Engine) (o : Option (Address × ℕ))
    → SearchedFrom dst e (e', o)
    → (AllValid e'.id_alloc → AllocatedFrom dst e' (next e'))
    → AllocatedFrom dst e (retry next e' o)
unfolding retry
retry-AllocatedFrom dst next e e' none (same, v) later =
    let (found, valid) = later v in
    (IsFound-same e.id_alloc e'.id_alloc _ dst (found_by (next e').1) same found, valid)
retry-AllocatedFrom dst next e e' (some (sock, id)) s later = s

-- What others do quietly does not change what is found.
quiet-AllocatedFrom :
    (dst : Address) (e e' : Engine) (r : Engine × Allocated)
    → e'.id_alloc ≡ e.id_alloc
    → AllocatedFrom dst e' r
    → AllocatedFrom dst e r
quiet-AllocatedFrom dst e e' r same h =
    subst (λ a. IsFound a (r.0).id_alloc dst (found_by r.1) × AllValid (r.0).id_alloc) same h

pub allocate_on_any_tuple-AllocatedFrom :
    (dst : Address) (backoffs : List (Option (Engine → Engine))) (e : Engine)
    → IsQuietWait backoffs
    → AllValid e.id_alloc
    → AllocatedFrom dst e (allocate_on_any_tuple dst backoffs e)
unfolding allocate_on_any_tuple scan_once
allocate_on_any_tuple-AllocatedFrom dst [] e q v =
    taken_or-AllocatedFrom dst e (scan_once dst e).0 (scan_once dst e).1 exhausted refl (
      scan_sockets-SearchedFrom dst (length e.sockets) e.rr_idx (record e { rr_idx = suc e.rr_idx })
        v)
allocate_on_any_tuple-AllocatedFrom dst (none ∷ rest) e q v =
    taken_or-AllocatedFrom dst e (scan_once dst e).0 (scan_once dst e).1 alloc_cancelled refl (
      scan_sockets-SearchedFrom dst (length e.sockets) e.rr_idx (record e { rr_idx = suc e.rr_idx })
        v)
allocate_on_any_tuple-AllocatedFrom dst (some others ∷ rest) e (calm, q) v =
    let r = scan_once dst e in
    retry-AllocatedFrom dst (λ e. allocate_on_any_tuple dst rest (others e)) e r.0 r.1
      (scan_sockets-SearchedFrom dst (length e.sockets) e.rr_idx
        (record e { rr_idx = suc e.rr_idx }) v)
      (λ valid.
        quiet-AllocatedFrom dst r.0 (others r.0) (allocate_on_any_tuple dst rest (others r.0))
          (calm r.0)
          (allocate_on_any_tuple-AllocatedFrom dst rest (others r.0) q
            (subst AllValid (sym (calm r.0)) valid)))

-- ===== src/Io/IdAlloc/Tuples.antt =====
-- IDAllocator of pkg/io/idalloc.go: a bitmap for each pair of addresses. Its mutex is held only to
-- find the bitmap; since none is ever taken out of the map, a call of Allocate or Release acts at
-- once on that bitmap, under the mutex of the bitmap. MakeTuple, which calls the library net, makes
-- the tuples.
use radstorm.Prelude.{
  ℕ, zero, suc, ◌/◌, ◌%◌, ◌<◌, ◌≡◌, ◌≢◌, refl, sym, ap, ◌∙◌, Bool, true, false, Option, none, some,
  List, [], ◌∷◌, get_or, Bool-cases, Option-cases, inl, inr, arith,
}
use radstorm.Prelude.Maps.{
  Map, Key, lookup, put, number_key, text_key, pair_key, lookup-put_self, lookup-put_other,
  lookup-put_cases,
}
use radstorm.Io.IdAlloc.{IdBitmap, in_use, bit_test, allocate, release}
use radstorm.Io.IdAlloc.Scan.{used, IsValid}
use radstorm.Io.IdAlloc.Allocate.{allocate_cases, release_lem}

-- SrcIP, SrcPort, DstIP, DstPort
abbrev pub Tuple : Type 0
Tuple = (List ℕ × ℕ) × (List ℕ × ℕ)

abbrev pub IdAllocator : Type 0
IdAllocator = Map Tuple IdBitmap

abbrev pub empty_bitmap : IdBitmap
empty_bitmap = record { bits = 0 ∷ 0 ∷ 0 ∷ 0 ∷ []; count = 0; next = 0 }

abbrev or_empty : Option IdBitmap → IdBitmap
or_empty none = empty_bitmap
or_empty (some b) = b

-- IDAllocator.Allocate
unfoldable pub allocate_for : Tuple → IdAllocator → IdAllocator × Option ℕ
allocate_for t a = let r = allocate (or_empty (lookup t a)) in (put t r.0 a, r.1)

-- IDAllocator.Release
unfoldable pub release_for : Tuple → ℕ → IdAllocator → IdAllocator
release_for t id a = elim (lookup t a) [ none ↦ a | some b ↦ put t (release b id) a ]

pub data Call : Type 0 where
  allocates : Tuple → Call
  releases : (t : Tuple) (id : ℕ) → id < 256 → Call

-- What a call does, and the identifier that it returns.
abbrev pub perform : Call → IdAllocator → IdAllocator × Option ℕ
perform (allocates t) a = allocate_for t a
perform (releases t id small) a = (release_for t id a, none)

-- The set of the identifiers in flight, which is all that a client can tell of an allocator.
abbrev pub held_in : Option IdBitmap → ℕ → Bool
held_in none id = false
held_in (some b) id = in_use b.bits id

abbrev pub held : IdAllocator → Tuple → ℕ → Bool
held a t id = held_in (lookup t a) id

-- One member changed.
abbrev pub IsChanged : (before after : Tuple → ℕ → Bool) → Tuple → ℕ → Bool → Type 0
IsChanged before after t id now =
    (after t id ≡ now)
    × ((j : ℕ) → j ≢ id → after t j ≡ before t j)
    × ((u : Tuple) (j : ℕ) → ¬ (t ≡ u) → after u j ≡ before u j)

-- What a call is to do to that set.
abbrev pub IsCall : Call → (before after : Tuple → ℕ → Bool) → Option ℕ → Type 0
IsCall (allocates t) before after none =
    ((id : ℕ) → id < 256 → before t id ≡ true) × ((u : Tuple) (j : ℕ) → after u j ≡ before u j)
IsCall (allocates t) before after (some id) =
    (id < 256) × (before t id ≡ false) × IsChanged before after t id true
IsCall (releases t id small) before after result = IsChanged before after t id false

abbrev pub AllValid : IdAllocator → Type 0
AllValid a = (t : Tuple) (b : IdBitmap) → lookup t a ≡ some b → IsValid b

empty-IsValid : IsValid empty_bitmap
unfolding used in_use bit_test
empty-IsValid = (refl, omega arith, refl)

bit_test_zero : (k : ℕ) → bit_test 0 k ≡ false
unfolding bit_test
bit_test_zero zero = refl
bit_test_zero (suc k) = bit_test_zero k

word_zero : (i : ℕ) → get_or empty_bitmap.bits i 0 ≡ 0
word_zero zero = refl
word_zero (suc zero) = refl
word_zero (suc (suc zero)) = refl
word_zero (suc (suc (suc zero))) = refl
word_zero (suc (suc (suc (suc i)))) = refl

in_use_empty : (id : ℕ) → in_use empty_bitmap.bits id ≡ false
unfolding in_use
in_use_empty id = rw (word_zero (id / 64)) (bit_test_zero (id % 64))

module _ (t : Tuple) (a : IdAllocator) where
  held-put_self : (b : IdBitmap) (id : ℕ) → held (put t b a) t id ≡ in_use b.bits id
  held-put_self b id = ap (λ o. held_in o id) (lookup-put_self t b a)

  held-put_other :
      (b : IdBitmap) (u : Tuple) (id : ℕ) → ¬ (t ≡ u) → held (put t b a) u id ≡ held a u id
  held-put_other b u id h = ap (λ o. held_in o id) (lookup-put_other u t b a h)

  held-or_empty : (id : ℕ) → in_use (or_empty (lookup t a)).bits id ≡ held a t id
  held-or_empty id = elim (Option-cases (lookup t a)) [
    | inl fresh ↦ rw fresh (in_use_empty id)
    | inr (b, known) ↦ rw known refl
  ]

  or_empty-IsValid : AllValid a → IsValid (or_empty (lookup t a))
  or_empty-IsValid v = elim (Option-cases (lookup t a)) [
    | inl fresh ↦ rw fresh empty-IsValid
    | inr (b, known) ↦ rw known (v t b known)
  ]

  put-AllValid : (b : IdBitmap) → IsValid b → AllValid a → AllValid (put t b a)
  put-AllValid b h v u c e = elim (lookup-put_cases u t b c a e) [
    | inl (same_tuple, same_bitmap) ↦ rw⁻¹ same_bitmap h
    | inr (other, before) ↦ v u c before
  ]

  -- The bitmap of the tuple replaced by one that differs from what is held in one place.
  put-IsChanged :
      (b : IdBitmap) (id : ℕ) (now : Bool)
      → in_use b.bits id ≡ now
      → ((j : ℕ) → j ≢ id → in_use b.bits j ≡ held a t j)
      → IsChanged (held a) (held (put t b a)) t id now
  put-IsChanged b id now here rest = (
    held-put_self b id ∙ here,
    λ j h. held-put_self b j ∙ rest j h,
    λ u j h. held-put_other b u j h,
  )

  -- Replaced by one that holds the same.
  held-put_same :
      (b : IdBitmap)
      → ((j : ℕ) → in_use b.bits j ≡ held a t j)
      → (u : Tuple) (j : ℕ) → held (put t b a) u j ≡ held a u j
  held-put_same b h u j =
      let key : Key Tuple = pair_key in
      elim (Bool-cases (key.same t u)) [
        | inl e ↦ let same : t ≡ u = (key.same_iff t u).0 e in rw⁻¹ same (held-put_self b j ∙ h j)
        | inr e ↦ held-put_other b u j (λ same. cc ((key.same_iff t u).1 same, e))
      ]

  allocate_for-IsCall :
      AllValid a
      → IsCall (allocates t) (held a) (held (allocate_for t a).0) (allocate_for t a).1
        × AllValid (allocate_for t a).0
  unfolding allocate_for
  allocate_for-IsCall v =
      let b : IdBitmap = or_empty (lookup t a) in
      let valid = or_empty-IsValid v in
      elim (allocate_cases b valid) [
        | inl (full, same) ↦ rw same (
          (λ id small. sym (held-or_empty id) ∙ full id small, held-put_same b held-or_empty),
          put-AllValid b valid v,
        )
        | inr (id, c, taken, change) ↦
            let (small, free, here, rest, after) = change in
            rw taken (
              (
                small,
                sym (held-or_empty id) ∙ free,
                put-IsChanged c id true here (λ j h. rest j h ∙ held-or_empty j),
              ),
              put-AllValid c after v,
            )
      ]

  release_for-none : (id : ℕ) → lookup t a ≡ none → release_for t id a ≡ a
  unfolding release_for
  release_for-none id h = rw (release_for, h) refl

  release_for-some :
      (id : ℕ) (b : IdBitmap) → lookup t a ≡ some b → release_for t id a ≡ put t (release b id) a
  unfolding release_for
  release_for-some id b h = rw (release_for, h) refl

  release_for-IsCall :
      (id : ℕ) (small : id < 256)
      → AllValid a
      → IsCall (releases t id small) (held a) (held (release_for t id a)) none
        × AllValid (release_for t id a)
  release_for-IsCall id small v = elim (Option-cases (lookup t a)) [
    | inl fresh ↦
        rw (release_for-none id fresh)
          ((ap (λ o. held_in o id) fresh, λ j h. refl, λ u j h. refl), v)
    | inr (b, known) ↦
        let (gone, rest, after) = release_lem b id (v t b known) small in
        rw (release_for-some id b known) (
          put-IsChanged (release b id) id false gone
              (λ j h. rest j h ∙ sym (ap (λ o. held_in o j) known)),
          put-AllValid (release b id) after v,
        )
  ]

-- On an allocator whose bitmaps are valid, Allocate and Release act on the set of identifiers in
-- flight: Allocate fails only if all 256 of the tuple are in flight, and else adds one that was
-- not; Release takes its identifier out; no other identifier and no other tuple changes, and the
-- bitmaps stay valid.
pub perform-IsCall :
    (call : Call) (a : IdAllocator)
    → AllValid a
    → IsCall call (held a) (held (perform call a).0) (perform call a).1
      × AllValid (perform call a).0
perform-IsCall (allocates t) a v = allocate_for-IsCall t a v
perform-IsCall (releases t id small) a v = release_for-IsCall t a id small v

-- NewIDAllocator
abbrev pub new_id_allocator : IdAllocator
new_id_allocator = []

pub new-AllValid : AllValid new_id_allocator
unfolding lookup
new-AllValid t b h = cc h

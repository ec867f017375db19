-- ===== src/Io/IdAlloc/Allocate.antt =====
-- What allocate and release promise.
use radstorm.Prelude.{
  ℕ, suc, ◌+◌, ◌-◌, ◌%◌, ◌<◌, ◌≡◌, ◌≢◌, refl, sym, ap, ◌∙◌, true, false, none, some, arith, ◌==◌,
  Bool-cases, Option-cases, ==_iff, inl, inr, ◌⊎◌,
}
use radstorm.Io.IdAlloc.{IdBitmap, in_use, mark, unmark, scan, take_id, allocate, release}
use radstorm.Io.IdAlloc.Bits.{
  in_use-mark, in_use-unmark, in_use-mark_other, in_use-unmark_other, length-mark, length-unmark,
}
use radstorm.Io.IdAlloc.Scan.{used, IsValid, used_full, used_one_more, scan-some, scan-none}

-- All 256 identifiers are in use.
abbrev pub IsFull : IdBitmap → Type 0
IsFull b = (id : ℕ) → id < 256 → in_use b.bits id ≡ true

-- `b'` has the identifier in use that `b` has free, and is `b` for the others.
abbrev pub IsTaken : IdBitmap → ℕ → IdBitmap → Type 0
IsTaken b id b' =
    (id < 256)
    × (in_use b.bits id ≡ false)
    × (in_use b'.bits id ≡ true)
    × ((j : ℕ) → j ≢ id → in_use b'.bits j ≡ in_use b.bits j)
    × IsValid b'

scan-none-IsFull : (b : IdBitmap) → b.next < 256 → scan 256 b.next b.bits ≡ none → IsFull b
scan-none-IsFull b small h id below =
    let i = (id + (256 - b.next)) % 256 in
    let place : (b.next + i) % 256 ≡ id = omega arith in
    rw place at (scan-none 256 b.next b.bits i h (omega arith) (omega arith) (omega arith))

take_id-IsTaken :
    (b : IdBitmap) (id : ℕ)
    → IsValid b
    → id < 256
    → in_use b.bits id ≡ false
    → IsTaken b id (record { bits = mark b.bits id; count = suc b.count; next = (id + 1) % 256 })
take_id-IsTaken b id valid small free =
    let after = in_use-mark b.bits id valid.0 small in
    let others = λ (j : ℕ) (h : j ≢ id). in_use-mark_other b.bits id j valid.0 small h in
    (
      small,
      free,
      after,
      others,
      (
        length-mark b.bits id ∙ valid.0,
        omega arith,
        ap (λ n. suc n) valid.2
            ∙ sym (used_one_more b.bits (mark b.bits id) id 256 small free after others),
      ),
    )

-- From a valid bitmap allocate hands out no identifier only if all 256 are in use, and then leaves
-- the bitmap as it is; otherwise it hands out one that was free and now is in use, changes no
-- other and leaves the bitmap valid.
pub allocate_cases :
    (b : IdBitmap)
    → IsValid b
    → (IsFull b × (allocate b ≡ (b, none)))
      ⊎ ((id : ℕ) × (b' : IdBitmap) × (allocate b ≡ (b', some id)) × IsTaken b id b')
unfolding allocate take_id
allocate_cases b valid = elim (Bool-cases (b.count == 256)) [
  | inl e ↦
      let full : used b.bits 256 ≡ 256 = sym valid.2 ∙ (==_iff b.count 256).0 e in
      inl (used_full b.bits 256 full, rw e refl)
  | inr e ↦ elim (Option-cases (scan 256 b.next b.bits)) [
    | inl s ↦ inl (scan-none-IsFull b valid.1 s, rw (e, s) refl)
    | inr (id, s) ↦
        let (small, free) = scan-some 256 b.next b.bits id s in
        inr (id, _, rw (e, s) refl, take_id-IsTaken b id valid small free)
  ]
]

-- On a valid bitmap release frees the identifier, changes no other and keeps the bitmap valid,
-- also where the identifier was not in use.
pub release_lem :
    (b : IdBitmap) (id : ℕ)
    → IsValid b
    → id < 256
    → (in_use (release b id).bits id ≡ false)
      × ((j : ℕ) → j ≢ id → in_use (release b id).bits j ≡ in_use b.bits j)
      × IsValid (release b id)
unfolding release
release_lem b id valid small = elim (Bool-cases (in_use b.bits id)) [
  | inr e ↦ rw e (e, λ j h. refl, valid)
  | inl e ↦
      let after = in_use-unmark b.bits id valid.0 small in
      let others = λ (j : ℕ) (h : j ≢ id). in_use-unmark_other b.bits id j valid.0 small h in
      let fewer =
        used_one_more (unmark b.bits id) b.bits id 256 small after e (λ j h. sym (others j h)) in
      rw e
        (after, others, (length-unmark b.bits id ∙ valid.0, valid.1, omega (arith, fewer, valid.2)))
]

-- ===== src/Collector/Distribution/Sorted.antt =====
-- What sorting gives: the same samples, in ascending order.
use radstorm.Prelude.{
  ℕ, zero, suc, ◌≤◌, ◌<◌, ◌≡◌, refl, ap, inl, inr, List, [], ◌∷◌, length, get_or, All, Bool-cases,
  arith,
}
use radstorm.Prelude.Int.{ℤ, ◌≤ℤ◌, leb_ℤ, leb_ℤ→≤ℤ, leb_ℤ_false}
use radstorm.Collector.Distribution.{insert_sample, sort_samples}

-- Each sample is at most every later one.
abbrev pub IsSorted : List ℤ → Type 0
IsSorted [] = Unit {0}
IsSorted (x ∷ xs) = All (λ y. x ≤ℤ y) xs × IsSorted xs

pub All-weaken : {P Q : ℤ → Type 0} (xs : List ℤ) → ((y : ℤ) → P y → Q y) → All P xs → All Q xs
All-weaken [] f h = tt
All-weaken (x ∷ xs) f h = (f x h.0, All-weaken xs f h.1)

All-insert_sample :
    (P : ℤ → Type 0) (x : ℤ) (ys : List ℤ) → P x → All P ys → All P (insert_sample x ys)
unfolding insert_sample
All-insert_sample P x [] p h = (p, tt)
All-insert_sample P x (y ∷ ys) p h = elim (Bool-cases (leb_ℤ x y)) [
  | inl e ↦ rw e (p, h)
  | inr e ↦ rw e (h.0, All-insert_sample P x ys p h.1)
]

All-of_insert_sample :
    (P : ℤ → Type 0) (x : ℤ) (ys : List ℤ) → All P (insert_sample x ys) → P x × All P ys
unfolding insert_sample
All-of_insert_sample P x [] h = h
All-of_insert_sample P x (y ∷ ys) h = elim (Bool-cases (leb_ℤ x y)) [
  | inl e ↦ (rw e at h)
  | inr e ↦
      let kept : P y × All P (insert_sample x ys) = rw e at h in
      let (p, rest) = All-of_insert_sample P x ys kept.1 in (p, (kept.0, rest))
]

-- Sorting keeps the samples.
pub All-sort_samples : (P : ℤ → Type 0) (xs : List ℤ) → All P xs → All P (sort_samples xs)
unfolding sort_samples
All-sort_samples P [] h = tt
All-sort_samples P (x ∷ xs) h =
    All-insert_sample P x (sort_samples xs) h.0 (All-sort_samples P xs h.1)

pub All-of_sort_samples : (P : ℤ → Type 0) (xs : List ℤ) → All P (sort_samples xs) → All P xs
unfolding sort_samples
All-of_sort_samples P [] h = tt
All-of_sort_samples P (x ∷ xs) h =
    let (p, rest) = All-of_insert_sample P x (sort_samples xs) h in
    (p, All-of_sort_samples P xs rest)

insert_sample-IsSorted : (x : ℤ) (ys : List ℤ) → IsSorted ys → IsSorted (insert_sample x ys)
unfolding insert_sample
insert_sample-IsSorted x [] s = (tt, tt)
insert_sample-IsSorted x (y ∷ ys) s = elim (Bool-cases (leb_ℤ x y)) [
  | inl e ↦
      let first = leb_ℤ→≤ℤ x y e in
      rw e ((first, All-weaken {P = λ z. y ≤ℤ z} {Q = λ z. x ≤ℤ z} ys (λ z h. omega arith) s.0), s)
  | inr e ↦ rw e (
    All-insert_sample (λ z. y ≤ℤ z) x ys (leb_ℤ_false x y e) s.0,
    insert_sample-IsSorted x ys s.1,
  )
]

pub sort_samples-IsSorted : (xs : List ℤ) → IsSorted (sort_samples xs)
unfolding sort_samples
sort_samples-IsSorted [] = tt
sort_samples-IsSorted (x ∷ xs) =
    insert_sample-IsSorted x (sort_samples xs) (sort_samples-IsSorted xs)

insert_sample-length : (x : ℤ) (ys : List ℤ) → length (insert_sample x ys) ≡ suc (length ys)
unfolding insert_sample
insert_sample-length x [] = refl
insert_sample-length x (y ∷ ys) = elim (Bool-cases (leb_ℤ x y)) [
  | inl e ↦ rw e refl
  | inr e ↦ rw e (ap suc (insert_sample-length x ys))
]

pub length-sort_samples : (xs : List ℤ) → length (sort_samples xs) ≡ length xs
unfolding sort_samples
length-sort_samples [] = refl
length-sort_samples (x ∷ xs) =
    omega (arith, insert_sample-length x (sort_samples xs), length-sort_samples xs)

pub All-get_or :
    (P : ℤ → Type 0) (xs : List ℤ) (i : ℕ) (d : ℤ) → i < length xs → All P xs → P (get_or xs i d)
All-get_or P [] i d small h = absurd (omega arith)
All-get_or P (x ∷ xs) zero d small h = h.0
All-get_or P (x ∷ xs) (suc i) d small h = All-get_or P xs i d (omega arith) h.1

-- In a sorted list a later place holds no smaller sample.
pub get_or_mono :
    (xs : List ℤ) (i j : ℕ) (d d' : ℤ)
    → IsSorted xs
    → i ≤ j
    → j < length xs
    → get_or xs i d ≤ℤ get_or xs j d'
get_or_mono [] i j d d' s h k = absurd (omega arith)
get_or_mono (x ∷ xs) zero zero d d' s h k = omega arith
get_or_mono (x ∷ xs) zero (suc j) d d' s h k = All-get_or (λ y. x ≤ℤ y) xs j d' (omega arith) s.0
get_or_mono (x ∷ xs) (suc i) zero d d' s h k = absurd (omega arith)
get_or_mono (x ∷ xs) (suc i) (suc j) d d' s h k =
    get_or_mono xs i j d d' s.1 (omega arith) (omega arith)

-- No sample is greater than the one at the last place.
pub below_last :
    (xs : List ℤ) (n : ℕ) (d : ℤ)
    → length xs ≡ suc n
    → IsSorted xs
    → All (λ y. y ≤ℤ get_or xs n d) xs
below_last [] n d e s = absurd (omega arith)
below_last (x ∷ []) zero d e s = (omega arith, tt)
below_last (x ∷ y ∷ ys) zero d e s = absurd (omega arith)
below_last (x ∷ xs) (suc n) d e s = (
  get_or_mono (x ∷ xs) 0 (suc n) d d s (omega arith) (omega arith),
  below_last xs n d (omega arith) s.1,
)

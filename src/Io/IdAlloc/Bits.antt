-- ===== src/Io/IdAlloc/Bits.antt =====
-- The bits of one word, and the identifiers of the four words.
use radstorm.Prelude.{
  ℕ, zero, suc, ◌+◌, ◌*◌, ◌/◌, ◌%◌, ◌<◌, ◌≡◌, ◌≢◌, refl, ap, true, false, List, [], ◌∷◌, get_or,
  set, length, length-set, arith, ◌==◌, Bool-cases, ==_iff, inl, inr,
}
use radstorm.Io.IdAlloc.{bit_test, bit_set, bit_clear, in_use, mark, unmark}

half_digits : (v b : ℕ) → b < 2 → (v * 2 + b) / 2 ≡ v
half_digits v b h = omega arith

low_digit : (v b : ℕ) → b < 2 → (v * 2 + b) % 2 ≡ b
low_digit v b h = omega arith

half_even : (v : ℕ) → v * 2 % 2 ≡ 0
half_even v = omega arith

half_whole : (v : ℕ) → v * 2 / 2 ≡ v
half_whole v = omega arith

bit_test-bit_set : (w k : ℕ) → bit_test (bit_set w k) k ≡ true
unfolding bit_test bit_set
bit_test-bit_set w zero = rw (low_digit (w / 2) 1 (omega arith)) refl
bit_test-bit_set w (suc k) =
    rw (half_digits (bit_set (w / 2) k) (w % 2) (omega arith)) (bit_test-bit_set (w / 2) k)

bit_test-bit_clear : (w k : ℕ) → bit_test (bit_clear w k) k ≡ false
unfolding bit_test bit_clear
bit_test-bit_clear w zero = rw (half_even (w / 2)) refl
bit_test-bit_clear w (suc k) =
    rw (half_digits (bit_clear (w / 2) k) (w % 2) (omega arith)) (bit_test-bit_clear (w / 2) k)

bit_test-bit_set_other : (w j k : ℕ) → j ≢ k → bit_test (bit_set w k) j ≡ bit_test w j
unfolding bit_test bit_set
bit_test-bit_set_other w zero zero h = absurd (h refl)
bit_test-bit_set_other w zero (suc k) h =
    rw (low_digit (bit_set (w / 2) k) (w % 2) (omega arith)) refl
bit_test-bit_set_other w (suc j) zero h = rw (half_digits (w / 2) 1 (omega arith)) refl
bit_test-bit_set_other w (suc j) (suc k) h =
    rw (half_digits (bit_set (w / 2) k) (w % 2) (omega arith))
      (bit_test-bit_set_other (w / 2) j k (λ e. h (ap (λ n. suc n) e)))

bit_test-bit_clear_other : (w j k : ℕ) → j ≢ k → bit_test (bit_clear w k) j ≡ bit_test w j
unfolding bit_test bit_clear
bit_test-bit_clear_other w zero zero h = absurd (h refl)
bit_test-bit_clear_other w zero (suc k) h =
    rw (low_digit (bit_clear (w / 2) k) (w % 2) (omega arith)) refl
bit_test-bit_clear_other w (suc j) zero h = rw (half_whole (w / 2)) refl
bit_test-bit_clear_other w (suc j) (suc k) h =
    rw (half_digits (bit_clear (w / 2) k) (w % 2) (omega arith))
      (bit_test-bit_clear_other (w / 2) j k (λ e. h (ap (λ n. suc n) e)))

get_or-set : (xs : List ℕ) (i v : ℕ) → i < length xs → get_or (set xs i v) i 0 ≡ v
get_or-set [] i v h = absurd (omega arith)
get_or-set (x ∷ xs) zero v h = refl
get_or-set (x ∷ xs) (suc i) v h = get_or-set xs i v (omega arith)

get_or-set_other : (xs : List ℕ) (i j v : ℕ) → j ≢ i → get_or (set xs i v) j 0 ≡ get_or xs j 0
get_or-set_other [] i j v h = refl
get_or-set_other (x ∷ xs) zero zero v h = absurd (h refl)
get_or-set_other (x ∷ xs) zero (suc j) v h = refl
get_or-set_other (x ∷ xs) (suc i) zero v h = refl
get_or-set_other (x ∷ xs) (suc i) (suc j) v h =
    get_or-set_other xs i j v (λ e. h (ap (λ n. suc n) e))

pub in_use-mark :
    (bits : List ℕ) (id : ℕ) → length bits ≡ 4 → id < 256 → in_use (mark bits id) id ≡ true
unfolding in_use mark
in_use-mark bits id size small =
    rw (get_or-set bits (id / 64) (bit_set (get_or bits (id / 64) 0) (id % 64)) (omega arith))
      (bit_test-bit_set (get_or bits (id / 64) 0) (id % 64))

pub in_use-unmark :
    (bits : List ℕ) (id : ℕ) → length bits ≡ 4 → id < 256 → in_use (unmark bits id) id ≡ false
unfolding in_use unmark
in_use-unmark bits id size small =
    rw (get_or-set bits (id / 64) (bit_clear (get_or bits (id / 64) 0) (id % 64)) (omega arith))
      (bit_test-bit_clear (get_or bits (id / 64) 0) (id % 64))

digits_differ : (j id : ℕ) → j ≢ id → j / 64 ≡ id / 64 → j % 64 ≢ id % 64
digits_differ j id h e r = h (omega arith)

-- Marking an identifier leaves the others as they are.
pub in_use-mark_other :
    (bits : List ℕ) (id j : ℕ)
    → length bits ≡ 4
    → id < 256
    → j ≢ id
    → in_use (mark bits id) j ≡ in_use bits j
unfolding in_use mark
in_use-mark_other bits id j size small h =
    let w = get_or bits (id / 64) 0 in
    elim (Bool-cases (j / 64 == id / 64)) [
      | inl e ↦
          let same = (==_iff (j / 64) (id / 64)).0 e in
          rw (same, get_or-set bits (id / 64) (bit_set w (id % 64)) (omega arith))
            (bit_test-bit_set_other w (j % 64) (id % 64) (digits_differ j id h same))
      | inr e ↦
          rw
            (get_or-set_other bits (id / 64) (j / 64) (bit_set w (id % 64))
              (λ same. cc ((==_iff (j / 64) (id / 64)).1 same, e)))
            refl
    ]

pub in_use-unmark_other :
    (bits : List ℕ) (id j : ℕ)
    → length bits ≡ 4
    → id < 256
    → j ≢ id
    → in_use (unmark bits id) j ≡ in_use bits j
unfolding in_use unmark
in_use-unmark_other bits id j size small h =
    let w = get_or bits (id / 64) 0 in
    elim (Bool-cases (j / 64 == id / 64)) [
      | inl e ↦
          let same = (==_iff (j / 64) (id / 64)).0 e in
          rw (same, get_or-set bits (id / 64) (bit_clear w (id % 64)) (omega arith))
            (bit_test-bit_clear_other w (j % 64) (id % 64) (digits_differ j id h same))
      | inr e ↦
          rw
            (get_or-set_other bits (id / 64) (j / 64) (bit_clear w (id % 64))
              (λ same. cc ((==_iff (j / 64) (id / 64)).1 same, e)))
            refl
    ]

pub length-mark : (bits : List ℕ) (id : ℕ) → length (mark bits id) ≡ length bits
unfolding mark
length-mark bits id = length-set bits (id / 64) _

pub length-unmark : (bits : List ℕ) (id : ℕ) → length (unmark bits id) ≡ length bits
unfolding unmark
length-unmark bits id = length-set bits (id / 64) _

-- ===== src/Prelude/Bits.antt =====
-- Exclusive or on bytes: its two laws, checked over all pairs of bytes.
use Prim.Native.Nat.{ℕ, zero, suc, ◌<◌, bit_or, bit_xor}
use mathlib.Core.Path.{◌≡◌, refl}
use mathlib.Core.Bool.{Bool, true, not, ◌&&◌, ◌||◌}
use native.Mathlib.Omega.{arith}
use radstorm.Prelude.Tests.{◌==◌, ==_iff, ltb, ltb→lt}

-- The test holds of the numbers before `n`.
every_before : (ℕ → Bool) → ℕ → Bool
every_before test zero = true
every_before test (suc last) = every_before test last && test last

every_before-at :
    (test : ℕ → Bool) (n : ℕ) → every_before test n ≡ true → (k : ℕ) → k < n → test k ≡ true
unfolding every_before
every_before-at test zero whole k small = absurd (omega arith)
every_before-at test (suc last) whole k small =
    let earlier : every_before test last ≡ true → k < last → test k ≡ true =
      λ e less. every_before-at test last e k less in
    ground (arith, earlier)

abbrev on_bytes : (ℕ → ℕ → Bool) → Bool
on_bytes p = every_before (λ a. every_before (p a) 256) 256

on_bytes_sound :
    (p : ℕ → ℕ → Bool) → on_bytes p ≡ true → (a b : ℕ) → a < 256 → b < 256 → p a b ≡ true
on_bytes_sound p h a b ha hb =
    every_before-at (p a) 256 (every_before-at (λ x. every_before (p x) 256) 256 h a ha) b hb

xor_table : on_bytes (λ a b. bit_xor (bit_xor a b) b == a) ≡ true
unfolding every_before
xor_table = refl

xor_range : on_bytes (λ a b. ltb (bit_xor a b) 256) ≡ true
unfolding every_before
xor_range = refl

pub bit_xor_cancel : (a b : ℕ) → a < 256 → b < 256 → bit_xor (bit_xor a b) b ≡ a
bit_xor_cancel a b ha hb =
    (==_iff _ a).0 (on_bytes_sound (λ a b. bit_xor (bit_xor a b) b == a) xor_table a b ha hb)

pub bit_xor_lt : (a b : ℕ) → a < 256 → b < 256 → bit_xor a b < 256
bit_xor_lt a b ha hb =
    ltb→lt _ _ (on_bytes_sound (λ a b. ltb (bit_xor a b) 256) xor_range a b ha hb)

xor_zero_table : on_bytes (λ a b. not (bit_xor a b == 0) || a == b) ≡ true
unfolding every_before
xor_zero_table = refl

or_zero_table : on_bytes (λ a b. not (bit_or a b == 0) || (a == 0 && b == 0)) ≡ true
unfolding every_before
or_zero_table = refl

or_range : on_bytes (λ a b. ltb (bit_or a b) 256) ≡ true
unfolding every_before
or_range = refl

self_table : every_before (λ a. bit_xor a a == 0) 256 ≡ true
unfolding every_before
self_table = refl

pub bit_xor_self : (a : ℕ) → a < 256 → bit_xor a a ≡ 0
bit_xor_self a h = (==_iff _ 0).0 (every_before-at (λ a. bit_xor a a == 0) 256 self_table a h)

pub bit_xor_zero : (a b : ℕ) → a < 256 → b < 256 → bit_xor a b ≡ 0 → a ≡ b
bit_xor_zero a b ha hb e =
    ground
      (arith, on_bytes_sound (λ a b. not (bit_xor a b == 0) || a == b) xor_zero_table a b ha hb)

pub bit_or_zero : (a b : ℕ) → a < 256 → b < 256 → bit_or a b ≡ 0 → (a ≡ 0) × (b ≡ 0)
bit_or_zero a b ha hb e = ground (
  arith,
  on_bytes_sound (λ a b. not (bit_or a b == 0) || (a == 0 && b == 0)) or_zero_table a b ha hb,
)

pub bit_or_lt : (a b : ℕ) → a < 256 → b < 256 → bit_or a b < 256
bit_or_lt a b ha hb = ltb→lt _ _ (on_bytes_sound (λ a b. ltb (bit_or a b) 256) or_range a b ha hb)

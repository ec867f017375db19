-- ===== src/Prelude/Int.antt =====
-- The signed numbers of int64 fields that hold differences of times. `negsuc n` is -(n + 1).
use Prim.Native.Nat.{ℕ, zero, suc, ◌+◌, ◌-◌, ◌≤◌}
use mathlib.Core.Path.{◌≡◌}
use mathlib.Core.Bool.{Bool, true, false}
use native.Mathlib.Omega.{arith}
use radstorm.Prelude.Tests.{leb, if◌then◌else◌}

pub data ℤ : Type 0 where
  pos : ℕ → ℤ
  negsuc : ℕ → ℤ

-- How far a number lies above zero, and how far below.
abbrev pub above : ℤ → ℕ
above (pos n) = n
above (negsuc n) = 0

abbrev pub under : ℤ → ℕ
under (pos n) = 0
under (negsuc n) = suc n

infix 50 ◌≤ℤ◌
abbrev pub ◌≤ℤ◌ : ℤ → ℤ → Type 0
x ≤ℤ y = above x + under y ≤ above y + under x

abbrev pub leb_ℤ : ℤ → ℤ → Bool
leb_ℤ x y = leb (above x + under y) (above y + under x)

abbrev pub opposite : ℕ → ℤ
opposite zero = pos 0
opposite (suc n) = negsuc n

-- The difference of two numbers that are not negative.
abbrev pub difference_ℤ : ℕ → ℕ → ℤ
difference_ℤ m n = if leb n m then pos (m - n) else negsuc (n - m - 1)

pub leb_ℤ→≤ℤ : (x y : ℤ) → leb_ℤ x y ≡ true → x ≤ℤ y
leb_ℤ→≤ℤ x y h = ground arith

pub leb_ℤ_false : (x y : ℤ) → leb_ℤ x y ≡ false → y ≤ℤ x
leb_ℤ_false x y h = ground arith

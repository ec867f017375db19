-- ===== src/Prelude/Maps.antt =====
-- Go's maps, as association lists over a key type with a Boolean equality.
use Prim.Native.Nat.{ℕ}
use mathlib.Core.Path.{◌≡◌, refl, sym, ◌∙◌}
use mathlib.Core.Logic.{◌↔◌, ◌⊎◌, inl, inr}
use mathlib.Core.Bool.{Bool, true, false, ◌&&◌}
use mathlib.Core.List.{List, [], ◌∷◌}
use mathlib.Core.Option.{Option, none, some}
use native.Mathlib.Omega.{arith}
use radstorm.Prelude.Tests.{◌==◌, ==_iff, if◌then◌else◌, Bool-cases}

pub record Key (K : Type 0) : Type 0 where
  pub same : K → K → Bool
  pub same_iff : (j k : K) → (same j k ≡ true) ↔ (j ≡ k)

instance abbrev pub number_key : Key ℕ
number_key = record { same = ◌==◌; same_iff = ==_iff }

abbrev pub Map : Type 0 → Type 0 → Type 0
Map K V = List (K × V)

module _ {K : Type 0} ⦃key : Key K⦄ where
  pub same_refl : (k : K) → key.same k k ≡ true
  same_refl k = (key.same_iff k k).1 refl

  pub same_false : (j k : K) → ¬ (j ≡ k) → key.same j k ≡ false
  same_false j k h = elim (Bool-cases (key.same j k)) [
    | inl e ↦ absurd (h ((key.same_iff j k).0 e))
    | inr e ↦ e
  ]

module _ {K V : Type 0} ⦃key : Key K⦄ where
  -- v, ok := m[k]
  unfoldable pub lookup : K → Map K V → Option V
  lookup k [] = none
  lookup k ((j, v) ∷ m) = if key.same j k then some v else lookup k m

  -- delete(m, k)
  unfoldable pub remove : K → Map K V → Map K V
  remove k [] = []
  remove k ((j, v) ∷ m) = let rest = remove k m in if key.same j k then rest else (j, v) ∷ rest

  -- m[k] = v
  unfoldable pub put : K → V → Map K V → Map K V
  unfolding remove
  put k v m = (k, v) ∷ remove k m

  pub lookup-remove :
      (j k : K) (m : Map K V) → lookup j (remove k m) ≡ (if key.same k j then none else lookup j m)
  unfolding lookup remove
  lookup-remove j k [] = elim (Bool-cases (key.same k j)) [ inl e ↦ rw e | inr e ↦ rw e ]
  lookup-remove j k ((i, v) ∷ m) =
      ground (arith, key.same_iff i k, key.same_iff k j, key.same_iff i j, lookup-remove j k m)

  pub lookup-put :
      (j k : K) (v : V) (m : Map K V)
      → lookup j (put k v m) ≡ (if key.same k j then some v else lookup j m)
  unfolding lookup put
  lookup-put j k v m = ground (arith, lookup-remove j k m)

  pub lookup-put_self : (k : K) (v : V) (m : Map K V) → lookup k (put k v m) ≡ some v
  lookup-put_self k v m = lookup-put k k v m ∙ rw (same_refl k)

  pub lookup-put_other :
      (j k : K) (v : V) (m : Map K V) → ¬ (k ≡ j) → lookup j (put k v m) ≡ lookup j m
  lookup-put_other j k v m h = lookup-put j k v m ∙ rw (same_false k j h)

  pub lookup-remove_self : (k : K) (m : Map K V) → lookup k (remove k m) ≡ none
  lookup-remove_self k m = lookup-remove k k m ∙ rw (same_refl k)

  pub lookup-remove_other : (j k : K) (m : Map K V) → ¬ (k ≡ j) → lookup j (remove k m) ≡ lookup j m
  lookup-remove_other j k m h = lookup-remove j k m ∙ rw (same_false k j h)

module _ {K V : Type 0} ⦃key : Key K⦄ where
  -- What a map with an entry written, or one taken out, holds.
  pub lookup-put_cases :
      (j k : K) (v w : V) (m : Map K V)
      → lookup j (put k v m) ≡ some w
      → ((k ≡ j) × (v ≡ w)) ⊎ ((¬ (k ≡ j)) × (lookup j m ≡ some w))
  lookup-put_cases j k v w m h = elim (Bool-cases (key.same k j)) [
    | inl e ↦
        let same : k ≡ j = (key.same_iff k j).0 e in
        inl (same, cc (rw e at (lookup-put j k v m), h))
    | inr e ↦
        inr (λ same. cc ((key.same_iff k j).1 same, e), sym (rw e at (lookup-put j k v m)) ∙ h)
  ]

  pub lookup-remove-some :
      (j k : K) (w : V) (m : Map K V)
      → lookup j (remove k m) ≡ some w
      → (¬ (k ≡ j)) × (lookup j m ≡ some w)
  lookup-remove-some j k w m h = elim (Bool-cases (key.same k j)) [
    | inl e ↦ cc (rw e at (lookup-remove j k m), h)
    | inr e ↦ (λ same. cc ((key.same_iff k j).1 same, e), sym (rw e at (lookup-remove j k m)) ∙ h)
  ]

-- Keys that are texts, and keys of two parts.
unfoldable pub same_text : List ℕ → List ℕ → Bool
same_text [] [] = true
same_text (a ∷ s) (b ∷ t) = a == b && same_text s t
same_text s t = false

pub same_text_iff : (s t : List ℕ) → (same_text s t ≡ true) ↔ (s ≡ t)
unfolding same_text
same_text_iff [] [] = (λ _. refl, λ _. refl)
same_text_iff [] (b ∷ t) = (λ e. cc, λ e. cc)
same_text_iff (a ∷ s) [] = (λ e. cc, λ e. cc)
same_text_iff (a ∷ s) (b ∷ t) = ground (arith, ==_iff a b, same_text_iff s t)

instance abbrev pub text_key : Key (List ℕ)
unfolding same_text
text_key = record { same = same_text; same_iff = same_text_iff }

pub both_iff :
    {J K : Type 0} (f : Key J) (g : Key K) (p q : J × K)
    → ((f.same p.0 q.0 && g.same p.1 q.1) ≡ true) ↔ (p ≡ q)
both_iff f g (a, b) (c, d) = ground (arith, f.same_iff a c, g.same_iff b d)

instance abbrev pub pair_key : {J K : Type 0} ⦃f : Key J⦄ ⦃g : Key K⦄ → Key (J × K)
pair_key ⦃f⦄ ⦃g⦄ = record {
  same = λ p q. f.same p.0 q.0 && g.same p.1 q.1;
  same_iff = both_iff f g;
}

-- ===== src/Subscriber/Pool/Named.antt =====
-- The names of the subscribers that NewPool makes.
use radstorm.Prelude.{
  ℕ, suc, ◌%◌, ◌<◌, ◌≤◌, ◌≡◌, ◌≢◌, ◌⊎◌, refl, sym, subst, ◌∙◌, true, false, List, [], ◌∷◌, ◌++◌,
  inl, inr, arith, leb, length, get_or, Bool-cases,
}
use native.Mathlib.Nat.{mod-eq_of_lt}
use radstorm.Prelude.Int.{ℤ}
use radstorm.Prelude.Maps.{text_key, number_key}
use radstorm.Subscriber.Pool.{
  Credential, Subscriber, Texts, subscriber_at, format_recycled_username,
}
use radstorm.Subscriber.Pool.Recycled.{
  IsPlain, format_recycled_username_injective, format_recycled_username_not_plain,
}

-- Credentials with names that differ, are not empty and have no plus sign.
pub record AreProper (cred : Credential) (creds : List Credential) : Type 0 where
  pub distinct :
      (i j : ℕ)
      → i < length (cred ∷ creds)
      → j < length (cred ∷ creds)
      → (get_or (cred ∷ creds) i cred).username ≡ (get_or (cred ∷ creds) j cred).username
      → i ≡ j
  pub nonempty : (i : ℕ) → (get_or (cred ∷ creds) i cred).username ≢ []
  pub plain : (i : ℕ) → IsPlain (get_or (cred ∷ creds) i cred).username

not_empty : (x s : List ℕ) (c : ℕ) → x ++ c ∷ s ≢ []
not_empty [] s c = λ e. cc e
not_empty (d ∷ x) s c = λ e. cc e

module _ (texts : Texts) (cred : Credential) (creds : List Credential) (pap_pct pppoe_pct : ℤ) where
  abbrev made : ℕ → Subscriber
  made i = subscriber_at texts cred creds pap_pct pppoe_pct i

  abbrev name_of : ℕ → List ℕ
  name_of i = (get_or (cred ∷ creds) i cred).username

  name_own : (i : ℕ) → i < suc (length creds) → (made i).credential.username ≡ name_of i
  unfolding subscriber_at
  name_own i h =
      let own : leb (suc (length creds)) i ≡ false = ground (arith, h) in
      rw (own, mod-eq_of_lt h) refl

  name_recycled :
      (i : ℕ)
      → suc (length creds) ≤ i
      → (made i).credential.username ≡ format_recycled_username (name_of (i % suc (length creds))) i
  unfolding subscriber_at
  name_recycled i h =
      let recycled : leb (suc (length creds)) i ≡ true = ground (arith, h) in rw recycled refl

  abbrev NameCase : ℕ → Type 0
  NameCase i =
      ((i < suc (length creds)) × ((made i).credential.username ≡ name_of i))
      ⊎ ((x : List ℕ) × ((made i).credential.username ≡ format_recycled_username x i))

  name_cases : (i : ℕ) → NameCase i
  name_cases i = elim (Bool-cases (leb (suc (length creds)) i)) [
    | inl e ↦ inr (name_of (i % suc (length creds)), name_recycled i (ground arith))
    | inr e ↦ let own : i < suc (length creds) = ground arith in inl (own, name_own i own)
  ]

  cases_apart :
      (i j : ℕ)
      → AreProper cred creds
      → i < 1000000000000
      → j < 1000000000000
      → (made i).credential.username ≡ (made j).credential.username
      → NameCase i
      → NameCase j
      → i ≡ j
  cases_apart i j proper hi hj e (inl (h, p)) (inl (k, q)) = proper.distinct i j h k (sym p ∙ e ∙ q)
  cases_apart i j proper hi hj e (inl (h, p)) (inr (y, q)) =
      absurd
        (format_recycled_username_not_plain y j (subst IsPlain (sym p ∙ e ∙ q) (proper.plain i)))
  cases_apart i j proper hi hj e (inr (x, p)) (inl (k, q)) =
      absurd (
        format_recycled_username_not_plain x i (subst IsPlain (sym q ∙ sym e ∙ p) (proper.plain j)))
  cases_apart i j proper hi hj e (inr (x, p)) (inr (y, q)) =
      let (same, found) = format_recycled_username_injective x y i j hi hj (sym p ∙ e ∙ q) in found

  pub made_username_injective :
      (i j : ℕ)
      → AreProper cred creds
      → i < 1000000000000
      → j < 1000000000000
      → (made i).credential.username ≡ (made j).credential.username
      → i ≡ j
  made_username_injective i j proper hi hj e =
      cases_apart i j proper hi hj e (name_cases i) (name_cases j)

  pub made_username_nonempty : (i : ℕ) → AreProper cred creds → (made i).credential.username ≢ []
  unfolding format_recycled_username
  made_username_nonempty i proper = elim (name_cases i) [
    | inl (h, p) ↦ λ e. proper.nonempty i (sym p ∙ e)
    | inr (x, p) ↦ λ e. not_empty x _ 43 (sym p ∙ e)
  ]

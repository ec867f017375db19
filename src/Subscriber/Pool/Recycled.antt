-- ===== src/Subscriber/Pool/Recycled.antt =====
-- The names that formatRecycledUsername makes.
use radstorm.Prelude.{
  ℕ, zero, suc, ◌+◌, ◌-◌, ◌*◌, ◌/◌, ◌%◌, ◌^◌, ◌<◌, ◌≡◌, ◌≢◌, refl, sym, subst, ap, All, ◌∙◌, List,
  [], ◌∷◌, ◌++◌, ◌==◌, ==_iff, if◌then◌else◌, Bool-cases, inl, inr, arith,
}
use radstorm.Subscriber.Pool.{digits_loop, format_recycled_username}

-- The number that decimal digits write behind a number already read.
abbrev read : ℕ → List ℕ → ℕ
read n [] = n
read n (c ∷ s) = read (n * 10 + (c - 48)) s

tenfold : (room : ℕ) → 10 ^ suc room ≡ 10 * 10 ^ room
tenfold room = grind arith

read-digits_loop :
    (room idx : ℕ) (written : List ℕ)
    → idx < 10 ^ room
    → read 0 (digits_loop room idx written) ≡ read idx written
unfolding digits_loop
read-digits_loop zero idx written h =
    let none_left : 0 ≡ idx = omega arith in ap (λ n. read n written) none_left
read-digits_loop (suc room) idx written h = elim (Bool-cases (idx == 0)) [
  | inl e ↦
      let none_left : 0 ≡ idx = sym ((==_iff idx 0).0 e) in
      rw e (ap (λ n. read n written) none_left)
  | inr e ↦
      let smaller : idx / 10 < 10 ^ room = omega (arith, tenfold room) in
      let same : idx / 10 * 10 + (48 + idx % 10 - 48) ≡ idx = omega arith in
      rw e (
        read-digits_loop room (idx / 10) ((48 + idx % 10) ∷ written) smaller
        ∙ ap (λ n. read n written) same)
]

-- No byte of a text is the plus sign.
abbrev pub IsPlain : List ℕ → Type 0
IsPlain s = All (λ c. c ≢ 43) s

digits_loop-IsPlain :
    (room idx : ℕ) (written : List ℕ) → IsPlain written → IsPlain (digits_loop room idx written)
unfolding digits_loop
digits_loop-IsPlain zero idx written h = h
digits_loop-IsPlain (suc room) idx written h = elim (Bool-cases (idx == 0)) [
  | inl e ↦ rw e h
  | inr e ↦ rw e (
      digits_loop-IsPlain room (idx / 10) ((48 + idx % 10) ∷ written)
        (λ same. absurd (omega (arith, same)), h))
]

-- The digits that are written behind the plus sign.
abbrev suffix : ℕ → List ℕ
suffix idx = if idx == 0 then 48 ∷ [] else digits_loop 12 idx []

suffix-IsPlain : (idx : ℕ) → IsPlain (suffix idx)
suffix-IsPlain idx = elim (Bool-cases (idx == 0)) [
  | inl e ↦ rw e (λ same. absurd (omega (arith, same)), tt)
  | inr e ↦ rw e (digits_loop-IsPlain 12 idx [] tt)
]

read-suffix : (idx : ℕ) → idx < 1000000000000 → read 0 (suffix idx) ≡ idx
read-suffix idx h = elim (Bool-cases (idx == 0)) [
  | inl e ↦ rw e (sym ((==_iff idx 0).0 e))
  | inr e ↦ rw e (read-digits_loop 12 idx [] h)
]

-- A plus sign within a plain text.
not_plain : (x s : List ℕ) → IsPlain (x ++ 43 ∷ s) → ⊥
not_plain [] s h = h.0 refl
not_plain (c ∷ x) s h = not_plain x s h.1

-- The last plus sign divides a text in one way.
divided : (x y s t : List ℕ) → IsPlain s → IsPlain t → x ++ 43 ∷ s ≡ y ++ 43 ∷ t → (x ≡ y) × (s ≡ t)
divided [] [] s t hs ht e = (refl, cc e)
divided [] (c ∷ y) s t hs ht e =
    let inside : s ≡ y ++ 43 ∷ t = cc e in absurd (not_plain y t (subst IsPlain inside hs))
divided (c ∷ x) [] s t hs ht e =
    let inside : x ++ 43 ∷ s ≡ t = cc e in absurd (not_plain x s (subst IsPlain (sym inside) ht))
divided (c ∷ x) (d ∷ y) s t hs ht e =
    let (same, rest) = divided x y s t hs ht (cc e) in
    let first : c ≡ d = cc e in (cc (first, same), rest)

pub format_recycled_username_injective :
    (x y : List ℕ) (i j : ℕ)
    → i < 1000000000000
    → j < 1000000000000
    → format_recycled_username x i ≡ format_recycled_username y j
    → (x ≡ y) × (i ≡ j)
unfolding format_recycled_username
format_recycled_username_injective x y i j hi hj e =
    let (same, rest) = divided x y (suffix i) (suffix j) (suffix-IsPlain i) (suffix-IsPlain j) e in
    (same, sym (read-suffix i hi) ∙ ap (read 0) rest ∙ read-suffix j hj)

pub format_recycled_username_not_plain :
    (x : List ℕ) (i : ℕ) → IsPlain (format_recycled_username x i) → ⊥
unfolding format_recycled_username
format_recycled_username_not_plain x i h = not_plain x (suffix i) h

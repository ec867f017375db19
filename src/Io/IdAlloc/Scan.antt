-- ===== src/Io/IdAlloc/Scan.antt =====
-- The allocator hands out a free identifier as long as there is one, and counts them right.
use radstorm.Prelude.{
  ℕ, zero, suc, ◌+◌, ◌-◌, ◌%◌, ◌≤◌, ◌<◌, ◌≡◌, ◌≢◌, refl, sym, ap, ◌∙◌, Bool, true, false, none,
  some, List, length, arith, ◌==◌, Bool-cases, ==_iff, inl, inr,
}
use radstorm.Io.IdAlloc.{IdBitmap, in_use, scan}

abbrev weight : Bool → ℕ
weight true = 1
weight false = 0

-- How many of the identifiers before `n` are in use.
unfoldable pub used : List ℕ → ℕ → ℕ
used bits zero = 0
used bits (suc n) = weight (in_use bits n) + used bits n

abbrev pub IsValid : IdBitmap → Type 0
IsValid b = (length b.bits ≡ 4) × (b.next < 256) × (b.count ≡ used b.bits 256)

used_le : (bits : List ℕ) (n : ℕ) → used bits n ≤ n
unfolding used
used_le bits zero = omega arith
used_le bits (suc n) = elim (Bool-cases (in_use bits n)) [
  | inl e ↦ rw e (omega (arith, used_le bits n))
  | inr e ↦ rw e (omega (arith, used_le bits n))
]

-- All identifiers are in use if the count is full.
pub used_full :
    (bits : List ℕ) (n : ℕ) → used bits n ≡ n → (id : ℕ) → id < n → in_use bits id ≡ true
unfolding used
used_full bits zero h id small = absurd (omega arith)
used_full bits (suc n) h id small = elim (Bool-cases (in_use bits n)) [
  | inr e ↦ absurd (omega (arith, used_le bits n, rw e at h))
  | inl e ↦ elim (Bool-cases (id == n)) [
    | inl s ↦ ap (λ k. in_use bits k) ((==_iff id n).0 s) ∙ e
    | inr s ↦
        let differ : id ≢ n = λ e. cc ((==_iff id n).1 e, s) in
        used_full bits n (omega (arith, rw e at h)) id (omega (arith, λ (e : id ≡ n). differ e))
  ]
]

pub used_all :
    (bits : List ℕ) (n : ℕ) → ((id : ℕ) → id < n → in_use bits id ≡ true) → used bits n ≡ n
unfolding used
used_all bits zero h = refl
used_all bits (suc n) h =
    rw (h n (omega arith)) (omega (arith, used_all bits n (λ id small. h id (omega arith))))

used_same :
    (bits bits' : List ℕ) (n : ℕ)
    → ((id : ℕ) → id < n → in_use bits' id ≡ in_use bits id)
    → used bits' n ≡ used bits n
unfolding used
used_same bits bits' zero h = refl
used_same bits bits' (suc n) h =
    rw (h n (omega arith), used_same bits bits' n (λ id small. h id (omega arith))) refl

-- One identifier more is in use.
pub used_one_more :
    (bits bits' : List ℕ) (id n : ℕ)
    → id < n
    → in_use bits id ≡ false
    → in_use bits' id ≡ true
    → ((j : ℕ) → j ≢ id → in_use bits' j ≡ in_use bits j)
    → used bits' n ≡ suc (used bits n)
unfolding used
used_one_more bits bits' id zero small free taken others = absurd (omega arith)
used_one_more bits bits' id (suc n) small free taken others = elim (Bool-cases (n == id)) [
  | inl s ↦
      let same = (==_iff n id).0 s in
      let below = used_same bits bits' n (λ j less. others j (λ e. absurd (omega arith))) in
      rw (same, free, taken)
        (omega (arith, below, ap (λ k. used bits k) same, ap (λ k. used bits' k) same))
  | inr s ↦
      let differ : n ≢ id = λ e. cc ((==_iff n id).1 e, s) in
      rw (others n differ) (
        omega (
          arith,
          used_one_more bits bits' id n (omega (arith, λ (e : n ≡ id). differ e)) free taken others,
        ))
]

pub scan-some :
    (left next : ℕ) (bits : List ℕ) (id : ℕ)
    → scan left next bits ≡ some id
    → (id < 256) × (in_use bits id ≡ false)
unfolding scan
scan-some zero next bits id h = cc
scan-some (suc left) next bits id h =
    let here = (next + (256 - suc left)) % 256 in
    elim (Bool-cases (in_use bits here)) [
      | inl e ↦ scan-some left next bits id (rw e at h)
      | inr e ↦
          let same : here ≡ id = cc (rw e at h) in
          (omega (arith, same), ap (λ k. in_use bits k) (sym same) ∙ e)
    ]

pub scan-none :
    (left next : ℕ) (bits : List ℕ) (i : ℕ)
    → scan left next bits ≡ none
    → left ≤ 256
    → 256 - left ≤ i
    → i < 256
    → in_use bits ((next + i) % 256) ≡ true
unfolding scan
scan-none zero next bits i h most from to = absurd (omega arith)
scan-none (suc left) next bits i h most from to =
    let here = (next + (256 - suc left)) % 256 in
    elim (Bool-cases (in_use bits here)) [
      | inr e ↦ cc (rw e at h)
      | inl e ↦ elim (Bool-cases (i == 256 - suc left)) [
        | inl s ↦ rw ((==_iff i (256 - suc left)).0 s) e
        | inr s ↦
            let differ : i ≢ 256 - suc left = λ q. cc ((==_iff i (256 - suc left)).1 q, s) in
            scan-none left next bits i (rw e at h) (omega arith)
              (omega (arith, λ (q : i ≡ 256 - suc left). differ q)) to
      ]
    ]

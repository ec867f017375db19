-- ===== src/Collector/Curve/Cumulative.antt =====
-- What the rows of the establishment curve count.
use radstorm.Prelude.{
  ℕ, zero, suc, ◌+◌, ◌*◌, ◌/◌, ◌≤◌, ◌<◌, ◌≡◌, refl, sym, ap, ◌∙◌, Bool, false, some, List, [], ◌∷◌,
  ltb, ◌==◌, if◌then◌else◌, length, length-set, get_elem?, get_or, set, replicate, length-replicate,
  if_false, arith,
}
use radstorm.Prelude.Int.{ℤ, pos, negsuc, difference_ℤ}
use radstorm.Collector.Curve.{
  SubAgg, CurvePoint, bump, fill, rows, buckets, build_establishment_curve,
}

-- The sum of the first k numbers.
abbrev sum_first : ℕ → List ℕ → ℕ
sum_first zero l = 0
sum_first (suc k) [] = 0
sum_first (suc k) (n ∷ l) = n + sum_first k l

-- The offset is not negative and falls in one of the first k buckets.
abbrev pub reached : ℕ → ℕ → ℤ → Bool
reached width k (negsuc n) = false
reached width k (pos n) = ltb (n / width) k

-- How many subscribers have done so.
abbrev pub count_reached : (SubAgg → ℤ) → ℕ → ℕ → List SubAgg → ℕ
count_reached offset width k [] = 0
count_reached offset width k (s ∷ subs) =
    (if reached width k (offset s) then 1 else 0) + count_reached offset width k subs

sum_first-set :
    (k j : ℕ) (l : List ℕ)
    → k ≤ length l
    → sum_first k (set l j (suc (get_or l j 0))) ≡ sum_first k l + (if ltb j k then 1 else 0)
sum_first-set zero j l h = ground arith
sum_first-set (suc k) j [] h = absurd (omega arith)
sum_first-set (suc k) zero (n ∷ l) h = ground arith
sum_first-set (suc k) (suc j) (n ∷ l) h = ground (arith, sum_first-set k j l (omega arith))

sum_first-bump :
    (width k : ℕ) (offset : ℤ) (l : List ℕ)
    → k ≤ length l
    → sum_first k (bump width offset l) ≡ sum_first k l + (if reached width k offset then 1 else 0)
unfolding bump
sum_first-bump width k (negsuc n) l h = omega arith
sum_first-bump width k (pos n) l h = sum_first-set k (n / width) l h

length-bump : (width : ℕ) (offset : ℤ) (l : List ℕ) → length (bump width offset l) ≡ length l
unfolding bump
length-bump width (negsuc n) l = refl
length-bump width (pos n) l = length-set l (n / width) _

module _ (offset : SubAgg → ℤ) (width : ℕ) where
  length-fill : (subs : List SubAgg) (l : List ℕ) → length (fill offset width subs l) ≡ length l
  unfolding fill
  length-fill [] l = refl
  length-fill (s ∷ subs) l =
      length-fill subs (bump width (offset s) l) ∙ length-bump width (offset s) l

  sum_first-fill :
      (k : ℕ) (subs : List SubAgg) (l : List ℕ)
      → k ≤ length l
      → sum_first k (fill offset width subs l) ≡ sum_first k l + count_reached offset width k subs
  unfolding fill
  sum_first-fill k [] l h = omega arith
  sum_first-fill k (s ∷ subs) l h = omega (
    arith,
    sum_first-fill k subs (bump width (offset s) l)
        (omega (arith, h, length-bump width (offset s) l)),
    sum_first-bump width k (offset s) l h,
  )

sum_first_zeros : (k n : ℕ) → sum_first k (replicate n 0) ≡ 0
sum_first_zeros zero n = refl
sum_first_zeros (suc k) zero = refl
sum_first_zeros (suc k) (suc n) = omega (arith, sum_first_zeros k n)

-- The point of a row.
abbrev pub point : ℕ → ℕ → ℕ → CurvePoint
point offset_ms act est = record {
  offset_ms = offset_ms;
  activated = act;
  established = est;
  in_flight = difference_ℤ act est;
}

same_point :
    (width j k act more_act est more_est : ℕ)
    → j ≡ k
    → act ≡ more_act
    → est ≡ more_est
    → some (point (j * width) act est) ≡ some (point (k * width) more_act more_est)
same_point width j k act more_act est more_est h a e = rw (h, a, e) refl

rows-get_elem? :
    (width i b cum_act cum_est : ℕ) (act est : List ℕ)
    → i < length act
    → length est ≡ length act
    → get_elem? (rows width b cum_act cum_est act est) i
      ≡ some (
          point
            ((b + i + 1) * width)
            (cum_act + sum_first (suc i) act)
            (cum_est + sum_first (suc i) est))
unfolding rows
rows-get_elem? width i b cum_act cum_est [] est h same = absurd (omega arith)
rows-get_elem? width i b cum_act cum_est (a ∷ act) [] h same = absurd (omega arith)
rows-get_elem? width zero b cum_act cum_est (a ∷ act) (e ∷ est) h same =
    same_point width _ _ _ _ _ _ (omega arith) (omega arith) (omega arith)
rows-get_elem? width (suc i) b cum_act cum_est (a ∷ act) (e ∷ est) h same =
    rows-get_elem? width i (suc b) (cum_act + a) (cum_est + e) act est (omega arith) (omega arith)
    ∙ same_point width _ _ _ _ _ _ (omega arith) (omega arith) (omega arith)

-- For at least one subscriber and a positive width, point b + 1 of the curve, for each bucket b,
-- has the offset (b + 1) times the width, the numbers of subscribers whose activation and whose
-- establishment fall in the buckets 0 to b, and their difference.
pub build_establishment_curve_counts :
    (s : SubAgg) (rest : List SubAgg) (width b : ℕ)
    → 1 ≤ width
    → b < buckets width (s ∷ rest)
    → get_elem? (build_establishment_curve (s ∷ rest) (pos width)) (suc b)
      ≡ some (
          point
            ((b + 1) * width)
            (count_reached (λ s. s.activated_offset_ms) width (suc b) (s ∷ rest))
            (count_reached (λ s. s.established_offset_ms) width (suc b) (s ∷ rest)))
unfolding build_establishment_curve
build_establishment_curve_counts s rest width b h inside =
    let subs : List SubAgg = s ∷ rest in
    let zeros : List ℕ = replicate (buckets width subs) 0 in
    let act : List ℕ = fill (λ s. s.activated_offset_ms) width subs zeros in
    let est : List ℕ = fill (λ s. s.established_offset_ms) width subs zeros in
    let act_long = length-fill (λ s. s.activated_offset_ms) width subs zeros in
    let est_long = length-fill (λ s. s.established_offset_ms) width subs zeros in
    let long : length zeros ≡ buckets width subs = length-replicate (buckets width subs) 0 in
    let none_yet = sum_first_zeros (suc b) (buckets width subs) in
    ap (λ l. get_elem? l (suc b)) (if_false (width == 0) _ _ (ground arith))
    ∙ rows-get_elem? width b 0 0 0 act est (omega (arith, act_long, long, inside))
        (est_long ∙ sym act_long)
    ∙ same_point width _ _ _ _ _ _ (omega arith)
        (omega (
          arith,
          none_yet,
          sum_first-fill (λ s. s.activated_offset_ms) width (suc b) subs zeros
              (omega (arith, long, inside)),
        ))
        (omega (
          arith,
          none_yet,
          sum_first-fill (λ s. s.established_offset_ms) width (suc b) subs zeros
              (omega (arith, long, inside)),
        ))

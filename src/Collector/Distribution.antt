-- ===== src/Collector/Distribution.antt =====
-- computeDistribution and percentile of pkg/collector/aggregate.go.
-- A quantile is written in thousandths. The product of a quantile and a length is one of float64,
-- so that its ceiling is the parameter `ceil_rank`; that a greater quantile has no smaller ceiling
-- is what IEEE multiplication and math.Ceil give.
pub mod Sorted
pub mod Ordered
use radstorm.Prelude.{
  ℕ, zero, suc, ◌+◌, ◌-◌, ◌≤◌, ◌%◌, Bool, List, [], ◌∷◌, ltb, leb, ◌==◌, if◌then◌else◌, length,
  get_or, min,
}
use radstorm.Prelude.Int.{ℤ, pos, negsuc, leb_ℤ}

pub record LatencyDistribution : Type 0 where
  pub minimum : ℤ
  pub p50 : ℤ
  pub p95 : ℤ
  pub p99 : ℤ
  pub p999 : ℤ
  pub maximum : ℤ

-- sort.Slice, as an insertion sort: equal samples cannot be told apart
pub insert_sample : ℤ → List ℤ → List ℤ
insert_sample x [] = x ∷ []
insert_sample x (y ∷ ys) =
    let rest = insert_sample x ys in if leb_ℤ x y then x ∷ y ∷ ys else y ∷ rest

unfoldable pub sort_samples : List ℤ → List ℤ
unfolding insert_sample
sort_samples [] = []
sort_samples (x ∷ xs) = insert_sample x (sort_samples xs)

-- rank, brought into 1 .. n
abbrev pub clamp_rank : ℕ → ℕ → ℕ
clamp_rank rank n = let low = if ltb rank 1 then 1 else rank in if ltb n low then n else low

module _ (ceil_rank : ℕ → ℕ → ℕ) where
  -- percentile
  unfoldable pub percentile : List ℤ → ℕ → ℤ
  percentile [] q = pos 0
  percentile (x ∷ xs) q =
      let n = suc (length xs) in
      if q == 0
      then x
      else if leb 1000 q
      then get_or (x ∷ xs) (n - 1) x
      else get_or (x ∷ xs) (clamp_rank (ceil_rank q n) n - 1) x

  -- The bundle of a sorted list.
  pub distribution_of : List ℤ → LatencyDistribution
  unfolding percentile
  distribution_of sorted = record {
    minimum = get_or sorted 0 (pos 0);
    p50 = percentile sorted 500;
    p95 = percentile sorted 950;
    p99 = percentile sorted 990;
    p999 = percentile sorted 999;
    maximum = get_or sorted (length sorted - 1) (pos 0);
  }

  abbrev pub no_distribution : LatencyDistribution
  no_distribution = record {
    minimum = pos 0;
    p50 = pos 0;
    p95 = pos 0;
    p99 = pos 0;
    p999 = pos 0;
    maximum = pos 0;
  }

  -- computeDistribution
  unfoldable pub compute_distribution : List ℤ → LatencyDistribution
  unfolding distribution_of sort_samples
  compute_distribution [] = no_distribution
  compute_distribution (x ∷ xs) = distribution_of (sort_samples (x ∷ xs))

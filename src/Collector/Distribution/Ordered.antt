-- ===== src/Collector/Distribution/Ordered.antt =====
-- The order of the six numbers of a distribution.
use radstorm.Prelude.{
  ℕ, suc, ◌-◌, ◌≤◌, ◌<◌, ◌≡◌, ◌≢◌, refl, ◌⊎◌, inl, inr, List, [], ◌∷◌, length, get_or, All, arith,
}
use radstorm.Prelude.Int.{ℤ, pos, ◌≤ℤ◌}
use radstorm.Collector.Distribution.{
  LatencyDistribution, sort_samples, clamp_rank, percentile, distribution_of, compute_distribution,
}
use radstorm.Collector.Distribution.Sorted.{
  IsSorted, All-weaken, All-sort_samples, All-of_sort_samples, sort_samples-IsSorted,
  length-sort_samples, get_or_mono, below_last, All-get_or,
}

-- The value is one of the samples.
abbrev pub IsSample : List ℤ → ℤ → Type 0
IsSample [] y = ⊥
IsSample (x ∷ xs) y = (y ≡ x) ⊎ IsSample xs y

every_IsSample : (xs : List ℤ) → All (IsSample xs) xs
every_IsSample [] = tt
every_IsSample (x ∷ xs) = (
  inl refl,
  All-weaken {P = IsSample xs} {Q = IsSample (x ∷ xs)} xs (λ y h. inr h) (every_IsSample xs),
)

clamp_rank_bounds : (r n : ℕ) → 0 < n → clamp_rank r n - 1 < n
clamp_rank_bounds r n h = ground arith

clamp_rank_mono : (r s n : ℕ) → r ≤ s → clamp_rank r n - 1 ≤ clamp_rank s n - 1
clamp_rank_mono r s n h = ground arith

-- The quantiles in ascending order, each a sample, all samples between the first and the last.
abbrev pub IsOrdered : List ℤ → LatencyDistribution → Type 0
IsOrdered samples d =
    (d.minimum ≤ℤ d.p50)
    × (d.p50 ≤ℤ d.p95)
    × (d.p95 ≤ℤ d.p99)
    × (d.p99 ≤ℤ d.p999)
    × (d.p999 ≤ℤ d.maximum)
    × All (λ y. d.minimum ≤ℤ y) samples
    × All (λ y. y ≤ℤ d.maximum) samples
    × All (IsSample samples) (d.minimum ∷ d.p50 ∷ d.p95 ∷ d.p99 ∷ d.p999 ∷ d.maximum ∷ [])

module _ (ceil_rank : ℕ → ℕ → ℕ)
    (mono : (q q' n : ℕ) → q ≤ q' → ceil_rank q n ≤ ceil_rank q' n) where
  distribution_of-IsOrdered :
      (samples sorted : List ℤ) (n : ℕ)
      → length sorted ≡ suc n
      → IsSorted sorted
      → All (IsSample samples) sorted
      → ((P : ℤ → Type 0) → All P sorted → All P samples)
      → IsOrdered samples (distribution_of ceil_rank sorted)
  unfolding distribution_of percentile
  distribution_of-IsOrdered samples [] n e s m back = absurd (omega arith)
  distribution_of-IsOrdered samples (x ∷ xs) n e s m back =
      let size = suc (length xs) in
      let at_place = λ (q : ℕ). clamp_rank_bounds (ceil_rank q size) size (omega arith) in
      let up = λ (q q' : ℕ) (h : q ≤ q').
        clamp_rank_mono (ceil_rank q size) (ceil_rank q' size) size (mono q q' size h) in
      let ordered =
        λ (i j : ℕ) (d d' : ℤ) (h : i ≤ j) (k : j < size). get_or_mono (x ∷ xs) i j d d' s h k in
      let sample =
        λ (i : ℕ) (d : ℤ) (k : i < size). All-get_or (IsSample samples) (x ∷ xs) i d k m in
      (
        ordered 0 _ (pos 0) x (omega arith) (at_place 500),
        ordered _ _ x x (up 500 950 (omega arith)) (at_place 950),
        ordered _ _ x x (up 950 990 (omega arith)) (at_place 990),
        ordered _ _ x x (up 990 999 (omega arith)) (at_place 999),
        ordered _ (size - 1) x (pos 0) (omega (arith, at_place 999)) (omega arith),
        back (λ y. x ≤ℤ y) (omega arith, s.0),
        back (λ y. y ≤ℤ get_or (x ∷ xs) (size - 1) (pos 0))
            (below_last (x ∷ xs) (size - 1) (pos 0) (omega arith) s),
        (
          sample 0 (pos 0) (omega arith),
          (
            sample _ x (at_place 500),
            (
              sample _ x (at_place 950),
              (
                sample _ x (at_place 990),
                (sample _ x (at_place 999), (sample (size - 1) (pos 0) (omega arith), tt)),
              ),
            ),
          ),
        ),
      )

  -- For a rank that grows with the quantile, the distribution of at least one sample has min ≤ p50
  -- ≤ p95 ≤ p99 ≤ p999 ≤ max, its min and max bound every sample, and each of the six is a sample.
  pub compute_distribution-IsOrdered :
      (samples : List ℤ) → samples ≢ [] → IsOrdered samples (compute_distribution ceil_rank samples)
  unfolding compute_distribution
  compute_distribution-IsOrdered [] some_sample = absurd (some_sample refl)
  compute_distribution-IsOrdered (x ∷ xs) some_sample =
      let samples = x ∷ xs in
      distribution_of-IsOrdered samples (sort_samples samples) (length xs)
        (length-sort_samples samples) (sort_samples-IsSorted samples)
        (All-sort_samples (IsSample samples) samples (every_IsSample samples))
        (λ P h. All-of_sort_samples P samples h)

-- ===== src/Collector/Curve.antt =====
-- buildEstablishmentCurve of pkg/collector/aggregate.go, on the list of the merged subscribers in the
-- order of the walk over the map. An offset or a width of int64 is a number of ℤ, and the offsets of
-- the points are numbers without a bound.
pub mod Cumulative
use radstorm.Prelude.{
  ℕ, zero, suc, ◌+◌, ◌-◌, ◌*◌, ◌/◌, ◌<◌, max, Bool, true, false, ◌&&◌, ◌||◌, List, [], ◌∷◌, ltb,
  ◌==◌, if◌then◌else◌, get_or, set, replicate,
}
use radstorm.Prelude.Int.{ℤ, pos, negsuc, above, difference_ℤ}

-- The fields of subAgg that the curve reads.
pub record SubAgg : Type 0 where
  pub activated_offset_ms : ℤ
  pub established_offset_ms : ℤ

pub record CurvePoint : Type 0 where
  pub offset_ms : ℕ
  pub activated : ℕ
  pub established : ℕ
  pub in_flight : ℤ

-- The largest offset, and 0 where none is above it.
unfoldable pub max_off : List SubAgg → ℕ
max_off [] = 0
max_off (s ∷ subs) =
    max (max_off subs) (max (above s.activated_offset_ms) (above s.established_offset_ms))

-- delta[b]++ for the bucket of an offset that is not negative and falls within the slice
bump : ℕ → ℤ → List ℕ → List ℕ
bump width (negsuc n) delta = delta
bump width (pos n) delta = set delta (n / width) (suc (get_or delta (n / width) 0))

-- The loop over the subscribers, for one of the two slices.
fill : (SubAgg → ℤ) → ℕ → List SubAgg → List ℕ → List ℕ
unfolding bump
fill offset width [] delta = delta
fill offset width (s ∷ subs) delta = fill offset width subs (bump width (offset s) delta)

-- The loop over the buckets from b on, with the sums so far.
rows : ℕ → ℕ → ℕ → ℕ → List ℕ → List ℕ → List CurvePoint
rows width b cum_act cum_est [] est = []
rows width b cum_act cum_est (a ∷ act) [] = []
rows width b cum_act cum_est (a ∷ act) (e ∷ est) =
    record {
      offset_ms = (b + 1) * width;
      activated = cum_act + a;
      established = cum_est + e;
      in_flight = difference_ℤ (cum_act + a) (cum_est + e);
    }
    ∷ rows width (suc b) (cum_act + a) (cum_est + e) act est

abbrev origin : CurvePoint
origin = record { offset_ms = 0; activated = 0; established = 0; in_flight = pos 0 }

unfoldable pub buckets : ℕ → List SubAgg → ℕ
unfolding max_off
buckets width subs = max_off subs / width + 1

-- buildEstablishmentCurve
unfoldable pub build_establishment_curve : List SubAgg → ℤ → List CurvePoint
unfolding buckets fill rows
build_establishment_curve [] bucket_ms = []
build_establishment_curve (s ∷ subs) bucket_ms =
    let width = above bucket_ms in
    let zeros = replicate (buckets width (s ∷ subs)) 0 in
    if width == 0
    then []
    else origin
      ∷ rows width 0 0 0 (fill (λ s. s.activated_offset_ms) width (s ∷ subs) zeros)
          (fill (λ s. s.established_offset_ms) width (s ∷ subs) zeros)

-- ===== src/Tests/Axes.antt =====
-- Time-axes at concrete inputs.
use shyft.Prelude.{◌<◌, ◌≡◌, ◌↔◌, refl, arith, some, none, [], ◌∷◌}
use shyft.Prelude.Int.{◌+ℤ◌, ◌-ℤ◌, pos, ◌≤ℤ◌, ◌<ℤ◌}
use shyft.Prelude.Outcome.{ok}
use shyft.TimeAxis.Point
use shyft.TimeAxis.Point.{PointDt, point_dt}
use shyft.TimeAxis.Point.Sorted.{IsAxis, LiesIn}
use shyft.TimeAxis.Point.Index.{index_of-LiesIn_iff}
use shyft.TimeAxis.Point.{back, make}
use shyft.TimeAxis.Merge.{
  merge_fixed, can_merge_fixed, continuous_merge, compute_merge_info, before_count, first_after,
  merge_point, can_merge_point, merge_vectors, copy_range,
}
use shyft.TimeAxis.Merge.Axes.{merged_points, merge_point-eq}
use shyft.TimeAxis.Point.Hint.{index_of-hint}
use shyft.TimeAxis.Point.HintAtPoint.{index_of-hint_at_point}
use shyft.TimeAxis.Fixed
use shyft.TimeAxis.Fixed.{FixedDt}
use shyft.TimeAxis.Fixed.Index.{index_of_iff}

-- Ten periods of an hour.
abbrev hours : FixedDt
hours = record { t = pos 7200; dt = 3600; n = 10 }

index_in_axis :
    (Fixed.index_of hours (pos 10000) ≡ some 0)
    ↔ ((0 < 10) × (Fixed.time_at hours 0 ≤ℤ pos 10000) × (pos 10000 <ℤ Fixed.time_at hours 1))
index_in_axis = index_of_iff hours (pos 10000) 0 (omega arith)

abbrev points : PointDt
points = point_dt (pos 0 ∷ pos 10 ∷ pos 20 ∷ pos 30 ∷ []) (pos 40)

points-IsAxis : IsAxis points
points-IsAxis = (
  (
    (omega arith, (omega arith, (omega arith, tt))),
    ((omega arith, (omega arith, tt)), ((omega arith, tt), (tt, tt))),
  ),
  (omega arith, (omega arith, (omega arith, (omega arith, tt)))),
)

index_of-LiesIn_iff_example :
    (Point.index_of points (pos 25) none ≡ ok (some 2)) ↔ LiesIn (pos 25) (pos 40) points.t 2
index_of-LiesIn_iff_example = index_of-LiesIn_iff points (pos 25) 2 points-IsAxis

index_of-hint_example :
    Point.index_of points (pos 25) (some 0) ≡ Point.index_of points (pos 25) none
index_of-hint_example =
    index_of-hint points (pos 25) 0 points-IsAxis (refl, (refl, (refl, (refl, tt))))

index_of-hint_at_point_example :
    (Point.index_of points (pos 10) (some 0) ≡ ok (some 0))
    × (Point.index_of points (pos 10) none ≡ ok (some 1))
index_of-hint_at_point_example =
    index_of-hint_at_point points (pos 10) (pos 20) 0 0 points-IsAxis (omega arith) refl refl

program : Unit {0}
unfolding merge_fixed can_merge_fixed continuous_merge compute_merge_info before_count first_after
    Fixed.total_period Fixed.time Fixed.time_at Fixed.index_of ◌+ℤ◌ ◌-ℤ◌ merge_point can_merge_point
    merge_vectors copy_range Point.total_period Point.size Point.time Point.index_of
    Point.index_inside Point.binary_search Point.lower_bound back make
program = tt

-- From 5 to 15, and from 10 to 20: the merged axis ends at 15.
unaligned :
    merge_fixed (record { t = pos 5; dt = 10; n = 1 }) (record { t = pos 10; dt = 10; n = 1 })
    ≡ ok (record { t = pos 5; dt = 10; n = 1 })
unfolding program
unaligned = refl

aligned :
    merge_fixed (record { t = pos 10; dt = 10; n = 3 }) (record { t = pos 0; dt = 10; n = 6 })
    ≡ ok (record { t = pos 0; dt = 10; n = 6 })
unfolding program
aligned = refl

abbrev wider : PointDt
wider = point_dt (pos 5 ∷ pos 15 ∷ pos 45 ∷ []) (pos 50)

wider-IsAxis : IsAxis wider
wider-IsAxis = (
  ((omega arith, (omega arith, tt)), ((omega arith, tt), (tt, tt))),
  (omega arith, (omega arith, (omega arith, tt))),
)

merges :
    merge_point points wider
    ≡ ok (point_dt (pos 0 ∷ pos 10 ∷ pos 20 ∷ pos 30 ∷ pos 45 ∷ []) (pos 50))
unfolding program
merges = refl

merge_point-eq_example :
    merge_point wider points
    ≡ ok (point_dt (merged_points (pos 5) (pos 50) wider.t points.t) (pos 50))
unfolding can_merge_point continuous_merge Point.total_period
merge_point-eq_example =
    merge_point-eq wider points wider-IsAxis points-IsAxis (omega arith) (omega arith) refl

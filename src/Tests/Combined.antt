-- ===== src/Tests/Combined.antt =====
-- Combined axes at concrete inputs.
use shyft.Prelude.{◌≡◌, refl, arith, inl, [], ◌∷◌}
use mathlib.Core.List.{Memᴰ}
use shyft.Prelude.Int.{pos, ◌+ℤ◌, ◌-ℤ◌}
use shyft.Prelude.Outcome.{ok}
use shyft.Utc.{overlaps, period_eq}
use shyft.TimeAxis.Fixed
use shyft.TimeAxis.Fixed.{FixedDt}
use shyft.TimeAxis.Point
use shyft.TimeAxis.Point.{
  PointDt, point_dt, back, pop_back, index_inside, binary_search, lower_bound,
}
use shyft.TimeAxis.Generic
use shyft.TimeAxis.Generic.{of_fixed, of_point}
use shyft.TimeAxis.Combine.{
  combine_fixed, fixed_over, needs_align, combine, combine_dense, combine_points, slice, times_of,
  combine_slices, with_end, combine_times, combine_from, before,
}
use shyft.TimeAxis.Combine.Points.{IsCombination, combine_slices-IsCombination}

abbrev tens : FixedDt
tens = record { t = pos 0; dt = 10; n = 3 }

-- Points at 0, 10 and 20, and at 5, 15 and 25: the axes overlap from 5 on, but the combined axis
-- begins at 0.
early_start :
    combine
      (of_point (point_dt (pos 0 ∷ pos 10 ∷ pos 20 ∷ []) (pos 30)))
      (of_point (point_dt (pos 5 ∷ pos 15 ∷ pos 25 ∷ []) (pos 35)))
    ≡ ok (of_point (point_dt (pos 0 ∷ pos 5 ∷ pos 10 ∷ pos 15 ∷ pos 20 ∷ pos 25 ∷ []) (pos 30)))
unfolding combine combine_dense combine_points slice times_of combine_slices with_end combine_times
    combine_from before Generic.total_period Generic.size Generic.time Generic.open_range_index_of
    Point.total_period Point.size Point.time Point.open_range_index_of Point.index_of index_inside
    binary_search lower_bound back pop_back overlaps period_eq
early_start = refl

-- Two fixed axes of one step that are not aligned: the points of the first are lost.
unaligned :
    (combine_fixed tens (record { t = pos 5; dt = 10; n = 3 })
      ≡ ok (record { t = pos 5; dt = 10; n = 2 }))
    × (combine_fixed tens (record { t = pos 10; dt = 5; n = 2 })
        ≡ ok (record { t = pos 10; dt = 5; n = 2 }))
unfolding combine_fixed fixed_over needs_align Fixed.total_period Fixed.size Fixed.time_at overlaps
    ◌+ℤ◌ ◌-ℤ◌
unaligned = (refl, refl)

combine_slices-IsCombination_example :
    (p : PointDt) × (combine_slices (pos 30) (pos 10 ∷ pos 20 ∷ []) (pos 10 ∷ pos 15 ∷ pos 30 ∷ [])
      ≡ ok (of_point p))
    × IsCombination (pos 30) (pos 10 ∷ pos 20 ∷ []) (pos 10 ∷ pos 15 ∷ pos 30 ∷ []) p
combine_slices-IsCombination_example =
    combine_slices-IsCombination (pos 30) (pos 10) (pos 10 ∷ pos 20 ∷ [])
      (pos 10 ∷ pos 15 ∷ pos 30 ∷ []) (omega arith) (omega arith) (omega arith) (omega arith)
      (omega arith) (inl (Memᴰ.head refl))

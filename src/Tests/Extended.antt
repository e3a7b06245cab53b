-- ===== src/Tests/Extended.antt =====
-- Extended axes at concrete inputs.
use shyft.Prelude.{◌+◌, ◌*◌, ◌≡◌, refl, arith, true, [], ◌∷◌}
use shyft.Prelude.Int.{pos, negsuc, ◌+ℤ◌, ◌-ℤ◌, ◌*ℤ◌, div_ℤ}
use shyft.Prelude.Outcome.{ok, undefined}
use shyft.TimeAxis.Fixed
use shyft.TimeAxis.Fixed.{FixedDt}
use shyft.TimeAxis.Point
use shyft.TimeAxis.Point.{
  PointDt, point_dt, make, make_all, back, pop_back, read, index_inside, binary_search, lower_bound,
}
use shyft.TimeAxis.Generic
use shyft.TimeAxis.Generic.{of_fixed, of_point}
use shyft.TimeAxis.Extend.{extend}
use shyft.TimeAxis.Extend.Slices.{
  as_generic, point_as_generic, of_points, point_as_generic-past_end,
}
use shyft.TimeAxis.Extend.FixedAxes.{
  extend_fixed, span_a, span_b, on_grid, is_aligned, extend_aligned, extend_unaligned, steps_from,
}
use shyft.TimeAxis.Extend.FixedAxes.Aligned.{extend_fixed-aligned}
use shyft.TimeAxis.Extend.FixedAxes.Unaligned.{extend_fixed-loses_first}
use shyft.TimeAxis.Extend.DenseAxes.{extend_dense, extend_empty, split_ix}

abbrev tens : FixedDt
tens = record { t = pos 0; dt = 10; n = 3 }

abbrev sevens : FixedDt
sevens = record { t = pos 0; dt = 7; n = 4 }

abbrev points : PointDt
points = point_dt (pos 0 ∷ pos 10 ∷ pos 20 ∷ pos 40 ∷ []) (pos 70)

-- Of `sevens` the period from 0 to 7 is lost. A split inside both keeps the points of each.
extended :
    (extend true (of_fixed tens) (of_fixed sevens) (pos 0)
      ≡ ok (of_point (point_dt (pos 7 ∷ pos 14 ∷ pos 21 ∷ []) (pos 28))))
    × (extend true (of_fixed tens) (of_fixed sevens) (pos 10)
        ≡ ok (of_point (point_dt (pos 0 ∷ pos 10 ∷ pos 14 ∷ pos 21 ∷ []) (pos 28))))
unfolding extend extend_fixed span_a span_b on_grid is_aligned extend_aligned extend_unaligned
    steps_from of_points make_all back pop_back Fixed.size Fixed.total_period Fixed.time_at ◌+ℤ◌
    ◌-ℤ◌ ◌*ℤ◌ div_ℤ
extended = (refl, refl)

-- Nothing is left of `sevens`: the part of `points` up to 40 is read past the end, and the part up to
-- 20 gets an end of 40.
cut_off :
    (extend true (of_point points) (of_fixed sevens) (pos 50) ≡ undefined)
    × (extend true (of_point points) (of_fixed (record { t = pos 0; dt = 1; n = 1 })) (pos 20)
        ≡ ok (of_point (point_dt (pos 0 ∷ pos 10 ∷ []) (pos 40))))
unfolding extend extend_dense extend_empty split_ix as_generic point_as_generic read make back
    Generic.size Generic.total_period Generic.index_of Point.size Point.total_period Point.index_of
    index_inside binary_search lower_bound Fixed.size Fixed.total_period Fixed.index_of
    Fixed.time_at ◌+ℤ◌ ◌-ℤ◌
cut_off = (refl, refl)

point_as_generic-past_end_example : point_as_generic points 1 2 ≡ undefined
point_as_generic-past_end_example = point_as_generic-past_end points 1 2 (omega arith)

extend_fixed-aligned_example :
    extend_fixed tens
      (record { t = pos 0 +ℤ pos (2 * 10); dt = 10; n = 5 })
      (pos 0 +ℤ pos (2 * 10) +ℤ pos (1 * 10))
    ≡ ok (of_fixed (record { t = pos 0; dt = 10; n = 2 + 5 }))
extend_fixed-aligned_example =
    extend_fixed-aligned (pos 0) 10 3 2 5 1 (omega arith) (omega arith) (omega arith) (omega arith)

extend_fixed-loses_first_example :
    extend_fixed tens sevens (negsuc 4) ≡ of_points (steps_from 4 (pos 0 +ℤ pos 7) 7)
extend_fixed-loses_first_example =
    extend_fixed-loses_first tens sevens (negsuc 4) (omega arith) (omega arith) (omega arith)
      (omega arith) refl (omega arith) (omega arith)

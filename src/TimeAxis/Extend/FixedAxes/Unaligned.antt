-- ===== src/TimeAxis/Extend/FixedAxes/Unaligned.antt =====
-- A fixed axis of which nothing is left, extended by one of other steps.
use shyft.Prelude.{◌*◌, ◌<◌, ◌≡◌, refl, ap, arith, true, false}
use native.Mathlib.Nat.{mul-pos}
use shyft.Prelude.Tests.{◌==◌}
use shyft.Prelude.Int.{pos, ◌+ℤ◌, ◌-ℤ◌, ◌≤ℤ◌, eqb_ℤ, min_ℤ, max_ℤ, +ℤ_parts, -ℤ_parts, eq_of_parts}
use shyft.Utc.{UtcTime, period}
use shyft.TimeAxis.Fixed
use shyft.TimeAxis.Fixed.{FixedDt}
use shyft.TimeAxis.Extend.Slices.{of_points}
use shyft.TimeAxis.Extend.FixedAxes.{
  on_grid, span_a, span_b, is_aligned, steps_from, extend_unaligned, extend_fixed,
}
use shyft.TimeAxis.Extend.FixedAxes.Grid.{mul-div, on_grid-le}

module _ (a b : FixedDt) (split_at : UtcTime) where
  span_a-none : 0 < a.n → split_at ≤ℤ a.t → span_a a split_at ≡ period a.t a.t
  unfolding span_a Fixed.total_period Fixed.time_at
  span_a-none some_a early =
      let nonempty : (a.n == 0) ≡ false = ground arith in
      let below = on_grid-le a.t split_at a.dt early in
      let first : max_ℤ (on_grid a.t split_at a.dt) a.t ≡ a.t =
        eq_of_parts (max_ℤ (on_grid a.t split_at a.dt) a.t) a.t (ground (arith, below)) in
      rw (nonempty, first) (ap (period a.t) (ground (arith, +ℤ_parts a.t (pos (a.n * a.dt)))))

  span_b-all : 0 < b.n → split_at ≤ℤ b.t → span_b b split_at ≡ period b.t (b.t +ℤ pos (b.n * b.dt))
  unfolding span_b Fixed.total_period Fixed.time_at
  span_b-all some_b early =
      let nonempty : (b.n == 0) ≡ false = ground arith in
      let below = on_grid-le b.t split_at b.dt early in
      rw nonempty (
        ap (λ z. period z (b.t +ℤ pos (b.n * b.dt)))
          (eq_of_parts (max_ℤ (min_ℤ (on_grid b.t split_at b.dt) (b.t +ℤ pos (b.n * b.dt))) b.t) b.t
            (ground (arith, below, +ℤ_parts b.t (pos (b.n * b.dt))))))

  -- Where the split is not after the start of either of two fixed axes with periods, of steps of
  -- different lengths above 0, the first is cut off whole, and of the second the first period is lost:
  -- the points of the result begin one step after its start.
  pub extend_fixed-loses_first :
      0 < a.n
      → 0 < b.n
      → 0 < a.dt
      → 0 < b.dt
      → (a.dt == b.dt) ≡ false
      → split_at ≤ℤ a.t
      → split_at ≤ℤ b.t
      → extend_fixed a b split_at ≡ of_points (steps_from b.n (b.t +ℤ pos b.dt) b.dt)
  unfolding extend_fixed is_aligned extend_unaligned Fixed.size
  extend_fixed-loses_first some_a some_b a_positive b_positive different early_a early_b =
      let a_nonempty : (a.n == 0) ≡ false = ground arith in
      let b_nonempty : (b.n == 0) ≡ false = ground arith in
      let a_step : (a.dt == 0) ≡ false = ground arith in
      let b_step : (b.dt == 0) ≡ false = ground arith in
      let nothing : eqb_ℤ a.t a.t ≡ true = ground arith in
      let length_b : 0 < b.n * b.dt = mul-pos some_b b_positive in
      let something : eqb_ℤ b.t (b.t +ℤ pos (b.n * b.dt)) ≡ false =
        ground (arith, +ℤ_parts b.t (pos (b.n * b.dt)), length_b) in
      let whole : b.t +ℤ pos (b.n * b.dt) -ℤ b.t ≡ pos (b.n * b.dt) =
        eq_of_parts (b.t +ℤ pos (b.n * b.dt) -ℤ b.t) (pos (b.n * b.dt)) (
          omega (arith, +ℤ_parts b.t (pos (b.n * b.dt)), -ℤ_parts (b.t +ℤ pos (b.n * b.dt)) b.t)) in
      rw
        (
          a_nonempty,
          b_nonempty,
          a_step,
          b_step,
          different,
          span_a-none some_a early_a,
          span_b-all some_b early_b,
          nothing,
          something,
          whole,
          mul-div b.n b.dt b_positive,
        )
        refl

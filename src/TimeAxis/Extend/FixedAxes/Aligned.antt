-- ===== src/TimeAxis/Extend/FixedAxes/Aligned.antt =====
-- A fixed axis extended by one of the same steps on the same grid.
use shyft.Prelude.{ℕ, suc, ◌+◌, ◌*◌, ◌≤◌, ◌<◌, ◌≡◌, refl, ap, arith, true, false}
use native.Mathlib.Nat.{add-mul, mul-le-mul_right, suc-mul, mul-pos}
use shyft.Prelude.Tests.{◌==◌}
use shyft.Prelude.Int.{pos, ◌+ℤ◌, ◌-ℤ◌, eqb_ℤ, +ℤ_parts, -ℤ_parts, eq_of_parts}
use shyft.Prelude.Outcome.{ok}
use shyft.Utc.{UtcTime, period}
use shyft.TimeAxis.Fixed
use shyft.TimeAxis.Fixed.{FixedDt}
use shyft.TimeAxis.Generic.{of_fixed}
use shyft.TimeAxis.Extend.FixedAxes.{span_a, span_b, is_aligned, extend_aligned, extend_fixed}
use shyft.TimeAxis.Extend.FixedAxes.Grid.{mul-div, on_grid_self, on_grid-back}

-- `b` starts `k` steps after `a`, and the split is `j` steps after that.
module _ (t : UtcTime) (dt n k m j : ℕ) (positive : 0 < dt) where
  abbrev axis_a : FixedDt
  axis_a = record { t = t; dt = dt; n = n }

  abbrev axis_b : FixedDt
  axis_b = record { t = t +ℤ pos (k * dt); dt = dt; n = m }

  abbrev split : UtcTime
  split = t +ℤ pos (k * dt) +ℤ pos (j * dt)

  split_of_a : split ≡ t +ℤ pos ((k + j) * dt)
  split_of_a = eq_of_parts split (t +ℤ pos ((k + j) * dt)) (
      omega (
        arith,
        add-mul k j dt,
        +ℤ_parts t (pos (k * dt)),
        +ℤ_parts (t +ℤ pos (k * dt)) (pos (j * dt)),
        +ℤ_parts t (pos ((k + j) * dt)),
      ))

  span_a-aligned : 0 < n → k + j ≤ n → span_a axis_a split ≡ period t (t +ℤ pos ((k + j) * dt))
  unfolding span_a Fixed.total_period Fixed.time_at
  span_a-aligned some_a inside =
      let nonempty : (n == 0) ≡ false = ground arith in
      let fits : (k + j) * dt ≤ n * dt = mul-le-mul_right dt inside in
      rw (nonempty, split_of_a, on_grid_self t (k + j) dt positive)
        (ap (period t)
          (ground (arith, fits, +ℤ_parts t (pos ((k + j) * dt)), +ℤ_parts t (pos (n * dt)))))

  span_b-aligned :
      0 < m → j ≤ m → span_b axis_b split ≡ period split (t +ℤ pos (k * dt) +ℤ pos (m * dt))
  unfolding span_b Fixed.total_period Fixed.time_at
  span_b-aligned some_b inside =
      let nonempty : (m == 0) ≡ false = ground arith in
      let fits : j * dt ≤ m * dt = mul-le-mul_right dt inside in
      rw (nonempty, on_grid_self (t +ℤ pos (k * dt)) j dt positive)
        (ap (λ z. period z (t +ℤ pos (k * dt) +ℤ pos (m * dt)))
          (ground (
            arith,
            fits,
            +ℤ_parts (t +ℤ pos (k * dt)) (pos (j * dt)),
            +ℤ_parts (t +ℤ pos (k * dt)) (pos (m * dt)),
          )))

  -- A fixed axis of `n` periods is extended by one of the same steps, which starts `k` steps after it
  -- and has `m` periods, at a time `j` steps into that one: where the split is on both axes, after the
  -- start of the first and before the end of the second, the result is the fixed axis from the start of
  -- the first to the end of the second.
  pub extend_fixed-aligned :
      0 < k + j
      → k + j ≤ n
      → j < m
      → extend_fixed axis_a axis_b split ≡ ok (of_fixed (record { t = t; dt = dt; n = k + m }))
  unfolding extend_fixed is_aligned extend_aligned Fixed.size Fixed.total_period Fixed.time_at
  extend_fixed-aligned after inside before =
      let a_nonempty : (n == 0) ≡ false = ground arith in
      let b_nonempty : (m == 0) ≡ false = ground arith in
      let step : (dt == 0) ≡ false = ground arith in
      let same_step : (dt == dt) ≡ true = ground arith in
      let same_start : eqb_ℤ t t ≡ true = ground arith in
      let meets : eqb_ℤ (t +ℤ pos ((k + j) * dt)) split ≡ true = rw split_of_a (ground arith) in
      let length_a : 0 < (k + j) * dt = mul-pos after positive in
      let a_left : eqb_ℤ t (t +ℤ pos ((k + j) * dt)) ≡ false =
        ground (arith, length_a, +ℤ_parts t (pos ((k + j) * dt))) in
      let length_b : suc j * dt ≤ m * dt = mul-le-mul_right dt before in
      let b_left : eqb_ℤ split (t +ℤ pos (k * dt) +ℤ pos (m * dt)) ≡ false = ground (
        arith,
        length_b,
        suc-mul j dt,
        positive,
        +ℤ_parts (t +ℤ pos (k * dt)) (pos (j * dt)),
        +ℤ_parts (t +ℤ pos (k * dt)) (pos (m * dt)),
      ) in
      let whole : t +ℤ pos (k * dt) +ℤ pos (m * dt) -ℤ t ≡ pos ((k + m) * dt) =
        eq_of_parts (t +ℤ pos (k * dt) +ℤ pos (m * dt) -ℤ t) (pos ((k + m) * dt)) (
          omega (
            arith,
            add-mul k m dt,
            +ℤ_parts t (pos (k * dt)),
            +ℤ_parts (t +ℤ pos (k * dt)) (pos (m * dt)),
            -ℤ_parts (t +ℤ pos (k * dt) +ℤ pos (m * dt)) t,
          )) in
      rw
        (
          a_nonempty,
          b_nonempty,
          step,
          same_step,
          span_a-aligned (omega arith) inside,
          span_b-aligned (omega arith) (omega arith),
          on_grid-back t k dt positive,
          same_start,
          meets,
          a_left,
          b_left,
          whole,
          mul-div (k + m) dt positive,
        )
        refl

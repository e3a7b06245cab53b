-- ===== src/Series/Forecast/Short.antt =====
-- A forecast that ends before its slice does.
use shyft.Prelude.{ℕ, ◌-◌, ◌≡◌, refl, arith, true, false, Option, none, some, List, [], ◌∷◌}
use shyft.Prelude.Lists.{length, drop, All, All-drop}
use shyft.Prelude.Int.{pos, ◌+ℤ◌, ◌<ℤ◌, ltb_ℤ, +ℤ_parts, eq_of_parts}
use shyft.Prelude.Outcome.{ok, throw, out_of_range}
use shyft.Utc.{UtcTime, UtcTimespan}
use shyft.TimeAxis.Point.{point_dt, index_of}
use shyft.Series.{PointFx, times}
use shyft.Series.Forecast.{
  take_until, extra_time, take_slice, forecast_slice, forecast_loop, forecast_merge,
}

module _ {ℓ} {V : Type ℓ} where
  take_until-throw :
      (t_end : UtcTime) (points : List (UtcTime × V))
      → All (λ x. x.0 <ℤ t_end) points
      → take_until t_end points ≡ throw out_of_range
  unfolding take_until
  take_until-throw t_end [] h = refl
  take_until-throw t_end (x ∷ points) h =
      let before : ltb_ℤ x.0 t_end ≡ true = ground (arith, h.0) in
      rw (before, take_until-throw t_end points h.1) refl

  -- The merge of one forecast throws, where all of its points lie before the end of its slice: the
  -- loop reads the time after the last point. The search for the start of the slice returns.
  pub forecast_merge-short :
      (x : UtcTime × V) (points : List (UtcTime × V)) (t_end : UtcTime) (fx : PointFx)
      (t0_offset dt : UtcTimespan) (found : Option ℕ)
      → All (λ y. y.0 <ℤ x.0 +ℤ t0_offset +ℤ dt) (x ∷ points)
      → index_of (point_dt (times (x ∷ points)) t_end) (x.0 +ℤ t0_offset) none ≡ ok found
      → forecast_merge
          (record { points = x ∷ points; t_end = t_end; fx_policy = fx } ∷ [])
          t0_offset
          dt
        ≡ throw out_of_range
  unfolding forecast_merge forecast_loop forecast_slice take_slice extra_time
  forecast_merge-short x points t_end fx t0_offset dt found short search =
      let from = x.0 +ℤ t0_offset in
      let no_gap : ltb_ℤ from from ≡ false = ground arith in
      let last : from +ℤ dt +ℤ pos 0 ≡ from +ℤ dt =
        eq_of_parts (from +ℤ dt +ℤ pos 0) (from +ℤ dt)
          (omega (arith, +ℤ_parts (from +ℤ dt) (pos 0))) in
      let ix : ℕ = elim found [ none ↦ length (x ∷ points) - 1 | some ix ↦ ix ] in
      let thrown =
        take_until-throw (from +ℤ dt) (drop ix (x ∷ points))
          (All-drop (λ y. y.0 <ℤ from +ℤ dt) ix (x ∷ points) short) in
      rw (no_gap, search, last, thrown) refl

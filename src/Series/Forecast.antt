-- ===== src/Series/Forecast.antt =====
-- `forecast_merge` of core/time_series_merge.h: a slice of each forecast, put together to one series.
pub mod Short
use shyft.Prelude.{ℕ, ◌-◌, Bool, Option, none, some, List, [], ◌∷◌, ◌++◌}
use shyft.Prelude.Tests.{if◌then◌else◌}
use shyft.Prelude.Lists.{length, drop}
use shyft.Prelude.Int.{pos, ◌+ℤ◌, ◌-ℤ◌, ltb_ℤ, max_ℤ}
use shyft.Prelude.Outcome.{Outcome, ok, throw, out_of_range, ◌>>=◌}
use shyft.Utc.{UtcTime, UtcTimespan, no_utctime}
use shyft.TimeAxis.Point.{point_dt, index_of, make}
use shyft.Series.{PointFx, instant_value, PointTs, times}

module _ {ℓ} {V : Type ℓ} where
  -- while(ts.time(ix) < t_end && ix < ts.size()): what it takes and what is left. The time is read
  -- before the index is tested, so after the last point it throws.
  unfoldable pub take_until :
      UtcTime → List (UtcTime × V) → Outcome (List (UtcTime × V) × List (UtcTime × V))
  take_until t_end [] = throw out_of_range
  take_until t_end (x ∷ points) =
      let rest = take_until t_end points in
      if ltb_ℤ x.0 t_end
      then (rest >>= λ (taken, left). ok (x ∷ taken, left))
      else ok ([], x ∷ points)

  abbrev pub first_time : PointTs V → Outcome UtcTime
  first_time ts = elim ts.points [ [] ↦ throw out_of_range | x ∷ _ ↦ ok x.0 ]

  -- `ts.index_of(t)`, or the index to take where there is none.
  abbrev pub index_or : ℕ → PointTs V → UtcTime → Outcome ℕ
  index_or other ts t = index_of (point_dt (times ts.points) ts.t_end) t none >>= λ found.
      ok (elim found [ none ↦ other | some ix ↦ ix ])

  -- What the next forecast leaves open after the slice.
  unfoldable pub extra_time : UtcTime → List (PointTs V) → UtcTimespan
  extra_time slice_end [] = pos 0
  extra_time slice_end (next ∷ tsv) = elim next.points [
    | [] ↦ pos 0
    | x ∷ _ ↦ max_ℤ (pos 0) (x.0 -ℤ slice_end)
  ]

  -- The points up to the end of the slice, and that end.
  unfoldable pub take_slice :
      UtcTime
      → UtcTimespan
      → List (PointTs V)
      → List (UtcTime × V)
      → Outcome (List (UtcTime × V) × UtcTime)
  take_slice t_start dt later points =
      let t_end = t_start +ℤ dt +ℤ extra_time (t_start +ℤ dt) later in
      take_until t_end points >>= λ (taken, _). ok (taken, t_end)

  -- One round of the loop: what is taken of `ts`, and the end of its slice.
  unfoldable pub forecast_slice :
      UtcTimespan
      → UtcTimespan
      → UtcTime
      → PointTs V
      → List (PointTs V)
      → Outcome (List (UtcTime × V) × UtcTime)
  forecast_slice t0_offset dt t_previous_end ts later = first_time ts >>= λ t0.
      let t_start = t0 +ℤ t0_offset in
      let from = max_ℤ t_start t_previous_end in
      if ltb_ℤ t_previous_end t_start
      then (index_or 0 ts t_previous_end >>= λ ix.
          take_until t_start (drop ix ts.points) >>= λ (lead, left).
          take_slice t_start dt later left >>= λ (taken, t_end). ok (lead ++ taken, t_end))
      else (index_or (length ts.points - 1) ts from >>= λ ix.
          take_slice from dt later (drop ix ts.points))

  unfoldable pub forecast_loop :
      UtcTimespan
      → UtcTimespan
      → UtcTime
      → List (PointTs V)
      → Outcome (List (UtcTime × V) × UtcTime)
  forecast_loop t0_offset dt t_previous_end [] = ok ([], t_previous_end)
  forecast_loop t0_offset dt t_previous_end (ts ∷ tsv) =
      forecast_slice t0_offset dt t_previous_end ts tsv >>= λ (taken, t_end).
      forecast_loop t0_offset dt t_end tsv >>= λ (rest, last_end). ok (taken ++ rest, last_end)

  unfoldable pub forecast_merge : List (PointTs V) → UtcTimespan → UtcTimespan → Outcome (PointTs V)
  forecast_merge [] t0_offset dt =
      ok (record { points = []; t_end = no_utctime; fx_policy = instant_value })
  forecast_merge (ts ∷ tsv) t0_offset dt = first_time ts >>= λ t0.
      forecast_loop t0_offset dt (t0 +ℤ t0_offset) (ts ∷ tsv) >>= λ (points, t_end).
      make (times points) t_end >>= λ ta.
      ok (record { points = points; t_end = ta.t_end; fx_policy = ts.fx_policy })

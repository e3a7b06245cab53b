-- ===== src/Tests/Series.antt =====
-- Merges of time-series at concrete inputs.
use shyft.Prelude.{ℕ, ◌+◌, ◌≡◌, refl, arith, [], ◌∷◌}
use shyft.Prelude.Int.{pos, negsuc}
use shyft.Prelude.Outcome.{ok}
use shyft.Prelude.{some}
use shyft.Prelude.Outcome.{throw, out_of_range}
use shyft.Prelude.Int.{◌+ℤ◌, ◌-ℤ◌}
use shyft.TimeAxis.Point.{make, back, index_of, index_inside, binary_search, lower_bound}
use shyft.Series.{PointTs, average_value, merge_from, merge_points, ts_point_merge}
use shyft.Series.Forecast.{
  take_until, extra_time, take_slice, forecast_slice, forecast_loop, forecast_merge,
}
use shyft.Series.Forecast.Short.{forecast_merge-short}
use shyft.Series.PointMerge.{IsSeries, IsMerged, ts_point_merge_lem}

abbrev first : PointTs ℕ
first = record {
  points = (pos 0, 1) ∷ (pos 10, 2) ∷ (pos 20, 3) ∷ [];
  t_end = pos 30;
  fx_policy = average_value;
}

abbrev second : PointTs ℕ
second = record {
  points = (pos 10, 7) ∷ (pos 15, 8) ∷ [];
  t_end = pos 40;
  fx_policy = average_value;
}

merges :
    ts_point_merge first second
    ≡ ok (record {
      points = (pos 0, 1) ∷ (pos 10, 7) ∷ (pos 15, 8) ∷ (pos 20, 3) ∷ [];
      t_end = pos 40;
      fx_policy = average_value;
    })
unfolding ts_point_merge merge_points merge_from make back
merges = refl

first-IsSeries : IsSeries first
first-IsSeries = record {
  start = negsuc 0;
  ordered = (omega arith, (omega arith, (omega arith, tt)));
  ended = (omega arith, (omega arith, (omega arith, tt)));
}

second-IsSeries : IsSeries second
second-IsSeries = record {
  start = negsuc 0;
  ordered = (omega arith, (omega arith, tt));
  ended = (omega arith, (omega arith, tt));
}

ts_point_merge_lem_example : IsMerged first second (ts_point_merge first second)
ts_point_merge_lem_example = ts_point_merge_lem first second first-IsSeries second-IsSeries

-- Two forecasts, 20 seconds apart, of which a slice of 20 seconds each is wanted.
abbrev forecast : ℕ → ℕ → PointTs ℕ
forecast start v = record {
  points =
      (pos start, v)
      ∷ (pos (start + 10), v + 1)
      ∷ (pos (start + 20), v + 2)
      ∷ (pos (start + 30), v + 3)
      ∷ [];
  t_end = pos (start + 40);
  fx_policy = average_value;
}

merged_forecasts :
    forecast_merge (forecast 0 1 ∷ forecast 20 5 ∷ []) (pos 0) (pos 20)
    ≡ ok (record {
      points = (pos 0, 1) ∷ (pos 10, 2) ∷ (pos 20, 5) ∷ (pos 30, 6) ∷ [];
      t_end = pos 40;
      fx_policy = average_value;
    })
unfolding forecast_merge forecast_loop forecast_slice take_slice extra_time take_until make back
    index_of index_inside binary_search lower_bound ◌+ℤ◌ ◌-ℤ◌
merged_forecasts = refl

short_forecast : forecast_merge (forecast 0 1 ∷ []) (pos 0) (pos 40) ≡ throw out_of_range
unfolding index_of index_inside binary_search lower_bound back ◌+ℤ◌
short_forecast =
    forecast_merge-short (pos 0, 1) ((pos 10, 2) ∷ (pos 20, 3) ∷ (pos 30, 4) ∷ []) (pos 40)
      average_value (pos 0) (pos 40) (some 0)
      (omega arith, (omega arith, (omega arith, (omega arith, tt)))) refl

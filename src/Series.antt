-- ===== src/Series.antt =====
-- Time-series of core/time_series.h, and the merges of core/time_series_point_merge.h. The source
-- keeps the time points and the values in two vectors of one length (`point_ts` throws on any
-- other), here one vector of points, each a time and a value. The axis is a `point_dt`, as
-- `ts_point_merge` leaves it, and the type of the values is a parameter.
pub mod PointMerge
pub mod Forecast
use shyft.Prelude.{Option, none, some, List, [], ◌∷◌, map}
use shyft.Prelude.Tests.{if◌then◌else◌}
use shyft.Prelude.Int.{ltb_ℤ, eqb_ℤ, max_ℤ}
use shyft.Prelude.Outcome.{Outcome, ok, ◌>>=◌}
use shyft.Utc.{UtcTime}
use shyft.TimeAxis.Point.{PointDt, point_dt, make}

pub data PointFx : Type 0 where
  instant_value average_value : PointFx

pub record PointTs {ℓ} (V : Type ℓ) : Type ℓ where
  pub points : List (UtcTime × V)
  pub t_end : UtcTime
  pub fx_policy : PointFx

module _ {ℓ} {V : Type ℓ} where
  abbrev pub times : List (UtcTime × V) → List UtcTime
  times l = map (λ x. x.0) l

  -- The loop while `a` has the point `x`: the points of `b` up to it, then `next`, the loop for the
  -- rest of `a` from there. At equal times the point of `b` stays.
  unfoldable pub merge_from :
      UtcTime × V
      → (List (UtcTime × V) → List (UtcTime × V))
      → List (UtcTime × V)
      → List (UtcTime × V)
  merge_from x next [] = x ∷ next []
  merge_from x next (y ∷ b) =
      let later = merge_from x next b in
      if eqb_ℤ x.0 y.0 then y ∷ next b else if ltb_ℤ x.0 y.0 then x ∷ next (y ∷ b) else y ∷ later

  unfoldable pub merge_points : List (UtcTime × V) → List (UtcTime × V) → List (UtcTime × V)
  unfolding merge_from
  merge_points [] b = b
  merge_points (x ∷ a) b = merge_from x (merge_points a) b

  unfoldable pub ts_point_merge : PointTs V → PointTs V → Outcome (PointTs V)
  ts_point_merge a b = elim b.points [
    | [] ↦ ok a
    | _ ∷ _ ↦ elim a.points [
      | [] ↦ ok b
      | _ ∷ _ ↦
          let merged = merge_points a.points b.points in
          make (times merged) (max_ℤ a.t_end b.t_end) >>= λ ta.
          ok (record a { points = merged; t_end = ta.t_end })
    ]
  ]

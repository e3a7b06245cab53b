-- ===== src/TimeAxis/Extend.antt =====
-- `extend` of core/time_axis.h: an axis up to a time, and another one from there on. `FixedAxes`,
-- `CalendarAxes` and `DenseAxes` have the versions for two fixed axes, for two of calendar steps and
-- for any two without holes, and here the version for generic axes chooses among them.
pub mod Slices
pub mod FixedAxes
pub mod CalendarAxes
pub mod DenseAxes
use shyft.Prelude.{Bool}
use shyft.Prelude.Outcome.{Outcome}
use shyft.Utc.{UtcTime}
use shyft.TimeAxis.Generic.{GenericDt, GenericType}
use FixedAxes.{extend_fixed}
use CalendarAxes.{extend_calendar}
use DenseAxes.{extend_dense}

-- `same_name` is whether the zones of the two calendars have one name.
unfoldable pub extend : Bool → GenericDt → GenericDt → UtcTime → Outcome GenericDt
extend same_name a b split_at = elim a.gt [
  | GenericType.fixed ↦ elim b.gt [
    | GenericType.fixed ↦ extend_fixed a.f b.f split_at
    | GenericType.calendar ↦ extend_dense a b split_at
    | GenericType.point ↦ extend_dense a b split_at
  ]
  | GenericType.calendar ↦ elim b.gt [
    | GenericType.fixed ↦ extend_dense a b split_at
    | GenericType.calendar ↦ extend_calendar same_name a.c b.c split_at
    | GenericType.point ↦ extend_dense a b split_at
  ]
  | GenericType.point ↦ extend_dense a b split_at
]

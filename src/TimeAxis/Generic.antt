-- ===== src/TimeAxis/Generic.antt =====
-- `generic_dt` of core/time_axis.h: one of the three axes, as told by a tag. The struct has a member
-- for each of them; a constructor sets the tag and its member. `none` stands for
-- `std::string::npos`.
use shyft.Prelude.{ℕ, Bool, true, false, Option}
use shyft.Prelude.Outcome.{Outcome, ok}
use shyft.Utc.{UtcTime, UtcPeriod, no_utctime}
use shyft.TimeAxis.Fixed
use shyft.TimeAxis.Fixed.{FixedDt}
use shyft.TimeAxis.Calendar
use shyft.TimeAxis.Calendar.{CalendarDt}
use shyft.TimeAxis.Point
use shyft.TimeAxis.Point.{PointDt}

pub data GenericType : Type 0 where
  fixed : GenericType
  calendar : GenericType
  point : GenericType

pub record GenericDt : Type 0 where
  pub gt : GenericType
  pub f : FixedDt
  pub c : CalendarDt
  pub p : PointDt

-- `fixed_dt()`, the member that is not used.
abbrev default_fixed : FixedDt
default_fixed = record { t = no_utctime; dt = 0; n = 0 }

abbrev pub of_fixed : FixedDt → GenericDt
of_fixed a = record { gt = fixed; f = a; c = Calendar.null_range; p = Point.null_range }

abbrev pub of_calendar : CalendarDt → GenericDt
of_calendar a = record { gt = calendar; f = default_fixed; c = a; p = Point.null_range }

abbrev pub of_point : PointDt → GenericDt
of_point a = record { gt = point; f = default_fixed; c = Calendar.null_range; p = a }

unfoldable pub is_fixed_dt : GenericDt → Bool
is_fixed_dt a = elim a.gt [ fixed ↦ true | calendar ↦ true | point ↦ false ]

unfoldable pub size : GenericDt → ℕ
size a = elim a.gt [
  | fixed ↦ Fixed.size a.f
  | calendar ↦ Calendar.size a.c
  | point ↦ Point.size a.p
]

unfoldable pub total_period : GenericDt → Outcome UtcPeriod
total_period a = elim a.gt [
  | fixed ↦ ok (Fixed.total_period a.f)
  | calendar ↦ Calendar.total_period a.c
  | point ↦ ok (Point.total_period a.p)
]

unfoldable pub period_at : GenericDt → ℕ → Outcome UtcPeriod
period_at a i = elim a.gt [
  | fixed ↦ Fixed.period_at a.f i
  | calendar ↦ Calendar.period_at a.c i
  | point ↦ Point.period_at a.p i
]

unfoldable pub time : GenericDt → ℕ → Outcome UtcTime
time a i = elim a.gt [
  | fixed ↦ Fixed.time a.f i
  | calendar ↦ Calendar.time a.c i
  | point ↦ Point.time a.p i
]

unfoldable pub index_of : GenericDt → UtcTime → Option ℕ → Outcome (Option ℕ)
index_of a t ix_hint = elim a.gt [
  | fixed ↦ ok (Fixed.index_of a.f t)
  | calendar ↦ Calendar.index_of a.c t
  | point ↦ Point.index_of a.p t ix_hint
]

unfoldable pub open_range_index_of : GenericDt → UtcTime → Option ℕ → Outcome (Option ℕ)
open_range_index_of a t ix_hint = elim a.gt [
  | fixed ↦ ok (Fixed.open_range_index_of a.f t)
  | calendar ↦ Calendar.open_range_index_of a.c t
  | point ↦ Point.open_range_index_of a.p t ix_hint
]

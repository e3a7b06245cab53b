-- ===== src/TimeAxis.antt =====
-- The time-axes of core/time_axis.h: ordered sequences of periods that do not overlap.
pub mod Fixed
pub mod Point
pub mod Calendar
pub mod Merge
pub mod Generic
pub mod Combine
pub mod Extend
pub mod Periods
pub mod SubPeriods
pub mod Sparse

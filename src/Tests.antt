-- ===== src/Tests.antt =====
-- The theorems and the code at concrete inputs.
pub mod Calendar
pub mod CalendarAxes
pub mod Expressions
pub mod Sparse
pub mod Span
pub mod Fragments
pub mod Caches
pub mod Axes
pub mod Series
pub mod Server
pub mod Rivers
pub mod Combined
pub mod Extended
pub mod Periods
pub mod Database

-- ===== src/Expressions.antt =====
-- Expressions of time-series, core/time_series_dd.h and core/time_series_dd.cpp.
pub mod Tree
pub mod Binding
pub mod Operators

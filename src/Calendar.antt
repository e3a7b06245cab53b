-- ===== src/Calendar.antt =====
-- The calendar of core/utctime_utilities.h and core/utctime_utilities.cpp.
pub mod Days
pub mod Zone
pub mod Units
pub mod Weeks
pub mod Steps

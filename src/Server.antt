-- ===== src/Server.antt =====
-- The time-series server, core/dtss.h, core/dtss.cpp and core/dtss_url.h.
pub mod Url
pub mod Requests
pub mod Read
pub mod Store
pub mod Bind

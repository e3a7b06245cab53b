-- ===== src/Routing.antt =====
-- The routing of core/routing.h: rivers that flow into one another.
pub mod Maps
pub mod Network

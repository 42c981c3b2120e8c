-- ===== src/Observation.antt =====
-- The search of price observations in a circular buffer (packages/astroport/src/observation.rs).
pub mod Search
pub mod Bounds
mod Tests

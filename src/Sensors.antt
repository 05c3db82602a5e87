-- ===== src/Sensors.antt =====
-- The crate heim-sensors.
pub mod Trips
pub mod Files
pub mod Temperatures

-- ===== src/Vdd.antt =====
-- crates/penflow-server/src/vdd.rs: switching the virtual display on and off.
pub mod Host
pub mod Helper
pub mod Controller
pub mod Disabled
pub mod Enabled
pub mod Dropped
pub mod Detect
pub mod Preferred
pub mod Tests

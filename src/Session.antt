-- ===== src/Session.antt =====
-- crates/penflow-server/src/session.rs: one session with a client, from the handshake on.
pub mod Sample
pub mod Reading
pub mod Stats
pub mod Frames
pub mod Greeting
pub mod Waiting
pub mod Telemetry
pub mod Tests

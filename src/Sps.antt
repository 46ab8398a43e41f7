-- ===== src/Sps.antt =====
-- crates/penflow-core/src/encoder/sps_patcher.rs: the rewriter of H.264 and HEVC parameter sets.
pub mod Bits
pub mod Reader
pub mod Writer
pub mod Walker
pub mod Vui
pub mod H264
pub mod Hevc
pub mod Emulation
pub mod Packet
pub mod Tests

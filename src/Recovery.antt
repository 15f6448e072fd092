-- ===== src/Recovery.antt =====
-- Recovery of a damaged archive: crates/phx_recovery/src/engine.rs and what it works with.
pub mod Model
pub mod Select
pub mod Verdict
pub mod Engine
pub mod Gate
pub mod Passes
pub mod Recover
pub mod Stream
pub mod Writes
pub mod Quiet
pub mod Order
pub mod Passthrough
mod Tests

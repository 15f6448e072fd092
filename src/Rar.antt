-- ===== src/Rar.antt =====
-- crates/phx_recovery/src/rar/mod.rs: the inventory of a RAR5 archive from headers whose CRC-32
-- validates, and the extraction of stored files.
pub mod Defs
pub mod Walk
pub mod Layout
pub mod Vint
pub mod Proven
pub mod Guard
pub mod Stored
pub mod Extracted
mod Tests

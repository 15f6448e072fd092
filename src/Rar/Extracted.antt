-- ===== src/Rar/Extracted.antt =====
-- What crates/phx_recovery/src/rar/mod.rs extracts from the entries of an inventory.
use veraqis_recover.Prelude.{List}

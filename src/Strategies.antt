-- ===== src/Strategies.antt =====
-- The recovery strategies of crates/phx_recovery/src/strategies.
pub mod Common
pub mod Verbatim
pub mod TarRepair
pub mod ContinuationSalvage
pub mod Filling
pub mod Rebuild
pub mod Resalvage
pub mod GzMemberSalvage
pub mod GzBody
pub mod GzRestore
pub mod GzTrailer
pub mod SizeResync
pub mod ResyncEntries
pub mod ResyncReads
pub mod ResyncContents
pub mod ResyncPositions
pub mod ResyncArchive
pub mod Terminator
pub mod SevenZRestore
pub mod Behaves
pub mod GzRuns
pub mod Runs
pub mod ForensicCarve
pub mod Scan
pub mod Carving
pub mod Headers
mod Tests

-- ===== src/Lib.antt =====
-- A verification library for VERAQIS Recover, which analyzes damaged archives and repairs what it
-- can prove.
--
-- The program. The analyzer (crates/phx_analyze_engine) reads a file and gives an analysis: format,
-- corruptions, health. The recovery engine (crates/phx_recovery/src/engine.rs) selects strategies
-- for the analysis, lets at most three of them stage an output in memory, re-analyzes and hashes
-- each, rolls back what the gate does not let through, and commits the rest beside a signed manifest.
-- The strategies (crates/phx_recovery/src/strategies) repair one format each, over format modules
-- (rar, sevenz, resync) that rest on the checksums of crates/phx_recovery/src/crc. Evidence records
-- (crates/phx_recovery/src/evidence) say how strongly a result is proven.
--
-- The files.
--   Prelude      shared names: lists and texts over native numbers, byte strings, bit operations,
--                Option and Result with their binds, String::from_utf8_lossy.
--   Crc          crc/mod.rs and crc/catalog.rs of crates/phx_recovery/src. `checksum`, `verify` and
--                `mask` keep their names; `register` is the loop over the bytes, `byte_round` its
--                body, `bit_round` the inner loop's. A u64 is a native number; shifts to the left are
--                cut by the mask, as the source cuts them. `crc32` is the callers' `as u32`.
--                Table is the CRC-32 by a table of phx_analyze_engine's integrity/crc32.rs (its `crc32`
--                is `table_crc32`, `TABLE[idx]` is `table_at`), Bitwise the same without a table.
--   Evidence     evidence/mod.rs. Constructors have the prefix new_, the builder `solved_against` is
--                add_solved_against; `finish` gives a result of its own.
--   Rar          rar/mod.rs. Defs has the readers, Walk the loop of `read_inventory`. A cursor
--                `&mut usize` is passed in and out. The loop's guard of a million rounds is the fuel,
--                as in the source: where the source breaks, the fuel has run out.
--                Layout says what the fields of a header and of a file header are.
--   SevenZ       sevenz/mod.rs; a usize has 64 bits.
--   Ustar        the octal fields and the checksum of a header in strategies/tar_repair.rs.
--   Recovery     Model has model.rs, plan.rs, the trait of strategies/mod.rs as a record, and the
--                fields of the analysis that are read. Select has `select` and `plan`, Verdict what is
--                learnt of a staged output and the gate, Engine `run_passes`, Recover and Stream
--                `recover` and `recover_stream`. The sink is its bytes. The aggregate report is passed
--                along, also where the passes end with an error. What is done to the files is a list
--                of effects in order, listed whether or not they succeed. A message is kept in pieces.
--   Resync       resync/mod.rs (Resync), resync/tar.rs (Tar), resync/build.rs (Build),
--                resync/deflate.rs (Stored) and resync/gzip.rs (Gzip, GzipWalk). A slice that ends before
--                it starts makes `salvage_gzip` panic, and gives no result in the model. The loop of `salvage_tar` passes a record of its local
--                variables along; `on_block` is its body, with a function for each way a block is
--                taken. A header is built by writing fields over zeros, as in the source.
--   Health       src/health and src/model/health.rs of crates/phx_analyze_engine. The counters of
--                `score` are i32 in two's complement, and wrap around as in a release build. The overall
--                score, a whole number of fifths, is rounded as an exact number.
--   Strategies   bitflip.rs, tar_reorder.rs, partial_extract.rs and iso_sector.rs (Verbatim),
--                tar_repair.rs (TarRepair), sevenz_restore.rs (SevenZRestore),
--                tar_continuation_salvage.rs (ContinuationSalvage), tar_size_resync.rs (SizeResync; a size
--                of 8^11 bytes makes the source panic, and gives no result in the model), gz_restore.rs (GzBody,
--                GzRestore), gz_member_salvage.rs (GzMemberSalvage), forensic_carve.rs (ForensicCarve). `fix_blocks` walks the
--                blocks one by one and counts the data blocks it still has to pass, in place of an
--                index that jumps over them.
--
-- Services. The engine takes as arguments: the analyzer and the hash (Recovery.Verdict.Services), the
-- file system, the equality of paths and the manifest's signed text (Recovery.Recover.Storage), and
-- the list of registered strategies. The theorems on the engine hold for all of them. The DEFLATE decoder, the
-- encoder and the CRC-32 of the flate2 crate are arguments too (Resync.Gzip.Flate).
--
-- Fuel. The loops are structural recursions but for six: the walk over RAR blocks, whose fuel is
-- the source's guard; the TAR salvage, which has as many rounds as there are whole blocks; the scan
-- for stored blocks, which has as many as there are bytes; the walk over TAR blocks, which has as many rounds as there are whole blocks;
-- `put_vint`, which has ten rounds, as many as a u64 has groups of seven bits; and the decoding of
-- UTF-8, which has as many rounds as there are bytes.
--
-- Not modelled: the ZIP strategies, the selection of the GZIP member salvage and of
-- the size resync of TAR, the
-- manifest's contents, the analyzer, ZIP core, format identification, the command line, fixtures;
-- of the modelled parts, logging, display texts and serialization.
pub mod Prelude
pub mod Crc
pub mod Evidence
pub mod SevenZ
pub mod Rar
pub mod Recovery
pub mod Ustar
pub mod Strategies
pub mod Resync
pub mod Health

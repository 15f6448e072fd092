-- ===== src/Strategies/TarRepair.antt =====
-- strategies/tar_repair.rs: the checksums of ustar headers, and the end-of-archive terminator.
use veraqis_recover.Prelude.{
  ℕ, zero, suc, ◌+◌, ◌-◌, ◌/◌, Bool, true, ◌||◌, ◌&&◌, [], ◌∷◌, ◌++◌, Bytes, leb, ◌==◌,
  if◌then◌else◌, any, length, take, drop, slice, replicate,
}
use veraqis_recover.Prelude.Results.{Result, ok, ◌>>=◌}
use veraqis_recover.Ustar.{
  all_zero, is_ustar, octal_field, or_value, ustar_checksum_compute, ustar_checksum_read,
  with_checksum,
}
use veraqis_recover.Recovery.Model.{
  tar, truncation, RecoveryError, RecoveryReport, RecoveryStrategy, number, text, plain, safe,
  DataSource, read_all,
}
use veraqis_recover.Strategies.Common.{is_category, is_rule, is_format, started}

-- A header block with a checksum that is not its own gets its own.
unfoldable pub fix_block : Bytes → Bytes × ℕ
fix_block block =
    if ustar_checksum_read block == ustar_checksum_compute block
    then (block, 0)
    else (with_checksum block, 1)

-- A block without the ustar magic is left as it is.
unfoldable pub fix_header : Bytes → Bytes × ℕ
fix_header block = if is_ustar block then fix_block block else (block, 0)

-- `size.div_ceil(512)` of the header's size field.
abbrev pub data_blocks : Bytes → ℕ
data_blocks block = (or_value 0 (octal_field (slice 124 136 block)) + 511) / 512

-- The `while` loop, on the data from the block at `pos` on: blocks before it are done with. The
-- loop takes each block once, or leaves data blocks out; `skip` counts those left to be passed.
unfoldable pub fix_blocks : ℕ → ℕ → Bytes → Bytes × ℕ
fix_blocks zero skip bytes = (bytes, 0)
fix_blocks (suc blocks) (suc skip) bytes =
    let (rest, fixed) = fix_blocks blocks skip (drop 512 bytes) in (take 512 bytes ++ rest, fixed)
fix_blocks (suc blocks) zero bytes =
    let block = take 512 bytes in
    let (header, more) = fix_header block in
    let skip = if is_ustar block then data_blocks header else 0 in
    let (rest, fixed) = fix_blocks blocks skip (drop 512 bytes) in
    if all_zero block then (bytes, 0) else (header ++ rest, more + fixed)

-- All headers of a byte string: as many blocks as it has whole.
unfoldable pub fix_checksums : Bytes → Bytes × ℕ
fix_checksums bytes = fix_blocks (length bytes / 512) 0 bytes

unfoldable pub checksum_fix_result : Bytes → Bytes × ℕ → Bytes × RecoveryReport
checksum_fix_result sink (repaired, fixed) =
    if fixed == 0 && all_zero repaired
    then (
      sink,
      record (started "tar-checksum-fix") { warnings = plain "no valid UStar headers found" ∷ [] },
    )
    else (
      sink ++ repaired,
      record (started "tar-checksum-fix") {
        bytes_recovered = length repaired;
        success = true;
        warnings =
            (text "fixed checksum in " ∷ number fixed ∷ text " TAR header block(s)" ∷ []) ∷ [];
      },
    )

unfoldable pub apply_checksum_fix :
    DataSource → Bytes → Result RecoveryError (Bytes × RecoveryReport)
apply_checksum_fix source sink = do
  bytes ← read_all source
  ok (checksum_fix_result sink (fix_checksums bytes))

unfoldable pub tar_checksum_fix : RecoveryStrategy
tar_checksum_fix = record {
  name = "tar-checksum-fix";
  technique = "UstarChecksumFix";
  risk = safe;
  handles = is_rule "TAR_UST_001";
  predicted_outcome = λ c. plain "recompute and overwrite the UStar header checksum field";
  can_apply = λ result. is_format tar result && any (is_rule "TAR_UST_001") result.corruptions;
  priority = 85;
  apply = apply_checksum_fix;
}

abbrev pub terminator : Bytes
terminator = replicate 1024 0

unfoldable pub already_terminated : Bytes → Bool
already_terminated bytes = leb 1024 (length bytes) && all_zero (drop (length bytes - 1024) bytes)

unfoldable pub terminate : Bytes → Bytes
terminate bytes = if already_terminated bytes then bytes else bytes ++ terminator

unfoldable pub apply_terminator_append :
    DataSource → Bytes → Result RecoveryError (Bytes × RecoveryReport)
apply_terminator_append source sink = do
  bytes ← read_all source
  ok (
    sink ++ terminate bytes,
    record (started "tar-terminator-append") {
      bytes_recovered = if already_terminated bytes then length bytes else length bytes + 1024;
      success = true;
      warnings =
          plain (
            if already_terminated bytes
            then "archive already has a terminator; copied verbatim"
            else "appended 2×512 end-of-archive terminator blocks")
          ∷ [];
    },
  )

unfoldable pub tar_terminator_append : RecoveryStrategy
tar_terminator_append = record {
  name = "tar-terminator-append";
  technique = "TerminatorAppend";
  risk = safe;
  handles = is_rule "TAR_TERM_001";
  predicted_outcome = λ c. plain "append two 512-byte zero blocks (end-of-archive terminator)";
  can_apply = λ result.
      is_format tar result
      && any (λ c. is_rule "TAR_TERM_001" c || is_category truncation c) result.corruptions;
  priority = 88;
  apply = apply_terminator_append;
}

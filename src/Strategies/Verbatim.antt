-- ===== src/Strategies/Verbatim.antt =====
-- The strategies that stage the source as it is: strategies/bitflip.rs, tar_reorder.rs,
-- partial_extract.rs and iso_sector.rs.
use veraqis_recover.Prelude.{
  ◌-◌, false, ◌&&◌, [], ◌∷◌, ◌++◌, Bytes, ltb, if◌then◌else◌, any, length,
}
use veraqis_recover.Prelude.Texts.{starts_with}
use veraqis_recover.Prelude.Results.{Result, ok, ◌>>=◌}
use veraqis_recover.Recovery.Model.{
  tar, iso9660, missing_data, bit_flip, block_reorder, truncation, RecoveryError, RecoveryReport,
  RecoveryStrategy, number, text, plain, safe, inferred, lossy, DataSource, read_all,
}
use veraqis_recover.Strategies.Common.{is_category, is_format, started}

-- The source written behind what is staged, and the report on its length.
unfoldable pub verbatim :
    (DataSource → Bytes → RecoveryReport)
    → DataSource
    → Bytes
    → Result RecoveryError (Bytes × RecoveryReport)
verbatim report source sink = do bytes ← read_all source; ok (sink ++ bytes, report source bytes)

unfoldable pub bitflip_report : DataSource → Bytes → RecoveryReport
bitflip_report source bytes = record (started "bitflip") {
  bytes_recovered = length bytes;
  warnings =
      plain
        "bitflip correction requires a per-block reference or ECC; staged source verbatim for verification"
      ∷ [];
  success = false;
}

unfoldable pub bit_flip_correction : RecoveryStrategy
bit_flip_correction = record {
  name = "bitflip";
  technique = "ReferenceVerify";
  risk = inferred;
  handles = is_category bit_flip;
  predicted_outcome =
      λ c. plain "verify the flipped region against the manifest (no ECC ⇒ confirm, not correct)";
  can_apply = λ result.
      result.integrity_result.manifest_present && any (is_category bit_flip) result.corruptions;
  priority = 90;
  apply = verbatim bitflip_report;
}

unfoldable pub tar_reorder_report : DataSource → Bytes → RecoveryReport
tar_reorder_report source bytes = record (started "tar-reorder") {
  bytes_recovered = length bytes;
  warnings =
      plain
        "block reordering requires authoritative ordering metadata; staged readable blocks unchanged"
      ∷ [];
  success = false;
}

unfoldable pub tar_block_reorder : RecoveryStrategy
tar_block_reorder = record {
  name = "tar-reorder";
  technique = "BlockResequence";
  risk = safe;
  handles = λ c. starts_with c.rule_id "TAR_BLOCK";
  predicted_outcome =
      λ c. plain "stage individually-readable TAR blocks (reorder needs ordering metadata)";
  can_apply = λ result. is_format tar result && any (is_category block_reorder) result.corruptions;
  priority = 80;
  apply = verbatim tar_reorder_report;
}

-- `saturating_sub` stops at 0, as the subtraction here.
unfoldable pub partial_extract_report : DataSource → Bytes → RecoveryReport
partial_extract_report source bytes =
    let lost = source.len - length bytes in
    record (started "partial-extract") {
      bytes_recovered = length bytes;
      bytes_lost = lost;
      success = ltb 0 (length bytes);
      warnings =
          if ltb 0 lost
          then (number lost
              ∷ text " of "
              ∷ number source.len
              ∷ text " bytes were unreadable and omitted"
              ∷ [])
            ∷ []
          else [];
    }

unfoldable pub partial_extraction : RecoveryStrategy
partial_extraction = record {
  name = "partial-extract";
  technique = "TruncationSalvage";
  risk = lossy;
  handles = is_category truncation;
  predicted_outcome =
      λ c. plain "salvage every readable byte up to the truncation; lost tail is reported";
  can_apply = λ result. any (is_category truncation) result.corruptions;
  priority = 30;
  apply = verbatim partial_extract_report;
}

unfoldable pub iso_sector_report : DataSource → Bytes → RecoveryReport
iso_sector_report source bytes = record (started "iso-sector") {
  bytes_recovered = length bytes;
  warnings = plain "no ECC sectors present; staged readable sectors without reconstruction" ∷ [];
  success = false;
}

unfoldable pub iso_sector_reconstruction : RecoveryStrategy
iso_sector_reconstruction = record {
  name = "iso-sector";
  technique = "SectorExtract";
  risk = lossy;
  handles = λ c. starts_with c.rule_id "ISO_SECTOR";
  predicted_outcome =
      λ c. plain "extract readable sectors; missing sectors need ECC to reconstruct";
  can_apply =
      λ result. is_format iso9660 result && any (is_category missing_data) result.corruptions;
  priority = 70;
  apply = verbatim iso_sector_report;
}

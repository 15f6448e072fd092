-- ===== src/Strategies/Common.antt =====
-- What the strategies share: the tests on an analysis, and the report they start from.
use veraqis_recover.Prelude.{ℕ, Bool, false, none, some, [], ◌∷◌, ◌==◌}
use veraqis_recover.Prelude.Texts.{String, text_eq}
use veraqis_recover.Recovery.Model.{
  ArchiveFormat, raw, zip, tar, iso9660, gzip, sqlite, seven_z, rar, pdf, bzip2, xz, zstd, lz4,
  CorruptionCategory, missing_data, bit_flip, block_reorder, truncation, padding_mismatch,
  checksum_mismatch, structural_corruption, security_threat, Corruption, AnalysisResult,
  RecoveryReport, empty,
}

abbrev format_number : ArchiveFormat → ℕ
format_number raw = 0
format_number zip = 1
format_number tar = 2
format_number iso9660 = 3
format_number gzip = 4
format_number sqlite = 5
format_number seven_z = 6
format_number rar = 7
format_number pdf = 8
format_number bzip2 = 9
format_number xz = 10
format_number zstd = 11
format_number lz4 = 12

abbrev category_number : CorruptionCategory → ℕ
category_number missing_data = 0
category_number bit_flip = 1
category_number block_reorder = 2
category_number truncation = 3
category_number padding_mismatch = 4
category_number checksum_mismatch = 5
category_number structural_corruption = 6
category_number security_threat = 7

abbrev pub is_category : CorruptionCategory → Corruption → Bool
is_category category c = category_number c.category == category_number category

abbrev pub is_rule : String → Corruption → Bool
is_rule rule c = text_eq c.rule_id rule

-- `archive_format == Some(format)`.
abbrev pub is_format : ArchiveFormat → AnalysisResult → Bool
is_format format result = elim result.archive_format [
  | none ↦ false
  | some f ↦ format_number f == format_number format
]

abbrev pub started : String → RecoveryReport
started name = record (empty "") { strategies_applied = name ∷ [] }

-- ===== src/Health/Table.antt =====
-- The table of penalties of crates/phx_analyze_engine/src/health/weights.rs.
use veraqis_recover.Prelude.{ℕ, Bool, true, false, List, [], ◌∷◌}
use veraqis_recover.Prelude.Texts.{String}

pub record RulePenalty : Type 0 where
  pub points : ℕ
  pub structural : Bool
  pub data_health : Bool
  pub metadata : Bool

abbrev pub penalty_s : ℕ → RulePenalty
penalty_s points = record {
  points = points;
  structural = true;
  data_health = false;
  metadata = false;
}

abbrev pub penalty_d : ℕ → RulePenalty
penalty_d points = record {
  points = points;
  structural = false;
  data_health = true;
  metadata = false;
}

abbrev pub penalty_sd : ℕ → RulePenalty
penalty_sd points = record {
  points = points;
  structural = true;
  data_health = true;
  metadata = false;
}

abbrev pub penalty_all : ℕ → RulePenalty
penalty_all points = record {
  points = points;
  structural = true;
  data_health = true;
  metadata = true;
}

abbrev pub default_benign : ℕ
default_benign = 0

abbrev pub default_minor : ℕ
default_minor = 10

abbrev pub default_major : ℕ
default_major = 25

abbrev pub default_catastrophic : ℕ
default_catastrophic = 50

unfoldable pub rule_penalties : List (String × RulePenalty)
rule_penalties =
    ("ZIP_EOCD_001", penalty_all 85)
    ∷ ("ZIP_EOCD_002", penalty_all 63)
    ∷ ("ZIP_EOCD_003", penalty_all 63)
    ∷ ("ZIP_CD_001", penalty_all 85)
    ∷ ("ZIP_CD_002", penalty_sd 44)
    ∷ ("ZIP_CD_003", penalty_sd 56)
    ∷ ("ZIP_LFH_001", penalty_sd 56)
    ∷ ("ZIP_CRC_001", penalty_d 10)
    ∷ ("ZIP_CRC_002", penalty_sd 44)
    ∷ ("ZIP_SIZE_001", penalty_sd 56)
    ∷ ("ZIP_TRUNC_001", penalty_sd 13)
    ∷ ("ZIP_TRUNC_002", penalty_sd 44)
    ∷ ("ZIP_TRUNC_003", penalty_all 68)
    ∷ ("ZIP_TRUNC_004", penalty_all 85)
    ∷ ("ZIP_FLIP_001", penalty_d 10)
    ∷ ("ZIP_FLIP_002", penalty_sd 40)
    ∷ ("ZIP_FLIP_003", penalty_sd 44)
    ∷ ("ZIP_EXTRA_001", penalty_sd 22)
    ∷ ("ZIP_Z64_001", penalty_sd 56)
    ∷ ("TAR_UST_001", penalty_sd 25)
    ∷ ("TAR_TERM_001", penalty_d 10)
    ∷ ("TAR_SIZE_001", penalty_sd 44)
    ∷ ("TAR_SIZE_002", penalty_all 40)
    ∷ ("TAR_BLOCK_001", penalty_sd 44)
    ∷ ("TAR_GNU_001", penalty_sd 56)
    ∷ ("TAR_TRUNC_001", penalty_sd 13)
    ∷ ("TAR_TRUNC_002", penalty_sd 44)
    ∷ ("TAR_TRUNC_003", penalty_all 85)
    ∷ ("TAR_FLIP_001", penalty_d 10)
    ∷ ("TAR_FLIP_002", penalty_sd 44)
    ∷ ("ISO_PVD_001", penalty_all 85)
    ∷ ("ISO_PT_001", penalty_all 63)
    ∷ ("ISO_SVD_001", penalty_sd 44)
    ∷ ("ISO_DIR_001", penalty_sd 44)
    ∷ ("ISO_SECTOR_001", penalty_d 10)
    ∷ ("ISO_SECTOR_002", penalty_sd 56)
    ∷ ("ISO_TRUNC_001", penalty_sd 44)
    ∷ ("ISO_TRUNC_002", penalty_all 68)
    ∷ ("GZ_MAGIC_001", penalty_all 85)
    ∷ ("GZ_ICRC_001", penalty_sd 56)
    ∷ ("GZ_ISIZE_001", penalty_d 15)
    ∷ ("GZ_FLIP_001", penalty_sd 56)
    ∷ ("PDF_HDR_001", penalty_all 85)
    ∷ ("PDF_XREF_001", penalty_sd 44)
    ∷ ("PDF_EOF_001", penalty_sd 30)
    ∷ ("SQ_MAGIC_001", penalty_all 85)
    ∷ ("SQ_PGSIZE_001", penalty_all 85)
    ∷ ("SQ_PGSIZE_002", penalty_sd 30)
    ∷ ("SQ_FC_001", penalty_s 10)
    ∷ ("SQ_BTREE_001", penalty_sd 44)
    ∷ ("SQ_BTREE_002", penalty_sd 30)
    ∷ ("SQ_BTREE_003", penalty_sd 20)
    ∷ ("SQ_FREE_001", penalty_d 15)
    ∷ ("SQ_FREE_002", penalty_sd 20)
    ∷ ("SQ_WAL_001", penalty_s 10)
    ∷ ("SQ_WAL_002", penalty_s 15)
    ∷ ("SQ_TRUNC_001", penalty_sd 44)
    ∷ ("SQ_TRUNC_002", penalty_all 75)
    ∷ ("SQ_FLIP_001", penalty_d 10)
    ∷ ("SQ_FLIP_002", penalty_sd 25)
    ∷ ("SQ_COMP_001", penalty_all 70)
    ∷ ("GEN_TRUNC_001", penalty_sd 44)
    ∷ ("GEN_FLIP_001", penalty_d 10)
    ∷ ("GEN_MISSING_001", penalty_sd 44)
    ∷ ("GEN_STRUCT_001", penalty_sd 44)
    ∷ ("INTEGRITY_HASH_001", penalty_d 20)
    ∷ ("RAR_MAGIC_001", penalty_all 85)
    ∷ ("7Z_MAGIC_001", penalty_all 85)
    ∷ ("7Z_TRUNC_001", penalty_sd 50)
    ∷ ("BZ2_MAGIC_001", penalty_all 85)
    ∷ ("XZ_MAGIC_001", penalty_all 85)
    ∷ ("ZST_MAGIC_001", penalty_all 85)
    ∷ ("LZ4_MAGIC_001", penalty_all 85)
    ∷ []

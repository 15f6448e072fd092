-- ===== src/Recovery/Model.antt =====
-- What the engine and the strategies exchange: crates/phx_recovery/src/model.rs and plan.rs,
-- the trait of strategies/mod.rs, and the parts of phx_analyze_engine/src/model they read.
use veraqis_recover.Prelude.{
  ℕ, max, Bool, false, ◌||◌, Option, none, some, List, [], ◌∷◌, ◌++◌, map, Bytes, if◌then◌else◌,
}
use veraqis_recover.Prelude.Texts.{String, contains}
use veraqis_recover.Prelude.Results.{Result, ok_or}

pub data ArchiveFormat : Type 0 where
  raw zip tar iso9660 gzip sqlite seven_z rar pdf bzip2 xz zstd lz4 : ArchiveFormat

pub data CorruptionCategory : Type 0 where
  missing_data bit_flip block_reorder truncation padding_mismatch checksum_mismatch
        structural_corruption security_threat :
      CorruptionCategory

pub data Severity : Type 0 where
  benign minor major catastrophic : Severity

pub record ByteRange : Type 0 where
  pub start : ℕ
  pub end : ℕ

-- The rule is that of the primary evidence of the corruption's chain.
pub record Corruption : Type 0 where
  pub rule_id : String
  pub category : CorruptionCategory
  pub severity : Severity
  pub byte_range : Option ByteRange

pub record IntegrityResult : Type 0 where
  pub expected_hash : Option String
  pub actual_hash : String
  pub matches : Bool
  pub manifest_present : Bool

-- `health_score` is the overall score.
pub record AnalysisResult : Type 0 where
  pub archive_format : Option ArchiveFormat
  pub integrity_result : IntegrityResult
  pub corruptions : List Corruption
  pub health_score : ℕ

unfoldable pub without_manifest : String → IntegrityResult
without_manifest hash = record {
  expected_hash = none;
  actual_hash = hash;
  matches = false;
  manifest_present = false;
}

pub data RecoveryError : Type 0 where
  io : String → RecoveryError
  output_equals_source : RecoveryError
  no_applicable_strategy : RecoveryError
  strategy_failed : String → String → RecoveryError

-- A formatted text, in pieces; `hex` is a number in eight hexadecimal digits, `utf8` a text by its
-- bytes.
pub data Piece : Type 0 where
  number : ℕ → Piece
  hex : ℕ → Piece
  text : String → Piece
  utf8 : Bytes → Piece

abbrev pub Message : Type 0
Message = List Piece

abbrev pub plain : String → Message
plain words = text words ∷ []

pub data RepairRisk : Type 0 where
  safe inferred lossy : RepairRisk

pub record RepairPlan : Type 0 where
  pub rule_id : String
  pub technique : String
  pub target_range : Option ByteRange
  pub predicted_outcome : Message
  pub risk : RepairRisk

pub record RecoveryReport : Type 0 where
  pub success : Bool
  pub output_path : String
  pub bytes_recovered : ℕ
  pub bytes_lost : ℕ
  pub files_recovered : List String
  pub files_failed : List String
  pub strategies_applied : List String
  pub post_recovery_integrity : Option IntegrityResult
  pub health_before : Option ℕ
  pub health_after : Option ℕ
  pub rolled_back : List String
  pub manifest_path : Option String
  pub warnings : List Message

unfoldable pub empty : String → RecoveryReport
empty path = record {
  success = false;
  output_path = path;
  bytes_recovered = 0;
  bytes_lost = 0;
  files_recovered = [];
  files_failed = [];
  strategies_applied = [];
  post_recovery_integrity = none;
  health_before = none;
  health_after = none;
  rolled_back = [];
  manifest_path = none;
  warnings = [];
}

-- The files of `others` behind those of `files`, each once.
unfoldable pub push_new : List String → List String → List String
push_new files [] = files
push_new files (f ∷ others) = push_new (if contains f files then files else files ++ f ∷ []) others

abbrev or_else : Option ℕ → Option ℕ → Option ℕ
or_else none old = old
or_else (some h) old = some h

unfoldable pub merge : RecoveryReport → RecoveryReport → RecoveryReport
merge self other = record self {
  success = self.success || other.success;
  bytes_recovered = max self.bytes_recovered other.bytes_recovered;
  bytes_lost = other.bytes_lost;
  files_recovered = push_new self.files_recovered other.files_recovered;
  files_failed = push_new self.files_failed other.files_failed;
  strategies_applied = self.strategies_applied ++ other.strategies_applied;
  health_after = or_else other.health_after self.health_after;
  rolled_back = self.rolled_back ++ other.rolled_back;
  warnings = self.warnings ++ other.warnings;
}

-- A source opened for reading: its path, its length and what reading all of it gives.
pub record DataSource : Type 0 where
  pub path : String
  pub len : ℕ
  pub content : Option Bytes

unfoldable pub read_all : DataSource → Result RecoveryError Bytes
read_all source = ok_or (io source.path) source.content

-- A strategy; `apply` starts from the sink that it is given.
pub record RecoveryStrategy : Type 0 where
  pub name : String
  pub technique : String
  pub risk : RepairRisk
  pub handles : Corruption → Bool
  pub predicted_outcome : Corruption → Message
  pub can_apply : AnalysisResult → Bool
  pub priority : ℕ
  pub apply : DataSource → Bytes → Result RecoveryError (Bytes × RecoveryReport)

unfoldable pub filter : {A : Type 0} → (A → Bool) → List A → List A
filter p [] = []
filter p (x ∷ xs) = let rest = filter p xs in if p x then x ∷ rest else rest

unfoldable pub plan_of : RecoveryStrategy → AnalysisResult → List RepairPlan
plan_of s result =
    map
      (λ c. record {
        rule_id = c.rule_id;
        technique = s.technique;
        target_range = c.byte_range;
        predicted_outcome = s.predicted_outcome c;
        risk = s.risk;
      })
      (filter s.handles result.corruptions)
